-- ===== src/Storage/Tidy.antt =====
-- storage/safe_json.py: the temporary files of an atomic write.
use auto_nav_log.Common.{
  Bool, List, Option, [], any, arith, eqb, false, none, some, true, ℕ, ◌∷◌, ◌≡◌, ◌⊎◌, ◌||◌,
}
use auto_nav_log.Common.Result.{Result, err, ok}
use auto_nav_log.Storage.Effect.{Failure}
use auto_nav_log.Storage.Endings.{
  Both, Both-state, Ends, attempt-Ends, finished-Both, next-Both, next-Ends, recovering-Both,
}
use auto_nav_log.Storage.SafeJson.{
  Calls, Files, W, add_temporary, atomic_validated_write, attempt, back_up, checked, differs,
  finally, first_fault, make_temporary, next, passes, publish, put_backup, put_both, put_path, ◌>>◌,
  raises, raises_with, read_back, read_back_with, read_previous, read_with, recovering,
  refuse_removal, replace, replace_bytes, restore, returns, set_temporary, spend, unlink,
  write_over, write_temp,
}

abbrev pub among : ℕ → List ℕ → Bool
among name names = any (λ other. eqb name other) names

module _ {Raw : Type 0} where
  -- Each temporary file was there at the start, is in use, or its removal raised.
  abbrev Traced : (ℕ → Bool) → List ℕ → Calls Raw → Type 0
  Traced start used s =
      (name : ℕ)
      → s.temporaries.exists name ≡ true
      → (start name || (among name s.temporaries.refused || among name used)) ≡ true

  unlink-Traced :
      (start : ℕ → Bool) (used : List ℕ) (name : ℕ) (s : Calls Raw)
      → Traced start (name ∷ used) s
      → Both (Traced start used) (unlink name s)
  unfolding unlink
  unlink-Traced start used name s h =
      attempt-Ends (Traced start used) (Traced start used) (set_temporary name false)
        (refuse_removal name) s (λ other there. ground (arith, h other))
        (λ other there. ground (arith, h other))

  more-Traced :
      (start : ℕ → Bool) (used : List ℕ) (name : ℕ) (s : Calls Raw)
      → Traced start used s
      → Traced start (name ∷ used) s
  more-Traced start used name s h other there = ground (arith, h other)

  replace-Traced :
      (start : ℕ → Bool) (used : List ℕ) (name : ℕ) (put : Files Raw → Files Raw) (s : Calls Raw)
      → Traced start used s
      → Both (Traced start used) (replace name put s)
  unfolding replace
  replace-Traced start used name put s h =
      attempt-Ends (Traced start used) (Traced start used)
        (λ t. set_temporary name false (put_both put t)) (λ t. t) s
        (λ other there. ground (arith, h other)) h

  make_temporary-Traced :
      (start : ℕ → Bool) (used : List ℕ) (s : Calls Raw)
      → Traced start used s
      → Ends (λ name. Traced start (name ∷ used)) (Traced start used) (make_temporary s)
  unfolding make_temporary
  make_temporary-Traced start used s h =
      let mine = Traced start (s.temporaries.next_name ∷ used) in
      next-Ends {A = Unit {0}} (λ _. mine) (Traced start used) (λ name. Traced start (name ∷ used))
        (Traced start used) (attempt add_temporary (λ t. t) s)
        (λ _. returns s.temporaries.next_name)
        (attempt-Ends mine (Traced start used) add_temporary (λ t. t) s
          (λ other there. ground (arith, h other)) h)
        (λ _ _ x. x) (λ _ x. x)

  write_temp-Traced :
      (start : ℕ → Bool) (used : List ℕ) (s : Calls Raw)
      → Traced start used s
      → Ends (λ name. Traced start (name ∷ used)) (Traced start used) (write_temp s)
  unfolding write_temp
  write_temp-Traced start used s h =
      let mine : ℕ → Calls Raw → Type 0 = λ name. Traced start (name ∷ used) in
      let free = Traced start used in
      next-Ends mine free mine free (make_temporary s) _ (make_temporary-Traced start used s h)
        (λ name t k.
          next-Ends {A = Unit {0}} (λ _. mine name) free mine free _ (λ _. returns name)
            (filled name (attempt (λ u. u) (λ u. u) t)
              (attempt-Ends (mine name) (mine name) (λ u. u) (λ u. u) t k k))
            (λ _ _ x. x) (λ _ x. x))
        (λ _ x. x)
    where
      filled :
          (name : ℕ) (r : Result Failure (Unit {0}) × Calls Raw)
          → Both (Traced start (name ∷ used)) r
          → Ends
              (λ _. Traced start (name ∷ used))
              (Traced start used)
              (recovering r (λ failure. unlink name >> raises_with failure))
      filled name (ok a, t) k = k
      filled name (err failure, t) k =
          next-Ends {A = Unit {0}} (λ _. Traced start used) (Traced start used)
            (λ _. Traced start (name ∷ used)) (Traced start used) (unlink name t)
            (λ _. raises_with failure) (unlink-Traced start used name t k) (λ _ _ x. x) (λ _ x. x)

  -- A temporary file that is made, used and removed.
  with_temp-Traced :
      (start : ℕ → Bool) (used : List ℕ) (s : Calls Raw) (f : ℕ → W Raw (Unit {0}))
      → Traced start used s
      → ((name : ℕ) (t : Calls Raw)
          → Traced start (name ∷ used) t
          → Both (Traced start (name ∷ used)) (f name t))
      → Both (Traced start used) (next (write_temp s) (λ name. finally (f name) (unlink name)))
  with_temp-Traced start used s f h k =
      next-Ends (λ name. Traced start (name ∷ used)) (Traced start used) (λ _. Traced start used)
        (Traced start used) (write_temp s) _ (write_temp-Traced start used s h)
        (λ name t w.
          finished-Both (Traced start (name ∷ used)) (Traced start used) (f name t) (unlink name)
            (k name t w) (λ u x. unlink-Traced start used name u x))
        (λ _ x. x)

  replace_bytes-Traced :
      (start : ℕ → Bool) (used : List ℕ) (put : Files Raw → Files Raw) (s : Calls Raw)
      → Traced start used s
      → Both (Traced start used) (replace_bytes put s)
  unfolding replace_bytes
  replace_bytes-Traced start used put s h =
      with_temp-Traced start used s (λ name. replace name put) h
        (λ name. replace-Traced start (name ∷ used) name put)

  -- Calls that make no temporary file and remove none.
  read_back-Both :
      (start : ℕ → Bool) (used : List ℕ) (valid : Bool) (s : Calls Raw)
      → Traced start used s
      → Both (Traced start used) (read_back valid s)
  unfolding read_back
  read_back-Both start used valid s h =
      elim (first_fault s.faults)
        as (λ fault. Both (Traced start used) (read_back_with fault valid s)) [
          | passes ↦ elim valid as (λ v. Both (Traced start used) (checked v (spend s))) [
            | true ↦ h
            | false ↦ h
          ]
          | raises ↦ h
          | differs ↦ h
        ]

  back_up-Traced :
      (start : ℕ → Bool) (used : List ℕ) (keep_backup : Bool) (previous : Option Raw)
      (s : Calls Raw)
      → Traced start used s
      → Both (Traced start used) (back_up keep_backup previous s)
  back_up-Traced start used true (some previous) s h =
      replace_bytes-Traced start used (put_backup previous) s h
  back_up-Traced start used true none s h = h
  back_up-Traced start used false previous s h = h

  restore-Traced :
      (start : ℕ → Bool) (used : List ℕ) (previous : Option Raw) (s : Calls Raw)
      → Traced start used s
      → Both (Traced start used) (restore previous s)
  restore-Traced start used none s h =
      attempt-Ends (Traced start used) (Traced start used) (put_both (put_path none)) (λ t. t) s h h
  restore-Traced start used (some previous) s h =
      replace_bytes-Traced start used (put_path (some previous)) s h

  publish-Traced :
      (start : ℕ → Bool) (used : List ℕ) (name : ℕ) (raw : Raw) (valid keep_backup : Bool)
      (previous : Option Raw) (s : Calls Raw)
      → Traced start used s
      → Both (Traced start used) (publish name raw valid keep_backup previous s)
  unfolding publish
  publish-Traced start used name raw valid keep_backup previous s h =
      let traced = Traced start used in
      next-Both {A = Unit {0}} traced _ (λ _. read_back valid)
        (next-Both {A = Unit {0}} traced _ (λ _. replace name (put_path (some raw)))
          (next-Both {A = Unit {0}} traced (read_back valid s) (λ _. back_up keep_backup previous)
            (read_back-Both start used valid s h)
            (λ _. back_up-Traced start used keep_backup previous))
          (λ _. replace-Traced start used name (put_path (some raw))))
        (λ _. read_back-Both start used valid)

  write_over-Traced :
      (start : ℕ → Bool) (raw : Raw) (valid keep_backup : Bool) (previous : Option Raw)
      (s : Calls Raw)
      → Traced start [] s
      → Both (Traced start []) (write_over raw valid keep_backup previous s)
  unfolding write_over
  write_over-Traced start raw valid keep_backup previous s h =
      with_temp-Traced start [] s _ h (λ name t k.
        recovering-Both {A = Unit {0}} (Traced start (name ∷ []))
          (publish name raw valid keep_backup previous t) _
          (publish-Traced start (name ∷ []) name raw valid keep_backup previous t k)
          (λ failure u w.
            next-Both {A = Unit {0}} (Traced start (name ∷ [])) (restore previous u)
              (λ _. raises_with failure) (restore-Traced start (name ∷ []) previous u w)
              (λ _ _ x. x)))

  checked-Traced :
      (start : ℕ → Bool) (used : List ℕ) (valid : Bool) (s : Calls Raw)
      → Traced start used s
      → Both (Traced start used) (checked valid s)
  checked-Traced start used true s h = h
  checked-Traced start used false s h = h

  read_previous-Traced :
      (start : ℕ → Bool) (used : List ℕ) (path : Option Raw) (s : Calls Raw)
      → Traced start used s
      → Both (Traced start used) (read_previous path s)
  read_previous-Traced start used none s h = h
  read_previous-Traced start used (some raw) s h =
      elim (first_fault s.faults)
        as (λ fault. Both (Traced start used) (read_with fault (some raw) s)) [
          | passes ↦ h
          | raises ↦ h
          | differs ↦ h
        ]

  atomic_validated_write-Traced :
      (validate : Raw → Bool) (raw : Raw) (keep_backup : Bool) (s : Calls Raw)
      → Both (Traced s.temporaries.exists []) (atomic_validated_write validate raw keep_backup s)
  unfolding atomic_validated_write
  atomic_validated_write-Traced validate raw keep_backup s =
      let start = s.temporaries.exists in
      let traced = Traced start [] in
      next-Both {A = Option Raw} traced _
        (λ previous. write_over raw (validate raw) keep_backup previous)
        (next-Both {A = Unit {0}} traced (checked (validate raw) s)
          (λ _. read_previous s.files.path)
          (checked-Traced start [] (validate raw) s (λ other e. ground arith))
          (λ _. read_previous-Traced start [] s.files.path))
        (λ previous. write_over-Traced start raw (validate raw) keep_backup previous)

  -- Whichever calls fail, a temporary file that is there behind an atomic write was there before it, or the
  -- call that was to remove it has raised.
  pub atomic_validated_write-Tidy :
      (validate : Raw → Bool) (raw : Raw) (keep_backup : Bool) (s : Calls Raw) (name : ℕ)
      → (atomic_validated_write validate raw keep_backup s).1.temporaries.exists name ≡ true
      → (s.temporaries.exists name ≡ true)
        ⊎ (among name (atomic_validated_write validate raw keep_backup s).1.temporaries.refused
            ≡ true)
  atomic_validated_write-Tidy validate raw keep_backup s name there =
      let start = s.temporaries.exists in
      ground (
        arith,
        Both-state (Traced start []) (atomic_validated_write validate raw keep_backup s)
            (atomic_validated_write-Traced validate raw keep_backup s) name there,
      )
