-- ===== src/Storage/Calls.antt =====
-- storage/safe_json.py: what its calls leave where they return and where they raise.
use auto_nav_log.Common.{Bool, false, inl, inr, true, ℕ, ◌⊎◌}
use auto_nav_log.Common.Result.{Result, err, ok}
use auto_nav_log.Storage.Effect.{Failure}
use auto_nav_log.Storage.SafeJson.{
  put_both, Calls, Files, W, add_temporary, attempt, attempt_with, checked, differs, finished,
  first_fault, later_faults, make_temporary, next, passes, raises, raises_with, read_back,
  read_back_with, recovering, refuse_removal, replace, replace_bytes, returns, set_temporary, spend,
  unlink, write_temp,
}

module _ {Raw : Type 0} where
  -- What a call leaves: one thing where it returns, another where it raises.
  abbrev pub Leaves :
      {A : Type 0}
      → (A → Files Raw → Type 0)
      → (Files Raw → Type 0)
      → Result Failure A × Calls Raw
      → Type 0
  Leaves good bad (ok a, s) = good a s.files
  Leaves good bad (err failure, s) = bad s.files

  pub next-Leaves :
      {A B : Type 0} (good : A → Files Raw → Type 0) (bad : Files Raw → Type 0)
      (better : B → Files Raw → Type 0) (worse : Files Raw → Type 0)
      (r : Result Failure A × Calls Raw) (f : A → W Raw B)
      → Leaves good bad r
      → ((a : A) (s : Calls Raw) → good a s.files → Leaves better worse (f a s))
      → ((files : Files Raw) → bad files → worse files)
      → Leaves better worse (next r f)
  next-Leaves good bad better worse (ok a, s) f h k w = k a s h
  next-Leaves good bad better worse (err failure, s) f h k w = w s.files h

  pub recovering-Leaves :
      {A : Type 0} (good : A → Files Raw → Type 0) (bad worse : Files Raw → Type 0)
      (r : Result Failure A × Calls Raw) (f : Failure → W Raw A)
      → Leaves good bad r
      → ((failure : Failure) (s : Calls Raw) → bad s.files → Leaves good worse (f failure s))
      → Leaves good worse (recovering r f)
  recovering-Leaves good bad worse (ok a, s) f h k = h
  recovering-Leaves good bad worse (err failure, s) f h k = k failure s h

  pub attempt-Leaves :
      (good bad : Files Raw → Type 0) (done failed : Calls Raw → Calls Raw) (s : Calls Raw)
      → good (done (spend s)).files
      → bad (failed (spend s)).files
      → Leaves (λ _. good) bad (attempt done failed s)
  unfolding attempt
  attempt-Leaves good bad done failed s h k =
      elim (first_fault s.faults)
        as (λ fault. Leaves (λ _. good) bad (attempt_with fault done failed s)) [
          | passes ↦ h
          | raises ↦ k
          | differs ↦ k
        ]

  pub unlink-Leaves :
      (P : Files Raw → Type 0) (name : ℕ) (s : Calls Raw)
      → P s.files
      → Leaves (λ _. P) P (unlink name s)
  unfolding unlink
  unlink-Leaves P name s h =
      attempt-Leaves P P (set_temporary name false) (refuse_removal name) s h h

  pub replace-Leaves :
      (good bad : Files Raw → Type 0) (name : ℕ) (put : Files Raw → Files Raw) (s : Calls Raw)
      → good (put s.files)
      → bad s.files
      → Leaves (λ _. good) bad (replace name put s)
  unfolding replace
  replace-Leaves good bad name put s h k =
      attempt-Leaves good bad (λ t. set_temporary name false (put_both put t)) (λ t. t) s h k

  -- The cleanup of a temporary file keeps what holds of the files.
  pub cleanup-Leaves :
      {A : Type 0} (good bad : Files Raw → Type 0) (name : ℕ) (r : Result Failure A × Calls Raw)
      → Leaves (λ _. good) bad r
      → ((files : Files Raw) → good files → bad files)
      → Leaves (λ _. good) bad (finished r (unlink name))
  cleanup-Leaves good bad name (ok a, s) h w =
      next-Leaves {A = Unit {0}} (λ _. good) good (λ _. good) bad (unlink name s) (λ _. returns a)
        (unlink-Leaves good name s h) (λ _ _ k. k) w
  cleanup-Leaves good bad name (err failure, s) h w =
      next-Leaves {A = Unit {0}} (λ _. bad) bad (λ _. good) bad (unlink name s)
        (λ _. raises_with failure) (unlink-Leaves bad name s h) (λ _ _ k. k) (λ _ k. k)

  make_temporary-Leaves :
      (P : Files Raw → Type 0) (s : Calls Raw) → P s.files → Leaves (λ _. P) P (make_temporary s)
  unfolding make_temporary
  make_temporary-Leaves P s h =
      next-Leaves {A = Unit {0}} (λ _. P) P (λ _. P) P (attempt add_temporary (λ t. t) s) _
        (attempt-Leaves P P add_temporary (λ t. t) s h h) (λ _ _ k. k) (λ _ k. k)

  pub write_temp-Leaves :
      (P : Files Raw → Type 0) (s : Calls Raw) → P s.files → Leaves (λ _. P) P (write_temp s)
  unfolding write_temp
  write_temp-Leaves P s h =
      next-Leaves (λ _. P) P (λ _. P) P (make_temporary s) _ (make_temporary-Leaves P s h)
        (λ name t k.
          next-Leaves {A = Unit {0}} (λ _. P) P (λ _. P) P _ (λ _. returns name)
            (recovering-Leaves {A = Unit {0}} (λ _. P) P P (attempt (λ u. u) (λ u. u) t) _
              (attempt-Leaves P P (λ u. u) (λ u. u) t k k)
              (λ failure u w.
                next-Leaves {A = Unit {0}} (λ _. P) P (λ _. P) P (unlink name u)
                  (λ _. raises_with failure) (unlink-Leaves P name u w) (λ _ _ x. x) (λ _ x. x)))
            (λ _ _ x. x) (λ _ x. x))
        (λ _ k. k)

  pub replace_bytes-Leaves :
      (before after : Files Raw → Type 0) (put : Files Raw → Files Raw) (s : Calls Raw)
      → before s.files
      → ((files : Files Raw) → before files → after (put files))
      → Leaves (λ _. after) (λ files. before files ⊎ after files) (replace_bytes put s)
  unfolding replace_bytes
  replace_bytes-Leaves before after put s h w =
      next-Leaves (λ _. before) before (λ _. after) (λ files. before files ⊎ after files)
        (write_temp s) _ (write_temp-Leaves before s h)
        (λ name t k.
          cleanup-Leaves after (λ files. before files ⊎ after files) name (replace name put t)
            (replace-Leaves after (λ files. before files ⊎ after files) name put t (w t.files k)
              (inl k))
            (λ _ x. inr x))
        (λ _ k. inl k)

  pub read_back-Leaves :
      (P : Files Raw → Type 0) (valid : Bool) (s : Calls Raw)
      → P s.files
      → Leaves (λ _. P) P (read_back valid s)
  unfolding read_back
  read_back-Leaves P valid s h =
      elim (first_fault s.faults) as (λ fault. Leaves (λ _. P) P (read_back_with fault valid s)) [
        | passes ↦
            elim valid
              as (λ v.
                Leaves (λ _. P) P (checked v (record s { faults = later_faults s.faults }))) [
                  | true ↦ h
                  | false ↦ h
                ]
        | raises ↦ h
        | differs ↦ h
      ]
