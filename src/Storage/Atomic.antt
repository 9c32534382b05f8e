-- ===== src/Storage/Atomic.antt =====
-- storage/safe_json.py: what an atomic write leaves, whichever calls fail.
use auto_nav_log.Common.{
  Bool, Option, ap, false, inl, inr, none, refl, some, subst, sym, true, ℕ, ◌≡◌, ◌⊎◌,
}
use auto_nav_log.Common.Result.{Result, err, ok}
use auto_nav_log.Storage.Calls.{
  Leaves, attempt-Leaves, cleanup-Leaves, next-Leaves, read_back-Leaves, recovering-Leaves,
  replace-Leaves, replace_bytes-Leaves, write_temp-Leaves,
}
use auto_nav_log.Storage.Effect.{Failure}
use auto_nav_log.Storage.SafeJson.{
  put_both, Calls, Files, atomic_validated_write, back_up, checked, differs, except, first_fault,
  passes, publish, put_backup, put_path, raises, raises_with, read_back, read_previous, read_with,
  replace, replace_bytes, restore, write_over, write_temp, ◌>>◌,
}

abbrev pub backup_after : {Raw : Type 0} → Bool → Option Raw → Option Raw → Option Raw
backup_after true (some previous) backup = some previous
backup_after _ _ backup = backup

module _ {Raw : Type 0} where
  -- The files behind the write of a backup, and behind the write.
  abbrev pub backed : Bool → Files Raw → Files Raw
  backed keep_backup files = record files {
    backup = backup_after keep_backup files.path files.backup;
  }

  abbrev pub written : Raw → Bool → Files Raw → Files Raw
  written raw keep_backup files = record (backed keep_backup files) { path = some raw }

  -- What a write leaves that raised: the files as they were, or with a new backup, or written.
  abbrev pub Left : Raw → Bool → Files Raw → Files Raw → Type 0
  Left raw keep_backup start files =
      (files ≡ start)
      ⊎ ((files ≡ backed keep_backup start) ⊎ (files ≡ written raw keep_backup start))

  weaken-Leaves :
      {A : Type 0} (good : A → Files Raw → Type 0) (bad worse : Files Raw → Type 0)
      (r : Result Failure A × Calls Raw)
      → Leaves good bad r
      → ((files : Files Raw) → bad files → worse files)
      → Leaves good worse r
  weaken-Leaves good bad worse (ok a, s) h w = h
  weaken-Leaves good bad worse (err failure, s) h w = w s.files h

  abbrev files_at : Option Raw → Option Raw → Files Raw
  files_at path backup = record { path = path; backup = backup }

  back_up-Leaves :
      (raw : Raw) (keep_backup : Bool) (previous backup : Option Raw) (s : Calls Raw)
      → s.files ≡ files_at previous backup
      → Leaves
          (λ _ files. files ≡ backed keep_backup (files_at previous backup))
          (Left raw keep_backup (files_at previous backup))
          (back_up keep_backup previous s)
  back_up-Leaves raw true (some previous) backup s h =
      weaken-Leaves {A = Unit {0}}
        (λ _ files. files ≡ backed true (files_at (some previous) backup)) _
        (Left raw true (files_at (some previous) backup)) (replace_bytes (put_backup previous) s)
        (replace_bytes-Leaves (λ files. files ≡ files_at (some previous) backup)
          (λ files. files ≡ backed true (files_at (some previous) backup)) (put_backup previous) s h
          (λ files k. ap (put_backup previous) k))
        (λ files k. elim k [ inl same ↦ inl same | inr new ↦ inr (inl new) ])
  back_up-Leaves raw true none backup s h = h
  back_up-Leaves raw false previous backup s h = h

  publish-Leaves :
      (name : ℕ) (raw : Raw) (valid keep_backup : Bool) (previous backup : Option Raw)
      (s : Calls Raw)
      → s.files ≡ files_at previous backup
      → Leaves
          (λ _ files. files ≡ written raw keep_backup (files_at previous backup))
          (Left raw keep_backup (files_at previous backup))
          (publish name raw valid keep_backup previous s)
  unfolding publish
  publish-Leaves name raw valid keep_backup previous backup s h =
      let start = files_at previous backup in
      let left = Left raw keep_backup start in
      let is_start : Files Raw → Type 0 = λ files. files ≡ start in
      let is_backed : Files Raw → Type 0 = λ files. files ≡ backed keep_backup start in
      let is_written : Files Raw → Type 0 = λ files. files ≡ written raw keep_backup start in
      let checked_before =
        weaken-Leaves {A = Unit {0}} (λ _. is_start) is_start left (read_back valid s)
          (read_back-Leaves is_start valid s h) (λ _ w. inl w) in
      let backed_up =
        next-Leaves {A = Unit {0}} (λ _. is_start) left (λ _. is_backed) left (read_back valid s)
          (λ _. back_up keep_backup previous) checked_before
          (λ _ t k. back_up-Leaves raw keep_backup previous backup t k) (λ _ w. w) in
      let put =
        next-Leaves {A = Unit {0}} (λ _. is_backed) left (λ _. is_written) left _
          (λ _. replace name (put_path (some raw))) backed_up
          (λ _ t k.
            replace-Leaves is_written left name (put_path (some raw)) t (ap (put_path (some raw)) k)
              (inr (inl k)))
          (λ _ w. w) in
      next-Leaves {A = Unit {0}} (λ _. is_written) left (λ _. is_written) left _
        (λ _. read_back valid) put
        (λ _ t k.
          weaken-Leaves {A = Unit {0}} (λ _. is_written) is_written left (read_back valid t)
            (read_back-Leaves is_written valid t k) (λ _ w. inr (inr w)))
        (λ _ w. w)

  -- The restored file is the one that was there, behind each of the three.
  put_path-Left :
      (raw : Raw) (keep_backup : Bool) (previous backup : Option Raw) (files : Files Raw)
      → Left raw keep_backup (files_at previous backup) files
      → Left raw keep_backup (files_at previous backup) (put_path previous files)
  put_path-Left raw keep_backup previous backup files (inl h) = inl (ap (put_path previous) h)
  put_path-Left raw keep_backup previous backup files (inr (inl h)) =
      inr (inl (ap (put_path previous) h))
  put_path-Left raw keep_backup previous backup files (inr (inr h)) =
      inr (inl (ap (put_path previous) h))

  restore-Leaves :
      (raw : Raw) (keep_backup : Bool) (previous backup : Option Raw) (s : Calls Raw)
      → Left raw keep_backup (files_at previous backup) s.files
      → Leaves
          (λ _. Left raw keep_backup (files_at previous backup))
          (Left raw keep_backup (files_at previous backup))
          (restore previous s)
  restore-Leaves raw keep_backup none backup s h =
      attempt-Leaves (Left raw keep_backup (files_at none backup))
        (Left raw keep_backup (files_at none backup)) (put_both (put_path none)) (λ t. t) s
        (put_path-Left raw keep_backup none backup s.files h) h
  restore-Leaves raw keep_backup (some previous) backup s h =
      let left = Left raw keep_backup (files_at (some previous) backup) in
      weaken-Leaves {A = Unit {0}} (λ _. left) (λ files. left files ⊎ left files) left
        (replace_bytes (put_path (some previous)) s)
        (replace_bytes-Leaves left left (put_path (some previous)) s h
          (put_path-Left raw keep_backup (some previous) backup))
        (λ files k. elim k [ inl same ↦ same | inr new ↦ new ])

  write_over-Leaves :
      (raw : Raw) (valid keep_backup : Bool) (previous backup : Option Raw) (s : Calls Raw)
      → s.files ≡ files_at previous backup
      → Leaves
          (λ _ files. files ≡ written raw keep_backup (files_at previous backup))
          (Left raw keep_backup (files_at previous backup))
          (write_over raw valid keep_backup previous s)
  unfolding write_over
  write_over-Leaves raw valid keep_backup previous backup s h =
      let start = files_at previous backup in
      let left = Left raw keep_backup start in
      let is_written : Files Raw → Type 0 = λ files. files ≡ written raw keep_backup start in
      next-Leaves (λ _ files. files ≡ start) (λ files. files ≡ start) (λ _. is_written) left
        (write_temp s) _ (write_temp-Leaves (λ files. files ≡ start) s h)
        (λ name t k.
          cleanup-Leaves is_written left name
            (except (publish name raw valid keep_backup previous)
              (λ failure. restore previous >> raises_with failure) t)
            (recovering-Leaves {A = Unit {0}} (λ _. is_written) left left
              (publish name raw valid keep_backup previous t) _
              (publish-Leaves name raw valid keep_backup previous backup t k)
              (λ failure u w.
                next-Leaves {A = Unit {0}} (λ _. left) left (λ _. is_written) left
                  (restore previous u) (λ _. raises_with failure)
                  (restore-Leaves raw keep_backup previous backup u w) (λ _ _ x. x) (λ _ x. x)))
            (λ _ x. inr (inr x)))
        (λ _ k. inl k)

  checked-Leaves :
      (valid : Bool) (s : Calls Raw)
      → Leaves
          (λ _ files. (files ≡ s.files) × (valid ≡ true))
          (λ files. files ≡ s.files)
          (checked valid s)
  checked-Leaves true s = (refl, refl)
  checked-Leaves false s = refl

  read_previous-Leaves :
      (good bad : Files Raw → Type 0) (path : Option Raw) (s : Calls Raw)
      → good s.files
      → bad s.files
      → Leaves (λ previous files. (previous ≡ path) × good files) bad (read_previous path s)
  read_previous-Leaves good bad none s h k = (refl, h)
  read_previous-Leaves good bad (some raw) s h k =
      elim (first_fault s.faults)
        as (λ fault.
          Leaves (λ previous files. (previous ≡ some raw) × good files) bad
            (read_with fault (some raw) s)) [
              | passes ↦ (refl, h)
              | raises ↦ k
              | differs ↦ (refl, h)
            ]

  valid-Leaves :
      {A : Type 0} (valid : Type 0) (good bad : Files Raw → Type 0)
      (r : Result Failure A × Calls Raw)
      → valid
      → Leaves (λ _. good) bad r
      → Leaves (λ _ files. good files × valid) bad r
  valid-Leaves valid good bad (ok a, s) v h = (h, v)
  valid-Leaves valid good bad (err failure, s) v h = h

  pub atomic_validated_write-Leaves :
      (validate : Raw → Bool) (raw : Raw) (keep_backup : Bool) (s : Calls Raw)
      → Leaves
          (λ _ files. (files ≡ written raw keep_backup s.files) × (validate raw ≡ true))
          (Left raw keep_backup s.files)
          (atomic_validated_write validate raw keep_backup s)
  unfolding atomic_validated_write
  atomic_validated_write-Leaves validate raw keep_backup s =
      let is_start : Files Raw → Type 0 = λ files. files ≡ s.files in
      let left = Left raw keep_backup s.files in
      let valid : Type 0 = validate raw ≡ true in
      let good : Unit {0} → Files Raw → Type 0 =
        λ _ files. (files ≡ written raw keep_backup s.files) × valid in
      next-Leaves {A = Option Raw}
        (λ previous files. (previous ≡ s.files.path) × ((files ≡ s.files) × valid)) left good left _
        (λ previous. write_over raw (validate raw) keep_backup previous)
        (next-Leaves {A = Unit {0}} (λ _ files. (files ≡ s.files) × valid) is_start
          (λ previous files. (previous ≡ s.files.path) × ((files ≡ s.files) × valid)) left
          (checked (validate raw) s) (λ _. read_previous s.files.path)
          (checked-Leaves (validate raw) s)
          (λ _ t k.
            read_previous-Leaves (λ files. (files ≡ s.files) × valid) left s.files.path t k
              (inl k.0))
          (λ _ k. inl k))
        (λ previous t k.
          valid-Leaves valid (λ files. files ≡ written raw keep_backup s.files) left
            (write_over raw (validate raw) keep_backup previous t) k.1.1
            (subst
              (λ p.
                Leaves (λ _ files. files ≡ written raw keep_backup s.files) left
                  (write_over raw (validate raw) keep_backup p t))
              (sym k.0)
              (write_over-Leaves raw (validate raw) keep_backup s.files.path s.files.backup t
                k.1.0)))
        (λ _ k. k)
