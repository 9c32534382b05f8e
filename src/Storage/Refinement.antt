-- ===== src/Storage/Refinement.antt =====
-- storage/safe_json.py and storage/local.py: the write of project.json in the model of the repository is
-- what the atomic write of its bytes does.
use auto_nav_log.Common.{
  Bool, Option, String, [], ap, eq_iff, inl, inr, none, refl, some, subst, sym, true, ◌==◌, ◌∙◌,
  ◌∷◌, ◌≡◌,
}
use auto_nav_log.Common.Dict.{lookup-insert}
use auto_nav_log.Common.Result.{Result, err, ok}
use auto_nav_log.Storage.Calls.{Leaves}
use auto_nav_log.Storage.Atomic.{Left, atomic_validated_write-Leaves, backed, backup_after, written}
use auto_nav_log.Storage.Disk.{Content, Disk, File, Project, ProjectFiles, files_of, holds}
use auto_nav_log.Storage.Effect.{
  Failure, Fate, backup_of, change_with_backup, fails, fails_after_backup, fails_after_change,
  put_files, works,
}
use auto_nav_log.Storage.Repository.{back_up_project, put_project, write_project}
use auto_nav_log.Storage.SafeJson.{Calls, Files, atomic_validated_write}

module _ {Raw Body : Type 0} (decode : Raw → Content (Project Body)) where
  abbrev pub seen : Option Raw → File (Project Body)
  seen none = none
  seen (some raw) = some (decode raw)

  backup_of-seen :
      (path backup : Option Raw)
      → backup_of (seen path) (seen backup) ≡ seen (backup_after true path backup)
  backup_of-seen none backup = refl
  backup_of-seen (some raw) backup = refl

  backed-Seen :
      (files : Files Raw) (json bak : File (Project Body))
      → json ≡ seen files.path
      → bak ≡ seen files.backup
      → backup_of json bak ≡ seen (backed true files).backup
  backed-Seen files json bak h k = rw (h, k) (backup_of-seen files.path files.backup)

module _ {Raw Body Outcome : Type 0} (decode : Raw → Content (Project Body)) where
  -- The files on the disk hold what the bytes of project.json and of its backup mean.
  abbrev pub Seen : String → Files Raw → Disk Body Outcome → Type 0
  Seen id files d =
      ((files_of id d).project_json ≡ seen decode files.path)
      × ((files_of id d).project_bak ≡ seen decode files.backup)

  -- The repository's write, whose change has the given fate, does as the write of the bytes did.
  abbrev pub Agrees :
      Project Body → Disk Body Outcome → Result Failure (Unit {0}) × Calls Raw → Fate → Type 0
  Agrees project d r fate =
      let r' = write_project project (record { disk = d; fates = fate ∷ [] }) in
      (r'.0 ≡ r.0) × Seen project.id r.1.files r'.1.disk

  put_files-Seen :
      (id : String) (files : ProjectFiles Body Outcome) (bytes : Files Raw) (d : Disk Body Outcome)
      → files.project_json ≡ seen decode bytes.path
      → files.project_bak ≡ seen decode bytes.backup
      → Seen id bytes (put_files id files d)
  put_files-Seen id files bytes d h k =
      let own : (id == id) ≡ true = (eq_iff id id).1 refl in
      let there : files_of id (put_files id files d) ≡ files = rw (lookup-insert, own) in
      (ap (λ f. f.project_json) there ∙ h, ap (λ f. f.project_bak) there ∙ k)

  moved :
      (bytes : Files Raw) (d : Disk Body Outcome) (id : String) (files : Files Raw)
      → files ≡ bytes
      → Seen id bytes d
      → Seen id files d
  moved bytes d id files h k = subst (λ f. Seen id f d) (sym h) k

  Leaves-Agrees :
      (project : Project Body) (raw : Raw) (start : Files Raw) (valid : Type 0)
      (d : Disk Body Outcome)
      → Seen project.id start d
      → Seen project.id (backed true start) (back_up_project project d)
      → Seen project.id (written raw true start) (put_project project d)
      → (r : Result Failure (Unit {0}) × Calls Raw)
      → Leaves (λ _ files. (files ≡ written raw true start) × valid) (Left raw true start) r
      → (fate : Fate) × Agrees project d r fate
  unfolding write_project change_with_backup
  Leaves-Agrees project raw start valid d k stored wrote (ok tt, s) w = (
    works,
    (refl, moved (written raw true start) (put_project project d) project.id s.files w.0 wrote),
  )
  Leaves-Agrees project raw start valid d k stored wrote (err failure, s) (inl same) =
      (fails failure, (refl, moved start d project.id s.files same k))
  Leaves-Agrees project raw start valid d k stored wrote (err failure, s) (inr (inl new)) = (
    fails_after_backup failure,
    (refl, moved (backed true start) (back_up_project project d) project.id s.files new stored),
  )
  Leaves-Agrees project raw start valid d k stored wrote (err failure, s) (inr (inr new)) = (
    fails_after_change failure,
    (refl, moved (written raw true start) (put_project project d) project.id s.files new wrote),
  )

  -- For every atomic write of a project's bytes, whatever fails in it, there is a fate with which the
  -- repository's write has the same result and leaves project.json and its backup holding what the
  -- bytes that are left mean, if they did so before and the new bytes mean the project.
  pub write_project-Agrees :
      (project : Project Body) (validate : Raw → Bool) (raw : Raw) (s : Calls Raw)
      (d : Disk Body Outcome)
      → decode raw ≡ holds project
      → Seen project.id s.files d
      → (fate : Fate) × Agrees project d (atomic_validated_write validate raw true s) fate
  write_project-Agrees project validate raw s d h k =
      let files = files_of project.id d in
      let stored : backup_of files.project_json files.project_bak
          ≡ seen decode (backed true s.files).backup =
        backed-Seen decode s.files files.project_json files.project_bak k.0 k.1 in
      Leaves-Agrees project raw s.files (validate raw ≡ true) d k
        (put_files-Seen project.id
          (record files { project_bak = backup_of files.project_json files.project_bak })
          (backed true s.files) d k.0 stored)
        (put_files-Seen project.id
          (record files {
            project_json = some (holds project);
            project_bak = backup_of files.project_json files.project_bak;
          })
          (written raw true s.files) d (ap some (sym h)) stored)
        (atomic_validated_write validate raw true s)
        (atomic_validated_write-Leaves validate raw true s)
