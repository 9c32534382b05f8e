-- ===== src/Storage/Saving.antt =====
-- storage/local.py: what a save commits.
use auto_nav_log.Common.{
  Bool-cases, String, eq_iff, eqb, eqb_iff, inl, inr, none, refl, some, subst, sym, true, ℕ, ◌==◌,
  ◌∙◌, ◌≡◌, ◌⊎◌,
}
use auto_nav_log.Common.Dict.{lookup-insert}
use auto_nav_log.Common.Result.{Result, err, ok}
use auto_nav_log.Storage.Disk.{Disk, File, Project, ProjectFiles, files_of, holds, unreadable}
use auto_nav_log.Storage.Effect.{
  Failure, Store, backup_of, bad_revision, change, pure, put_files, raise, revision_conflict, ◌>>=◌,
  ◌>>◌,
}
use auto_nav_log.Storage.Index.{update_index}
use auto_nav_log.Storage.Kept.{
  SameCheckpoints, Spares-SameCheckpoints, put_files-SameCheckpoints, settle_latest-Spares,
  update_index-SameCheckpoints,
}
use auto_nav_log.Storage.Outcome.{After, change_with_backup-After, continue-After, if-After}
use auto_nav_log.Storage.Reading.{checkpoint, first_of, found_project, owner_key_of, read_project}
use auto_nav_log.Storage.Repository.{
  advanced, back_up_project, check_revision, put_conflict, put_project, save, settle_latest,
  write_project,
}

module _ {Body : Type 0} where
  -- A save may replace this file: there is none yet, or it has the expected revision.
  abbrev pub Allowed : ℕ → File (Project Body) → Type 0
  Allowed expected_revision none = expected_revision ≡ 0
  Allowed expected_revision (some unreadable) = ⊥
  Allowed expected_revision (some (holds existing)) = existing.revision ≡ expected_revision

  -- The backup of a file that may be replaced keeps the checkpoint.
  backup_of-checkpoint :
      (id : String) (expected_revision : ℕ) (json bak : File (Project Body))
      → Allowed expected_revision json
      → ((project : Project Body) → json ≡ some (holds project) → project.id ≡ id)
      → first_of
          (found_project (read_project id json))
          (found_project (read_project id (backup_of json bak)))
        ≡ first_of (found_project (read_project id json)) (found_project (read_project id bak))
  backup_of-checkpoint id expected_revision none bak h placed = refl
  backup_of-checkpoint id expected_revision (some unreadable) bak h placed = absurd h
  backup_of-checkpoint id expected_revision (some (holds project)) bak h placed =
      let own : (project.id == id) ≡ true = (eq_iff project.id id).1 (placed project refl) in rw own

module _ {Body Outcome : Type 0} where
  -- The project in project.json has the id of its directory.
  abbrev pub Placed : String → Disk Body Outcome → Type 0
  Placed id d =
      (project : Project Body)
      → (files_of id d).project_json ≡ some (holds project)
      → project.id ≡ id

  -- The project is the checkpoint, and the others have theirs.
  pub record Committed (project : Project Body) (before after : Disk Body Outcome) : Type 0 where
    pub commits : checkpoint project.id after ≡ some project
    pub others : (id : String) → ¬ (project.id ≡ id) → checkpoint id after ≡ checkpoint id before

  put_files-other :
      (own id : String) (files : ProjectFiles Body Outcome) (d : Disk Body Outcome)
      → ¬ (own ≡ id)
      → checkpoint id (put_files own files d) ≡ checkpoint id d
  unfolding checkpoint
  put_files-other own id files d h = elim (Bool-cases (own == id)) [
    | inl same ↦ absurd (h ((eq_iff own id).0 same))
    | inr differ ↦ rw (lookup-insert, differ)
  ]

  put_project-Committed :
      (project : Project Body) (d : Disk Body Outcome) → Committed project d (put_project project d)
  unfolding checkpoint
  put_project-Committed project d = record {
    commits =
        let own : (project.id == project.id) ≡ true = (eq_iff project.id project.id).1 refl in
        simp (lookup-insert, own);
    others = λ id h. put_files-other project.id id _ d h;
  }

  back_up_project-checkpoint :
      (project : Project Body) (expected_revision : ℕ) (d : Disk Body Outcome)
      → Placed project.id d
      → Allowed expected_revision (files_of project.id d).project_json
      → SameCheckpoints d (back_up_project project d)
  unfolding checkpoint
  back_up_project-checkpoint project expected_revision d placed h id =
      elim (Bool-cases (project.id == id)) [
        | inl same ↦
            let kept =
              backup_of-checkpoint project.id expected_revision (files_of project.id d).project_json
                (files_of project.id d).project_bak h placed in
            subst (λ i. checkpoint i (back_up_project project d) ≡ checkpoint i d)
              ((eq_iff project.id id).0 same)
              (rw (lookup-insert, (eq_iff project.id project.id).1 refl, kept))
        | inr differ ↦ rw (lookup-insert, differ)
      ]

  -- What a save leaves that raised: every checkpoint as it was, or its own committed already.
  abbrev pub Unsaved : Project Body → Disk Body Outcome → Disk Body Outcome → Type 0
  Unsaved project d e = SameCheckpoints d e ⊎ Committed project d e

  refused :
      (expected_revision : ℕ) (file : File (Project Body)) (project : Project Body)
      (s : Store Body Outcome)
      → After
          (λ _ e. Allowed expected_revision file × (e ≡ s.disk))
          (SameCheckpoints s.disk)
          ((change (put_conflict project) >> raise {A = Unit {0}} revision_conflict) s)
  unfolding change
  refused expected_revision file project s =
      continue-After {A = Unit {0}} (λ _ e. SameCheckpoints s.disk e) (SameCheckpoints s.disk)
        (λ _ e. Allowed expected_revision file × (e ≡ s.disk)) (SameCheckpoints s.disk)
        (change (put_conflict project) s) (λ _. raise revision_conflict)
        (change_with_backup-After (λ _ e. SameCheckpoints s.disk e) (SameCheckpoints s.disk)
          (put_conflict project) (λ d. d) s
          (put_files-SameCheckpoints project.id _ s.disk refl refl) (λ id. refl) (λ id. refl)
          (put_files-SameCheckpoints project.id _ s.disk refl refl))
        (λ _ _ h. h) (λ _ h. h)

  check_revision-After :
      (expected_revision : ℕ) (project : Project Body) (file : File (Project Body))
      (s : Store Body Outcome)
      → After
          (λ _ e. Allowed expected_revision file × (e ≡ s.disk))
          (SameCheckpoints s.disk)
          (check_revision expected_revision project file s)
  unfolding check_revision
  check_revision-After expected_revision project none s =
      if-After (λ _ e. (expected_revision ≡ 0) × (e ≡ s.disk)) (SameCheckpoints s.disk)
        (eqb expected_revision 0) (pure tt) (raise bad_revision) s
        (λ h. ((eqb_iff expected_revision 0).0 h, refl)) (λ _ id. refl)
  check_revision-After expected_revision project (some unreadable) s = λ id. refl
  check_revision-After expected_revision project (some (holds existing)) s =
      if-After (λ _ e. (existing.revision ≡ expected_revision) × (e ≡ s.disk))
        (SameCheckpoints s.disk) (eqb existing.revision expected_revision) (pure tt)
        (change (put_conflict project) >> raise revision_conflict) s
        (λ h. ((eqb_iff existing.revision expected_revision).0 h, refl))
        (λ _. refused expected_revision (some (holds existing)) project s)

  write_project-After :
      (project : Project Body) (expected_revision : ℕ) (s : Store Body Outcome)
      → Placed project.id s.disk
      → Allowed expected_revision (files_of project.id s.disk).project_json
      → After (λ _ e. Committed project s.disk e) (Unsaved project s.disk) (write_project project s)
  unfolding write_project
  write_project-After project expected_revision s placed h =
      change_with_backup-After (λ _ e. Committed project s.disk e) (Unsaved project s.disk)
        (put_project project) (back_up_project project) s (put_project-Committed project s.disk)
        (inl (λ id. refl))
        (inl (back_up_project-checkpoint project expected_revision s.disk placed h))
        (inr (put_project-Committed project s.disk))

  Committed-SameCheckpoints :
      (project : Project Body) (d e f : Disk Body Outcome)
      → Committed project d e
      → SameCheckpoints e f
      → Committed project d f
  Committed-SameCheckpoints project d e f h k = record {
    commits = k project.id ∙ h.commits;
    others = λ id differ. k id ∙ h.others id differ;
  }

  -- What keeps every checkpoint keeps what is committed, where it returns and where it raises.
  Committed-After :
      {A : Type 0} (project : Project Body) (d e : Disk Body Outcome)
      (r : Result Failure A × Store Body Outcome)
      → Committed project d e
      → SameCheckpoints e r.1.disk
      → After (λ _ f. Committed project d f) (Unsaved project d) r
  Committed-After project d e (ok a, t) h k = Committed-SameCheckpoints project d e t.disk h k
  Committed-After project d e (err failure, t) h k =
      inr (Committed-SameCheckpoints project d e t.disk h k)

  -- The result of a save: the project at the next revision, which is committed.
  abbrev pub Saves :
      Project Body → ℕ → ℕ → Disk Body Outcome → Project Body → Disk Body Outcome → Type 0
  Saves project expected_revision now d stored e =
      (stored ≡ advanced expected_revision now project)
      × (Allowed expected_revision (files_of project.id d).project_json × Committed stored d e)

module _ {Body Outcome : Type 0} (key_of : String → String) where
  finish-After :
      (project : Project Body) (expected_revision now : ℕ) (d : Disk Body Outcome)
      (s : Store Body Outcome)
      → Allowed expected_revision (files_of project.id d).project_json
      → Committed (advanced expected_revision now project) d s.disk
      → After
          (Saves project expected_revision now d)
          (Unsaved (advanced expected_revision now project) d)
          ((update_index (advanced expected_revision now project) >>= λ _.
              settle_latest key_of project.id (owner_key_of key_of project) >>= λ _.
              pure (advanced expected_revision now project))
            s)
  finish-After project expected_revision now d s allowed h =
      let stored = advanced expected_revision now project in
      let kept : Disk Body Outcome → Type 0 = Committed stored d in
      continue-After {A = Unit {0}} (λ _. kept) (Unsaved stored d)
        (Saves project expected_revision now d) (Unsaved stored d) (update_index stored s) _
        (Committed-After stored d s.disk (update_index stored s) h
          (update_index-SameCheckpoints stored s))
        (λ _ t h'.
          continue-After {A = Unit {0}} (λ _. kept) (Unsaved stored d)
            (Saves project expected_revision now d) (Unsaved stored d)
            (settle_latest key_of project.id (owner_key_of key_of project) t) _
            (Committed-After stored d t.disk
              (settle_latest key_of project.id (owner_key_of key_of project) t) h'
              (Spares-SameCheckpoints t.disk _
                (settle_latest-Spares key_of project.id (owner_key_of key_of project) t)))
            (λ _ u h''. (refl, (allowed, h''))) (λ _ w. w))
        (λ _ w. w)

  -- Whatever fails in it, a save that returns was allowed by the revision of project.json, and has made
  -- the project, with the next revision, the checkpoint of its directory; a save that raises has left
  -- every checkpoint as it was, or has committed this one before it failed. The checkpoints of the
  -- other projects stay in both cases. project.json holds a project of its own directory, if any.
  pub save-After :
      (project : Project Body) (expected_revision now : ℕ) (s : Store Body Outcome)
      → Placed project.id s.disk
      → After
          (Saves project expected_revision now s.disk)
          (Unsaved (advanced expected_revision now project) s.disk)
          (save key_of project expected_revision now s)
  unfolding save
  save-After project expected_revision now s placed =
      let stored = advanced expected_revision now project in
      let file = (files_of project.id s.disk).project_json in
      continue-After {A = Unit {0}} (λ _ e. Allowed expected_revision file × (e ≡ s.disk))
        (SameCheckpoints s.disk) (Saves project expected_revision now s.disk)
        (Unsaved stored s.disk) (check_revision expected_revision project file s) _
        (check_revision-After expected_revision project file s)
        (λ _ t h.
          continue-After {A = Unit {0}} (λ _ e. Committed stored s.disk e) (Unsaved stored s.disk)
            (Saves project expected_revision now s.disk) (Unsaved stored s.disk)
            (write_project stored t) _
            (subst
              (λ d. After (λ _ e. Committed stored d e) (Unsaved stored d) (write_project stored t))
              h.1
              (write_project-After stored expected_revision t
                (subst (Placed project.id) (sym h.1) placed)
                (subst (λ d. Allowed expected_revision (files_of project.id d).project_json)
                  (sym h.1) h.0)))
            (λ _ u k. finish-After project expected_revision now s.disk u h.0 k) (λ _ w. w))
        (λ _ w. inl w)
