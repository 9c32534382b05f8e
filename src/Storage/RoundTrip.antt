-- ===== src/Storage/RoundTrip.antt =====
-- storage/local.py: a save, and the load behind it.
use auto_nav_log.Common.{
  List, Option, String, [], ap, arith, eq_iff, eqb, eqb_iff, inl, inr, ltb, none, refl, some, subst,
  sym, true, ℕ, ◌++◌, ◌+◌, ◌==◌, ◌∙◌, ◌∷◌, ◌≡◌,
}
use auto_nav_log.Common.Dict.{lookup-insert}
use auto_nav_log.Common.Result.{Result, err, ok}
use auto_nav_log.Storage.Disk.{Disk, File, Project, ProjectSummary, files_of, holds, unreadable}
use auto_nav_log.Storage.Effect.{
  Failure, M, Store, backup_of, change_with_backup, continue, handle, pure, ◌>>=◌,
}
use auto_nav_log.Storage.Elsewhere.{Elsewhere, update_index-Elsewhere}
use auto_nav_log.Storage.Index.{
  read_or_rebuild_index, rebuild_index, sort_summaries, update_index, use_index, without,
  write_index,
}
use auto_nav_log.Storage.Keeping.{Keeps, bind-Keeps, weaken-Keeps}
use auto_nav_log.Storage.Kept.{settle_latest-Spares}
use auto_nav_log.Storage.Reading.{
  Loaded, Read, absent, checkpoint, choose, corrupt, found, found_project, load_primary,
  owner_key_of, read_autosave, read_bak, read_json, recover, recover_from, summary,
}
use auto_nav_log.Storage.Recovery.{NotAhead}
use auto_nav_log.Storage.Repository.{
  advanced, autosave, check_revision, put_project, save, settle_latest, write_project,
}
use auto_nav_log.Storage.Saving.{Allowed}
use auto_nav_log.Storage.Spares.{Elsewhere-Spares, Spares, Spares-Order}

module _ {Body : Type 0} where
  abbrev pub shown : Result Failure (Loaded Body) → Result Failure (Project Body)
  shown (ok loaded) = ok loaded.project
  shown (err failure) = err failure

  -- The load behind a save, where no autosave is ahead of it.
  shown-recover_from :
      (autosave backup : Read Body) (stored : Project Body) (revision : ℕ)
      → NotAhead revision (found_project autosave)
      → stored.revision ≡ revision + 1
      → shown (recover_from autosave (found stored) backup) ≡ ok stored
  unfolding load_primary choose
  shown-recover_from absent backup stored revision h k = refl
  shown-recover_from corrupt backup stored revision h k = refl
  shown-recover_from (found autosave) backup stored revision h k =
      let behind : ltb autosave.revision stored.revision ≡ true = ground arith in rw behind

module _ {Body Outcome : Type 0} where
  -- A store in which every change works.
  abbrev pub quiet : Disk Body Outcome → Store Body Outcome
  quiet d = record { disk = d; fates = [] }

  continue-ok :
      {A B : Type 0} (r : Result Failure A × Store Body Outcome) (f : A → M Body Outcome B) (a : A)
      → r.0 ≡ ok a
      → continue r f ≡ f a r.1
  continue-ok (x, s) f a h = ap (λ y. continue (y, s) f) h

  use_index-quiet :
      (index : File (List ProjectSummary)) (f : List ProjectSummary → List ProjectSummary)
      (d : Disk Body Outcome)
      → (continue (use_index index (quiet d)) (λ summaries. write_index (f summaries))).0 ≡ ok tt
  unfolding rebuild_index write_index change_with_backup
  use_index-quiet none f d = refl
  use_index-quiet (some unreadable) f d = refl
  use_index-quiet (some (holds summaries)) f d = refl

  update_index-quiet :
      (project : Project Body) (d : Disk Body Outcome) → (update_index project (quiet d)).0 ≡ ok tt
  unfolding update_index read_or_rebuild_index
  update_index-quiet project d =
      use_index-quiet d.index
        (λ summaries. sort_summaries (without project.id summaries ++ summary project ∷ [])) d

  check_revision-quiet :
      (expected_revision : ℕ) (project : Project Body) (file : File (Project Body))
      (d : Disk Body Outcome)
      → Allowed expected_revision file
      → check_revision expected_revision project file (quiet d) ≡ (ok tt, quiet d)
  unfolding check_revision
  check_revision-quiet expected_revision project none d h =
      let allowed : eqb expected_revision 0 ≡ true = (eqb_iff expected_revision 0).1 h in rw allowed
  check_revision-quiet expected_revision project (some unreadable) d h = absurd h
  check_revision-quiet expected_revision project (some (holds existing)) d h =
      let allowed : eqb existing.revision expected_revision ≡ true =
        (eqb_iff existing.revision expected_revision).1 h in
      rw allowed

  handle-ok :
      (r : Result Failure (Unit {0}) × Store Body Outcome)
      → (handle r (λ failure. pure tt)).0 ≡ ok tt
  handle-ok (ok a, s) = refl
  handle-ok (err failure, s) = refl

  -- A directory that has a checkpoint is left as it is by what spares those.
  Spares-stays :
      (id : String) (d e : Disk Body Outcome) (project : Project Body)
      → Spares d e
      → checkpoint id d ≡ some project
      → files_of id e ≡ files_of id d
  Spares-stays id d e project h k = elim (h id) [
    | inl stays ↦ stays
    | inr (before, after) ↦ absurd (let q : some project ≡ none = sym k ∙ before in cc q)
  ]

module _ {Body Outcome : Type 0} (key_of : String → String) where
  -- What a save does behind its checkpoint and its index raises nothing, whatever fails in it, and
  -- leaves every directory that has a checkpoint as it is.
  pub settle_latest_lem :
      (id : String) (owner_key : Option String) (s : Store Body Outcome)
      → ((settle_latest key_of id owner_key s).0 ≡ ok tt)
        × Spares s.disk (settle_latest key_of id owner_key s).1.disk
  unfolding settle_latest
  settle_latest_lem id none s = (refl, λ other. inl refl)
  settle_latest_lem id (some owner_key) s =
      (handle-ok _, settle_latest-Spares key_of id (some owner_key) s)

  -- What a save does behind its checkpoint.
  abbrev finish : String → Option String → Project Body → M Body Outcome (Project Body)
  finish id owner_key stored =
      update_index stored >>= λ _. settle_latest key_of id owner_key >>= λ _. pure stored

  finish-quiet :
      (id : String) (owner_key : Option String) (stored : Project Body) (d : Disk Body Outcome)
      → (finish id owner_key stored (quiet d)).0 ≡ ok stored
  finish-quiet id owner_key stored d =
      let indexed = update_index stored (quiet d) in
      ap (λ r. r.0)
        (continue-ok indexed (λ _. settle_latest key_of id owner_key >>= λ _. pure stored) tt
            (update_index-quiet stored d)
          ∙ continue-ok (settle_latest key_of id owner_key indexed.1) (λ _. pure stored) tt
              (settle_latest_lem id owner_key indexed.1).0)

  finish-Spares :
      (id : String) (owner_key : Option String) (stored : Project Body)
      → Keeps Spares (finish id owner_key stored)
  finish-Spares id owner_key stored =
      bind-Keeps Spares Spares-Order (update_index stored) _
        (weaken-Keeps Elsewhere Spares Elsewhere-Spares (update_index stored)
          (update_index-Elsewhere stored))
        (λ _.
          bind-Keeps Spares Spares-Order (settle_latest key_of id owner_key) _
            (settle_latest-Spares key_of id owner_key) (λ _ _ _. inl refl))

  finish-recover :
      (id : String) (owner_key : Option String) (stored : Project Body) (revision : ℕ)
      (d : Disk Body Outcome)
      → (files_of id d).project_json ≡ some (holds stored)
      → stored.id ≡ id
      → NotAhead revision (found_project (read_autosave id (files_of id d)))
      → stored.revision ≡ revision + 1
      → shown (recover id (finish id owner_key stored (quiet d)).1.disk) ≡ ok stored
  unfolding recover checkpoint
  finish-recover id owner_key stored revision d h own behind next =
      let own' : (stored.id == id) ≡ true = (eq_iff stored.id id).1 own in
      let primary : read_json id (files_of id d) ≡ found stored = rw (h, own') in
      let after = (finish id owner_key stored (quiet d)).1.disk in
      let stays : files_of id after ≡ files_of id d =
        Spares-stays id d after stored (finish-Spares id owner_key stored (quiet d)) (rw primary) in
      rw (stays, primary)
        (shown-recover_from (read_autosave id (files_of id d)) (read_bak id (files_of id d)) stored
          revision behind next)

  save-finish :
      (project : Project Body) (expected_revision now : ℕ) (d : Disk Body Outcome)
      → Allowed expected_revision (files_of project.id d).project_json
      → save key_of project expected_revision now (quiet d)
        ≡ finish project.id
            (owner_key_of key_of project)
            (advanced expected_revision now project)
            (quiet (put_project (advanced expected_revision now project) d))
  unfolding save write_project change_with_backup
  save-finish project expected_revision now d allowed =
      ap
        (λ r. continue r (λ _. write_project (advanced expected_revision now project) >>= λ _.
          finish project.id (owner_key_of key_of project) (advanced expected_revision now project)))
        (check_revision-quiet expected_revision project (files_of project.id d).project_json d
          allowed)

  -- Where nothing fails, a save that the revision of project.json allows returns the project at the next
  -- revision, and a load that follows shows just that, provided that no autosave is ahead of the save.
  pub recover-save :
      (project : Project Body) (expected_revision now : ℕ) (d : Disk Body Outcome)
      → Allowed expected_revision (files_of project.id d).project_json
      → NotAhead expected_revision
          (found_project (read_autosave project.id (files_of project.id d)))
      → ((save key_of project expected_revision now (quiet d)).0
          ≡ ok (advanced expected_revision now project))
        × (shown (recover project.id (save key_of project expected_revision now (quiet d)).1.disk)
            ≡ ok (advanced expected_revision now project))
  recover-save project expected_revision now d allowed behind =
      let stored = advanced expected_revision now project in
      let files = files_of project.id d in
      let written : files_of project.id (put_project stored d) ≡ record files {
        project_json = some (holds stored);
        project_bak = backup_of files.project_json files.project_bak;
      } =
        let own : (project.id == project.id) ≡ true = (eq_iff project.id project.id).1 refl in
        simp (lookup-insert, own) in
      rw (save-finish project expected_revision now d allowed) (
        finish-quiet project.id (owner_key_of key_of project) stored (put_project stored d),
        finish-recover project.id (owner_key_of key_of project) stored expected_revision
            (put_project stored d) (ap (λ f. f.project_json) written) refl
            (subst (λ f. NotAhead expected_revision (found_project (read_autosave project.id f)))
              (sym written) behind)
            refl,
      )
