-- ===== src/Storage/Repository.antt =====
-- storage/local.py: the operations of `LocalProjectRepository`, each under its lock.
use auto_nav_log.Common.{
  Bool, List, Option, String, [], any, eqb, if◌then◌else◌, is_some, none, not, some, true, ℕ, ◌&&◌,
  ◌++◌, ◌+◌, ◌==◌, ◌∷◌, ◌||◌,
}
use auto_nav_log.Common.Result.{Result, err, ok}
use auto_nav_log.Storage.Disk.{
  Disk, File, OwnerProjectState, Project, files_of, holds, no_state, unreadable,
}
use auto_nav_log.Storage.Effect.{
  Failure, M, backup_of, bad_revision, catch, change, change_with_backup, get_disk, json_error,
  pure, put_files, raise, revision_conflict, ◌>>=◌, ◌>>◌,
}
use auto_nav_log.Storage.Index.{update_index}
use auto_nav_log.Storage.Owners.{cleanup_pending, is_id, read_owner_state, write_owner_state}
use auto_nav_log.Storage.Reading.{Loaded, checkpoint, owner_key_of, recover}

abbrev pub state_or_new : Option OwnerProjectState → OwnerProjectState
state_or_new none = no_state
state_or_new (some state) = state

abbrev pub with_previous : String → Option String → List String → List String
with_previous id none pending = pending
with_previous id (some previous) pending =
    if previous == id || any (λ other. other == previous) pending
    then pending
    else pending ++ previous ∷ []

abbrev pub advanced : {Body : Type 0} → ℕ → ℕ → Project Body → Project Body
advanced expected_revision now project = record project {
  revision = expected_revision + 1;
  updated_at = now;
}

module _ {Body Outcome : Type 0} where
  abbrev pub lift : {A : Type 0} → Result Failure A → M Body Outcome A
  lift (ok a) = pure a
  lift (err failure) = raise failure

  -- `load_with_recovery`
  unfoldable pub load_with_recovery : String → Bool → M Body Outcome (Loaded Body)
  load_with_recovery id repair_index = do
    disk ← get_disk
    loaded ← lift (recover id disk)
    if loaded.should_update_index && repair_index
        then update_index loaded.project >> pure loaded
        else pure loaded

  -- `atomic_model_write(path, project)` on project.json and on autosave.json
  abbrev pub put_project : Project Body → Disk Body Outcome → Disk Body Outcome
  put_project project disk =
      let files = files_of project.id disk in
      put_files project.id
        (record files {
          project_json = some (holds project);
          project_bak = backup_of files.project_json files.project_bak;
        })
        disk

  abbrev pub back_up_project : Project Body → Disk Body Outcome → Disk Body Outcome
  back_up_project project disk =
      let files = files_of project.id disk in
      put_files project.id
        (record files { project_bak = backup_of files.project_json files.project_bak }) disk

  abbrev pub put_autosave : Project Body → Disk Body Outcome → Disk Body Outcome
  put_autosave project disk =
      let files = files_of project.id disk in
      put_files project.id
        (record files {
          autosave_json = some (holds project);
          autosave_bak = backup_of files.autosave_json files.autosave_bak;
        })
        disk

  abbrev pub back_up_autosave : Project Body → Disk Body Outcome → Disk Body Outcome
  back_up_autosave project disk =
      let files = files_of project.id disk in
      put_files project.id
        (record files { autosave_bak = backup_of files.autosave_json files.autosave_bak }) disk

  -- The copy that a save with a stale revision leaves.
  abbrev pub put_conflict : Project Body → Disk Body Outcome → Disk Body Outcome
  put_conflict project disk =
      let files = files_of project.id disk in
      put_files project.id (record files { conflicts = files.conflicts ++ project ∷ [] }) disk

  -- `_save_locked`, before it writes.
  unfoldable pub check_revision : ℕ → Project Body → File (Project Body) → M Body Outcome (Unit {0})
  check_revision expected_revision project none =
      if eqb expected_revision 0 then pure tt else raise bad_revision
  check_revision expected_revision project (some unreadable) = raise json_error
  check_revision expected_revision project (some (holds existing)) =
      if eqb existing.revision expected_revision
      then pure tt
      else change (put_conflict project) >> raise revision_conflict

  unfoldable pub write_project : Project Body → M Body Outcome (Unit {0})
  write_project project = change_with_backup (put_project project) (back_up_project project)

  unfoldable pub write_autosave : Project Body → M Body Outcome (Unit {0})
  write_autosave project = change_with_backup (put_autosave project) (back_up_autosave project)

  -- The marker that makes the project the owner's latest draft.
  abbrev pub committed : String → Bool → Disk Body Outcome → OwnerProjectState → OwnerProjectState
  committed id set_last_opened disk state = record state {
    last_opened_project_id = if set_last_opened then some id else state.last_opened_project_id;
    latest_draft_project_id = if is_some (checkpoint id disk) then none else some id;
    pending_cleanup_project_ids =
        with_previous id state.latest_draft_project_id state.pending_cleanup_project_ids;
  }

  -- An unreadable marker is replaced where the route is confirmed.
  abbrev pub replace_unreadable : Bool → Failure → M Body Outcome OwnerProjectState
  replace_unreadable true json_error = pure no_state
  replace_unreadable _ failure = raise failure

module _ {Body Outcome : Type 0} (key_of : String → String) where
  abbrev pub clean_up_state : String → Option OwnerProjectState → M Body Outcome (Unit {0})
  clean_up_state owner_key none = pure tt
  clean_up_state owner_key (some state) = cleanup_pending key_of owner_key state

  -- The marker names no draft that is saved now.
  abbrev pub clear_latest :
      String → String → Option OwnerProjectState → M Body Outcome (Option OwnerProjectState)
  clear_latest owner_key id none = pure none
  clear_latest owner_key id (some state) =
      if is_id id state.latest_draft_project_id
      then write_owner_state owner_key (record state { latest_draft_project_id = none })
        >> read_owner_state key_of owner_key
      else pure (some state)

  -- What `_save_locked` does behind its commit, and whose faults it only logs.
  unfoldable pub settle_latest : String → Option String → M Body Outcome (Unit {0})
  settle_latest id none = pure tt
  settle_latest id (some owner_key) =
      catch
        (do
          state ← read_owner_state key_of owner_key
          cleared ← clear_latest owner_key id state
          clean_up_state owner_key cleared)
        (λ failure. pure tt)

  -- `save`; `now` is the clock.
  unfoldable pub save : Project Body → ℕ → ℕ → M Body Outcome (Project Body)
  save project expected_revision now = do
    disk ← get_disk
    check_revision expected_revision project (files_of project.id disk).project_json
    write_project (advanced expected_revision now project)
    update_index (advanced expected_revision now project)
    settle_latest project.id (owner_key_of key_of project)
    pure (advanced expected_revision now project)

  -- The state of the owner that an autosave goes by.
  unfoldable pub autosave_state : Bool → String → M Body Outcome OwnerProjectState
  autosave_state set_last_opened owner_key =
      catch (do state ← read_owner_state key_of owner_key; pure (state_or_new state))
        (replace_unreadable set_last_opened)

  abbrev pub select_latest : String → Bool → String → OwnerProjectState → M Body Outcome (Unit {0})
  select_latest id set_last_opened owner_key state = do
    disk ← get_disk
    write_owner_state owner_key (committed id set_last_opened disk state)
    cleanup_pending key_of owner_key (committed id set_last_opened disk state)

  unfoldable pub commit_latest : String → Bool → Option String → M Body Outcome (Unit {0})
  commit_latest id set_last_opened none = pure tt
  commit_latest id set_last_opened (some owner_key) = do
    state ← autosave_state set_last_opened owner_key
    if not set_last_opened && not (is_id id state.last_opened_project_id)
        then pure tt
        else select_latest id set_last_opened owner_key state

  unfoldable pub autosave : Project Body → Bool → M Body Outcome (Unit {0})
  autosave project set_last_opened = do
    write_autosave project
    update_index project
    commit_latest project.id set_last_opened (owner_key_of key_of project)
