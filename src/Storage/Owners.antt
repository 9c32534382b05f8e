-- ===== src/Storage/Owners.antt =====
-- storage/local.py: the marker of an owner, and the cleanup of the drafts that it names.
use auto_nav_log.Common.{
  Bool, List, Option, String, [], false, if◌then◌else◌, none, some, true, ◌&&◌, ◌==◌, ◌∷◌, ◌||◌,
}
use auto_nav_log.Common.Dict.{remove}
use auto_nav_log.Common.Result.{err}
use auto_nav_log.Storage.Disk.{
  Disk, File, OwnerProjectState, ProjectFiles, exists, files_of, holds, unreadable,
}
use auto_nav_log.Storage.Effect.{
  Failure, Fate, M, catch, change, fails_halfway, first_fate, get_disk, json_error, later_fates,
  left_files, not_found, owner_files, pure, put_files, put_owner, raise, ◌>>=◌, ◌>>◌,
}
use auto_nav_log.Storage.Index.{read_or_rebuild_index, sort_summaries, without, write_index}
use auto_nav_log.Storage.Reading.{is_autosave_only}

abbrev pub same_texts : List String → List String → Bool
same_texts [] [] = true
same_texts (x ∷ xs) (y ∷ ys) = x == y && same_texts xs ys
same_texts _ _ = false

abbrev pub is_id : String → Option String → Bool
is_id id none = false
is_id id (some other) = other == id

abbrev pub keep_remaining : String → Bool → List String → List String
keep_remaining id true ids = id ∷ ids
keep_remaining id false ids = ids

module _ {Body Outcome : Type 0} where
  abbrev pub put_state : String → File OwnerProjectState → Disk Body Outcome → Disk Body Outcome
  put_state owner_key state disk =
      put_owner owner_key (record (owner_files owner_key disk) { state = state }) disk

  unfoldable pub write_owner_state : String → OwnerProjectState → M Body Outcome (Unit {0})
  write_owner_state owner_key state = change (put_state owner_key (some (holds state)))

  -- `path.unlink()` on the marker
  unfoldable pub unlink_owner_state : String → M Body Outcome (Unit {0})
  unlink_owner_state owner_key = change (put_state owner_key none)

  abbrev pub move_aside : String → File OwnerProjectState → M Body Outcome Bool
  move_aside owner_key none = pure false
  move_aside owner_key (some content) =
      change (put_owner owner_key (record { state = none; invalid = some content })) >> pure true

  -- `os.replace(path, quarantine)`, where the marker is there
  unfoldable pub quarantine_owner_state : String → M Body Outcome Bool
  quarantine_owner_state owner_key = do
    disk ← get_disk
    move_aside owner_key (owner_files owner_key disk).state

  abbrev pub has_project_files : ProjectFiles Body Outcome → Bool
  has_project_files files =
      exists files.autosave_json || (exists files.project_json || exists files.project_bak)

  -- What the removal of a directory does with its fate: it fails with some of the files removed, or it is a
  -- change as any other.
  abbrev pub remove_with : Fate → String → M Body Outcome (Unit {0})
  remove_with (fails_halfway left failure) id s = (
    err failure,
    record {
      disk = put_files id (left_files left (files_of id s.disk)) s.disk;
      fates = later_fates s.fates;
    },
  )
  remove_with fate id s = change (λ disk. record disk { projects = remove id disk.projects }) s

  -- `shutil.rmtree(project_dir)`
  unfoldable pub remove_directory : String → M Body Outcome (Unit {0})
  remove_directory id s = remove_with (first_fate s.fates) id s

  unfoldable pub delete_directory : String → M Body Outcome (Unit {0})
  delete_directory id = do
    remove_directory id
    summaries ← read_or_rebuild_index
    write_index (sort_summaries (without id summaries))

  -- `_delete_locked`
  unfoldable pub delete : String → M Body Outcome (Unit {0})
  delete id = do
    disk ← get_disk
    if has_project_files (files_of id disk) then delete_directory id else raise not_found

module _ {Body Outcome : Type 0} (key_of : String → String) where
  -- A version 1 marker as version 2.
  abbrev pub migrated : String → String → Disk Body Outcome → OwnerProjectState
  migrated owner_key id disk = record {
    last_opened_project_id = some id;
    latest_draft_project_id = if is_autosave_only key_of id owner_key disk then some id else none;
    pending_cleanup_project_ids = [];
    project_id = none;
  }

  abbrev pub migrate : String → String → M Body Outcome (Option OwnerProjectState)
  migrate owner_key id = do
    disk ← get_disk
    write_owner_state owner_key (migrated owner_key id disk)
    pure (some (migrated owner_key id disk))

  abbrev pub from_version :
      String → OwnerProjectState → Option String → M Body Outcome (Option OwnerProjectState)
  from_version owner_key state none = pure (some state)
  from_version owner_key state (some id) = migrate owner_key id

  abbrev pub use_state : String → File OwnerProjectState → M Body Outcome (Option OwnerProjectState)
  use_state owner_key none = pure none
  use_state owner_key (some unreadable) = raise json_error
  use_state owner_key (some (holds state)) = from_version owner_key state state.project_id

  -- `_read_owner_state_locked`, with the migration
  unfoldable pub read_owner_state : String → M Body Outcome (Option OwnerProjectState)
  read_owner_state owner_key = do
    disk ← get_disk
    use_state owner_key (owner_files owner_key disk).state

  abbrev pub delete_if : String → Bool → M Body Outcome Bool
  delete_if id true = delete id >> pure false
  delete_if id false = pure false

  abbrev pub retry_later : Failure → M Body Outcome Bool
  retry_later not_found = pure false
  retry_later _ = pure true

  -- One draft of the loop in `_cleanup_pending_locked`: whether it remains to be cleaned up.
  unfoldable pub clean_up : String → String → M Body Outcome Bool
  clean_up owner_key id =
      catch (get_disk >>= λ disk. delete_if id (is_autosave_only key_of id owner_key disk))
        retry_later

  unfoldable pub clean_up_all : String → List String → M Body Outcome (List String)
  clean_up_all owner_key [] = pure []
  clean_up_all owner_key (id ∷ ids) = do
    remains ← clean_up owner_key id
    remaining ← clean_up_all owner_key ids
    pure (keep_remaining id remains remaining)

  -- `_cleanup_pending_locked`
  unfoldable pub cleanup_pending : String → OwnerProjectState → M Body Outcome (Unit {0})
  cleanup_pending owner_key state = do
    remaining ← clean_up_all owner_key state.pending_cleanup_project_ids
    if same_texts remaining state.pending_cleanup_project_ids
        then pure tt
        else catch
            (write_owner_state owner_key (record state { pending_cleanup_project_ids = remaining }))
            (λ failure. pure tt)
