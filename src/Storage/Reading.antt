-- ===== src/Storage/Reading.antt =====
-- storage/local.py: what is read of a project's directory, without a change of the disk.
use auto_nav_log.Common.{
  String, Bool, true, false, not, ◌&&◌, ◌||◌, Option, none, some, ltb, if◌then◌else◌, ◌==◌,
}
use auto_nav_log.Common.Result.{Result, ok, err}
use auto_nav_log.Storage.Disk.{
  unreadable, holds, File, Project, ProjectSummary, saved, ProjectFiles, Disk, files_of,
}
use auto_nav_log.Storage.Effect.{Failure, json_error, not_found}

-- `_read_migrated_project` with `_validate_project_path_identity`, where the file exists.
pub data Read (Body : Type 0) : Type 0 where
  absent corrupt : Read Body
  found : Project Body → Read Body

-- The project that a load shows, with `recovered_from_fallback` and `should_update_index`.
pub record Loaded (Body : Type 0) : Type 0 where
  pub project : Project Body
  pub recovered_from_fallback : Bool
  pub should_update_index : Bool

module _ {Body : Type 0} where
  abbrev pub read_project : String → File (Project Body) → Read Body
  read_project id none = absent
  read_project id (some unreadable) = corrupt
  read_project id (some (holds project)) = if project.id == id then found project else corrupt

  abbrev pub found_project : Read Body → Option (Project Body)
  found_project absent = none
  found_project corrupt = none
  found_project (found project) = some project

  abbrev pub is_found : Read Body → Bool
  is_found (found project) = true
  is_found _ = false

  abbrev pub is_corrupt : Read Body → Bool
  is_corrupt corrupt = true
  is_corrupt _ = false

  -- The first of two, where it is there.
  abbrev pub first_of : Option (Project Body) → Option (Project Body) → Option (Project Body)
  first_of (some project) other = some project
  first_of none other = other

  -- `_summary`
  abbrev pub summary : Project Body → ProjectSummary
  summary project = record {
    id = project.id;
    name = project.name;
    updated_at = project.updated_at;
    status = project.status;
    revision = project.revision;
    web_owner_id = project.web_owner_id;
    kind = saved;
  }

  -- The choice between the autosave and the checkpoint.
  unfoldable pub choose :
      Option (Project Body) → Bool → Option (Project Body) → Bool → Result Failure (Loaded Body)
  choose (some autosave) invalid (some checkpoint) recovered =
      if ltb autosave.revision checkpoint.revision
      then ok (record {
        project = checkpoint;
        recovered_from_fallback = false;
        should_update_index = true;
      })
      else ok (record {
        project = autosave;
        recovered_from_fallback = false;
        should_update_index = false;
      })
  choose (some autosave) invalid none recovered =
      ok (record {
        project = autosave;
        recovered_from_fallback = false;
        should_update_index = false;
      })
  choose none invalid (some checkpoint) recovered = ok (record {
    project = checkpoint;
    recovered_from_fallback = invalid || recovered;
    should_update_index = invalid || recovered;
  })
  choose none invalid none recovered = err not_found

  -- The checkpoint of a load: a backup that cannot be read is not passed over.
  unfoldable pub load_primary : Read Body → Read Body → Result Failure (Option (Project Body))
  load_primary (found project) backup = ok (some project)
  load_primary _ absent = ok none
  load_primary _ corrupt = err json_error
  load_primary _ (found project) = ok (some project)

  -- The load from what it reads of the autosave, of project.json and of its backup.
  abbrev pub recover_from : Read Body → Read Body → Read Body → Result Failure (Loaded Body)
  recover_from autosave primary backup = elim (load_primary primary backup) [
    | err failure ↦ err failure
    | ok stored ↦
        choose (found_project autosave) (is_corrupt autosave) stored
          (is_corrupt primary || (not (is_found primary) && is_found backup))
  ]

-- `key_of` is `owner_storage_key`.
module _ {Body : Type 0} (key_of : String → String) where
  -- `_project_owner_key`
  abbrev pub owner_key_of : Project Body → Option String
  owner_key_of project = elim project.web_owner_id [
    | none ↦ none
    | some owner_id ↦ if owner_id == "" then none else some (key_of owner_id)
  ]

  abbrev pub belongs_to : String → Option (Project Body) → Bool
  belongs_to owner_key none = false
  belongs_to owner_key (some project) = elim (owner_key_of project) [
    | none ↦ false
    | some key ↦ key == owner_key
  ]

module _ {Body Outcome : Type 0} where
  abbrev pub read_json : String → ProjectFiles Body Outcome → Read Body
  read_json id files = read_project id files.project_json

  abbrev pub read_bak : String → ProjectFiles Body Outcome → Read Body
  read_bak id files = read_project id files.project_bak

  abbrev pub read_autosave : String → ProjectFiles Body Outcome → Read Body
  read_autosave id files = read_project id files.autosave_json

  -- `_checkpoint_summary_locked`, before the summary is made.
  unfoldable pub checkpoint : String → Disk Body Outcome → Option (Project Body)
  checkpoint id disk =
      first_of (found_project (read_json id (files_of id disk)))
        (found_project (read_bak id (files_of id disk)))

  unfoldable pub load_checkpoint :
      String → Disk Body Outcome → Result Failure (Option (Project Body))
  load_checkpoint id disk = elim (checkpoint id disk) [
    | some project ↦ ok (some project)
    | none ↦
        if is_corrupt (read_json id (files_of id disk))
          || is_corrupt (read_bak id (files_of id disk))
        then err json_error
        else ok none
  ]

  -- `_load_with_recovery_locked`, before it updates the index.
  unfoldable pub recover : String → Disk Body Outcome → Result Failure (Loaded Body)
  recover id disk =
      recover_from (read_autosave id (files_of id disk)) (read_json id (files_of id disk))
        (read_bak id (files_of id disk))

module _ {Body Outcome : Type 0} (key_of : String → String) where
  -- `_is_autosave_only_for_owner_locked`
  unfoldable pub is_autosave_only : String → String → Disk Body Outcome → Bool
  is_autosave_only id owner_key disk = elim (checkpoint id disk) [
    | some project ↦ false
    | none ↦ belongs_to key_of owner_key (found_project (read_autosave id (files_of id disk)))
  ]
