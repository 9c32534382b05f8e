-- ===== src/Storage/Markers.antt =====
-- storage/local.py: the operations of `LocalProjectRepository` on markers, listings and last calculations.
use auto_nav_log.Common.{
  Bool, List, Option, String, [], false, if◌then◌else◌, is_some, keep_if, none, not, some, true,
  ◌&&◌, ◌==◌, ◌∷◌, ◌||◌,
}
use auto_nav_log.Common.Dict.{Dict, insert, lookup}
use auto_nav_log.Common.Result.{Result, err, ok}
use auto_nav_log.Storage.Disk.{
  Disk, File, LastCalculationRecord, OwnerProjectState, ProjectSummary, files_of, holds, latest,
  unreadable,
}
use auto_nav_log.Storage.Effect.{
  Failure, M, catch, change, get_disk, json_error, owner_files, pure, put_files, put_owner, raise,
  ◌>>=◌, ◌>>◌,
}
use auto_nav_log.Storage.Index.{read_or_rebuild_index, sort_summaries}
use auto_nav_log.Storage.Owners.{
  delete, is_id, quarantine_owner_state, read_owner_state, unlink_owner_state, write_owner_state,
}
use auto_nav_log.Storage.Reading.{checkpoint, is_autosave_only, summary}
use auto_nav_log.Storage.Repository.{clean_up_state, state_or_new}

abbrev pub drop_id : String → Option String → Option String
drop_id id none = none
drop_id id (some other) = if other == id then none else some other

abbrev pub names : String → OwnerProjectState → Bool
names id state = is_id id state.last_opened_project_id || is_id id state.latest_draft_project_id

abbrev pub is_empty : List String → Bool
is_empty [] = true
is_empty (id ∷ ids) = false

-- The marker without the project.
abbrev pub without_project : String → OwnerProjectState → OwnerProjectState
without_project id state = record state {
  last_opened_project_id = drop_id id state.last_opened_project_id;
  latest_draft_project_id = drop_id id state.latest_draft_project_id;
  pending_cleanup_project_ids =
      keep_if (λ pending. not (pending == id)) state.pending_cleanup_project_ids;
}

abbrev pub names_nothing : OwnerProjectState → Bool
names_nothing state =
    not (is_some state.last_opened_project_id)
    && (not (is_some state.latest_draft_project_id) && is_empty state.pending_cleanup_project_ids)

abbrev pub last_opened : Option OwnerProjectState → Option String
last_opened none = none
last_opened (some state) = state.last_opened_project_id

-- The latest draft of each owner, as `list_projects` collects it.
abbrev pub with_latest : String → Option OwnerProjectState → Dict String → Dict String
with_latest owner_key none drafts = drafts
with_latest owner_key (some state) drafts = elim state.latest_draft_project_id [
  | none ↦ drafts
  | some id ↦ insert owner_key id drafts
]

abbrev pub add_visible : Option ProjectSummary → List ProjectSummary → List ProjectSummary
add_visible none items = items
add_visible (some item) items = item ∷ items

abbrev pub keys : {A : Type 0} → Dict A → List String
keys [] = []
keys ((key, value) ∷ dict) = key ∷ keys dict

-- `project_id is None or state.last_opened_project_id == project_id`
abbrev pub clears : Option String → Option String → Bool
clears none opened = true
clears (some id) opened = is_id id opened

-- What `delete_with_owner_marker` finds, and does before the deletion: the marker that it changed, or
-- that it put an unreadable one into quarantine.
pub data Marker : Type 0 where
  untouched quarantined : Marker
  changed : OwnerProjectState → Marker

module _ {Body Outcome : Type 0} where
  abbrev pub replace_marker : String → OwnerProjectState → M Body Outcome (Unit {0})
  replace_marker owner_key state =
      if names_nothing state
      then unlink_owner_state owner_key
      else write_owner_state owner_key state

  abbrev pub take_out : String → String → Option OwnerProjectState → M Body Outcome Marker
  take_out owner_key id none = pure untouched
  take_out owner_key id (some state) =
      if names id state
      then replace_marker owner_key (without_project id state) >> pure (changed state)
      else pure untouched

  abbrev pub set_aside :
      String → Failure → M Body Outcome (Result Marker (Option OwnerProjectState))
  set_aside owner_key json_error = quarantine_owner_state owner_key >>= λ moved.
      pure (err (if moved then quarantined else untouched))
  set_aside owner_key failure = raise failure

  abbrev pub after_marker :
      String → String → Result Marker (Option OwnerProjectState) → M Body Outcome Marker
  after_marker owner_key id (ok state) = take_out owner_key id state
  after_marker owner_key id (err marker) = pure marker

  -- `os.replace(quarantined_marker, marker_path)`
  unfoldable pub restore_quarantined : String → M Body Outcome (Unit {0})
  restore_quarantined owner_key = change (λ disk.
      put_owner owner_key (record { state = (owner_files owner_key disk).invalid; invalid = none })
        disk)

  -- What is done where the deletion fails, before its failure is raised again.
  abbrev pub undo : String → Marker → M Body Outcome (Unit {0})
  undo owner_key untouched = pure tt
  undo owner_key (changed state) = write_owner_state owner_key state
  undo owner_key quarantined = catch (restore_quarantined owner_key) (λ failure. pure tt)

  -- The reset of `clear_owner_project` on a marker that can be read.
  abbrev pub forget_opened :
      String → Option String → Option OwnerProjectState → M Body Outcome (Unit {0})
  forget_opened owner_key only none = pure tt
  forget_opened owner_key only (some state) =
      if clears only state.last_opened_project_id
      then (if is_some state.latest_draft_project_id
            || not (is_empty state.pending_cleanup_project_ids)
          then write_owner_state owner_key (record state { last_opened_project_id = none })
          else unlink_owner_state owner_key)
      else pure tt

abbrev pub summary_owner : (String → String) → Option String → Option String
summary_owner key_of none = none
summary_owner key_of (some owner_id) = if owner_id == "" then none else some (key_of owner_id)

module _ {Body Outcome : Type 0} (key_of : String → String) where
  -- The marker of the owner, or what became of one that is unreadable.
  abbrev pub find_marker : String → M Body Outcome (Result Marker (Option OwnerProjectState))
  find_marker owner_key =
      catch (read_owner_state key_of owner_key >>= λ state. pure (ok state)) (set_aside owner_key)

  unfoldable pub delete_with_owner_marker : String → String → M Body Outcome (Unit {0})
  delete_with_owner_marker id owner_key = do
    marker_read ← find_marker owner_key
    marker ← after_marker owner_key id marker_read
    catch (delete id) (λ failure. undo owner_key marker >> raise failure)

  -- `set_owner_project`, `load_owner_project`
  unfoldable pub set_owner_project : String → String → M Body Outcome (Unit {0})
  set_owner_project owner_key id = do
    state ← read_owner_state key_of owner_key
    write_owner_state owner_key (record (state_or_new state) { last_opened_project_id = some id })

  unfoldable pub load_owner_project : String → M Body Outcome (Option String)
  load_owner_project owner_key = do
    state ← read_owner_state key_of owner_key
    pure (last_opened state)

  unfoldable pub clear_owner_project : String → Option String → M Body Outcome (Unit {0})
  clear_owner_project owner_key only = do
    marker_read ← find_marker owner_key
    elim marker_read [ ok state ↦ forget_opened owner_key only state | err marker ↦ pure tt ]

  -- `_retry_latest_cleanup_locked`, over the owners; it passes over a state that cannot be read.
  unfoldable pub retry_cleanup : List String → M Body Outcome (Unit {0})
  retry_cleanup [] = pure tt
  retry_cleanup (owner_key ∷ owner_keys) = do
    state ← catch (read_owner_state key_of owner_key) (λ failure. pure none)
    clean_up_state key_of owner_key state
    retry_cleanup owner_keys

  unfoldable pub latest_drafts : Dict String → List String → M Body Outcome (Dict String)
  latest_drafts drafts [] = pure drafts
  latest_drafts drafts (owner_key ∷ owner_keys) = do
    state ← catch (read_owner_state key_of owner_key) (λ failure. pure none)
    latest_drafts (with_latest owner_key state drafts) owner_keys

  -- The summary that stands for one of the index, if it is visible.
  unfoldable pub visible : Dict String → Disk Body Outcome → ProjectSummary → Option ProjectSummary
  visible drafts disk item = elim (lookup item.id disk.projects) [
    | none ↦ none
    | some files ↦ elim (checkpoint item.id disk) [
      | some project ↦ some (summary project)
      | none ↦ elim (summary_owner key_of item.web_owner_id) [
        | none ↦ none
        | some owner_key ↦
            if is_id item.id (lookup owner_key drafts)
              && is_autosave_only key_of item.id owner_key disk
            then some (record item { kind = latest })
            else none
      ]
    ]
  ]

  unfoldable pub all_visible :
      Dict String → Disk Body Outcome → List ProjectSummary → List ProjectSummary
  all_visible drafts disk [] = []
  all_visible drafts disk (item ∷ items) =
      add_visible (visible drafts disk item) (all_visible drafts disk items)

  unfoldable pub list_projects : M Body Outcome (List ProjectSummary)
  list_projects = do
    start ← get_disk
    retry_cleanup (keys start.owners)
    disk ← get_disk
    drafts ← latest_drafts [] (keys disk.owners)
    summaries ← read_or_rebuild_index
    final ← get_disk
    pure (sort_summaries (all_visible drafts final summaries))

module _ {Body Outcome : Type 0} where
  abbrev pub put_last :
      String → File (LastCalculationRecord Body Outcome) → Disk Body Outcome → Disk Body Outcome
  put_last id last disk = put_files id (record (files_of id disk) { last_calculation = last }) disk

  unfoldable pub replace_last_calculation :
      LastCalculationRecord Body Outcome → M Body Outcome (Unit {0})
  replace_last_calculation last =
      if last.project.id == last.project_id
      then change (put_last last.project_id (some (holds last)))
      else raise json_error

  abbrev pub aside : String → Disk Body Outcome → Disk Body Outcome
  aside id disk =
      let files = files_of id disk in
      put_files id
        (record files {
          last_calculation = none;
          last_calculation_invalid = files.last_calculation;
        })
        disk

  -- An invalid record is moved aside.
  unfoldable pub quarantine_last : String → M Body Outcome (Unit {0})
  quarantine_last id = change (aside id)

  abbrev pub use_last :
      String
      → String
      → File (LastCalculationRecord Body Outcome)
      → M Body Outcome (Option (LastCalculationRecord Body Outcome))
  use_last id owner_key none = pure none
  use_last id owner_key (some unreadable) = quarantine_last id >> raise json_error
  use_last id owner_key (some (holds last)) =
      if last.project_id == id && last.owner_key == owner_key
      then pure (some last)
      else quarantine_last id >> raise json_error

  unfoldable pub load_last_calculation :
      String → String → M Body Outcome (Option (LastCalculationRecord Body Outcome))
  load_last_calculation id owner_key = do
    disk ← get_disk
    use_last id owner_key (files_of id disk).last_calculation
