-- ===== src/Storage/Examples.antt =====
-- Concrete disks on which the theorems about the storage are applied, and tests of its operations.
use auto_nav_log.Readiness.Model.{draft}
use auto_nav_log.Common.{
  Bool, String, [], ap, false, ltb, none, refl, some, subst, sym, true, ℕ, ◌∷◌, ◌≡◌, ◌⊎◌,
}
use auto_nav_log.Common.Dict.{insert, lookup, remove}
use auto_nav_log.Common.Result.{err, ok}
use auto_nav_log.Storage.Deletion.{delete_with_owner_marker-Deletes}
use auto_nav_log.Storage.Disk.{
  Content, Disk, File, LastCalculationRecord, OwnerProjectState, Project, ProjectFiles, files_of,
  holds, no_files, unreadable,
}
use auto_nav_log.Storage.Drafts.{autosave-Drafted}
use auto_nav_log.Storage.Effect.{
  Fate, Leftover, Store, change, change_with_backup, fails, fails_after_backup, fails_halfway,
  io_error, not_found, owner_files, works,
}
use auto_nav_log.Storage.Forgetting.{delete_with_owner_marker-After}
use auto_nav_log.Storage.Index.{
  insert_summary, read_or_rebuild_index, rebuild_index, scan, scan_projects, sort_summaries,
  update_index, write_index,
}
use auto_nav_log.Storage.Kept.{checkpoint-autosave, checkpoint-list_projects}
use auto_nav_log.Storage.LastCalculation.{Loads, SetAside, load_last_calculation-After}
use auto_nav_log.Storage.Markers.{delete_with_owner_marker, list_projects, load_last_calculation}
use auto_nav_log.Storage.Outcome.{After}
use auto_nav_log.Storage.Owners.{
  clean_up, clean_up_all, cleanup_pending, delete, delete_directory, read_owner_state,
  remove_directory, write_owner_state,
}
use auto_nav_log.Storage.Reading.{checkpoint, choose, is_autosave_only, load_primary, recover}
use auto_nav_log.Storage.Refinement.{Agrees, write_project-Agrees}
use auto_nav_log.Storage.Removal.{Deletes}
use auto_nav_log.Storage.Repository.{
  advanced, autosave, autosave_state, commit_latest, save, settle_latest, write_autosave,
}
use auto_nav_log.Storage.RoundTrip.{quiet, recover-save, settle_latest_lem, shown}
use auto_nav_log.Storage.SafeJson.{
  Calls, atomic_validated_write, attempt, differs, make_temporary, passes, publish, raises,
  read_back, replace, replace_bytes, unlink, write_over, write_temp,
}
use auto_nav_log.Storage.Saving.{Placed, Saves, Unsaved, save-After}
use auto_nav_log.Storage.Spares.{Spares}
use auto_nav_log.Storage.Stays.{NotPending}
use auto_nav_log.Storage.Tidy.{among, atomic_validated_write-Tidy}
use auto_nav_log.Storage.Unnaming.{Unnamed}

abbrev route : Project String
route = record {
  id = "route";
  name = "Route";
  revision = 3;
  updated_at = 70;
  status = draft;
  web_owner_id = some "pilot";
  body = "KML";
}

abbrev newer : Project String
newer = record route { revision = 5; body = "edited" }

abbrev older : Project String
older = record route { revision = 2; body = "older" }

abbrev marker : OwnerProjectState
marker = record {
  last_opened_project_id = some "route";
  latest_draft_project_id = some "other";
  pending_cleanup_project_ids = "gone" ∷ [];
  project_id = none;
}

abbrev key_of : String → String
key_of owner_id = owner_id

abbrev last : LastCalculationRecord String String
last = record { project_id = "route"; owner_key = "pilot"; project = route; outcome = "table" }

abbrev saved_files : ProjectFiles String String
saved_files = record no_files {
  project_json = some (holds route);
  last_calculation = some (holds last);
}

abbrev draft_files : ProjectFiles String String
draft_files = record no_files { autosave_json = some (holds (record newer { id = "other" })) }

abbrev stored_disk : Disk String String
stored_disk = record {
  projects = ("route", saved_files) ∷ ("other", draft_files) ∷ [];
  index = some unreadable;
  index_bak = none;
  owners = ("pilot", record { state = some (holds marker); invalid = none }) ∷ [];
}

abbrev faulty : Store String String
faulty = record { disk = stored_disk; fates = works ∷ works ∷ fails_after_backup io_error ∷ [] }

id_in : File (Project String) → String
id_in none = ""
id_in (some unreadable) = ""
id_in (some (holds project)) = project.id

stored-Placed : Placed "route" stored_disk
unfolding id_in lookup
stored-Placed project h = ap id_in (sym h)

save-After_example :
    After
      (Saves route 3 90 stored_disk)
      (Unsaved (advanced 3 90 route) stored_disk)
      (save key_of route 3 90 faulty)
save-After_example = save-After key_of route 3 90 faulty stored-Placed

recover-save_example :
    ((save key_of route 3 90 (quiet stored_disk)).0 ≡ ok (advanced 3 90 route))
    × (shown (recover "route" (save key_of route 3 90 (quiet stored_disk)).1.disk)
        ≡ ok (advanced 3 90 route))
unfolding lookup
recover-save_example = recover-save key_of route 3 90 stored_disk refl tt

checkpoint-autosave_example :
    checkpoint "route" (autosave key_of newer true faulty).1.disk ≡ checkpoint "route" stored_disk
checkpoint-autosave_example = checkpoint-autosave key_of newer true faulty "route"

-- The index and the marker are written, and the cleanup fails.
abbrev cleanup_fails : Store String String
cleanup_fails = record {
  disk = stored_disk;
  fates = works ∷ works ∷ works ∷ works ∷ fails io_error ∷ [];
}

autosave-Drafted_example :
    (files_of "route" (autosave key_of newer true cleanup_fails).1.disk).autosave_json
    ≡ some (holds newer)
unfolding autosave write_autosave update_index read_or_rebuild_index rebuild_index write_index
    change_with_backup change commit_latest autosave_state read_owner_state write_owner_state
    cleanup_pending clean_up_all clean_up is_autosave_only checkpoint delete delete_directory
    remove_directory lookup insert remove scan_projects scan sort_summaries insert_summary
    load_primary choose recover
autosave-Drafted_example = autosave-Drafted key_of newer true cleanup_fails (λ owner_key own.
    let pilot : "pilot" ≡ owner_key = cc own in
    subst (λ key. NotPending "route" (owner_files key stored_disk).state) pilot refl)

checkpoint-list_projects_example :
    checkpoint "route" (list_projects key_of faulty).1.disk ≡ checkpoint "route" stored_disk
checkpoint-list_projects_example = checkpoint-list_projects key_of faulty "route"

-- The removal fails when project.json is gone, and the last calculation is still there.
abbrev some_left : Leftover
some_left = record {
  project_json = false;
  project_bak = false;
  autosave_json = false;
  autosave_bak = false;
  last_calculation = true;
  last_calculation_invalid = false;
  conflicts = [];
}

abbrev halfway : Store String String
halfway = record { disk = stored_disk; fates = works ∷ fails_halfway some_left io_error ∷ [] }

delete_halfway_test :
    files_of "route" (delete_with_owner_marker key_of "route" "pilot" halfway).1.disk
    ≡ record no_files { last_calculation = some (holds last) }
unfolding delete_with_owner_marker read_owner_state write_owner_state delete delete_directory
    remove_directory change change_with_backup lookup insert
delete_halfway_test = refl

delete_with_owner_marker-Deletes_example :
    Deletes "route" stored_disk (delete_with_owner_marker key_of "route" "pilot" halfway).1.disk
delete_with_owner_marker-Deletes_example =
    delete_with_owner_marker-Deletes key_of "route" "pilot" halfway

delete_with_owner_marker-After_example :
    After
      (λ _ e. (files_of "route" e ≡ no_files) × Unnamed "route" (owner_files "pilot" e).state)
      (λ _. Unit)
      (delete_with_owner_marker key_of "route" "pilot" (quiet stored_disk))
delete_with_owner_marker-After_example =
    delete_with_owner_marker-After key_of "route" "pilot" (quiet stored_disk)

load_last_calculation-After_example :
    After
      (Loads "route" "thief" stored_disk)
      (SetAside "route" "thief" stored_disk)
      (load_last_calculation "route" "thief" faulty)
load_last_calculation-After_example = load_last_calculation-After "route" "thief" faulty

settle_latest_lem_example :
    ((settle_latest key_of "other" (some "pilot") faulty).0 ≡ ok tt)
    × Spares stored_disk (settle_latest key_of "other" (some "pilot") faulty).1.disk
settle_latest_lem_example = settle_latest_lem key_of "other" (some "pilot") faulty

abbrev calls : Calls ℕ
calls = record {
  files = record { path = some 3; backup = none };
  faults = passes ∷ passes ∷ passes ∷ differs ∷ raises ∷ [];
  temporaries = record { exists = λ _. false; next_name = 0; refused = [] };
}

abbrev valid_bytes : ℕ → Bool
valid_bytes raw = ltb raw 9

-- The temporary file cannot be written, and then not be removed.
abbrev full_disk : Calls ℕ
full_disk = record calls { faults = passes ∷ passes ∷ raises ∷ raises ∷ [] }

-- The temporary file of a write that fails at its first read-back is removed.
removed_test : (atomic_validated_write valid_bytes 5 true calls).1.temporaries.exists 0 ≡ false
unfolding atomic_validated_write write_over write_temp make_temporary attempt publish read_back
    replace replace_bytes unlink
removed_test = refl

atomic_validated_write-Tidy_example :
    (false ≡ true)
    ⊎ (among 0 (atomic_validated_write valid_bytes 5 true full_disk).1.temporaries.refused ≡ true)
unfolding atomic_validated_write write_over write_temp make_temporary attempt unlink
atomic_validated_write-Tidy_example =
    atomic_validated_write-Tidy valid_bytes 5 true full_disk 0 refl

abbrev decode : ℕ → Content (Project String)
decode revision = holds (record route { revision = revision })

write_project-Agrees_example :
    (fate : Fate) × Agrees decode
      (record route { revision = 5 })
      stored_disk
      (atomic_validated_write valid_bytes 5 true calls)
      fate
unfolding lookup
write_project-Agrees_example =
    write_project-Agrees decode (record route { revision = 5 }) valid_bytes 5 calls stored_disk refl
      (refl, refl)

-- A draft that waits for its cleanup is opened and autosaved again: the autosave returns, and the draft is
-- gone.
abbrev waiting : OwnerProjectState
waiting = record {
  last_opened_project_id = some "other";
  latest_draft_project_id = none;
  pending_cleanup_project_ids = "other" ∷ [];
  project_id = none;
}

abbrev waiting_disk : Disk String String
waiting_disk = record stored_disk {
  owners = ("pilot", record { state = some (holds waiting); invalid = none }) ∷ [];
}

autosave_deletes_test :
    recover "other"
      (autosave key_of (record newer { id = "other" }) false (quiet waiting_disk)).1.disk
    ≡ err not_found
unfolding recover autosave write_autosave update_index read_or_rebuild_index rebuild_index
    write_index change_with_backup change commit_latest autosave_state read_owner_state
    write_owner_state cleanup_pending clean_up_all clean_up is_autosave_only checkpoint delete
    delete_directory remove_directory lookup insert remove scan_projects scan sort_summaries
    insert_summary load_primary choose
autosave_deletes_test = refl

-- The same draft is there where it does not wait for its cleanup.
autosave_keeps_test :
    shown (recover "route" (autosave key_of newer true (quiet waiting_disk)).1.disk) ≡ ok newer
unfolding recover autosave write_autosave update_index read_or_rebuild_index rebuild_index
    write_index change_with_backup change commit_latest autosave_state read_owner_state
    write_owner_state cleanup_pending clean_up_all clean_up is_autosave_only checkpoint delete
    delete_directory remove_directory lookup insert remove scan_projects scan sort_summaries
    insert_summary load_primary choose
autosave_keeps_test = refl
