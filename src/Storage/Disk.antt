-- ===== src/Storage/Disk.antt =====
-- storage/repository.py and storage/local.py: the files under the storage root. A file is absent, or its
-- bytes are no valid JSON of its model, or they hold a value. UUIDs and owner keys are texts.
use auto_nav_log.Common.{ℕ, String, Bool, true, false, Option, none, some, List, []}
use auto_nav_log.Common.Dict.{Dict, lookup}
use auto_nav_log.Readiness.Model.{ProjectStatus}

pub data Content (A : Type 0) : Type 0 where
  unreadable : Content A
  holds : A → Content A

abbrev pub File : Type 0 → Type 0
File A = Option (Content A)

abbrev pub exists : {A : Type 0} → File A → Bool
exists none = false
exists (some content) = true

-- What the storage reads of a Project; `body` is the rest. `web_owner_id` is the entry of the metadata,
-- if it is a text.
pub record Project (Body : Type 0) : Type 0 where
  pub id : String
  pub name : String
  pub revision : ℕ
  pub updated_at : ℕ
  pub status : ProjectStatus
  pub web_owner_id : Option String
  pub body : Body

pub data Kind : Type 0 where
  latest saved : Kind

pub record ProjectSummary : Type 0 where
  pub id : String
  pub name : String
  pub updated_at : ℕ
  pub status : ProjectStatus
  pub revision : ℕ
  pub web_owner_id : Option String
  pub kind : Kind

-- `project_id` is there in a state of schema version 1 only.
pub record OwnerProjectState : Type 0 where
  pub last_opened_project_id : Option String
  pub latest_draft_project_id : Option String
  pub pending_cleanup_project_ids : List String
  pub project_id : Option String

-- What the storage reads of a last calculation; `outcome` is the rest.
pub record LastCalculationRecord (Body Outcome : Type 0) : Type 0 where
  pub project_id : String
  pub owner_key : String
  pub project : Project Body
  pub outcome : Outcome

-- The directory of one project: project.json, autosave.json with their backups, last-calculation.json,
-- last-calculation.invalid.json, and the project-conflict files.
pub record ProjectFiles (Body Outcome : Type 0) : Type 0 where
  pub project_json : File (Project Body)
  pub project_bak : File (Project Body)
  pub autosave_json : File (Project Body)
  pub autosave_bak : File (Project Body)
  pub last_calculation : File (LastCalculationRecord Body Outcome)
  pub last_calculation_invalid : File (LastCalculationRecord Body Outcome)
  pub conflicts : List (Project Body)

-- The directory of one owner: state.json and state.invalid.json.
pub record OwnerFiles : Type 0 where
  pub state : File OwnerProjectState
  pub invalid : File OwnerProjectState

pub record Disk (Body Outcome : Type 0) : Type 0 where
  pub projects : Dict (ProjectFiles Body Outcome)
  pub index : File (List ProjectSummary)
  pub index_bak : File (List ProjectSummary)
  pub owners : Dict OwnerFiles

module _ {Body Outcome : Type 0} where
  abbrev pub no_files : ProjectFiles Body Outcome
  no_files = record {
    project_json = none;
    project_bak = none;
    autosave_json = none;
    autosave_bak = none;
    last_calculation = none;
    last_calculation_invalid = none;
    conflicts = [];
  }

  abbrev pub found_files : Option (ProjectFiles Body Outcome) → ProjectFiles Body Outcome
  found_files none = no_files
  found_files (some files) = files

  abbrev pub files_of : String → Disk Body Outcome → ProjectFiles Body Outcome
  files_of id disk = found_files (lookup id disk.projects)

abbrev pub no_owner_files : OwnerFiles
no_owner_files = record { state = none; invalid = none }

abbrev pub found_owner_files : Option OwnerFiles → OwnerFiles
found_owner_files none = no_owner_files
found_owner_files (some files) = files

abbrev pub no_state : OwnerProjectState
no_state = record {
  last_opened_project_id = none;
  latest_draft_project_id = none;
  pending_cleanup_project_ids = [];
  project_id = none;
}
