-- ===== src/Storage/Effect.antt =====
-- What an operation of the repository does besides computing: it changes the disk, and may raise at any
-- change of it. The fates of the changes to come are part of the state, so that a theorem speaks of
-- every combination of faults; where none are left, all changes work.
use auto_nav_log.Common.{Bool, List, String, [], false, none, some, true, ◌∷◌}
use auto_nav_log.Common.Dict.{insert, lookup}
use auto_nav_log.Common.Result.{Result, err, ok}
use auto_nav_log.Storage.Disk.{Disk, File, OwnerFiles, ProjectFiles, found_owner_files}

-- `json_error` is JsonStorageError, `io_error` what the operating system raises.
pub data Failure : Type 0 where
  json_error io_error revision_conflict bad_revision not_found : Failure

-- Which files of a directory are left behind a removal that stopped halfway.
pub record Leftover : Type 0 where
  pub project_json : Bool
  pub project_bak : Bool
  pub autosave_json : Bool
  pub autosave_bak : Bool
  pub last_calculation : Bool
  pub last_calculation_invalid : Bool
  pub conflicts : List Bool

-- A removal of a directory may fail halfway; for any other change this is a failure before it. A write that
-- keeps a backup may fail when the backup is already replaced, and a write whose restoration fails as well
-- leaves the new file.
pub data Fate : Type 0 where
  works : Fate
  fails fails_after_backup fails_after_change : Failure → Fate
  fails_halfway : Leftover → Failure → Fate

abbrev pub first_fate : List Fate → Fate
first_fate [] = works
first_fate (fate ∷ fates) = fate

abbrev pub later_fates : List Fate → List Fate
later_fates [] = []
later_fates (fate ∷ fates) = fates

-- The backup behind a write of `current`: the file as it was, if there was one.
abbrev pub backup_of : {A : Type 0} → File A → File A → File A
backup_of none backup = backup
backup_of (some content) backup = some content

abbrev pub left_file : {A : Type 0} → Bool → File A → File A
left_file true file = file
left_file false file = none

abbrev pub left_items : {A : Type 0} → List Bool → List A → List A
left_items [] items = []
left_items (left ∷ more) [] = []
left_items (true ∷ more) (item ∷ items) = item ∷ left_items more items
left_items (false ∷ more) (item ∷ items) = left_items more items

module _ (Body Outcome : Type 0) where
  pub record Store : Type 0 where
    pub disk : Disk Body Outcome
    pub fates : List Fate

  abbrev pub M : Type 0 → Type 0
  M A = Store → Result Failure A × Store

module _ {Body Outcome : Type 0} where
  abbrev pub pure : {A : Type 0} → A → M Body Outcome A
  pure a s = (ok a, s)

  abbrev pub raise : {A : Type 0} → Failure → M Body Outcome A
  raise failure s = (err failure, s)

  abbrev pub continue :
      {A B : Type 0}
      → Result Failure A × Store Body Outcome
      → (A → M Body Outcome B)
      → Result Failure B × Store Body Outcome
  continue (ok a, s) f = f a s
  continue (err failure, s) f = (err failure, s)

  infixl 5 ◌>>=◌ ◌>>◌
  abbrev pub ◌>>=◌ : {A B : Type 0} → M Body Outcome A → (A → M Body Outcome B) → M Body Outcome B
  ◌>>=◌ m f s = continue (m s) f

  abbrev pub ◌>>◌ : {A B : Type 0} → M Body Outcome A → M Body Outcome B → M Body Outcome B
  m >> k = m >>= λ _. k

  abbrev pub handle :
      {A : Type 0}
      → Result Failure A × Store Body Outcome
      → (Failure → M Body Outcome A)
      → Result Failure A × Store Body Outcome
  handle (ok a, s) f = (ok a, s)
  handle (err failure, s) f = f failure s

  -- `try: m except Exception: f`
  abbrev pub catch :
      {A : Type 0} → M Body Outcome A → (Failure → M Body Outcome A) → M Body Outcome A
  catch m f s = handle (m s) f

  abbrev pub get_disk : M Body Outcome (Disk Body Outcome)
  get_disk s = (ok s.disk, s)

  -- A change of the disk, and what is left of it where it fails: before it, behind its backup, behind it.
  abbrev pub outcome_of :
      Fate
      → Disk Body Outcome
      → Disk Body Outcome
      → Disk Body Outcome
      → List Fate
      → Result Failure (Unit {0}) × Store Body Outcome
  outcome_of works done before after fates = (ok tt, record { disk = done; fates = fates })
  outcome_of (fails failure) done before after fates =
      (err failure, record { disk = before; fates = fates })
  outcome_of (fails_after_backup failure) done before after fates =
      (err failure, record { disk = after; fates = fates })
  outcome_of (fails_after_change failure) done before after fates =
      (err failure, record { disk = done; fates = fates })
  outcome_of (fails_halfway left failure) done before after fates =
      (err failure, record { disk = before; fates = fates })

  unfoldable pub change_with_backup :
      (Disk Body Outcome → Disk Body Outcome)
      → (Disk Body Outcome → Disk Body Outcome)
      → M Body Outcome (Unit {0})
  change_with_backup done backed_up s =
      outcome_of (first_fate s.fates) (done s.disk) s.disk (backed_up s.disk) (later_fates s.fates)

  unfoldable pub change : (Disk Body Outcome → Disk Body Outcome) → M Body Outcome (Unit {0})
  unfolding change_with_backup
  change done = change_with_backup done (λ disk. disk)

  abbrev pub left_files : Leftover → ProjectFiles Body Outcome → ProjectFiles Body Outcome
  left_files left files = record {
    project_json = left_file left.project_json files.project_json;
    project_bak = left_file left.project_bak files.project_bak;
    autosave_json = left_file left.autosave_json files.autosave_json;
    autosave_bak = left_file left.autosave_bak files.autosave_bak;
    last_calculation = left_file left.last_calculation files.last_calculation;
    last_calculation_invalid =
        left_file left.last_calculation_invalid files.last_calculation_invalid;
    conflicts = left_items left.conflicts files.conflicts;
  }

  abbrev pub put_files : String → ProjectFiles Body Outcome → Disk Body Outcome → Disk Body Outcome
  put_files id files disk = record disk { projects = insert id files disk.projects }

  abbrev pub put_owner : String → OwnerFiles → Disk Body Outcome → Disk Body Outcome
  put_owner owner_key files disk = record disk { owners = insert owner_key files disk.owners }

  abbrev pub owner_files : String → Disk Body Outcome → OwnerFiles
  owner_files owner_key disk = found_owner_files (lookup owner_key disk.owners)
