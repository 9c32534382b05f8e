-- ===== src/Storage/Recovery.antt =====
-- storage/local.py: what `load_with_recovery` shows, and that it shows what was saved.
use auto_nav_log.Common.{Option, false, none, some, true, ℕ, ◌≡◌, ◌≤◌, ◌⊎◌}
use auto_nav_log.Common.Result.{Result, err, ok}
use auto_nav_log.Storage.Disk.{Disk, Project}
use auto_nav_log.Storage.Effect.{Failure, json_error, not_found}
use auto_nav_log.Storage.Reading.{Loaded, Read, is_corrupt, is_found}
use auto_nav_log.Storage.Repository.{autosave}

module _ {Body : Type 0} where
  abbrev pub NotAhead : ℕ → Option (Project Body) → Type 0
  NotAhead revision none = Unit
  NotAhead revision (some project) = project.revision ≤ revision

  -- What a load shows of the autosave and the checkpoint that can be trusted: one of them, with a
  -- revision that neither exceeds, and as a recovered one only where no autosave can be trusted. It finds
  -- nothing only where there is neither.
  abbrev pub Newest :
      Option (Project Body) → Option (Project Body) → Result Failure (Loaded Body) → Type 0
  Newest autosave stored (ok loaded) =
      ((autosave ≡ some loaded.project) ⊎ (stored ≡ some loaded.project))
      × (NotAhead loaded.project.revision autosave
          × (NotAhead loaded.project.revision stored
              × (loaded.recovered_from_fallback ≡ true → autosave ≡ none)))
  Newest autosave stored (err failure) =
      (failure ≡ not_found) × ((autosave ≡ none) × (stored ≡ none))

  -- A load refuses only where project.json cannot be trusted and its backup cannot be read.
  abbrev pub Refused : Read Body → Read Body → Result Failure (Loaded Body) → Type 0
  Refused primary backup result =
      (result ≡ err json_error) × ((is_found primary ≡ false) × (is_corrupt backup ≡ true))
