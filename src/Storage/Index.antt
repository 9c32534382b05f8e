-- ===== src/Storage/Index.antt =====
-- storage/local.py: the index of the projects, and how it is made again.
use auto_nav_log.Common.{
  Bool, List, Option, String, [], eqb, if◌then◌else◌, keep_if, ltb, none, not, some, ◌&&◌, ◌++◌,
  ◌==◌, ◌∷◌, ◌||◌,
}
use auto_nav_log.Common.Dict.{Dict}
use auto_nav_log.Common.Texts.{text_before}
use auto_nav_log.Storage.Disk.{Disk, File, Project, ProjectFiles, ProjectSummary, holds, unreadable}
use auto_nav_log.Storage.Effect.{M, backup_of, change_with_backup, get_disk, pure, ◌>>=◌, ◌>>◌}
use auto_nav_log.Storage.Reading.{
  first_of, found_project, read_autosave, read_bak, read_json, summary,
}

-- Whether the key `(updated_at, str(id))` of the first is the lower one.
abbrev pub earlier : ProjectSummary → ProjectSummary → Bool
earlier a b =
    ltb a.updated_at b.updated_at || (eqb a.updated_at b.updated_at && text_before a.id b.id)

-- `sorted(…, reverse=True)` keeps the order of members with one key.
unfoldable pub insert_summary : ProjectSummary → List ProjectSummary → List ProjectSummary
insert_summary new [] = new ∷ []
insert_summary new (summary ∷ summaries) =
    if earlier new summary
    then summary ∷ insert_summary new summaries
    else new ∷ summary ∷ summaries

unfoldable pub sort_summaries : List ProjectSummary → List ProjectSummary
sort_summaries [] = []
sort_summaries (summary ∷ summaries) = insert_summary summary (sort_summaries summaries)

abbrev pub without : String → List ProjectSummary → List ProjectSummary
without id summaries = keep_if (λ summary. not (summary.id == id)) summaries

module _ {Body Outcome : Type 0} where
  -- project.json, its backup, the autosave: the first that can be trusted.
  abbrev pub best_project : String → ProjectFiles Body Outcome → Option (Project Body)
  best_project id files =
      first_of (found_project (read_json id files))
        (first_of (found_project (read_bak id files)) (found_project (read_autosave id files)))

  unfoldable pub scan : Dict (ProjectFiles Body Outcome) → List ProjectSummary
  scan [] = []
  scan ((id, files) ∷ projects) = elim (best_project id files) [
    | none ↦ scan projects
    | some project ↦ summary project ∷ scan projects
  ]

  -- `_scan_projects`
  unfoldable pub scan_projects : Disk Body Outcome → List ProjectSummary
  scan_projects disk = sort_summaries (scan disk.projects)

  abbrev pub put_index : List ProjectSummary → Disk Body Outcome → Disk Body Outcome
  put_index summaries disk = record disk {
    index = some (holds summaries);
    index_bak = backup_of disk.index disk.index_bak;
  }

  abbrev pub back_up_index : Disk Body Outcome → Disk Body Outcome
  back_up_index disk = record disk { index_bak = backup_of disk.index disk.index_bak }

  unfoldable pub write_index : List ProjectSummary → M Body Outcome (Unit {0})
  write_index summaries = change_with_backup (put_index summaries) back_up_index

  unfoldable pub rebuild_index : M Body Outcome (List ProjectSummary)
  rebuild_index = do disk ← get_disk; write_index (scan_projects disk); pure (scan_projects disk)

  abbrev pub use_index : File (List ProjectSummary) → M Body Outcome (List ProjectSummary)
  use_index (some (holds summaries)) = pure summaries
  use_index (some unreadable) = rebuild_index
  use_index none = rebuild_index

  unfoldable pub read_or_rebuild_index : M Body Outcome (List ProjectSummary)
  read_or_rebuild_index = do disk ← get_disk; use_index disk.index

  unfoldable pub update_index : Project Body → M Body Outcome (Unit {0})
  update_index project = do
    summaries ← read_or_rebuild_index
    write_index (sort_summaries (without project.id summaries ++ summary project ∷ []))
