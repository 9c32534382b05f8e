-- ===== src/Storage/Elsewhere.antt =====
-- What the repository does to its index and to the markers touches no directory of a project.
use auto_nav_log.Common.{List, Option, String, [], none, refl, some, ◌++◌, ◌∙◌, ◌∷◌, ◌≡◌}
use auto_nav_log.Storage.Disk.{
  Disk, File, OwnerProjectState, Project, ProjectSummary, holds, unreadable,
}
use auto_nav_log.Storage.Effect.{owner_files}
use auto_nav_log.Storage.Index.{
  back_up_index, put_index, read_or_rebuild_index, rebuild_index, scan_projects, sort_summaries,
  update_index, use_index, without, write_index,
}
use auto_nav_log.Storage.Keeping.{Keeps, Order, bind-Keeps, change-Keeps, change_with_backup-Keeps}
use auto_nav_log.Storage.Owners.{
  from_version, migrated, put_state, read_owner_state, unlink_owner_state, use_state,
  write_owner_state,
}
use auto_nav_log.Storage.Reading.{summary}

module _ {Body Outcome : Type 0} where
  -- What touches no directory of a project.
  abbrev pub Elsewhere : Disk Body Outcome → Disk Body Outcome → Type 0
  Elsewhere d e = e.projects ≡ d.projects

  pub Elsewhere-Order : Order Elsewhere
  Elsewhere-Order = record { same = λ d. refl; then_on = λ d e f h k. k ∙ h }

  -- What changes the index only.
  abbrev pub Indexes : Disk Body Outcome → Disk Body Outcome → Type 0
  Indexes d e = (e.projects ≡ d.projects) × (e.owners ≡ d.owners)

  pub Indexes-Order : Order Indexes
  Indexes-Order = record { same = λ d. (refl, refl); then_on = λ d e f h k. (k.0 ∙ h.0, k.1 ∙ h.1) }

  pub write_index-Indexes :
      (summaries : List ProjectSummary) → Keeps Indexes (write_index {Outcome = Outcome} summaries)
  unfolding write_index
  write_index-Indexes summaries =
      change_with_backup-Keeps Indexes Indexes-Order (put_index summaries) back_up_index
        (λ d. (refl, refl)) (λ d. (refl, refl))

  rebuild_index-Indexes : Keeps Indexes (rebuild_index {Body = Body} {Outcome = Outcome})
  unfolding rebuild_index
  rebuild_index-Indexes s =
      bind-Keeps Indexes Indexes-Order (write_index (scan_projects s.disk)) _
        (write_index-Indexes (scan_projects s.disk)) (λ _ _. (refl, refl)) s

  use_index-Indexes :
      (index : File (List ProjectSummary))
      → Keeps Indexes (use_index {Body = Body} {Outcome = Outcome} index)
  use_index-Indexes none = rebuild_index-Indexes
  use_index-Indexes (some unreadable) = rebuild_index-Indexes
  use_index-Indexes (some (holds summaries)) = λ s. (refl, refl)

  pub read_or_rebuild_index-Indexes :
      Keeps Indexes (read_or_rebuild_index {Body = Body} {Outcome = Outcome})
  unfolding read_or_rebuild_index
  read_or_rebuild_index-Indexes s = use_index-Indexes s.disk.index s

  pub read_or_rebuild_index-Elsewhere :
      Keeps Elsewhere (read_or_rebuild_index {Body = Body} {Outcome = Outcome})
  read_or_rebuild_index-Elsewhere s = (read_or_rebuild_index-Indexes s).0

  pub write_index-Elsewhere :
      (summaries : List ProjectSummary)
      → Keeps Elsewhere (write_index {Outcome = Outcome} summaries)
  write_index-Elsewhere summaries s = (write_index-Indexes summaries s).0

  pub update_index-Elsewhere :
      (project : Project Body) → Keeps Elsewhere (update_index {Outcome = Outcome} project)
  unfolding update_index
  update_index-Elsewhere project =
      bind-Keeps Elsewhere Elsewhere-Order read_or_rebuild_index _ read_or_rebuild_index-Elsewhere
        (λ summaries.
          write_index-Elsewhere
            (sort_summaries (without project.id summaries ++ summary project ∷ [])))

  pub write_owner_state-Elsewhere :
      (owner_key : String) (state : OwnerProjectState)
      → Keeps Elsewhere (write_owner_state {Body = Body} {Outcome = Outcome} owner_key state)
  unfolding write_owner_state
  write_owner_state-Elsewhere owner_key state =
      change-Keeps Elsewhere Elsewhere-Order (put_state owner_key (some (holds state))) (λ d. refl)

  pub unlink_owner_state-Elsewhere :
      (owner_key : String)
      → Keeps Elsewhere (unlink_owner_state {Body = Body} {Outcome = Outcome} owner_key)
  unfolding unlink_owner_state
  unlink_owner_state-Elsewhere owner_key =
      change-Keeps Elsewhere Elsewhere-Order (put_state owner_key none) (λ d. refl)

module _ {Body Outcome : Type 0} (key_of : String → String) where
  from_version-Elsewhere :
      (owner_key : String) (state : OwnerProjectState) (id : Option String)
      → Keeps Elsewhere (from_version {Body = Body} {Outcome = Outcome} key_of owner_key state id)
  from_version-Elsewhere owner_key state none = λ s. refl
  from_version-Elsewhere owner_key state (some id) = λ s.
      bind-Keeps Elsewhere Elsewhere-Order
        (write_owner_state owner_key (migrated key_of owner_key id s.disk)) _
        (write_owner_state-Elsewhere owner_key (migrated key_of owner_key id s.disk)) (λ _ _. refl)
        s

  use_state-Elsewhere :
      (owner_key : String) (state : File OwnerProjectState)
      → Keeps Elsewhere (use_state {Body = Body} {Outcome = Outcome} key_of owner_key state)
  use_state-Elsewhere owner_key none = λ s. refl
  use_state-Elsewhere owner_key (some unreadable) = λ s. refl
  use_state-Elsewhere owner_key (some (holds state)) =
      from_version-Elsewhere owner_key state state.project_id

  pub read_owner_state-Elsewhere :
      (owner_key : String)
      → Keeps Elsewhere (read_owner_state {Body = Body} {Outcome = Outcome} key_of owner_key)
  unfolding read_owner_state
  read_owner_state-Elsewhere owner_key s =
      use_state-Elsewhere owner_key (owner_files owner_key s.disk).state s
