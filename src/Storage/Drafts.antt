-- ===== src/Storage/Drafts.antt =====
-- storage/local.py: an autosave that returns leaves the draft, unless the draft waits for its cleanup.
use auto_nav_log.Common.{
  Bool, Option, String, [], ap, eq_iff, false, if◌then◌else◌, none, not, refl, some, subst, sym,
  true, ◌&&◌, ◌++◌, ◌==◌, ◌∙◌, ◌∷◌, ◌≡◌,
}
use auto_nav_log.Common.Dict.{lookup, lookup-insert}
use auto_nav_log.Common.Result.{Result, err, ok}
use auto_nav_log.Storage.Disk.{
  Disk, File, OwnerProjectState, Project, files_of, found_files, found_owner_files, holds,
  unreadable,
}
use auto_nav_log.Storage.Effect.{
  Failure, Store, bad_revision, io_error, json_error, not_found, owner_files, pure,
  revision_conflict,
}
use auto_nav_log.Storage.Elsewhere.{
  Indexes, Indexes-Order, read_or_rebuild_index-Indexes, write_index-Indexes,
}
use auto_nav_log.Storage.Index.{read_or_rebuild_index, sort_summaries, update_index, without}
use auto_nav_log.Storage.Keeping.{Keeps, bind-Keeps, if-Keeps}
use auto_nav_log.Storage.Outcome.{
  After, Keeps-After, change_with_backup-After, continue-After, handle-After,
}
use auto_nav_log.Storage.Owners.{
  from_version, is_id, migrated, read_owner_state, use_state, write_owner_state,
}
use auto_nav_log.Storage.Reading.{owner_key_of, summary}
use auto_nav_log.Storage.Repository.{
  autosave, autosave_state, back_up_autosave, commit_latest, committed, put_autosave,
  replace_unreadable, select_latest, state_or_new, write_autosave,
}
use auto_nav_log.Storage.Stays.{
  NotPending, Stays, Stays-Order, cleanup_pending-Stays, waits_for_cleanup, with_previous-free,
  write_owner_state-Stays,
}

module _ {Body Outcome : Type 0} (id : String) where
  -- The state that was read does not name the project for cleanup, and its directory is as it was.
  abbrev Free : Disk Body Outcome → OwnerProjectState → Disk Body Outcome → Type 0
  Free d state e = (waits_for_cleanup id state ≡ false) × Stays id d e

  abbrev FreeOf : Disk Body Outcome → Option OwnerProjectState → Disk Body Outcome → Type 0
  FreeOf d state e = Free d (state_or_new state) e

  from_version-Free :
      (key_of : String → String) (owner_key : String) (state : OwnerProjectState)
      (version_1 : Option String) (s : Store Body Outcome)
      → waits_for_cleanup id state ≡ false
      → After (FreeOf s.disk) (Stays id s.disk) (from_version key_of owner_key state version_1 s)
  from_version-Free key_of owner_key state none s h = (h, refl)
  from_version-Free key_of owner_key state (some old) s h =
      continue-After {A = Unit {0}} (λ _ e. Stays id s.disk e) (Stays id s.disk) (FreeOf s.disk)
        (Stays id s.disk) (write_owner_state owner_key (migrated key_of owner_key old s.disk) s) _
        (Keeps-After (Stays id) s.disk
          (write_owner_state owner_key (migrated key_of owner_key old s.disk) s)
          (write_owner_state-Stays id owner_key (migrated key_of owner_key old s.disk) s))
        (λ _ t k. (refl, k)) (λ _ k. k)

  use_state-Free :
      (key_of : String → String) (owner_key : String) (file : File OwnerProjectState)
      (s : Store Body Outcome)
      → NotPending id file
      → After (FreeOf s.disk) (Stays id s.disk) (use_state key_of owner_key file s)
  use_state-Free key_of owner_key none s h = (refl, refl)
  use_state-Free key_of owner_key (some unreadable) s h = refl
  use_state-Free key_of owner_key (some (holds state)) s h =
      from_version-Free key_of owner_key state state.project_id s h

  replace_unreadable-Free :
      (set_last_opened : Bool) (failure : Failure) (d : Disk Body Outcome) (s : Store Body Outcome)
      → Stays id d s.disk
      → After (Free d) (Stays id d) (replace_unreadable set_last_opened failure s)
  replace_unreadable-Free true json_error d s h = (refl, h)
  replace_unreadable-Free true io_error d s h = h
  replace_unreadable-Free true revision_conflict d s h = h
  replace_unreadable-Free true bad_revision d s h = h
  replace_unreadable-Free true not_found d s h = h
  replace_unreadable-Free false failure d s h = h

  autosave_state-Free :
      (key_of : String → String) (set_last_opened : Bool) (owner_key : String)
      (s : Store Body Outcome)
      → NotPending id (owner_files owner_key s.disk).state
      → After (Free s.disk) (Stays id s.disk) (autosave_state key_of set_last_opened owner_key s)
  unfolding autosave_state read_owner_state
  autosave_state-Free key_of set_last_opened owner_key s h =
      handle-After (Free s.disk) (Stays id s.disk) (Stays id s.disk) _
        (replace_unreadable set_last_opened)
        (continue-After (FreeOf s.disk) (Stays id s.disk) (Free s.disk) (Stays id s.disk)
          (use_state key_of owner_key (owner_files owner_key s.disk).state s)
          (λ state. pure (state_or_new state))
          (use_state-Free key_of owner_key (owner_files owner_key s.disk).state s h) (λ _ _ k. k)
          (λ _ k. k))
        (λ failure t k. replace_unreadable-Free set_last_opened failure s.disk t k)

  selected :
      (key_of : String → String) (set_last_opened : Bool) (owner_key : String)
      (state : OwnerProjectState)
      → waits_for_cleanup id state ≡ false
      → Keeps (Stays id) (
          select_latest {Body = Body} {Outcome = Outcome} key_of id set_last_opened owner_key state)
  selected key_of set_last_opened owner_key state h s =
      let commits = committed id set_last_opened s.disk state in
      bind-Keeps (Stays id) (Stays-Order id) (write_owner_state owner_key commits) _
        (write_owner_state-Stays id owner_key commits)
        (λ _.
          cleanup_pending-Stays id key_of owner_key commits (
            with_previous-free id state.latest_draft_project_id state.pending_cleanup_project_ids
              h))
        s

  commit_latest-Stays :
      (key_of : String → String) (set_last_opened : Bool) (owner_key : Option String)
      (s : Store Body Outcome)
      → ((key : String) → owner_key ≡ some key → NotPending id (owner_files key s.disk).state)
      → After
          (λ _ e. Stays id s.disk e)
          (Stays id s.disk)
          (commit_latest key_of id set_last_opened owner_key s)
  unfolding commit_latest
  commit_latest-Stays key_of set_last_opened none s h = refl
  commit_latest-Stays key_of set_last_opened (some owner_key) s h =
      continue-After (Free s.disk) (Stays id s.disk) (λ _ e. Stays id s.disk e) (Stays id s.disk)
        (autosave_state key_of set_last_opened owner_key s) _
        (autosave_state-Free key_of set_last_opened owner_key s (h owner_key refl))
        (λ state t k.
          let after =
            if not set_last_opened && not (is_id id state.last_opened_project_id)
            then pure tt
            else select_latest key_of id set_last_opened owner_key state in
          Keeps-After (Stays id) s.disk (after t) (
            if-Keeps (Stays id) (Stays-Order id)
              (not set_last_opened && not (is_id id state.last_opened_project_id)) (pure tt)
              (select_latest key_of id set_last_opened owner_key state) (λ _. refl)
              (selected key_of set_last_opened owner_key state k.0) t
            ∙ k.1))
        (λ _ k. k)

module _ {Body Outcome : Type 0} where
  -- The autosave file holds the project, and the markers are as they were.
  abbrev Drafted : Project Body → Disk Body Outcome → Disk Body Outcome → Type 0
  Drafted project d e =
      ((files_of project.id e).autosave_json ≡ some (holds project)) × (e.owners ≡ d.owners)

  write_autosave-Drafted :
      (project : Project Body) (s : Store Body Outcome)
      → After (λ _. Drafted project s.disk) (λ _. Unit) (write_autosave project s)
  unfolding write_autosave
  write_autosave-Drafted project s =
      let own : (project.id == project.id) ≡ true = (eq_iff project.id project.id).1 refl in
      change_with_backup-After (λ _. Drafted project s.disk) (λ _. Unit) (put_autosave project)
        (back_up_autosave project) s (rw (lookup-insert, own) refl, refl) tt tt tt

  update_index-Indexes :
      (project : Project Body) → Keeps Indexes (update_index {Outcome = Outcome} project)
  unfolding update_index
  update_index-Indexes project =
      bind-Keeps Indexes Indexes-Order read_or_rebuild_index _ read_or_rebuild_index-Indexes
        (λ summaries.
          write_index-Indexes
            (sort_summaries (without project.id summaries ++ summary project ∷ [])))

  update_index-Drafted :
      (project : Project Body) (d : Disk Body Outcome) (s : Store Body Outcome)
      → Drafted project d s.disk
      → After (λ _. Drafted project d) (λ _. Unit) (update_index project s)
  update_index-Drafted project d s h =
      indexed (update_index project s) (update_index-Indexes project s)
    where
      indexed :
          (r : Result Failure (Unit {0}) × Store Body Outcome)
          → Indexes s.disk r.1.disk
          → After (λ _. Drafted project d) (λ _. Unit) r
      indexed (ok done, t) k =
          (ap (λ p. (found_files (lookup project.id p)).autosave_json) k.0 ∙ h.0, k.1 ∙ h.1)
      indexed (err failure, t) k = tt

  -- An autosave that returns, whatever else has failed in it, leaves the project in its autosave file, if
  -- the marker of its owner did not name it for cleanup.
  pub autosave-Drafted :
      (key_of : String → String) (project : Project Body) (set_last_opened : Bool)
      (s : Store Body Outcome)
      → ((owner_key : String)
          → owner_key_of key_of project ≡ some owner_key
          → NotPending project.id (owner_files owner_key s.disk).state)
      → After
          (λ _ e. (files_of project.id e).autosave_json ≡ some (holds project))
          (λ _. Unit)
          (autosave key_of project set_last_opened s)
  unfolding autosave
  autosave-Drafted key_of project set_last_opened s h =
      let kept : Unit {0} → Disk Body Outcome → Type 0 =
        λ _ e. (files_of project.id e).autosave_json ≡ some (holds project) in
      let anything : Disk Body Outcome → Type 0 = λ _. Unit in
      continue-After {A = Unit {0}} (λ _. Drafted project s.disk) anything kept anything
        (write_autosave project s) _ (write_autosave-Drafted project s)
        (λ _ t k.
          continue-After {A = Unit {0}} (λ _. Drafted project s.disk) anything kept anything
            (update_index project t) _ (update_index-Drafted project s.disk t k)
            (λ _ u w. committed-kept u w (
              commit_latest-Stays project.id key_of set_last_opened (owner_key_of key_of project) u
                (λ owner_key own.
                  subst
                    (λ owners.
                      NotPending project.id (found_owner_files (lookup owner_key owners)).state)
                    (sym w.1) (h owner_key own))))
            (λ _ _. tt))
        (λ _ _. tt)
    where
      committed-kept :
          (u : Store Body Outcome)
          → Drafted project s.disk u.disk
          → After
              (λ _ e. Stays project.id u.disk e)
              (Stays project.id u.disk)
              (commit_latest key_of project.id set_last_opened (owner_key_of key_of project) u)
          → After
              (λ _ e. (files_of project.id e).autosave_json ≡ some (holds project))
              (λ _. Unit)
              (commit_latest key_of project.id set_last_opened (owner_key_of key_of project) u)
      committed-kept u w k =
          shown_kept
            (commit_latest key_of project.id set_last_opened (owner_key_of key_of project) u) k
        where
          shown_kept :
              (r : Result Failure (Unit {0}) × Store Body Outcome)
              → After (λ _ e. Stays project.id u.disk e) (Stays project.id u.disk) r
              → After
                  (λ _ e. (files_of project.id e).autosave_json ≡ some (holds project))
                  (λ _. Unit)
                  r
          shown_kept (ok done, t) x = ap (λ f. f.autosave_json) x ∙ w.0
          shown_kept (err failure, t) x = tt
