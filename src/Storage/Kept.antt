-- ===== src/Storage/Kept.antt =====
-- storage/local.py: which operations keep the checkpoint of every project.
use auto_nav_log.Common.{
  Bool, Bool-cases, List, Option, String, [], eq_iff, false, inl, inr, none, not, refl, some, subst,
  sym, true, ◌&&◌, ◌==◌, ◌∙◌, ◌∷◌, ◌≡◌,
}
use auto_nav_log.Common.Dict.{Dict, lookup-insert}
use auto_nav_log.Storage.Disk.{Disk, OwnerProjectState, Project, ProjectFiles, files_of}
use auto_nav_log.Storage.Effect.{
  Failure, Store, bad_revision, io_error, json_error, not_found, pure, put_files, revision_conflict,
}
use auto_nav_log.Storage.Elsewhere.{
  Elsewhere, read_or_rebuild_index-Elsewhere, read_owner_state-Elsewhere, update_index-Elsewhere,
}
use auto_nav_log.Storage.Index.{read_or_rebuild_index, update_index}
use auto_nav_log.Storage.Keeping.{
  Keeps, Order, bind-Keeps, catch-Keeps, change_with_backup-Keeps, if-Keeps, weaken-Keeps,
}
use auto_nav_log.Storage.Markers.{keys, latest_drafts, list_projects, retry_cleanup, with_latest}
use auto_nav_log.Storage.Owners.{is_id, read_owner_state, write_owner_state}
use auto_nav_log.Storage.Reading.{checkpoint, owner_key_of}
use auto_nav_log.Storage.Repository.{
  autosave, autosave_state, back_up_autosave, clean_up_state, clear_latest, commit_latest,
  committed, put_autosave, replace_unreadable, select_latest, settle_latest, write_autosave,
}
use auto_nav_log.Storage.Spares.{
  Elsewhere-Spares, Spares, Spares-Order, checkpoint-files, cleanup_pending-Spares,
  write_owner_state-Spares,
}

module _ {Body Outcome : Type 0} where
  -- Every project has the checkpoint that it had.
  abbrev pub SameCheckpoints : Disk Body Outcome → Disk Body Outcome → Type 0
  SameCheckpoints d e = (id : String) → checkpoint id e ≡ checkpoint id d

  pub SameCheckpoints-Order : Order SameCheckpoints
  SameCheckpoints-Order = record { same = λ d id. refl; then_on = λ d e f h k id. k id ∙ h id }

  pub Spares-SameCheckpoints : (d e : Disk Body Outcome) → Spares d e → SameCheckpoints d e
  Spares-SameCheckpoints d e h id = elim (h id) [
    | inl stays ↦ checkpoint-files id d e stays
    | inr (before, after) ↦ after ∙ sym before
  ]

  -- A write into one directory that leaves project.json and its backup keeps every checkpoint.
  pub put_files-SameCheckpoints :
      (own : String) (files : ProjectFiles Body Outcome) (d : Disk Body Outcome)
      → files.project_json ≡ (files_of own d).project_json
      → files.project_bak ≡ (files_of own d).project_bak
      → SameCheckpoints d (put_files own files d)
  unfolding checkpoint
  put_files-SameCheckpoints own files d h k id = elim (Bool-cases (own == id)) [
    | inl same ↦
        let own_is : own ≡ id = (eq_iff own id).0 same in
        let h' : files.project_json ≡ (files_of id d).project_json =
          subst (λ i. files.project_json ≡ (files_of i d).project_json) own_is h in
        let k' : files.project_bak ≡ (files_of id d).project_bak =
          subst (λ i. files.project_bak ≡ (files_of i d).project_bak) own_is k in
        rw (lookup-insert, same, h', k')
    | inr differ ↦ rw (lookup-insert, differ)
  ]

  write_autosave-SameCheckpoints :
      (project : Project Body) → Keeps SameCheckpoints (write_autosave {Outcome = Outcome} project)
  unfolding write_autosave
  write_autosave-SameCheckpoints project =
      change_with_backup-Keeps SameCheckpoints SameCheckpoints-Order (put_autosave project)
        (back_up_autosave project) (λ d. put_files-SameCheckpoints project.id _ d refl refl)
        (λ d. put_files-SameCheckpoints project.id _ d refl refl)

  Elsewhere-SameCheckpoints : (d e : Disk Body Outcome) → Elsewhere d e → SameCheckpoints d e
  Elsewhere-SameCheckpoints d e h = Spares-SameCheckpoints d e (Elsewhere-Spares d e h)

  pub update_index-SameCheckpoints :
      (project : Project Body) → Keeps SameCheckpoints (update_index {Outcome = Outcome} project)
  update_index-SameCheckpoints project =
      weaken-Keeps Elsewhere SameCheckpoints Elsewhere-SameCheckpoints (update_index project)
        (update_index-Elsewhere project)

module _ {Body Outcome : Type 0} (key_of : String → String) where
  read_owner_state-Spares :
      (owner_key : String)
      → Keeps Spares (read_owner_state {Body = Body} {Outcome = Outcome} key_of owner_key)
  read_owner_state-Spares owner_key =
      weaken-Keeps Elsewhere Spares Elsewhere-Spares (read_owner_state key_of owner_key)
        (read_owner_state-Elsewhere key_of owner_key)

  clean_up_state-Spares :
      (owner_key : String) (state : Option OwnerProjectState)
      → Keeps Spares (clean_up_state {Body = Body} {Outcome = Outcome} key_of owner_key state)
  clean_up_state-Spares owner_key none = λ s id. inl refl
  clean_up_state-Spares owner_key (some state) = cleanup_pending-Spares key_of owner_key state

  clear_latest-Spares :
      (owner_key id : String) (state : Option OwnerProjectState)
      → Keeps Spares (clear_latest {Body = Body} {Outcome = Outcome} key_of owner_key id state)
  clear_latest-Spares owner_key id none = λ s id. inl refl
  clear_latest-Spares owner_key id (some state) =
      if-Keeps Spares Spares-Order (is_id id state.latest_draft_project_id) _ (pure (some state))
        (bind-Keeps Spares Spares-Order
          (write_owner_state owner_key (record state { latest_draft_project_id = none })) _
          (write_owner_state-Spares owner_key (record state { latest_draft_project_id = none }))
          (λ _. read_owner_state-Spares owner_key))
        (λ _ _. inl refl)

  -- What follows the commit of a save deletes drafts at most.
  pub settle_latest-Spares :
      (id : String) (owner_key : Option String)
      → Keeps Spares (settle_latest {Body = Body} {Outcome = Outcome} key_of id owner_key)
  unfolding settle_latest
  settle_latest-Spares id none = λ s id. inl refl
  settle_latest-Spares id (some owner_key) =
      catch-Keeps Spares Spares-Order _ _
        (bind-Keeps Spares Spares-Order (read_owner_state key_of owner_key) _
          (read_owner_state-Spares owner_key)
          (λ state.
            bind-Keeps Spares Spares-Order (clear_latest key_of owner_key id state) _
              (clear_latest-Spares owner_key id state)
              (λ cleared. clean_up_state-Spares owner_key cleared)))
        (λ _ _ _. inl refl)

  replace_unreadable-Spares :
      (set_last_opened : Bool) (failure : Failure)
      → Keeps Spares (replace_unreadable {Body = Body} {Outcome = Outcome} set_last_opened failure)
  replace_unreadable-Spares true json_error = λ _ _. inl refl
  replace_unreadable-Spares true io_error = λ _ _. inl refl
  replace_unreadable-Spares true revision_conflict = λ _ _. inl refl
  replace_unreadable-Spares true bad_revision = λ _ _. inl refl
  replace_unreadable-Spares true not_found = λ _ _. inl refl
  replace_unreadable-Spares false failure = λ _ _. inl refl

  autosave_state-Spares :
      (set_last_opened : Bool) (owner_key : String)
      → Keeps Spares
          (autosave_state {Body = Body} {Outcome = Outcome} key_of set_last_opened owner_key)
  unfolding autosave_state
  autosave_state-Spares set_last_opened owner_key =
      catch-Keeps Spares Spares-Order _ _
        (bind-Keeps Spares Spares-Order (read_owner_state key_of owner_key) _
          (read_owner_state-Spares owner_key) (λ _ _ _. inl refl))
        (replace_unreadable-Spares set_last_opened)

  select_latest-Spares :
      (id : String) (set_last_opened : Bool) (owner_key : String) (state : OwnerProjectState)
      → Keeps Spares (
          select_latest {Body = Body} {Outcome = Outcome} key_of id set_last_opened owner_key state)
  select_latest-Spares id set_last_opened owner_key state s =
      bind-Keeps Spares Spares-Order
        (write_owner_state owner_key (committed id set_last_opened s.disk state)) _
        (write_owner_state-Spares owner_key (committed id set_last_opened s.disk state))
        (λ _. cleanup_pending-Spares key_of owner_key (committed id set_last_opened s.disk state)) s

  commit_latest-Spares :
      (id : String) (set_last_opened : Bool) (owner_key : Option String)
      → Keeps Spares
          (commit_latest {Body = Body} {Outcome = Outcome} key_of id set_last_opened owner_key)
  unfolding commit_latest
  commit_latest-Spares id set_last_opened none = λ _ _. inl refl
  commit_latest-Spares id set_last_opened (some owner_key) =
      bind-Keeps Spares Spares-Order (autosave_state key_of set_last_opened owner_key) _
        (autosave_state-Spares set_last_opened owner_key)
        (λ state.
          if-Keeps Spares Spares-Order
            (not set_last_opened && not (is_id id state.last_opened_project_id)) (pure tt)
            (select_latest key_of id set_last_opened owner_key state) (λ _ _. inl refl)
            (select_latest-Spares id set_last_opened owner_key state))

  -- An autosave changes the checkpoint of no project, whichever of its writes and deletions fail.
  pub checkpoint-autosave :
      (project : Project Body) (set_last_opened : Bool) (s : Store Body Outcome) (id : String)
      → checkpoint id (autosave key_of project set_last_opened s).1.disk ≡ checkpoint id s.disk
  unfolding autosave
  checkpoint-autosave project set_last_opened =
      bind-Keeps SameCheckpoints SameCheckpoints-Order (write_autosave project) _
        (write_autosave-SameCheckpoints project)
        (λ _.
          bind-Keeps SameCheckpoints SameCheckpoints-Order (update_index project) _
            (update_index-SameCheckpoints project)
            (λ _.
              weaken-Keeps Spares SameCheckpoints Spares-SameCheckpoints
                (commit_latest key_of project.id set_last_opened (owner_key_of key_of project))
                (commit_latest-Spares project.id set_last_opened (owner_key_of key_of project))))

  retry_cleanup-Spares :
      (owner_keys : List String)
      → Keeps Spares (retry_cleanup {Body = Body} {Outcome = Outcome} key_of owner_keys)
  unfolding retry_cleanup
  retry_cleanup-Spares [] = λ _ _. inl refl
  retry_cleanup-Spares (owner_key ∷ owner_keys) =
      bind-Keeps Spares Spares-Order _ _
        (catch-Keeps Spares Spares-Order (read_owner_state key_of owner_key) _
          (read_owner_state-Spares owner_key) (λ _ _ _. inl refl))
        (λ state.
          bind-Keeps Spares Spares-Order (clean_up_state key_of owner_key state) _
            (clean_up_state-Spares owner_key state) (λ _. retry_cleanup-Spares owner_keys))

  latest_drafts-Spares :
      (drafts : Dict String) (owner_keys : List String)
      → Keeps Spares (latest_drafts {Body = Body} {Outcome = Outcome} key_of drafts owner_keys)
  unfolding latest_drafts
  latest_drafts-Spares drafts [] = λ _ _. inl refl
  latest_drafts-Spares drafts (owner_key ∷ owner_keys) =
      bind-Keeps Spares Spares-Order _ _
        (catch-Keeps Spares Spares-Order (read_owner_state key_of owner_key) _
          (read_owner_state-Spares owner_key) (λ _ _ _. inl refl))
        (λ state. latest_drafts-Spares (with_latest owner_key state drafts) owner_keys)

  -- The listing of the projects, which retries the cleanup of drafts, changes no checkpoint either.
  pub checkpoint-list_projects :
      (s : Store Body Outcome) (id : String)
      → checkpoint id (list_projects key_of s).1.disk ≡ checkpoint id s.disk
  unfolding list_projects
  checkpoint-list_projects s = Spares-SameCheckpoints s.disk (list_projects key_of s).1.disk (
      bind-Keeps Spares Spares-Order (retry_cleanup key_of (keys s.disk.owners)) _
        (retry_cleanup-Spares (keys s.disk.owners))
        (λ _ t.
          bind-Keeps Spares Spares-Order (latest_drafts key_of [] (keys t.disk.owners)) _
            (latest_drafts-Spares [] (keys t.disk.owners))
            (λ drafts.
              bind-Keeps Spares Spares-Order read_or_rebuild_index _
                (weaken-Keeps Elsewhere Spares Elsewhere-Spares read_or_rebuild_index
                  read_or_rebuild_index-Elsewhere)
                (λ _ _ _. inl refl))
            t)
        s)
