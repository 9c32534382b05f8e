-- ===== src/Storage/Forgetting.antt =====
-- storage/local.py: a deletion that returns leaves a marker that does not name the project.
use auto_nav_log.Common.{
  Option, String, ap, eq_iff, none, refl, some, subst, sym, true, ◌==◌, ◌∙◌, ◌≡◌,
}
use auto_nav_log.Common.Dict.{lookup, lookup-remove, remove}
use auto_nav_log.Common.Result.{Result, err, ok}
use auto_nav_log.Storage.Disk.{
  Disk, File, OwnerProjectState, files_of, found_files, found_owner_files, holds, no_files,
  unreadable,
}
use auto_nav_log.Storage.Effect.{
  Failure, M, Store, change, fails, fails_after_backup, fails_after_change, fails_halfway,
  first_fate, not_found, owner_files, pure, raise, works, ◌>>=◌, ◌>>◌,
}
use auto_nav_log.Storage.Elsewhere.{
  Indexes, Indexes-Order, read_or_rebuild_index-Indexes, write_index-Indexes,
}
use auto_nav_log.Storage.Index.{read_or_rebuild_index, sort_summaries, without, write_index}
use auto_nav_log.Storage.Keeping.{bind-Keeps}
use auto_nav_log.Storage.Markers.{
  after_marker, delete_with_owner_marker, find_marker, set_aside, undo,
}
use auto_nav_log.Storage.Outcome.{
  After, change_with_backup-After, continue-After, handle-After, if-After, weaken-After,
}
use auto_nav_log.Storage.Owners.{
  delete, delete_directory, from_version, has_project_files, migrated, read_owner_state,
  remove_directory, remove_with, use_state, write_owner_state,
}
use auto_nav_log.Storage.Unnaming.{
  Anything, Current, Known, Unnamed, after_marker-After, marker_of, set_aside-After,
  write_owner_state-After,
}

module _ {Body Outcome : Type 0} where
  kept-After :
      {A : Type 0} (R : Disk Body Outcome → Disk Body Outcome → Type 0) (d : Disk Body Outcome)
      (r : Result Failure A × Store Body Outcome)
      → R d r.1.disk
      → After (λ _ e. R d e) Anything r
  kept-After R d (ok a, s) h = h
  kept-After R d (err failure, s) h = tt

  change-After :
      (good : Unit {0} → Disk Body Outcome → Type 0) (bad : Disk Body Outcome → Type 0)
      (done : Disk Body Outcome → Disk Body Outcome) (s : Store Body Outcome)
      → good tt (done s.disk)
      → ((d : Disk Body Outcome) → bad d)
      → After good bad (change done s)
  unfolding change
  change-After good bad done s h w =
      change_with_backup-After good bad done (λ d. d) s h (w s.disk) (w s.disk) (w (done s.disk))

  remove_directory-After :
      (id : String) (s : Store Body Outcome)
      → After
          (λ _ e. (files_of id e ≡ no_files) × (e.owners ≡ s.disk.owners))
          Anything
          (remove_directory id s)
  unfolding remove_directory
  remove_directory-After id s =
      elim (first_fate s.fates) as (λ fate. After gone Anything (remove_with fate id s)) [
        | works ↦ whole
        | fails failure ↦ whole
        | fails_after_backup failure ↦ whole
        | fails_after_change failure ↦ whole
        | fails_halfway left failure ↦ tt
      ]
    where
      gone : Unit {0} → Disk Body Outcome → Type 0
      gone _ e = (files_of id e ≡ no_files) × (e.owners ≡ s.disk.owners)

      whole :
          After gone Anything
            (change (λ disk. record disk { projects = remove id disk.projects }) s)
      whole =
          change-After gone Anything (λ disk. record disk { projects = remove id disk.projects }) s
            (let own : (id == id) ≡ true = (eq_iff id id).1 refl in (rw (lookup-remove, own), refl))
            (λ _. tt)

  delete_directory-After :
      (id : String) (s : Store Body Outcome)
      → After
          (λ _ e. (files_of id e ≡ no_files) × (e.owners ≡ s.disk.owners))
          Anything
          (delete_directory id s)
  unfolding delete_directory
  delete_directory-After id s =
      let gone : Unit {0} → Disk Body Outcome → Type 0 =
        λ _ e. (files_of id e ≡ no_files) × (e.owners ≡ s.disk.owners) in
      continue-After {A = Unit {0}} gone Anything gone Anything (remove_directory id s) _
        (remove_directory-After id s)
        (λ _ t h.
          weaken-After (λ _ e. Indexes t.disk e) gone Anything _
            (λ _ e k. (ap (λ p. found_files (lookup id p)) k.0 ∙ h.0, k.1 ∙ h.1)) (indexed-After t))
        (λ _ k. k)
    where
      indexed-After :
          (t : Store Body Outcome)
          → After
              (λ _ e. Indexes t.disk e)
              Anything
              ((read_or_rebuild_index >>= λ summaries.
                  write_index (sort_summaries (without id summaries)))
                t)
      indexed-After t = kept-After Indexes t.disk _ (
          bind-Keeps Indexes Indexes-Order read_or_rebuild_index _ read_or_rebuild_index-Indexes
            (λ summaries. write_index-Indexes (sort_summaries (without id summaries))) t)

  delete-After :
      (id : String) (s : Store Body Outcome)
      → After
          (λ _ e. (files_of id e ≡ no_files) × (e.owners ≡ s.disk.owners))
          Anything
          (delete id s)
  unfolding delete
  delete-After id s =
      if-After (λ _ e. (files_of id e ≡ no_files) × (e.owners ≡ s.disk.owners)) Anything
        (has_project_files (files_of id s.disk)) (delete_directory id) (raise not_found) s
        (λ _. delete_directory-After id s) (λ _. tt)

  raise-After :
      {A : Type 0} (good : A → Disk Body Outcome → Type 0) (m : M Body Outcome (Unit {0}))
      (failure : Failure) (s : Store Body Outcome)
      → After good Anything ((m >> raise failure) s)
  raise-After good m failure s =
      continue-After {A = Unit {0}} (λ _. Anything) Anything good Anything (m s)
        (λ _. raise failure) (kept-After (λ _. Anything) s.disk (m s) tt) (λ _ _ _. tt) (λ _ _. tt)

module _ {Body Outcome : Type 0} (key_of : String → String) where
  from_version-After :
      (owner_key : String) (state : OwnerProjectState) (id : Option String) (s : Store Body Outcome)
      → marker_of owner_key s.disk ≡ some (holds state)
      → After (Current owner_key) Anything (from_version key_of owner_key state id s)
  from_version-After owner_key state none s h = h
  from_version-After owner_key state (some id) s h =
      continue-After {A = Unit {0}}
        (λ _ d. Current owner_key (some (migrated key_of owner_key id s.disk)) d) Anything
        (Current owner_key) Anything
        (write_owner_state owner_key (migrated key_of owner_key id s.disk) s) _
        (write_owner_state-After owner_key (migrated key_of owner_key id s.disk) s) (λ _ _ k. k)
        (λ _ _. tt)

  use_state-After :
      (owner_key : String) (file : File OwnerProjectState) (s : Store Body Outcome)
      → marker_of owner_key s.disk ≡ file
      → After (Current owner_key) Anything (use_state key_of owner_key file s)
  use_state-After owner_key none s h = h
  use_state-After owner_key (some unreadable) s h = tt
  use_state-After owner_key (some (holds state)) s h =
      from_version-After owner_key state state.project_id s h

  read_owner_state-After :
      (owner_key : String) (s : Store Body Outcome)
      → After (Current owner_key) Anything (read_owner_state key_of owner_key s)
  unfolding read_owner_state
  read_owner_state-After owner_key s = use_state-After owner_key (marker_of owner_key s.disk) s refl

  find_marker-After :
      (owner_key : String) (s : Store Body Outcome)
      → After (Known owner_key) Anything (find_marker key_of owner_key s)
  find_marker-After owner_key s =
      handle-After (Known owner_key) Anything Anything _ (set_aside owner_key)
        (continue-After (Current owner_key) Anything (Known owner_key) Anything
          (read_owner_state key_of owner_key s) (λ state. pure (ok state))
          (read_owner_state-After owner_key s) (λ _ _ h. h) (λ _ _. tt))
        (λ failure t _. set_aside-After owner_key failure t)

  -- A deletion that returns leaves no file of the project, and a marker of its owner that names it neither
  -- as last opened nor as latest, be it a marker of version 1 or one that had to be moved aside.
  pub delete_with_owner_marker-After :
      (id owner_key : String) (s : Store Body Outcome)
      → After
          (λ _ e. (files_of id e ≡ no_files) × Unnamed id (owner_files owner_key e).state)
          (λ _. Unit)
          (delete_with_owner_marker key_of id owner_key s)
  unfolding delete_with_owner_marker
  delete_with_owner_marker-After id owner_key s =
      let named : Disk Body Outcome → Type 0 = λ d. Unnamed id (marker_of owner_key d) in
      let done : Unit {0} → Disk Body Outcome → Type 0 =
        λ _ e. (files_of id e ≡ no_files) × Unnamed id (marker_of owner_key e) in
      continue-After (Known owner_key) Anything done Anything (find_marker key_of owner_key s) _
        (find_marker-After owner_key s)
        (λ marker_read t h.
          continue-After (λ _. named) Anything done Anything
            (after_marker owner_key id marker_read t) _
            (after_marker-After owner_key id marker_read t h)
            (λ marker u k.
              handle-After done Anything Anything (delete id u) _
                (weaken-After (λ _ e. (files_of id e ≡ no_files) × (e.owners ≡ u.disk.owners)) done
                  Anything (delete id u)
                  (λ _ e w. (
                    w.0,
                    subst (λ owners. Unnamed id (found_owner_files (lookup owner_key owners)).state)
                        (sym w.1) k,
                  ))
                  (delete-After id u))
                (λ failure v _. raise-After done (undo owner_key marker) failure v))
            (λ _ _. tt))
        (λ _ _. tt)
