-- ===== src/Storage/Deletion.antt =====
-- storage/local.py: what the deletion of a project takes away, and what it leaves.
use auto_nav_log.Common.{Option, String, inl, none, refl, some}
use auto_nav_log.Common.Result.{Result, err, ok}
use auto_nav_log.Storage.Disk.{File, OwnerProjectState}
use auto_nav_log.Storage.Effect.{
  Failure, M, Store, bad_revision, change, io_error, json_error, not_found, owner_files, pure,
  put_owner, revision_conflict,
}
use auto_nav_log.Storage.Elsewhere.{
  Elsewhere, Elsewhere-Order, read_owner_state-Elsewhere, unlink_owner_state-Elsewhere,
  write_owner_state-Elsewhere,
}
use auto_nav_log.Storage.Keeping.{
  Keeps, bind-Keeps, catch-Keeps, change-Keeps, if-Keeps, weaken-Keeps,
}
use auto_nav_log.Storage.Markers.{
  Marker, after_marker, changed, delete_with_owner_marker, find_marker, names, names_nothing,
  quarantined, replace_marker, restore_quarantined, set_aside, take_out, undo, untouched,
  without_project,
}
use auto_nav_log.Storage.Owners.{
  delete, move_aside, quarantine_owner_state, read_owner_state, unlink_owner_state,
  write_owner_state,
}
use auto_nav_log.Storage.Removal.{Deletes, Deletes-Order}
use auto_nav_log.Storage.Spares.{Elsewhere-Deletes, delete-Deletes}

module _ {Body Outcome : Type 0} where
  move_aside-Elsewhere :
      (owner_key : String) (state : File OwnerProjectState)
      → Keeps Elsewhere (move_aside {Body = Body} {Outcome = Outcome} owner_key state)
  move_aside-Elsewhere owner_key none = λ _. refl
  move_aside-Elsewhere owner_key (some content) =
      bind-Keeps Elsewhere Elsewhere-Order
        (change (put_owner owner_key (record { state = none; invalid = some content }))) _
        (change-Keeps Elsewhere Elsewhere-Order _ (λ d. refl)) (λ _ _. refl)

  quarantine_owner_state-Elsewhere :
      (owner_key : String)
      → Keeps Elsewhere (quarantine_owner_state {Body = Body} {Outcome = Outcome} owner_key)
  unfolding quarantine_owner_state
  quarantine_owner_state-Elsewhere owner_key s =
      move_aside-Elsewhere owner_key (owner_files owner_key s.disk).state s

  restore_quarantined-Elsewhere :
      (owner_key : String)
      → Keeps Elsewhere (restore_quarantined {Body = Body} {Outcome = Outcome} owner_key)
  unfolding restore_quarantined
  restore_quarantined-Elsewhere owner_key = change-Keeps Elsewhere Elsewhere-Order _ (λ d. refl)

  replace_marker-Elsewhere :
      (owner_key : String) (state : OwnerProjectState)
      → Keeps Elsewhere (replace_marker {Body = Body} {Outcome = Outcome} owner_key state)
  replace_marker-Elsewhere owner_key state =
      if-Keeps Elsewhere Elsewhere-Order (names_nothing state) (unlink_owner_state owner_key)
        (write_owner_state owner_key state) (unlink_owner_state-Elsewhere owner_key)
        (write_owner_state-Elsewhere owner_key state)

  take_out-Elsewhere :
      (owner_key id : String) (state : Option OwnerProjectState)
      → Keeps Elsewhere (take_out {Body = Body} {Outcome = Outcome} owner_key id state)
  take_out-Elsewhere owner_key id none = λ s. refl
  take_out-Elsewhere owner_key id (some state) =
      if-Keeps Elsewhere Elsewhere-Order (names id state) _ (pure untouched)
        (bind-Keeps Elsewhere Elsewhere-Order (replace_marker owner_key (without_project id state))
          _ (replace_marker-Elsewhere owner_key (without_project id state)) (λ _ _. refl))
        (λ _. refl)

  set_aside-Elsewhere :
      (owner_key : String) (failure : Failure)
      → Keeps Elsewhere (set_aside {Body = Body} {Outcome = Outcome} owner_key failure)
  set_aside-Elsewhere owner_key json_error =
      bind-Keeps Elsewhere Elsewhere-Order (quarantine_owner_state owner_key) _
        (quarantine_owner_state-Elsewhere owner_key) (λ _ _. refl)
  set_aside-Elsewhere owner_key io_error = λ _. refl
  set_aside-Elsewhere owner_key revision_conflict = λ _. refl
  set_aside-Elsewhere owner_key bad_revision = λ _. refl
  set_aside-Elsewhere owner_key not_found = λ _. refl

  after_marker-Elsewhere :
      (owner_key id : String) (found_marker : Result Marker (Option OwnerProjectState))
      → Keeps Elsewhere (after_marker {Body = Body} {Outcome = Outcome} owner_key id found_marker)
  after_marker-Elsewhere owner_key id (ok state) = take_out-Elsewhere owner_key id state
  after_marker-Elsewhere owner_key id (err marker) = λ _. refl

  undo-Elsewhere :
      (owner_key : String) (marker : Marker)
      → Keeps Elsewhere (undo {Body = Body} {Outcome = Outcome} owner_key marker)
  undo-Elsewhere owner_key untouched = λ _. refl
  undo-Elsewhere owner_key quarantined =
      catch-Keeps Elsewhere Elsewhere-Order (restore_quarantined owner_key) _
        (restore_quarantined-Elsewhere owner_key) (λ _ _. refl)
  undo-Elsewhere owner_key (changed state) = write_owner_state-Elsewhere owner_key state

module _ {Body Outcome : Type 0} (key_of : String → String) where
  find_marker-Elsewhere :
      (owner_key : String)
      → Keeps Elsewhere (find_marker {Body = Body} {Outcome = Outcome} key_of owner_key)
  find_marker-Elsewhere owner_key =
      catch-Keeps Elsewhere Elsewhere-Order _ (set_aside owner_key)
        (bind-Keeps Elsewhere Elsewhere-Order (read_owner_state key_of owner_key) _
          (read_owner_state-Elsewhere key_of owner_key) (λ _ _. refl))
        (set_aside-Elsewhere owner_key)

  -- Whatever fails in it, the deletion of a project, with its change of the owner's marker, leaves the
  -- directory of every other project as it is, and its own as it is or without some
  -- of its files: none is changed or new.
  pub delete_with_owner_marker-Deletes :
      (id owner_key : String) (s : Store Body Outcome)
      → Deletes id s.disk (delete_with_owner_marker key_of id owner_key s).1.disk
  unfolding delete_with_owner_marker
  delete_with_owner_marker-Deletes id owner_key =
      bind-Keeps (Deletes id) (Deletes-Order id) (find_marker key_of owner_key) _
        (elsewhere (find_marker key_of owner_key) (find_marker-Elsewhere owner_key))
        (λ found_marker.
          bind-Keeps (Deletes id) (Deletes-Order id) (after_marker owner_key id found_marker) _
            (elsewhere (after_marker owner_key id found_marker)
              (after_marker-Elsewhere owner_key id found_marker))
            (λ marker.
              catch-Keeps (Deletes id) (Deletes-Order id) (delete id) _ (delete-Deletes id)
                (λ failure.
                  bind-Keeps (Deletes id) (Deletes-Order id) (undo owner_key marker) _
                    (elsewhere (undo owner_key marker) (undo-Elsewhere owner_key marker))
                    (λ _ _ _. inl refl))))
    where
      elsewhere : {A : Type 0} (m : M Body Outcome A) → Keeps Elsewhere m → Keeps (Deletes id) m
      elsewhere m = weaken-Keeps Elsewhere (Deletes id) (Elsewhere-Deletes id) m
