-- ===== src/Storage/Unnaming.antt =====
-- storage/local.py: what becomes of the marker of an owner before a deletion.
use auto_nav_log.Common.{
  Bool, Bool-cases, Option, String, ap, eq_iff, false, if◌then◌else◌, inl, inr, none, refl, some,
  subst, sym, true, ◌==◌, ◌≡◌,
}
use auto_nav_log.Common.Dict.{insert, lookup, lookup-insert}
use auto_nav_log.Common.Result.{Result, err, ok}
use auto_nav_log.Storage.Disk.{
  Disk, File, OwnerFiles, OwnerProjectState, found_owner_files, holds, unreadable,
}
use auto_nav_log.Storage.Effect.{
  Failure, Store, bad_revision, change, io_error, json_error, not_found, owner_files, pure,
  put_owner, revision_conflict,
}
use auto_nav_log.Storage.Markers.{
  Marker, after_marker, changed, drop_id, names, names_nothing, quarantined, replace_marker,
  set_aside, take_out, untouched, without_project,
}
use auto_nav_log.Storage.Outcome.{
  After, change_with_backup-After, continue-After, if-After, weaken-After,
}
use auto_nav_log.Storage.Owners.{
  is_id, move_aside, put_state, quarantine_owner_state, unlink_owner_state, write_owner_state,
}

-- The marker of the owner, if it can be read, names the project neither as last opened nor as latest.
abbrev pub Unnamed : String → File OwnerProjectState → Type 0
Unnamed id none = Unit
Unnamed id (some unreadable) = Unit
Unnamed id (some (holds state)) = names id state ≡ false

abbrev file_of : Option OwnerProjectState → File OwnerProjectState
file_of none = none
file_of (some state) = some (holds state)

drop_id-is_id : (id : String) (other : Option String) → is_id id (drop_id id other) ≡ false
drop_id-is_id id none = refl
drop_id-is_id id (some other) = elim (Bool-cases (other == id)) [
  | inl same ↦ rw same
  | inr differ ↦ rw (differ, differ)
]

names-without_project :
    (id : String) (state : OwnerProjectState) → names id (without_project id state) ≡ false
names-without_project id state =
    rw (
      drop_id-is_id id state.last_opened_project_id,
      drop_id-is_id id state.latest_draft_project_id,
    )

module _ {Body Outcome : Type 0} where
  abbrev pub marker_of : String → Disk Body Outcome → File OwnerProjectState
  marker_of owner_key d = (owner_files owner_key d).state

  -- The marker that was read is the one that is there.
  abbrev pub Current : String → Option OwnerProjectState → Disk Body Outcome → Type 0
  Current owner_key state d = marker_of owner_key d ≡ file_of state

  abbrev pub Anything : Disk Body Outcome → Type 0
  Anything d = Unit

  put_owner-marker_of :
      (owner_key : String) (files : OwnerFiles) (d : Disk Body Outcome)
      → marker_of owner_key (put_owner owner_key files d) ≡ files.state
  put_owner-marker_of owner_key files d =
      let own : (owner_key == owner_key) ≡ true = (eq_iff owner_key owner_key).1 refl in
      let there : lookup owner_key (insert owner_key files d.owners) ≡ some files =
        rw (lookup-insert, own) in
      ap (λ f. (found_owner_files f).state) there

  put_state-marker_of :
      (owner_key : String) (state : File OwnerProjectState) (d : Disk Body Outcome)
      → marker_of owner_key (put_state owner_key state d) ≡ state
  put_state-marker_of owner_key state d =
      put_owner-marker_of owner_key (record (owner_files owner_key d) { state = state }) d

  put_state-After :
      (good : Unit {0} → Disk Body Outcome → Type 0) (owner_key : String)
      (state : File OwnerProjectState) (s : Store Body Outcome)
      → good tt (put_state owner_key state s.disk)
      → After good Anything (change (put_state owner_key state) s)
  unfolding change
  put_state-After good owner_key state s h =
      change_with_backup-After good Anything (put_state owner_key state) (λ d. d) s h tt tt tt

  pub write_owner_state-After :
      (owner_key : String) (state : OwnerProjectState) (s : Store Body Outcome)
      → After
          (λ _ d. Current owner_key (some state) d)
          Anything
          (write_owner_state owner_key state s)
  unfolding write_owner_state
  write_owner_state-After owner_key state s =
      put_state-After (λ _ d. Current owner_key (some state) d) owner_key (some (holds state)) s
        (put_state-marker_of owner_key (some (holds state)) s.disk)

  unlink_owner_state-After :
      (owner_key : String) (s : Store Body Outcome)
      → After (λ _ d. Current owner_key none d) Anything (unlink_owner_state owner_key s)
  unfolding unlink_owner_state
  unlink_owner_state-After owner_key s =
      put_state-After (λ _ d. Current owner_key none d) owner_key none s
        (put_state-marker_of owner_key none s.disk)

  replace_marker-After :
      (owner_key id : String) (state : OwnerProjectState) (s : Store Body Outcome)
      → After
          (λ _ d. Unnamed id (marker_of owner_key d))
          Anything
          (replace_marker owner_key (without_project id state) s)
  replace_marker-After owner_key id state s =
      if-After (λ _ d. Unnamed id (marker_of owner_key d)) Anything
        (names_nothing (without_project id state)) (unlink_owner_state owner_key)
        (write_owner_state owner_key (without_project id state)) s
        (λ _.
          weaken-After (λ _ d. Current owner_key none d) (λ _ d. Unnamed id (marker_of owner_key d))
            Anything (unlink_owner_state owner_key s) (λ _ d h. subst (Unnamed id) (sym h) tt)
            (unlink_owner_state-After owner_key s))
        (λ _.
          weaken-After (λ _ d. Current owner_key (some (without_project id state)) d)
            (λ _ d. Unnamed id (marker_of owner_key d)) Anything
            (write_owner_state owner_key (without_project id state) s)
            (λ _ d h. subst (Unnamed id) (sym h) (names-without_project id state))
            (write_owner_state-After owner_key (without_project id state) s))

  take_out-After :
      (owner_key id : String) (state : Option OwnerProjectState) (s : Store Body Outcome)
      → Current owner_key state s.disk
      → After (λ _ d. Unnamed id (marker_of owner_key d)) Anything (take_out owner_key id state s)
  take_out-After owner_key id none s h = subst (Unnamed id) (sym h) tt
  take_out-After owner_key id (some state) s h =
      if-After (λ _ d. Unnamed id (marker_of owner_key d)) Anything (names id state) _
        (pure untouched) s
        (λ _.
          continue-After {A = Unit {0}} (λ _ d. Unnamed id (marker_of owner_key d)) Anything
            (λ _ d. Unnamed id (marker_of owner_key d)) Anything
            (replace_marker owner_key (without_project id state) s) (λ _. pure (changed state))
            (replace_marker-After owner_key id state s) (λ _ _ k. k) (λ _ k. k))
        (λ k. subst (Unnamed id) (sym h) k)

  -- The marker that was found is there, or was moved aside.
  abbrev pub Known : String → Result Marker (Option OwnerProjectState) → Disk Body Outcome → Type 0
  Known owner_key (ok state) d = Current owner_key state d
  Known owner_key (err marker) d = Current owner_key none d

  pub after_marker-After :
      (owner_key id : String) (marker_read : Result Marker (Option OwnerProjectState))
      (s : Store Body Outcome)
      → Known owner_key marker_read s.disk
      → After
          (λ _ d. Unnamed id (marker_of owner_key d))
          Anything
          (after_marker owner_key id marker_read s)
  after_marker-After owner_key id (ok state) s h = take_out-After owner_key id state s h
  after_marker-After owner_key id (err marker) s h = subst (Unnamed id) (sym h) tt

  move_aside-After :
      (owner_key : String) (file : File OwnerProjectState) (s : Store Body Outcome)
      → marker_of owner_key s.disk ≡ file
      → After (λ _ d. Current owner_key none d) Anything (move_aside owner_key file s)
  unfolding change
  move_aside-After owner_key none s h = h
  move_aside-After owner_key (some content) s h =
      continue-After {A = Unit {0}} (λ _ d. Current owner_key none d) Anything
        (λ _ d. Current owner_key none d) Anything
        (change (put_owner owner_key (record { state = none; invalid = some content })) s)
        (λ _. pure true)
        (change_with_backup-After (λ _ d. Current owner_key none d) Anything
          (put_owner owner_key (record { state = none; invalid = some content })) (λ d. d) s
          (put_owner-marker_of owner_key (record { state = none; invalid = some content }) s.disk)
          tt tt tt)
        (λ _ _ k. k) (λ _ k. k)

  pub set_aside-After :
      (owner_key : String) (failure : Failure) (s : Store Body Outcome)
      → After (Known owner_key) Anything (set_aside owner_key failure s)
  unfolding quarantine_owner_state
  set_aside-After owner_key json_error s =
      continue-After {A = Bool} (λ _ d. Current owner_key none d) Anything (Known owner_key)
        Anything (quarantine_owner_state owner_key s)
        (λ moved. pure (err (if moved then quarantined else untouched)))
        (move_aside-After owner_key (marker_of owner_key s.disk) s refl) (λ _ _ k. k) (λ _ k. k)
  set_aside-After owner_key io_error s = tt
  set_aside-After owner_key revision_conflict s = tt
  set_aside-After owner_key bad_revision s = tt
  set_aside-After owner_key not_found s = tt
