-- ===== src/Storage/Stays.antt =====
-- storage/local.py: the cleanup leaves the directory of a project that it is not asked to clean up.
use auto_nav_log.Common.{
  Bool, Bool-cases, List, Option, String, [], any, ap, arith, eq_iff, false, if◌then◌else◌, inl,
  inr, none, refl, some, sym, true, ◌++◌, ◌==◌, ◌∙◌, ◌∷◌, ◌≡◌, ◌||◌,
}
use auto_nav_log.Common.Dict.{lookup}
use auto_nav_log.Storage.Disk.{
  Disk, File, OwnerProjectState, files_of, found_files, holds, unreadable,
}
use auto_nav_log.Storage.Effect.{
  Failure, bad_revision, io_error, json_error, not_found, pure, revision_conflict,
}
use auto_nav_log.Storage.Elsewhere.{Elsewhere, write_owner_state-Elsewhere}
use auto_nav_log.Storage.Keeping.{Keeps, Order, bind-Keeps, catch-Keeps, if-Keeps, weaken-Keeps}
use auto_nav_log.Storage.Owners.{
  clean_up, clean_up_all, cleanup_pending, delete, delete_if, retry_later, same_texts,
  write_owner_state,
}
use auto_nav_log.Storage.Reading.{is_autosave_only}
use auto_nav_log.Storage.Removal.{Deletes}
use auto_nav_log.Storage.Repository.{with_previous}
use auto_nav_log.Storage.Spares.{delete-Deletes}

abbrev pub waits_for_cleanup : String → OwnerProjectState → Bool
waits_for_cleanup id state = any (λ pending. pending == id) state.pending_cleanup_project_ids

-- The marker, if it can be read, does not name the project for cleanup.
abbrev pub NotPending : String → File OwnerProjectState → Type 0
NotPending id none = Unit
NotPending id (some unreadable) = Unit
NotPending id (some (holds state)) =
    any (λ pending. pending == id) state.pending_cleanup_project_ids ≡ false

any-append :
    {A : Type 0} (p : A → Bool) (xs ys : List A)
    → any p xs ≡ false
    → any p ys ≡ false
    → any p (xs ++ ys) ≡ false
any-append p [] ys h k = k
any-append p (x ∷ xs) ys h k = ground (arith, any-append p xs ys)

appended-free :
    (id previous : String) (pending : List String) (known : Bool)
    → any (λ other. other == id) pending ≡ false
    → (previous == id) ≡ false
    → any (λ other. other == id) (if known then pending else pending ++ previous ∷ []) ≡ false
appended-free id previous pending true h k = h
appended-free id previous pending false h k =
    any-append (λ other. other == id) pending (previous ∷ []) h (ground arith)

pub with_previous-free :
    (id : String) (previous : Option String) (pending : List String)
    → any (λ other. other == id) pending ≡ false
    → any (λ other. other == id) (with_previous id previous pending) ≡ false
with_previous-free id none pending h = h
with_previous-free id (some previous) pending h = elim (Bool-cases (previous == id)) [
  | inl same ↦ rw same h
  | inr differ ↦
      appended-free id previous pending (previous == id || any (λ other. other == previous) pending)
        h differ
]

module _ {Body Outcome : Type 0} (id : String) where
  -- The directory is as it was.
  abbrev pub Stays : Disk Body Outcome → Disk Body Outcome → Type 0
  Stays d e = files_of id e ≡ files_of id d

  pub Stays-Order : Order Stays
  Stays-Order = record { same = λ d. refl; then_on = λ d e f h k. k ∙ h }

  Elsewhere-Stays : (d e : Disk Body Outcome) → Elsewhere d e → Stays d e
  Elsewhere-Stays d e h = ap (λ p. found_files (lookup id p)) h

  Deletes-Stays :
      (other : String)
      → (other == id) ≡ false
      → (d e : Disk Body Outcome) → Deletes other d e
      → Stays d e
  Deletes-Stays other h d e k = elim (k id) [
    | inl stays ↦ stays
    | inr (own, gone) ↦ absurd (let q : false ≡ true = sym h ∙ (eq_iff other id).1 own in cc q)
  ]

  delete_if-Stays :
      (key_of : String → String) (other : String) (test : Bool)
      → (other == id) ≡ false
      → Keeps Stays (delete_if {Body = Body} {Outcome = Outcome} key_of other test)
  delete_if-Stays key_of other true h =
      bind-Keeps Stays Stays-Order (delete other) _
        (weaken-Keeps (Deletes other) Stays (Deletes-Stays other h) (delete other)
          (delete-Deletes other))
        (λ _ _. refl)
  delete_if-Stays key_of other false h = λ s. refl

  retry_later-Stays :
      (key_of : String → String) (failure : Failure)
      → Keeps Stays (retry_later {Body = Body} {Outcome = Outcome} key_of failure)
  retry_later-Stays key_of json_error = λ s. refl
  retry_later-Stays key_of io_error = λ s. refl
  retry_later-Stays key_of revision_conflict = λ s. refl
  retry_later-Stays key_of bad_revision = λ s. refl
  retry_later-Stays key_of not_found = λ s. refl

  clean_up_all-Stays :
      (key_of : String → String) (owner_key : String) (ids : List String)
      → any (λ pending. pending == id) ids ≡ false
      → Keeps Stays (clean_up_all {Body = Body} {Outcome = Outcome} key_of owner_key ids)
  unfolding clean_up_all clean_up
  clean_up_all-Stays key_of owner_key [] h = λ s. refl
  clean_up_all-Stays key_of owner_key (other ∷ ids) h =
      let differs : (other == id) ≡ false = ground arith in
      let later : any (λ pending. pending == id) ids ≡ false = ground arith in
      bind-Keeps Stays Stays-Order (clean_up key_of owner_key other) _
        (catch-Keeps Stays Stays-Order _ (retry_later key_of)
          (λ s.
            delete_if-Stays key_of other (is_autosave_only key_of other owner_key s.disk) differs s)
          (retry_later-Stays key_of))
        (λ remains.
          bind-Keeps Stays Stays-Order (clean_up_all key_of owner_key ids) _
            (clean_up_all-Stays key_of owner_key ids later) (λ _ _. refl))

  pub write_owner_state-Stays :
      (owner_key : String) (state : OwnerProjectState)
      → Keeps Stays (write_owner_state {Body = Body} {Outcome = Outcome} owner_key state)
  write_owner_state-Stays owner_key state =
      weaken-Keeps Elsewhere Stays Elsewhere-Stays (write_owner_state owner_key state)
        (write_owner_state-Elsewhere owner_key state)

  pub cleanup_pending-Stays :
      (key_of : String → String) (owner_key : String) (state : OwnerProjectState)
      → waits_for_cleanup id state ≡ false
      → Keeps Stays (cleanup_pending {Body = Body} {Outcome = Outcome} key_of owner_key state)
  unfolding cleanup_pending
  cleanup_pending-Stays key_of owner_key state h =
      bind-Keeps Stays Stays-Order (clean_up_all key_of owner_key state.pending_cleanup_project_ids)
        _ (clean_up_all-Stays key_of owner_key state.pending_cleanup_project_ids h)
        (λ remaining.
          if-Keeps Stays Stays-Order (same_texts remaining state.pending_cleanup_project_ids)
            (pure tt) _ (λ _. refl)
            (catch-Keeps Stays Stays-Order
              (write_owner_state owner_key
                (record state { pending_cleanup_project_ids = remaining }))
              _
              (write_owner_state-Stays owner_key
                (record state { pending_cleanup_project_ids = remaining }))
              (λ _ _. refl)))
