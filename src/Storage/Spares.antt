-- ===== src/Storage/Spares.antt =====
-- The cleanup of drafts spares every directory that has a checkpoint.
use auto_nav_log.Common.{
  Bool, List, Option-cases, String, [], ap, false, inl, inr, none, refl, subst, sym, true, ◌∙◌, ◌∷◌,
  ◌≡◌, ◌⊎◌,
}
use auto_nav_log.Common.Dict.{lookup}
use auto_nav_log.Storage.Disk.{Disk, OwnerProjectState, files_of, found_files}
use auto_nav_log.Storage.Effect.{
  Failure, Store, bad_revision, get_disk, io_error, json_error, not_found, pure, raise,
  revision_conflict, ◌>>=◌,
}
use auto_nav_log.Storage.Elsewhere.{
  Elsewhere, read_or_rebuild_index-Elsewhere, write_index-Elsewhere, write_owner_state-Elsewhere,
}
use auto_nav_log.Storage.Index.{read_or_rebuild_index, sort_summaries, without, write_index}
use auto_nav_log.Storage.Keeping.{Keeps, Order, bind-Keeps, catch-Keeps, if-Keeps, weaken-Keeps}
use auto_nav_log.Storage.Owners.{
  clean_up, clean_up_all, cleanup_pending, delete, delete_directory, delete_if, has_project_files,
  remove_directory, retry_later, same_texts, write_owner_state,
}
use auto_nav_log.Storage.Reading.{checkpoint, is_autosave_only}
use auto_nav_log.Storage.Removal.{
  Deletes, Deletes-Order, checkpoint-Fewer, remove_directory-Deletes,
}

module _ {Body Outcome : Type 0} where
  -- A directory is as it was, or it had no checkpoint and has none.
  abbrev pub Spared : String → Disk Body Outcome → Disk Body Outcome → Type 0
  Spared id d e =
      (files_of id e ≡ files_of id d) ⊎ ((checkpoint id d ≡ none) × (checkpoint id e ≡ none))

  abbrev pub Spares : Disk Body Outcome → Disk Body Outcome → Type 0
  Spares d e = (id : String) → Spared id d e

  pub checkpoint-files :
      (id : String) (d e : Disk Body Outcome)
      → files_of id e ≡ files_of id d
      → checkpoint id e ≡ checkpoint id d
  unfolding checkpoint
  checkpoint-files id d e h = rw h

  pub Spares-Order : Order Spares
  Spares-Order = record {
    same = λ d id. inl refl;
    then_on = λ d e f h k id. elim (h id) [
      | inl stays ↦ elim (k id) [
        | inl stays' ↦ inl (stays' ∙ stays)
        | inr (before, after) ↦ inr (sym (checkpoint-files id d e stays) ∙ before, after)
      ]
      | inr (before, after) ↦ elim (k id) [
        | inl stays' ↦ inr (before, checkpoint-files id e f stays' ∙ after)
        | inr (before', after') ↦ inr (before, after')
      ]
    ];
  }

  pub Elsewhere-Spares : (d e : Disk Body Outcome) → Elsewhere d e → Spares d e
  Elsewhere-Spares d e h id = inl (ap (λ p. found_files (lookup id p)) h)

  pub Elsewhere-Deletes : (id : String) (d e : Disk Body Outcome) → Elsewhere d e → Deletes id d e
  Elsewhere-Deletes id d e h other = inl (ap (λ p. found_files (lookup other p)) h)

  -- A deletion takes files of its own directory out, and of no other.
  delete_directory-Deletes :
      (id : String) → Keeps (Deletes id) (delete_directory {Body = Body} {Outcome = Outcome} id)
  unfolding delete_directory
  delete_directory-Deletes id =
      bind-Keeps (Deletes id) (Deletes-Order id) (remove_directory id) _
        (remove_directory-Deletes id)
        λ _.
          bind-Keeps (Deletes id) (Deletes-Order id) read_or_rebuild_index _
            (weaken-Keeps Elsewhere (Deletes id) (Elsewhere-Deletes id) read_or_rebuild_index
              read_or_rebuild_index-Elsewhere)
            (λ summaries.
              weaken-Keeps Elsewhere (Deletes id) (Elsewhere-Deletes id)
                (write_index (sort_summaries (without id summaries)))
                (write_index-Elsewhere (sort_summaries (without id summaries))))

  pub delete-Deletes :
      (id : String) → Keeps (Deletes id) (delete {Body = Body} {Outcome = Outcome} id)
  unfolding delete
  delete-Deletes id s =
      if-Keeps (Deletes id) (Deletes-Order id) (has_project_files (files_of id s.disk))
        (delete_directory id) (raise not_found) (delete_directory-Deletes id) (λ _ _. inl refl) s

  -- Where its own directory has no checkpoint, every directory that has one is spared.
  Deletes-Spares :
      (id : String) (d e : Disk Body Outcome) → checkpoint id d ≡ none → Deletes id d e → Spares d e
  Deletes-Spares id d e h k other = elim (k other) [
    | inl stays ↦ inl stays
    | inr (own, fewer) ↦
        let before : checkpoint other d ≡ none = subst (λ i. checkpoint i d ≡ none) own h in
        inr (before, checkpoint-Fewer other d e fewer before)
  ]

  pub write_owner_state-Spares :
      (owner_key : String) (state : OwnerProjectState)
      → Keeps Spares (write_owner_state {Body = Body} {Outcome = Outcome} owner_key state)
  write_owner_state-Spares owner_key state =
      weaken-Keeps Elsewhere Spares Elsewhere-Spares (write_owner_state owner_key state)
        (write_owner_state-Elsewhere owner_key state)

module _ {Body Outcome : Type 0} (key_of : String → String) where
  autosave_only-checkpoint :
      (id owner_key : String) (d : Disk Body Outcome)
      → is_autosave_only key_of id owner_key d ≡ true
      → checkpoint id d ≡ none
  unfolding is_autosave_only
  autosave_only-checkpoint id owner_key d h = elim (Option-cases (checkpoint id d)) [
    | inl none_there ↦ none_there
    | inr (project, there) ↦
        absurd (let q : false ≡ true = rw (there, is_autosave_only) at h in cc q)
  ]

  delete_if-Spares :
      (id : String) (test : Bool) (s : Store Body Outcome)
      → (test ≡ true → checkpoint id s.disk ≡ none)
      → Spares s.disk (delete_if key_of id test s).1.disk
  delete_if-Spares id true s h =
      Deletes-Spares id s.disk (delete_if {Body = Body} {Outcome = Outcome} key_of id true s).1.disk
        (h refl)
        (bind-Keeps (Deletes id) (Deletes-Order id) (delete id) _ (delete-Deletes id)
          (λ _ _ _. inl refl) s)
  delete_if-Spares id false s h = λ other. inl refl

  retry_later-Spares :
      (failure : Failure)
      → Keeps Spares (retry_later {Body = Body} {Outcome = Outcome} key_of failure)
  retry_later-Spares json_error = λ s id. inl refl
  retry_later-Spares io_error = λ s id. inl refl
  retry_later-Spares revision_conflict = λ s id. inl refl
  retry_later-Spares bad_revision = λ s id. inl refl
  retry_later-Spares not_found = λ s id. inl refl

  clean_up-Spares :
      (owner_key id : String)
      → Keeps Spares (clean_up {Body = Body} {Outcome = Outcome} key_of owner_key id)
  unfolding clean_up
  clean_up-Spares owner_key id =
      catch-Keeps Spares Spares-Order
        (get_disk >>= λ disk. delete_if key_of id (is_autosave_only key_of id owner_key disk))
        (retry_later key_of)
        (λ s.
          delete_if-Spares id (is_autosave_only key_of id owner_key s.disk) s
            (autosave_only-checkpoint id owner_key s.disk))
        retry_later-Spares

  clean_up_all-Spares :
      (owner_key : String) (ids : List String)
      → Keeps Spares (clean_up_all {Body = Body} {Outcome = Outcome} key_of owner_key ids)
  unfolding clean_up_all
  clean_up_all-Spares owner_key [] = λ s id. inl refl
  clean_up_all-Spares owner_key (id ∷ ids) =
      bind-Keeps Spares Spares-Order (clean_up key_of owner_key id) _ (clean_up-Spares owner_key id)
        λ remains.
          bind-Keeps Spares Spares-Order (clean_up_all key_of owner_key ids) _
            (clean_up_all-Spares owner_key ids) (λ _ _ _. inl refl)

  pub cleanup_pending-Spares :
      (owner_key : String) (state : OwnerProjectState)
      → Keeps Spares (cleanup_pending {Body = Body} {Outcome = Outcome} key_of owner_key state)
  unfolding cleanup_pending
  cleanup_pending-Spares owner_key state =
      bind-Keeps Spares Spares-Order
        (clean_up_all key_of owner_key state.pending_cleanup_project_ids) _
        (clean_up_all-Spares owner_key state.pending_cleanup_project_ids)
        λ remaining.
          if-Keeps Spares Spares-Order (same_texts remaining state.pending_cleanup_project_ids)
            (pure tt) _ (λ _ _. inl refl)
            (catch-Keeps Spares Spares-Order
              (write_owner_state owner_key
                (record state { pending_cleanup_project_ids = remaining }))
              _
              (write_owner_state-Spares owner_key
                (record state { pending_cleanup_project_ids = remaining }))
              (λ _ _ _. inl refl))
