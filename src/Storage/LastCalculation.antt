-- ===== src/Storage/LastCalculation.antt =====
-- storage/local.py: the last calculation of a project is for its owner only.
use auto_nav_log.Common.{
  Option, String, ap, arith, eq_iff, false, inl, inr, none, refl, some, subst, sym, true, ◌&&◌,
  ◌==◌, ◌↔◌, ◌∙◌, ◌≡◌, ◌⊎◌,
}
use auto_nav_log.Common.Dict.{lookup-insert}
use auto_nav_log.Storage.Disk.{Disk, File, LastCalculationRecord, files_of, holds, unreadable}
use auto_nav_log.Storage.Effect.{Store, change, json_error, pure, raise, ◌>>◌}
use auto_nav_log.Storage.Markers.{aside, load_last_calculation, quarantine_last, use_last}
use auto_nav_log.Storage.Outcome.{After, change_with_backup-After, continue-After, if-After}

module _ {Body Outcome : Type 0} where
  -- A record of this project and this owner.
  abbrev pub Own : String → String → LastCalculationRecord Body Outcome → Type 0
  Own id owner_key last = (last.project_id ≡ id) × (last.owner_key ≡ owner_key)

  -- What a load of the last calculation returns: none, where there is no file, or the record that the file
  -- holds, which is of this project and this owner.
  abbrev pub Loads :
      String
      → String
      → Disk Body Outcome
      → Option (LastCalculationRecord Body Outcome)
      → Disk Body Outcome
      → Type 0
  Loads id owner_key d none e = ((files_of id d).last_calculation ≡ none) × (e ≡ d)
  Loads id owner_key d (some last) e =
      ((files_of id d).last_calculation ≡ some (holds last)) × (Own id owner_key last × (e ≡ d))

  abbrev pub Invalid : String → String → File (LastCalculationRecord Body Outcome) → Type 0
  Invalid id owner_key none = ⊥
  Invalid id owner_key (some unreadable) = Unit
  Invalid id owner_key (some (holds last)) = ¬ Own id owner_key last

  -- Where it raises, the file is invalid, and has been moved aside or has not.
  abbrev pub SetAside : String → String → Disk Body Outcome → Disk Body Outcome → Type 0
  SetAside id owner_key d e =
      Invalid id owner_key (files_of id d).last_calculation
      × ((e ≡ d)
          ⊎ (((files_of id e).last_calculation ≡ none)
              × ((files_of id e).last_calculation_invalid ≡ (files_of id d).last_calculation)))

  test_iff :
      (last : LastCalculationRecord Body Outcome) (id owner_key : String)
      → (last.project_id == id && last.owner_key == owner_key ≡ true) ↔ Own id owner_key last
  test_iff last id owner_key =
      ground (arith, eq_iff last.project_id id, eq_iff last.owner_key owner_key)

  quarantine_last-After :
      (id owner_key : String) (s : Store Body Outcome)
      → Invalid id owner_key (files_of id s.disk).last_calculation
      → After
          (Loads id owner_key s.disk)
          (SetAside id owner_key s.disk)
          ((quarantine_last id >> raise json_error) s)
  unfolding quarantine_last change
  quarantine_last-After id owner_key s h =
      let moved = record (files_of id s.disk) {
        last_calculation = none;
        last_calculation_invalid = (files_of id s.disk).last_calculation;
      } in
      let done = aside id s.disk in
      let written : files_of id done ≡ moved =
        let own : (id == id) ≡ true = (eq_iff id id).1 refl in rw (lookup-insert, own) in
      let moved_aside : SetAside id owner_key s.disk done = (
        h,
        inr (ap (λ f. f.last_calculation) written, ap (λ f. f.last_calculation_invalid) written),
      ) in
      continue-After {A = Unit {0}} (λ _. SetAside id owner_key s.disk)
        (SetAside id owner_key s.disk) (Loads id owner_key s.disk) (SetAside id owner_key s.disk)
        (quarantine_last id s) _
        (change_with_backup-After (λ _. SetAside id owner_key s.disk) (SetAside id owner_key s.disk)
          (aside id) (λ d. d) s moved_aside (h, inl refl) (h, inl refl) moved_aside)
        (λ _ _ k. k) (λ _ k. k)

  use_last-After :
      (id owner_key : String) (file : File (LastCalculationRecord Body Outcome))
      (s : Store Body Outcome)
      → (files_of id s.disk).last_calculation ≡ file
      → After
          (Loads id owner_key s.disk)
          (SetAside id owner_key s.disk)
          (use_last id owner_key file s)
  use_last-After id owner_key none s h = (h, refl)
  use_last-After id owner_key (some unreadable) s h =
      quarantine_last-After id owner_key s (subst (Invalid id owner_key) (sym h) tt)
  use_last-After id owner_key (some (holds last)) s h =
      if-After (Loads id owner_key s.disk) (SetAside id owner_key s.disk)
        (last.project_id == id && last.owner_key == owner_key) (pure (some last))
        (quarantine_last id >> raise json_error) s
        (λ own. (h, ((test_iff last id owner_key).0 own, refl)))
        (λ foreign. quarantine_last-After id owner_key s (
          subst (Invalid id owner_key) (sym h) (λ own.
            absurd
              (let q : false ≡ true = sym foreign ∙ (test_iff last id owner_key).1 own in cc q))))

  -- Whatever fails, a load of the last calculation returns the record that the file holds, and this only
  -- if it is of the given project and owner, or none, where there is no file, and changes nothing
  -- then; where it raises, the file is unreadable or of another project or owner, and it is moved aside
  -- or everything is as it was.
  pub load_last_calculation-After :
      (id owner_key : String) (s : Store Body Outcome)
      → After
          (Loads id owner_key s.disk)
          (SetAside id owner_key s.disk)
          (load_last_calculation id owner_key s)
  unfolding load_last_calculation
  load_last_calculation-After id owner_key s =
      use_last-After id owner_key (files_of id s.disk).last_calculation s refl
