-- ===== src/Storage/Removal.antt =====
-- storage/local.py: what a removal of a project's directory leaves in it.
use auto_nav_log.Common.{
  Bool, Bool-cases, List, Option, String, [], eq_iff, false, inl, inr, none, refl, some, subst, sym,
  true, ◌==◌, ◌∙◌, ◌∷◌, ◌≡◌, ◌⊎◌,
}
use mathlib.Core.Logic.Or
use mathlib.Core.List.{Mem, mem-cons, not-mem-nil}
use auto_nav_log.Common.Dict.{lookup-insert, lookup-remove, remove}
use auto_nav_log.Storage.Disk.{Disk, File, Project, ProjectFiles, files_of, no_files}
use auto_nav_log.Storage.Effect.{
  Leftover, change, fails, fails_after_backup, fails_after_change, fails_halfway, first_fate,
  left_file, left_files, left_items, put_files, works,
}
use auto_nav_log.Storage.Keeping.{Keeps, Order, change-Keeps}
use auto_nav_log.Storage.Owners.{remove_directory, remove_with}
use auto_nav_log.Storage.Reading.{checkpoint, first_of, found_project, read_project}

-- The file is as it was, or gone.
abbrev pub Stayed : {A : Type 0} → File A → File A → Type 0
Stayed file left = (left ≡ file) ⊎ (left ≡ none)

-- All items of the first list are in the second.
abbrev pub Within : {A : Type 0} → List A → List A → Type 0
Within {A} xs ys = (x : A) → Mem x xs → Mem x ys

pub Stayed-trans : {A : Type 0} (a b c : File A) → Stayed a b → Stayed b c → Stayed a c
Stayed-trans a b c h (inr gone) = inr gone
Stayed-trans a b c (inl same) (inl same') = inl (same' ∙ same)
Stayed-trans a b c (inr gone) (inl same') = inr (same' ∙ gone)

left_file-Stayed : {A : Type 0} (left : Bool) (file : File A) → Stayed file (left_file left file)
left_file-Stayed true file = inl refl
left_file-Stayed false file = inr refl

left_items-Within :
    {A : Type 0} (left : List Bool) (items : List A) → Within (left_items left items) items
left_items-Within [] items x m = absurd (not-mem-nil m)
left_items-Within (left ∷ more) [] x m = absurd (not-mem-nil m)
left_items-Within (true ∷ more) (item ∷ items) x m =
    mem-cons.1 (Or.imp (λ e. e) (left_items-Within more items x) (mem-cons.0 m))
left_items-Within (false ∷ more) (item ∷ items) x m =
    mem-cons.1 (Or.inr (left_items-Within more items x m))

module _ {Body : Type 0} where
  first_of-none : (a b : Option (Project Body)) → first_of a b ≡ none → (a ≡ none) × (b ≡ none)
  first_of-none none b h = (refl, h)
  first_of-none (some project) b h = cc h

  found_project-Stayed :
      (id : String) (file left : File (Project Body))
      → Stayed file left
      → found_project (read_project id file) ≡ none
      → found_project (read_project id left) ≡ none
  found_project-Stayed id file left (inl same) k = rw same k
  found_project-Stayed id file left (inr gone) k = rw gone refl

module _ {Body Outcome : Type 0} where
  -- The second has no file that the first does not have.
  pub record Fewer (files left : ProjectFiles Body Outcome) : Type 0 where
    pub project_json : Stayed files.project_json left.project_json
    pub project_bak : Stayed files.project_bak left.project_bak
    pub autosave_json : Stayed files.autosave_json left.autosave_json
    pub autosave_bak : Stayed files.autosave_bak left.autosave_bak
    pub last_calculation : Stayed files.last_calculation left.last_calculation
    pub last_calculation_invalid :
        Stayed files.last_calculation_invalid left.last_calculation_invalid
    pub conflicts : Within left.conflicts files.conflicts

  pub Fewer-trans : (a b c : ProjectFiles Body Outcome) → Fewer a b → Fewer b c → Fewer a c
  Fewer-trans a b c h k = record {
    project_json = Stayed-trans a.project_json _ _ h.project_json k.project_json;
    project_bak = Stayed-trans a.project_bak _ _ h.project_bak k.project_bak;
    autosave_json = Stayed-trans a.autosave_json _ _ h.autosave_json k.autosave_json;
    autosave_bak = Stayed-trans a.autosave_bak _ _ h.autosave_bak k.autosave_bak;
    last_calculation = Stayed-trans a.last_calculation _ _ h.last_calculation k.last_calculation;
    last_calculation_invalid =
        Stayed-trans a.last_calculation_invalid _ _ h.last_calculation_invalid
          k.last_calculation_invalid;
    conflicts = λ x m. h.conflicts x (k.conflicts x m);
  }

  pub left_files-Fewer :
      (left : Leftover) (files : ProjectFiles Body Outcome) → Fewer files (left_files left files)
  left_files-Fewer left files = record {
    project_json = left_file-Stayed left.project_json files.project_json;
    project_bak = left_file-Stayed left.project_bak files.project_bak;
    autosave_json = left_file-Stayed left.autosave_json files.autosave_json;
    autosave_bak = left_file-Stayed left.autosave_bak files.autosave_bak;
    last_calculation = left_file-Stayed left.last_calculation files.last_calculation;
    last_calculation_invalid =
        left_file-Stayed left.last_calculation_invalid files.last_calculation_invalid;
    conflicts = left_items-Within left.conflicts files.conflicts;
  }

  pub no_files-Fewer : (files : ProjectFiles Body Outcome) → Fewer files no_files
  no_files-Fewer files = record {
    project_json = inr refl;
    project_bak = inr refl;
    autosave_json = inr refl;
    autosave_bak = inr refl;
    last_calculation = inr refl;
    last_calculation_invalid = inr refl;
    conflicts = λ x m. absurd (not-mem-nil m);
  }

  -- A removal, whole or in part, makes no checkpoint.
  pub checkpoint-Fewer :
      (id : String) (d e : Disk Body Outcome)
      → Fewer (files_of id d) (files_of id e)
      → checkpoint id d ≡ none
      → checkpoint id e ≡ none
  unfolding checkpoint
  checkpoint-Fewer id d e h k =
      let (no_json, no_bak) = first_of-none _ _ k in
      rw
        (found_project-Stayed id (files_of id d).project_json (files_of id e).project_json
          h.project_json no_json)
        (found_project-Stayed id (files_of id d).project_bak (files_of id e).project_bak
          h.project_bak no_bak)

  -- The same, but for one directory, of which files may be gone.
  abbrev pub Deletes : String → Disk Body Outcome → Disk Body Outcome → Type 0
  Deletes id d e =
      (other : String)
      → (files_of other e ≡ files_of other d)
        ⊎ ((id ≡ other) × Fewer (files_of other d) (files_of other e))

  pub Deletes-Order : (id : String) → Order (Deletes id)
  Deletes-Order id = record {
    same = λ d other. inl refl;
    then_on = λ d e f h k other. elim (k other) [
      | inl stays ↦ elim (h other) [
        | inl stayed ↦ inl (stays ∙ stayed)
        | inr (own, fewer) ↦
            inr (own, subst (λ files. Fewer (files_of other d) files) (sym stays) fewer)
      ]
      | inr (own, fewer) ↦ elim (h other) [
        | inl stayed ↦ inr (own, subst (λ files. Fewer files (files_of other f)) stayed fewer)
        | inr (_, fewer') ↦ inr (own, Fewer-trans _ _ _ fewer' fewer)
      ]
    ];
  }

  left-Deletes :
      (id : String) (left : Leftover) (d : Disk Body Outcome)
      → Deletes id d (put_files id (left_files left (files_of id d)) d)
  left-Deletes id left d other = elim (Bool-cases (id == other)) [
    | inl same ↦
        let own : id ≡ other = (eq_iff id other).0 same in
        let there : files_of other (put_files id (left_files left (files_of id d)) d)
            ≡ left_files left (files_of id d) =
          rw (lookup-insert, same) in
        inr (
          own,
          subst (λ files. Fewer (files_of other d) files) (sym there)
              (subst (λ i. Fewer (files_of i d) (left_files left (files_of id d))) own
                (left_files-Fewer left (files_of id d))),
        )
    | inr differ ↦ inl (rw (lookup-insert, differ))
  ]

  whole-Deletes :
      (id : String) (d : Disk Body Outcome)
      → Deletes id d (record d { projects = remove id d.projects })
  whole-Deletes id d other = elim (Bool-cases (id == other)) [
    | inl same ↦
        let there : files_of other (record d { projects = remove id d.projects }) ≡ no_files =
          rw (lookup-remove, same) in
        inr (
          (eq_iff id other).0 same,
          subst (λ files. Fewer (files_of other d) files) (sym there)
              (no_files-Fewer (files_of other d)),
        )
    | inr differ ↦ inl (rw (lookup-remove, differ))
  ]

  pub remove_directory-Deletes :
      (id : String) → Keeps (Deletes id) (remove_directory {Body = Body} {Outcome = Outcome} id)
  unfolding remove_directory
  remove_directory-Deletes id s =
      elim (first_fate s.fates) as (λ fate. Deletes id s.disk (remove_with fate id s).1.disk) [
        | works ↦ whole
        | fails failure ↦ whole
        | fails_after_backup failure ↦ whole
        | fails_after_change failure ↦ whole
        | fails_halfway left failure ↦ left-Deletes id left s.disk
      ]
    where
      whole :
          Deletes id s.disk
            (change (λ disk. record disk { projects = remove id disk.projects }) s).1.disk
      whole =
          change-Keeps (Deletes id) (Deletes-Order id)
            (λ disk. record disk { projects = remove id disk.projects }) (whole-Deletes id) s
