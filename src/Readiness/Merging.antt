-- ===== src/Readiness/Merging.antt =====
-- The loop that merges issues by their cause, and the table that it makes.
use auto_nav_log.Common.{
  is_some, String, ◌≡◌, refl, sym, ap, ◌∙◌, subst, inl, inr, Bool, false, ◌&&◌, ◌||◌, Option, none,
  some, List, [], ◌∷◌, ◌++◌, arith, any, All, All-append, Pairwise, Bool-cases, Option-cases, ◌==◌,
  eq_iff,
}
use auto_nav_log.Common.Dict.{Dict, lookup, insert, lookup-insert}
use auto_nav_log.Readiness.Model.{EffectiveIssue, IssueProducer}
use auto_nav_log.Readiness.Issues.{blocks, key, merge, merge_into, order_with, merge_all, in_order}

any-append :
    (k : String) (xs : List String) (x : String)
    → any (λ j. j == k) (xs ++ x ∷ []) ≡ any (λ j. j == k) xs || x == k
any-append k [] x = ground arith
any-append k (y ∷ xs) x = ground (arith, any-append k xs x)

Pairwise-append :
    (xs : List String) (x : String)
    → Pairwise (λ j k. (j == k) ≡ false) xs
    → any (λ j. j == x) xs ≡ false
    → Pairwise (λ j k. (j == k) ≡ false) (xs ++ x ∷ [])
Pairwise-append [] x p a = (tt, tt)
Pairwise-append (y ∷ xs) x p a = (
  All-append (λ k. (y == k) ≡ false) xs (x ∷ []) p.0 (ground arith, tt),
  Pairwise-append xs x p.1 (ground arith),
)

module _ {Meta : Type 0} where
  -- A property of issues that `merge` joins by `or`.
  pub record Joins (f : EffectiveIssue Meta → Bool) : Type 0 where
    pub join : (a b : EffectiveIssue Meta) → f (merge a b) ≡ f a || f b

  pub blocks-Joins : Joins blocks
  unfolding merge
  blocks-Joins = record { join = λ a b. ground arith }

  pub acknowledgement-Joins : Joins (λ item. item.effective_acknowledgement_required)
  unfolding merge
  acknowledgement-Joins = record { join = λ a b. refl }

  pub producer-Joins : (p : IssueProducer) → Joins (λ item. item.producers p)
  unfolding merge
  producer-Joins p = record { join = λ a b. refl }

  abbrev pub of_some : (EffectiveIssue Meta → Bool) → Option (EffectiveIssue Meta) → Bool
  of_some f none = false
  of_some f (some item) = f item

  key-merge_into :
      (o : Option (EffectiveIssue Meta)) (current : EffectiveIssue Meta)
      → ((e : EffectiveIssue Meta) → o ≡ some e → key e ≡ key current)
      → key (merge_into o current) ≡ key current
  unfolding merge
  key-merge_into none current h = refl
  key-merge_into (some e) current h = h e refl

  join-merge_into :
      (f : EffectiveIssue Meta → Bool)
      → Joins f
      → (o : Option (EffectiveIssue Meta)) (current : EffectiveIssue Meta)
      → f (merge_into o current) ≡ of_some f o || f current
  join-merge_into f j none current = refl
  join-merge_into f j (some e) current = j.join e current

  -- Each issue stands under its own key.
  abbrev pub Keyed : Dict (EffectiveIssue Meta) → Type 0
  Keyed m = (k : String) (e : EffectiveIssue Meta) → lookup k m ≡ some e → key e ≡ k

  insert-Keyed :
      (m : Dict (EffectiveIssue Meta)) (current : EffectiveIssue Meta)
      → Keyed m
      → Keyed (insert (key current) (merge_into (lookup (key current) m) current) m)
  insert-Keyed m current h k e x = elim (Bool-cases (key current == k)) [
    | inl same ↦
        let new : merge_into (lookup (key current) m) current ≡ e =
          ground (
            arith,
            lookup-insert (key current) k (merge_into (lookup (key current) m) current) m,
          ) in
        ap (λ i. key i) (sym new)
        ∙ key-merge_into (lookup (key current) m) current (h (key current))
        ∙ (eq_iff (key current) k).0 same
    | inr differ ↦ h k e (
        ground
          (arith, lookup-insert (key current) k (merge_into (lookup (key current) m) current) m))
  ]

  -- Of an input with its key, the merged table has an issue with all that joins.
  pub of_some-merge_all :
      (f : EffectiveIssue Meta → Bool)
      → Joins f
      → (k : String) (m : Dict (EffectiveIssue Meta)) (order : List String)
        (items : List (EffectiveIssue Meta))
      → of_some f (lookup k (merge_all m order items).0)
        ≡ of_some f (lookup k m) || any (λ item. key item == k && f item) items
  unfolding merge_all
  of_some-merge_all f j k m order [] = ground arith
  of_some-merge_all f j k m order (current ∷ items) = elim (Bool-cases (key current == k)) [
    | inl same ↦
        let v = merge_into (lookup (key current) m) current in
        let lk : lookup k (insert (key current) v m) ≡ some v = rw (lookup-insert, same) in
        let same_l : lookup (key current) m ≡ lookup k m =
          ap (λ l. lookup l m) ((eq_iff (key current) k).0 same) in
        ground (
          arith,
          of_some-merge_all f j k (insert (key current) v m)
              (order_with (lookup (key current) m) (key current) order) items,
          ap (of_some f) lk,
          join-merge_into f j (lookup (key current) m) current,
          ap (of_some f) same_l,
        )
    | inr differ ↦ ground (
      arith,
      of_some-merge_all f j k (insert (key current) (merge_into (lookup (key current) m) current) m)
          (order_with (lookup (key current) m) (key current) order) items,
      lookup-insert (key current) k (merge_into (lookup (key current) m) current) m,
    )
  ]

  pub Keyed-merge_all :
      (m : Dict (EffectiveIssue Meta)) (order : List String) (items : List (EffectiveIssue Meta))
      → Keyed m
      → Keyed (merge_all m order items).0
  unfolding merge_all
  Keyed-merge_all m order [] h = h
  Keyed-merge_all m order (current ∷ items) h =
      Keyed-merge_all (insert (key current) (merge_into (lookup (key current) m) current) m)
        (order_with (lookup (key current) m) (key current) order) items (insert-Keyed m current h)

  -- `order` names the keys of the table, each once.
  abbrev pub Matches : Dict (EffectiveIssue Meta) → List String → Type 0
  Matches m order =
      Pairwise (λ j k. (j == k) ≡ false) order
      × ((k : String) → any (λ j. j == k) order ≡ is_some (lookup k m))

  Matches-step :
      (m : Dict (EffectiveIssue Meta)) (order : List String) (current : EffectiveIssue Meta)
      → Matches m order
      → (o : Option (EffectiveIssue Meta)) → lookup (key current) m ≡ o
      → Matches (insert (key current) (merge_into o current) m) (order_with o (key current) order)
  Matches-step m order current h none e = (
    Pairwise-append order (key current) h.0 (ground (arith, h.1 (key current))),
    (λ k.
        ground (
          arith,
          any-append k order (key current),
          lookup-insert (key current) k current m,
          h.1 k,
        )),
  )
  Matches-step m order current h (some old) e = (
    h.0,
    (λ k. elim (Bool-cases (key current == k)) [
      | inl same ↦
          let same_l : lookup (key current) m ≡ lookup k m =
            ap (λ l. lookup l m) ((eq_iff (key current) k).0 same) in
          ground (arith, lookup-insert (key current) k (merge old current) m, h.1 k)
      | inr differ ↦ ground (arith, lookup-insert (key current) k (merge old current) m, h.1 k)
    ]),
  )

  pub Matches-merge_all :
      (m : Dict (EffectiveIssue Meta)) (order : List String) (items : List (EffectiveIssue Meta))
      → Matches m order
      → Matches (merge_all m order items).0 (merge_all m order items).1
  unfolding merge_all
  Matches-merge_all m order [] h = h
  Matches-merge_all m order (current ∷ items) h =
      Matches-merge_all (insert (key current) (merge_into (lookup (key current) m) current) m)
        (order_with (lookup (key current) m) (key current) order) items
        (Matches-step m order current h (lookup (key current) m) refl)

  pub in_order-All :
      (P : EffectiveIssue Meta → Type 0) (m : Dict (EffectiveIssue Meta)) (order : List String)
      → ((k : String) (e : EffectiveIssue Meta) → lookup k m ≡ some e → P e)
      → All P (in_order m order)
  unfolding in_order
  in_order-All P m [] h = tt
  in_order-All P m (k ∷ order) h = elim (Option-cases (lookup k m)) [
    | inl gone ↦ rw (gone, in_order) (in_order-All P m order h)
    | inr (e, there) ↦ rw (there, in_order) (h k e there, in_order-All P m order h)
  ]

  -- A key that the order names is that of an issue in the list.
  pub in_order-any :
      (k : String) (m : Dict (EffectiveIssue Meta)) (order : List String)
      → Keyed m
      → any (λ e. key e == k) (in_order m order) ≡ any (λ j. j == k) order && is_some (lookup k m)
  unfolding in_order
  in_order-any k m [] h = refl
  in_order-any k m (j ∷ order) h = elim (Option-cases (lookup j m)) [
    | inl gone ↦
        rw (gone, in_order)
          (elim (Bool-cases (j == k)) [
            | inl same ↦
                let absent : lookup k m ≡ none =
                  subst (λ l. lookup l m ≡ none) ((eq_iff j k).0 same) gone in
                ground (arith, in_order-any k m order h, absent)
            | inr differ ↦ ground (arith, in_order-any k m order h)
          ])
    | inr (e, there) ↦
        let own : (key e == k) ≡ (j == k) = ap (λ l. l == k) (h j e there) in
        rw (there, in_order)
          (elim (Bool-cases (j == k)) [
            | inl same ↦
                let present : lookup k m ≡ some e =
                  subst (λ l. lookup l m ≡ some e) ((eq_iff j k).0 same) there in
                ground (arith, in_order-any k m order h, present, own)
            | inr differ ↦ ground (arith, in_order-any k m order h, own)
          ])
  ]

  in_order-other :
      (j : String) (m : Dict (EffectiveIssue Meta)) (order : List String)
      → Keyed m
      → All (λ k. (j == k) ≡ false) order
      → All (λ e. (j == key e) ≡ false) (in_order m order)
  unfolding in_order
  in_order-other j m [] h a = tt
  in_order-other j m (k ∷ order) h a = elim (Option-cases (lookup k m)) [
    | inl gone ↦ rw (gone, in_order) (in_order-other j m order h a.1)
    | inr (e, there) ↦
        rw (there, in_order)
          (subst (λ l. (j == l) ≡ false) (sym (h k e there)) a.0, in_order-other j m order h a.1)
  ]

  pub in_order-Pairwise :
      (m : Dict (EffectiveIssue Meta)) (order : List String)
      → Keyed m
      → Pairwise (λ j k. (j == k) ≡ false) order
      → Pairwise (λ a b. (key a == key b) ≡ false) (in_order m order)
  unfolding in_order
  in_order-Pairwise m [] h p = tt
  in_order-Pairwise m (k ∷ order) h p = elim (Option-cases (lookup k m)) [
    | inl gone ↦ rw (gone, in_order) (in_order-Pairwise m order h p.1)
    | inr (e, there) ↦
        rw (there, in_order)
          (
            subst (λ l. All (λ b. (l == key b) ≡ false) (in_order m order)) (sym (h k e there))
                (in_order-other k m order h p.0),
            in_order-Pairwise m order h p.1,
          )
  ]
