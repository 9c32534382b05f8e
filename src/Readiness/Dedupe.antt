-- ===== src/Readiness/Dedupe.antt =====
-- What the merging of issues keeps: one issue for each cause, and everything that makes it serious.
use auto_nav_log.Common.{
  is_some, String, ◌≡◌, refl, sym, ap, ◌∙◌, subst, Bool, true, false, ◌&&◌, Option, none, some,
  List, [], ◌∷◌, arith, any, All, Pairwise, ◌==◌,
}
use auto_nav_log.Common.Dict.{Dict, lookup}
use auto_nav_log.Readiness.Model.{EffectiveIssue, IssueProducer}
use auto_nav_log.Readiness.Issues.{blocks, key, merge_all, in_order, dedupe_effective_issues}
use auto_nav_log.Readiness.Merging.{
  of_some, Keyed, of_some-merge_all, Keyed-merge_all, Matches, Matches-merge_all, in_order-All,
  in_order-any, in_order-Pairwise, Joins, blocks-Joins, acknowledgement-Joins, producer-Joins,
}

module _ {Meta : Type 0} where
  merged : List (EffectiveIssue Meta) → Dict (EffectiveIssue Meta)
  merged items = (merge_all [] [] items).0

  ordered : List (EffectiveIssue Meta) → List String
  ordered items = (merge_all [] [] items).1

  merged-Keyed : (items : List (EffectiveIssue Meta)) → Keyed (merged items)
  unfolding merged lookup
  merged-Keyed items = Keyed-merge_all [] [] items (λ k e x. cc)

  merged-Matches : (items : List (EffectiveIssue Meta)) → Matches (merged items) (ordered items)
  unfolding merged ordered lookup
  merged-Matches items = Matches-merge_all [] [] items (tt, (λ k. refl))

  merged-of_some :
      (f : EffectiveIssue Meta → Bool)
      → Joins f
      → (k : String) (items : List (EffectiveIssue Meta))
      → of_some f (lookup k (merged items)) ≡ any (λ item. key item == k && f item) items
  unfolding merged lookup
  merged-of_some f j k items = of_some-merge_all f j k [] [] items

  any-true :
      (k : String) (items : List (EffectiveIssue Meta))
      → any (λ item. key item == k && true) items ≡ any (λ item. key item == k) items
  any-true k [] = refl
  any-true k (item ∷ items) = ground (arith, any-true k items)

  of_some-true : (o : Option (EffectiveIssue Meta)) → of_some (λ _. true) o ≡ is_some o
  of_some-true none = refl
  of_some-true (some e) = refl

  same_keys :
      (items : List (EffectiveIssue Meta)) (k : String)
      → any (λ e. key e == k) (in_order (merged items) (ordered items))
        ≡ any (λ item. key item == k) items
  same_keys items k =
      let all : Joins {Meta = Meta} (λ _. true) = record { join = λ a b. refl } in
      ground (
        arith,
        in_order-any k (merged items) (ordered items) (merged-Keyed items),
        (merged-Matches items).1 k,
        of_some-true (lookup k (merged items)),
        merged-of_some (λ _. true) all k items,
        any-true k items,
      )

  -- What the inputs that share an issue's cause have, the issue has, and nothing else: it blocks
  -- exactly if one of them does, and so for what must be acknowledged and for each producer.
  pub record StandsFor (items : List (EffectiveIssue Meta)) (e : EffectiveIssue Meta) : Type 0 where
    pub blocking : blocks e ≡ any (λ item. key item == key e && blocks item) items
    pub acknowledgement :
        e.effective_acknowledgement_required
        ≡ any (λ item. key item == key e && item.effective_acknowledgement_required) items
    pub produced :
        (p : IssueProducer)
        → e.producers p ≡ any (λ item. key item == key e && item.producers p) items

  at_own_key :
      (f : EffectiveIssue Meta → Bool)
      → Joins f
      → (items : List (EffectiveIssue Meta)) (k : String) (e : EffectiveIssue Meta)
      → lookup k (merged items) ≡ some e
      → f e ≡ any (λ item. key item == key e && f item) items
  at_own_key f j items k e x =
      subst (λ l. f e ≡ any (λ item. key item == l && f item) items)
        (sym (merged-Keyed items k e x)) (ap (of_some f) (sym x) ∙ merged-of_some f j k items)

  -- Merging leaves one issue for each cause among the inputs and no other, and each stands for all
  -- the inputs with its cause: no blocker, no demand for an acknowledgement and no producer is lost,
  -- and none is made up.
  pub dedupe_stands :
      (items : List (EffectiveIssue Meta))
      → Pairwise (λ a b. (key a == key b) ≡ false) (dedupe_effective_issues items)
        × ((k : String)
            → any (λ e. key e == k) (dedupe_effective_issues items)
              ≡ any (λ item. key item == k) items)
        × All (StandsFor items) (dedupe_effective_issues items)
  unfolding dedupe_effective_issues
  dedupe_stands items = (
    unfold merged ordered in
        in_order-Pairwise (merged items) (ordered items) (merged-Keyed items)
          (merged-Matches items).0,
    (unfold merged ordered in same_keys items),
    unfold merged ordered in
        in_order-All (StandsFor items) (merged items) (ordered items) λ k e x. record {
          blocking = at_own_key blocks blocks-Joins items k e x;
          acknowledgement = at_own_key _ acknowledgement-Joins items k e x;
          produced = λ p. at_own_key _ (producer-Joins p) items k e x;
        },
  )
