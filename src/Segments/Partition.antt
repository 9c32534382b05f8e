-- ===== src/Segments/Partition.antt =====
-- application/phase_segments.py: the segments are a partition of the route.
use auto_nav_log.Common.{
  All, All-map, Bool-cases, List, Option, Pairwise, String, [], arith, count_if, count_if-none,
  eq_refl, eqb, eqb_iff, false, inl, inr, leb, map, none, refl, some, subst, sym, true, ℕ, ◌+◌, ◌-◌,
  ◌<◌, ◌∷◌, ◌≡◌, ◌≤◌,
}
use auto_nav_log.Common.Int.{negsuc, pos, ℤ}
use auto_nav_log.Common.Sorting.{Ascending}
use auto_nav_log.Segments.Model.{Cut, PhaseSegment, SegmentPoint, difference, gap}
use auto_nav_log.Segments.Spacing.{Apart, Climbs, ats}
use auto_nav_log.Segments.Split.{
  Pinned, Route, contiguous_from, last_of, same_point, same_text, same_texts, segment,
  segments_from,
}

-- The segments lie one behind the other from one distance to another, none shorter than the tolerance,
-- and are numbered.
abbrev pub Partition : ℕ → ℕ → ℕ → List PhaseSegment → Type 0
Partition sequence from to [] = from ≡ to
Partition sequence from to (segment ∷ segments) =
    (segment.sequence ≡ sequence)
    × ((segment.start_distance ≡ from)
        × ((segment.end_distance ≡ from + segment.distance)
            × ((1 < segment.distance) × Partition (sequence + 1) segment.end_distance to segments)))

-- Numbers in the order of their distances.
abbrev pub heights : List Pinned → List ℕ
heights points = map (λ pinned. pinned.0) points

-- What is behind the sorted cuts climbs.
pub sorted-Climbs :
    (cut : Cut) (cuts : List Cut)
    → Ascending (λ c. c.at) (cut ∷ cuts)
    → Pairwise Apart (cut ∷ cuts)
    → Climbs cut.at (ats cuts)
sorted-Climbs cut [] h k = tt
sorted-Climbs cut (next ∷ cuts) h k = (
  let le : cut.at ≤ next.at = h.0.0 in let apart : 1 < gap cut.at next.at = k.0.0 in omega arith,
  sorted-Climbs next cuts h.1 k.1,
)

pub sorted-first :
    (cut : Cut) (cuts : List Cut)
    → Ascending (λ c. c.at) (cut ∷ cuts)
    → 1 ≤ count_if (λ c. eqb c.at 0) (cut ∷ cuts)
    → cut.at ≡ 0
sorted-first cut cuts h k = elim (Bool-cases (eqb cut.at 0)) [
  | inl zero_there ↦ (eqb_iff cut.at 0).0 zero_there
  | inr positive ↦
      let none_later : count_if (λ c. eqb c.at 0) cuts ≡ 0 =
        count_if-none (λ c. eqb c.at 0) cuts
          (All-map (λ c le. let p : eqb cut.at 0 ≡ false = positive in ground arith) cuts h.0) in
      ground arith
]

pub sorted-last :
    (total : ℕ) (cut : Cut) (cuts : List Cut)
    → Climbs cut.at (ats cuts)
    → All (λ c. c.at ≤ total) (cut ∷ cuts)
    → 1 ≤ count_if (λ c. eqb c.at total) (cut ∷ cuts)
    → last_of cut.at (ats cuts) ≡ total
sorted-last total cut [] h k n = ground arith
sorted-last total cut (next ∷ cuts) h k n =
    let climb : cut.at + 1 < next.at = h.0 in
    let low : next.at ≤ total = k.1.0 in sorted-last total next cuts h.1 k.1 (ground arith)

same_text_refl : (text : Option String) → same_text text text ≡ true
same_text_refl none = refl
same_text_refl (some text) = eq_refl text

same_texts_refl : (texts : List String) → same_texts texts texts ≡ true
same_texts_refl [] = refl
same_texts_refl (text ∷ texts) = rw (eq_refl text, same_texts_refl texts)

difference_refl : (a : ℤ) → eqb (difference a a) 0 ≡ true
difference_refl (pos a) = ground arith
difference_refl (negsuc a) = ground arith

same_point_refl : (point : SegmentPoint) → same_point point point ≡ true
unfolding same_point
same_point_refl point =
    let at_same : eqb point.along_route_distance point.along_route_distance ≡ true = ground arith in
    rw (
      eq_refl point.label,
      difference_refl point.latitude,
      difference_refl point.longitude,
      at_same,
      same_text_refl point.source_name,
      same_text_refl point.source_node_id,
      same_texts_refl point.markers,
    )

module _ (route : Route) where
  pub segments_from-far :
      (sequence : ℕ) (start end : Pinned) (ends : List Pinned)
      → start.0 + 1 < end.0
      → segments_from route sequence start (end ∷ ends)
        ≡ segment route sequence start end ∷ segments_from route (sequence + 1) end ends
  unfolding segments_from
  segments_from-far sequence start end ends h =
      let far : leb (end.0 - start.0) 1 ≡ false = ground arith in
      subst
        (λ near.
          (elim near as (λ _. List PhaseSegment) [
            | true ↦ segments_from route sequence end ends
            | false ↦ segment route sequence start end ∷ segments_from route (sequence + 1) end ends
          ])
          ≡ segment route sequence start end ∷ segments_from route (sequence + 1) end ends)
        (sym far) refl

  pub segments_from-Partition :
      (sequence : ℕ) (start : Pinned) (ends : List Pinned)
      → Climbs start.0 (heights ends)
      → Partition sequence start.0
          (last_of start.0 (heights ends))
          (segments_from route sequence start ends)
  unfolding segments_from segment
  segments_from-Partition sequence start [] h = refl
  segments_from-Partition sequence start (end ∷ ends) h =
      let climb : start.0 + 1 < end.0 = h.0 in
      subst (Partition sequence start.0 (last_of end.0 (heights ends)))
        (sym (segments_from-far sequence start end ends climb))
        (
          refl,
          (refl, (omega arith, (omega arith, segments_from-Partition (sequence + 1) end ends h.1))),
        )

  pub segments_from-contiguous :
      (sequence : ℕ) (previous : PhaseSegment) (start : Pinned) (ends : List Pinned)
      → previous.end ≡ start.1
      → Climbs start.0 (heights ends)
      → contiguous_from previous (segments_from route sequence start ends) ≡ true
  unfolding segments_from segment
  segments_from-contiguous sequence previous start [] p h = refl
  segments_from-contiguous sequence previous start (end ∷ ends) p h =
      subst (λ segments. contiguous_from previous segments ≡ true)
        (sym (segments_from-far sequence start end ends h.0))
        (rw (p, same_point_refl start.1)
          (segments_from-contiguous (sequence + 1) (segment route sequence start end) end ends refl
            h.1))
