-- ===== src/Segments/Clearance.antt =====
-- application/phase_segments.py: no boundary is inside a segment.
use auto_nav_log.Common.{
  All, Bool, Bool-cases, List, [], arith, count_if, inl, inr, leb, subst, sym, ℕ, ◌+◌, ◌<◌, ◌∷◌,
  ◌≤◌, ◌⊎◌,
}
use auto_nav_log.Segments.Model.{PhaseSegment, gap}
use auto_nav_log.Segments.Partition.{heights, segments_from-far}
use auto_nav_log.Segments.Spacing.{Climbs}
use auto_nav_log.Segments.Split.{Pinned, Route, segment, segments_from}

-- The distance is not inside the segment by more than the tolerance.
abbrev pub Clear : ℕ → PhaseSegment → Type 0
Clear distance segment =
    (distance ≤ segment.start_distance + 1) ⊎ (segment.end_distance ≤ distance + 1)

abbrev pub near : ℕ → ℕ → Bool
near distance other = leb (gap other distance) 1

-- A number that climbs is above the first, so what is near it is not far below.
near-Climbs :
    (distance a : ℕ) (xs : List ℕ)
    → Climbs a xs
    → 1 ≤ count_if (near distance) (a ∷ xs)
    → a ≤ distance + 1
near-Climbs distance a [] h n = ground arith
near-Climbs distance a (x ∷ xs) h n = elim (Bool-cases (near distance a)) [
  | inl here ↦ ground arith
  | inr elsewhere ↦
      let climb : a + 1 < x = h.0 in
      let later : 1 ≤ count_if (near distance) (x ∷ xs) = ground arith in
      omega (arith, near-Climbs distance x xs h.1 later)
]

module _ (route : Route) (distance : ℕ) where
  pub segments_from-Clear :
      (sequence : ℕ) (start : Pinned) (ends : List Pinned)
      → Climbs start.0 (heights ends)
      → (distance ≤ start.0 + 1) ⊎ (1 ≤ count_if (near distance) (heights ends))
      → All (Clear distance) (segments_from route sequence start ends)
  unfolding segments_from segment
  segments_from-Clear sequence start [] h n = tt
  segments_from-Clear sequence start (end ∷ ends) h n =
      let climb : start.0 + 1 < end.0 = h.0 in
      subst (All (Clear distance)) (sym (segments_from-far route sequence start end ends climb))
        (elim n [
          | inl behind ↦
              (inl behind, segments_from-Clear (sequence + 1) end ends h.1 (inl (omega arith)))
          | inr ahead ↦ (
            inr (near-Climbs distance end.0 (heights ends) h.1 ahead),
            segments_from-Clear (sequence + 1) end ends h.1
                (elim (Bool-cases (near distance end.0)) [
                  | inl here ↦ inl (ground arith)
                  | inr elsewhere ↦ inr (ground arith)
                ]),
          )
        ])
