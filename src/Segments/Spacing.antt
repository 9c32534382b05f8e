-- ===== src/Segments/Spacing.antt =====
-- application/phase_segments.py: the cuts of a route whose legs are longer than the tolerance.
use auto_nav_log.Common.{
  All, All-map, Bool, Bool-cases, List, Option, Pairwise, String, [], arith, count_if, eqb, false,
  inl, inr, leb, leb→le, ltb, map, none, refl, some, true, ℕ, ◌&&◌, ◌+◌, ◌<◌, ◌∷◌, ◌≡◌, ◌≤◌,
}
use auto_nav_log.Common.Result.{Result, err, ok}
use auto_nav_log.Segments.Checks.{
  Check, Measured, additional_checks, first_failure, leg_checks, measure, prepend, within,
}
use auto_nav_log.Segments.Cuts.{add_boundaries, add_boundary, add_marker, all_cuts, plain_cut}
use auto_nav_log.Segments.Model.{
  Cut, PhysicalRouteLeg, RouteBoundary, SegmentationError, descent_end_label, eoc_label, gap,
  magnitude, not_contiguous, rca_label,
}
use auto_nav_log.Segments.Split.{last_of}

-- Numbers that rise by more than the tolerance.
abbrev pub Climbs : ℕ → List ℕ → Type 0
Climbs a [] = Unit
Climbs a (x ∷ xs) = (a + 1 < x) × Climbs x xs

-- Cuts that the tolerance does not merge.
abbrev pub Apart : Cut → Cut → Type 0
Apart a b = 1 < gap a.at b.at

abbrev pub ats : List Cut → List ℕ
ats cuts = map (λ cut. cut.at) cuts

abbrev pub LongLegs : List PhysicalRouteLeg → Type 0
LongLegs legs = All (λ leg. 1 < leg.adopted_distance) legs

-- The error that says that the segments are not contiguous.
abbrev pub is_internal : SegmentationError → Bool
is_internal not_contiguous = true
is_internal _ = false

-- Not this one.
abbrev pub Quiet : Option SegmentationError → Type 0
Quiet none = Unit
Quiet (some failure) = is_internal failure ≡ false

-- No check of the list refuses with it.
abbrev pub QuietChecks : List Check → Type 0
QuietChecks checks = All (λ check. is_internal check.1 ≡ false) checks

pub first_failure-Quiet : (checks : List Check) → QuietChecks checks → Quiet (first_failure checks)
unfolding first_failure
first_failure-Quiet [] h = tt
first_failure-Quiet ((true, failure) ∷ checks) h = first_failure-Quiet checks h.1
first_failure-Quiet ((false, failure) ∷ checks) h = h.0

pub first_failure-none :
    (checks : List Check) → first_failure checks ≡ none → All (λ check. check.0 ≡ true) checks
unfolding first_failure
first_failure-none [] h = tt
first_failure-none ((true, failure) ∷ checks) h = (refl, first_failure-none checks h)
first_failure-none ((false, failure) ∷ checks) h = absurd (cc h)

pub additional_checks-Quiet :
    (is_blank : String → Bool) (total : ℕ) (boundaries : List RouteBoundary)
    → QuietChecks (additional_checks is_blank total boundaries)
additional_checks-Quiet is_blank total [] = tt
additional_checks-Quiet is_blank total (boundary ∷ boundaries) =
    (refl, (refl, additional_checks-Quiet is_blank total boundaries))

pub additional_checks-inside :
    (is_blank : String → Bool) (total : ℕ) (boundaries : List RouteBoundary)
    → All (λ check. check.0 ≡ true) (additional_checks is_blank total boundaries)
    → All (λ boundary. boundary.distance ≤ total) boundaries
additional_checks-inside is_blank total [] h = tt
additional_checks-inside is_blank total (boundary ∷ boundaries) h = (
  let inside : (ltb 1 boundary.distance && ltb (boundary.distance + 1) total) ≡ true = h.0 in
      ground arith,
  additional_checks-inside is_blank total boundaries h.1.1,
)

-- The boundaries climb, or the legs are refused.
abbrev pub Measures : ℕ → Result SegmentationError Measured → Type 0
Measures start (ok measured) = Climbs start measured.1
Measures start (err failure) = is_internal failure ≡ false

prepend-Measures :
    (start end : ℕ) (r : Result SegmentationError Measured)
    → start + 1 < end
    → Measures end r
    → Measures start (prepend start end r)
prepend-Measures start end (ok measured) h k = (h, k)
prepend-Measures start end (err failure) h k = k

checked-Measures :
    (start : ℕ) (failure : Option SegmentationError) (r : Result SegmentationError Measured)
    → Quiet failure
    → Measures start r
    → Measures start
        (elim failure as (λ _. Result SegmentationError Measured) [ some e ↦ err e | none ↦ r ])
checked-Measures start none r h k = k
checked-Measures start (some e) r h k = h

pub measure-Measures :
    (indices : List ℕ) (ids : List String) (previous : Option PhysicalRouteLeg) (start : ℕ)
    (legs : List PhysicalRouteLeg)
    → LongLegs legs
    → Measures start (measure indices ids previous start legs)
unfolding measure
measure-Measures indices ids previous start [] long = tt
measure-Measures indices ids previous start (leg ∷ legs) long =
    let long_leg : 1 < leg.adopted_distance = long.0 in
    let end = start + leg.adopted_distance in
    let later =
      measure (magnitude leg.source_index ∷ indices) (leg.source_id ∷ ids) (some leg) end legs in
    checked-Measures start (first_failure (leg_checks indices ids previous leg))
      (prepend start end later)
      (first_failure-Quiet (leg_checks indices ids previous leg)
        (refl, (refl, (refl, (refl, (refl, (refl, (refl, (refl, (refl, tt))))))))))
      (prepend-Measures start end later (omega arith) (
        measure-Measures (magnitude leg.source_index ∷ indices) (leg.source_id ∷ ids) (some leg) end
          legs long.1))

Climbs-All : (a : ℕ) (xs : List ℕ) → Climbs a xs → All (λ cut. a + 1 < cut.at) (map plain_cut xs)
Climbs-All a [] h = tt
Climbs-All a (x ∷ xs) h =
    (h.0, All-map (λ cut k. omega arith) (map plain_cut xs) (Climbs-All x xs h.1))

pub Climbs-Apart : (a : ℕ) (xs : List ℕ) → Climbs a xs → Pairwise Apart (map plain_cut (a ∷ xs))
Climbs-Apart a [] h = (tt, tt)
Climbs-Apart a (x ∷ xs) h = (
  All-map (λ cut k. omega arith) (map plain_cut (x ∷ xs)) (Climbs-All a (x ∷ xs) h),
  Climbs-Apart x xs h.1,
)

add_marker-All :
    (P : ℕ → Type 0) (distance : ℕ) (marker : String) (cuts : List Cut)
    → P distance
    → All (λ cut. P cut.at) cuts
    → All (λ cut. P cut.at) (add_marker distance marker cuts)
unfolding add_marker
add_marker-All P distance marker [] p h = (p, tt)
add_marker-All P distance marker (cut ∷ cuts) p h =
    elim (Bool-cases (leb (gap cut.at distance) 1)) [
      | inl near ↦ rw near (h.0, h.1)
      | inr far ↦ rw far (h.0, add_marker-All P distance marker cuts p h.1)
    ]

add_marker-Apart :
    (distance : ℕ) (marker : String) (cuts : List Cut)
    → Pairwise Apart cuts
    → Pairwise Apart (add_marker distance marker cuts)
unfolding add_marker
add_marker-Apart distance marker [] h = (tt, tt)
add_marker-Apart distance marker (cut ∷ cuts) h = elim (Bool-cases (leb (gap cut.at distance) 1)) [
  | inl near ↦ rw near (h.0, h.1)
  | inr far ↦ rw far (
    add_marker-All (λ d. 1 < gap cut.at d) distance marker cuts (ground arith) h.0,
    add_marker-Apart distance marker cuts h.1,
  )
]

pub add_marker-count :
    (p : ℕ → Bool) (distance : ℕ) (marker : String) (cuts : List Cut)
    → count_if (λ cut. p cut.at) cuts ≤ count_if (λ cut. p cut.at) (add_marker distance marker cuts)
unfolding add_marker
add_marker-count p distance marker [] = omega arith
add_marker-count p distance marker (cut ∷ cuts) =
    ground (arith, add_marker-count p distance marker cuts)

-- The cuts behind the physical boundaries: they reach from the start to the end of the route, and the
-- tolerance merges none of them.
pub record Spread (total : ℕ) (cuts : List Cut) : Type 0 where
  pub apart : Pairwise Apart cuts
  pub inside : All (λ cut. cut.at ≤ total) cuts
  pub from_start : 1 ≤ count_if (λ cut. eqb cut.at 0) cuts
  pub to_end : 1 ≤ count_if (λ cut. eqb cut.at total) cuts

add_marker-Spread :
    (total distance : ℕ) (marker : String) (cuts : List Cut)
    → distance ≤ total
    → Spread total cuts
    → Spread total (add_marker distance marker cuts)
add_marker-Spread total distance marker cuts h k = record {
  apart = add_marker-Apart distance marker cuts k.apart;
  inside = add_marker-All (λ d. d ≤ total) distance marker cuts h k.inside;
  from_start =
      let c : 1 ≤ count_if (λ cut. eqb cut.at 0) cuts = k.from_start in
      omega (arith, add_marker-count (λ d. eqb d 0) distance marker cuts);
  to_end =
      let c : 1 ≤ count_if (λ cut. eqb cut.at total) cuts = k.to_end in
      omega (arith, add_marker-count (λ d. eqb d total) distance marker cuts);
}

add_boundary-Spread :
    (total : ℕ) (distance : Option ℕ) (marker : String) (cuts : List Cut)
    → within total distance ≡ true
    → Spread total cuts
    → Spread total (add_boundary distance marker cuts)
add_boundary-Spread total none marker cuts h k = k
add_boundary-Spread total (some distance) marker cuts h k =
    add_marker-Spread total distance marker cuts (leb→le distance total h) k

add_boundaries-Spread :
    (total : ℕ) (additional : List RouteBoundary) (cuts : List Cut)
    → All (λ boundary. boundary.distance ≤ total) additional
    → Spread total cuts
    → Spread total (add_boundaries additional cuts)
unfolding add_boundaries
add_boundaries-Spread total [] cuts h k = k
add_boundaries-Spread total (boundary ∷ additional) cuts h k =
    add_boundaries-Spread total additional (add_marker boundary.distance boundary.label cuts) h.1
      (add_marker-Spread total boundary.distance boundary.label cuts h.0 k)

-- The last of rising numbers is the highest, and among them.
Climbs-last :
    (a : ℕ) (xs : List ℕ)
    → Climbs a xs
    → (a ≤ last_of a xs)
      × ((1 ≤ count_if (λ cut. eqb cut.at (last_of a xs)) (map plain_cut (a ∷ xs)))
          × All (λ cut. cut.at ≤ last_of a xs) (map plain_cut (a ∷ xs)))
Climbs-last a [] h = (omega arith, (ground arith, (omega arith, tt)))
Climbs-last a (x ∷ xs) h =
    let later = Climbs-last x xs h.1 in
    let le : x ≤ last_of x xs = later.0 in
    let c = later.1.0 in (omega arith, (ground arith, (omega arith, later.1.1)))

pub physical-Spread : (xs : List ℕ) → Climbs 0 xs → Spread (last_of 0 xs) (map plain_cut (0 ∷ xs))
physical-Spread xs h = record {
  apart = Climbs-Apart 0 xs h;
  inside = (Climbs-last 0 xs h).1.1;
  from_start = ground arith;
  to_end = (Climbs-last 0 xs h).1.0;
}

pub all_cuts-Spread :
    (ends : List ℕ) (rca eoc descent_end : Option ℕ) (additional : List RouteBoundary)
    → Climbs 0 ends
    → within (last_of 0 ends) rca ≡ true
    → within (last_of 0 ends) eoc ≡ true
    → within (last_of 0 ends) descent_end ≡ true
    → All (λ boundary. boundary.distance ≤ last_of 0 ends) additional
    → Spread (last_of 0 ends) (all_cuts (0 ∷ ends) rca eoc descent_end additional)
unfolding all_cuts
all_cuts-Spread ends rca eoc descent_end additional h r e d a =
    let total = last_of 0 ends in
    add_boundaries-Spread total additional _ a (
      add_boundary-Spread total descent_end descent_end_label _ d (
        add_boundary-Spread total eoc eoc_label _ e
          (add_boundary-Spread total rca rca_label _ r (physical-Spread ends h))))
