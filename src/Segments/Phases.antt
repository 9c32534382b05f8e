-- ===== src/Segments/Phases.antt =====
-- application/phase_segments.py: a segment has one phase along its whole length.
use auto_nav_log.Common.{
  All, All-map, All-zip, Bool, Bool-cases, List, Option, [], arith, count_if, false, if◌then◌else◌,
  inl, inr, none, refl, some, subst, sym, true, ℕ, ◌+◌, ◌<◌, ◌∷◌, ◌≡◌, ◌≤◌, ◌⊎◌,
}
use auto_nav_log.Segments.Clearance.{Clear, near, segments_from-Clear}
use auto_nav_log.Segments.Model.{FlightPhase, PhaseSegment, climb, cruise, descent, visual_arrival}
use auto_nav_log.Segments.Partition.{heights, segments_from-far}
use auto_nav_log.Segments.Spacing.{Climbs}
use auto_nav_log.Segments.Split.{
  Pinned, Route, is_before, is_descent, is_visual, phase_at, segment, segments_from,
}

abbrev ClearOf : Option ℕ → PhaseSegment → Type 0
ClearOf none segment = Unit
ClearOf (some distance) segment = Clear distance segment

-- The segment ends at the distance or before it; it starts there or behind it; both up to the tolerance.
abbrev pub EndsBy : Option ℕ → PhaseSegment → Type 0
EndsBy none segment = ⊥
EndsBy (some distance) segment = segment.end_distance ≤ distance + 1

abbrev pub StartsAt : Option ℕ → PhaseSegment → Type 0
StartsAt none segment = ⊥
StartsAt (some distance) segment = distance ≤ segment.start_distance + 1

-- The same, where there is such a distance.
abbrev pub StartsBehind : Option ℕ → PhaseSegment → Type 0
StartsBehind none segment = Unit
StartsBehind (some distance) segment = StartsAt (some distance) segment

abbrev pub OutsideDescent : Option ℕ → Option ℕ → PhaseSegment → Type 0
OutsideDescent (some eoc) (some descent_end) segment =
    EndsBy (some eoc) segment ⊎ StartsAt (some descent_end) segment
OutsideDescent _ _ segment = Unit

-- A climb ends with RCA, and all else starts behind it; a descent lies between EOC and the end of the
-- descent, and no cruise does; a visual arrival starts behind the end of the descent.
abbrev pub Fits : Option ℕ → Option ℕ → Option ℕ → PhaseSegment → FlightPhase → Type 0
Fits rca eoc descent_end segment climb = EndsBy rca segment
Fits rca eoc descent_end segment descent =
    StartsBehind rca segment × (StartsAt eoc segment × EndsBy descent_end segment)
Fits rca eoc descent_end segment visual_arrival =
    StartsBehind rca segment × StartsBehind descent_end segment
Fits rca eoc descent_end segment cruise =
    StartsBehind rca segment × OutsideDescent eoc descent_end segment

abbrev double_of : PhaseSegment → ℕ
double_of segment = segment.start_distance + segment.end_distance

-- What is clear of a distance lies on the side of its middle.
before-EndsBy :
    (distance : Option ℕ) (segment : PhaseSegment)
    → segment.start_distance + 1 < segment.end_distance
    → ClearOf distance segment
    → is_before (double_of segment) distance ≡ true
    → EndsBy distance segment
before-EndsBy none segment h c t = absurd (cc t)
before-EndsBy (some distance) segment h c t = elim c [
  | inl behind ↦ ground arith
  | inr before_it ↦ before_it
]

behind-StartsBehind :
    (distance : Option ℕ) (segment : PhaseSegment)
    → segment.start_distance + 1 < segment.end_distance
    → ClearOf distance segment
    → is_before (double_of segment) distance ≡ false
    → StartsBehind distance segment
behind-StartsBehind none segment h c t = tt
behind-StartsBehind (some distance) segment h c t = elim c [
  | inl behind ↦ behind
  | inr before_it ↦ ground arith
]

descent-Between :
    (eoc descent_end : Option ℕ) (segment : PhaseSegment)
    → segment.start_distance + 1 < segment.end_distance
    → ClearOf eoc segment
    → ClearOf descent_end segment
    → is_descent (double_of segment) eoc descent_end ≡ true
    → StartsAt eoc segment × EndsBy descent_end segment
descent-Between none descent_end segment h c d t = absurd (cc t)
descent-Between (some eoc) none segment h c d t = absurd (cc t)
descent-Between (some eoc) (some descent_end) segment h c d t = (
  elim c [ inl behind ↦ behind | inr before_it ↦ ground arith ],
  elim d [ inl behind ↦ ground arith | inr before_it ↦ before_it ],
)

outside-OutsideDescent :
    (eoc descent_end : Option ℕ) (segment : PhaseSegment)
    → segment.start_distance + 1 < segment.end_distance
    → ClearOf eoc segment
    → ClearOf descent_end segment
    → is_descent (double_of segment) eoc descent_end ≡ false
    → OutsideDescent eoc descent_end segment
outside-OutsideDescent none descent_end segment h c d t = tt
outside-OutsideDescent (some eoc) none segment h c d t = tt
outside-OutsideDescent (some eoc) (some descent_end) segment h c d t = ground arith

visual-StartsBehind :
    (index : ℕ) (descent_end visual_leg : Option ℕ) (segment : PhaseSegment)
    → segment.start_distance + 1 < segment.end_distance
    → ClearOf descent_end segment
    → is_visual (double_of segment) index descent_end visual_leg ≡ true
    → StartsBehind descent_end segment
visual-StartsBehind index none visual_leg segment h d t = tt
visual-StartsBehind index (some descent_end) none segment h d t = absurd (cc t)
visual-StartsBehind index (some descent_end) (some visual_leg) segment h d t = elim d [
  | inl behind ↦ behind
  | inr before_it ↦ ground arith
]

choice-Fits :
    (rca eoc descent_end : Option ℕ) (segment : PhaseSegment) (first second third : Bool)
    → (first ≡ true → Fits rca eoc descent_end segment climb)
    → (first ≡ false → second ≡ true → Fits rca eoc descent_end segment descent)
    → (first ≡ false → third ≡ true → Fits rca eoc descent_end segment visual_arrival)
    → (first ≡ false → second ≡ false → Fits rca eoc descent_end segment cruise)
    → Fits rca eoc descent_end segment (
        if first
        then climb
        else if second
        then descent
        else if third
        then visual_arrival
        else cruise)
choice-Fits rca eoc descent_end segment true second third a b c d = a refl
choice-Fits rca eoc descent_end segment false true third a b c d = b refl refl
choice-Fits rca eoc descent_end segment false false true a b c d = c refl refl
choice-Fits rca eoc descent_end segment false false false a b c d = d refl refl

phase_at-Fits :
    (index : ℕ) (rca eoc descent_end visual_leg : Option ℕ) (segment : PhaseSegment)
    → segment.start_distance + 1 < segment.end_distance
    → ClearOf rca segment
    → ClearOf eoc segment
    → ClearOf descent_end segment
    → Fits rca eoc descent_end segment
        (phase_at (double_of segment) index rca eoc descent_end visual_leg)
unfolding phase_at
phase_at-Fits index rca eoc descent_end visual_leg segment h r e d =
    let double = double_of segment in
    choice-Fits rca eoc descent_end segment (is_before double rca)
      (is_descent double eoc descent_end) (is_visual double index descent_end visual_leg)
      (λ t. before-EndsBy rca segment h r t)
      (λ f t.
        (behind-StartsBehind rca segment h r f, descent-Between eoc descent_end segment h e d t))
      (λ f t. (
        behind-StartsBehind rca segment h r f,
        visual-StartsBehind index descent_end visual_leg segment h d t,
      ))
      (λ f t. (
        behind-StartsBehind rca segment h r f,
        outside-OutsideDescent eoc descent_end segment h e d t,
      ))

module _ (route : Route) where
  segments_from-Fits :
      (sequence : ℕ) (start : Pinned) (ends : List Pinned)
      → Climbs start.0 (heights ends)
      → All
          (λ segment.
            ClearOf route.rca segment
            → ClearOf route.eoc segment
            → ClearOf route.descent_end segment
            → Fits route.rca route.eoc route.descent_end segment segment.phase)
          (segments_from route sequence start ends)
  unfolding segments_from segment
  segments_from-Fits sequence start [] h = tt
  segments_from-Fits sequence start (end ∷ ends) h =
      subst
        (All (λ s.
          ClearOf route.rca s
          → ClearOf route.eoc s
          → ClearOf route.descent_end s
          → Fits route.rca route.eoc route.descent_end s s.phase))
        (sym (segments_from-far route sequence start end ends h.0))
        (
          phase_at-Fits _ route.rca route.eoc route.descent_end route.visual_leg
              (segment route sequence start end) h.0,
          segments_from-Fits (sequence + 1) end ends h.1,
        )

  -- There is a cut at the distance, up to the tolerance.
  abbrev pub NearOf : Option ℕ → List ℕ → Type 0
  NearOf none numbers = Unit
  NearOf (some distance) numbers = 1 ≤ count_if (near distance) numbers

  segments_from-ClearOf :
      (distance : Option ℕ) (start : Pinned) (ends : List Pinned)
      → Climbs start.0 (heights ends)
      → NearOf distance (start.0 ∷ heights ends)
      → All (ClearOf distance) (segments_from route 0 start ends)
  segments_from-ClearOf none start ends h n = all_unit (segments_from route 0 start ends)
    where
      all_unit : (segments : List PhaseSegment) → All (ClearOf none) segments
      all_unit [] = tt
      all_unit (segment ∷ segments) = (tt, all_unit segments)
  segments_from-ClearOf (some distance) start ends h n =
      segments_from-Clear route distance 0 start ends h (elim (Bool-cases (near distance start.0)) [
        | inl here ↦ inl (ground arith)
        | inr elsewhere ↦ inr (ground arith)
      ])

  pub segments_of-Fits :
      (start : Pinned) (ends : List Pinned)
      → Climbs start.0 (heights ends)
      → NearOf route.rca (start.0 ∷ heights ends)
      → NearOf route.eoc (start.0 ∷ heights ends)
      → NearOf route.descent_end (start.0 ∷ heights ends)
      → All
          (λ s. Fits route.rca route.eoc route.descent_end s s.phase)
          (segments_from route 0 start ends)
  segments_of-Fits start ends h r e d =
      let segments = segments_from route 0 start ends in
      All-map (λ s k. k.0 k.1.0 k.1.1.0 k.1.1.1) segments
        (All-zip _ _ segments (segments_from-Fits 0 start ends h) (
          All-zip (ClearOf route.rca) _ segments (segments_from-ClearOf route.rca start ends h r) (
            All-zip (ClearOf route.eoc) (ClearOf route.descent_end) segments
              (segments_from-ClearOf route.eoc start ends h e)
              (segments_from-ClearOf route.descent_end start ends h d))))
