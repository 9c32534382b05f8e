-- ===== src/Segments/Phased.antt =====
-- application/phase_segments.py: the segments of a split fit their phases.
use auto_nav_log.Common.{
  All, Bool, List, Option, String, [], arith, count_if, map, none, refl, some, subst, sym, true, ℕ,
  ◌∷◌, ◌≡◌, ◌≤◌,
}
use auto_nav_log.Common.Int.{ℤ}
use auto_nav_log.Common.Result.{Result, err, ok, ◌>>=◌}
use auto_nav_log.Common.Sorting.{Ascending, count_if-sort_by, sort_by, sort_by-Ascending}
use auto_nav_log.Segments.Checks.{
  Check, Measured, additional_checks, first_failure, phase_boundary_checks, validate_visual_leg,
}
use auto_nav_log.Segments.Clearance.{near}
use auto_nav_log.Segments.Cuts.{
  add_boundaries, add_boundary, add_marker, all_cuts, plain_cut, snap_eoc,
}
use auto_nav_log.Segments.Model.{
  Cut, PhaseSegmentation, PhysicalRouteLeg, RouteBoundary, SegmentationError, descent_end_label,
  eoc_label, rca_label,
}
use auto_nav_log.Segments.Partition.{heights, sorted-Climbs}
use auto_nav_log.Segments.Phases.{Fits, NearOf, segments_of-Fits}
use auto_nav_log.Segments.Spacing.{
  Climbs, Spread, add_marker-count, additional_checks-inside, all_cuts-Spread, ats,
  first_failure-none,
}
use auto_nav_log.Segments.Split.{
  Pinned, Route, last_of, pin_all, raised, refuse, segment_checks, segmentation, segments_from,
  split_measured,
}
use auto_nav_log.Segments.Whole.{Pins, pin_all-Pins, sort_by-Spread}

abbrev Marked : Option ℕ → List Cut → Type 0
Marked none cuts = Unit
Marked (some distance) cuts = 1 ≤ count_if (λ cut. near distance cut.at) cuts

add_marker-marks :
    (distance : ℕ) (marker : String) (cuts : List Cut)
    → Marked (some distance) (add_marker distance marker cuts)
unfolding add_marker
add_marker-marks distance marker [] = ground arith
add_marker-marks distance marker (cut ∷ cuts) =
    ground (arith, add_marker-marks distance marker cuts)

add_boundary-marks :
    (distance : Option ℕ) (marker : String) (cuts : List Cut)
    → Marked distance (add_boundary distance marker cuts)
add_boundary-marks none marker cuts = tt
add_boundary-marks (some distance) marker cuts = add_marker-marks distance marker cuts

add_marker-Marked :
    (wanted : Option ℕ) (distance : ℕ) (marker : String) (cuts : List Cut)
    → Marked wanted cuts
    → Marked wanted (add_marker distance marker cuts)
add_marker-Marked none distance marker cuts h = tt
add_marker-Marked (some wanted) distance marker cuts h =
    omega (arith, add_marker-count (near wanted) distance marker cuts)

add_boundary-Marked :
    (wanted distance : Option ℕ) (marker : String) (cuts : List Cut)
    → Marked wanted cuts
    → Marked wanted (add_boundary distance marker cuts)
add_boundary-Marked wanted none marker cuts h = h
add_boundary-Marked wanted (some distance) marker cuts h =
    add_marker-Marked wanted distance marker cuts h

add_boundaries-Marked :
    (wanted : Option ℕ) (additional : List RouteBoundary) (cuts : List Cut)
    → Marked wanted cuts
    → Marked wanted (add_boundaries additional cuts)
unfolding add_boundaries
add_boundaries-Marked wanted [] cuts h = h
add_boundaries-Marked wanted (boundary ∷ additional) cuts h =
    add_boundaries-Marked wanted additional (add_marker boundary.distance boundary.label cuts)
      (add_marker-Marked wanted boundary.distance boundary.label cuts h)

all_cuts-Marked :
    (boundaries : List ℕ) (rca eoc descent_end : Option ℕ) (additional : List RouteBoundary)
    → Marked rca (all_cuts boundaries rca eoc descent_end additional)
      × (Marked eoc (all_cuts boundaries rca eoc descent_end additional)
          × Marked descent_end (all_cuts boundaries rca eoc descent_end additional))
unfolding all_cuts
all_cuts-Marked boundaries rca eoc descent_end additional =
    let with_rca = add_boundary rca rca_label (map plain_cut boundaries) in
    let with_eoc = add_boundary eoc eoc_label with_rca in
    let with_end = add_boundary descent_end descent_end_label with_eoc in
    (
      add_boundaries-Marked rca additional with_end (
          add_boundary-Marked rca descent_end descent_end_label with_eoc (
            add_boundary-Marked rca eoc eoc_label with_rca
              (add_boundary-marks rca rca_label (map plain_cut boundaries)))),
      (
        add_boundaries-Marked eoc additional with_end (
            add_boundary-Marked eoc descent_end descent_end_label with_eoc
              (add_boundary-marks eoc eoc_label with_rca)),
        add_boundaries-Marked descent_end additional with_end
            (add_boundary-marks descent_end descent_end_label with_eoc),
      ),
    )

sort_by-Marked :
    (wanted : Option ℕ) (cuts : List Cut)
    → Marked wanted cuts
    → Marked wanted (sort_by (λ cut. cut.at) cuts)
sort_by-Marked none cuts h = tt
sort_by-Marked (some distance) cuts h =
    rw (count_if-sort_by (λ cut. cut.at) (λ cut. near distance cut.at) cuts) h

ats-count :
    (p : ℕ → Bool) (cuts : List Cut) → count_if p (ats cuts) ≡ count_if (λ cut. p cut.at) cuts
ats-count p [] = refl
ats-count p (cut ∷ cuts) = ground (arith, ats-count p cuts)

ats-NearOf :
    (route : Route) (wanted : Option ℕ) (cuts : List Cut)
    → Marked wanted cuts
    → NearOf route wanted (ats cuts)
ats-NearOf route none cuts h = tt
ats-NearOf route (some distance) cuts h = rw (ats-count (near distance) cuts) h

-- Each segment fits its phase.
abbrev pub Phased :
    Option ℕ → Option ℕ → Option ℕ → Result SegmentationError PhaseSegmentation → Type 0
Phased rca eoc descent_end (ok result) =
    All (λ segment. Fits rca eoc descent_end segment segment.phase) result.segments
Phased rca eoc descent_end (err failure) = Unit

module _ (rca eoc descent_end : Option ℕ) where
  after-Phased :
      {A : Type 0} (r : Result SegmentationError A)
      (f : A → Result SegmentationError PhaseSegmentation)
      → ((a : A) → r ≡ ok a → Phased rca eoc descent_end (f a))
      → Phased rca eoc descent_end (r >>= f)
  after-Phased (ok a) f h = h a refl
  after-Phased (err failure) f h = tt

refused-none : (checks : List Check) → refuse checks ≡ ok tt → All (λ check. check.0 ≡ true) checks
refused-none checks h = first_failure-none checks (raised_none (first_failure checks) h)
  where
    raised_none : (failure : Option SegmentationError) → raised failure ≡ ok tt → failure ≡ none
    raised_none none h = refl
    raised_none (some failure) h = absurd (cc h)

pinned-Phased :
    (along : PhysicalRouteLeg → ℕ → ℤ × ℤ) (is_blank : String → Bool) (float_sum : List ℕ → ℕ)
    (route : Route) (total : ℕ) (visual_id : Option String) (cuts : List Cut)
    → Ascending (λ cut. cut.at) cuts
    → Spread total cuts
    → Marked route.rca cuts
    → Marked route.eoc cuts
    → Marked route.descent_end cuts
    → (points : List Pinned) → heights points ≡ ats cuts
    → Phased route.rca route.eoc route.descent_end
        (segmentation along is_blank float_sum route total visual_id points)
pinned-Phased along is_blank float_sum route total visual_id cuts h k r e d [] p =
    after-Phased route.rca route.eoc route.descent_end
      (refuse (segment_checks float_sum total visual_id [])) _ (λ _ _. tt)
pinned-Phased along is_blank float_sum route total visual_id [] h k r e d (start ∷ ends) p =
    absurd (cc p)
pinned-Phased along is_blank float_sum route total visual_id (cut ∷ cuts) h k r e d (start ∷ ends)
      p =
    let height : start.0 ≡ cut.at = cc p in
    let heights_there : heights ends ≡ ats cuts = cc p in
    let climbs : Climbs start.0 (heights ends) =
      rw (height, heights_there) (sorted-Climbs cut cuts h k.apart) in
    let at_points : (wanted : Option ℕ)
        → Marked wanted (cut ∷ cuts)
        → NearOf route wanted (start.0 ∷ heights ends) =
      λ wanted m. subst (NearOf route wanted) (sym p) (ats-NearOf route wanted (cut ∷ cuts) m) in
    after-Phased route.rca route.eoc route.descent_end
      (refuse (segment_checks float_sum total visual_id (segments_from route 0 start ends))) _
      (λ _ _.
        segments_of-Fits route start ends climbs (at_points route.rca r) (at_points route.eoc e)
          (at_points route.descent_end d))

module _ (along : PhysicalRouteLeg → ℕ → ℤ × ℤ) (is_blank : String → Bool)
    (float_sum : List ℕ → ℕ) where
  -- Where the measured legs are longer than the tolerance, each segment of a split has one phase along its
  -- whole length, up to the tolerance: a climb ends at RCA or before it and all else starts behind it, a
  -- descent lies between EOC, as it was snapped, and the descent's end, and no cruise does, and a visual
  -- arrival starts behind the descent's end.
  pub split_measured-Phased :
      (first : PhysicalRouteLeg) (legs : List PhysicalRouteLeg) (measured : Measured)
      (rca eoc descent_end : Option ℕ) (visual_id : Option String) (additional : List RouteBoundary)
      → Climbs 0 measured.1
      → Phased rca (snap_eoc eoc measured.1 descent_end) descent_end (
          split_measured along is_blank float_sum first legs measured rca eoc descent_end visual_id
            additional)
  unfolding split_measured
  split_measured-Phased first legs measured rca eoc descent_end visual_id additional climbs =
      let total = last_of 0 measured.1 in
      let snapped_eoc = snap_eoc eoc measured.1 descent_end in
      let cuts = all_cuts (0 ∷ measured.1) rca snapped_eoc descent_end additional in
      let sorted = sort_by (λ cut. cut.at) cuts in
      let marked = all_cuts-Marked (0 ∷ measured.1) rca snapped_eoc descent_end additional in
      after-Phased rca snapped_eoc descent_end
        (refuse (phase_boundary_checks total rca snapped_eoc descent_end)) _
        (λ _ boundaries_hold.
          after-Phased rca snapped_eoc descent_end
            (refuse (additional_checks is_blank total additional)) _
            (λ _ additional_hold.
              after-Phased rca snapped_eoc descent_end (validate_visual_leg legs visual_id) _
                (λ visual_leg _.
                  after-Phased rca snapped_eoc descent_end
                    (pin_all along is_blank first legs measured.0 (0 ∷ measured.1) sorted) _
                    (λ points pinned.
                      let inside =
                        refused-none (phase_boundary_checks total rca snapped_eoc descent_end)
                          boundaries_hold in
                      let spread : Spread total cuts =
                        all_cuts-Spread measured.1 rca snapped_eoc descent_end additional climbs
                          inside.0 inside.1.0 inside.1.1.0
                          (additional_checks-inside is_blank total additional (
                            refused-none (additional_checks is_blank total additional)
                              additional_hold)) in
                      pinned-Phased along is_blank float_sum _ total visual_id sorted
                        (sort_by-Ascending (λ cut. cut.at) cuts) (sort_by-Spread total cuts spread)
                        (sort_by-Marked rca cuts marked.0)
                        (sort_by-Marked snapped_eoc cuts marked.1.0)
                        (sort_by-Marked descent_end cuts marked.1.1) points
                        (subst (Pins along is_blank sorted) pinned (
                          pin_all-Pins along is_blank first legs measured.0 (0 ∷ measured.1)
                            sorted))))))
