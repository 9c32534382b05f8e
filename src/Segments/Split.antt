-- ===== src/Segments/Split.antt =====
-- application/phase_segments.py: the segments between the cuts, and the split of a route into them.
use auto_nav_log.Common.{
  Bool, List, Option, String, [], any, eqb, false, if◌then◌else◌, leb, ltb, none, some, true, ℕ,
  ◌&&◌, ◌*◌, ◌+◌, ◌-◌, ◌==◌, ◌∷◌, map,
}
use auto_nav_log.Common.Int.{ℤ}
use auto_nav_log.Common.Result.{Result, err, ok, ◌>>=◌}
use auto_nav_log.Common.Sorting.{sort_by}
use auto_nav_log.Segments.Checks.{
  Check, Measured, additional_checks, first_failure, phase_boundary_checks,
  validate_and_measure_legs, validate_visual_leg,
}
use auto_nav_log.Segments.Cuts.{all_cuts, snap_eoc}
use auto_nav_log.Segments.Model.{
  Cut, FlightPhase, PhaseSegment, PhaseSegmentation, PhysicalRouteLeg, RouteBoundary, SegmentPoint,
  SegmentationError, climb, contains, cruise, descent, descent_end_label, difference,
  distance_tolerance, eoc_label, gap, no_leg, no_visual_distance, not_conserved, not_contiguous,
  rca_label, visual_arrival,
}
use auto_nav_log.Segments.Points.{leg_at, leg_index, point_at}

abbrev pub is_before : ℕ → Option ℕ → Bool
is_before double none = false
is_before double (some rca) = ltb double (2 * rca)

abbrev pub is_descent : ℕ → Option ℕ → Option ℕ → Bool
is_descent double (some eoc) (some descent_end) =
    leb (2 * eoc) double && ltb double (2 * descent_end)
is_descent double _ _ = false

abbrev pub is_behind : ℕ → Option ℕ → Bool
is_behind double none = true
is_behind double (some descent_end) = leb (2 * descent_end) double

abbrev pub is_visual : ℕ → ℕ → Option ℕ → Option ℕ → Bool
is_visual double index descent_end none = false
is_visual double index descent_end (some visual_leg) =
    eqb index visual_leg && is_behind double descent_end

-- `_phase_at_distance`, at half of a distance.
unfoldable pub phase_at : ℕ → ℕ → Option ℕ → Option ℕ → Option ℕ → Option ℕ → FlightPhase
phase_at double index rca eoc descent_end visual_leg =
    if is_before double rca
    then climb
    else if is_descent double eoc descent_end
    then descent
    else if is_visual double index descent_end visual_leg
    then visual_arrival
    else cruise

-- The inputs of a split that its segments depend on, behind the checks.
pub record Route : Type 0 where
  pub first : PhysicalRouteLeg
  pub legs : List PhysicalRouteLeg
  pub starts : List ℕ
  pub rca : Option ℕ
  pub eoc : Option ℕ
  pub descent_end : Option ℕ
  pub visual_leg : Option ℕ

-- A cut with its point; the cuts have different distances, so that a dictionary by distance holds the same.
abbrev pub Pinned : Type 0
Pinned = ℕ × SegmentPoint

unfoldable pub segment : Route → ℕ → Pinned → Pinned → PhaseSegment
segment route sequence start end =
    let index = leg_index route.starts (start.0 + end.0) in
    let leg = leg_at index route.first route.legs in
    record {
      sequence = sequence;
      source_index = leg.source_index;
      source_id = leg.source_id;
      phase =
          phase_at (start.0 + end.0) index route.rca route.eoc route.descent_end route.visual_leg;
      start = start.1;
      end = end.1;
      start_distance = start.0;
      end_distance = end.0;
      distance = end.0 - start.0;
    }

-- The loop over the cuts; where two are too close, nothing stands between them.
unfoldable pub segments_from : Route → ℕ → Pinned → List Pinned → List PhaseSegment
segments_from route sequence start [] = []
segments_from route sequence start (end ∷ ends) = elim (leb (end.0 - start.0) distance_tolerance) [
  | true ↦ segments_from route sequence end ends
  | false ↦ segment route sequence start end ∷ segments_from route (sequence + 1) end ends
]

abbrev pub segments_of : Route → List Pinned → List PhaseSegment
segments_of route [] = []
segments_of route (start ∷ ends) = segments_from route 0 start ends

-- Which distances are summed; the sum of floats is a parameter of the split, since it rounds.
abbrev pub distances_of : List PhaseSegment → List ℕ
distances_of segments = map (λ segment. segment.distance) segments

abbrev pub same_text : Option String → Option String → Bool
same_text none none = true
same_text (some a) (some b) = a == b
same_text _ _ = false

abbrev pub same_texts : List String → List String → Bool
same_texts [] [] = true
same_texts (a ∷ texts) (b ∷ others) = a == b && same_texts texts others
same_texts _ _ = false

-- Equality of points, field by field.
unfoldable pub same_point : SegmentPoint → SegmentPoint → Bool
same_point a b =
    a.label == b.label
    && (eqb (difference a.latitude b.latitude) 0
        && (eqb (difference a.longitude b.longitude) 0
            && (eqb a.along_route_distance b.along_route_distance
                && (same_text a.source_name b.source_name
                    && (same_text a.source_node_id b.source_node_id
                        && same_texts a.markers b.markers)))))

abbrev pub contiguous_from : PhaseSegment → List PhaseSegment → Bool
contiguous_from previous [] = true
contiguous_from previous (segment ∷ segments) =
    same_point previous.end segment.start && contiguous_from segment segments

abbrev pub contiguous : List PhaseSegment → Bool
contiguous [] = true
contiguous (segment ∷ segments) = contiguous_from segment segments

abbrev pub is_visual_phase : FlightPhase → Bool
is_visual_phase visual_arrival = true
is_visual_phase _ = false

abbrev pub visual_flown : Option String → List PhaseSegment → Bool
visual_flown none segments = true
visual_flown (some id) segments = any (λ segment. is_visual_phase segment.phase) segments

-- The checks of the segments.
abbrev pub segment_checks : (List ℕ → ℕ) → ℕ → Option String → List PhaseSegment → List Check
segment_checks float_sum total visual_id segments =
    (leb (gap (float_sum (distances_of segments)) total) distance_tolerance, not_conserved)
    ∷ (contiguous segments, not_contiguous)
    ∷ (visual_flown visual_id segments, no_visual_distance)
    ∷ []

-- The last point with the marker.
abbrev pub marker_point : String → List Pinned → Option SegmentPoint
marker_point marker [] = none
marker_point marker (pinned ∷ points) = elim (marker_point marker points) [
  | some point ↦ some point
  | none ↦ if contains marker pinned.1.markers then some pinned.1 else none
]

abbrev pub last_of : ℕ → List ℕ → ℕ
last_of default [] = default
last_of default (x ∷ xs) = last_of x xs

abbrev pub raised : Option SegmentationError → Result SegmentationError (Unit {0})
raised none = ok tt
raised (some failure) = err failure

abbrev pub refuse : List Check → Result SegmentationError (Unit {0})
refuse checks = raised (first_failure checks)

module _ (along : PhysicalRouteLeg → ℕ → ℤ × ℤ) (is_blank : String → Bool) where
  unfoldable pub pin_all :
      PhysicalRouteLeg
      → List PhysicalRouteLeg
      → List ℕ
      → List ℕ
      → List Cut
      → Result SegmentationError (List Pinned)
  pin_all first legs starts boundaries [] = ok []
  pin_all first legs starts boundaries (cut ∷ cuts) = do
    point ← point_at along first legs starts boundaries cut
    points ← pin_all first legs starts boundaries cuts
    ok ((cut.at, point) ∷ points)

module _ (along : PhysicalRouteLeg → ℕ → ℤ × ℤ) (is_blank : String → Bool)
    (float_sum : List ℕ → ℕ) where
  abbrev pub segmentation :
      Route → ℕ → Option String → List Pinned → Result SegmentationError PhaseSegmentation
  segmentation route total visual_id points = do
    checked ← refuse (segment_checks float_sum total visual_id (segments_of route points))
    ok (record {
      segments = segments_of route points;
      total_distance = total;
      rca_point = marker_point rca_label points;
      eoc_point = marker_point eoc_label points;
      descent_end_point = marker_point descent_end_label points;
    })

  -- `split_route_into_phase_segments`
  unfoldable pub split_measured :
      PhysicalRouteLeg
      → List PhysicalRouteLeg
      → Measured
      → Option ℕ
      → Option ℕ
      → Option ℕ
      → Option String
      → List RouteBoundary
      → Result SegmentationError PhaseSegmentation
  split_measured first legs measured rca eoc descent_end visual_id additional = do
    let total = last_of 0 measured.1
    let snapped_eoc = snap_eoc eoc measured.1 descent_end
    boundaries_checked ← refuse (phase_boundary_checks total rca snapped_eoc descent_end)
    additional_checked ← refuse (additional_checks is_blank total additional)
    visual_leg ← validate_visual_leg legs visual_id
    points ←
        pin_all along is_blank first legs measured.0 (0 ∷ measured.1) (
          sort_by (λ cut. cut.at)
            (all_cuts (0 ∷ measured.1) rca snapped_eoc descent_end additional))
    segmentation
        (record {
          first = first;
          legs = legs;
          starts = measured.0;
          rca = rca;
          eoc = snapped_eoc;
          descent_end = descent_end;
          visual_leg = visual_leg;
        })
        total visual_id points

  unfoldable pub split_route_into_phase_segments :
      List PhysicalRouteLeg
      → Option ℕ
      → Option ℕ
      → Option ℕ
      → Option String
      → List RouteBoundary
      → Result SegmentationError PhaseSegmentation
  split_route_into_phase_segments [] rca eoc descent_end visual_id additional = err no_leg
  split_route_into_phase_segments (first ∷ legs) rca eoc descent_end visual_id additional = do
    measured ← validate_and_measure_legs (first ∷ legs)
    split_measured first (first ∷ legs) measured rca eoc descent_end visual_id additional
