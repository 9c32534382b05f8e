-- ===== src/Segments/Examples.antt =====
-- A route of two legs on which the theorems about the split are applied, and tests of it.
use auto_nav_log.Common.{
  Bool, List, String, [], arith, map, none, refl, some, ℕ, ◌==◌, ◌∷◌, ◌≡◌, ◌+◌,
}
use auto_nav_log.Common.Int.{pos, ℤ}
use auto_nav_log.Common.Result.{Result, err, ok}
use auto_nav_log.Common.Sorting.{sort_by}
use auto_nav_log.Segments.Checks.{
  Measured, first_failure, measure, validate_and_measure_legs, validate_visual_leg,
}
use auto_nav_log.Segments.Cuts.{add_boundaries, add_marker, all_cuts, nearest, snap_eoc}
use auto_nav_log.Segments.Model.{
  not_conserved, FlightPhase, PhaseSegmentation, PhysicalRouteLeg, SegmentationError, climb, cruise,
  descent, visual_arrival,
}
use auto_nav_log.Segments.Phased.{Phased, split_measured-Phased}
use auto_nav_log.Segments.Points.{label_of, place, point_at}
use auto_nav_log.Segments.Snapping.{Snaps, snap_eoc-Snaps}
use auto_nav_log.Segments.Split.{
  phase_at, pin_all, same_point, segment, segments_from, split_measured,
  split_route_into_phase_segments,
}

abbrev first_leg : PhysicalRouteLeg
first_leg = record {
  source_index = pos 0;
  source_id = "a";
  start_name = "RJFM";
  start_latitude = pos 31877000000;
  start_longitude = pos 131448000000;
  end_name = "TURN";
  end_latitude = pos 32100000000;
  end_longitude = pos 131400000000;
  adopted_distance = 20000000000;
  start_node_id = none;
  end_node_id = some "turn";
}

abbrev final_leg : PhysicalRouteLeg
final_leg = record {
  source_index = pos 1;
  source_id = "b";
  start_name = "TURN";
  start_latitude = pos 32100000000;
  start_longitude = pos 131400000000;
  end_name = "RJFO";
  end_latitude = pos 33479000000;
  end_longitude = pos 131737000000;
  adopted_distance = 30000000000;
  start_node_id = some "turn";
  end_node_id = none;
}

abbrev legs : List PhysicalRouteLeg
legs = first_leg ∷ final_leg ∷ []

abbrev along : PhysicalRouteLeg → ℕ → ℤ × ℤ
along leg offset = (leg.start_latitude, leg.start_longitude)

abbrev is_blank : String → Bool
is_blank label = label == ""

abbrev exact_sum : List ℕ → ℕ
exact_sum [] = 0
exact_sum (distance ∷ distances) = distance + exact_sum distances

-- The end of cruise is 0.3 NM behind the turn.
abbrev split : Result SegmentationError PhaseSegmentation
split =
    split_route_into_phase_segments along is_blank exact_sum legs (some 6000000000)
      (some 20300000000) (some 41000000000) (some "b")
      (record { distance = 30000000000; label = "FIR" } ∷ [])

abbrev measured : Measured
measured = (0 ∷ 20000000000 ∷ [], 20000000000 ∷ 50000000000 ∷ [])

split_measured-Phased_example :
    Phased
      (some 6000000000)
      (snap_eoc (some 20300000000) measured.1 (some 41000000000))
      (some 41000000000)
      (split_measured along is_blank exact_sum first_leg legs measured
        (some 6000000000)
        (some 20300000000)
        (some 41000000000)
        (some "b")
        [])
split_measured-Phased_example =
    split_measured-Phased along is_blank exact_sum first_leg legs measured (some 6000000000)
      (some 20300000000) (some 41000000000) (some "b") [] (omega arith, (omega arith, tt))

snap_eoc-Snaps_example :
    (result : ℕ) × ((snap_eoc (some 20300000000) (20000000000 ∷ 50000000000 ∷ []) (some 41000000000)
        ≡ some result)
      × Snaps 20300000000 (20000000000 ∷ 50000000000 ∷ []) (some 41000000000) result)
snap_eoc-Snaps_example =
    snap_eoc-Snaps 20300000000 (20000000000 ∷ 50000000000 ∷ []) (some 41000000000)

abbrev phases_of : Result SegmentationError PhaseSegmentation → List FlightPhase
phases_of (ok result) = map (λ segment. segment.phase) result.segments
phases_of (err failure) = []

abbrev labels_of : Result SegmentationError PhaseSegmentation → List String
labels_of (ok result) = map (λ segment. segment.end.label) result.segments
labels_of (err failure) = []

-- The sum that is checked for conservation may be too far from the total.
conservation_test :
    split_route_into_phase_segments along is_blank
      (λ distances. exact_sum distances + 2)
      legs
      (some 6000000000)
      (some 20300000000)
      (some 41000000000)
      (some "b")
      []
    ≡ err not_conserved
unfolding split_route_into_phase_segments validate_and_measure_legs measure first_failure
    split_measured snap_eoc nearest validate_visual_leg pin_all point_at place label_of all_cuts
    add_boundaries add_marker sort_by segments_from segment phase_at same_point
conservation_test = refl

phases_test : phases_of split ≡ climb ∷ cruise ∷ descent ∷ descent ∷ visual_arrival ∷ []
unfolding split_route_into_phase_segments validate_and_measure_legs measure first_failure
    split_measured snap_eoc nearest validate_visual_leg pin_all point_at place label_of all_cuts
    add_boundaries add_marker sort_by segments_from segment phase_at same_point
phases_test = refl

labels_test : labels_of split ≡ "RCA" ∷ "TURN / EOC" ∷ "FIR" ∷ "DESCENT_END" ∷ "RJFO" ∷ []
unfolding split_route_into_phase_segments validate_and_measure_legs measure first_failure
    split_measured snap_eoc nearest validate_visual_leg pin_all point_at place label_of all_cuts
    add_boundaries add_marker sort_by segments_from segment phase_at same_point
labels_test = refl
