-- ===== src/Segments/Checks.antt =====
-- application/phase_segments.py: the checks of the legs and of the boundaries.
use auto_nav_log.Common.{
  Bool, List, Option, String, [], any, eqb, false, if◌then◌else◌, leb, length, ltb, none, not, some,
  true, ℕ, ◌&&◌, ◌+◌, ◌==◌, ◌∷◌,
}
use auto_nav_log.Common.Int.{negsuc, pos, ℤ}
use auto_nav_log.Common.Result.{Result, err, ok}
use auto_nav_log.Segments.Model.{
  PhysicalRouteLeg, RouteBoundary, SegmentationError, boundary_label, boundary_not_inside, contains,
  coordinate_tolerance, descent_incomplete, difference, distance_tolerance, empty_name,
  eoc_behind_descent_end, identical_endpoints, invalid_coordinates, magnitude, marker_order,
  negative_index, no_distance, no_leg, no_visual_leg, not_contiguous_legs, outside_route,
  phases_overlap, rca_at_start, repeated_id, repeated_index, visual_leg_not_final,
}

-- `starts` and the boundaries behind the first.
abbrev pub Measured : Type 0
Measured = List ℕ × List ℕ

abbrev pub valid_coordinate : ℤ → ℤ → Bool
valid_coordinate latitude longitude =
    leb (magnitude latitude) 90000000000 && leb (magnitude longitude) 180000000000

abbrev pub coordinates_equal : ℤ → ℤ → ℤ → ℤ → Bool
coordinates_equal latitude longitude other_latitude other_longitude =
    leb (difference latitude other_latitude) coordinate_tolerance
    && leb (difference longitude other_longitude) coordinate_tolerance

-- A check, and why it refuses.
abbrev pub Check : Type 0
Check = Bool × SegmentationError

-- The first check that refuses.
unfoldable pub first_failure : List Check → Option SegmentationError
first_failure [] = none
first_failure ((true, failure) ∷ checks) = first_failure checks
first_failure ((false, failure) ∷ checks) = some failure

abbrev pub is_negative : ℤ → Bool
is_negative (pos n) = false
is_negative (negsuc n) = true

abbrev pub follows : Option PhysicalRouteLeg → PhysicalRouteLeg → Bool
follows none leg = true
follows (some previous) leg =
    coordinates_equal previous.end_latitude previous.end_longitude leg.start_latitude
      leg.start_longitude

-- The checks of one leg, in their order; the sets of what came before are lists.
abbrev pub leg_checks :
    List ℕ → List String → Option PhysicalRouteLeg → PhysicalRouteLeg → List Check
leg_checks indices ids previous leg =
    (not (is_negative leg.source_index), negative_index)
    ∷ (not (any (λ index. eqb index (magnitude leg.source_index)) indices), repeated_index)
    ∷ (not (contains leg.source_id ids), repeated_id)
    ∷ (not (leg.start_name == "") && not (leg.end_name == ""), empty_name)
    ∷ (valid_coordinate leg.start_latitude leg.start_longitude, invalid_coordinates)
    ∷ (valid_coordinate leg.end_latitude leg.end_longitude, invalid_coordinates)
    ∷ (ltb 0 leg.adopted_distance, no_distance)
    ∷ (
      not (
          coordinates_equal leg.start_latitude leg.start_longitude leg.end_latitude
            leg.end_longitude),
      identical_endpoints,
    )
    ∷ (follows previous leg, not_contiguous_legs)
    ∷ []

abbrev pub prepend : ℕ → ℕ → Result SegmentationError Measured → Result SegmentationError Measured
prepend start end (ok (starts, ends)) = ok (start ∷ starts, end ∷ ends)
prepend start end (err failure) = err failure

unfoldable pub measure :
    List ℕ
    → List String
    → Option PhysicalRouteLeg
    → ℕ
    → List PhysicalRouteLeg
    → Result SegmentationError Measured
measure indices ids previous start [] = ok ([], [])
measure indices ids previous start (leg ∷ legs) =
    elim (first_failure (leg_checks indices ids previous leg)) [
      | some failure ↦ err failure
      | none ↦ prepend start (start + leg.adopted_distance) (
          measure (magnitude leg.source_index ∷ indices) (leg.source_id ∷ ids) (some leg)
            (start + leg.adopted_distance) legs)
    ]

-- `_validate_and_measure_legs`, with the boundaries behind the first, which is 0.
unfoldable pub validate_and_measure_legs : List PhysicalRouteLeg → Result SegmentationError Measured
validate_and_measure_legs [] = err no_leg
validate_and_measure_legs (leg ∷ legs) = measure [] [] none 0 (leg ∷ legs)

abbrev pub within : ℕ → Option ℕ → Bool
within total none = true
within total (some distance) = leb distance total

abbrev pub rca_started : Option ℕ → Bool
rca_started none = true
rca_started (some rca) = ltb 0 rca

abbrev pub together : Option ℕ → Option ℕ → Bool
together none none = true
together (some eoc) (some descent_end) = true
together _ _ = false

abbrev pub before : Option ℕ → Option ℕ → Bool
before (some first) (some second) = ltb first second
before _ _ = true

abbrev pub not_behind : Option ℕ → Option ℕ → Bool
not_behind (some first) (some second) = leb first second
not_behind _ _ = true

-- `_validate_phase_boundaries`
abbrev pub phase_boundary_checks : ℕ → Option ℕ → Option ℕ → Option ℕ → List Check
phase_boundary_checks total rca eoc descent_end =
    (within total rca, outside_route)
    ∷ (within total eoc, outside_route)
    ∷ (within total descent_end, outside_route)
    ∷ (rca_started rca, rca_at_start)
    ∷ (together eoc descent_end, descent_incomplete)
    ∷ (before eoc descent_end, eoc_behind_descent_end)
    ∷ (not_behind rca eoc, phases_overlap)
    ∷ []

-- `_validate_additional_boundaries`; `is_blank` says that nothing is left of a text by `strip`.
abbrev pub additional_checks : (String → Bool) → ℕ → List RouteBoundary → List Check
additional_checks is_blank total [] = []
additional_checks is_blank total (boundary ∷ boundaries) =
    (
      ltb distance_tolerance boundary.distance
          && ltb (boundary.distance + distance_tolerance) total,
      boundary_not_inside,
    )
    ∷ (not (is_blank boundary.label) && not (contains boundary.label marker_order), boundary_label)
    ∷ additional_checks is_blank total boundaries

abbrev pub one_later : Option ℕ → Option ℕ
one_later none = none
one_later (some index) = some (index + 1)

-- The index of the first leg with the id.
abbrev pub position_of : String → List PhysicalRouteLeg → Option ℕ
position_of id [] = none
position_of id (leg ∷ legs) =
    if leg.source_id == id then some 0 else one_later (position_of id legs)

abbrev pub final_only : ℕ → Option ℕ → Result SegmentationError (Option ℕ)
final_only count none = err no_visual_leg
final_only count (some index) =
    if eqb (index + 1) count then ok (some index) else err visual_leg_not_final

-- `_validate_visual_leg`
unfoldable pub validate_visual_leg :
    List PhysicalRouteLeg → Option String → Result SegmentationError (Option ℕ)
validate_visual_leg legs none = ok none
validate_visual_leg legs (some id) = final_only (length legs) (position_of id legs)
