-- ===== src/Segments/Model.antt =====
-- application/phase_segments.py: its data. Distances are whole numbers of 10^-9 NM, the code's tolerance,
-- coordinates whole numbers of 10^-9 degrees. UUIDs are texts.
use auto_nav_log.Common.{Bool, List, Option, String, [], any, ℕ, ◌+◌, ◌-◌, ◌==◌, ◌∷◌}
use auto_nav_log.Common.Int.{negsuc, pos, ℤ}

pub data FlightPhase : Type 0 where
  climb cruise descent visual_arrival : FlightPhase

-- The reasons that PhaseSegmentationError gives.
pub data SegmentationError : Type 0 where
  no_leg negative_index repeated_index repeated_id empty_name invalid_coordinates no_distance :
      SegmentationError
  identical_endpoints not_contiguous_legs outside_route rca_at_start descent_incomplete :
      SegmentationError
  eoc_behind_descent_end phases_overlap boundary_not_inside boundary_label no_visual_leg :
      SegmentationError
  visual_leg_not_final missing_label not_conserved not_contiguous no_visual_distance :
      SegmentationError

pub record PhysicalRouteLeg : Type 0 where
  pub source_index : ℤ
  pub source_id : String
  pub start_name : String
  pub start_latitude : ℤ
  pub start_longitude : ℤ
  pub end_name : String
  pub end_latitude : ℤ
  pub end_longitude : ℤ
  pub adopted_distance : ℕ
  pub start_node_id : Option String
  pub end_node_id : Option String

pub record RouteBoundary : Type 0 where
  pub distance : ℕ
  pub label : String

pub record SegmentPoint : Type 0 where
  pub label : String
  pub latitude : ℤ
  pub longitude : ℤ
  pub along_route_distance : ℕ
  pub source_name : Option String
  pub source_node_id : Option String
  pub markers : List String

pub record PhaseSegment : Type 0 where
  pub sequence : ℕ
  pub source_index : ℤ
  pub source_id : String
  pub phase : FlightPhase
  pub start : SegmentPoint
  pub end : SegmentPoint
  pub start_distance : ℕ
  pub end_distance : ℕ
  pub distance : ℕ

pub record PhaseSegmentation : Type 0 where
  pub segments : List PhaseSegment
  pub total_distance : ℕ
  pub rca_point : Option SegmentPoint
  pub eoc_point : Option SegmentPoint
  pub descent_end_point : Option SegmentPoint

-- A cut of the route with its markers.
pub record Cut : Type 0 where
  pub at : ℕ
  pub markers : List String

abbrev pub distance_tolerance : ℕ
distance_tolerance = 1

abbrev pub coordinate_tolerance : ℕ
coordinate_tolerance = 1

abbrev pub eoc_snap_tolerance : ℕ
eoc_snap_tolerance = 500000000

abbrev pub rca_label : String
rca_label = "RCA"

abbrev pub eoc_label : String
eoc_label = "EOC"

abbrev pub descent_end_label : String
descent_end_label = "DESCENT_END"

abbrev pub marker_order : List String
marker_order = rca_label ∷ eoc_label ∷ descent_end_label ∷ []

-- `abs(a - b)`
abbrev pub gap : ℕ → ℕ → ℕ
gap a b = (a - b) + (b - a)

abbrev pub difference : ℤ → ℤ → ℕ
difference (pos a) (pos b) = gap a b
difference (negsuc a) (negsuc b) = gap a b
difference (pos a) (negsuc b) = a + b + 1
difference (negsuc a) (pos b) = a + b + 1

abbrev pub magnitude : ℤ → ℕ
magnitude (pos a) = a
magnitude (negsuc a) = a + 1

abbrev pub contains : String → List String → Bool
contains text texts = any (λ other. other == text) texts
