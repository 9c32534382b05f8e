-- ===== src/Segments/Points.antt =====
-- application/phase_segments.py: the point at a cut, and its label.
use auto_nav_log.Common.{
  List, Option, String, [], count_if, if◌then◌else◌, keep_if, leb, length, min, none, not, some,
  suc, zero, ℕ, ◌*◌, ◌++◌, ◌-◌, ◌==◌, ◌∷◌,
}
use auto_nav_log.Common.Int.{ℤ}
use auto_nav_log.Common.Result.{Result, err, ok}
use auto_nav_log.Common.Texts.{join, sort_texts}
use auto_nav_log.Segments.Checks.{one_later}
use auto_nav_log.Segments.Model.{
  Cut, PhysicalRouteLeg, SegmentPoint, SegmentationError, contains, descent_end_label,
  distance_tolerance, eoc_label, gap, marker_order, missing_label,
}

abbrev pub without_text : String → List String → List String
without_text text texts = keep_if (λ other. not (other == text)) texts

-- `dict.fromkeys`: the texts without repetitions, at their first places.
abbrev pub distinct : List String → List String
distinct [] = []
distinct (text ∷ texts) = text ∷ without_text text (distinct texts)

-- `phase_markers + other_markers`
abbrev pub ordered_markers : List String → List String
ordered_markers markers =
    keep_if (λ marker. contains marker markers) marker_order
    ++ sort_texts (keep_if (λ marker. not (contains marker marker_order)) markers)

abbrev pub display_markers : List String → List String
display_markers markers = without_text descent_end_label markers

-- The index of the first boundary at the distance.
abbrev pub boundary_at : ℕ → List ℕ → Option ℕ
boundary_at distance [] = none
boundary_at distance (boundary ∷ boundaries) =
    if leb (gap boundary distance) distance_tolerance
    then some 0
    else one_later (boundary_at distance boundaries)

-- `legs[index]`, where the first leg stands for an index that is too high.
abbrev pub leg_at : ℕ → PhysicalRouteLeg → List PhysicalRouteLeg → PhysicalRouteLeg
leg_at zero first [] = first
leg_at zero first (leg ∷ legs) = leg
leg_at (suc index) first [] = first
leg_at (suc index) first (leg ∷ legs) = leg_at index first legs

-- `bisect_right(starts, distance) - 1`, for twice the distance; the starts ascend.
abbrev pub leg_index : List ℕ → ℕ → ℕ
leg_index starts double =
    min (count_if (λ start. leb (2 * start) double) starts - 1) (length starts - 1)

abbrev pub start_at : ℕ → List ℕ → ℕ
start_at index [] = 0
start_at zero (start ∷ starts) = start
start_at (suc index) (start ∷ starts) = start_at index starts

-- Where a point is, and the name and the node of the physical point there.
pub record Place : Type 0 where
  pub latitude : ℤ
  pub longitude : ℤ
  pub source_name : Option String
  pub source_node_id : Option String

abbrev pub physical_place : PhysicalRouteLeg → List PhysicalRouteLeg → ℕ → Place
physical_place first legs zero = record {
  latitude = first.start_latitude;
  longitude = first.start_longitude;
  source_name = some first.start_name;
  source_node_id = first.start_node_id;
}
physical_place first legs (suc index) =
    let leg = leg_at index first legs in
    record {
      latitude = leg.end_latitude;
      longitude = leg.end_longitude;
      source_name = some leg.end_name;
      source_node_id = leg.end_node_id;
    }

abbrev pub label_or : String → List String → String
label_or name [] = name
label_or name (marker ∷ markers) = join "/" (marker ∷ markers)

-- The label of a point, if there is one.
unfoldable pub label_of : Option String → List String → Option String
label_of (some name) markers =
    if contains eoc_label (display_markers markers)
    then some (
        join " / "
          (distinct (name ∷ without_text eoc_label (display_markers markers) ++ eoc_label ∷ [])))
    else some (label_or name (display_markers markers))
label_of none markers = elim (display_markers markers) [
  | [] ↦ if contains descent_end_label markers then some descent_end_label else none
  | marker ∷ others ↦ some (join "/" (marker ∷ others))
]

abbrev pub labelled : Place → Cut → Option String → Result SegmentationError SegmentPoint
labelled place cut none = err missing_label
labelled place cut (some label) = ok (record {
  label = label;
  latitude = place.latitude;
  longitude = place.longitude;
  along_route_distance = cut.at;
  source_name = place.source_name;
  source_node_id = place.source_node_id;
  markers = ordered_markers cut.markers;
})

-- `along leg offset` is the point of the leg's geodesic at the offset in its adopted distance.
module _ (along : PhysicalRouteLeg → ℕ → ℤ × ℤ) where
  abbrev pub between : PhysicalRouteLeg → ℕ → Place
  between leg offset = record {
    latitude = (along leg offset).0;
    longitude = (along leg offset).1;
    source_name = none;
    source_node_id = none;
  }

  unfoldable pub place : PhysicalRouteLeg → List PhysicalRouteLeg → List ℕ → List ℕ → ℕ → Place
  place first legs starts boundaries distance = elim (boundary_at distance boundaries) [
    | some index ↦ physical_place first legs index
    | none ↦
        between (leg_at (leg_index starts (2 * distance)) first legs)
          (distance - start_at (leg_index starts (2 * distance)) starts)
  ]

  -- `_point_at_distance`
  unfoldable pub point_at :
      PhysicalRouteLeg
      → List PhysicalRouteLeg
      → List ℕ
      → List ℕ
      → Cut
      → Result SegmentationError SegmentPoint
  point_at first legs starts boundaries cut =
      let there = place first legs starts boundaries cut.at in
      labelled there cut (label_of there.source_name (ordered_markers cut.markers))
