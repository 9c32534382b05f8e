-- ===== src/Segments/Cuts.antt =====
-- application/phase_segments.py: the cuts of the route.
use auto_nav_log.Common.{
  Bool, List, Option, String, [], false, if◌then◌else◌, keep_if, leb, ltb, map, none, not, some, ℕ,
  ◌++◌, ◌∷◌,
}
use auto_nav_log.Segments.Model.{
  Cut, RouteBoundary, contains, descent_end_label, distance_tolerance, eoc_label,
  eoc_snap_tolerance, gap, rca_label,
}

-- `_add_boundary`, where there is one.
unfoldable pub add_marker : ℕ → String → List Cut → List Cut
add_marker distance marker [] = record { at = distance; markers = marker ∷ [] } ∷ []
add_marker distance marker (cut ∷ cuts) =
    if leb (gap cut.at distance) distance_tolerance
    then record cut {
      markers = if contains marker cut.markers then cut.markers else cut.markers ++ marker ∷ [];
    }
      ∷ cuts
    else cut ∷ add_marker distance marker cuts

abbrev pub add_boundary : Option ℕ → String → List Cut → List Cut
add_boundary none marker cuts = cuts
add_boundary (some distance) marker cuts = add_marker distance marker cuts

unfoldable pub add_boundaries : List RouteBoundary → List Cut → List Cut
add_boundaries [] cuts = cuts
add_boundaries (boundary ∷ boundaries) cuts =
    add_boundaries boundaries (add_marker boundary.distance boundary.label cuts)

abbrev pub plain_cut : ℕ → Cut
plain_cut distance = record { at = distance; markers = [] }

-- The cuts before they are sorted.
unfoldable pub all_cuts : List ℕ → Option ℕ → Option ℕ → Option ℕ → List RouteBoundary → List Cut
all_cuts boundaries rca eoc descent_end additional = add_boundaries additional (
    add_boundary descent_end descent_end_label
      (add_boundary eoc eoc_label (add_boundary rca rca_label (map plain_cut boundaries))))

-- The boundaries between two legs: all but the first and the last.
abbrev pub but_last : List ℕ → List ℕ
but_last [] = []
but_last (x ∷ []) = []
but_last (x ∷ y ∷ xs) = x ∷ but_last (y ∷ xs)

abbrev pub is_excluded : Option ℕ → ℕ → Bool
is_excluded none boundary = false
is_excluded (some excluded) boundary = leb (gap boundary excluded) distance_tolerance

-- `min(candidates, key=…)`: the first of the nearest.
abbrev pub nearer : ℕ → ℕ → Option ℕ → ℕ
nearer distance boundary none = boundary
nearer distance boundary (some other) =
    if leb (gap boundary distance) (gap other distance) then boundary else other

unfoldable pub nearest : ℕ → List ℕ → Option ℕ
nearest distance [] = none
nearest distance (boundary ∷ boundaries) =
    some (nearer distance boundary (nearest distance boundaries))

abbrev pub snapped : ℕ → Option ℕ → ℕ
snapped distance none = distance
snapped distance (some boundary) =
    if ltb (gap boundary distance) eoc_snap_tolerance then boundary else distance

-- `_snap_eoc_to_physical_turn`; the boundaries are those behind the first.
unfoldable pub snap_eoc : Option ℕ → List ℕ → Option ℕ → Option ℕ
snap_eoc none ends descent_end = none
snap_eoc (some distance) ends descent_end = some (
    snapped distance (
      nearest distance
        (keep_if (λ boundary. not (is_excluded descent_end boundary)) (but_last ends))))
