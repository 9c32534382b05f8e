-- ===== src/Segments/Whole.antt =====
-- application/phase_segments.py: a split covers the whole route.
use auto_nav_log.Common.{
  Bool, List, Option, String, [], ap, arith, eqb, false, none, refl, some, ℕ, ◌∷◌, ◌≡◌, ◌≤◌,
}
use auto_nav_log.Common.Int.{ℤ}
use auto_nav_log.Common.Result.{Result, err, ok, ◌>>=◌}
use auto_nav_log.Common.Sorting.{All-sort_by, count_if-sort_by, sort_by, sort_by-Pairwise}
use auto_nav_log.Segments.Model.{
  Cut, PhaseSegmentation, PhysicalRouteLeg, SegmentPoint, SegmentationError,
}
use auto_nav_log.Segments.Partition.{Partition, heights}
use auto_nav_log.Segments.Points.{Place, labelled, point_at}
use auto_nav_log.Segments.Spacing.{Apart, Spread, ats, is_internal}
use auto_nav_log.Segments.Split.{Pinned, pin_all}

-- The cuts with their points are the cuts.
module _ (along : PhysicalRouteLeg → ℕ → ℤ × ℤ) (is_blank : String → Bool) where
  -- Where all points have a label, they stand at the cuts; without one, the error is not that of contiguity.
  abbrev pub Pins : List Cut → Result SegmentationError (List Pinned) → Type 0
  Pins cuts (ok points) = heights points ≡ ats cuts
  Pins cuts (err failure) = is_internal failure ≡ false

  labelled-quiet :
      (there : Place) (cut : Cut) (label : Option String)
      (f : SegmentPoint → Result SegmentationError (List Pinned)) (cuts : List Cut)
      → ((point : SegmentPoint) → Pins cuts (f point))
      → Pins cuts (labelled there cut label >>= f)
  labelled-quiet there cut none f cuts h = refl
  labelled-quiet there cut (some label) f cuts h = h _

  push-Pins :
      (cut : Cut) (cuts : List Cut) (point : SegmentPoint)
      (r : Result SegmentationError (List Pinned))
      → Pins cuts r
      → Pins (cut ∷ cuts) (r >>= λ points. ok ((cut.at, point) ∷ points))
  push-Pins cut cuts point (ok points) h = ap (λ xs. cut.at ∷ xs) h
  push-Pins cut cuts point (err failure) h = h

  pub pin_all-Pins :
      (first : PhysicalRouteLeg) (legs : List PhysicalRouteLeg) (starts boundaries : List ℕ)
      (cuts : List Cut)
      → Pins cuts (pin_all along is_blank first legs starts boundaries cuts)
  unfolding pin_all point_at
  pin_all-Pins first legs starts boundaries [] = refl
  pin_all-Pins first legs starts boundaries (cut ∷ cuts) =
      labelled-quiet _ cut _ _ (cut ∷ cuts) (λ point.
        push-Pins cut cuts point (pin_all along is_blank first legs starts boundaries cuts)
          (pin_all-Pins first legs starts boundaries cuts))

-- What a split gives: a partition of the whole route; or an error that does not say that the segments are
-- not contiguous.
abbrev pub Sound : Result SegmentationError PhaseSegmentation → Type 0
Sound (ok result) = Partition 0 0 result.total_distance result.segments
Sound (err failure) = is_internal failure ≡ false

at-Apart : (a b : Cut) → Apart a b → Apart b a
at-Apart a b h = omega arith

pub sort_by-Spread :
    (total : ℕ) (cuts : List Cut) → Spread total cuts → Spread total (sort_by (λ cut. cut.at) cuts)
sort_by-Spread total cuts h = record {
  apart = sort_by-Pairwise (λ cut. cut.at) Apart at-Apart cuts h.apart;
  inside = All-sort_by (λ cut. cut.at) (λ cut. cut.at ≤ total) cuts h.inside;
  from_start = rw (count_if-sort_by (λ cut. cut.at) (λ cut. eqb cut.at 0) cuts) h.from_start;
  to_end = rw (count_if-sort_by (λ cut. cut.at) (λ cut. eqb cut.at total) cuts) h.to_end;
}
