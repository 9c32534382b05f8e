-- ===== src/Segments/Snapping.antt =====
-- application/phase_segments.py: how the end of cruise snaps to a turn of the route.
use auto_nav_log.Common.{
  All, All-map, Bool, Bool-cases, List, Option, [], any, ap, arith, eqb, eqb_iff, false,
  if◌then◌else◌, inl, inr, keep_if, leb, ltb, ltb→lt, none, not, refl, some, subst, sym, true, ℕ,
  ◌<◌, ◌∙◌, ◌∷◌, ◌≡◌, ◌≤◌, ◌⊎◌, ltb→ge, ◌||◌,
}
use auto_nav_log.Segments.Cuts.{but_last, is_excluded, nearer, nearest, snap_eoc, snapped}
use auto_nav_log.Segments.Model.{eoc_snap_tolerance, gap}

abbrev has : ℕ → List ℕ → Bool
has number numbers = any (λ other. eqb other number) numbers

-- The result is a nearest turn, strictly within the tolerance; or the distance, where no turn is within it.
-- A turn is a boundary between two legs that is not the descent's end.
abbrev pub Snaps : ℕ → List ℕ → Option ℕ → ℕ → Type 0
Snaps distance ends descent_end result =
    ((any (λ turn. eqb turn result) (but_last ends) ≡ true)
      × ((is_excluded descent_end result ≡ false)
          × ((gap result distance < eoc_snap_tolerance)
              × All
                  (λ turn.
                    is_excluded descent_end turn ≡ false → gap result distance ≤ gap turn distance)
                  (but_last ends))))
    ⊎ ((result ≡ distance)
        × All
            (λ turn. is_excluded descent_end turn ≡ false → eoc_snap_tolerance ≤ gap turn distance)
            (but_last ends))

-- The nearest of some boundaries is one of them, and none is nearer.
abbrev Nearest : ℕ → List ℕ → Option ℕ → Type 0
Nearest distance boundaries none = boundaries ≡ []
Nearest distance boundaries (some result) =
    (has result boundaries ≡ true)
    × All (λ boundary. gap result distance ≤ gap boundary distance) boundaries

nearest-Nearest :
    (distance : ℕ) (boundaries : List ℕ) → Nearest distance boundaries (nearest distance boundaries)
unfolding nearest
nearest-Nearest distance [] = refl
nearest-Nearest distance (boundary ∷ boundaries) =
    add_nearer (nearest distance boundaries) (nearest-Nearest distance boundaries)
  where
    chosen :
        (other : ℕ) (first : Bool)
        → leb (gap boundary distance) (gap other distance) ≡ first
        → Nearest distance boundaries (some other)
        → Nearest distance (boundary ∷ boundaries) (some (if first then boundary else other))
    chosen other true h k = (
      ground arith,
      (
        omega arith,
        All-map (λ b (le : gap other distance ≤ gap b distance). ground arith) boundaries k.1,
      ),
    )
    chosen other false h k =
        (let there : has other boundaries ≡ true = k.0 in ground arith, (ground arith, k.1))

    add_nearer :
        (other : Option ℕ)
        → Nearest distance boundaries other
        → Nearest distance (boundary ∷ boundaries) (some (nearer distance boundary other))
    add_nearer none h =
        subst (λ bs. Nearest distance (boundary ∷ bs) (some boundary)) (sym h)
          (ground arith, (omega arith, tt))
    add_nearer (some other) h =
        chosen other (leb (gap boundary distance) (gap other distance)) refl h

has-keep_if :
    (p : ℕ → Bool) (number : ℕ) (numbers : List ℕ)
    → has number (keep_if p numbers) ≡ true
    → (has number numbers ≡ true) × (p number ≡ true)
has-keep_if p number [] h = absurd (cc h)
has-keep_if p number (other ∷ numbers) h = elim (Bool-cases (p other)) [
  | inl kept ↦
      let h' : (eqb other number || has number (keep_if p numbers)) ≡ true = rw kept at h in
      elim (Bool-cases (eqb other number)) [
        | inl here ↦ (rw here refl, subst (λ n. p n ≡ true) ((eqb_iff other number).0 here) kept)
        | inr elsewhere ↦
            let h2 : has number (keep_if p numbers) ≡ true = rw elsewhere at h' in
            let later = has-keep_if p number numbers h2 in (rw elsewhere later.0, later.1)
      ]
  | inr dropped ↦
      let h' : has number (keep_if p numbers) ≡ true = rw dropped at h in
      let later = has-keep_if p number numbers h' in
      (let there : has number numbers ≡ true = later.0 in ground arith, later.1)
]

All-of_keep_if :
    (p : ℕ → Bool) (Q : ℕ → Type 0) (numbers : List ℕ)
    → All Q (keep_if p numbers)
    → All (λ x. p x ≡ true → Q x) numbers
All-of_keep_if p Q [] h = tt
All-of_keep_if p Q (x ∷ xs) h = elim (Bool-cases (p x)) [
  | inl kept ↦
      let h' : All Q (x ∷ keep_if p xs) = rw kept at h in ((λ _. h'.0), All-of_keep_if p Q xs h'.1)
  | inr dropped ↦
      let h' : All Q (keep_if p xs) = rw dropped at h in
      ((λ k. absurd (let q : false ≡ true = sym dropped ∙ k in cc q)), All-of_keep_if p Q xs h')
]

not-true : (b : Bool) → not b ≡ true → b ≡ false
not-true true h = absurd (cc h)
not-true false h = refl

not-false : (b : Bool) → b ≡ false → not b ≡ true
not-false b h = ap not h

module _ (distance : ℕ) (ends : List ℕ) (descent_end : Option ℕ) where
  abbrev turns : List ℕ
  turns = keep_if (λ boundary. not (is_excluded descent_end boundary)) (but_last ends)

  -- What holds of the turns that are kept holds of every boundary that is not excluded.
  every_turn :
      (Q : ℕ → Type 0)
      → All Q turns
      → All (λ turn. is_excluded descent_end turn ≡ false → Q turn) (but_last ends)
  every_turn Q h =
      All-map (λ turn k e. k (not-false (is_excluded descent_end turn) e)) (but_last ends)
        (All-of_keep_if (λ boundary. not (is_excluded descent_end boundary)) Q (but_last ends) h)

  chosen-Snaps :
      (result : ℕ) (near : Bool)
      → ltb (gap result distance) eoc_snap_tolerance ≡ near
      → Nearest distance turns (some result)
      → Snaps distance ends descent_end (if near then result else distance)
  chosen-Snaps result true h k =
      let there =
        has-keep_if (λ boundary. not (is_excluded descent_end boundary)) result (but_last ends)
          k.0 in
      inl (
        there.0,
        (
          not-true (is_excluded descent_end result) there.1,
          (
            ltb→lt (gap result distance) eoc_snap_tolerance h,
            every_turn (λ turn. gap result distance ≤ gap turn distance) k.1,
          ),
        ),
      )
  chosen-Snaps result false h k =
      let far : eoc_snap_tolerance ≤ gap result distance =
        ltb→ge (gap result distance) eoc_snap_tolerance h in
      inr (
        refl,
        every_turn (λ turn. eoc_snap_tolerance ≤ gap turn distance)
            (All-map (λ turn (le : gap result distance ≤ gap turn distance). omega arith) turns
              k.1),
      )

  snapped-Snaps :
      (found : Option ℕ)
      → Nearest distance turns found
      → Snaps distance ends descent_end (snapped distance found)
  snapped-Snaps none h = inr (
    refl,
    every_turn (λ turn. eoc_snap_tolerance ≤ gap turn distance)
        (subst (All (λ turn. eoc_snap_tolerance ≤ gap turn distance)) (sym h) tt),
  )
  snapped-Snaps (some result) h =
      chosen-Snaps result (ltb (gap result distance) eoc_snap_tolerance) refl h

-- The end of cruise becomes the nearest turn of the route, where
-- one is strictly within 0.5 NM of it, and stays as it is where none is. The descent's end is no such
-- turn, nor are the ends of the route.
pub snap_eoc-Snaps :
    (distance : ℕ) (ends : List ℕ) (descent_end : Option ℕ)
    → (result : ℕ) × ((snap_eoc (some distance) ends descent_end ≡ some result)
        × Snaps distance ends descent_end result)
unfolding snap_eoc
snap_eoc-Snaps distance ends descent_end = (
  snapped distance (nearest distance (turns distance ends descent_end)),
  (
    refl,
    snapped-Snaps distance ends descent_end (nearest distance (turns distance ends descent_end))
        (nearest-Nearest distance (turns distance ends descent_end)),
  ),
)
