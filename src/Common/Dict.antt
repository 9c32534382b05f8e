-- ===== src/Common/Dict.antt =====
-- Python's `dict` with string keys, in insertion order: an assignment to a key that is there keeps
-- its place, and `pop(key, None)` takes the key out.
use Prim.Native.Nat.{◌+◌}
use Prim.Native.String.{String}
use mathlib.Core.Path.{◌≡◌, refl, subst}
use mathlib.Core.Logic.{inl, inr}
use mathlib.Core.Bool.{Bool, true}
use mathlib.Core.Option.{Option, none, some}
use mathlib.Core.List.{List, [], ◌∷◌}
use native.Mathlib.Omega.{arith}
use text.Mathlib.Text.{◌==◌}
use text.Mathlib.TextEquality.{eq_iff}
use text.Mathlib.TextPositions.{eq_refl}
use Prim.Native.Nat.{suc, ◌<◌}
use mathlib.Core.Logic.{◌≢◌}
use auto_nav_log.Common.Tests.{if◌then◌else◌, Bool-cases}
use auto_nav_log.Common.Lists.{length, All, count_if}

abbrev pub Dict {ℓ} : Type ℓ → Type ℓ
Dict V = List (String × V)

module _ {ℓ} {V : Type ℓ} where
  unfoldable pub lookup : String → Dict V → Option V
  lookup key [] = none
  lookup key ((own, value) ∷ dict) = if own == key then some value else lookup key dict

  unfoldable pub insert : String → V → Dict V → Dict V
  insert key new [] = (key, new) ∷ []
  insert key new ((own, value) ∷ dict) =
      if own == key then (own, new) ∷ dict else (own, value) ∷ insert key new dict

  unfoldable pub remove : String → Dict V → Dict V
  remove k [] = []
  remove k ((j, w) ∷ m) = if j == k then remove k m else (j, w) ∷ remove k m

  abbrev pub values : Dict V → List V
  values [] = []
  values ((_, v) ∷ m) = v ∷ values m

  -- No key stands twice.
  abbrev pub Unique : Dict V → Type ℓ
  Unique [] = Unit
  Unique ((k, v) ∷ m) = (lookup k m ≡ none) × Unique m

  pub lookup-insert :
      (key wanted : String) (new : V) (dict : Dict V)
      → lookup wanted (insert key new dict)
        ≡ (if key == wanted then some new else lookup wanted dict)
  unfolding lookup insert
  lookup-insert key wanted new [] = refl
  lookup-insert key wanted new ((own, value) ∷ dict) =
      let rest = lookup-insert key wanted new dict in
      ground (arith, rest, eq_iff own wanted, eq_iff own key, eq_iff key wanted)

  pub lookup-remove :
      (k j : String) (m : Dict V) → lookup j (remove k m) ≡ (if k == j then none else lookup j m)
  unfolding lookup remove
  lookup-remove k j [] = ground arith
  lookup-remove k j ((i, w) ∷ m) =
      ground (arith, eq_iff k j, eq_iff i k, eq_iff i j, lookup-remove k j m)

  pub remove_absent : (k : String) (m : Dict V) → lookup k m ≡ none → remove k m ≡ m
  unfolding remove lookup
  remove_absent k [] e = refl
  remove_absent k ((j, w) ∷ m) e = ground (arith, remove_absent k m)

  pub insert-Unique : (k : String) (v : V) (m : Dict V) → Unique m → Unique (insert k v m)
  unfolding insert lookup
  insert-Unique k v [] u = (refl, tt)
  insert-Unique k v ((j, w) ∷ m) u =
      ground (arith, eq_iff j k, eq_iff k j, lookup-insert k j v m, insert-Unique k v m u.1)

  pub remove-Unique : (k : String) (m : Dict V) → Unique m → Unique (remove k m)
  unfolding remove lookup
  remove-Unique k [] u = tt
  remove-Unique k ((j, w) ∷ m) u =
      ground (arith, eq_iff j k, eq_iff k j, lookup-remove k j m, remove-Unique k m u.1)

  pub All-values {κ} :
      (P : V → Type κ) (k : String) (v : V) (m : Dict V)
      → lookup k m ≡ some v
      → All P (values m)
      → P v
  unfolding lookup
  All-values P k v [] e h = cc
  All-values P k v ((j, w) ∷ m) e h = elim (Bool-cases (j == k)) [
    | inl y ↦ subst P (let q : w ≡ v = ground arith in q) h.0
    | inr n ↦ All-values P k v m (ground arith) h.1
  ]

  -- What an assignment, or a removal, does to the number of values that pass a test.
  pub count_if-insert :
      (p : V → Bool) (k : String) (v : V) (m : Dict V)
      → count_if p (values (insert k v m))
          + (elim (lookup k m) [ none ↦ 0 | some w ↦ if p w then 1 else 0 ])
        ≡ count_if p (values m) + (if p v then 1 else 0)
  unfolding insert lookup
  count_if-insert p k v [] = ground arith
  count_if-insert p k v ((j, w) ∷ m) = ground (arith, count_if-insert p k v m)

  pub count_if-remove :
      (p : V → Bool) (k : String) (m : Dict V)
      → Unique m
      → count_if p (values (remove k m))
          + (elim (lookup k m) [ none ↦ 0 | some w ↦ if p w then 1 else 0 ])
        ≡ count_if p (values m)
  unfolding remove lookup
  count_if-remove p k [] u = refl
  count_if-remove p k ((j, w) ∷ m) u = ground (arith, eq_iff j k, count_if-remove p k m u.1)

  pub length-remove :
      (k : String) (m : Dict V)
      → Unique m
      → lookup k m ≢ none
      → suc (length (remove k m)) ≡ length m
  unfolding remove lookup
  length-remove k [] u h = absurd (h refl)
  length-remove k ((j, w) ∷ m) u h =
      ground (arith, eq_iff j k, length-remove k m u.1, remove_absent k m)

  pub length-values : (m : Dict V) → length (values m) ≡ length m
  length-values [] = refl
  length-values ((k, v) ∷ m) = omega (arith, length-values m)

  -- What holds of each value that can be looked up holds of all the values.
  pub values-All {κ} :
      (P : V → Type κ) (m : Dict V)
      → Unique m
      → ((k : String) (v : V) → lookup k m ≡ some v → P v)
      → All P (values m)
  unfolding lookup
  values-All P [] u h = tt
  values-All P ((j, w) ∷ m) u h = (
    h j w (ground (arith, eq_refl j)),
    values-All P m u.1 (λ k v e. h k v (ground (arith, eq_iff j k))),
  )

  -- An assignment of the value that is there changes nothing.
  pub insert_same : (k : String) (v : V) (m : Dict V) → lookup k m ≡ some v → insert k v m ≡ m
  unfolding insert lookup
  insert_same k v [] e = cc
  insert_same k v ((j, w) ∷ m) e = ground (arith, insert_same k v m)

  -- A value that is there and passes the test is counted.
  pub count_if-pos :
      (p : V → Bool) (k : String) (v : V) (m : Dict V)
      → lookup k m ≡ some v
      → p v ≡ true
      → 0 < count_if p (values m)
  unfolding lookup
  count_if-pos p k v [] e h = cc
  count_if-pos p k v ((j, w) ∷ m) e h = ground (arith, count_if-pos p k v m)
