-- ===== src/Forecast/Effect.antt =====
-- What a selection does besides computing: it asks the providers, remembers what they answered, and
-- may raise. `calls` is the history of the calls of `check_run`, newest first.
use auto_nav_log.Common.{
  String, Bool, true, false, ◌&&◌, Option, none, some, List, [], ◌∷◌, if◌then◌else◌, ◌==◌,
}

pub data Model : Type 0 where
  msm gsm : Model

abbrev pub same_model : Model → Model → Bool
same_model msm msm = true
same_model gsm gsm = true
same_model _ _ = false

-- What a provider's `check_run` does: it returns, it raises a ForecastCoverageError with its reason
-- codes, or it raises something else, `F`.
pub data Checked (F : Type 0) : Type 0 where
  covers : Checked F
  lacks : List String → Checked F
  raises : F → Checked F

-- The same for `candidate_runs`.
pub data Listed (F : Type 0) : Type 0 where
  runs : List String → Listed F
  outside : List String → Listed F
  raises : F → Listed F

-- The providers, each for the requirement of this selection. A model with no provider raises.
pub record Providers (F : Type 0) : Type 0 where
  pub candidate_runs : Model → Listed F
  pub check_run : Model → String → Checked F

-- `unavailable` is ForecastUnavailable, `no_runs` the RuntimeError of an empty listing.
pub data Outcome (F : Type 0) (A : Type 0) : Type 0 where
  ok : A → Outcome F A
  unavailable : List String → Outcome F A
  no_runs : Model → Outcome F A
  fault : F → Outcome F A

abbrev pub Key : Type 0
Key = Model × String

abbrev pub same_key : Key → Key → Bool
same_key (m, r) (n, s) = same_model m n && r == s

-- `evaluated`: `none` for a Run that covers the request, its reason codes for one that does not.
pub record Memo : Type 0 where
  pub evaluated : List (Key × Option (List String))
  pub calls : List Key

unfoldable pub recall : Key → List (Key × Option (List String)) → Option (Option (List String))
recall k [] = none
recall k ((j, c) ∷ m) = if same_key j k then some c else recall k m

abbrev pub M : Type 0 → Type 0 → Type 0
M F A = Memo → Outcome F A × Memo

module _ {F A B : Type 0} where
  abbrev pub continue : Outcome F A → (A → M F B) → M F B
  continue (ok a) f st = f a st
  continue (unavailable codes) f st = (unavailable codes, st)
  continue (no_runs m) f st = (no_runs m, st)
  continue (fault e) f st = (fault e, st)

  infixl 5 ◌>>=◌
  abbrev pub ◌>>=◌ : M F A → (A → M F B) → M F B
  ◌>>=◌ m f st = let (r, st') = m st in continue r f st'

  -- The same without the memory.
  abbrev pub and_then : Outcome F A → (A → Outcome F B) → Outcome F B
  and_then (ok a) f = f a
  and_then (unavailable codes) f = unavailable codes
  and_then (no_runs m) f = no_runs m
  and_then (fault e) f = fault e

abbrev pub pure : {F A : Type 0} → A → M F A
pure a st = (ok a, st)

abbrev pub raise : {F A : Type 0} → Outcome F A → M F A
raise o st = (o, st)
