-- ===== src/Forecast/Selection.antt =====
-- application/forecast_selection.py: `select_forecast` and the functions in it.
use Prim.Native.Nat.{Ordering}
use Prim.Native.String.{compare}
use auto_nav_log.Common.{
  String, Bool, true, false, not, ◌&&◌, ◌||◌, Option, none, some, List, [], ◌∷◌, ◌++◌,
  if◌then◌else◌, any, ◌==◌,
}
use auto_nav_log.Forecast.Effect.{
  Model, msm, gsm, Checked, covers, lacks, Listed, runs, outside, Providers, Outcome, ok,
  unavailable, no_runs, fault, Memo, recall, M, ◌>>=◌, pure, raise,
}

pub record ForecastSelection : Type 0 where
  pub model : Model
  pub run_id : String
  pub update_available : Bool
  pub update_required : Bool
  pub fallback_from : Option Model
  pub coverage_reason_codes : List String

-- `msm > selected_run_id` on texts
abbrev pub later : String → String → Bool
later a b = elim (compare a b) [ Ordering.gt ↦ true | _ ↦ false ]

abbrev pub later_than : Option String → String → Bool
later_than none run = false
later_than (some a) run = later a run

abbrev pub is_there {ℓ} : {A : Type ℓ} → Option A → Bool
is_there none = false
is_there (some a) = true

-- `tuple(dict.fromkeys(codes))`, behind the codes that are already out
unfoldable pub fresh_codes : List String → List String → List String
fresh_codes seen [] = []
fresh_codes seen (c ∷ cs) =
    if any (λ s. s == c) seen then fresh_codes seen cs else c ∷ fresh_codes (c ∷ seen) cs

abbrev pub distinct_codes : List String → List String
distinct_codes codes = fresh_codes [] codes

abbrev pub selection : Model → String → Bool → Bool → ForecastSelection
selection model run available required = record {
  model = model;
  run_id = run;
  update_available = available;
  update_required = required;
  fallback_from = none;
  coverage_reason_codes = [];
}

abbrev pub fallback : String → List String → ForecastSelection
fallback run reasons = record {
  model = gsm;
  run_id = run;
  update_available = false;
  update_required = false;
  fallback_from = some msm;
  coverage_reason_codes = reasons;
}

-- What `latest` returns: the first Run that covers, and the reasons that the others do not.
abbrev pub Latest : Type 0
Latest = Option String × List String

abbrev pub model_or_msm : Option Model → Model
model_or_msm none = msm
model_or_msm (some model) = model

module _ {F : Type 0} (p : Providers F) where
  unfoldable pub answer : Model → String → Checked F → M F (Option (List String))
  answer model run covers st =
      (ok none, record st { evaluated = ((model, run), none) ∷ st.evaluated })
  answer model run (lacks codes) st =
      (ok (some codes), record st { evaluated = ((model, run), some codes) ∷ st.evaluated })
  answer model run (Checked.raises e) st = (fault e, st)

  unfoldable pub check : Model → String → M F (Option (List String))
  unfolding answer
  check model run st = elim (recall (model, run) st.evaluated) [
    | some coverage ↦ (ok coverage, st)
    | none ↦
        answer model run (p.check_run model run) (record st { calls = (model, run) ∷ st.calls })
  ]

-- The functions that `select_forecast` makes in its body ask for coverage through `check`.
module _ {F : Type 0} (p : Providers F)
    (check_with : Model → String → M F (Option (List String))) where
  unfoldable pub first_covering : Model → List String → List String → M F Latest
  first_covering model [] reasons = pure (none, distinct_codes reasons)
  first_covering model (run ∷ rest) reasons = do
    coverage ← check_with model run
    elim coverage [
      | none ↦ pure (some run, [])
      | some codes ↦ first_covering model rest (reasons ++ codes)
    ]

  unfoldable pub latest_of : Model → Listed F → M F Latest
  latest_of model (runs []) = raise (no_runs model)
  latest_of model (runs (run ∷ rest)) = first_covering model (run ∷ rest) []
  latest_of model (outside codes) = pure (none, codes)
  latest_of model (Listed.raises e) = raise (fault e)

  unfoldable pub latest : Model → M F Latest
  unfolding latest_of first_covering
  latest model = latest_of model (p.candidate_runs model)

  unfoldable pub fall_back : List String → M F ForecastSelection
  fall_back reasons = do
    found ← latest gsm
    elim found.0 [
      | some run ↦ pure (fallback run reasons)
      | none ↦ raise (unavailable (reasons ++ found.1))
    ]

  unfoldable pub preferred : M F ForecastSelection
  preferred = do
    found ← latest msm
    elim found.0 [ some run ↦ pure (selection msm run false false) | none ↦ fall_back found.1 ]

  unfoldable pub pinned_msm : String → Option (List String) → M F ForecastSelection
  pinned_msm run fixed_coverage = do
    found ← latest msm
    elim fixed_coverage [
      | none ↦ pure (selection msm run (later_than found.0 run) false)
      | some _ ↦ elim found.0 [
        | some _ ↦ pure (selection msm run true true)
        | none ↦ fall_back found.1
      ]
    ]

  -- A pinned GSM never silently returns to MSM.
  unfoldable pub pinned_gsm : String → Option (List String) → M F ForecastSelection
  pinned_gsm run fixed_coverage = do
    found ← latest msm
    elim found.0 [
      | some _ ↦ pure (selection gsm run true (is_there fixed_coverage))
      | none ↦ do
        next ← latest gsm
        if is_there fixed_coverage && not (is_there next.0)
            then raise (unavailable (found.1 ++ next.1))
            else pure (
                selection gsm run
                  (is_there next.0 && (is_there fixed_coverage || later_than next.0 run))
                  (is_there fixed_coverage))
    ]

  unfoldable pub pinned : Model → String → M F ForecastSelection
  pinned msm run = do coverage ← check_with msm run; pinned_msm run coverage
  pinned gsm run = do coverage ← check_with gsm run; pinned_gsm run coverage

  unfoldable pub select_with : Option Model → Option String → Bool → M F ForecastSelection
  unfolding latest pinned pinned_msm pinned_gsm preferred fall_back
  select_with selected_model none refresh = preferred
  select_with selected_model (some run) refresh =
      if refresh then preferred else pinned (model_or_msm selected_model) run

abbrev pub nothing_evaluated : Memo
nothing_evaluated = record { evaluated = []; calls = [] }

unfoldable pub select_forecast :
    {F : Type 0}
    → Providers F
    → Option Model
    → Option String
    → Bool
    → Outcome F ForecastSelection × Memo
select_forecast p selected_model selected_run_id refresh =
    select_with p (check p) selected_model selected_run_id refresh nothing_evaluated
