-- ===== src/Forecast/Policy.antt =====
-- The policy of the selection: MSM first, GSM only where MSM is excluded, and no failure of a
-- provider taken for an exclusion.
use auto_nav_log.Common.{
  String, ◌≡◌, refl, subst, ◌⊎◌, inl, inr, Bool, true, false, ◌&&◌, ◌||◌, not, Option, none, some,
  List, arith, if◌then◌else◌,
}
use auto_nav_log.Forecast.Effect.{Model, msm, gsm, Providers, ok, unavailable, M}
use auto_nav_log.Forecast.Selection.{
  ForecastSelection, selection, is_there, later_than, Latest, latest, fall_back, preferred,
  pinned_msm, pinned_gsm, pinned, select_with, select_forecast, nothing_evaluated,
}
use auto_nav_log.Forecast.Memo.{select_forecast_memo}
use auto_nav_log.Forecast.Answers.{
  Lacks, Covers, Chosen, Excluded, Holds, Ensures, Ensures-bind, LatestSpec, CheckSpec, asking,
  check-Spec, Ensures-option, Ensures-if, latest-Spec,
}

module _ {F : Type 0} (p : Providers F) where
  -- What a selection says: `pinned_gsm` is the Run of a pinned GSM, `pinned_run` any pinned Run.
  pub record Sanctioned (pinned_gsm pinned_run : Option String) (s : ForecastSelection)
      : Type 0 where
    pub covered : s.update_required ≡ false → Covers p s.model s.run_id
    pub stale : s.update_required ≡ true → Lacks p s.model s.run_id
    pub gsm_reason : s.model ≡ gsm → Excluded p msm ⊎ (pinned_gsm ≡ some s.run_id)
    pub run_reason : Chosen p s.model s.run_id ⊎ (pinned_run ≡ some s.run_id)
    pub gsm_kept : (run : String) → pinned_gsm ≡ some run → (s.model ≡ gsm) × (s.run_id ≡ run)

  abbrev BothExcluded : Type 0
  BothExcluded = Excluded p msm × Excluded p gsm

  found-cases :
      {B : Type 0} (P : B → Type 0) (U : Type 0) (model : Model) (found : Latest) (n : M F B)
      (f : String → M F B)
      → LatestSpec p model found
      → (Excluded p model → Ensures p P U n)
      → ((run : String) → found.0 ≡ some run → Chosen p model run → Ensures p P U (f run))
      → Ensures p P U (elim found.0 [ none ↦ n | some run ↦ f run ])
  found-cases P U model (none, codes) n f h hn hf = hn h
  found-cases P U model (some run, codes) n f h hn hf = hf run refl h

  fall_back-Spec :
      (pin : Option String) (reasons : List String)
      → Excluded p msm
      → Ensures p (Sanctioned none pin) BothExcluded (fall_back p (asking p) reasons)
  unfolding fall_back
  fall_back-Spec pin reasons out =
      Ensures-bind p (LatestSpec p gsm) _ _ (latest p (asking p) gsm) _ (latest-Spec p _ gsm)
        λ found h.
          found-cases (Sanctioned none pin) BothExcluded gsm found _ _ h (λ e st. (out, e))
            λ run _ c st. record {
              covered = λ _. c.4;
              stale = λ e. cc;
              gsm_reason = λ _. inl out;
              run_reason = inl c;
              gsm_kept = λ r e. cc;
            }

  preferred-Spec : Ensures p (Sanctioned none none) BothExcluded (preferred p (asking p))
  unfolding preferred
  preferred-Spec =
      Ensures-bind p (LatestSpec p msm) _ _ (latest p (asking p) msm) _ (latest-Spec p _ msm)
        λ found h.
          found-cases (Sanctioned none none) BothExcluded msm found _ _ h
            (fall_back-Spec none found.1)
            λ run _ c st. record {
              covered = λ _. c.4;
              stale = λ e. cc;
              gsm_reason = λ e. cc;
              run_reason = inl c;
              gsm_kept = λ r e. cc;
            }

  pinned_msm-Spec :
      (run : String) (coverage : Option (List String))
      → CheckSpec p msm run coverage
      → Ensures p (Sanctioned none (some run)) BothExcluded (pinned_msm p (asking p) run coverage)
  unfolding pinned_msm
  pinned_msm-Spec run coverage k =
      Ensures-bind p (LatestSpec p msm) _ _ (latest p (asking p) msm) _ (latest-Spec p _ msm)
        λ found h.
          Ensures-option p (Sanctioned none (some run)) BothExcluded coverage _ _
            (λ x st. record {
              covered = λ _. subst (CheckSpec p msm run) x k;
              stale = λ e. cc;
              gsm_reason = λ e. cc;
              run_reason = inr refl;
              gsm_kept = λ r e. cc;
            })
            (λ codes x.
              found-cases (Sanctioned none (some run)) BothExcluded msm found _ _ h
                (fall_back-Spec (some run) found.1)
                λ newest _ c st. record {
                  covered = λ e. cc;
                  stale = λ _. (codes, subst (CheckSpec p msm run) x k);
                  gsm_reason = λ e. cc;
                  run_reason = inr refl;
                  gsm_kept = λ r e. cc;
                })

  kept_gsm :
      (run : String) (coverage : Option (List String)) (available : Bool)
      → CheckSpec p gsm run coverage
      → Sanctioned (some run) (some run) (selection gsm run available (is_there coverage))
  kept_gsm run none available k = record {
    covered = λ _. k;
    stale = λ e. cc;
    gsm_reason = λ _. inr refl;
    run_reason = inr refl;
    gsm_kept = λ r e. (refl, ground arith);
  }
  kept_gsm run (some codes) available k = record {
    covered = λ e. cc;
    stale = λ _. (codes, k);
    gsm_reason = λ _. inr refl;
    run_reason = inr refl;
    gsm_kept = λ r e. (refl, ground arith);
  }

  pinned_gsm-Spec :
      (run : String) (coverage : Option (List String))
      → CheckSpec p gsm run coverage
      → Ensures p
          (Sanctioned (some run) (some run))
          BothExcluded
          (pinned_gsm p (asking p) run coverage)
  unfolding pinned_gsm
  pinned_gsm-Spec run coverage k =
      Ensures-bind p (LatestSpec p msm) _ _ (latest p (asking p) msm) _ (latest-Spec p _ msm)
        λ found h.
          found-cases (Sanctioned (some run) (some run)) BothExcluded msm found _ _ h
            (λ out.
              Ensures-bind p (LatestSpec p gsm) _ _ (latest p (asking p) gsm) _
                (latest-Spec p _ gsm)
                λ other g.
                  Ensures-if p (Sanctioned (some run) (some run)) BothExcluded
                    (is_there coverage && not (is_there other.0)) _ _
                    (λ e st. (out, gone other g (ground arith)))
                    (λ _ st.
                      kept_gsm run coverage
                        (is_there other.0 && (is_there coverage || later_than other.0 run)) k))
            (λ newest _ c st. kept_gsm run coverage true k)
    where
      gone : (other : Latest) → LatestSpec p gsm other → is_there other.0 ≡ false → Excluded p gsm
      gone (none, codes) g e = g
      gone (some newest, codes) g e = cc

  -- Which pins count: none in a refresh, and a Run with no model is one of MSM.
  abbrev pub gsm_pin : Option Model → Option String → Bool → Option String
  gsm_pin model none refresh = none
  gsm_pin model (some run) true = none
  gsm_pin (some gsm) (some run) false = some run
  gsm_pin _ (some run) false = none

  abbrev pub run_pin : Option String → Bool → Option String
  run_pin none refresh = none
  run_pin (some run) refresh = if refresh then none else some run

  select-Spec :
      (model : Option Model) (run : Option String) (refresh : Bool)
      → Ensures p
          (Sanctioned (gsm_pin model run refresh) (run_pin run refresh))
          BothExcluded
          (select_with p (asking p) model run refresh)
  unfolding select_with pinned
  select-Spec model none refresh = preferred-Spec
  select-Spec model (some run) true = preferred-Spec
  select-Spec (some gsm) (some run) false =
      Ensures-bind p (CheckSpec p gsm run) _ _ ((asking p) gsm run) _ (check-Spec p _ gsm run)
        (pinned_gsm-Spec run)
  select-Spec (some msm) (some run) false =
      Ensures-bind p (CheckSpec p msm run) _ _ ((asking p) msm run) _ (check-Spec p _ msm run)
        (pinned_msm-Spec run)
  select-Spec none (some run) false =
      Ensures-bind p (CheckSpec p msm run) _ _ ((asking p) msm run) _ (check-Spec p _ msm run)
        (pinned_msm-Spec run)

  select-Holds :
      (model : Option Model) (run : Option String) (refresh : Bool)
      → Holds p
          (Sanctioned (gsm_pin model run refresh) (run_pin run refresh))
          BothExcluded
          (select_forecast p model run refresh).0
  select-Holds model run refresh =
      rw (select_forecast_memo p model run refresh nothing_evaluated).0
        (select-Spec model run refresh nothing_evaluated)

  -- A selection that is made keeps a Run that no longer covers only by asking for an update, takes
  -- GSM only where the provider excludes MSM (says that it, or each of the Runs that it lists, one at
  -- least, does not cover the request) or GSM is pinned, takes a Run that is neither the newest
  -- that covers nor the pinned one in no case, and never leaves a pinned GSM.
  pub selection-Sanctioned :
      (model : Option Model) (run : Option String) (refresh : Bool) (s : ForecastSelection)
      → (select_forecast p model run refresh).0 ≡ ok s
      → Sanctioned (gsm_pin model run refresh) (run_pin run refresh) s
  selection-Sanctioned model run refresh s e = rw e at (select-Holds model run refresh)

  -- ForecastUnavailable is raised only where the providers say of both models that they, or each of
  -- the Runs that they list, one at least, do not cover the request: neither a failure of a provider nor
  -- an empty listing counts.
  pub unavailable-Excluded :
      (model : Option Model) (run : Option String) (refresh : Bool) (codes : List String)
      → (select_forecast p model run refresh).0 ≡ unavailable codes
      → Excluded p msm × Excluded p gsm
  unavailable-Excluded model run refresh codes e = rw e at (select-Holds model run refresh)
