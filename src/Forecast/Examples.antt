-- ===== src/Forecast/Examples.antt =====
-- Selections with providers that cover one MSM Run of two, or none, or list no Run.
use auto_nav_log.Common.{String, ◌≡◌, refl, false, true, none, some, [], ◌∷◌, if◌then◌else◌, ◌==◌}
use auto_nav_log.Forecast.Effect.{
  Model, msm, gsm, Checked, covers, lacks, Listed, runs, Providers, no_runs, ok, recall, no_runs,
}
use auto_nav_log.Forecast.Selection.{
  selection, select_with, select_forecast, first_covering, fresh_codes, latest, latest_of, check,
  nothing_evaluated, latest_of,
}
use auto_nav_log.Forecast.Memo.{check_directly, Distinct, select_forecast_memo}
use auto_nav_log.Forecast.Answers.{Excluded}
use auto_nav_log.Forecast.Policy.{Sanctioned, selection-Sanctioned, unavailable-Excluded}

-- The newest MSM Run does not cover; the one before does.
abbrev answers : Model → String → Checked Unit
answers msm run = if run == "20260101030000" then lacks ("OUTSIDE_DOMAIN" ∷ []) else covers
answers gsm run = lacks ("NO_SPEC_COMPATIBLE_RUN" ∷ [])

abbrev listings : Model → Listed Unit
listings msm = runs ("20260101030000" ∷ "20260101000000" ∷ [])
listings gsm = runs ("20260101000000" ∷ [])

abbrev providers : Providers Unit
providers = record { candidate_runs = listings; check_run = answers }

-- Both models list a Run, and neither Run covers the request.
abbrev uncovered : Providers Unit
uncovered = record {
  candidate_runs = λ model. runs ("20260101000000" ∷ []);
  check_run = λ model run. lacks ("OUTSIDE_DOMAIN" ∷ []);
}

abbrev without_runs : Providers Unit
without_runs = record uncovered { candidate_runs = λ model. runs [] }

select_forecast_memo_example :
    ((select_forecast providers (some gsm) (some "20260101000000") false).0
      ≡ (select_with providers
          (check_directly providers)
          (some gsm)
          (some "20260101000000")
          false
          nothing_evaluated).0)
    × Distinct (select_forecast providers (some gsm) (some "20260101000000") false).1.calls
select_forecast_memo_example =
    select_forecast_memo providers (some gsm) (some "20260101000000") false nothing_evaluated

second_run :
    (select_forecast providers none none false).0 ≡ ok (selection msm "20260101000000" false false)
unfolding select_forecast select_with latest first_covering check recall
second_run = refl

selection-Sanctioned_example :
    Sanctioned providers none none (selection msm "20260101000000" false false)
selection-Sanctioned_example =
    selection-Sanctioned providers none none false (selection msm "20260101000000" false false)
      second_run

-- A pinned GSM that lacks coverage stays, and asks for an update.
pinned_gsm_stays :
    (select_forecast providers (some gsm) (some "20260101000000") false).0
    ≡ ok (selection gsm "20260101000000" true true)
unfolding select_forecast select_with latest first_covering check recall
pinned_gsm_stays = refl

unavailable-Excluded_example : Excluded uncovered msm × Excluded uncovered gsm
unfolding select_forecast select_with latest first_covering check recall fresh_codes
unavailable-Excluded_example =
    unavailable-Excluded uncovered none none false ("OUTSIDE_DOMAIN" ∷ "OUTSIDE_DOMAIN" ∷ []) refl

-- No source Run is no exclusion: GSM is not asked.
empty_listing_raises : (select_forecast without_runs none none false).0 ≡ no_runs msm
unfolding select_forecast select_with latest latest_of
empty_listing_raises = refl

-- Each Run is checked once, though a pinned Run is also a candidate.
calls_once :
    (select_forecast providers (some msm) (some "20260101030000") false).1.calls
    ≡ (msm, "20260101000000") ∷ (msm, "20260101030000") ∷ []
unfolding select_forecast select_with latest first_covering check recall
calls_once = refl
