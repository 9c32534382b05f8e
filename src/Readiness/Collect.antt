-- ===== src/Readiness/Collect.antt =====
-- application/readiness.py: `collect_effective_issues` and `evaluate_readiness`.
use auto_nav_log.Common.{
  is_some, String, Bool, true, not, ◌&&◌, Option, none, some, List, [], ◌∷◌, ◌++◌, map,
  if◌then◌else◌,
}
use auto_nav_log.Readiness.Model.{
  Issue, EffectiveIssue, defaults_review, stale_result, project_validation, ui_state_invalid,
  stale_cause, defaults_cause, validation_cause, Fingerprints, UiState, ReadinessEvaluation,
}
use auto_nav_log.Readiness.Issues.{
  same_text, create_effective_issue, readiness_blocker, outcome_effective_issues,
  reference_effective_issues, dedupe_effective_issues, derive_project_status,
}

-- The arguments of both functions, less the project, of which only the acknowledged codes are read,
-- and `editable`, which is not. `outcome` is the list of the outcome's issues.
pub record Inputs (Meta Snapshot : Type 0) : Type 0 where
  pub acknowledged : List String
  pub outcome : Option (List (Issue Meta))
  pub ui_state : Option (UiState Snapshot)
  pub current_calculation_input_fingerprint : Option String
  pub current_defaults_review_fingerprint : Option String
  pub reference_data_issues : List (Issue Meta)
  pub project_validation_issues : List (Issue Meta)

module _ {Snapshot : Type 0} where
  abbrev pub calculated_against : Option (UiState Snapshot) → Option String
  calculated_against none = none
  calculated_against (some ui) = ui.calculated_against_fingerprint

  abbrev pub snapshot_of : Option (UiState Snapshot) → Option Snapshot
  snapshot_of none = none
  snapshot_of (some ui) = ui.reference_data_snapshot

-- `current is None or calculated_against != current`
abbrev pub is_stale : Option String → Option String → Bool
is_stale against none = true
is_stale against (some current) = not (same_text against (some current))

module _ {Meta Snapshot : Type 0} where
  abbrev pub is_current : Inputs Meta Snapshot → Bool
  is_current i =
      is_some i.outcome
      && (is_some i.ui_state
          && (is_some i.current_calculation_input_fingerprint
              && same_text (calculated_against i.ui_state) i.current_calculation_input_fingerprint))

module _ {Meta Snapshot : Type 0} (fp : Fingerprints Meta Snapshot) where
  abbrev pub outcome_part : Option (List (Issue Meta)) → Option String → List (EffectiveIssue Meta)
  outcome_part none against = []
  outcome_part (some issues) against = outcome_effective_issues fp issues against

  unfoldable pub validation_part : List (Issue Meta) → List (EffectiveIssue Meta)
  validation_part issues =
      map
        (λ issue.
          create_effective_issue fp issue project_validation (validation_cause issue.metadata))
        issues

module _ {Meta Snapshot : Type 0} (fp : Fingerprints Meta Snapshot) (no_metadata : Meta) where
  abbrev pub invalid_issue : EffectiveIssue Meta
  invalid_issue =
      create_effective_issue fp
        (readiness_blocker no_metadata "PROJECT_STATE_INVALID" "保存済みUI状態を確認し、参照データとVREPを再選択してください。")
        project_validation ui_state_invalid

  abbrev pub stale_issue : Option String → Option String → EffectiveIssue Meta
  stale_issue against current =
      create_effective_issue fp
        (readiness_blocker no_metadata "RECALCULATION_REQUIRED"
          "計算用の入力が変更されました。古い結果が表示されているため、NAV LOGを再計算してください。")
        stale_result (stale_cause against current)

  unfoldable pub state_part :
      Option (UiState Snapshot) → Bool → Option String → List (EffectiveIssue Meta)
  state_part none outcome_exists current = invalid_issue ∷ []
  state_part (some ui) outcome_exists current =
      if outcome_exists && is_stale ui.calculated_against_fingerprint current
      then stale_issue ui.calculated_against_fingerprint current ∷ []
      else []

  unfoldable pub defaults_part :
      Option (UiState Snapshot) → Option String → List (EffectiveIssue Meta)
  defaults_part none current = []
  defaults_part (some ui) none = []
  defaults_part (some ui) (some current) =
      if same_text ui.defaults_review_fingerprint (some current)
      then []
      else create_effective_issue fp
          (readiness_blocker no_metadata "DEFAULTS_NOT_REVIEWED"
            "ALT・Phase・燃料・降下率・偏差などの既定値を確認してください。")
          defaults_review (defaults_cause ui.defaults_review_fingerprint current)
        ∷ []

  abbrev pub all_parts : Inputs Meta Snapshot → List (EffectiveIssue Meta)
  all_parts i =
      outcome_part fp i.outcome (calculated_against i.ui_state)
      ++ (reference_effective_issues fp i.reference_data_issues (snapshot_of i.ui_state)
          ++ (state_part i.ui_state (is_some i.outcome) i.current_calculation_input_fingerprint
              ++ (defaults_part i.ui_state i.current_defaults_review_fingerprint
                  ++ validation_part fp i.project_validation_issues)))

  unfoldable pub collect_effective_issues : Inputs Meta Snapshot → List (EffectiveIssue Meta)
  collect_effective_issues i = dedupe_effective_issues (all_parts i)

  unfoldable pub evaluate_readiness : Inputs Meta Snapshot → ReadinessEvaluation Meta
  evaluate_readiness i =
      let effective = collect_effective_issues i in
      record {
        effective_issues = effective;
        status = derive_project_status effective i.acknowledged (is_some i.outcome);
        calculation_is_current = is_current i;
      }
