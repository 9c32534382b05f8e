-- ===== src/Readiness/Examples.antt =====
-- Readiness of a project with a warning, with fingerprints that are the code of the issue.
use auto_nav_log.Common.{
  String, ◌≡◌, refl, Bool, true, false, none, some, List, [], ◌∷◌, any, All, Pairwise, ◌==◌, map,
}
use auto_nav_log.Common.Dict.{lookup, insert}
use auto_nav_log.Readiness.Model.{
  Issue, EffectiveIssue, IssueSeverity, blocker, warning, ready_for_copy, calculation_warning,
  manual_input_required, Fingerprints, UiState, stale_result, ui_state_invalid,
}
use auto_nav_log.Readiness.Issues.{
  same_text, blocks, key, create_effective_issue, outcome_effective_issues,
  reference_effective_issues, merge, merge_all, in_order, dedupe_effective_issues,
  derive_project_status, unacknowledged,
}
use auto_nav_log.Readiness.Collect.{
  Inputs, collect_effective_issues, evaluate_readiness, state_part, defaults_part, validation_part,
}
use auto_nav_log.Readiness.Dedupe.{StandsFor, dedupe_stands}
use auto_nav_log.Readiness.Ready.{NoBlocker, outcome_issues, ready_is_safe}

abbrev by_code : Fingerprints Unit Unit
by_code = record {
  cause_json = λ code section segment cause. code;
  digest = λ text. text;
  warning_ack = λ code section segment fingerprint. code;
  reason = λ m. m;
}

abbrev an_issue : String → IssueSeverity → Bool → Issue Unit
an_issue code severity acknowledge = record {
  code = code;
  severity = severity;
  message = "";
  section_id = none;
  segment_sequence = none;
  acknowledgement_required = acknowledge;
  metadata = tt;
}

abbrev reviewed_state : UiState Unit
reviewed_state = record {
  calculated_against_fingerprint = some "inputs";
  defaults_review_fingerprint = some "defaults";
  reference_data_snapshot = none;
}

-- One warning, from the outcome and from the reference data.
abbrev inputs : List String → String → Inputs Unit Unit
inputs acknowledged current = record {
  acknowledged = acknowledged;
  outcome = some (an_issue "ICING" warning true ∷ []);
  ui_state = some reviewed_state;
  current_calculation_input_fingerprint = some current;
  current_defaults_review_fingerprint = some "defaults";
  reference_data_issues = an_issue "ICING" warning false ∷ [];
  project_validation_issues = [];
}

abbrev effective : String → IssueSeverity → EffectiveIssue Unit
effective code severity =
    create_effective_issue by_code (an_issue code severity false) stale_result ui_state_invalid

abbrev repeated : List (EffectiveIssue Unit)
repeated = effective "A" warning ∷ effective "B" warning ∷ effective "A" blocker ∷ []

dedupe_stands_example :
    Pairwise (λ a b. (key a == key b) ≡ false) (dedupe_effective_issues repeated)
    × ((k : String)
        → any (λ e. key e == k) (dedupe_effective_issues repeated)
          ≡ any (λ item. key item == k) repeated)
    × All (StandsFor repeated) (dedupe_effective_issues repeated)
dedupe_stands_example = dedupe_stands repeated

-- The blocker behind the first warning makes it a blocker.
first_blocks : map blocks (dedupe_effective_issues repeated) ≡ true ∷ false ∷ []
unfolding dedupe_effective_issues merge_all in_order merge lookup insert create_effective_issue
first_blocks = refl

needs_acknowledgement :
    (evaluate_readiness by_code tt (inputs [] "inputs")).status ≡ calculation_warning
unfolding evaluate_readiness collect_effective_issues dedupe_effective_issues merge_all in_order
    merge lookup insert create_effective_issue derive_project_status outcome_effective_issues
    reference_effective_issues state_part defaults_part validation_part
needs_acknowledgement = refl

changed_inputs :
    (evaluate_readiness by_code tt (inputs ("ICING" ∷ []) "changed")).status ≡ manual_input_required
unfolding evaluate_readiness collect_effective_issues dedupe_effective_issues merge_all in_order
    merge lookup insert create_effective_issue derive_project_status outcome_effective_issues
    reference_effective_issues state_part defaults_part validation_part
changed_inputs = refl

acknowledged_ready :
    (evaluate_readiness by_code tt (inputs ("ICING" ∷ []) "inputs")).status ≡ ready_for_copy
unfolding evaluate_readiness collect_effective_issues dedupe_effective_issues merge_all in_order
    merge lookup insert create_effective_issue derive_project_status outcome_effective_issues
    reference_effective_issues state_part defaults_part validation_part
acknowledged_ready = refl

abbrev acknowledged : Inputs Unit Unit
acknowledged = inputs ("ICING" ∷ []) "inputs"

ready_is_safe_example :
    ((evaluate_readiness by_code tt acknowledged).calculation_is_current ≡ true)
    × NoBlocker (outcome_issues acknowledged.outcome)
    × NoBlocker acknowledged.reference_data_issues
    × NoBlocker acknowledged.project_validation_issues
    × ((ui : UiState Unit) (current : String)
        → acknowledged.ui_state ≡ some ui
        → acknowledged.current_defaults_review_fingerprint ≡ some current
        → same_text ui.defaults_review_fingerprint (some current) ≡ true)
    × (any
          (unacknowledged acknowledged.acknowledged)
          (evaluate_readiness by_code tt acknowledged).effective_issues
        ≡ false)
ready_is_safe_example = ready_is_safe by_code tt acknowledged acknowledged_ready
