-- ===== src/Readiness/Issues.antt =====
-- application/readiness.py: how issues are made, merged, collected and turned into a status.
use text.Mathlib.Text.{starts_with}
use auto_nav_log.Common.{
  String, Bool, true, false, not, ◌&&◌, ◌||◌, Option, none, some, List, [], ◌∷◌, ◌++◌, map,
  if◌then◌else◌, any, keep_if, ◌==◌,
}
use auto_nav_log.Common.Dict.{Dict, lookup, insert}
use auto_nav_log.Readiness.Model.{
  blocker, warning, is_blocker, ProjectStatus, draft, route_incomplete, weather_pending,
  manual_input_required, calculation_warning, ready_for_copy, IssueProducer, from_outcome,
  reference_data, same_producer, Issue, EffectiveIssue, Cause, performance_reason, outcome_cause,
  reference_cause, Fingerprints,
}

-- Python's `==` on optional texts.
abbrev pub same_text : Option String → Option String → Bool
same_text none none = true
same_text (some a) (some b) = a == b
same_text _ _ = false

module _ {Meta : Type 0} where
  abbrev pub blocks : EffectiveIssue Meta → Bool
  blocks item = is_blocker item.effective_severity

  abbrev pub key : EffectiveIssue Meta → String
  key item = item.ctx.cause_fingerprint

  -- The issue that stands for `previous` and `current`, which have one cause.
  unfoldable pub merge : EffectiveIssue Meta → EffectiveIssue Meta → EffectiveIssue Meta
  merge previous current =
      let severity = if blocks previous || blocks current then blocker else warning in
      let acknowledgement_required =
        previous.effective_acknowledgement_required || current.effective_acknowledgement_required in
      record {
        issue = record previous.issue {
          severity = severity;
          acknowledgement_required = acknowledgement_required;
        };
        ctx = previous.ctx;
        effective_severity = severity;
        effective_acknowledgement_required = acknowledgement_required;
        producers = λ p. previous.producers p || current.producers p;
      }

  abbrev pub merge_into : Option (EffectiveIssue Meta) → EffectiveIssue Meta → EffectiveIssue Meta
  merge_into none current = current
  merge_into (some previous) current = merge previous current

  abbrev pub order_with : Option (EffectiveIssue Meta) → String → List String → List String
  order_with none key order = order ++ key ∷ []
  order_with (some previous) key order = order

  -- The loop of `dedupe_effective_issues`, over `merged` and `order`.
  unfoldable pub merge_all :
      Dict (EffectiveIssue Meta)
      → List String
      → List (EffectiveIssue Meta)
      → Dict (EffectiveIssue Meta) × List String
  merge_all merged order [] = (merged, order)
  merge_all merged order (current ∷ rest) =
      let previous = lookup (key current) merged in
      merge_all (insert (key current) (merge_into previous current) merged)
        (order_with previous (key current) order) rest

  -- `[merged[key] for key in order]`
  unfoldable pub in_order : Dict (EffectiveIssue Meta) → List String → List (EffectiveIssue Meta)
  in_order merged [] = []
  in_order merged (k ∷ order) = elim (lookup k merged) [
    | none ↦ in_order merged order
    | some item ↦ item ∷ in_order merged order
  ]

  unfoldable pub dedupe_effective_issues : List (EffectiveIssue Meta) → List (EffectiveIssue Meta)
  dedupe_effective_issues issues = let all = merge_all [] [] issues in in_order all.0 all.1

  abbrev pub has_code : String → EffectiveIssue Meta → Bool
  has_code code item = item.ctx.code == code

  abbrev pub concerns_weather : EffectiveIssue Meta → Bool
  concerns_weather item =
      starts_with item.ctx.code "FORECAST" || starts_with item.ctx.code "WEATHER"

  abbrev pub unacknowledged : List String → EffectiveIssue Meta → Bool
  unacknowledged acknowledged item =
      item.effective_acknowledgement_required && not (any (λ k. k == item.ctx.ack_key) acknowledged)

  unfoldable pub derive_project_status :
      List (EffectiveIssue Meta) → List String → Bool → ProjectStatus
  derive_project_status issues acknowledged outcome_exists =
      if any (has_code "PROJECT_STATE_INVALID") issues
      then (if outcome_exists then manual_input_required else draft)
      else if any (has_code "ROUTE_INCOMPLETE") issues
      then route_incomplete
      else if any blocks issues
      then (if any concerns_weather (keep_if blocks issues)
          then weather_pending
          else manual_input_required)
      else if not outcome_exists
      then draft
      else if any (unacknowledged acknowledged) issues
      then calculation_warning
      else ready_for_copy

  abbrev pub readiness_blocker : Meta → String → String → Issue Meta
  readiness_blocker no_metadata code message = record {
    code = code;
    severity = blocker;
    message = message;
    section_id = none;
    segment_sequence = none;
    acknowledgement_required = false;
    metadata = no_metadata;
  }

module _ {Meta Snapshot : Type 0} (fp : Fingerprints Meta Snapshot) where
  unfoldable pub create_effective_issue :
      Issue Meta → IssueProducer → Cause Meta Snapshot → EffectiveIssue Meta
  create_effective_issue issue producer cause =
      let cause_json = fp.cause_json issue.code issue.section_id issue.segment_sequence cause in
      let cause_fingerprint = fp.digest cause_json in
      record {
        issue = issue;
        ctx = record {
          code = issue.code;
          section_id = issue.section_id;
          segment_sequence = issue.segment_sequence;
          canonical_cause_json = cause_json;
          cause_fingerprint = cause_fingerprint;
          ack_key =
              fp.warning_ack issue.code issue.section_id issue.segment_sequence cause_fingerprint;
        };
        effective_severity = issue.severity;
        effective_acknowledgement_required = issue.acknowledgement_required;
        producers = same_producer producer;
      }

  -- `_source_independent_issue_cause(issue) or otherwise`
  abbrev pub cause_or : Issue Meta → Cause Meta Snapshot → Cause Meta Snapshot
  cause_or issue otherwise =
      if issue.code == "PERFORMANCE_DATA_UNVERIFIED"
      then performance_reason (fp.reason issue.metadata)
      else otherwise

  unfoldable pub outcome_effective_issues :
      List (Issue Meta) → Option String → List (EffectiveIssue Meta)
  unfolding create_effective_issue
  outcome_effective_issues issues calculated_against =
      map
        (λ issue.
          create_effective_issue issue from_outcome
            (cause_or issue (outcome_cause calculated_against issue.metadata)))
        issues

  unfoldable pub reference_effective_issues :
      List (Issue Meta) → Option Snapshot → List (EffectiveIssue Meta)
  unfolding create_effective_issue
  reference_effective_issues issues snapshot =
      map
        (λ issue.
          create_effective_issue issue reference_data
            (cause_or issue (reference_cause snapshot issue.metadata)))
        issues
