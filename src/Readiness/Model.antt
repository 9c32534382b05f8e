-- ===== src/Readiness/Model.antt =====
-- The data of application/readiness.py, with the enumerations of domain/enums.py and the `Issue` of
-- domain/calculation.py. A UUID is its text.
use auto_nav_log.Common.{ℕ, String, Bool, true, false, Option, List}

pub data IssueSeverity : Type 0 where
  blocker warning : IssueSeverity

pub data ProjectStatus : Type 0 where
  draft route_incomplete forecast_required weather_pending manual_input_required : ProjectStatus
  calculation_warning ready_for_review ready_for_copy snapshotted : ProjectStatus

pub data IssueProducer : Type 0 where
  from_outcome reference_data stale_result defaults_review project_validation : IssueProducer

-- A frozenset of producers.
abbrev pub Producers : Type 0
Producers = IssueProducer → Bool

abbrev pub same_producer : IssueProducer → IssueProducer → Bool
same_producer from_outcome from_outcome = true
same_producer reference_data reference_data = true
same_producer stale_result stale_result = true
same_producer defaults_review defaults_review = true
same_producer project_validation project_validation = true
same_producer _ _ = false

-- `Meta` is an issue's free metadata.
pub record Issue (Meta : Type 0) : Type 0 where
  pub code : String
  pub severity : IssueSeverity
  pub message : String
  pub section_id : Option String
  pub segment_sequence : Option ℕ
  pub acknowledgement_required : Bool
  pub metadata : Meta

pub record IssueContext : Type 0 where
  pub code : String
  pub section_id : Option String
  pub segment_sequence : Option ℕ
  pub canonical_cause_json : String
  pub cause_fingerprint : String
  pub ack_key : String

pub record EffectiveIssue (Meta : Type 0) : Type 0 where
  pub issue : Issue Meta
  pub ctx : IssueContext
  pub effective_severity : IssueSeverity
  pub effective_acknowledgement_required : Bool
  pub producers : Producers

-- The `cause` dictionaries that the code builds. `Snapshot` is the reference data snapshot.
pub data Cause (Meta Snapshot : Type 0) : Type 0 where
  performance_reason : Meta → Cause Meta Snapshot
  outcome_cause : Option String → Meta → Cause Meta Snapshot
  reference_cause : Option Snapshot → Meta → Cause Meta Snapshot
  ui_state_invalid : Cause Meta Snapshot
  stale_cause : Option String → Option String → Cause Meta Snapshot
  defaults_cause : Option String → String → Cause Meta Snapshot
  validation_cause : Meta → Cause Meta Snapshot

-- application/fingerprints.py: the canonical text of a cause, its SHA-256 digest, and the key under
-- which a warning is acknowledged. `reason` is `metadata.get("reason")`.
pub record Fingerprints (Meta Snapshot : Type 0) : Type 0 where
  pub cause_json : String → Option String → Option ℕ → Cause Meta Snapshot → String
  pub digest : String → String
  pub warning_ack : String → Option String → Option ℕ → String → String
  pub reason : Meta → Meta

-- What readiness reads of the persisted UI state and of a calculation's outcome.
pub record UiState (Snapshot : Type 0) : Type 0 where
  pub calculated_against_fingerprint : Option String
  pub defaults_review_fingerprint : Option String
  pub reference_data_snapshot : Option Snapshot

pub record ReadinessEvaluation (Meta : Type 0) : Type 0 where
  pub effective_issues : List (EffectiveIssue Meta)
  pub status : ProjectStatus
  pub calculation_is_current : Bool

abbrev pub is_blocker : IssueSeverity → Bool
is_blocker blocker = true
is_blocker warning = false
