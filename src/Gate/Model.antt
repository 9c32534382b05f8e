-- ===== src/Gate/Model.antt =====
-- scripts/static_ops/external_trigger_gate.py: what the gate reads, as decoded from JSON. A field that is
-- missing or of another type is `none`. Times are seconds since 1970 in UTC.
use auto_nav_log.Common.{ℕ, String, Bool, Option, List}
use auto_nav_log.Common.Int.{ℤ}

-- `unexpected` is an exception that is no GateRejection.
pub data Reason : Type 0 where
  unknown_lock unknown_lease lock_not_held lock_conflict lock_missing unknown_actions_status :
      Reason
  invalid_inputs invalid_observed_run current_request_missing daily_limit per_run_limit : Reason
  duplicate_request active_conflict cooldown unexpected response_too_large : Reason
  history_shape history_count_type history_count_range history_rows_range : Reason
  history_duplicate_id history_count_mismatch invalid_detected_run : Reason

-- A member of the concurrency group.
pub record Member : Type 0 where
  pub run_id : Option ℤ
  pub has_job_id : Bool
  pub status : Option String

pub record Lock : Type 0 where
  pub group_name : Option String
  pub total_count : Option ℤ
  pub group_members : Option (List Member)

-- A workflow run. `day` is the first ten characters of its `created_at`.
pub record Run : Type 0 where
  pub id : ℕ
  pub status : String
  pub display_title : String
  pub created_at : ℕ
  pub day : String

-- The inputs of the event, with the defaults of `get`, and the environment's GITHUB_RUN_ATTEMPT.
-- `feed_refresh` and `publish` say whether the input is True or "true", `source_sha` whether it is given.
pub record Trigger : Type 0 where
  pub feed_refresh : Bool
  pub publish : Bool
  pub source_sha : Bool
  pub observed_run : String
  pub request_id : String
  pub run_attempt : String

-- What the gate takes of Python: `re.fullmatch` with that many `\d`, `datetime.strptime` with
-- "%Y%m%d%H%M%S" (`none` where it raises), and `date().isoformat()`.
pub record Calendar : Type 0 where
  pub is_digits : ℕ → String → Bool
  pub strptime : String → Option ℕ
  pub date : ℕ → String
