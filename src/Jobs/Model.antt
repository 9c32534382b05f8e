-- ===== src/Jobs/Model.antt =====
-- web/calculation_jobs.py: the state of the bounded queue of calculations. Times are numbers, and a
-- job's id is the token that `token_urlsafe` drew.
use auto_nav_log.Common.{
  ℕ, min, String, Bool, true, false, not, ◌&&◌, Option, ltb, if◌then◌else◌, ◌==◌,
}
use auto_nav_log.Common.Dict.{Dict}
use auto_nav_log.Common.Int.{ℤ, pos, negsuc}

pub data Status : Type 0 where
  queued preparing_weather calculating succeeded failed : Status

pub record JobError : Type 0 where
  pub code : String
  pub message : String
  pub status : ℕ

-- `R` is what a task returns.
pub record Job (R : Type 0) : Type 0 where
  pub id : String
  pub owner_id : String
  pub session_token : String
  pub status : Status
  pub created_at_utc : ℕ
  pub updated_at_utc : ℕ
  pub result : Option R
  pub error : Option JobError
  pub progress_percent : ℕ
  pub progress_message : String

pub record Snapshot (R : Type 0) : Type 0 where
  pub id : String
  pub status : Status
  pub created_at_utc : ℕ
  pub updated_at_utc : ℕ
  pub result : Option R
  pub error : Option JobError
  pub queue_position : Option ℕ
  pub progress_percent : ℕ
  pub progress_message : String

-- `capacity` is the number of permits that the semaphore has left.
pub record Queue (R : Type 0) : Type 0 where
  pub workers : ℕ
  pub maximum_queued : ℕ
  pub capacity : ℕ
  pub jobs : Dict (Job R)

-- `over_released` is the ValueError of BoundedSemaphore.release.
pub data QueueError : Type 0 where
  bad_limits already_active queue_full missing_job over_released : QueueError

-- What a task may raise: the application's own error, or anything else.
pub data TaskError : Type 0 where
  web_application : String → String → ℕ → TaskError
  unexpected : TaskError

abbrev pub is_finished : Status → Bool
is_finished succeeded = true
is_finished failed = true
is_finished _ = false

abbrev pub is_queued : Status → Bool
is_queued queued = true
is_queued _ = false

abbrev pub normalized : ℤ → ℕ
normalized (pos n) = min 100 n
normalized (negsuc n) = 0

abbrev pub reported_status : ℤ → Status
reported_status (pos n) = if ltb n 30 then preparing_weather else calculating
reported_status (negsuc n) = preparing_weather

abbrev pub job_error : TaskError → JobError
job_error (web_application code message status) = record {
  code = code;
  message = message;
  status = status;
}
job_error unexpected = record {
  code = "CALCULATION_JOB_FAILED";
  message = "計算に失敗しました。";
  status = 500;
}

module _ {R : Type 0} where
  abbrev pub finished : Job R → Bool
  finished job = is_finished job.status

  abbrev pub waits : Job R → Bool
  waits job = is_queued job.status

  abbrev pub holds_session : String → Job R → Bool
  holds_session token job = job.session_token == token && not (finished job)
