-- ===== src/Jobs/Operations.antt =====
-- web/calculation_jobs.py: the operations. Each function is what one critical section of the queue's
-- lock does; the thread pool is the environment (Jobs/System).
use mathlib.Core.Option
use auto_nav_log.Common.{
  ℕ, zero, suc, ◌+◌, ◌-◌, ◌*◌, String, ◌&&◌, ◌||◌, Option, none, some, List, [], ◌∷◌, ltb, leb,
  if◌then◌else◌, length, take, keep_if, any, ◌==◌,
}
use auto_nav_log.Common.Dict.{Dict, lookup, insert, remove, values}
use auto_nav_log.Common.Int.{ℤ, pos}
use auto_nav_log.Common.Result.{Result, ok, err}
use auto_nav_log.Common.Sorting.{sort_by}
use auto_nav_log.Jobs.Model.{
  Status, queued, preparing_weather, succeeded, failed, TaskError, QueueError, bad_limits,
  already_active, queue_full, missing_job, over_released, Job, Snapshot, Queue, normalized,
  reported_status, job_error, finished, waits, holds_session,
}

module _ {R : Type 0} where
  unfoldable pub create : ℕ → ℕ → Result QueueError (Queue R)
  create workers maximum_queued =
      if ltb workers 1 || ltb maximum_queued 1
      then err bad_limits
      else ok (record {
        workers = workers;
        maximum_queued = maximum_queued;
        capacity = workers + maximum_queued;
        jobs = [];
      })

  unfoldable pub pop_all : List (Job R) → Dict (Job R) → Dict (Job R)
  pop_all [] jobs = jobs
  pop_all (item ∷ items) jobs = pop_all items (remove item.id jobs)

  unfoldable pub stale : ℕ → Dict (Job R) → List (Job R)
  stale maximum_history jobs =
      take (length jobs - maximum_history)
        (sort_by (λ item. item.updated_at_utc) (keep_if finished (values jobs)))

  -- `_prune`
  unfoldable pub prune : ℕ → Dict (Job R) → Dict (Job R)
  unfolding pop_all stale
  prune maximum_queued jobs =
      let maximum_history = maximum_queued * 2 in
      if leb (length jobs) maximum_history then jobs else pop_all (stale maximum_history jobs) jobs

  abbrev pub new_job : String → String → String → ℕ → Job R
  new_job id owner_id session_token now = record {
    id = id;
    owner_id = owner_id;
    session_token = session_token;
    status = queued;
    created_at_utc = now;
    updated_at_utc = now;
    result = none;
    error = none;
    progress_percent = 0;
    progress_message = "計算待ちです。";
  }

  -- `submit`, up to the end of its `with` block.
  unfoldable pub reserve : String → String → String → ℕ → Queue R → Result QueueError (Queue R)
  reserve id owner_id session_token now q =
      if any (holds_session session_token) (values q.jobs)
      then err already_active
      else elim q.capacity [
        | zero ↦ err queue_full
        | suc permits ↦ ok (record q {
          capacity = permits;
          jobs = prune q.maximum_queued (insert id (new_job id owner_id session_token now) q.jobs);
        })
      ]

  -- `_capacity.release()`
  unfoldable pub release : Queue R → Result QueueError (Queue R)
  release q =
      if ltb q.capacity (q.workers + q.maximum_queued)
      then ok (record q { capacity = q.capacity + 1 })
      else err over_released

  -- The `except` of `submit`, after its release.
  unfoldable pub forget : String → Queue R → Queue R
  forget id q = record q { jobs = remove id q.jobs }

  abbrev pub advance : Status → ℕ → String → ℕ → Job R → Job R
  advance status percent message now job =
      if ltb percent job.progress_percent then job else record job {
        status = status;
        progress_percent = percent;
        progress_message = message;
        updated_at_utc = now;
      }

  -- `self._jobs[job_id]`, and what is done to that job.
  unfoldable pub update : String → (Job R → Job R) → Queue R → Result QueueError (Queue R)
  update id change q = elim (lookup id q.jobs) [
    | none ↦ err missing_job
    | some job ↦ ok (record q { jobs = insert id (change job) q.jobs })
  ]

  -- `_set_progress`
  unfoldable pub set_progress :
      String → Status → ℤ → String → ℕ → Queue R → Result QueueError (Queue R)
  set_progress id status percent message now =
      update id (advance status (normalized percent) message now)

  unfoldable pub report_progress : String → ℤ → String → ℕ → Queue R → Result QueueError (Queue R)
  unfolding set_progress
  report_progress id percent message now =
      set_progress id (reported_status percent) percent message now

  -- `_run`, before the task
  unfoldable pub begin : String → ℕ → Queue R → Result QueueError (Queue R)
  unfolding set_progress
  begin id now = set_progress id preparing_weather (pos 5) "計算条件を確認しています。" now

  -- `_run`, its `except` and its `else`
  abbrev pub failed_job : TaskError → ℕ → Job R → Job R
  failed_job error now job = record job {
    status = failed;
    error = some (job_error error);
    updated_at_utc = now;
  }

  abbrev pub succeeded_job : R → ℕ → Job R → Job R
  succeeded_job result now job = record job {
    status = succeeded;
    result = some result;
    progress_percent = 100;
    progress_message = "NAV LOGの計算が完了しました。";
    updated_at_utc = now;
  }

  unfoldable pub fail : String → TaskError → ℕ → Queue R → Result QueueError (Queue R)
  fail id error now = update id (failed_job error now)

  unfoldable pub succeed : String → R → ℕ → Queue R → Result QueueError (Queue R)
  succeed id result now = update id (succeeded_job result now)

  -- The first index from `start` at which the id stands.
  unfoldable pub index_of : String → ℕ → List (Job R) → Option ℕ
  index_of id start [] = none
  index_of id start (item ∷ items) =
      if item.id == id then some start else index_of id (start + 1) items

  unfoldable pub queue_position : Job R → Queue R → Option ℕ
  unfolding index_of
  queue_position job q =
      if waits job
      then index_of job.id 1 (sort_by (λ item. item.created_at_utc) (keep_if waits (values q.jobs)))
      else none

  unfoldable pub get : String → String → String → Queue R → Option (Job R)
  get id owner_id session_token q = elim (lookup id q.jobs) [
    | none ↦ none
    | some job ↦
        if job.owner_id == owner_id && job.session_token == session_token then some job else none
  ]

  unfoldable pub snapshot : String → String → String → Queue R → Option (Snapshot R)
  unfolding get queue_position
  snapshot id owner_id session_token q =
      Option.map
        (λ (job : Job R). record {
          id = job.id;
          status = job.status;
          created_at_utc = job.created_at_utc;
          updated_at_utc = job.updated_at_utc;
          result = job.result;
          error = job.error;
          queue_position = queue_position job q;
          progress_percent = job.progress_percent;
          progress_message = job.progress_message;
        })
        (get id owner_id session_token q)
