-- ===== src/Jobs/System.antt =====
-- The queue with the threads that use it. A thread is known by the id of its job; a step is one
-- critical section of `submit` or `_run`, or an answer of the thread pool, which takes a submission
-- or refuses it and runs what it took once, in any order. The steps of different threads interleave
-- as they please. A task reports only while it runs: its reporter is an argument of the task, which
-- web/app.py calls from inside the calculation, and `report_progress` has no test of its own.
use auto_nav_log.Common.{ℕ, String, Bool, true, false, ◌≡◌, none, some, []}
use auto_nav_log.Common.Dict.{Dict, lookup, insert, remove}
use auto_nav_log.Common.Int.{ℤ}
use auto_nav_log.Common.Result.{ok}
use auto_nav_log.Jobs.Model.{TaskError, Queue}
use auto_nav_log.Jobs.Operations.{
  create, reserve, release, forget, begin, report_progress, fail, succeed,
}

-- `reserved`: behind the `with` of `submit`, the pool not yet asked. `accepted`: the pool has the
-- task. `running`: `_run` has made its first report. `settled`: `_run` is at its `finally`.
-- `rolled_back`: `submit` has given its permit back after a refusal, and not yet popped the job.
pub data Phase : Type 0 where
  reserved accepted running settled rolled_back : Phase

-- Whether a thread in this phase has a permit of the semaphore.
abbrev pub holds : Phase → Bool
holds rolled_back = false
holds _ = true

pub record World (R : Type 0) : Type 0 where
  pub queue : Queue R
  pub threads : Dict Phase

module _ {R : Type 0} where
  -- The ids drawn by `token_urlsafe` are new: no job and no thread has one.
  pub data Step (w : World R) : World R → Type 0 where
    reserves :
        (id owner_id session_token : String) (now : ℕ) (q : Queue R)
        → lookup id w.queue.jobs ≡ none
        → lookup id w.threads ≡ none
        → reserve id owner_id session_token now w.queue ≡ ok q
        → Step w (record { queue = q; threads = insert id reserved w.threads })
    accepts :
        (id : String)
        → lookup id w.threads ≡ some reserved
        → Step w (record w { threads = insert id accepted w.threads })
    refuses :
        (id : String) (q : Queue R)
        → lookup id w.threads ≡ some reserved
        → release w.queue ≡ ok q
        → Step w (record { queue = q; threads = insert id rolled_back w.threads })
    forgets :
        (id : String)
        → lookup id w.threads ≡ some rolled_back
        → Step w (record { queue = forget id w.queue; threads = remove id w.threads })
    begins :
        (id : String) (now : ℕ) (q : Queue R)
        → lookup id w.threads ≡ some accepted
        → begin id now w.queue ≡ ok q
        → Step w (record { queue = q; threads = insert id running w.threads })
    reports :
        (id : String) (percent : ℤ) (message : String) (now : ℕ) (q : Queue R)
        → lookup id w.threads ≡ some running
        → report_progress id percent message now w.queue ≡ ok q
        → Step w (record w { queue = q })
    fails :
        (id : String) (error : TaskError) (now : ℕ) (q : Queue R)
        → lookup id w.threads ≡ some running
        → fail id error now w.queue ≡ ok q
        → Step w (record { queue = q; threads = insert id settled w.threads })
    succeeds :
        (id : String) (result : R) (now : ℕ) (q : Queue R)
        → lookup id w.threads ≡ some running
        → succeed id result now w.queue ≡ ok q
        → Step w (record { queue = q; threads = insert id settled w.threads })
    releases :
        (id : String) (q : Queue R)
        → lookup id w.threads ≡ some settled
        → release w.queue ≡ ok q
        → Step w (record { queue = q; threads = remove id w.threads })

  -- What the threads make of a queue that was created with these limits.
  pub data Reachable (workers maximum_queued : ℕ) : World R → Type 0 where
    created :
        (q : Queue R)
        → create workers maximum_queued ≡ ok q
        → Reachable workers maximum_queued (record { queue = q; threads = [] })
    next :
        {w v : World R}
        → Reachable workers maximum_queued w
        → Step w v
        → Reachable workers maximum_queued v
