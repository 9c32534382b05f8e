-- ===== src/Jobs/Invariant.antt =====
-- The invariant of the queue and its threads: permits are neither lost nor made up, each thread finds
-- its job in the state that it expects, each unfinished job has its thread, and a session has at
-- most one unfinished job.
use auto_nav_log.Common.{◌+◌, String, ◌≡◌, Bool, true, false, Option, none, some, count_if}
use auto_nav_log.Common.Dict.{lookup, values, Unique}
use auto_nav_log.Jobs.Model.{Job, finished, waits}
use auto_nav_log.Jobs.Prune.{Keyed}
use auto_nav_log.Jobs.System.{Phase, running, settled, holds, World}

-- A thread in this phase still has to finish its job.
abbrev pub unsettled : Phase → Bool
unsettled settled = false
unsettled _ = true

module _ {R : Type 0} where
  -- What a thread may rely on to find in the table.
  abbrev pub Expects : Phase → Option (Job R) → Type 0
  Expects settled none = Unit {0}
  Expects settled (some job) = finished job ≡ true
  Expects running none = ⊥
  Expects running (some job) = finished job ≡ false
  Expects _ none = ⊥
  Expects _ (some job) = waits job ≡ true

  pub record Inv (w : World R) : Type 0 where
    pub keyed : Keyed w.queue.jobs
    pub jobs_unique : Unique w.queue.jobs
    pub threads_unique : Unique w.threads
    pub permits :
        w.queue.capacity + count_if holds (values w.threads)
        ≡ w.queue.workers + w.queue.maximum_queued
    pub expected :
        (k : String) (ph : Phase)
        → lookup k w.threads ≡ some ph
        → Expects ph (lookup k w.queue.jobs)
    pub served :
        (k : String) (job : Job R)
        → lookup k w.queue.jobs ≡ some job
        → finished job ≡ false
        → (ph : Phase) × (lookup k w.threads ≡ some ph) × (unsettled ph ≡ true)
    pub one_per_session :
        (k l : String) (job other : Job R)
        → lookup k w.queue.jobs ≡ some job
        → lookup l w.queue.jobs ≡ some other
        → finished job ≡ false
        → finished other ≡ false
        → job.session_token ≡ other.session_token
        → k ≡ l
