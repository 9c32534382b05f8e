-- ===== src/Jobs/Guarantees.antt =====
-- What the queue promises: exclusive sessions, bounded permits, an exact answer to each submission,
-- and threads that never fail on the queue.
use auto_nav_log.Common.{ℕ, ◌↔◌, length, ◌≤◌, max, ◌*◌}
use auto_nav_log.Jobs.Invariant.{Inv, Expects}
use auto_nav_log.Common.{
  ℕ, ◌+◌, String, ◌≡◌, ◌≢◌, refl, subst, inl, inr, true, false, not, none, some, arith, count_if,
  any, Option-cases,
}
use auto_nav_log.Common.Dict.{lookup, insert, values, count_if-pos}
use auto_nav_log.Common.Result.{ok, err}
use auto_nav_log.Common.Int.{ℤ}
use auto_nav_log.Jobs.Model.{
  Job, Queue, finished, holds_session, TaskError, already_active, queue_full,
}
use auto_nav_log.Jobs.Operations.{
  new_job, create, reserve, release, forget, update, begin, report_progress, fail, succeed,
}
use auto_nav_log.Jobs.System.{
  Phase, reserved, accepted, running, settled, rolled_back, holds, World, Step, reserves, accepts,
  refuses, forgets, begins, reports, fails, succeeds, releases, Reachable, created, next,
}
use auto_nav_log.Jobs.Reserve.{reserve_keeps}
use auto_nav_log.Jobs.Safety.{Reachable-Inv}

module _ {R : Type 0} where
  -- In every reachable world, two unfinished jobs of one session are one job.
  pub session_exclusive :
      {workers maximum_queued : ℕ} {w : World R} (k l : String) (job other : Job R)
      → Reachable workers maximum_queued w
      → lookup k w.queue.jobs ≡ some job
      → lookup l w.queue.jobs ≡ some other
      → finished job ≡ false
      → finished other ≡ false
      → job.session_token ≡ other.session_token
      → k ≡ l
  session_exclusive k l job other r = (Reachable-Inv r).one_per_session k l job other

  create-limits :
      (workers maximum_queued : ℕ) (q : Queue R)
      → create workers maximum_queued ≡ ok q
      → (q.workers ≡ workers) × (q.maximum_queued ≡ maximum_queued)
  unfolding create
  create-limits workers maximum_queued q e = ground arith

  update-limits :
      (id : String) (change : Job R → Job R) (q q' : Queue R)
      → update id change q ≡ ok q'
      → (q'.workers ≡ q.workers) × (q'.maximum_queued ≡ q.maximum_queued)
  unfolding update
  update-limits id change q q' e = ground arith

  Step-limits :
      {w u : World R}
      → Step w u
      → (u.queue.workers ≡ w.queue.workers) × (u.queue.maximum_queued ≡ w.queue.maximum_queued)
  unfolding begin report_progress fail succeed forget release reserve
  Step-limits (reserves id owner_id session_token now q new idle e) = ground arith
  Step-limits (accepts id at) = (refl, refl)
  Step-limits (refuses id q at e) = ground arith
  Step-limits (forgets id at) = (refl, refl)
  Step-limits {w} (begins id now q at e) = update-limits id _ w.queue q e
  Step-limits {w} (reports id percent message now q at e) = update-limits id _ w.queue q e
  Step-limits {w} (fails id error now q at e) = update-limits id _ w.queue q e
  Step-limits {w} (succeeds id result now q at e) = update-limits id _ w.queue q e
  Step-limits (releases id q at e) = ground arith

  Reachable-limits :
      {workers maximum_queued : ℕ} {w : World R}
      → Reachable workers maximum_queued w
      → (w.queue.workers ≡ workers) × (w.queue.maximum_queued ≡ maximum_queued)
  Reachable-limits {workers} {maximum_queued} (created q e) =
      create-limits workers maximum_queued q e
  Reachable-limits (next r st) = ground (arith, Reachable-limits r, Step-limits st)

  -- In every reachable world the free permits and those that threads hold add up to
  -- `workers + maximum_queued`, so no more threads than that are between `submit` and the end of `_run`.
  pub permits_balance :
      {workers maximum_queued : ℕ} {w : World R}
      → Reachable workers maximum_queued w
      → w.queue.capacity + count_if holds (values w.threads) ≡ workers + maximum_queued
  permits_balance r = omega (arith, (Reachable-Inv r).permits, Reachable-limits r)

  -- In every reachable world, `submit` answers "already active" exactly when the session has an
  -- unfinished job, and "queue is full" exactly when it has none and threads hold all the
  -- `workers + maximum_queued` permits. So otherwise it makes the reservation.
  pub reserve_answers :
      {workers maximum_queued : ℕ} {w : World R} (id owner_id session_token : String) (now : ℕ)
      → Reachable workers maximum_queued w
      → ((reserve id owner_id session_token now w.queue ≡ err already_active)
          ↔ (any (holds_session session_token) (values w.queue.jobs) ≡ true))
        × ((reserve id owner_id session_token now w.queue ≡ err queue_full) ↔ (
            (any (holds_session session_token) (values w.queue.jobs) ≡ false)
            × (count_if holds (values w.threads) ≡ workers + maximum_queued)))
  unfolding reserve
  reserve_answers id owner_id session_token now r = (
    (λ e. ground arith, λ e. ground arith),
    (λ e. ground (arith, permits_balance r), λ e. ground (arith, permits_balance r)),
  )

  -- What a thread in each phase is about to do with the queue succeeds.
  abbrev pub GoesOn : World R → String → Phase → Type 0
  GoesOn w id reserved = (q : Queue R) × (release w.queue ≡ ok q)
  GoesOn w id accepted = (now : ℕ) → (q : Queue R) × (begin id now w.queue ≡ ok q)
  GoesOn w id running =
      ((percent : ℤ) (message : String) (now : ℕ)
        → (q : Queue R) × (report_progress id percent message now w.queue ≡ ok q))
      × ((error : TaskError) (now : ℕ) → (q : Queue R) × (fail id error now w.queue ≡ ok q))
      × ((result : R) (now : ℕ) → (q : Queue R) × (succeed id result now w.queue ≡ ok q))
  GoesOn w id settled = (q : Queue R) × (release w.queue ≡ ok q)
  GoesOn w id rolled_back = (job : Job R) × (lookup id w.queue.jobs ≡ some job)

  release_works :
      {w : World R} (id : String) (ph : Phase)
      → Inv w
      → lookup id w.threads ≡ some ph
      → holds ph ≡ true
      → (q : Queue R) × (release w.queue ≡ ok q)
  unfolding release
  release_works {w} id ph v at h = (
    record w.queue { capacity = w.queue.capacity + 1 },
    ground (arith, v.permits, count_if-pos holds id ph w.threads at h),
  )

  present :
      {w : World R} (id : String) (ph : Phase)
      → Inv w
      → lookup id w.threads ≡ some ph
      → ph ≢ settled
      → (job : Job R) × (lookup id w.queue.jobs ≡ some job)
  present {w} id ph v at h = elim (Option-cases (lookup id w.queue.jobs)) [
    | inl gone ↦ absurd (lost ph h (subst (Expects ph) gone (v.expected id ph at)))
    | inr found ↦ found
  ]
    where
      lost : (p : Phase) → p ≢ settled → Expects {R = R} p none → ⊥
      lost settled n x = n refl
      lost reserved n x = x
      lost accepted n x = x
      lost running n x = x
      lost rolled_back n x = x

  update_works :
      (id : String) (change : Job R → Job R) (q : Queue R) (job : Job R)
      → lookup id q.jobs ≡ some job
      → (q' : Queue R) × (update id change q ≡ ok q')
  unfolding update
  update_works id change q job e =
      (record q { jobs = insert id (change job) q.jobs }, rw (e, update))

  -- In every reachable world, whatever a thread does next on the queue succeeds: `_run` finds its job
  -- for each report and for its result, and a release never exceeds the semaphore's bound.
  pub no_thread_fails :
      {workers maximum_queued : ℕ} {w : World R} (id : String) (ph : Phase)
      → Reachable workers maximum_queued w
      → lookup id w.threads ≡ some ph
      → GoesOn w id ph
  unfolding begin report_progress fail succeed
  no_thread_fails id reserved r at = release_works id reserved (Reachable-Inv r) at refl
  no_thread_fails {w} id accepted r at = λ now.
      let (job, e) = present id accepted (Reachable-Inv r) at (λ x. cc) in
      update_works id _ w.queue job e
  no_thread_fails {w} id running r at =
      let (job, e) = present id running (Reachable-Inv r) at (λ x. cc) in
      (
        λ percent message now. update_works id _ w.queue job e,
        λ error now. update_works id _ w.queue job e,
        λ result now. update_works id _ w.queue job e,
      )
  no_thread_fails id settled r at = release_works id settled (Reachable-Inv r) at refl
  no_thread_fails id rolled_back r at = present id rolled_back (Reachable-Inv r) at (λ x. cc)

  -- In a reachable world, a reservation under a new id puts the queued job in the table, leaves every
  -- unfinished job as it was, and leaves at most `2 * maximum_queued` jobs in the table, or as many
  -- as are unfinished with the new one, if these are more.
  pub reservation_keeps_unfinished :
      {workers maximum_queued : ℕ} {w : World R} (id owner_id session_token : String) (now : ℕ)
      (q : Queue R)
      → Reachable workers maximum_queued w
      → lookup id w.queue.jobs ≡ none
      → lookup id w.threads ≡ none
      → reserve id owner_id session_token now w.queue ≡ ok q
      → (lookup id q.jobs ≡ some (new_job id owner_id session_token now))
        × ((k : String) (job : Job R)
            → lookup k w.queue.jobs ≡ some job
            → finished job ≡ false
            → lookup k q.jobs ≡ some job)
        × (length q.jobs
            ≤ max
                (maximum_queued * 2)
                (count_if (λ job. not (finished job)) (values w.queue.jobs) + 1))
  reservation_keeps_unfinished {w} id owner_id session_token now q r new idle e =
      let (there, kept, short) =
        reserve_keeps id owner_id session_token now q (Reachable-Inv r) new idle e in
      (there, kept, omega (arith, short, Reachable-limits r))
