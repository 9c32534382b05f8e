-- ===== src/Jobs/Progress.antt =====
-- Jobs only go forward: the progress and the stage of a job never fall, and a job that is finished
-- has its result, or its error, for good.
use auto_nav_log.Common.{ℕ, ◌<◌, ◌≤◌}
use auto_nav_log.Jobs.Invariant.{Inv}
use auto_nav_log.Common.{
  ℕ, String, ◌≡◌, refl, sym, ap, ◌∙◌, subst, ◌⊎◌, inl, inr, Bool, true, false, Option, none, some,
  arith, Bool-cases, ◌==◌, eq_iff,
}
use auto_nav_log.Common.Dict.{lookup, insert, lookup-remove, lookup-insert}
use auto_nav_log.Common.Result.{ok}
use auto_nav_log.Common.Int.{pos, ℤ}
use auto_nav_log.Common.Int.{negsuc, ℤ}
use auto_nav_log.Jobs.Model.{
  calculating, succeeded, failed, preparing_weather, normalized, reported_status, Status, Job,
  Queue, queued, finished, waits, TaskError,
}
use auto_nav_log.Jobs.Operations.{
  advance, failed_job, succeeded_job, new_job, create, reserve, release, forget, update, begin,
  report_progress, fail, succeed,
}
use auto_nav_log.Jobs.Prune.{lookup-prune-some}
use auto_nav_log.Jobs.System.{
  Phase, reserved, accepted, running, settled, rolled_back, World, Step, reserves, accepts, refuses,
  forgets, begins, reports, fails, succeeds, releases, Reachable, created, next,
}
use auto_nav_log.Jobs.Safety.{Reachable-Inv, update-eq-ok}
use auto_nav_log.Jobs.Prune.{lookup-prune-some}
use auto_nav_log.Jobs.Reserve.{reserve-eq-ok}

abbrev pub stage : Status → ℕ
stage queued = 0
stage preparing_weather = 1
stage calculating = 2
stage succeeded = 3
stage failed = 3

abbrev pub is_some {ℓ} : {A : Type ℓ} → Option A → Bool
is_some none = false
is_some (some a) = true

-- What the other fields of a job are at each status.
abbrev pub PacedAt : Status → ℕ → Bool → Bool → Type 0
PacedAt queued percent result error = (percent ≡ 0) × (result ≡ false) × (error ≡ false)
PacedAt preparing_weather percent result error = (percent < 30) × (result ≡ false) × (error ≡ false)
PacedAt calculating percent result error =
    (30 ≤ percent) × (percent ≤ 100) × (result ≡ false) × (error ≡ false)
PacedAt succeeded percent result error = (percent ≡ 100) × (result ≡ true) × (error ≡ false)
PacedAt failed percent result error = (percent ≤ 100) × (result ≡ false) × (error ≡ true)

module _ {R : Type 0} where
  abbrev pub IsPaced : Job R → Type 0
  IsPaced job = PacedAt job.status job.progress_percent (is_some job.result) (is_some job.error)

  abbrev pub AllPaced : Queue R → Type 0
  AllPaced q = (k : String) (job : Job R) → lookup k q.jobs ≡ some job → IsPaced job

  -- What a step may do to a job.
  pub record Forward (job job' : Job R) : Type 0 where
    pub progress : job.progress_percent ≤ job'.progress_percent
    pub staged : stage job.status ≤ stage job'.status
    pub kept : finished job ≡ true → job' ≡ job
    pub id : job'.id ≡ job.id
    pub owner : job'.owner_id ≡ job.owner_id
    pub session : job'.session_token ≡ job.session_token
    pub created : job'.created_at_utc ≡ job.created_at_utc

  Forward-refl : (job : Job R) → Forward job job
  Forward-refl job = record {
    progress = omega arith;
    staged = omega arith;
    kept = λ f. refl;
    id = refl;
    owner = refl;
    session = refl;
    created = refl;
  }

  -- What a change of one job does is good enough, if the job is not finished.
  abbrev Good : (Job R → Job R) → Job R → Type 0
  Good change job =
      IsPaced job → finished job ≡ false → IsPaced (change job) × Forward job (change job)

  report-Good :
      (percent : ℤ) (message : String) (now : ℕ) (job : Job R)
      → Good (advance (reported_status percent) (normalized percent) message now) job
  report-Good (pos n) message now job p f = ground arith
  report-Good (negsuc n) message now job p f = ground arith

  begin-Good :
      (message : String) (now : ℕ) (job : Job R)
      → Good (advance preparing_weather 5 message now) job
  begin-Good message now job p f = ground arith

  fail-Good : (error : TaskError) (now : ℕ) (job : Job R) → Good (failed_job error now) job
  fail-Good error now job p f = ground arith

  succeed-Good : (result : R) (now : ℕ) (job : Job R) → Good (succeeded_job result now) job
  succeed-Good result now job p f = ground arith

  -- `update` on an unfinished job by a good change.
  update-Forward :
      (id : String) (change : Job R → Job R) (q q' : Queue R)
      → ((job : Job R) → lookup id q.jobs ≡ some job → finished job ≡ false)
      → ((job : Job R) → Good change job)
      → AllPaced q
      → update id change q ≡ ok q'
      → AllPaced q'
        × ((k : String) (job job' : Job R)
            → lookup k q.jobs ≡ some job
            → lookup k q'.jobs ≡ some job'
            → Forward job job')
  update-Forward id change q q' unfinished good paced e =
      let (old, there, eq) = update-eq-ok id change q q' e in
      let step : IsPaced (change old) × Forward old (change old) =
        good old (paced id old there) (unfinished old there) in
      subst
        (λ r.
          AllPaced r
          × ((k : String) (job job' : Job R)
              → lookup k q.jobs ≡ some job
              → lookup k r.jobs ≡ some job'
              → Forward job job'))
        (sym eq)
        (
          (λ k job x. elim (Bool-cases (id == k)) [
            | inl same ↦
                let new : change old ≡ job =
                  ground (arith, lookup-insert id k (change old) q.jobs) in
                subst IsPaced new step.0
            | inr differ ↦ paced k job (ground (arith, lookup-insert id k (change old) q.jobs))
          ]),
          (λ k job job' x y. elim (Bool-cases (id == k)) [
            | inl same ↦
                let new : change old ≡ job' =
                  ground (arith, lookup-insert id k (change old) q.jobs) in
                let was : old ≡ job = ground (arith, eq_iff id k, there, x) in
                subst (Forward job) new (subst (λ j. Forward j (change old)) was step.1)
            | inr differ ↦
                let stays : job ≡ job' = ground (arith, lookup-insert id k (change old) q.jobs) in
                subst (Forward job) stays (Forward-refl job)
          ]),
        )

  same_table :
      (q q' : Queue R)
      → q'.jobs ≡ q.jobs
      → AllPaced q
      → AllPaced q'
        × ((k : String) (job job' : Job R)
            → lookup k q.jobs ≡ some job
            → lookup k q'.jobs ≡ some job'
            → Forward job job')
  same_table q q' e paced = (
    (λ k job x. paced k job (rw e at x)),
    (λ k job job' x y.
        let stays : job ≡ job' = cc (x, y, ap (lookup k) e) in
        subst (Forward job) stays (Forward-refl job)),
  )

  new_in_table :
      (id owner_id session_token : String) (now : ℕ) (q q' : Queue R)
      → reserve id owner_id session_token now q ≡ ok q'
      → (k : String) (job : Job R) → lookup k q'.jobs ≡ some job
      → ((id ≡ k) × (new_job id owner_id session_token now ≡ job)) ⊎ (lookup k q.jobs ≡ some job)
  new_in_table id owner_id session_token now q q' e k job x =
      let (left, free, permit, eq) = reserve-eq-ok id owner_id session_token now q q' e in
      let y : lookup k (insert id (new_job id owner_id session_token now) q.jobs) ≡ some job =
        lookup-prune-some q.maximum_queued k job _
          (ap (λ (r : Queue R). lookup k r.jobs) (sym eq) ∙ x) in
      ground
        (arith, eq_iff id k, y, lookup-insert id k (new_job id owner_id session_token now) q.jobs)

  abbrev Advances : World R → World R → Type 0
  Advances w u =
      AllPaced u.queue
      × ((k : String) (job job' : Job R)
          → lookup k w.queue.jobs ≡ some job
          → lookup k u.queue.jobs ≡ some job'
          → Forward job job')

  unfinished :
      {w : World R} (id : String) (ph : Phase)
      → Inv w
      → lookup id w.threads ≡ some ph
      → ((ph ≡ accepted) ⊎ (ph ≡ running))
      → (job : Job R) → lookup id w.queue.jobs ≡ some job
      → finished job ≡ false
  unfinished id settled v at c job there = ground arith
  unfinished id running v at c job there = rw there at (v.expected id running at)
  unfinished id accepted v at c job there =
      let x : waits job ≡ true = rw there at (v.expected id accepted at) in ground arith
  unfinished id reserved v at c job there = ground arith
  unfinished id rolled_back v at c job there = ground arith

  Step-Advances : {w u : World R} → Step w u → Inv w → AllPaced w.queue → Advances w u
  unfolding begin report_progress fail succeed forget release
  Step-Advances {w} (reserves id owner_id session_token now q new idle e) v p = (
    (λ k job x. elim (new_in_table id owner_id session_token now w.queue q e k job x) [
      | inl (same, eq) ↦ subst IsPaced eq (omega arith, refl, refl)
      | inr old ↦ p k job old
    ]),
    (λ k job job' x y. elim (new_in_table id owner_id session_token now w.queue q e k job' y) [
      | inl (same, eq) ↦ cc (x, new, same, ap (λ j. lookup j w.queue.jobs) same)
      | inr old ↦
          let stays : job ≡ job' = cc (x, old) in subst (Forward job) stays (Forward-refl job)
    ]),
  )
  Step-Advances {w} (accepts id at) v p = same_table w.queue w.queue refl p
  Step-Advances {w} (refuses id q at e) v p = same_table w.queue q (ground arith) p
  Step-Advances {w} (forgets id at) v p = (
    (λ k job x. p k job (ground (arith, lookup-remove id k w.queue.jobs))),
    (λ k job job' x y.
        let stays : job ≡ job' = ground (arith, lookup-remove id k w.queue.jobs) in
        subst (Forward job) stays (Forward-refl job)),
  )
  Step-Advances {w} (begins id now q at e) v p =
      update-Forward id (advance preparing_weather 5 "計算条件を確認しています。" now) w.queue q
        (unfinished id accepted v at (inl refl)) (begin-Good _ now) p e
  Step-Advances {w} (reports id percent message now q at e) v p =
      update-Forward id _ w.queue q (unfinished id running v at (inr refl))
        (report-Good percent message now) p e
  Step-Advances {w} (fails id error now q at e) v p =
      update-Forward id _ w.queue q (unfinished id running v at (inr refl)) (fail-Good error now) p
        e
  Step-Advances {w} (succeeds id result now q at e) v p =
      update-Forward id _ w.queue q (unfinished id running v at (inr refl))
        (succeed-Good result now) p e
  Step-Advances {w} (releases id q at e) v p = same_table w.queue q (ground arith) p

  create-AllPaced :
      (workers maximum_queued : ℕ) (q : Queue R) → create workers maximum_queued ≡ ok q → AllPaced q
  unfolding create lookup
  create-AllPaced workers maximum_queued q e k job x = ground arith

  -- In every reachable world a job's progress and outcome fit its status: 0% while queued, below 30%
  -- while weather is prepared, 30% to 100% while it is calculated, and a result exactly when it
  -- succeeded (with 100%), an error exactly when it failed.
  pub status_fits :
      {workers maximum_queued : ℕ} {w : World R}
      → Reachable workers maximum_queued w
      → (k : String) (job : Job R) → lookup k w.queue.jobs ≡ some job
      → IsPaced job
  status_fits {workers} {maximum_queued} (created q e) = create-AllPaced workers maximum_queued q e
  status_fits (next r st) = (Step-Advances st (Reachable-Inv r) (status_fits r)).0

  -- From a reachable world, no step lowers a job's progress or takes it back a stage, changes its
  -- id, owner, session or creation time, or touches it in any way once it is finished.
  pub Step-Forward :
      {workers maximum_queued : ℕ} {w u : World R} (k : String) (job job' : Job R)
      → Reachable workers maximum_queued w
      → Step w u
      → lookup k w.queue.jobs ≡ some job
      → lookup k u.queue.jobs ≡ some job'
      → Forward job job'
  Step-Forward k job job' r st = (Step-Advances st (Reachable-Inv r) (status_fits r)).1 k job job'
