-- ===== src/Jobs/Safety.antt =====
-- The invariant holds in every world that the threads can reach, and in such a world no operation
-- of a thread fails: no job is missing, and no permit is given back twice.
use auto_nav_log.Common.{ℕ}
use auto_nav_log.Jobs.Invariant.{Inv, Expects}
use auto_nav_log.Common.{
  ℕ, ◌+◌, String, ◌≡◌, refl, sym, subst, inl, inr, some, [], arith, Option-cases,
}
use auto_nav_log.Common.Dict.{lookup, insert, remove, insert_same}
use auto_nav_log.Common.Result.{ok}
use auto_nav_log.Common.Int.{pos}
use auto_nav_log.Jobs.Model.{preparing_weather, normalized, reported_status, Job, Queue}
use auto_nav_log.Jobs.Operations.{
  advance, failed_job, succeeded_job, create, release, forget, update, begin, report_progress, fail,
  succeed,
}
use auto_nav_log.Jobs.System.{
  Phase, reserved, accepted, running, settled, rolled_back, World, Step, reserves, accepts, refuses,
  forgets, begins, reports, fails, succeeds, releases, Reachable, created, next,
}
use auto_nav_log.Jobs.Change.{Continues, changed-Inv}
use auto_nav_log.Jobs.Moves.{moved-Inv, ended-Inv, forgotten-Inv}
use auto_nav_log.Jobs.Reserve.{reserve-Inv}

module _ {R : Type 0} where
  create-Inv :
      (workers maximum_queued : ℕ) (q : Queue R)
      → create workers maximum_queued ≡ ok q
      → Inv (record { queue = q; threads = [] })
  unfolding create lookup
  create-Inv workers maximum_queued q e = record {
    keyed = λ k job x. ground arith;
    jobs_unique = ground arith;
    threads_unique = tt;
    permits = ground arith;
    expected = λ k ph x. cc;
    served = λ k job x f. ground arith;
    one_per_session = λ k l a b x y. ground arith;
  }

  -- `update` changes one job that is there.
  pub update-eq-ok :
      (id : String) (change : Job R → Job R) (q q' : Queue R)
      → update id change q ≡ ok q'
      → (job : Job R) × (lookup id q.jobs ≡ some job)
        × (q' ≡ record q { jobs = insert id (change job) q.jobs })
  unfolding update
  update-eq-ok id change q q' e = elim (Option-cases (lookup id q.jobs)) [
    | inl gone ↦ ground arith
    | inr (job, there) ↦ (job, there, ground arith)
  ]

  -- A thread whose job is changed by `update` goes on.
  updated-Inv :
      {w : World R} (id : String) (ph ph' : Phase) (change : Job R → Job R) (q : Queue R)
      → Inv w
      → lookup id w.threads ≡ some ph
      → update id change w.queue ≡ ok q
      → ((job : Job R) → Expects ph (some job) → Continues job (change job) ph ph')
      → Inv (record { queue = q; threads = insert id ph' w.threads })
  updated-Inv {w} id ph ph' change q v at e keep =
      let (job, there, eq) = update-eq-ok id change w.queue q e in
      subst (λ r. Inv (record { queue = r; threads = insert id ph' w.threads })) (sym eq)
        (changed-Inv v id ph ph' job (change job) at there
          (keep job (rw there at (v.expected id ph at))))

  pub release-eq-ok :
      (q q' : Queue R) → release q ≡ ok q' → q' ≡ record q { capacity = q.capacity + 1 }
  unfolding release
  release-eq-ok q q' e = ground arith

  Step-Inv : {w u : World R} → Step w u → Inv w → Inv u
  unfolding begin report_progress fail succeed forget
  Step-Inv (reserves id owner_id session_token now q new idle e) v =
      reserve-Inv id owner_id session_token now q v new idle e
  Step-Inv {w} (accepts id at) v =
      moved-Inv v id reserved at accepted w.queue.capacity (v.expected id reserved at) refl refl
  Step-Inv {w} (refuses id q at e) v =
      subst (λ r. Inv (record { queue = r; threads = insert id rolled_back w.threads }))
        (sym (release-eq-ok w.queue q e))
        (moved-Inv v id reserved at rolled_back (w.queue.capacity + 1) (v.expected id reserved at)
          refl (omega arith))
  Step-Inv {w} (forgets id at) v = forgotten-Inv v id rolled_back at w.queue.capacity (omega arith)
  Step-Inv (begins id now q at e) v =
      updated-Inv id accepted running
        (advance preparing_weather (normalized (pos 5)) "計算条件を確認しています。" now) q v at e
        (λ job x. ground arith)
  Step-Inv {w} (reports id percent message now q at e) v =
      subst (λ t. Inv (record { queue = q; threads = t })) (insert_same id running w.threads at)
        (updated-Inv id running running
          (advance (reported_status percent) (normalized percent) message now) q v at e
          (λ job x. ground arith))
  Step-Inv (fails id error now q at e) v =
      updated-Inv id running settled (failed_job error now) q v at e (λ job x. ground arith)
  Step-Inv (succeeds id result now q at e) v =
      updated-Inv id running settled (succeeded_job result now) q v at e (λ job x. ground arith)
  Step-Inv {w} (releases id q at e) v =
      subst (λ r. Inv (record { queue = r; threads = remove id w.threads }))
        (sym (release-eq-ok w.queue q e))
        (ended-Inv v id settled at (w.queue.capacity + 1) (omega arith) refl)

  -- In every world that the threads reach, by whatever interleaving, the invariant holds.
  pub Reachable-Inv :
      {workers maximum_queued : ℕ} {w : World R} → Reachable workers maximum_queued w → Inv w
  Reachable-Inv {workers} {maximum_queued} (created q e) = create-Inv workers maximum_queued q e
  Reachable-Inv (next r st) = Step-Inv st (Reachable-Inv r)
