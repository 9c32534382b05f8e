-- ===== src/Jobs/Change.antt =====
-- A thread changes its job and its phase in one step: the invariant holds after it.
use auto_nav_log.Common.{
  String, ◌≡◌, refl, sym, ap, ◌∙◌, subst, inl, inr, true, false, some, arith, Bool-cases, ◌==◌,
  eq_iff,
}
use auto_nav_log.Common.Dict.{lookup, insert, lookup-insert, insert-Unique, count_if-insert}
use auto_nav_log.Jobs.Model.{Job, finished}
use auto_nav_log.Jobs.System.{Phase, holds, World}
use auto_nav_log.Jobs.Invariant.{Inv, Expects, unsettled}

module _ {R : Type 0} where
  -- A thread puts a job in the place of its own, and goes on to its next phase.
  abbrev pub changed : World R → String → Phase → Job R → World R
  changed w k ph job = record {
    queue = record w.queue { jobs = insert k job w.queue.jobs };
    threads = insert k ph w.threads;
  }

  -- What `job'` keeps of `job`, and what the phase `ph'` has to do with it.
  pub record Continues (job job' : Job R) (ph ph' : Phase) : Type 0 where
    pub same_id : job'.id ≡ job.id
    pub same_session : job'.session_token ≡ job.session_token
    pub fits : Expects ph' (some job')
    pub permit : holds ph' ≡ holds ph
    pub stays : finished job' ≡ false → finished job ≡ false
    pub serves : finished job' ≡ false → unsettled ph' ≡ true

module _ {R : Type 0} {w : World R} (v : Inv w) (k : String) (ph ph' : Phase) (job job' : Job R)
    (at : lookup k w.threads ≡ some ph) (found : lookup k w.queue.jobs ≡ some job)
    (c : Continues job job' ph ph') where
  -- An unfinished job of the new table was one of the old, with the same session.
  was_unfinished :
      (l : String) (other : Job R)
      → lookup l (insert k job' w.queue.jobs) ≡ some other
      → finished other ≡ false
      → (old : Job R) × (lookup l w.queue.jobs ≡ some old)
        × (finished old ≡ false)
        × (old.session_token ≡ other.session_token)
  was_unfinished l other e f = elim (Bool-cases (k == l)) [
    | inl same ↦
        let kl : k ≡ l = (eq_iff k l).0 same in
        let eq : job' ≡ other = ground (arith, lookup-insert k l job' w.queue.jobs) in
        (
          job,
          rw (← kl) found,
          c.stays (rw (ap (λ (j : Job R). finished j) eq) f),
          sym c.same_session ∙ ap (λ (j : Job R). j.session_token) eq,
        )
    | inr differ ↦ (other, ground (arith, lookup-insert k l job' w.queue.jobs), f, refl)
  ]

  changed_expected :
      (l : String) (p : Phase)
      → lookup l (insert k ph' w.threads) ≡ some p
      → Expects p (lookup l (insert k job' w.queue.jobs))
  changed_expected l p e = elim (Bool-cases (k == l)) [
    | inl same ↦
        let lj : lookup l (insert k job' w.queue.jobs) ≡ some job' = rw (lookup-insert, same) in
        let pe : ph' ≡ p = ground (arith, lookup-insert k l ph' w.threads) in
        subst (Expects p) (sym lj) (subst (λ q. Expects q (some job')) pe c.fits)
    | inr differ ↦
        let lj : lookup l (insert k job' w.queue.jobs) ≡ lookup l w.queue.jobs =
          rw (lookup-insert, differ) in
        let pe : lookup l w.threads ≡ some p = ground (arith, lookup-insert k l ph' w.threads) in
        subst (Expects p) (sym lj) (v.expected l p pe)
  ]

  changed_served :
      (l : String) (other : Job R)
      → lookup l (insert k job' w.queue.jobs) ≡ some other
      → finished other ≡ false
      → (p : Phase) × (lookup l (insert k ph' w.threads) ≡ some p) × (unsettled p ≡ true)
  changed_served l other e f = elim (Bool-cases (k == l)) [
    | inl same ↦
        let eq : job' ≡ other = ground (arith, lookup-insert k l job' w.queue.jobs) in
        (ph', rw (lookup-insert, same), c.serves (rw (ap (λ (j : Job R). finished j) eq) f))
    | inr differ ↦
        let (p, pe, un) =
          v.served l other (ground (arith, lookup-insert k l job' w.queue.jobs)) f in
        (p, ground (arith, lookup-insert k l ph' w.threads), un)
  ]

  pub changed-Inv : Inv (changed w k ph' job')
  changed-Inv = record {
    keyed = λ l other e. ground (
      arith,
      lookup-insert k l job' w.queue.jobs,
      eq_iff k l,
      v.keyed l other,
      v.keyed k job,
      c.same_id,
    );
    jobs_unique = insert-Unique k job' w.queue.jobs v.jobs_unique;
    threads_unique = insert-Unique k ph' w.threads v.threads_unique;
    permits = ground (arith, v.permits, count_if-insert holds k ph' w.threads, c.permit);
    expected = changed_expected;
    served = changed_served;
    one_per_session = λ l m a b ea eb fa fb s.
        let (a', ea', fa', sa) = was_unfinished l a ea fa in
        let (b', eb', fb', sb) = was_unfinished m b eb fb in
        v.one_per_session l m a' b' ea' eb' fa' fb' (sa ∙ s ∙ sym sb);
  }
