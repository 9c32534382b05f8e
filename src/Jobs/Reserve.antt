-- ===== src/Jobs/Reserve.antt =====
-- `submit` makes its reservation: the invariant holds after it.
use auto_nav_log.Common.{
  ℕ, suc, ◌+◌, ◌-◌, String, ◌≡◌, ◌≢◌, refl, sym, ap, ◌∙◌, subst, ◌⊎◌, inl, inr, false, not, Option,
  none, some, arith, count_if, any, any-false-All, Bool-cases, Option-cases, ◌==◌, eq_iff, eq_refl,
  length, ◌≤◌, max, ◌*◌,
}
use auto_nav_log.Common.Dict.{
  Dict, lookup, insert, values, Unique, lookup-insert, insert-Unique, count_if-insert, All-values,
}
use auto_nav_log.Common.Result.{ok}
use auto_nav_log.Jobs.Model.{Job, Queue, finished, holds_session}
use auto_nav_log.Jobs.Operations.{new_job, reserve, prune}
use auto_nav_log.Jobs.Prune.{
  Keyed, lookup-prune_active, lookup-prune-some, prune-Unique, length-prune,
}
use auto_nav_log.Jobs.System.{Phase, reserved, settled, holds, World}
use auto_nav_log.Jobs.Invariant.{Inv, Expects}

module _ {R : Type 0} {w : World R} (v : Inv w) (id owner_id session_token : String) (now : ℕ)
    (left : ℕ) (new : lookup id w.queue.jobs ≡ none) (idle : lookup id w.threads ≡ none)
    (free : any (holds_session session_token) (values w.queue.jobs) ≡ false)
    (permit : w.queue.capacity ≡ suc left) where
  grown : Dict (Job R)
  grown = insert id (new_job id owner_id session_token now) w.queue.jobs

  -- No unfinished job has the session.
  free_session :
      (l : String) (other : Job R)
      → lookup l w.queue.jobs ≡ some other
      → finished other ≡ false
      → session_token ≢ other.session_token
  free_session l other e f s =
      let no : holds_session session_token other ≡ false =
        All-values (λ job. holds_session session_token job ≡ false) l other w.queue.jobs e
          (any-false-All (holds_session session_token) (values w.queue.jobs) free) in
      ground (arith, eq_iff other.session_token session_token, no, f, s)

  -- A job of the grown table is the new one, or one of the old.
  grown_cases :
      (l : String) (other : Job R)
      → lookup l grown ≡ some other
      → ((id ≡ l) × (new_job id owner_id session_token now ≡ other))
        ⊎ (lookup l w.queue.jobs ≡ some other)
  unfolding grown
  grown_cases l other e = elim (Bool-cases (id == l)) [
    | inl same ↦ inl (
      (eq_iff id l).0 same,
      ground (arith, lookup-insert id l (new_job id owner_id session_token now) w.queue.jobs),
    )
    | inr differ ↦
        inr
          (ground (arith, lookup-insert id l (new_job id owner_id session_token now) w.queue.jobs))
  ]

  grown-Keyed : Keyed grown
  grown-Keyed l other e = elim (grown_cases l other e) [
    | inl (same, eq) ↦ ap (λ (j : Job R). j.id) (sym eq) ∙ same
    | inr old ↦ v.keyed l other old
  ]

  pruned : Dict (Job R)
  pruned = prune w.queue.maximum_queued grown

  grown-Unique : Unique grown
  unfolding grown
  grown-Unique = insert-Unique id _ w.queue.jobs v.jobs_unique

  new_kept : lookup id pruned ≡ some (new_job id owner_id session_token now)
  unfolding pruned grown
  new_kept =
      lookup-prune_active w.queue.maximum_queued id (new_job id owner_id session_token now) grown
        grown-Keyed grown-Unique (rw lookup-insert (rw (eq_refl id))) refl

  old_kept :
      (l : String) (job : Job R)
      → (id == l) ≡ false
      → lookup l w.queue.jobs ≡ some job
      → finished job ≡ false
      → lookup l pruned ≡ some job
  unfolding pruned grown
  old_kept l job differ e f =
      lookup-prune_active w.queue.maximum_queued l job grown grown-Keyed grown-Unique
        (rw (lookup-insert, differ) e) f

  pruned_cases :
      (l : String) (other : Job R)
      → lookup l pruned ≡ some other
      → ((id ≡ l) × (new_job id owner_id session_token now ≡ other))
        ⊎ (lookup l w.queue.jobs ≡ some other)
  unfolding pruned
  pruned_cases l other e =
      grown_cases l other (lookup-prune-some w.queue.maximum_queued l other grown e)

  -- A job that a thread expects unfinished is still there.
  still_expected :
      (l : String) (p : Phase) (old : Option (Job R))
      → (id == l) ≡ false
      → lookup l w.queue.jobs ≡ old
      → Expects p old
      → Expects p (lookup l pruned)
  still_expected l settled old differ e x = elim (Option-cases (lookup l pruned)) [
    | inl gone ↦ rw gone tt
    | inr (job, there) ↦ elim (pruned_cases l job there) [
      | inl (same, _) ↦ ground (arith, eq_iff id l)
      | inr stays ↦ rw there (subst (Expects settled) (sym e ∙ stays) x)
    ]
  ]
  still_expected l p none differ e x = absurd x
  still_expected l p (some job) differ e x = rw (old_kept l job differ e (ground arith)) x

  -- The other's session is not the new job's.
  clash :
      (l : String) (other : Job R)
      → lookup l w.queue.jobs ≡ some other
      → finished other ≡ false
      → {fresh : Job R} → new_job id owner_id session_token now ≡ fresh
      → fresh.session_token ≡ other.session_token
      → ⊥
  clash l other e f eq s = free_session l other e f (ap (λ (j : Job R). j.session_token) eq ∙ s)

  reserved-Inv : Inv (record {
    queue = record w.queue { capacity = left; jobs = pruned };
    threads = insert id reserved w.threads;
  })
  reserved-Inv = record {
    keyed = λ l other e.
        grown-Keyed l other
          (unfold pruned in lookup-prune-some w.queue.maximum_queued l other grown e);
    jobs_unique = unfold pruned in prune-Unique w.queue.maximum_queued grown grown-Unique;
    threads_unique = insert-Unique id reserved w.threads v.threads_unique;
    permits = ground (arith, v.permits, permit, idle, count_if-insert holds id reserved w.threads);
    expected = λ l p e. elim (Bool-cases (id == l)) [
      | inl same ↦
          let il : id ≡ l = (eq_iff id l).0 same in
          let pe : reserved ≡ p = ground (arith, lookup-insert id l reserved w.threads) in
          subst (λ q. Expects q (lookup l pruned)) pe
            (subst (λ j. Expects reserved (lookup j pruned)) il
              (subst (Expects reserved) (sym new_kept) refl))
      | inr differ ↦
          let pe : lookup l w.threads ≡ some p =
            ground (arith, lookup-insert id l reserved w.threads) in
          still_expected l p (lookup l w.queue.jobs) differ refl (v.expected l p pe)
    ];
    served = λ l other e f. elim (pruned_cases l other e) [
      | inl (same, _) ↦ (reserved, rw (lookup-insert, (eq_iff id l).1 same), refl)
      | inr old ↦
          let (p, pe, un) = v.served l other old f in
          (p, ground (arith, lookup-insert id l reserved w.threads, eq_iff id l, idle, pe), un)
    ];
    one_per_session = λ l m a b ea eb fa fb s. elim (pruned_cases l a ea) [
      | inl (la, ga) ↦ elim (pruned_cases m b eb) [
        | inl (mb, _) ↦ sym la ∙ mb
        | inr old ↦ absurd (clash m b old fb ga s)
      ]
      | inr old_a ↦ elim (pruned_cases m b eb) [
        | inl (mb, gb) ↦ absurd (clash l a old_a fa gb (sym s))
        | inr old_b ↦ v.one_per_session l m a b old_a old_b fa fb s
      ]
    ];
  }

-- What a reservation that is made says of the queue before, and what it makes of it.
pub reserve-eq-ok :
    {R : Type 0} (id owner_id session_token : String) (now : ℕ) (q q' : Queue R)
    → reserve id owner_id session_token now q ≡ ok q'
    → (left : ℕ) × (any (holds_session session_token) (values q.jobs) ≡ false)
      × (q.capacity ≡ suc left)
      × (q' ≡ record q {
        capacity = left;
        jobs = prune q.maximum_queued (insert id (new_job id owner_id session_token now) q.jobs);
      })
unfolding reserve
reserve-eq-ok id owner_id session_token now q q' e =
    (q.capacity - 1, ground arith, ground arith, ground arith)

-- Whatever `reserve` returns keeps the invariant.
pub reserve-Inv :
    {R : Type 0} {w : World R} (id owner_id session_token : String) (now : ℕ) (q : Queue R)
    → Inv w
    → lookup id w.queue.jobs ≡ none
    → lookup id w.threads ≡ none
    → reserve id owner_id session_token now w.queue ≡ ok q
    → Inv (record { queue = q; threads = insert id reserved w.threads })
unfolding pruned grown
reserve-Inv {w} id owner_id session_token now q v new idle e =
    let (left, free, permit, eq) = reserve-eq-ok id owner_id session_token now w.queue q e in
    subst (λ r. Inv (record { queue = r; threads = insert id reserved w.threads })) (sym eq)
      (reserved-Inv v id owner_id session_token now left new idle free permit)

-- A reservation: the new job is there and queued, the unfinished jobs are as they were, and old
-- finished jobs make room.
pub reserve_keeps :
    {R : Type 0} {w : World R} (id owner_id session_token : String) (now : ℕ) (q : Queue R)
    → Inv w
    → lookup id w.queue.jobs ≡ none
    → lookup id w.threads ≡ none
    → reserve id owner_id session_token now w.queue ≡ ok q
    → (lookup id q.jobs ≡ some (new_job id owner_id session_token now))
      × ((k : String) (job : Job R)
          → lookup k w.queue.jobs ≡ some job
          → finished job ≡ false
          → lookup k q.jobs ≡ some job)
      × (length q.jobs
          ≤ max
              (w.queue.maximum_queued * 2)
              (count_if (λ job. not (finished job)) (values w.queue.jobs) + 1))
unfolding pruned grown
reserve_keeps {w} id owner_id session_token now q v new idle e =
    let (left, free, permit, eq) = reserve-eq-ok id owner_id session_token now w.queue q e in
    let jobs_eq : q.jobs ≡ pruned v id owner_id session_token now left new idle free permit =
      ap (λ (r : Queue _). r.jobs) eq in
    let counted : count_if (λ job. not (finished job))
          (values (insert id (new_job id owner_id session_token now) w.queue.jobs))
        ≡ count_if (λ job. not (finished job)) (values w.queue.jobs) + 1 =
      ground (
        arith,
        new,
        count_if-insert (λ job. not (finished job)) id (new_job id owner_id session_token now)
            w.queue.jobs,
      ) in
    (
      rw jobs_eq (new_kept v id owner_id session_token now left new idle free permit),
      (λ k job x f.
          let differ : (id == k) ≡ false = ground (arith, eq_iff id k, new, x) in
          rw jobs_eq
            (old_kept v id owner_id session_token now left new idle free permit k job differ x f)),
      omega (
        arith,
        ap length jobs_eq,
        counted,
        length-prune w.queue.maximum_queued
            (grown v id owner_id session_token now left new idle free permit)
            (grown-Keyed v id owner_id session_token now left new idle free permit)
            (grown-Unique v id owner_id session_token now left new idle free permit),
      ),
    )
