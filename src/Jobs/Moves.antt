-- ===== src/Jobs/Moves.antt =====
-- A thread moves to another phase or ends: the invariant holds after it.
use auto_nav_log.Common.{
  ℕ, ◌+◌, String, ◌≡◌, sym, subst, inl, inr, false, some, arith, if◌then◌else◌, Bool-cases, ◌==◌,
  eq_iff,
}
use auto_nav_log.Common.Dict.{
  lookup, insert, remove, lookup-remove, lookup-insert, remove-Unique, insert-Unique,
  count_if-insert, count_if-remove,
}
use auto_nav_log.Jobs.System.{Phase, holds, World}
use auto_nav_log.Jobs.Invariant.{Inv, Expects, unsettled}

module _ {R : Type 0} {w : World R} (v : Inv w) (k : String) (ph : Phase)
    (at : lookup k w.threads ≡ some ph) where
  -- A thread goes on to its next phase, and its permit with it.
  module _ (ph' : Phase) (permits_left : ℕ) (fits : Expects ph' (lookup k w.queue.jobs))
      (serves : unsettled ph' ≡ unsettled ph)
      (balance : permits_left + (if holds ph' then 1 else 0)
        ≡ w.queue.capacity + (if holds ph then 1 else 0)) where
    pub moved-Inv : Inv (record {
      queue = record w.queue { capacity = permits_left };
      threads = insert k ph' w.threads;
    })
    moved-Inv = record {
      keyed = v.keyed;
      jobs_unique = v.jobs_unique;
      threads_unique = insert-Unique k ph' w.threads v.threads_unique;
      permits = ground (arith, v.permits, balance, count_if-insert holds k ph' w.threads);
      expected = λ l p e. elim (Bool-cases (k == l)) [
        | inl same ↦
            let kl : k ≡ l = (eq_iff k l).0 same in
            let pe : ph' ≡ p = ground (arith, lookup-insert k l ph' w.threads) in
            subst (λ q. Expects q (lookup l w.queue.jobs)) pe
              (subst (λ j. Expects ph' (lookup j w.queue.jobs)) kl fits)
        | inr differ ↦ v.expected l p (ground (arith, lookup-insert k l ph' w.threads))
      ];
      served = λ l other e f.
          let (p, pe, un) = v.served l other e f in
          elim (Bool-cases (k == l)) [
            | inl same ↦
                (ph', rw (lookup-insert, same), ground (arith, eq_iff k l, at, pe, un, serves))
            | inr differ ↦ (p, ground (arith, lookup-insert k l ph' w.threads), un)
          ];
      one_per_session = v.one_per_session;
    }

  -- A thread ends, after its permit is back.
  module _ (permits_left : ℕ)
      (balance : permits_left ≡ w.queue.capacity + (if holds ph then 1 else 0)) where
    pub ended-Inv :
        unsettled ph ≡ false
        → Inv (record {
          queue = record w.queue { capacity = permits_left };
          threads = remove k w.threads;
        })
    ended-Inv done = record {
      keyed = v.keyed;
      jobs_unique = v.jobs_unique;
      threads_unique = remove-Unique k w.threads v.threads_unique;
      permits =
          ground (arith, v.permits, balance, count_if-remove holds k w.threads v.threads_unique);
      expected = λ l p e. v.expected l p (ground (arith, lookup-remove k l w.threads));
      served = λ l other e f.
          let (p, pe, un) = v.served l other e f in
          (p, ground (arith, lookup-remove k l w.threads, eq_iff k l, at, pe, un, done), un);
      one_per_session = v.one_per_session;
    }

    pub forgotten-Inv : Inv (record {
      queue = record w.queue { capacity = permits_left; jobs = remove k w.queue.jobs };
      threads = remove k w.threads;
    })
    forgotten-Inv = record {
      keyed = λ l other e. v.keyed l other (ground (arith, lookup-remove k l w.queue.jobs));
      jobs_unique = remove-Unique k w.queue.jobs v.jobs_unique;
      threads_unique = remove-Unique k w.threads v.threads_unique;
      permits =
          ground (arith, v.permits, balance, count_if-remove holds k w.threads v.threads_unique);
      expected = λ l p e. elim (Bool-cases (k == l)) [
        | inl same ↦ ground (arith, lookup-remove k l w.threads)
        | inr differ ↦
            let lj : lookup l (remove k w.queue.jobs) ≡ lookup l w.queue.jobs =
              rw (lookup-remove, differ) in
            subst (Expects p) (sym lj)
              (v.expected l p (ground (arith, lookup-remove k l w.threads)))
      ];
      served = λ l other e f.
          let (p, pe, un) = v.served l other (ground (arith, lookup-remove k l w.queue.jobs)) f in
          (p, ground (arith, lookup-remove k l w.threads, lookup-remove k l w.queue.jobs), un);
      one_per_session = λ l m a b ea eb.
          v.one_per_session l m a b (ground (arith, lookup-remove k l w.queue.jobs))
            (ground (arith, lookup-remove k m w.queue.jobs));
    }
