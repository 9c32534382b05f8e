-- ===== src/Taf/Invariant.antt =====
-- What holds of the provider and its fetches in every reachable world, and that a step keeps it.
use auto_nav_log.Common.{
  ℕ, ◌+◌, String, ◌≡◌, sym, ap, ◌∙◌, subst, inl, inr, true, some, arith, if◌then◌else◌, count_if,
  Bool-cases, ◌==◌, eq_iff,
}
use auto_nav_log.Common.Dict.{
  Dict, lookup, insert, values, Unique, lookup-insert, insert-Unique, count_if-insert,
}
use auto_nav_log.Taf.Fetch.{PendingTafFetch, Provider, answered}
use auto_nav_log.Taf.System.{Phase, holds_slot, in_flight, has_answer, World}

module _ {R E : Type 0} where
  -- The object of a fetch that is in flight stands in `_inflight` under its airport.
  pub record Working (pendings : Dict (PendingTafFetch R E)) (inflight : Dict String) (id : String)
      (phase : Phase) : Type 0 where
    pub pending : PendingTafFetch R E
    pub there : lookup id pendings ≡ some pending
    pub registered : in_flight phase ≡ true → lookup pending.airport inflight ≡ some id
    pub has_ended : has_answer phase ≡ true → answered pending ≡ true

  -- An entry of `_inflight` is for its airport, and a worker will take it out.
  pub record Flying (pendings : Dict (PendingTafFetch R E)) (fetches : Dict Phase)
      (airport id : String) : Type 0 where
    pub pending : PendingTafFetch R E
    pub phase : Phase
    pub there : lookup id pendings ≡ some pending
    pub fits : pending.airport ≡ airport
    pub works : lookup id fetches ≡ some phase
    pub flies : in_flight phase ≡ true

module _ {R E : Type 0} (Served : String → R → Type 0) where
  -- What was read was served for the airport of the object, and a completed object has an answer.
  pub record Sound (pending : PendingTafFetch R E) : Type 0 where
    pub served : (records : R) → pending.records ≡ some records → Served pending.airport records
    pub complete : pending.completed ≡ true → answered pending ≡ true

  pub record Inv (w : World R E) : Type 0 where
    pub unique : Unique w.fetches
    pub balance :
        w.provider.slots + count_if holds_slot (values w.fetches)
        ≡ w.provider.maximum_concurrent_fetches
    pub working :
        (id : String) (phase : Phase)
        → lookup id w.fetches ≡ some phase
        → Working w.provider.pendings w.provider.inflight id phase
    pub sound :
        (id : String) (pending : PendingTafFetch R E)
        → lookup id w.provider.pendings ≡ some pending
        → Sound pending
    pub flying :
        (airport id : String)
        → lookup airport w.provider.inflight ≡ some id
        → Flying w.provider.pendings w.fetches airport id
    pub cached :
        (airport : String) (at : ℕ) (records : R)
        → lookup airport w.provider.cache ≡ some (at, records)
        → Served airport records

  -- A write to one object, by which its fetch may go on to another phase.
  module _ {w : World R E} (v : Inv w) (id : String) (old new : PendingTafFetch R E)
      (there : lookup id w.provider.pendings ≡ some old) (airport_stays : new.airport ≡ old.airport)
      (answer_stays : answered old ≡ true → answered new ≡ true) (good : Sound new) where
    abbrev written : Provider R E
    written = record w.provider { pendings = insert id new w.provider.pendings }

    written-Working :
        (other : String) (phase : Phase)
        → Working w.provider.pendings w.provider.inflight other phase
        → Working written.pendings w.provider.inflight other phase
    written-Working other phase k = elim (Bool-cases (id == other)) [
      | inl same ↦
          let was : k.pending ≡ old = ground (arith, k.there, there, eq_iff id other) in
          record {
            pending = new;
            there = rw (lookup-insert, same);
            registered = λ f.
                ap (λ a. lookup a w.provider.inflight)
                  (airport_stays ∙ ap (λ i. i.airport) (sym was))
                ∙ k.registered f;
            has_ended = λ h. answer_stays (ap (λ i. answered i) (sym was) ∙ k.has_ended h);
          }
      | inr differ ↦ record {
        pending = k.pending;
        there = rw (lookup-insert, differ) k.there;
        registered = k.registered;
        has_ended = k.has_ended;
      }
    ]

    written-Sound :
        (other : String) (pending : PendingTafFetch R E)
        → lookup other written.pendings ≡ some pending
        → Sound pending
    written-Sound other pending e = elim (Bool-cases (id == other)) [
      | inl same ↦
          let is_new : new ≡ pending =
            ground (arith, lookup-insert id other new w.provider.pendings) in
          subst Sound is_new good
      | inr differ ↦
          v.sound other pending (ground (arith, lookup-insert id other new w.provider.pendings))
    ]

    written-Flying :
        (airport other : String)
        → Flying w.provider.pendings w.fetches airport other
        → Flying written.pendings w.fetches airport other
    written-Flying airport other k = elim (Bool-cases (id == other)) [
      | inl same ↦
          let was : k.pending ≡ old = ground (arith, k.there, there, eq_iff id other) in
          record {
            pending = new;
            phase = k.phase;
            there = rw (lookup-insert, same);
            fits = airport_stays ∙ ap (λ i. i.airport) (sym was) ∙ k.fits;
            works = k.works;
            flies = k.flies;
          }
      | inr differ ↦ record {
        pending = k.pending;
        phase = k.phase;
        there = rw (lookup-insert, differ) k.there;
        fits = k.fits;
        works = k.works;
        flies = k.flies;
      }
    ]

    pub written-Inv : Inv (record w { provider = written })
    written-Inv = record {
      unique = v.unique;
      balance = v.balance;
      working = λ other phase e. written-Working other phase (v.working other phase e);
      sound = written-Sound;
      flying = λ airport other e. written-Flying airport other (v.flying airport other e);
      cached = v.cached;
    }

  -- A fetch goes on to another phase, and its slot with it.
  module _ {w : World R E} (v : Inv w) (id : String) (phase phase' : Phase)
      (at : lookup id w.fetches ≡ some phase) (flies : in_flight phase ≡ in_flight phase')
      (slots_left : ℕ)
      (slot : slots_left + (if holds_slot phase' then 1 else 0)
        ≡ w.provider.slots + (if holds_slot phase then 1 else 0))
      (ended : (k : Working w.provider.pendings w.provider.inflight id phase)
        → has_answer phase' ≡ true
        → answered k.pending ≡ true) where
    pub moved-Inv : Inv (record {
      provider = record w.provider { slots = slots_left };
      fetches = insert id phase' w.fetches;
    })
    moved-Inv = record {
      unique = insert-Unique id phase' w.fetches v.unique;
      balance = ground (arith, v.balance, slot, count_if-insert holds_slot id phase' w.fetches);
      working = λ other ph e. elim (Bool-cases (id == other)) [
        | inl same ↦
            let is_new : phase' ≡ ph = ground (arith, lookup-insert id other phase' w.fetches) in
            let own = v.working id phase at in
            subst (λ i. Working w.provider.pendings w.provider.inflight i ph)
              ((eq_iff id other).0 same)
              (subst (Working w.provider.pendings w.provider.inflight id) is_new (record {
                pending = own.pending;
                there = own.there;
                registered = λ f. own.registered (flies ∙ f);
                has_ended = ended own;
              }))
        | inr differ ↦ v.working other ph (ground (arith, lookup-insert id other phase' w.fetches))
      ];
      sound = v.sound;
      flying = λ airport other e.
          let k = v.flying airport other e in
          elim (Bool-cases (id == other)) [
            | inl same ↦
                let was : k.phase ≡ phase = ground (arith, k.works, at, eq_iff id other) in
                record {
                  pending = k.pending;
                  phase = phase';
                  there = k.there;
                  fits = k.fits;
                  works = rw (lookup-insert, same);
                  flies = sym flies ∙ ap (λ i. in_flight i) (sym was) ∙ k.flies;
                }
            | inr differ ↦ record {
              pending = k.pending;
              phase = k.phase;
              there = k.there;
              fits = k.fits;
              works = rw (lookup-insert, differ) k.works;
              flies = k.flies;
            }
          ];
      cached = v.cached;
    }
