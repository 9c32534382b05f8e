-- ===== src/Taf/Steps.antt =====
-- Each step of the provider and its fetches keeps the invariant.
use auto_nav_log.Common.{
  ℕ, suc, String, ◌≡◌, refl, ap, ◌∙◌, subst, inl, inr, true, false, none, some, arith, Bool-cases,
  ◌==◌, eq_iff, eq_refl,
}
use auto_nav_log.Common.Dict.{
  Dict, lookup, insert, remove, lookup-insert, lookup-remove, insert-Unique, remove-Unique,
  count_if-insert, count_if-remove,
}
use auto_nav_log.Taf.Fetch.{PendingTafFetch, Provider, starts, admit, new_pending}
use auto_nav_log.Taf.System.{
  Phase, reserved, removed, released, holds_slot, in_flight, has_answer, World,
}
use auto_nav_log.Taf.Invariant.{Working, Sound, Flying, Inv}

module _ {R E : Type 0} where
  -- Where the section of `_records_with_deadline` starts a fetch, and what it then does.
  pub admit-starts :
      (airport : String) (now : ℕ) (id : String) (s s' : Provider R E)
      → admit airport now id s ≡ (starts id, s')
      → (lookup airport s.inflight ≡ none)
        × (suc s'.slots ≡ s.slots)
        × (s' ≡ record s {
          slots = s'.slots;
          pendings = insert id (new_pending airport) s.pendings;
          inflight = insert airport id s.inflight;
        })
  unfolding admit
  admit-starts airport now id s s' e = ground arith

module _ {R E : Type 0} (Served : String → R → Type 0) where
  -- A fetch leaves `_inflight`; the cache may get what it read.
  module _ {w : World R E} (v : Inv Served w) (id : String) (phase : Phase)
      (pending : PendingTafFetch R E) (at : lookup id w.fetches ≡ some phase)
      (flies : in_flight phase ≡ true) (ends : has_answer phase ≡ true)
      (slot : holds_slot phase ≡ true) (there : lookup id w.provider.pendings ≡ some pending)
      (cache : Dict (ℕ × R))
      (good : (airport : String) (at : ℕ) (records : R)
        → lookup airport cache ≡ some (at, records)
        → Served airport records) where
    pub own_entry : lookup pending.airport w.provider.inflight ≡ some id
    own_entry =
        let k = v.working id phase at in
        let own : k.pending ≡ pending = cc (k.there, there) in
        subst (λ p. lookup p.airport w.provider.inflight ≡ some id) own (k.registered flies)

    abbrev left : Provider R E
    left = record w.provider {
      cache = cache;
      inflight = remove pending.airport w.provider.inflight;
    }

    removed-Working :
        (other : String) (ph : Phase)
        → lookup other (insert id removed w.fetches) ≡ some ph
        → Working left.pendings left.inflight other ph
    removed-Working other ph e = elim (Bool-cases (id == other)) [
      | inl same ↦
          let is_new : removed ≡ ph = ground (arith, lookup-insert id other removed w.fetches) in
          let k = v.working id phase at in
          subst (λ i. Working left.pendings left.inflight i ph) ((eq_iff id other).0 same)
            (subst (Working left.pendings left.inflight id) is_new (record {
              pending = k.pending;
              there = k.there;
              registered = λ f. cc;
              has_ended = λ _. k.has_ended ends;
            }))
      | inr differ ↦
          let k = v.working other ph (ground (arith, lookup-insert id other removed w.fetches)) in
          record {
            pending = k.pending;
            there = k.there;
            registered = λ f. elim (Bool-cases (pending.airport == k.pending.airport)) [
              | inl shared ↦
                  let both : lookup k.pending.airport w.provider.inflight ≡ some id =
                    subst (λ a. lookup a w.provider.inflight ≡ some id)
                      ((eq_iff pending.airport k.pending.airport).0 shared) own_entry in
                  absurd (ground (arith, both, k.registered f, differ, eq_iff id other))
              | inr apart ↦ rw (lookup-remove, apart) (k.registered f)
            ];
            has_ended = k.has_ended;
          }
    ]

    removed-Flying :
        (airport other : String)
        → lookup airport left.inflight ≡ some other
        → Flying left.pendings (insert id removed w.fetches) airport other
    removed-Flying airport other e =
        let apart : (pending.airport == airport) ≡ false =
          ground (arith, lookup-remove pending.airport airport w.provider.inflight) in
        let k =
          v.flying airport other
            (ground (arith, lookup-remove pending.airport airport w.provider.inflight)) in
        elim (Bool-cases (id == other)) [
          | inl same ↦
              let own : pending ≡ k.pending = ground (arith, there, k.there, eq_iff id other) in
              absurd
                (cc (apart, (eq_iff pending.airport airport).1 (ap (λ p. p.airport) own ∙ k.fits)))
          | inr differ ↦ record {
            pending = k.pending;
            phase = k.phase;
            there = k.there;
            fits = k.fits;
            works = rw (lookup-insert, differ) k.works;
            flies = k.flies;
          }
        ]

    pub removed-Inv : Inv Served (record {
      provider = record w.provider {
        cache = cache;
        inflight = remove pending.airport w.provider.inflight;
      };
      fetches = insert id removed w.fetches;
    })
    removed-Inv = record {
      unique = insert-Unique id removed w.fetches v.unique;
      balance =
          ground (arith, v.balance, slot, at, count_if-insert holds_slot id removed w.fetches);
      working = removed-Working;
      sound = v.sound;
      flying = removed-Flying;
      cached = good;
    }

  -- A fetch starts, with a new object.
  module _ {w : World R E} (v : Inv Served w) (airport id : String) (slots_left : ℕ)
      (new_object : lookup id w.provider.pendings ≡ none) (new_fetch : lookup id w.fetches ≡ none)
      (alone : lookup airport w.provider.inflight ≡ none)
      (one : suc slots_left ≡ w.provider.slots) where
    abbrev joined : Provider R E
    joined = record w.provider {
      slots = slots_left;
      pendings = insert id (new_pending airport) w.provider.pendings;
      inflight = insert airport id w.provider.inflight;
    }

    joined-Working :
        (other : String) (ph : Phase)
        → lookup other (insert id reserved w.fetches) ≡ some ph
        → Working joined.pendings joined.inflight other ph
    joined-Working other ph e = elim (Bool-cases (id == other)) [
      | inl same ↦
          let is_new : reserved ≡ ph = ground (arith, lookup-insert id other reserved w.fetches) in
          subst (λ i. Working joined.pendings joined.inflight i ph) ((eq_iff id other).0 same)
            (subst (Working joined.pendings joined.inflight id) is_new (record {
              pending = new_pending airport;
              there = rw (lookup-insert, eq_refl);
              registered = λ f. rw (lookup-insert, eq_refl);
              has_ended = λ h. cc;
            }))
      | inr differ ↦
          let k = v.working other ph (ground (arith, lookup-insert id other reserved w.fetches)) in
          record {
            pending = k.pending;
            there = rw (lookup-insert, differ) k.there;
            registered = λ f. elim (Bool-cases (airport == k.pending.airport)) [
              | inl shared ↦
                  let none_there : lookup k.pending.airport w.provider.inflight ≡ none =
                    subst (λ a. lookup a w.provider.inflight ≡ none)
                      ((eq_iff airport k.pending.airport).0 shared) alone in
                  absurd (cc (none_there, k.registered f))
              | inr apart ↦ rw (lookup-insert, apart) (k.registered f)
            ];
            has_ended = k.has_ended;
          }
    ]

    joined-Sound :
        (other : String) (pending : PendingTafFetch R E)
        → lookup other joined.pendings ≡ some pending
        → Sound Served pending
    joined-Sound other pending e = elim (Bool-cases (id == other)) [
      | inl same ↦
          let is_new : new_pending airport ≡ pending =
            ground (arith, lookup-insert id other (new_pending airport) w.provider.pendings) in
          subst (Sound Served) is_new (record { served = λ r x. cc; complete = λ x. cc })
      | inr differ ↦
          v.sound other pending
            (ground (arith, lookup-insert id other (new_pending airport) w.provider.pendings))
    ]

    joined-Flying :
        (place other : String)
        → lookup place joined.inflight ≡ some other
        → Flying joined.pendings (insert id reserved w.fetches) place other
    joined-Flying place other e = elim (Bool-cases (airport == place)) [
      | inl same ↦
          let is_new : id ≡ other =
            ground (arith, lookup-insert airport place id w.provider.inflight) in
          subst (Flying joined.pendings (insert id reserved w.fetches) place) is_new (record {
            pending = new_pending airport;
            phase = reserved;
            there = rw (lookup-insert, eq_refl);
            fits = (eq_iff airport place).0 same;
            works = rw (lookup-insert, eq_refl);
            flies = refl;
          })
      | inr differ ↦
          let k =
            v.flying place other
              (ground (arith, lookup-insert airport place id w.provider.inflight)) in
          let apart : (id == other) ≡ false =
            ground (arith, eq_iff id other, k.there, new_object) in
          record {
            pending = k.pending;
            phase = k.phase;
            there = rw (lookup-insert, apart) k.there;
            fits = k.fits;
            works = rw (lookup-insert, apart) k.works;
            flies = k.flies;
          }
    ]

    pub joined-Inv :
        Inv Served (record { provider = joined; fetches = insert id reserved w.fetches })
    joined-Inv = record {
      unique = insert-Unique id reserved w.fetches v.unique;
      balance =
          ground
            (arith, v.balance, one, new_fetch, count_if-insert holds_slot id reserved w.fetches);
      working = joined-Working;
      sound = joined-Sound;
      flying = joined-Flying;
      cached = v.cached;
    }

  -- A fetch ends.
  pub ended-Inv :
      {w : World R E} (id : String)
      → Inv Served w
      → lookup id w.fetches ≡ some released
      → Inv Served (record w { fetches = remove id w.fetches })
  ended-Inv {w} id v at = record {
    unique = remove-Unique id w.fetches v.unique;
    balance = ground (arith, v.balance, count_if-remove holds_slot id w.fetches v.unique);
    working = λ other ph e. v.working other ph (ground (arith, lookup-remove id other w.fetches));
    sound = v.sound;
    flying = λ airport other e.
        let k = v.flying airport other e in
        record {
          pending = k.pending;
          phase = k.phase;
          there = k.there;
          fits = k.fits;
          works =
              ground
                (arith, lookup-remove id other w.fetches, eq_iff id other, at, k.works, k.flies);
          flies = k.flies;
        };
    cached = v.cached;
  }
