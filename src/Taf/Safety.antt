-- ===== src/Taf/Safety.antt =====
-- The invariant of the provider and its fetches in every reachable world.
use auto_nav_log.Common.{
  ℕ, ◌+◌, String, ◌≡◌, refl, sym, subst, inl, inr, true, Option, none, some, [], arith, Bool-cases,
  Option-cases, ◌==◌, eq_iff, eq_refl,
}
use auto_nav_log.Common.Dict.{Dict, lookup, insert, remove, lookup-insert}
use auto_nav_log.Common.Result.{ok}
use auto_nav_log.Taf.Fetch.{
  PendingTafFetch, Provider, answered, create, set_error, set_records, set_completed, set_timed_out,
  put, abandon, store, release, cached_with,
}
use auto_nav_log.Taf.System.{
  Phase, reserved, unstarted, fetching, removed, released, downloaded, in_flight, holds_slot, World,
  Step, Reachable, admits, begins, start_fails, abandons, downloads, download_fails, stores,
  releases, completes, times_out, created, next,
}
use auto_nav_log.Taf.Invariant.{Working, Sound, Inv, written-Inv, moved-Inv}
use auto_nav_log.Taf.Steps.{admit-starts, own_entry, removed-Inv, joined-Inv, ended-Inv}

module _ {R E : Type 0} where
  release-eq-ok : (s s' : Provider R E) → release s ≡ ok s' → s' ≡ record s { slots = s.slots + 1 }
  unfolding release
  release-eq-ok s s' e = ground arith

  answered-set_records :
      (records : R) (clock_error : Option E) (pending : PendingTafFetch R E)
      → answered (set_records records clock_error pending) ≡ true
  answered-set_records records none pending = elim (Option-cases pending.error) [
    | inl e ↦ rw e
    | inr (error, e) ↦ rw e
  ]
  answered-set_records records (some error) pending = refl

  store-eq :
      (id : String) (completed_at : Option ℕ) (pending : PendingTafFetch R E) (s : Provider R E)
      → lookup pending.airport s.inflight ≡ some id
      → store pending.airport id pending completed_at s ≡ record s {
        cache = cached_with pending.airport pending.records completed_at s.cache;
        inflight = remove pending.airport s.inflight;
      }
  unfolding store
  store-eq id completed_at pending s e = rw (e, eq_refl)

  abbrev initial : ℕ → ℕ → Provider R E
  initial cache_ttl maximum = record {
    cache_ttl = cache_ttl;
    maximum_concurrent_fetches = maximum;
    cache = [];
    inflight = [];
    slots = maximum;
    pendings = [];
  }

  create-eq-ok :
      (t ttl maximum : ℕ) (s : Provider R E) → create t ttl maximum ≡ ok s → s ≡ initial ttl maximum
  unfolding create
  create-eq-ok t ttl maximum s e = ground arith

  written-answered :
      (pendings : Dict (PendingTafFetch R E)) (inflight : Dict String) (id : String) (phase : Phase)
      (new : PendingTafFetch R E)
      → answered new ≡ true
      → (k : Working (insert id new pendings) inflight id phase) → answered k.pending ≡ true
  written-answered pendings inflight id phase new h k =
      let own : new ≡ k.pending =
        ground (arith, k.there, lookup-insert id id new pendings, eq_refl id) in
      subst (λ p. answered p ≡ true) own h

module _ {R : Type 0} (Served : String → R → Type 0) where
  cached_with-Served :
      (airport : String) (records : Option R) (at : Option ℕ) (cache : Dict (ℕ × R))
      → ((r : R) → records ≡ some r → Served airport r)
      → ((a : String) (t : ℕ) (r : R) → lookup a cache ≡ some (t, r) → Served a r)
      → (a : String) (t : ℕ) (r : R) → lookup a (cached_with airport records at cache) ≡ some (t, r)
      → Served a r
  cached_with-Served airport none at cache new old a t r e = old a t r e
  cached_with-Served airport (some records) none cache new old a t r e = old a t r e
  cached_with-Served airport (some records) (some at) cache new old a t r e =
      elim (Bool-cases (airport == a)) [
        | inl same ↦
            let is_new : records ≡ r =
              ground (arith, lookup-insert airport a (at, records) cache) in
            subst (λ p. Served p r) ((eq_iff airport a).0 same)
              (subst (Served airport) is_new (new records refl))
        | inr differ ↦ old a t r (ground (arith, lookup-insert airport a (at, records) cache))
      ]

module _ {R E : Type 0} (Served : String → R → Type 0) where
  -- A thread writes the answer of its fetch and goes on.
  answered-Inv :
      {w : World R E} (id : String) (phase phase' : Phase) (old new : PendingTafFetch R E)
      → Inv Served w
      → lookup id w.fetches ≡ some phase
      → lookup id w.provider.pendings ≡ some old
      → new.airport ≡ old.airport
      → answered new ≡ true
      → Sound Served new
      → in_flight phase ≡ in_flight phase'
      → holds_slot phase ≡ holds_slot phase'
      → Inv Served
          (record { provider = put id new w.provider; fetches = insert id phase' w.fetches })
  answered-Inv {w} id phase phase' old new v at there stays ends good flies slot =
      let v' = written-Inv Served v id old new there stays (λ _. ends) good in
      moved-Inv Served v' id phase phase' at flies w.provider.slots (ground (arith, slot))
        (λ k _. written-answered w.provider.pendings w.provider.inflight id phase new ends k)

  Step-Inv : {w u : World R E} → Step Served w u → Inv Served w → Inv Served u
  unfolding abandon
  Step-Inv {w} (admits airport id now s object idle e) v =
      let (alone, one, shape) = admit-starts airport now id w.provider s e in
      subst (λ p. Inv Served (record { provider = p; fetches = insert id reserved w.fetches }))
        (sym shape) (joined-Inv Served v airport id s.slots object idle alone one)
  Step-Inv {w} (begins id at) v =
      moved-Inv Served v id reserved fetching at refl w.provider.slots refl (λ k h. cc)
  Step-Inv {w} (start_fails id error pending at there) v =
      let old = v.sound id pending there in
      answered-Inv id reserved unstarted pending (set_error error pending) v at there refl refl
        (record { served = old.served; complete = λ _. refl }) refl refl
  Step-Inv {w} (abandons id pending at there) v =
      removed-Inv Served v id unstarted pending at refl refl refl there w.provider.cache v.cached
  Step-Inv {w} (downloads id records now none pending at there good) v =
      let ends = answered-set_records records none pending in
      answered-Inv id fetching (downloaded (some now)) pending (set_records records none pending) v
        at there refl ends
        (record {
          served = λ r e. subst (Served pending.airport) (ground arith) good;
          complete = λ _. ends;
        })
        refl refl
  Step-Inv {w} (downloads id records now (some error) pending at there good) v =
      answered-Inv id fetching (downloaded none) pending (set_records records (some error) pending)
        v at there refl refl
        (record {
          served = λ r e. subst (Served pending.airport) (ground arith) good;
          complete = λ _. refl;
        })
        refl refl
  Step-Inv {w} (download_fails id error pending at there) v =
      let old = v.sound id pending there in
      answered-Inv id fetching (downloaded none) pending (set_error error pending) v at there refl
        refl (record { served = old.served; complete = λ _. refl }) refl refl
  Step-Inv {w} (stores id completed_at pending at there) v =
      let registered =
        own_entry Served v id (downloaded completed_at) pending at refl refl refl there
          w.provider.cache v.cached in
      subst (λ p. Inv Served (record { provider = p; fetches = insert id removed w.fetches }))
        (sym (store-eq id completed_at pending w.provider registered))
        (removed-Inv Served v id (downloaded completed_at) pending at refl refl refl there
          (cached_with pending.airport pending.records completed_at w.provider.cache)
          (cached_with-Served Served pending.airport pending.records completed_at w.provider.cache
            ((v.sound id pending there).served) v.cached))
  Step-Inv {w} (releases id s at e) v =
      subst (λ p. Inv Served (record { provider = p; fetches = insert id released w.fetches }))
        (sym (release-eq-ok w.provider s e))
        (moved-Inv Served v id removed released at refl (w.provider.slots + 1) (omega arith)
          (λ k h. k.has_ended refl))
  Step-Inv {w} (completes id pending at there) v =
      let k = v.working id released at in
      let own : k.pending ≡ pending = cc (k.there, there) in
      let ends : answered pending ≡ true = subst (λ p. answered p ≡ true) own (k.has_ended refl) in
      let good : Sound Served (set_completed pending) = record {
        served = (v.sound id pending there).served;
        complete = λ _. ends;
      } in
      ended-Inv Served id
        (written-Inv Served v id pending (set_completed pending) there refl (λ h. h) good) at
  Step-Inv {w} (times_out id pending there) v =
      let old = v.sound id pending there in
      written-Inv Served v id pending (set_timed_out pending) there refl (λ h. h)
        (record { served = old.served; complete = old.complete })

  initial-Inv :
      (ttl maximum : ℕ)
      → Inv Served (record { provider = initial {R = R} {E = E} ttl maximum; fetches = [] })
  unfolding lookup
  initial-Inv ttl maximum = record {
    unique = tt;
    balance = omega arith;
    working = λ id phase e. cc;
    sound = λ id pending e. cc;
    flying = λ airport id e. cc;
    cached = λ airport at records e. cc;
  }

  pub Reachable-Inv :
      {t ttl maximum : ℕ} {w : World R E} → Reachable Served t ttl maximum w → Inv Served w
  Reachable-Inv {t} {ttl} {maximum} (created s e) =
      subst (λ p. Inv Served (record { provider = p; fetches = [] }))
        (sym (create-eq-ok t ttl maximum s e)) (initial-Inv ttl maximum)
  Reachable-Inv (next r step) = Step-Inv step (Reachable-Inv r)
