-- ===== src/Taf/Guarantees.antt =====
-- What the provider of weather/destination_taf.py promises to its callers, whatever the interleaving.
use auto_nav_log.Common.{
  ℕ, ◌+◌, String, ◌≡◌, ◌≢◌, refl, sym, ap, ◌∙◌, inl, inr, true, false, none, some, arith, count_if,
  Option-cases,
}
use auto_nav_log.Common.Dict.{lookup, values, count_if-pos}
use auto_nav_log.Common.Result.{ok, err}
use auto_nav_log.Taf.Fetch.{
  PendingTafFetch, Provider, cached_records, joins, deadline_exceeded, capacity_unavailable,
  no_result, answered, admit, has_timed_out, collect, release,
}
use auto_nav_log.Taf.System.{Phase, removed, in_flight, holds_slot, World, Reachable}
use auto_nav_log.Taf.Safety.{Reachable-Inv}

module _ {R E : Type 0} where
  admit-cached :
      (airport : String) (now : ℕ) (id : String) (s : Provider R E) (records : R)
      → (admit airport now id s).0 ≡ cached_records records
      → (at : ℕ) × (lookup airport s.cache ≡ some (at, records))
  unfolding admit
  admit-cached airport now id s records e = elim (Option-cases (lookup airport s.cache)) [
    | inl gone ↦ absurd (ground arith)
    | inr ((at, kept), there) ↦ (at, ground arith)
  ]

  admit-joins :
      (airport : String) (now : ℕ) (id : String) (s : Provider R E) (shared : String)
      → (admit airport now id s).0 ≡ joins shared
      → (lookup airport s.inflight ≡ some shared)
        × (has_timed_out (lookup shared s.pendings) ≡ false)
  unfolding admit
  admit-joins airport now id s shared e = ground arith

  admit-deadline :
      (airport : String) (now : ℕ) (id : String) (s : Provider R E)
      → (admit airport now id s).0 ≡ deadline_exceeded
      → (shared : String) × (lookup airport s.inflight ≡ some shared)
        × (has_timed_out (lookup shared s.pendings) ≡ true)
  unfolding admit
  admit-deadline airport now id s e = elim (Option-cases (lookup airport s.inflight)) [
    | inl alone ↦ absurd (ground arith)
    | inr (shared, there) ↦ (shared, there, ground arith)
  ]

  admit-capacity :
      (airport : String) (now : ℕ) (id : String) (s : Provider R E)
      → (admit airport now id s).0 ≡ capacity_unavailable
      → (lookup airport s.inflight ≡ none) × (s.slots ≡ 0)
  unfolding admit
  admit-capacity airport now id s e = ground arith

  collect-ok :
      (pending : PendingTafFetch R E) (records : R)
      → collect pending ≡ ok records
      → pending.records ≡ some records
  unfolding collect
  collect-ok pending records e = ground arith

  collect-answered :
      (pending : PendingTafFetch R E) → answered pending ≡ true → collect pending ≢ err no_result
  unfolding collect
  collect-answered pending h e = ground arith

module _ {R E : Type 0} (Served : String → R → Type 0) where
  -- In every reachable world, two fetches for one airport that are both still in flight are one
  -- fetch: callers of an airport share it.
  pub one_fetch_per_airport :
      {t ttl maximum : ℕ} {w : World R E} (r : Reachable Served t ttl maximum w) (id other : String)
      (phase phase' : Phase) (pending pending' : PendingTafFetch R E)
      → lookup id w.fetches ≡ some phase
      → lookup other w.fetches ≡ some phase'
      → in_flight phase ≡ true
      → in_flight phase' ≡ true
      → lookup id w.provider.pendings ≡ some pending
      → lookup other w.provider.pendings ≡ some pending'
      → pending.airport ≡ pending'.airport
      → id ≡ other
  one_fetch_per_airport {w = w} r id other phase phase' pending pending' a b f g x y same =
      let v = Reachable-Inv Served r in
      let k = v.working id phase a in
      let l = v.working other phase' b in
      let kp : k.pending.airport ≡ l.pending.airport =
        ap (λ p. p.airport) (let q : k.pending ≡ pending = cc (k.there, x) in q)
        ∙ same
        ∙ ap (λ p. p.airport) (let q : pending' ≡ l.pending = cc (l.there, y) in q) in
      cc (ap (λ i. lookup i w.provider.inflight) kp, k.registered f, l.registered g)

  -- In every reachable world the free slots and those that fetches hold add up to the maximum, and a
  -- fetch that is to release its slot can: the semaphore's bound is not exceeded.
  pub slots_balance :
      {t ttl maximum : ℕ} {w : World R E}
      → Reachable Served t ttl maximum w
      → (w.provider.slots + count_if holds_slot (values w.fetches)
          ≡ w.provider.maximum_concurrent_fetches)
        × ((id : String)
            → lookup id w.fetches ≡ some removed
            → (s : Provider R E) × (release w.provider ≡ ok s))
  unfolding release
  slots_balance {w = w} r =
      let v = Reachable-Inv Served r in
      (
        v.balance,
        λ id at. (
          record w.provider { slots = w.provider.slots + 1 },
          ground (arith, v.balance, count_if-pos holds_slot id removed w.fetches at refl),
        ),
      )

  -- In every reachable world, records that a caller gets for an airport were served for that airport,
  -- from the cache and from a fetch alike: a fetch that the caller joins is one for its airport, and
  -- what a fetch delivers was served for its own.
  pub records_are_for_the_airport :
      {t ttl maximum : ℕ} {w : World R E}
      → Reachable Served t ttl maximum w
      → (airport : String) (now : ℕ) (id : String)
      → ((records : R)
          → (admit airport now id w.provider).0 ≡ cached_records records
          → Served airport records)
        × ((shared : String)
            → (admit airport now id w.provider).0 ≡ joins shared
            → (pending : PendingTafFetch R E) × (lookup shared w.provider.pendings ≡ some pending)
              × (pending.airport ≡ airport))
        × ((any_id : String) (pending : PendingTafFetch R E) (records : R)
            → lookup any_id w.provider.pendings ≡ some pending
            → collect pending ≡ ok records
            → Served pending.airport records)
  records_are_for_the_airport {w = w} r airport now id =
      let v = Reachable-Inv Served r in
      (
        (λ records e.
            let (at, there) = admit-cached airport now id w.provider records e in
            v.cached airport at records there),
        (λ shared e.
            let k = v.flying airport shared (admit-joins airport now id w.provider shared e).0 in
            (k.pending, k.there, k.fits)),
        (λ any_id pending records there e.
            (v.sound any_id pending there).served records (collect-ok pending records e)),
      )

  -- In every reachable world, a caller whose fetch is completed gets its records or the fetch's own
  -- error: the fetch has not ended without a result.
  pub completed_has_result :
      {t ttl maximum : ℕ} {w : World R E}
      → Reachable Served t ttl maximum w
      → (id : String) (pending : PendingTafFetch R E) → lookup id w.provider.pendings ≡ some pending
      → pending.completed ≡ true
      → collect pending ≢ err no_result
  completed_has_result r id pending there done =
      collect-answered pending (((Reachable-Inv Served r).sound id pending there).complete done)

  -- In every reachable world, a caller is turned away for want of capacity only while as many fetches
  -- as the maximum hold a slot and none for its airport is in flight, and because of the deadline
  -- only while a fetch for its airport is in flight on which a caller has timed out.
  pub refusal_reasons :
      {t ttl maximum : ℕ} {w : World R E}
      → Reachable Served t ttl maximum w
      → (airport : String) (now : ℕ) (id : String)
      → ((admit airport now id w.provider).0 ≡ capacity_unavailable
          → (count_if holds_slot (values w.fetches) ≡ w.provider.maximum_concurrent_fetches)
            × (lookup airport w.provider.inflight ≡ none))
        × ((admit airport now id w.provider).0 ≡ deadline_exceeded
            → (shared : String) × (phase : Phase) × (pending : PendingTafFetch R E) × (lookup shared
                  w.fetches
                ≡ some phase)
              × (in_flight phase ≡ true)
              × (lookup shared w.provider.pendings ≡ some pending)
              × (pending.airport ≡ airport)
              × (pending.timed_out ≡ true))
  refusal_reasons {w = w} r airport now id =
      let v = Reachable-Inv Served r in
      (
        (λ e.
            let (alone, empty) = admit-capacity airport now id w.provider e in
            (ground (arith, v.balance), alone)),
        (λ e.
            let (shared, there, late) = admit-deadline airport now id w.provider e in
            let k = v.flying airport shared there in
            (
              shared,
              k.phase,
              k.pending,
              k.works,
              k.flies,
              k.there,
              k.fits,
              ap has_timed_out (sym k.there) ∙ late,
            )),
      )
