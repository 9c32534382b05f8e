-- ===== src/Taf/Examples.antt =====
-- A provider for one fetch at a time, whose service answers every request with 7.
use auto_nav_log.Common.{ℕ, String, ◌≡◌, ◌≢◌, refl, true, false, none, some, [], ◌∷◌, ◌+◌, count_if}
use auto_nav_log.Common.Dict.{lookup, insert, remove, values}
use auto_nav_log.Common.Result.{ok, err}
use auto_nav_log.Taf.Fetch.{
  PendingTafFetch, Provider, cached_records, joins, starts, deadline_exceeded, capacity_unavailable,
  no_result, create, admit, set_completed, collect, release, store,
}
use auto_nav_log.Taf.System.{
  Phase, fetching, removed, in_flight, holds_slot, World, Reachable, admits, begins, downloads,
  stores, releases, completes, created, next,
}
use auto_nav_log.Taf.Guarantees.{
  one_fetch_per_airport, slots_balance, records_are_for_the_airport, completed_has_result,
  refusal_reasons,
}

abbrev Sevens : String → ℕ → Type 0
Sevens airport records = records ≡ 7

abbrev flying : World ℕ String
flying = record {
  provider = record {
    cache_ttl = 5;
    maximum_concurrent_fetches = 1;
    cache = [];
    inflight = ("RJFM", "a") ∷ [];
    slots = 0;
    pendings =
        (
          "a",
          record {
            airport = "RJFM";
            completed = false;
            records = none;
            error = none;
            timed_out = false;
          },
        )
        ∷ [];
  };
  fetches = ("a", fetching) ∷ [];
}

flying-Reachable : Reachable Sevens 10 5 1 flying
unfolding create admit lookup insert
flying-Reachable =
    next (next (created _ refl) (admits "RJFM" "a" 0 _ refl refl refl)) (begins "a" refl)

abbrev fetched : PendingTafFetch ℕ String
fetched = record {
  airport = "RJFM";
  completed = false;
  records = some 7;
  error = none;
  timed_out = false;
}

abbrev stored : World ℕ String
stored = record {
  provider = record {
    cache_ttl = 5;
    maximum_concurrent_fetches = 1;
    cache = ("RJFM", (3, 7)) ∷ [];
    inflight = [];
    slots = 0;
    pendings = ("a", fetched) ∷ [];
  };
  fetches = ("a", removed) ∷ [];
}

stored-Reachable : Reachable Sevens 10 5 1 stored
unfolding store lookup insert remove
stored-Reachable =
    next (next flying-Reachable (downloads "a" 7 3 none _ refl refl refl))
      (stores "a" (some 3) _ refl refl)

abbrev ended : World ℕ String
ended = record {
  provider = record {
    cache_ttl = 5;
    maximum_concurrent_fetches = 1;
    cache = ("RJFM", (3, 7)) ∷ [];
    inflight = [];
    slots = 1;
    pendings = ("a", set_completed fetched) ∷ [];
  };
  fetches = [];
}

ended-Reachable : Reachable Sevens 10 5 1 ended
unfolding release lookup insert remove
ended-Reachable =
    next (next stored-Reachable (releases "a" _ refl refl)) (completes "a" _ refl refl)

abbrev the_fetch : String
the_fetch = "a"

one_fetch_per_airport_example : the_fetch ≡ the_fetch
unfolding lookup
one_fetch_per_airport_example =
    one_fetch_per_airport Sevens flying-Reachable the_fetch the_fetch fetching fetching _ _ refl
      refl refl refl refl refl refl

slots_balance_example :
    (stored.provider.slots + count_if holds_slot (values stored.fetches)
      ≡ stored.provider.maximum_concurrent_fetches)
    × ((id : String)
        → lookup id stored.fetches ≡ some removed
        → (s : Provider ℕ String) × (release stored.provider ≡ ok s))
slots_balance_example = slots_balance Sevens stored-Reachable

records_are_for_the_airport_example :
    ((records : ℕ)
      → (admit "RJFM" 4 "b" ended.provider).0 ≡ cached_records records
      → Sevens "RJFM" records)
    × ((shared : String)
        → (admit "RJFM" 4 "b" ended.provider).0 ≡ joins shared
        → (pending : PendingTafFetch ℕ String) × (lookup shared ended.provider.pendings
            ≡ some pending)
          × (pending.airport ≡ "RJFM"))
    × ((any_id : String) (pending : PendingTafFetch ℕ String) (records : ℕ)
        → lookup any_id ended.provider.pendings ≡ some pending
        → collect pending ≡ ok records
        → Sevens pending.airport records)
records_are_for_the_airport_example =
    records_are_for_the_airport Sevens ended-Reachable "RJFM" 4 "b"

completed_has_result_example : collect (set_completed fetched) ≢ err no_result
unfolding lookup
completed_has_result_example =
    completed_has_result Sevens ended-Reachable "a" (set_completed fetched) refl refl

refusal_reasons_example :
    ((admit "RJFF" 4 "b" flying.provider).0 ≡ capacity_unavailable
      → (count_if holds_slot (values flying.fetches) ≡ flying.provider.maximum_concurrent_fetches)
        × (lookup "RJFF" flying.provider.inflight ≡ none))
    × ((admit "RJFF" 4 "b" flying.provider).0 ≡ deadline_exceeded
        → (shared : String) × (phase : Phase) × (pending : PendingTafFetch ℕ String) × (lookup
              shared flying.fetches
            ≡ some phase)
          × (in_flight phase ≡ true)
          × (lookup shared flying.provider.pendings ≡ some pending)
          × (pending.airport ≡ "RJFF")
          × (pending.timed_out ≡ true))
refusal_reasons_example = refusal_reasons Sevens flying-Reachable "RJFF" 4 "b"

-- A second airport finds no slot while the first is fetched; the first is then served from the cache.
no_slot_left : (admit "RJFF" 4 "b" flying.provider).0 ≡ capacity_unavailable
unfolding admit lookup
no_slot_left = refl

from_the_cache : (admit "RJFM" 4 "b" ended.provider).0 ≡ cached_records 7
unfolding admit lookup
from_the_cache = refl

stale_is_fetched : (admit "RJFM" 8 "b" ended.provider).0 ≡ starts "b"
unfolding admit lookup
stale_is_fetched = refl
