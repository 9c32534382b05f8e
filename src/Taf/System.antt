-- ===== src/Taf/System.antt =====
-- The provider with the threads of its fetches. A fetch is known by the identity of its pending object,
-- and a step is a locked section, a write to the object, a release or the end of the wait of some caller.
-- The steps of different fetches and callers interleave in any order. `Served airport records`
-- says that the weather service may answer a request for the airport with these records.
use auto_nav_log.Common.{ℕ, String, Bool, true, false, ◌≡◌, Option, none, some, []}
use auto_nav_log.Common.Dict.{Dict, lookup, insert, remove}
use auto_nav_log.Common.Result.{ok}
use auto_nav_log.Taf.Fetch.{
  PendingTafFetch, Provider, starts, create, admit, set_error, set_records, set_completed,
  set_timed_out, put, abandon, store, release,
}

-- `reserved`: the object is made, the worker not started. `unstarted`: the start raised, and the
-- error is written. `fetching`: the worker runs. `downloaded`: it has written what it got, and has the
-- time at which it was complete, if it could read the clock. `removed`: the fetch is out of
-- `_inflight`, its slot not yet released. `released`: it is, but the waiting callers are not yet told.
pub data Phase : Type 0 where
  reserved unstarted fetching removed released : Phase
  downloaded : Option ℕ → Phase

-- Whether a fetch in this phase has a slot.
abbrev pub holds_slot : Phase → Bool
holds_slot released = false
holds_slot _ = true

-- Whether the fetch is still to be taken out of `_inflight`.
abbrev pub in_flight : Phase → Bool
in_flight removed = false
in_flight released = false
in_flight _ = true

-- Whether its object has an answer.
abbrev pub has_answer : Phase → Bool
has_answer reserved = false
has_answer fetching = false
has_answer _ = true

-- `completed_at = None` where something raised
abbrev pub completion : {E : Type 0} → ℕ → Option E → Option ℕ
completion now none = some now
completion now (some error) = none

pub record World (R E : Type 0) : Type 0 where
  pub provider : Provider R E
  pub fetches : Dict Phase

module _ {R E : Type 0} (Served : String → R → Type 0) where
  pub data Step (w : World R E) : World R E → Type 0 where
    admits :
        (airport id : String) (now : ℕ) (s : Provider R E)
        → lookup id w.provider.pendings ≡ none
        → lookup id w.fetches ≡ none
        → admit airport now id w.provider ≡ (starts id, s)
        → Step w (record { provider = s; fetches = insert id reserved w.fetches })
    begins :
        (id : String)
        → lookup id w.fetches ≡ some reserved
        → Step w (record w { fetches = insert id fetching w.fetches })
    start_fails :
        (id : String) (error : E) (pending : PendingTafFetch R E)
        → lookup id w.fetches ≡ some reserved
        → lookup id w.provider.pendings ≡ some pending
        → Step w (record {
          provider = put id (set_error error pending) w.provider;
          fetches = insert id unstarted w.fetches;
        })
    abandons :
        (id : String) (pending : PendingTafFetch R E)
        → lookup id w.fetches ≡ some unstarted
        → lookup id w.provider.pendings ≡ some pending
        → Step w (record {
          provider = abandon pending.airport w.provider;
          fetches = insert id removed w.fetches;
        })
    downloads :
        (id : String) (records : R) (now : ℕ) (clock_error : Option E)
        (pending : PendingTafFetch R E)
        → lookup id w.fetches ≡ some fetching
        → lookup id w.provider.pendings ≡ some pending
        → Served pending.airport records
        → Step w (record {
          provider = put id (set_records records clock_error pending) w.provider;
          fetches = insert id (downloaded (completion now clock_error)) w.fetches;
        })
    download_fails :
        (id : String) (error : E) (pending : PendingTafFetch R E)
        → lookup id w.fetches ≡ some fetching
        → lookup id w.provider.pendings ≡ some pending
        → Step w (record {
          provider = put id (set_error error pending) w.provider;
          fetches = insert id (downloaded none) w.fetches;
        })
    stores :
        (id : String) (completed_at : Option ℕ) (pending : PendingTafFetch R E)
        → lookup id w.fetches ≡ some (downloaded completed_at)
        → lookup id w.provider.pendings ≡ some pending
        → Step w (record {
          provider = store pending.airport id pending completed_at w.provider;
          fetches = insert id removed w.fetches;
        })
    releases :
        (id : String) (s : Provider R E)
        → lookup id w.fetches ≡ some removed
        → release w.provider ≡ ok s
        → Step w (record { provider = s; fetches = insert id released w.fetches })
    completes :
        (id : String) (pending : PendingTafFetch R E)
        → lookup id w.fetches ≡ some released
        → lookup id w.provider.pendings ≡ some pending
        → Step w (record {
          provider = put id (set_completed pending) w.provider;
          fetches = remove id w.fetches;
        })
    times_out :
        (id : String) (pending : PendingTafFetch R E)
        → lookup id w.provider.pendings ≡ some pending
        → Step w (record w { provider = put id (set_timed_out pending) w.provider })

  pub data Reachable (timeout_seconds cache_ttl maximum : ℕ) : World R E → Type 0 where
    created :
        (s : Provider R E)
        → create timeout_seconds cache_ttl maximum ≡ ok s
        → Reachable timeout_seconds cache_ttl maximum (record { provider = s; fetches = [] })
    next :
        {w v : World R E}
        → Reachable timeout_seconds cache_ttl maximum w
        → Step w v
        → Reachable timeout_seconds cache_ttl maximum v
