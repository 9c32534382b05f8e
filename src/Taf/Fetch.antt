-- ===== src/Taf/Fetch.antt =====
-- weather/destination_taf.py: the state of `AviationWeatherTafProvider` and what `_records_with_deadline`
-- and `_complete_fetch` do to it. Times are numbers, `R` is the type of decoded records, `E` that of
-- exceptions. Objects of `_PendingTafFetch` stand in a heap, `pendings`, under an identity.
use auto_nav_log.Common.{
  ℕ, zero, suc, ◌+◌, String, Bool, true, false, Option, none, some, [], ltb, leb, if◌then◌else◌,
  ◌==◌,
}
use auto_nav_log.Common.Dict.{Dict, lookup, insert, remove}
use auto_nav_log.Common.Result.{Result, ok, err}

-- `airport` is the one that the object was made for, which the code does not write into it.
pub record PendingTafFetch (R E : Type 0) : Type 0 where
  pub airport : String
  pub completed : Bool
  pub records : Option R
  pub error : Option E
  pub timed_out : Bool

-- `slots` is the number of permits that the semaphore has left of `maximum_concurrent_fetches`.
pub record Provider (R E : Type 0) : Type 0 where
  pub cache_ttl : ℕ
  pub maximum_concurrent_fetches : ℕ
  pub cache : Dict (ℕ × R)
  pub inflight : Dict String
  pub slots : ℕ
  pub pendings : Dict (PendingTafFetch R E)

-- How the first locked section of `_records_with_deadline` ends.
pub data Admission (R : Type 0) : Type 0 where
  cached_records : R → Admission R
  deadline_exceeded capacity_unavailable : Admission R
  joins starts : String → Admission R

-- What `_records_with_deadline` raises behind its wait: the fetch's own error, or that it has none.
pub data FetchError (E : Type 0) : Type 0 where
  raised : E → FetchError E
  no_result : FetchError E

-- `bad_timeout` and `bad_maximum` are the two ValueErrors of `__init__`, `over_released` that of
-- BoundedSemaphore.release.
pub data ProviderError : Type 0 where
  bad_timeout bad_maximum over_released : ProviderError

abbrev pub is_same : Option String → String → Bool
is_same none id = false
is_same (some other) id = other == id

module _ {R : Type 0} where
  -- The cached records, where they are younger than `cache_ttl`.
  abbrev pub fresh : Option (ℕ × R) → ℕ → ℕ → Option R
  fresh none now cache_ttl = none
  fresh (some (completed_at, records)) now cache_ttl =
      if ltb now (completed_at + cache_ttl) then some records else none

  abbrev pub cached_with : String → Option R → Option ℕ → Dict (ℕ × R) → Dict (ℕ × R)
  cached_with airport (some records) (some completed_at) cache =
      insert airport (completed_at, records) cache
  cached_with airport _ _ cache = cache

module _ {R E : Type 0} where
  unfoldable pub create : ℕ → ℕ → ℕ → Result ProviderError (Provider R E)
  create timeout_seconds cache_ttl maximum_concurrent_fetches =
      if leb timeout_seconds 0
      then err bad_timeout
      else if ltb maximum_concurrent_fetches 1
      then err bad_maximum
      else ok (record {
        cache_ttl = cache_ttl;
        maximum_concurrent_fetches = maximum_concurrent_fetches;
        cache = [];
        inflight = [];
        slots = maximum_concurrent_fetches;
        pendings = [];
      })

  abbrev pub has_timed_out : Option (PendingTafFetch R E) → Bool
  has_timed_out none = false
  has_timed_out (some pending) = pending.timed_out

  abbrev pub new_pending : String → PendingTafFetch R E
  new_pending airport = record {
    airport = airport;
    completed = false;
    records = none;
    error = none;
    timed_out = false;
  }

  -- The first locked section; `id` is the identity of the object that it makes, if it makes one.
  unfoldable pub admit : String → ℕ → String → Provider R E → Admission R × Provider R E
  admit airport now id s = elim (fresh (lookup airport s.cache) now s.cache_ttl) [
    | some records ↦ (cached_records records, s)
    | none ↦ elim (lookup airport s.inflight) [
      | some shared ↦
          (if has_timed_out (lookup shared s.pendings) then deadline_exceeded else joins shared, s)
      | none ↦ elim s.slots [
        | zero ↦ (capacity_unavailable, s)
        | suc slots ↦ (
          starts id,
          record s {
            slots = slots;
            pendings = insert id (new_pending airport) s.pendings;
            inflight = insert airport id s.inflight;
          },
        )
      ]
    ]
  ]

  -- `pending.error = error`, `pending.records = …`, `pending.completed.set()`, `pending.timed_out = True`
  abbrev pub set_error : E → PendingTafFetch R E → PendingTafFetch R E
  set_error error pending = record pending { error = some error }

  -- The download worked; `clock_error` is there if reading the clock behind it raised.
  abbrev pub set_records : R → Option E → PendingTafFetch R E → PendingTafFetch R E
  set_records records none pending = record pending { records = some records }
  set_records records (some error) pending = record pending {
    records = some records;
    error = some error;
  }

  abbrev pub set_completed : PendingTafFetch R E → PendingTafFetch R E
  set_completed pending = record pending { completed = true }

  abbrev pub set_timed_out : PendingTafFetch R E → PendingTafFetch R E
  set_timed_out pending = record pending { timed_out = true }

  abbrev pub put : String → PendingTafFetch R E → Provider R E → Provider R E
  put id pending s = record s { pendings = insert id pending s.pendings }

  -- What is done where `worker.start()` raises: `self._inflight.pop(airport_icao, None)`.
  unfoldable pub abandon : String → Provider R E → Provider R E
  abandon airport s = record s { inflight = remove airport s.inflight }

  -- The locked section of `_complete_fetch`.
  unfoldable pub store :
      String → String → PendingTafFetch R E → Option ℕ → Provider R E → Provider R E
  store airport id pending completed_at s = record s {
    cache = cached_with airport pending.records completed_at s.cache;
    inflight =
        if is_same (lookup airport s.inflight) id then remove airport s.inflight else s.inflight;
  }

  unfoldable pub release : Provider R E → Result ProviderError (Provider R E)
  release s =
      if ltb s.slots s.maximum_concurrent_fetches
      then ok (record s { slots = s.slots + 1 })
      else err over_released

  -- What a caller gets when the fetch that it waits for is completed.
  unfoldable pub collect : PendingTafFetch R E → Result (FetchError E) R
  collect pending = elim pending.error [
    | some error ↦ err (raised error)
    | none ↦ elim pending.records [ none ↦ err no_result | some records ↦ ok records ]
  ]

  -- Whether the fetch has ended with records or an error.
  abbrev pub answered : PendingTafFetch R E → Bool
  answered pending = elim pending.error [
    | some error ↦ true
    | none ↦ elim pending.records [ none ↦ false | some records ↦ true ]
  ]
