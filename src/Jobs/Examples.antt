-- ===== src/Jobs/Examples.antt =====
-- A run of the queue: one job is calculated while a second one waits.
use auto_nav_log.Common.{
  ◌*◌, String, inl, max, length, not, ℕ, ◌+◌, ◌≤◌, ◌<◌, ◌≡◌, refl, false, true, none, some, [], ◌∷◌,
  count_if, eq_iff,
}
use auto_nav_log.Common.Dict.{lookup, insert, values}
use auto_nav_log.Common.Int.{pos}
use auto_nav_log.Common.Result.{ok, err}
use auto_nav_log.Common.Sorting.{sort_by}
use auto_nav_log.Jobs.Model.{waits, Job, already_active, preparing_weather, finished}
use auto_nav_log.Jobs.Operations.{
  advance, new_job, create, reserve, begin, report_progress, update, prune, queue_position,
  snapshot,
}
use mathlib.Core.Bool.{false≢true}
use auto_nav_log.Jobs.Guarantees.{
  session_exclusive, permits_balance, reserve_answers, reservation_keeps_unfinished,
  no_thread_fails, GoesOn,
}
use auto_nav_log.Jobs.Progress.{IsPaced, Forward, status_fits, Step-Forward}
use auto_nav_log.Jobs.Position.{
  created_before, created_by, queue_position_bounds, snapshot_authorized,
}
use auto_nav_log.Jobs.System.{
  World, Step, Reachable, created, next, reserves, accepts, begins, reserved, accepted, running,
  holds,
}

abbrev empty_world : World ℕ
empty_world = record {
  queue = record { workers = 1; maximum_queued = 2; capacity = 3; jobs = [] };
  threads = [];
}

abbrev first_job : Job ℕ
first_job = new_job "a" "owner" "session-1" 10

abbrev first_begun : Job ℕ
first_begun = advance preparing_weather 5 "計算条件を確認しています。" 11 first_job

abbrev second_job : Job ℕ
second_job = new_job "b" "owner" "session-2" 12

abbrev first_world : World ℕ
first_world = record {
  queue = record { workers = 1; maximum_queued = 2; capacity = 2; jobs = ("a", first_job) ∷ [] };
  threads = ("a", reserved) ∷ [];
}

abbrev begun_world : World ℕ
begun_world = record {
  queue = record { workers = 1; maximum_queued = 2; capacity = 2; jobs = ("a", first_begun) ∷ [] };
  threads = ("a", running) ∷ [];
}

abbrev second_world : World ℕ
second_world = record {
  queue = record {
    workers = 1;
    maximum_queued = 2;
    capacity = 1;
    jobs = ("a", first_begun) ∷ ("b", second_job) ∷ [];
  };
  threads = ("a", running) ∷ ("b", reserved) ∷ [];
}

begun-Reachable : Reachable 1 2 begun_world
unfolding create reserve prune begin update insert lookup
begun-Reachable =
    next {w = record first_world { threads = ("a", accepted) ∷ [] }}
      (next {w = first_world}
        (next {w = empty_world} (created empty_world.queue refl)
          (reserves "a" "owner" "session-1" 10 first_world.queue refl refl refl))
        (accepts "a" refl))
      (begins "a" 11 begun_world.queue refl refl)

second-Step : Step begun_world second_world
unfolding reserve prune insert lookup
second-Step = reserves "b" "owner" "session-2" 12 second_world.queue refl refl refl

second-Reachable : Reachable 1 2 second_world
second-Reachable = next begun-Reachable second-Step

session_exclusive_example : ◌≡◌ {A = String} "a" "a"
unfolding lookup
session_exclusive_example =
    session_exclusive "a" "a" first_begun first_begun second-Reachable refl refl refl refl refl

permits_balance_example :
    second_world.queue.capacity + count_if holds (values second_world.threads) ≡ 1 + 2
permits_balance_example = permits_balance second-Reachable

reserve_answers_example : reserve "c" "owner" "session-1" 13 second_world.queue ≡ err already_active
reserve_answers_example = (reserve_answers "c" "owner" "session-1" 13 second-Reachable).0.1 refl

reservation_keeps_unfinished_example :
    (lookup "b" second_world.queue.jobs ≡ some second_job)
    × ((k : String) (job : Job ℕ)
        → lookup k begun_world.queue.jobs ≡ some job
        → finished job ≡ false
        → lookup k second_world.queue.jobs ≡ some job)
    × (length second_world.queue.jobs
        ≤ max (2 * 2) (count_if (λ job. not (finished job)) (values begun_world.queue.jobs) + 1))
unfolding reserve prune insert lookup
reservation_keeps_unfinished_example =
    reservation_keeps_unfinished "b" "owner" "session-2" 12 second_world.queue begun-Reachable refl
      refl refl

no_thread_fails_example : GoesOn second_world "a" running
unfolding lookup
no_thread_fails_example = no_thread_fails "a" running second-Reachable refl

status_fits_example : IsPaced first_begun
unfolding lookup
status_fits_example = status_fits second-Reachable "a" first_begun refl

Step-Forward_example : Forward first_begun first_begun
unfolding lookup
Step-Forward_example =
    Step-Forward "a" first_begun first_begun begun-Reachable second-Step refl refl

queue_position_bounds_example :
    (waits second_job ≡ false → queue_position second_job second_world.queue ≡ none)
    × (waits second_job ≡ true
        → (p : ℕ) × (queue_position second_job second_world.queue ≡ some p)
          × (count_if (created_before second_job) (values second_world.queue.jobs) < p)
          × (p ≤ count_if (created_by second_job) (values second_world.queue.jobs)))
unfolding lookup
queue_position_bounds_example = queue_position_bounds "b" second_job second-Reachable refl

snapshot_authorized_example : snapshot "a" "stranger" "session-1" second_world.queue ≡ none
unfolding lookup
snapshot_authorized_example =
    (snapshot_authorized "a" "stranger" "session-1" second_world.queue).0 first_begun refl
      (inl (λ e. false≢true ((eq_iff "owner" "stranger").1 e)))

-- Below 30% a report is of the weather; a report that goes back is dropped.
report_dropped : report_progress "a" (pos 3) "late" 13 second_world.queue ≡ ok second_world.queue
unfolding report_progress update lookup insert
report_dropped = refl

position_of_second : queue_position second_job second_world.queue ≡ some 1
unfolding queue_position sort_by
position_of_second = refl
