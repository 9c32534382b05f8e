-- ===== src/Lib.antt =====
-- AutoNavLog plans a flight on visual rules: a web application takes a route, asks weather
-- providers for the wind, calculates a navigation log and says when the log may be copied.
-- The library models parts of the Python package src/autonavlog. Below, paths start there.
--
-- Common holds what the parts share: Boolean tests on numbers and texts, lists, a dictionary
-- that keeps its insertion order as Python's dict does, a stable sort, integers, and results.
--
-- Jobs models web/calculation_jobs.py, the queue in which the web application runs
-- calculations. Jobs/Model has its data, Jobs/Operations one function for each critical
-- section of the queue's lock: `reserve` is the `with` block of `submit`, `forget` and
-- `release` its roll-back, `begin`, `fail`, `succeed` and `release` the parts of `_run`,
-- `set_progress`, `report_progress`, `get`, `queue_position`, `snapshot` and `prune` the
-- methods of those names. Jobs/System puts threads around them: a step is one of these
-- sections or an answer of the thread pool, and the steps of different threads interleave in
-- any order. The thread pool, the clock and the tokens are the environment: the pool takes or
-- refuses a submission and runs each one that it took once, times are any numbers, an id that
-- is drawn is new, and a task calls its reporter only while it runs, as web/app.py does:
-- `report_progress` itself has no such test. Jobs/Prune, Change, Moves and Reserve say what
-- each operation does to the table, Invariant and Safety what holds in every reachable world,
-- and Guarantees, Progress and Position what follows. Not modelled: a task that raises a
-- BaseException that is no Exception (SystemExit), and `shutdown`, which only calls the
-- executor.
--
-- Forecast models application/forecast_selection.py: which Run of which weather model a
-- calculation uses. Forecast/Effect has the state, the `evaluated` dictionary and the history
-- of calls, with a monad for it and for what may be raised; Forecast/Selection has
-- `select_forecast` and the functions in its body, Forecast/Memo, Answers and Policy the
-- proofs. The providers (weather/provider.py) are parameters that answer a question the same
-- way throughout one selection; a missing provider is one of their faults.
--
-- Readiness models application/readiness.py: the issues of a project, their merging by cause,
-- and the status that they give it. Readiness/Issues and Readiness/Collect have the functions
-- under their names, Readiness/Merging, Dedupe and Ready the proofs.
-- application/fingerprints.py, with its canonical JSON and SHA-256, is a parameter that
-- returns a text for each cause; `Meta` and `Snapshot` are the types of an issue's metadata
-- and of the reference data snapshot.
--
-- Taf models, of weather/destination_taf.py, how callers of AviationWeatherTafProvider share
-- the fetch of a destination's TAF. In Taf/Fetch, `admit` is the first locked section of
-- `_records_with_deadline`, `abandon` what it does where the worker cannot start, `collect`
-- its end, and `store` the locked section of `_complete_fetch`; the writes to the pending
-- object are functions of their own. Taf/System has the steps, which interleave in any order.
-- The objects of `_PendingTafFetch` stand in a heap under an identity that is new when the
-- object is made. The service, with transport and JSON, is the environment: the predicate
-- `Served` is what it may answer for an airport. Times, the time to live and the timeout are
-- natural numbers. Taf/Invariant, Steps and Safety have the invariant, and Taf/Guarantees
-- what follows. Not modelled: the choice of the forecast group (`_select`) and `forecast`.
--
-- Gate models scripts/static_ops/external_trigger_gate.py (from the repository's root), which
-- decides in the publication workflow whether an externally triggered run may do heavy work.
-- Gate/Rules has `lock_waiters`, `conflicting_active` and `validate` under their names, and
-- `gate` for the three checks that `main` makes in a row; Gate/History has `read_list`, whose
-- three attempts are three responses, and Gate/Detected `detected_limit`, for which reading
-- the jobs of a run is a parameter. JSON is decoded before: a field that is missing or of
-- another type is `none`. Regular expressions, strptime and the calendar are parameters, and
-- times are seconds. Gate/Safety, Gate/Reading and Gate/Detected have the proofs. Not
-- modelled: the network and the diagnostics of `main`.
--
-- Storage models storage/local.py, storage/repository.py and storage/safe_json.py: where
-- projects, their autosaves, the markers of their owners and the index of the projects are
-- kept. Storage/Disk has the files, each absent, unreadable or holding a value;
-- Storage/Effect what an operation does to them. Every change of the disk may fail, before
-- it, behind its backup or behind it, with any exception: the fates of the changes to come
-- are part of the state, and a theorem without a condition on them holds for every
-- combination of faults. Reading, Index, Owners, Repository and Markers have the methods of
-- LocalProjectRepository, without the suffix `_locked`; each holds the lock from start to
-- end, so that one runs after another. `key_of` is owner_storage_key and `now` the clock.
-- Storage/SafeJson has the functions of storage/safe_json.py, call by call, over bytes and a
-- validator that are parameters, with the temporary files that it makes and removes, and
-- Storage/Refinement relates it to the writes of the repository. Keeping, Outcome, Calls,
-- Endings, Unnaming, Elsewhere, Stays, Removal and Spares have rules for what an operation
-- keeps and what it leaves, Kept, Drafts, Saving, Recovery, RoundTrip, Deletion, Forgetting,
-- LastCalculation, Atomic and Tidy the theorems. A value stands for what a file holds: an
-- unreadable file is one that cannot be read, parsed, migrated or validated, and where the
-- conversion of a value to JSON or its validation refuses it, the write fails before it
-- changes the file. What is read is taken to be what was written. The removal of a directory
-- may stop halfway, with any of its files left. Not modelled: the conversion itself, symbolic
-- links and the checks against them, owner keys that are no digest, and files that other
-- programs write.
--
-- Segments models application/phase_segments.py, which splits a route into climb, cruise,
-- descent and visual arrival. Segments/Checks has the checks of its input, each in the order
-- of the code, Segments/Cuts the cuts and the snapping of the end of cruise, Segments/Points
-- `_point_at_distance`, and Segments/Split `_phase_at_distance` and the split. The code
-- computes with floats; the model computes exactly, with distances in whole numbers of 10^-9
-- NM and coordinates in 10^-9 degrees, the code's tolerances. So no infinity and no negative
-- distance is modelled, and of the rounding only that of the sum which the check of
-- conservation compares: this sum, `float_sum`, is a parameter. A half of a distance is
-- written by its double. `along` is the point of a geodesic (nav/geodesy.py) and `is_blank`
-- Python's `strip`. Segments/Spacing, Partition, Whole, Clearance, Phases, Phased and
-- Snapping have the proofs.
--
-- All loops are structural recursion on the list that the code iterates over: no function
-- takes fuel.
pub mod Common
pub mod Jobs
pub mod Forecast
pub mod Readiness
pub mod Taf
pub mod Gate
pub mod Storage
pub mod Segments
