-- ===== src/Gate/Examples.antt =====
-- A fallback run that is alone, with one run waiting for the lock, and a list that is read twice.
use auto_nav_log.Common.{
  ℕ, String, ◌≡◌, refl, true, false, none, some, List, [], ◌∷◌, count_if, ◌<◌,
}
use auto_nav_log.Common.Int.{pos}
use auto_nav_log.Common.Result.{ok, err, Result}
use auto_nav_log.Gate.Model.{
  Reason, unexpected, Member, Lock, Run, Trigger, Calendar, active_conflict, history_duplicate_id,
}
use auto_nav_log.Gate.Rules.{
  lease, waits, scan, lock_waiters, conflicting_active, reject_conflict, valid_inputs,
  check_observed, check_budget, own_run, validate, gate,
}
use auto_nav_log.Gate.Safety.{Granted, gate-Granted}
use auto_nav_log.Gate.History.{
  Row, Response, listing, distinct, ids_of, retry_rows_well_formed, judge_ids, judge_rows, judge,
  attempts, read_list,
}
use auto_nav_log.Gate.Detected.{
  attempt, count_attempts, detected_limit, worked_on, detected_limit-bounds,
}
use auto_nav_log.Gate.Reading.{Complete, read_list-Complete}

-- Every text has the digits asked for, and stands for 1970-01-01 03:00:00.
abbrev python : Calendar
python = record {
  is_digits = λ n text. true;
  strptime = λ text. some 10800;
  date = λ time. "1970-01-01";
}

abbrev trigger : Trigger
trigger = record {
  feed_refresh = true;
  publish = true;
  source_sha = false;
  observed_run = "19700101030000";
  request_id = "";
  run_attempt = "1";
}

abbrev a_run : ℕ → String → String → ℕ → Run
a_run id status display_title created_at = record {
  id = id;
  status = status;
  display_title = display_title;
  created_at = created_at;
  day = "1970-01-01";
}

abbrev history : List Run
history =
    a_run 7 "in_progress" "msm-fallback/19700101030000" 20000
    ∷ a_run 6 "completed" "msm-fallback/19700101030000" 11000
    ∷ a_run 8 "pending" "release" 20100
    ∷ []

abbrev a_member : ℕ → String → Member
a_member id status = record { run_id = some (pos id); has_job_id = false; status = some status }

abbrev held : Lock
held = record {
  group_name = some "static-production";
  total_count = some (pos 2);
  group_members = some (a_member 7 "in_progress" ∷ a_member 8 "pending" ∷ []);
}

-- The same lock after the run that waited has gone.
abbrev held_alone : Lock
held_alone = record {
  group_name = some "static-production";
  total_count = some (pos 1);
  group_members = some (a_member 7 "in_progress" ∷ []);
}

passes : gate python trigger 7 history [] held 20200 ≡ ok tt
unfolding gate lock_waiters scan lease waits reject_conflict conflicting_active validate
    valid_inputs check_observed check_budget own_run
passes = refl

conflict_is_seen : gate python trigger 7 history [] held_alone 20200 ≡ err active_conflict
unfolding gate lock_waiters scan lease waits reject_conflict conflicting_active validate
    valid_inputs check_observed check_budget own_run
conflict_is_seen = refl

gate-Granted_example : Granted python trigger 7 history [] held
gate-Granted_example = gate-Granted python trigger 7 history [] held 20200 passes

abbrev a_row : String → Row
a_row id = record {
  id = some id;
  positive_id = true;
  created_at = none;
  display_title = none;
  status = none;
  name = some "msm";
}

abbrev short : Response
short = listing (some (pos 2)) (some (a_row "1" ∷ []))

abbrev whole : Response
whole = listing (some (pos 2)) (some (a_row "1" ∷ a_row "2" ∷ []))

abbrev doubled : Response
doubled = listing (some (pos 1)) (some (a_row "1" ∷ a_row "1" ∷ []))

read_again : read_list (λ text. true) false short whole short ≡ ok (a_row "1" ∷ a_row "2" ∷ [])
unfolding read_list attempts judge judge_rows judge_ids ids_of distinct retry_rows_well_formed
read_again = refl

duplicate_is_seen : read_list (λ text. true) false doubled whole whole ≡ err history_duplicate_id
unfolding read_list attempts judge judge_rows judge_ids ids_of distinct retry_rows_well_formed
duplicate_is_seen = refl

read_list-Complete_example :
    Complete (λ text. true) false (short ∷ whole ∷ short ∷ []) (a_row "1" ∷ a_row "2" ∷ [])
read_list-Complete_example =
    read_list-Complete (λ text. true) false short whole short (a_row "1" ∷ a_row "2" ∷ [])
      read_again

-- One run of the history is a fallback for this Run; the jobs of another that is not external are not read.
abbrev no_jobs : ℕ → Result Reason (List String)
no_jobs id = err unexpected

limit_is_kept : detected_limit no_jobs "19700101030000" 7 python history ≡ ok tt
unfolding detected_limit count_attempts attempt
limit_is_kept = refl

detected_limit-bounds_example : count_if (worked_on no_jobs "19700101030000" 7) history < 2
detected_limit-bounds_example =
    detected_limit-bounds no_jobs "19700101030000" 7 python history limit_is_kept
