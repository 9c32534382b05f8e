-- ===== src/Gate/Rules.antt =====
-- scripts/static_ops/external_trigger_gate.py: `lock_waiters`, `conflicting_active`, `validate`, and the
-- order in which `main` asks them.
use Prim.Native.String.{◌++◌}
use Prim.Native.Nat.{◌%◌}
use text.Mathlib.Text.{starts_with}
use auto_nav_log.Common.{
  ℕ, suc, ◌-◌, ◌/◌, String, Bool, true, false, not, ◌&&◌, ◌||◌, Option, none, some, List, [], ◌∷◌,
  if◌then◌else◌, any, keep_if, count_if, length, ltb, leb, eqb, ◌==◌,
}
use auto_nav_log.Common.Int.{ℤ, pos}
use auto_nav_log.Common.Result.{Result, ok, err, ◌>>=◌, ◌>>◌, guard}
use auto_nav_log.Gate.Model.{
  Reason, unknown_lock, unknown_lease, lock_not_held, lock_conflict, lock_missing,
  unknown_actions_status, invalid_inputs, invalid_observed_run, current_request_missing,
  daily_limit, per_run_limit, duplicate_request, active_conflict, cooldown, unexpected, Member,
  Lock, Run, Trigger, Calendar,
}

abbrev pub has : ℕ → List ℕ → Bool
has id ids = any (λ other. eqb other id) ids

-- A field that is there and equal to the text.
abbrev pub is_text : String → Option String → Bool
is_text expected none = false
is_text expected (some actual) = actual == expected

-- The number of members, if it is from 1 to 100.
abbrev pub counted : Option ℤ → Option ℕ
counted (some (pos n)) = if leb 1 n && leb n 100 then some n else none
counted _ = none

-- The run of a member, if it is positive, new, and has no job.
abbrev pub positive : Option ℤ → Option ℕ
positive (some (pos (suc n))) = some (suc n)
positive _ = none

abbrev pub unless : Bool → Option ℕ → Option ℕ
unless refused o = if refused then none else o

unfoldable pub lease : Member → List ℕ → Option ℕ
lease member seen = elim (positive member.run_id) [
  | none ↦ none
  | some id ↦ unless (member.has_job_id || has id seen) (some id)
]

-- Whether the member only waits for the lock.
unfoldable pub waits : ℕ → ℕ → Option String → Result Reason Bool
waits own_id id status =
    if eqb id own_id
    then (if is_text "in_progress" status then ok false else err lock_not_held)
    else if is_text "pending" status
    then ok true
    else err lock_conflict

-- The loop of `lock_waiters`, over `seen` and `waiters`.
unfoldable pub scan : ℕ → List ℕ → List ℕ → List Member → Result Reason (List ℕ)
scan own_id seen waiters [] = if has own_id seen then ok waiters else err lock_missing
scan own_id seen waiters (member ∷ members) = elim (lease member seen) [
  | none ↦ err unknown_lease
  | some id ↦ elim (waits own_id id member.status) [
    | err reason ↦ err reason
    | ok waiting ↦ scan own_id (id ∷ seen) (if waiting then id ∷ waiters else waiters) members
  ]
]

unfoldable pub lock_waiters : Lock → ℕ → Result Reason (List ℕ)
unfolding scan
lock_waiters lock own_id = elim lock.group_members [
  | none ↦ err unknown_lock
  | some members ↦ elim (counted lock.total_count) [
    | none ↦ err unknown_lock
    | some count ↦
        if is_text "static-production" lock.group_name && eqb (length members) count
        then scan own_id [] [] members
        else err unknown_lock
  ]
]

abbrev pub is_known : String → Bool
is_known status =
    any (λ known. known == status)
      ("completed" ∷ "queued" ∷ "in_progress" ∷ "waiting" ∷ "pending" ∷ "requested" ∷ [])

abbrev pub conflicts : ℕ → List ℕ → Run → Bool
conflicts own_id waiters run =
    not (eqb run.id own_id) && (not (run.status == "completed") && not (has run.id waiters))

unfoldable pub conflicting_active : List Run → ℕ → List ℕ → Result Reason Bool
conflicting_active [] own_id waiters = ok false
conflicting_active (run ∷ runs) own_id waiters =
    let rest = conflicting_active runs own_id waiters in
    if not (is_known run.status)
    then err unknown_actions_status
    else if conflicts own_id waiters run
    then ok true
    else rest

-- `if conflicting_active(…): raise GateRejection(ACTIVE_CONFLICT, …)`
unfoldable pub reject_conflict : List Run → ℕ → List ℕ → Result Reason (Unit {0})
reject_conflict runs own_id waiters =
    conflicting_active runs own_id waiters >>= λ conflict. guard (not conflict) active_conflict

abbrev pub is_request : Trigger → Bool
is_request trigger = not (trigger.request_id == "")

abbrev pub title : Trigger → String
title trigger =
    if is_request trigger
    then "msm-request/" ++ trigger.request_id
    else "msm-fallback/" ++ trigger.observed_run

-- A minute or second that is not zero, or an hour that is no multiple of three.
abbrev pub off_schedule : ℕ → Bool
off_schedule time =
    not (eqb (time / 3600 % 24 % 3) 0) || (not (eqb (time / 60 % 60) 0) || not (eqb (time % 60) 0))

abbrev pub is_external : Run → Bool
is_external run =
    starts_with run.display_title "msm-fallback/" || starts_with run.display_title "msm-request/"

abbrev pub others : ℕ → List Run → List Run
others own_id runs = keep_if (λ run. not (eqb run.id own_id) && is_external run) runs

abbrev pub is_recent : ℕ → Run → Bool
is_recent created run = leb run.created_at created && ltb (created - run.created_at) 5400

-- The one run that is our own, with the title of the request.
unfoldable pub own_run : Trigger → List Run → Result Reason Run
own_run trigger (run ∷ []) =
    if run.display_title == title trigger then ok run else err current_request_missing
own_run trigger _ = err current_request_missing

module _ (python : Calendar) where
  unfoldable pub valid_inputs : Trigger → Bool
  valid_inputs trigger =
      let request = is_request trigger in
      trigger.feed_refresh
      && (trigger.publish
          && (not trigger.source_sha
              && ((not request
                    || (trigger.observed_run == "" && python.is_digits 13 trigger.request_id))
                  && ((request || python.is_digits 14 trigger.observed_run)
                      && trigger.run_attempt == "1"))))

  unfoldable pub check_observed : Trigger → ℕ → Result Reason (Unit {0})
  check_observed trigger now =
      if is_request trigger then ok tt else elim (python.strptime trigger.observed_run) [
        | none ↦ err unexpected
        | some observed ↦
            guard (leb observed now && not (off_schedule observed)) invalid_observed_run
      ]

  -- The limits on the other external runs, for a run that was created at `created`.
  unfoldable pub check_budget :
      Trigger → ℕ → List Run → List Run → ℕ → List ℕ → Result Reason (Unit {0})
  unfolding reject_conflict
  check_budget trigger own_id runs rest created waiters =
      guard (ltb (count_if (λ run. run.day == python.date created) rest) 8) daily_limit
      >> guard
          (is_request trigger || ltb (count_if (λ run. run.display_title == title trigger) rest) 2)
          per_run_limit
      >> guard (not (is_request trigger && any (λ run. run.display_title == title trigger) rest))
          duplicate_request
      >> reject_conflict runs own_id waiters
      >> guard (not (any (is_recent created) rest)) cooldown

  unfoldable pub validate : Trigger → ℕ → List Run → ℕ → List ℕ → Result Reason (Unit {0})
  unfolding valid_inputs check_observed check_budget own_run
  validate trigger own_id runs now waiters =
      guard (valid_inputs trigger) invalid_inputs
      >> check_observed trigger now
      >> (own_run trigger (keep_if (λ run. eqb run.id own_id) runs) >>= λ own.
          check_budget trigger own_id runs (others own_id runs) own.created_at waiters)

  -- The three checks of `main`, on the history, the active runs and the live lock.
  unfoldable pub gate : Trigger → ℕ → List Run → List Run → Lock → ℕ → Result Reason (Unit {0})
  unfolding lock_waiters reject_conflict validate
  gate trigger own_id runs active lock now = lock_waiters lock own_id >>= λ waiters.
      reject_conflict active own_id waiters >> validate trigger own_id runs now waiters
