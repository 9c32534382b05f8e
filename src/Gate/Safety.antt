-- ===== src/Gate/Safety.antt =====
-- When the gate lets a run through, nothing else is at work and the limits are kept.
use auto_nav_log.Common.{
  ℕ, ◌<◌, String, ◌≡◌, ap, subst, inl, inr, Bool, true, false, not, ◌&&◌, ◌||◌, Option, none, some,
  List, [], ◌∷◌, arith, if◌then◌else◌, any, any-false-All, count_if-none, keep_if, count_if, ltb,
  eqb, All, All-map, Bool-cases, Option-cases, ◌==◌, eq_iff, ltb→lt,
}
use auto_nav_log.Common.Result.{Result, ok, err, ◌>>=◌, ◌>>◌, guard, Result-cases}
use auto_nav_log.Gate.Model.{Reason, Member, Lock, Run, Trigger, Calendar}
use auto_nav_log.Gate.Rules.{
  has, is_text, positive, counted, lease, waits, scan, lock_waiters, conflicts, conflicting_active,
  reject_conflict, is_request, title, others, is_recent, valid_inputs, check_observed, check_budget,
  own_run, validate, gate,
}

-- A member that waits for the lock, for that run.
abbrev pub waits_as : ℕ → Member → Bool
waits_as id member =
    (elim (positive member.run_id) [ none ↦ false | some run ↦ eqb run id ])
    && (is_text "pending" member.status && not member.has_job_id)

abbrev pub members_of : Lock → List Member
members_of lock = elim lock.group_members [ none ↦ [] | some members ↦ members ]

-- A run that does not compete: it is our own, or it is completed, or it waits for the lock.
abbrev pub harmless : Lock → ℕ → Run → Bool
harmless lock own_id run =
    eqb run.id own_id || (run.status == "completed" || any (waits_as run.id) (members_of lock))

waits-cases :
    (own_id id : ℕ) (status : Option String) (waiting : Bool)
    → waits own_id id status ≡ ok waiting
    → waiting ≡ true
    → is_text "pending" status ≡ true
unfolding waits
waits-cases own_id id status waiting e w = ground arith

lease-member :
    (member : Member) (seen : List ℕ) (id : ℕ)
    → lease member seen ≡ some id
    → (positive member.run_id ≡ some id) × (member.has_job_id ≡ false)
unfolding lease
lease-member member seen id e = elim (Option-cases (positive member.run_id)) [
  | inl gone ↦ absurd (ground arith)
  | inr (run, there) ↦ ground arith
]

-- Each waiter that the scan finds is a member that waits.
scan-waits :
    (own_id : ℕ) (seen waiters : List ℕ) (members : List Member) (found : List ℕ)
    → scan own_id seen waiters members ≡ ok found
    → (id : ℕ) → has id found ≡ true
    → has id waiters || any (waits_as id) members ≡ true
unfolding scan
scan-waits own_id seen waiters [] found e id h = ground arith
scan-waits own_id seen waiters (member ∷ members) found e id h =
    elim (Option-cases (lease member seen)) [
      | inl gone ↦ absurd (ground arith)
      | inr (run, leased) ↦ elim (Result-cases (waits own_id run member.status)) [
        | inr (reason, refused) ↦ absurd (ground arith)
        | inl (waiting, judged) ↦
            let next : scan own_id (run ∷ seen) (if waiting then run ∷ waiters else waiters) members
                ≡ ok found =
              ground arith in
            let later =
              scan-waits own_id (run ∷ seen) (if waiting then run ∷ waiters else waiters) members
                found next id h in
            let (own, free) = lease-member member seen run leased in
            let waiter = waits-cases own_id run member.status waiting judged in
            elim (Bool-cases waiting) [
              | inl is_waiter ↦ ground (arith, later, waiter is_waiter)
              | inr not_waiting ↦ ground (arith, later)
            ]
      ]
    ]

reject_conflict-ok :
    (runs : List Run) (own_id : ℕ) (waiters : List ℕ)
    → reject_conflict runs own_id waiters ≡ ok tt
    → All (λ run. conflicts own_id waiters run ≡ false) runs
unfolding reject_conflict conflicting_active
reject_conflict-ok [] own_id waiters e = tt
reject_conflict-ok (run ∷ runs) own_id waiters e =
    (ground arith, reject_conflict-ok runs own_id waiters (ground arith))

module _ (lock : Lock) (own_id : ℕ) where
  lock-waiters :
      (found : List ℕ)
      → lock_waiters lock own_id ≡ ok found
      → (id : ℕ) → has id found ≡ true
      → any (waits_as id) (members_of lock) ≡ true
  unfolding lock_waiters
  lock-waiters found e id h = elim (Option-cases lock.group_members) [
    | inl gone ↦ absurd (ground arith)
    | inr (members, there) ↦ elim (Option-cases (counted lock.total_count)) [
      | inl wrong ↦ absurd (ground arith)
      | inr (count, right) ↦
          let scanned : scan own_id [] [] members ≡ ok found = ground arith in
          ground (arith, scan-waits own_id [] [] members found scanned id h)
    ]
  ]

  lock-harmless :
      (found : List ℕ) (runs : List Run)
      → lock_waiters lock own_id ≡ ok found
      → All (λ run. conflicts own_id found run ≡ false) runs
      → All (λ run. harmless lock own_id run ≡ true) runs
  lock-harmless found runs e h =
      All-map {Q = λ run. harmless lock own_id run ≡ true}
        (λ (run : Run) (c : conflicts own_id found run ≡ false).
          elim (Bool-cases (has run.id found)) [
            | inl waits_there ↦ ground (arith, lock-waiters found e run.id waits_there)
            | inr not_there ↦ ground arith
          ])
        runs h

-- What a run that is let through keeps to.
pub record Granted (python : Calendar) (trigger : Trigger) (own_id : ℕ) (runs active : List Run)
    (lock : Lock) : Type 0 where
  pub own : Run
  pub only_own : keep_if (λ run. eqb run.id own_id) runs ≡ own ∷ []
  pub titled : own.display_title ≡ title trigger
  pub valid : valid_inputs python trigger ≡ true
  pub active_harmless : All (λ run. harmless lock own_id run ≡ true) active
  pub known_harmless : All (λ run. harmless lock own_id run ≡ true) runs
  pub daily : count_if (λ run. run.day == python.date own.created_at) (others own_id runs) < 8
  pub per_run :
      count_if (λ run. run.display_title == title trigger) (others own_id runs)
      < (if is_request trigger then 1 else 2)
  pub rested : any (is_recent own.created_at) (others own_id runs) ≡ false

sequence-ok : (m k : Result Reason (Unit {0})) → m >> k ≡ ok tt → (m ≡ ok tt) × (k ≡ ok tt)
sequence-ok m k e = elim (Result-cases m) [
  | inl (u, good) ↦ (good, (let q : k ≡ ok tt = rw good at e in q))
  | inr (reason, bad) ↦ absurd (let q : err reason ≡ ok tt = rw bad at e in cc q)
]

bind-ok :
    {A : Type 0} (m : Result Reason A) (k : A → Result Reason (Unit {0}))
    → m >>= k ≡ ok tt
    → (a : A) × (m ≡ ok a) × (k a ≡ ok tt)
bind-ok m k e = elim (Result-cases m) [
  | inl (a, good) ↦ (a, good, (let q : k a ≡ ok tt = rw good at e in q))
  | inr (reason, bad) ↦ absurd (let q : err reason ≡ ok tt = rw bad at e in cc q)
]

guard-ok : (b : Bool) (reason : Reason) → guard b reason ≡ ok tt → b ≡ true
guard-ok b reason e = ground arith

own_run-ok :
    (trigger : Trigger) (runs : List Run) (own : Run)
    → own_run trigger runs ≡ ok own
    → (runs ≡ own ∷ []) × (own.display_title ≡ title trigger)
unfolding own_run
own_run-ok trigger [] own e = cc
own_run-ok trigger (run ∷ []) own e = elim (Bool-cases (run.display_title == title trigger)) [
  | inl same ↦
      let is_own : run ≡ own = ground arith in
      (
        ap (λ r. r ∷ []) is_own,
        subst (λ r. r.display_title ≡ title trigger) is_own
            ((eq_iff run.display_title (title trigger)).0 same),
      )
  | inr differ ↦ absurd (ground arith)
]
own_run-ok trigger (run ∷ next ∷ runs) own e = cc

per_run-ok :
    (request : Bool) (test : Run → Bool) (rest : List Run)
    → request || ltb (count_if test rest) 2 ≡ true
    → not (request && any test rest) ≡ true
    → count_if test rest < (if request then 1 else 2)
per_run-ok false test rest few unique = ground arith
per_run-ok true test rest few unique =
    let zero_there : count_if test rest ≡ 0 =
      count_if-none test rest (any-false-All test rest (ground arith)) in
    ground (arith, zero_there)

module _ (python : Calendar) (trigger : Trigger) (own_id : ℕ) (runs active : List Run) (lock : Lock)
    (now : ℕ) where
  -- A run passes the gate only if it alone is in the history under its id, with the title of its request
  -- and with valid inputs; every other run, of the history and of the active ones, is
  -- completed or waits for the lock; fewer than eight other external runs are of
  -- its day, none (for a request) or at most one (for a fallback) has its title, and none began in
  -- the ninety minutes before it.
  pub gate-Granted :
      gate python trigger own_id runs active lock now ≡ ok tt
      → Granted python trigger own_id runs active lock
  unfolding gate validate check_budget
  gate-Granted e =
      let (found, locked, after) = bind-ok (lock_waiters lock own_id) _ e in
      let (idle, validated) = sequence-ok (reject_conflict active own_id found) _ after in
      let (start, rest) =
        sequence-ok (guard (valid_inputs python trigger) _ >> check_observed python trigger now) _
          validated in
      let (right, on_time) = sequence-ok (guard (valid_inputs python trigger) _) _ start in
      let (own, mine, budget) =
        bind-ok (own_run trigger (keep_if (λ run. eqb run.id own_id) runs)) _ rest in
      let (only, titled) = own_run-ok trigger (keep_if (λ run. eqb run.id own_id) runs) own mine in
      let (to_idle, rests) =
        sequence-ok _ (guard (not (any (is_recent own.created_at) (others own_id runs))) _)
          budget in
      let (to_duplicate, alone) = sequence-ok _ (reject_conflict runs own_id found) to_idle in
      let (to_per_run, unique) = sequence-ok _ (guard _ _) to_duplicate in
      let (today, few) = sequence-ok (guard _ _) (guard _ _) to_per_run in
      record {
        own = own;
        only_own = only;
        titled = titled;
        valid = guard-ok _ _ right;
        active_harmless =
            lock-harmless lock own_id found active locked
              (reject_conflict-ok active own_id found idle);
        known_harmless =
            lock-harmless lock own_id found runs locked
              (reject_conflict-ok runs own_id found alone);
        daily = ltb→lt _ _ (guard-ok _ _ today);
        per_run =
            per_run-ok (is_request trigger) (λ run. run.display_title == title trigger)
              (others own_id runs) (guard-ok _ _ few) (guard-ok _ _ unique);
        rested =
            (let q : not (any (is_recent own.created_at) (others own_id runs)) ≡ true =
                guard-ok _ _ rests in
              ground arith);
      }
