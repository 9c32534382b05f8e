-- ===== src/Storage/Outcome.antt =====
-- What holds where an operation of the repository returns, and where it raises: rules for its parts.
use auto_nav_log.Common.{Bool, [], false, if◌then◌else◌, refl, true, ◌∷◌, ◌≡◌}
use auto_nav_log.Common.Result.{Result, err, ok}
use auto_nav_log.Storage.Disk.{Disk}
use auto_nav_log.Storage.Effect.{
  Failure, M, Store, change_with_backup, continue, fails, fails_after_backup, fails_after_change,
  fails_halfway, first_fate, handle, later_fates, outcome_of, works,
}

module _ {Body Outcome : Type 0} where
  -- What an operation leaves: one thing where it returns, another where it raises.
  abbrev pub After :
      {A : Type 0}
      → (A → Disk Body Outcome → Type 0)
      → (Disk Body Outcome → Type 0)
      → Result Failure A × Store Body Outcome
      → Type 0
  After good bad (ok a, s) = good a s.disk
  After good bad (err failure, s) = bad s.disk

  module _ {A : Type 0} (good : A → Disk Body Outcome → Type 0) (bad : Disk Body Outcome → Type 0)
      {B : Type 0} (better : B → Disk Body Outcome → Type 0)
      (worse : Disk Body Outcome → Type 0) where
    pub continue-After :
        (r : Result Failure A × Store Body Outcome) (f : A → M Body Outcome B)
        → After good bad r
        → ((a : A) (s : Store Body Outcome) → good a s.disk → After better worse (f a s))
        → ((d : Disk Body Outcome) → bad d → worse d)
        → After better worse (continue r f)
    continue-After (ok a, s) f h k w = k a s h
    continue-After (err failure, s) f h k w = w s.disk h

  pub Keeps-After :
      {A : Type 0} (R : Disk Body Outcome → Disk Body Outcome → Type 0) (d : Disk Body Outcome)
      (r : Result Failure A × Store Body Outcome)
      → R d r.1.disk
      → After (λ a e. R d e) (R d) r
  Keeps-After R d (ok a, s) h = h
  Keeps-After R d (err failure, s) h = h

  pub change_with_backup-After :
      (good : Unit {0} → Disk Body Outcome → Type 0) (bad : Disk Body Outcome → Type 0)
      (done backed_up : Disk Body Outcome → Disk Body Outcome) (s : Store Body Outcome)
      → good tt (done s.disk)
      → bad s.disk
      → bad (backed_up s.disk)
      → bad (done s.disk)
      → After good bad (change_with_backup done backed_up s)
  unfolding change_with_backup
  change_with_backup-After good bad done backed_up s h k b w =
      elim s.fates
        as (λ fates. After good bad (
          outcome_of (first_fate fates) (done s.disk) s.disk (backed_up s.disk)
            (later_fates fates))) [
              | [] ↦ h
              | fate ∷ fates ↦
                  elim fate
                    as (λ f.
                      After good bad (outcome_of f (done s.disk) s.disk (backed_up s.disk) fates)) [
                        | works ↦ h
                        | fails failure ↦ k
                        | fails_after_backup failure ↦ b
                        | fails_after_change failure ↦ w
                        | fails_halfway left failure ↦ k
                      ]
            ]

  pub if-After :
      {A : Type 0} (good : A → Disk Body Outcome → Type 0) (bad : Disk Body Outcome → Type 0)
      (test : Bool) (m k : M Body Outcome A) (s : Store Body Outcome)
      → (test ≡ true → After good bad (m s))
      → (test ≡ false → After good bad (k s))
      → After good bad ((if test then m else k) s)
  if-After good bad true m k s h g = h refl
  if-After good bad false m k s h g = g refl

  pub handle-After :
      {A : Type 0} (good : A → Disk Body Outcome → Type 0) (bad worse : Disk Body Outcome → Type 0)
      (r : Result Failure A × Store Body Outcome) (f : Failure → M Body Outcome A)
      → After good bad r
      → ((failure : Failure) (s : Store Body Outcome) → bad s.disk → After good worse (f failure s))
      → After good worse (handle r f)
  handle-After good bad worse (ok a, s) f h k = h
  handle-After good bad worse (err failure, s) f h k = k failure s h

  pub weaken-After :
      {A : Type 0} (good better : A → Disk Body Outcome → Type 0) (bad : Disk Body Outcome → Type 0)
      (r : Result Failure A × Store Body Outcome)
      → ((a : A) (d : Disk Body Outcome) → good a d → better a d)
      → After good bad r
      → After better bad r
  weaken-After good better bad (ok a, s) f h = f a s.disk h
  weaken-After good better bad (err failure, s) f h = h
