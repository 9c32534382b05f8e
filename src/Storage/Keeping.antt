-- ===== src/Storage/Keeping.antt =====
-- What an operation of the repository keeps, whatever fails: rules for its parts.
use auto_nav_log.Common.{Bool, List, false, if◌then◌else◌, true}
use auto_nav_log.Common.Result.{Result, err, ok}
use auto_nav_log.Storage.Disk.{Disk}
use auto_nav_log.Storage.Effect.{
  Failure, Fate, M, Store, catch, change, change_with_backup, continue, fails, fails_after_backup,
  fails_after_change, fails_halfway, first_fate, handle, later_fates, outcome_of, works, ◌>>=◌,
}

-- A relation between the disk before and after that is reflexive and transitive.
pub record Order {Body Outcome : Type 0} (R : Disk Body Outcome → Disk Body Outcome → Type 0)
    : Type 0 where
  pub same : (d : Disk Body Outcome) → R d d
  pub then_on : (d e f : Disk Body Outcome) → R d e → R e f → R d f

module _ {Body Outcome : Type 0} (R : Disk Body Outcome → Disk Body Outcome → Type 0) where
  abbrev pub Keeps : {A : Type 0} → M Body Outcome A → Type 0
  Keeps m = (s : Store Body Outcome) → R s.disk (m s).1.disk

  module _ (o : Order R) where
    continue-Keeps :
        {A B : Type 0} (d : Disk Body Outcome) (r : Result Failure A × Store Body Outcome)
        (f : A → M Body Outcome B)
        → R d r.1.disk
        → ((a : A) → Keeps (f a))
        → R d (continue r f).1.disk
    continue-Keeps d (ok a, s) f h k = o.then_on d s.disk (f a s).1.disk h (k a s)
    continue-Keeps d (err failure, s) f h k = h

    pub bind-Keeps :
        {A B : Type 0} (m : M Body Outcome A) (f : A → M Body Outcome B)
        → Keeps m
        → ((a : A) → Keeps (f a))
        → Keeps (m >>= f)
    bind-Keeps m f h k s = continue-Keeps s.disk (m s) f (h s) k

    handle-Keeps :
        {A : Type 0} (d : Disk Body Outcome) (r : Result Failure A × Store Body Outcome)
        (f : Failure → M Body Outcome A)
        → R d r.1.disk
        → ((failure : Failure) → Keeps (f failure))
        → R d (handle r f).1.disk
    handle-Keeps d (ok a, s) f h k = h
    handle-Keeps d (err failure, s) f h k = o.then_on d s.disk (f failure s).1.disk h (k failure s)

    pub catch-Keeps :
        {A : Type 0} (m : M Body Outcome A) (f : Failure → M Body Outcome A)
        → Keeps m
        → ((failure : Failure) → Keeps (f failure))
        → Keeps (catch m f)
    catch-Keeps m f h k s = handle-Keeps s.disk (m s) f (h s) k

    outcome_of-Keeps :
        (fate : Fate) (done before after : Disk Body Outcome) (fates : List Fate)
        → R before done
        → R before after
        → R before (outcome_of fate done before after fates).1.disk
    outcome_of-Keeps works done before after fates h k = h
    outcome_of-Keeps (fails failure) done before after fates h k = o.same before
    outcome_of-Keeps (fails_after_backup failure) done before after fates h k = k
    outcome_of-Keeps (fails_after_change failure) done before after fates h k = h
    outcome_of-Keeps (fails_halfway left failure) done before after fates h k = o.same before

    pub change_with_backup-Keeps :
        (done backed_up : Disk Body Outcome → Disk Body Outcome)
        → ((d : Disk Body Outcome) → R d (done d))
        → ((d : Disk Body Outcome) → R d (backed_up d))
        → Keeps (change_with_backup done backed_up)
    unfolding change_with_backup
    change_with_backup-Keeps done backed_up h k s =
        outcome_of-Keeps (first_fate s.fates) (done s.disk) s.disk (backed_up s.disk)
          (later_fates s.fates) (h s.disk) (k s.disk)

    pub change-Keeps :
        (done : Disk Body Outcome → Disk Body Outcome)
        → ((d : Disk Body Outcome) → R d (done d))
        → Keeps (change done)
    unfolding change
    change-Keeps done h = change_with_backup-Keeps done (λ disk. disk) h o.same

    pub if-Keeps :
        {A : Type 0} (test : Bool) (m k : M Body Outcome A)
        → Keeps m
        → Keeps k
        → Keeps (if test then m else k)
    if-Keeps true m k h g = h
    if-Keeps false m k h g = g

module _ {Body Outcome : Type 0} (R Q : Disk Body Outcome → Disk Body Outcome → Type 0)
    (weaker : (d e : Disk Body Outcome) → R d e → Q d e) where
  pub weaken-Keeps : {A : Type 0} (m : M Body Outcome A) → Keeps R m → Keeps Q m
  weaken-Keeps m h s = weaker s.disk (m s).1.disk (h s)
