-- ===== src/Storage/Endings.antt =====
-- storage/safe_json.py: rules for all that its calls leave, temporary files and history included.
use auto_nav_log.Common.Result.{Result, err, ok}
use auto_nav_log.Storage.Effect.{Failure}
use auto_nav_log.Storage.SafeJson.{
  Calls, W, attempt, attempt_with, differs, finished, first_fault, next, passes, raises,
  raises_with, recovering, returns, spend,
}

module _ {Raw : Type 0} where
  -- What is left of all the state, where a call returns and where it raises.
  abbrev pub Ends :
      {A : Type 0}
      → (A → Calls Raw → Type 0)
      → (Calls Raw → Type 0)
      → Result Failure A × Calls Raw
      → Type 0
  Ends good bad (ok a, s) = good a s
  Ends good bad (err failure, s) = bad s

  abbrev pub Both : {A : Type 0} → (Calls Raw → Type 0) → Result Failure A × Calls Raw → Type 0
  Both P = Ends (λ _. P) P

  pub next-Ends :
      {A B : Type 0} (good : A → Calls Raw → Type 0) (bad : Calls Raw → Type 0)
      (better : B → Calls Raw → Type 0) (worse : Calls Raw → Type 0)
      (r : Result Failure A × Calls Raw) (f : A → W Raw B)
      → Ends good bad r
      → ((a : A) (s : Calls Raw) → good a s → Ends better worse (f a s))
      → ((s : Calls Raw) → bad s → worse s)
      → Ends better worse (next r f)
  next-Ends good bad better worse (ok a, s) f h k w = k a s h
  next-Ends good bad better worse (err failure, s) f h k w = w s h

  pub next-Both :
      {A B : Type 0} (P : Calls Raw → Type 0) (r : Result Failure A × Calls Raw) (f : A → W Raw B)
      → Both P r
      → ((a : A) (s : Calls Raw) → P s → Both P (f a s))
      → Both P (next r f)
  next-Both P r f h k = next-Ends (λ _. P) P (λ _. P) P r f h k (λ _ x. x)

  pub recovering-Both :
      {A : Type 0} (P : Calls Raw → Type 0) (r : Result Failure A × Calls Raw)
      (f : Failure → W Raw A)
      → Both P r
      → ((failure : Failure) (s : Calls Raw) → P s → Both P (f failure s))
      → Both P (recovering r f)
  recovering-Both P (ok a, s) f h k = h
  recovering-Both P (err failure, s) f h k = k failure s h

  pub finished-Both :
      {A : Type 0} (P Q : Calls Raw → Type 0) (r : Result Failure A × Calls Raw)
      (f : W Raw (Unit {0}))
      → Both P r
      → ((s : Calls Raw) → P s → Both Q (f s))
      → Both Q (finished r f)
  finished-Both P Q (ok a, s) f h k =
      next-Both {A = Unit {0}} Q (f s) (λ _. returns a) (k s h) (λ _ _ x. x)
  finished-Both P Q (err failure, s) f h k =
      next-Both {A = Unit {0}} Q (f s) (λ _. raises_with failure) (k s h) (λ _ _ x. x)

  pub attempt-Ends :
      (good bad : Calls Raw → Type 0) (done failed : Calls Raw → Calls Raw) (s : Calls Raw)
      → good (done (spend s))
      → bad (failed (spend s))
      → Ends (λ _. good) bad (attempt done failed s)
  unfolding attempt
  attempt-Ends good bad done failed s h k =
      elim (first_fault s.faults)
        as (λ fault. Ends (λ _. good) bad (attempt_with fault done failed s)) [
          | passes ↦ h
          | raises ↦ k
          | differs ↦ k
        ]

  pub Both-state :
      {A : Type 0} (P : Calls Raw → Type 0) (r : Result Failure A × Calls Raw) → Both P r → P r.1
  Both-state P (ok a, s) h = h
  Both-state P (err failure, s) h = h
