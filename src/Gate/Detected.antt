-- ===== src/Gate/Detected.antt =====
-- scripts/static_ops/external_trigger_gate.py: `detected_limit`, the limit on the work for one forecast Run.
use Prim.Native.String.{◌++◌}
use auto_nav_log.Common.{
  ℕ, ◌+◌, ◌<◌, String, ◌≡◌, inl, inr, Bool, false, not, ◌&&◌, ◌||◌, none, some, List, [], ◌∷◌,
  arith, if◌then◌else◌, any, count_if, eqb, ltb, ◌==◌,
}
use auto_nav_log.Common.Result.{Result, ok, err, ◌>>=◌, guard, Result-cases}
use auto_nav_log.Gate.Model.{Reason, unexpected, per_run_limit, invalid_detected_run, Run, Calendar}
use auto_nav_log.Gate.Rules.{is_external, off_schedule}

abbrev pub is_fallback_for : String → Run → Bool
is_fallback_for target run = run.display_title == "msm-fallback/" ++ target

abbrev pub has_detected : String → List String → Bool
has_detected target names = any (λ name. name == "msm-detected/" ++ target) names

abbrev pub is_other : ℕ → Run → Bool
is_other own_id run = not (eqb run.id own_id) && is_external run

-- `jobs` reads the names of a run's jobs, or raises.
module _ (jobs : ℕ → Result Reason (List String)) (target : String) (own_id : ℕ) where
  -- How much one run counts.
  unfoldable pub attempt : Run → Result Reason ℕ
  attempt run =
      if not (is_other own_id run)
      then ok 0
      else if is_fallback_for target run
      then ok 1
      else elim (jobs run.id) [
        | err reason ↦ err reason
        | ok names ↦ ok (if has_detected target names then 1 else 0)
      ]

  -- The loop, with what it has counted.
  unfoldable pub count_attempts : ℕ → List Run → Result Reason ℕ
  unfolding attempt
  count_attempts attempts [] = ok attempts
  count_attempts attempts (run ∷ runs) = elim (attempt run) [
    | err reason ↦ err reason
    | ok more ↦ count_attempts (attempts + more) runs
  ]

  unfoldable pub detected_limit : Calendar → List Run → Result Reason (Unit {0})
  unfolding count_attempts
  detected_limit python runs = elim (python.strptime target) [
    | none ↦ err unexpected
    | some observed ↦
        if off_schedule observed
        then err invalid_detected_run
        else count_attempts 0 runs >>= λ attempts. guard (ltb attempts 2) per_run_limit
  ]

  -- Whether another external run was for this forecast Run, by its title or by a job.
  abbrev pub worked_on : Run → Bool
  worked_on run =
      is_other own_id run
      && (is_fallback_for target run
          || (elim (jobs run.id) [ err reason ↦ false | ok names ↦ has_detected target names ]))

  attempt-counts :
      (run : Run) (more : ℕ) → attempt run ≡ ok more → more ≡ (if worked_on run then 1 else 0)
  unfolding attempt
  attempt-counts run more e = elim (Result-cases (jobs run.id)) [
    | inl (names, read) ↦ ground arith
    | inr (reason, failed) ↦ ground arith
  ]

  count_attempts-counts :
      (attempts : ℕ) (runs : List Run) (total : ℕ)
      → count_attempts attempts runs ≡ ok total
      → total ≡ attempts + count_if worked_on runs
  unfolding count_attempts
  count_attempts-counts attempts [] total e = ground arith
  count_attempts-counts attempts (run ∷ runs) total e = elim (Result-cases (attempt run)) [
    | inl (more, read) ↦
        let rest : count_attempts (attempts + more) runs ≡ ok total = ground arith in
        ground (
          arith,
          attempt-counts run more read,
          count_attempts-counts (attempts + more) runs total rest,
        )
    | inr (reason, failed) ↦ absurd (ground arith)
  ]

  -- If the limit on a detected forecast Run is passed, at most one other external run worked on it, as
  -- its title or the names of its jobs tell.
  pub detected_limit-bounds :
      (python : Calendar) (runs : List Run)
      → detected_limit python runs ≡ ok tt
      → count_if worked_on runs < 2
  unfolding detected_limit
  detected_limit-bounds python runs e = elim (Result-cases (count_attempts 0 runs)) [
    | inl (total, counted) ↦ ground (arith, count_attempts-counts 0 runs total counted)
    | inr (reason, failed) ↦ absurd (ground arith)
  ]
