-- ===== src/Jobs/Prune.antt =====
-- What `_prune` takes out of the table of jobs, and how far it brings the table down.
use auto_nav_log.Common.{
  ℕ, ◌+◌, ◌-◌, ◌*◌, ◌≤◌, min, max, String, ◌≡◌, ◌≢◌, refl, sym, inl, inr, true, false, not, none,
  some, List, [], ◌∷◌, arith, leb, if◌then◌else◌, length, any, keep_if, count_if, count_if_split,
  length-take, length-keep_if, All, All-map, All-zip, All-take, All-keep_if, All-keep_if_test,
  Pairwise, Pairwise-take, Pairwise-keep_if, Bool-cases, ◌==◌, eq_iff, eq_refl,
}
use auto_nav_log.Common.Dict.{
  Dict, lookup, remove, values, Unique, lookup-remove, remove-Unique, length-remove, length-values,
  values-All,
}
use auto_nav_log.Common.Sorting.{sort_by, All-sort_by, sort_by-Pairwise, length-sort_by}
use auto_nav_log.Jobs.Model.{Job, finished}
use auto_nav_log.Jobs.Operations.{prune, pop_all, stale}

module _ {R : Type 0} where
  -- Each job stands under its own id.
  abbrev pub Keyed : Dict (Job R) → Type 0
  Keyed jobs = (k : String) (job : Job R) → lookup k jobs ≡ some job → job.id ≡ k

  -- `job` is the job of its id, and it is finished.
  abbrev Stale : Dict (Job R) → Job R → Type 0
  Stale jobs job = (lookup job.id jobs ≡ some job) × (finished job ≡ true)

  abbrev OtherId : Job R → Job R → Type 0
  OtherId a b = a.id ≢ b.id

  stale-Stale :
      (n : ℕ) (jobs : Dict (Job R)) → Keyed jobs → Unique jobs → All (Stale jobs) (stale n jobs)
  unfolding stale
  stale-Stale n jobs h u = All-take (Stale jobs) _ _ (
      All-sort_by _ (Stale jobs) _ (
        All-zip _ _ _
          (All-keep_if _ finished (values jobs) (
            values-All (λ job. lookup job.id jobs ≡ some job) jobs u
              (λ k job e. simp (h k job e) e)))
          (All-keep_if_test finished (values jobs))))

  lookup-pop_all :
      (k : String) (items : List (Job R)) (jobs : Dict (Job R))
      → lookup k (pop_all items jobs)
        ≡ (if any (λ item. item.id == k) items then none else lookup k jobs)
  unfolding pop_all
  lookup-pop_all k [] jobs = refl
  lookup-pop_all k (item ∷ items) jobs =
      ground (arith, lookup-pop_all k items (remove item.id jobs), lookup-remove item.id k jobs)

  spared :
      (k : String) (job : Job R) (jobs : Dict (Job R)) (items : List (Job R))
      → lookup k jobs ≡ some job
      → finished job ≡ false
      → All (Stale jobs) items
      → any (λ item. item.id == k) items ≡ false
  spared k job jobs [] e f h = refl
  spared k job jobs (item ∷ items) e f h = elim (Bool-cases (item.id == k)) [
    | inl hit ↦
        let same : item.id ≡ k = (eq_iff item.id k).0 hit in cc (rw same at h.0.0, e, h.0.1, f)
    | inr miss ↦ rw miss (spared k job jobs items e f h.1)
  ]

  -- A job that is not finished stays.
  pub lookup-prune_active :
      (n : ℕ) (k : String) (job : Job R) (jobs : Dict (Job R))
      → Keyed jobs
      → Unique jobs
      → lookup k jobs ≡ some job
      → finished job ≡ false
      → lookup k (prune n jobs) ≡ some job
  unfolding prune
  lookup-prune_active n k job jobs h u e f = ground (
    arith,
    lookup-pop_all k (stale (n * 2) jobs) jobs,
    spared k job jobs (stale (n * 2) jobs) e f (stale-Stale (n * 2) jobs h u),
  )

  -- What is there after pruning was there before.
  pub lookup-prune-some :
      (n : ℕ) (k : String) (job : Job R) (jobs : Dict (Job R))
      → lookup k (prune n jobs) ≡ some job
      → lookup k jobs ≡ some job
  unfolding prune
  lookup-prune-some n k job jobs e = ground (arith, lookup-pop_all k (stale (n * 2) jobs) jobs)

  pop_all-Unique :
      (items : List (Job R)) (jobs : Dict (Job R)) → Unique jobs → Unique (pop_all items jobs)
  unfolding pop_all
  pop_all-Unique [] jobs u = u
  pop_all-Unique (item ∷ items) jobs u = pop_all-Unique items _ (remove-Unique item.id jobs u)

  pub prune-Unique : (n : ℕ) (jobs : Dict (Job R)) → Unique jobs → Unique (prune n jobs)
  unfolding prune
  prune-Unique n jobs u = elim (Bool-cases (leb (length jobs) (n * 2))) [
    | inl e ↦ rw e u
    | inr e ↦ rw e (pop_all-Unique (stale (n * 2) jobs) jobs u)
  ]

  values-OtherId : (jobs : Dict (Job R)) → Keyed jobs → Unique jobs → Pairwise OtherId (values jobs)
  unfolding lookup
  values-OtherId [] h u = tt
  values-OtherId ((j, item) ∷ jobs) h u =
      let own : (k : String) (job : Job R) → lookup k jobs ≡ some job → job.id ≡ k =
        λ k job e. h k job (ground (arith, eq_iff j k)) in
      (
        values-All (OtherId item) jobs u.1 (λ k job e same.
            ground (arith, own k job e, h j item (ground (arith, eq_refl j)), eq_iff j k)),
        values-OtherId jobs own u.1,
      )

  stale-OtherId :
      (n : ℕ) (jobs : Dict (Job R)) → Keyed jobs → Unique jobs → Pairwise OtherId (stale n jobs)
  unfolding stale
  stale-OtherId n jobs h u = Pairwise-take OtherId _ _ (
      sort_by-Pairwise _ OtherId (λ a b ne e. ne (sym e)) _
        (Pairwise-keep_if OtherId finished (values jobs) (values-OtherId jobs h u)))

  present_after :
      (item : Job R) (jobs : Dict (Job R)) (items : List (Job R))
      → All (OtherId item) items
      → All (λ i. lookup i.id jobs ≢ none) items
      → All (λ i. lookup i.id (remove item.id jobs) ≢ none) items
  present_after item jobs [] o h = tt
  present_after item jobs (i ∷ items) o h = (
    (λ e. h.0 (ground (arith, lookup-remove item.id i.id jobs, eq_iff item.id i.id, o.0))),
    present_after item jobs items o.1 h.1,
  )

  length-pop_all :
      (items : List (Job R)) (jobs : Dict (Job R))
      → Unique jobs
      → Pairwise OtherId items
      → All (λ i. lookup i.id jobs ≢ none) items
      → length (pop_all items jobs) + length items ≡ length jobs
  unfolding pop_all
  length-pop_all [] jobs u o h = omega arith
  length-pop_all (item ∷ items) jobs u o h = omega (
    arith,
    length-remove item.id jobs u h.0,
    length-pop_all items (remove item.id jobs) (remove-Unique item.id jobs u) o.1
        (present_after item jobs items o.0 h.1),
  )

  length-stale :
      (n : ℕ) (jobs : Dict (Job R))
      → length (stale n jobs) ≡ min (length jobs - n) (count_if finished (values jobs))
  unfolding stale
  length-stale n jobs = omega (
    arith,
    length-take (length jobs - n)
        (sort_by (λ item. item.updated_at_utc) (keep_if finished (values jobs))),
    length-sort_by (λ item. item.updated_at_utc) (keep_if finished (values jobs)),
    length-keep_if finished (values jobs),
  )

  -- The table is left with `n * 2` jobs at most, or with none but the unfinished ones.
  pub length-prune :
      (n : ℕ) (jobs : Dict (Job R))
      → Keyed jobs
      → Unique jobs
      → length (prune n jobs) ≤ max (n * 2) (count_if (λ job. not (finished job)) (values jobs))
  unfolding prune
  length-prune n jobs h u = ground (
    arith,
    length-stale (n * 2) jobs,
    length-values jobs,
    count_if_split finished (λ job. not (finished job)) (values jobs) (λ job e. ground arith)
        (λ job e. ground arith),
    length-pop_all (stale (n * 2) jobs) jobs u (stale-OtherId (n * 2) jobs h u) (
        All-map {Q = λ (i : Job R). lookup i.id jobs ≢ none}
          (λ (i : Job R) (s : Stale jobs i) (e : lookup i.id jobs ≡ none). cc (s.0, e))
          (stale (n * 2) jobs) (stale-Stale (n * 2) jobs h u)),
  )
