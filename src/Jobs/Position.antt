-- ===== src/Jobs/Position.antt =====
-- What a client sees of a job: only its own, with its place among the waiting ones.
use auto_nav_log.Common.{
  ℕ, ◌+◌, ◌≤◌, ◌<◌, String, ◌≡◌, sym, ap, inl, inr, Bool, true, false, ◌&&◌, none, some, List, [],
  ◌∷◌, arith, ltb, leb, count_if, count_if-keep_if, count_if-none, keep_if, All, All-map,
  All-keep_if, Bool-cases, Option-cases, ◌==◌, eq_iff, eq_refl, subst, ◌∙◌, ◌≢◌, ◌⊎◌,
}
use auto_nav_log.Common.Dict.{lookup, values, values-All, count_if-pos}
use auto_nav_log.Common.Sorting.{
  sort_by, Ascending, sort_by-Ascending, All-sort_by, count_if-sort_by,
}
use auto_nav_log.Jobs.Model.{Job, Queue, Snapshot, waits}
use auto_nav_log.Jobs.Operations.{index_of, queue_position, get, snapshot}
use auto_nav_log.Jobs.Invariant.{Inv}
use auto_nav_log.Jobs.Safety.{Reachable-Inv}
use auto_nav_log.Jobs.System.{World, Reachable}

module _ {R : Type 0} (job : Job R) where
  abbrev Mine : Job R → Type 0
  Mine item = item.id ≡ job.id → item ≡ job

  index_of-found :
      (start : ℕ) (xs : List (Job R))
      → 0 < count_if (λ item. item.id == job.id) xs
      → (p : ℕ) × (index_of job.id start xs ≡ some p)
  unfolding index_of
  index_of-found start [] h = absurd (omega arith)
  index_of-found start (x ∷ xs) h = elim (Bool-cases (x.id == job.id)) [
    | inl hit ↦ (start, rw (hit, index_of))
    | inr miss ↦ let (p, e) = index_of-found (start + 1) xs (ground arith) in (p, ground arith)
  ]

  -- What all the members have, the one that is found has.
  found-All {κ} :
      (P : Job R → Type κ) (start p : ℕ) (xs : List (Job R))
      → index_of job.id start xs ≡ some p
      → All Mine xs
      → All P xs
      → P job
  unfolding index_of
  found-All P start p [] e m h = cc
  found-All P start p (x ∷ xs) e m h = elim (Bool-cases (x.id == job.id)) [
    | inl hit ↦ subst P (m.0 ((eq_iff x.id job.id).0 hit)) h.0
    | inr miss ↦ found-All P (start + 1) p xs (ground arith) m.1 h.1
  ]

  index_of_bounds :
      (start p : ℕ) (xs : List (Job R))
      → index_of job.id start xs ≡ some p
      → All Mine xs
      → Ascending (λ item. item.created_at_utc) xs
      → (count_if (λ item. ltb item.created_at_utc job.created_at_utc) xs + start ≤ p)
        × (p < count_if (λ item. leb item.created_at_utc job.created_at_utc) xs + start)
  unfolding index_of
  index_of_bounds start p [] e m a = cc
  index_of_bounds start p (x ∷ xs) e m a = elim (Bool-cases (x.id == job.id)) [
    | inl hit ↦
        let same : x ≡ job = m.0 ((eq_iff x.id job.id).0 hit) in
        let at : x.created_at_utc ≡ job.created_at_utc =
          ap (λ (j : Job R). j.created_at_utc) same in
        let later : count_if (λ (item : Job R). ltb item.created_at_utc job.created_at_utc) xs ≡ 0 =
          count_if-none _ xs (
            All-map (λ (y : Job R) (h : x.created_at_utc ≤ y.created_at_utc). ground arith) xs
              a.0) in
        ground arith
    | inr miss ↦
        let rest : index_of job.id (start + 1) xs ≡ some p = ground arith in
        let before : x.created_at_utc ≤ job.created_at_utc =
          found-All (λ y. x.created_at_utc ≤ y.created_at_utc) (start + 1) p xs rest m.1 a.0 in
        ground (arith, index_of_bounds (start + 1) p xs rest m.1 a.1)
  ]

abbrev pub created_before : {R : Type 0} → Job R → Job R → Bool
created_before job item = waits item && ltb item.created_at_utc job.created_at_utc

abbrev pub created_by : {R : Type 0} → Job R → Job R → Bool
created_by job item = waits item && leb item.created_at_utc job.created_at_utc

module _ {R : Type 0} where
  own_ids :
      (k : String) (job : Job R) (w : World R)
      → Inv w
      → lookup k w.queue.jobs ≡ some job
      → All (Mine job) (values w.queue.jobs)
  own_ids k job w v e = values-All (Mine job) w.queue.jobs v.jobs_unique λ l item x same.
      let kl : l ≡ k = sym (v.keyed l item x) ∙ same ∙ v.keyed k job e in
      cc (x, e, ap (λ j. lookup j w.queue.jobs) kl)

  -- In every reachable world a queued job has a place, and a client is told it: at least 1 and more
  -- than the number of queued jobs created before it, at most the number created no later than it.
  -- A job that is not queued has no place.
  pub queue_position_bounds :
      {workers maximum_queued : ℕ} {w : World R} (k : String) (job : Job R)
      → Reachable workers maximum_queued w
      → lookup k w.queue.jobs ≡ some job
      → (waits job ≡ false → queue_position job w.queue ≡ none)
        × (waits job ≡ true
            → (p : ℕ) × (queue_position job w.queue ≡ some p)
              × (count_if (created_before job) (values w.queue.jobs) < p)
              × (p ≤ count_if (created_by job) (values w.queue.jobs)))
  unfolding queue_position
  queue_position_bounds {w} k job r e =
      let v : Inv w = Reachable-Inv r in
      let key : Job R → ℕ = λ item. item.created_at_utc in
      let queue : List (Job R) = keep_if waits (values w.queue.jobs) in
      let mine : All (Mine job) (sort_by key queue) =
        All-sort_by key (Mine job) queue
          (All-keep_if (Mine job) waits (values w.queue.jobs) (own_ids k job w v e)) in
      (
        (λ no. rw no),
        (λ waiting.
            let own : 0 < count_if (λ item. waits item && item.id == job.id) (values w.queue.jobs) =
              count_if-pos _ k job w.queue.jobs e (rw waiting (eq_refl job.id)) in
            let there : 0 < count_if (λ item. item.id == job.id) (sort_by key queue) = omega (
              arith,
              own,
              count_if-sort_by key (λ item. item.id == job.id) queue,
              count_if-keep_if (λ (item : Job R). item.id == job.id) waits (values w.queue.jobs),
            ) in
            let (p, at) = index_of-found job 1 (sort_by key queue) there in
            let bounds : (count_if (λ item. ltb item.created_at_utc job.created_at_utc)
                      (sort_by key queue)
                    + 1
                  ≤ p)
                × (p
                    < count_if (λ item. leb item.created_at_utc job.created_at_utc)
                        (sort_by key queue)
                      + 1) =
              index_of_bounds job 1 p (sort_by key queue) at mine (sort_by-Ascending key queue) in
            (
              p,
              rw waiting at,
              omega (
                arith,
                bounds,
                count_if-sort_by key (λ item. ltb item.created_at_utc job.created_at_utc) queue,
                count_if-keep_if (λ (item : Job R). ltb item.created_at_utc job.created_at_utc)
                    waits (values w.queue.jobs),
              ),
              omega (
                arith,
                bounds,
                count_if-sort_by key (λ item. leb item.created_at_utc job.created_at_utc) queue,
                count_if-keep_if (λ (item : Job R). leb item.created_at_utc job.created_at_utc)
                    waits (values w.queue.jobs),
              ),
            )),
      )

  -- The snapshot has what the job has, and its place in the queue.
  pub record Shows (q : Queue R) (job : Job R) (s : Snapshot R) : Type 0 where
    pub id : s.id ≡ job.id
    pub status : s.status ≡ job.status
    pub created : s.created_at_utc ≡ job.created_at_utc
    pub updated : s.updated_at_utc ≡ job.updated_at_utc
    pub result : s.result ≡ job.result
    pub error : s.error ≡ job.error
    pub position : s.queue_position ≡ queue_position job q
    pub percent : s.progress_percent ≡ job.progress_percent
    pub message : s.progress_message ≡ job.progress_message

  -- A client gets a snapshot of a job of another owner or another session in no case, and of a job
  -- that is not there neither. A snapshot that it gets is of the job with that id, whose owner and
  -- session are the ones given, and it shows all that the job has to show.
  pub snapshot_authorized :
      (id owner_id session_token : String) (q : Queue R)
      → ((job : Job R)
          → lookup id q.jobs ≡ some job
          → ((job.owner_id ≢ owner_id) ⊎ (job.session_token ≢ session_token))
          → snapshot id owner_id session_token q ≡ none)
        × (lookup id q.jobs ≡ none → snapshot id owner_id session_token q ≡ none)
        × ((s : Snapshot R)
            → snapshot id owner_id session_token q ≡ some s
            → (job : Job R) × (lookup id q.jobs ≡ some job)
              × (job.owner_id ≡ owner_id)
              × (job.session_token ≡ session_token)
              × Shows q job s)
  unfolding snapshot get
  snapshot_authorized id owner_id session_token q = (
    (λ job e other.
        ground (arith, eq_iff job.owner_id owner_id, eq_iff job.session_token session_token)),
    (λ e. ground arith),
    (λ s e. elim (Option-cases (lookup id q.jobs)) [
      | inl gone ↦ ground arith
      | inr (job, there) ↦ (
        job,
        there,
        ground (arith, eq_iff job.owner_id owner_id),
        ground (arith, eq_iff job.session_token session_token),
        ground arith,
      )
    ]),
  )
