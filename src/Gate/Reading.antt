-- ===== src/Gate/Reading.antt =====
-- What a list that the gate reads is like.
use auto_nav_log.Common.{
  ℕ, ◌≤◌, String, ◌≡◌, refl, ap, subst, inl, inr, Bool, true, false, Option, none, some, List, [],
  ◌∷◌, ◌++◌, arith, length, leb, ltb, eqb, leb→le, All, Bool-cases,
}
use auto_nav_log.Common.Int.{pos, negsuc}
use auto_nav_log.Common.Result.{ok, err}
use auto_nav_log.Gate.History.{
  Row, Response, oversize, malformed, listing, Verdict, accepted, retry, rejected, distinct, ids_of,
  retry_rows_well_formed, judge_ids, judge_rows, judge, attempts, read_list,
}

module _ (timestamp : String → Bool) (of_runs : Bool) where
  -- A response that may be read again: its rows are distinct and well formed, their number is not the count.
  pub record Replaceable (response : Response) : Type 0 where
    pub total : ℕ
    pub rows : List Row
    pub ids : List String
    pub shape : response ≡ listing (some (pos total)) (some rows)
    pub mismatch : eqb (length rows) total ≡ false
    pub identified : ids_of rows ≡ some ids
    pub no_duplicate : distinct ids ≡ true
    pub formed : retry_rows_well_formed timestamp of_runs rows ≡ true

  -- A list that is read: a response that holds it whole, after responses that may be read again.
  pub record Complete (responses : List Response) (rows : List Row) : Type 0 where
    pub before : List Response
    pub after : List Response
    pub ids : List String
    pub read : responses ≡ before ++ listing (some (pos (length rows))) (some rows) ∷ after
    pub replaced : All Replaceable before
    pub identified : ids_of rows ≡ some ids
    pub no_duplicate : distinct ids ≡ true
    pub bounded : length rows ≤ 100

  -- What the two verdicts that go on say of a response.
  abbrev Says : Response → Verdict → Type 0
  Says response (accepted rows) =
      (ids : List String) × (response ≡ listing (some (pos (length rows))) (some rows))
      × (ids_of rows ≡ some ids)
      × (distinct ids ≡ true)
      × (length rows ≤ 100)
  Says response retry = Replaceable response
  Says response (rejected reason) = Unit

  judge_ids-Says :
      (total : ℕ) (rows : List Row) (found : Option (List String))
      → total ≤ 100
      → ids_of rows ≡ found
      → Says (listing (some (pos total)) (some rows)) (judge_ids timestamp of_runs total rows found)
  unfolding judge_ids
  judge_ids-Says total rows none bound e = tt
  judge_ids-Says total rows (some ids) bound e = elim (Bool-cases (distinct ids)) [
    | inr twice ↦ rw twice tt
    | inl once ↦ elim (Bool-cases (eqb (length rows) total)) [
      | inl fits ↦
          let same : total ≡ length rows = ground arith in
          rw (once, fits)
            (ids, ap (λ n. listing (some (pos n)) (some rows)) same, e, once, ground arith)
      | inr differs ↦ elim (Bool-cases (retry_rows_well_formed timestamp of_runs rows)) [
        | inl formed ↦
            rw (once, differs, formed)
              (record {
                total = total;
                rows = rows;
                ids = ids;
                shape = refl;
                mismatch = differs;
                identified = e;
                no_duplicate = once;
                formed = formed;
              })
        | inr broken ↦ rw (once, differs, broken) tt
      ]
    ]
  ]

  judge-Says : (response : Response) → Says response (judge timestamp of_runs response)
  unfolding judge judge_rows
  judge-Says oversize = tt
  judge-Says malformed = tt
  judge-Says (listing none rows) = tt
  judge-Says (listing (some (negsuc n)) rows) = tt
  judge-Says (listing (some (pos total)) none) = elim (Bool-cases (leb total 100)) [
    | inl within ↦ rw within tt
    | inr beyond ↦ rw beyond tt
  ]
  judge-Says (listing (some (pos total)) (some rows)) = elim (Bool-cases (leb total 100)) [
    | inr beyond ↦ rw beyond tt
    | inl within ↦ elim (Bool-cases (ltb 100 (length rows))) [
      | inl many ↦ rw (within, many) tt
      | inr few ↦
          rw (within, few) (judge_ids-Says total rows (ids_of rows) (leb→le total 100 within) refl)
    ]
  ]

  -- The verdict on the first response, and what the later ones give.
  after_verdict :
      (response : Response) (responses : List Response) (rows : List Row)
      → (attempts timestamp of_runs responses ≡ ok rows → Complete responses rows)
      → attempts timestamp of_runs (response ∷ responses) ≡ ok rows
      → (v : Verdict) → judge timestamp of_runs response ≡ v
      → Says response v
      → Complete (response ∷ responses) rows
  unfolding attempts
  after_verdict response responses rows more e (accepted got) j
        (ids, shape, identified, once, bound) =
      let same : got ≡ rows = (let q : ok got ≡ ok rows = rw (j, attempts) at e in ground arith) in
      subst (Complete (response ∷ responses)) same (record {
        before = [];
        after = responses;
        ids = ids;
        read = ap (λ r. r ∷ responses) shape;
        replaced = tt;
        identified = identified;
        no_duplicate = once;
        bounded = bound;
      })
  after_verdict response responses rows more e retry j s =
      let k = more (rw (j, attempts) at e) in
      record {
        before = response ∷ k.before;
        after = k.after;
        ids = k.ids;
        read = ap (λ rs. response ∷ rs) k.read;
        replaced = (s, k.replaced);
        identified = k.identified;
        no_duplicate = k.no_duplicate;
        bounded = k.bounded;
      }
  after_verdict response responses rows more e (rejected reason) j s =
      absurd (let q : err reason ≡ ok rows = rw (j, attempts) at e in cc q)

  attempts-Complete :
      (responses : List Response) (rows : List Row)
      → attempts timestamp of_runs responses ≡ ok rows
      → Complete responses rows
  unfolding attempts
  attempts-Complete [] rows e = cc
  attempts-Complete (response ∷ responses) rows e =
      after_verdict response responses rows (attempts-Complete responses rows) e
        (judge timestamp of_runs response) refl (judge-Says response)

  -- A list that `read_list` returns comes whole from one of the three responses: its rows are as many as
  -- the count says, at most a hundred, and no two have one id. The responses before it had
  -- well-formed rows without a duplicate, and a wrong count: a retry hides nothing else.
  pub read_list-Complete :
      (first second third : Response) (rows : List Row)
      → read_list timestamp of_runs first second third ≡ ok rows
      → Complete (first ∷ second ∷ third ∷ []) rows
  unfolding read_list
  read_list-Complete first second third rows e =
      attempts-Complete (first ∷ second ∷ third ∷ []) rows e
