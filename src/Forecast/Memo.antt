-- ===== src/Forecast/Memo.antt =====
-- The memory of a selection changes no result, and no Run is checked twice.
use auto_nav_log.Common.{
  String, ◌≡◌, ◌≢◌, refl, sym, ap, subst, inl, inr, Bool, true, false, Option, none, some, List, [],
  ◌∷◌, ◌++◌, arith, if◌then◌else◌, All, All-map, Pairwise, Bool-cases, Option-cases, eq_iff,
  eq_refl,
}
use auto_nav_log.Forecast.Effect.{
  Model, msm, gsm, Checked, covers, lacks, Listed, runs, outside, Providers, Outcome, ok,
  unavailable, no_runs, fault, Key, same_key, Memo, recall, M, continue, ◌>>=◌, pure, raise,
}
use auto_nav_log.Forecast.Selection.{
  answer, check, first_covering, latest_of, latest, fall_back, preferred, pinned_msm, pinned_gsm,
  pinned, select_with, select_forecast, nothing_evaluated,
}

-- The answer of the provider itself.
abbrev pub as_outcome : {F : Type 0} → Checked F → Outcome F (Option (List String))
as_outcome covers = ok none
as_outcome (lacks codes) = ok (some codes)
as_outcome (Checked.raises e) = fault e

abbrev pub check_directly : {F : Type 0} → Providers F → Model → String → M F (Option (List String))
check_directly p model run st = (as_outcome (p.check_run model run), st)

same_key_iff : (j k : Key) → same_key j k ≡ true → j ≡ k
same_key_iff (msm, r) (msm, s) h = ap (λ x. (msm, x)) ((eq_iff r s).0 h)
same_key_iff (gsm, r) (gsm, s) h = ap (λ x. (gsm, x)) ((eq_iff r s).0 h)
same_key_iff (msm, r) (gsm, s) h = cc
same_key_iff (gsm, r) (msm, s) h = cc

abbrev pub Distinct : List Key → Type 0
Distinct = Pairwise (λ j k. same_key j k ≡ false)

module _ {F : Type 0} (p : Providers F) where
  -- What is remembered is what the provider says, and every call is remembered.
  record Sound (st : Memo) : Type 0 where
    right :
        (k : Key) (c : Option (List String))
        → recall k st.evaluated ≡ some c
        → as_outcome (p.check_run k.0 k.1) ≡ ok c
    known : All (λ k. recall k st.evaluated ≢ none) st.calls
    distinct : Distinct st.calls

  abbrev Post : {A : Type 0} → Outcome F A → Memo → Type 0
  Post (ok a) st = Sound st
  Post _ st = Distinct st.calls

  abbrev Refines : {A : Type 0} → M F A → M F A → Type 0
  Refines a b = (st st' : Memo) → Sound st → ((a st).0 ≡ (b st').0) × Post (a st).0 (a st).1

  Refines-pure : {A : Type 0} (x : A) → Refines (pure {F = F} x) (pure x)
  Refines-pure x st st' s = (refl, s)

  Refines-unavailable :
      {A : Type 0} (codes : List String)
      → Refines {A = A} (raise (unavailable codes)) (raise (unavailable codes))
  Refines-unavailable codes st st' s = (refl, s.distinct)

  Refines-bind :
      {A B : Type 0} (a b : M F A) (f g : A → M F B)
      → Refines a b
      → ((x : A) → Refines (f x) (g x))
      → Refines (a >>= f) (b >>= g)
  Refines-bind a b f g ra rf st st' s = go (a st) (b st') (ra st st' s).0 (ra st st' s).1
    where
      go :
          (x : Outcome F _ × Memo) (y : Outcome F _ × Memo)
          → x.0 ≡ y.0
          → Post x.0 x.1
          → ((continue x.0 f x.1).0 ≡ (continue y.0 g y.1).0)
            × Post (continue x.0 f x.1).0 (continue x.0 f x.1).1
      go (ok x, s1) (y, s2) e post = rw (← e) (rf x s1 s2 post)
      go (unavailable codes, s1) (y, s2) e post = rw (← e) (refl, post)
      go (no_runs m, s1) (y, s2) e post = rw (← e) (refl, post)
      go (fault x, s1) (y, s2) e post = rw (← e) (refl, post)

  recall-cons :
      (j k : Key) (c : Option (List String)) (m : List (Key × Option (List String)))
      → recall k ((j, c) ∷ m) ≡ (if same_key j k then some c else recall k m)
  unfolding recall
  recall-cons j k c m = refl

  -- A key that is not remembered differs from those that were called.
  unknown_differs :
      (key : Key) (m : List (Key × Option (List String))) (calls : List Key)
      → recall key m ≡ none
      → All (λ k. recall k m ≢ none) calls
      → All (λ k. same_key key k ≡ false) calls
  unknown_differs key m [] e h = tt
  unknown_differs key m (k ∷ calls) e h = elim (Bool-cases (same_key key k)) [
    | inl same ↦ absurd (h.0 (subst (λ j. recall j m ≡ none) (same_key_iff key k same) e))
    | inr differ ↦ (differ, unknown_differs key m calls e h.1)
  ]

  same_key_refl : (k : Key) → same_key k k ≡ true
  same_key_refl (msm, r) = eq_refl r
  same_key_refl (gsm, r) = eq_refl r

  remembered :
      (key : Key) (c : Option (List String)) (st : Memo)
      → Sound st
      → recall key st.evaluated ≡ none
      → as_outcome (p.check_run key.0 key.1) ≡ ok c
      → Sound (record { evaluated = (key, c) ∷ st.evaluated; calls = key ∷ st.calls })
  remembered key c st s e a = record {
    right = λ k d x. elim (Bool-cases (same_key key k)) [
      | inl same ↦
          let kk : key ≡ k = same_key_iff key k same in
          let cd : c ≡ d = ground (arith, recall-cons key k c st.evaluated) in
          subst (λ j. as_outcome (p.check_run j.0 j.1) ≡ ok d) kk (rw (← cd) a)
      | inr differ ↦ s.right k d (ground (arith, recall-cons key k c st.evaluated))
    ];
    known = (
      (λ gone. ground (arith, recall-cons key key c st.evaluated, same_key_refl key)),
      All-map {Q = λ k. recall k ((key, c) ∷ st.evaluated) ≢ none}
          (λ (k : Key) (h : recall k st.evaluated ≢ none)
              (gone : recall k ((key, c) ∷ st.evaluated) ≡ none).
            h (ground (arith, recall-cons key k c st.evaluated)))
          st.calls s.known,
    );
    distinct = (unknown_differs key st.evaluated st.calls e s.known, s.distinct);
  }

  answer-Refines :
      (model : Model) (run : String) (st st' : Memo) (c : Checked F)
      → p.check_run model run ≡ c
      → Sound st
      → recall (model, run) st.evaluated ≡ none
      → let result = answer p model run c (record st { calls = (model, run) ∷ st.calls }) in
        (result.0 ≡ as_outcome (p.check_run model run)) × Post result.0 result.1
  unfolding answer
  answer-Refines model run st st' covers a s e = (rw a, remembered (model, run) none st s e (rw a))
  answer-Refines model run st st' (lacks codes) a s e =
      (rw a, remembered (model, run) (some codes) st s e (rw a))
  answer-Refines model run st st' (Checked.raises x) a s e =
      (rw a, (unknown_differs (model, run) st.evaluated st.calls e s.known, s.distinct))

  Refines-check :
      (model : Model) (run : String) → Refines (check p model run) (check_directly p model run)
  unfolding check
  Refines-check model run st st' s = elim (Option-cases (recall (model, run) st.evaluated)) [
    | inl new ↦ rw (new, check) (answer-Refines model run st st' (p.check_run model run) refl s new)
    | inr (c, old) ↦ rw (old, check) (sym (s.right (model, run) c old), s)
  ]

  abbrev remembering : Model → String → M F (Option (List String))
  remembering = check p

  abbrev asking : Model → String → M F (Option (List String))
  asking = check_directly p

  Refines-option :
      {A B : Type 0} (o : Option A) (n n' : M F B) (f f' : A → M F B)
      → Refines n n'
      → ((x : A) → Refines (f x) (f' x))
      → Refines (elim o [ none ↦ n | some x ↦ f x ]) (elim o [ none ↦ n' | some x ↦ f' x ])
  Refines-option none n n' f f' rn rf = rn
  Refines-option (some x) n n' f f' rn rf = rf x

  Refines-if :
      {B : Type 0} (b : Bool) (n n' m m' : M F B)
      → Refines n n'
      → Refines m m'
      → Refines (if b then n else m) (if b then n' else m')
  Refines-if true n n' m m' rn rm = rn
  Refines-if false n n' m m' rn rm = rm

  Refines-first_covering :
      (model : Model) (candidates reasons : List String)
      → Refines
          (first_covering p remembering model candidates reasons)
          (first_covering p asking model candidates reasons)
  unfolding first_covering
  Refines-first_covering model [] reasons = Refines-pure _
  Refines-first_covering model (run ∷ rest) reasons =
      Refines-bind _ _ _ _ (Refines-check model run) λ coverage.
        Refines-option coverage _ _ _ _ (Refines-pure _)
          (λ codes. Refines-first_covering model rest (reasons ++ codes))

  Refines-latest_of :
      (model : Model) (listed : Listed F)
      → Refines (latest_of p remembering model listed) (latest_of p asking model listed)
  unfolding latest_of
  Refines-latest_of model (runs []) = λ st st' s. (refl, s.distinct)
  Refines-latest_of model (runs (run ∷ rest)) = Refines-first_covering model (run ∷ rest) []
  Refines-latest_of model (outside codes) = Refines-pure _
  Refines-latest_of model (Listed.raises e) = λ st st' s. (refl, s.distinct)

  Refines-latest : (model : Model) → Refines (latest p remembering model) (latest p asking model)
  Refines-latest model = unfold latest in Refines-latest_of model (p.candidate_runs model)

  Refines-fall_back :
      (reasons : List String)
      → Refines (fall_back p remembering reasons) (fall_back p asking reasons)
  unfolding fall_back
  Refines-fall_back reasons =
      Refines-bind _ _ _ _ (Refines-latest gsm)
        λ found. Refines-option found.0 _ _ _ _ (Refines-unavailable _) (λ run. Refines-pure _)

  Refines-preferred : Refines (preferred p remembering) (preferred p asking)
  unfolding preferred
  Refines-preferred =
      Refines-bind _ _ _ _ (Refines-latest msm)
        λ found. Refines-option found.0 _ _ _ _ (Refines-fall_back found.1) (λ run. Refines-pure _)

  Refines-pinned_msm :
      (run : String) (coverage : Option (List String))
      → Refines (pinned_msm p remembering run coverage) (pinned_msm p asking run coverage)
  unfolding pinned_msm
  Refines-pinned_msm run coverage = Refines-bind _ _ _ _ (Refines-latest msm) λ found.
      Refines-option coverage _ _ _ _ (Refines-pure _)
        λ _. Refines-option found.0 _ _ _ _ (Refines-fall_back found.1) (λ _. Refines-pure _)

  Refines-pinned_gsm :
      (run : String) (coverage : Option (List String))
      → Refines (pinned_gsm p remembering run coverage) (pinned_gsm p asking run coverage)
  unfolding pinned_gsm
  Refines-pinned_gsm run coverage = Refines-bind _ _ _ _ (Refines-latest msm) λ found.
      Refines-option found.0 _ _ _ _
        (Refines-bind _ _ _ _ (Refines-latest gsm)
          λ other. Refines-if _ _ _ _ _ (Refines-unavailable _) (Refines-pure _))
        (λ _. Refines-pure _)

  Refines-pinned :
      (model : Model) (run : String)
      → Refines (pinned p remembering model run) (pinned p asking model run)
  unfolding pinned
  Refines-pinned msm run = Refines-bind _ _ _ _ (Refines-check msm run) (Refines-pinned_msm run)
  Refines-pinned gsm run = Refines-bind _ _ _ _ (Refines-check gsm run) (Refines-pinned_gsm run)

  Refines-select :
      (model : Option Model) (run : Option String) (refresh : Bool)
      → Refines
          (select_with p remembering model run refresh)
          (select_with p asking model run refresh)
  unfolding select_with
  Refines-select model none refresh = Refines-preferred
  Refines-select model (some run) refresh =
      Refines-if refresh _ _ _ _ Refines-preferred (Refines-pinned _ run)

  nothing-Sound : Sound nothing_evaluated
  unfolding recall
  nothing-Sound = record { right = λ k c e. cc; known = tt; distinct = tt }

  Post-Distinct : {A : Type 0} (o : Outcome F A) (st : Memo) → Post o st → Distinct st.calls
  Post-Distinct (ok a) st h = h.distinct
  Post-Distinct (unavailable codes) st h = h
  Post-Distinct (no_runs m) st h = h
  Post-Distinct (fault e) st h = h

  -- A selection has the outcome that it would have if it asked the provider each time, an error
  -- included, and it checks no Run of a model twice.
  pub select_forecast_memo :
      (selected_model : Option Model) (selected_run_id : Option String) (refresh : Bool) (st : Memo)
      → ((select_forecast p selected_model selected_run_id refresh).0
          ≡ (select_with p (check_directly p) selected_model selected_run_id refresh st).0)
        × Distinct (select_forecast p selected_model selected_run_id refresh).1.calls
  unfolding select_forecast
  select_forecast_memo model run refresh st =
      let both = Refines-select model run refresh nothing_evaluated st nothing-Sound in
      (
        both.0,
        Post-Distinct (select_with p remembering model run refresh nothing_evaluated).0 _ both.1,
      )
