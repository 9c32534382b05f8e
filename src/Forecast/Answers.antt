-- ===== src/Forecast/Answers.antt =====
-- What the providers' answers say of a Run, and what the questions of a selection find out.
use auto_nav_log.Common.{
  String, ◌≡◌, refl, subst, ◌⊎◌, inl, inr, Bool, true, false, Option, none, some, List, [], ◌∷◌,
  ◌++◌, if◌then◌else◌, All, All-append,
}
use mathlib.Core.List.{append-nil, append_assoc}
use auto_nav_log.Forecast.Effect.{
  Model, Checked, covers, lacks, Listed, runs, outside, Providers, Outcome, ok, unavailable,
  no_runs, fault, Memo, M, continue, ◌>>=◌,
}
use auto_nav_log.Forecast.Selection.{Latest, first_covering, latest_of, latest}
use auto_nav_log.Forecast.Memo.{check_directly, as_outcome}

module _ {F : Type 0} (p : Providers F) where
  -- The provider says that the Run does not cover the request.
  abbrev pub Lacks : Model → String → Type 0
  Lacks model run = (codes : List String) × (p.check_run model run ≡ lacks codes)

  abbrev pub Covers : Model → String → Type 0
  Covers model run = p.check_run model run ≡ covers

  -- The first of the model's Runs that covers the request: the newest, as the provider lists them.
  abbrev pub Chosen : Model → String → Type 0
  Chosen model run =
      (newer older : List String) × (p.candidate_runs model ≡ runs (newer ++ run ∷ older))
      × All (Lacks model) newer
      × Covers model run

  -- The provider says that the model does not cover the request, or lists Runs, one at least, and says
  -- of each that it does not. An empty listing excludes nothing.
  abbrev pub Excluded : Model → Type 0
  Excluded model =
      ((codes : List String) × (p.candidate_runs model ≡ outside codes))
      ⊎ ((newest : String) × (older : List String) × (p.candidate_runs model
            ≡ runs (newest ∷ older))
          × All (Lacks model) (newest ∷ older))

  abbrev pub Holds : {A : Type 0} → (A → Type 0) → Type 0 → Outcome F A → Type 0
  Holds P U (ok x) = P x
  Holds P U (unavailable codes) = U
  Holds P U _ = Unit

  abbrev pub Ensures : {A : Type 0} → (A → Type 0) → Type 0 → M F A → Type 0
  Ensures P U a = (st : Memo) → Holds P U (a st).0

  pub Ensures-bind :
      {A B : Type 0} (Q : A → Type 0) (P : B → Type 0) (U : Type 0) (a : M F A) (f : A → M F B)
      → Ensures Q U a
      → ((x : A) → Q x → Ensures P U (f x))
      → Ensures P U (a >>= f)
  Ensures-bind Q P U a f ha hf st = go (a st) (ha st)
    where
      go : (x : Outcome F _ × Memo) → Holds Q U x.0 → Holds P U (continue x.0 f x.1).0
      go (ok x, s) h = hf x h s
      go (unavailable codes, s) h = h
      go (no_runs m, s) h = h
      go (fault e, s) h = h

  abbrev pub LatestSpec : Model → Latest → Type 0
  LatestSpec model (none, codes) = Excluded model
  LatestSpec model (some run, codes) = Chosen model run

  abbrev pub CheckSpec : Model → String → Option (List String) → Type 0
  CheckSpec model run none = Covers model run
  CheckSpec model run (some codes) = p.check_run model run ≡ lacks codes

  abbrev pub asking : Model → String → M F (Option (List String))
  asking = check_directly p

  pub check-Spec :
      (U : Type 0) (model : Model) (run : String)
      → Ensures (CheckSpec model run) U (asking model run)
  check-Spec U model run st = go (p.check_run model run) refl
    where
      go :
          (c : Checked F) → p.check_run model run ≡ c → Holds (CheckSpec model run) U (as_outcome c)
      go covers e = e
      go (lacks codes) e = e
      go (Checked.raises x) e = tt

  pub Ensures-option :
      {A B : Type 0} (P : B → Type 0) (U : Type 0) (o : Option A) (n : M F B) (f : A → M F B)
      → (o ≡ none → Ensures P U n)
      → ((x : A) → o ≡ some x → Ensures P U (f x))
      → Ensures P U (elim o [ none ↦ n | some x ↦ f x ])
  Ensures-option P U none n f hn hf = hn refl
  Ensures-option P U (some x) n f hn hf = hf x refl

  pub Ensures-if :
      {B : Type 0} (P : B → Type 0) (U : Type 0) (b : Bool) (n m : M F B)
      → (b ≡ true → Ensures P U n)
      → (b ≡ false → Ensures P U m)
      → Ensures P U (if b then n else m)
  Ensures-if P U true n m hn hm = hn refl
  Ensures-if P U false n m hn hm = hm refl

  -- `candidates` is what is left of the listing, which has a Run.
  first_covering-Spec :
      (U : Type 0) (model : Model) (newer candidates reasons : List String)
      → (¬ (newer ++ candidates ≡ []))
      → p.candidate_runs model ≡ runs (newer ++ candidates)
      → All (Lacks model) newer
      → Ensures (LatestSpec model) U (first_covering p asking model candidates reasons)
  unfolding first_covering
  first_covering-Spec U model [] [] reasons n e l = absurd (n refl)
  first_covering-Spec U model (newest ∷ newer) [] reasons n e l =
      λ st. inr (newest, newer, (rw append-nil at e), l)
  first_covering-Spec U model newer (run ∷ rest) reasons n e l =
      Ensures-bind (CheckSpec model run) _ U (asking model run) _ (check-Spec U model run)
        λ coverage h.
          Ensures-option (LatestSpec model) U coverage _ _
            (λ x st. (newer, rest, e, l, subst (CheckSpec model run) x h))
            (λ codes x.
              first_covering-Spec U model (newer ++ run ∷ []) rest (reasons ++ codes)
                (rw append_assoc n) (rw append_assoc e)
                (All-append (Lacks model) newer (run ∷ []) l
                  ((codes, subst (CheckSpec model run) x h), tt)))

  latest_of-Spec :
      (U : Type 0) (model : Model) (listed : Listed F)
      → p.candidate_runs model ≡ listed
      → Ensures (LatestSpec model) U (latest_of p asking model listed)
  unfolding latest_of
  latest_of-Spec U model (runs []) e = λ st. tt
  latest_of-Spec U model (runs (run ∷ rest)) e =
      first_covering-Spec U model [] (run ∷ rest) [] (λ x. cc) e tt
  latest_of-Spec U model (outside codes) e = λ st. inl (codes, e)
  latest_of-Spec U model (Listed.raises x) e = λ st. tt

  pub latest-Spec :
      (U : Type 0) (model : Model) → Ensures (LatestSpec model) U (latest p asking model)
  unfolding latest
  latest-Spec U model = latest_of-Spec U model (p.candidate_runs model) refl
