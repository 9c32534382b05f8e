-- ===== src/Readiness/Ready.antt =====
-- When a project is ready to copy.
use auto_nav_log.Common.{
  is_some, String, ◌≡◌, ◌↔◌, sym, ◌∙◌, subst, inl, inr, Bool, true, false, ◌&&◌, Option, none, some,
  List, [], ◌∷◌, arith, any, All, All-map, All-of_append, Bool-cases, ◌==◌, eq_iff, eq_refl,
}
use auto_nav_log.Readiness.Model.{
  Issue, EffectiveIssue, is_blocker, ready_for_copy, Fingerprints, UiState,
}
use auto_nav_log.Readiness.Issues.{
  same_text, blocks, key, has_code, unacknowledged, create_effective_issue,
  outcome_effective_issues, reference_effective_issues, dedupe_effective_issues,
  derive_project_status,
}
use auto_nav_log.Readiness.Collect.{
  Inputs, all_parts, collect_effective_issues, evaluate_readiness, calculated_against, state_part,
  defaults_part, validation_part, outcome_part, snapshot_of,
}
use auto_nav_log.Readiness.Dedupe.{dedupe_stands, StandsFor}

module _ {Meta : Type 0} where
  -- The status is READY_FOR_COPY exactly where there is an outcome, no issue says that the state is
  -- invalid or the route incomplete, none blocks, and all that must be acknowledged is.
  ready_exact :
      (issues : List (EffectiveIssue Meta)) (acknowledged : List String) (outcome_exists : Bool)
      → (derive_project_status issues acknowledged outcome_exists ≡ ready_for_copy) ↔ (
          (outcome_exists ≡ true)
          × (any (has_code "PROJECT_STATE_INVALID") issues ≡ false)
          × (any (has_code "ROUTE_INCOMPLETE") issues ≡ false)
          × (any blocks issues ≡ false)
          × (any (unacknowledged acknowledged) issues ≡ false))
  unfolding derive_project_status
  ready_exact issues acknowledged outcome_exists = (λ e. ground arith, λ h. ground arith)

  any-All :
      (P : EffectiveIssue Meta → Bool) (items : List (EffectiveIssue Meta))
      → any P items ≡ true
      → (e : EffectiveIssue Meta) × (P e ≡ true)
  any-All P [] h = cc
  any-All P (e ∷ items) h = elim (Bool-cases (P e)) [
    | inl hit ↦ (e, hit)
    | inr miss ↦ any-All P items (ground arith)
  ]

  -- A blocker among the inputs blocks after merging.
  blocked_key :
      (items : List (EffectiveIssue Meta)) (e : EffectiveIssue Meta)
      (found : List (EffectiveIssue Meta))
      → any (λ item. key item == key e && blocks item) items ≡ true
      → any (λ f. key f == key e) found ≡ true
      → All (StandsFor items) found
      → any blocks found ≡ true
  blocked_key items e [] b h s = cc
  blocked_key items e (f ∷ found) b h s = elim (Bool-cases (key f == key e)) [
    | inl same ↦
        let fe : key e ≡ key f = sym ((eq_iff (key f) (key e)).0 same) in
        let bf : any (λ item. key item == key f && blocks item) items ≡ true =
          subst (λ k. any (λ item. key item == k && blocks item) items ≡ true) fe b in
        ground (arith, s.0.blocking, bf)
    | inr differ ↦ ground (arith, blocked_key items e found b (ground arith) s.1)
  ]

  abbrev Shown : List (EffectiveIssue Meta) → EffectiveIssue Meta → Type 0
  Shown items e =
      blocks e ≡ true
      → (any (λ item. key item == key e && blocks item) items ≡ true)
        × (any (λ item. key item == key e) items ≡ true)

  items-Shown : (items : List (EffectiveIssue Meta)) → All (Shown items) items
  items-Shown [] = tt
  items-Shown (x ∷ items) = (
    (λ b. ground (arith, eq_refl (key x))),
    All-map {Q = Shown (x ∷ items)}
        (λ (e : EffectiveIssue Meta) (s : Shown items e) (b : blocks e ≡ true). ground (arith, s b))
        items (items-Shown items),
  )

  unblocked :
      (items : List (EffectiveIssue Meta))
      → any blocks (dedupe_effective_issues items) ≡ false
      → All (λ e. blocks e ≡ false) items
  unblocked items none_blocks =
      let (_, same, stands) = dedupe_stands items in
      All-map {Q = λ e. blocks e ≡ false}
        (λ (e : EffectiveIssue Meta) (s : Shown items e). elim (Bool-cases (blocks e)) [
          | inl b ↦ absurd (
              cc (
                none_blocks,
                blocked_key items e (dedupe_effective_issues items) (s b).0 (same (key e) ∙ (s b).1)
                    stands,
              ))
          | inr n ↦ n
        ])
        items (items-Shown items)

  abbrev pub NoBlocker : List (Issue Meta) → Type 0
  NoBlocker issues = All (λ issue. is_blocker issue.severity ≡ false) issues

  abbrev pub outcome_issues : Option (List (Issue Meta)) → List (Issue Meta)
  outcome_issues none = []
  outcome_issues (some issues) = issues

module _ {Meta Snapshot : Type 0} (fp : Fingerprints Meta Snapshot) (no_metadata : Meta) where
  outcome_clear :
      (against : Option String) (issues : List (Issue Meta))
      → All (λ e. blocks e ≡ false) (outcome_effective_issues fp issues against)
      → NoBlocker issues
  unfolding outcome_effective_issues
  outcome_clear against [] h = tt
  outcome_clear against (issue ∷ issues) h = (h.0, outcome_clear against issues h.1)

  reference_clear :
      (snapshot : Option Snapshot) (issues : List (Issue Meta))
      → All (λ e. blocks e ≡ false) (reference_effective_issues fp issues snapshot)
      → NoBlocker issues
  unfolding reference_effective_issues
  reference_clear snapshot [] h = tt
  reference_clear snapshot (issue ∷ issues) h = (h.0, reference_clear snapshot issues h.1)

  validation_clear :
      (issues : List (Issue Meta))
      → All (λ e. blocks e ≡ false) (validation_part fp issues)
      → NoBlocker issues
  unfolding validation_part create_effective_issue
  validation_clear [] h = tt
  validation_clear (issue ∷ issues) h = (h.0, validation_clear issues h.1)

  outcome_part_clear :
      (outcome : Option (List (Issue Meta))) (against : Option String)
      → All (λ e. blocks e ≡ false) (outcome_part fp outcome against)
      → NoBlocker (outcome_issues outcome)
  outcome_part_clear none against h = tt
  outcome_part_clear (some issues) against h = outcome_clear against issues h

  -- The saved state, the outcome and the two fingerprints, where no part blocks.
  state_clear :
      (ui : Option (UiState Snapshot)) (current : Option String)
      → All (λ e. blocks e ≡ false) (state_part fp no_metadata ui true current)
      → (is_some ui ≡ true)
        × (is_some current ≡ true)
        × (same_text (calculated_against ui) current ≡ true)
  unfolding state_part create_effective_issue
  state_clear none current h = cc (h.0)
  state_clear (some ui) none h = cc (h.0)
  state_clear (some ui) (some current) h = ground arith

  defaults_clear :
      (ui : UiState Snapshot) (current : String)
      → All (λ e. blocks e ≡ false) (defaults_part fp no_metadata (some ui) (some current))
      → same_text ui.defaults_review_fingerprint (some current) ≡ true
  unfolding defaults_part create_effective_issue
  defaults_clear ui current h = ground arith

  -- A project is READY_FOR_COPY only if its calculation was made from the inputs as they are now, no
  -- issue of the outcome, the reference data or the project's validation blocks, the defaults on
  -- display were reviewed (where there is a state and a fingerprint of them), and every warning
  -- that wants an acknowledgement has it.
  pub ready_is_safe :
      (i : Inputs Meta Snapshot)
      → (evaluate_readiness fp no_metadata i).status ≡ ready_for_copy
      → ((evaluate_readiness fp no_metadata i).calculation_is_current ≡ true)
        × NoBlocker (outcome_issues i.outcome)
        × NoBlocker i.reference_data_issues
        × NoBlocker i.project_validation_issues
        × ((ui : UiState Snapshot) (current : String)
            → i.ui_state ≡ some ui
            → i.current_defaults_review_fingerprint ≡ some current
            → same_text ui.defaults_review_fingerprint (some current) ≡ true)
        × (any
              (unacknowledged i.acknowledged)
              (evaluate_readiness fp no_metadata i).effective_issues
            ≡ false)
  unfolding evaluate_readiness collect_effective_issues
  ready_is_safe i e =
      let (exists, _, _, clear, acked) =
        (ready_exact (dedupe_effective_issues (all_parts fp no_metadata i)) i.acknowledged
            (is_some i.outcome)).0
          e in
      let outcome = outcome_part fp i.outcome (calculated_against i.ui_state) in
      let reference =
        reference_effective_issues fp i.reference_data_issues (snapshot_of i.ui_state) in
      let state =
        state_part fp no_metadata i.ui_state (is_some i.outcome)
          i.current_calculation_input_fingerprint in
      let defaults =
        defaults_part fp no_metadata i.ui_state i.current_defaults_review_fingerprint in
      let all : All (λ e. blocks e ≡ false) (all_parts fp no_metadata i) =
        unblocked (all_parts fp no_metadata i) clear in
      let (a, bcde) = All-of_append (λ e. blocks e ≡ false) outcome _ all in
      let (b, cde) = All-of_append (λ e. blocks e ≡ false) reference _ bcde in
      let (c, de) = All-of_append (λ e. blocks e ≡ false) state _ cde in
      let (d, v) = All-of_append (λ e. blocks e ≡ false) defaults _ de in
      let (has_ui, has_current, same) =
        state_clear i.ui_state i.current_calculation_input_fingerprint (rw exists at c) in
      (
        rw (exists, has_ui, has_current, same),
        outcome_part_clear i.outcome (calculated_against i.ui_state) a,
        reference_clear (snapshot_of i.ui_state) i.reference_data_issues b,
        validation_clear i.project_validation_issues v,
        (λ ui current x y. defaults_clear ui current (rw (x, y) at d)),
        acked,
      )
