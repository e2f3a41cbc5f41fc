-- ===== src/Promotion/Authorization.antt =====
-- When the gate authorizes publication, and what follows from that.
use maiden_lane.Base.{
  true, false, ◌||◌, none, some, ◌≡◌, ◌↔◌, refl, arith, inl, inr, Bool-cases, Option-cases, All,
  Text, is_empty, text_eq, eq_iff,
}
use maiden_lane.Canonical.Encoder.{Bytes}
use maiden_lane.Canonical.Identities.{verify_execution_identity, verify_invariant_result_digest}
use maiden_lane.Ports.Targets.{TargetPolicy}
use maiden_lane.Promotion.Gate.{is_pass, required_clauses, no_verdicts, coherent}
use maiden_lane.Promotion.Evidence.{
  Candidate, ComparisonEvidence, sealed, witness_verifies, is_ready,
}
use maiden_lane.Promotion.Clauses.{
  established, static_validation_result, sealed_with_provenance_result, protected_invariants_result,
  ready_assessment_result, pinned_identities_result, digest_consistency_result,
  certified_backend_result, any_empty, pinned, is_certified_backend,
}
use maiden_lane.Promotion.Regression.{comparison_corpus_on, no_metric_regression_on}
use maiden_lane.Promotion.Evaluate.{evaluate, clause_results}
use maiden_lane.Promotion.Decisions.{Passes, decide-authorized}
use maiden_lane.Promotion.Coverage.{Comparable, comparison_corpus_on_iff}
use maiden_lane.Promotion.Readiness.{NotRegressed, no_metric_regression_on_iff}

module _ (hash : Bytes → Text) where
  -- Everything that publication is authorized on, clause by clause.
  pub record Promotable (p : TargetPolicy) (c : Candidate) : Type 0 where
    pub has_policy : established p ≡ true
    pub is_sealed : sealed c ≡ true
    pub compiled : is_empty c.plan.id ≡ false
    pub own_plan : c.plan.id ≡ c.checkpoint.plan_id
    pub provenance : is_empty c.checkpoint.provenance_policy_id ≡ false
    pub witness : witness_verifies hash c ≡ true
    pub assessed : is_empty c.assessment.id ≡ false
    pub own_assessment : c.assessment.checkpoint_artifact_id ≡ c.checkpoint.id
    pub own_profile : c.assessment.profile_id ≡ p.required_profile_id
    pub is_ready : is_ready c.assessment.verdict ≡ true
    pub all_pinned : any_empty (pinned c) ≡ false
    pub executed :
        verify_execution_identity hash c.execution_id c.checkpoint.semantic_run_id c.executor
          c.checkpoint.provenance_policy_id
        ≡ true
    pub certified : is_certified_backend c.executor.backend ≡ true
    pub has_executor :
        (is_empty c.executor.backend || (is_empty c.executor.version || is_empty c.execution_id))
        ≡ false
    pub evidence : ComparisonEvidence
    pub supplied : c.comparison ≡ some evidence
    pub comparable : Comparable hash p c evidence
    pub not_regressed : NotRegressed p c evidence

  abbrev PassesAll : TargetPolicy → Candidate → Type 0
  PassesAll p c = All (λ d. Passes (clause_results hash p c d)) required_clauses

  module _ (p : TargetPolicy) (c : Candidate) where
    static_validation-pass :
        (is_pass (static_validation_result c).verdict ≡ true)
        ↔ ((sealed c ≡ true) × (is_empty c.plan.id ≡ false) × (c.plan.id ≡ c.checkpoint.plan_id))
    unfolding static_validation_result
    static_validation-pass =
        let e = eq_iff c.plan.id c.checkpoint.plan_id in
        (
          (λ h. (ground (arith, h), ground (arith, h), ground (arith, h, e))),
          λ h. ground (arith, e, h.0, h.1, h.2),
        )

    sealed_with_provenance-pass :
        (is_pass (sealed_with_provenance_result c).verdict ≡ true)
        ↔ ((sealed c ≡ true) × (is_empty c.checkpoint.provenance_policy_id ≡ false))
    unfolding sealed_with_provenance_result
    sealed_with_provenance-pass =
        ((λ h. (ground (arith, h), ground (arith, h))), λ h. ground (arith, h.0, h.1))

    ready_assessment-pass : (is_pass (ready_assessment_result p c).verdict ≡ true) ↔ (
        (sealed c ≡ true)
        × (is_empty c.assessment.id ≡ false)
        × (is_empty p.required_profile_id ≡ false)
        × (c.assessment.checkpoint_artifact_id ≡ c.checkpoint.id)
        × (c.assessment.profile_id ≡ p.required_profile_id)
        × (is_ready c.assessment.verdict ≡ true))
    unfolding ready_assessment_result
    ready_assessment-pass =
        let e = eq_iff c.assessment.checkpoint_artifact_id c.checkpoint.id in
        let f = eq_iff c.assessment.profile_id p.required_profile_id in
        (
          (λ h. (
            ground (arith, h),
            ground (arith, h),
            ground (arith, h),
            ground (arith, h, e),
            ground (arith, h, f),
            ground (arith, h),
          )),
          λ h. ground (arith, e, f, h.0, h.1, h.2, h.3, h.4, h.5),
        )

    pinned_identities-pass : (is_pass (pinned_identities_result c).verdict ≡ true) ↔ (
        (sealed c ≡ true)
        × (any_empty (pinned c) ≡ false)
        × (c.plan.id ≡ c.checkpoint.plan_id)
        × (c.assessment.checkpoint_artifact_id ≡ c.checkpoint.id))
    unfolding pinned_identities_result
    pinned_identities-pass =
        let e = eq_iff c.plan.id c.checkpoint.plan_id in
        let f = eq_iff c.assessment.checkpoint_artifact_id c.checkpoint.id in
        (
          (λ h. (ground (arith, h), ground (arith, h), ground (arith, h, e), ground (arith, h, f))),
          λ h. ground (arith, e, f, h.0, h.1, h.2, h.3),
        )

    protected_invariants-pass :
        (is_pass (protected_invariants_result hash c).verdict ≡ true)
        ↔ ((sealed c ≡ true) × (witness_verifies hash c ≡ true))
    unfolding protected_invariants_result
    protected_invariants-pass =
        ((λ h. (ground (arith, h), ground (arith, h))), λ h. ground (arith, h.0, h.1))

    certified_backend-pass : (is_pass (certified_backend_result hash c).verdict ≡ true) ↔ (
        (sealed c ≡ true)
        × ((is_empty c.executor.backend || (is_empty c.executor.version || is_empty c.execution_id))
            ≡ false)
        × (verify_execution_identity hash c.execution_id c.checkpoint.semantic_run_id c.executor
              c.checkpoint.provenance_policy_id
            ≡ true)
        × (is_certified_backend c.executor.backend ≡ true))
    unfolding certified_backend_result
    certified_backend-pass = (
      (λ h. (ground (arith, h), ground (arith, h), ground (arith, h), ground (arith, h))),
      λ h. ground (arith, h.0, h.1, h.2, h.3),
    )

    digest_consistency-pass :
        sealed c ≡ true
        → is_empty c.assessment.id ≡ false
        → witness_verifies hash c ≡ true
        → c.assessment.checkpoint_artifact_id ≡ c.checkpoint.id
        → Passes (some (digest_consistency_result hash c))
    unfolding digest_consistency_result verify_invariant_result_digest
    digest_consistency-pass s a w b =
        let e = eq_iff c.assessment.checkpoint_artifact_id c.checkpoint.id in
        (ground (arith, e, s, a, w, b), ground (arith, e, s, a, w, b))

    -- Each result of a clause is coherent, so that it passes if its verdict does.
    simple_coherent :
        (coherent (static_validation_result c) ≡ true)
        × (coherent (sealed_with_provenance_result c) ≡ true)
        × (coherent (protected_invariants_result hash c) ≡ true)
        × (coherent (ready_assessment_result p c) ≡ true)
        × (coherent (pinned_identities_result c) ≡ true)
        × (coherent (certified_backend_result hash c) ≡ true)
    unfolding static_validation_result sealed_with_provenance_result protected_invariants_result
        ready_assessment_result pinned_identities_result certified_backend_result
    simple_coherent =
        (ground arith, ground arith, ground arith, ground arith, ground arith, ground arith)

    has_evidence :
        (is_pass (comparison_corpus_on hash p c c.comparison).verdict ≡ true)
        → (e : ComparisonEvidence) × (c.comparison ≡ some e)
    unfolding comparison_corpus_on
    has_evidence h = elim (Option-cases c.comparison) [
      | inl n ↦ absurd (nothing (rw n at h))
      | inr found ↦ found
    ]
      where
        nothing : is_pass (comparison_corpus_on hash p c none).verdict ≡ true → ⊥
        nothing g = cc

    passes-Promotable : established p ≡ true → PassesAll p c → Promotable p c
    unfolding comparison_corpus_on no_metric_regression_on
    passes-Promotable policy (h1, (h2, (h3, (h4, (h5, (h6, (h7, (h8, (h9, _))))))))) =
        let (is_sealed, compiled, own_plan) = static_validation-pass.0 h1.1 in
        let (_, provenance) = sealed_with_provenance-pass.0 h2.1 in
        let (_, witness) = protected_invariants-pass.0 h3.1 in
        let (_, assessed, _, own_assessment, own_profile, ready) = ready_assessment-pass.0 h4.1 in
        let (_, all_pinned, _, _) = pinned_identities-pass.0 h5.1 in
        let (_, has_executor, executed, certified) = certified_backend-pass.0 h9.1 in
        let (e, supplied) = has_evidence h6.1 in
        record {
          has_policy = policy;
          is_sealed = is_sealed;
          compiled = compiled;
          own_plan = own_plan;
          provenance = provenance;
          witness = witness;
          assessed = assessed;
          own_assessment = own_assessment;
          own_profile = own_profile;
          is_ready = ready;
          all_pinned = all_pinned;
          executed = executed;
          certified = certified;
          has_executor = has_executor;
          evidence = e;
          supplied = supplied;
          comparable = (comparison_corpus_on_iff hash p c e).0 (rw supplied at (h6.1));
          not_regressed = (no_metric_regression_on_iff p c e).0 (rw supplied at (h7.1));
        }

    Promotable-passes : Promotable p c → PassesAll p c
    unfolding comparison_corpus_on no_metric_regression_on
    Promotable-passes q =
        let (c1, c2, c3, c4, c5, c9) = simple_coherent in
        let corpus = (comparison_corpus_on_iff hash p c q.evidence).1 q.comparable in
        let metrics = (no_metric_regression_on_iff p c q.evidence).1 q.not_regressed in
        let required = q.comparable.required in
        (
          (c1, static_validation-pass.1 (q.is_sealed, q.compiled, q.own_plan)),
          (
            (c2, sealed_with_provenance-pass.1 (q.is_sealed, q.provenance)),
            (
              (c3, protected_invariants-pass.1 (q.is_sealed, q.witness)),
              (
                (
                  c4,
                  ready_assessment-pass.1 (
                    q.is_sealed, q.assessed, required, q.own_assessment, q.own_profile, q.is_ready,
                  ),
                ),
                (
                  (
                    c5,
                    pinned_identities-pass.1
                        (q.is_sealed, q.all_pinned, q.own_plan, q.own_assessment),
                  ),
                  (
                    rw (q.supplied, corpus) (refl, refl),
                    (
                      rw (q.supplied, metrics) (refl, refl),
                      (
                        digest_consistency-pass q.is_sealed q.assessed q.witness q.own_assessment,
                        (
                          (
                            c9,
                            certified_backend-pass.1
                                (q.is_sealed, q.has_executor, q.executed, q.certified),
                          ),
                          tt,
                        ),
                      ),
                    ),
                  ),
                ),
              ),
            ),
          ),
        )

  nothing-Passes : All (λ d. Passes (no_verdicts d)) required_clauses → ⊥
  nothing-Passes h = h.0

  -- The gate authorizes publication exactly for a promotable candidate: a policy that is established,
  -- a sealed checkpoint of the supplied plan with its provenance, an authentic witness of its
  -- invariants, its own ready assessment under the required profile, ten identities that are all
  -- there, an authentic execution by a certified backend, and comparison evidence that is comparable,
  -- in which every candidate case is ready if the last baseline case with its initial state is, and
  -- no fewer cases are ready than in the baseline.
  pub evaluate-authorized :
      (p : TargetPolicy) (c : Candidate)
      → ((evaluate hash p c).authorized ≡ true → Promotable p c)
        × (Promotable p c → (evaluate hash p c).authorized ≡ true)
  unfolding evaluate
  evaluate-authorized p c = elim (Bool-cases (established p)) [
    | inl policy ↦ (
      (λ h.
          passes-Promotable p c policy
            ((decide-authorized p.version (clause_results hash p c)).0 (rw policy at h))),
      λ q.
          rw policy
            ((decide-authorized p.version (clause_results hash p c)).1 (Promotable-passes p c q)),
    )
    | inr policy ↦ (
      (λ h. absurd (nothing-Passes ((decide-authorized p.version no_verdicts).0 (rw policy at h)))),
      λ q. absurd (cc (q.has_policy)),
    )
  ]
