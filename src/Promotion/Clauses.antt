-- ===== src/Promotion/Clauses.antt =====
-- internal/promotion/evaluate.go and backend_certification.go: the clauses that read the candidate
-- and its policy only.
use maiden_lane.Base.{
  Bool, true, false, not, ◌&&◌, ◌||◌, List, [], ◌∷◌, if◌then◌else◌, ltb, Text, codes, is_empty,
  ◌=?◌, text_eq,
}
use maiden_lane.Canonical.Encoder.{Bytes}
use maiden_lane.Canonical.Identities.{verify_execution_identity}
use maiden_lane.Ports.Targets.{TargetPolicy}
use maiden_lane.Promotion.Gate.{
  ClauseResult, passed, failed, unestablished, static_validation, sealed_with_provenance,
  protected_invariants, ready_assessment, pinned_identities, digest_consistency, certified_backend,
}
use maiden_lane.Promotion.Evidence.{Candidate, sealed, witness_verifies, is_ready}

unfoldable pub established : TargetPolicy → Bool
established p =
    ltb 0 p.version
    && (not (is_empty p.tenant_id)
        && (not (is_empty p.customer_id)
            && (not (is_empty p.target) && not (is_empty p.required_profile_id))))

unfoldable pub static_validation_result : Candidate → ClauseResult
static_validation_result c =
    if not (sealed c) || is_empty c.plan.id
    then unestablished static_validation
    else if not (c.plan.id =? c.checkpoint.plan_id)
    then failed static_validation
    else passed static_validation

unfoldable pub sealed_with_provenance_result : Candidate → ClauseResult
sealed_with_provenance_result c =
    if not (sealed c)
    then unestablished sealed_with_provenance
    else if is_empty c.checkpoint.provenance_policy_id
    then unestablished sealed_with_provenance
    else passed sealed_with_provenance

unfoldable pub ready_assessment_result : TargetPolicy → Candidate → ClauseResult
ready_assessment_result p c =
    if not (sealed c) || (is_empty c.assessment.id || is_empty p.required_profile_id)
    then unestablished ready_assessment
    else if not (c.assessment.checkpoint_artifact_id =? c.checkpoint.id)
    then unestablished ready_assessment
    else if not (c.assessment.profile_id =? p.required_profile_id)
    then unestablished ready_assessment
    else if not (is_ready c.assessment.verdict)
    then failed ready_assessment
    else passed ready_assessment

unfoldable pub any_empty : List Text → Bool
any_empty [] = false
any_empty (s ∷ ss) = if is_empty s then true else any_empty ss

-- The ten identities that the clause names.
abbrev pub pinned : Candidate → List Text
pinned c =
    c.checkpoint.input_id ∷ c.checkpoint.world_id ∷ c.plan.schema_digest ∷ c.plan.ruleset_digest
    ∷ c.plan.compiler_version ∷ c.checkpoint.semantic_run_id ∷ c.execution_id
    ∷ c.checkpoint.checkpoint_id ∷ c.assessment.profile_id ∷ c.assessment.id ∷ []

unfoldable pub pinned_identities_result : Candidate → ClauseResult
pinned_identities_result c =
    if not (sealed c)
    then unestablished pinned_identities
    else if any_empty (pinned c)
    then unestablished pinned_identities
    else if not (c.plan.id =? c.checkpoint.plan_id)
        || not (c.assessment.checkpoint_artifact_id =? c.checkpoint.id)
    then failed pinned_identities
    else passed pinned_identities

-- `certifiedBackends`.
abbrev pub backends : List Text
backends = codes "go" ∷ codes "sql" ∷ codes "dbt" ∷ codes "transpiler" ∷ []

unfoldable pub one_of : Text → List Text → Bool
one_of s [] = false
one_of s (t ∷ ts) = if t =? s then true else one_of s ts

unfoldable pub is_certified_backend : Text → Bool
unfolding one_of
is_certified_backend s = one_of s backends

module _ (hash : Bytes → Text) where
  unfoldable pub protected_invariants_result : Candidate → ClauseResult
  protected_invariants_result c =
      if not (sealed c)
      then unestablished protected_invariants
      else if not (witness_verifies hash c)
      then unestablished protected_invariants
      else passed protected_invariants

  unfoldable pub digest_consistency_result : Candidate → ClauseResult
  digest_consistency_result c =
      if not (sealed c) || is_empty c.assessment.id
      then unestablished digest_consistency
      else if is_empty c.retained_invariant_witness
      then unestablished digest_consistency
      else if not (witness_verifies hash c)
      then failed digest_consistency
      else if not (c.assessment.checkpoint_artifact_id =? c.checkpoint.id)
      then failed digest_consistency
      else passed digest_consistency

  unfoldable pub certified_backend_result : Candidate → ClauseResult
  certified_backend_result c =
      if not (sealed c)
      then unestablished certified_backend
      else if is_empty c.executor.backend
          || (is_empty c.executor.version || is_empty c.execution_id)
      then unestablished certified_backend
      else if not (
          verify_execution_identity hash c.execution_id c.checkpoint.semantic_run_id c.executor
            c.checkpoint.provenance_policy_id)
      then failed certified_backend
      else if not (is_certified_backend c.executor.backend)
      then failed certified_backend
      else passed certified_backend
