-- ===== src/Promotion/Tests.antt =====
-- A candidate that the gate authorizes, and the theorems of the gate at it. The hash is the identity
-- function here, so that identities are the bytes they are derived from.
use maiden_lane.Base.{
  ℕ, List, [], ◌∷◌, ◌++◌, map, Option, none, some, Bool, true, false, ◌≡◌, refl, Text, codes,
  replicate, ◌↔◌, All,
}
use maiden_lane.Canonical.Encoder.{Bytes, decode_digest, write, string, tag, strip_prefix}
use maiden_lane.Canonical.Strings.{valid_utf8, big_endian, decode_hex, hex_digit, is_lower_case}
use maiden_lane.Canonical.Identities.{
  encode_execution_identity, encode_executor_identity, corpus_canonical_bytes,
  valid_executor_identity, valid_executor_backend, verify_execution_identity,
  verify_corpus_identity, verify_invariant_result_digest,
}
use maiden_lane.Ports.Executions.{ExecutorIdentity}
use maiden_lane.Ports.Targets.{TargetPolicy}
use maiden_lane.Promotion.Gate.{
  decide, no_verdicts, required_clauses, refusals, coherent, is_pass, passed, comparison_corpus,
  no_metric_regression,
}
use maiden_lane.Promotion.Evidence.{
  CheckpointArtifact, Assessment, ComparedCase, ComparisonEvidence, Candidate, Readiness, ready,
}
use maiden_lane.Base.{text_beq}
use maiden_lane.Base.Assoc.{lookup, insert}
use maiden_lane.Promotion.Clauses.{
  established, static_validation_result, sealed_with_provenance_result, protected_invariants_result,
  ready_assessment_result, pinned_identities_result, digest_consistency_result,
  certified_backend_result, any_empty, is_certified_backend,
}
use maiden_lane.Promotion.Regression.{
  comparison_corpus_on, no_metric_regression_on, check_side, side_covers, index_baseline,
  compare_candidate,
}
use maiden_lane.Promotion.Coverage.{Comparable, comparison_corpus_on_iff}
use maiden_lane.Promotion.Readiness.{NotRegressed, no_metric_regression_on_iff}
use maiden_lane.Promotion.Evaluate.{evaluate, clause_results}
use maiden_lane.Promotion.Decisions.{Passes, decide-authorized, decide-clauses, refusals-authorized}
use maiden_lane.Promotion.Authorization.{Promotable, evaluate-authorized}

abbrev digest_of : ℕ → Text
digest_of c = codes "sha256:" ++ replicate 64 c

abbrev from_some : Option Bytes → Text
from_some none = []
from_some (some b) = b

abbrev same_bytes : Bytes → Text
same_bytes b = b

abbrev go_build : ExecutorIdentity
go_build = record { backend = codes "go"; version = digest_of b'c' }

abbrev run_id : Text
run_id = digest_of b'1'

abbrev policy_id : Text
policy_id = digest_of b'2'

execution_bytes : Text
unfolding encode_execution_identity encode_executor_identity valid_executor_identity
    valid_executor_backend write string tag decode_digest strip_prefix valid_utf8 big_endian
    decode_hex hex_digit is_lower_case
execution_bytes = from_some (encode_execution_identity run_id go_build policy_id)

corpus_bytes : Text
unfolding corpus_canonical_bytes write string tag decode_digest strip_prefix valid_utf8 big_endian
    decode_hex hex_digit is_lower_case
corpus_bytes = from_some (corpus_canonical_bytes (digest_of b'3' ∷ []))

sealed_checkpoint : CheckpointArtifact
sealed_checkpoint = record {
  id = codes "artifact";
  plan_id = codes "plan";
  checkpoint_id = codes "checkpoint";
  semantic_run_id = run_id;
  input_id = codes "input";
  initial_state_digest = digest_of b'3';
  world_id = codes "world";
  provenance_policy_id = policy_id;
  invariant_result_digest = codes "invariants";
}

ready_assessment_of : Assessment
ready_assessment_of = record {
  id = codes "assessment";
  checkpoint_artifact_id = codes "artifact";
  profile_id = codes "profile";
  verdict = ready;
}

one_case : List ComparedCase
unfolding sealed_checkpoint ready_assessment_of
one_case = record { checkpoint = sealed_checkpoint; assessment = ready_assessment_of } ∷ []

candidate : Candidate
unfolding execution_bytes corpus_bytes one_case
candidate = record {
  checkpoint = sealed_checkpoint;
  plan = record {
    id = codes "plan";
    schema_digest = codes "schema";
    ruleset_digest = codes "rules";
    compiler_version = codes "v1";
  };
  assessment = ready_assessment_of;
  retained_invariant_witness = codes "invariants";
  comparison = some (record {
    comparison = record {
      id = codes "comparison";
      profile = codes "profile";
      baseline = codes "checkpoint";
      candidate = codes "checkpoint";
      world = codes "world";
      corpus = corpus_bytes;
    };
    baseline = one_case;
    candidate = one_case;
  });
  execution_id = execution_bytes;
  executor = go_build;
}

abbrev policy : TargetPolicy
policy = record {
  tenant_id = codes "tenant";
  customer_id = codes "customer";
  target = codes "target";
  version = 1;
  required_profile_id = codes "profile";
}

-- What the gate computes with, for tests by evaluation.
authorization : Candidate → Bool
unfolding evaluate decide established static_validation_result sealed_with_provenance_result
    protected_invariants_result ready_assessment_result pinned_identities_result
    digest_consistency_result certified_backend_result any_empty is_certified_backend
    comparison_corpus_on no_metric_regression_on check_side side_covers index_baseline
    compare_candidate verify_execution_identity verify_corpus_identity
    verify_invariant_result_digest text_beq lookup insert execution_bytes corpus_bytes
    corpus_canonical_bytes encode_execution_identity
authorization c = (evaluate same_bytes policy c).authorized

-- Without the retained witness, or with a candidate case that is not ready, it refuses.
refuses_no_witness : authorization (record candidate { retained_invariant_witness = [] }) ≡ false
unfolding candidate authorization
refuses_no_witness = refl

refuses_other_plan : authorization (record candidate { execution_id = codes "elsewhere" }) ≡ false
unfolding candidate authorization
refuses_other_plan = refl

evaluate-authorized_example : Promotable same_bytes policy candidate
unfolding candidate authorization
evaluate-authorized_example = (evaluate-authorized same_bytes policy candidate).0 refl

decide-authorized_example :
    ((decide 3 (clause_results same_bytes policy candidate)).authorized ≡ true)
    ↔ All (λ c. Passes (clause_results same_bytes policy candidate c)) required_clauses
decide-authorized_example = decide-authorized 3 (clause_results same_bytes policy candidate)

decide-clauses_example :
    let d = decide 3 (clause_results same_bytes policy candidate) in
    (map (λ r. r.clause) d.clauses ≡ required_clauses)
    × All (λ r. coherent r ≡ true) d.clauses
    × (d.policy_version ≡ 3)
decide-clauses_example = decide-clauses 3 (clause_results same_bytes policy candidate)

refusals-authorized_example :
    let d = decide 3 no_verdicts in (refusals d ≡ []) ↔ (d.authorized ≡ true)
refusals-authorized_example = refusals-authorized 3 no_verdicts

abbrev compared : ComparisonEvidence
unfolding one_case corpus_bytes
compared = record {
  comparison = record {
    id = codes "comparison";
    profile = codes "profile";
    baseline = codes "checkpoint";
    candidate = codes "checkpoint";
    world = codes "world";
    corpus = corpus_bytes;
  };
  baseline = one_case;
  candidate = one_case;
}

comparison_corpus_on_iff_example :
    (is_pass (comparison_corpus_on same_bytes policy candidate (some compared)).verdict ≡ true
      → Comparable same_bytes policy candidate compared)
    × (Comparable same_bytes policy candidate compared
        → comparison_corpus_on same_bytes policy candidate (some compared)
          ≡ passed comparison_corpus)
comparison_corpus_on_iff_example = comparison_corpus_on_iff same_bytes policy candidate compared

-- A case with this initial state and verdict.
case_of : ℕ → Readiness → ComparedCase
unfolding sealed_checkpoint ready_assessment_of
case_of digit verdict = record {
  checkpoint = record sealed_checkpoint { initial_state_digest = digest_of digit };
  assessment = record ready_assessment_of { verdict = verdict };
}

-- The clause alone does not see that the candidate has no case for a ready baseline state.
lost_state_passes :
    is_pass
      (no_metric_regression_on policy candidate (
        some (record compared {
          baseline = case_of b'3' ready ∷ case_of b'4' ready ∷ [];
          candidate = case_of b'3' ready ∷ case_of b'3' ready ∷ [];
        }))).verdict
    ≡ true
unfolding case_of candidate compared sealed_checkpoint ready_assessment_of no_metric_regression_on
    index_baseline compare_candidate lookup insert text_beq
lost_state_passes = refl

no_metric_regression_on_iff_example :
    (is_pass (no_metric_regression_on policy candidate (some compared)).verdict ≡ true
      → NotRegressed policy candidate compared)
    × (NotRegressed policy candidate compared
        → no_metric_regression_on policy candidate (some compared) ≡ passed no_metric_regression)
no_metric_regression_on_iff_example = no_metric_regression_on_iff policy candidate compared
