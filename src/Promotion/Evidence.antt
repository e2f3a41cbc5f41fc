-- ===== src/Promotion/Evidence.antt =====
-- What a promotion decision is made from: the candidate of internal/promotion/evaluate.go, the
-- comparison evidence of comparability.go, and the kernel's artifacts by what the gate reads of them.
-- An identity that a zero value lacks is the empty string.
use maiden_lane.Base.{Bool, true, false, not, List, Option, Text, is_empty}
use maiden_lane.Canonical.Encoder.{Bytes}
use maiden_lane.Canonical.Identities.{verify_invariant_result_digest}
use maiden_lane.Ports.Executions.{ExecutorIdentity}

-- A readiness verdict; `unset` is the empty string of a zero value.
pub data Readiness : Type 0 where
  ready needs_input unset : Readiness

pub record CheckpointArtifact : Type 0 where
  pub id : Text
  pub plan_id : Text
  pub checkpoint_id : Text
  pub semantic_run_id : Text
  pub input_id : Text
  pub initial_state_digest : Text
  pub world_id : Text
  pub provenance_policy_id : Text
  pub invariant_result_digest : Text

pub record Plan : Type 0 where
  pub id : Text
  pub schema_digest : Text
  pub ruleset_digest : Text
  pub compiler_version : Text

pub record Assessment : Type 0 where
  pub id : Text
  pub checkpoint_artifact_id : Text
  pub profile_id : Text
  pub verdict : Readiness

pub record Comparison : Type 0 where
  pub id : Text
  pub profile : Text
  pub baseline : Text
  pub candidate : Text
  pub world : Text
  pub corpus : Text

pub record ComparedCase : Type 0 where
  pub checkpoint : CheckpointArtifact
  pub assessment : Assessment

pub record ComparisonEvidence : Type 0 where
  pub comparison : Comparison
  pub baseline : List ComparedCase
  pub candidate : List ComparedCase

pub record Candidate : Type 0 where
  pub checkpoint : CheckpointArtifact
  pub plan : Plan
  pub assessment : Assessment
  pub retained_invariant_witness : Bytes
  pub comparison : Option ComparisonEvidence
  pub execution_id : Text
  pub executor : ExecutorIdentity

abbrev pub is_ready : Readiness → Bool
is_ready ready = true
is_ready needs_input = false
is_ready unset = false

abbrev pub sealed : Candidate → Bool
sealed c = not (is_empty c.checkpoint.id)

abbrev pub witness_verifies : (Bytes → Text) → Candidate → Bool
witness_verifies hash c =
    verify_invariant_result_digest hash c.retained_invariant_witness
      c.checkpoint.invariant_result_digest
