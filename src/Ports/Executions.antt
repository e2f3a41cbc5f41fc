-- ===== src/Ports/Executions.antt =====
-- internal/ports/storage.go: executions, their attempts and their results.
use maiden_lane.Base.{ℕ, Text, Bool, ◌&&◌, List, Option, ◌≡◌, Eq, ◌=?◌, text_eq, eq_iff, arith, ◌↔◌}

-- What `ctx.Err()` can report.
pub data ContextError : Type 0 where
  canceled deadline_exceeded : ContextError

-- A context: the error it reports at the moment of the call.
abbrev pub Context : Type 0
Context = Option ContextError

pub data StoreError : Type 0 where
  context_error : ContextError → StoreError
  incomplete_record : StoreError
  not_queued : StoreError
  unusable_input : StoreError
  execution_absent : StoreError
  execution_not_reattemptable : StoreError
  attempt_superseded : StoreError

-- The status is a string in Go: any other string is `other`.
pub data ExecutionStatus : Type 0 where
  pending running succeeded failed : ExecutionStatus
  other : Text → ExecutionStatus

-- The build that runs an execution: its backend token and the digest of its version.
pub record ExecutorIdentity : Type 0 where
  pub backend : Text
  pub version : Text

pub record ExecutionInput : Type 0 where
  pub initial_state : Text
  pub world : Text
  pub executor_identity : ExecutorIdentity
  pub policy : ℕ

pub record ExecutionRequest : Type 0 where
  pub tenant_id : Text
  pub execution_id : Text
  pub run_id : Text
  pub plan_id : Text
  pub input : ExecutionInput

pub record ExecutionAttempt : Type 0 where
  pub request : ExecutionRequest
  pub attempt_id : ℕ

pub record SealedCheckpoint : Type 0 where
  pub checkpoint_key : Text
  pub checkpoint_id : Text
  pub checkpoint_artifact_id : Text
  pub digest : Text
  pub state_digest : Text
  pub canonical_bytes : List ℕ
  pub invariant_result_digest : Text
  pub invariant_result_canonical_bytes : List ℕ

pub record StoredAssessment : Type 0 where
  pub assessment_id : Text
  pub digest : Text
  pub checkpoint_artifact_id : Text
  pub profile_id : Text
  pub profile_key : Text
  pub verdict : ℕ
  pub missing_requirements : List Text
  pub canonical_bytes : List ℕ

pub record StoredFailure : Type 0 where
  pub kind : Text
  pub reason : Text

pub record ExecutionResult : Type 0 where
  pub tenant_id : Text
  pub execution_id : Text
  pub status : ExecutionStatus
  pub spine_status : Text
  pub final_state_digest : Text
  pub journal_prefix_digest : Text
  pub input_id : Text
  pub world_id : Text
  pub accepted_rules : List Text
  pub checkpoints : List SealedCheckpoint
  pub assessments : List StoredAssessment
  pub failure : Option StoredFailure

pub record ExecutionRecord : Type 0 where
  pub request : ExecutionRequest
  pub status : ExecutionStatus
  pub result : Option ExecutionResult
  pub failure_reason : Text

-- The key of a stored execution: its tenant is part of the key.
pub record ExecutionKey : Type 0 where
  pub tenant : Text
  pub execution_id : Text

abbrev pub execution_key_beq : ExecutionKey → ExecutionKey → Bool
execution_key_beq a b = a.tenant =? b.tenant && a.execution_id =? b.execution_id

pub execution_key_beq_iff : (a b : ExecutionKey) → (execution_key_beq a b ≡ Bool.true) ↔ (a ≡ b)
execution_key_beq_iff a b =
    ground (arith, eq_iff a.tenant b.tenant, eq_iff a.execution_id b.execution_id)

instance abbrev pub execution_key_eq : Eq ExecutionKey
execution_key_eq = record { beq = execution_key_beq; beq_iff = execution_key_beq_iff }
