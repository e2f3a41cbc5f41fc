-- ===== src/App.antt =====
-- internal/app/project.go: how the result of a run becomes the stored result of an execution. A
-- `SpineResult` is what the accessors of result.go answer: `none` where they answer `false`.
use maiden_lane.Base.{
  ℕ, Text, codes, List, [], ◌∷◌, map, Option, none, some, Bool, true, false, if◌then◌else◌, ◌=?◌,
  text_eq,
}
use maiden_lane.Base.Assoc.{lookup, insert}
use maiden_lane.Base.Order.{text_order}
use maiden_lane.Base.Sorting.{sort}
use maiden_lane.Ports.Executions.{
  ExecutionStatus, succeeded, failed, ExecutionRequest, SealedCheckpoint, StoredAssessment,
  StoredFailure, ExecutionResult,
}

-- `zero` stands for every value that is none of the three constants.
pub data SpineStatus : Type 0 where
  spine_succeeded spine_failed spine_invalid_plan zero : SpineStatus

-- `SpineStatus.String`.
abbrev pub token : SpineStatus → Text
token spine_succeeded = codes "succeeded"
token spine_failed = codes "failed"
token spine_invalid_plan = codes "invalid_plan"
token zero = []

-- One requirement, evaluated for one selected entity.
pub record RequirementResult : Type 0 where
  pub code : Text
  pub satisfied : Bool

pub record SpineAssessment : Type 0 where
  pub id : Text
  pub digest : Text
  pub checkpoint_artifact_id : Text
  pub profile_id : Text
  pub verdict : ℕ
  pub entity_results : List (List RequirementResult)
  pub canonical_bytes : List ℕ

pub record CompiledProfile : Type 0 where
  pub id : Text
  pub key : Text

-- The failure is here as its kind and the code that `failureCode` picks from it.
pub record SpineResult : Type 0 where
  pub status : SpineStatus
  pub semantic_run_id : Option Text
  pub execution_id : Option Text
  pub state_digest : Option Text
  pub journal_prefix_digest : Option Text
  pub input_id : Option Text
  pub world_id : Option Text
  pub journal_rules : List Text
  pub checkpoints : List SealedCheckpoint
  pub profiles : List CompiledProfile
  pub assessments : List SpineAssessment
  pub failure : Option StoredFailure

-- The two loops of `missingRequirements` on one entity's results, and on all: `codes` in the order
-- in which they were first missing, which is also all that `seen` holds.
abbrev has_code : Text → List Text → Bool
has_code c [] = false
has_code c (d ∷ ds) = if d =? c then true else has_code c ds

abbrev missing_of : List RequirementResult → List Text → List Text
missing_of [] seen = seen
missing_of (r ∷ rs) seen =
    missing_of rs
      (if r.satisfied then seen else if has_code r.code seen then seen else r.code ∷ seen)

abbrev missing_from : List (List RequirementResult) → List Text → List Text
missing_from [] seen = seen
missing_from (e ∷ es) seen = missing_from es (missing_of e seen)

-- The codes are sorted at the end, so the order in which they were collected does not matter.
abbrev pub missing_requirements : SpineAssessment → List Text
missing_requirements a = sort text_order (λ c. c) (missing_from a.entity_results [])

-- The map from a profile's identity to its key: a later profile replaces an earlier one.
abbrev profile_keys : List CompiledProfile → List (Text × Text) → List (Text × Text)
profile_keys [] m = m
profile_keys (p ∷ ps) m = profile_keys ps (insert p.id p.key m)

-- Go's zero value where there is none.
abbrev or_empty : Option Text → Text
or_empty none = []
or_empty (some t) = t

abbrev stored_assessment : List (Text × Text) → SpineAssessment → StoredAssessment
stored_assessment keys a = record {
  assessment_id = a.id;
  digest = a.digest;
  checkpoint_artifact_id = a.checkpoint_artifact_id;
  profile_id = a.profile_id;
  profile_key = or_empty (lookup a.profile_id keys);
  verdict = a.verdict;
  missing_requirements = missing_requirements a;
  canonical_bytes = a.canonical_bytes;
}

abbrev pub execution_status : SpineStatus → ExecutionStatus
execution_status spine_succeeded = succeeded
execution_status spine_failed = failed
execution_status spine_invalid_plan = failed
execution_status zero = failed

-- Whether an identity that a result established differs from the one that the request claims.
abbrev pub contradicts : Option Text → Text → Bool
contradicts none claimed = false
contradicts (some t) claimed = if t =? claimed then false else true

abbrev pub projected : ExecutionRequest → SpineResult → ExecutionResult
projected request result = record {
  tenant_id = request.tenant_id;
  execution_id = request.execution_id;
  status = execution_status result.status;
  spine_status = token result.status;
  final_state_digest = or_empty result.state_digest;
  journal_prefix_digest = or_empty result.journal_prefix_digest;
  input_id = or_empty result.input_id;
  world_id = or_empty result.world_id;
  accepted_rules = result.journal_rules;
  checkpoints = result.checkpoints;
  assessments = map (stored_assessment (profile_keys result.profiles [])) result.assessments;
  failure = result.failure;
}

-- `none` is the integrity error.
unfoldable pub project : ExecutionRequest → SpineResult → Option ExecutionResult
project request result =
    if contradicts result.semantic_run_id request.run_id
    then none
    else if contradicts result.execution_id request.execution_id
    then none
    else some (projected request result)
