-- ===== src/Worker.antt =====
-- internal/worker/worker.go: what the worker does with one claimed execution, on the in-memory queue. The
-- stored plan is of any type `P`. What the worker calls besides the queue and `app.Project`, which are
-- `GetPlan`, the binding that it verifies and the runner, is read from an environment, one answer to a
-- call, which may be a panic; a context may be cancelled between calls, so each reads its own. Logs and
-- spans are left out.
use maiden_lane.Base.{
  ℕ, Bool, true, false, not, ◌&&◌, Option, none, some, Text, codes, ◌=?◌, text_eq, if◌then◌else◌,
  Result, ok, err,
}
use maiden_lane.Ports.Executions.{
  Context, ContextError, StoreError, ExecutionKey, ExecutionInput, ExecutionRequest,
  ExecutionAttempt, ExecutionResult, execution_key_eq,
}
use maiden_lane.App.{SpineResult, project}
use maiden_lane.Memory.Queue.{Queue, claim, complete, fail, request_key}
pub mod Outcomes
pub mod Tests

-- What the worker did with an execution.
pub data ExecutionOutcome : Type 0 where
  answered abandoned : ExecutionOutcome
  failed : Text → ExecutionOutcome

-- Why a run produced no answer.
pub data Inability : Type 0 where
  context_ended infrastructure_unavailable invalid_input internal : Inability

-- What a call comes back with: a panic is recovered by `attempt`.
pub data Returned (A : Type 0) : Type 0 where
  panicked : Returned A
  returned : A → Returned A

abbrev pub reason_plan_absent : Text
reason_plan_absent = codes "plan_absent"

abbrev pub reason_identity_mismatch : Text
reason_identity_mismatch = codes "identity_mismatch"

abbrev pub reason_invalid_input : Text
reason_invalid_input = codes "invalid_semantic_input"

abbrev pub reason_internal_error : Text
reason_internal_error = codes "internal_error"

abbrev pub Effect : Type 0
Effect = Queue × ExecutionOutcome

-- The identities that a plan and an input bind to.
pub record Binding : Type 0 where
  pub execution_id : Text
  pub run_id : Text

-- What the worker is given, and what its calls answer.
pub record Environment (P : Type 0) : Type 0 where
  pub plan : Returned (Result StoreError (Option P))
  pub bind_run : P → ExecutionInput → Returned (Option Binding)
  pub run : P → ExecutionRequest → Returned (Result Inability SpineResult)
  pub on_complete : Context
  pub before_fail : Context
  pub on_fail : Context

abbrev pub failure_outcome : Text → Queue × Result StoreError (Unit {0}) → Effect
failure_outcome reason (q, ok u) = (q, failed reason)
failure_outcome reason (q, err e) = (q, abandoned)

-- `fail`: skipped under a context that has ended, and `failed` only where the queue recorded it.
unfoldable pub fail_with : Context → Context → ExecutionAttempt → Text → Queue → Effect
fail_with (some e) c leased reason q = (q, abandoned)
fail_with none c leased reason q =
    failure_outcome reason (fail c (request_key leased.request) leased.attempt_id reason q)

abbrev pub completion_outcome : Queue × Result StoreError (Unit {0}) → Effect
completion_outcome (q, ok u) = (q, answered)
completion_outcome (q, err e) = (q, abandoned)

abbrev same_binding : ExecutionRequest → Option Binding → Bool
same_binding r none = false
same_binding r (some b) = (b.execution_id =? r.execution_id) && (b.run_id =? r.run_id)

abbrev pub compare_binding : ExecutionRequest → Returned (Option Binding) → Returned Bool
compare_binding r panicked = panicked
compare_binding r (returned b) = returned (same_binding r b)

module _ {P : Type 0} (env : Environment P) where
  abbrev pub give_up : ExecutionAttempt → Text → Queue → Effect
  give_up leased reason q = fail_with env.before_fail env.on_fail leased reason q

  unfoldable pub verify_identity : P → ExecutionRequest → Returned Bool
  verify_identity plan r = compare_binding r (env.bind_run plan r.input)

  unfoldable pub record_inability : ExecutionAttempt → Inability → Queue → Effect
  unfolding fail_with
  record_inability leased context_ended q = (q, abandoned)
  record_inability leased infrastructure_unavailable q = (q, abandoned)
  record_inability leased invalid_input q = give_up leased reason_invalid_input q
  record_inability leased internal q = give_up leased reason_internal_error q

  -- The part of `attempt` behind the projection.
  abbrev pub on_projection : ExecutionAttempt → Option ExecutionResult → Queue → Effect
  on_projection leased none q = give_up leased reason_identity_mismatch q
  on_projection leased (some r) q =
      completion_outcome (complete env.on_complete leased.attempt_id r q)

  abbrev pub on_run : ExecutionAttempt → Returned (Result Inability SpineResult) → Queue → Effect
  on_run leased panicked q = give_up leased reason_internal_error q
  on_run leased (returned (err i)) q = record_inability leased i q
  on_run leased (returned (ok s)) q = on_projection leased (project leased.request s) q

  abbrev pub on_identity : ExecutionAttempt → P → Returned Bool → Queue → Effect
  on_identity leased plan panicked q = give_up leased reason_internal_error q
  on_identity leased plan (returned false) q = give_up leased reason_identity_mismatch q
  on_identity leased plan (returned true) q = on_run leased (env.run plan leased.request) q

  abbrev pub on_plan : ExecutionAttempt → Returned (Result StoreError (Option P)) → Queue → Effect
  on_plan leased panicked q = give_up leased reason_internal_error q
  on_plan leased (returned (err e)) q = (q, abandoned)
  on_plan leased (returned (ok none)) q = give_up leased reason_plan_absent q
  on_plan leased (returned (ok (some plan))) q =
      on_identity leased plan (verify_identity plan leased.request) q

  unfoldable pub attempt : ExecutionAttempt → Queue → Effect
  unfolding fail_with verify_identity record_inability project
  attempt leased q = on_plan leased env.plan q

  abbrev claimed :
      Queue × Result StoreError (Option ExecutionAttempt) → Queue × Result StoreError Bool
  claimed (q, err e) = (q, err e)
  claimed (q, ok none) = (q, ok false)
  claimed (q, ok (some leased)) = ((attempt leased q).0, ok true)

  -- `RunOnce`: one claim at most, and what is done with it.
  unfoldable pub run_once : Context → ℕ → ℕ → Queue → Queue × Result StoreError Bool
  unfolding attempt
  run_once c now lease q = claimed (claim c now lease q)
