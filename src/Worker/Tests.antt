-- ===== src/Worker/Tests.antt =====
-- The worker on a queue with one leased execution: a plan that runs, one whose identity differs, a
-- result that contradicts the request, and a plan store that panics.
use maiden_lane.Base.{
  ℕ, false, none, some, Option, Text, codes, text_beq, [], ◌≡◌, refl, ok, Result,
}
use maiden_lane.Base.Assoc.{lookup, insert}
use maiden_lane.Ports.Executions.{ExecutionAttempt, ExecutionResult, StoreError}
use maiden_lane.App.{SpineResult, spine_succeeded, project}
use maiden_lane.Memory.Queue.{complete, fail, report_on}
use maiden_lane.Memory.Queue.Tests.{request, key, two}
use maiden_lane.Memory.Queue.Effects.{Storable, HeldBy}
use maiden_lane.Worker.{
  Returned, panicked, returned, Environment, attempt, verify_identity, fail_with, failed, answered,
  reason_identity_mismatch, reason_internal_error,
}
use maiden_lane.Worker.Outcomes.{Accounts, Verified, attempt-Accounts}

abbrev lease_on : ℕ → ExecutionAttempt
lease_on a = record { request = request "a"; attempt_id = a }

-- A succeeded run that established this execution's identity.
abbrev spine_of : Option Text → SpineResult
spine_of execution = record {
  status = spine_succeeded;
  semantic_run_id = some (codes "run");
  execution_id = execution;
  state_digest = some (codes "final");
  journal_prefix_digest = none;
  input_id = none;
  world_id = none;
  journal_rules = [];
  checkpoints = [];
  profiles = [];
  assessments = [];
  failure = none;
}

-- A plan is the name of the execution that it binds to, and its answer is there already.
abbrev answers_for : Returned (Result StoreError (Option Text)) → SpineResult → Environment Text
answers_for plan s = record {
  plan = plan;
  bind_run = λ p i. returned (some (record { execution_id = p; run_id = codes "run" }));
  run = λ p r. returned (ok s);
  on_complete = none;
  before_fail = none;
  on_fail = none;
}

abbrev plan_named : Text → Returned (Result StoreError (Option Text))
plan_named name = returned (ok (some name))

mismatched :
    verify_identity (answers_for (plan_named (codes "b")) (spine_of none)) (codes "b") (request "a")
    ≡ returned false
unfolding verify_identity text_beq
mismatched = refl

answers :
    (attempt
      (answers_for (plan_named (codes "a")) (spine_of (some (codes "a"))))
      (lease_on 1)
      two).1
    ≡ answered
unfolding attempt verify_identity project complete report_on lookup insert text_beq
answers = refl

contradicting :
    (attempt
      (answers_for (plan_named (codes "a")) (spine_of (some (codes "b"))))
      (lease_on 1)
      two).1
    ≡ failed reason_identity_mismatch
unfolding attempt verify_identity fail_with project fail report_on lookup insert text_beq
contradicting = refl

panics :
    (attempt (answers_for panicked (spine_of none)) (lease_on 1) two).1
    ≡ failed reason_internal_error
unfolding attempt fail_with fail report_on lookup insert text_beq
panics = refl

abbrev test_environment : Environment Text
test_environment = answers_for (plan_named (codes "a")) (spine_of (some (codes "a")))

attempt-Accounts_example :
    Accounts test_environment (lease_on 1) two (attempt test_environment (lease_on 1) two)
    × ((s : SpineResult) (x : ExecutionResult)
        → Verified test_environment (request "a") s
        → project (request "a") s ≡ some x
        → test_environment.on_complete ≡ none
        → Storable x
        → HeldBy two (key "a") 1
        → (attempt test_environment (lease_on 1) two).1 ≡ answered)
attempt-Accounts_example = attempt-Accounts test_environment (lease_on 1) two
