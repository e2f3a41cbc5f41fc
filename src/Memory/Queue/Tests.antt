-- ===== src/Memory/Queue/Tests.antt =====
-- The execution queue at concrete executions: what its calls compute, and its theorems at them.
use maiden_lane.Base.{
  String, List, [], ◌∷◌, ◌++◌, none, some, false, ◌≡◌, ◌≢◌, ◌↔◌, refl, subst, ap, arith, codes,
  Text, ok, err, text_beq,
}
use maiden_lane.Base.Assoc.{lookup, insert}
use maiden_lane.Ports.Executions.{
  Context, ExecutionKey, ExecutionRequest, ExecutionResult, succeeded, failed, execution_key_eq,
  attempt_superseded,
}
use maiden_lane.Memory.Queue.{
  Queue, ExecutionEntry, empty, enqueue, enqueue_on, usable_input, claim, advance, advanced,
  first_claimable, take_lease, claimable, complete, completed, fail, gave_up, report_on, reattempt,
  reattempt_on, requeued, rewind, entry_at, pending_entry, leased,
}
use maiden_lane.Memory.Queue.Histories.{Call, enqueues, claims, step, run, run-empty-Inv}
use maiden_lane.Memory.Queue.Order.{Inv}
use maiden_lane.Memory.Queue.Claims.{Claimed, claim-first_claimable, claim-none, claim-Claimed}
use maiden_lane.Memory.Queue.Generations.{Follows, run-Follows}
use maiden_lane.Memory.Queue.Outcomes.{by_complete, Refused, outcome_once}
use maiden_lane.Memory.Queue.Effects.{HeldBy, Recorded, Storable, complete-Recorded, fail-Recorded}

abbrev pub tenant : Text
tenant = codes "t"

abbrev pub request : String → ExecutionRequest
request name = record {
  tenant_id = tenant;
  execution_id = codes name;
  run_id = codes "run";
  plan_id = codes "plan";
  input = record {
    initial_state = codes "state";
    world = codes "world";
    executor_identity = record { backend = codes "go"; version = codes "1" };
    policy = 1;
  };
}

abbrev pub key : String → ExecutionKey
key name = record { tenant = tenant; execution_id = codes name }

abbrev pub result : String → ExecutionResult
result name = record {
  tenant_id = tenant;
  execution_id = codes name;
  status = succeeded;
  spine_status = codes "complete";
  final_state_digest = codes "final";
  journal_prefix_digest = codes "journal";
  input_id = codes "input";
  world_id = codes "world";
  accepted_rules = [];
  checkpoints = [];
  assessments = [];
  failure = none;
}

-- Two executions, of which the first is leased until 10.
abbrev two_calls : List (Context × Call)
two_calls =
    (none, enqueues (request "a")) ∷ (none, enqueues (request "b")) ∷ (none, claims 0 10) ∷ []

abbrev pub first_entry : ExecutionEntry
first_entry = leased 0 10 (pending_entry (request "a"))

abbrev pub two : Queue
two = record {
  executions = (key "a", first_entry) ∷ (key "b", pending_entry (request "b")) ∷ [];
  execution_order = key "a" ∷ key "b" ∷ [];
  claim_cursor = 0;
}

two_runs : run empty two_calls ≡ two
unfolding run step enqueue enqueue_on usable_input claim advance first_claimable lookup insert
    text_beq
two_runs = refl

two-Inv : Inv two
two-Inv = subst Inv two_runs (run-empty-Inv two_calls)

-- With the first execution leased, a claim takes the second one.
abbrev second_claimed : Queue
second_claimed = record two {
  executions = (key "a", first_entry) ∷ (key "b", leased 5 10 (pending_entry (request "b"))) ∷ [];
}

second_claim :
    claim none 5 10 two
    ≡ (second_claimed, ok (some (record { request = request "b"; attempt_id = 1 })))
unfolding claim advance first_claimable lookup insert text_beq
second_claim = refl

-- At 20 both leases have run out, and the first execution is claimed again, under attempt 2.
expired_claim :
    (claim none 20 10 second_claimed).1
    ≡ ok (some (record { request = request "a"; attempt_id = 2 }))
unfolding claim advance first_claimable lookup insert text_beq
expired_claim = refl

nothing_left : (claim none 6 10 second_claimed).1 ≡ ok none
unfolding claim advance first_claimable lookup insert text_beq
nothing_left = refl

second_claimed-Inv : Inv second_claimed
unfolding run step claim advance first_claimable lookup insert text_beq
second_claimed-Inv =
    subst Inv (ap (λ q. run q ((none, claims 5 10) ∷ [])) two_runs)
      (run-empty-Inv (two_calls ++ (none, claims 5 10) ∷ []))

-- The first execution's worker reports a result, and its second report is refused.
abbrev done : Queue
done = record two {
  executions =
      (key "a", completed (result "a") first_entry) ∷ (key "b", pending_entry (request "b")) ∷ [];
}

first_completes : complete none 1 (result "a") two ≡ (done, ok tt)
unfolding complete report_on lookup insert text_beq
first_completes = refl

stale_attempt : (complete none 0 (result "a") two).1 ≡ err attempt_superseded
unfolding complete report_on lookup text_beq
stale_attempt = refl

abbrev given_up : Queue
given_up = record two {
  executions =
      (key "a", gave_up (codes "no") first_entry) ∷ (key "b", pending_entry (request "b")) ∷ [];
}

first_fails : fail none (key "a") 1 (codes "no") two ≡ (given_up, ok tt)
unfolding fail report_on lookup insert text_beq
first_fails = refl

-- A failed execution goes back to the queue under a new attempt, and the cursor goes back to it.
reattempt_runs : (reattempt none (key "a") (record given_up { claim_cursor = 1 })).0 ≡ record two {
  executions =
      (key "a", requeued (gave_up (codes "no") first_entry))
      ∷ (key "b", pending_entry (request "b"))
      ∷ [];
}
unfolding reattempt reattempt_on rewind lookup insert text_beq
reattempt_runs = refl

claim-first_claimable_example : claim none 5 10 two ≡ (
    let (q', found) =
      take_lease 5 10 (advanced two) (first_claimable 5 two.executions two.execution_order) in
    (q', ok found))
claim-first_claimable_example = claim-first_claimable 5 10 two two-Inv

held_b : entry_at second_claimed (key "b") ≡ some (leased 5 10 (pending_entry (request "b")))
unfolding lookup text_beq
held_b = refl

claim-none_example : claimable 6 (leased 5 10 (pending_entry (request "b"))) ≡ false
claim-none_example =
    claim-none 6 10 second_claimed second_claimed-Inv nothing_left (key "b")
      (leased 5 10 (pending_entry (request "b"))) held_b

claim-Claimed_example :
    Claimed 5 10 two second_claimed (record { request = request "b"; attempt_id = 1 })
claim-Claimed_example =
    claim-Claimed 5 10 two second_claimed (record { request = request "b"; attempt_id = 1 }) two-Inv
      second_claim

run-empty-Inv_example : Inv (run empty two_calls)
run-empty-Inv_example = run-empty-Inv two_calls

held_a : entry_at two (key "a") ≡ some first_entry
unfolding lookup text_beq
held_a = refl

run-Follows_example :
    (e' : ExecutionEntry) × (entry_at (run two ((none, claims 20 10) ∷ [])) (key "a") ≡ some e')
    × Follows 1 first_entry e'
run-Follows_example =
    run-Follows two ((none, claims 20 10) ∷ []) (key "a") first_entry held_a (omega arith)

fail-Recorded_example :
    (((fail none (key "a") 1 (codes "no") two).1 ≡ ok tt) ↔ HeldBy two (key "a") 1)
    × ((fail none (key "a") 1 (codes "no") two).1 ≡ ok tt
        → Recorded
            (key "a")
            1
            failed
            (codes "no")
            none
            two
            (fail none (key "a") 1 (codes "no") two).0)
    × ((fail none (key "a") 1 (codes "no") two).1 ≢ ok tt
        → (fail none (key "a") 1 (codes "no") two).0 ≡ two)
fail-Recorded_example = fail-Recorded (key "a") 1 (codes "no") two

complete-Recorded_example :
    (((complete none 1 (result "a") two).1 ≡ ok tt)
      ↔ (Storable (result "a") × HeldBy two (key "a") 1))
    × ((complete none 1 (result "a") two).1 ≡ ok tt
        → Recorded
            (key "a")
            1
            succeeded
            []
            (some (result "a"))
            two
            (complete none 1 (result "a") two).0)
    × ((complete none 1 (result "a") two).1 ≢ ok tt → (complete none 1 (result "a") two).0 ≡ two)
complete-Recorded_example = complete-Recorded 1 (result "a") two

outcome_once_example :
    ((reason : Text)
      → Refused
          (run done ((none, claims 9 1) ∷ []))
          (fail none (key "a") 1 reason (run done ((none, claims 9 1) ∷ []))))
    × ((r : ExecutionResult)
        → record { tenant = r.tenant_id; execution_id = r.execution_id } ≡ key "a"
        → Refused
            (run done ((none, claims 9 1) ∷ []))
            (complete none 1 r (run done ((none, claims 9 1) ∷ []))))
outcome_once_example =
    outcome_once (key "a") 1 two done ((none, claims 9 1) ∷ [])
      (by_complete (result "a") refl first_completes) (omega arith)
