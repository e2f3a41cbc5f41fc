-- ===== src/Memory/Queue/Histories.antt =====
-- Histories of the execution queue: any sequence of calls, each under its own context, with every
-- clock reading, lease and result that the callers choose.
use maiden_lane.Base.{ℕ, Text, List, [], ◌∷◌, arith}
use maiden_lane.Base.Assoc.{lookup}
use maiden_lane.Ports.Executions.{Context, ExecutionKey, ExecutionRequest, ExecutionResult}
use maiden_lane.Memory.Queue.{Queue, empty, enqueue, claim, complete, fail, reattempt}
use maiden_lane.Memory.Queue.Order.{Inv}
use maiden_lane.Memory.Queue.Lifecycle.{claim-Inv, complete-Inv, fail-Inv}
use maiden_lane.Memory.Queue.Requeue.{enqueue-Inv, reattempt-Inv}

pub data Call : Type 0 where
  enqueues : ExecutionRequest → Call
  claims : ℕ → ℕ → Call
  completes : ℕ → ExecutionResult → Call
  fails : ExecutionKey → ℕ → Text → Call
  reattempts : ExecutionKey → Call

unfoldable pub step : Queue → Context → Call → Queue
step q c (enqueues r) = (enqueue c r q).0
step q c (claims now lease) = (claim c now lease q).0
step q c (completes a r) = (complete c a r q).0
step q c (fails k a reason) = (fail c k a reason q).0
step q c (reattempts k) = (reattempt c k q).0

unfoldable pub run : Queue → List (Context × Call) → Queue
run q [] = q
run q ((c, call) ∷ calls) = run (step q c call) calls

pub step-Inv : (q : Queue) (c : Context) (call : Call) → Inv q → Inv (step q c call)
unfolding step
step-Inv q c (enqueues r) v = enqueue-Inv c r q v
step-Inv q c (claims now lease) v = claim-Inv c now lease q v
step-Inv q c (completes a r) v = complete-Inv c a r q v
step-Inv q c (fails k a reason) v = fail-Inv c k a reason q v
step-Inv q c (reattempts k) v = reattempt-Inv c k q v

run-Inv : (q : Queue) (calls : List (Context × Call)) → Inv q → Inv (run q calls)
unfolding run
run-Inv q [] v = v
run-Inv q ((c, call) ∷ calls) v = run-Inv (step q c call) calls (step-Inv q c call v)

empty-Inv : Inv empty
unfolding lookup
empty-Inv = record { known = tt; reached = λ k h. cc; bounded = omega arith; settled = tt }

-- After any history of calls every place of the order has an entry and every entry a place, and the
-- claim cursor has passed only executions that are terminal.
pub run-empty-Inv : (calls : List (Context × Call)) → Inv (run empty calls)
run-empty-Inv calls = run-Inv empty calls empty-Inv
