-- ===== src/Memory/Entries.antt =====
-- internal/adapters/memory/store.go: the state of the execution queue, and the tests on a status.
use maiden_lane.Base.{ℕ, ◌+◌, ◌%◌, ◌^◌, Text, Bool, true, false, List, [], Option, none, some}
use maiden_lane.Base.Assoc.{lookup, insert}
use maiden_lane.Ports.Executions.{
  ExecutionStatus, pending, running, succeeded, failed, other, ExecutionRequest, ExecutionResult,
  ExecutionKey, execution_key_eq,
}

-- `leaseExpiry` is a time, 0 for Go's zero time.
pub record ExecutionEntry : Type 0 where
  pub request : ExecutionRequest
  pub status : ExecutionStatus
  pub result : Option ExecutionResult
  pub failure_reason : Text
  pub lease_expiry : ℕ
  pub attempt : ℕ

pub record Queue : Type 0 where
  pub executions : List (ExecutionKey × ExecutionEntry)
  pub execution_order : List ExecutionKey
  pub claim_cursor : ℕ

abbrev pub empty : Queue
empty = record { executions = []; execution_order = []; claim_cursor = 0 }

-- The map of executions; the pointers that Go keeps in it are the entries, written back in place.
abbrev pub Entries : Type 0
Entries = List (ExecutionKey × ExecutionEntry)

abbrev pub entry_at : Queue → ExecutionKey → Option ExecutionEntry
entry_at q k = lookup k q.executions

abbrev pub put : Queue → ExecutionKey → ExecutionEntry → Queue
put q k e = record q { executions = insert k e q.executions }

-- `AttemptID` is a uint64.
abbrev pub next_attempt : ℕ → ℕ
next_attempt a = (a + 1) % 2 ^ 64

abbrev pub terminal : ExecutionStatus → Bool
terminal succeeded = true
terminal failed = true
terminal pending = false
terminal running = false
terminal (other s) = false

abbrev pub is_pending : ExecutionStatus → Bool
is_pending pending = true
is_pending running = false
is_pending succeeded = false
is_pending failed = false
is_pending (other s) = false

abbrev pub is_running : ExecutionStatus → Bool
is_running running = true
is_running pending = false
is_running succeeded = false
is_running failed = false
is_running (other s) = false

abbrev pub is_failed : ExecutionStatus → Bool
is_failed failed = true
is_failed pending = false
is_failed running = false
is_failed succeeded = false
is_failed (other s) = false

abbrev pub has_result : Option ExecutionResult → Bool
has_result none = false
has_result (some r) = true
