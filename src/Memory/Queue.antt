-- ===== src/Memory/Queue.antt =====
-- internal/adapters/memory/store.go: the execution queue. A method takes its context, the clock's
-- reading where it reads it, and the queue, and returns the queue with its result. The three fields
-- are those of `Store` that executions use; the lock makes each method one step. Results are
-- immutable values here, so the copies that `cloneExecutionResult` makes are the values themselves.
pub mod Order
pub mod Claims
pub mod Lifecycle
pub mod Requeue
pub mod Histories
pub mod Steps
pub mod Generations
pub mod Outcomes
pub mod Effects
pub mod Reports
pub mod Tests
use maiden_lane.Base.{
  ℕ, ◌+◌, ◌-◌, ◌%◌, ◌^◌, ◌<◌, Text, Bool, true, false, not, ◌&&◌, ◌||◌, List, [], ◌∷◌, ◌++◌, Option,
  none, some, ltb, ◌==◌, if◌then◌else◌, drop, Result, ok, err, is_empty, ◌=?◌, ◌≡◌, refl,
}
use maiden_lane.Base.Assoc.{lookup, insert}
use maiden_lane.Ports.Executions.{
  Context, StoreError, context_error, incomplete_record, not_queued, unusable_input,
  execution_absent, execution_not_reattemptable, attempt_superseded, ExecutionStatus, pending,
  running, succeeded, failed, other, ExecutionInput, ExecutionRequest, ExecutionAttempt,
  ExecutionResult, ExecutionRecord, ExecutionKey, execution_key_eq,
}
pub use maiden_lane.Memory.Entries.{
  ExecutionEntry, Queue, empty, Entries, entry_at, put, next_attempt, terminal, is_pending,
  is_running, is_failed, has_result,
}

-- A zero executor identity has neither part.
pub usable_input : ExecutionInput → Bool
usable_input i =
    not (is_empty i.initial_state)
    && (not (is_empty i.world)
        && (not (is_empty i.executor_identity.backend && is_empty i.executor_identity.version)
            && not (i.policy == 0)))

abbrev pub request_key : ExecutionRequest → ExecutionKey
request_key r = record { tenant = r.tenant_id; execution_id = r.execution_id }

abbrev pub pending_entry : ExecutionRequest → ExecutionEntry
pending_entry r = record {
  request = r;
  status = pending;
  result = none;
  failure_reason = [];
  lease_expiry = 0;
  attempt = 0;
}

-- The part of `Enqueue` behind its guards, on the entry that it looks up.
pub enqueue_on : Option ExecutionEntry → ExecutionRequest → Queue → Queue × Result StoreError Bool
enqueue_on (some e) r q = (q, ok false)
enqueue_on none r q = (
  record q {
    executions = insert (request_key r) (pending_entry r) q.executions;
    execution_order = q.execution_order ++ request_key r ∷ [];
  },
  ok true,
)

pub enqueue : Context → ExecutionRequest → Queue → Queue × Result StoreError Bool
enqueue (some e) r q = (q, err (context_error e))
enqueue none r q =
    if is_empty r.tenant_id || is_empty r.execution_id
    then (q, err incomplete_record)
    else if not (usable_input r.input)
    then (q, err unusable_input)
    else enqueue_on (entry_at q (request_key r)) r q

-- `present && !terminal(entry.status)`.
abbrev pub live : Option ExecutionEntry → Bool
live none = false
live (some e) = not (terminal e.status)

-- The first loop of `Claim`, over the keys from the cursor on: past what is absent or terminal.
pub advance : Entries → List ExecutionKey → ℕ → ℕ
advance m [] c = c
advance m (k ∷ ks) c = let rest = advance m ks (c + 1) in if live (lookup k m) then c else rest

-- Pending, or running with a lease that ran out.
abbrev pub claimable : ℕ → ExecutionEntry → Bool
claimable now e = is_pending e.status || (is_running e.status && ltb e.lease_expiry now)

abbrev pub leased : ℕ → ℕ → ExecutionEntry → ExecutionEntry
leased now lease e = record e {
  status = running;
  lease_expiry = now + lease;
  attempt = next_attempt e.attempt;
}

-- The second loop of `Claim`: the first key whose entry can be leased, with that entry.
pub first_claimable : ℕ → Entries → List ExecutionKey → Option (ExecutionKey × ExecutionEntry)
first_claimable now m [] = none
first_claimable now m (k ∷ ks) =
    let rest = first_claimable now m ks in
    elim (lookup k m) [
      | none ↦ rest
      | some e ↦ if terminal e.status then rest else if claimable now e then some (k, e) else rest
    ]

-- What `Claim` does with the entry it found.
abbrev pub take_lease :
    ℕ → ℕ → Queue → Option (ExecutionKey × ExecutionEntry) → Queue × Option ExecutionAttempt
take_lease now lease q none = (q, none)
take_lease now lease q (some (k, e)) = (
  put q k (leased now lease e),
  some (record { request = e.request; attempt_id = next_attempt e.attempt }),
)

abbrev pub advanced : Queue → Queue
advanced q = record q {
  claim_cursor = advance q.executions (drop q.claim_cursor q.execution_order) q.claim_cursor;
}

-- `none` is the result `false` of Go: nothing to claim.
pub claim : Context → ℕ → ℕ → Queue → Queue × Result StoreError (Option ExecutionAttempt)
claim (some e) now lease q = (q, err (context_error e))
claim none now lease q =
    let a = advanced q in
    let (q', found) =
      take_lease now lease a
        (first_claimable now a.executions (drop a.claim_cursor a.execution_order)) in
    (q', ok found)

-- The guards that `Complete` and `Fail` share, on the entry they look up, and the write behind them.
unfoldable pub report_on :
    Option ExecutionEntry
    → ExecutionKey
    → ℕ
    → (ExecutionEntry → ExecutionEntry)
    → Queue
    → Queue × Result StoreError (Unit {0})
report_on none k attempt_id write q = (q, err not_queued)
report_on (some e) k attempt_id write q =
    if terminal e.status
    then (q, err not_queued)
    else if not (is_running e.status)
    then (q, err not_queued)
    else if not (e.attempt == attempt_id)
    then (q, err attempt_superseded)
    else (put q k (write e), ok tt)

abbrev pub report :
    ExecutionKey
    → ℕ
    → (ExecutionEntry → ExecutionEntry)
    → Queue
    → Queue × Result StoreError (Unit {0})
report k attempt_id write q = report_on (entry_at q k) k attempt_id write q

abbrev pub result_key : ExecutionResult → ExecutionKey
result_key r = record { tenant = r.tenant_id; execution_id = r.execution_id }

abbrev pub completed : ExecutionResult → ExecutionEntry → ExecutionEntry
completed r e = record e {
  result = some r;
  status = r.status;
  failure_reason = [];
  lease_expiry = 0;
}

unfoldable pub complete :
    Context → ℕ → ExecutionResult → Queue → Queue × Result StoreError (Unit {0})
complete (some e) attempt_id r q = (q, err (context_error e))
complete none attempt_id r q =
    if is_empty r.tenant_id || is_empty r.execution_id
    then (q, err incomplete_record)
    else if not (terminal r.status)
    then (q, err incomplete_record)
    else report (result_key r) attempt_id (completed r) q

abbrev pub gave_up : Text → ExecutionEntry → ExecutionEntry
gave_up reason e = record e {
  status = failed;
  failure_reason = reason;
  result = none;
  lease_expiry = 0;
}

unfoldable pub fail :
    Context → ExecutionKey → ℕ → Text → Queue → Queue × Result StoreError (Unit {0})
fail (some e) k attempt_id reason q = (q, err (context_error e))
fail none k attempt_id reason q = report k attempt_id (gave_up reason) q

-- The loop of `Reattempt` from index `i` on: the cursor goes back to the key's first place.
pub rewind : ExecutionKey → ℕ → ℕ → List ExecutionKey → ℕ
rewind k i c [] = c
rewind k i c (j ∷ js) =
    let rest = rewind k (i + 1) c js in if j =? k then if ltb i c then i else c else rest

abbrev pub requeued : ExecutionEntry → ExecutionEntry
requeued e = record e {
  status = pending;
  failure_reason = [];
  lease_expiry = 0;
  attempt = next_attempt e.attempt;
}

-- The part of `Reattempt` behind its lookup.
pub reattempt_on :
    Option ExecutionEntry → ExecutionKey → Queue → Queue × Result StoreError (Unit {0})
reattempt_on none k q = (q, err execution_absent)
reattempt_on (some e) k q =
    if not (is_failed e.status) || has_result e.result
    then (q, err execution_not_reattemptable)
    else (
      record q {
        executions = insert k (requeued e) q.executions;
        claim_cursor = rewind k 0 q.claim_cursor q.execution_order;
      },
      ok tt,
    )

pub reattempt : Context → ExecutionKey → Queue → Queue × Result StoreError (Unit {0})
reattempt (some e) k q = (q, err (context_error e))
reattempt none k q = reattempt_on (entry_at q k) k q

abbrev to_record : ExecutionEntry → ExecutionRecord
to_record e = record {
  request = e.request;
  status = e.status;
  result = e.result;
  failure_reason = e.failure_reason;
}

-- `none` is the result `false` of Go.
pub get : Context → ExecutionKey → Queue → Result StoreError (Option ExecutionRecord)
get (some e) k q = err (context_error e)
get none k q =
    if is_empty k.tenant || is_empty k.execution_id
    then ok none
    else elim (entry_at q k) [ none ↦ ok none | some e ↦ ok (some (to_record e)) ]
