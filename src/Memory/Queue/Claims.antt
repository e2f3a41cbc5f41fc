-- ===== src/Memory/Queue/Claims.antt =====
-- `Claim` leases the oldest available execution: the cursor is an optimisation only.
use maiden_lane.Base.{
  ℕ, ◌+◌, ◌%◌, ◌^◌, ◌<◌, ltb, ◌&&◌, ◌||◌, ◌⊎◌, ◌≡◌, refl, sym, ◌∙◌, true, false, List, [], ◌∷◌,
  none, some, ok, arith, inl, inr, Option-cases, ◌=?◌,
}
use maiden_lane.Base.Assoc.{lookup, insert, lookup-insert_self, lookup-insert_ne}
use maiden_lane.Ports.Executions.{
  ExecutionKey, execution_key_eq, ExecutionAttempt, execution_key_beq_iff, ExecutionStatus, pending,
  running, succeeded, failed, other,
}
use maiden_lane.Memory.Queue.{
  Queue, Entries, ExecutionEntry, entry_at, claimable, leased, first_claimable, is_pending,
  is_running, advanced, take_lease, claim,
}
use maiden_lane.Memory.Queue.Order.{Inv, listed, first_claimable-drop, advanced-Inv}

-- In a queue that satisfies the invariant, and wherever its cursor is, `Claim` leases the first
-- available execution in the order of insertion.
pub claim-first_claimable :
    (now lease : ℕ) (q : Queue)
    → Inv q
    → claim none now lease q ≡ (
        let (q', found) =
          take_lease now lease (advanced q) (first_claimable now q.executions q.execution_order) in
        (q', ok found))
unfolding claim
claim-first_claimable now lease q v = rw (
    first_claimable-drop now q.executions (advanced q).claim_cursor q.execution_order
      (advanced-Inv q v).settled)

-- The search misses nothing: where it finds none, no listed entry can be leased.
first_claimable-none :
    (now : ℕ) (m : Entries) (ks : List ExecutionKey) (k : ExecutionKey) (e : ExecutionEntry)
    → first_claimable now m ks ≡ none
    → listed k ks ≡ true
    → lookup k m ≡ some e
    → claimable now e ≡ false
unfolding first_claimable listed
first_claimable-none now m [] k e h l p = ground arith
first_claimable-none now m (j ∷ js) k e h l p =
    ground (arith, execution_key_beq_iff j k, first_claimable-none now m js k e)

pub first_claimable_found :
    (now : ℕ) (m : Entries) (ks : List ExecutionKey) (k : ExecutionKey) (e : ExecutionEntry)
    → first_claimable now m ks ≡ some (k, e)
    → (lookup k m ≡ some e) × (claimable now e ≡ true)
unfolding first_claimable
first_claimable_found now m [] k e h = ground arith
first_claimable_found now m (j ∷ js) k e h = ground (arith, first_claimable_found now m js k e)

-- In a queue that satisfies the invariant, `Claim` reports that there is nothing to do only if no
-- stored execution can be leased: none that is pending, and none that is running with a lease that
-- has run out.
pub claim-none :
    (now lease : ℕ) (q : Queue)
    → Inv q
    → (claim none now lease q).1 ≡ ok none
    → (k : ExecutionKey) (e : ExecutionEntry) → entry_at q k ≡ some e
    → claimable now e ≡ false
claim-none now lease q v h k e p =
    elim (Option-cases (first_claimable now q.executions q.execution_order)) [
      | inl none_found ↦
          first_claimable-none now q.executions q.execution_order k e none_found
            (v.reached k (rw p refl)) p
      | inr ((j, d), found) ↦ ground (arith, claim-first_claimable now lease q v)
    ]

claimable_lem :
    (now expiry : ℕ) (s : ExecutionStatus)
    → (is_pending s || (is_running s && ltb expiry now)) ≡ true
    → (s ≡ pending) ⊎ ((s ≡ running) × (expiry < now))
claimable_lem now expiry pending h = inl refl
claimable_lem now expiry running h = inr (refl, ground (arith, h))
claimable_lem now expiry succeeded h = absurd (ground (arith, h))
claimable_lem now expiry failed h = absurd (ground (arith, h))
claimable_lem now expiry (other s) h = absurd (ground (arith, h))

-- What a successful claim found, and what it left behind: an entry that was pending, or running
-- with a lease that has run out, is running under a new attempt and a new lease.
pub record Claimed (now lease : ℕ) (q q' : Queue) (a : ExecutionAttempt) : Type 0 where
  pub key : ExecutionKey
  pub before : ExecutionEntry
  pub held : entry_at q key ≡ some before
  pub available :
      (before.status ≡ pending) ⊎ ((before.status ≡ running) × (before.lease_expiry < now))
  pub after : ExecutionEntry
  pub stored : entry_at q' key ≡ some after
  pub now_running : after.status ≡ running
  pub new_lease : after.lease_expiry ≡ now + lease
  pub new_attempt : after.attempt ≡ (before.attempt + 1) % 2 ^ 64
  pub told_attempt : a.attempt_id ≡ after.attempt
  pub told_request : a.request ≡ before.request
  pub same_request : after.request ≡ before.request
  pub same_result : after.result ≡ before.result
  pub same_reason : after.failure_reason ≡ before.failure_reason
  pub others : (j : ExecutionKey) → (key =? j) ≡ false → entry_at q' j ≡ entry_at q j
  pub same_order : q'.execution_order ≡ q.execution_order

-- In a queue that satisfies the invariant, a claim that returns an attempt found an entry that was
-- pending, or running with a lease that had run out. That entry is now running with the lease that
-- ends the given time from now and with the next attempt number modulo 2 ^ 64, which is the one
-- returned, and keeps its request, its result and its reason. No other entry and no place in the
-- order changed.
pub claim-Claimed :
    (now lease : ℕ) (q : Queue) (q' : Queue) (a : ExecutionAttempt)
    → Inv q
    → claim none now lease q ≡ (q', ok (some a))
    → Claimed now lease q q' a
claim-Claimed now lease q q' a v h =
    elim (Option-cases (first_claimable now q.executions q.execution_order)) [
      | inl none_found ↦ absurd (ground (arith, claim-first_claimable now lease q v))
      | inr ((k, e), found) ↦
          let by_spec = sym h ∙ claim-first_claimable now lease q v in
          let written : q'.executions ≡ insert k (leased now lease e) q.executions =
            ground (arith, by_spec) in
          let (held, free) = first_claimable_found now q.executions q.execution_order k e found in
          record {
            key = k;
            before = e;
            held = held;
            available = claimable_lem now e.lease_expiry e.status free;
            after = leased now lease e;
            stored = rw (written, lookup-insert_self k (leased now lease e) q.executions) refl;
            now_running = refl;
            new_lease = refl;
            new_attempt = refl;
            told_attempt = ground (arith, by_spec);
            told_request = ground (arith, by_spec);
            same_request = refl;
            same_result = refl;
            same_reason = refl;
            others = λ j ne.
                rw (written, lookup-insert_ne k j (leased now lease e) q.executions ne) refl;
            same_order = ground (arith, by_spec);
          }
    ]
