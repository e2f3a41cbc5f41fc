-- ===== src/Memory/Queue/Effects.antt =====
-- What `Complete` and `Fail` leave in the queue, told by what its lookups answer before and after.
use maiden_lane.Base.{
  ℕ, ◌≡◌, ◌≢◌, refl, ap, ◌⊎◌, ◌↔◌, inl, inr, true, false, Text, [], Option, none, some, arith,
  is_empty, ok, err, ◌=?◌,
}
use maiden_lane.Base.Assoc.{lookup-insert_self, lookup-insert_ne}
use maiden_lane.Ports.Executions.{
  ExecutionKey, execution_key_eq, ExecutionResult, ExecutionStatus, pending, running, succeeded,
  failed, other,
}
use maiden_lane.Memory.Queue.{
  Queue, ExecutionEntry, entry_at, terminal, is_running, report_on, complete, completed, result_key,
  fail, gave_up,
}
use maiden_lane.Memory.Queue.Outcomes.{Answer, Written, complete-Written, fail-Written}
use maiden_lane.Memory.Queue.Reports.{Reported, complete-Reported, fail-Reported}

-- The execution is running under this attempt.
abbrev pub HeldBy : Queue → ExecutionKey → ℕ → Type 0
HeldBy q k a =
    (e : ExecutionEntry) × (entry_at q k ≡ some e) × (e.status ≡ running) × (e.attempt ≡ a)

-- One execution ends: its entry gets this status, reason and result and no lease, keeps its request
-- and its attempt, and everything else in the queue stays.
pub record Recorded (k : ExecutionKey) (a : ℕ) (status : ExecutionStatus) (reason : Text)
    (result : Option ExecutionResult) (q q' : Queue) : Type 0 where
  pub before : ExecutionEntry
  pub held : entry_at q k ≡ some before
  pub was_running : before.status ≡ running
  pub after : ExecutionEntry
  pub stored : entry_at q' k ≡ some after
  pub new_status : after.status ≡ status
  pub new_reason : after.failure_reason ≡ reason
  pub new_result : after.result ≡ result
  pub no_lease : after.lease_expiry ≡ 0
  pub same_request : after.request ≡ before.request
  pub held_attempt : before.attempt ≡ a
  pub same_attempt : after.attempt ≡ a
  pub others : (j : ExecutionKey) → (k =? j) ≡ false → entry_at q' j ≡ entry_at q j
  pub same_order : q'.execution_order ≡ q.execution_order
  pub same_cursor : q'.claim_cursor ≡ q.claim_cursor

is_running_lem : (s : ExecutionStatus) → is_running s ≡ true → s ≡ running
is_running_lem running h = refl
is_running_lem pending h = absurd (ground arith)
is_running_lem succeeded h = absurd (ground arith)
is_running_lem failed h = absurd (ground arith)
is_running_lem (other s) h = absurd (ground arith)

-- A result that `Complete` may store: it names its execution, and its status is a final one.
abbrev pub Storable : ExecutionResult → Type 0
Storable r =
    (is_empty r.tenant_id ≡ false)
    × (is_empty r.execution_id ≡ false)
    × ((r.status ≡ succeeded) ⊎ (r.status ≡ failed))

terminal_lem : (s : ExecutionStatus) → (terminal s ≡ true) ↔ ((s ≡ succeeded) ⊎ (s ≡ failed))
terminal_lem s = (ends s, λ h. elim h [ inl b ↦ rw b refl | inr b ↦ rw b refl ])
  where
    ends : (s : ExecutionStatus) → terminal s ≡ true → (s ≡ succeeded) ⊎ (s ≡ failed)
    ends succeeded h = inl refl
    ends failed h = inr refl
    ends pending h = absurd (ground arith)
    ends running h = absurd (ground arith)
    ends (other s) h = absurd (ground arith)

pub completed-Recorded :
    (k : ExecutionKey) (a : ℕ) (r : ExecutionResult) (q q' : Queue)
    → Written k a (completed r) q q'
    → Recorded k a r.status [] (some r) q q'
completed-Recorded k a r q q' w = record {
  before = w.entry;
  held = w.held;
  was_running = is_running_lem w.entry.status w.runs;
  after = completed r w.entry;
  stored = rw (w.after, lookup-insert_self k (completed r w.entry) q.executions) refl;
  new_status = refl;
  new_reason = refl;
  new_result = refl;
  no_lease = refl;
  same_request = refl;
  held_attempt = w.current;
  same_attempt = w.current;
  others = λ j ne. rw (w.after, lookup-insert_ne k j (completed r w.entry) q.executions ne) refl;
  same_order = rw w.after refl;
  same_cursor = rw w.after refl;
}

pub gave_up-Recorded :
    (k : ExecutionKey) (a : ℕ) (reason : Text) (q q' : Queue)
    → Written k a (gave_up reason) q q'
    → Recorded k a failed reason none q q'
gave_up-Recorded k a reason q q' w = record {
  before = w.entry;
  held = w.held;
  was_running = is_running_lem w.entry.status w.runs;
  after = gave_up reason w.entry;
  stored = rw (w.after, lookup-insert_self k (gave_up reason w.entry) q.executions) refl;
  new_status = refl;
  new_reason = refl;
  new_result = refl;
  no_lease = refl;
  same_request = refl;
  held_attempt = w.current;
  same_attempt = w.current;
  others = λ j ne. rw (w.after, lookup-insert_ne k j (gave_up reason w.entry) q.executions ne) refl;
  same_order = rw w.after refl;
  same_cursor = rw w.after refl;
}

Reported-kept :
    (W : Queue → Type 0) (q : Queue) (a : Answer) → Reported W q a → a.1 ≢ ok tt → a.0 ≡ q
Reported-kept W q (after, ok u) h ne = absurd (ne refl)
Reported-kept W q (after, err e) h ne = h

-- The holder of a running execution is not refused.
report_on_accepts :
    (k : ExecutionKey) (a : ℕ) (write : ExecutionEntry → ExecutionEntry) (q : Queue)
    → HeldBy q k a
    → (report_on (entry_at q k) k a write q).1 ≡ ok tt
unfolding report_on
report_on_accepts k a write q (e, held, runs, current) = rw (held, runs) (ground (arith, current))

complete_accepts :
    (a : ℕ) (r : ExecutionResult) (q : Queue)
    → Storable r
    → HeldBy q (result_key r) a
    → (complete none a r q).1 ≡ ok tt
unfolding complete
complete_accepts a r q (t, e, final) held =
    rw (t, e, (terminal_lem r.status).1 final)
      (report_on_accepts (result_key r) a (completed r) q held)

Storable-of :
    (a : ℕ) (r : ExecutionResult) (q : Queue)
    → (complete none a r q).1 ≡ ok tt
    → (is_empty r.tenant_id ≡ false) × (is_empty r.execution_id ≡ false)
unfolding complete
Storable-of a r q h = ground (arith, h)

Written-HeldBy :
    (k : ExecutionKey) (a : ℕ) (write : ExecutionEntry → ExecutionEntry) (q q' : Queue)
    → Written k a write q q'
    → HeldBy q k a
Written-HeldBy k a write q q' w = (w.entry, w.held, is_running_lem w.entry.status w.runs, w.current)

complete_keeps :
    (a : ℕ) (r : ExecutionResult) (q : Queue)
    → (complete none a r q).1 ≢ ok tt
    → (complete none a r q).0 ≡ q
complete_keeps a r q h =
    Reported-kept (Written (result_key r) a (completed r) q) q (complete none a r q)
      (complete-Reported none a r q) h

-- Under a live context `Complete` succeeds just for a result that names its execution and has a
-- final status, from the attempt under which that execution is running. Then the execution's entry
-- has the result, its status, no failure reason and no lease, keeps its request and attempt, and
-- nothing else in the queue changes. Otherwise nothing changes at all.
pub complete-Recorded :
    (a : ℕ) (r : ExecutionResult) (q : Queue)
    → (((complete none a r q).1 ≡ ok tt) ↔ (Storable r × HeldBy q (result_key r) a))
      × ((complete none a r q).1 ≡ ok tt
          → Recorded (result_key r) a r.status [] (some r) q (complete none a r q).0)
      × ((complete none a r q).1 ≢ ok tt → (complete none a r q).0 ≡ q)
complete-Recorded a r q =
    let p = complete none a r q in
    let written : p.1 ≡ ok tt
        → (terminal r.status ≡ true) × Written (result_key r) a (completed r) q p.0 =
      λ h. complete-Written a r q p.0 (ap (λ x. (p.0, x)) h) in
    (
      (
        (λ h.
            let (t, w) = written h in
            let (tenant, execution) = Storable-of a r q h in
            (
              (tenant, execution, (terminal_lem r.status).0 t),
              Written-HeldBy (result_key r) a (completed r) q p.0 w,
            )),
        λ h. complete_accepts a r q h.0 h.1,
      ),
      (λ h. completed-Recorded (result_key r) a r q p.0 (written h).1),
      complete_keeps a r q,
    )

-- Under a live context `Fail` succeeds just for the attempt under which the execution is running.
-- Then the execution's entry is failed with the reason, has no result and no lease, keeps its
-- request and attempt, and nothing else in the queue changes. Otherwise nothing changes at all.
pub fail-Recorded :
    (k : ExecutionKey) (a : ℕ) (reason : Text) (q : Queue)
    → (((fail none k a reason q).1 ≡ ok tt) ↔ HeldBy q k a)
      × ((fail none k a reason q).1 ≡ ok tt
          → Recorded k a failed reason none q (fail none k a reason q).0)
      × ((fail none k a reason q).1 ≢ ok tt → (fail none k a reason q).0 ≡ q)
unfolding fail
fail-Recorded k a reason q =
    let p = fail none k a reason q in
    let written : p.1 ≡ ok tt → Written k a (gave_up reason) q p.0 =
      λ h. fail-Written k a reason q p.0 (ap (λ x. (p.0, x)) h) in
    (
      (
        (λ h. Written-HeldBy k a (gave_up reason) q p.0 (written h)),
        λ h. report_on_accepts k a (gave_up reason) q h,
      ),
      (λ h. gave_up-Recorded k a reason q p.0 (written h)),
      Reported-kept (Written k a (gave_up reason) q) q p (fail-Reported none k a reason q),
    )
