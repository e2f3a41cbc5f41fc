-- ===== src/Memory/Queue/Reports.antt =====
-- `Complete` and `Fail` of the queue, whatever they answer.
use maiden_lane.Base.{
  ℕ, ◌≡◌, refl, ◌||◌, Text, Option, none, some, arith, Bool-cases, inl, inr, is_empty, ok, err,
  ◌==◌,
}
use maiden_lane.Ports.Executions.{Context, ExecutionKey, execution_key_eq, ExecutionResult}
use maiden_lane.Memory.Queue.{
  Queue, ExecutionEntry, entry_at, terminal, is_running, report_on, complete, completed, result_key,
  fail, gave_up,
}
use maiden_lane.Memory.Queue.Outcomes.{Answer, Written}

-- A call that succeeds writes; one that returns an error leaves the queue as it is.
abbrev pub Reported : (Queue → Type 0) → Queue → Answer → Type 0
Reported W q (after, ok u) = W after
Reported W q (after, err e) = after ≡ q

Reported-on :
    (o : Option ExecutionEntry) (k : ExecutionKey) (a : ℕ) (write : ExecutionEntry → ExecutionEntry)
    (q : Queue)
    → entry_at q k ≡ o
    → Reported (Written k a write q) q (report_on o k a write q)
unfolding report_on
Reported-on none k a write q found = refl
Reported-on (some e) k a write q found = elim (Bool-cases (terminal e.status)) [
  | inl t ↦ rw t refl
  | inr t ↦ elim (Bool-cases (is_running e.status)) [
    | inr r ↦ rw (t, r) refl
    | inl r ↦ elim (Bool-cases (e.attempt == a)) [
      | inr c ↦ rw (t, r, c) refl
      | inl c ↦
          rw (t, r, c)
            (record {
              entry = e;
              held = found;
              runs = r;
              current = ground (arith, c);
              after = refl;
            })
    ]
  ]
]

pub complete-Reported :
    (c : Context) (a : ℕ) (r : ExecutionResult) (q : Queue)
    → Reported (Written (result_key r) a (completed r) q) q (complete c a r q)
unfolding complete
complete-Reported (some e) a r q = refl
complete-Reported none a r q = elim (Bool-cases (is_empty r.tenant_id || is_empty r.execution_id)) [
  | inl b ↦ rw b refl
  | inr b ↦ elim (Bool-cases (terminal r.status)) [
    | inr t ↦ rw (b, t) refl
    | inl t ↦
        rw (b, t) (Reported-on (entry_at q (result_key r)) (result_key r) a (completed r) q refl)
  ]
]

pub fail-Reported :
    (c : Context) (k : ExecutionKey) (a : ℕ) (reason : Text) (q : Queue)
    → Reported (Written k a (gave_up reason) q) q (fail c k a reason q)
unfolding fail
fail-Reported (some e) k a reason q = refl
fail-Reported none k a reason q = Reported-on (entry_at q k) k a (gave_up reason) q refl
