-- ===== src/Memory/Queue/Outcomes.antt =====
-- An attempt reports at most one outcome: what `Complete` and `Fail` accept, and what they refuse
-- for ever after.
use maiden_lane.Base.{
  ℕ, ◌+◌, ◌^◌, ◌<◌, ◌≡◌, ◌≢◌, refl, sym, ◌∙◌, ◌⊎◌, inl, inr, true, ◌||◌, Text, List, Option, none,
  some, arith, Bool-cases, length, is_empty, Result, ok,
}
use maiden_lane.Base.Assoc.{lookup-insert_self}
use maiden_lane.Ports.Executions.{
  Context, ExecutionKey, execution_key_eq, ExecutionResult, StoreError,
}
use maiden_lane.Memory.Queue.{
  Queue, ExecutionEntry, entry_at, terminal, is_running, put, report_on, complete, completed,
  result_key, fail, gave_up,
}
use maiden_lane.Memory.Queue.Histories.{Call, run}
use maiden_lane.Memory.Queue.Generations.{Over, Over-Follows, Over-refused, run-Follows}

abbrev pub Answer : Type 0
Answer = Queue × Result StoreError (Unit {0})

-- The execution was leased under this attempt, and the write is the whole change.
pub record Written (k : ExecutionKey) (a : ℕ) (write : ExecutionEntry → ExecutionEntry)
    (q q' : Queue) : Type 0 where
  pub entry : ExecutionEntry
  pub held : entry_at q k ≡ some entry
  pub runs : is_running entry.status ≡ true
  pub current : entry.attempt ≡ a
  pub after : q' ≡ put q k (write entry)

report_ok :
    (o : Option ExecutionEntry) (k : ExecutionKey) (a : ℕ) (write : ExecutionEntry → ExecutionEntry)
    (q q' : Queue)
    → entry_at q k ≡ o
    → report_on o k a write q ≡ (q', ok tt)
    → Written k a write q q'
unfolding report_on
report_ok none k a write q q' found h = absurd (ground arith)
report_ok (some e) k a write q q' found h = record {
  entry = e;
  held = found;
  runs = ground arith;
  current = ground arith;
  after = ground arith;
}

-- `Fail` takes effect only for the attempt that holds the running execution, and then records the
-- reason, drops any result, and changes nothing else.
pub fail-Written :
    (k : ExecutionKey) (a : ℕ) (reason : Text) (q q' : Queue)
    → fail none k a reason q ≡ (q', ok tt)
    → Written k a (gave_up reason) q q'
unfolding fail
fail-Written k a reason q q' h = report_ok (entry_at q k) k a (gave_up reason) q q' refl h

complete_guards :
    (a : ℕ) (r : ExecutionResult) (q : Queue)
    → ((complete none a r q).1 ≢ ok tt × ((complete none a r q).0 ≡ q))
      ⊎ ((terminal r.status ≡ true)
          × (complete none a r q
              ≡ report_on (entry_at q (result_key r)) (result_key r) a (completed r) q))
unfolding complete
complete_guards a r q = elim (Bool-cases (is_empty r.tenant_id || is_empty r.execution_id)) [
  | inl b ↦ inl ((rw b (λ e. cc)), (rw b))
  | inr b ↦ elim (Bool-cases (terminal r.status)) [
    | inl t ↦ inr (t, rw (b, t))
    | inr t ↦ inl ((rw (b, t) (λ e. cc)), rw (b, t))
  ]
]

-- `Complete` takes effect only with a terminal status and for the attempt that holds the running
-- execution, and then writes the result and nothing else.
pub complete-Written :
    (a : ℕ) (r : ExecutionResult) (q q' : Queue)
    → complete none a r q ≡ (q', ok tt)
    → (terminal r.status ≡ true) × Written (result_key r) a (completed r) q q'
complete-Written a r q q' h = elim (complete_guards a r q) [
  | inl (refused, _) ↦ absurd (refused (ground arith))
  | inr (t, reports) ↦ (
    t,
    report_ok (entry_at q (result_key r)) (result_key r) a (completed r) q q' refl
        (sym reports ∙ h),
  )
]

-- An outcome of this attempt, of either kind, that the queue accepted.
pub data Accepts (k : ExecutionKey) (a : ℕ) (q q' : Queue) : Type 0 where
  by_complete :
      (r : ExecutionResult)
      → result_key r ≡ k
      → complete none a r q ≡ (q', ok tt)
      → Accepts k a q q'
  by_fail : (reason : Text) → fail none k a reason q ≡ (q', ok tt) → Accepts k a q q'

-- The entry behind an accepted outcome: terminal, still under the attempt that reported.
Accepts-Over :
    (k : ExecutionKey) (a : ℕ) (q q' : Queue)
    → Accepts k a q q'
    → (e : ExecutionEntry) × (entry_at q' k ≡ some e) × (e.attempt ≡ a) × Over a e
Accepts-Over k a q q' (by_complete r same h) =
    let (t, w) = complete-Written a r q q' h in
    let e = completed r w.entry in
    (
      e,
      rw (w.after, ← same) (lookup-insert_self (result_key r) e q.executions),
      w.current,
      inr (w.current, t),
    )
Accepts-Over k a q q' (by_fail reason h) =
    let w = fail-Written k a reason q q' h in
    let e = gave_up reason w.entry in
    (e, rw w.after (lookup-insert_self k e q.executions), w.current, inr (w.current, refl))

-- A call that did nothing: it returned an error and left the queue alone.
abbrev pub Refused : Queue → Answer → Type 0
Refused q answer = (answer.0 ≡ q) × (answer.1 ≢ ok tt)

Over-Refused :
    (a : ℕ) (e : ExecutionEntry) (k : ExecutionKey) (write : ExecutionEntry → ExecutionEntry)
    (q : Queue)
    → entry_at q k ≡ some e
    → Over a e
    → Refused q (report_on (entry_at q k) k a write q)
Over-Refused a e k write q held over = elim (Over-refused a (entry_at q k) e k write q held over) [
  | inl b ↦ rw b (refl, λ x. cc)
  | inr b ↦ rw b (refl, λ x. cc)
]

-- Once an outcome of an attempt was accepted, and whatever is called after that, as long as the
-- attempt number and the calls stay below 2 ^ 64, every further outcome of that attempt is refused:
-- a stale worker can neither complete nor fail the execution, and changes nothing.
pub outcome_once :
    (k : ExecutionKey) (a : ℕ) (q q' : Queue) (calls : List (Context × Call))
    → Accepts k a q q'
    → a + length calls < 2 ^ 64
    → ((reason : Text) → Refused (run q' calls) (fail none k a reason (run q' calls)))
      × ((r : ExecutionResult)
          → result_key r ≡ k
          → Refused (run q' calls) (complete none a r (run q' calls)))
unfolding fail
outcome_once k a q q' calls accepted small =
    let (e, held, current, over) = Accepts-Over k a q q' accepted in
    let (e', last, follows) = run-Follows q' calls k e held (omega arith) in
    let over' = Over-Follows a (length calls) e e' over follows in
    let p = run q' calls in
    (
      (λ reason. Over-Refused a e' k (gave_up reason) p last over'),
      λ r same. elim (complete_guards a r p) [
        | inl (refused, kept) ↦ (kept, refused)
        | inr (t, reports) ↦ rw (reports, same) (Over-Refused a e' k (completed r) p last over')
      ],
    )
