-- ===== src/Memory/Queue/Generations.antt =====
-- What a history does to one execution: its attempts, its request and its outcome.
use maiden_lane.Base.{
  ℕ, suc, ◌+◌, ◌^◌, ◌≤◌, ◌<◌, ◌≡◌, refl, ◌∙◌, ◌⊎◌, inl, inr, true, List, [], ◌∷◌, Option, some,
  arith, length, err,
}
use maiden_lane.Ports.Executions.{
  Context, ExecutionKey, execution_key_eq, not_queued, attempt_superseded,
}
use maiden_lane.Memory.Queue.{Queue, ExecutionEntry, entry_at, terminal, has_result, report_on}
use maiden_lane.Memory.Queue.Histories.{Call, step, run}
use maiden_lane.Memory.Queue.Steps.{Evolves, step-Kept}

-- How an execution may change over a history of some length.
pub record Follows (n : ℕ) (e e' : ExecutionEntry) : Type 0 where
  pub same_request : e'.request ≡ e.request
  pub grows : e.attempt ≤ e'.attempt
  pub at_most : e'.attempt ≤ e.attempt + n
  pub closed : terminal e.status ≡ true → (e' ≡ e) ⊎ (e.attempt < e'.attempt)
  pub decided : terminal e.status ≡ true → has_result e.result ≡ true → e' ≡ e

Follows-zero : (e : ExecutionEntry) → Follows 0 e e
Follows-zero e = record {
  same_request = refl;
  grows = omega arith;
  at_most = omega arith;
  closed = λ t. inl refl;
  decided = λ t r. refl;
}

Follows-suc :
    (n : ℕ) (e e' e'' : ExecutionEntry) → Evolves e e' → Follows n e' e'' → Follows (suc n) e e''
Follows-suc n e e' e'' one rest = record {
  same_request = rest.same_request ∙ one.same_request;
  grows = omega (arith, one.grows, rest.grows);
  at_most = omega (arith, one.by_one, rest.at_most);
  closed = λ t. elim (one.closed t) [
    | inl same ↦ elim (rest.closed (ground arith)) [
      | inl again ↦ inl (again ∙ same)
      | inr later ↦ inr (ground arith)
    ]
    | inr later ↦ inr (omega (arith, rest.grows))
  ];
  decided = λ t r.
      rest.decided (ground (arith, one.decided t r)) (ground (arith, one.decided t r))
      ∙ one.decided t r;
}

-- Over any history, as long as its attempt number does not wrap, a stored execution stays stored
-- with its request, its attempt never falls, and a reported result is never replaced or lost.
pub run-Follows :
    (q : Queue) (calls : List (Context × Call)) (k : ExecutionKey) (e : ExecutionEntry)
    → entry_at q k ≡ some e
    → e.attempt + length calls < 2 ^ 64
    → (e' : ExecutionEntry) × (entry_at (run q calls) k ≡ some e') × Follows (length calls) e e'
unfolding run
run-Follows q [] k e held small = (e, held, Follows-zero e)
run-Follows q ((c, call) ∷ calls) k e held small =
    let (d, found, one) = step-Kept k e q held (omega arith) c call in
    let (e', last, rest) =
      run-Follows (step q c call) calls k d found (omega (arith, one.by_one)) in
    (e', last, Follows-suc (length calls) e d e' one rest)

-- An attempt is over for an execution that went on to a later one, or is terminal under it.
abbrev pub Over : ℕ → ExecutionEntry → Type 0
Over a e = (a < e.attempt) ⊎ ((e.attempt ≡ a) × (terminal e.status ≡ true))

pub Over-Follows : (a n : ℕ) (e e' : ExecutionEntry) → Over a e → Follows n e e' → Over a e'
Over-Follows a n e e' (inl later) f = inl (omega (arith, f.grows))
Over-Follows a n e e' (inr (same, t)) f = elim (f.closed t) [
  | inl kept ↦ ground arith
  | inr later ↦ ground arith
]

pub Over-refused :
    (a : ℕ) (o : Option ExecutionEntry) (e : ExecutionEntry) (k : ExecutionKey)
    (write : ExecutionEntry → ExecutionEntry) (q : Queue)
    → o ≡ some e
    → Over a e
    → (report_on o k a write q ≡ (q, err not_queued))
      ⊎ (report_on o k a write q ≡ (q, err attempt_superseded))
unfolding report_on
Over-refused a o e k write q held (inl later) = ground arith
Over-refused a o e k write q held (inr (same, t)) = ground arith
