-- ===== src/Memory/Queue/Lifecycle.antt =====
-- The queue as a state machine: every method keeps the invariant, and so does every history.
use maiden_lane.Base.{
  ℕ, ◌≡◌, refl, sym, ◌∙◌, true, List, Option, none, some, Text, arith, inl, inr, Bool-cases,
  Option-cases, take, drop, ◌==◌, is_empty, ◌||◌, All, All-map,
}
use maiden_lane.Base.Assoc.{lookup, insert, lookup-insert}
use maiden_lane.Ports.Executions.{
  Context, ExecutionKey, execution_key_eq, ExecutionResult, execution_key_beq_iff,
}
use maiden_lane.Memory.Queue.{
  Queue, ExecutionEntry, entry_at, terminal, live, put, claim, complete, fail, leased, advanced,
  report, report_on, completed, gave_up, first_claimable, claimable, is_running, result_key,
}
use maiden_lane.Memory.Queue.Order.{Inv, Dead, present, advanced-Inv}
use maiden_lane.Memory.Queue.Claims.{first_claimable_found}

-- A write under a key that is present keeps the invariant if the cursor passes no live entry by it.
module _ (k : ExecutionKey) (e e' : ExecutionEntry) (q : Queue) (held : entry_at q k ≡ some e) where
  pub present-put :
      (j : ExecutionKey) → present (lookup j (insert k e' q.executions)) ≡ present (entry_at q j)
  present-put j = ground (arith, lookup-insert k j e' q.executions, execution_key_beq_iff k j)

  pub put-known :
      (ks : List ExecutionKey)
      → All (λ j. present (entry_at q j) ≡ true) ks
      → All (λ j. present (lookup j (insert k e' q.executions)) ≡ true) ks
  put-known ks h = All-map _ _ ks (λ j p. present-put j ∙ p) h

  Dead-put :
      (j : ExecutionKey)
      → (live (some e') ≡ true → live (some e) ≡ true)
      → Dead q.executions j
      → Dead (insert k e' q.executions) j
  Dead-put j h d = ground (arith, lookup-insert k j e' q.executions, execution_key_beq_iff k j)

  pub put-Inv : (live (some e') ≡ true → live (some e) ≡ true) → Inv q → Inv (put q k e')
  put-Inv h v = record {
    known = put-known q.execution_order v.known;
    reached = λ j p. v.reached j (sym (present-put j) ∙ p);
    bounded = v.bounded;
    settled = All-map _ _ (take q.claim_cursor q.execution_order) (λ j d. Dead-put j h d) v.settled;
  }

-- A reported outcome is written only to a running entry, under its own attempt.
pub report_cases {ℓ} :
    (P : Queue → Type ℓ) (o : Option ExecutionEntry) (k : ExecutionKey) (a : ℕ)
    (write : ExecutionEntry → ExecutionEntry) (q : Queue)
    → P q
    → ((e : ExecutionEntry)
        → o ≡ some e
        → is_running e.status ≡ true
        → e.attempt ≡ a
        → P (put q k (write e)))
    → P (report_on o k a write q).0
unfolding report_on
report_cases P none k a write q kept written = kept
report_cases P (some e) k a write q kept written = elim (Bool-cases (is_running e.status)) [
  | inl runs ↦ elim (Bool-cases (e.attempt == a)) [
    | inl same ↦ ground (arith, written e refl runs (ground arith), kept)
    | inr stale ↦ ground (arith, kept)
  ]
  | inr idle ↦ ground (arith, kept)
]

report-Inv :
    (k : ExecutionKey) (a : ℕ) (write : ExecutionEntry → ExecutionEntry) (q : Queue)
    → ((e : ExecutionEntry) → terminal (write e).status ≡ true)
    → Inv q
    → Inv (report k a write q).0
report-Inv k a write q t v =
    report_cases Inv (entry_at q k) k a write q v
      λ e held _ _. put-Inv k e (write e) q held (λ l. ground (arith, t e)) v

pub complete-Inv :
    (c : Context) (a : ℕ) (r : ExecutionResult) (q : Queue) → Inv q → Inv (complete c a r q).0
unfolding complete
complete-Inv (some x) a r q v = v
complete-Inv none a r q v = elim (Bool-cases (terminal r.status)) [
  | inl t ↦
      let kept = report-Inv (result_key r) a (completed r) q (λ e. t) v in
      elim (Bool-cases (is_empty r.tenant_id || is_empty r.execution_id)) [
        | inl b ↦ rw b v
        | inr b ↦ rw (b, t) kept
      ]
  | inr t ↦ elim (Bool-cases (is_empty r.tenant_id || is_empty r.execution_id)) [
    | inl b ↦ rw b v
    | inr b ↦ rw (b, t) v
  ]
]

pub fail-Inv :
    (c : Context) (k : ExecutionKey) (a : ℕ) (s : Text) (q : Queue) → Inv q → Inv (fail c k a s q).0
unfolding fail
fail-Inv (some x) k a s q v = v
fail-Inv none k a s q v = report-Inv k a (gave_up s) q (λ e. refl) v

-- `Claim` moves the cursor, and may lease one entry that it found claimable.
pub claim_cases {ℓ} :
    (P : Queue → Type ℓ) (now lease : ℕ) (q : Queue)
    → P (advanced q)
    → ((k : ExecutionKey) (e : ExecutionEntry)
        → entry_at q k ≡ some e
        → claimable now e ≡ true
        → P (put (advanced q) k (leased now lease e)))
    → P (claim none now lease q).0
unfolding claim
claim_cases P now lease q idle taken =
    let ks = drop (advanced q).claim_cursor q.execution_order in
    elim (Option-cases (first_claimable now q.executions ks)) [
      | inl e ↦ rw e idle
      | inr ((k, e), found) ↦
          let (held, free) = first_claimable_found now q.executions ks k e found in
          rw found (taken k e held free)
    ]

pub claim-Inv : (c : Context) (now lease : ℕ) (q : Queue) → Inv q → Inv (claim c now lease q).0
claim-Inv (some x) now lease q v = unfold claim in v
claim-Inv none now lease q v = claim_cases Inv now lease q (advanced-Inv q v) λ k e held free.
    put-Inv k e (leased now lease e) (advanced q) held (λ _. ground arith) (advanced-Inv q v)
