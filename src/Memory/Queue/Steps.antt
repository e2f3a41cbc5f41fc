-- ===== src/Memory/Queue/Steps.antt =====
-- What one call does to one stored execution.
use maiden_lane.Base.{
  ℕ, ◌+◌, ◌^◌, ◌≤◌, ◌<◌, ◌≡◌, refl, subst, ◌⊎◌, inl, inr, true, false, not, ◌||◌, Text, Option,
  none, some, arith, Bool-cases, ◌=?◌, is_empty,
}
use maiden_lane.Base.Assoc.{lookup-insert}
use maiden_lane.Ports.Executions.{
  Context, ExecutionKey, execution_key_eq, execution_key_beq_iff, ExecutionRequest, ExecutionResult,
}
use maiden_lane.Memory.Queue.{
  Queue, ExecutionEntry, entry_at, terminal, has_result, is_failed, put, advanced, leased,
  claimable, report_on, enqueue, enqueue_on, complete, completed, result_key, fail, gave_up,
  reattempt, reattempt_on, requeued, request_key, pending_entry, usable_input, claim,
}
use maiden_lane.Memory.Queue.Lifecycle.{claim_cases, report_cases}
use maiden_lane.Memory.Queue.Histories.{Call, enqueues, claims, completes, fails, reattempts, step}

-- How one stored execution may change in a step: its request never does, its attempt grows by at
-- most one, a result that was reported stays as it is, and a terminal entry changes only by the
-- start of a later attempt.
pub record Evolves (e e' : ExecutionEntry) : Type 0 where
  pub same_request : e'.request ≡ e.request
  pub grows : e.attempt ≤ e'.attempt
  pub by_one : e'.attempt ≤ e.attempt + 1
  pub closed : terminal e.status ≡ true → (e' ≡ e) ⊎ (e.attempt < e'.attempt)
  pub decided : terminal e.status ≡ true → has_result e.result ≡ true → e' ≡ e

pub Evolves-refl : (e : ExecutionEntry) → Evolves e e
Evolves-refl e = record {
  same_request = refl;
  grows = omega arith;
  by_one = omega arith;
  closed = λ t. inl refl;
  decided = λ t r. refl;
}

abbrev pub Kept : ExecutionKey → ExecutionEntry → Queue → Type 0
Kept k e q = (e' : ExecutionEntry) × (entry_at q k ≡ some e') × Evolves e e'

module _ (k : ExecutionKey) (e : ExecutionEntry) (q : Queue) (held : entry_at q k ≡ some e) where
  unchanged : Kept k e q
  unchanged = (e, held, Evolves-refl e)

  -- A write under some key keeps the entry, if it evolves the entry that it replaces.
  write_keeps :
      (j : ExecutionKey) (d d' : ExecutionEntry)
      → entry_at q j ≡ some d
      → (d ≡ e → Evolves e d')
      → Kept k e (put q j d')
  write_keeps j d d' found w = elim (Bool-cases (j =? k)) [
    | inl same ↦ (
      d',
      ground (arith, lookup-insert j k d' q.executions),
      w (ground (arith, (execution_key_beq_iff j k).0 same, found)),
    )
    | inr differ ↦ (e, ground (arith, lookup-insert j k d' q.executions), Evolves-refl e)
  ]

module _ (e : ExecutionEntry) where
  leased-Evolves :
      (now lease : ℕ)
      → e.attempt + 1 < 2 ^ 64
      → claimable now e ≡ true
      → Evolves e (leased now lease e)
  leased-Evolves now lease small free = record {
    same_request = refl;
    grows = omega arith;
    by_one = omega arith;
    closed = λ t. absurd (ground arith);
    decided = λ t r. absurd (ground arith);
  }

  -- A running entry may take any outcome.
  written-Evolves :
      (e' : ExecutionEntry)
      → e'.request ≡ e.request
      → e'.attempt ≡ e.attempt
      → terminal e.status ≡ false
      → Evolves e e'
  written-Evolves e' same attempt open_entry = record {
    same_request = same;
    grows = omega arith;
    by_one = omega arith;
    closed = λ t. absurd (cc);
    decided = λ t r. absurd (cc);
  }

  requeued-Evolves : e.attempt + 1 < 2 ^ 64 → has_result e.result ≡ false → Evolves e (requeued e)
  requeued-Evolves small bare = record {
    same_request = refl;
    grows = omega arith;
    by_one = omega arith;
    closed = λ t. inr (omega arith);
    decided = λ t r. absurd (cc);
  }

module _ (k : ExecutionKey) (e : ExecutionEntry) (q : Queue) (held : entry_at q k ≡ some e) where
  report-Kept :
      (j : ExecutionKey) (a : ℕ) (write : ExecutionEntry → ExecutionEntry)
      → ((d : ExecutionEntry) → ((write d).request ≡ d.request) × ((write d).attempt ≡ d.attempt))
      → Kept k e (report_on (entry_at q j) j a write q).0
  report-Kept j a write keeps =
      report_cases (Kept k e) (entry_at q j) j a write q (unchanged k e q held)
        λ d found runs attempt. write_keeps k e q held j d (write d) found λ same.
          written-Evolves e (write d) (ground (arith, keeps d)) (ground (arith, keeps d))
            (ground arith)

  complete-Kept : (c : Context) (a : ℕ) (r : ExecutionResult) → Kept k e (complete c a r q).0
  unfolding complete
  complete-Kept (some x) a r = unchanged k e q held
  complete-Kept none a r =
      let same = unchanged k e q held in
      let told = report-Kept (result_key r) a (completed r) (λ d. (refl, refl)) in
      elim (Bool-cases (is_empty r.tenant_id || is_empty r.execution_id)) [
        | inl b ↦ rw b same
        | inr b ↦ elim (Bool-cases (terminal r.status)) [
          | inl t ↦ rw (b, t) told
          | inr t ↦ rw (b, t) same
        ]
      ]

  fail-Kept : (c : Context) (j : ExecutionKey) (a : ℕ) (s : Text) → Kept k e (fail c j a s q).0
  unfolding fail
  fail-Kept (some x) j a s = unchanged k e q held
  fail-Kept none j a s = report-Kept j a (gave_up s) (λ d. (refl, refl))

  enqueue_on-Kept :
      (o : Option ExecutionEntry) (r : ExecutionRequest)
      → entry_at q (request_key r) ≡ o
      → Kept k e (enqueue_on o r q).0
  unfolding enqueue_on
  enqueue_on-Kept (some d) r found = unchanged k e q held
  enqueue_on-Kept none r absent = (
    e,
    ground (
      arith,
      lookup-insert (request_key r) k (pending_entry r) q.executions,
      execution_key_beq_iff (request_key r) k,
      held,
    ),
    Evolves-refl e,
  )

  enqueue-Kept : (c : Context) (r : ExecutionRequest) → Kept k e (enqueue c r q).0
  unfolding enqueue
  enqueue-Kept (some x) r = unchanged k e q held
  enqueue-Kept none r =
      let same = unchanged k e q held in
      elim (Bool-cases (is_empty r.tenant_id || is_empty r.execution_id)) [
        | inl b ↦ rw b same
        | inr b ↦ elim (Bool-cases (usable_input r.input)) [
          | inl u ↦ rw (b, u) (enqueue_on-Kept (entry_at q (request_key r)) r refl)
          | inr u ↦ rw (b, u) same
        ]
      ]

  module _ (small : e.attempt + 1 < 2 ^ 64) where
    claim-Kept : (c : Context) (now lease : ℕ) → Kept k e (claim c now lease q).0
    claim-Kept (some x) now lease = unfold claim in unchanged k e q held
    claim-Kept none now lease =
        claim_cases (Kept k e) now lease q (unchanged k e (advanced q) held) λ j d found free.
          write_keeps k e (advanced q) held j d (leased now lease d) found λ same.
            subst (λ x. Evolves x (leased now lease d)) same
              (leased-Evolves d now lease (ground arith) free)

    reattempt_on-Kept :
        (o : Option ExecutionEntry) (j : ExecutionKey)
        → entry_at q j ≡ o
        → Kept k e (reattempt_on o j q).0
    unfolding reattempt_on
    reattempt_on-Kept none j found = unchanged k e q held
    reattempt_on-Kept (some d) j found =
        elim (Bool-cases (not (is_failed d.status) || has_result d.result)) [
          | inl b ↦ rw b (unchanged k e q held)
          | inr b ↦ rw b (
              write_keeps k e q held j d (requeued d) found λ same.
                subst (λ x. Evolves x (requeued d)) same
                  (requeued-Evolves d (ground arith) (ground arith)))
        ]

    pub step-Kept : (c : Context) (call : Call) → Kept k e (step q c call)
    unfolding step reattempt
    step-Kept c (enqueues r) = enqueue-Kept c r
    step-Kept c (claims now lease) = claim-Kept c now lease
    step-Kept c (completes a r) = complete-Kept c a r
    step-Kept c (fails j a reason) = fail-Kept c j a reason
    step-Kept (some x) (reattempts j) = unchanged k e q held
    step-Kept none (reattempts j) = reattempt_on-Kept (entry_at q j) j refl
