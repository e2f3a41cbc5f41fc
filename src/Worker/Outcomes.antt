-- ===== src/Worker/Outcomes.antt =====
-- The outcome that the worker reports is what the queue recorded.
use maiden_lane.Base.{
  true, Option, none, some, Text, [], ◌≡◌, refl, sym, ap, subst, ◌∙◌, arith, false, Bool-cases, inl,
  inr, Result, ok, err, ◌=?◌, text_eq, eq_iff, ◌&&◌,
}
use maiden_lane.Ports.Executions.{
  Context, StoreError, ExecutionAttempt, ExecutionRequest, ExecutionResult, failed as failed_status,
}
use maiden_lane.App.{SpineResult, project, projected, contradicts}
use maiden_lane.Memory.Queue.{Queue, completed, gave_up, result_key, request_key, complete, fail}
use maiden_lane.Memory.Queue.Outcomes.{Written, Answer}
use maiden_lane.Memory.Queue.Reports.{Reported, complete-Reported, fail-Reported}
use maiden_lane.Memory.Queue.Effects.{
  Storable, HeldBy, complete-Recorded, Recorded, completed-Recorded, gave_up-Recorded,
}
use maiden_lane.Worker.{
  answered, abandoned, failed, Inability, Returned, panicked, returned, Binding, context_ended,
  infrastructure_unavailable, invalid_input, internal, Effect, Environment, fail_with,
  failure_outcome, completion_outcome, give_up, verify_identity, compare_binding, record_inability,
  on_projection, on_run, on_identity, on_plan, attempt,
}

-- The run of a stored plan whose binding has the identities that the request claims.
pub record Verified {P : Type 0} (env : Environment P) (r : ExecutionRequest) (s : SpineResult)
    : Type 0 where
  pub plan : P
  pub stored_plan : env.plan ≡ returned (ok (some plan))
  pub binding : Binding
  pub bound : env.bind_run plan r.input ≡ returned (some binding)
  pub same_execution : binding.execution_id ≡ r.execution_id
  pub same_run : binding.run_id ≡ r.run_id
  pub ran : env.run plan r ≡ returned (ok s)

-- The result of a run, stored under the request's own execution: a result that established another
-- run or execution is not.
pub record Answered (leased : ExecutionAttempt) (s : SpineResult) (q q' : Queue) : Type 0 where
  pub own_run : (t : Text) → s.semantic_run_id ≡ some t → t ≡ leased.request.run_id
  pub own_execution : (t : Text) → s.execution_id ≡ some t → t ≡ leased.request.execution_id
  pub result : ExecutionResult
  pub own_tenant : result.tenant_id ≡ leased.request.tenant_id
  pub own_result : result.execution_id ≡ leased.request.execution_id
  pub projection : project leased.request s ≡ some result
  pub recorded :
      Recorded (request_key leased.request) leased.attempt_id result.status [] (some result) q q'

-- `answered` where the result of the verified run was stored for the attempt, `failed` where the
-- failure and its reason were, and `abandoned` where nothing was.
abbrev pub Accounts : {P : Type 0} → Environment P → ExecutionAttempt → Queue → Effect → Type 0
Accounts env leased q (q', answered) =
    (s : SpineResult) × Verified env leased.request s × Answered leased s q q'
Accounts env leased q (q', failed reason) =
    Recorded (request_key leased.request) leased.attempt_id failed_status reason none q q'
Accounts env leased q (q', abandoned) = q' ≡ q

not_contradicted :
    (o : Option Text) (claimed : Text)
    → contradicts o claimed ≡ false
    → (t : Text) → o ≡ some t
    → t ≡ claimed
not_contradicted none claimed h t e = absurd (ground (arith, e))
not_contradicted (some u) claimed h t e = elim (Bool-cases (u =? claimed)) [
  | inl same ↦ let here : u ≡ t = ground (arith, e) in sym here ∙ (eq_iff u claimed).0 same
  | inr other ↦ absurd (ground (arith, rw other at h))
]

-- A projection keeps to the request's identities.
project-some :
    (r : ExecutionRequest) (s : SpineResult) (x : ExecutionResult)
    → project r s ≡ some x
    → (contradicts s.semantic_run_id r.run_id ≡ false)
      × (contradicts s.execution_id r.execution_id ≡ false)
      × (projected r s ≡ x)
unfolding project
project-some r s x h = elim (Bool-cases (contradicts s.semantic_run_id r.run_id)) [
  | inl b ↦ absurd (ground (arith, rw b at h))
  | inr b ↦ elim (Bool-cases (contradicts s.execution_id r.execution_id)) [
    | inl c ↦ absurd (ground (arith, rw (b, c) at h))
    | inr c ↦ (b, c, ground (arith, rw (b, c) at h))
  ]
]

completed_answers : (a : Answer) → a.1 ≡ ok tt → (completion_outcome a).1 ≡ answered
completed_answers (after, ok u) h = refl
completed_answers (after, err e) h = absurd (ground (arith, h))

module _ {P : Type 0} (env : Environment P) (leased : ExecutionAttempt) (q : Queue) where
  failure-Accounts :
      (reason : Text) (a : Answer)
      → Reported (Written (request_key leased.request) leased.attempt_id (gave_up reason) q) q a
      → Accounts env leased q (failure_outcome reason a)
  failure-Accounts reason (after, ok u) h =
      gave_up-Recorded (request_key leased.request) leased.attempt_id reason q after h
  failure-Accounts reason (after, err e) h = h

  fail-Accounts :
      (b c : Context) (reason : Text) → Accounts env leased q (fail_with b c leased reason q)
  unfolding fail_with
  fail-Accounts (some e) c reason = refl
  fail-Accounts none c reason =
      failure-Accounts reason (fail c (request_key leased.request) leased.attempt_id reason q)
        (fail-Reported c (request_key leased.request) leased.attempt_id reason q)

  give_up-Accounts : (reason : Text) → Accounts env leased q (give_up env leased reason q)
  give_up-Accounts reason = fail-Accounts env.before_fail env.on_fail reason

  completion-Accounts :
      (s : SpineResult) (r : ExecutionResult) (a : Answer)
      → Verified env leased.request s
      → project leased.request s ≡ some r
      → Reported (Written (result_key r) leased.attempt_id (completed r) q) q a
      → Accounts env leased q (completion_outcome a)
  completion-Accounts s r (after, err e) v p h = h
  completion-Accounts s r (after, ok u) v p h =
      let (own_run, own_execution, made) = project-some leased.request s r p in
      (
        s,
        v,
        record {
          own_run = not_contradicted s.semantic_run_id leased.request.run_id own_run;
          own_execution = not_contradicted s.execution_id leased.request.execution_id own_execution;
          result = r;
          own_tenant = ap (λ x. x.tenant_id) (sym made);
          own_result = ap (λ x. x.execution_id) (sym made);
          projection = p;
          recorded =
              subst (λ k. Recorded k leased.attempt_id r.status [] (some r) q after)
                (ap result_key (sym made))
                (completed-Recorded (result_key r) leased.attempt_id r q after h);
        },
      )

  projection-Accounts :
      (s : SpineResult) (o : Option ExecutionResult)
      → Verified env leased.request s
      → project leased.request s ≡ o
      → Accounts env leased q (on_projection env leased o q)
  projection-Accounts s none v p = give_up-Accounts _
  projection-Accounts s (some r) v p =
      completion-Accounts s r (complete env.on_complete leased.attempt_id r q) v p
        (complete-Reported env.on_complete leased.attempt_id r q)

  inability-Accounts : (i : Inability) → Accounts env leased q (record_inability env leased i q)
  unfolding record_inability
  inability-Accounts context_ended = refl
  inability-Accounts infrastructure_unavailable = refl
  inability-Accounts invalid_input = give_up-Accounts _
  inability-Accounts internal = give_up-Accounts _

  run-Accounts :
      (a : Returned (Result Inability SpineResult))
      → ((s : SpineResult) → a ≡ returned (ok s) → Verified env leased.request s)
      → Accounts env leased q (on_run env leased a q)
  run-Accounts panicked v = give_up-Accounts _
  run-Accounts (returned (err i)) v = inability-Accounts i
  run-Accounts (returned (ok s)) v =
      projection-Accounts s (project leased.request s) (v s refl) refl

  identity-Accounts :
      (plan : P) (o : Returned (Option Binding))
      → env.plan ≡ returned (ok (some plan))
      → env.bind_run plan leased.request.input ≡ o
      → Accounts env leased q (on_identity env leased plan (compare_binding leased.request o) q)
  identity-Accounts plan panicked found bound = give_up-Accounts _
  identity-Accounts plan (returned none) found bound = give_up-Accounts _
  identity-Accounts plan (returned (some b)) found bound =
      let r = leased.request in
      elim (Bool-cases ((b.execution_id =? r.execution_id) && (b.run_id =? r.run_id))) [
        | inr other ↦ rw other (give_up-Accounts _)
        | inl same ↦ rw same (
            run-Accounts (env.run plan r) (λ s ran. record {
              plan = plan;
              stored_plan = found;
              binding = b;
              bound = bound;
              same_execution = (eq_iff b.execution_id r.execution_id).0 (ground (arith, same));
              same_run = (eq_iff b.run_id r.run_id).0 (ground (arith, same));
              ran = ran;
            }))
      ]

  plan-Accounts :
      (o : Returned (Result StoreError (Option P)))
      → env.plan ≡ o
      → Accounts env leased q (on_plan env leased o q)
  unfolding verify_identity
  plan-Accounts panicked found = give_up-Accounts _
  plan-Accounts (returned (err e)) found = refl
  plan-Accounts (returned (ok none)) found = give_up-Accounts _
  plan-Accounts (returned (ok (some plan))) found =
      identity-Accounts plan (env.bind_run plan leased.request.input) found refl

  -- Where nothing stands in the way, the result is stored.
  attempt-answers :
      (s : SpineResult) (x : ExecutionResult)
      → Verified env leased.request s
      → project leased.request s ≡ some x
      → env.on_complete ≡ none
      → Storable x
      → HeldBy q (request_key leased.request) leased.attempt_id
      → (attempt env leased q).1 ≡ answered
  unfolding attempt verify_identity
  attempt-answers s x v p live storable held =
      let r = leased.request in
      let made = (project-some r s x p).2 in
      let held_x = subst (λ k. HeldBy q k leased.attempt_id) (ap result_key made) held in
      let same : ((v.binding.execution_id =? r.execution_id) && (v.binding.run_id =? r.run_id))
          ≡ true =
        ground (
          arith,
          (eq_iff v.binding.execution_id r.execution_id).1 v.same_execution,
          (eq_iff v.binding.run_id r.run_id).1 v.same_run,
        ) in
      rw (v.stored_plan, v.bound, same, v.ran, p, live)
        (completed_answers (complete none leased.attempt_id x q)
          ((complete-Recorded leased.attempt_id x q).0.1 (storable, held_x)))

  -- Whatever the plan store, the binding and the runner answer, panics included, and whenever a
  -- context ends. The worker reports `answered` only where the stored plan bound to the identities
  -- of the request and its run returned a result that established no others, and the request's own
  -- execution, running under this attempt, now has the projection of that result as its result,
  -- with its status and nothing else changed. It reports `failed` only where that execution is now
  -- failed with that reason and nothing else changed, and `abandoned` only where the queue is
  -- unchanged. And it reports `answered` where such a result has an execution to be stored under,
  -- running under this attempt, and the context of `Complete` is live.
  pub attempt-Accounts :
      Accounts env leased q (attempt env leased q)
      × ((s : SpineResult) (x : ExecutionResult)
          → Verified env leased.request s
          → project leased.request s ≡ some x
          → env.on_complete ≡ none
          → Storable x
          → HeldBy q (request_key leased.request) leased.attempt_id
          → (attempt env leased q).1 ≡ answered)
  unfolding attempt
  attempt-Accounts = (plan-Accounts env.plan refl, attempt-answers)
