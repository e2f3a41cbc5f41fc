-- ===== src/Memory/Queue/Requeue.antt =====
-- `Enqueue` and `Reattempt` keep the invariant of the queue.
use maiden_lane.Base.{
  ℕ, zero, suc, ◌+◌, ◌-◌, ◌≤◌, ◌≡◌, refl, sym, ◌∙◌, true, not, List, [], ◌∷◌, ◌++◌, Option, none,
  some, arith, inl, inr, Bool-cases, take, ◌=?◌, All, All-append, length, length-append, All-map,
  ◌||◌, is_empty, =?-refl,
}
use maiden_lane.Base.Assoc.{lookup, insert, lookup-insert}
use maiden_lane.Ports.Executions.{
  Context, ExecutionKey, execution_key_eq, ExecutionRequest, execution_key_beq_iff,
}
use maiden_lane.Memory.Queue.{
  Queue, Entries, ExecutionEntry, entry_at, enqueue, enqueue_on, reattempt, reattempt_on, rewind,
  requeued, request_key, pending_entry, usable_input, is_failed, has_result,
}
use maiden_lane.Memory.Queue.Order.{Inv, Dead, listed, present}
use maiden_lane.Memory.Queue.Lifecycle.{present-put, put-known}

listed-append_left :
    (k : ExecutionKey) (xs ys : List ExecutionKey) → listed k xs ≡ true → listed k (xs ++ ys) ≡ true
unfolding listed
listed-append_left k [] ys h = ground arith
listed-append_left k (x ∷ xs) ys h = ground (arith, listed-append_left k xs ys)

listed_last : (k : ExecutionKey) (xs : List ExecutionKey) → listed k (xs ++ k ∷ []) ≡ true
unfolding listed
listed_last k [] = rw (=?-refl k)
listed_last k (x ∷ xs) = ground (arith, listed_last k xs)

-- A key that is absent occurs nowhere in the order, so a new entry disturbs no earlier key.
module _ (k : ExecutionKey) (e : ExecutionEntry) (m : Entries) (absent : lookup k m ≡ none) where
  still_known :
      (ks : List ExecutionKey)
      → All (λ j. present (lookup j m) ≡ true) ks
      → All (λ j. present (lookup j (insert k e m)) ≡ true) ks
  still_known ks h = All-map _ _ ks (λ j p. ground (arith, lookup-insert k j e m, p)) h

  still_dead :
      (c : ℕ) (ks : List ExecutionKey)
      → c ≤ length ks
      → All (λ j. present (lookup j m) ≡ true) ks
      → All (Dead m) (take c ks)
      → All (Dead (insert k e m)) (take c (ks ++ k ∷ []))
  still_dead zero ks l p d = tt
  still_dead (suc c) [] l p d = absurd (omega arith)
  still_dead (suc c) (j ∷ ks) l p d = (
    ground (arith, lookup-insert k j e m, execution_key_beq_iff k j, p.0, d.0),
    still_dead c ks (omega arith) p.1 d.1,
  )

enqueue_on-Inv :
    (o : Option ExecutionEntry) (r : ExecutionRequest) (q : Queue)
    → entry_at q (request_key r) ≡ o
    → Inv q
    → Inv (enqueue_on o r q).0
unfolding enqueue_on
enqueue_on-Inv (some e) r q held v = v
enqueue_on-Inv none r q absent v =
    let k = request_key r in
    let e = pending_entry r in
    record {
      known =
          All-append _ q.execution_order (k ∷ [])
            (still_known k e q.executions absent q.execution_order v.known)
            (ground (arith, lookup-insert k k e q.executions, =?-refl k), tt);
      reached = λ j p. elim (Bool-cases (k =? j)) [
        | inl same ↦ rw (← (execution_key_beq_iff k j).0 same) (listed_last k q.execution_order)
        | inr differ ↦
            listed-append_left j q.execution_order (k ∷ [])
              (v.reached j (ground (arith, lookup-insert k j e q.executions, p, differ)))
      ];
      bounded = omega (arith, v.bounded, length-append q.execution_order (k ∷ []));
      settled =
          still_dead k e q.executions absent q.claim_cursor q.execution_order v.bounded v.known
            v.settled;
    }

pub enqueue-Inv : (c : Context) (r : ExecutionRequest) (q : Queue) → Inv q → Inv (enqueue c r q).0
unfolding enqueue
enqueue-Inv (some x) r q v = v
enqueue-Inv none r q v = elim (Bool-cases (is_empty r.tenant_id || is_empty r.execution_id)) [
  | inl b ↦ rw b v
  | inr b ↦ elim (Bool-cases (usable_input r.input)) [
    | inl u ↦ rw (b, u) (enqueue_on-Inv (entry_at q (request_key r)) r q refl v)
    | inr u ↦ rw (b, u) v
  ]
]

-- After a rewind the cursor lies no later, and no place before it holds the key.
rewind-le : (k : ExecutionKey) (i c : ℕ) (ks : List ExecutionKey) → rewind k i c ks ≤ c
unfolding rewind
rewind-le k i c [] = omega arith
rewind-le k i c (j ∷ js) = ground (arith, rewind-le k (i + 1) c js)

module _ (k : ExecutionKey) (e : ExecutionEntry) (m : Entries) where
  dead_before :
      (i c n l : ℕ) (ks : List ExecutionKey)
      → n ≡ c - i
      → l ≡ rewind k i c ks - i
      → All (Dead m) (take n ks)
      → All (Dead (insert k e m)) (take l ks)
  unfolding rewind
  dead_before i c n zero ks en el d = tt
  dead_before i c n (suc l) [] en el d = tt
  dead_before i c zero (suc l) (j ∷ js) en el d = absurd (omega (arith, rewind-le k i c (j ∷ js)))
  dead_before i c (suc n) (suc l) (j ∷ js) en el d = elim (Bool-cases (j =? k)) [
    | inl same ↦ absurd (ground arith)
    | inr differ ↦ (
      ground
          (arith, lookup-insert k j e m, execution_key_beq_iff j k, execution_key_beq_iff k j, d.0),
      dead_before (i + 1) c n l js (omega arith) (ground arith) d.1,
    )
  ]

reattempt_on-Inv :
    (o : Option ExecutionEntry) (k : ExecutionKey) (q : Queue)
    → entry_at q k ≡ o
    → Inv q
    → Inv (reattempt_on o k q).0
unfolding reattempt_on
reattempt_on-Inv none k q held v = v
reattempt_on-Inv (some e) k q held v =
    elim (Bool-cases (not (is_failed e.status) || has_result e.result)) [
      | inl b ↦ rw b v
      | inr b ↦
          let e' = requeued e in
          let c = rewind k 0 q.claim_cursor q.execution_order in
          let lower = rewind-le k 0 q.claim_cursor q.execution_order in
          let rewound : Inv (record q { executions = insert k e' q.executions; claim_cursor = c }) =
            record {
              known = put-known k e e' q held q.execution_order v.known;
              reached = λ j p. v.reached j (sym (present-put k e e' q held j) ∙ p);
              bounded = omega (arith, lower, v.bounded);
              settled =
                  dead_before k e' q.executions 0 q.claim_cursor q.claim_cursor c q.execution_order
                    (omega arith) (omega arith) v.settled;
            } in
          rw b rewound
    ]

pub reattempt-Inv : (c : Context) (k : ExecutionKey) (q : Queue) → Inv q → Inv (reattempt c k q).0
unfolding reattempt
reattempt-Inv (some x) k q v = v
reattempt-Inv none k q v = reattempt_on-Inv (entry_at q k) k q refl v
