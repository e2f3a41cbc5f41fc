-- ===== src/Memory/Queue/Order.antt =====
-- The claim cursor hides nothing: the invariant of the queue, and what `Claim` finds.
use maiden_lane.Base.{
  ℕ, suc, ◌+◌, ◌≡◌, refl, sym, ◌∙◌, ap, Bool, true, false, List, [], ◌∷◌, ◌++◌, Option, none, some,
  All, All-append, length, length-drop, ◌≤◌, take, drop, take-append-drop, take_add, arith, inl,
  inr, Bool-cases, ◌=?◌, if◌then◌else◌,
}
use maiden_lane.Base.Assoc.{lookup}
use maiden_lane.Ports.Executions.{ExecutionKey, execution_key_eq}
use maiden_lane.Memory.Queue.{
  Queue, Entries, ExecutionEntry, entry_at, live, advance, advanced, first_claimable,
}

abbrev pub present : Option ExecutionEntry → Bool
present none = false
present (some e) = true

unfoldable pub listed : ExecutionKey → List ExecutionKey → Bool
listed k [] = false
listed k (j ∷ js) = if j =? k then true else listed k js

abbrev pub Dead : Entries → ExecutionKey → Type 0
Dead m k = live (lookup k m) ≡ false

-- Every key of the order has an entry, every entry has a place in the order, and what lies before
-- the cursor, which is within the order, is terminal.
pub record Inv (q : Queue) : Type 0 where
  pub known : All (λ k. present (entry_at q k) ≡ true) q.execution_order
  pub reached :
      (k : ExecutionKey) → present (entry_at q k) ≡ true → listed k q.execution_order ≡ true
  pub bounded : q.claim_cursor ≤ length q.execution_order
  pub settled : All (Dead q.executions) (take q.claim_cursor q.execution_order)

-- The cursor moves by a number of places that are all dead.
advance_moves :
    (m : Entries) (ks : List ExecutionKey) (c : ℕ)
    → (n : ℕ) × (advance m ks c ≡ c + n) × (n ≤ length ks) × All (Dead m) (take n ks)
unfolding advance
advance_moves m [] c = (0, omega arith, omega arith, tt)
advance_moves m (k ∷ ks) c = elim (Bool-cases (live (lookup k m))) [
  | inl e ↦ (0, rw e (omega arith), omega arith, tt)
  | inr e ↦
      let (n, moved, short, dead) = advance_moves m ks (c + 1) in
      (suc n, rw e (omega (arith, moved)), omega (arith, short), (e, dead))
]

pub first_claimable_skip :
    (now : ℕ) (m : Entries) (xs ys : List ExecutionKey)
    → All (Dead m) xs
    → first_claimable now m (xs ++ ys) ≡ first_claimable now m ys
unfolding first_claimable
first_claimable_skip now m [] ys h = refl
first_claimable_skip now m (x ∷ xs) ys h = ground (arith, first_claimable_skip now m xs ys h.1, h.0)

-- Behind the cursor the search finds what it finds from the start.
pub first_claimable-drop :
    (now : ℕ) (m : Entries) (c : ℕ) (ks : List ExecutionKey)
    → All (Dead m) (take c ks)
    → first_claimable now m (drop c ks) ≡ first_claimable now m ks
first_claimable-drop now m c ks h =
    sym (first_claimable_skip now m (take c ks) (drop c ks) h)
    ∙ ap (first_claimable now m) (take-append-drop c ks)

pub advanced-Inv : (q : Queue) → Inv q → Inv (advanced q)
advanced-Inv q v =
    let (n, moved, short, dead) =
      advance_moves q.executions (drop q.claim_cursor q.execution_order) q.claim_cursor in
    record {
      known = v.known;
      reached = v.reached;
      bounded =
          omega (arith, moved, short, v.bounded, length-drop q.claim_cursor q.execution_order);
      settled =
          rw (moved, take_add q.claim_cursor n q.execution_order)
            (All-append _ (take q.claim_cursor q.execution_order) _ v.settled dead);
    }
