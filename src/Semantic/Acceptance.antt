-- ===== src/Semantic/Acceptance.antt =====
-- What it takes for `ApplyPatch` to accept a patch, and that it keeps the state otherwise.
use maiden_lane.Base.{
  false, List, Option, none, some, Text, ◌≡◌, refl, ap, ◌∙◌, arith, Result, ok, err, Bool-cases,
  Option-cases, inl, inr, ◌⊎◌,
}
use maiden_lane.Canonical.Encoder.{Bytes}
use maiden_lane.Semantic.Schema.{Schema}
use maiden_lane.Semantic.State.{State, StateError, new_state}
use maiden_lane.Semantic.Patch.{Patch}
use maiden_lane.Semantic.Apply.{
  OperationInvariantCode, ApplyError, Receipt, PatchOutcome, Graph, Step, apply_operations,
  has_dangling, validate_link, refused, rejected, accepted, graph_of, accepted_candidate, applied,
  apply_patch,
}
use maiden_lane.Semantic.Consistent.{IsConsistent, new_state-IsConsistent}

abbrev pub Outcome : Type 0
Outcome = PatchOutcome × Option ApplyError

pub not_refused :
    (s t : State) (e : ApplyError) (r : Option Receipt) → refused s e ≡ accepted t r → ⊥
not_refused s t e r h = let no : some e ≡ none = ap (λ (o : Outcome). o.1) h in ground (arith, no)

pub not_rejected :
    (s t : State) (c : OperationInvariantCode) (r : Option Receipt)
    → rejected s c ≡ accepted t r
    → ⊥
not_rejected s t c r h =
    let no : some c ≡ none = ap (λ (o : Outcome). o.0.failure) h in ground (arith, no)

receipt_inj : (r q : Receipt) → ◌≡◌ {A = Option Receipt} (some r) (some q) → q ≡ r
receipt_inj r q h = ground (arith, h)

abbrev pub receipt_for : State → Patch → State → Receipt
receipt_for s p c = record { patch = p.digest; predecessor = s.digest; result = c.digest }

module _ (hash : Bytes → Text) where
  -- The patch is linked to the state, its operations run, and they lead to the state's successor.
  pub record Accepts (s : State) (p : Patch) (c : State) (r : Receipt) : Type 0 where
    pub linked : validate_link s p ≡ none
    pub graph : Graph
    pub ran : apply_operations p.operations (graph_of s) ≡ ok graph
    pub intact : has_dangling graph.entities graph.relations ≡ false
    pub built : new_state hash s.schema s.lineage graph.entities graph.relations ≡ ok c
    pub receipt : r ≡ receipt_for s p c

  accepted_built :
      (s : State) (p : Patch) (c : State) (r : Receipt) (o : Result StateError State)
      → accepted_candidate hash s p o ≡ accepted c (some r)
      → (o ≡ ok c) × (r ≡ receipt_for s p c)
  accepted_built s p c r (err e) h = absurd (not_refused s c _ (some r) h)
  accepted_built s p c r (ok d) h =
      let same : d ≡ c = ap (λ (t : Outcome). t.0.state) h in
      let receipts : r ≡ receipt_for s p d =
        receipt_inj _ r (ap (λ (t : Outcome). t.0.receipt) h) in
      (ap ok same, receipts ∙ ap (receipt_for s p) same)

  Accepts-ran :
      (s : State) (p : Patch) (c : State) (r : Receipt) (w : Step)
      → validate_link s p ≡ none
      → apply_operations p.operations (graph_of s) ≡ w
      → applied hash s p w ≡ accepted c (some r)
      → Accepts s p c r
  Accepts-ran s p c r (err e) l ran h = absurd (not_rejected s c e (some r) h)
  Accepts-ran s p c r (ok g) l ran h = elim (Bool-cases (has_dangling g.entities g.relations)) [
    | inl b ↦ absurd (not_rejected s c _ (some r) (rw b at h))
    | inr b ↦
        let (built, same) =
          accepted_built s p c r (new_state hash s.schema s.lineage g.entities g.relations)
            (rw b at h) in
        record { linked = l; graph = g; ran = ran; intact = b; built = built; receipt = same }
  ]

  pub Accepts-of :
      (s : State) (p : Patch) (c : State) (r : Receipt)
      → apply_patch hash s p ≡ accepted c (some r)
      → Accepts s p c r
  unfolding apply_patch
  Accepts-of s p c r h = elim (Option-cases (validate_link s p)) [
    | inr (e, f) ↦ absurd (not_refused s c e (some r) (rw f at h))
    | inl f ↦ Accepts-ran s p c r (apply_operations p.operations (graph_of s)) f refl (rw f at h)
  ]

  -- Either the state is the given one, without a receipt and with an error or a rejection; or there is
  -- neither, the receipt names the patch, the given state and the outcome's, and that is consistent.
  abbrev pub KeepsOrAccepts : State → Patch → Outcome → Type 0
  KeepsOrAccepts s p (o, e) =
      ((o.state ≡ s)
        × (o.receipt ≡ none)
        × (((x : ApplyError) × (e ≡ some x))
            ⊎ ((c : OperationInvariantCode) × (o.failure ≡ some c))))
      ⊎ ((e ≡ none)
          × (o.failure ≡ none)
          × (o.receipt
              ≡ some (record { patch = p.digest; predecessor = s.digest; result = o.state.digest }))
          × IsConsistent hash o.state)

  candidate_keeps :
      (s : State) (p : Patch) (es : List _) (rs : List _) (l : Text) (t : Schema)
      (o : Result StateError State)
      → new_state hash t l es rs ≡ o
      → KeepsOrAccepts s p (accepted_candidate hash s p o)
  candidate_keeps s p es rs l t (err e) h = inl (refl, refl, inl (_, refl))
  candidate_keeps s p es rs l t (ok c) h =
      inr (refl, refl, refl, new_state-IsConsistent hash t l es rs c h)

  applied_keeps : (s : State) (p : Patch) (w : Step) → KeepsOrAccepts s p (applied hash s p w)
  applied_keeps s p (err c) = inl (refl, refl, inr (_, refl))
  applied_keeps s p (ok g) = elim (Bool-cases (has_dangling g.entities g.relations)) [
    | inl b ↦ rw b (inl (refl, refl, inr (_, refl)))
    | inr b ↦ rw b (
        candidate_keeps s p g.entities g.relations s.lineage s.schema
          (new_state hash s.schema s.lineage g.entities g.relations) refl)
  ]

  -- Whatever `ApplyPatch` returns: either its state is the given one, there is no receipt, and
  -- there is an error or a rejection; or there is neither, the receipt names the patch, the given
  -- state and the returned one, and that state is consistent as a state from `NewState` is.
  pub apply_patch-keeps : (s : State) (p : Patch) → KeepsOrAccepts s p (apply_patch hash s p)
  unfolding apply_patch
  apply_patch-keeps s p = elim (Option-cases (validate_link s p)) [
    | inr (e, f) ↦ rw f (inl (refl, refl, inl (e, refl)))
    | inl f ↦ rw f (applied_keeps s p (apply_operations p.operations (graph_of s)))
  ]
