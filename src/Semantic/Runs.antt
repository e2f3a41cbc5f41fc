-- ===== src/Semantic/Runs.antt =====
-- The loop of `UndoPatch` takes back a run of the loop of `ApplyPatch`.
use maiden_lane.Base.{
  ◌≤◌, ◌<◌, List, [], ◌∷◌, ◌++◌, ◌≡◌, refl, sym, ap, subst, ◌∙◌, arith, Result, ok, err, All,
  All-map,
}
use mathlib.Core.List.{reverse, reverse-cons}
use maiden_lane.Semantic.Patch.{Operation, rank}
use maiden_lane.Semantic.Apply.{Graph, OperationInvariantCode}
use maiden_lane.Semantic.Undo.{undo_operation, undo_operations}
use maiden_lane.Semantic.Steps.{Steps, Runs}
use maiden_lane.Semantic.Proper.{IsProper, IsClosed, step-IsProper, step-IsClosed}
use maiden_lane.Semantic.Reversal.{AlikeGraphs, IsDistinct, IsReady, step_back}
use maiden_lane.Semantic.Ready.{Ranked}

abbrev after :
    List Operation → Result OperationInvariantCode Graph → Result OperationInvariantCode Graph
after os (err c) = err c
after os (ok m) = undo_operations os m

undo_cons :
    (o : Operation) (os : List Operation) (g : Graph) (r : Result OperationInvariantCode Graph)
    → undo_operation o g ≡ r
    → undo_operations (o ∷ os) g ≡ after os r
unfolding undo_operations
undo_cons o os g r p = ap (after os) p

err_ok :
    (c : OperationInvariantCode) (u : Graph)
    → ◌≡◌ {A = Result OperationInvariantCode Graph} (err c) (ok u)
    → ⊥
err_ok c u h = ground (arith, h)

ok_inj : (u v : Graph) → ◌≡◌ {A = Result OperationInvariantCode Graph} (ok u) (ok v) → u ≡ v
ok_inj u v h = ground (arith, h)

undo_split :
    (o : Operation) (os : List Operation) (v u : Graph) (r : Result OperationInvariantCode Graph)
    → undo_operation o v ≡ r
    → after os r ≡ ok u
    → (m : Graph) × (undo_operation o v ≡ ok m) × (undo_operations os m ≡ ok u)
undo_split o os v u (err c) p h = absurd (err_ok c u h)
undo_split o os v u (ok m) p h = (m, p, h)

undo-append :
    (os ps : List Operation) (v u : Graph)
    → undo_operations os v ≡ ok u
    → undo_operations (os ++ ps) v ≡ undo_operations ps u
unfolding undo_operations
undo-append [] ps v u h = ap (undo_operations ps) (ok_inj v u h)
undo-append (o ∷ os) ps v u h =
    let (m, first, rest) =
      undo_split o os v u (undo_operation o v) refl
        (sym (undo_cons o os v (undo_operation o v) refl) ∙ h) in
    undo_cons o (os ++ ps) v (ok m) first ∙ undo-append os ps m u rest

-- Going back over a run leads to a graph like the one that it started from.
abbrev pub RunsBack : List Operation → Graph → Graph → Type 0
RunsBack os v g =
    (u : Graph) × (undo_operations (reverse os) v ≡ ok u) × IsDistinct u × AlikeGraphs u g

-- Whether an operation may come where relations may dangle.
abbrev pub NeedsClosed : Graph → Operation → Type 0
NeedsClosed g o = rank o < 5 → IsClosed g

needs_later :
    (o : Operation) (os : List Operation) (g m : Graph)
    → All (λ (p : Operation). rank o ≤ rank p) os
    → IsProper g
    → NeedsClosed g o
    → Steps o g m
    → All (NeedsClosed m) os
needs_later o os g m above proper closed s =
    All-map (λ (p : Operation). rank o ≤ rank p) (NeedsClosed m) os
      (λ p le l.
        let small : rank o < 5 = omega (arith, le, l) in
        step-IsClosed o g m small proper (closed small) s)
      above

pub runs_back :
    (os : List Operation) (g h : Graph)
    → All IsReady os
    → Ranked os
    → IsProper g
    → All (NeedsClosed g) os
    → Runs os g h
    → (v : Graph) → IsDistinct v
    → AlikeGraphs v h
    → RunsBack os v g
unfolding undo_operations
runs_back [] g h ready ranked proper closed p v d same =
    (v, refl, d, subst (AlikeGraphs v) (sym p) same)
runs_back (o ∷ os) g h (ready, others) (above, ranked) proper (closed, rest) (m, first, run) v d
      same =
    let (u, back, e, like) =
      runs_back os m h others ranked (step-IsProper o g m proper first)
        (needs_later o os g m above proper closed first) run v d same in
    let (w, last, f, alike) = step_back o g m ready proper closed first u e like in
    (
      w,
      ap (λ ps. undo_operations ps v) (reverse-cons o os)
          ∙ undo-append (reverse os) (o ∷ []) v u back
          ∙ undo_cons o [] u (ok w) last,
      f,
      alike,
    )
