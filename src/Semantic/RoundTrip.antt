-- ===== src/Semantic/RoundTrip.antt =====
-- `UndoPatch` after `ApplyPatch`: the state before, whole.
use maiden_lane.Base.{
  Bool, true, false, ◌||◌, List, [], ◌∷◌, map, Option, none, some, Text, ◌=?◌, text_eq, =?-refl,
  ◌≡◌, refl, sym, ap, ap₂, subst, ◌∙◌, arith, ok, All, Bool-cases, inl, inr, is_empty,
  if◌then◌else◌,
}
use maiden_lane.Base.Order.{pair_eq}
use maiden_lane.Base.Sorted.{find, Unique}
use maiden_lane.Base.Sorting.{sort, sort_unique, sort_lem, Increasing}
use maiden_lane.Base.Edits.{Alike}
use mathlib.Core.List.{reverse}
use maiden_lane.Canonical.Encoder.{Bytes, decode_digest}
use maiden_lane.Semantic.Value.{parses}
use maiden_lane.Semantic.Graph.{
  EntityRef, Relation, Entity, ref_of, itself, ref_eq, relation_eq, ref_order, relation_order,
  clone_entity, find_entity,
}
use maiden_lane.Semantic.Schema.{Schema}
use maiden_lane.Semantic.State.{State, new_state, sorted_state}
use maiden_lane.Semantic.Patch.{Operation, Patch, new_patch}
use maiden_lane.Semantic.Apply.{
  ApplyError, patch_not_initialized, schema_mismatch, Receipt, Graph, validate_link, accepted,
  graph_of, apply_patch,
}
use maiden_lane.Semantic.Undo.{
  undo_operations, validate_receipt, undone, undone_candidate, undo_patch,
}
use maiden_lane.Semantic.Fields.{clone_entity_lem}
use maiden_lane.Semantic.Steps.{Runs-of}
use maiden_lane.Semantic.Proper.{AllNormal, IsProper, Runs-IsProper}
use maiden_lane.Semantic.Reversal.{AlikeGraphs, IsDistinct}
use maiden_lane.Semantic.WellFormed.{Built, sorted-Built}
use maiden_lane.Semantic.Consistent.{IsConsistent, new_state-IsConsistent, consistent-IsProper}
use maiden_lane.Semantic.Ready.{new_patch-IsReady}
use maiden_lane.Semantic.Runs.{NeedsClosed, runs_back}
use maiden_lane.Semantic.Acceptance.{Accepts-of, receipt_for}

-- What is found among copies is the copy of what is found.
abbrev copy_of : Option Entity → Option Entity
copy_of none = none
copy_of (some e) = some (clone_entity e)

find-clones :
    (k : EntityRef) (es : List Entity)
    → find_entity k (map clone_entity es) ≡ copy_of (find_entity k es)
unfolding find clone_entity
find-clones k [] = refl
find-clones k (e ∷ es) = elim (Bool-cases (e.ref =? k)) [
  | inl b ↦ rw b refl
  | inr b ↦ rw b (find-clones k es)
]

Unique-clones : (es : List Entity) → Unique ref_of es → Unique ref_of (map clone_entity es)
unfolding clone_entity
Unique-clones [] u = tt
Unique-clones (e ∷ es) (f, u) = (find-clones e.ref es ∙ ap copy_of f, Unique-clones es u)

copy_same :
    (es : List Entity) (k : EntityRef) (o : Option Entity)
    → AllNormal es
    → find_entity k es ≡ o
    → copy_of o ≡ o
copy_same es k none n h = refl
copy_same es k (some e) n h = ap some (clone_entity_lem e (n k e h))

-- Copies of entities like those of a consistent state sort to that state's entities.
sorted_back :
    (us es : List Entity)
    → Unique ref_of us
    → Increasing ref_order ref_of es
    → AllNormal es
    → Alike ref_of us es
    → sort ref_order ref_of (map clone_entity us) ≡ es
sorted_back us es u inc n same =
    sort_unique ref_order ref_of (map clone_entity us) es (Unique-clones us u) inc
      (λ k. find-clones k us ∙ ap copy_of (same k) ∙ copy_same es k (find_entity k es) n refl)

abbrev linked_by : Bool → Bool → Option ApplyError
linked_by i d = if i then some patch_not_initialized else if d then none else some schema_mismatch

no_error : (e : ApplyError) → ◌≡◌ {A = Option ApplyError} (some e) none → ⊥
no_error e h = ground (arith, h)

all_of : {A : Type 0} (P : A → Type 0) (xs : List A) → ((a : A) → P a) → All P xs
all_of P [] h = tt
all_of P (x ∷ xs) h = (h x, all_of P xs h)

module _ (hash : Bytes → Text) where
  -- Building a state from parts like those of a consistent state gives that state.
  rebuild :
      (s : State) (u : Graph)
      → IsConsistent hash s
      → IsDistinct u
      → AlikeGraphs u (graph_of s)
      → new_state hash s.schema s.lineage u.entities u.relations ≡ ok s
  unfolding new_state
  rebuild s u c (x, y) (es, rs) =
      ap₂ (sorted_state hash s.schema s.lineage)
        (sorted_back u.entities s.entities x c.entities_increase c.all_normal es)
        (sort_unique relation_order itself u.relations s.relations y c.relations_increase rs)
      ∙ c.rebuilt

  -- The entities and relations of a state that was built are like those that it was built from.
  like_built :
      (t : Schema) (l : Text) (g : Graph) (c : State)
      → IsProper g
      → new_state hash t l g.entities g.relations ≡ ok c
      → AlikeGraphs (graph_of c) g
  unfolding new_state
  like_built t l g c (u, w, n) h =
      let entities = sort ref_order ref_of (map clone_entity g.entities) in
      let relations = sort relation_order itself g.relations in
      let built = sorted-Built hash t l entities relations c h in
      let (e, found) =
        sort_lem ref_order ref_of (map clone_entity g.entities) (Unique-clones g.entities u) in
      let (f, linked) = sort_lem relation_order itself g.relations w in
      (
        λ k.
            ap (find_entity k) built.same_entities
            ∙ found k
            ∙ find-clones k g.entities
            ∙ copy_same g.entities k (find_entity k g.entities) n refl,
        λ k. ap (find itself k) built.same_relations ∙ linked k,
      )

  undone_at :
      (s c : State) (r : Receipt) (u : Graph)
      → c.schema ≡ s.schema
      → c.lineage ≡ s.lineage
      → r.predecessor ≡ s.digest
      → new_state hash s.schema s.lineage u.entities u.relations ≡ ok s
      → undone hash c (some r) (ok u) ≡ accepted s none
  undone_at s c r u p q d built =
      ap₂ (λ t l. undone_candidate hash c (some r) (new_state hash t l u.entities u.relations)) p q
      ∙ ap (undone_candidate hash c (some r)) built
      ∙ rw (d, =?-refl s.digest) refl

  link_after :
      (s c : State) (p : Patch)
      → is_empty c.canonical ≡ false
      → c.schema ≡ s.schema
      → validate_link s p ≡ none
      → validate_link c p ≡ none
  unfolding validate_link
  link_after s c p n same h = elim (Bool-cases (is_empty s.canonical)) [
    | inl b ↦ absurd (no_error _ (rw b at h))
    | inr b ↦ rw n (
        ap
          (λ (t : Schema).
            linked_by (is_empty p.canonical || (is_empty p.digest || is_empty p.schema_digest))
              (t.digest =? p.schema_digest))
          same
        ∙ rw b at h)
  ]

  receipt_valid :
      (s c : State) (p : Patch)
      → parses (decode_digest p.digest) ≡ true
      → parses (decode_digest s.digest) ≡ true
      → parses (decode_digest c.digest) ≡ true
      → validate_receipt c p (some (receipt_for s p c)) ≡ none
  unfolding validate_receipt
  receipt_valid s c p x y z = rw (x, y, z, =?-refl p.digest, =?-refl c.digest) refl

  Built-of :
      (t : Schema) (l : Text) (es : List Entity) (rs : List Relation) (c : State)
      → new_state hash t l es rs ≡ ok c
      → Built hash t l
          (sort ref_order ref_of (map clone_entity es))
          (sort relation_order itself rs)
          c
  unfolding new_state
  Built-of t l es rs c h =
      sorted-Built hash t l (sort ref_order ref_of (map clone_entity es))
        (sort relation_order itself rs) c h

  -- The parts of `UndoPatch` where each succeeds.
  undo_steps :
      (s c : State) (p : Patch) (r : Receipt) (u : Graph)
      → validate_link c p ≡ none
      → validate_receipt c p (some r) ≡ none
      → undo_operations (reverse p.operations) (graph_of c) ≡ ok u
      → undone hash c (some r) (ok u) ≡ accepted s none
      → undo_patch hash c p (some r) ≡ accepted s none
  unfolding undo_patch
  undo_steps s c p r u l v back h = rw (l, v, back) h

  -- For a hash whose digest strings decode: take a state that `NewState` returned, a patch that
  -- `NewPatch` returned, and let `ApplyPatch` accept it. Then `UndoPatch` on the new state, with
  -- the same patch and its receipt, returns the state before, the same entities, fields, relations,
  -- canonical bytes and digest, with no error and no rejection.
  pub undo-apply :
      ((b : Bytes) → parses (decode_digest (hash b)) ≡ true)
      → (t : Schema) (l : Text) (es : List Entity) (rs : List Relation) (s : State)
      → new_state hash t l es rs ≡ ok s
      → (v : Schema) (os : List Operation) (p : Patch) → new_patch hash v os ≡ ok p
      → (c : State) (r : Receipt) → apply_patch hash s p ≡ accepted c (some r)
      → undo_patch hash c p (some r) ≡ accepted s none
  undo-apply decodes t l es rs s made v os p wrote c r h =
      let before = new_state-IsConsistent hash t l es rs s made in
      let proper = consistent-IsProper hash s before in
      let acc = Accepts-of hash s p c r h in
      let g = acc.graph in
      let after =
        new_state-IsConsistent hash s.schema s.lineage g.entities g.relations c acc.built in
      let built = Built-of s.schema s.lineage g.entities g.relations c acc.built in
      let (ready, ranked, hashed) = new_patch-IsReady hash v os p wrote in
      let run = Runs-of p.operations (graph_of s) g acc.ran in
      let (u, back, distinct, alike) =
        runs_back p.operations (graph_of s) g ready ranked proper
          (all_of (NeedsClosed (graph_of s)) p.operations (λ o small. before.closed)) run
          (graph_of c) (let (x, y, z) = consistent-IsProper hash c after in (x, y))
          (like_built s.schema s.lineage g c (Runs-IsProper p.operations (graph_of s) g proper run)
            acc.built) in
      let receipt_ok =
        receipt_valid s c p (rw hashed (decodes p.canonical))
          (rw before.hashed (decodes s.canonical)) (rw after.hashed (decodes c.canonical)) in
      subst (λ q. undo_patch hash c p (some q) ≡ accepted s none) (sym acc.receipt)
        (undo_steps s c p (receipt_for s p c) u
          (link_after s c p after.written built.same_schema acc.linked) receipt_ok back
          (undone_at s c (receipt_for s p c) u built.same_schema built.same_lineage refl
            (rebuild s u before distinct alike)))
