-- ===== src/Semantic/Steps.antt =====
-- What one operation of a patch does to a graph of entities and relations, as a relation, and that
-- `apply_operation` does just that.
use maiden_lane.Base.{
  true, false, List, [], ◌∷◌, ◌++◌, none, some, text_eq, Bool-cases, Option-cases, inl, inr, ◌≡◌,
  refl, sym, ap, ◌∙◌, arith, Result, ok, err,
}
use maiden_lane.Base.Sorted.{find, remove, replace, find_key}
use maiden_lane.Base.Order.{pair_eq}
use maiden_lane.Semantic.Value.{value_eq}
use maiden_lane.Semantic.Graph.{
  EntityRef, Relation, Entity, ref_of, itself, ref_eq, relation_eq, clone_fields, clone_entity,
  find_entity, has_entity, has_relation, entities_equal,
}
use maiden_lane.Semantic.Patch.{
  FieldUpdate, Operation, insert_op, relate_op, update_op, unrelate_op, delete_op,
}
use maiden_lane.Semantic.Apply.{
  Graph, OperationInvariantCode, before_matches, write_changes, with_fields, apply_operation,
  apply_operations,
}

abbrev pub HasEntity : EntityRef → List Entity → Type 0
HasEntity r es = has_entity r es ≡ true

abbrev pub inserted : Entity → Graph → Graph
inserted e g = record { entities = g.entities ++ clone_entity e ∷ []; relations = g.relations }

abbrev pub related : Relation → Graph → Graph
related r g = record { entities = g.entities; relations = g.relations ++ r ∷ [] }

abbrev pub changed : EntityRef → List FieldUpdate → Entity → Graph → Graph
changed t cs e g = record {
  entities = replace ref_of t (with_fields e (write_changes cs (clone_fields e.fields))) g.entities;
  relations = g.relations;
}

abbrev pub unrelated : Relation → Graph → Graph
unrelated r g = record { entities = g.entities; relations = remove itself r g.relations }

abbrev pub removed : Entity → Graph → Graph
removed d g = record { entities = remove ref_of d.ref g.entities; relations = g.relations }

-- An operation that may be applied, and the graph that it leaves.
abbrev pub Steps : Operation → Graph → Graph → Type 0
Steps (insert_op e) g h = (find_entity e.ref g.entities ≡ none) × (h ≡ inserted e g)
Steps (relate_op r) g h =
    (find itself r g.relations ≡ none)
    × HasEntity r.from g.entities
    × HasEntity r.to g.entities
    × (h ≡ related r g)
Steps (update_op t cs) g h =
    (e : Entity) × (find_entity t g.entities ≡ some e)
    × (before_matches (clone_fields e.fields) cs ≡ true)
    × (h ≡ changed t cs e g)
Steps (unrelate_op r) g h = (find itself r g.relations ≡ some r) × (h ≡ unrelated r g)
Steps (delete_op d) g h =
    (e : Entity) × (find_entity d.ref g.entities ≡ some e)
    × (entities_equal e d ≡ true)
    × (h ≡ removed d g)

-- A run of operations, one after another.
abbrev pub Runs : List Operation → Graph → Graph → Type 0
Runs [] g h = g ≡ h
Runs (o ∷ os) g h = (m : Graph) × Steps o g m × Runs os m h

pub found_relation :
    (r : Relation) (rs : List Relation) → has_relation r rs ≡ true → find itself r rs ≡ some r
found_relation r rs h = elim (Option-cases (find itself r rs)) [
  | inl f ↦ absurd (let no : false ≡ true = rw f at h in ground arith)
  | inr (x, f) ↦ f ∙ ap some (find_key itself r rs x f)
]

ok_inj : (g h : Graph) → ◌≡◌ {A = Result OperationInvariantCode Graph} (ok g) (ok h) → h ≡ g
ok_inj g h p = ground (arith, p)

not_err :
    (c : OperationInvariantCode) (h : Graph)
    → ◌≡◌ {A = Result OperationInvariantCode Graph} (err c) (ok h)
    → ⊥
not_err c h p = ground (arith, p)

pub step_of : (o : Operation) (g h : Graph) → apply_operation o g ≡ ok h → Steps o g h
unfolding apply_operation
step_of (insert_op e) g h p = elim (Option-cases (find_entity e.ref g.entities)) [
  | inl f ↦ (f, ok_inj (inserted e g) h (rw f at p))
  | inr (x, f) ↦ absurd (not_err _ h (rw f at p))
]
step_of (relate_op r) g h p = elim (Option-cases (find itself r g.relations)) [
  | inr (x, f) ↦ absurd (not_err _ h (rw f at p))
  | inl f ↦ elim (Bool-cases (has_entity r.from g.entities)) [
    | inr a ↦ absurd (not_err _ h (rw (f, a) at p))
    | inl a ↦ elim (Bool-cases (has_entity r.to g.entities)) [
      | inr b ↦ absurd (not_err _ h (rw (f, a, b) at p))
      | inl b ↦ (f, a, b, ok_inj (related r g) h (rw (f, a, b) at p))
    ]
  ]
]
step_of (update_op t cs) g h p = elim (Option-cases (find_entity t g.entities)) [
  | inl f ↦ absurd (not_err _ h (rw f at p))
  | inr (e, f) ↦ elim (Bool-cases (before_matches (clone_fields e.fields) cs)) [
    | inl b ↦ (e, f, b, ok_inj (changed t cs e g) h (rw (f, b) at p))
    | inr b ↦ absurd (not_err _ h (rw (f, b) at p))
  ]
]
step_of (unrelate_op r) g h p = elim (Bool-cases (has_relation r g.relations)) [
  | inl f ↦ (found_relation r g.relations f, ok_inj (unrelated r g) h (rw f at p))
  | inr f ↦ absurd (not_err _ h (rw f at p))
]
step_of (delete_op d) g h p = elim (Option-cases (find_entity d.ref g.entities)) [
  | inl f ↦ absurd (not_err _ h (rw f at p))
  | inr (e, f) ↦ elim (Bool-cases (entities_equal e d)) [
    | inl b ↦ (e, f, b, ok_inj (removed d g) h (rw (f, b) at p))
    | inr b ↦ absurd (not_err _ h (rw (f, b) at p))
  ]
]

pub of_step : (o : Operation) (g h : Graph) → Steps o g h → apply_operation o g ≡ ok h
unfolding apply_operation
of_step (insert_op e) g h (f, p) = rw (f, p) refl
of_step (relate_op r) g h (f, a, b, p) = rw (f, a, b, p) refl
of_step (update_op t cs) g h (e, f, b, p) = rw (f, b, p) refl
of_step (unrelate_op r) g h (f, p) = rw (f, p) refl
of_step (delete_op d) g h (e, f, b, p) = rw (f, b, p) refl

abbrev after :
    List Operation → Result OperationInvariantCode Graph → Result OperationInvariantCode Graph
after os (err c) = err c
after os (ok m) = apply_operations os m

apply_cons :
    (o : Operation) (os : List Operation) (g : Graph) (r : Result OperationInvariantCode Graph)
    → apply_operation o g ≡ r
    → apply_operations (o ∷ os) g ≡ after os r
unfolding apply_operations
apply_cons o os g (err c) p = ap (after os) p
apply_cons o os g (ok m) p = ap (after os) p

runs_after :
    (o : Operation) (os : List Operation) (g h : Graph) (r : Result OperationInvariantCode Graph)
    → apply_operation o g ≡ r
    → after os r ≡ ok h
    → (m : Graph) × (apply_operation o g ≡ ok m) × (apply_operations os m ≡ ok h)
runs_after o os g h (err c) p q = absurd (not_err c h q)
runs_after o os g h (ok m) p q = (m, p, q)

pub Runs-of : (os : List Operation) (g h : Graph) → apply_operations os g ≡ ok h → Runs os g h
unfolding apply_operations
Runs-of [] g h p = sym (ok_inj g h p)
Runs-of (o ∷ os) g h p =
    let (m, first, rest) =
      runs_after o os g h (apply_operation o g) refl
        (sym (apply_cons o os g (apply_operation o g) refl) ∙ p) in
    (m, step_of o g m first, Runs-of os m h rest)
