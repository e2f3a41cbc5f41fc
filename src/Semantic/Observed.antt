-- ===== src/Semantic/Observed.antt =====
-- One operation of a patch, told by what a search finds in the graph before and after it.
use maiden_lane.Base.{
  false, List, none, some, Text, ◌=?◌, =?-refl, text_eq, ◌≡◌, refl, sym, ap, ◌∙◌, subst, All, ok,
}
use maiden_lane.Base.Sorted.{
  find, Fresh, Unique, find_key, find-remove_self, find-remove_ne, find-replace,
}
use maiden_lane.Base.Edits.{find-append_one}
use maiden_lane.Semantic.Graph.{
  EntityRef, Relation, Entity, ref_of, itself, ref_eq, relation_eq, field, clone_fields,
  find_entity,
}
use maiden_lane.Semantic.Patch.{
  FieldUpdate, Operation, insert_op, relate_op, update_op, unrelate_op, delete_op, update_name,
}
use maiden_lane.Semantic.Apply.{Graph, write_changes, with_fields, apply_operation}
use maiden_lane.Semantic.Fields.{IsNormal, clone_fields_lem, clone_entity_lem}
use maiden_lane.Semantic.Images.{
  HasBefore, HasAfter, before_matches_lem, before_matches_of, all_written, field-write-Fresh,
}
use maiden_lane.Semantic.Equality.{eq_of_entities_equal, entities_equal_refl}
use maiden_lane.Semantic.Steps.{
  HasEntity, Steps, step_of, of_step, inserted, related, changed, unrelated, removed,
}
use maiden_lane.Semantic.Proper.{IsProper}
use maiden_lane.Semantic.Reversal.{IsReady}

-- What an operation demands of the graph.
abbrev pub Allowed : Operation → Graph → Type 0
Allowed (insert_op e) g = find_entity e.ref g.entities ≡ none
Allowed (relate_op r) g =
    (find itself r g.relations ≡ none) × HasEntity r.from g.entities × HasEntity r.to g.entities
Allowed (update_op t cs) g =
    (e : Entity) × (find_entity t g.entities ≡ some e) × All (HasBefore e.fields) cs
Allowed (unrelate_op r) g = find itself r g.relations ≡ some r
Allowed (delete_op d) g = find_entity d.ref g.entities ≡ some d

-- The entities under all other references, and the relations other than this one, are as before.
abbrev pub OtherEntities : EntityRef → Graph → Graph → Type 0
OtherEntities k g h =
    (j : EntityRef) → (k =? j) ≡ false → find_entity j h.entities ≡ find_entity j g.entities

abbrev pub OtherRelations : Relation → Graph → Graph → Type 0
OtherRelations r g h =
    (x : Relation) → (r =? x) ≡ false → find itself x h.relations ≡ find itself x g.relations

-- An entity after an update: every changed field has its new value, and every other its old one.
abbrev pub Updated : List FieldUpdate → Entity → Entity → Type 0
Updated cs e f =
    (f.ref ≡ e.ref)
    × All (HasAfter f.fields) cs
    × ((k : Text) → Fresh update_name k cs → field k f.fields ≡ field k e.fields)

-- What an operation leaves.
abbrev pub Leaves : Operation → Graph → Graph → Type 0
Leaves (insert_op e) g h =
    (find_entity e.ref h.entities ≡ some e) × OtherEntities e.ref g h × (h.relations ≡ g.relations)
Leaves (relate_op r) g h =
    (find itself r h.relations ≡ some r) × OtherRelations r g h × (h.entities ≡ g.entities)
Leaves (update_op t cs) g h =
    (e : Entity) × (f : Entity) × (find_entity t g.entities ≡ some e)
    × (find_entity t h.entities ≡ some f)
    × Updated cs e f
    × OtherEntities t g h
    × (h.relations ≡ g.relations)
Leaves (unrelate_op r) g h =
    (find itself r h.relations ≡ none) × OtherRelations r g h × (h.entities ≡ g.entities)
Leaves (delete_op d) g h =
    (find_entity d.ref h.entities ≡ none) × OtherEntities d.ref g h × (h.relations ≡ g.relations)

inserted-Leaves :
    (e : Entity) (g : Graph)
    → IsNormal e.fields
    → find_entity e.ref g.entities ≡ none
    → Leaves (insert_op e) g (inserted e g)
inserted-Leaves e g n fresh =
    let same = clone_entity_lem e n in
    (
      rw same (find-append_one ref_of e.ref g.entities e fresh ∙ rw (=?-refl e.ref) refl),
      (λ j ne. rw same (find-append_one ref_of j g.entities e fresh ∙ rw ne refl)),
      refl,
    )

related-Leaves :
    (r : Relation) (g : Graph)
    → find itself r g.relations ≡ none
    → Leaves (relate_op r) g (related r g)
related-Leaves r g fresh = (
  find-append_one itself r g.relations r fresh ∙ rw (=?-refl r) refl,
  (λ x ne. find-append_one itself x g.relations r fresh ∙ rw ne refl),
  refl,
)

changed-Leaves :
    (t : EntityRef) (cs : List FieldUpdate) (e : Entity) (g : Graph)
    → IsNormal e.fields
    → Unique update_name cs
    → find_entity t g.entities ≡ some e
    → Leaves (update_op t cs) g (changed t cs e g)
changed-Leaves t cs e g n u held =
    let f = with_fields e (write_changes cs (clone_fields e.fields)) in
    let same = clone_fields_lem e.fields n in
    let at = find_key ref_of t g.entities e held in
    (
      e,
      f,
      held,
      find-replace ref_of t t f e g.entities at held ∙ rw (=?-refl t) refl,
      (
        refl,
        rw same (all_written cs e.fields n u),
        λ k fresh. rw same (field-write-Fresh k cs e.fields n fresh),
      ),
      (λ j ne. find-replace ref_of t j f e g.entities at held ∙ rw ne refl),
      refl,
    )

Steps-Leaves :
    (o : Operation) (g h : Graph)
    → IsProper g
    → IsReady o
    → Steps o g h
    → Allowed o g × Leaves o g h
Steps-Leaves (insert_op e) g h proper n (f, p) =
    (f, subst (Leaves (insert_op e) g) (sym p) (inserted-Leaves e g n f))
Steps-Leaves (relate_op r) g h proper n (f, a, b, p) =
    ((f, a, b), subst (Leaves (relate_op r) g) (sym p) (related-Leaves r g f))
Steps-Leaves (update_op t cs) g h (u, w, normal) ready (e, f, b, p) =
    let n = normal t e f in
    (
      (e, f, before_matches_lem e.fields cs (rw (clone_fields_lem e.fields n) at b)),
      subst (Leaves (update_op t cs) g) (sym p) (changed-Leaves t cs e g n ready f),
    )
Steps-Leaves (unrelate_op r) g h (u, w, normal) n (f, p) = (
  f,
  subst (Leaves (unrelate_op r) g) (sym p) (
    find-remove_self itself r g.relations w,
    (λ x ne. find-remove_ne itself r x g.relations ne),
    refl,
  ),
)
Steps-Leaves (delete_op d) g h (u, w, normal) n (e, f, b, p) = (
  f ∙ ap some (eq_of_entities_equal e d (normal d.ref e f) n b),
  subst (Leaves (delete_op d) g) (sym p) (
    find-remove_self ref_of d.ref g.entities u,
    (λ j ne. find-remove_ne ref_of d.ref j g.entities ne),
    refl,
  ),
)

Allowed-Steps : (o : Operation) (g : Graph) → IsProper g → Allowed o g → (h : Graph) × Steps o g h
Allowed-Steps (insert_op e) g proper f = (inserted e g, (f, refl))
Allowed-Steps (relate_op r) g proper (f, a, b) = (related r g, (f, a, b, refl))
Allowed-Steps (update_op t cs) g (u, w, normal) (e, f, b) = (
  changed t cs e g,
  (e, f, rw (clone_fields_lem e.fields (normal t e f)) (before_matches_of e.fields cs b), refl),
)
Allowed-Steps (unrelate_op r) g proper f = (unrelated r g, (f, refl))
Allowed-Steps (delete_op d) g (u, w, normal) f =
    (removed d g, (d, f, entities_equal_refl d (normal d.ref d f), refl))

-- In a graph with no entity and no relation twice and fields in canonical order, and for an
-- operation as `NewPatch` leaves it: `ApplyPatch` accepts the operation just where the graph meets
-- its demand (nothing there yet, endpoints there, every before-image there, or the very thing to
-- delete there), and then searches find the entity or relation added, gone, or with every changed
-- field at its new value and every other field as before, and all else as before.
pub apply_operation-Leaves :
    (o : Operation) (g : Graph)
    → IsProper g
    → IsReady o
    → ((h : Graph) → apply_operation o g ≡ ok h → Allowed o g × Leaves o g h)
      × (Allowed o g → (h : Graph) × (apply_operation o g ≡ ok h))
apply_operation-Leaves o g proper ready = (
  (λ h p. Steps-Leaves o g h proper ready (step_of o g h p)),
  λ a. let (h, s) = Allowed-Steps o g proper a in (h, of_step o g h s),
)
