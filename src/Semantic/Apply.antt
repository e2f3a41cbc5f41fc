-- ===== src/Semantic/Apply.antt =====
-- `ApplyPatch` of internal/semantic/patch.go: the operations on a candidate, and the state it becomes.
use maiden_lane.Base.{
  Bool, true, false, not, ◌||◌, List, [], ◌∷◌, ◌++◌, Option, none, some, if◌then◌else◌, Text, ◌=?◌,
  text_eq, is_empty, Result, ok, err,
}
use maiden_lane.Base.Sorted.{remove, replace}
use maiden_lane.Base.Order.{pair_eq}
use maiden_lane.Canonical.Encoder.{Bytes}
use maiden_lane.Semantic.Value.{value_eq}
use maiden_lane.Semantic.Graph.{
  EntityRef, Relation, Field, Entity, ref_of, itself, ref_eq, relation_eq, field, set_field,
  clone_fields, clone_entity, find_entity, has_entity, has_relation, entities_equal,
}
use maiden_lane.Semantic.State.{State, StateError, new_state}
use maiden_lane.Semantic.Patch.{
  FieldUpdate, FieldImage, Operation, insert_op, relate_op, update_op, unrelate_op, delete_op,
  Patch,
}

-- Why an operation is rejected.
pub data OperationInvariantCode : Type 0 where
  entity_identity_collision update_target_not_found delete_target_not_found : OperationInvariantCode
  before_image_mismatch relation_already_present relation_endpoint_missing : OperationInvariantCode
  relation_not_found dangling_relation : OperationInvariantCode

pub data ApplyError : Type 0 where
  state_not_initialized patch_not_initialized schema_mismatch : ApplyError
  not_accepted invalid_receipt other_patch other_result other_predecessor : ApplyError
  candidate : StateError → ApplyError

pub record Receipt : Type 0 where
  pub patch : Text
  pub predecessor : Text
  pub result : Text

pub record PatchOutcome : Type 0 where
  pub state : State
  pub failure : Option OperationInvariantCode
  pub receipt : Option Receipt

-- The entities and relations that a loop works on.
pub record Graph : Type 0 where
  pub entities : List Entity
  pub relations : List Relation

abbrev pub Step : Type 0
Step = Result OperationInvariantCode Graph

abbrev pub same_image : FieldImage → FieldImage → Bool
same_image none none = true
same_image none (some w) = false
same_image (some v) none = false
same_image (some v) (some w) = v =? w

unfoldable pub before_matches : List Field → List FieldUpdate → Bool
before_matches fs [] = true
before_matches fs (c ∷ cs) =
    let rest = before_matches fs cs in if same_image (field c.name fs) c.before then rest else false

unfoldable pub write_changes : List FieldUpdate → List Field → List Field
write_changes [] fs = fs
write_changes (c ∷ cs) fs = write_changes cs (set_field c.name c.after fs)

abbrev pub with_fields : Entity → List Field → Entity
with_fields e fs = record { ref = e.ref; fields = fs }

abbrev pub updated : Graph → EntityRef → List FieldUpdate → Option Entity → Step
updated g t cs none = err update_target_not_found
updated g t cs (some e) =
    if before_matches (clone_fields e.fields) cs
    then ok (record {
      entities =
          replace ref_of t (with_fields e (write_changes cs (clone_fields e.fields))) g.entities;
      relations = g.relations;
    })
    else err before_image_mismatch

abbrev pub deleted : Graph → Entity → Option Entity → Step
deleted g d none = err delete_target_not_found
deleted g d (some e) =
    if entities_equal e d
    then ok (record { entities = remove ref_of d.ref g.entities; relations = g.relations })
    else err before_image_mismatch

-- One round of the loop.
unfoldable pub apply_operation : Operation → Graph → Step
unfolding before_matches write_changes
apply_operation (insert_op e) g =
    if has_entity e.ref g.entities
    then err entity_identity_collision
    else ok (record { entities = g.entities ++ clone_entity e ∷ []; relations = g.relations })
apply_operation (relate_op r) g =
    if has_relation r g.relations
    then err relation_already_present
    else if not (has_entity r.from g.entities) || not (has_entity r.to g.entities)
    then err relation_endpoint_missing
    else ok (record { entities = g.entities; relations = g.relations ++ r ∷ [] })
apply_operation (update_op t cs) g = updated g t cs (find_entity t g.entities)
apply_operation (delete_op d) g = deleted g d (find_entity d.ref g.entities)
apply_operation (unrelate_op r) g =
    if has_relation r g.relations
    then ok (record { entities = g.entities; relations = remove itself r g.relations })
    else err relation_not_found

unfoldable pub apply_operations : List Operation → Graph → Step
apply_operations [] g = ok g
apply_operations (o ∷ os) g = elim (apply_operation o g) [
  | err c ↦ err c
  | ok h ↦ apply_operations os h
]

unfoldable pub has_dangling : List Entity → List Relation → Bool
has_dangling es [] = false
has_dangling es (r ∷ rs) =
    let rest = has_dangling es rs in
    if not (has_entity r.from es) || not (has_entity r.to es) then true else rest

-- `validateStatePatchLink`.
unfoldable pub validate_link : State → Patch → Option ApplyError
validate_link s p =
    if is_empty s.canonical
    then some state_not_initialized
    else if is_empty p.canonical || (is_empty p.digest || is_empty p.schema_digest)
    then some patch_not_initialized
    else if s.schema.digest =? p.schema_digest
    then none
    else some schema_mismatch

abbrev pub refused : State → ApplyError → PatchOutcome × Option ApplyError
refused s e = (record { state = s; failure = none; receipt = none }, some e)

abbrev pub rejected : State → OperationInvariantCode → PatchOutcome × Option ApplyError
rejected s c = (record { state = s; failure = some c; receipt = none }, none)

abbrev pub accepted : State → Option Receipt → PatchOutcome × Option ApplyError
accepted s r = (record { state = s; failure = none; receipt = r }, none)

abbrev pub unless_refused :
    State → Option ApplyError → PatchOutcome × Option ApplyError → PatchOutcome × Option ApplyError
unless_refused s (some e) o = refused s e
unless_refused s none o = o

abbrev pub graph_of : State → Graph
graph_of s = record { entities = s.entities; relations = s.relations }

module _ (hash : Bytes → Text) where
  abbrev pub accepted_candidate :
      State → Patch → Result StateError State → PatchOutcome × Option ApplyError
  accepted_candidate s p (err e) = refused s (candidate e)
  accepted_candidate s p (ok c) =
      accepted c (some (record { patch = p.digest; predecessor = s.digest; result = c.digest }))

  abbrev pub applied : State → Patch → Step → PatchOutcome × Option ApplyError
  applied s p (err c) = rejected s c
  applied s p (ok g) =
      if has_dangling g.entities g.relations
      then rejected s dangling_relation
      else accepted_candidate s p (new_state hash s.schema s.lineage g.entities g.relations)

  unfoldable pub apply_patch : State → Patch → PatchOutcome × Option ApplyError
  unfolding apply_operations apply_operation has_dangling validate_link
  apply_patch s p =
      unless_refused s (validate_link s p)
        (applied s p (apply_operations p.operations (graph_of s)))
