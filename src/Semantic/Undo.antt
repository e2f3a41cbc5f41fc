-- ===== src/Semantic/Undo.antt =====
-- `UndoPatch` of internal/semantic/patch.go: the inverse of an accepted patch, last operation first. A
-- receipt that was accepted is a value here, and `AcceptedPatchReceipt{}` is `none`.
use maiden_lane.Base.{
  Bool, true, false, not, ◌||◌, List, [], ◌∷◌, ◌++◌, Option, none, some, if◌then◌else◌, Text, ◌=?◌,
  text_eq, Result, ok, err,
}
use mathlib.Core.List.{reverse}
use maiden_lane.Base.Sorted.{remove, replace}
use maiden_lane.Base.Order.{pair_eq}
use maiden_lane.Canonical.Encoder.{Bytes, decode_digest}
use maiden_lane.Semantic.Value.{Value, value_eq, parses}
use maiden_lane.Semantic.Graph.{
  EntityRef, Relation, Field, Entity, ref_of, itself, ref_eq, relation_eq, field, set_field,
  delete_field, clone_fields, clone_entity, find_entity, has_entity, has_relation, entities_equal,
}
use maiden_lane.Semantic.State.{State, StateError, new_state}
use maiden_lane.Semantic.Patch.{
  FieldUpdate, Operation, insert_op, relate_op, update_op, unrelate_op, delete_op, Patch,
}
use maiden_lane.Semantic.Apply.{
  update_target_not_found, before_image_mismatch, ApplyError, not_accepted, invalid_receipt,
  other_patch, other_result, other_predecessor, candidate, Receipt, PatchOutcome, Graph, Step,
  same_image, with_fields, validate_link, refused, rejected, accepted, unless_refused, graph_of,
}

unfoldable pub after_matches : List Field → List FieldUpdate → Bool
after_matches fs [] = true
after_matches fs (c ∷ cs) =
    let rest = after_matches fs cs in
    if same_image (field c.name fs) (some c.after) then rest else false

abbrev pub restore_field : FieldUpdate → Option Value → List Field → List Field
restore_field c none fs = delete_field c.name fs
restore_field c (some v) fs = set_field c.name v fs

unfoldable pub restore_changes : List FieldUpdate → List Field → List Field
restore_changes [] fs = fs
restore_changes (c ∷ cs) fs = restore_changes cs (restore_field c c.before fs)

abbrev pub not_updated : Graph → EntityRef → List FieldUpdate → Option Entity → Step
not_updated g t cs none = err update_target_not_found
not_updated g t cs (some e) =
    if after_matches (clone_fields e.fields) cs
    then ok (record {
      entities =
          replace ref_of t (with_fields e (restore_changes cs (clone_fields e.fields))) g.entities;
      relations = g.relations;
    })
    else err before_image_mismatch

-- Whether a relation has an entity as an endpoint.
unfoldable pub touches : EntityRef → List Relation → Bool
touches r [] = false
touches r (x ∷ xs) = let rest = touches r xs in if (x.from =? r) || (x.to =? r) then true else rest

abbrev pub not_inserted : Graph → Entity → Option Entity → Step
not_inserted g i none = err before_image_mismatch
not_inserted g i (some e) =
    if not (entities_equal e i)
    then err before_image_mismatch
    else if touches i.ref g.relations
    then err before_image_mismatch
    else ok (record { entities = remove ref_of i.ref g.entities; relations = g.relations })

-- One round of the loop.
unfoldable pub undo_operation : Operation → Graph → Step
unfolding after_matches restore_changes touches
undo_operation (insert_op i) g = not_inserted g i (find_entity i.ref g.entities)
undo_operation (relate_op r) g =
    if has_relation r g.relations
    then ok (record { entities = g.entities; relations = remove itself r g.relations })
    else err before_image_mismatch
undo_operation (update_op t cs) g = not_updated g t cs (find_entity t g.entities)
undo_operation (delete_op d) g =
    if has_entity d.ref g.entities
    then err before_image_mismatch
    else ok (record { entities = g.entities ++ clone_entity d ∷ []; relations = g.relations })
undo_operation (unrelate_op r) g =
    if has_relation r g.relations
    then err before_image_mismatch
    else if not (has_entity r.from g.entities) || not (has_entity r.to g.entities)
    then err before_image_mismatch
    else ok (record { entities = g.entities; relations = g.relations ++ r ∷ [] })

-- The loop, over the operations from the last to the first.
unfoldable pub undo_operations : List Operation → Graph → Step
undo_operations [] g = ok g
undo_operations (o ∷ os) g = elim (undo_operation o g) [
  | err c ↦ err c
  | ok h ↦ undo_operations os h
]

-- `validateAcceptedReceipt`.
unfoldable pub validate_receipt : State → Patch → Option Receipt → Option ApplyError
validate_receipt s p none = some not_accepted
validate_receipt s p (some r) =
    if not (parses (decode_digest r.patch))
      || (not (parses (decode_digest r.predecessor)) || not (parses (decode_digest r.result)))
    then some invalid_receipt
    else if not (r.patch =? p.digest)
    then some other_patch
    else if not (r.result =? s.digest)
    then some other_result
    else none

abbrev pub predecessor_of : Option Receipt → Text
predecessor_of none = []
predecessor_of (some r) = r.predecessor

module _ (hash : Bytes → Text) where
  abbrev pub undone_candidate :
      State → Option Receipt → Result StateError State → PatchOutcome × Option ApplyError
  undone_candidate s r (err e) = refused s (candidate e)
  undone_candidate s r (ok c) =
      if c.digest =? predecessor_of r then accepted c none else refused s other_predecessor

  abbrev pub undone : State → Option Receipt → Step → PatchOutcome × Option ApplyError
  undone s r (err c) = rejected s c
  undone s r (ok g) =
      undone_candidate s r (new_state hash s.schema s.lineage g.entities g.relations)

  unfoldable pub undo_patch : State → Patch → Option Receipt → PatchOutcome × Option ApplyError
  unfolding undo_operations undo_operation validate_link validate_receipt
  undo_patch s p r = unless_refused s (validate_link s p) (
      unless_refused s (validate_receipt s p r)
        (undone s r (undo_operations (reverse p.operations) (graph_of s))))
