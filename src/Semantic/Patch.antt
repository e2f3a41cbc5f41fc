-- ===== src/Semantic/Patch.antt =====
-- `NewPatch` of internal/semantic/patch.go: the operations, how they are validated, and their order. An
-- operation has the payload of its kind by its constructor.
use maiden_lane.Base.{
  ℕ, Bool, true, false, not, ◌&&◌, List, [], ◌∷◌, ◌++◌, map, Option, none, some, ◌==◌,
  if◌then◌else◌, Text, Eq, codes, text_eq, is_empty, length, Result, ok, err, ==_iff,
}
use maiden_lane.Base.Order.{text_order, nat_order, lex, pair_eq}
use maiden_lane.Base.Sorted.{find}
use maiden_lane.Base.Sorting.{sort}
use maiden_lane.Canonical.Encoder.{Bytes, Piece, write, raw, uint64, string, tag, digest}
use maiden_lane.Semantic.Value.{Value, kind, valid, valid_semantic_name, encode_value}
use maiden_lane.Semantic.Graph.{
  EntityRef, Relation, Entity, FieldDeclaration, EntityDeclaration, RelationDeclaration,
  clone_entity,
}
use maiden_lane.Semantic.Schema.{
  Schema, entity_declaration, relation_declaration, find_field_declaration, repeats,
}
use maiden_lane.Semantic.State.{
  StateError, new_entity, validate_entity_ref, validate_entity_fields, first_of, wrong_endpoints,
  ref_pieces, entity_pieces, relation_pieces,
}

-- A field before it is written: absent, or its value.
abbrev pub FieldImage : Type 0
FieldImage = Option Value

pub record FieldUpdate : Type 0 where
  pub name : Text
  pub before : FieldImage
  pub after : Value

pub data Operation : Type 0 where
  insert_op : Entity → Operation
  relate_op : Relation → Operation
  update_op : EntityRef → List FieldUpdate → Operation
  unrelate_op : Relation → Operation
  delete_op : Entity → Operation

pub data PatchError : Type 0 where
  no_schema no_operations no_changes invalid_name duplicate_field invalid_before invalid_after :
      PatchError
  invalid_relation undeclared_entity undeclared_relation undeclared_field wrong_kind
        wrong_endpoint_kinds :
      PatchError
  not_encodable : PatchError
  of_state : StateError → PatchError

pub record Patch : Type 0 where
  pub schema_digest : Text
  pub operations : List Operation
  pub canonical : Bytes
  pub digest : Text

-- The number of a kind of operation, from 1.
unfoldable pub rank : Operation → ℕ
rank (insert_op e) = 1
rank (relate_op r) = 2
rank (update_op t cs) = 3
rank (unrelate_op r) = 4
rank (delete_op e) = 5

abbrev pub update_name : FieldUpdate → Text
update_name c = c.name

-- A copy of an operation, with the changes of an update sorted by name.
unfoldable pub normalized : Operation → Operation
unfolding clone_entity
normalized (insert_op e) = insert_op (clone_entity e)
normalized (relate_op r) = relate_op r
normalized (update_op t cs) = update_op t (sort text_order update_name cs)
normalized (unrelate_op r) = unrelate_op r
normalized (delete_op e) = delete_op (clone_entity e)

abbrev pub refused : Option StateError → Option PatchError
refused none = none
refused (some e) = some (of_state e)

abbrev refused_entity : Result StateError Entity → Option PatchError
refused_entity (ok e) = none
refused_entity (err e) = some (of_state e)

abbrev pub invalid_image : FieldImage → Bool
invalid_image none = false
invalid_image (some v) = not (valid v)

-- The names are sorted, so one that was seen is the one before.
unfoldable pub check_changes : Option Text → List FieldUpdate → Option PatchError
unfolding valid
check_changes prev [] = none
check_changes prev (c ∷ cs) =
    let rest = check_changes (some c.name) cs in
    if not (valid_semantic_name c.name)
    then some invalid_name
    else if repeats prev c.name
    then some duplicate_field
    else if invalid_image c.before
    then some invalid_before
    else if not (valid c.after)
    then some invalid_after
    else rest

abbrev check_relation : Relation → Option PatchError
check_relation r =
    if not (valid_semantic_name r.kind)
    then some invalid_relation
    else refused (first_of (validate_entity_ref r.from) (validate_entity_ref r.to))

abbrev pub some_changes : List FieldUpdate → Option PatchError
some_changes [] = some no_changes
some_changes (c ∷ cs) = check_changes none (c ∷ cs)

unfoldable pub validate_operation : Operation → Option PatchError
unfolding new_entity validate_entity_ref check_changes
validate_operation (insert_op e) = refused_entity (new_entity e.ref e.fields)
validate_operation (relate_op r) = check_relation r
validate_operation (update_op t cs) = first_of (refused (validate_entity_ref t)) (some_changes cs)
validate_operation (unrelate_op r) = check_relation r
validate_operation (delete_op e) = refused_entity (new_entity e.ref e.fields)

abbrev declared_entity : Entity → Option EntityDeclaration → Option PatchError
declared_entity e none = some undeclared_entity
declared_entity e (some d) = refused (validate_entity_fields e d)

abbrev declared_relation : Relation → Option RelationDeclaration → Option PatchError
declared_relation r none = some undeclared_relation
declared_relation r (some d) = if wrong_endpoints r d then some wrong_endpoint_kinds else none

abbrev image_has_kind : FieldImage → ℕ → Bool
image_has_kind none k = true
image_has_kind (some v) k = kind v == k

abbrev check_change : FieldUpdate → Option FieldDeclaration → Option PatchError
check_change c none = some undeclared_field
check_change c (some d) =
    if image_has_kind c.before d.kind && kind c.after == d.kind then none else some wrong_kind

unfoldable pub check_declared_changes : EntityDeclaration → List FieldUpdate → Option PatchError
check_declared_changes d [] = none
check_declared_changes d (c ∷ cs) =
    first_of (check_change c (find_field_declaration d.fields c.name)) (check_declared_changes d cs)

abbrev declared_update : List FieldUpdate → Option EntityDeclaration → Option PatchError
declared_update cs none = some undeclared_entity
declared_update cs (some d) = check_declared_changes d cs

unfoldable pub validate_operation_against_schema : Schema → Operation → Option PatchError
unfolding check_declared_changes validate_entity_fields find
validate_operation_against_schema s (insert_op e) =
    declared_entity e (entity_declaration s e.ref.kind)
validate_operation_against_schema s (relate_op r) =
    declared_relation r (relation_declaration s r.kind)
validate_operation_against_schema s (update_op t cs) =
    declared_update cs (entity_declaration s t.kind)
validate_operation_against_schema s (unrelate_op r) =
    declared_relation r (relation_declaration s r.kind)
validate_operation_against_schema s (delete_op e) =
    declared_entity e (entity_declaration s e.ref.kind)

unfoldable pub validate_operations : Schema → List Operation → Option PatchError
unfolding validate_operation validate_operation_against_schema
validate_operations s [] = none
validate_operations s (o ∷ os) =
    first_of (first_of (validate_operation o) (validate_operation_against_schema s o))
      (validate_operations s os)

abbrev image_pieces : FieldImage → List Piece
image_pieces none = raw (0 ∷ []) ∷ []
image_pieces (some v) = raw (1 ∷ []) ∷ encode_value v ∷ []

abbrev change_pieces : List FieldUpdate → List Piece
change_pieces [] = []
change_pieces (c ∷ cs) =
    string c.name ∷ (image_pieces c.before ++ encode_value c.after ∷ change_pieces cs)

-- `encodeOperationPayload`.
unfoldable pub payload : Operation → List Piece
payload (insert_op e) = entity_pieces e
payload (relate_op r) = relation_pieces r
payload (update_op t cs) = ref_pieces t ++ uint64 (length cs) ∷ change_pieces cs
payload (unrelate_op r) = relation_pieces r
payload (delete_op e) = entity_pieces e

-- Go panics where there is no payload; an operation that was validated has one.
abbrev written : Piece → Bytes
written none = []
written (some b) = b

-- What `compareOperations` compares.
abbrev pub operation_key : Operation → ℕ × Bytes
operation_key o = (rank o, written (write (payload o)))

abbrev operation_pieces : List Operation → List Piece
operation_pieces [] = []
operation_pieces (o ∷ os) = raw (rank o ∷ []) ∷ (payload o ++ operation_pieces os)

unfoldable pub encode_patch : Text → List Operation → Option Bytes
unfolding rank payload
encode_patch schema ops = write (
    tag (codes "maiden-lane.patch.v1") ∷ digest schema ∷ uint64 (length ops) ∷ operation_pieces ops)

instance abbrev pub nat_eq : Eq ℕ
nat_eq = record { beq = ◌==◌; beq_iff = ==_iff }

abbrev pub sort_operations : List Operation → List Operation
sort_operations ops = sort (lex nat_order text_order) operation_key ops

module _ (hash : Bytes → Text) where
  abbrev pub encoded_patch : Text → List Operation → Option Bytes → Result PatchError Patch
  encoded_patch schema ops none = err not_encodable
  encoded_patch schema ops (some b) =
      ok (record { schema_digest = schema; operations = ops; canonical = b; digest = hash b })

  abbrev pub sorted_patch : Text → List Operation → Result PatchError Patch
  sorted_patch schema ops = encoded_patch schema ops (encode_patch schema ops)

  abbrev pub validated_patch : Schema → List Operation → Option PatchError → Result PatchError Patch
  validated_patch s ops (some e) = err e
  validated_patch s ops none = sorted_patch s.digest (sort_operations ops)

  unfoldable pub new_patch : Schema → List Operation → Result PatchError Patch
  unfolding normalized validate_operations encode_patch
  new_patch s ops =
      if is_empty s.canonical
      then err no_schema
      else if length ops == 0
      then err no_operations
      else validated_patch s (map normalized ops) (validate_operations s (map normalized ops))
