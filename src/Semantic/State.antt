-- ===== src/Semantic/State.antt =====
-- `NewEntity` and `NewState` of internal/semantic/state.go, and the canonical bytes of a state.
use maiden_lane.Base.{
  Bool, false, not, ◌&&◌, ◌||◌, List, [], ◌∷◌, ◌++◌, map, Option, none, some, ◌==◌, if◌then◌else◌,
  Text, codes, ◌=?◌, text_eq, is_empty, length, Result, ok, err, Eq,
}
use maiden_lane.Base.Order.{pair_eq}
use maiden_lane.Base.Sorted.{find}
use maiden_lane.Base.Sorting.{sort}
use maiden_lane.Canonical.Encoder.{Bytes, Piece, write, uint64, string, tag, digest, decode_digest}
use maiden_lane.Semantic.Value.{kind, valid, valid_semantic_name, encode_value, parses}
use maiden_lane.Semantic.Graph.{
  EntityRef, Relation, Field, Entity, FieldDeclaration, EntityDeclaration, RelationDeclaration,
  ref_order, relation_order, ref_of, itself, field, clone_fields, clone_entity, ref_eq, relation_eq,
  has_entity,
}
use maiden_lane.Semantic.Schema.{
  Schema, entity_declaration, relation_declaration, find_field_declaration,
}

pub data StateError : Type 0 where
  invalid_kind invalid_id invalid_name invalid_value : StateError
  no_schema invalid_lineage duplicate_entity undeclared_entity undeclared_field wrong_kind :
      StateError
  required_absent invalid_relation duplicate_relation undeclared_relation wrong_endpoint_kinds :
      StateError
  endpoint_missing not_encodable : StateError

pub record State : Type 0 where
  pub schema : Schema
  pub lineage : Text
  pub entities : List Entity
  pub relations : List Relation
  pub canonical : Bytes
  pub digest : Text

abbrev pub first_of {ℓ} : {E : Type ℓ} → Option E → Option E → Option E
first_of none e = e
first_of (some x) e = some x

unfoldable pub check_values : List Field → Option StateError
check_values [] = none
check_values ((n, v) ∷ fs) =
    let rest = check_values fs in
    if not (valid_semantic_name n)
    then some invalid_name
    else if not (valid v)
    then some invalid_value
    else rest

-- `validateEntityRef`.
unfoldable pub validate_entity_ref : EntityRef → Option StateError
validate_entity_ref r =
    if not (valid_semantic_name r.kind)
    then some invalid_kind
    else if not (parses (decode_digest r.id))
    then some invalid_id
    else none

unfoldable pub new_entity : EntityRef → List Field → Result StateError Entity
unfolding validate_entity_ref check_values
new_entity r fs = elim (first_of (validate_entity_ref r) (check_values (clone_fields fs))) [
  | some e ↦ err e
  | none ↦ ok (record { ref = r; fields = clone_fields fs })
]

unfoldable pub check_declared : List FieldDeclaration → List Field → Option StateError
check_declared ds [] = none
check_declared ds ((n, v) ∷ fs) =
    let rest = check_declared ds fs in
    elim (find_field_declaration ds n) [
      | none ↦ some undeclared_field
      | some d ↦ if kind v == d.kind then rest else some wrong_kind
    ]

unfoldable pub check_required : List FieldDeclaration → List Field → Option StateError
check_required [] fs = none
check_required (d ∷ ds) fs =
    let rest = check_required ds fs in
    if d.required_at_construction && not (parses (field d.name fs))
    then some required_absent
    else rest

unfoldable pub validate_entity_fields : Entity → EntityDeclaration → Option StateError
unfolding check_declared check_required
validate_entity_fields e d =
    first_of (check_declared d.fields e.fields) (check_required d.fields e.fields)

-- Whether a value is the one before.
abbrev pub is_previous : {K : Type 0} ⦃e : Eq K⦄ → Option K → K → Bool
is_previous none k = false
is_previous (some p) k = k =? p

abbrev pub declared_fields : Entity → Option EntityDeclaration → Option StateError
declared_fields e none = some undeclared_entity
declared_fields e (some d) =
    if parses (decode_digest e.ref.id) then validate_entity_fields e d else some invalid_id

unfoldable pub check_entities : Schema → Option EntityRef → List Entity → Option StateError
unfolding find
check_entities s prev [] = none
check_entities s prev (e ∷ es) =
    let rest = check_entities s (some e.ref) es in
    if is_previous prev e.ref
    then some duplicate_entity
    else first_of (declared_fields e (entity_declaration s e.ref.kind)) rest

abbrev pub wrong_endpoints : Relation → RelationDeclaration → Bool
wrong_endpoints r d = not (r.from.kind =? d.from_kind) || not (r.to.kind =? d.to_kind)

abbrev pub declared_endpoints :
    List Entity → Relation → Option RelationDeclaration → Option StateError
declared_endpoints es r none = some undeclared_relation
declared_endpoints es r (some d) =
    if wrong_endpoints r d
    then some wrong_endpoint_kinds
    else if not (has_entity r.from es) || not (has_entity r.to es)
    then some endpoint_missing
    else none

unfoldable pub check_relations :
    Schema → List Entity → Option Relation → List Relation → Option StateError
unfolding find
check_relations s es prev [] = none
check_relations s es prev (r ∷ rs) =
    let rest = check_relations s es (some r) rs in
    if not (valid_semantic_name r.kind)
    then some invalid_relation
    else if is_previous prev r
    then some duplicate_relation
    else first_of (declared_endpoints es r (relation_declaration s r.kind)) rest

abbrev pub field_pieces : List Field → List Piece
field_pieces [] = []
field_pieces ((n, v) ∷ fs) = string n ∷ encode_value v ∷ field_pieces fs

-- `encodeEntityRef`, `encodeEntity` and `encodeRelation`; a state writes its entities and relations
-- in the same way.
abbrev pub ref_pieces : EntityRef → List Piece
ref_pieces r = string r.kind ∷ digest r.id ∷ []

abbrev pub entity_pieces : Entity → List Piece
entity_pieces e = ref_pieces e.ref ++ uint64 (length e.fields) ∷ field_pieces e.fields

abbrev pub relation_pieces : Relation → List Piece
relation_pieces r = string r.kind ∷ (ref_pieces r.from ++ ref_pieces r.to)

abbrev all_pieces : {A : Type 0} → (A → List Piece) → List A → List Piece
all_pieces f [] = []
all_pieces f (x ∷ xs) = f x ++ all_pieces f xs

unfoldable pub encode_state : Schema → Text → List Entity → List Relation → Option Bytes
encode_state s lineage es rs = write (
    (tag (codes "maiden-lane.state.v1")
      ∷ digest s.digest
      ∷ digest lineage
      ∷ uint64 (length es)
      ∷ all_pieces entity_pieces es)
    ++ uint64 (length rs) ∷ all_pieces relation_pieces rs)

module _ (hash : Bytes → Text) where
  abbrev pub encoded_state :
      Schema → Text → List Entity → List Relation → Option Bytes → Result StateError State
  encoded_state s lineage es rs none = err not_encodable
  encoded_state s lineage es rs (some b) = ok (record {
    schema = s;
    lineage = lineage;
    entities = es;
    relations = rs;
    canonical = b;
    digest = hash b;
  })

  -- What `NewState` does with entities and relations that are cloned and sorted.
  unfoldable pub sorted_state :
      Schema → Text → List Entity → List Relation → Result StateError State
  unfolding check_entities check_relations encode_state
  sorted_state s lineage es rs =
      if is_empty s.canonical
      then err no_schema
      else if not (parses (decode_digest lineage))
      then err invalid_lineage
      else elim (first_of (check_entities s none es) (check_relations s es none rs)) [
        | some e ↦ err e
        | none ↦ encoded_state s lineage es rs (encode_state s lineage es rs)
      ]

  unfoldable pub new_state : Schema → Text → List Entity → List Relation → Result StateError State
  unfolding sorted_state
  new_state s lineage entities relations =
      sorted_state s lineage (sort ref_order ref_of (map clone_entity entities))
        (sort relation_order itself relations)
