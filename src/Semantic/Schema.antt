-- ===== src/Semantic/Schema.antt =====
-- `NewSchema` of internal/semantic/state.go, and its canonical bytes. `hash` is SHA-256 as a digest
-- string. The binary searches of the source, on lists that are sorted, are searches from the front.
use maiden_lane.Base.{
  Bool, true, false, not, ◌||◌, List, [], ◌∷◌, ◌++◌, map, Option, none, some, if◌then◌else◌, Text,
  codes, ◌=?◌, text_eq, length, Result, ok, err,
}
use maiden_lane.Base.Order.{text_order, lex, pair_eq}
use maiden_lane.Base.Sorted.{find}
use maiden_lane.Base.Sorting.{sort}
use maiden_lane.Canonical.Encoder.{Bytes, Piece, write, raw, uint64, string, tag}
use maiden_lane.Semantic.Value.{valid_value_kind, valid_semantic_name}
use maiden_lane.Semantic.Graph.{FieldDeclaration, EntityDeclaration, RelationDeclaration}

pub data SchemaError : Type 0 where
  invalid_entity_kind duplicate_entity_kind invalid_field_name unknown_value_kind duplicate_field :
      SchemaError
  invalid_relation_name duplicate_relation_kind undeclared_from_kind undeclared_to_kind
        not_encodable :
      SchemaError

pub record Schema : Type 0 where
  pub entities : List EntityDeclaration
  pub relations : List RelationDeclaration
  pub canonical : Bytes
  pub digest : Text

abbrev pub field_name : FieldDeclaration → Text
field_name f = f.name

abbrev pub declared_kind : EntityDeclaration → Text
declared_kind d = d.kind

abbrev pub relation_kind : RelationDeclaration → Text
relation_kind d = d.kind

abbrev declaration_key : RelationDeclaration → Text × (Text × Text)
declaration_key d = (d.kind, (d.from_kind, d.to_kind))

abbrev of_declaration_key : Text × (Text × Text) → RelationDeclaration
of_declaration_key (k, (f, t)) = record { kind = k; from_kind = f; to_kind = t }

-- Whether a key is that of the value before.
abbrev pub repeats : Option Text → Text → Bool
repeats none k = false
repeats (some p) k = k =? p

abbrev sort_fields : EntityDeclaration → EntityDeclaration
sort_fields d = record { kind = d.kind; fields = sort text_order field_name d.fields }

unfoldable pub check_fields : Option Text → List FieldDeclaration → Option SchemaError
check_fields prev [] = none
check_fields prev (f ∷ fs) =
    let rest = check_fields (some f.name) fs in
    if not (valid_semantic_name f.name)
    then some invalid_field_name
    else if not (valid_value_kind f.kind)
    then some unknown_value_kind
    else if repeats prev f.name
    then some duplicate_field
    else rest

abbrev first_of : Option SchemaError → Option SchemaError → Option SchemaError
first_of none e = e
first_of (some x) e = some x

unfoldable pub check_entity_kinds : Option Text → List EntityDeclaration → Option SchemaError
unfolding check_fields
check_entity_kinds prev [] = none
check_entity_kinds prev (d ∷ ds) =
    let rest = check_entity_kinds (some d.kind) ds in
    if not (valid_semantic_name d.kind)
    then some invalid_entity_kind
    else if repeats prev d.kind
    then some duplicate_entity_kind
    else first_of (check_fields none d.fields) rest

-- `containsEntityKind`.
abbrev contains_entity_kind : List EntityDeclaration → Text → Bool
contains_entity_kind ds k = elim (find declared_kind k ds) [ some d ↦ true | none ↦ false ]

unfoldable pub check_relation_kinds :
    List EntityDeclaration → Option Text → List RelationDeclaration → Option SchemaError
check_relation_kinds es prev [] = none
check_relation_kinds es prev (r ∷ rs) =
    let rest = check_relation_kinds es (some r.kind) rs in
    if not (valid_semantic_name r.kind)
      || (not (valid_semantic_name r.from_kind) || not (valid_semantic_name r.to_kind))
    then some invalid_relation_name
    else if repeats prev r.kind
    then some duplicate_relation_kind
    else if not (contains_entity_kind es r.from_kind)
    then some undeclared_from_kind
    else if not (contains_entity_kind es r.to_kind)
    then some undeclared_to_kind
    else rest

-- `encoder.optional` with nothing to write.
abbrev pub flag : Bool → Piece
flag true = raw (1 ∷ [])
flag false = raw (0 ∷ [])

abbrev field_pieces : List FieldDeclaration → List Piece
field_pieces [] = []
field_pieces (f ∷ fs) =
    string f.name ∷ raw (f.kind ∷ []) ∷ flag f.required_at_construction ∷ field_pieces fs

abbrev entity_pieces : List EntityDeclaration → List Piece
entity_pieces [] = []
entity_pieces (d ∷ ds) =
    (string d.kind ∷ uint64 (length d.fields) ∷ field_pieces d.fields) ++ entity_pieces ds

abbrev relation_pieces : List RelationDeclaration → List Piece
relation_pieces [] = []
relation_pieces (r ∷ rs) =
    string r.kind ∷ string r.from_kind ∷ string r.to_kind ∷ relation_pieces rs

unfoldable pub encode_schema : List EntityDeclaration → List RelationDeclaration → Option Bytes
encode_schema es rs = write (
    (tag (codes "maiden-lane.schema.v1") ∷ uint64 (length es) ∷ entity_pieces es)
    ++ uint64 (length rs) ∷ relation_pieces rs)

module _ (hash : Bytes → Text) where
  abbrev encoded_schema :
      List EntityDeclaration → List RelationDeclaration → Option Bytes → Result SchemaError Schema
  encoded_schema es rs none = err not_encodable
  encoded_schema es rs (some b) =
      ok (record { entities = es; relations = rs; canonical = b; digest = hash b })

  abbrev checked_schema :
      List EntityDeclaration → List RelationDeclaration → Result SchemaError Schema
  checked_schema es rs =
      elim (first_of (check_entity_kinds none es) (check_relation_kinds es none rs)) [
        | some e ↦ err e
        | none ↦ encoded_schema es rs (encode_schema es rs)
      ]

  unfoldable pub new_schema :
      List EntityDeclaration → List RelationDeclaration → Result SchemaError Schema
  unfolding check_entity_kinds check_relation_kinds encode_schema
  new_schema entities relations =
      checked_schema (map sort_fields (sort text_order declared_kind entities))
        (sort (lex text_order (lex text_order text_order)) declaration_key relations)

-- The searches of a schema.
abbrev pub entity_declaration : Schema → Text → Option EntityDeclaration
entity_declaration s k = find declared_kind k s.entities

abbrev pub relation_declaration : Schema → Text → Option RelationDeclaration
relation_declaration s k = find relation_kind k s.relations

abbrev pub find_field_declaration : List FieldDeclaration → Text → Option FieldDeclaration
find_field_declaration fs n = find field_name n fs
