-- ===== src/Semantic/Graph.antt =====
-- The entities, relations and schema declarations of internal/semantic/state.go. A Go map of fields is
-- a list of pairs in increasing order of their names, as `cloneFields` builds it here.
use maiden_lane.Base.{
  ℕ, Bool, true, false, not, ◌||◌, List, [], ◌∷◌, Option, none, some, ◌==◌, if◌then◌else◌, Text, Eq,
  ◌=?◌, text_eq, length, ◌≡◌, ap,
}
use maiden_lane.Base.Order.{Order, text_order, lex, by_key, pair_eq, eq_by}
use maiden_lane.Base.Sorted.{find, remove}
use maiden_lane.Base.Sorting.{insort}
use maiden_lane.Semantic.Value.{Value, value_eq, parses}

pub record EntityRef : Type 0 where
  pub kind : Text
  pub id : Text

pub record Relation : Type 0 where
  pub kind : Text
  pub from : EntityRef
  pub to : EntityRef

abbrev pub Field : Type 0
Field = Text × Value

pub record Entity : Type 0 where
  pub ref : EntityRef
  pub fields : List Field

pub record FieldDeclaration : Type 0 where
  pub name : Text
  pub kind : ℕ
  pub required_at_construction : Bool

pub record EntityDeclaration : Type 0 where
  pub kind : Text
  pub fields : List FieldDeclaration

pub record RelationDeclaration : Type 0 where
  pub kind : Text
  pub from_kind : Text
  pub to_kind : Text

-- What an entity reference and a relation are compared by.
abbrev pub ref_key : EntityRef → Text × Text
ref_key r = (r.kind, r.id)

abbrev pub relation_key : Relation → Text × (Text × (Text × (Text × Text)))
relation_key r = (r.kind, (r.from.id, (r.to.id, (r.from.kind, r.to.kind))))

abbrev of_ref_key : Text × Text → EntityRef
of_ref_key (k, i) = record { kind = k; id = i }

abbrev of_relation_key : Text × (Text × (Text × (Text × Text))) → Relation
of_relation_key (k, (fi, (ti, (fk, tk)))) = record {
  kind = k;
  from = record { kind = fk; id = fi };
  to = record { kind = tk; id = ti };
}

pub ref_key-distinct : (a b : EntityRef) → ref_key a ≡ ref_key b → a ≡ b
ref_key-distinct a b h = ap of_ref_key h

pub relation_key-distinct : (a b : Relation) → relation_key a ≡ relation_key b → a ≡ b
relation_key-distinct a b h = ap of_relation_key h

instance abbrev pub ref_eq : Eq EntityRef
ref_eq = eq_by ref_key ref_key-distinct

instance abbrev pub relation_eq : Eq Relation
relation_eq = eq_by relation_key relation_key-distinct

-- `compareEntityRefs` and `compareRelations`.
abbrev pub ref_order : Order EntityRef
ref_order = by_key (lex text_order text_order) ref_key ref_key-distinct

abbrev pub relation_order : Order Relation
relation_order =
    by_key (lex text_order (lex text_order (lex text_order (lex text_order text_order))))
      relation_key relation_key-distinct

abbrev pub name_of : Field → Text
name_of f = f.0

abbrev pub ref_of : Entity → EntityRef
ref_of e = e.ref

abbrev pub itself : Relation → Relation
itself r = r

abbrev value_of : Option Field → Option Value
value_of none = none
value_of (some f) = some f.1

-- `fields[name]`.
unfoldable pub field : Text → List Field → Option Value
unfolding find
field n fs = value_of (find name_of n fs)

-- `fields[name] = value`, and `delete(fields, name)`.
unfoldable pub set_field : Text → Value → List Field → List Field
unfolding insort remove
set_field n v fs = insort text_order name_of (n, v) (remove name_of n fs)

abbrev pub delete_field : Text → List Field → List Field
delete_field n fs = remove name_of n fs

unfoldable pub clone_fields : List Field → List Field
unfolding set_field
clone_fields [] = []
clone_fields ((n, v) ∷ fs) = set_field n v (clone_fields fs)

unfoldable pub clone_entity : Entity → Entity
unfolding clone_fields
clone_entity e = record { ref = e.ref; fields = clone_fields e.fields }

-- `findEntityIndex`, as the entity at the index.
abbrev pub find_entity : EntityRef → List Entity → Option Entity
find_entity r es = find ref_of r es

abbrev pub has_entity : EntityRef → List Entity → Bool
has_entity r es = parses (find_entity r es)

-- `slices.Contains(relations, relation)`.
abbrev pub has_relation : Relation → List Relation → Bool
has_relation r rs = parses (find itself r rs)

-- The loop of `entitiesEqual` over the fields of one entity.
unfoldable pub fields_in : List Field → List Field → Bool
fields_in [] gs = true
fields_in ((n, v) ∷ fs) gs =
    let rest = fields_in fs gs in
    elim (field n gs) [ none ↦ false | some w ↦ if v =? w then rest else false ]

unfoldable pub entities_equal : Entity → Entity → Bool
unfolding fields_in
entities_equal a b =
    if not (a.ref =? b.ref) || not (length a.fields == length b.fields)
    then false
    else fields_in a.fields b.fields
