-- ===== src/Semantic/Consistent.antt =====
-- The invariant of a state that `NewState` returned.
use maiden_lane.Base.{
  false, List, [], ◌∷◌, map, none, some, Text, codes, text_eq, ◌≡◌, refl, ◌∙◌, arith, ok, is_empty,
  All,
}
use maiden_lane.Base.Order.{pair_eq}
use maiden_lane.Base.Sorting.{sort, Increasing, Increasing-Unique, All-sort, All_find}
use maiden_lane.Base.Ascending.{sort-Increasing}
use maiden_lane.Canonical.Strings.{valid_utf8, big_endian}
use maiden_lane.Canonical.Encoder.{Bytes, Piece, write, tag, string, join_piece}
use maiden_lane.Semantic.Graph.{
  Relation, Entity, ref_of, itself, ref_eq, relation_eq, ref_order, relation_order, clone_entity,
}
use maiden_lane.Semantic.Schema.{Schema}
use maiden_lane.Semantic.State.{State, encode_state, sorted_state, new_state}
use maiden_lane.Semantic.Apply.{graph_of}
use maiden_lane.Semantic.Fields.{IsNormal, clone_fields-IsNormal}
use maiden_lane.Semantic.Proper.{AllNormal, IsProper, IsClosed}
use maiden_lane.Semantic.WellFormed.{
  Built, sorted-Built, distinct_entities, distinct_relations, closed_relations,
}

-- Entities and relations in canonical order, each once; fields in canonical order; no relation whose
-- endpoint is missing; canonical bytes, and the digest of them; and building the state again from its
-- own parts gives the same state.
pub record IsConsistent (hash : Bytes → Text) (t : State) : Type 0 where
  pub entities_increase : Increasing ref_order ref_of t.entities
  pub relations_increase : Increasing relation_order itself t.relations
  pub all_normal : AllNormal t.entities
  pub closed : IsClosed (graph_of t)
  pub written : is_empty t.canonical ≡ false
  pub encoded : encode_state t.schema t.lineage t.entities t.relations ≡ some t.canonical
  pub hashed : t.digest ≡ hash t.canonical
  pub rebuilt : sorted_state hash t.schema t.lineage t.entities t.relations ≡ ok t

clones-IsNormal : (es : List Entity) → All (λ (e : Entity). IsNormal e.fields) (map clone_entity es)
unfolding clone_entity
clones-IsNormal [] = tt
clones-IsNormal (e ∷ es) = (clone_fields-IsNormal e.fields, clones-IsNormal es)

begins_nonempty :
    (p : Bytes) (r : Piece) (b : Bytes)
    → is_empty p ≡ false
    → join_piece p r ≡ some b
    → is_empty b ≡ false
begins_nonempty p none b n h = absurd (ground (arith, h))
begins_nonempty [] (some r) b n h = absurd (ground (arith, n))
begins_nonempty (x ∷ p) (some r) [] n h = absurd (ground (arith, h))
begins_nonempty (x ∷ p) (some r) (y ∷ b) n h = refl

-- What begins with a tag is not empty.
pub tagged_nonempty :
    (p : Bytes) (ps : List Piece) (b : Bytes)
    → is_empty p ≡ false
    → write (some p ∷ ps) ≡ some b
    → is_empty b ≡ false
unfolding write
tagged_nonempty p ps b n h = begins_nonempty p (write ps) b n h

abbrev state_tag : Bytes
state_tag = 0 ∷ 0 ∷ 0 ∷ 0 ∷ 0 ∷ 0 ∷ 0 ∷ 20 ∷ codes "maiden-lane.state.v1"

state_written :
    (s : Schema) (l : Text) (es : List Entity) (rs : List Relation) (b : Bytes)
    → encode_state s l es rs ≡ some b
    → is_empty b ≡ false
unfolding encode_state tag string big_endian valid_utf8
state_written s l es rs b h = tagged_nonempty state_tag _ b refl h

module _ (hash : Bytes → Text) where
  same_sorted :
      (a b : Schema) (l m : Text) (es fs : List Entity) (rs qs : List Relation)
      → a ≡ b
      → l ≡ m
      → es ≡ fs
      → rs ≡ qs
      → sorted_state hash a l es rs ≡ sorted_state hash b m fs qs
  same_sorted a b l m es fs rs qs p q r u = rw (p, q, r, u) refl

  IsConsistent-of :
      (s : Schema) (l : Text) (es : List Entity) (rs : List Relation) (t : State)
      → Increasing ref_order ref_of es
      → Increasing relation_order itself rs
      → AllNormal es
      → sorted_state hash s l es rs ≡ ok t
      → Built hash s l es rs t
      → IsConsistent hash t
  IsConsistent-of s l es rs t he hr normal h built = record {
    entities_increase = rw built.same_entities he;
    relations_increase = rw built.same_relations hr;
    all_normal = rw built.same_entities normal;
    closed =
        rw (built.same_entities, built.same_relations)
          (closed_relations s es none rs built.relations_passed);
    written = state_written s l es rs t.canonical built.encoded;
    encoded =
        rw (built.same_schema, built.same_lineage, built.same_entities, built.same_relations)
          built.encoded;
    hashed = built.hashed;
    rebuilt =
        same_sorted t.schema s t.lineage l t.entities es t.relations rs built.same_schema
          built.same_lineage built.same_entities built.same_relations
        ∙ h;
  }

  -- A state that `NewState` returns has its entities and its relations in strictly increasing
  -- order, fields in strictly increasing order of their names, and no relation whose endpoint is
  -- missing; its canonical bytes are not empty, are the encoding of its parts, and hash to its
  -- digest; and building it again from its own parts gives the same state.
  pub new_state-IsConsistent :
      (s : Schema) (l : Text) (es : List Entity) (rs : List Relation) (t : State)
      → new_state hash s l es rs ≡ ok t
      → IsConsistent hash t
  unfolding new_state
  new_state-IsConsistent s l es rs t h =
      let entities = sort ref_order ref_of (map clone_entity es) in
      let relations = sort relation_order itself rs in
      let built = sorted-Built hash s l entities relations t h in
      IsConsistent-of s l entities relations t
        (sort-Increasing ref_order ref_of (map clone_entity es)
          (distinct_entities s none entities built.entities_passed))
        (sort-Increasing relation_order itself rs
          (distinct_relations s entities none relations built.relations_passed))
        (λ k e held.
          All_find ref_order ref_of (λ (x : Entity). IsNormal x.fields) entities k e
            (All-sort ref_order ref_of (λ (x : Entity). IsNormal x.fields) (map clone_entity es)
              (clones-IsNormal es))
            held)
        h built

pub consistent-IsProper :
    (hash : Bytes → Text) (t : State) → IsConsistent hash t → IsProper (graph_of t)
consistent-IsProper hash t h = (
  Increasing-Unique ref_order ref_of t.entities h.entities_increase,
  Increasing-Unique relation_order itself t.relations h.relations_increase,
  h.all_normal,
)
