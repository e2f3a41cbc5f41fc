-- ===== src/Semantic/WellFormed.antt =====
-- What `NewState` guarantees of the state that it returns.
use maiden_lane.Base.{
  false, List, [], ◌∷◌, Option, none, some, Text, ◌=?◌, text_eq, Bool-cases, eq_of_=?, Option-cases,
  inl, inr, ◌≡◌, refl, subst, arith, Result, ok, err, is_empty,
}
use maiden_lane.Base.Order.{pair_eq}
use maiden_lane.Base.Sorted.{find}
use maiden_lane.Base.Sorting.{has_adjacent}
use maiden_lane.Canonical.Encoder.{Bytes, decode_digest}
use maiden_lane.Semantic.Value.{value_eq, parses, valid_semantic_name}
use maiden_lane.Semantic.Graph.{
  EntityRef, Relation, Entity, RelationDeclaration, ref_of, itself, ref_eq, relation_eq, ref_order,
  relation_order, has_entity,
}
use maiden_lane.Semantic.Schema.{Schema, relation_declaration}
use maiden_lane.Semantic.State.{
  State, StateError, first_of, is_previous, check_entities, check_relations, declared_endpoints,
  wrong_endpoints, encode_state, encoded_state, sorted_state,
}
use maiden_lane.Semantic.Steps.{HasEntity}

first_of-none : (a b : Option StateError) → first_of a b ≡ none → (a ≡ none) × (b ≡ none)
first_of-none none b h = (refl, h)
first_of-none (some e) b h = absurd (ground (arith, h))

not_some : (e : StateError) → ◌≡◌ {A = Option StateError} (some e) none → ⊥
not_some e h = ground (arith, h)

entity_round :
    (s : Schema) (prev : Option EntityRef) (e : Entity) (es : List Entity)
    → check_entities s prev (e ∷ es) ≡ none
    → (is_previous prev e.ref ≡ false) × (check_entities s (some e.ref) es ≡ none)
unfolding check_entities
entity_round s prev e es h = elim (Bool-cases (is_previous prev e.ref)) [
  | inl b ↦ absurd (not_some _ (rw b at h))
  | inr b ↦ (b, (first_of-none _ (check_entities s (some e.ref) es) (rw b at h)).1)
]

pub distinct_entities :
    (s : Schema) (prev : Option EntityRef) (es : List Entity)
    → check_entities s prev es ≡ none
    → has_adjacent ref_order ref_of es ≡ false
unfolding has_adjacent
distinct_entities s prev [] h = refl
distinct_entities s prev (e ∷ []) h = refl
distinct_entities s prev (e ∷ f ∷ es) h =
    let (first, rest) = entity_round s prev e (f ∷ es) h in
    let (differ, more) = entity_round s (some e.ref) f es rest in
    rw differ (distinct_entities s (some e.ref) (f ∷ es) rest)

-- The checks of one relation that passed.
endpoints_there :
    (es : List Entity) (r : Relation) (d : Option RelationDeclaration)
    → declared_endpoints es r d ≡ none
    → HasEntity r.from es × HasEntity r.to es
endpoints_there es r none h = absurd (not_some _ h)
endpoints_there es r (some d) h = elim (Bool-cases (wrong_endpoints r d)) [
  | inl b ↦ absurd (not_some _ (rw b at h))
  | inr b ↦ elim (Bool-cases (has_entity r.from es)) [
    | inr x ↦ absurd (not_some _ (rw (b, x) at h))
    | inl x ↦ elim (Bool-cases (has_entity r.to es)) [
      | inr y ↦ absurd (not_some _ (rw (b, x, y) at h))
      | inl y ↦ (x, y)
    ]
  ]
]

relation_round :
    (s : Schema) (es : List Entity) (prev : Option Relation) (r : Relation) (rs : List Relation)
    → check_relations s es prev (r ∷ rs) ≡ none
    → (is_previous prev r ≡ false)
      × (HasEntity r.from es × HasEntity r.to es)
      × (check_relations s es (some r) rs ≡ none)
unfolding check_relations
relation_round s es prev r rs h = elim (Bool-cases (valid_semantic_name r.kind)) [
  | inr v ↦ absurd (not_some _ (rw v at h))
  | inl v ↦ elim (Bool-cases (is_previous prev r)) [
    | inl b ↦ absurd (not_some _ (rw (v, b) at h))
    | inr b ↦
        let (here, rest) = first_of-none _ (check_relations s es (some r) rs) (rw (v, b) at h) in
        (b, endpoints_there es r (relation_declaration s r.kind) here, rest)
  ]
]

pub distinct_relations :
    (s : Schema) (es : List Entity) (prev : Option Relation) (rs : List Relation)
    → check_relations s es prev rs ≡ none
    → has_adjacent relation_order itself rs ≡ false
unfolding has_adjacent
distinct_relations s es prev [] h = refl
distinct_relations s es prev (r ∷ []) h = refl
distinct_relations s es prev (r ∷ q ∷ rs) h =
    let (first, ends, rest) = relation_round s es prev r (q ∷ rs) h in
    let (differ, more, others) = relation_round s es (some r) q rs rest in
    rw differ (distinct_relations s es (some r) (q ∷ rs) rest)

pub closed_relations :
    (s : Schema) (es : List Entity) (prev : Option Relation) (rs : List Relation)
    → check_relations s es prev rs ≡ none
    → (r : Relation) → find itself r rs ≡ some r
    → HasEntity r.from es × HasEntity r.to es
unfolding find
closed_relations s es prev [] h r held = absurd (ground (arith, held))
closed_relations s es prev (q ∷ rs) h r held =
    let (first, ends, rest) = relation_round s es prev q rs h in
    elim (Bool-cases (q =? r)) [
      | inl b ↦ subst (λ x. HasEntity x.from es × HasEntity x.to es) (eq_of_=? q r b) ends
      | inr b ↦ closed_relations s es (some q) rs rest r (rw b at held)
    ]

-- What a state that was built holds of the lists that it was built from.
pub record Built (hash : Bytes → Text) (s : Schema) (l : Text) (es : List Entity)
    (rs : List Relation) (t : State) : Type 0 where
  pub same_schema : t.schema ≡ s
  pub same_lineage : t.lineage ≡ l
  pub same_entities : t.entities ≡ es
  pub same_relations : t.relations ≡ rs
  pub entities_passed : check_entities s none es ≡ none
  pub relations_passed : check_relations s es none rs ≡ none
  pub encoded : encode_state s l es rs ≡ some t.canonical
  pub hashed : t.digest ≡ hash t.canonical

not_built : (e : StateError) (t : State) → ◌≡◌ {A = Result StateError State} (err e) (ok t) → ⊥
not_built e t h = ground (arith, h)

built_inj : (s t : State) → ◌≡◌ {A = Result StateError State} (ok s) (ok t) → s ≡ t
built_inj s t h = ground (arith, h)

module _ (hash : Bytes → Text) where
  pub encoded-Built :
      (s : Schema) (l : Text) (es : List Entity) (rs : List Relation) (t : State) (b : Option Bytes)
      → check_entities s none es ≡ none
      → check_relations s es none rs ≡ none
      → encode_state s l es rs ≡ b
      → encoded_state hash s l es rs b ≡ ok t
      → Built hash s l es rs t
  encoded-Built s l es rs t none x y e h = absurd (not_built _ t h)
  encoded-Built s l es rs t (some b) x y e h =
      subst (Built hash s l es rs) (built_inj _ t h) (record {
        same_schema = refl;
        same_lineage = refl;
        same_entities = refl;
        same_relations = refl;
        entities_passed = x;
        relations_passed = y;
        encoded = e;
        hashed = refl;
      })

  pub sorted-Built :
      (s : Schema) (l : Text) (es : List Entity) (rs : List Relation) (t : State)
      → sorted_state hash s l es rs ≡ ok t
      → Built hash s l es rs t
  unfolding sorted_state
  sorted-Built s l es rs t h = elim (Bool-cases (is_empty s.canonical)) [
    | inl b ↦ absurd (not_built _ t (rw b at h))
    | inr b ↦ elim (Bool-cases (parses (decode_digest l))) [
      | inr c ↦ absurd (not_built _ t (rw (b, c) at h))
      | inl c ↦
          elim (Option-cases (first_of (check_entities s none es) (check_relations s es none rs))) [
            | inr (e, f) ↦ absurd (not_built e t (rw (b, c, f) at h))
            | inl f ↦
                let (x, y) =
                  first_of-none (check_entities s none es) (check_relations s es none rs) f in
                encoded-Built s l es rs t (encode_state s l es rs) x y refl (rw (b, c, f) at h)
          ]
    ]
  ]
