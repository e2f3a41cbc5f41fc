-- ===== src/Semantic/Ready.antt =====
-- What `NewPatch` leaves of the operations: copies in canonical order, no field named twice in an update,
-- and the kinds in increasing order.
use Prim.Native.Nat.{Ordering, compare}
use maiden_lane.Base.{
  ℕ, ◌≤◌, false, List, [], ◌∷◌, map, Option, none, some, Text, text_eq, ◌≡◌, refl, ap, subst, arith,
  Result, ok, err, is_empty, All, All-map, Bool-cases, Option-cases, inl, inr, length, ◌==◌,
}
use maiden_lane.Base.Order.{then_compare, nat_order, text_order, lex, pair_eq}
use maiden_lane.Base.Sorting.{is_gt, sort, has_adjacent, Increasing-Unique, All-sort}
use maiden_lane.Base.Ascending.{Ascending, sort-Ascending, sort-Increasing}
use maiden_lane.Canonical.Encoder.{Bytes}
use maiden_lane.Semantic.Value.{valid, valid_semantic_name}
use maiden_lane.Semantic.Graph.{clone_entity}
use maiden_lane.Semantic.Schema.{Schema, repeats}
use maiden_lane.Semantic.State.{first_of, validate_entity_ref}
use maiden_lane.Semantic.Patch.{
  FieldUpdate, Operation, insert_op, relate_op, update_op, unrelate_op, delete_op, PatchError,
  Patch, rank, update_name, normalized, check_changes, some_changes, invalid_image, refused,
  validate_operation, validate_operation_against_schema, validate_operations, operation_key,
  sort_operations, encode_patch, encoded_patch, new_patch, nat_eq,
}
use maiden_lane.Semantic.Fields.{clone_fields-IsNormal}
use maiden_lane.Semantic.Reversal.{IsReady}

not_some : (e : PatchError) → ◌≡◌ {A = Option PatchError} (some e) none → ⊥
not_some e h = ground (arith, h)

first_none : (a b : Option PatchError) → first_of a b ≡ none → (a ≡ none) × (b ≡ none)
first_none none b h = (refl, h)
first_none (some e) b h = absurd (not_some e h)

change_round :
    (prev : Option Text) (c : FieldUpdate) (cs : List FieldUpdate)
    → check_changes prev (c ∷ cs) ≡ none
    → (repeats prev c.name ≡ false) × (check_changes (some c.name) cs ≡ none)
unfolding check_changes
change_round prev c cs h = elim (Bool-cases (valid_semantic_name c.name)) [
  | inr v ↦ absurd (not_some _ (rw v at h))
  | inl v ↦ elim (Bool-cases (repeats prev c.name)) [
    | inl b ↦ absurd (not_some _ (rw (v, b) at h))
    | inr b ↦ elim (Bool-cases (invalid_image c.before)) [
      | inl x ↦ absurd (not_some _ (rw (v, b, x) at h))
      | inr x ↦ elim (Bool-cases (valid c.after)) [
        | inr y ↦ absurd (not_some _ (rw (v, b, x, y) at h))
        | inl y ↦ (b, rw (v, b, x, y) at h)
      ]
    ]
  ]
]

distinct_changes :
    (prev : Option Text) (cs : List FieldUpdate)
    → check_changes prev cs ≡ none
    → has_adjacent text_order update_name cs ≡ false
unfolding has_adjacent
distinct_changes prev [] h = refl
distinct_changes prev (c ∷ []) h = refl
distinct_changes prev (c ∷ d ∷ cs) h =
    let (first, rest) = change_round prev c (d ∷ cs) h in
    let (differ, more) = change_round (some c.name) d cs rest in
    rw differ (distinct_changes (some c.name) (d ∷ cs) rest)

some_changes-none : (cs : List FieldUpdate) → some_changes cs ≡ none → check_changes none cs ≡ none
some_changes-none [] h = absurd (not_some _ h)
some_changes-none (c ∷ cs) h = h

IsReady-of_valid :
    (o : Operation) → validate_operation (normalized o) ≡ none → IsReady (normalized o)
unfolding normalized clone_entity validate_operation
IsReady-of_valid (insert_op e) h = clone_fields-IsNormal e.fields
IsReady-of_valid (relate_op r) h = tt
IsReady-of_valid (update_op t cs) h =
    let sorted = sort text_order update_name cs in
    let (a, b) = first_none (refused (validate_entity_ref t)) (some_changes sorted) h in
    Increasing-Unique text_order update_name sorted (
      sort-Increasing text_order update_name cs
        (distinct_changes none sorted (some_changes-none sorted b)))
IsReady-of_valid (unrelate_op r) h = tt
IsReady-of_valid (delete_op e) h = clone_fields-IsNormal e.fields

all-IsReady :
    (s : Schema) (os : List Operation)
    → validate_operations s (map normalized os) ≡ none
    → All IsReady (map normalized os)
unfolding validate_operations
all-IsReady s [] h = tt
all-IsReady s (o ∷ os) h =
    let (a, b) =
      first_none
        (first_of (validate_operation (normalized o))
          (validate_operation_against_schema s (normalized o)))
        (validate_operations s (map normalized os)) h in
    let (c, d) =
      first_none (validate_operation (normalized o))
        (validate_operation_against_schema s (normalized o)) a in
    (IsReady-of_valid o c, all-IsReady s os b)

-- The kinds of operations in order.
abbrev pub Ranked : List Operation → Type 0
Ranked [] = Unit {0}
Ranked (o ∷ os) = All (λ (p : Operation). rank o ≤ rank p) os × Ranked os

rank_le : (a b : ℕ) (c : Ordering) → is_gt (then_compare (compare a b) c) ≡ false → a ≤ b
rank_le a b c h = ground (arith, h)

Ascending-Ranked :
    (os : List Operation) → Ascending (lex nat_order text_order) operation_key os → Ranked os
Ascending-Ranked [] h = tt
Ascending-Ranked (o ∷ []) h = (tt, tt)
Ascending-Ranked (o ∷ p ∷ os) (h, hs) =
    let (above, ranked) = Ascending-Ranked (p ∷ os) hs in
    let le : rank o ≤ rank p = rank_le (rank o) (rank p) _ h in
    (
      (
        le,
        All-map (λ (q : Operation). rank p ≤ rank q) (λ (q : Operation). rank o ≤ rank q) os
            (λ q k. omega (arith, le, k)) above,
      ),
      (above, ranked),
    )

not_patch : (e : PatchError) (p : Patch) → ◌≡◌ {A = Result PatchError Patch} (err e) (ok p) → ⊥
not_patch e p h = ground (arith, h)

patch_inj : (p q : Patch) → ◌≡◌ {A = Result PatchError Patch} (ok p) (ok q) → p ≡ q
patch_inj p q h = ground (arith, h)

module _ (hash : Bytes → Text) where
  encoded_operations :
      (s : Text) (os : List Operation) (p : Patch) (b : Option Bytes)
      → encoded_patch hash s os b ≡ ok p
      → (os ≡ p.operations) × (p.digest ≡ hash p.canonical)
  encoded_operations s os p none h = absurd (not_patch _ p h)
  encoded_operations s os p (some b) h =
      let same = patch_inj _ p h in
      (
        ap (λ (q : Patch). q.operations) same,
        subst (λ (q : Patch). q.digest ≡ hash q.canonical) same refl,
      )

  -- The operations of a patch, as `NewPatch` leaves them.
  pub new_patch-IsReady :
      (s : Schema) (os : List Operation) (p : Patch)
      → new_patch hash s os ≡ ok p
      → All IsReady p.operations × Ranked p.operations × (p.digest ≡ hash p.canonical)
  unfolding new_patch
  new_patch-IsReady s os p h = elim (Bool-cases (is_empty s.canonical)) [
    | inl b ↦ absurd (not_patch _ p (rw b at h))
    | inr b ↦ elim (Bool-cases (length os == 0)) [
      | inl c ↦ absurd (not_patch _ p (rw (b, c) at h))
      | inr c ↦ elim (Option-cases (validate_operations s (map normalized os))) [
        | inr (e, f) ↦ absurd (not_patch _ p (rw (b, c, f) at h))
        | inl f ↦
            let sorted = sort_operations (map normalized os) in
            let (same, hashed) =
              encoded_operations s.digest sorted p (encode_patch s.digest sorted)
                (rw (b, c, f) at h) in
            (
              subst (All IsReady) same (
                  All-sort (lex nat_order text_order) operation_key IsReady (map normalized os)
                    (all-IsReady s os f)),
              subst Ranked same (
                  Ascending-Ranked sorted
                    (sort-Ascending (lex nat_order text_order) operation_key (map normalized os))),
              hashed,
            )
      ]
    ]
  ]
