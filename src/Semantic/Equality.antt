-- ===== src/Semantic/Equality.antt =====
-- `entitiesEqual` finds out whether two entities with fields in canonical order are the same.
use maiden_lane.Base.{
  suc, ◌≤◌, true, false, List, [], ◌∷◌, Option, none, some, if◌then◌else◌, Text, ◌=?◌, text_eq,
  =?-refl, eq_of_=?, Bool-cases, Option-cases, inl, inr, ◌≡◌, ◌↔◌, refl, sym, ap, ap₂, ◌∙◌, arith,
  length, ==_iff, ◌==◌, false≢true,
}
use maiden_lane.Base.Order.{text_order, pair_eq}
use maiden_lane.Base.Sorted.{find, remove, Unique, Fresh, Unique-remove, find-remove_ne}
use maiden_lane.Base.Sorting.{Increasing-Unique}
use maiden_lane.Semantic.Value.{Value, value_eq}
use maiden_lane.Semantic.Graph.{Field, Entity, name_of, field, fields_in, entities_equal, ref_eq}
use maiden_lane.Semantic.Fields.{IsNormal, field-ext}

length-remove :
    (n : Text) (v : Value) (fs : List Field)
    → field n fs ≡ some v
    → suc (length (remove name_of n fs)) ≡ length fs
unfolding field find remove
length-remove n v [] h = absurd (ground arith)
length-remove n v ((m, w) ∷ fs) h = elim (Bool-cases (m =? n)) [
  | inl b ↦ rw b refl
  | inr b ↦ rw b (ap suc (length-remove n v fs (rw b at h)))
]

field_cons :
    (n k : Text) (v : Value) (fs : List Field)
    → field k ((n, v) ∷ fs) ≡ (if n =? k then some v else field k fs)
unfolding field find
field_cons n k v fs = elim (Bool-cases (n =? k)) [ inl b ↦ rw b refl | inr b ↦ rw b refl ]

field-remove_ne :
    (n k : Text) (fs : List Field) → (n =? k) ≡ false → field k (remove name_of n fs) ≡ field k fs
unfolding field
field-remove_ne n k fs h = rw (find-remove_ne name_of n k fs h) refl

-- One step of the loop that succeeds.
found_in :
    (n : Text) (v : Value) (fs gs : List Field)
    → fields_in ((n, v) ∷ fs) gs ≡ true
    → (field n gs ≡ some v) × (fields_in fs gs ≡ true)
unfolding fields_in
found_in n v fs gs h = elim (Option-cases (field n gs)) [
  | inl f ↦ absurd (false≢true (rw (fields_in, f) at h))
  | inr (w, f) ↦ elim (Bool-cases (v =? w)) [
    | inl b ↦ (rw (eq_of_=? v w b) f, rw (fields_in, f, b) at h)
    | inr b ↦ absurd (false≢true (rw (fields_in, f, b) at h))
  ]
]

fields_in_cons :
    (n : Text) (v : Value) (fs gs : List Field)
    → field n gs ≡ some v
    → fields_in fs gs ≡ true
    → fields_in ((n, v) ∷ fs) gs ≡ true
unfolding fields_in
fields_in_cons n v fs gs f h = rw (fields_in, f, =?-refl v) h

differs_of_Fresh :
    (n m : Text) (v : Value) (fs : List Field)
    → Fresh name_of n ((m, v) ∷ fs)
    → ((n =? m) ≡ false) × Fresh name_of n fs
unfolding find
differs_of_Fresh n m v fs h = elim (Bool-cases (m =? n)) [
  | inl b ↦
      absurd (let same : ◌≡◌ {A = Option Field} (some (m, v)) none = rw b at h in ground arith)
  | inr b ↦ elim (Bool-cases (n =? m)) [
    | inl c ↦ absurd (false≢true (sym b ∙ rw (eq_of_=? n m c) (=?-refl m)))
    | inr c ↦ (c, rw b at h)
  ]
]

fields_in-remove :
    (n : Text) (fs gs : List Field)
    → Fresh name_of n fs
    → fields_in fs gs ≡ true
    → fields_in fs (remove name_of n gs) ≡ true
unfolding fields_in
fields_in-remove n [] gs fresh h = refl
fields_in-remove n ((m, v) ∷ fs) gs fresh h =
    let (differ, rest) = differs_of_Fresh n m v fs fresh in
    let (here, there) = found_in m v fs gs h in
    fields_in_cons m v fs (remove name_of n gs) (field-remove_ne n m gs differ ∙ here)
      (fields_in-remove n fs gs rest there)

-- Fields that all stand in others, which are not more, are those others.
fields_in-covers :
    (fs gs : List Field)
    → Unique name_of fs
    → Unique name_of gs
    → fields_in fs gs ≡ true
    → length gs ≤ length fs
    → (k : Text) → field k fs ≡ field k gs
unfolding field find
fields_in-covers [] [] u w h l k = refl
fields_in-covers [] (g ∷ gs) u w h l k = absurd (ground arith)
fields_in-covers ((n, v) ∷ fs) gs (fresh, u) w h l k =
    let (here, there) = found_in n v fs gs h in
    let count = length-remove n v gs here in
    let covered =
      fields_in-covers fs (remove name_of n gs) u (Unique-remove name_of n gs w)
        (fields_in-remove n fs gs fresh there) (omega (arith, count, l)) k in
    field_cons n k v fs ∙ elim (Bool-cases (n =? k)) [
      | inl b ↦ rw b (sym here ∙ rw (eq_of_=? n k b) refl)
      | inr b ↦ rw b (covered ∙ field-remove_ne n k gs b)
    ]

pub eq_of_entities_equal :
    (a b : Entity) → IsNormal a.fields → IsNormal b.fields → entities_equal a b ≡ true → a ≡ b
unfolding entities_equal
eq_of_entities_equal a b ha hb h = elim (Bool-cases (a.ref =? b.ref)) [
  | inr r ↦ absurd (false≢true (rw r at h))
  | inl r ↦ elim (Bool-cases (length a.fields == length b.fields)) [
    | inr l ↦ absurd (false≢true (rw (r, l) at h))
    | inl l ↦
        let covered =
          fields_in-covers a.fields b.fields (Increasing-Unique text_order name_of a.fields ha)
            (Increasing-Unique text_order name_of b.fields hb) (rw (r, l) at h)
            (ground (arith, l)) in
        ap₂ (λ s fs. record { ref = s; fields = fs }) (eq_of_=? a.ref b.ref r)
          (field-ext a.fields b.fields ha hb covered)
  ]
]

fields_in_cons_right :
    (m : Text) (w : Value) (fs gs : List Field)
    → Fresh name_of m fs
    → fields_in fs gs ≡ true
    → fields_in fs ((m, w) ∷ gs) ≡ true
unfolding fields_in
fields_in_cons_right m w [] gs fresh h = refl
fields_in_cons_right m w ((n, v) ∷ fs) gs fresh h =
    let (differ, rest) = differs_of_Fresh m n v fs fresh in
    let (here, there) = found_in n v fs gs h in
    fields_in_cons n v fs ((m, w) ∷ gs) (field_cons m n w gs ∙ rw differ here)
      (fields_in_cons_right m w fs gs rest there)

fields_in_refl : (fs : List Field) → Unique name_of fs → fields_in fs fs ≡ true
unfolding fields_in
fields_in_refl [] u = refl
fields_in_refl ((n, v) ∷ fs) (fresh, u) =
    fields_in_cons n v fs ((n, v) ∷ fs) (field_cons n n v fs ∙ rw (=?-refl n) refl)
      (fields_in_cons_right n v fs fs fresh (fields_in_refl fs u))

pub entities_equal_refl : (a : Entity) → IsNormal a.fields → entities_equal a a ≡ true
unfolding entities_equal
entities_equal_refl a h =
    rw (=?-refl a.ref, (==_iff (length a.fields) (length a.fields)).1 refl)
      (fields_in_refl a.fields (Increasing-Unique text_order name_of a.fields h))

-- For entities with their fields in canonical order, `entitiesEqual` answers true just where they
-- are the same entity with the same fields.
pub entities_equal_iff :
    (a b : Entity) → IsNormal a.fields → IsNormal b.fields → (entities_equal a b ≡ true) ↔ (a ≡ b)
entities_equal_iff a b ha hb =
    (eq_of_entities_equal a b ha hb, λ p. rw (← p) (entities_equal_refl a ha))
