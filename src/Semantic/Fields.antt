-- ===== src/Semantic/Fields.antt =====
-- Reading and writing the fields of an entity, and that their canonical order makes equal maps equal lists.
use maiden_lane.Base.{
  List, [], ◌∷◌, Option, none, some, if◌then◌else◌, Text, ◌=?◌, text_eq, eq_of_=?, Bool-cases,
  Option-cases, inl, inr, ◌≡◌, refl, sym, ap, ◌∙◌,
}
use maiden_lane.Base.Order.{text_order}
use maiden_lane.Base.Sorted.{find, remove, find_key, find-remove_ne, find-remove_self}
use maiden_lane.Base.Sorting.{
  Increasing, Increasing-Unique, Increasing-remove, insort-Increasing, find-insort, Increasing-ext,
}
use maiden_lane.Semantic.Value.{Value, value_eq}
use maiden_lane.Semantic.Graph.{
  Field, Entity, name_of, field, set_field, delete_field, clone_fields, clone_entity,
}

-- Fields in the order of their names, each name once.
abbrev pub IsNormal : List Field → Type 0
IsNormal fs = Increasing text_order name_of fs

found_pair : (k : Text) (f : Field) → f.0 ≡ k → ◌≡◌ {A = Option Field} (some f) (some (k, f.1))
found_pair k (n, v) h = rw h refl

abbrev pair_under : Text → Option Value → Option Field
pair_under k none = none
pair_under k (some v) = some (k, v)

find_of_field : (k : Text) (fs : List Field) → find name_of k fs ≡ pair_under k (field k fs)
unfolding field
find_of_field k fs = elim (Option-cases (find name_of k fs)) [
  | inl h ↦ rw h refl
  | inr (f, h) ↦ rw h (found_pair k f (find_key name_of k fs f h))
]

find-none_of_field : (k : Text) (fs : List Field) → field k fs ≡ none → find name_of k fs ≡ none
find-none_of_field k fs h = rw (find_of_field k fs, h) refl

pub field-ext :
    (fs gs : List Field)
    → IsNormal fs
    → IsNormal gs
    → ((k : Text) → field k fs ≡ field k gs)
    → fs ≡ gs
field-ext fs gs hf hg same =
    Increasing-ext text_order name_of fs gs hf hg
      (λ k. find_of_field k fs ∙ ap (pair_under k) (same k) ∙ sym (find_of_field k gs))

field-remove_self :
    (k : Text) (fs : List Field) → IsNormal fs → field k (remove name_of k fs) ≡ none
unfolding field
field-remove_self k fs h =
    rw (find-remove_self name_of k fs (Increasing-Unique text_order name_of fs h)) refl

pub field-delete :
    (n k : Text) (fs : List Field)
    → IsNormal fs
    → field k (delete_field n fs) ≡ (if n =? k then none else field k fs)
unfolding field
field-delete n k fs h = elim (Bool-cases (n =? k)) [
  | inl b ↦ rw (b, ← (eq_of_=? n k b)) (field-remove_self n fs h)
  | inr b ↦ rw (b, find-remove_ne name_of n k fs b) refl
]

pub field-set :
    (n k : Text) (v : Value) (fs : List Field)
    → IsNormal fs
    → field k (set_field n v fs) ≡ (if n =? k then some v else field k fs)
unfolding field set_field
field-set n k v fs h =
    rw
      (find-insort text_order name_of (n, v) k (remove name_of n fs)
        (find-remove_self name_of n fs (Increasing-Unique text_order name_of fs h)))
      (elim (Bool-cases (n =? k)) [
        | inl b ↦ rw b refl
        | inr b ↦ rw (b, find-remove_ne name_of n k fs b) refl
      ])

pub set_field-IsNormal :
    (n : Text) (v : Value) (fs : List Field) → IsNormal fs → IsNormal (set_field n v fs)
unfolding set_field
set_field-IsNormal n v fs h =
    insort-Increasing text_order name_of (n, v) (remove name_of n fs)
      (find-remove_self name_of n fs (Increasing-Unique text_order name_of fs h))
      (Increasing-remove text_order name_of n fs h)

pub delete_field-IsNormal :
    (n : Text) (fs : List Field) → IsNormal fs → IsNormal (delete_field n fs)
delete_field-IsNormal n fs h = Increasing-remove text_order name_of n fs h

pub clone_fields-IsNormal : (fs : List Field) → IsNormal (clone_fields fs)
unfolding clone_fields
clone_fields-IsNormal [] = tt
clone_fields-IsNormal ((n, v) ∷ fs) =
    set_field-IsNormal n v (clone_fields fs) (clone_fields-IsNormal fs)

field_of_cons :
    (n k : Text) (v : Value) (fs : List Field)
    → field k ((n, v) ∷ fs) ≡ (if n =? k then some v else field k fs)
unfolding field find
field_of_cons n k v fs = elim (Bool-cases (n =? k)) [ inl b ↦ rw b refl | inr b ↦ rw b refl ]

pub field-clone : (k : Text) (fs : List Field) → field k (clone_fields fs) ≡ field k fs
unfolding clone_fields
field-clone k [] = refl
field-clone k ((n, v) ∷ fs) =
    rw
      (
        field-set n k v (clone_fields fs) (clone_fields-IsNormal fs),
        field-clone k fs,
        field_of_cons n k v fs,
      )
      refl

-- A copy of normal fields is the same list.
pub clone_fields_lem : (fs : List Field) → IsNormal fs → clone_fields fs ≡ fs
clone_fields_lem fs h =
    field-ext (clone_fields fs) fs (clone_fields-IsNormal fs) h (λ k. field-clone k fs)

pub clone_entity_lem : (e : Entity) → IsNormal e.fields → clone_entity e ≡ e
unfolding clone_entity
clone_entity_lem e h = ap (λ fs. record { ref = e.ref; fields = fs }) (clone_fields_lem e.fields h)
