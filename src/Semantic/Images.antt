-- ===== src/Semantic/Images.antt =====
-- Writing the changes of an update and restoring what was before.
use maiden_lane.Base.{
  true, false, List, [], ◌∷◌, none, some, if◌then◌else◌, Text, ◌=?◌, text_eq, =?-refl, eq_of_=?,
  Bool-cases, inl, inr, ◌≡◌, refl, sym, ap, ◌∙◌, arith, All, false≢true,
}
use maiden_lane.Base.Sorted.{find, Unique, Fresh}
use maiden_lane.Semantic.Value.{Value, value_eq}
use maiden_lane.Semantic.Graph.{Field, field, set_field}
use maiden_lane.Semantic.Patch.{FieldUpdate, FieldImage, update_name}
use maiden_lane.Semantic.Apply.{same_image, before_matches, write_changes}
use maiden_lane.Semantic.Undo.{after_matches, restore_field, restore_changes}
use maiden_lane.Semantic.Fields.{
  IsNormal, field-ext, field-set, field-delete, set_field-IsNormal, delete_field-IsNormal,
}

eq_of_same_image : (i j : FieldImage) → same_image i j ≡ true → i ≡ j
eq_of_same_image none none h = refl
eq_of_same_image none (some w) h = absurd (ground arith)
eq_of_same_image (some v) none h = absurd (ground arith)
eq_of_same_image (some v) (some w) h = ap some (eq_of_=? v w h)

same_image_refl : (v : Value) → same_image (some v) (some v) ≡ true
same_image_refl v = =?-refl v

abbrev pub HasBefore : List Field → FieldUpdate → Type 0
HasBefore fs c = field c.name fs ≡ c.before

abbrev pub HasAfter : List Field → FieldUpdate → Type 0
HasAfter fs c = field c.name fs ≡ some c.after

pub before_matches_lem :
    (fs : List Field) (cs : List FieldUpdate) → before_matches fs cs ≡ true → All (HasBefore fs) cs
unfolding before_matches
before_matches_lem fs [] h = tt
before_matches_lem fs (c ∷ cs) h = elim (Bool-cases (same_image (field c.name fs) c.before)) [
  | inl b ↦ (eq_of_same_image (field c.name fs) c.before b, before_matches_lem fs cs (rw b at h))
  | inr b ↦ absurd (false≢true (rw b at h))
]

same_image_eq : (i j : FieldImage) → i ≡ j → same_image i j ≡ true
same_image_eq none none h = refl
same_image_eq none (some w) h = absurd (ground (arith, h))
same_image_eq (some v) none h = absurd (ground (arith, h))
same_image_eq (some v) (some w) h = let same : v ≡ w = ground (arith, h) in rw same (=?-refl w)

pub before_matches_of :
    (fs : List Field) (cs : List FieldUpdate) → All (HasBefore fs) cs → before_matches fs cs ≡ true
unfolding before_matches
before_matches_of fs [] h = refl
before_matches_of fs (c ∷ cs) (h, hs) =
    rw (same_image_eq (field c.name fs) c.before h) (before_matches_of fs cs hs)

after_matches_of :
    (fs : List Field) (cs : List FieldUpdate) → All (HasAfter fs) cs → after_matches fs cs ≡ true
unfolding after_matches
after_matches_of fs [] h = refl
after_matches_of fs (c ∷ cs) (h, hs) = rw (h, =?-refl c.after) (after_matches_of fs cs hs)

pub write_changes-IsNormal :
    (cs : List FieldUpdate) (fs : List Field) → IsNormal fs → IsNormal (write_changes cs fs)
unfolding write_changes
write_changes-IsNormal [] fs h = h
write_changes-IsNormal (c ∷ cs) fs h =
    write_changes-IsNormal cs (set_field c.name c.after fs) (set_field-IsNormal c.name c.after fs h)

restore_field-IsNormal :
    (c : FieldUpdate) (i : FieldImage) (fs : List Field)
    → IsNormal fs
    → IsNormal (restore_field c i fs)
restore_field-IsNormal c none fs h = delete_field-IsNormal c.name fs h
restore_field-IsNormal c (some v) fs h = set_field-IsNormal c.name v fs h

restore_changes-IsNormal :
    (cs : List FieldUpdate) (fs : List Field) → IsNormal fs → IsNormal (restore_changes cs fs)
unfolding restore_changes
restore_changes-IsNormal [] fs h = h
restore_changes-IsNormal (c ∷ cs) fs h =
    restore_changes-IsNormal cs (restore_field c c.before fs)
      (restore_field-IsNormal c c.before fs h)

-- A name that is not the first change's, and not among the others.
Fresh-parts :
    (k : Text) (c : FieldUpdate) (cs : List FieldUpdate)
    → Fresh update_name k (c ∷ cs)
    → ((c.name =? k) ≡ false) × Fresh update_name k cs
unfolding find
Fresh-parts k c cs h = elim (Bool-cases (c.name =? k)) [
  | inl b ↦ absurd (let same : some c ≡ none = rw b at h in ground arith)
  | inr b ↦ (b, rw b at h)
]

Fresh-cons :
    (k : Text) (c : FieldUpdate) (cs : List FieldUpdate)
    → (c.name =? k) ≡ false
    → Fresh update_name k cs
    → Fresh update_name k (c ∷ cs)
unfolding find
Fresh-cons k c cs differ h = rw differ h

pub field-write-Fresh :
    (k : Text) (cs : List FieldUpdate) (fs : List Field)
    → IsNormal fs
    → Fresh update_name k cs
    → field k (write_changes cs fs) ≡ field k fs
unfolding write_changes
field-write-Fresh k [] fs n h = refl
field-write-Fresh k (c ∷ cs) fs n h =
    let (differ, rest) = Fresh-parts k c cs h in
    field-write-Fresh k cs (set_field c.name c.after fs) (set_field-IsNormal c.name c.after fs n)
      rest
    ∙ field-set c.name k c.after fs n
    ∙ rw differ refl

pub all_written :
    (cs : List FieldUpdate) (fs : List Field)
    → IsNormal fs
    → Unique update_name cs
    → All (HasAfter (write_changes cs fs)) cs
unfolding write_changes
all_written [] fs n u = tt
all_written (c ∷ cs) fs n (fresh, u) =
    let next = set_field-IsNormal c.name c.after fs n in
    (
      field-write-Fresh c.name cs (set_field c.name c.after fs) next fresh
          ∙ field-set c.name c.name c.after fs n
          ∙ rw (=?-refl c.name) refl,
      all_written cs (set_field c.name c.after fs) next u,
    )

-- What was written is found again by the inverse.
pub after_matches-write :
    (cs : List FieldUpdate) (fs : List Field)
    → IsNormal fs
    → Unique update_name cs
    → after_matches (write_changes cs fs) cs ≡ true
after_matches-write cs fs n u = after_matches_of (write_changes cs fs) cs (all_written cs fs n u)

field-restore :
    (c : FieldUpdate) (i : FieldImage) (k : Text) (fs : List Field)
    → IsNormal fs
    → field k (restore_field c i fs) ≡ (if c.name =? k then i else field k fs)
field-restore c none k fs n = field-delete c.name k fs n
field-restore c (some v) k fs n = field-set c.name k v fs n

-- Restoring goes back to fields that agree on every name that no change writes.
restored :
    (cs : List FieldUpdate) (fs gs : List Field)
    → IsNormal gs
    → All (HasBefore fs) cs
    → ((k : Text) → Fresh update_name k cs → field k gs ≡ field k fs)
    → (k : Text) → field k (restore_changes cs gs) ≡ field k fs
unfolding restore_changes find
restored [] fs gs n h same k = same k refl
restored (c ∷ cs) fs gs n (h, hs) same k =
    restored cs fs (restore_field c c.before gs) (restore_field-IsNormal c c.before gs n) hs
      (λ j fresh. field-restore c c.before j gs n ∙ elim (Bool-cases (c.name =? j)) [
        | inl b ↦ rw b (sym h ∙ rw (eq_of_=? c.name j b) refl)
        | inr b ↦ rw b (same j (Fresh-cons j c cs b fresh))
      ])
      k

pub restore-write :
    (cs : List FieldUpdate) (fs : List Field)
    → IsNormal fs
    → before_matches fs cs ≡ true
    → restore_changes cs (write_changes cs fs) ≡ fs
restore-write cs fs n h =
    let next = write_changes-IsNormal cs fs n in
    field-ext (restore_changes cs (write_changes cs fs)) fs
      (restore_changes-IsNormal cs (write_changes cs fs) next) n
      (restored cs fs (write_changes cs fs) next (before_matches_lem fs cs h)
        (λ k fresh. field-write-Fresh k cs fs n fresh))
