-- ===== src/Semantic/Reversal.antt =====
-- One round of `UndoPatch` takes back one round of `ApplyPatch`, in whatever order the working lists are.
use maiden_lane.Base.{
  ◌<◌, true, false, List, [], ◌∷◌, ◌++◌, Option, none, some, ◌=?◌, text_eq, Bool-cases, eq_of_=?,
  inl, inr, ◌≡◌, refl, sym, ap, subst, ◌∙◌, arith, =?-refl, ok, false≢true,
}
use maiden_lane.Base.Sorted.{
  find, remove, replace, find_key, Unique, Unique-append, Unique-remove, Unique-replace,
}
use maiden_lane.Base.Edits.{Alike, find-append_one, remove-append, append-remove, replace_back}
use maiden_lane.Base.Order.{pair_eq}
use maiden_lane.Semantic.Value.{value_eq, parses}
use maiden_lane.Semantic.Graph.{
  EntityRef, Relation, Field, Entity, ref_of, itself, ref_eq, relation_eq, clone_fields,
  find_entity,
}
use maiden_lane.Semantic.Patch.{
  FieldUpdate, Operation, insert_op, relate_op, update_op, unrelate_op, delete_op, update_name,
  rank,
}
use maiden_lane.Semantic.Apply.{Graph, before_matches, write_changes, with_fields}
use maiden_lane.Semantic.Undo.{undo_operation, after_matches, restore_changes, touches}
use maiden_lane.Semantic.Fields.{IsNormal, clone_fields_lem, clone_entity_lem}
use maiden_lane.Semantic.Equality.{eq_of_entities_equal, entities_equal_refl}
use maiden_lane.Semantic.Images.{write_changes-IsNormal, after_matches-write, restore-write}
use maiden_lane.Semantic.Steps.{Steps, HasEntity, related, changed, unrelated, removed}
use maiden_lane.Semantic.Proper.{IsProper, IsClosed}

-- Graphs in which a search finds the same.
abbrev pub AlikeGraphs : Graph → Graph → Type 0
AlikeGraphs v w = Alike ref_of v.entities w.entities × Alike itself v.relations w.relations

abbrev pub IsDistinct : Graph → Type 0
IsDistinct v = Unique ref_of v.entities × Unique itself v.relations

-- What `NewPatch` leaves of an operation: fields in canonical order, no name twice in an update.
abbrev pub IsReady : Operation → Type 0
IsReady (insert_op e) = IsNormal e.fields
IsReady (relate_op r) = Unit
IsReady (update_op t cs) = Unique update_name cs
IsReady (unrelate_op r) = Unit
IsReady (delete_op e) = IsNormal e.fields

-- Taking an operation back leads to a graph like the one before.
abbrev pub GoesBack : Operation → Graph → Graph → Type 0
GoesBack o v w = (u : Graph) × (undo_operation o v ≡ ok u) × IsDistinct u × AlikeGraphs u w

HasEntity-Alike :
    (k : EntityRef) (vs ws : List Entity) → Alike ref_of vs ws → HasEntity k ws → HasEntity k vs
HasEntity-Alike k vs ws same h = ap parses (same k) ∙ h

is_some : (r : Relation) → ◌≡◌ {A = Option Relation} (some r) none → ⊥
is_some r h = ground arith

found_in_tail :
    (x r : Relation) (rs : List Relation)
    → find itself r rs ≡ some r
    → find itself r (x ∷ rs) ≡ some r
unfolding find
found_in_tail x r rs h = elim (Bool-cases (x =? r)) [
  | inl b ↦ rw (b, eq_of_=? x r b) refl
  | inr b ↦ rw b h
]

found_at_head : (x : Relation) (rs : List Relation) → find itself x (x ∷ rs) ≡ some x
unfolding find
found_at_head x rs = rw (=?-refl x) refl

-- No relation touches an entity that is missing where all endpoints are there.
missing_ne :
    (k j : EntityRef) (ws : List Entity)
    → find_entity k ws ≡ none
    → HasEntity j ws
    → (j =? k) ≡ false
missing_ne k j ws gone h = elim (Bool-cases (j =? k)) [
  | inr b ↦ b
  | inl b ↦ absurd (false≢true (sym (ap parses gone) ∙ rw (eq_of_=? j k b) at h))
]

touches-false :
    (k : EntityRef) (rs : List Relation)
    → ((r : Relation) → find itself r rs ≡ some r → ((r.from =? k) ≡ false) × ((r.to =? k) ≡ false))
    → touches k rs ≡ false
unfolding touches
touches-false k [] h = refl
touches-false k (x ∷ xs) h =
    let (a, b) = h x (found_at_head x xs) in
    rw (a, b) (touches-false k xs (λ r held. h r (found_in_tail x r xs held)))

insert_back :
    (e : Entity) (g : Graph)
    → IsNormal e.fields
    → IsClosed g
    → find_entity e.ref g.entities ≡ none
    → (v : Graph) → IsDistinct v
    → AlikeGraphs v (record { entities = g.entities ++ e ∷ []; relations = g.relations })
    → GoesBack (insert_op e) v g
unfolding undo_operation
insert_back e g n closed gone v (u, w) (es, rs) =
    let there : find_entity e.ref v.entities ≡ some e =
      es e.ref ∙ find-append_one ref_of e.ref g.entities e gone ∙ rw (=?-refl e.ref) refl in
    let apart = touches-false e.ref v.relations (λ r held.
      let (a, b) = closed r (sym (rs r) ∙ held) in
      (missing_ne e.ref r.from g.entities gone a, missing_ne e.ref r.to g.entities gone b)) in
    (
      record { entities = remove ref_of e.ref v.entities; relations = v.relations },
      rw (there, entities_equal_refl e n, apart) refl,
      (Unique-remove ref_of e.ref v.entities u, w),
      (remove-append ref_of v.entities g.entities e u gone es, rs),
    )

relate_back :
    (r : Relation) (g : Graph)
    → find itself r g.relations ≡ none
    → (v : Graph) → IsDistinct v
    → AlikeGraphs v (related r g)
    → GoesBack (relate_op r) v g
unfolding undo_operation
relate_back r g gone v (u, w) (es, rs) =
    let there : find itself r v.relations ≡ some r =
      rs r ∙ find-append_one itself r g.relations r gone ∙ rw (=?-refl r) refl in
    (
      record { entities = v.entities; relations = remove itself r v.relations },
      rw there refl,
      (u, Unique-remove itself r v.relations w),
      (es, remove-append itself v.relations g.relations r w gone rs),
    )

-- The fields of an entity after an update and its inverse.
images_back :
    (fs : List Field) (cs : List FieldUpdate)
    → IsNormal fs
    → Unique update_name cs
    → before_matches (clone_fields fs) cs ≡ true
    → (after_matches (clone_fields (write_changes cs (clone_fields fs))) cs ≡ true)
      × (restore_changes cs (clone_fields (write_changes cs (clone_fields fs))) ≡ fs)
images_back fs cs n u b =
    let same = clone_fields_lem fs n in
    let written = clone_fields_lem (write_changes cs fs) (write_changes-IsNormal cs fs n) in
    rw (same, written) (after_matches-write cs fs n u, restore-write cs fs n (rw same at b))

update_back :
    (t : EntityRef) (cs : List FieldUpdate) (e : Entity) (g : Graph)
    → Unique update_name cs
    → IsNormal e.fields
    → find_entity t g.entities ≡ some e
    → before_matches (clone_fields e.fields) cs ≡ true
    → (v : Graph) → IsDistinct v
    → AlikeGraphs v (changed t cs e g)
    → GoesBack (update_op t cs) v g
unfolding undo_operation
update_back t cs e g distinct n f b v (u, w) (es, rs) =
    let same = find_key ref_of t g.entities e f in
    let next = with_fields e (write_changes cs (clone_fields e.fields)) in
    let (there, back) = replace_back ref_of t v.entities g.entities e next same same f es in
    let (matches, restores) = images_back e.fields cs n distinct b in
    (
      record { entities = replace ref_of t e v.entities; relations = v.relations },
      rw (there, matches, restores) refl,
      (Unique-replace ref_of t e v.entities same u, w),
      (back, rs),
    )

unrelate_back :
    (r : Relation) (g : Graph)
    → IsProper g
    → IsClosed g
    → find itself r g.relations ≡ some r
    → (v : Graph) → IsDistinct v
    → AlikeGraphs v (unrelated r g)
    → GoesBack (unrelate_op r) v g
unfolding undo_operation
unrelate_back r g (x, y, z) closed held v (u, w) (es, rs) =
    let (gone, back) = append-remove itself v.relations g.relations r y held rs in
    let (a, b) = closed r held in
    (
      record { entities = v.entities; relations = v.relations ++ r ∷ [] },
      rw
          (
            gone,
            HasEntity-Alike r.from v.entities g.entities es a,
            HasEntity-Alike r.to v.entities g.entities es b,
          )
          refl,
      (u, Unique-append itself v.relations r w gone),
      (es, back),
    )

delete_back :
    (d : Entity) (g : Graph)
    → IsNormal d.fields
    → IsProper g
    → find_entity d.ref g.entities ≡ some d
    → (v : Graph) → IsDistinct v
    → AlikeGraphs v (removed d g)
    → GoesBack (delete_op d) v g
unfolding undo_operation
delete_back d g n (x, y, z) held v (u, w) (es, rs) =
    let (gone, back) = append-remove ref_of v.entities g.entities d x held es in
    (
      record { entities = v.entities ++ d ∷ []; relations = v.relations },
      rw (gone, clone_entity_lem d n) refl,
      (Unique-append ref_of v.entities d u gone, w),
      (back, rs),
    )

pub step_back :
    (o : Operation) (g h : Graph)
    → IsReady o
    → IsProper g
    → (rank o < 5 → IsClosed g)
    → Steps o g h
    → (v : Graph) → IsDistinct v
    → AlikeGraphs v h
    → GoesBack o v g
unfolding rank
step_back (insert_op e) g h ready proper closed (f, p) v u same =
    insert_back e g ready (closed (omega arith)) f v u (
      subst
        (λ x. AlikeGraphs v (record { entities = g.entities ++ x ∷ []; relations = g.relations }))
        (clone_entity_lem e ready) (subst (AlikeGraphs v) p same))
step_back (relate_op r) g h ready proper closed (f, a, b, p) v u same =
    relate_back r g f v u (subst (AlikeGraphs v) p same)
step_back (update_op t cs) g h ready (x, y, z) closed (e, f, b, p) v u same =
    update_back t cs e g ready (z t e f) f b v u (subst (AlikeGraphs v) p same)
step_back (unrelate_op r) g h ready proper closed (f, p) v u same =
    unrelate_back r g proper (closed (omega arith)) f v u (subst (AlikeGraphs v) p same)
step_back (delete_op d) g h ready (x, y, z) closed (e, f, b, p) v u same =
    let equal = eq_of_entities_equal e d (z d.ref e f) ready b in
    delete_back d g ready (x, y, z) (f ∙ ap some equal) v u (subst (AlikeGraphs v) p same)
