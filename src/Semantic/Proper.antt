-- ===== src/Semantic/Proper.antt =====
-- What the loop of `ApplyPatch` keeps: no entity and no relation twice, fields in canonical order, and,
-- until an entity is deleted, no relation whose endpoint is missing.
use maiden_lane.Base.{
  ◌<◌, Bool, true, false, List, [], ◌∷◌, ◌++◌, Option, none, some, if◌then◌else◌, ◌=?◌, text_eq,
  ◌≡◌, refl, sym, ap, subst, ◌∙◌, arith,
}
use maiden_lane.Base.Sorted.{
  find, remove, replace, find_key, Unique, Unique-append, Unique-remove, Unique-replace,
  find-replace,
}
use maiden_lane.Base.Edits.{find-append_one, found_before}
use maiden_lane.Base.Order.{pair_eq}
use maiden_lane.Semantic.Value.{value_eq, parses}
use maiden_lane.Semantic.Graph.{
  EntityRef, Relation, Entity, ref_of, itself, ref_eq, relation_eq, clone_fields, clone_entity,
  find_entity,
}
use maiden_lane.Semantic.Patch.{
  Operation, insert_op, relate_op, update_op, unrelate_op, delete_op, rank,
}
use maiden_lane.Semantic.Apply.{Graph, write_changes, with_fields}
use maiden_lane.Semantic.Fields.{IsNormal, clone_fields-IsNormal}
use maiden_lane.Semantic.Images.{write_changes-IsNormal}
use maiden_lane.Semantic.Steps.{Steps, Runs, HasEntity}

abbrev pub AllNormal : List Entity → Type 0
AllNormal es = (k : EntityRef) (e : Entity) → find_entity k es ≡ some e → IsNormal e.fields

abbrev pub IsProper : Graph → Type 0
IsProper g = Unique ref_of g.entities × Unique itself g.relations × AllNormal g.entities

abbrev pub IsClosed : Graph → Type 0
IsClosed g =
    (r : Relation)
    → find itself r g.relations ≡ some r
    → HasEntity r.from g.entities × HasEntity r.to g.entities

some_inj : (a b : Entity) → ◌≡◌ {A = Option Entity} (some a) (some b) → a ≡ b
some_inj a b h = ground (arith, h)

-- What is found after an edit is the new value, or was found before.
either-IsNormal :
    (c : Bool) (a e : Entity) (o : Option Entity)
    → IsNormal a.fields
    → (o ≡ some e → IsNormal e.fields)
    → ◌≡◌ {A = Option Entity} (if c then some a else o) (some e)
    → IsNormal e.fields
either-IsNormal true a e o n old h = subst (λ (x : Entity). IsNormal x.fields) (some_inj a e h) n
either-IsNormal false a e o n old h = old h

AllNormal-append :
    (es : List Entity) (a : Entity)
    → find_entity a.ref es ≡ none
    → IsNormal a.fields
    → AllNormal es
    → AllNormal (es ++ a ∷ [])
AllNormal-append es a fresh n all k e h =
    either-IsNormal (a.ref =? k) a e (find_entity k es) n (all k e)
      (sym (find-append_one ref_of k es a fresh) ∙ h)

AllNormal-replace :
    (es : List Entity) (a old : Entity) (k : EntityRef)
    → a.ref ≡ k
    → find_entity k es ≡ some old
    → IsNormal a.fields
    → AllNormal es
    → AllNormal (replace ref_of k a es)
AllNormal-replace es a old k same held n all j e h =
    either-IsNormal (k =? j) a e (find_entity j es) n (all j e)
      (sym (find-replace ref_of k j a old es same held) ∙ h)

AllNormal-remove :
    (es : List Entity) (k : EntityRef)
    → Unique ref_of es
    → AllNormal es
    → AllNormal (remove ref_of k es)
AllNormal-remove es k u all j e h = all j e (found_before ref_of k j es e u h)

pub step-IsProper : (o : Operation) (g h : Graph) → IsProper g → Steps o g h → IsProper h
unfolding clone_entity
step-IsProper (insert_op e) g h (u, w, n) (f, p) = subst IsProper (sym p) (
  Unique-append ref_of g.entities (clone_entity e) u f,
  w,
  AllNormal-append g.entities (clone_entity e) f (clone_fields-IsNormal e.fields) n,
)
step-IsProper (relate_op r) g h (u, w, n) (f, a, b, p) =
    subst IsProper (sym p) (u, Unique-append itself g.relations r w f, n)
step-IsProper (update_op t cs) g h (u, w, n) (e, f, b, p) =
    let same = find_key ref_of t g.entities e f in
    let next = with_fields e (write_changes cs (clone_fields e.fields)) in
    subst IsProper (sym p) (
      Unique-replace ref_of t next g.entities same u,
      w,
      AllNormal-replace g.entities next e t same f
          (write_changes-IsNormal cs (clone_fields e.fields) (clone_fields-IsNormal e.fields)) n,
    )
step-IsProper (unrelate_op r) g h (u, w, n) (f, p) =
    subst IsProper (sym p) (u, Unique-remove itself r g.relations w, n)
step-IsProper (delete_op d) g h (u, w, n) (e, f, b, p) =
    subst IsProper (sym p)
      (Unique-remove ref_of d.ref g.entities u, w, AllNormal-remove g.entities d.ref u n)

still_there :
    (c : Bool) (a : Entity) (o : Option Entity)
    → parses o ≡ true
    → parses (if c then some a else o) ≡ true
still_there true a o h = refl
still_there false a o h = h

HasEntity-append :
    (es : List Entity) (a : Entity) (k : EntityRef)
    → find_entity a.ref es ≡ none
    → HasEntity k es
    → HasEntity k (es ++ a ∷ [])
HasEntity-append es a k fresh h =
    ap parses (find-append_one ref_of k es a fresh)
    ∙ still_there (a.ref =? k) a (find_entity k es) h

HasEntity-replace :
    (es : List Entity) (a old : Entity) (k j : EntityRef)
    → a.ref ≡ k
    → find_entity k es ≡ some old
    → HasEntity j es
    → HasEntity j (replace ref_of k a es)
HasEntity-replace es a old k j same held h =
    ap parses (find-replace ref_of k j a old es same held)
    ∙ still_there (k =? j) a (find_entity j es) h

some_rel_inj : (a b : Relation) → ◌≡◌ {A = Option Relation} (some a) (some b) → a ≡ b
some_rel_inj a b h = ground (arith, h)

closed_related :
    (g : Graph) (r x : Relation) (c : Bool)
    → IsClosed g
    → HasEntity r.from g.entities
    → HasEntity r.to g.entities
    → ◌≡◌ {A = Option Relation} (if c then some r else find itself x g.relations) (some x)
    → HasEntity x.from g.entities × HasEntity x.to g.entities
closed_related g r x true closed a b h =
    subst (λ (y : Relation). HasEntity y.from g.entities × HasEntity y.to g.entities)
      (some_rel_inj r x h) (a, b)
closed_related g r x false closed a b h = closed x h

-- Only a deletion can leave a relation without an endpoint.
pub step-IsClosed :
    (o : Operation) (g h : Graph) → rank o < 5 → IsProper g → IsClosed g → Steps o g h → IsClosed h
unfolding rank clone_entity
step-IsClosed (insert_op e) g h l proper closed (f, p) = subst IsClosed (sym p) (λ r held.
    let (a, b) = closed r held in
    (
      HasEntity-append g.entities (clone_entity e) r.from f a,
      HasEntity-append g.entities (clone_entity e) r.to f b,
    ))
step-IsClosed (relate_op r) g h l proper closed (f, a, b, p) = subst IsClosed (sym p) (λ x held.
    closed_related g r x (r =? x) closed a b
      (sym (find-append_one itself x g.relations r f) ∙ held))
step-IsClosed (update_op t cs) g h l proper closed (e, f, b, p) =
    let same = find_key ref_of t g.entities e f in
    let next = with_fields e (write_changes cs (clone_fields e.fields)) in
    subst IsClosed (sym p) (λ r held.
      let (x, y) = closed r held in
      (
        HasEntity-replace g.entities next e t r.from same f x,
        HasEntity-replace g.entities next e t r.to same f y,
      ))
step-IsClosed (unrelate_op r) g h l (u, w, n) closed (f, p) =
    subst IsClosed (sym p) (λ x held. closed x (found_before itself r x g.relations x w held))
step-IsClosed (delete_op d) g h l proper closed s = absurd (ground (arith, l))

pub Runs-IsProper : (os : List Operation) (g h : Graph) → IsProper g → Runs os g h → IsProper h
Runs-IsProper [] g h proper p = subst IsProper p proper
Runs-IsProper (o ∷ os) g h proper (m, first, rest) =
    Runs-IsProper os m h (step-IsProper o g m proper first) rest
