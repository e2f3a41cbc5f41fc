-- ===== src/Base/Edits.antt =====
-- An edit of a list with no key twice, and the edit that takes it back: what a search finds.
use mathlib.Core.Path.{◌≡◌, refl, sym, ◌∙◌}
use mathlib.Core.Logic.{inl, inr}
use mathlib.Core.Option.{Option, none, some}
use mathlib.Core.List.{List, [], ◌∷◌, ◌++◌}
use native.Mathlib.Omega.{arith}
use maiden_lane.Base.Tests.{if◌then◌else◌, Bool-cases}
use maiden_lane.Base.Keys.{Eq, ◌=?◌, =?-refl, eq_of_=?}
use maiden_lane.Base.Sorted.{
  or_found, find, remove, replace, Unique, find-append, find-remove_ne, find-remove_self,
  find-replace,
}

default_none : {A : Type 0} (o : Option A) → or_found o none ≡ o
default_none none = refl
default_none (some x) = refl

module _ {A K : Type 0} ⦃e : Eq K⦄ (key : A → K) where
  -- Two lists in which a search finds the same.
  abbrev pub Alike : List A → List A → Type 0
  Alike xs ys = (k : K) → find key k xs ≡ find key k ys

  pub find-append_one :
      (k : K) (xs : List A) (a : A)
      → find key (key a) xs ≡ none
      → find key k (xs ++ a ∷ []) ≡ (if key a =? k then some a else find key k xs)
  unfolding find
  find-append_one k xs a h = elim (Bool-cases (key a =? k)) [
    | inl b ↦ find-append key k xs (a ∷ []) ∙ rw (← (eq_of_=? (key a) k b), h, =?-refl (key a)) refl
    | inr b ↦ find-append key k xs (a ∷ []) ∙ rw b (default_none (find key k xs))
  ]

  pub remove-append :
      (vs ws : List A) (a : A)
      → Unique key vs
      → find key (key a) ws ≡ none
      → Alike vs (ws ++ a ∷ [])
      → Alike (remove key (key a) vs) ws
  remove-append vs ws a u fresh same k = elim (Bool-cases (key a =? k)) [
    | inl b ↦ rw (← (eq_of_=? (key a) k b)) (find-remove_self key (key a) vs u ∙ sym fresh)
    | inr b ↦ find-remove_ne key (key a) k vs b ∙ same k ∙ find-append_one k ws a fresh ∙ rw b refl
  ]

  pub append-remove :
      (vs ws : List A) (a : A)
      → Unique key ws
      → find key (key a) ws ≡ some a
      → Alike vs (remove key (key a) ws)
      → (find key (key a) vs ≡ none) × Alike (vs ++ a ∷ []) ws
  append-remove vs ws a u held same =
      let fresh = same (key a) ∙ find-remove_self key (key a) ws u in
      (
        fresh,
        λ k. find-append_one k vs a fresh ∙ elim (Bool-cases (key a =? k)) [
          | inl b ↦ rw (b, ← (eq_of_=? (key a) k b)) (sym held)
          | inr b ↦ rw b (same k ∙ find-remove_ne key (key a) k ws b)
        ],
      )

  pub replace_back :
      (k : K) (vs ws : List A) (a b : A)
      → key a ≡ k
      → key b ≡ k
      → find key k ws ≡ some a
      → Alike vs (replace key k b ws)
      → (find key k vs ≡ some b) × Alike (replace key k a vs) ws
  replace_back k vs ws a b here keys held same =
      let there = same k ∙ find-replace key k k b a ws keys held ∙ rw (=?-refl k) refl in
      (
        there,
        λ j. find-replace key k j a b vs here there ∙ elim (Bool-cases (k =? j)) [
          | inl c ↦ rw (c, ← (eq_of_=? k j c)) (sym held)
          | inr c ↦ rw c (same j ∙ find-replace key k j b a ws keys held ∙ rw c refl)
        ],
      )

  none_is_some : (a : A) → ◌≡◌ {A = Option A} none (some a) → ⊥
  none_is_some a h = ground arith

  pub found_before :
      (k j : K) (xs : List A) (a : A)
      → Unique key xs
      → find key j (remove key k xs) ≡ some a
      → find key j xs ≡ some a
  found_before k j xs a u h = elim (Bool-cases (k =? j)) [
    | inr b ↦ sym (find-remove_ne key k j xs b) ∙ h
    | inl b ↦
        let gone : find key j (remove key k xs) ≡ none =
          rw (← (eq_of_=? k j b)) (find-remove_self key k xs u) in
        absurd (none_is_some a (sym gone ∙ h))
  ]
