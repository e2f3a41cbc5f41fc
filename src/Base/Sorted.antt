-- ===== src/Base/Sorted.antt =====
-- Lists of values under keys, each key once: search, removal and exchange.
use mathlib.Core.Path.{◌≡◌, refl, sym, ap, ◌∙◌}
use mathlib.Core.Logic.{inl, inr}
use mathlib.Core.Bool.{true, false, false≢true}
use mathlib.Core.Option.{Option, none, some}
use mathlib.Core.List.{List, [], ◌∷◌, ◌++◌}
use native.Mathlib.Omega.{arith}
use maiden_lane.Base.Tests.{if◌then◌else◌, Bool-cases}
use maiden_lane.Base.Keys.{Eq, ◌=?◌, eq_of_=?}

abbrev pub or_found : {A : Type 0} → Option A → Option A → Option A
or_found none o = o
or_found (some a) o = some a

module _ {A K : Type 0} ⦃e : Eq K⦄ (key : A → K) where
  -- The first value under a key.
  unfoldable pub find : K → List A → Option A
  find k [] = none
  find k (x ∷ xs) = if key x =? k then some x else find k xs

  -- The list without the first value under a key.
  unfoldable pub remove : K → List A → List A
  remove k [] = []
  remove k (x ∷ xs) = if key x =? k then xs else x ∷ remove k xs

  -- The list with the first value under a key exchanged.
  unfoldable pub replace : K → A → List A → List A
  replace k a [] = []
  replace k a (x ∷ xs) = if key x =? k then a ∷ xs else x ∷ replace k a xs

  abbrev pub Fresh : K → List A → Type 0
  Fresh k xs = find k xs ≡ none

  -- No key twice.
  abbrev pub Unique : List A → Type 0
  Unique [] = Unit {0}
  Unique (x ∷ xs) = Fresh (key x) xs × Unique xs

  pub find_key : (k : K) (xs : List A) (a : A) → find k xs ≡ some a → key a ≡ k
  unfolding find
  find_key k [] a h = absurd (ground arith)
  find_key k (x ∷ xs) a h = elim (Bool-cases (key x =? k)) [
    | inl b ↦ let same : some x ≡ some a = rw b at h in ground (arith, eq_of_=? (key x) k b)
    | inr b ↦ find_key k xs a (rw b at h)
  ]

  pub find-append : (k : K) (xs ys : List A) → find k (xs ++ ys) ≡ or_found (find k xs) (find k ys)
  unfolding find
  find-append k [] ys = refl
  find-append k (x ∷ xs) ys = elim (Bool-cases (key x =? k)) [
    | inl b ↦ rw b refl
    | inr b ↦ rw b (find-append k xs ys)
  ]

  pub find-remove_ne : (k j : K) (xs : List A) → (k =? j) ≡ false → find j (remove k xs) ≡ find j xs
  unfolding find remove
  find-remove_ne k j [] h = refl
  find-remove_ne k j (x ∷ xs) h = elim (Bool-cases (key x =? k)) [
    | inl b ↦ rw (b, eq_of_=? (key x) k b, h) refl
    | inr b ↦ rw b (ap (λ r. if key x =? j then some x else r) (find-remove_ne k j xs h))
  ]

  pub find-remove_self : (k : K) (xs : List A) → Unique xs → find k (remove k xs) ≡ none
  unfolding find remove
  find-remove_self k [] u = refl
  find-remove_self k (x ∷ xs) (fresh, u) = elim (Bool-cases (key x =? k)) [
    | inl b ↦ rw (b, ← (eq_of_=? (key x) k b)) fresh
    | inr b ↦ rw (b, b) (find-remove_self k xs u)
  ]

  -- The key of a value that is found is the key that was sought, and no other.
  ne_of_false : (j k : K) (x : A) → (key x =? k) ≡ false → (key x =? j) ≡ true → (k =? j) ≡ false
  ne_of_false j k x differ same = elim (Bool-cases (k =? j)) [
    | inr c ↦ c
    | inl c ↦
        let both : key x ≡ k = eq_of_=? (key x) j same ∙ sym (eq_of_=? k j c) in
        absurd (false≢true (sym differ ∙ (e.beq_iff (key x) k).1 both))
  ]

  pub find-replace :
      (k j : K) (a y : A) (xs : List A)
      → key a ≡ k
      → find k xs ≡ some y
      → find j (replace k a xs) ≡ (if k =? j then some a else find j xs)
  unfolding find replace
  find-replace k j a y [] h held = absurd (ground arith)
  find-replace k j a y (x ∷ xs) h held = elim (Bool-cases (key x =? k)) [
    | inl b ↦
        rw (b, h, eq_of_=? (key x) k b)
          (elim (Bool-cases (k =? j)) [ inl c ↦ rw c refl | inr c ↦ rw c refl ])
    | inr b ↦ elim (Bool-cases (key x =? j)) [
      | inl c ↦ rw (b, c, ne_of_false j k x b c) refl
      | inr c ↦ rw (b, c) (find-replace k j a y xs h (rw b at held))
    ]
  ]

  pub Fresh-append : (k : K) (xs ys : List A) → Fresh k xs → Fresh k ys → Fresh k (xs ++ ys)
  Fresh-append k xs ys hx hy = rw (find-append k xs ys, hx) hy

  pub Fresh-one : (k : K) (a : A) → (key a =? k) ≡ false → Fresh k (a ∷ [])
  unfolding find
  Fresh-one k a h = rw h refl

  Fresh-head :
      (k : K) (x : A) (xs : List A) → Fresh k (x ∷ xs) → ((key x =? k) ≡ false) × Fresh k xs
  unfolding find
  Fresh-head k x xs h = elim (Bool-cases (key x =? k)) [
    | inl b ↦ absurd (let same : some x ≡ none = rw b at h in ground arith)
    | inr b ↦ (b, rw b at h)
  ]

  pub false_sym : (a b : K) → (a =? b) ≡ false → (b =? a) ≡ false
  false_sym a b h = elim (Bool-cases (b =? a)) [
    | inr c ↦ c
    | inl c ↦ absurd (false≢true (sym h ∙ (e.beq_iff a b).1 (sym (eq_of_=? b a c))))
  ]

  pub Unique-append : (xs : List A) (a : A) → Unique xs → Fresh (key a) xs → Unique (xs ++ a ∷ [])
  unfolding find
  Unique-append [] a u fresh = (refl, tt)
  Unique-append (x ∷ xs) a (f, u) fresh =
      let (differ, rest) = Fresh-head (key a) x xs fresh in
      (
        Fresh-append (key x) xs (a ∷ []) f (Fresh-one (key x) a (false_sym (key x) (key a) differ)),
        Unique-append xs a u rest,
      )

  Fresh-remove : (k j : K) (xs : List A) → Fresh j xs → Fresh j (remove k xs)
  unfolding find remove
  Fresh-remove k j [] h = refl
  Fresh-remove k j (x ∷ xs) h =
      let (differ, rest) = Fresh-head j x xs h in
      elim (Bool-cases (key x =? k)) [
        | inl b ↦ rw b rest
        | inr b ↦ rw (b, differ) (Fresh-remove k j xs rest)
      ]

  pub Unique-remove : (k : K) (xs : List A) → Unique xs → Unique (remove k xs)
  unfolding remove
  Unique-remove k [] u = tt
  Unique-remove k (x ∷ xs) (f, u) = elim (Bool-cases (key x =? k)) [
    | inl b ↦ rw b u
    | inr b ↦ rw b (Fresh-remove k (key x) xs f, Unique-remove k xs u)
  ]

  Fresh-replace :
      (k j : K) (a : A) (xs : List A) → key a ≡ k → Fresh j xs → Fresh j (replace k a xs)
  unfolding find replace
  Fresh-replace k j a [] same h = refl
  Fresh-replace k j a (x ∷ xs) same h =
      let (differ, rest) = Fresh-head j x xs h in
      elim (Bool-cases (key x =? k)) [
        | inl b ↦ rw (b, same, ← (eq_of_=? (key x) k b), differ) rest
        | inr b ↦ rw (b, differ) (Fresh-replace k j a xs same rest)
      ]

  pub Unique-replace :
      (k : K) (a : A) (xs : List A) → key a ≡ k → Unique xs → Unique (replace k a xs)
  unfolding replace
  Unique-replace k a [] same u = tt
  Unique-replace k a (x ∷ xs) same (f, u) = elim (Bool-cases (key x =? k)) [
    | inl b ↦ rw b (rw (same, ← (eq_of_=? (key x) k b)) f, u)
    | inr b ↦ rw b (Fresh-replace k (key x) a xs same f, Unique-replace k a xs same u)
  ]
