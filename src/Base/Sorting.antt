-- ===== src/Base/Sorting.antt =====
-- Sorting by a key: what `sort.Slice` leaves, and that a list with no key twice sorts to the only
-- increasing list in which a search finds the same.
use Prim.Native.Nat.{Ordering, lt, eq, gt}
use mathlib.Core.Path.{◌≡◌, refl, sym, ap₂, subst, ◌∙◌}
use mathlib.Core.Logic.{◌⊎◌, inl, inr}
use mathlib.Core.Bool.{Bool, true, false, false≢true}
use mathlib.Core.Option.{Option, none, some}
use mathlib.Core.List.{List, [], ◌∷◌}
use native.Mathlib.Omega.{arith}
use maiden_lane.Base.Tests.{if◌then◌else◌, Bool-cases}
use maiden_lane.Base.Lists.{All}
use maiden_lane.Base.Keys.{Eq, ◌=?◌, =?-refl, eq_of_=?}
use maiden_lane.Base.Order.{Order}
use maiden_lane.Base.Sorted.{find, remove, Fresh, Unique, false_sym}

abbrev pub is_gt : Ordering → Bool
is_gt lt = false
is_gt eq = false
is_gt gt = true

module _ {A K : Type 0} ⦃e : Eq K⦄ (o : Order K) (key : A → K) where
  unfoldable pub insort : A → List A → List A
  insort a [] = a ∷ []
  insort a (x ∷ xs) = if is_gt (o.cmp (key a) (key x)) then x ∷ insort a xs else a ∷ x ∷ xs

  unfoldable pub sort : List A → List A
  unfolding insort
  sort [] = []
  sort (x ∷ xs) = insort x (sort xs)

  -- Whether some value has the key of the one before it: Go's test after sorting.
  unfoldable pub has_adjacent : List A → Bool
  has_adjacent [] = false
  has_adjacent (x ∷ []) = false
  has_adjacent (x ∷ y ∷ xs) = if key y =? key x then true else has_adjacent (y ∷ xs)

  abbrev pub Below : A → A → Type 0
  Below x y = o.cmp (key x) (key y) ≡ lt

  abbrev pub Increasing : List A → Type 0
  Increasing [] = Unit {0}
  Increasing (x ∷ xs) = All (Below x) xs × Increasing xs

  Below-ne : (x y : A) → Below x y → (key x =? key y) ≡ false
  Below-ne x y h = elim (Bool-cases (key x =? key y)) [
    | inr b ↦ b
    | inl b ↦
        let itself : o.cmp (key y) (key y) ≡ lt = rw (eq_of_=? (key x) (key y) b) at h in
        absurd (ground (arith, itself, o.cmp_refl (key y)))
  ]

  Below-asym : (x y : A) → Below x y → Below y x → ⊥
  Below-asym x y h k = ground (arith, o.cmp_swap (key x) (key y))

  -- A value that goes behind another is above it, if their keys differ.
  Below-of_gt : (a x : A) → is_gt (o.cmp (key a) (key x)) ≡ true → Below x a
  Below-of_gt a x h = ground (arith, o.cmp_swap (key a) (key x))

  not_gt :
      (a x : A) (c : Ordering)
      → o.cmp (key a) (key x) ≡ c
      → is_gt c ≡ false
      → (key x =? key a) ≡ false
      → Below a x
  not_gt a x lt h k differ = h
  not_gt a x gt h k differ = absurd (ground arith)
  not_gt a x eq h k differ =
      absurd
        (false≢true (sym differ ∙ (e.beq_iff (key x) (key a)).1 (sym (o.cmp_eq (key a) (key x) h))))

  pub Below-of_ne :
      (a x : A) → is_gt (o.cmp (key a) (key x)) ≡ false → (key x =? key a) ≡ false → Below a x
  Below-of_ne a x h differ = not_gt a x (o.cmp (key a) (key x)) refl h differ

  pub Fresh-Below : (x : A) (xs : List A) → All (Below x) xs → Fresh key (key x) xs
  unfolding find
  Fresh-Below x [] h = refl
  Fresh-Below x (y ∷ ys) (h, hs) =
      rw (false_sym key (key x) (key y) (Below-ne x y h)) (Fresh-Below x ys hs)

  pub All-Below : (x y : A) (xs : List A) → Below x y → All (Below y) xs → All (Below x) xs
  All-Below x y [] h hs = tt
  All-Below x y (z ∷ zs) h (k, ks) =
      (o.cmp_trans (key x) (key y) (key z) h k, All-Below x y zs h ks)

  pub Increasing-Unique : (xs : List A) → Increasing xs → Unique key xs
  Increasing-Unique [] h = tt
  Increasing-Unique (x ∷ xs) (h, hs) = (Fresh-Below x xs h, Increasing-Unique xs hs)

  All-insort : (P : A → Type 0) (a : A) (xs : List A) → P a → All P xs → All P (insort a xs)
  unfolding insort
  All-insort P a [] h hs = (h, tt)
  All-insort P a (y ∷ ys) h (k, ks) = elim (Bool-cases (is_gt (o.cmp (key a) (key y)))) [
    | inl b ↦ rw b (k, All-insort P a ys h ks)
    | inr b ↦ rw b (h, (k, ks))
  ]

  pub All-sort : (P : A → Type 0) (xs : List A) → All P xs → All P (sort xs)
  unfolding sort
  All-sort P [] h = tt
  All-sort P (x ∷ xs) (h, hs) = All-insort P x (sort xs) h (All-sort P xs hs)

  Fresh-parts :
      (k : K) (x : A) (xs : List A) → Fresh key k (x ∷ xs) → ((key x =? k) ≡ false) × Fresh key k xs
  unfolding find
  Fresh-parts k x xs h = elim (Bool-cases (key x =? k)) [
    | inl b ↦ absurd (let same : some x ≡ none = rw b at h in ground arith)
    | inr b ↦ (b, rw b at h)
  ]

  pub insort-Increasing :
      (a : A) (xs : List A) → Fresh key (key a) xs → Increasing xs → Increasing (insort a xs)
  unfolding insort
  insort-Increasing a [] f h = (tt, tt)
  insort-Increasing a (x ∷ xs) f (h, hs) =
      let (differ, rest) = Fresh-parts (key a) x xs f in
      elim (Bool-cases (is_gt (o.cmp (key a) (key x)))) [
        | inl b ↦
            rw b (All-insort (Below x) a xs (Below-of_gt a x b) h, insort-Increasing a xs rest hs)
        | inr b ↦
            let below = Below-of_ne a x b differ in
            rw b ((below, All-Below a x xs below h), (h, hs))
      ]

  commute :
      (k : K) (x a : A) (r : Option A)
      → (key x =? key a) ≡ false
      → ◌≡◌ {A = Option A}
          (if key x =? k then some x else if key a =? k then some a else r)
          (if key a =? k then some a else if key x =? k then some x else r)
  commute k x a r differ = elim (Bool-cases (key x =? k)) [
    | inr b ↦ rw b refl
    | inl b ↦ elim (Bool-cases (key a =? k)) [
      | inr c ↦ rw (b, c) refl
      | inl c ↦
          let same : key x ≡ key a = eq_of_=? (key x) k b ∙ sym (eq_of_=? (key a) k c) in
          absurd (false≢true (sym differ ∙ (e.beq_iff (key x) (key a)).1 same))
    ]
  ]

  pub find-insort :
      (a : A) (k : K) (xs : List A)
      → Fresh key (key a) xs
      → find key k (insort a xs) ≡ (if key a =? k then some a else find key k xs)
  unfolding insort find
  find-insort a k [] f = refl
  find-insort a k (x ∷ xs) f =
      let (differ, rest) = Fresh-parts (key a) x xs f in
      elim (Bool-cases (is_gt (o.cmp (key a) (key x)))) [
        | inr b ↦ rw b refl
        | inl b ↦ rw (b, find-insort a k xs rest) (commute k x a (find key k xs) differ)
      ]

  nothing_found : (x : A) → ◌≡◌ {A = Option A} none (some x) → ⊥
  nothing_found x h = ground arith

  pub sort_lem :
      (xs : List A)
      → Unique key xs
      → Increasing (sort xs) × ((k : K) → find key k (sort xs) ≡ find key k xs)
  unfolding sort find
  sort_lem [] u = (tt, λ k. refl)
  sort_lem (x ∷ xs) (f, u) =
      let (h, same) = sort_lem xs u in
      let fresh = same (key x) ∙ f in
      (
        insort-Increasing x (sort xs) fresh h,
        λ k. rw (find-insort x k (sort xs) fresh, same k) refl,
      )

  pub All_find :
      (P : A → Type 0) (xs : List A) (k : K) (a : A) → All P xs → find key k xs ≡ some a → P a
  unfolding find
  All_find P [] k a h held = absurd (ground arith)
  All_find P (x ∷ xs) k a (h, hs) held = elim (Bool-cases (key x =? k)) [
    | inl b ↦ let same : some x ≡ some a = rw b at held in subst P (ground arith) h
    | inr b ↦ All_find P xs k a hs (rw b at held)
  ]

  find_head : (x : A) (xs : List A) → find key (key x) (x ∷ xs) ≡ some x
  unfolding find
  find_head x xs = rw (=?-refl (key x)) refl

  -- The value found under the head's key is the head, or one above it.
  found_or_above :
      (x a : A) (xs : List A)
      → All (Below x) xs
      → (k : K) → find key k (x ∷ xs) ≡ some a
      → (x ≡ a) ⊎ Below x a
  unfolding find
  found_or_above x a xs h k held = elim (Bool-cases (key x =? k)) [
    | inl b ↦ inl (let same : some x ≡ some a = rw b at held in ground arith)
    | inr b ↦ inr (All_find (Below x) xs k a h (rw b at held))
  ]

  tails_agree :
      (x : A) (xs ys : List A)
      → Fresh key (key x) xs
      → Fresh key (key x) ys
      → ((k : K) → find key k (x ∷ xs) ≡ find key k (x ∷ ys))
      → (k : K) → find key k xs ≡ find key k ys
  unfolding find
  tails_agree x xs ys f g h k = elim (Bool-cases (key x =? k)) [
    | inl b ↦ rw (← (eq_of_=? (key x) k b)) (f ∙ sym g)
    | inr b ↦ rw b at (h k)
  ]

  -- An increasing list is determined by what a search finds in it.
  pub Increasing-ext :
      (xs ys : List A)
      → Increasing xs
      → Increasing ys
      → ((k : K) → find key k xs ≡ find key k ys)
      → xs ≡ ys
  unfolding find
  Increasing-ext [] [] h k same = refl
  Increasing-ext [] (y ∷ ys) h k same =
      absurd (let none_found = same (key y) ∙ find_head y ys in nothing_found y none_found)
  Increasing-ext (x ∷ xs) [] h k same =
      absurd (nothing_found x (sym (same (key x)) ∙ find_head x xs))
  Increasing-ext (x ∷ xs) (y ∷ ys) (h, hs) (k, ks) same =
      let in_ys = sym (same (key x)) ∙ find_head x xs in
      let in_xs = same (key y) ∙ find_head y ys in
      let heads : x ≡ y = elim (found_or_above y x ys k (key x) in_ys) [
        | inl b ↦ sym b
        | inr above ↦ elim (found_or_above x y xs h (key y) in_xs) [
          | inl c ↦ c
          | inr below ↦ absurd (Below-asym x y below above)
        ]
      ] in
      ap₂ ◌∷◌ heads (
        Increasing-ext xs ys hs ks (
          tails_agree x xs ys (Fresh-Below x xs h) (rw (← heads) at (Fresh-Below y ys k))
            (rw (← heads) at same)))

  -- Sorting a list with no key twice gives the increasing list with the same values.
  pub sort_unique :
      (xs ys : List A)
      → Unique key xs
      → Increasing ys
      → ((k : K) → find key k xs ≡ find key k ys)
      → sort xs ≡ ys
  sort_unique xs ys u h same =
      let (sorted, found) = sort_lem xs u in
      Increasing-ext (sort xs) ys sorted h (λ k. found k ∙ same k)

  All-remove : (P : A → Type 0) (k : K) (xs : List A) → All P xs → All P (remove key k xs)
  unfolding remove
  All-remove P k [] h = tt
  All-remove P k (x ∷ xs) (h, hs) = elim (Bool-cases (key x =? k)) [
    | inl b ↦ rw b hs
    | inr b ↦ rw b (h, All-remove P k xs hs)
  ]

  pub Increasing-remove : (k : K) (xs : List A) → Increasing xs → Increasing (remove key k xs)
  unfolding remove
  Increasing-remove k [] h = tt
  Increasing-remove k (x ∷ xs) (h, hs) = elim (Bool-cases (key x =? k)) [
    | inl b ↦ rw b hs
    | inr b ↦ rw b (All-remove (Below x) k xs h, Increasing-remove k xs hs)
  ]
