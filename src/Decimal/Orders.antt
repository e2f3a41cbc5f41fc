-- ===== src/Decimal/Orders.antt =====
-- The comparison of magnitudes decides their order.
use Prim.Native.Nat.{compare, Ordering, lt, eq, gt}
use maiden_lane.Base.{
  ℕ, suc, ◌+◌, ◌-◌, ◌*◌, ◌^◌, ◌≤◌, ◌<◌, ◌≡◌, refl, ◌∙◌, ap, [], ◌∷◌, length, arith, ◌==◌,
  Bool-cases, inl, inr, ◌⊎◌, ltb, leb, true, false,
}
use maiden_lane.Decimal.Digits.{Digits, digit_value, trim_to_one, compare_bytes, compare_lengths}
use maiden_lane.Decimal.Normal.{pow10-positive}
use maiden_lane.Decimal.Value.{IsDigit, AreDigits, number, number-lt, pow10-add}

-- What an answer says of the two numbers that were compared.
abbrev pub Decides : Ordering → ℕ → ℕ → Type 0
Decides lt m n = m < n
Decides eq m n = m ≡ n
Decides gt m n = n < m

answers : (m n : ℕ) (o : Ordering) → compare m n ≡ o → Decides o m n
answers m n lt h = let less : ltb m n ≡ true = rw (ltb, h) refl in ground arith
answers m n eq h = let same : (m == n) ≡ true = rw (◌==◌, h) refl in ground arith
answers m n gt h = let more : leb m n ≡ false = rw (leb, h) refl in ground arith

compare-Decides : (m n : ℕ) → Decides (compare m n) m n
compare-Decides m n = answers m n (compare m n) refl

digit_value-Decides :
    (o : Ordering) (a b : ℕ)
    → IsDigit a
    → IsDigit b
    → Decides o a b
    → Decides o (digit_value a) (digit_value b)
digit_value-Decides lt a b ha hb h = omega (arith, h)
digit_value-Decides eq a b ha hb h = rw h refl
digit_value-Decides gt a b ha hb h = omega (arith, h)

-- Two leading digits decide, unless they are the same.
leading : (p x y m n : ℕ) → x < y → m < p → x * p + m < y * p + n
leading p x y m n less small =
    let at_least : (x + 1) * p ≤ y * p = grind (arith, less) in grind (arith, at_least)

place-Decides :
    (o r : Ordering) (p x y m n : ℕ)
    → m < p
    → n < p
    → Decides o x y
    → Decides r m n
    → Decides (elim o [ lt ↦ lt | gt ↦ gt | eq ↦ r ]) (x * p + m) (y * p + n)
place-Decides lt r p x y m n hm hn h k = leading p x y m n h hm
place-Decides gt r p x y m n hm hn h k = leading p y x n m h hn
place-Decides eq lt p x y m n hm hn h k = rw h (omega (arith, k))
place-Decides eq eq p x y m n hm hn h k = rw (h, k) refl
place-Decides eq gt p x y m n hm hn h k = rw h (omega (arith, k))

compare_bytes-Decides :
    (a b : Digits)
    → length a ≡ length b
    → AreDigits a
    → AreDigits b
    → Decides (compare_bytes a b) (number a) (number b)
unfolding compare_bytes number
compare_bytes-Decides [] [] l ha hb = refl
compare_bytes-Decides [] (b ∷ bs) l ha hb = absurd (omega arith)
compare_bytes-Decides (a ∷ as') [] l ha hb = absurd (omega arith)
compare_bytes-Decides (a ∷ as') (b ∷ bs) l (ha, has) (hb, hbs) =
    let ih = compare_bytes-Decides as' bs (omega arith) has hbs in
    let same : length bs ≡ length as' = omega arith in
    rw same (
      place-Decides (compare a b) (compare_bytes as' bs) (10 ^ length as') (digit_value a)
        (digit_value b) (number as') (number bs) (number-lt as' has) (rw same at (number-lt bs hbs))
        (digit_value-Decides (compare a b) a b ha hb (compare-Decides a b)) ih)

-- No digit before the first that counts: one digit only, or a first one that is not zero.
abbrev Trimmed : Digits → Type 0
Trimmed ds = (length ds ≡ 1) ⊎ (10 ^ (length ds - 1) ≤ number ds)

pub trim_to_one-number : (ds : Digits) → number (trim_to_one ds) ≡ number ds
unfolding trim_to_one number
trim_to_one-number [] = refl
trim_to_one-number (d ∷ []) = refl
trim_to_one-number (d ∷ e ∷ ds) = elim (Bool-cases (d == b'0')) [
  | inr z ↦ rw z refl
  | inl z ↦
      let is0 : d ≡ b'0' = ground arith in rw (z, is0) (trim_to_one-number (e ∷ ds) ∙ grind arith)
]

pub trim_to_one-AreDigits : (ds : Digits) → AreDigits ds → AreDigits (trim_to_one ds)
unfolding trim_to_one
trim_to_one-AreDigits [] h = tt
trim_to_one-AreDigits (d ∷ []) h = h
trim_to_one-AreDigits (d ∷ e ∷ ds) (h, hs) = elim (Bool-cases (d == b'0')) [
  | inr z ↦ rw z (h, hs)
  | inl z ↦ rw z (trim_to_one-AreDigits (e ∷ ds) hs)
]

first_counts : (x p m : ℕ) → 0 < x → p ≤ x * p + m
first_counts x p m h = grind arith

one_less : (n : ℕ) → suc (suc n) - 1 ≡ suc n
one_less n = omega arith

pub trim_to_one-Trimmed : (ds : Digits) → 0 < length ds → AreDigits ds → Trimmed (trim_to_one ds)
unfolding trim_to_one number
trim_to_one-Trimmed [] l h = absurd (omega arith)
trim_to_one-Trimmed (d ∷ []) l h = inl refl
trim_to_one-Trimmed (d ∷ e ∷ ds) l (h, hs) = elim (Bool-cases (d == b'0')) [
  | inl z ↦ rw z (trim_to_one-Trimmed (e ∷ ds) (omega arith) hs)
  | inr z ↦ rw z (
      inr (
        rw (one_less (length ds))
          (first_counts (digit_value d) (10 ^ suc (length ds)) _ (ground arith))))
]

pub trim_to_one_some : (ds : Digits) → 0 < length ds → 0 < length (trim_to_one ds)
unfolding trim_to_one
trim_to_one_some [] l = absurd (omega arith)
trim_to_one_some (d ∷ []) l = omega arith
trim_to_one_some (d ∷ e ∷ ds) l = elim (Bool-cases (d == b'0')) [
  | inl z ↦ rw z (trim_to_one_some (e ∷ ds) (omega arith))
  | inr z ↦ rw z (omega arith)
]

the_rest : (m n : ℕ) → m ≤ n → n ≡ m + (n - m)
the_rest m n h = omega arith

at_least : (p q : ℕ) → 0 < q → p ≤ p * q
at_least p q h = grind arith

pub pow10_le : (m n : ℕ) → m ≤ n → 10 ^ m ≤ 10 ^ n
pow10_le m n h =
    let split : 10 ^ n ≡ 10 ^ m * 10 ^ (n - m) =
      ap (λ k. 10 ^ k) (the_rest m n h) ∙ pow10-add m (n - m) in
    rw split (at_least (10 ^ m) (10 ^ (n - m)) (pow10-positive (n - m)))

-- A longer trimmed string stands for a larger number.
longer_more :
    (a b : Digits)
    → 0 < length a
    → AreDigits a
    → Trimmed b
    → length a < length b
    → number a < number b
longer_more a b some_a ha (inl one) l = absurd (omega (arith, one))
longer_more a b some_a ha (inr counts) l =
    omega (arith, number-lt a ha, pow10_le (length a) (length b - 1) (omega arith), counts)

by_length :
    (o : Ordering) (a b : Digits)
    → Decides o (length a) (length b)
    → 0 < length a
    → 0 < length b
    → AreDigits a
    → AreDigits b
    → Trimmed a
    → Trimmed b
    → Decides (elim o [ lt ↦ lt | gt ↦ gt | eq ↦ compare_bytes a b ]) (number a) (number b)
by_length lt a b l sa sb ha hb ta tb = longer_more a b sa ha tb l
by_length gt a b l sa sb ha hb ta tb = longer_more b a sb hb ta l
by_length eq a b l sa sb ha hb ta tb = compare_bytes-Decides a b l ha hb

pub compare_lengths-Decides :
    (a b : Digits)
    → 0 < length a
    → 0 < length b
    → AreDigits a
    → AreDigits b
    → Trimmed a
    → Trimmed b
    → Decides (compare_lengths a b) (number a) (number b)
unfolding compare_lengths
compare_lengths-Decides a b sa sb ha hb ta tb =
    by_length (compare (length a) (length b)) a b (compare-Decides (length a) (length b)) sa sb ha
      hb ta tb
