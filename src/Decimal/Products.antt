-- ===== src/Decimal/Products.antt =====
-- Long multiplication is exact.
use maiden_lane.Base.{
  ℕ, zero, suc, ◌+◌, ◌*◌, ◌/◌, ◌%◌, ◌^◌, ◌≤◌, ◌≡◌, refl, ◌∙◌, ap, List, [], ◌∷◌, length, replicate,
  length-replicate, arith, All, All-replicate, ◌==◌, Bool-cases, inl, inr,
}
use maiden_lane.Decimal.Digits.{
  Digits, digit_value, mul_place, mul_row, mul_rows, to_digits, started, or_zero, mul_digits,
}
use maiden_lane.Decimal.Value.{IsDigit, AreDigits, weight, number, pow10-suc, pow10-add}

-- A place that a digit can be written for.
abbrev IsSmall : ℕ → Type 0
IsSmall v = v ≤ 9

-- The places after a row: the first one has grown by a carry, and the rest are digits.
abbrev Grown : ℕ → List ℕ → Type 0
Grown p [] = ⊥
Grown p (q ∷ qs) = (q ≤ p + 9) × All IsSmall qs

small_product : (x y : ℕ) → x ≤ 9 → y ≤ 9 → x * y ≤ 81
small_product x y hx hy = grind arith

mul_place-Grown :
    (x y p n : ℕ) (r : List ℕ)
    → IsDigit x
    → IsDigit y
    → n ≤ 9
    → Grown n r
    → Grown p (mul_place x y (p ∷ r))
mul_place-Grown x y p n [] hx hy hn g = absurd g
mul_place-Grown x y p n (q ∷ qs) hx hy hn (hq, hqs) =
    let s = small_product (digit_value x) (digit_value y) (omega arith) (omega arith) in
    (omega (arith, s), (omega arith, hqs))

mul_row-Grown :
    (x p : ℕ) (ys : Digits) (ps : List ℕ)
    → length ys ≤ length ps
    → IsDigit x
    → AreDigits ys
    → All IsSmall ps
    → Grown p (mul_row x ys (p ∷ ps))
unfolding mul_row
mul_row-Grown x p [] ps l hx hys hps = (omega arith, hps)
mul_row-Grown x p (y ∷ ys) [] l hx hys hps = absurd (omega arith)
mul_row-Grown x p (y ∷ ys) (n ∷ ps) l hx (hy, hys) (hn, hps) =
    mul_place-Grown x y p n (mul_row x ys (n ∷ ps)) hx hy hn
      (mul_row-Grown x n ys ps (omega arith) hx hys hps)

length-mul_place : (x y : ℕ) (ps : List ℕ) → length (mul_place x y ps) ≡ length ps
length-mul_place x y [] = refl
length-mul_place x y (p ∷ []) = refl
length-mul_place x y (p ∷ q ∷ ps) = refl

length-mul_row :
    (x : ℕ) (ys : Digits) (ps : List ℕ)
    → length ys ≤ length ps
    → length (mul_row x ys ps) ≡ length ps
unfolding mul_row
length-mul_row x [] ps l = refl
length-mul_row x (y ∷ ys) [] l = absurd (omega arith)
length-mul_row x (y ∷ ys) (p ∷ ps) l =
    length-mul_place x y (p ∷ mul_row x ys ps) ∙ ap suc (length-mul_row x ys ps (omega arith))

-- What a round adds to the number behind the places.
place_sum :
    (a p q w n : ℕ)
    → (p + (a + q) / 10) * (10 * n) + ((a + q) % 10 * n + w) ≡ p * (10 * n) + (q * n + w) + a * n
place_sum a p q w n =
    let parts : (a + q) / 10 * 10 + (a + q) % 10 ≡ a + q = omega arith in
    let whole : ((a + q) / 10 * 10 + (a + q) % 10) * n ≡ (a + q) * n = ap (λ t. t * n) parts in
    grind (arith, whole)

mul_place-weight :
    (x y p : ℕ) (r : List ℕ) (n : ℕ)
    → length r ≡ suc n
    → weight (mul_place x y (p ∷ r)) ≡ weight (p ∷ r) + digit_value x * digit_value y * 10 ^ n
unfolding weight
mul_place-weight x y p [] n l = absurd (omega arith)
mul_place-weight x y p (q ∷ qs) n l =
    let same : length qs ≡ n = omega arith in
    rw (same, pow10-suc n) (place_sum (digit_value x * digit_value y) p q (weight qs) (10 ^ n))

-- The rounds of a row, together.
row_sum :
    (x y b t s u w v z : ℕ)
    → v ≡ z + u + x * y * (s * t)
    → u ≡ w + x * b * t
    → v ≡ z + w + x * (y * s + b) * t
row_sum x y b t s u w v z h k = grind arith

mul_row-weight :
    (x : ℕ) (ys : Digits) (ps : List ℕ) (n : ℕ)
    → length ps ≡ suc (length ys + n)
    → weight (mul_row x ys ps) ≡ weight ps + digit_value x * number ys * 10 ^ n
unfolding mul_row weight number
mul_row-weight x [] ps n l = grind arith
mul_row-weight x (y ∷ ys) [] n l = absurd (omega arith)
mul_row-weight x (y ∷ ys) (p ∷ ps) n l =
    let ih = mul_row-weight x ys ps n (omega arith) in
    let len = length-mul_row x ys ps (omega arith) in
    let one = mul_place-weight x y p (mul_row x ys ps) (length ys + n) (omega (arith, len)) in
    row_sum (digit_value x) (digit_value y) (number ys) (10 ^ n) _ _ _ _ _
      (rw (pow10-add (length ys) n, len) at one) ih

length-mul_rows : (xs ys : Digits) → length (mul_rows xs ys) ≡ length xs + length ys
unfolding mul_rows
length-mul_rows [] ys = omega (arith, length-replicate {A = ℕ} (length ys) 0)
length-mul_rows (x ∷ xs) ys =
    let rest = length-mul_rows xs ys in
    omega (arith, length-mul_row x ys (0 ∷ mul_rows xs ys) (omega (arith, rest)), rest)

weight-replicate : (n : ℕ) → weight (replicate n 0) ≡ 0
unfolding weight
weight-replicate zero = refl
weight-replicate (suc n) = grind (arith, weight-replicate n)

weight-zero : (ps : List ℕ) → weight (0 ∷ ps) ≡ weight ps
unfolding weight
weight-zero ps = grind arith

-- All rows together make the product.
mul_rows-weight : (xs ys : Digits) → weight (mul_rows xs ys) ≡ number xs * number ys
unfolding mul_rows number
mul_rows-weight [] ys = weight-replicate (length ys) ∙ grind arith
mul_rows-weight (x ∷ xs) ys =
    let rest = mul_rows-weight xs ys in
    let len = length-mul_rows xs ys in
    let row = mul_row-weight x ys (0 ∷ mul_rows xs ys) (length xs) (omega (arith, len)) in
    rw (row, weight-zero (mul_rows xs ys), rest) (grind arith)

first-IsSmall : (ps : List ℕ) → Grown 0 ps → All IsSmall ps
first-IsSmall [] g = tt
first-IsSmall (p ∷ ps) (hp, hps) = (omega arith, hps)

mul_rows-IsSmall : (xs ys : Digits) → AreDigits xs → AreDigits ys → All IsSmall (mul_rows xs ys)
unfolding mul_rows
mul_rows-IsSmall [] ys hxs hys = All-replicate IsSmall (length ys) 0 (omega arith)
mul_rows-IsSmall (x ∷ xs) ys (hx, hxs) hys = first-IsSmall (mul_row x ys (0 ∷ mul_rows xs ys)) (
    mul_row-Grown x 0 ys (mul_rows xs ys) (omega (arith, length-mul_rows xs ys)) hx hys
      (mul_rows-IsSmall xs ys hxs hys))

length-to_digits : (vs : List ℕ) → length (to_digits vs) ≡ length vs
unfolding to_digits
length-to_digits [] = refl
length-to_digits (v ∷ vs) = ap suc (length-to_digits vs)

to_digits-number : (vs : List ℕ) → All IsSmall vs → number (to_digits vs) ≡ weight vs
unfolding to_digits number weight
to_digits-number [] h = refl
to_digits-number (v ∷ vs) (hv, hvs) =
    let same : digit_value ((v + b'0') % 256) ≡ v = omega arith in
    rw (same, length-to_digits vs, to_digits-number vs hvs) refl

started-number : (vs : List ℕ) → All IsSmall vs → number (started vs) ≡ weight vs
unfolding started weight number
started-number [] h = refl
started-number (v ∷ vs) (hv, hvs) = elim (Bool-cases (v == 0)) [
  | inl z ↦
      let none_here : v ≡ 0 = ground arith in
      rw (z, none_here, weight-zero vs) (started-number vs hvs)
  | inr z ↦ rw z (to_digits-number (v ∷ vs) (hv, hvs))
]

or_zero-number : (ds : Digits) → number (or_zero ds) ≡ number ds
unfolding number
or_zero-number [] = refl
or_zero-number (d ∷ ds) = refl

-- `mulDigits` on two strings of digits from '0' to '9' multiplies the numbers that they stand for.
pub mul_digits-number :
    (a b : Digits) → AreDigits a → AreDigits b → number (mul_digits a b) ≡ number a * number b
unfolding mul_digits
mul_digits-number a b ha hb =
    or_zero-number (started (mul_rows a b))
    ∙ (started-number (mul_rows a b) (mul_rows-IsSmall a b ha hb) ∙ mul_rows-weight a b)
