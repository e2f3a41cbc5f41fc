-- ===== src/Decimal/Signed.antt =====
-- Signed numbers and their sums. A signed number is what it adds, less what it takes away, so that
-- sums are compared as natural numbers.
use maiden_lane.Base.{
  ℕ, zero, suc, ◌+◌, ◌*◌, ◌^◌, ◌<◌, ◌≡◌, ◌≢◌, sym, ◌∙◌, ap, arith, max, min, Bool, true, false,
  if◌then◌else◌,
}
use maiden_lane.Decimal.Digits.{Digits}
use maiden_lane.Decimal.Number.{Decimal, at_scale, normalize}
use maiden_lane.Decimal.Value.{number, pow10-add}
use maiden_lane.Decimal.Normal.{
  pow10-positive, zero_magnitude, normalize-SameMagnitude, normalize-negative,
}
use maiden_lane.Decimal.Multiplication.{cancel_right}
use maiden_lane.Decimal.Scales.{at_max_first, at_max_second}

-- What a number with this sign adds, and what it takes away.
abbrev pub up : Bool → ℕ → ℕ
up neg n = if neg then 0 else n

abbrev pub down : Bool → ℕ → ℕ
down neg n = if neg then n else 0

-- `normalize` keeps what a number adds and what it takes away.
both_zero :
    (p q : ℕ) (neg neg' : Bool)
    → (up neg' 0 * p ≡ up neg 0 * q) × (down neg' 0 * p ≡ down neg 0 * q)
both_zero p q true true = (grind arith, grind arith)
both_zero p q true false = (grind arith, grind arith)
both_zero p q false true = (grind arith, grind arith)
both_zero p q false false = (grind arith, grind arith)

signed_keeps :
    (x y p q : ℕ) (neg neg' : Bool)
    → 0 < q
    → x * p ≡ y * q
    → (x ≢ 0 → neg' ≡ neg)
    → (up neg' x * p ≡ up neg y * q) × (down neg' x * p ≡ down neg y * q)
signed_keeps zero y p q neg neg' pos h keeps =
    let none_left = zero_magnitude y q p pos h in rw none_left (both_zero p q neg neg')
signed_keeps (suc x) y p q true neg' pos h keeps =
    rw (keeps (λ z. absurd (omega (arith, z)))) (grind arith, h)
signed_keeps (suc x) y p q false neg' pos h keeps =
    rw (keeps (λ z. absurd (omega (arith, z)))) (h, grind arith)

-- `r` stands for the signed number that `d` stands for.
abbrev pub SameSigned : Decimal → Decimal → Type 0
SameSigned r d =
    (up r.negative (number r.digits) * 10 ^ d.scale
      ≡ up d.negative (number d.digits) * 10 ^ r.scale)
    × (down r.negative (number r.digits) * 10 ^ d.scale
        ≡ down d.negative (number d.digits) * 10 ^ r.scale)

pub normalize-SameSigned : (d : Decimal) → SameSigned (normalize d) d
normalize-SameSigned d =
    signed_keeps (number (normalize d).digits) (number d.digits) (10 ^ d.scale)
      (10 ^ (normalize d).scale) d.negative (normalize d).negative
      (pow10-positive (normalize d).scale) (normalize-SameMagnitude d) (normalize-negative d)

-- One side of a sum, over two scales and over two others of the same numbers.
side :
    (u r p q p' q' a b d e : ℕ)
    → a * p ≡ d * p'
    → b * q ≡ e * q'
    → (u * (p' * q') + (a * q' + b * p') * r) * (p * q)
      ≡ (u * (p * q) + (d * q + e * p) * r) * (p' * q')
side u r p q p' q' a b d e ha hb =
    let first : a * p * (q * q' * r) ≡ d * p' * (q * q' * r) = ap (λ t. t * (q * q' * r)) ha in
    let second : b * q * (p * p' * r) ≡ e * q' * (p * p' * r) = ap (λ t. t * (p * p' * r)) hb in
    grind (arith, first, second)

-- `r` is the sum of `d` and `e`: what the three add and take away, multiplied out.
abbrev pub IsSum : Decimal → Decimal → Decimal → Type 0
IsSum d e r =
    up r.negative (number r.digits) * (10 ^ d.scale * 10 ^ e.scale)
      + (down d.negative (number d.digits) * 10 ^ e.scale
          + down e.negative (number e.digits) * 10 ^ d.scale)
        * 10 ^ r.scale
    ≡ down r.negative (number r.digits) * (10 ^ d.scale * 10 ^ e.scale)
      + (up d.negative (number d.digits) * 10 ^ e.scale
          + up e.negative (number e.digits) * 10 ^ d.scale)
        * 10 ^ r.scale

positive_product : (p q : ℕ) → 0 < p → 0 < q → 0 < p * q
positive_product p q hp hq = grind arith

-- A sum of two numbers is a sum of any two that stand for the same.
pub IsSum-SameSigned :
    (a b d e r : Decimal) → SameSigned a d → SameSigned b e → IsSum a b r → IsSum d e r
IsSum-SameSigned a b d e r (ua, da) (ub, db) h =
    let p = 10 ^ d.scale in
    let q = 10 ^ e.scale in
    let p' = 10 ^ a.scale in
    let q' = 10 ^ b.scale in
    let t = 10 ^ r.scale in
    let left =
      side (up r.negative (number r.digits)) t p q p' q' (down a.negative (number a.digits))
        (down b.negative (number b.digits)) (down d.negative (number d.digits))
        (down e.negative (number e.digits)) da db in
    let right =
      side (down r.negative (number r.digits)) t p q p' q' (up a.negative (number a.digits))
        (up b.negative (number b.digits)) (up d.negative (number d.digits))
        (up e.negative (number e.digits)) ua ub in
    cancel_right _ _ (p' * q')
      (positive_product p' q' (pow10-positive a.scale) (pow10-positive b.scale))
      (sym left ∙ (ap (λ k. k * (p * q)) h ∙ right))

-- The sum at one scale: what the digits `x` with this sign have to be.
abbrev pub SumAt : Bool → ℕ → Bool → ℕ → Bool → ℕ → Type 0
SumAt neg x na a nb b = up neg x + (down na a + down nb b) ≡ down neg x + (up na a + up nb b)

-- From one scale to two.
from_one_scale :
    (u v s m r x y a b c d : ℕ)
    → u * s ≡ x * r
    → v * s ≡ y * r
    → x + (a + b) ≡ y + (c + d)
    → u * (s * m) + (a * m + b * m) * r ≡ v * (s * m) + (c * m + d * m) * r
from_one_scale u v s m r x y a b c d hu hv h =
    let first : u * s * m ≡ x * r * m = ap (λ t. t * m) hu in
    let second : v * s * m ≡ y * r * m = ap (λ t. t * m) hv in
    let third : (x + (a + b)) * (m * r) ≡ (y + (c + d)) * (m * r) = ap (λ t. t * (m * r)) h in
    grind (arith, first, second, third)

up_scaled : (neg : Bool) (x y p q : ℕ) → x * p ≡ y * q → up neg y * q ≡ up neg x * p
up_scaled true x y p q h = grind arith
up_scaled false x y p q h = sym h

down_scaled : (neg : Bool) (x y p q : ℕ) → x * p ≡ y * q → down neg y * q ≡ down neg x * p
down_scaled true x y p q h = sym h
down_scaled false x y p q h = grind arith

same_powers : (m n : ℕ) → 10 ^ m * 10 ^ n ≡ 10 ^ max m n * 10 ^ min m n
same_powers m n =
    let sum : m + n ≡ max m n + min m n = omega arith in
    sym (pow10-add m n) ∙ (ap (λ k. 10 ^ k) sum ∙ pow10-add (max m n) (min m n))

module _ (d e : Decimal) where
  -- A signed number that is the sum at the larger scale, normalized, is the sum.
  pub normalized-IsSum :
      (neg : Bool) (ds : Digits)
      → let s = max d.scale e.scale in
        SumAt neg (number ds) d.negative (number (at_scale d s)) e.negative (number (at_scale e s))
        → IsSum d e (normalize (record { negative = neg; digits = ds; scale = s }))
  normalized-IsSum neg ds h =
      let s = max d.scale e.scale in
      let x : Decimal = record { negative = neg; digits = ds; scale = s } in
      let (u, v) = normalize-SameSigned x in
      let a = at_max_first d e in
      let b = at_max_second d e in
      let m = 10 ^ min d.scale e.scale in
      rw
        (
          same_powers d.scale e.scale,
          up_scaled d.negative (number (at_scale d s)) (number d.digits) m (10 ^ e.scale) a,
          up_scaled e.negative (number (at_scale e s)) (number e.digits) m (10 ^ d.scale) b,
          down_scaled d.negative (number (at_scale d s)) (number d.digits) m (10 ^ e.scale) a,
          down_scaled e.negative (number (at_scale e s)) (number e.digits) m (10 ^ d.scale) b,
        )
        (from_one_scale (up (normalize x).negative (number (normalize x).digits))
          (down (normalize x).negative (number (normalize x).digits)) (10 ^ s) m
          (10 ^ (normalize x).scale) (up neg (number ds)) (down neg (number ds))
          (down d.negative (number (at_scale d s))) (down e.negative (number (at_scale e s)))
          (up d.negative (number (at_scale d s))) (up e.negative (number (at_scale e s))) u v h)
