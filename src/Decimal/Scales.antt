-- ===== src/Decimal/Scales.antt =====
-- Two numbers brought to one scale, and the comparison of their magnitudes there.
use native.Mathlib.Nat.{mul_assoc}
use Prim.Native.Nat.{Ordering, lt, eq, gt}
use maiden_lane.Base.{
  ℕ, zero, suc, ◌+◌, ◌-◌, ◌*◌, ◌^◌, ◌<◌, ◌≡◌, refl, sym, ◌∙◌, ap, length, arith, replicate, max,
  min, length-append, length-replicate, All-append, All-replicate,
}
use maiden_lane.Decimal.Digits.{append_zeros, trim_to_one}
use maiden_lane.Decimal.Number.{Decimal, at_scale, compare_abs}
use maiden_lane.Decimal.Value.{IsDigit, AreDigits, number, number-append, pow10-add}
use maiden_lane.Decimal.Normal.{pow10-positive}
use maiden_lane.Decimal.Orders.{
  Decides, compare_lengths-Decides, trim_to_one-number, trim_to_one-AreDigits, trim_to_one-Trimmed,
  trim_to_one_some,
}

pub number-replicate : (n : ℕ) → number (replicate n b'0') ≡ 0
unfolding number
number-replicate zero = refl
number-replicate (suc n) = rw (number-replicate n) (grind arith)

pub zeros-AreDigits : (n : ℕ) → AreDigits (replicate n b'0')
zeros-AreDigits n = All-replicate IsDigit n b'0' (omega arith, omega arith)

pub at_scale-number :
    (d : Decimal) (s : ℕ) → number (at_scale d s) ≡ number d.digits * 10 ^ (s - d.scale)
unfolding append_zeros
at_scale-number d s =
    rw
      (
        number-append d.digits (replicate (s - d.scale) b'0'),
        number-replicate (s - d.scale),
        length-replicate {A = ℕ} (s - d.scale) b'0',
      )
      (omega arith)

pub at_scale-AreDigits : (d : Decimal) (s : ℕ) → AreDigits d.digits → AreDigits (at_scale d s)
unfolding append_zeros
at_scale-AreDigits d s h =
    All-append IsDigit d.digits (replicate (s - d.scale) b'0') h (zeros-AreDigits (s - d.scale))

at_scale_some : (d : Decimal) (s : ℕ) → 0 < length d.digits → 0 < length (at_scale d s)
unfolding append_zeros
at_scale_some d s h = omega (arith, length-append d.digits (replicate (s - d.scale) b'0'))

pub scale-Decides : (o : Ordering) (m n t : ℕ) → 0 < t → Decides o m n → Decides o (m * t) (n * t)
scale-Decides lt m n zero pos h = absurd (omega arith)
scale-Decides lt m n (suc t) pos h = grind (arith, h)
scale-Decides eq m n t pos h = ap (λ k. k * t) h
scale-Decides gt m n zero pos h = absurd (omega arith)
scale-Decides gt m n (suc t) pos h = grind (arith, h)

pub compare_abs_at :
    (d e : Decimal)
    → 0 < length d.digits
    → 0 < length e.digits
    → AreDigits d.digits
    → AreDigits e.digits
    → let s = max d.scale e.scale in
      Decides (compare_abs d e) (number (at_scale d s)) (number (at_scale e s))
unfolding compare_abs
compare_abs_at d e sd se hd he =
    let s = max d.scale e.scale in
    let a = at_scale d s in
    let b = at_scale e s in
    let ha = at_scale-AreDigits d s hd in
    let hb = at_scale-AreDigits e s he in
    let la = at_scale_some d s sd in
    let lb = at_scale_some e s se in
    rw (← (trim_to_one-number a), ← (trim_to_one-number b))
      (compare_lengths-Decides (trim_to_one a) (trim_to_one b) (trim_to_one_some a la)
        (trim_to_one_some b lb) (trim_to_one-AreDigits a ha) (trim_to_one-AreDigits b hb)
        (trim_to_one-Trimmed a la ha) (trim_to_one-Trimmed b lb hb))

product_of_powers : (m u v y : ℕ) → u + v ≡ y → m * 10 ^ u * 10 ^ v ≡ m * 10 ^ y
product_of_powers m u v y h =
    let powers : 10 ^ u * 10 ^ v ≡ 10 ^ y = sym (pow10-add u v) ∙ ap (λ k. 10 ^ k) h in
    mul_assoc m (10 ^ u) (10 ^ v) ∙ ap (λ k. m * k) powers

pub at_max_first :
    (d e : Decimal)
    → number (at_scale d (max d.scale e.scale)) * 10 ^ min d.scale e.scale
      ≡ number d.digits * 10 ^ e.scale
at_max_first d e = rw (at_scale-number d (max d.scale e.scale)) (
    product_of_powers (number d.digits) (max d.scale e.scale - d.scale) (min d.scale e.scale)
      e.scale (omega arith))

pub at_max_second :
    (d e : Decimal)
    → number (at_scale e (max d.scale e.scale)) * 10 ^ min d.scale e.scale
      ≡ number e.digits * 10 ^ d.scale
at_max_second d e = rw (at_scale-number e (max d.scale e.scale)) (
    product_of_powers (number e.digits) (max d.scale e.scale - e.scale) (min d.scale e.scale)
      d.scale (omega arith))

-- `compareAbs` decides the order of the magnitudes of two numbers with at least one digit, all from
-- '0' to '9', whatever their scales and leading zeros: the order of the magnitudes multiplied out.
pub compare_abs-Decides :
    (d e : Decimal)
    → 0 < length d.digits
    → 0 < length e.digits
    → AreDigits d.digits
    → AreDigits e.digits
    → Decides (compare_abs d e) (number d.digits * 10 ^ e.scale) (number e.digits * 10 ^ d.scale)
compare_abs-Decides d e sd se hd he =
    rw (← (at_max_first d e), ← (at_max_second d e))
      (scale-Decides (compare_abs d e) _ _ (10 ^ min d.scale e.scale)
        (pow10-positive (min d.scale e.scale)) (compare_abs_at d e sd se hd he))
