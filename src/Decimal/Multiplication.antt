-- ===== src/Decimal/Multiplication.antt =====
-- `Mul` is exact: no digit and no sign is lost.
use maiden_lane.Base.{
  ℕ, ◌+◌, ◌*◌, ◌^◌, ◌<◌, ◌≡◌, ◌≢◌, refl, ◌∙◌, ap, ap₂, [], ◌∷◌, arith, true, false, not, ◌||◌,
  Bool-cases, inl, inr, ok,
}
use maiden_lane.Decimal.Digits.{Digits, mul_digits}
use maiden_lane.Decimal.Number.{
  Decimal, normalize, is_single_zero, is_zero, same_sign, mul_normal, mul,
}
use maiden_lane.Decimal.Value.{AreDigits, number, pow10-add}
use maiden_lane.Decimal.Products.{mul_digits-number}
use maiden_lane.Decimal.Normal.{
  normalize-AreDigits, normalize-SameMagnitude, normalize-negative, pow10-positive,
}

is_single_zero-number : (ds : Digits) → is_single_zero ds ≡ true → number ds ≡ 0
unfolding number
is_single_zero-number [] z = refl
is_single_zero-number (d ∷ []) z = let is0 : d ≡ b'0' = ground arith in rw is0 refl
is_single_zero-number (d ∷ e ∷ ds) z = absurd (cc)

-- The product of two magnitudes, multiplied out.
abbrev IsProduct : Decimal → Decimal → Decimal → Type 0
IsProduct d e r =
    number r.digits * 10 ^ (d.scale + e.scale) ≡ number d.digits * number e.digits * 10 ^ r.scale

zero_product :
    (d e : Decimal) → (is_zero d || is_zero e) ≡ true → number d.digits * number e.digits ≡ 0
zero_product d e z = elim (Bool-cases (is_single_zero d.digits)) [
  | inl zd ↦ rw (is_single_zero-number d.digits zd) (grind arith)
  | inr nd ↦
      let ze : is_single_zero e.digits ≡ true = ground arith in
      rw (is_single_zero-number e.digits ze) (grind arith)
]

mul_normal-IsProduct :
    (d e : Decimal) → AreDigits d.digits → AreDigits e.digits → IsProduct d e (mul_normal d e)
unfolding number
mul_normal-IsProduct d e hd he = elim (Bool-cases (is_zero d || is_zero e)) [
  | inl z ↦ rw (z, zero_product d e z) (grind arith)
  | inr z ↦
      let kept = normalize-SameMagnitude (record {
        negative = not (same_sign d.negative e.negative);
        digits = mul_digits d.digits e.digits;
        scale = d.scale + e.scale;
      }) in
      rw (z, ← (mul_digits-number d.digits e.digits hd he)) kept
]

-- Two factors may be replaced by equal magnitudes.
pub cancel_right : (m n p : ℕ) → 0 < p → m * p ≡ n * p → m ≡ n
cancel_right m n p pos h = grind arith

product_of_same :
    (r p q x y p' q' x' y' s : ℕ)
    → 0 < p'
    → 0 < q'
    → r * (p' * q') ≡ x' * y' * s
    → x' * p ≡ x * p'
    → y' * q ≡ y * q'
    → r * (p * q) ≡ x * y * s
product_of_same r p q x y p' q' x' y' s posp posq h hx hy =
    let both : (x' * p) * (y' * q) ≡ (x * p') * (y * q') = ap₂ ◌*◌ hx hy in
    let scaled : (r * (p' * q')) * (p * q) ≡ (x' * y' * s) * (p * q) = ap (λ t. t * (p * q)) h in
    let more : ((x' * p) * (y' * q)) * s ≡ ((x * p') * (y * q')) * s = ap (λ t. t * s) both in
    cancel_right (r * (p * q)) (x * y * s) q' posq
      (cancel_right (r * (p * q) * q') (x * y * s * q') p' posp (grind (arith, scaled, more)))

mul_normal-negative :
    (d e : Decimal)
    → number (mul_normal d e).digits ≢ 0
    → ((is_zero d || is_zero e) ≡ false)
      × ((mul_normal d e).negative ≡ not (same_sign d.negative e.negative))
unfolding number
mul_normal-negative d e h = elim (Bool-cases (is_zero d || is_zero e)) [
  | inl z ↦ absurd ((rw z at h) refl)
  | inr z ↦ (
    z,
    rw z (
        normalize-negative
          (record {
            negative = not (same_sign d.negative e.negative);
            digits = mul_digits d.digits e.digits;
            scale = d.scale + e.scale;
          })
          (rw z at h)),
  )
]

-- A product that is not zero has factors that are not zero.
factors_nonzero : (r p x y s : ℕ) → 0 < p → r * p ≡ x * y * s → r ≢ 0 → (x ≢ 0) × (y ≢ 0)
factors_nonzero r p x y s pos h nz = (
  (λ x0. nz (cancel_right r 0 p pos (h ∙ rw x0 (grind arith)))),
  λ y0. nz (cancel_right r 0 p pos (h ∙ rw y0 (grind arith))),
)

-- `Mul` returns the exact product of two numbers with digits from '0' to '9': never an error, the
-- magnitudes multiplied (compared as integers, over both scales), and, where the product is not
-- zero, negative exactly where one factor is.
pub mul-exact :
    (d e : Decimal)
    → AreDigits d.digits
    → AreDigits e.digits
    → (r : Decimal) × (mul d e ≡ ok r)
      × (number r.digits * 10 ^ (d.scale + e.scale)
          ≡ number d.digits * number e.digits * 10 ^ r.scale)
      × (number r.digits ≢ 0 → r.negative ≡ not (same_sign d.negative e.negative))
unfolding mul
mul-exact d e hd he =
    let nd = normalize d in
    let ne = normalize e in
    let product =
      mul_normal-IsProduct nd ne (normalize-AreDigits d hd) (normalize-AreDigits e he) in
    let pd = pow10-positive nd.scale in
    let pe = pow10-positive ne.scale in
    let r = mul_normal nd ne in
    (
      r,
      refl,
      rw (pow10-add d.scale e.scale) (
          product_of_same (number r.digits) (10 ^ d.scale) (10 ^ e.scale) (number d.digits)
            (number e.digits) (10 ^ nd.scale) (10 ^ ne.scale) (number nd.digits) (number ne.digits)
            (10 ^ r.scale) pd pe (rw (pow10-add nd.scale ne.scale) at product)
            (normalize-SameMagnitude d) (normalize-SameMagnitude e)),
      λ nz.
          let (ndz, nez) =
            factors_nonzero (number r.digits) (10 ^ (nd.scale + ne.scale)) (number nd.digits)
              (number ne.digits) (10 ^ r.scale) (pow10-positive (nd.scale + ne.scale)) product nz in
          (mul_normal-negative nd ne nz).1
          ∙ ap₂ (λ a b. not (same_sign a b)) (normalize-negative d ndz) (normalize-negative e nez),
    )
