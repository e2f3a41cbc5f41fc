-- ===== src/Decimal/Normal.antt =====
-- `normalize` changes the digits and the scale, and not the magnitude.
use maiden_lane.Base.{
  ℕ, zero, suc, ◌*◌, ◌^◌, ◌<◌, ◌≡◌, ◌≢◌, refl, ◌∙◌, ap, [], ◌∷◌, length, arith, ◌==◌, Bool, true,
  Bool-cases, inl, inr,
}
use maiden_lane.Decimal.Digits.{Digits, trim_leading}
use maiden_lane.Decimal.Number.{
  Decimal, ends_in_zero, drop_last, trim_fraction, or_nought, normalize,
}
use maiden_lane.Decimal.Value.{AreDigits, number, pow10-suc}

-- The same magnitude: `number d.digits / 10 ^ d.scale`, multiplied out.
abbrev pub SameMagnitude : Decimal → Decimal → Type 0
SameMagnitude d e = number d.digits * 10 ^ e.scale ≡ number e.digits * 10 ^ d.scale

length-drop_last : (d : ℕ) (ds : Digits) → length (drop_last (d ∷ ds)) ≡ length ds
unfolding drop_last
length-drop_last d [] = refl
length-drop_last d (e ∷ ds) = ap suc (length-drop_last e ds)

number-drop_last : (ds : Digits) → ends_in_zero ds ≡ true → number ds ≡ 10 * number (drop_last ds)
unfolding number ends_in_zero drop_last
number-drop_last [] z = refl
number-drop_last (d ∷ []) z = let is0 : d ≡ b'0' = ground arith in rw is0 refl
number-drop_last (d ∷ e ∷ ds) z =
    let ih = number-drop_last (e ∷ ds) z in
    rw (pow10-suc (length ds), length-drop_last e ds) (grind (arith, ih))

drop_last-AreDigits : (ds : Digits) → AreDigits ds → AreDigits (drop_last ds)
unfolding drop_last
drop_last-AreDigits [] h = tt
drop_last-AreDigits (d ∷ []) h = tt
drop_last-AreDigits (d ∷ e ∷ ds) (h, hs) = (h, drop_last-AreDigits (e ∷ ds) hs)

trim_fraction-SameMagnitude :
    (neg : Bool) (ds : Digits) (s : ℕ)
    → SameMagnitude (trim_fraction neg ds s) (record { negative = neg; digits = ds; scale = s })
unfolding trim_fraction
trim_fraction-SameMagnitude neg ds zero = refl
trim_fraction-SameMagnitude neg ds (suc s) = elim (Bool-cases (ends_in_zero ds)) [
  | inr z ↦ rw z refl
  | inl z ↦
      let ih = trim_fraction-SameMagnitude neg (drop_last ds) s in
      rw (z, number-drop_last ds z, pow10-suc s) (grind (arith, ih))
]

trim_fraction-AreDigits :
    (neg : Bool) (ds : Digits) (s : ℕ) → AreDigits ds → AreDigits (trim_fraction neg ds s).digits
unfolding trim_fraction
trim_fraction-AreDigits neg ds zero h = h
trim_fraction-AreDigits neg ds (suc s) h = elim (Bool-cases (ends_in_zero ds)) [
  | inr z ↦ rw z h
  | inl z ↦ rw z (trim_fraction-AreDigits neg (drop_last ds) s (drop_last-AreDigits ds h))
]

trim_fraction-negative :
    (neg : Bool) (ds : Digits) (s : ℕ) → (trim_fraction neg ds s).negative ≡ neg
unfolding trim_fraction
trim_fraction-negative neg ds zero = refl
trim_fraction-negative neg ds (suc s) = elim (Bool-cases (ends_in_zero ds)) [
  | inr z ↦ rw z refl
  | inl z ↦ rw z (trim_fraction-negative neg (drop_last ds) s)
]

trim_leading-number : (ds : Digits) → number (trim_leading ds) ≡ number ds
unfolding trim_leading number
trim_leading-number [] = refl
trim_leading-number (d ∷ ds) = elim (Bool-cases (d == b'0')) [
  | inr z ↦ rw z refl
  | inl z ↦ let is0 : d ≡ b'0' = ground arith in rw (z, is0) (trim_leading-number ds ∙ grind arith)
]

trim_leading-AreDigits : (ds : Digits) → AreDigits ds → AreDigits (trim_leading ds)
unfolding trim_leading
trim_leading-AreDigits [] h = tt
trim_leading-AreDigits (d ∷ ds) (h, hs) = elim (Bool-cases (d == b'0')) [
  | inr z ↦ rw z (h, hs)
  | inl z ↦ rw z (trim_leading-AreDigits ds hs)
]

pub pow10-positive : (n : ℕ) → 0 < 10 ^ n
pow10-positive zero = omega arith
pow10-positive (suc n) = omega (arith, pow10-suc n, pow10-positive n)

pub zero_magnitude : (n p q : ℕ) → 0 < p → 0 * q ≡ n * p → n ≡ 0
zero_magnitude zero p q pos h = refl
zero_magnitude (suc n) (suc p) q pos h = absurd (grind (arith, h))
zero_magnitude (suc n) zero q pos h = absurd (omega arith)

or_nought-magnitude :
    (neg : Bool) (ds : Digits) (s n t : ℕ)
    → number ds * 10 ^ t ≡ n * 10 ^ s
    → number (or_nought neg ds s).digits * 10 ^ t ≡ n * 10 ^ (or_nought neg ds s).scale
unfolding number
or_nought-magnitude neg [] s n t h =
    let none_left = zero_magnitude n (10 ^ s) (10 ^ t) (pow10-positive s) h in
    rw none_left (grind arith)
or_nought-magnitude neg (d ∷ ds) s n t h = h

or_nought-AreDigits :
    (neg : Bool) (ds : Digits) (s : ℕ) → AreDigits ds → AreDigits (or_nought neg ds s).digits
or_nought-AreDigits neg [] s h = ((omega arith, omega arith), tt)
or_nought-AreDigits neg (d ∷ ds) s h = h

pub normalize-AreDigits : (d : Decimal) → AreDigits d.digits → AreDigits (normalize d).digits
unfolding normalize
normalize-AreDigits d h =
    let t = trim_fraction d.negative d.digits d.scale in
    or_nought-AreDigits t.negative (trim_leading t.digits) t.scale
      (trim_leading-AreDigits t.digits (trim_fraction-AreDigits d.negative d.digits d.scale h))

-- `normalize` keeps the magnitude, the number that the digits stand for over ten to the scale.
pub normalize-SameMagnitude : (d : Decimal) → SameMagnitude (normalize d) d
unfolding normalize
normalize-SameMagnitude d =
    let t = trim_fraction d.negative d.digits d.scale in
    let ds = trim_leading t.digits in
    let kept = trim_fraction-SameMagnitude d.negative d.digits d.scale in
    or_nought-magnitude t.negative ds t.scale (number d.digits) d.scale
      (rw (trim_leading-number t.digits) kept)

or_nought-negative :
    (neg : Bool) (ds : Digits) (s : ℕ)
    → number (or_nought neg ds s).digits ≢ 0
    → (or_nought neg ds s).negative ≡ neg
unfolding number
or_nought-negative neg [] s h = absurd (h refl)
or_nought-negative neg (d ∷ ds) s h = refl

-- `normalize` keeps the sign of a number that is not zero.
pub normalize-negative :
    (d : Decimal) → number (normalize d).digits ≢ 0 → (normalize d).negative ≡ d.negative
unfolding normalize
normalize-negative d h =
    let t = trim_fraction d.negative d.digits d.scale in
    or_nought-negative t.negative (trim_leading t.digits) t.scale h
    ∙ trim_fraction-negative d.negative d.digits d.scale

or_nought_some : (neg : Bool) (ds : Digits) (s : ℕ) → 0 < length (or_nought neg ds s).digits
or_nought_some neg [] s = omega arith
or_nought_some neg (d ∷ ds) s = omega arith

pub normalize_some : (d : Decimal) → 0 < length (normalize d).digits
unfolding normalize
normalize_some d =
    let t = trim_fraction d.negative d.digits d.scale in
    or_nought_some t.negative (trim_leading t.digits) t.scale
