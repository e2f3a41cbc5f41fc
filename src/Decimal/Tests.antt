-- ===== src/Decimal/Tests.antt =====
-- Decimal numbers at work, and the theorems about their digits at concrete digits.
use maiden_lane.Base.{
  ℕ, String, ◌+◌, ◌*◌, ◌^◌, ◌≤◌, ◌≡◌, ◌≢◌, refl, arith, true, false, codes, ok, err, text_beq,
}
use maiden_lane.Decimal.Digits.{
  sub_digits, sub_loop, mul_digits, mul_rows, mul_row, started, to_digits, trim_leading,
  trim_to_one, append_zeros, compare_bytes, compare_lengths,
}
use maiden_lane.Decimal.Number.{
  Decimal, empty_range, nought, normalize, trim_fraction, ends_in_zero, drop_last, equal, less,
  compare_abs, add, mul, clamp,
}
use maiden_lane.Decimal.Value.{AreDigits, number}
use maiden_lane.Decimal.Carries.{sub_digits-number}
use maiden_lane.Decimal.Products.{mul_digits-number}
use maiden_lane.Decimal.Normal.{SameMagnitude, normalize-SameMagnitude}
use maiden_lane.Decimal.Multiplication.{mul-exact}
use maiden_lane.Decimal.Orders.{Decides}
use maiden_lane.Decimal.Scales.{compare_abs-Decides}

abbrev plus : String → ℕ → Decimal
plus ds s = record { negative = false; digits = codes ds; scale = s }

abbrev minus : String → ℕ → Decimal
minus ds s = record { negative = true; digits = codes ds; scale = s }

-- 1.50 - 2.25 is -0.75, and 0.5 times -0.20 is -0.1.
adds : add (plus "150" 2) (minus "225" 2) ≡ ok (minus "75" 2)
unfolding add normalize trim_fraction ends_in_zero drop_last trim_leading compare_abs
    compare_lengths compare_bytes trim_to_one append_zeros sub_digits sub_loop
adds = refl

multiplies : mul (plus "5" 1) (minus "20" 2) ≡ ok (minus "1" 1)
unfolding mul normalize trim_fraction ends_in_zero drop_last trim_leading mul_digits mul_rows
    mul_row started to_digits
multiplies = refl

compares : less (minus "30" 1) (plus "3" 0) ≡ true
unfolding less equal normalize trim_fraction ends_in_zero drop_last trim_leading text_beq
compares = refl

refuses_range : clamp nought (plus "2" 0) (plus "1" 0) ≡ err empty_range
unfolding clamp less equal normalize trim_fraction trim_leading text_beq compare_abs compare_lengths
    compare_bytes trim_to_one append_zeros
refuses_range = refl

ninety_five : AreDigits (codes "95")
ninety_five = ((omega arith, omega arith), ((omega arith, omega arith), tt))

seventeen : AreDigits (codes "17")
seventeen = ((omega arith, omega arith), ((omega arith, omega arith), tt))

fits : number (codes "17") ≤ number (codes "95")
unfolding number
fits = omega arith

sub_digits-number_example :
    number (sub_digits (codes "95") (codes "17")) + number (codes "17") ≡ number (codes "95")
sub_digits-number_example =
    sub_digits-number (codes "95") (codes "17") refl ninety_five seventeen fits

mul_digits-number_example :
    number (mul_digits (codes "95") (codes "17")) ≡ number (codes "95") * number (codes "17")
mul_digits-number_example = mul_digits-number (codes "95") (codes "17") ninety_five seventeen

normalize-SameMagnitude_example : SameMagnitude (normalize (plus "0950" 2)) (plus "0950" 2)
normalize-SameMagnitude_example = normalize-SameMagnitude (plus "0950" 2)

mul-exact_example :
    (r : Decimal) × (mul (plus "95" 1) (minus "17" 2) ≡ ok r)
    × (number r.digits * 10 ^ 3 ≡ number (codes "95") * number (codes "17") * 10 ^ r.scale)
    × (number r.digits ≢ 0 → r.negative ≡ true)
mul-exact_example = mul-exact (plus "95" 1) (minus "17" 2) ninety_five seventeen

compare_abs-Decides_example :
    Decides
      (compare_abs (plus "95" 1) (minus "17" 2))
      (number (codes "95") * 10 ^ 2)
      (number (codes "17") * 10 ^ 1)
compare_abs-Decides_example =
    compare_abs-Decides (plus "95" 1) (minus "17" 2) (omega arith) (omega arith) ninety_five
      seventeen
