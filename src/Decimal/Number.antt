-- ===== src/Decimal/Number.antt =====
-- The type `decimal` of decimal.go and its operations. A scale is never negative; an operation that
-- returns an error in Go returns a result here, also where it never fails.
use Prim.Native.Nat.{Ordering, lt, eq, gt}
use maiden_lane.Base.{
  ℕ, zero, suc, ◌+◌, ◌-◌, Bool, true, false, not, ◌&&◌, ◌||◌, [], ◌∷◌, ◌++◌, if◌then◌else◌, ◌==◌,
  length, replicate, max, Result, ok, err, text_beq,
}
use maiden_lane.Decimal.Digits.{
  Digits, append_zeros, trim_leading, trim_to_one, compare_lengths, add_digits, sub_digits,
  mul_digits,
}

pub record Decimal : Type 0 where
  pub negative : Bool
  pub digits : Digits
  pub scale : ℕ

pub data DecimalError : Type 0 where
  empty_range division_by_zero : DecimalError

abbrev pub nought : Decimal
nought = record { negative = false; digits = b'0' ∷ []; scale = 0 }

-- `digits[len(digits)-1] == '0'`, where there is a digit.
unfoldable pub ends_in_zero : Digits → Bool
ends_in_zero [] = false
ends_in_zero (d ∷ []) = d == b'0'
ends_in_zero (d ∷ e ∷ ds) = ends_in_zero (e ∷ ds)

unfoldable pub drop_last : Digits → Digits
drop_last [] = []
drop_last (d ∷ []) = []
drop_last (d ∷ e ∷ ds) = d ∷ drop_last (e ∷ ds)

-- The first loop of `normalize`, on the scale that is left.
unfoldable pub trim_fraction : Bool → Digits → ℕ → Decimal
trim_fraction neg ds zero = record { negative = neg; digits = ds; scale = 0 }
trim_fraction neg ds (suc s) =
    let rest = trim_fraction neg (drop_last ds) s in
    if ends_in_zero ds then rest else record { negative = neg; digits = ds; scale = suc s }

abbrev pub or_nought : Bool → Digits → ℕ → Decimal
or_nought neg [] s = nought
or_nought neg (d ∷ ds) s = record { negative = neg; digits = d ∷ ds; scale = s }

unfoldable pub normalize : Decimal → Decimal
normalize d =
    let t = trim_fraction d.negative d.digits d.scale in
    or_nought t.negative (trim_leading t.digits) t.scale

abbrev pub is_single_zero : Digits → Bool
is_single_zero [] = false
is_single_zero (d ∷ []) = d == b'0'
is_single_zero (d ∷ e ∷ ds) = false

abbrev pub is_zero : Decimal → Bool
is_zero d = is_single_zero d.digits && d.scale == 0

abbrev pub same_sign : Bool → Bool → Bool
same_sign true true = true
same_sign true false = false
same_sign false true = false
same_sign false false = true

-- `Equal` on normalized numbers.
abbrev pub equal_normal : Decimal → Decimal → Bool
equal_normal d e =
    if is_zero d && is_zero e
    then true
    else if not (same_sign d.negative e.negative) || not (d.scale == e.scale)
    then false
    else text_beq d.digits e.digits

unfoldable pub equal : Decimal → Decimal → Bool
equal d e = equal_normal (normalize d) (normalize e)

-- The digits at a larger scale.
abbrev pub at_scale : Decimal → ℕ → Digits
at_scale d s = append_zeros d.digits (s - d.scale)

-- `alignScales` and the comparison of what it returns.
unfoldable pub compare_abs : Decimal → Decimal → Ordering
compare_abs d e =
    let s = max d.scale e.scale in
    compare_lengths (trim_to_one (at_scale d s)) (trim_to_one (at_scale e s))

abbrev pub is_gt : Ordering → Bool
is_gt lt = false
is_gt eq = false
is_gt gt = true

abbrev pub is_lt : Ordering → Bool
is_lt lt = true
is_lt eq = false
is_lt gt = false

-- `Less` on normalized numbers; `Equal` normalizes them once more.
abbrev pub less_normal : Decimal → Decimal → Bool
less_normal d e =
    if equal d e
    then false
    else if d.negative && not e.negative
    then true
    else if not d.negative && e.negative
    then false
    else if d.negative
    then is_gt (compare_abs d e)
    else is_lt (compare_abs d e)

unfoldable pub less : Decimal → Decimal → Bool
less d e = less_normal (normalize d) (normalize e)

-- `alignDigits` for one of the two numbers: to the scale, and then to the length of the longer one.
abbrev pub pad_to : ℕ → Digits → Digits
pad_to n ds = replicate (n - length ds) b'0' ++ ds

abbrev pub aligned : Decimal → Decimal → ℕ → Digits
aligned d e s = pad_to (max (length (at_scale d s)) (length (at_scale e s))) (at_scale d s)

-- The difference of the magnitudes, with the sign of the larger number, which comes first.
abbrev pub subtract_abs : Decimal → Decimal → ℕ → Decimal
subtract_abs d e s = normalize (record {
  negative = d.negative;
  digits = sub_digits (aligned d e s) (aligned e d s);
  scale = s;
})

-- `Add` on normalized numbers.
abbrev pub add_normal : Decimal → Decimal → Decimal
add_normal d e =
    let s = max d.scale e.scale in
    if same_sign d.negative e.negative
    then normalize (record {
      negative = d.negative;
      digits = add_digits (aligned d e s) (aligned e d s);
      scale = s;
    })
    else elim (compare_abs d e) [ eq ↦ nought | gt ↦ subtract_abs d e s | lt ↦ subtract_abs e d s ]

unfoldable pub add : Decimal → Decimal → Result DecimalError Decimal
add d e = ok (add_normal (normalize d) (normalize e))

unfoldable pub sub : Decimal → Decimal → Result DecimalError Decimal
sub d e = add d (record e { negative = not e.negative })

-- `Mul` on normalized numbers.
abbrev pub mul_normal : Decimal → Decimal → Decimal
mul_normal d e =
    if is_zero d || is_zero e
    then nought
    else normalize (record {
      negative = not (same_sign d.negative e.negative);
      digits = mul_digits d.digits e.digits;
      scale = d.scale + e.scale;
    })

unfoldable pub mul : Decimal → Decimal → Result DecimalError Decimal
mul d e = ok (mul_normal (normalize d) (normalize e))

abbrev pub abs : Decimal → Decimal
abs d = record d { negative = false }

unfoldable pub clamp : Decimal → Decimal → Decimal → Result DecimalError Decimal
clamp d low high =
    if less high low
    then err empty_range
    else if less d low
    then ok low
    else if less high d
    then ok high
    else ok d
