-- ===== src/Decimal/Parse.antt =====
-- `parseDecimal` of decimal.go. An error is `none`.
use maiden_lane.Base.{
  Bool, true, false, ◌&&◌, [], ◌∷◌, ◌++◌, Option, none, some, if◌then◌else◌, ltb, ◌==◌, length,
  Text, codes, is_empty, ◌≡◌, refl,
}
use maiden_lane.Base.Scan.{trim_space, cut, all_digits}
use maiden_lane.Decimal.Digits.{trim_leading}
use maiden_lane.Decimal.Number.{Decimal, normalize, trim_fraction, drop_last, ends_in_zero}

abbrev pub within_precision : Decimal → Option Decimal
within_precision d = if ltb 1000 (length d.digits) then none else some d

-- The integer and the fraction, as digits.
abbrev pub of_parts : Bool → Text → Text → Option Decimal
of_parts neg whole frac =
    if all_digits whole && all_digits frac
    then within_precision
        (normalize (record { negative = neg; digits = whole ++ frac; scale = length frac }))
    else none

-- What stands around the dot, where there is one.
abbrev pub at_dot : Bool → Text → Option (Text × Text) → Option Decimal
at_dot neg s none = of_parts neg s []
at_dot neg s (some (whole, frac)) =
    if is_empty whole && is_empty frac
    then none
    else elim (cut b'.' frac) [ some rest ↦ none | none ↦ of_parts neg whole frac ]

-- What is left behind the sign.
abbrev pub unsigned : Bool → Text → Option Decimal
unsigned neg s = if is_empty s then none else at_dot neg s (cut b'.' s)

abbrev pub parse_signed : Text → Option Decimal
parse_signed [] = none
parse_signed (b ∷ s) =
    if b == b'-'
    then unsigned true s
    else if b == b'+'
    then unsigned false s
    else unsigned false (b ∷ s)

unfoldable pub parse_decimal : Text → Option Decimal
unfolding cut all_digits normalize
parse_decimal s = parse_signed (trim_space s)

parses_decimal :
    parse_decimal (codes " -1.50 ")
    ≡ some (record { negative = true; digits = b'1' ∷ b'5' ∷ []; scale = 1 })
unfolding parse_decimal trim_space trim_fraction trim_leading drop_last ends_in_zero
parses_decimal = refl
