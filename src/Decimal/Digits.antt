-- ===== src/Decimal/Digits.antt =====
-- The routines of decimal.go on digit strings: bytes '0' to '9', the most significant first. A loop
-- from the last index to the first is a recursion that does the tail before the head. The two
-- arguments of `add_digits` and `sub_digits` have one length wherever they are called (Go panics on
-- a shorter second one).
use Prim.Native.Nat.{compare, Ordering, lt, eq, gt}
use maiden_lane.Base.{
  ℕ, ◌+◌, ◌-◌, ◌*◌, ◌/◌, ◌%◌, List, [], ◌∷◌, ◌++◌, if◌then◌else◌, ltb, ◌==◌, length, replicate,
  codes, ◌≡◌, refl,
}

abbrev pub Digits : Type 0
Digits = List ℕ

-- `b - '0'` on bytes.
abbrev pub digit_value : ℕ → ℕ
digit_value b = (b + 256 - b'0') % 256

unfoldable pub append_zeros : Digits → ℕ → Digits
append_zeros ds n = ds ++ replicate n b'0'

-- All leading zeros go.
unfoldable pub trim_leading : Digits → Digits
trim_leading [] = []
trim_leading (d ∷ ds) = if d == b'0' then trim_leading ds else d ∷ ds

-- Leading zeros go, but the last digit stays: `for i < len(ds)-1 && ds[i] == '0'`.
unfoldable pub trim_to_one : Digits → Digits
trim_to_one [] = []
trim_to_one (d ∷ []) = d ∷ []
trim_to_one (d ∷ e ∷ ds) = if d == b'0' then trim_to_one (e ∷ ds) else d ∷ e ∷ ds

-- `bytes.Compare`.
unfoldable pub compare_bytes : Digits → Digits → Ordering
compare_bytes [] [] = eq
compare_bytes [] (b ∷ bs) = lt
compare_bytes (a ∷ as') [] = gt
compare_bytes (a ∷ as') (b ∷ bs) = elim (compare a b) [
  | lt ↦ lt
  | gt ↦ gt
  | eq ↦ compare_bytes as' bs
]

-- By length first, then byte by byte.
unfoldable pub compare_lengths : Digits → Digits → Ordering
compare_lengths a b = elim (compare (length a) (length b)) [
  | lt ↦ lt
  | gt ↦ gt
  | eq ↦ compare_bytes a b
]

-- What a loop leaves: the digits written, and what it carries to the next place.
pub record Carried : Type 0 where
  pub written : Digits
  pub carry : ℕ

-- One round of `addDigits`, in bytes.
abbrev pub add_place : ℕ → ℕ → Carried → Carried
add_place a b c =
    let sum = (digit_value a + digit_value b + c.carry) % 256 in
    record { written = (sum % 10 + b'0') ∷ c.written; carry = sum / 10 }

unfoldable pub add_loop : Digits → Digits → Carried
add_loop [] bs = record { written = []; carry = 0 }
add_loop (a ∷ as') [] = record { written = []; carry = 0 }
add_loop (a ∷ as') (b ∷ bs) = add_place a b (add_loop as' bs)

unfoldable pub add_digits : Digits → Digits → Digits
add_digits a b =
    let c = add_loop a b in
    if c.carry + b'0' == b'0' then c.written else (c.carry + b'0') ∷ c.written

-- One round of `subDigits`, where `carry` is the borrow: a negative difference takes ten.
abbrev pub sub_place : ℕ → ℕ → Carried → Carried
sub_place a b c =
    let x = digit_value a in
    let y = digit_value b + c.carry in
    if ltb x y
    then record { written = (x + 10 - y + b'0') ∷ c.written; carry = 1 }
    else record { written = (x - y + b'0') ∷ c.written; carry = 0 }

unfoldable pub sub_loop : Digits → Digits → Carried
sub_loop [] bs = record { written = []; carry = 0 }
sub_loop (a ∷ as') [] = record { written = []; carry = 0 }
sub_loop (a ∷ as') (b ∷ bs) = sub_place a b (sub_loop as' bs)

unfoldable pub sub_digits : Digits → Digits → Digits
sub_digits a b = (sub_loop a b).written

-- One round of the inner loop of `mulDigits` at the two places that it changes.
abbrev pub mul_place : ℕ → ℕ → List ℕ → List ℕ
mul_place x y [] = []
mul_place x y (p1 ∷ []) = p1 ∷ []
mul_place x y (p1 ∷ p2 ∷ rest) =
    let sum = digit_value x * digit_value y + p2 in (p1 + sum / 10) ∷ sum % 10 ∷ rest

-- The inner loop, for one digit `x`: the places of the result from that of `x` on.
unfoldable pub mul_row : ℕ → Digits → List ℕ → List ℕ
mul_row x [] places = places
mul_row x (y ∷ ys) [] = []
mul_row x (y ∷ ys) (p ∷ places) = mul_place x y (p ∷ mul_row x ys places)

-- The outer loop: the places of the result, as numbers.
unfoldable pub mul_rows : Digits → Digits → List ℕ
mul_rows [] ys = replicate (length ys) 0
mul_rows (x ∷ xs) ys = mul_row x ys (0 ∷ mul_rows xs ys)

-- The copy to digits: nothing is written before the first place that is not zero.
unfoldable pub to_digits : List ℕ → Digits
to_digits [] = []
to_digits (v ∷ vs) = (v + b'0') % 256 ∷ to_digits vs

unfoldable pub started : List ℕ → Digits
unfolding to_digits
started [] = []
started (v ∷ vs) = if v == 0 then started vs else to_digits (v ∷ vs)

abbrev pub or_zero : Digits → Digits
or_zero [] = b'0' ∷ []
or_zero (d ∷ ds) = d ∷ ds

unfoldable pub mul_digits : Digits → Digits → Digits
mul_digits a b = or_zero (started (mul_rows a b))

add_digits_runs : add_digits (codes "0995") (codes "0017") ≡ codes "1012"
unfolding add_digits add_loop
add_digits_runs = refl

sub_digits_runs : sub_digits (codes "1000") (codes "0001") ≡ codes "0999"
unfolding sub_digits sub_loop
sub_digits_runs = refl

mul_digits_runs : mul_digits (codes "999") (codes "98") ≡ codes "97902"
unfolding mul_digits mul_rows mul_row started to_digits
mul_digits_runs = refl
