-- ===== src/Decimal/Value.antt =====
-- The number that a digit string stands for.
use native.Mathlib.Nat.{pow-suc, mul_assoc, zero-add}
use Prim.Native.Nat.add
use maiden_lane.Base.{
  ℕ, zero, suc, ◌+◌, ◌*◌, ◌^◌, ◌≤◌, ◌<◌, ◌≡◌, sym, List, [], ◌∷◌, ◌++◌, length, length-append,
  arith, All,
}
use maiden_lane.Decimal.Digits.{Digits, digit_value}

abbrev pub IsDigit : ℕ → Type 0
IsDigit b = (b'0' ≤ b) × (b ≤ b'9')

abbrev pub AreDigits : Digits → Type 0
AreDigits = All IsDigit

-- The number that the places stand for; a place may hold any number.
unfoldable pub weight : List ℕ → ℕ
weight [] = 0
weight (v ∷ vs) = v * 10 ^ length vs + weight vs

-- The number that the digits stand for.
unfoldable pub number : Digits → ℕ
number [] = 0
number (d ∷ ds) = digit_value d * 10 ^ length ds + number ds

pub pow10-suc : (n : ℕ) → 10 ^ suc n ≡ 10 * 10 ^ n
pow10-suc n = omega (arith, pow-suc 10 n)

pub pow10-add : (m n : ℕ) → 10 ^ (m + n) ≡ 10 ^ m * 10 ^ n
pow10-add zero n = rw (zero-add n) (omega arith)
pow10-add (suc m) n =
    rw (add.suc m n, pow10-suc (m + n), pow10-suc m, pow10-add m n)
      (sym (mul_assoc 10 (10 ^ m) (10 ^ n)))

pub number-append : (xs ys : Digits) → number (xs ++ ys) ≡ number xs * 10 ^ length ys + number ys
unfolding number
number-append [] ys = omega arith
number-append (x ∷ xs) ys =
    rw (length-append xs ys, pow10-add (length xs) (length ys), number-append xs ys) (grind arith)

pub number-lt : (ds : Digits) → AreDigits ds → number ds < 10 ^ length ds
unfolding number
number-lt [] h = omega arith
number-lt (d ∷ ds) (h, hs) =
    let rest = number-lt ds hs in rw (pow10-suc (length ds)) (grind (arith, rest, h))
