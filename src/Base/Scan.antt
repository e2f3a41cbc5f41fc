-- ===== src/Base/Scan.antt =====
-- What the code uses of Go's packages `strings` and `strconv`, on the bytes of a string.
use Prim.Native.Nat.{ℕ, zero, suc, ◌+◌, ◌-◌, ◌*◌, ◌^◌}
use mathlib.Core.Path.{◌≡◌, refl}
use mathlib.Core.Bool.{Bool, true, false, ◌&&◌, ◌||◌, not}
use mathlib.Core.Option.{Option, none, some}
use mathlib.Core.List.{List, [], ◌∷◌, map, reverse}
use maiden_lane.Base.Tests.{ltb, leb, ◌==◌, if◌then◌else◌}
use maiden_lane.Base.Lists.{length}
use maiden_lane.Base.Keys.{Text, codes, is_empty}
use maiden_lane.Base.Int.{ℤ, pos, sub_ℕ}

-- What is left of a text behind a prefix.
unfoldable pub behind : Text → Text → Option Text
behind [] s = some s
behind (a ∷ p) [] = none
behind (a ∷ p) (b ∷ s) = if a == b then behind p s else none

-- `unicode.IsSpace`, by the UTF-8 encodings of the white space.
abbrev pub spaces : List Text
spaces =
    (9 ∷ [])
    ∷ (10 ∷ [])
    ∷ (11 ∷ [])
    ∷ (12 ∷ [])
    ∷ (13 ∷ [])
    ∷ (32 ∷ [])
    ∷ (0xc2 ∷ 0x85 ∷ [])
    ∷ (0xc2 ∷ 0xa0 ∷ [])
    ∷ (0xe1 ∷ 0x9a ∷ 0x80 ∷ [])
    ∷ (0xe2 ∷ 0x80 ∷ 0x80 ∷ [])
    ∷ (0xe2 ∷ 0x80 ∷ 0x81 ∷ [])
    ∷ (0xe2 ∷ 0x80 ∷ 0x82 ∷ [])
    ∷ (0xe2 ∷ 0x80 ∷ 0x83 ∷ [])
    ∷ (0xe2 ∷ 0x80 ∷ 0x84 ∷ [])
    ∷ (0xe2 ∷ 0x80 ∷ 0x85 ∷ [])
    ∷ (0xe2 ∷ 0x80 ∷ 0x86 ∷ [])
    ∷ (0xe2 ∷ 0x80 ∷ 0x87 ∷ [])
    ∷ (0xe2 ∷ 0x80 ∷ 0x88 ∷ [])
    ∷ (0xe2 ∷ 0x80 ∷ 0x89 ∷ [])
    ∷ (0xe2 ∷ 0x80 ∷ 0x8a ∷ [])
    ∷ (0xe2 ∷ 0x80 ∷ 0xa8 ∷ [])
    ∷ (0xe2 ∷ 0x80 ∷ 0xa9 ∷ [])
    ∷ (0xe2 ∷ 0x80 ∷ 0xaf ∷ [])
    ∷ (0xe2 ∷ 0x81 ∷ 0x9f ∷ [])
    ∷ (0xe3 ∷ 0x80 ∷ 0x80 ∷ [])
    ∷ []

-- What is left behind the first of the prefixes that fits.
unfoldable pub strip_one : List Text → Text → Option Text
strip_one [] s = none
strip_one (p ∷ ps) s = elim (behind p s) [ some r ↦ some r | none ↦ strip_one ps s ]

-- Each round takes at least one byte, so as many rounds as there are bytes are enough.
unfoldable pub strip_all : ℕ → List Text → Text → Text
strip_all zero ps s = s
strip_all (suc n) ps s = elim (strip_one ps s) [ none ↦ s | some r ↦ strip_all n ps r ]

abbrev pub trim_left : Text → Text
trim_left s = strip_all (length s) spaces s

abbrev pub trim_right : Text → Text
trim_right s = reverse (strip_all (length s) (map reverse spaces) (reverse s))

-- `strings.TrimSpace`.
unfoldable pub trim_space : Text → Text
unfolding strip_all strip_one behind
trim_space s = trim_right (trim_left s)

-- `strings.IndexByte` and the two slices around the byte, where there is one.
abbrev pub on_head : ℕ → Option (Text × Text) → Option (Text × Text)
on_head b none = none
on_head b (some (l, r)) = some (b ∷ l, r)

unfoldable pub cut : ℕ → Text → Option (Text × Text)
cut c [] = none
cut c (b ∷ s) = if b == c then some ([], s) else on_head b (cut c s)

-- `strings.Split` at a byte.
abbrev pub into_first : ℕ → List Text → List Text
into_first b [] = (b ∷ []) ∷ []
into_first b (t ∷ ts) = (b ∷ t) ∷ ts

unfoldable pub split : ℕ → Text → List Text
split c [] = [] ∷ []
split c (b ∷ s) = let rest = split c s in if b == c then [] ∷ rest else into_first b rest

-- `strings.TrimSuffix` where `strings.HasSuffix`.
abbrev pub reversed_some : Option Text → Option Text
reversed_some none = none
reversed_some (some r) = some (reverse r)

unfoldable pub without_suffix : Text → Text → Option Text
unfolding behind
without_suffix p s = reversed_some (behind (reverse p) (reverse s))

abbrev pub is_digit : ℕ → Bool
is_digit b = leb b'0' b && leb b b'9'

unfoldable pub all_digits : Text → Bool
all_digits [] = true
all_digits (b ∷ s) = if is_digit b then all_digits s else false

unfoldable pub digits_value : ℕ → Text → ℕ
digits_value n [] = n
digits_value n (b ∷ s) = digits_value (n * 10 + (b - b'0')) s

-- The digits of `strconv.ParseInt(s, 10, 64)`, by sign.
abbrev pub signed_value : Bool → Text → Option ℤ
signed_value neg s =
    if is_empty s || not (all_digits s)
    then none
    else if neg
    then (if ltb (2 ^ 63) (digits_value 0 s) then none else some (sub_ℕ 0 (digits_value 0 s)))
    else if ltb (digits_value 0 s) (2 ^ 63)
    then some (pos (digits_value 0 s))
    else none

-- `strconv.ParseInt(s, 10, 64)`, where `none` is an error: a sign is accepted.
unfoldable pub parse_int : Text → Option ℤ
unfolding all_digits digits_value
parse_int [] = none
parse_int (b ∷ s) =
    if b == b'+'
    then signed_value false s
    else if b == b'-'
    then signed_value true s
    else signed_value false (b ∷ s)

trims : trim_space (codes "  a b ") ≡ codes "a b"
unfolding trim_space
trims = refl

parses_sign : parse_int (codes "+12") ≡ some (pos 12)
unfolding parse_int
parses_sign = refl
