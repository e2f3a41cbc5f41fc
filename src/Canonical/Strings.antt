-- ===== src/Canonical/Strings.antt =====
-- What the encoder uses of Go's standard library on strings: `utf8.ValidString`, hexadecimal, and
-- big-endian numbers.
use maiden_lane.Base.{
  ℕ, zero, suc, ◌+◌, ◌-◌, ◌*◌, ◌/◌, ◌%◌, Bool, true, false, ◌&&◌, List, [], ◌∷◌, ◌++◌, Option, none,
  some, ltb, leb, ◌==◌, if◌then◌else◌, Text, codes, ◌≡◌, refl,
}

abbrev pub between : ℕ → ℕ → ℕ → Bool
between lo hi b = leb lo b && leb b hi

-- Where a UTF-8 reader stands: how many bytes of a character are missing, and the range of the next.
pub record Utf8State : Type 0 where
  pub missing : ℕ
  pub low : ℕ
  pub high : ℕ

abbrev utf8_start : Utf8State
utf8_start = record { missing = 0; low = 0x80; high = 0xbf }

-- The byte that begins a character; `none` if no character begins so.
utf8_first : ℕ → Option Utf8State
utf8_first b =
    if ltb b 0x80
    then some utf8_start
    else if between 0xc2 0xdf b
    then some (record { missing = 1; low = 0x80; high = 0xbf })
    else if b == 0xe0
    then some (record { missing = 2; low = 0xa0; high = 0xbf })
    else if b == 0xed
    then some (record { missing = 2; low = 0x80; high = 0x9f })
    else if between 0xe1 0xef b
    then some (record { missing = 2; low = 0x80; high = 0xbf })
    else if b == 0xf0
    then some (record { missing = 3; low = 0x90; high = 0xbf })
    else if between 0xf1 0xf3 b
    then some (record { missing = 3; low = 0x80; high = 0xbf })
    else if b == 0xf4
    then some (record { missing = 3; low = 0x80; high = 0x8f })
    else none

utf8_next : Utf8State → ℕ → Option Utf8State
unfolding utf8_first
utf8_next s b =
    if s.missing == 0
    then utf8_first b
    else if between s.low s.high b
    then some (record { missing = s.missing - 1; low = 0x80; high = 0xbf })
    else none

utf8_from : Option Utf8State → Text → Bool
utf8_from none s = false
utf8_from (some st) [] = st.missing == 0
utf8_from (some st) (b ∷ s) = utf8_from (utf8_next st b) s

-- `utf8.ValidString`.
unfoldable pub valid_utf8 : Text → Bool
unfolding utf8_from utf8_next
valid_utf8 s = utf8_from (some utf8_start) s

-- `binary.BigEndian.PutUint64` for `k` bytes: the last `k` digits of the number in base 256.
unfoldable pub big_endian : ℕ → ℕ → List ℕ
big_endian zero v = []
big_endian (suc k) v = big_endian k (v / 256) ++ v % 256 ∷ []

-- The value of a hexadecimal digit, of either case, as `hex.DecodeString` reads it.
unfoldable pub hex_digit : ℕ → Option ℕ
hex_digit c =
    if between b'0' b'9' c
    then some (c - b'0')
    else if between b'a' b'f' c
    then some (c - b'a' + 10)
    else if between b'A' b'F' c
    then some (c - b'A' + 10)
    else none

-- One byte in front of a decoded text.
abbrev pub hex_cons : Option ℕ → Option ℕ → Option (List ℕ) → Option (List ℕ)
hex_cons none l rest = none
hex_cons (some h) none rest = none
hex_cons (some h) (some l) none = none
hex_cons (some h) (some l) (some rest) = some ((16 * h + l) ∷ rest)

-- `hex.DecodeString`: pairs of digits; an odd one is an error.
unfoldable pub decode_hex : Text → Option (List ℕ)
decode_hex [] = some []
decode_hex (h ∷ []) = none
decode_hex (h ∷ l ∷ s) = hex_cons (hex_digit h) (hex_digit l) (decode_hex s)

-- `strings.ToLower(s) == s`, for the strings that are hexadecimal.
unfoldable pub is_lower_case : Text → Bool
is_lower_case [] = true
is_lower_case (c ∷ s) = if between b'A' b'Z' c then false else is_lower_case s

valid_utf8_accepts : valid_utf8 (codes "abc" ++ 0xc3 ∷ 0xa9 ∷ 0xe2 ∷ 0x82 ∷ 0xac ∷ []) ≡ true
unfolding valid_utf8
valid_utf8_accepts = refl

valid_utf8_refuses : valid_utf8 (0xc0 ∷ 0x80 ∷ []) ≡ false
unfolding valid_utf8
valid_utf8_refuses = refl

decode_hex_runs : decode_hex (codes "00ff1A") ≡ some (0 ∷ 255 ∷ 26 ∷ [])
unfolding decode_hex hex_digit
decode_hex_runs = refl
