-- ===== src/Canonical/Encoder.antt =====
-- The canonical encoder: each of its calls writes a piece, or sets the error that makes the whole
-- encoding fail. A list of pieces is a run of the encoder; which error is first is not kept.
use maiden_lane.Base.{
  ℕ, Bool, true, false, List, [], ◌∷◌, ◌++◌, Option, none, some, ltb, ◌==◌, if◌then◌else◌, length,
  Text, codes, is_empty,
}
use maiden_lane.Canonical.Strings.{valid_utf8, big_endian, decode_hex, is_lower_case}

abbrev pub Bytes : Type 0
Bytes = List ℕ

-- What one call of the encoder writes.
abbrev pub Piece : Type 0
Piece = Option Bytes

abbrev pub join_piece : Bytes → Piece → Piece
join_piece b none = none
join_piece b (some rest) = some (b ++ rest)

-- A run of the encoder: `bytes()` returns the buffer, unless some call set the error.
unfoldable pub write : List Piece → Piece
write [] = some []
write (none ∷ ps) = none
write (some b ∷ ps) = join_piece b (write ps)

abbrev pub raw : Bytes → Piece
raw b = some b

-- The eight bytes of a `uint64`, most significant first.
abbrev pub uint64 : ℕ → Piece
uint64 v = some (big_endian 8 v)

unfoldable pub string : Text → Piece
string s = if valid_utf8 s then some (big_endian 8 (length s) ++ s) else none

is_ascii : Text → Bool
is_ascii [] = true
is_ascii (b ∷ s) = if ltb 0x7f b then false else is_ascii s

unfoldable pub tag : Text → Piece
unfolding is_ascii
tag s = if is_empty s then none else if is_ascii s then string s else none

-- What is left of a text behind a prefix; `none` if it does not begin with it.
unfoldable pub strip_prefix : Text → Text → Option Text
strip_prefix [] s = some s
strip_prefix (a ∷ p) [] = none
strip_prefix (a ∷ p) (b ∷ s) = if a == b then strip_prefix p s else none

abbrev pub digest_prefix : Text
digest_prefix = codes "sha256:"

-- The checks of `decodeDigest` on the hexadecimal digits and on what they decode to.
abbrev pub of_length : ℕ → Option Bytes → Option Bytes
of_length n none = none
of_length n (some b) = if length b == n then some b else none

abbrev pub decode_hex_value : Option Text → Option Bytes
decode_hex_value none = none
decode_hex_value (some h) = if is_lower_case h then of_length 32 (decode_hex h) else none

unfoldable pub decode_digest : Text → Option Bytes
decode_digest s = if length s == 71 then decode_hex_value (strip_prefix digest_prefix s) else none

-- `encoder.digest`.
abbrev pub digest : Text → Piece
digest s = decode_digest s
