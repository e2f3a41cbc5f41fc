-- ===== src/Semantic/Value.antt =====
-- internal/semantic/value.go: the scalars. The zero `Value` of Go, which no constructor returns and
-- `Valid` refuses, is not among them; the integer that Go keeps beside the text of a timestamp or a
-- date is what the text parses to, and is not kept here.
use maiden_lane.Base.{
  ℕ, ◌-◌, ◌^◌, Bool, true, false, not, ◌&&◌, ◌||◌, [], ◌∷◌, Option, none, some, ◌==◌, leb,
  if◌then◌else◌, Text, Eq, ◌=?◌, text_eq, is_empty, ◌≡◌, ◌↔◌, arith, refl, sym, ◌∙◌, eq_of_=?,
  =?-refl, &&-both, Bool-cases, inl, inr,
}
use maiden_lane.Base.Int.{ℤ, pos, negsuc, beq_ℤ}
use maiden_lane.Canonical.Strings.{valid_utf8, big_endian}
use maiden_lane.Canonical.Encoder.{Piece, raw, string, write}
use maiden_lane.Decimal.Parse.{parse_decimal}
use maiden_lane.Temporal.Parse.{parse_date, parse_timestamp}

pub data Value : Type 0 where
  string_value : Text → Value
  atom_value : Text → Value
  int64_value : ℤ → Value
  timestamp_value : Text → Value
  duration_value : ℤ → Value
  decimal_value : Text → Value
  date_value : Text → Value

-- The number of a kind, from 1.
abbrev pub kind : Value → ℕ
kind (string_value t) = 1
kind (atom_value t) = 2
kind (int64_value n) = 3
kind (timestamp_value t) = 4
kind (duration_value n) = 5
kind (decimal_value t) = 6
kind (date_value t) = 7

abbrev pub valid_value_kind : ℕ → Bool
valid_value_kind k = leb 1 k && leb k 7

abbrev pub parses {ℓ} : {A : Type ℓ} → Option A → Bool
parses none = false
parses (some a) = true

unfoldable pub valid : Value → Bool
valid (string_value t) = valid_utf8 t
valid (atom_value t) = valid_utf8 t
valid (int64_value n) = true
valid (timestamp_value t) = parses (parse_timestamp t)
valid (duration_value n) = true
valid (decimal_value t) = parses (parse_decimal t)
valid (date_value t) = parses (parse_date t)

-- What the comparison of a value reads: its text, or its integer.
abbrev pub text_of : Value → Text
text_of (string_value t) = t
text_of (atom_value t) = t
text_of (int64_value n) = []
text_of (timestamp_value t) = t
text_of (duration_value n) = []
text_of (decimal_value t) = t
text_of (date_value t) = t

abbrev pub integer_of : Value → ℤ
integer_of (string_value t) = pos 0
integer_of (atom_value t) = pos 0
integer_of (int64_value n) = n
integer_of (timestamp_value t) = pos 0
integer_of (duration_value n) = n
integer_of (decimal_value t) = pos 0
integer_of (date_value t) = pos 0

-- Whether a kind has an integer.
abbrev numeric : ℕ → Bool
numeric k = k == 3 || k == 5

-- `Equal`: the kind, and the text or the integer, whichever the kind has.
unfoldable pub equal : Value → Value → Bool
equal v w =
    kind v == kind w
    && (if numeric (kind v) then beq_ℤ (integer_of v) (integer_of w) else text_of v =? text_of w)

unfoldable pub valid_semantic_name : Text → Bool
valid_semantic_name s = not (is_empty s) && valid_utf8 s

-- The eight bytes of an `int64`, in two's complement.
abbrev pub int64 : ℤ → Piece
int64 (pos n) = raw (big_endian 8 n)
int64 (negsuc n) = raw (big_endian 8 (2 ^ 64 - 1 - n))

abbrev pub content : Value → Piece
content (string_value t) = string t
content (atom_value t) = string t
content (int64_value n) = int64 n
content (timestamp_value t) = string t
content (duration_value n) = int64 n
content (decimal_value t) = string t
content (date_value t) = string t

-- `encoder.value`.
unfoldable pub encode_value : Value → Piece
encode_value v = if valid v then write (raw (kind v ∷ []) ∷ content v ∷ []) else none

beq_ℤ_iff : (a b : ℤ) → (beq_ℤ a b ≡ true) ↔ (a ≡ b)
beq_ℤ_iff a b = ground arith

text_of-numeric : (v : Value) → numeric (kind v) ≡ true → text_of v ≡ []
text_of-numeric (string_value t) h = absurd (ground arith)
text_of-numeric (atom_value t) h = absurd (ground arith)
text_of-numeric (int64_value n) h = refl
text_of-numeric (timestamp_value t) h = absurd (ground arith)
text_of-numeric (duration_value n) h = refl
text_of-numeric (decimal_value t) h = absurd (ground arith)
text_of-numeric (date_value t) h = absurd (ground arith)

integer_of_text : (v : Value) → numeric (kind v) ≡ false → integer_of v ≡ pos 0
integer_of_text (string_value t) h = refl
integer_of_text (atom_value t) h = refl
integer_of_text (int64_value n) h = absurd (ground arith)
integer_of_text (timestamp_value t) h = refl
integer_of_text (duration_value n) h = absurd (ground arith)
integer_of_text (decimal_value t) h = refl
integer_of_text (date_value t) h = refl

-- The value with a kind, a text and an integer.
abbrev from_parts : ℕ → Text → ℤ → Value
from_parts k t n =
    if k == 1
    then string_value t
    else if k == 2
    then atom_value t
    else if k == 3
    then int64_value n
    else if k == 4
    then timestamp_value t
    else if k == 5
    then duration_value n
    else if k == 6
    then decimal_value t
    else date_value t

from_parts_of : (v : Value) → from_parts (kind v) (text_of v) (integer_of v) ≡ v
from_parts_of (string_value t) = refl
from_parts_of (atom_value t) = refl
from_parts_of (int64_value n) = refl
from_parts_of (timestamp_value t) = refl
from_parts_of (duration_value n) = refl
from_parts_of (decimal_value t) = refl
from_parts_of (date_value t) = refl

eq_of_parts_of :
    (v w : Value) → kind v ≡ kind w → text_of v ≡ text_of w → integer_of v ≡ integer_of w → v ≡ w
eq_of_parts_of v w k t n = sym (from_parts_of v) ∙ rw (k, t, n) (from_parts_of w)

eq_of_equal : (v w : Value) → equal v w ≡ true → v ≡ w
unfolding equal
eq_of_equal v w h =
    let (same, rest) = &&-both (kind v == kind w) _ h in
    let k : kind v ≡ kind w = ground (arith, same) in
    elim (Bool-cases (numeric (kind v))) [
      | inl b ↦
          eq_of_parts_of v w k (text_of-numeric v b ∙ sym (text_of-numeric w (rw k at b)))
            ((beq_ℤ_iff (integer_of v) (integer_of w)).0 (rw b at rest))
      | inr b ↦
          eq_of_parts_of v w k (eq_of_=? (text_of v) (text_of w) (rw b at rest))
            (integer_of_text v b ∙ sym (integer_of_text w (rw k at b)))
    ]

equal_refl : (v : Value) → equal v v ≡ true
unfolding equal
equal_refl v = ground (arith, =?-refl (text_of v), (beq_ℤ_iff (integer_of v) (integer_of v)).1 refl)

pub equal_iff : (v w : Value) → (equal v w ≡ true) ↔ (v ≡ w)
equal_iff v w = (eq_of_equal v w, λ p. rw (← p) (equal_refl v))

instance abbrev pub value_eq : Eq Value
value_eq = record { beq = equal; beq_iff = equal_iff }
