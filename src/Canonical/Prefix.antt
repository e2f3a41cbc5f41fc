-- ===== src/Canonical/Prefix.antt =====
-- Each piece that the encoder writes can be read back from the front of a buffer: two runs that
-- wrote the same bytes wrote the same pieces.
use maiden_lane.Base.{
  ℕ, zero, suc, ◌+◌, ◌*◌, ◌/◌, ◌%◌, ◌^◌, ◌<◌, true, false, List, [], ◌∷◌, ◌++◌, Option, none, some,
  ◌==◌, length, length-append, Text, ◌≡◌, refl, sym, ap, ◌∙◌, arith, inl, inr, Bool-cases,
  Option-cases, append_assoc,
}
use native.Mathlib.Nat.{pow-suc}
use maiden_lane.Canonical.Strings.{
  between, big_endian, hex_digit, hex_cons, decode_hex, is_lower_case,
}
use maiden_lane.Canonical.Encoder.{
  Bytes, Piece, write, uint64, string, tag, strip_prefix, digest_prefix, decode_hex_value,
  decode_digest,
}

-- Two pieces that begin the same buffer agree, and so does what follows them.
pub append_cancel : (a b r s : Bytes) → length a ≡ length b → a ++ r ≡ b ++ s → (a ≡ b) × (r ≡ s)
append_cancel [] [] r s l h = (refl, h)
append_cancel [] (y ∷ b) r s l h = absurd (omega arith)
append_cancel (x ∷ a) [] r s l h = absurd (omega arith)
append_cancel (x ∷ a) (y ∷ b) r s l h = ground (arith, append_cancel a b r s)

pub length-big_endian : (k v : ℕ) → length (big_endian k v) ≡ k
unfolding big_endian
length-big_endian zero v = refl
length-big_endian (suc k) v =
    omega
      (arith, length-append (big_endian k (v / 256)) (v % 256 ∷ []), length-big_endian k (v / 256))

last_inj : (a b : Bytes) (x y : ℕ) → a ++ x ∷ [] ≡ b ++ y ∷ [] → (a ≡ b) × (x ≡ y)
last_inj a b x y h =
    let same : length a ≡ length b =
      omega (arith, ap length h, length-append a (x ∷ []), length-append b (y ∷ [])) in
    let (front, back) = append_cancel a b (x ∷ []) (y ∷ []) same h in (front, cc)

big_endian_inj : (k v w : ℕ) → v < 256 ^ k → w < 256 ^ k → big_endian k v ≡ big_endian k w → v ≡ w
unfolding big_endian
big_endian_inj zero v w p q h = omega arith
big_endian_inj (suc k) v w p q h =
    let (front, back) =
      last_inj (big_endian k (v / 256)) (big_endian k (w / 256)) (v % 256) (w % 256) h in
    let high =
      big_endian_inj k (v / 256) (w / 256) (omega (arith, pow-suc 256 k))
        (omega (arith, pow-suc 256 k)) front in
    omega (arith, high, back)

-- Two pieces from which `P` can be read off, whatever follows them.
abbrev pub Unique {ℓ} : Piece → Piece → Type ℓ → Type ℓ
Unique c d P = (p q r s : Bytes) → c ≡ some p → d ≡ some q → p ++ r ≡ q ++ s → P × (r ≡ s)

pub uint64-Unique : (v w : ℕ) → v < 2 ^ 64 → w < 2 ^ 64 → Unique (uint64 v) (uint64 w) (v ≡ w)
uint64-Unique v w hv hw p q r s c d h =
    let same : big_endian 8 v ++ r ≡ big_endian 8 w ++ s = cc in
    let (front, back) =
      append_cancel (big_endian 8 v) (big_endian 8 w) r s
        (length-big_endian 8 v ∙ sym (length-big_endian 8 w)) same in
    (big_endian_inj 8 v w (omega arith) (omega arith) front, back)

string_piece : (s : Text) (p : Bytes) → string s ≡ some p → p ≡ big_endian 8 (length s) ++ s
unfolding string
string_piece s p h = ground arith

pub string-Unique :
    (s t : Text) → length s < 2 ^ 64 → length t < 2 ^ 64 → Unique (string s) (string t) (s ≡ t)
string-Unique s t hs ht p q r u c d h =
    let a = append_assoc (big_endian 8 (length s)) s r in
    let b = append_assoc (big_endian 8 (length t)) t u in
    let whole : big_endian 8 (length s) ++ (s ++ r) ≡ big_endian 8 (length t) ++ (t ++ u) =
      cc (a, b, string_piece s p c, string_piece t q d) in
    let (same, rest) =
      uint64-Unique (length s) (length t) hs ht (big_endian 8 (length s)) (big_endian 8 (length t))
        (s ++ r) (t ++ u) refl refl whole in
    append_cancel s t r u same rest

-- Digests decode one to one: the digits are lower-case, so a byte has one spelling.
hex_digit_inj :
    (c d v : ℕ)
    → between b'A' b'Z' c ≡ false
    → between b'A' b'Z' d ≡ false
    → hex_digit c ≡ some v
    → hex_digit d ≡ some v
    → c ≡ d
unfolding hex_digit
hex_digit_inj c d v lc ld hc hd = ground arith

hex_digit_lt : (c v : ℕ) → hex_digit c ≡ some v → v < 16
unfolding hex_digit
hex_digit_lt c v h = ground arith

hex_cons_inv :
    (h l : Option ℕ) (rest : Option Bytes) (b : ℕ) (bs : Bytes)
    → hex_cons h l rest ≡ some (b ∷ bs)
    → (x : ℕ) × (y : ℕ) × (h ≡ some x) × (l ≡ some y) × (b ≡ 16 * x + y) × (rest ≡ some bs)
hex_cons_inv none l rest b bs e = absurd (ground arith)
hex_cons_inv (some h) none rest b bs e = absurd (ground arith)
hex_cons_inv (some h) (some l) none b bs e = absurd (ground arith)
hex_cons_inv (some h) (some l) (some rest) b bs e = (h, l, refl, refl, ground arith, ground arith)

hex_cons-ne-nil : (h l : Option ℕ) (rest : Option Bytes) → hex_cons h l rest ≡ some [] → ⊥
hex_cons-ne-nil none l rest e = ground arith
hex_cons-ne-nil (some h) none rest e = ground arith
hex_cons-ne-nil (some h) (some l) none e = ground arith
hex_cons-ne-nil (some h) (some l) (some rest) e = ground arith

lower_head :
    (c : ℕ) (s : Text)
    → is_lower_case (c ∷ s) ≡ true
    → (between b'A' b'Z' c ≡ false) × (is_lower_case s ≡ true)
unfolding is_lower_case
lower_head c s h = elim (Bool-cases (between b'A' b'Z' c)) [
  | inl e ↦ absurd (ground arith)
  | inr e ↦ (e, ground arith)
]

decode_hex_inj :
    (s t : Text) (b : Bytes)
    → is_lower_case s ≡ true
    → is_lower_case t ≡ true
    → decode_hex s ≡ some b
    → decode_hex t ≡ some b
    → s ≡ t
unfolding decode_hex
decode_hex_inj [] [] b ls lt hs ht = refl
decode_hex_inj [] (c ∷ []) b ls lt hs ht = absurd (ground arith)
decode_hex_inj [] (c ∷ d ∷ t) b ls lt hs ht =
    absurd (hex_cons-ne-nil (hex_digit c) (hex_digit d) (decode_hex t) (cc))
decode_hex_inj (c ∷ []) t b ls lt hs ht = absurd (ground arith)
decode_hex_inj (c ∷ d ∷ s) [] b ls lt hs ht =
    absurd (hex_cons-ne-nil (hex_digit c) (hex_digit d) (decode_hex s) (cc))
decode_hex_inj (c ∷ d ∷ s) (x ∷ []) b ls lt hs ht = absurd (ground arith)
decode_hex_inj (c ∷ d ∷ s) (x ∷ y ∷ t) [] ls lt hs ht =
    absurd (hex_cons-ne-nil (hex_digit c) (hex_digit d) (decode_hex s) hs)
decode_hex_inj (c ∷ d ∷ s) (x ∷ y ∷ t) (b ∷ bs) ls lt hs ht =
    let (h, l, ch, dl, sum, rest) =
      hex_cons_inv (hex_digit c) (hex_digit d) (decode_hex s) b bs hs in
    let (h', l', xh, yl, sum', rest') =
      hex_cons_inv (hex_digit x) (hex_digit y) (decode_hex t) b bs ht in
    let (lc, ls1) = lower_head c (d ∷ s) ls in
    let (ld, ls2) = lower_head d s ls1 in
    let (lx, lt1) = lower_head x (y ∷ t) lt in
    let (ly, lt2) = lower_head y t lt1 in
    let high : h' ≡ h = omega (arith, hex_digit_lt d l dl, hex_digit_lt y l' yl) in
    let low : l' ≡ l = omega (arith, hex_digit_lt d l dl, hex_digit_lt y l' yl) in
    let first = hex_digit_inj c x h lc lx ch (xh ∙ ap some high) in
    let second = hex_digit_inj d y l ld ly dl (yl ∙ ap some low) in
    let tails = decode_hex_inj s t bs ls2 lt2 rest rest' in cc

strip_prefix_append : (p s h : Text) → strip_prefix p s ≡ some h → s ≡ p ++ h
unfolding strip_prefix
strip_prefix_append [] s h e = ground arith
strip_prefix_append (a ∷ p) [] h e = absurd (ground arith)
strip_prefix_append (a ∷ p) (b ∷ s) h e = ground (arith, strip_prefix_append p s h)

decode_hex_value_inv :
    (o : Option Text) (b : Bytes)
    → decode_hex_value o ≡ some b
    → (h : Text) × (o ≡ some h)
      × (is_lower_case h ≡ true)
      × (decode_hex h ≡ some b)
      × (length b ≡ 32)
decode_hex_value_inv none b e = absurd (ground arith)
decode_hex_value_inv (some h) b e = elim (Bool-cases (is_lower_case h)) [
  | inr l ↦ absurd (ground arith)
  | inl l ↦ elim (Option-cases (decode_hex h)) [
    | inl d ↦ absurd (ground arith)
    | inr (x, d) ↦ (h, refl, l, ground arith, ground arith)
  ]
]

decode_digest_inv :
    (s : Text) (b : Bytes)
    → decode_digest s ≡ some b
    → (h : Text) × (s ≡ digest_prefix ++ h)
      × (is_lower_case h ≡ true)
      × (decode_hex h ≡ some b)
      × (length b ≡ 32)
unfolding decode_digest
decode_digest_inv s b e = elim (Bool-cases (length s == 71)) [
  | inr l ↦ absurd (ground arith)
  | inl l ↦
      let (h, front, lower, digits, size) =
        decode_hex_value_inv (strip_prefix digest_prefix s) b (rw l at e) in
      (h, strip_prefix_append digest_prefix s h front, lower, digits, size)
]

-- Digest strings are decoded to thirty-two bytes, one to one.
pub decode_digest_inj :
    (s t : Text) (b : Bytes) → decode_digest s ≡ some b → decode_digest t ≡ some b → s ≡ t
decode_digest_inj s t b hs ht =
    let (h, front, lower, digits, size) = decode_digest_inv s b hs in
    let (h', front', lower', digits', size') = decode_digest_inv t b ht in
    let same = decode_hex_inj h h' b lower lower' digits digits' in cc

pub digest-Unique : (s t : Text) → Unique (decode_digest s) (decode_digest t) (s ≡ t)
digest-Unique s t p q r u c d h =
    let size = (decode_digest_inv s p c).4 in
    let size' = (decode_digest_inv t q d).4 in
    let (front, back) = append_cancel p q r u (size ∙ sym size') h in
    (decode_digest_inj s t p c (d ∙ ap some (sym front)), back)

-- A constant piece says nothing, and is passed over.
pub same-Unique : (c : Piece) → Unique c c (Unit {0})
same-Unique c p q r s hc hd h =
    let same : p ≡ q = ground arith in (tt, (append_cancel p q r s (ap length same) h).1)

write_inv :
    (c : Piece) (cs : List Piece) (out : Bytes)
    → write (c ∷ cs) ≡ some out
    → (p : Bytes) × (rest : Bytes) × (c ≡ some p) × (write cs ≡ some rest) × (out ≡ p ++ rest)
unfolding write
write_inv none cs out h = absurd (ground arith)
write_inv (some p) cs out h = elim (Option-cases (write cs)) [
  | inl e ↦ absurd (ground arith)
  | inr (rest, e) ↦ (p, rest, refl, e, ground arith)
]

-- Two runs that wrote the same bytes agree on their first piece, and on all that follows.
pub write_step {ℓ} :
    (P : Type ℓ) (c d : Piece) (cs ds : List Piece) (out : Bytes)
    → Unique c d P
    → write (c ∷ cs) ≡ some out
    → write (d ∷ ds) ≡ some out
    → P × (rest : Bytes) × (write cs ≡ some rest) × (write ds ≡ some rest)
write_step P c d cs ds out unique hc hd =
    let (p, r, pc, rest, front) = write_inv c cs out hc in
    let (q, s, pd, rest', front') = write_inv d ds out hd in
    let (shown, same) = unique p q r s pc pd (sym front ∙ front') in
    (shown, r, rest, rest' ∙ ap some (sym same))

pub tag_of_string : (s : Text) (p : Bytes) → tag s ≡ some p → string s ≡ some p
unfolding tag
tag_of_string s p h = ground arith
