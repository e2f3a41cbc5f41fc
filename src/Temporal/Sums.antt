-- ===== src/Temporal/Sums.antt =====
-- The checked sums are exact, and stay in range.
use maiden_lane.Base.{
  ℕ, ◌+◌, ◌-◌, ◌*◌, ◌^◌, ◌≤◌, ◌<◌, Bool, true, not, ◌&&◌, ◌||◌, ltb, if◌then◌else◌, Option, none,
  some, ◌≡◌, refl, sym, subst, ◌∙◌, arith, Bool-cases, inl, inr,
}
use maiden_lane.Base.Int.{
  ℤ, pos, negsuc, pos_part, neg_part, ◌+ℤ◌, ◌-ℤ◌, times, quot, rem, ltb_ℤ, +ℤ_parts, eq_of_parts,
}
use maiden_lane.Temporal.Int64.{wrap, wrap_pos_small}
use maiden_lane.Temporal.Parse.{in_timestamp_range, unix_nano}
use maiden_lane.Temporal.Arithmetic.{
  min_int64, max_int64, IsInt64, add_int64, split_nano, nano_in_range, add_duration,
}

wrap_pos_big : (n : ℕ) → 2 ^ 63 ≤ n → n < 2 ^ 64 → wrap (pos n) ≡ negsuc (2 ^ 64 - n - 1)
unfolding wrap ◌-ℤ◌
wrap_pos_big n h l = ground arith

wrap_neg_small : (n : ℕ) → n < 2 ^ 63 → wrap (negsuc n) ≡ negsuc n
unfolding wrap
wrap_neg_small n h = ground arith

wrap_neg_big : (n : ℕ) → 2 ^ 63 ≤ n → n < 2 ^ 64 → wrap (negsuc n) ≡ pos (2 ^ 64 - 1 - n)
unfolding wrap
wrap_neg_big n h l = ground arith

abbrev pub is_int64 : ℤ → Bool
is_int64 v = not (ltb_ℤ v min_int64) && not (ltb_ℤ max_int64 v)

-- The sum, where it may wrap: what the two comparisons find out.
abbrev checked : ℤ → ℤ → ℤ → Option ℤ
checked a b sum =
    if (ltb_ℤ (pos 0) b && ltb_ℤ sum a) || (ltb_ℤ b (pos 0) && ltb_ℤ a sum) then none else some sum

checked_pos :
    (a b : ℕ)
    → a < 2 ^ 63
    → b < 2 ^ 63
    → checked (pos a) (pos b) (wrap (pos (a + b)))
      ≡ (if is_int64 (pos (a + b)) then some (pos (a + b)) else none)
checked_pos a b ha hb = elim (Bool-cases (ltb (a + b) (2 ^ 63))) [
  | inl l ↦ rw (wrap_pos_small (a + b) (ground (arith, l))) (ground (arith, l))
  | inr l ↦
      rw (wrap_pos_big (a + b) (ground (arith, l)) (omega (arith, ha, hb)))
        (ground (arith, l, ha, hb))
]

checked_neg :
    (a b : ℕ)
    → a < 2 ^ 63
    → b < 2 ^ 63
    → checked (negsuc a) (negsuc b) (wrap (negsuc (a + b + 1)))
      ≡ (if is_int64 (negsuc (a + b + 1)) then some (negsuc (a + b + 1)) else none)
checked_neg a b ha hb = elim (Bool-cases (ltb (a + b + 1) (2 ^ 63))) [
  | inl l ↦ rw (wrap_neg_small (a + b + 1) (ground (arith, l))) (ground (arith, l))
  | inr l ↦
      rw (wrap_neg_big (a + b + 1) (ground (arith, l)) (omega (arith, ha, hb)))
        (ground (arith, l, ha, hb))
]

wrap_exact : (v : ℤ) → IsInt64 v → wrap v ≡ v
wrap_exact (pos n) h = wrap_pos_small n (ground (arith, h))
wrap_exact (negsuc n) h = wrap_neg_small n (ground (arith, h))

-- A sum that cannot wrap, which is what the parts of a sum of different signs say.
checked_exact :
    (a b v : ℤ)
    → IsInt64 v
    → pos_part v + neg_part a + neg_part b ≡ neg_part v + pos_part a + pos_part b
    → checked a b (wrap v) ≡ (if is_int64 v then some v else none)
checked_exact a b v h parts = rw (wrap_exact v h) (ground (arith, h, parts))

sum_pos : (a b : ℕ) → pos a +ℤ pos b ≡ pos (a + b)
sum_pos a b = eq_of_parts (pos a +ℤ pos b) (pos (a + b)) (omega (arith, +ℤ_parts (pos a) (pos b)))

sum_neg : (a b : ℕ) → negsuc a +ℤ negsuc b ≡ negsuc (a + b + 1)
sum_neg a b =
    eq_of_parts (negsuc a +ℤ negsuc b) (negsuc (a + b + 1))
      (omega (arith, +ℤ_parts (negsuc a) (negsuc b)))

-- For two `int64` values: the checked sum is their exact sum where that is an `int64`, and an error
-- elsewhere.
pub add_int64-exact :
    (a b : ℤ)
    → IsInt64 a
    → IsInt64 b
    → add_int64 a b ≡ (if is_int64 (a +ℤ b) then some (a +ℤ b) else none)
unfolding add_int64
add_int64-exact (pos a) (pos b) ha hb =
    rw (sum_pos a b) (checked_pos a b (ground (arith, ha)) (ground (arith, hb)))
add_int64-exact (negsuc a) (negsuc b) ha hb =
    rw (sum_neg a b) (checked_neg a b (ground (arith, ha)) (ground (arith, hb)))
add_int64-exact (pos a) (negsuc b) ha hb =
    let parts = +ℤ_parts (pos a) (negsuc b) in
    checked_exact (pos a) (negsuc b) (pos a +ℤ negsuc b) (omega (arith, parts, ha, hb)) parts
add_int64-exact (negsuc a) (pos b) ha hb =
    let parts = +ℤ_parts (negsuc a) (pos b) in
    checked_exact (negsuc a) (pos b) (negsuc a +ℤ pos b) (omega (arith, parts, ha, hb)) parts

pub split_nano_lem :
    (t : ℤ)
    → (let (sec, frac) = split_nano t in
        (frac < 1000000000)
        × (pos_part sec * 1000000000 + frac + neg_part t ≡ neg_part sec * 1000000000 + pos_part t))
unfolding split_nano quot rem ◌+ℤ◌ ◌-ℤ◌
split_nano_lem (pos n) = (ground arith, ground arith)
split_nano_lem (negsuc n) = (ground arith, ground arith)

unix_nano_lem :
    (sec : ℤ) (frac : ℕ)
    → pos_part (unix_nano sec frac) + neg_part sec * 1000000000
      ≡ neg_part (unix_nano sec frac) + pos_part sec * 1000000000 + frac
unfolding unix_nano times ◌+ℤ◌
unix_nano_lem sec frac = ground arith

in_range-IsInt64 :
    (sec : ℤ) (frac : ℕ)
    → frac < 1000000000
    → in_timestamp_range sec frac ≡ true
    → IsInt64 (unix_nano sec frac)
unfolding in_timestamp_range
in_range-IsInt64 sec frac l h = ground (arith, unix_nano_lem sec frac, l, h)

some_ℤ : (a b : ℤ) → ◌≡◌ {A = Option ℤ} (some a) (some b) → a ≡ b
some_ℤ a b h = ground (arith, h)

-- A timestamp of seconds in range: their nanoseconds.
range_result :
    (sec : Option ℤ) (frac : ℕ) (r : ℤ)
    → nano_in_range sec frac ≡ some r
    → (s : ℤ) × (sec ≡ some s) × (in_timestamp_range s frac ≡ true) × (unix_nano s frac ≡ r)
range_result none frac r h = absurd (ground (arith, h))
range_result (some s) frac r h = elim (Bool-cases (in_timestamp_range s frac)) [
  | inl b ↦ (s, refl, b, some_ℤ (unix_nano s frac) r (rw b at h))
  | inr b ↦ absurd (let no : ◌≡◌ {A = Option ℤ} none (some r) = rw b at h in ground (arith, no))
]

add_int64_result : (a b s : ℤ) → IsInt64 a → IsInt64 b → add_int64 a b ≡ some s → a +ℤ b ≡ s
add_int64_result a b s ha hb h = elim (Bool-cases (is_int64 (a +ℤ b))) [
  | inl c ↦ some_ℤ (a +ℤ b) s (sym (add_int64-exact a b ha hb ∙ rw c refl) ∙ h)
  | inr c ↦ absurd (
      let no : ◌≡◌ {A = Option ℤ} none (some s) = sym (add_int64-exact a b ha hb ∙ rw c refl) ∙ h in
      ground (arith, no))
]

seconds-IsInt64 :
    (t sec : ℤ) (frac : ℕ)
    → IsInt64 t
    → frac < 1000000000
    → pos_part sec * 1000000000 + frac + neg_part t ≡ neg_part sec * 1000000000 + pos_part t
    → IsInt64 sec
seconds-IsInt64 t sec frac h l p = ground (arith, h, l, p)

times_parts :
    (a : ℤ)
    → pos_part (times a 1000000000) + neg_part a * 1000000000
      ≡ neg_part (times a 1000000000) + pos_part a * 1000000000
unfolding times
times_parts a = ground arith

sum_of_parts :
    (t sec seconds s r : ℤ) (frac : ℕ)
    → pos_part sec * 1000000000 + frac + neg_part t ≡ neg_part sec * 1000000000 + pos_part t
    → pos_part s + neg_part sec + neg_part seconds ≡ neg_part s + pos_part sec + pos_part seconds
    → pos_part r + neg_part s * 1000000000 ≡ neg_part r + pos_part s * 1000000000 + frac
    → r ≡ t +ℤ times seconds 1000000000
sum_of_parts t sec seconds s r frac p q n =
    eq_of_parts r (t +ℤ times seconds 1000000000)
      (omega (arith, p, q, n, times_parts seconds, +ℤ_parts t (times seconds 1000000000)))

-- Where `AddDuration` of an `int64` timestamp and `int64` seconds returns a timestamp, that is an
-- `int64`, and exactly the sum.
pub add_duration-exact :
    (t seconds r : ℤ)
    → IsInt64 t
    → IsInt64 seconds
    → add_duration t seconds ≡ some r
    → IsInt64 r × (r ≡ t +ℤ times seconds 1000000000)
unfolding add_duration
add_duration-exact t seconds r ht hs h =
    let (sec, frac) = split_nano t in
    let (l, p) = split_nano_lem t in
    let (s, sum, in_range, nano) = range_result (add_int64 sec seconds) frac r h in
    let total = add_int64_result sec seconds s (seconds-IsInt64 t sec frac ht l p) hs sum in
    (
      subst IsInt64 nano (in_range-IsInt64 s frac l in_range),
      sum_of_parts t sec seconds s r frac p
          (subst
            (λ x.
              pos_part x + neg_part sec + neg_part seconds
              ≡ neg_part x + pos_part sec + pos_part seconds)
            total (+ℤ_parts sec seconds))
          (subst
            (λ x.
              pos_part x + neg_part s * 1000000000 ≡ neg_part x + pos_part s * 1000000000 + frac)
            nano (unix_nano_lem s frac)),
    )
