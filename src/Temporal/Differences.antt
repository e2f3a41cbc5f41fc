-- ===== src/Temporal/Differences.antt =====
-- `Diff` of two timestamps is the difference of their nanoseconds, in whole seconds, cut towards zero.
use maiden_lane.Base.{
  ℕ, ◌+◌, ◌-◌, ◌*◌, ◌<◌, true, false, if◌then◌else◌, ltb, ◌≡◌, sym, arith, Bool-cases, inl, inr,
}
use maiden_lane.Base.Int.{
  ℤ, pos, negsuc, pos_part, neg_part, ◌+ℤ◌, ◌-ℤ◌, quot, ltb_ℤ, +ℤ_parts, -ℤ_parts,
}
use maiden_lane.Temporal.Arithmetic.{split_nano, diff}
use maiden_lane.Temporal.Sums.{split_nano_lem}

-- The quotient is what its product and a remainder of the same sign say.
quot_up :
    (q v : ℤ) (r : ℕ)
    → r < 1000000000
    → pos_part q * 1000000000 + r + neg_part v ≡ neg_part q * 1000000000 + pos_part v
    → neg_part q ≡ 0
    → quot v 1000000000 ≡ q
unfolding quot
quot_up (pos q) (pos v) r l p n = ground arith
quot_up (pos q) (negsuc v) r l p n = ground arith
quot_up (negsuc q) v r l p n = absurd (ground arith)

quot_down :
    (q v : ℤ) (r : ℕ)
    → r < 1000000000
    → pos_part q * 1000000000 + neg_part v ≡ neg_part q * 1000000000 + r + pos_part v
    → pos_part q ≡ 0
    → quot v 1000000000 ≡ q
unfolding quot
quot_down (pos q) (pos v) r l p n = ground arith
quot_down (pos q) (negsuc v) r l p n = ground arith
quot_down (negsuc q) (pos v) r l p n = ground arith
quot_down (negsuc q) (negsuc v) r l p n = ground arith

-- What `Diff` does with the whole seconds and the fractions.
abbrev settled : ℤ → ℕ → ℕ → ℤ
settled d tf of =
    if ltb_ℤ (pos 0) d
    then (if ltb tf of then d -ℤ pos 1 else d)
    else if ltb_ℤ d (pos 0)
    then (if ltb of tf then d +ℤ pos 1 else d)
    else d

module _ (d v : ℤ) (tf of : ℕ) (lt : tf < 1000000000) (lo : of < 1000000000)
    (parts : pos_part d * 1000000000 + tf + neg_part v
      ≡ neg_part d * 1000000000 + of + pos_part v) where
  settled_up : ltb_ℤ (pos 0) d ≡ true → quot v 1000000000 ≡ (if ltb tf of then d -ℤ pos 1 else d)
  settled_up h = elim (Bool-cases (ltb tf of)) [
    | inl b ↦ rw b (
        quot_up (d -ℤ pos 1) v (1000000000 + tf - of) (ground (arith, b, lt))
          (ground (arith, parts, b, lt, lo, -ℤ_parts d (pos 1), h))
          (ground (arith, h, -ℤ_parts d (pos 1))))
    | inr b ↦
        rw b (
          quot_up d v (tf - of) (ground (arith, lt)) (ground (arith, parts, b)) (ground (arith, h)))
  ]

  settled_down : ltb_ℤ d (pos 0) ≡ true → quot v 1000000000 ≡ (if ltb of tf then d +ℤ pos 1 else d)
  settled_down h = elim (Bool-cases (ltb of tf)) [
    | inl b ↦ rw b (
        quot_down (d +ℤ pos 1) v (1000000000 + of - tf) (ground (arith, b, lt))
          (ground (arith, parts, b, lt, lo, +ℤ_parts d (pos 1), h))
          (ground (arith, h, +ℤ_parts d (pos 1))))
    | inr b ↦ rw b (
        quot_down d v (of - tf) (ground (arith, lo)) (ground (arith, parts, b)) (ground (arith, h)))
  ]

  settled_even : ltb_ℤ (pos 0) d ≡ false → ltb_ℤ d (pos 0) ≡ false → quot v 1000000000 ≡ d
  settled_even h k = elim (Bool-cases (ltb tf of)) [
    | inl b ↦
        quot_down d v (of - tf) (ground (arith, lo)) (ground (arith, parts, b))
          (ground (arith, h, k))
    | inr b ↦
        quot_up d v (tf - of) (ground (arith, lt)) (ground (arith, parts, b)) (ground (arith, h, k))
  ]

  settled-quot : quot v 1000000000 ≡ settled d tf of
  settled-quot = elim (Bool-cases (ltb_ℤ (pos 0) d)) [
    | inl h ↦ rw h (settled_up h)
    | inr h ↦ elim (Bool-cases (ltb_ℤ d (pos 0))) [
      | inl k ↦ rw (h, k) (settled_down k)
      | inr k ↦ rw (h, k) (settled_even h k)
    ]
  ]

-- `Diff` of two timestamps is the exact difference of their nanoseconds, divided by 10 ^ 9 and cut
-- towards zero.
pub diff-quot : (t other : ℤ) → diff t other ≡ quot (t -ℤ other) 1000000000
unfolding diff
diff-quot t other =
    let (t_sec, t_frac) = split_nano t in
    let (o_sec, o_frac) = split_nano other in
    let (lt, p) = split_nano_lem t in
    let (lo, q) = split_nano_lem other in
    sym (
      settled-quot (t_sec -ℤ o_sec) (t -ℤ other) t_frac o_frac lt lo
        (omega (arith, p, q, -ℤ_parts t_sec o_sec, -ℤ_parts t other)))
