-- ===== src/Temporal/Int64.antt =====
-- The wrap-around of Go's `int64`, for temporal.go and evaluate_expr.go. A chain of sums, differences
-- and products is exact modulo 2 ^ 64, so one `wrap` at its end, before a division, a comparison or
-- a return, is what Go computes.
use maiden_lane.Base.{ℕ, ◌-◌, ◌%◌, ◌^◌, ◌<◌, ltb, if◌then◌else◌, ◌≡◌, arith}
use maiden_lane.Base.Int.{ℤ, pos, negsuc, ◌-ℤ◌}

-- The value that an `int64` keeps of an exact one.
unfoldable pub wrap : ℤ → ℤ
unfolding ◌-ℤ◌
wrap (pos n) = let w = n % 2 ^ 64 in if ltb w (2 ^ 63) then pos w else pos w -ℤ pos (2 ^ 64)
wrap (negsuc n) = let w = n % 2 ^ 64 in if ltb w (2 ^ 63) then negsuc w else pos (2 ^ 64 - 1 - w)

pub wrap_pos_small : (n : ℕ) → n < 2 ^ 63 → wrap (pos n) ≡ pos n
unfolding wrap
wrap_pos_small n h = ground arith

pub wrap_difference : (a b : ℕ) → a < 2 ^ 63 → b < 2 ^ 63 → wrap (pos a -ℤ pos b) ≡ pos a -ℤ pos b
unfolding wrap ◌-ℤ◌
wrap_difference a b h k = ground arith
