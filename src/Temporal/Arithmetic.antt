-- ===== src/Temporal/Arithmetic.antt =====
-- Sums and differences of timestamps: nanoseconds since the epoch in an `int64`.
use maiden_lane.Base.{ℕ, ◌-◌, ◌^◌, ◌&&◌, ◌||◌, ltb, if◌then◌else◌, Option, none, some}
use maiden_lane.Base.Int.{ℤ, pos, negsuc, pos_part, ◌+ℤ◌, ◌-ℤ◌, quot, rem, ltb_ℤ, ◌≤ℤ◌}
use maiden_lane.Temporal.Int64.{wrap}
use maiden_lane.Temporal.Parse.{in_timestamp_range, unix_nano}

abbrev pub min_int64 : ℤ
min_int64 = negsuc (2 ^ 63 - 1)

abbrev pub max_int64 : ℤ
max_int64 = pos (2 ^ 63 - 1)

abbrev pub IsInt64 : ℤ → Type 0
IsInt64 v = (min_int64 ≤ℤ v) × (v ≤ℤ max_int64)

-- `addInt64` of evaluate_expr.go: the sum wraps, and the comparison finds that out.
unfoldable pub add_int64 : ℤ → ℤ → Option ℤ
unfolding wrap ◌+ℤ◌
add_int64 a b =
    let sum = wrap (a +ℤ b) in
    if (ltb_ℤ (pos 0) b && ltb_ℤ sum a) || (ltb_ℤ b (pos 0) && ltb_ℤ a sum) then none else some sum

-- Whole seconds, rounded down, and the nanoseconds above them.
unfoldable pub split_nano : ℤ → ℤ × ℕ
unfolding ◌+ℤ◌ ◌-ℤ◌ quot rem
split_nano t =
    let sec = quot t 1000000000 in
    let frac = rem t 1000000000 in
    if ltb_ℤ frac (pos 0)
    then (sec -ℤ pos 1, pos_part (frac +ℤ pos 1000000000))
    else (sec, pos_part frac)

abbrev pub nano_in_range : Option ℤ → ℕ → Option ℤ
nano_in_range none frac = none
nano_in_range (some sec) frac =
    if in_timestamp_range sec frac then some (unix_nano sec frac) else none

-- `AddDuration`, of seconds.
unfoldable pub add_duration : ℤ → ℤ → Option ℤ
unfolding in_timestamp_range unix_nano
add_duration t seconds =
    let (sec, frac) = split_nano t in nano_in_range (add_int64 sec seconds) frac

-- `Diff`: the whole seconds between two timestamps, cut towards zero.
unfoldable pub diff : ℤ → ℤ → ℤ
unfolding ◌+ℤ◌ ◌-ℤ◌
diff t other =
    let (t_sec, t_frac) = split_nano t in
    let (o_sec, o_frac) = split_nano other in
    let d = t_sec -ℤ o_sec in
    if ltb_ℤ (pos 0) d
    then (if ltb t_frac o_frac then d -ℤ pos 1 else d)
    else if ltb_ℤ d (pos 0)
    then (if ltb o_frac t_frac then d +ℤ pos 1 else d)
    else d
