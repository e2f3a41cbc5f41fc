-- ===== src/Temporal/Tests.antt =====
-- Sums and differences of timestamps at their bounds, and the last day of February.
use maiden_lane.Base.{◌≤◌, none, some, if◌then◌else◌, ◌≡◌, refl, arith}
use maiden_lane.Base.Int.{pos, negsuc, ◌+ℤ◌, ◌-ℤ◌, times, quot, rem}
use maiden_lane.Temporal.Int64.{wrap}
use maiden_lane.Temporal.Civil.{
  days_in_month, is_leap_year, days_since_epoch_from_civil, civil_from_days_since_epoch,
}
use maiden_lane.Temporal.Parse.{in_timestamp_range, unix_nano}
use maiden_lane.Temporal.Arithmetic.{max_int64, IsInt64, add_int64, add_duration, split_nano, diff}
use maiden_lane.Temporal.Sums.{is_int64, add_int64-exact, add_duration-exact}
use maiden_lane.Temporal.Differences.{diff-quot}
use maiden_lane.Temporal.Calendar.{civil_from-days_since}

overflows : add_int64 max_int64 (pos 1) ≡ none
unfolding add_int64 wrap ◌+ℤ◌ ◌-ℤ◌
overflows = refl

add_int64-exact_example :
    add_int64 max_int64 (negsuc 0)
    ≡ (if is_int64 (max_int64 +ℤ negsuc 0) then some (max_int64 +ℤ negsuc 0) else none)
add_int64-exact_example =
    add_int64-exact max_int64 (negsuc 0) (ground arith, ground arith) (ground arith, ground arith)

before_epoch : add_duration (negsuc 499999999) (pos 60) ≡ some (pos 59500000000)
unfolding add_duration split_nano add_int64 wrap in_timestamp_range unix_nano ◌+ℤ◌ ◌-ℤ◌ quot rem
    times
before_epoch = refl

add_duration-exact_example :
    IsInt64 (pos 59500000000) × (pos 59500000000 ≡ negsuc 499999999 +ℤ times (pos 60) 1000000000)
add_duration-exact_example =
    add_duration-exact (negsuc 499999999) (pos 60) (pos 59500000000) (ground arith, ground arith)
      (ground arith, ground arith) before_epoch

diff-quot_example : diff (negsuc 1499999999) (pos 0) ≡ quot (negsuc 1499999999 -ℤ pos 0) 1000000000
diff-quot_example = diff-quot (negsuc 1499999999) (pos 0)

days_of_february : 29 ≤ days_in_month (pos 2000) 2
unfolding days_in_month is_leap_year rem
days_of_february = omega arith

civil_from-days_since_example :
    civil_from_days_since_epoch (days_since_epoch_from_civil (pos 2000) 2 29) ≡ (pos 2000, 2, 29)
civil_from-days_since_example =
    civil_from-days_since 2000 2 29 (omega arith) (omega arith) (omega arith) (omega arith)
      (omega arith) days_of_february
