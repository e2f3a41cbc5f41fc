-- ===== src/Temporal/Civil.antt =====
-- The calendar of temporal.go: days since 1970-01-01 and the civil date. Years and days are `int64`s
-- and wrap as they do. A month and a day of a month are those of a checked date, and the year of an
-- era and the day of an era are never negative, not even where the era wraps: they are numbers here.
use maiden_lane.Base.{
  ℕ, ◌+◌, ◌-◌, ◌*◌, ◌/◌, Bool, not, ◌&&◌, ◌||◌, leb, ◌==◌, if◌then◌else◌, ◌≡◌, refl,
}
use maiden_lane.Temporal.Int64.{wrap}
use maiden_lane.Base.Int.{ℤ, pos, pos_part, ◌+ℤ◌, ◌-ℤ◌, times, quot, rem, ltb_ℤ, beq_ℤ}

unfoldable pub is_leap_year : ℤ → Bool
unfolding rem
is_leap_year y =
    (beq_ℤ (rem y 4) (pos 0) && not (beq_ℤ (rem y 100) (pos 0))) || beq_ℤ (rem y 400) (pos 0)

unfoldable pub days_in_month : ℤ → ℕ → ℕ
days_in_month y m =
    if m == 1 || (m == 3 || (m == 5 || (m == 7 || (m == 8 || (m == 10 || m == 12)))))
    then 31
    else if m == 4 || (m == 6 || (m == 9 || m == 11))
    then 30
    else if m == 2
    then (if is_leap_year y then 29 else 28)
    else 0

-- A division by a positive number that rounds down, as the two conversions write it out.
abbrev pub era_of : ℤ → ℕ → ℤ
era_of y n = if ltb_ℤ y (pos 0) then quot (wrap (y -ℤ pos (n - 1))) n else quot y n

-- The day of the year that begins in March.
abbrev pub day_of_march_year : ℕ → ℕ → ℕ
day_of_march_year m d = (153 * (if leb m 2 then m + 9 else m - 3) + 2) / 5 + d - 1

abbrev pub day_of_era : ℕ → ℕ → ℕ
day_of_era yoe doy = yoe * 365 + yoe / 4 - yoe / 100 + doy

unfoldable pub days_since_epoch_from_civil : ℤ → ℕ → ℕ → ℤ
unfolding wrap ◌+ℤ◌ ◌-ℤ◌ quot times
days_since_epoch_from_civil year m d =
    let y = if leb m 2 then wrap (year -ℤ pos 1) else year in
    let era = era_of y 400 in
    let yoe = pos_part (wrap (y -ℤ times era 400)) in
    wrap (times era 146097 +ℤ pos (day_of_era yoe (day_of_march_year m d)) -ℤ pos 719468)

-- A day number in parts: the era, and the day in it.
abbrev pub year_of_era : ℕ → ℕ
year_of_era doe = (doe - doe / 1460 + doe / 36524 - doe / 146096) / 365

-- The month, counted from March, and the date in the year that begins in March.
abbrev pub civil_in_year : ℤ → ℕ → ℤ × ℕ × ℕ
civil_in_year y doy =
    let mp = (5 * doy + 2) / 153 in
    let d = doy - (153 * mp + 2) / 5 + 1 in
    let m = if leb 10 mp then mp - 9 else mp + 3 in
    ((if leb m 2 then wrap (y +ℤ pos 1) else y), m, d)

unfoldable pub civil_from_days_since_epoch : ℤ → ℤ × ℕ × ℕ
unfolding wrap ◌+ℤ◌ ◌-ℤ◌ quot times
civil_from_days_since_epoch days =
    let z = wrap (days +ℤ pos 719468) in
    let era = era_of z 146097 in
    let doe = pos_part (wrap (z -ℤ times era 146097)) in
    let yoe = year_of_era doe in
    civil_in_year (wrap (pos yoe +ℤ times era 400)) (doe - (365 * yoe + yoe / 4 - yoe / 100))

unfoldable pub day_of_week_from_days : ℤ → ℤ
unfolding wrap ◌+ℤ◌ rem
day_of_week_from_days days =
    let r = rem (wrap (days +ℤ pos 3)) 7 in (if ltb_ℤ r (pos 0) then r +ℤ pos 7 else r) +ℤ pos 1

epoch_runs : days_since_epoch_from_civil (pos 1970) 1 1 ≡ pos 0
unfolding days_since_epoch_from_civil
epoch_runs = refl

first_day : civil_from_days_since_epoch (days_since_epoch_from_civil (pos 1) 1 1) ≡ (pos 1, 1, 1)
unfolding days_since_epoch_from_civil civil_from_days_since_epoch
first_day = refl

leap_day :
    civil_from_days_since_epoch (days_since_epoch_from_civil (pos 2000) 2 29) ≡ (pos 2000, 2, 29)
unfolding days_since_epoch_from_civil civil_from_days_since_epoch
leap_day = refl

moon_landing : day_of_week_from_days (days_since_epoch_from_civil (pos 1969) 7 20) ≡ pos 7
unfolding days_since_epoch_from_civil day_of_week_from_days
moon_landing = refl
