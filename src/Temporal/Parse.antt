-- ===== src/Temporal/Parse.antt =====
-- `parseDate` and `parseTimestamp` of temporal.go. An error is `none`.
use maiden_lane.Base.{
  ℕ, ◌+◌, ◌-◌, ◌*◌, Bool, not, ◌&&◌, ◌||◌, List, [], ◌∷◌, ◌++◌, Option, none, some, ltb, ◌==◌,
  if◌then◌else◌, length, replicate, Text, codes, is_empty, ◌≡◌, refl,
}
use maiden_lane.Base.Int.{ℤ, pos, negsuc, pos_part, ◌+ℤ◌, times, ltb_ℤ, beq_ℤ}
use maiden_lane.Base.Scan.{trim_space, cut, split, without_suffix, parse_int}
use maiden_lane.Temporal.Civil.{days_in_month, days_since_epoch_from_civil}

-- A number of a given number of characters, in a range: a sign counts as a character.
unfoldable pub number_in : ℕ → ℤ → ℤ → Text → Option ℕ
number_in width low high s = if not (length s == width) then none else elim (parse_int s) [
  | none ↦ none
  | some v ↦ if ltb_ℤ v low || ltb_ℤ high v then none else some (pos_part v)
]

abbrev pub day_in_month : ℕ → ℕ → Option ℕ → Option ℤ
day_in_month y m none = none
day_in_month y m (some d) = some (days_since_epoch_from_civil (pos y) m d)

abbrev pub month_and_day : Option ℕ → Option ℕ → Text → Option ℤ
month_and_day none m d = none
month_and_day (some y) none d = none
month_and_day (some y) (some m) d =
    day_in_month y m (number_in 2 (pos 1) (pos (days_in_month (pos y) m)) d)

abbrev pub date_of_parts : List Text → Option ℤ
date_of_parts [] = none
date_of_parts (y ∷ []) = none
date_of_parts (y ∷ m ∷ []) = none
date_of_parts (y ∷ m ∷ d ∷ []) =
    month_and_day (number_in 4 (pos 1) (pos 9999) y) (number_in 2 (pos 1) (pos 12) m) d
date_of_parts (y ∷ m ∷ d ∷ x ∷ rest) = none

-- The days since the epoch.
unfoldable pub parse_date : Text → Option ℤ
unfolding number_in
parse_date s = date_of_parts (split b'-' (trim_space s))

abbrev pub min_timestamp_sec : ℤ
min_timestamp_sec = negsuc 9223372035

abbrev pub max_timestamp_sec : ℤ
max_timestamp_sec = pos 9223372036

abbrev pub max_frac_nano_at_max_sec : ℕ
max_frac_nano_at_max_sec = 854775807

-- Whether seconds and nanoseconds are within the range of a timestamp.
unfoldable pub in_timestamp_range : ℤ → ℕ → Bool
in_timestamp_range sec frac = not (
    ltb_ℤ sec min_timestamp_sec
    || (ltb_ℤ max_timestamp_sec sec
        || (beq_ℤ sec max_timestamp_sec && ltb max_frac_nano_at_max_sec frac)))

unfoldable pub unix_nano : ℤ → ℕ → ℤ
unfolding ◌+ℤ◌ times
unix_nano sec frac = times sec 1000000000 +ℤ pos frac

-- One to nine digits of a second's fraction, as nanoseconds.
abbrev pub nano_of : Text → Option ℤ → Option ℕ
nano_of f none = none
nano_of f (some v) = if ltb_ℤ v (pos 0) then none else some (pos_part v)

unfoldable pub fraction : Text → Option ℕ
fraction f =
    if length f == 0 || ltb 9 (length f)
    then none
    else nano_of f (parse_int (f ++ replicate (9 - length f) b'0'))

-- The seconds with their nanoseconds.
abbrev pub with_fraction : Option ℕ → Option ℕ → Option (ℕ × ℕ)
with_fraction none f = none
with_fraction (some s) none = none
with_fraction (some s) (some f) = some (s, f)

abbrev pub seconds_on : Text → Option (Text × Text) → Option (ℕ × ℕ)
seconds_on s none = with_fraction (number_in 2 (pos 0) (pos 59) s) (some 0)
seconds_on s (some (whole, frac)) =
    with_fraction (number_in 2 (pos 0) (pos 59) whole) (fraction frac)

-- Hour, minute, and seconds with nanoseconds, as the second of the day.
abbrev pub day_second : Option ℕ → Option ℕ → Option (ℕ × ℕ) → Option (ℕ × ℕ)
day_second none m s = none
day_second (some h) none s = none
day_second (some h) (some m) none = none
day_second (some h) (some m) (some (s, f)) = some (h * 3600 + m * 60 + s, f)

abbrev pub time_of_parts : List Text → Option (ℕ × ℕ)
time_of_parts [] = none
time_of_parts (h ∷ []) = none
time_of_parts (h ∷ m ∷ []) = none
time_of_parts (h ∷ m ∷ s ∷ []) =
    day_second (number_in 2 (pos 0) (pos 23) h) (number_in 2 (pos 0) (pos 59) m)
      (seconds_on s (cut b'.' s))
time_of_parts (h ∷ m ∷ s ∷ x ∷ rest) = none

-- The time without its zone, which has to be UTC.
abbrev pub or_else : Option Text → Option Text → Option Text
or_else none o = o
or_else (some s) o = some s

unfoldable pub without_zone : Text → Option Text
unfolding without_suffix
without_zone s =
    or_else (without_suffix (codes "Z") s)
      (or_else (without_suffix (codes "+00:00") s) (without_suffix (codes "-00:00") s))

abbrev pub at_day : ℤ → ℕ × ℕ → Option ℤ
at_day days (sec, frac) =
    if ltb_ℤ days (negsuc 106751) || ltb_ℤ (pos 106751) days
    then none
    else let total = times days 86400 +ℤ pos sec in
      if in_timestamp_range total frac then some (unix_nano total frac) else none

abbrev pub on_day : ℤ → Option (ℕ × ℕ) → Option ℤ
on_day days none = none
on_day days (some t) = at_day days t

abbrev pub in_zone : ℤ → Option Text → Option ℤ
in_zone days none = none
in_zone days (some time) = on_day days (time_of_parts (split b':' time))

abbrev pub date_and_time : Option ℤ → Text → Option ℤ
date_and_time none time = none
date_and_time (some days) time = in_zone days (without_zone time)

abbrev pub timestamp_of : Option (Text × Text) → Option ℤ
timestamp_of none = none
timestamp_of (some (d, time)) = date_and_time (parse_date d) time

-- Nanoseconds since the epoch.
unfoldable pub parse_timestamp : Text → Option ℤ
unfolding parse_date number_in fraction in_timestamp_range unix_nano without_zone
parse_timestamp s =
    let text = trim_space s in if is_empty text then none else timestamp_of (cut b'T' text)

parses_date : parse_date (codes "1970-01-02") ≡ some (pos 1)
unfolding parse_date trim_space split parse_int days_in_month days_since_epoch_from_civil
parses_date = refl

-- A sign passes as one of the characters of a month.
parses_signed_month : parse_date (codes "1970-+1-02") ≡ some (pos 1)
unfolding parse_date trim_space split parse_int days_in_month days_since_epoch_from_civil
parses_signed_month = refl

parses_timestamp : parse_timestamp (codes "1970-01-01T00:01:02.5Z") ≡ some (pos 62500000000)
unfolding parse_timestamp trim_space cut split parse_int days_in_month days_since_epoch_from_civil
    ◌+ℤ◌ times
parses_timestamp = refl
