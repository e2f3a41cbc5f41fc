-- ===== src/Temporal/Calendar.antt =====
-- From a civil date to its day number and back.
use maiden_lane.Base.{
  ℕ, ◌+◌, ◌-◌, ◌*◌, ◌/◌, ◌%◌, ◌^◌, ◌≤◌, ◌<◌, true, false, if◌then◌else◌, leb, ◌≡◌, refl, ap, ap₂,
  ◌∙◌, arith, Bool-cases, inl, inr, ◌⊎◌,
}
use maiden_lane.Base.Int.{ℤ, pos, ◌+ℤ◌, times}
use maiden_lane.Temporal.Int64.{wrap, wrap_pos_small}
use maiden_lane.Temporal.Civil.{
  days_in_month, day_of_march_year, day_of_era, days_since_epoch_from_civil, civil_in_year,
  civil_from_days_since_epoch,
}
use maiden_lane.Temporal.Eras.{
  HasLeapDay, year_of_day_of_era, month_of_day, days_fit, march_year, day_in_year,
}
use maiden_lane.Temporal.Days.{march_day, times_pos, add_pos, days_of_date, in_era, date_of_days}

abbrev with_month : ℤ → ℕ → ℕ → ℤ × ℕ × ℕ
with_month y mp doy =
    let d = doy - (153 * mp + 2) / 5 + 1 in
    let m = if leb 10 mp then mp - 9 else mp + 3 in
    ((if leb m 2 then wrap (y +ℤ pos 1) else y), m, d)

year_after : (y : ℕ) → 1 ≤ y → y < 2 ^ 63 → wrap (pos (y - 1) +ℤ pos 1) ≡ pos y
year_after y h l = ap wrap (add_pos (y - 1) 1 ∙ ap pos (omega (arith, h))) ∙ wrap_pos_small y l

day_of_index : (s d : ℕ) → 1 ≤ d → s + d - 1 - s + 1 ≡ d
day_of_index s d h = omega (arith, h)

early_month :
    (y m d : ℕ)
    → 1 ≤ y
    → y < 2 ^ 63
    → 1 ≤ m
    → leb m 2 ≡ true
    → 1 ≤ d
    → with_month (pos (y - 1)) (m + 9) ((153 * (m + 9) + 2) / 5 + d - 1) ≡ (pos y, m, d)
early_month y m d hy ly h b l =
    let late : leb 10 (m + 9) ≡ true = ground (arith, h) in
    let back : m + 9 - 9 ≡ m = omega arith in
    rw (late, back, b, year_after y hy ly, day_of_index ((153 * (m + 9) + 2) / 5) d l) refl

late_month :
    (y m d : ℕ)
    → m ≤ 12
    → leb m 2 ≡ false
    → 1 ≤ d
    → with_month (pos y) (m - 3) ((153 * (m - 3) + 2) / 5 + d - 1) ≡ (pos y, m, d)
late_month y m d k b l =
    let early : leb 10 (m - 3) ≡ false = ground (arith, k) in
    let back : m - 3 + 3 ≡ m = ground (arith, b) in
    rw (early, back, b, day_of_index ((153 * (m - 3) + 2) / 5) d l) refl

with_month_back :
    (y m d : ℕ)
    → 1 ≤ y
    → y < 2 ^ 63
    → 1 ≤ m
    → m ≤ 12
    → 1 ≤ d
    → with_month (pos (march_year y m)) (if leb m 2 then m + 9 else m - 3) (day_of_march_year m d)
      ≡ (pos y, m, d)
with_month_back y m d hy ly h k l = elim (Bool-cases (leb m 2)) [
  | inl b ↦ rw b (early_month y m d hy ly h b l)
  | inr b ↦ rw b (late_month y m d k b l)
]

civil_in_year_back :
    (y m d : ℕ)
    → 1 ≤ y
    → y < 2 ^ 63
    → 1 ≤ m
    → m ≤ 12
    → 1 ≤ d
    → (153 * (if leb m 2 then m + 9 else m - 3) + 2) / 5 + d
      ≤ (153 * ((if leb m 2 then m + 9 else m - 3) + 1) + 2) / 5
    → civil_in_year (pos (march_year y m)) (day_of_march_year m d) ≡ (pos y, m, d)
civil_in_year_back y m d hy ly h k l fit =
    ap (λ mp. with_month (pos (march_year y m)) mp (day_of_march_year m d))
      (month_of_day (if leb m 2 then m + 9 else m - 3) d (ground (arith, h, k)) l fit)
    ∙ with_month_back y m d hy ly h k l

year_back :
    (yoe e w : ℕ) → w < 2 ^ 63 → yoe + e * 400 ≡ w → wrap (pos yoe +ℤ times (pos e) 400) ≡ pos w
year_back yoe e w l h =
    ap wrap (ap (◌+ℤ◌ (pos yoe)) (times_pos e 400) ∙ add_pos yoe (e * 400) ∙ ap pos h)
    ∙ wrap_pos_small w l

day_back : (yoe doy : ℕ) → day_of_era yoe doy - (365 * yoe + yoe / 4 - yoe / 100) ≡ doy
day_back yoe doy = omega arith

small_day :
    (yoe doy : ℕ)
    → yoe < 400
    → (doy < 365) ⊎ ((doy ≡ 365) × HasLeapDay yoe)
    → day_of_era yoe doy < 146097
small_day yoe doy h (inl l) = omega (arith, h, l)
small_day yoe doy h (inr (e, leap)) = omega (arith, h, e)

abbrev with_year : ℤ → ℕ → ℕ → ℤ × ℕ × ℕ
with_year era doe yoe =
    civil_in_year (wrap (pos yoe +ℤ times era 400)) (doe - (365 * yoe + yoe / 4 - yoe / 100))

era_of_sum : (e n : ℕ) → n < 146097 → (e * 146097 + n) / 146097 ≡ e
era_of_sum e n h = omega (arith, h)

day_of_sum : (e n : ℕ) → n < 146097 → (e * 146097 + n) % 146097 ≡ n
day_of_sum e n h = omega (arith, h)

era_and_day :
    (e yoe doy : ℕ)
    → yoe < 400
    → (doy < 365) ⊎ ((doy ≡ 365) × HasLeapDay yoe)
    → in_era
        (pos ((e * 146097 + day_of_era yoe doy) / 146097))
        ((e * 146097 + day_of_era yoe doy) % 146097)
      ≡ with_year (pos e) (day_of_era yoe doy) yoe
era_and_day e yoe doy h fits =
    let small = small_day yoe doy h fits in
    ap₂ in_era (ap pos (era_of_sum e (day_of_era yoe doy) small))
      (day_of_sum e (day_of_era yoe doy) small)
    ∙ ap (with_year (pos e) (day_of_era yoe doy)) (year_of_day_of_era yoe doy h fits)

march_day_bound :
    (y m d : ℕ) → y ≤ 25 * 10 ^ 15 → day_of_march_year m d ≤ 365 → march_day y m d < 2 ^ 63
march_day_bound y m d h k =
    let year : march_year y m ≤ 25 * 10 ^ 15 = ground (arith, h) in
    bound (march_year y m) (day_of_march_year m d) year k
  where
    bound :
        (w doy : ℕ)
        → w ≤ 25 * 10 ^ 15
        → doy ≤ 365
        → w / 400 * 146097 + day_of_era (w % 400) doy < 2 ^ 63
    bound w doy h k = omega (arith, h, k)

-- For a year from 1 to 25 * 10 ^ 15, a month, and a day that the month has: in `int64` arithmetic,
-- the civil date of the day number of that date is the date itself.
pub civil_from-days_since :
    (y m d : ℕ)
    → 1 ≤ y
    → y ≤ 25 * 10 ^ 15
    → 1 ≤ m
    → m ≤ 12
    → 1 ≤ d
    → d ≤ days_in_month (pos y) m
    → civil_from_days_since_epoch (days_since_epoch_from_civil (pos y) m d) ≡ (pos y, m, d)
civil_from-days_since y m d hy ly h k l b =
    let w = march_year y m in
    let doy = day_of_march_year m d in
    let fits = day_in_year y m d hy h k l b in
    let small : y < 2 ^ 63 = omega (arith, ly) in
    let small_w : w < 2 ^ 63 = ground (arith, small) in
    let in_range = march_day_bound y m d ly (omega (arith, fits)) in
    date_of_days (days_since_epoch_from_civil (pos y) m d) (march_day y m d) in_range
      (days_of_date y m d hy small in_range)
    ∙ era_and_day (w / 400) (w % 400) doy (omega arith) fits
    ∙ ap₂ civil_in_year (year_back (w % 400) (w / 400) w small_w (omega arith))
        (day_back (w % 400) doy)
    ∙ civil_in_year_back y m d hy small h k l (days_fit (pos y) m d h k b)
