-- ===== src/Temporal/Days.antt =====
-- The two conversions of the calendar on days counted from the first of March in the year 0.
use maiden_lane.Base.{
  ℕ, ◌+◌, ◌-◌, ◌*◌, ◌/◌, ◌%◌, ◌^◌, ◌≤◌, ◌<◌, if◌then◌else◌, leb, ◌≡◌, refl, ap, ◌∙◌, arith,
  Bool-cases, inl, inr,
}
use maiden_lane.Base.Int.{
  ℤ, pos, pos_part, ◌+ℤ◌, ◌-ℤ◌, times, quot, +ℤ_parts, -ℤ_parts, eq_of_parts,
}
use maiden_lane.Temporal.Int64.{wrap, wrap_pos_small, wrap_difference}
use maiden_lane.Temporal.Civil.{
  era_of, day_of_march_year, day_of_era, days_since_epoch_from_civil, year_of_era, civil_in_year,
  civil_from_days_since_epoch,
}
use maiden_lane.Temporal.Eras.{march_year}

-- The day of a date, counted from the first of March in the year 0.
abbrev pub march_day : ℕ → ℕ → ℕ → ℕ
march_day y m d =
    march_year y m / 400 * 146097 + day_of_era (march_year y m % 400) (day_of_march_year m d)

era_pos :
    (n : ℕ) → (era_of (pos n) 400 ≡ pos (n / 400)) × (era_of (pos n) 146097 ≡ pos (n / 146097))
unfolding quot
era_pos n = (ground arith, ground arith)

pub times_pos : (n k : ℕ) → times (pos n) k ≡ pos (n * k)
unfolding times
times_pos n k = ground arith

pub add_pos : (a b : ℕ) → pos a +ℤ pos b ≡ pos (a + b)
add_pos a b = eq_of_parts (pos a +ℤ pos b) (pos (a + b)) (omega (arith, +ℤ_parts (pos a) (pos b)))

sub_pos : (a b : ℕ) → b ≤ a → pos a -ℤ pos b ≡ pos (a - b)
sub_pos a b h =
    eq_of_parts (pos a -ℤ pos b) (pos (a - b)) (omega (arith, h, -ℤ_parts (pos a) (pos b)))

back_again : (x : ℤ) → x -ℤ pos 719468 +ℤ pos 719468 ≡ x
back_again x =
    eq_of_parts (x -ℤ pos 719468 +ℤ pos 719468) x
      (omega (arith, -ℤ_parts x (pos 719468), +ℤ_parts (x -ℤ pos 719468) (pos 719468)))

march_year_lem :
    (y m : ℕ)
    → 1 ≤ y
    → y < 2 ^ 63
    → (if leb m 2 then wrap (pos y -ℤ pos 1) else pos y) ≡ pos (march_year y m)
march_year_lem y m h l = elim (Bool-cases (leb m 2)) [
  | inl b ↦ rw b (ap wrap (sub_pos y 1 h) ∙ wrap_pos_small (y - 1) (omega (arith, l)))
  | inr b ↦ rw b refl
]

abbrev of_era : ℤ → ℕ → ℕ → ℤ
of_era era yoe doy = wrap (times era 146097 +ℤ pos (day_of_era yoe doy) -ℤ pos 719468)

abbrev of_march_year : ℤ → ℕ → ℤ
of_march_year y doy =
    let era = era_of y 400 in of_era era (pos_part (wrap (y -ℤ times era 400))) doy

rest_of_era :
    (n k : ℕ)
    → n < 2 ^ 63
    → n / k * k ≤ n
    → pos_part (wrap (pos n -ℤ times (pos (n / k)) k)) ≡ n - n / k * k
rest_of_era n k l h =
    ap (λ x. pos_part (wrap (pos n -ℤ x))) (times_pos (n / k) k)
    ∙ ap (λ x. pos_part (wrap x)) (sub_pos n (n / k * k) h)
    ∙ ap pos_part (wrap_pos_small (n - n / k * k) (omega (arith, l)))

of_era_pos :
    (e yoe doy : ℕ)
    → e * 146097 + day_of_era yoe doy < 2 ^ 63
    → wrap (of_era (pos e) yoe doy +ℤ pos 719468) ≡ pos (e * 146097 + day_of_era yoe doy)
of_era_pos e yoe doy l =
    let n = e * 146097 + day_of_era yoe doy in
    ap (λ x. wrap (wrap (x +ℤ pos (day_of_era yoe doy) -ℤ pos 719468) +ℤ pos 719468))
      (times_pos e 146097)
    ∙ ap (λ x. wrap (wrap (x -ℤ pos 719468) +ℤ pos 719468))
        (add_pos (e * 146097) (day_of_era yoe doy))
    ∙ ap (λ x. wrap (x +ℤ pos 719468)) (wrap_difference n 719468 l (omega arith))
    ∙ ap wrap (back_again (pos n))
    ∙ wrap_pos_small n l

of_march_year_pos :
    (w doy : ℕ)
    → w < 2 ^ 63
    → w / 400 * 146097 + day_of_era (w % 400) doy < 2 ^ 63
    → wrap (of_march_year (pos w) doy +ℤ pos 719468)
      ≡ pos (w / 400 * 146097 + day_of_era (w % 400) doy)
of_march_year_pos w doy k l =
    ap (λ era. wrap (of_era era (pos_part (wrap (pos w -ℤ times era 400))) doy +ℤ pos 719468))
      (era_pos w).0
    ∙ ap (λ yoe. wrap (of_era (pos (w / 400)) yoe doy +ℤ pos 719468))
        (rest_of_era w 400 k (omega arith) ∙ omega arith)
    ∙ of_era_pos (w / 400) (w % 400) doy l

pub days_of_date :
    (y m d : ℕ)
    → 1 ≤ y
    → y < 2 ^ 63
    → march_day y m d < 2 ^ 63
    → wrap (days_since_epoch_from_civil (pos y) m d +ℤ pos 719468) ≡ pos (march_day y m d)
unfolding days_since_epoch_from_civil
days_of_date y m d h k l =
    ap (λ w. wrap (of_march_year w (day_of_march_year m d) +ℤ pos 719468)) (march_year_lem y m h k)
    ∙ of_march_year_pos (march_year y m) (day_of_march_year m d) (ground (arith, k)) l

abbrev pub in_era : ℤ → ℕ → ℤ × ℕ × ℕ
in_era era doe =
    let yoe = year_of_era doe in
    civil_in_year (wrap (pos yoe +ℤ times era 400)) (doe - (365 * yoe + yoe / 4 - yoe / 100))

abbrev on_march_day : ℤ → ℤ × ℕ × ℕ
on_march_day z = let era = era_of z 146097 in in_era era (pos_part (wrap (z -ℤ times era 146097)))

pub date_of_days :
    (days : ℤ) (n : ℕ)
    → n < 2 ^ 63
    → wrap (days +ℤ pos 719468) ≡ pos n
    → civil_from_days_since_epoch days ≡ in_era (pos (n / 146097)) (n % 146097)
unfolding civil_from_days_since_epoch
date_of_days days n l h =
    ap on_march_day h
    ∙ ap (λ era. in_era era (pos_part (wrap (pos n -ℤ times era 146097)))) (era_pos n).1
    ∙ ap (in_era (pos (n / 146097))) (rest_of_era n 146097 l (omega arith) ∙ omega arith)
