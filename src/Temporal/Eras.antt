-- ===== src/Temporal/Eras.antt =====
-- The parts of a day number: the year of an era, and the month and day of a year that begins in March.
use maiden_lane.Base.{
  ℕ, ◌+◌, ◌-◌, ◌*◌, ◌/◌, ◌%◌, ◌≤◌, ◌<◌, true, false, if◌then◌else◌, leb, ◌==◌, ◌≡◌, refl, sym,
  subst, ◌∙◌, arith, Bool-cases, inl, inr, ◌⊎◌,
}
use maiden_lane.Base.Int.{ℤ, pos, rem}
use maiden_lane.Temporal.Civil.{
  is_leap_year, days_in_month, day_of_march_year, day_of_era, year_of_era,
}

-- By century, four years and year: 146096, 36524, 1460 and 365 days are a day more or less than these.
year_of_parts :
    (c q y doy : ℕ)
    → c < 4
    → q < 25
    → y < 4
    → doy < 365
    → year_of_era (c * 36524 + q * 1461 + y * 365 + doy) ≡ c * 100 + q * 4 + y
year_of_parts c q y doy hc hq hy hd = omega (arith, hc, hq, hy, hd)

-- The last day of February in a leap year, by the same parts.
year_of_leap_parts :
    (c q : ℕ)
    → c < 4
    → (q < 24) ⊎ ((q ≡ 24) × (c ≡ 3))
    → year_of_era (c * 36524 + q * 1461 + 3 * 365 + 365) ≡ c * 100 + q * 4 + 3
year_of_leap_parts c q hc (inl h) = omega (arith, hc, h)
year_of_leap_parts c q hc (inr (h, k)) = omega (arith, h, k)

-- Whether the year after this one, in an era of 400 years, has a last of February on the 29th.
abbrev pub HasLeapDay : ℕ → Type 0
HasLeapDay yoe = (yoe % 4 ≡ 3) × ((yoe % 100 < 96) ⊎ (yoe ≡ 399))

day_of_era_parts :
    (yoe doy : ℕ)
    → yoe < 400
    → day_of_era yoe doy ≡ yoe / 100 * 36524 + yoe % 100 / 4 * 1461 + yoe % 4 * 365 + doy
day_of_era_parts yoe doy h = omega (arith, h)

pub year_of_day_of_era :
    (yoe doy : ℕ)
    → yoe < 400
    → (doy < 365) ⊎ ((doy ≡ 365) × HasLeapDay yoe)
    → year_of_era (day_of_era yoe doy) ≡ yoe
year_of_day_of_era yoe doy h (inl l) = rw (day_of_era_parts yoe doy h) (
    year_of_parts (yoe / 100) (yoe % 100 / 4) (yoe % 4) doy (omega (arith, h)) (omega arith)
      (omega arith) l
    ∙ omega (arith, h))
year_of_day_of_era yoe doy h (inr (e, (four, leap))) = elim leap [
  | inl l ↦
      rw (day_of_era_parts yoe doy h, e, four)
        (year_of_leap_parts (yoe / 100) (yoe % 100 / 4) (omega (arith, h)) (inl (omega (arith, l)))
          ∙ omega (arith, h, four))
  | inr l ↦ rw (e, l) refl
]

-- The month that a day of a year that begins in March falls in.
pub month_of_day :
    (mp d : ℕ)
    → mp < 12
    → 1 ≤ d
    → (153 * mp + 2) / 5 + d ≤ (153 * (mp + 1) + 2) / 5
    → (5 * ((153 * mp + 2) / 5 + d - 1) + 2) / 153 ≡ mp
month_of_day mp d h l k = omega (arith, h, l, k)

pub days_fit :
    (y : ℤ) (m d : ℕ)
    → 1 ≤ m
    → m ≤ 12
    → d ≤ days_in_month y m
    → let mp = if leb m 2 then m + 9 else m - 3 in (153 * mp + 2) / 5 + d ≤ (153 * (mp + 1) + 2) / 5
unfolding days_in_month
days_fit y m d l h k = ground (arith, l, h, k)

leap_parts : (y : ℕ) → is_leap_year (pos y) ≡ true → (y % 4 ≡ 0) × ((1 ≤ y % 100) ⊎ (y % 400 ≡ 0))
unfolding is_leap_year rem
leap_parts y l = elim (Bool-cases (y % 400 == 0)) [
  | inl b ↦ (ground (arith, b), inr (ground (arith, b)))
  | inr b ↦ (ground (arith, l, b), inl (ground (arith, l, b)))
]

leap_day : (y : ℕ) → 1 ≤ y → is_leap_year (pos y) ≡ true → HasLeapDay ((y - 1) % 400)
leap_day y h l =
    let (four, rest) = leap_parts y l in
    elim rest [
      | inl r ↦ (omega (arith, h, four), inl (omega (arith, h, four, r)))
      | inr r ↦ (omega (arith, h, four), inr (omega (arith, h, four, r)))
    ]

-- The year that a date is counted in, which begins in March.
abbrev pub march_year : ℕ → ℕ → ℕ
march_year y m = if leb m 2 then y - 1 else y

in_other_month :
    (y m d : ℕ)
    → 1 ≤ m
    → m ≤ 12
    → (m == 2) ≡ false
    → d ≤ days_in_month (pos y) m
    → day_of_march_year m d < 365
unfolding days_in_month
in_other_month y m d h k n b = ground (arith, n, h, k, b)

february :
    (y d : ℕ)
    → 1 ≤ y
    → 1 ≤ d
    → d ≤ days_in_month (pos y) 2
    → (day_of_march_year 2 d < 365) ⊎ ((day_of_march_year 2 d ≡ 365) × HasLeapDay ((y - 1) % 400))
unfolding days_in_month
february y d hy l b = elim (Bool-cases (is_leap_year (pos y))) [
  | inr not_leap ↦ inl (let short : d ≤ 28 = rw not_leap at b in omega (arith, short, l))
  | inl leap ↦
      let long : d ≤ 29 = rw leap at b in
      elim (Bool-cases (d == 29)) [
        | inl last ↦ inr (ground (arith, last), leap_day y hy leap)
        | inr n ↦ inl (ground (arith, long, n, l))
      ]
]

pub day_in_year :
    (y m d : ℕ)
    → 1 ≤ y
    → 1 ≤ m
    → m ≤ 12
    → 1 ≤ d
    → d ≤ days_in_month (pos y) m
    → (day_of_march_year m d < 365)
      ⊎ ((day_of_march_year m d ≡ 365) × HasLeapDay (march_year y m % 400))
day_in_year y m d hy h k l b = elim (Bool-cases (m == 2)) [
  | inr n ↦ inl (in_other_month y m d h k n b)
  | inl two ↦
      let same : m ≡ 2 = ground (arith, two) in
      subst
        (λ m.
          (day_of_march_year m d < 365)
          ⊎ ((day_of_march_year m d ≡ 365) × HasLeapDay (march_year y m % 400)))
        (sym same) (february y d hy l (rw same at b))
]
