-- ===== src/Recording/Dates/Civil.antt =====
-- The days of `format_epoch_slug` and `parse_epoch_timestamp` in recording.rs: the arithmetic of a
-- cycle of 400 years.
use pg_lens.Prelude.{ℕ, ◌+◌, ◌-◌, ◌*◌, ◌/◌, ◌≤◌, ◌<◌, arith}
use pg_lens.Recording.Dates.{civil_year}

pub civil_year-lt : (doe : ℕ) → doe < 146097 → civil_year doe < 400
unfolding civil_year
civil_year-lt doe h = omega arith

abbrev pub year_start : ℕ → ℕ
year_start yoe = 365 * yoe + yoe / 4 - yoe / 100

pub year_start-le : (doe : ℕ) → doe < 146097 → year_start (civil_year doe) ≤ doe
unfolding civil_year
year_start-le doe h = omega arith

pub day_of_year-le : (doe : ℕ) → doe < 146097 → doe - year_start (civil_year doe) ≤ 365
unfolding civil_year
day_of_year-le doe h = omega arith

-- The months of a day of the year, counted from March.
pub months_of : (doy : ℕ) → doy ≤ 365 → (5 * doy + 2) / 153 ≤ 11
months_of doy h = omega arith

pub day_of_month :
    (doy : ℕ)
    → doy ≤ 365
    → ((153 * ((5 * doy + 2) / 153) + 2) / 5 ≤ doy)
      × (doy - (153 * ((5 * doy + 2) / 153) + 2) / 5 ≤ 30)
day_of_month doy h = omega arith
