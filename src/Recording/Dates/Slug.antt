-- ===== src/Recording/Dates/Slug.antt =====
-- `parse_epoch_timestamp` against `format_epoch_slug`, in recording.rs.
use pg_lens.Prelude.{
  ℕ, zero, suc, ◌+◌, ◌-◌, ◌*◌, ◌/◌, ◌%◌, ◌≤◌, ◌<◌, le→leb, lt→leb_false, ◌≡◌, refl, ap, ◌∙◌, true,
  false, Option, some, [], ◌∷◌, length, arith, leb, ltb, nat_eq, if◌then◌else◌,
}
use pg_lens.Prelude.Int.{pos, ◌-ℤ◌}
use pg_lens.Prelude.Text.{Text, parse_unsigned, scan_digits, is_digit, Without}
use pg_lens.Recording.Dates.{
  digits, padded, CivilDate, civil_year, civil_of_days, format_epoch_slug, epoch_of_civil,
  days_from, parse_epoch_timestamp, Call, returns, latest, u64_max, parse_signed, slice, parse_slug,
  field,
}
use pg_lens.Recording.Dates.Civil.{
  civil_year-lt, year_start, year_start-le, day_of_year-le, months_of, day_of_month,
}

-- The date that a number of days is printed as.
record IsDateOf (days : ℕ) (c : CivilDate) : Type 0 where
  year_in : 1970 ≤ c.year
  month_in : (1 ≤ c.month) × (c.month ≤ 12)
  day_in : (1 ≤ c.day) × (c.day ≤ 31)

civil-IsDateOf : (days : ℕ) → IsDateOf days (civil_of_days days)
unfolding civil_of_days
civil-IsDateOf days =
    let z = days + 719468 in
    let doe = z - z / 146097 * 146097 in
    let small : doe < 146097 = omega arith in
    let doy = doe - year_start (civil_year doe) in
    ground
      (arith, civil_year-lt doe small, day_of_year-le doe small, months_of doy, day_of_month doy)

-- The year that `parse_epoch_timestamp` counts from March.
abbrev march_year : CivilDate → ℕ
march_year c = if leb c.month 2 then c.year - 1 else c.year

abbrev march_month : ℕ → ℕ
march_month m = if ltb 2 m then m - 3 else m + 9

abbrev days_of : ℕ → ℕ → ℕ → ℕ
days_of y m d =
    let yoe = y - y / 400 * 400 in
    y / 400 * 146097 + (yoe * 365 + yoe / 4 - yoe / 100 + ((153 * march_month m + 2) / 5 + d - 1))

minus-eq : (a b : ℕ) → b ≤ a → pos a -ℤ pos b ≡ pos (a - b)
minus-eq a zero h = ap pos (omega arith)
minus-eq zero (suc b) h = absurd (omega arith)
minus-eq (suc a) (suc b) h = minus-eq a b (omega arith) ∙ ap pos (omega arith)

-- The month and the year that are printed, from those that are counted from March, and back.
abbrev printed : ℕ → ℕ → ℕ → CivilDate
printed y mp d =
    let m = if ltb mp 10 then mp + 3 else mp - 9 in
    record { year = if leb m 2 then y + 1 else y; month = m; day = d }

march_month-printed : (y mp d : ℕ) → mp ≤ 11 → march_month (printed y mp d).month ≡ mp
march_month-printed y mp d h = ground arith

march_year-printed : (y mp d : ℕ) → mp ≤ 11 → march_year (printed y mp d) ≡ y
march_year-printed y mp d h = ground arith

cycle_parts :
    (era yoe : ℕ)
    → yoe < 400
    → ((yoe + era * 400) / 400 ≡ era) × (yoe + era * 400 - era * 400 ≡ yoe)
cycle_parts era yoe h = (omega arith, omega arith)

-- What `days_of` adds up for the year `yoe` of a cycle.
count_back :
    (z doe yoe : ℕ)
    → doe ≡ z - z / 146097 * 146097
    → yoe < 400
    → year_start yoe ≤ doe
    → doe - year_start yoe ≤ 365
    → (let doy = doe - year_start yoe in
        let mp = (5 * doy + 2) / 153 in
        days_of
          (march_year (printed (yoe + z / 146097 * 400) mp (doy - (153 * mp + 2) / 5 + 1)))
          (printed (yoe + z / 146097 * 400) mp (doy - (153 * mp + 2) / 5 + 1)).month
          (doy - (153 * mp + 2) / 5 + 1)
        ≡ z)
count_back z doe yoe e small le within =
    let doy = doe - year_start yoe in
    let mp = (5 * doy + 2) / 153 in
    let d = doy - (153 * mp + 2) / 5 + 1 in
    let y = yoe + z / 146097 * 400 in
    rw
      (
        march_year-printed y mp d (months_of doy within),
        march_month-printed y mp d (months_of doy within),
        (cycle_parts (z / 146097) yoe small).0,
        (cycle_parts (z / 146097) yoe small).1,
      )
      (omega (arith, day_of_month doy within))

-- Counting the days of a printed date gives them back.
days_of-civil :
    (days : ℕ)
    → days_of (march_year (civil_of_days days)) (civil_of_days days).month (civil_of_days days).day
      ≡ days + 719468
unfolding civil_of_days
days_of-civil days =
    let z = days + 719468 in
    let doe = z - z / 146097 * 146097 in
    let small : doe < 146097 = omega arith in
    count_back z doe (civil_year doe) refl (civil_year-lt doe small) (year_start-le doe small)
      (day_of_year-le doe small)

days_from_lem :
    (y m d : ℕ) → 719468 ≤ days_of y m d → days_from (pos y) m d ≡ pos (days_of y m d - 719468)
unfolding days_from
days_from_lem y m d h =
    rw (minus-eq y (y / 400 * 400) (omega arith)) (minus-eq (days_of y m d) 719468 h)

year_before :
    (year m : ℕ)
    → 1 ≤ year
    → (if leb m 2 then pos year -ℤ pos 1 else pos year) ≡ pos (if leb m 2 then year - 1 else year)
year_before year m h = rw (minus-eq year 1 h) (ground arith)

-- With the checks passed, only the count of the days is left.
epoch_counts :
    (year m d h min sec days : ℕ)
    → 1 ≤ year
    → (1 ≤ m) × (m ≤ 12)
    → (1 ≤ d) × (d ≤ 31)
    → h < 24
    → min < 60
    → sec < 60
    → days_of (if leb m 2 then year - 1 else year) m d ≡ days + 719468
    → epoch_of_civil (pos year) m d h min sec ≡ some (days * 86400 + h * 3600 + min * 60 + sec)
unfolding epoch_of_civil
epoch_counts year m d h min sec days hy rm rd hh hm hs e =
    let y = if leb m 2 then year - 1 else year in
    let known : days_from (if leb m 2 then pos year -ℤ pos 1 else pos year) m d ≡ pos days =
      ap (λ t. days_from t m d) (year_before year m hy)
      ∙ (days_from_lem y m d (omega (arith, e)) ∙ ap pos (omega (arith, e))) in
    rw
      (
        known,
        le→leb rm.0,
        le→leb rm.1,
        le→leb rd.0,
        le→leb rd.1,
        lt→leb_false hh,
        lt→leb_false hm,
        lt→leb_false hs,
      )
      refl

-- The time of a day, in three fields.
time_parts :
    (secs : ℕ)
    → secs / 86400 * 86400
        + secs % 86400 / 3600 * 3600
        + secs % 86400 % 3600 / 60 * 60
        + secs % 86400 % 60
      ≡ secs
time_parts secs = omega arith

epoch-civil :
    (secs : ℕ)
    → (let c = civil_of_days (secs / 86400) in
        let t = secs % 86400 in
        epoch_of_civil (pos c.year) c.month c.day (t / 3600) (t % 3600 / 60) (t % 60) ≡ some secs)
epoch-civil secs =
    let days = secs / 86400 in
    let c = civil_of_days days in
    let v = civil-IsDateOf days in
    let t = secs % 86400 in
    epoch_counts c.year c.month c.day (t / 3600) (t % 3600 / 60) (t % 60) days
      (omega (arith, v.year_in)) v.month_in v.day_in (omega arith) (omega arith) (omega arith)
      (days_of-civil days)
    ∙ ap some (time_parts secs)

-- The digits of a number with two and with four digits.
digits_zero : (fuel : ℕ) → digits fuel 0 ≡ []
unfolding digits
digits_zero zero = refl
digits_zero (suc fuel) = refl

abbrev digit : ℕ → ℕ
digit n = b'0' + n % 10

padded_two : (n : ℕ) → n < 100 → padded 2 n ≡ digit (n / 10) ∷ digit n ∷ []
unfolding padded
padded_two n h = let e : n / 10 / 10 ≡ 0 = omega arith in rw (e, digits_zero 20) refl

padded_four :
    (n : ℕ)
    → n < 10000
    → padded 4 n ≡ digit (n / 10 / 10 / 10) ∷ digit (n / 10 / 10) ∷ digit (n / 10) ∷ digit n ∷ []
unfolding padded
padded_four n h = let e : n / 10 / 10 / 10 / 10 ≡ 0 = omega arith in rw (e, digits_zero 20) refl

plain : (n : ℕ) → leb 0x80 (digit n) ≡ false
plain n = lt→leb_false (omega arith)

is_digit-digit : (n : ℕ) → is_digit (digit n) ≡ true
is_digit-digit n = ground arith

not_sign : (n : ℕ) → (nat_eq (digit n) b'+' ≡ false) × (nat_eq (digit n) b'-' ≡ false)
not_sign n = (ground arith, ground arith)

scan_digit :
    (limit n : ℕ) (s : Text) (acc : ℕ)
    → scan_digits limit (digit n ∷ s) acc ≡ scan_digits limit s (acc * 10 + n % 10)
unfolding scan_digits
scan_digit limit n s acc =
    rw (is_digit-digit n) (ap (λ t. scan_digits limit s (acc * 10 + t)) (omega arith))

scan_end : (limit n m : ℕ) → n ≤ limit → n ≡ m → scan_digits limit [] n ≡ some m
unfolding scan_digits
scan_end limit n m h e = rw (le→leb h) (ap some e)

parse_two : (n : ℕ) → n < 100 → parse_unsigned u64_max (digit (n / 10) ∷ digit n ∷ []) ≡ some n
unfolding parse_unsigned
parse_two n h =
    rw
      (
        (not_sign (n / 10)).0,
        scan_digit u64_max (n / 10) (digit n ∷ []) 0,
        scan_digit u64_max n [] (0 * 10 + n / 10 % 10),
      )
      (scan_end u64_max _ n (omega arith) (omega arith))

parse_four :
    (n : ℕ)
    → n < 10000
    → parse_signed (digit (n / 10 / 10 / 10) ∷ digit (n / 10 / 10) ∷ digit (n / 10) ∷ digit n ∷ [])
      ≡ some (pos n)
unfolding parse_signed parse_unsigned
parse_four n h =
    let limit : ℕ = 0x7fff_ffff_ffff_ffff in
    let a = n / 10 / 10 / 10 in
    let b = n / 10 / 10 in
    let c = n / 10 in
    rw
      (
        (not_sign a).1,
        (not_sign a).0,
        scan_digit limit a (digit b ∷ digit c ∷ digit n ∷ []) 0,
        scan_digit limit b (digit c ∷ digit n ∷ []) (0 * 10 + a % 10),
        scan_digit limit c (digit n ∷ []) ((0 * 10 + a % 10) * 10 + b % 10),
        scan_digit limit n [] (((0 * 10 + a % 10) * 10 + b % 10) * 10 + c % 10),
        scan_end limit ((((0 * 10 + a % 10) * 10 + b % 10) * 10 + c % 10) * 10 + n % 10) n
            (omega arith) (omega arith),
      )
      refl

-- A slug of six fields, as bytes.
abbrev slug_of : ℕ → ℕ → ℕ → ℕ → ℕ → ℕ → Text
slug_of y m d h min sec =
    digit (y / 10 / 10 / 10)
    ∷ digit (y / 10 / 10)
    ∷ digit (y / 10)
    ∷ digit y
    ∷ digit (m / 10)
    ∷ digit m
    ∷ digit (d / 10)
    ∷ digit d
    ∷ b'_'
    ∷ digit (h / 10)
    ∷ digit h
    ∷ digit (min / 10)
    ∷ digit min
    ∷ digit (sec / 10)
    ∷ digit sec
    ∷ []

field-returns :
    {A : Type 0} (parse : Text → Option A) (a b : ℕ) (s t : Text) (n : A)
    (rest : A → Call (Option ℕ))
    → slice a b s ≡ returns t
    → parse t ≡ some n
    → field parse a b s rest ≡ rest n
field-returns parse a b s t n rest cut read = rw (field, cut, read) refl

parse_slug-slug_of :
    (y m d h min sec : ℕ)
    → y < 10000
    → m < 100
    → d < 100
    → h < 100
    → min < 100
    → sec < 100
    → parse_slug (slug_of y m d h min sec) ≡ returns (epoch_of_civil (pos y) m d h min sec)
unfolding parse_slug slice
parse_slug-slug_of y m d h min sec hy hm hd hh hmin hs =
    field-returns parse_signed 0 4 t
      (digit (y / 10 / 10 / 10) ∷ digit (y / 10 / 10) ∷ digit (y / 10) ∷ digit y ∷ []) (pos y) _
      (rw (plain (y / 10 / 10 / 10), plain (m / 10)) refl) (parse_four y hy)
    ∙ (field-returns two 4 6 t (digit (m / 10) ∷ digit m ∷ []) m _
          (rw (plain (m / 10), plain (d / 10)) refl) (parse_two m hm)
        ∙ (field-returns two 6 8 t (digit (d / 10) ∷ digit d ∷ []) d _ (rw (plain (d / 10)) refl)
              (parse_two d hd)
            ∙ (field-returns two 9 11 t (digit (h / 10) ∷ digit h ∷ []) h _
                  (rw (plain (h / 10), plain (min / 10)) refl) (parse_two h hh)
                ∙ (field-returns two 11 13 t (digit (min / 10) ∷ digit min ∷ []) min _
                      (rw (plain (min / 10), plain (sec / 10)) refl) (parse_two min hmin)
                    ∙ field-returns two 13 15 t (digit (sec / 10) ∷ digit sec ∷ []) sec _
                        (rw (plain (sec / 10)) refl) (parse_two sec hs)))))
  where
    two : Text → Option ℕ
    two = parse_unsigned u64_max

    t : Text
    t = slug_of y m d h min sec

parse_slug-eq :
    (y m d h min sec : ℕ)
    → parse_epoch_timestamp (slug_of y m d h min sec) ≡ parse_slug (slug_of y m d h min sec)
unfolding parse_epoch_timestamp
parse_slug-eq y m d h min sec = refl

format-slug_of :
    (secs : ℕ)
    → (civil_of_days (secs / 86400)).year < 10000
    → (let c = civil_of_days (secs / 86400) in
        let t = secs % 86400 in
        format_epoch_slug secs ≡ slug_of c.year c.month c.day (t / 3600) (t % 3600 / 60) (t % 60))
unfolding format_epoch_slug
format-slug_of secs h =
    let c = civil_of_days (secs / 86400) in
    let t = secs % 86400 in
    let v = civil-IsDateOf (secs / 86400) in
    rw
      (
        padded_four c.year h,
        padded_two c.month (omega (arith, v.month_in)),
        padded_two c.day (omega (arith, v.day_in)),
        padded_two (t / 3600) (omega arith),
        padded_two (t % 3600 / 60) (omega arith),
        padded_two (t % 60) (omega arith),
      )
      refl

year-printed :
    (z yoe mp d : ℕ)
    → z < 3652365
    → yoe < 400
    → (5 * (z - z / 146097 * 146097 - year_start yoe) + 2) / 153 ≡ mp
    → (printed (yoe + z / 146097 * 400) mp d).year < 10000
year-printed z yoe mp d h small e = ground arith

year_below : (days : ℕ) → days < 2932897 → (civil_of_days days).year < 10000
unfolding civil_of_days
year_below days h =
    let z = days + 719468 in
    let doe = z - z / 146097 * 146097 in
    year-printed z (civil_year doe) ((5 * (doe - year_start (civil_year doe)) + 2) / 153) 0
      (omega arith) (civil_year-lt doe (omega arith)) refl

-- Before the year 10000, `parse_epoch_timestamp` reads a slug of `format_epoch_slug` back to the
-- second.
pub parse-format_slug :
    (secs : ℕ)
    → secs < latest
    → parse_epoch_timestamp (format_epoch_slug secs) ≡ returns (some secs)
parse-format_slug secs h =
    let c = civil_of_days (secs / 86400) in
    let t = secs % 86400 in
    let v = civil-IsDateOf (secs / 86400) in
    let small = year_below (secs / 86400) (omega arith) in
    ap parse_epoch_timestamp (format-slug_of secs small)
    ∙ (parse_slug-eq c.year c.month c.day (t / 3600) (t % 3600 / 60) (t % 60)
        ∙ (parse_slug-slug_of c.year c.month c.day (t / 3600) (t % 3600 / 60) (t % 60) small
              (omega (arith, v.month_in)) (omega (arith, v.day_in)) (omega arith) (omega arith)
              (omega arith)
            ∙ ap returns (epoch-civil secs)))

not_dash : (n : ℕ) → nat_eq (digit n) b'-' ≡ false
not_dash n = ground arith

-- A slug of `format_epoch_slug` before the year 10000.
pub record IsSlug (s : Text) : Type 0 where
  pub head : ℕ
  pub tail : Text
  pub parts : s ≡ head ∷ tail
  pub low : head ≤ b'9'
  pub no_dash : Without b'-' (head ∷ tail)
  pub size : length tail ≡ 14

pub format-IsSlug : (secs : ℕ) → secs < latest → IsSlug (format_epoch_slug secs)
format-IsSlug secs h =
    let c = civil_of_days (secs / 86400) in
    let t = secs % 86400 in
    let y = c.year in
    record {
      head = digit (y / 10 / 10 / 10);
      tail =
          digit (y / 10 / 10)
          ∷ digit (y / 10)
          ∷ digit y
          ∷ digit (c.month / 10)
          ∷ digit c.month
          ∷ digit (c.day / 10)
          ∷ digit c.day
          ∷ b'_'
          ∷ digit (t / 3600 / 10)
          ∷ digit (t / 3600)
          ∷ digit (t % 3600 / 60 / 10)
          ∷ digit (t % 3600 / 60)
          ∷ digit (t % 60 / 10)
          ∷ digit (t % 60)
          ∷ [];
      parts = format-slug_of secs (year_below (secs / 86400) (omega arith));
      low = omega arith;
      no_dash = (
        not_dash _,
        (
          not_dash _,
          (
            not_dash _,
            (
              not_dash _,
              (
                not_dash _,
                (
                  not_dash _,
                  (
                    not_dash _,
                    (
                      not_dash _,
                      (
                        refl,
                        (
                          not_dash _,
                          (not_dash _, (not_dash _, (not_dash _, (not_dash _, (not_dash _, tt))))),
                        ),
                      ),
                    ),
                  ),
                ),
              ),
            ),
          ),
        ),
      );
      size = refl;
    }
