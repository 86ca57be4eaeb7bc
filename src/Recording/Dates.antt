-- ===== src/Recording/Dates.antt =====
-- The dates of crates/pg_lens_core/src/recording.rs: `format_epoch_slug`, `format_epoch_display`,
-- `format_duration_secs` and `parse_epoch_timestamp`. A text is the list of its bytes here, since
-- the code indexes bytes. The number of days is unsigned, so that the branches for a negative `z`
-- are never taken.
pub mod Civil
pub mod Slug
use pg_lens.Prelude.{
  ℕ, zero, suc, ◌+◌, ◌-◌, ◌*◌, ◌/◌, ◌%◌, Bool, true, false, not, ◌&&◌, ◌||◌, Option, none, some,
  List, [], ◌∷◌, ◌++◌, length, get_elem?, take, drop, nat_eq, ltb, leb, if◌then◌else◌,
}
use pg_lens.Prelude.Int.{ℤ, pos, negsuc, neg, ◌-ℤ◌, ◌+ℤ◌, times, quot, nonneg, max_zero}
use pg_lens.Prelude.Text.{Text, codes, is_digit, scan_digits, parse_unsigned}

-- The digits of a number, none for 0; `fuel` of 20 is enough for 64 bits.
unfoldable pub digits : ℕ → ℕ → Text
digits zero n = []
digits (suc fuel) n =
    let above = digits fuel (n / 10) in if nat_eq n 0 then [] else above ++ (b'0' + n % 10) ∷ []

-- `{n:0w}`: at least `w` digits.
unfoldable pub padded : ℕ → ℕ → Text
unfolding digits
padded zero n = digits 20 n
padded (suc w) n = padded w (n / 10) ++ (b'0' + n % 10) ∷ []

pub record CivilDate : Type 0 where
  pub year : ℕ
  pub month : ℕ
  pub day : ℕ

unfoldable pub civil_year : ℕ → ℕ
civil_year doe = (doe - doe / 1460 + doe / 36524 - doe / 146096) / 365

-- The statements from `days` to `y`, which both functions have.
unfoldable pub civil_of_days : ℕ → CivilDate
unfolding civil_year
civil_of_days days =
    let z = days + 719468 in
    let era = z / 146097 in
    let doe = z - era * 146097 in
    let yoe = civil_year doe in
    let y = yoe + era * 400 in
    let doy = doe - (365 * yoe + yoe / 4 - yoe / 100) in
    let mp = (5 * doy + 2) / 153 in
    let d = doy - (153 * mp + 2) / 5 + 1 in
    let m = if ltb mp 10 then mp + 3 else mp - 9 in
    record { year = if leb m 2 then y + 1 else y; month = m; day = d }

unfoldable pub format_epoch_slug : ℕ → Text
unfolding civil_of_days padded
format_epoch_slug secs =
    let rem_secs = secs % 86400 in
    let date = civil_of_days (secs / 86400) in
    padded 4 date.year
    ++ (padded 2 date.month
        ++ (padded 2 date.day
            ++ b'_'
              ∷ (padded 2 (rem_secs / 3600)
                  ++ (padded 2 (rem_secs % 3600 / 60) ++ padded 2 (rem_secs % 60)))))

unfoldable pub format_epoch_display : ℕ → Text
unfolding civil_of_days padded
format_epoch_display secs =
    let rem_secs = secs % 86400 in
    let date = civil_of_days (secs / 86400) in
    padded 4 date.year
    ++ b'-'
      ∷ (padded 2 date.month
          ++ b'-'
            ∷ (padded 2 date.day
                ++ b' '
                  ∷ (padded 2 (rem_secs / 3600)
                      ++ b':'
                        ∷ (padded 2 (rem_secs % 3600 / 60) ++ b':' ∷ padded 2 (rem_secs % 60)))))

unfoldable pub format_duration_secs : ℕ → Text
unfolding padded
format_duration_secs secs =
    if ltb secs 60
    then padded 1 secs ++ codes "s"
    else if ltb secs 3600
    then padded 1 (secs / 60) ++ (codes "m " ++ (padded 2 (secs % 60) ++ codes "s"))
    else (padded 1 (secs / 3600)
        ++ (codes "h "
            ++ (padded 2 (secs % 3600 / 60)
                ++ (codes "m " ++ (padded 2 (secs % 60) ++ codes "s")))))

-- The first second of the year 10000, from which on a year has five digits.
abbrev pub latest : ℕ
latest = 253402300800

-- What a call of the code can end with: a slice of a text inside a character panics.
pub data Call {ℓ} (A : Type ℓ) : Type ℓ where
  returns : A → Call A
  panics : Call A

-- A byte that continues a character.
abbrev pub continues : Option ℕ → Bool
continues none = false
continues (some c) = leb 0x80 c && ltb c 0xc0

-- `&s[a..b]`, for a text of at least `b` bytes
unfoldable pub slice : ℕ → ℕ → Text → Call Text
slice a b s =
    if continues (get_elem? s a) || continues (get_elem? s b)
    then panics
    else returns (take (b - a) (drop a s))

-- `.parse::<i64>()` of at most 18 bytes, which are below the limit of the type
unfoldable pub parse_signed : Text → Option ℤ
unfolding parse_unsigned scan_digits
parse_signed [] = none
parse_signed (c ∷ s) =
    let minus_sign : Option ℤ =
      elim (if nat_eq (length s) 0 then none else scan_digits 0x7fff_ffff_ffff_ffff s 0) [
        | none ↦ none
        | some n ↦ some (neg n)
      ] in
    let unsigned : Option ℤ = elim (parse_unsigned 0x7fff_ffff_ffff_ffff (c ∷ s)) [
      | none ↦ none
      | some n ↦ some (pos n)
    ] in
    if nat_eq c b'-' then minus_sign else unsigned

abbrev pub u64_max : ℕ
u64_max = 0xffff_ffff_ffff_ffff

-- A field of the text: a slice, its number, and the `?` behind it.
abbrev pub field {ℓ} :
    {A : Type ℓ} → (Text → Option A) → ℕ → ℕ → Text → (A → Call (Option ℕ)) → Call (Option ℕ)
field parse a b s rest = elim (slice a b s) [
  | panics ↦ panics
  | returns t ↦ elim (parse t) [ none ↦ returns none | some n ↦ rest n ]
]

-- The days of a date whose year is counted from March.
unfoldable pub days_from : ℤ → ℕ → ℕ → ℤ
days_from y m d =
    let era = quot (if nonneg y then y else y -ℤ pos 399) 400 in
    let yoe = max_zero (y -ℤ times era 400) in
    let mp = if ltb 2 m then m - 3 else m + 9 in
    let doy = (153 * mp + 2) / 5 + d - 1 in
    let doe = yoe * 365 + yoe / 4 - yoe / 100 + doy in (times era 146097 +ℤ pos doe) -ℤ pos 719468

-- From the fields on: the checks of their ranges, and the count of days.
unfoldable pub epoch_of_civil : ℤ → ℕ → ℕ → ℕ → ℕ → ℕ → Option ℕ
unfolding days_from
epoch_of_civil year m d h min sec =
    let days = days_from (if leb m 2 then year -ℤ pos 1 else year) m d in
    if not (leb 1 m && leb m 12)
      || (not (leb 1 d && leb d 31) || (leb 24 h || (leb 60 min || leb 60 sec)))
    then none
    else if not (nonneg days)
    then none
    else some (max_zero days * 86400 + h * 3600 + min * 60 + sec)

-- The branch of a slug.
unfoldable pub parse_slug : Text → Call (Option ℕ)
unfolding slice parse_signed parse_unsigned scan_digits epoch_of_civil
parse_slug s =
    let two = parse_unsigned u64_max in
    field parse_signed 0 4 s λ y. field two 4 6 s λ m. field two 6 8 s λ d. field two 9 11 s λ h.
      field two 11 13 s λ min. field two 13 15 s λ sec. returns (epoch_of_civil y m d h min sec)

unfoldable pub parse_epoch_timestamp : Text → Call (Option ℕ)
unfolding parse_slug parse_unsigned scan_digits
parse_epoch_timestamp s =
    let separated : Bool = elim (get_elem? s 8) [ none ↦ false | some c ↦ nat_eq c b'_' ] in
    if nat_eq (length s) 15 && separated then parse_slug s else returns (parse_unsigned u64_max s)
