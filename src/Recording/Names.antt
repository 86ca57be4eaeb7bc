-- ===== src/Recording/Names.antt =====
-- The names of recorded files in crates/pg_lens_core/src/recording.rs: `sanitize_target_name`,
-- `parse_recording_filename` and the names that the writer of the same file gives. A file name is
-- the list of its bytes, since the dates in it are cut out by bytes; the code cuts what stands
-- between a prefix and a suffix out of a name, which cannot overlap for those that it looks for.
pub mod Parse
pub mod Distinct
use pg_lens.Prelude.{
  ℕ, ◌+◌, ◌-◌, Bool, true, false, not, ◌&&◌, ◌||◌, Option, none, some, List, [], ◌∷◌, ◌++◌, map,
  length, take, drop, is_some, is_empty, unwrap_or, nat_eq, if◌then◌else◌,
}
use pg_lens.Prelude.Text.{Text, codes, strip_prefix, strip_suffix, starts_with}
use pg_lens.Recording.Dates.{Call, returns, panics, parse_epoch_timestamp, format_epoch_slug}

-- `c.is_alphanumeric()` is a parameter: it is a table of Unicode.
unfoldable pub sanitize_target_name : (ℕ → Bool) → Text → Text
sanitize_target_name is_alphanumeric target =
    let sanitized =
      map (λ c. if is_alphanumeric c || (nat_eq c b'-' || nat_eq c b'_') then c else b'_') target in
    if is_empty sanitized then codes "postgres" else sanitized

pub data RecordingKind : Type 0 where
  recording bookmark : RecordingKind

-- What `parse_recording_filename` returns.
pub record Parsed : Type 0 where
  pub target : Text
  pub kind : RecordingKind
  pub started : Option ℕ
  pub ended : Option ℕ

abbrev pub ends_with : Text → Text → Bool
unfolding strip_suffix
ends_with p s = is_some (strip_suffix p s)

-- `s[a..s.len() - b]`
abbrev pub middle : ℕ → ℕ → Text → Text
middle a b s = take (length s - b - a) (drop a s)

-- `str::rsplit_once` at a character
unfoldable pub rsplit_once : ℕ → Text → Option (Text × Text)
rsplit_once d [] = none
rsplit_once d (c ∷ s) = elim (rsplit_once d s) [
  | some (a, b) ↦ some (c ∷ a, b)
  | none ↦ if nat_eq c d then some ([], s) else none
]

-- `str::split_once` at a text
unfoldable pub split_once_at : Text → Text → Option (Text × Text)
unfolding strip_prefix
split_once_at p [] = none
split_once_at p (c ∷ s) = elim (strip_prefix p (c ∷ s)) [
  | some b ↦ some ([], b)
  | none ↦ elim (split_once_at p s) [ none ↦ none | some (a, b) ↦ some (c ∷ a, b) ]
]

abbrev pub to_mark : Text
to_mark = codes "-to-"

abbrev parsed : Text → RecordingKind → Option ℕ → Option ℕ → Call Parsed
parsed target kind started ended =
    returns (record { target = target; kind = kind; started = started; ended = ended })

-- A call of `parse_epoch_timestamp`, and what is done with its result.
abbrev pub with_date : Text → (Option ℕ → Call Parsed) → Call Parsed
with_date s rest = elim (parse_epoch_timestamp s) [ panics ↦ panics | returns t ↦ rest t ]

unfoldable pub parse_bookmark : Text → Call Parsed
unfolding rsplit_once parse_epoch_timestamp
parse_bookmark stem = elim (rsplit_once b'-' stem) [
  | some (target, date) ↦ with_date date λ t. parsed target bookmark t t
  | none ↦ parsed stem bookmark none none
]

unfoldable pub parse_recording : Text → Call Parsed
unfolding rsplit_once split_once_at parse_epoch_timestamp
parse_recording stem = elim (split_once_at to_mark stem) [
  | some (before_to, end_date) ↦ with_date end_date λ end_ts. elim (rsplit_once b'-' before_to) [
    | some (target, start_date) ↦
        with_date start_date λ start_ts. parsed target recording start_ts end_ts
    | none ↦ parsed before_to recording none end_ts
  ]
  | none ↦ elim (rsplit_once b'-' stem) [
    | some (target, start_date) ↦
        with_date start_date λ start_ts. parsed target recording start_ts none
    | none ↦ parsed stem recording none none
  ]
]

unfoldable pub parse_recording_filename : Text → Call Parsed
unfolding strip_prefix strip_suffix parse_bookmark parse_recording
parse_recording_filename filename =
    let name = unwrap_or (strip_suffix (codes ".gz") filename) filename in
    if starts_with (codes "snapshot-") name && ends_with (codes ".json") name
    then parse_bookmark (middle 9 5 name)
    else if starts_with (codes "rec-") name && ends_with (codes ".jsonl") name
    then parse_recording (middle 4 6 name)
    else parsed filename recording none none

-- The names that the writer gives: `format!` in `create_in_full`, `rotate` and `finish`.
abbrev pub file_extension : Bool → Text
file_extension true = codes "jsonl.gz"
file_extension false = codes "jsonl"

unfoldable pub open_name : Text → ℕ → Bool → Text
unfolding format_epoch_slug
open_name target start compress =
    codes "rec-" ++ (target ++ b'-' ∷ (format_epoch_slug start ++ b'.' ∷ file_extension compress))

unfoldable pub closed_name : Text → ℕ → ℕ → Bool → Text
unfolding format_epoch_slug
closed_name target start end compress =
    codes "rec-"
    ++ (target
        ++ b'-'
          ∷ (format_epoch_slug start
              ++ (to_mark ++ (format_epoch_slug end ++ b'.' ∷ file_extension compress))))

-- `export_snapshot_to`
unfoldable pub snapshot_name : Text → ℕ → Text
unfolding format_epoch_slug
snapshot_name target now =
    codes "snapshot-" ++ (target ++ b'-' ∷ (format_epoch_slug now ++ codes ".json"))
