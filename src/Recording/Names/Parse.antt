-- ===== src/Recording/Names/Parse.antt =====
-- The names that the writer of recording.rs gives, read back by `parse_recording_filename`.
use mathlib.Core.Path.{subst}
use mathlib.Core.List.{reverse, reverse-append, reverse-reverse}
use pg_lens.Prelude.{
  ℕ, ◌≤◌, ◌<◌, ◌≡◌, refl, sym, ap, ◌∙◌, Bool, true, false, Option, none, some, [], ◌∷◌, ◌++◌,
  length, take, arith, nat_eq, append_assoc, length-append,
}
use pg_lens.Prelude.Text.{Text, codes, strip_prefix, strip_suffix, Without}
use pg_lens.Recording.Dates.{returns, latest, format_epoch_slug}
use pg_lens.Recording.Dates.Slug.{parse-format_slug, format-IsSlug}
use pg_lens.Recording.Names.{
  Parsed, recording, to_mark, middle, rsplit_once, split_once_at, parse_recording,
  parse_recording_filename, open_name, closed_name, with_date,
}

strip_prefix-append : (p s : Text) → strip_prefix p (p ++ s) ≡ some s
unfolding strip_prefix
strip_prefix-append [] s = refl
strip_prefix-append (c ∷ p) s = ground (arith, strip_prefix-append p s)

strip_suffix-append : (p s : Text) → strip_suffix p (s ++ p) ≡ some s
unfolding strip_suffix
strip_suffix-append p s =
    rw
      (
        strip_suffix,
        reverse-append s p,
        strip_prefix-append (reverse p) (reverse s),
        reverse-reverse s,
      )
      refl

take-append : (s t : Text) → take (length s) (s ++ t) ≡ s
take-append [] t = refl
take-append (c ∷ s) t = ap (λ r. c ∷ r) (take-append s t)

rsplit_once-none : (d : ℕ) (s : Text) → Without d s → rsplit_once d s ≡ none
unfolding rsplit_once
rsplit_once-none d [] h = refl
rsplit_once-none d (c ∷ s) h = rw (rsplit_once-none d s h.1, h.0) refl

rsplit_once-append : (d : ℕ) (a b : Text) → Without d b → rsplit_once d (a ++ d ∷ b) ≡ some (a, b)
unfolding rsplit_once
rsplit_once-append d [] b h = rw (rsplit_once-none d b h) (ground arith)
rsplit_once-append d (c ∷ a) b h = rw (rsplit_once-append d a b h) refl

-- `to_mark` cannot begin at a byte that is no dash, nor can it go on with one.
no_mark : (c : ℕ) (s : Text) → nat_eq c b'-' ≡ false → strip_prefix to_mark (c ∷ s) ≡ none
unfolding strip_prefix
no_mark c s h = ground arith

split_once_at-skip :
    (s rest : Text)
    → Without b'-' s
    → split_once_at to_mark (s ++ (to_mark ++ rest)) ≡ some (s, rest)
unfolding split_once_at
split_once_at-skip [] rest h = refl
split_once_at-skip (c ∷ s) rest h =
    ground (arith, no_mark c (s ++ (to_mark ++ rest)) h.0, split_once_at-skip s rest h.1)

module _ (c : ℕ) (w : Text) (low : c ≤ b'9') where
  -- A mark that is not in `v` with a dash behind it is not there either when a digit follows.
  no_mark_before :
      (v : Text)
      → strip_prefix to_mark (v ++ b'-' ∷ []) ≡ none
      → strip_prefix to_mark (v ++ b'-' ∷ (c ∷ w)) ≡ none
  unfolding strip_prefix
  no_mark_before [] h = ground arith
  no_mark_before (v1 ∷ []) h = ground arith
  no_mark_before (v1 ∷ v2 ∷ []) h = ground arith
  no_mark_before (v1 ∷ v2 ∷ v3 ∷ []) h = ground arith
  no_mark_before (v1 ∷ v2 ∷ v3 ∷ v4 ∷ v) h = ground arith

-- What a text without a mark is made of.
no_mark_parts :
    (c : ℕ) (s : Text)
    → split_once_at to_mark (c ∷ s) ≡ none
    → (strip_prefix to_mark (c ∷ s) ≡ none) × (split_once_at to_mark s ≡ none)
unfolding split_once_at
no_mark_parts c s h = ground arith

split_once_at-target :
    (t : Text) (c : ℕ) (s rest : Text)
    → split_once_at to_mark (t ++ b'-' ∷ []) ≡ none
    → c ≤ b'9'
    → Without b'-' (c ∷ s)
    → split_once_at to_mark (t ++ b'-' ∷ ((c ∷ s) ++ (to_mark ++ rest)))
      ≡ some (t ++ b'-' ∷ (c ∷ s), rest)
unfolding split_once_at
split_once_at-target [] c s rest h low w =
    ground
      (arith, no_mark_before c (s ++ (to_mark ++ rest)) low [], split_once_at-skip (c ∷ s) rest w)
split_once_at-target (d ∷ t) c s rest h low w =
    let parts = no_mark_parts d (t ++ b'-' ∷ []) h in
    ground (
      arith,
      no_mark_before c (s ++ (to_mark ++ rest)) low (d ∷ t) parts.0,
      split_once_at-target t c s rest parts.1 low w,
    )

split_once_at-none : (s : Text) → Without b'-' s → split_once_at to_mark s ≡ none
unfolding split_once_at
split_once_at-none [] w = refl
split_once_at-none (c ∷ s) w = ground (arith, no_mark c s w.0, split_once_at-none s w.1)

split_once_at-target_none :
    (t : Text) (c : ℕ) (s : Text)
    → split_once_at to_mark (t ++ b'-' ∷ []) ≡ none
    → c ≤ b'9'
    → Without b'-' (c ∷ s)
    → split_once_at to_mark (t ++ b'-' ∷ (c ∷ s)) ≡ none
unfolding split_once_at
split_once_at-target_none [] c s h low w =
    ground (arith, no_mark_before c s low [], split_once_at-none (c ∷ s) w)
split_once_at-target_none (d ∷ t) c s h low w =
    let parts = no_mark_parts d (t ++ b'-' ∷ []) h in
    ground
      (arith, no_mark_before c s low (d ∷ t) parts.0, split_once_at-target_none t c s parts.1 low w)

not_gz : (s : Text) → strip_suffix (codes ".gz") (s ++ codes ".jsonl") ≡ none
unfolding strip_suffix strip_prefix
not_gz s = rw (strip_suffix, reverse-append s (codes ".jsonl")) refl

abbrev recording_name : Text → Text
recording_name stem = codes "rec-" ++ (stem ++ codes ".jsonl")

middle_lem : (stem : Text) → middle 4 6 (recording_name stem) ≡ stem
middle_lem stem =
    ap (λ n. take n (stem ++ codes ".jsonl"))
      (omega (arith, length-append {0} stem (codes ".jsonl")))
    ∙ take-append stem (codes ".jsonl")

parse_stem :
    (stem : Text)
    → (parse_recording_filename (recording_name stem) ≡ parse_recording stem)
      × (parse_recording_filename (recording_name stem ++ codes ".gz") ≡ parse_recording stem)
unfolding parse_recording_filename
parse_stem stem = (
  rw
      (
        parse_recording_filename,
        not_gz (codes "rec-" ++ stem),
        strip_suffix-append (codes ".jsonl") (codes "rec-" ++ stem),
        middle_lem stem,
      )
      refl,
  rw
      (
        parse_recording_filename,
        strip_suffix-append (codes ".gz") (recording_name stem),
        strip_suffix-append (codes ".jsonl") (codes "rec-" ++ stem),
        middle_lem stem,
      )
      refl,
)

abbrev parsed_as : Text → ℕ → Option ℕ → Parsed
parsed_as target start end = record {
  target = target;
  kind = recording;
  started = some start;
  ended = end;
}

module _ (target : Text) (start : ℕ) (clean : split_once_at to_mark (target ++ b'-' ∷ []) ≡ none)
    (early : start < latest) where
  parse_open :
      parse_recording (target ++ b'-' ∷ format_epoch_slug start)
      ≡ returns (parsed_as target start none)
  unfolding parse_recording
  parse_open =
      let v = format-IsSlug start early in
      let dash : Without b'-' (format_epoch_slug start) =
        subst (Without b'-') (sym v.parts) v.no_dash in
      rw
        (
          parse_recording,
          ap (λ s. split_once_at to_mark (target ++ b'-' ∷ s)) v.parts
              ∙ split_once_at-target_none target v.head v.tail clean v.low v.no_dash,
          rsplit_once-append b'-' target (format_epoch_slug start) dash,
          with_date,
          parse-format_slug start early,
        )
        refl

  parse_closed :
      (end : ℕ)
      → end < latest
      → parse_recording
          (target ++ b'-' ∷ (format_epoch_slug start ++ (to_mark ++ format_epoch_slug end)))
        ≡ returns (parsed_as target start (some end))
  unfolding parse_recording
  parse_closed end late =
      let v = format-IsSlug start early in
      let s = format_epoch_slug start in
      let e = format_epoch_slug end in
      let dash : Without b'-' s = subst (Without b'-') (sym v.parts) v.no_dash in
      let split : split_once_at to_mark (target ++ b'-' ∷ (s ++ (to_mark ++ e)))
          ≡ some (target ++ b'-' ∷ s, e) =
        subst
          (λ s.
            split_once_at to_mark (target ++ b'-' ∷ (s ++ (to_mark ++ e)))
            ≡ some (target ++ b'-' ∷ s, e))
          (sym v.parts) (split_once_at-target target v.head v.tail e clean v.low v.no_dash) in
      rw
        (
          parse_recording,
          split,
          with_date,
          parse-format_slug end late,
          rsplit_once-append b'-' target s dash,
          with_date,
          parse-format_slug start early,
        )
        refl

-- How the names of the writer are put together.
open_name-eq :
    (t : Text) (s : ℕ)
    → (open_name t s false ≡ recording_name (t ++ b'-' ∷ format_epoch_slug s))
      × (open_name t s true ≡ recording_name (t ++ b'-' ∷ format_epoch_slug s) ++ codes ".gz")
unfolding open_name
open_name-eq t s = (simp append_assoc, simp append_assoc)

closed_name-eq :
    (t : Text) (s e : ℕ)
    → (let stem = t ++ b'-' ∷ (format_epoch_slug s ++ (to_mark ++ format_epoch_slug e)) in
        (closed_name t s e false ≡ recording_name stem)
        × (closed_name t s e true ≡ recording_name stem ++ codes ".gz"))
unfolding closed_name
closed_name-eq t s e = (simp append_assoc, simp append_assoc)

-- For times before the year 10000 and a target that has no "-to-", also not with the dash behind
-- it: the names that `RecordingWriter` gives to an open and to a closed file, compressed or not,
-- are read back by `parse_recording_filename` as the target, the kind, the start and the end.
pub filename_roundtrip :
    (target : Text) (start end : ℕ) (compress : Bool)
    → split_once_at to_mark (target ++ b'-' ∷ []) ≡ none
    → start < latest
    → end < latest
    → (parse_recording_filename (open_name target start compress)
        ≡ returns (parsed_as target start none))
      × (parse_recording_filename (closed_name target start end compress)
          ≡ returns (parsed_as target start (some end)))
filename_roundtrip t s e false clean early late = (
  ap parse_recording_filename (open_name-eq t s).0
      ∙ ((parse_stem _).0 ∙ parse_open t s clean early),
  ap parse_recording_filename (closed_name-eq t s e).0
      ∙ ((parse_stem _).0 ∙ parse_closed t s clean early e late),
)
filename_roundtrip t s e true clean early late = (
  ap parse_recording_filename (open_name-eq t s).1
      ∙ ((parse_stem _).1 ∙ parse_open t s clean early),
  ap parse_recording_filename (closed_name-eq t s e).1
      ∙ ((parse_stem _).1 ∙ parse_closed t s clean early e late),
)
