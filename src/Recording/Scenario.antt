-- ===== src/Recording/Scenario.antt =====
-- A short recording with one rotation, and the theorems on names and on the writer at it.
use pg_lens.Prelude.{
  ℕ, ◌≡◌, ◌≤◌, ◌<◌, refl, inl, inr, Bool, true, false, none, some, List, [], ◌∷◌, arith,
}
use pg_lens.Prelude.Text.{Text, codes}
use pg_lens.Recording.Dates.{
  returns, panics, parse_epoch_timestamp, format_epoch_slug, format_epoch_display,
  format_duration_secs, latest,
}
use pg_lens.Recording.Dates.Slug.{parse-format_slug}
use pg_lens.Recording.Names.{
  recording, open_name, closed_name, parse_recording_filename, split_once_at,
}
use pg_lens.Recording.Names.Parse.{filename_roundtrip}
use pg_lens.Recording.Writer.{
  Answers, RecordingWriter, create_in_full, append, rotate, finish, done, new_writer, join,
  create_sink, open_next, write_line, count_frame, rename, then_write,
}
use pg_lens.Recording.Writer.Files.{Succeeds}
use pg_lens.Recording.Writer.Session.{IsKept, record_all, IsPaced, recording_complete}

-- 2024-02-29 23:59:59
abbrev leap : ℕ
leap = 1709251199

leap_slug : format_epoch_slug leap ≡ codes "20240229_235959"
unfolding format_epoch_slug
leap_slug = refl

leap_display : format_epoch_display leap ≡ codes "2024-02-29 23:59:59"
unfolding format_epoch_display
leap_display = refl

short : format_duration_secs 3725 ≡ codes "1h 02m 05s"
unfolding format_duration_secs
short = refl

-- A name of fifteen bytes with "é" at its fourth byte: the slice ends inside the character.
accented :
    parse_epoch_timestamp (0x31 ∷ 0x32 ∷ 0x33 ∷ 0xc3 ∷ 0xa9 ∷ 0x36 ∷ 0x37 ∷ 0x38 ∷ codes "_123456")
    ≡ panics
unfolding parse_epoch_timestamp
accented = refl

parse-format_slug_example :
    parse_epoch_timestamp (format_epoch_slug 1709251199) ≡ returns (some 1709251199)
parse-format_slug_example = parse-format_slug 1709251199 (omega arith)

abbrev letters : ℕ → Bool
letters c = true

abbrev at : ℕ → Answers
at now = record {
  now = now;
  create_dir_error = none;
  create_error = none;
  write_error = none;
  finish_error = none;
  can_rename = true;
}

succeeds : (now : ℕ) → now < latest → Succeeds (at now)
succeeds now h = record {
  creates = refl;
  writes = refl;
  finishes = refl;
  renames = refl;
  early = h;
}

-- The name of the target is "db", that of the directory "r".
filename_roundtrip_example :
    (parse_recording_filename (open_name (codes "db") 100 true)
      ≡ returns
          (record { target = codes "db"; kind = recording; started = some 100; ended = none }))
    × (parse_recording_filename (closed_name (codes "db") 100 160 true)
        ≡ returns (record {
          target = codes "db";
          kind = recording;
          started = some 100;
          ended = some 160;
        }))
unfolding split_once_at
filename_roundtrip_example =
    filename_roundtrip (codes "db") 100 160 true refl (omega arith) (omega arith)

abbrev first_path : Text
unfolding open_name join
first_path = join (codes "r") (open_name (codes "db") 100 false)

abbrev writer : RecordingWriter
unfolding open_name join
writer = new_writer (codes "db") (codes "r") 8 false 100 false first_path

-- Two frames of five bytes each, of which the second does not fit into the first file.
abbrev frames : List (Answers × Text)
frames = (at 100, codes "aaaa") ∷ (at 101, codes "bbbb") ∷ []

created :
    create_in_full letters (at 100) (codes "db") (codes "r") 8 false []
    ≡ done (writer, (first_path, []) ∷ [])
unfolding create_in_full create_sink writer first_path
created = refl

paced : IsPaced frames writer ((first_path, []) ∷ [])
unfolding append rotate open_next create_sink rename write_line count_frame then_write
paced = (succeeds 100 (omega arith), inl refl, (succeeds 101 (omega arith), inr (omega arith), tt))

in_order : (record_all frames writer ((first_path, []) ∷ [])).1.current_file_start_secs ≤ 102
unfolding record_all append rotate open_next create_sink rename write_line count_frame then_write
in_order = omega arith

recording_complete_example :
    (let r = record_all frames writer ((first_path, []) ∷ []) in
      let f = finish (at 102) r.1 r.2 in
      (r.0 ≡ done tt)
      × (f.0 ≡ done (f.1.path, 2, 10))
      × (f.1.max_bytes ≡ 8)
      × IsKept (codes "aaaa" ∷ codes "bbbb" ∷ []) f.1 f.2)
recording_complete_example =
    recording_complete letters (at 100) (at 102) (codes "db") (codes "r") 8 false []
      ((first_path, []) ∷ []) writer frames created (omega arith) paced (succeeds 102 (omega arith))
      in_order
