-- ===== src/Recording/Writer/Files.antt =====
-- A session of the writer in recording.rs whose calls to the operating system succeed: where its
-- frames are.
use pg_lens.Prelude.{
  ℕ, ◌+◌, ◌≤◌, ◌<◌, ◌≡◌, ◌≢◌, ◌∙◌, ◌⊎◌, true, false, none, some, List, [], ◌∷◌, ◌++◌, length, arith,
  All,
}
use pg_lens.Prelude.Text.{Text, Text_eq}
use pg_lens.Prelude.Map
use pg_lens.Prelude.Map.{Assoc, get-insert_self, get-insert_other, get-remove_other}
use pg_lens.Recording.Dates.{latest}
use pg_lens.Recording.Names.{open_name, closed_name}
use pg_lens.Recording.Names.Distinct.{join_injective, closed_name-ne, open_name-ne-closed_name}
use pg_lens.Recording.Writer.{Answers, Disk, RecordingWriter, join, line_bytes}

-- Calls that succeed, at a time before the year 10000.
pub record Succeeds (os : Answers) : Type 0 where
  pub creates : os.create_error ≡ none
  pub writes : os.write_error ≡ none
  pub finishes : os.finish_error ≡ none
  pub renames : os.can_rename ≡ true
  pub early : os.now < latest

-- A file that is closed: its start, its end and its lines.
abbrev pub Closed : Type 0
Closed = ℕ × ℕ × List Text

abbrev pub closed_path : RecordingWriter → Closed → Text
closed_path w (s, e, ls) = join w.dir (closed_name w.target s e w.compress)

-- The lines of closed files, of which the last one stands first.
abbrev pub joined : List Closed → List Text
joined [] = []
joined ((s, e, ls) ∷ fs) = joined fs ++ ls

abbrev pub bytes : List Text → ℕ
bytes [] = 0
bytes (l ∷ ls) = line_bytes l + bytes ls

pub bytes-append : (ls ks : List Text) → bytes (ls ++ ks) ≡ bytes ls + bytes ks
bytes-append [] ks = omega arith
bytes-append (l ∷ ls) ks = omega (arith, bytes-append ls ks)

-- Each closed file was begun before the one that was closed after it.
abbrev pub Older : ℕ → List Closed → Type 0
Older bound [] = Unit
Older bound ((s, e, ls) ∷ fs) = (s < bound) × Older s fs

-- The size of a file is within the limit, or the file is a single line.
abbrev pub Fits : ℕ → List Text → Type 0
Fits max_bytes ls = (max_bytes ≡ 0) ⊎ ((bytes ls ≤ max_bytes) ⊎ (length ls ≤ 1))

-- The writer has written `lines`, and the disk has them.
pub record HasWritten (lines : List Text) (w : RecordingWriter) (disk : Disk) : Type 0 where
  pub closed : List Closed
  pub current : List Text
  pub complete : joined closed ++ current ≡ lines
  pub started : w.current_file_start_secs < latest
  pub older : Older w.current_file_start_secs closed
  pub named : w.path ≡ join w.dir (open_name w.target w.current_file_start_secs w.compress)
  pub is_open : w.sink_open ≡ true
  pub has_current : Map.get w.path disk ≡ some current
  pub has_closed : All (λ (c : Closed). Map.get (closed_path w c) disk ≡ some c.2) closed
  pub fits_current : Fits w.max_bytes current
  pub fits_closed : All (λ (c : Closed). Fits w.max_bytes c.2) closed
  pub counted : w.bytes_written ≡ bytes current
  pub frames : w.total_session_frames ≡ length lines
  pub size : w.total_session_bytes ≡ bytes lines
  pub standard : w.is_custom_path ≡ false

module _ (w : RecordingWriter) where
  -- Nothing is put at the path of a closed file.
  abbrev pub Spares : Text → List Closed → Type 0
  Spares p fs = All (λ (c : Closed). p ≢ closed_path w c) fs

  pub open-Spares :
      (n bound : ℕ) (fs : List Closed)
      → n < latest
      → bound < latest
      → Older bound fs
      → Spares (join w.dir (open_name w.target n w.compress)) fs
  open-Spares n bound [] hn hb o = tt
  open-Spares n bound ((s, e, ls) ∷ fs) hn hb o = (
    λ same.
        open_name-ne-closed_name w.target n s e w.compress hn (omega (arith, o.0))
          (join_injective w.dir same),
    open-Spares n s fs hn (omega (arith, o.0)) o.1,
  )

  pub closed-Spares :
      (start now bound : ℕ) (fs : List Closed)
      → start < latest
      → bound ≤ start
      → Older bound fs
      → Spares (join w.dir (closed_name w.target start now w.compress)) fs
  closed-Spares start now bound [] hn hb o = tt
  closed-Spares start now bound ((s, e, ls) ∷ fs) hn hb o = (
    λ same.
        closed_name-ne w.target start s now e w.compress hn (omega (arith, o.0))
          (λ q. absurd (omega (arith, q, o.0))) (join_injective w.dir same),
    closed-Spares start now s fs hn (omega (arith, o.0)) o.1,
  )

  abbrev pub Kept : Disk → List Closed → Type 0
  Kept disk fs = All (λ (c : Closed). Map.get (closed_path w c) disk ≡ some c.2) fs

  pub insert-Kept :
      (p : Text) (ls : List Text) (disk : Disk) (fs : List Closed)
      → Spares p fs
      → Kept disk fs
      → Kept (Map.insert p ls disk) fs
  insert-Kept p ls disk [] sp k = tt
  insert-Kept p ls disk (c ∷ fs) sp k =
      (get-insert_other ls disk sp.0 ∙ k.0, insert-Kept p ls disk fs sp.1 k.1)

  pub remove-Kept :
      (p : Text) (disk : Disk) (fs : List Closed)
      → Spares p fs
      → Kept disk fs
      → Kept (Map.remove p disk) fs
  remove-Kept p disk [] sp k = tt
  remove-Kept p disk (c ∷ fs) sp k =
      (get-remove_other disk sp.0 ∙ k.0, remove-Kept p disk fs sp.1 k.1)
