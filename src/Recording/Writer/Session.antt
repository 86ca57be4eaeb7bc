-- ===== src/Recording/Writer/Session.antt =====
-- A whole recording: `create_in_full`, any number of calls of `append`, and `finish`.
use pg_lens.Prelude.{
  ℕ, ◌≤◌, ◌<◌, ◌≡◌, refl, sym, ap, ◌∙◌, ◌⊎◌, inr, Bool, true, false, Option, none, some, List, [],
  ◌∷◌, ◌++◌, arith, All, append_assoc, append-nil, length, if-both, not, ◌&&◌, leb,
}
use mathlib.Core.Path.{subst}
use pg_lens.Prelude.Text.{Text, Text_eq}
use pg_lens.Prelude.Map
use pg_lens.Prelude.Map.{get-insert_self}
use pg_lens.Recording.Dates.{latest}
use pg_lens.Recording.Names.{closed_name, open_name, sanitize_target_name}
use pg_lens.Recording.Writer.{
  open_next, rotate, write_line, count_frame, then_write, Answers, Disk, RecordingWriter, join, Io,
  done, fails, append, finish, stamp, create_in_full, is_full, rename, create_sink, new_writer,
}
use pg_lens.Recording.Writer.Files.{
  Succeeds, Closed, joined, bytes, Fits, HasWritten, closed_path, Kept, Spares, open-Spares,
  closed-Spares, insert-Kept, remove-Kept,
}
use pg_lens.Recording.Writer.Steps.{append-Wrote}

-- Frames appended one after the other, up to a call that fails.
unfoldable pub record_all :
    List (Answers × Text) → RecordingWriter → Disk → Io (Unit {0}) × RecordingWriter × Disk
record_all [] w disk = (done tt, w, disk)
record_all ((os, line) ∷ es) w disk =
    let r = append os (some line) w disk in
    elim r.0 [ fails e ↦ (fails e, r.1, r.2) | done _ ↦ record_all es r.1 r.2 ]

-- The calls of the system succeed, and a file that is full was begun before the current second.
abbrev pub IsPaced : List (Answers × Text) → RecordingWriter → Disk → Type 0
IsPaced [] w disk = Unit
IsPaced ((os, line) ∷ es) w disk =
    Succeeds os
    × ((is_full line w ≡ false) ⊎ (w.current_file_start_secs < os.now))
    × IsPaced es (append os (some line) w disk).1 (append os (some line) w disk).2

abbrev pub lines_of : List (Answers × Text) → List Text
lines_of [] = []
lines_of ((os, line) ∷ es) = line ∷ lines_of es

record_all-Wrote :
    (es : List (Answers × Text)) (lines : List Text) (w : RecordingWriter) (disk : Disk)
    → HasWritten lines w disk
    → IsPaced es w disk
    → ((record_all es w disk).0 ≡ done tt)
      × HasWritten (lines ++ lines_of es) (record_all es w disk).1 (record_all es w disk).2
unfolding record_all
record_all-Wrote [] lines w disk h paced =
    (refl, subst (λ ls. HasWritten ls w disk) (sym (append-nil lines)) h)
record_all-Wrote ((os, line) ∷ es) lines w disk h paced =
    let step = append-Wrote os line lines w disk h paced.0 paced.1 in
    let r = append os (some line) w disk in
    let rest = record_all-Wrote es (lines ++ line ∷ []) r.1 r.2 step.1 paced.2 in
    let eq : record_all ((os, line) ∷ es) w disk ≡ record_all es r.1 r.2 =
      rw (record_all, step.0.1) refl in
    (
      ap (λ (t : Io (Unit {0}) × RecordingWriter × Disk). t.0) eq ∙ rest.0,
      subst
          (λ (t : Io (Unit {0}) × RecordingWriter × Disk).
            HasWritten (lines ++ line ∷ lines_of es) t.1 t.2)
          (sym eq)
          (subst (λ ls. HasWritten ls (record_all es r.1 r.2).1 (record_all es r.1 r.2).2)
            (append_assoc lines (line ∷ []) (lines_of es)) rest.1),
    )

-- A fresh writer with the file that it made.
HasWritten-new :
    (target dir : Text) (max_bytes now : ℕ) (compress : Bool) (disk : Disk)
    → now < latest
    → (let path = join dir (open_name target now compress) in
        HasWritten []
          (new_writer target dir max_bytes compress now false path)
          (Map.insert path [] disk))
HasWritten-new target dir max_bytes now compress disk early =
    let path = join dir (open_name target now compress) in
    record {
      closed = [];
      current = [];
      complete = refl;
      started = early;
      older = tt;
      named = refl;
      is_open = refl;
      has_current = get-insert_self path [] disk;
      has_closed = tt;
      fits_current = inr (inr (omega arith));
      fits_closed = tt;
      counted = refl;
      frames = refl;
      size = refl;
      standard = refl;
    }

create-HasWritten :
    (is_alphanumeric : ℕ → Bool) (os : Answers) (label dir : Text) (max_bytes : ℕ) (compress : Bool)
    (disk disk' : Disk) (w : RecordingWriter)
    → create_in_full is_alphanumeric os label dir max_bytes compress disk ≡ done (w, disk')
    → os.now < latest
    → HasWritten [] w disk'
unfolding create_in_full create_sink
create-HasWritten is_alphanumeric os label dir max_bytes compress disk disk' w h early =
    let target = sanitize_target_name is_alphanumeric label in
    let path = join dir (open_name target os.now compress) in
    let made : ◌≡◌ {A = RecordingWriter × Disk}
        (new_writer target dir max_bytes compress os.now false path, Map.insert path [] disk)
        (w, disk') =
      ground arith in
    subst (λ (r : RecordingWriter × Disk). HasWritten [] r.0 r.1) made
      (HasWritten-new target dir max_bytes os.now compress disk early)

-- The files of a finished recording, from the last to the first: which they are, that each is on
-- the disk with its lines, that the writer's path is the name that the last one got when it was
-- closed, and how long each is.
pub record IsKept (lines : List Text) (w : RecordingWriter) (disk : Disk) : Type 0 where
  pub files : List Closed
  pub complete : joined files ≡ lines
  pub last :
      (c : Closed) × (before : List Closed) × (files ≡ c ∷ before) × (w.path ≡ closed_path w c)
  pub kept : Kept w disk files
  pub fits : All (λ (c : Closed). Fits w.max_bytes c.2) files

rename_lem :
    (os : Answers) (from to : Text) (disk : Disk) (file : List Text)
    → Map.get from disk ≡ some file
    → os.can_rename ≡ true
    → rename os from to disk ≡ some (Map.insert to file (Map.remove from disk))
unfolding rename
rename_lem os from to disk file has can = ground arith

stamp_lem :
    (os : Answers) (w : RecordingWriter) (disk : Disk)
    → os.can_rename ≡ true
    → w.current_file_start_secs ≤ os.now
    → w.is_custom_path ≡ false
    → (file : List Text) → Map.get w.path disk ≡ some file
    → (let final = join w.dir (closed_name w.target w.current_file_start_secs os.now w.compress) in
        stamp os w disk
        ≡ (record w { path = final }, Map.insert final file (Map.remove w.path disk)))
unfolding stamp
stamp_lem os w disk can later standard file has =
    let final = join w.dir (closed_name w.target w.current_file_start_secs os.now w.compress) in
    let test : (not w.is_custom_path && leb w.current_file_start_secs os.now) ≡ true =
      ground arith in
    rw (stamp, test, rename_lem os w.path final disk file has can) refl

finish_lem :
    (os : Answers) (w : RecordingWriter) (disk : Disk)
    → os.finish_error ≡ none
    → (r : RecordingWriter × Disk) → stamp os (record w { sink_open = false }) disk ≡ r
    → finish os w disk
      ≡ (done (r.0.path, r.0.total_session_frames, r.0.total_session_bytes), r.0, r.1)
unfolding finish
finish_lem os w disk ok r e = ground arith

finish-IsKept :
    (os : Answers) (lines : List Text) (w : RecordingWriter) (disk : Disk)
    → HasWritten lines w disk
    → Succeeds os
    → w.current_file_start_secs ≤ os.now
    → (let f = finish os w disk in
        (f.0 ≡ done (f.1.path, length lines, bytes lines))
        × (f.1.max_bytes ≡ w.max_bytes)
        × IsKept lines f.1 f.2)
finish-IsKept os lines w disk h ok later =
    let start = w.current_file_start_secs in
    let final = join w.dir (closed_name w.target start os.now w.compress) in
    let removed = Map.remove w.path disk in
    let stamped =
      stamp_lem os (record w { sink_open = false }) disk ok.renames later h.standard h.current
        h.has_current in
    let done_as = finish_lem os w disk ok.finishes _ stamped in
    subst
      (λ (f : Io (Text × ℕ × ℕ) × RecordingWriter × Disk).
        (f.0 ≡ done (f.1.path, length lines, bytes lines))
        × (f.1.max_bytes ≡ w.max_bytes)
        × IsKept lines f.1 f.2)
      (sym done_as)
      (
        ap (λ (n : ℕ × ℕ). done (final, n.0, n.1)) (cc (h.frames, h.size)),
        refl,
        record {
          files = (start, os.now, h.current) ∷ h.closed;
          complete = h.complete;
          last = ((start, os.now, h.current), h.closed, refl, refl);
          kept = (
            get-insert_self final h.current removed,
            insert-Kept w final h.current removed h.closed
                (closed-Spares w start os.now start h.closed h.started (omega arith) h.older)
                (remove-Kept w w.path disk h.closed
                  (subst (λ p. Spares w p h.closed) (sym h.named)
                    (open-Spares w start start h.closed h.started h.started h.older))
                  h.has_closed),
          );
          fits = (h.fits_current, h.fits_closed);
        },
      )

open_next-limit :
    (os : Answers) (w : RecordingWriter) (disk : Disk)
    → (open_next os w disk).1.max_bytes ≡ w.max_bytes
unfolding open_next
open_next-limit os w disk = ground arith

rotate-limit :
    (os : Answers) (w : RecordingWriter) (disk : Disk)
    → (rotate os w disk).1.max_bytes ≡ w.max_bytes
unfolding rotate
rotate-limit os w disk = ground (arith, open_next-limit os w disk)

write_line-limit :
    (os : Answers) (line : Text) (rotated : Option Text) (w : RecordingWriter) (disk : Disk)
    → (write_line os line rotated w disk).1.max_bytes ≡ w.max_bytes
unfolding write_line count_frame
write_line-limit os line rotated w disk = ground arith

then_write-limit :
    (os : Answers) (line : Text) (r : Io Text × RecordingWriter × Disk)
    → (then_write os line r).1.max_bytes ≡ r.1.max_bytes
unfolding then_write write_line
then_write-limit os line (fails e, w, disk) = refl
then_write-limit os line (done p, w, disk) = write_line-limit os line (some p) w disk

append-limit :
    (os : Answers) (line : Text) (w : RecordingWriter) (disk : Disk)
    → (append os (some line) w disk).1.max_bytes ≡ w.max_bytes
unfolding append
append-limit os line w disk =
    if-both (λ (r : Io (Option Text) × RecordingWriter × Disk). r.1.max_bytes ≡ w.max_bytes)
      (is_full line w) (then_write-limit os line (rotate os w disk) ∙ rotate-limit os w disk)
      (write_line-limit os line none w disk)

record_all-limit :
    (es : List (Answers × Text)) (w : RecordingWriter) (disk : Disk)
    → (record_all es w disk).1.max_bytes ≡ w.max_bytes
unfolding record_all
record_all-limit [] w disk = refl
record_all-limit ((os, line) ∷ es) w disk =
    let r = append os (some line) w disk in
    ground (arith, append-limit os line w disk, record_all-limit es r.1 r.2)

create-limit :
    (is_alphanumeric : ℕ → Bool) (os : Answers) (label dir : Text) (max_bytes : ℕ) (compress : Bool)
    (disk disk' : Disk) (w : RecordingWriter)
    → create_in_full is_alphanumeric os label dir max_bytes compress disk ≡ done (w, disk')
    → w.max_bytes ≡ max_bytes
unfolding create_in_full create_sink
create-limit is_alphanumeric os label dir max_bytes compress disk disk' w h = ground arith

-- A recording whose calls to the operating system succeed, each file of which is closed at a later
-- second than it was begun, ends, and loses no frame: its files are on the disk, their lines in
-- order are those that were appended, each file stays within the limit unless it has one line
-- only, and `finish` returns the path that the last file got when it was closed, with the frames and
-- bytes of the session.
pub recording_complete :
    (is_alphanumeric : ℕ → Bool) (os os' : Answers) (label dir : Text) (max_bytes : ℕ)
    (compress : Bool) (disk disk' : Disk) (w : RecordingWriter) (es : List (Answers × Text))
    → create_in_full is_alphanumeric os label dir max_bytes compress disk ≡ done (w, disk')
    → os.now < latest
    → IsPaced es w disk'
    → Succeeds os'
    → (record_all es w disk').1.current_file_start_secs ≤ os'.now
    → (let r = record_all es w disk' in
        let f = finish os' r.1 r.2 in
        (r.0 ≡ done tt)
        × (f.0 ≡ done (f.1.path, length (lines_of es), bytes (lines_of es)))
        × (f.1.max_bytes ≡ max_bytes)
        × IsKept (lines_of es) f.1 f.2)
recording_complete is_alphanumeric os os' label dir max_bytes compress disk disk' w es made early
      paced ok later =
    let h =
      create-HasWritten is_alphanumeric os label dir max_bytes compress disk disk' w made early in
    let r = record_all-Wrote es [] w disk' h paced in
    let s = record_all es w disk' in
    let f = finish-IsKept os' (lines_of es) s.1 s.2 r.1 ok later in
    (
      r.0,
      f.0,
      f.1
          ∙ (record_all-limit es w disk'
              ∙ create-limit is_alphanumeric os label dir max_bytes compress disk disk' w made),
      f.2,
    )
