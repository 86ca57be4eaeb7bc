-- ===== src/Recording/Writer/Steps.antt =====
-- One call of `append`, `rotate` or `finish` of the writer in recording.rs, where the operating
-- system refuses nothing.
use mathlib.Core.Path.{subst}
use pg_lens.Prelude.{
  ℕ, ◌+◌, ◌≤◌, ◌<◌, ◌≡◌, refl, sym, ap, ◌∙◌, ◌⊎◌, inl, inr, true, false, Option, none, some, List,
  [], ◌∷◌, ◌++◌, length, arith, append_assoc, length-append, Bool-cases, append-nil,
}
use pg_lens.Prelude.Text.{Text, Text_eq}
use pg_lens.Prelude.Map
use pg_lens.Prelude.Map.{Assoc, get-insert_self, get-insert_other, get-remove_other}
use pg_lens.Recording.Dates.{latest}
use pg_lens.Recording.Names.{open_name, closed_name}
use pg_lens.Recording.Writer.{
  Answers, Disk, RecordingWriter, join, rotate, open_next, append, write_line, count_frame, is_full,
  create_sink, rename, Io, done,
}
use pg_lens.Recording.Writer.Files.{
  Succeeds, Closed, joined, bytes, bytes-append, Fits, HasWritten, Spares, open-Spares,
  closed-Spares, insert-Kept, remove-Kept,
}

-- What the write of `append` does.
write_line_lem :
    (os : Answers) (line : Text) (rotated : Option Text) (w : RecordingWriter) (disk : Disk)
    → os.write_error ≡ none
    → w.sink_open ≡ true
    → (file : List Text) → Map.get w.path disk ≡ some file
    → write_line os line rotated w disk
      ≡ (done rotated, count_frame line w, Map.insert w.path (file ++ line ∷ []) disk)
unfolding write_line
write_line_lem os line rotated w disk ok open_sink file has = ground arith

-- What `rotate` does.
rotate_lem :
    (os : Answers) (w : RecordingWriter) (disk : Disk)
    → Succeeds os
    → (file : List Text) → Map.get w.path disk ≡ some file
    → (let closed = join w.dir (closed_name w.target w.current_file_start_secs os.now w.compress) in
        let next = join w.dir (open_name w.target os.now w.compress) in
        rotate os w disk ≡ (
          done next,
          record w {
            current_file_start_secs = os.now;
            sink_open = true;
            path = next;
            frame_count = 0;
            bytes_written = 0;
            rotation_count = w.rotation_count + 1;
          },
          Map.insert next [] (Map.insert closed file (Map.remove w.path disk)),
        ))
unfolding rotate open_next create_sink rename
rotate_lem os w disk ok file has = ground (arith, ok.creates, ok.finishes, ok.renames)

-- A line more in the open file.
write-HasWritten :
    (line : Text) (lines : List Text) (w : RecordingWriter) (disk : Disk)
    (h : HasWritten lines w disk)
    → Fits w.max_bytes (h.current ++ line ∷ [])
    → HasWritten
        (lines ++ line ∷ [])
        (count_frame line w)
        (Map.insert w.path (h.current ++ line ∷ []) disk)
unfolding count_frame
write-HasWritten line lines w disk h fits = record {
  closed = h.closed;
  current = h.current ++ line ∷ [];
  complete =
      sym (append_assoc (joined h.closed) h.current (line ∷ []))
      ∙ ap (λ t. t ++ line ∷ []) h.complete;
  started = h.started;
  older = h.older;
  named = h.named;
  is_open = h.is_open;
  has_current = get-insert_self w.path (h.current ++ line ∷ []) disk;
  has_closed =
      insert-Kept w w.path (h.current ++ line ∷ []) disk h.closed
        (subst (λ p. Spares w p h.closed) (sym h.named)
          (open-Spares w w.current_file_start_secs w.current_file_start_secs h.closed h.started
            h.started h.older))
        h.has_closed;
  fits_current = fits;
  fits_closed = h.fits_closed;
  counted = omega (arith, h.counted, bytes-append h.current (line ∷ []));
  frames = omega (arith, h.frames, length-append {0} lines (line ∷ []));
  size = omega (arith, h.size, bytes-append lines (line ∷ []));
  standard = h.standard;
}

abbrev rotated_writer : ℕ → RecordingWriter → RecordingWriter
rotated_writer now w = record w {
  current_file_start_secs = now;
  sink_open = true;
  path = join w.dir (open_name w.target now w.compress);
  frame_count = 0;
  bytes_written = 0;
  rotation_count = w.rotation_count + 1;
}

abbrev rotated_disk : ℕ → RecordingWriter → List Text → Disk → Disk
rotated_disk now w file disk = Map.insert (join w.dir (open_name w.target now w.compress)) [] (
    Map.insert (join w.dir (closed_name w.target w.current_file_start_secs now w.compress)) file
      (Map.remove w.path disk))

-- A rotation at a later second than that of the last keeps all lines.
rotate-HasWritten :
    (now : ℕ) (lines : List Text) (w : RecordingWriter) (disk : Disk) (h : HasWritten lines w disk)
    → now < latest
    → w.current_file_start_secs < now
    → HasWritten lines (rotated_writer now w) (rotated_disk now w h.current disk)
rotate-HasWritten now lines w disk h early later =
    let start = w.current_file_start_secs in
    let closed = join w.dir (closed_name w.target start now w.compress) in
    let next = join w.dir (open_name w.target now w.compress) in
    let all : List Closed = (start, now, h.current) ∷ h.closed in
    let free = open-Spares w now now all early early (later, h.older) in
    let removed = Map.remove w.path disk in
    let renamed = Map.insert closed h.current removed in
    record {
      closed = all;
      current = [];
      complete = append-nil _ ∙ h.complete;
      started = early;
      older = (later, h.older);
      named = refl;
      is_open = refl;
      has_current = get-insert_self next [] renamed;
      has_closed = insert-Kept w next [] renamed all free (
        get-insert_self closed h.current removed,
        insert-Kept w closed h.current removed h.closed
            (closed-Spares w start now start h.closed h.started (omega arith) h.older)
            (remove-Kept w w.path disk h.closed
              (subst (λ p. Spares w p h.closed) (sym h.named)
                (open-Spares w start start h.closed h.started h.started h.older))
              h.has_closed),
      );
      fits_current = inr (inr (omega arith));
      fits_closed = (h.fits_current, h.fits_closed);
      counted = refl;
      frames = h.frames;
      size = h.size;
      standard = h.standard;
    }

bytes_zero : (ls : List Text) → bytes ls ≡ 0 → ls ≡ []
bytes_zero [] h = refl
bytes_zero (l ∷ ls) h = absurd (omega (arith, h))

room_cases :
    (line : Text) (w : RecordingWriter)
    → is_full line w ≡ false
    → (w.max_bytes ≡ 0)
      ⊎ ((w.bytes_written ≡ 0) ⊎ (w.bytes_written + length line + 1 ≤ w.max_bytes))
room_cases line w room = ground arith

-- A file that is not full takes the line.
Fits-line :
    (line : Text) (w : RecordingWriter) (current : List Text)
    → is_full line w ≡ false
    → w.bytes_written ≡ bytes current
    → Fits w.max_bytes (current ++ line ∷ [])
Fits-line line w current room counted = elim (room_cases line w room) [
  | inl unlimited ↦ inl unlimited
  | inr (inl nothing) ↦
      let none_yet : current ≡ [] = bytes_zero current (sym counted ∙ nothing) in
      inr (inr (rw none_yet (omega arith)))
  | inr (inr within) ↦ inr (inl (omega (arith, counted, bytes-append current (line ∷ []))))
]

-- A call has returned, and its state has the lines.
abbrev pub Wrote : {A : Type 0} → List Text → Io A × RecordingWriter × Disk → Type 0
Wrote {A} lines r = ((x : A) × (r.0 ≡ done x)) × HasWritten lines r.1 r.2

module _ (os : Answers) (line : Text) (lines : List Text) (w : RecordingWriter) (disk : Disk)
    (h : HasWritten lines w disk) (ok : Succeeds os) where
  append_room : is_full line w ≡ false → Wrote (lines ++ line ∷ []) (append os (some line) w disk)
  unfolding append
  append_room room =
      let written : append os (some line) w disk ≡ _ =
        rw (append, room)
          (write_line_lem os line none w disk ok.writes h.is_open h.current h.has_current) in
      subst (Wrote (lines ++ line ∷ [])) (sym written) (
        (none, refl),
        write-HasWritten line lines w disk h (Fits-line line w h.current room h.counted),
      )

  append_full :
      is_full line w ≡ true
      → w.current_file_start_secs < os.now
      → Wrote (lines ++ line ∷ []) (append os (some line) w disk)
  unfolding append rotate-HasWritten
  append_full full later =
      let now = os.now in
      let next = rotated_writer now w in
      let disk' = rotated_disk now w h.current disk in
      let h' = rotate-HasWritten now lines w disk h ok.early later in
      let written : append os (some line) w disk ≡ _ =
        rw (append, full, rotate_lem os w disk ok h.current h.has_current)
          (write_line_lem os line (some next.path) next disk' ok.writes refl [] h'.has_current) in
      subst (Wrote (lines ++ line ∷ [])) (sym written) (
        (some next.path, refl),
        write-HasWritten line lines next disk' h' (inr (inr (omega arith))),
      )

  -- `append` when all calls succeed: a write, with or without a rotation before it.
  pub append-Wrote :
      (is_full line w ≡ false) ⊎ (w.current_file_start_secs < os.now)
      → Wrote (lines ++ line ∷ []) (append os (some line) w disk)
  append-Wrote paced = elim (Bool-cases (is_full line w)) [
    | inr room ↦ append_room room
    | inl full ↦ elim paced [ inl room ↦ append_room room | inr later ↦ append_full full later ]
  ]
