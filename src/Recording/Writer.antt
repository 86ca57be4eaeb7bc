-- ===== src/Recording/Writer.antt =====
-- `RecordingWriter` of crates/pg_lens_core/src/recording.rs over a disk, which is a map from paths
-- to the lines of the files. Its sink is open or closed: what is written while it is open goes to
-- the file at `path`, which is only renamed once the sink is closed. What the operating system
-- answers to a call is an input of it.
pub mod Files
pub mod Steps
pub mod Session
use pg_lens.Prelude.{
  ℕ, zero, suc, ◌+◌, Bool, true, false, not, ◌&&◌, Option, none, some, List, [], ◌∷◌, ◌++◌, length,
  last?, unwrap_or, ltb, leb, nat_eq, if◌then◌else◌, is_some,
}
use pg_lens.Prelude.Text.{Text, Text_eq, codes, strip_suffix}
use pg_lens.Prelude.Map
use pg_lens.Prelude.Map.{Assoc}
use pg_lens.Recording.Names.{sanitize_target_name, open_name, closed_name, ends_with}

pub data IoError : Type 0 where
  permission_denied : IoError
  invalid_format : IoError
  other_error : IoError

pub data Io {ℓ} (A : Type ℓ) : Type ℓ where
  done : A → Io A
  fails : IoError → Io A

-- What the operating system answers: the clock, the calls that fail, and, where a write fails, what
-- it left of the file.
pub record Answers : Type 0 where
  pub now : ℕ
  pub create_dir_error : Option IoError
  pub create_error : Option IoError
  pub write_error : Option (IoError × List Text)
  pub finish_error : Option IoError
  pub can_rename : Bool

abbrev pub Disk : Type 0
Disk = Assoc Text (List Text)

pub record RecordingWriter : Type 0 where
  pub target : Text
  pub dir : Text
  pub max_bytes : ℕ
  pub compress : Bool
  pub current_file_start_secs : ℕ
  pub is_custom_path : Bool
  pub path : Text
  pub sink_open : Bool
  pub frame_count : ℕ
  pub bytes_written : ℕ
  pub total_session_frames : ℕ
  pub total_session_bytes : ℕ
  pub rotation_count : ℕ

-- `Path::join` with a name that has no separator.
unfoldable pub join : Text → Text → Text
join dir name = elim (last? dir) [
  | none ↦ name
  | some c ↦ if nat_eq c b'/' then dir ++ name else dir ++ b'/' ∷ name
]

-- `File::create`: an empty file, also where there was one.
unfoldable pub create_sink : Answers → Text → Disk → Io Disk
unfolding Map.insert
create_sink os path disk = elim os.create_error [
  | some e ↦ fails e
  | none ↦ done (Map.insert path [] disk)
]

-- `std::fs::rename`, which replaces the file at the new path. A file that is not there stays away.
unfoldable pub rename : Answers → Text → Text → Disk → Option Disk
unfolding Map.insert Map.remove Map.get
rename os from to disk = elim (Map.get from disk) [
  | none ↦ none
  | some file ↦ if os.can_rename then some (Map.insert to file (Map.remove from disk)) else none
]

abbrev pub new_writer : Text → Text → ℕ → Bool → ℕ → Bool → Text → RecordingWriter
new_writer target dir max_bytes compress start custom path = record {
  target = target;
  dir = dir;
  max_bytes = max_bytes;
  compress = compress;
  current_file_start_secs = start;
  is_custom_path = custom;
  path = path;
  sink_open = true;
  frame_count = 0;
  bytes_written = 0;
  total_session_frames = 0;
  total_session_bytes = 0;
  rotation_count = 0;
}

unfoldable pub create_in_full :
    (ℕ → Bool) → Answers → Text → Text → ℕ → Bool → Disk → Io (RecordingWriter × Disk)
unfolding sanitize_target_name open_name join create_sink
create_in_full is_alphanumeric os target_label dir max_bytes compress disk =
    let clean_target = sanitize_target_name is_alphanumeric target_label in
    let path = join dir (open_name clean_target os.now compress) in
    elim os.create_dir_error [
      | some e ↦ fails e
      | none ↦ elim (create_sink os path disk) [
        | fails e ↦ fails e
        | done disk' ↦
            done (new_writer clean_target dir max_bytes compress os.now false path, disk')
      ]
    ]

-- `new_full`: `recordings` is the directory for recordings, if there is one, `fallback` the one for
-- temporary files; the second attempt has answers of its own.
unfoldable pub new_full :
    (ℕ → Bool)
    → Answers
    → Answers
    → Option Text
    → Text
    → Text
    → ℕ
    → Bool
    → Disk
    → Io (RecordingWriter × Disk)
unfolding create_in_full
new_full is_alphanumeric os os' recordings fallback target_label max_bytes compress disk =
    let dir = unwrap_or recordings fallback in
    elim (create_in_full is_alphanumeric os target_label dir max_bytes compress disk) [
      | done r ↦ done r
      | fails permission_denied ↦
          create_in_full is_alphanumeric os' target_label fallback max_bytes compress disk
      | fails e ↦ fails e
    ]

-- `create_at`: `parent` and `name` are `path.parent()` and `path.file_name()`.
unfoldable pub create_at :
    Answers → Text → Option Text → Option Text → Disk → Io (RecordingWriter × Disk)
unfolding strip_suffix create_sink
create_at os path parent name disk =
    let dir = unwrap_or parent (codes ".") in
    let compress : Bool = elim name [ none ↦ false | some n ↦ ends_with (codes ".gz") n ] in
    let dir_error = if is_some parent then os.create_dir_error else none in
    elim dir_error [
      | some e ↦ fails e
      | none ↦ elim (create_sink os path disk) [
        | fails e ↦ fails e
        | done disk' ↦ done (new_writer (codes "custom") dir 0 compress os.now true path, disk')
      ]
    ]

-- A method that may fail, with the state that it leaves either way.
abbrev pub Method : Type 0 → Type 0
Method A = RecordingWriter → Disk → Io A × RecordingWriter × Disk

-- `self.sink.take()`, and `finish` on what was there.
abbrev pub finish_sink : Answers → RecordingWriter → Option IoError
finish_sink os w = if w.sink_open then os.finish_error else none

-- The rest of `rotate`, behind the closing of the sink.
unfoldable pub open_next : Answers → Method Text
unfolding open_name closed_name join create_sink rename
open_next os w disk =
    let closed_path =
      join w.dir (closed_name w.target w.current_file_start_secs os.now w.compress) in
    let renamed = unwrap_or (rename os w.path closed_path disk) disk in
    let new_path = join w.dir (open_name w.target os.now w.compress) in
    let w' : RecordingWriter = record w { current_file_start_secs = os.now; sink_open = false } in
    elim (create_sink os new_path renamed) [
      | fails e ↦ (fails e, w', renamed)
      | done disk' ↦ (
        done new_path,
        record w' {
          sink_open = true;
          path = new_path;
          frame_count = 0;
          bytes_written = 0;
          rotation_count = w.rotation_count + 1;
        },
        disk',
      )
    ]

unfoldable pub rotate : Answers → Method Text
unfolding open_next
rotate os w disk = elim (finish_sink os w) [
  | some e ↦ (fails e, record w { sink_open = false }, disk)
  | none ↦ open_next os w disk
]

abbrev pub line_bytes : Text → ℕ
line_bytes line = length line + 1

-- The counters of `append`, behind the writing.
unfoldable pub count_frame : Text → RecordingWriter → RecordingWriter
count_frame line w = record w {
  frame_count = w.frame_count + 1;
  total_session_frames = w.total_session_frames + 1;
  bytes_written = w.bytes_written + line_bytes line;
  total_session_bytes = w.total_session_bytes + line_bytes line;
}

abbrev file_at : Text → Disk → List Text
unfolding Map.get
file_at path disk = unwrap_or (Map.get path disk) []

-- `append` behind the rotation: the two writes and the flush, where there is a sink.
unfoldable pub write_line : Answers → Text → Option Text → Method (Option Text)
unfolding Map.insert Map.get count_frame
write_line os line rotated w disk =
    let written : Io (Option Text) × RecordingWriter × Disk = elim os.write_error [
      | none ↦ (
        done rotated,
        count_frame line w,
        Map.insert w.path (file_at w.path disk ++ line ∷ []) disk,
      )
      | some (e, left) ↦ (fails e, w, Map.insert w.path left disk)
    ] in
    if w.sink_open then written else (done rotated, count_frame line w, disk)

abbrev pub is_full : Text → RecordingWriter → Bool
is_full line w =
    ltb 0 w.max_bytes
    && (ltb 0 w.bytes_written && ltb w.max_bytes (w.bytes_written + length line + 1))

unfoldable pub then_write :
    Answers → Text → Io Text × RecordingWriter × Disk → Io (Option Text) × RecordingWriter × Disk
unfolding write_line
then_write os line (fails e, w, disk) = (fails e, w, disk)
then_write os line (done path, w, disk) = write_line os line (some path) w disk

-- `append` of a snapshot whose JSON is `serialized`, if `serde_json` can write it.
unfoldable pub append : Answers → Option Text → Method (Option Text)
unfolding rotate write_line then_write
append os serialized w disk = elim serialized [
  | none ↦ (fails invalid_format, w, disk)
  | some line ↦
      if is_full line w
      then then_write os line (rotate os w disk)
      else write_line os line none w disk
]

-- The conditional of `finish`, where a recording gets its last name.
unfoldable pub stamp : Answers → RecordingWriter → Disk → RecordingWriter × Disk
unfolding closed_name join rename
stamp os w disk =
    let final_path =
      join w.dir (closed_name w.target w.current_file_start_secs os.now w.compress) in
    let moved : RecordingWriter × Disk = elim (rename os w.path final_path disk) [
      | none ↦ (w, disk)
      | some disk' ↦ (record w { path = final_path }, disk')
    ] in
    if not w.is_custom_path && leb w.current_file_start_secs os.now then moved else (w, disk)

-- `finish`: the path of the file, and the frames and bytes of the session.
unfoldable pub finish : Answers → Method (Text × ℕ × ℕ)
unfolding stamp
finish os w disk =
    let closed : RecordingWriter = record w { sink_open = false } in
    let r = stamp os closed disk in
    elim (finish_sink os w) [
      | some e ↦ (fails e, closed, disk)
      | none ↦ (done (r.0.path, r.0.total_session_frames, r.0.total_session_bytes), r.0, r.1)
    ]
