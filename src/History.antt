-- ===== src/History.antt =====
-- crates/pg_lens_core/src/history.rs and crates/pg_lens_core/src/history_store.rs, and what the
-- loop of crates/pg_lens_core/src/poller.rs does with the two. A point is any type; `serde_json`
-- is a parameter, and the file is the list of its lines.
mod Tests
pub mod Ring
pub mod Restart
use pg_lens.Prelude.{
  ℕ, zero, suc, ◌+◌, ◌-◌, max, Bool, true, false, Option, none, some, List, [], ◌∷◌, ◌++◌, length,
  get_elem?, drop, is_empty, last?, nat_eq, ltb, leb, if◌then◌else◌,
}
use pg_lens.Prelude.Text.{Text}

module _ (Point : Type 0) where
  pub record SnapshotHistory : Type 0 where
    pub cap : ℕ
    pub points : List Point

  -- `SnapshotHistory::new`
  unfoldable pub new : ℕ → SnapshotHistory
  new cap = record { cap = max cap 1; points = [] }

  unfoldable pub push : SnapshotHistory → Point → SnapshotHistory
  push h point =
      let kept = if nat_eq (length h.points) h.cap then drop 1 h.points else h.points in
      record h { points = kept ++ point ∷ [] }

  unfoldable pub latest : SnapshotHistory → Option Point
  latest h = last? h.points

  unfoldable pub sample_for_trend : SnapshotHistory → ℕ → Option Point
  sample_for_trend h lookback_ticks =
      if is_empty h.points then none else get_elem? h.points (length h.points - 1 - lookback_ticks)

  unfoldable pub push_all : SnapshotHistory → List Point → SnapshotHistory
  unfolding push
  push_all h [] = h
  push_all h (p ∷ ps) = push_all (push h p) ps

-- `serde_json::from_str` and `serde_json::to_string` on a point.
pub record Json (Point : Type 0) : Type 0 where
  pub from_str : Text → Option Point
  pub to_string : Point → Option Text

-- The file of a `HistoryStore`: none while it does not exist.
abbrev pub File : Type 0
File = Option (List Text)

module _ {Point : Type 0} (json : Json Point) where
  abbrev cons_some : Option Point → List Point → List Point
  cons_some none ps = ps
  cons_some (some p) ps = p ∷ ps

  unfoldable pub parse_lines : List Text → List Point
  parse_lines [] = []
  parse_lines (line ∷ lines) = cons_some (json.from_str line) (parse_lines lines)

  -- `points.drain(0..points.len() - cap)` if there are more than `cap`
  unfoldable pub newest : ℕ → List Point → List Point
  newest cap points = if ltb cap (length points) then drop (length points - cap) points else points

  unfoldable pub load : ℕ → File → List Point
  unfolding parse_lines newest
  load cap none = []
  load cap (some lines) = newest cap (parse_lines lines)

  abbrev lines_of : File → List Text
  lines_of none = []
  lines_of (some lines) = lines

  abbrev with_line : File → Option Text → File
  with_line file none = file
  with_line file (some line) = some (lines_of file ++ line ∷ [])

  -- `append`, on a disk that takes the write or does not.
  unfoldable pub append : Bool → File → Point → File
  append writable file point = if writable then with_line file (json.to_string point) else file

  abbrev cons_line : Option Text → List Text → List Text
  cons_line none lines = lines
  cons_line (some line) lines = line ∷ lines

  unfoldable pub print_lines : List Point → List Text
  print_lines [] = []
  print_lines (p ∷ ps) = cons_line (json.to_string p) (print_lines ps)

  unfoldable pub compact : Bool → File → List Point → File
  unfolding print_lines
  compact writable file points = if writable then some (print_lines points) else file

  pub record Kept : Type 0 where
    pub history : SnapshotHistory Point
    pub file : File
    pub appends_since_compact : ℕ

  abbrev pub default_cap : ℕ
  default_cap = 1800

  abbrev persist : Bool → SnapshotHistory Point → File → ℕ → Option Point → Kept
  unfolding append compact
  persist writable h file n none = record { history = h; file = file; appends_since_compact = n }
  persist writable h file n (some point) =
      let file' = append writable file point in
      if leb default_cap (n + 1)
      then record { history = h; file = compact writable file' h.points; appends_since_compact = 0 }
      else record { history = h; file = file'; appends_since_compact = n + 1 }

  -- One round of the poller's loop, as far as the history goes: push the new point and publish it;
  -- if nobody receives snapshots any more (`tx.send` fails), the session ends there, which is the
  -- second component; else append the latest point, and compact the file once in `default_cap`
  -- rounds.
  unfoldable pub tick : Bool → Bool → Kept → Point → Kept × Bool
  unfolding push latest persist
  tick writable sent k point =
      let h = push Point k.history point in
      if sent
      then (persist writable h k.file k.appends_since_compact (latest Point h), true)
      else (record k { history = h }, false)

  -- The start of `run`: a new ring, filled with what the file has.
  unfoldable pub start : File → Kept
  unfolding push_all new load
  start file = record {
    history = push_all Point (new Point default_cap) (load default_cap file);
    file = file;
    appends_since_compact = 0;
  }
