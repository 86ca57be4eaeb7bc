-- ===== src/Tui/Replay.antt =====
-- The replay of a recording in crates/pg_lens_tui/src/app.rs: the arms of `handle_key` and of
-- `update` that touch `replay_state`, over what is on screen and what was there before. A result
-- `none` is a panic of an index. The times between frames are an input of a tick.
pub mod Frames
use pg_lens.Prelude.Text.{Text}
use pg_lens.Prelude.{
  ℕ, zero, suc, ◌+◌, ◌-◌, Bool, true, false, not, ◌&&◌, ◌||◌, Option, none, some, List, [], ◌∷◌,
  length, get_elem?, is_empty, last?, ltb, leb, nat_eq, if◌then◌else◌,
}

-- A `DbSnapshot`, and the `f64` of a speed with what the code does to it: `1.0`,
-- `(speed / 2.0).max(0.25)`, `(speed * 2.0).min(16.0)`, and its text with two decimals.
pub record Media : Type 1 where
  pub Snap : Type 0
  pub Speed : Type 0
  pub one : Speed
  pub slower : Speed → Speed
  pub faster : Speed → Speed
  pub printed : Speed → Text

module _ (media : Media) where
  open media use {Snap, Speed}

  pub record ReplayState : Type 0 where
    pub frames : List Snap
    pub current_idx : ℕ
    pub is_paused : Bool
    pub speed : Speed
    pub loop_playback : Bool

  -- `snapshot`, `live_mode_saved_snapshot` and `replay_state` of the `App`.
  pub record Player : Type 0 where
    pub snapshot : Snap
    pub saved : Option Snap
    pub replay : Option ReplayState

  -- The arm of `Enter` for a recording that was read and has a first frame.
  unfoldable pub start_replay : Snap → List Snap → Player → Player
  start_replay first others p = record {
    snapshot = first;
    saved = some p.snapshot;
    replay = some (record {
      frames = first ∷ others;
      current_idx = 0;
      is_paused = false;
      speed = media.one;
      loop_playback = false;
    });
  }

  -- The first branch of `Esc`, where it is taken.
  unfoldable pub leave_replay : Player → Option Player
  leave_replay p = elim p.saved [
    | none ↦ none
    | some live ↦ some (record { snapshot = live; saved = none; replay = none })
  ]

  -- `frames[i].clone()`, and `apply_snapshot` with it.
  unfoldable pub show_frame : ReplayState → ℕ → Player → Option Player
  show_frame r i p = elim (get_elem? r.frames i) [
    | none ↦ none
    | some s ↦ some (record p { snapshot = s; replay = some (record r { current_idx = i }) })
  ]

  abbrev pub put : ReplayState → Player → Player
  put r p = record p { replay = some r }

  abbrev pub paused_at : ReplayState → ReplayState
  paused_at r = record r { is_paused = true }

  -- The keys of a replay, and a tick, which says whether the time of a frame has passed.
  pub data Op : Type 0 where
    press_home : Op
    press_end : Op
    press_left : Op
    press_right : Op
    press_space : Op
    press_loop : Op
    press_slower : Op
    press_faster : Op
    pass_tick : Bool → Op

  unfoldable pub home_frame : ReplayState → Player → Option Player
  home_frame r p =
      let r' : ReplayState = record r { is_paused = true; current_idx = 0 } in
      elim (get_elem? r.frames 0) [
        | none ↦ some (put r' p)
        | some s ↦ some (record p { snapshot = s; replay = some r' })
      ]

  unfoldable pub end_frame : ReplayState → Player → Option Player
  end_frame r p = elim (last? r.frames) [
    | none ↦ some (put (paused_at r) p)
    | some s ↦ some (record p {
      snapshot = s;
      replay = some (record r { is_paused = true; current_idx = length r.frames - 1 });
    })
  ]

  unfoldable pub left_frame : ReplayState → Player → Option Player
  unfolding show_frame
  left_frame r p =
      let back = show_frame (paused_at r) (r.current_idx - 1) p in
      if ltb 0 r.current_idx then back else some (put (paused_at r) p)

  unfoldable pub right_frame : ReplayState → Player → Option Player
  unfolding show_frame
  right_frame r p =
      let on = show_frame (paused_at r) (r.current_idx + 1) p in
      if ltb (r.current_idx + 1) (length r.frames) then on else some (put (paused_at r) p)

  -- Space: at the end of the recording, playing begins again.
  unfoldable pub space_frame : ReplayState → Player → Option Player
  unfolding show_frame
  space_frame r p =
      let playing : ReplayState = record r { is_paused = false } in
      let again = show_frame playing 0 p in
      if not r.is_paused
      then some (put (paused_at r) p)
      else if leb (length r.frames) (r.current_idx + 1) && not (is_empty r.frames)
      then again
      else some (put playing p)

  -- The arm of `Action::Tick`.
  unfoldable pub tick_frame : Bool → ReplayState → Player → Option Player
  unfolding show_frame
  tick_frame elapsed r p =
      let on = show_frame r (r.current_idx + 1) p in
      let again = show_frame r 0 p in
      if not (not r.is_paused && (ltb 1 (length r.frames) && elapsed))
      then some p
      else if ltb (r.current_idx + 1) (length r.frames)
      then on
      else if r.loop_playback
      then again
      else some (put (paused_at r) p)

  unfoldable pub run_op : Op → ReplayState → Player → Option Player
  unfolding home_frame end_frame left_frame right_frame space_frame tick_frame
  run_op press_home r p = home_frame r p
  run_op press_end r p = end_frame r p
  run_op press_left r p = left_frame r p
  run_op press_right r p = right_frame r p
  run_op press_space r p = space_frame r p
  run_op press_loop r p = some (put (record r { loop_playback = not r.loop_playback }) p)
  run_op press_slower r p = some (put (record r { speed = media.slower r.speed }) p)
  run_op press_faster r p = some (put (record r { speed = media.faster r.speed }) p)
  run_op (pass_tick elapsed) r p = tick_frame elapsed r p

  -- Whether `apply_snapshot` is called with a frame.
  unfoldable pub applies : Op → ReplayState → Bool
  applies press_home r = not (is_empty r.frames)
  applies press_end r = not (is_empty r.frames)
  applies press_left r = ltb 0 r.current_idx
  applies press_right r = ltb (r.current_idx + 1) (length r.frames)
  applies press_space r =
      r.is_paused && (leb (length r.frames) (r.current_idx + 1) && not (is_empty r.frames))
  applies press_loop r = false
  applies press_slower r = false
  applies press_faster r = false
  applies (pass_tick elapsed) r =
      (not r.is_paused && (ltb 1 (length r.frames) && elapsed))
      && (ltb (r.current_idx + 1) (length r.frames) || r.loop_playback)

  -- Without a replay, these arms leave the replay's part of the state as it is.
  unfoldable pub press : Op → Player → Option Player
  unfolding run_op
  press op p = elim p.replay [ none ↦ some p | some r ↦ run_op op r p ]

  unfoldable pub press_all : List Op → Player → Option Player
  unfolding press
  press_all [] p = some p
  press_all (op ∷ ops) p = elim (press op p) [ none ↦ none | some p' ↦ press_all ops p' ]
