-- ===== src/Tui/Session.antt =====
-- The `App` of crates/pg_lens_tui/src/app.rs as a whole, as far as admin actions go: `update` with
-- the keys of Tui/Keys, whose calls run the functions of Tui/Confirm, and the snapshots, ticks and
-- answers that come between.
pub mod ReadOnly
use pg_lens.Prelude.{
  ℕ, ◌+◌, ◌≡◌, Bool, true, false, Option, none, some, List, [], ◌∷◌, is_some, leb, if◌then◌else◌,
}
use pg_lens.Prelude.Text.{Text}
use pg_lens.Tui.Key.{KeyEvent, AdminFeedback}
use pg_lens.Tui.Confirm
use pg_lens.Tui.Confirm.{
  Snapshot, Selected, handle_confirm_key, open_confirm, toggle_pause, apply_snapshot, receive,
}
use pg_lens.Tui.Replay.{Media, Player, ReplayState, pass_tick, press, applies}
use pg_lens.Tui.Keys
use pg_lens.Tui.Keys.{App, Call, Under}
use pg_lens.Tui.Keys.Run.{handle_key}

module _ (media : Media) where
  -- The fields of Tui/Keys, and those that only the admin actions and the pause read and write.
  pub record Session : Type 0 where
    pub app : App media
    pub paused : Bool
    pub snapshot : Snapshot
    pub pending_snapshot : Option Snapshot
    pub admin_seen_epoch_ms : Option ℕ
    pub has_data : Bool

  abbrev pub admin_of : Session → Confirm.App
  admin_of s = record {
    active_tab = s.app.active_tab;
    micro_view = s.app.micro_view;
    blocks_active_pane = s.app.blocks_active_pane;
    replaying = is_some s.app.player.replay;
    read_only = s.app.read_only;
    paused = s.paused;
    tick_count = s.app.tick_count;
    snapshot = s.snapshot;
    pending_snapshot = s.pending_snapshot;
    confirm = s.app.confirm;
    pending_admin = s.app.pending_admin;
    admin_feedback = s.app.admin_feedback;
    admin_seen_epoch_ms = s.admin_seen_epoch_ms;
    has_data = s.has_data;
  }

  abbrev pub with_admin : Session → Confirm.App → Session
  with_admin s a = record {
    app = record s.app {
      confirm = a.confirm;
      pending_admin = a.pending_admin;
      admin_feedback = a.admin_feedback;
    };
    paused = a.paused;
    snapshot = a.snapshot;
    pending_snapshot = a.pending_snapshot;
    admin_seen_epoch_ms = a.admin_seen_epoch_ms;
    has_data = a.has_data;
  }

  -- A key, what the cursors stand on when it comes, and what is read of the frame or the snapshot
  -- that it may bring on screen.
  pub record Input : Type 0 where
    pub key : KeyEvent
    pub under : Under media
    pub selected : Selected
    pub frame : Snapshot

  -- An `App` that a function left which has nothing to do with admin actions.
  abbrev pub besides : App media → App media → App media
  besides app left = record left {
    confirm = app.confirm;
    pending_admin = app.pending_admin;
    read_only = app.read_only;
  }

  -- `other` is what the functions do that are neither here nor in Tui/Keys: the pickers, the
  -- filters, the cursors, the sorting and the files. None of them has the fields of `besides`.
  module _ (show : ℕ → Text) (contains : Text → Text → Bool)
      (other : Call → Input → App media → App media) where
    unfoldable pub run_call : Input → Call → Session → Session
    unfolding handle_confirm_key open_confirm toggle_pause apply_snapshot
    run_call i Keys.handle_confirm_key s =
        with_admin s (handle_confirm_key show contains (admin_of s) i.key)
    run_call i (Keys.open_confirm terminates) s =
        with_admin s (open_confirm (admin_of s) terminates i.selected)
    run_call i Keys.toggle_pause s = with_admin s (toggle_pause show contains (admin_of s))
    run_call i Keys.apply_snapshot s =
        with_admin s (apply_snapshot show contains (admin_of s) i.frame)
    run_call i call s = record s { app = besides s.app (other call i s.app) }

    -- The calls of an arm, behind what it writes itself. Where the code calls `apply_snapshot` before
    -- it writes, at the two ends of a replay, only the message may be another one.
    unfoldable pub run_calls : Input → List Call → Session → Session
    unfolding run_call
    run_calls i [] s = s
    run_calls i (call ∷ calls) s = run_calls i calls (run_call i call s)

    -- The messages that have not expired.
    abbrev standing : ℕ → Option AdminFeedback → Option AdminFeedback
    standing now none = none
    standing now (some f) = if leb f.expires_at_tick now then none else some f

    abbrev frame_shown : Bool → Option (ReplayState media) → Bool
    unfolding applies
    frame_shown elapsed none = false
    frame_shown elapsed (some r) = applies media (pass_tick elapsed) r

    -- The arm `Action::Tick`, whose replay goes on to `player`.
    unfoldable pub pass : Bool → Player media → Snapshot → Session → Session
    unfolding frame_shown apply_snapshot
    pass elapsed player frame s =
        let now = s.app.tick_count + 1 in
        let ticked : Session = record s {
          app = record s.app {
            tick_count = now;
            admin_feedback = standing now s.app.admin_feedback;
            player = player;
          };
        } in
        if frame_shown elapsed s.app.player.replay
        then with_admin ticked (apply_snapshot show contains (admin_of ticked) frame)
        else ticked

    -- One thing that happens: a key, a snapshot, a tick, the message of an answer, the end; the
    -- main loop that sends what is queued; or the main loop that takes its other requests.
    pub data Step : Session → Session → Type 0 where
      pressed :
          (s : Session) (i : Input) (a : App media) (calls : List Call)
          → handle_key media i.under s.app i.key ≡ some (a, calls)
          → Step s (run_calls i calls (record s { app = a }))
      received :
          (s : Session) (snapshot : Snapshot)
          → Step s (with_admin s (receive show contains (admin_of s) snapshot))
      ticked :
          (s : Session) (elapsed : Bool) (player : Player media) (frame : Snapshot)
          → press media (pass_tick elapsed) s.app.player ≡ some player
          → Step s (pass elapsed player frame s)
      told :
          (s : Session) (f : AdminFeedback)
          → Step s (record s { app = record s.app { admin_feedback = some f } })
      ended : (s : Session) → Step s (record s { app = record s.app { should_quit = true } })
      forwarded : (s : Session) → Step s (record s { app = record s.app { pending_admin = [] } })
      served : (s : Session) (a : App media) → Step s (record s { app = besides s.app a })

    pub data Steps (s : Session) : Session → Type 0 where
      start : Steps s s
      step : {t u : Session} → Steps s t → Step t u → Steps s u
