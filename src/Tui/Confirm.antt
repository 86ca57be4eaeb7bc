-- ===== src/Tui/Confirm.antt =====
-- The admin actions of crates/pg_lens_tui/src/app.rs: the confirmation modal, the pause that an
-- action ends, and the announcement of its result. Of the `App` it holds the fields that these
-- functions touch; a snapshot is held by what they read of it.
pub mod Gate
pub mod Announce
use pg_lens.Prelude.{
  ℕ, ◌+◌, Bool, true, false, not, ◌&&◌, ◌||◌, Option, none, some, List, [], ◌∷◌, ◌++◌, nat_eq,
  find?, is_some, unwrap_or, if◌then◌else◌,
}
use pg_lens.Prelude.Text.{Text, codes}
use pg_lens.Tui.Key.{KeyEvent, is_char, is_esc, AdminFeedback, admin_feedback_ticks}
use pg_lens.Tui.Tabs.{
  Tab, macro_lens, micro_lens, blocks_lens, replication_lens, schema_lens, index_lens, query_lens,
  progress_lens, records_lens,
}
use pg_lens.Tui.Selection.{MicroView, activity, idle, BlocksPane, tree_pane, locks_pane}

-- `AdminCommand` of crates/pg_lens_core/src/models.rs
pub data AdminCommand : Type 0 where
  cancel_backend : ℕ → AdminCommand
  terminate_backend : ℕ → AdminCommand

pub data AdminKind : Type 0 where
  cancel : AdminKind
  terminate : AdminKind

pub data AdminOutcome : Type 0 where
  signalled : Bool → AdminOutcome
  failed : Text → AdminOutcome

pub record AdminActionResult : Type 0 where
  pub kind : AdminKind
  pub pid : ℕ
  pub outcome : AdminOutcome
  pub at_epoch_ms : ℕ

unfoldable pub kind_of : AdminCommand → AdminKind
kind_of (cancel_backend pid) = cancel
kind_of (terminate_backend pid) = terminate

unfoldable pub pid_of : AdminCommand → ℕ
pid_of (cancel_backend pid) = pid
pid_of (terminate_backend pid) = pid

pub record ConfirmState : Type 0 where
  pub command : AdminCommand
  pub username : Text
  pub database : Text

pub record ActivityRow : Type 0 where
  pub pid : ℕ
  pub username : Text
  pub database : Text

-- A selected node of the blocking tree, or a selected lock.
pub record Holder : Type 0 where
  pub pid : ℕ
  pub usename : Text

pub record Snapshot : Type 0 where
  pub activity_rows : List ActivityRow
  pub vitals_database : Text
  pub last_admin_action : Option AdminActionResult
  pub is_ok : Bool

pub record App : Type 0 where
  pub active_tab : Tab
  pub micro_view : MicroView
  pub blocks_active_pane : BlocksPane
  pub replaying : Bool
  pub read_only : Bool
  pub paused : Bool
  pub tick_count : ℕ
  pub snapshot : Snapshot
  pub pending_snapshot : Option Snapshot
  pub confirm : Option ConfirmState
  pub pending_admin : List AdminCommand
  pub admin_feedback : Option AdminFeedback
  pub admin_seen_epoch_ms : Option ℕ
  -- Whether a snapshot that was Ok has ever been shown: `first_data_at.is_some()`.
  pub has_data : Bool

-- `selected_row`, `selected_block_node`, `selected_active_lock` and the pid of
-- `selected_progress_row`, at the time of the key.
pub record Selected : Type 0 where
  pub row : Option ActivityRow
  pub block_node : Option Holder
  pub active_lock : Option Holder
  pub progress_pid : Option ℕ

abbrev whom : App → Option Holder → Option ActivityRow
whom app none = none
whom app (some h) =
    some (record { pid = h.pid; username = h.usename; database = app.snapshot.vitals_database })

-- `activity.iter().find(|a| a.pid == progress.pid).map(..).unwrap_or_else(..)`
abbrev of_progress : App → Option ℕ → Option ActivityRow
of_progress app none = none
of_progress app (some pid) =
    some
      (record (unwrap_or (find? (λ (a : ActivityRow). nat_eq a.pid pid) app.snapshot.activity_rows)
        (record {
          pid = pid;
          username = codes "postgres";
          database = app.snapshot.vitals_database;
        })) { pid = pid })

abbrev micro_target : MicroView → Selected → Option ActivityRow
micro_target activity sel = sel.row
micro_target idle sel = none

abbrev blocks_target : App → BlocksPane → Selected → Option ActivityRow
blocks_target app tree_pane sel = whom app sel.block_node
blocks_target app locks_pane sel = whom app sel.active_lock

-- The chain of `if let`s that finds whom `open_confirm` is about, with its early returns.
unfoldable pub victim : App → Tab → Selected → Option ActivityRow
victim app micro_lens sel = micro_target app.micro_view sel
victim app blocks_lens sel = blocks_target app app.blocks_active_pane sel
victim app progress_lens sel = of_progress app sel.progress_pid
victim app macro_lens sel = none
victim app replication_lens sel = none
victim app schema_lens sel = none
victim app index_lens sel = none
victim app query_lens sel = none
victim app records_lens sel = none

unfoldable pub feedback : App → Text → Bool → AdminFeedback
feedback app text error = record {
  text = text;
  error = error;
  expires_at_tick = app.tick_count + admin_feedback_ticks;
}

abbrev pub read_only_message : Text
read_only_message = codes "read-only mode — action disabled"

unfoldable pub open_confirm : App → Bool → Selected → App
unfolding victim feedback
open_confirm app terminates sel =
    if app.replaying then app else elim (victim app app.active_tab sel) [
      | none ↦ app
      | some row ↦
          if app.read_only
          then record app { admin_feedback = some (feedback app read_only_message true) }
          else record app {
            confirm = some (record {
              command = if terminates then terminate_backend row.pid else cancel_backend row.pid;
              username = row.username;
              database = row.database;
            });
          }
    ]

abbrev pub seen : Option ℕ → ℕ → Bool
seen none at = false
seen (some t) at = nat_eq t at

-- How a number reads in a message: a parameter, `core::fmt`.
module _ (show : ℕ → Text) (contains : Text → Text → Bool) where
  abbrev verb : AdminKind → Text
  verb cancel = codes "cancel"
  verb terminate = codes "terminate"

  abbrev done : AdminKind → ℕ → Text
  done cancel pid = codes "query cancelled (PID " ++ show pid ++ codes ")"
  done terminate pid = codes "backend terminated (PID " ++ show pid ++ codes ")"

  -- The two components of the `match` in `note_admin_result`.
  unfoldable pub message : AdminKind → AdminOutcome → ℕ → Text × Bool
  message kind (signalled true) pid = (done kind pid, false)
  message kind (signalled false) pid = (
    codes "PID "
        ++ show pid
        ++ codes
            " not signalled — gone or insufficient privilege (needs same user or pg_signal_backend)",
    true,
  )
  message kind (failed msg) pid = (
    verb kind
        ++ codes " PID "
        ++ show pid
        ++ codes " failed: "
        ++ msg
        ++ (if contains msg (codes "permission denied") || contains msg (codes "must be a member")
            then codes " (needs same user or pg_signal_backend)"
            else []),
    true,
  )

  abbrev pub announce : App → Option AdminActionResult → App
  announce app none = app
  announce app (some r) = if seen app.admin_seen_epoch_ms r.at_epoch_ms then app else record app {
    admin_seen_epoch_ms = some r.at_epoch_ms;
    admin_feedback =
        some (feedback app (message r.kind r.outcome r.pid).0 (message r.kind r.outcome r.pid).1);
  }

  unfoldable pub note_admin_result : App → App
  unfolding message feedback
  note_admin_result app = announce app app.snapshot.last_admin_action

  -- `apply_snapshot`, on these fields: the calls behind `note_admin_result` change the display
  -- orders, the records and the cursors only.
  unfoldable pub apply_snapshot : App → Snapshot → App
  unfolding note_admin_result
  apply_snapshot app snapshot =
      note_admin_result
        (record app { snapshot = snapshot; has_data = app.has_data || snapshot.is_ok })

  abbrev pub apply_parked : App → Option Snapshot → App
  apply_parked app none = app
  apply_parked app (some s) = apply_snapshot (record app { pending_snapshot = none }) s

  unfoldable pub resume : App → App
  unfolding apply_snapshot
  resume app = apply_parked (record app { paused = false }) app.pending_snapshot

  unfoldable pub toggle_pause : App → App
  unfolding resume
  toggle_pause app = if app.paused then resume app else record app { paused = true }

  -- The arm `Action::Snapshot` of `update`, without a recording.
  unfoldable pub receive : App → Snapshot → App
  unfolding apply_snapshot
  receive app snapshot =
      if app.paused
      then record app { pending_snapshot = some snapshot }
      else apply_snapshot app snapshot

  abbrev confirmed : App → ConfirmState → App
  confirmed app c = record app {
    pending_admin = app.pending_admin ++ c.command ∷ [];
    admin_feedback = some (
        feedback app
          (verb (kind_of c.command)
            ++ codes " sent to PID "
            ++ show (pid_of c.command)
            ++ codes "…")
          false);
    confirm = none;
  }

  abbrev pub confirm_key : App → Option ConfirmState → KeyEvent → App
  confirm_key app none key = app
  confirm_key app (some c) key =
      if is_char b'y' key.code
      then (let sent = confirmed app c in if app.paused then resume sent else sent)
      else if is_char b'n' key.code || is_esc key.code
      then record app { confirm = none }
      else app

  unfoldable pub handle_confirm_key : App → KeyEvent → App
  unfolding resume feedback kind_of pid_of
  handle_confirm_key app key = confirm_key app app.confirm key
