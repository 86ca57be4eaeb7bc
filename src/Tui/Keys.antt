-- ===== src/Tui/Keys.antt =====
-- `handle_key` of crates/pg_lens_tui/src/app.rs: which overlay a key goes to, and the arms of the
-- match behind them. Of the `App` it holds the fields that these arms touch, and those that decide
-- about admin actions. What an arm only calls (sorting, moving a cursor, opening a picker) is held
-- as a list of calls, which the other modules model.
pub mod Arms
pub mod Esc
pub mod Press
pub mod Steps
pub mod Run
pub mod Flag
pub mod Kept
pub mod Quit
use pg_lens.Prelude.{
  ℕ, zero, suc, ◌+◌, ◌-◌, Bool, true, false, not, ◌&&◌, ◌||◌, Option, none, some, List, [], ◌∷◌,
  is_some, is_empty, leb, ltb, nat_eq, if◌then◌else◌, min, max,
}
use pg_lens.Prelude.Text.{Text}
use pg_lens.Prelude.Int.{ℤ}
use pg_lens.Tui.Key.{KeyEvent, AdminFeedback, is_esc, is_char, is_ctrl_c}
use pg_lens.Tui.Tabs.{Tab}
use pg_lens.Tui.Selection.{
  SchemaView, tables, vacuum, sequences, MicroView, activity, idle, BlocksPane, tree_pane,
  locks_pane,
}
use pg_lens.Tui.Confirm.{ConfirmState, AdminCommand}
use pg_lens.Tui.Filter.{Filters, active_filter_lens}
use pg_lens.Tui.Replay.{Media, Player}

-- The calls of functions that other modules model, or that only read and write files.
pub data Call : Type 0 where
  handle_picker_key handle_confirm_key handle_delete_record_confirm_key : Call
  handle_db_picker_key handle_server_picker_key handle_filter_key : Call
  open_confirm : Bool → Call
  open_db_picker open_server_picker toggle_recording export_snapshot toggle_pause : Call
  apply_snapshot refresh_records clamp_selection sync_table_detail_request : Call
  resort_micro resort_schema resort_sequences resort_indexes resort_statements : Call
  resort_progress resort_records : Call
  move_selection move_selection_to : ℤ → Call
  select_first_statement select_first_index : Call

pub data SortMode : Type 0 where
  duration state pid : SortMode

pub data SchemaSortMode : Type 0 where
  total_size dead_tuples bloat_pct seq_scans growth : SchemaSortMode

pub data StatementsSortMode : Type 0 where
  total_time calls mean rows temp : StatementsSortMode

pub data RecordsSortMode : Type 0 where
  started_desc started_asc size_desc name_asc : RecordsSortMode

-- `SortMode::next` and those of the other lenses
unfoldable pub sort_next : SortMode → SortMode
sort_next duration = state
sort_next state = pid
sort_next pid = duration

unfoldable pub schema_sort_next : SchemaSortMode → SchemaSortMode
schema_sort_next total_size = dead_tuples
schema_sort_next dead_tuples = bloat_pct
schema_sort_next bloat_pct = seq_scans
schema_sort_next seq_scans = growth
schema_sort_next growth = total_size

unfoldable pub statements_sort_next : StatementsSortMode → StatementsSortMode
statements_sort_next total_time = calls
statements_sort_next calls = mean
statements_sort_next mean = rows
statements_sort_next rows = temp
statements_sort_next temp = total_time

unfoldable pub records_sort_next : RecordsSortMode → RecordsSortMode
records_sort_next started_desc = started_asc
records_sort_next started_asc = size_desc
records_sort_next size_desc = name_asc
records_sort_next name_asc = started_desc

-- `SchemaView::next`, `MicroView::next` and `BlocksPane::toggle`
unfoldable pub schema_view_next : SchemaView → SchemaView
schema_view_next tables = vacuum
schema_view_next vacuum = tables
schema_view_next sequences = tables

unfoldable pub micro_view_next : MicroView → MicroView
micro_view_next activity = idle
micro_view_next idle = activity

unfoldable pub toggle : BlocksPane → BlocksPane
toggle tree_pane = locks_pane
toggle locks_pane = tree_pane

abbrev pub esc_quit_window_ticks : ℕ
esc_quit_window_ticks = 8

module _ (media : Media) where
  open media use {Snap}

  -- What `RecordingReader::load` makes of a file.
  pub data Loaded : Type 0 where
    frames_of : List Snap → Loaded
    unreadable : Text → Loaded

  pub record Recording : Type 0 where
    pub path : Text
    pub filename : Text
    pub is_active : Bool
    pub loaded : Loaded

  -- What the cursors stand on.
  pub record Under : Type 0 where
    pub session_selected : Bool
    pub table_name : Option Text
    pub index_selected : Bool
    pub statement_selected : Bool
    pub block_selected : Bool
    pub progress_selected : Bool
    pub slot_selected : Bool
    pub selected_recording : Option Recording
    pub clipboard_text : Option Text

  -- `picker`, `db_picker` and `server_picker` hold whether there is one.
  pub record App : Type 0 where
    pub picker : Bool
    pub help_open : Bool
    pub confirm : Option ConfirmState
    pub delete_record_target : Option Text
    pub db_picker : Bool
    pub server_picker : Bool
    pub filters : Filters
    pub should_quit : Bool
    pub tick_count : ℕ
    pub esc_quit_armed_until : Option ℕ
    pub admin_feedback : Option AdminFeedback
    pub active_tab : Tab
    pub previous_tab : Option Tab
    pub detail_open : Bool
    pub waits_open : Bool
    pub schema_view : SchemaView
    pub micro_view : MicroView
    pub blocks_active_pane : BlocksPane
    pub schema_show_partitions : Bool
    pub table_detail_scroll : ℕ
    pub sort_mode : SortMode
    pub schema_sort_mode : SchemaSortMode
    pub statements_sort_mode : StatementsSortMode
    pub records_sort_mode : RecordsSortMode
    pub show_splash : Bool
    pub is_mock : Bool
    pub read_only : Bool
    pub pending_admin : List AdminCommand
    pub launch_psql_requested : Bool
    pub clipboard_request : Option Text
    pub schema_refresh_requests : ℕ
    pub refresh_interval : ℕ
    pub player : Player media

  -- The overlay that a key goes to, in the order of the tests.
  unfoldable pub overlay : App → Option (Option Call)
  unfolding active_filter_lens
  overlay app =
      if app.picker
      then some (some handle_picker_key)
      else if app.help_open
      then some none
      else if is_some app.confirm
      then some (some handle_confirm_key)
      else if is_some app.delete_record_target
      then some (some handle_delete_record_confirm_key)
      else if app.db_picker
      then some (some handle_db_picker_key)
      else if app.server_picker
      then some (some handle_server_picker_key)
      else if is_some (active_filter_lens app.filters)
      then some (some handle_filter_key)
      else none

  unfoldable pub handle_help_key : App → KeyEvent → App
  handle_help_key app key =
      if is_esc key.code || is_char b'?' key.code
      then record app { help_open = false }
      else if is_ctrl_c key
      then record app { should_quit = true }
      else app
