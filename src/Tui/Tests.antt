-- ===== src/Tui/Tests.antt =====
-- Concrete keys, rows and snapshots for the theorems on the terminal front end.
use pg_lens.Tui.Clipboard.{symbol, base64_encode}
use pg_lens.Tui.Clipboard.Decode.{base64_decode, base64_roundtrip}
use pg_lens.Prelude.{
  zero, suc, ◌+◌, map, ℕ, ◌≡◌, refl, Bool, true, false, none, some, List, [], ◌∷◌, arith,
}
use pg_lens.Prelude.Text.{Text, codes}
use pg_lens.Prelude.Int.{pos, negsuc}
use pg_lens.Tui.Key.{KeyEvent, esc, enter, char, backspace}
use pg_lens.Tui.Tabs
use pg_lens.Tui.Tabs.{Tab, index, from_index, next, prev}
use pg_lens.Tui.Tabs.Cycle.{from_index-index}
use pg_lens.Tui.Picker.{Overlay, handle_overlay_key}
use pg_lens.Tui.Picker.Choice.{handle_overlay_key-Outcome, Outcome}
use pg_lens.Tui.Selection
use pg_lens.Tui.Selection.{
  tables, activity, tree_pane, Rows, Cursors, Forest, nil, cons, find, count, schema_table,
  clamp_selection, move_selection, app_target, len_of, cursor,
}
use pg_lens.Tui.Selection.Bounds.{clamp_selection-IsWithin, IsWithin, Clamped}
use pg_lens.Tui.Selection.Move.{move_selection-IsWithin, Moved}
use pg_lens.Tui.Selection.Tree.{find-preorder}
use pg_lens.Tui.Confirm.{
  ConfirmState, AdminCommand, cancel_backend, Snapshot, AdminActionResult, cancel, signalled,
  Selected, apply_snapshot, resume,
}
use pg_lens.Tui.Confirm
use pg_lens.Tui.Confirm.Gate.{opened, Effect, Step-Effect}
use pg_lens.Tui.Confirm.Announce.{receive_all, pause-resume, announced_once}
use pg_lens.Tui.Filter
use pg_lens.Tui.Filter.{Filters, schema_lens, handle_filter_key, press_slash}
use pg_lens.Tui.Filter.Edit.{filter_edit, press_all}

from_index-index_example : from_index 8 ≡ some Tabs.records_lens
unfolding index
from_index-index_example = (from_index-index Tabs.records_lens 8).0

abbrev overlay : Overlay Text
overlay = record {
  picker = some (record { entries = codes "a" ∷ codes "b" ∷ []; selected = 1 });
  should_quit = false;
  is_mock = false;
  is_replay = false;
  tick_count = 3;
  admin_feedback = none;
  pending_switch = none;
  current = some (codes "a");
}

abbrev key_enter : KeyEvent
key_enter = record { code = enter; control = false }

handle_overlay_key-Outcome_example :
    Outcome
      (λ (e : Text). e)
      []
      overlay
      key_enter
      (handle_overlay_key (λ (e : Text). e) [] overlay key_enter)
handle_overlay_key-Outcome_example =
    handle_overlay_key-Outcome (λ (e : Text). e) [] overlay key_enter (omega arith)

abbrev rows : Rows
rows = record {
  row_order = 0 ∷ 1 ∷ [];
  schema_row_order = 2 ∷ [];
  sequences_row_order = [];
  index_row_order = [];
  replication_row_order = [];
  statements_row_order = [];
  progress_row_order = [];
  records_row_order = [];
  schema_tables = none;
  vacuum_tables = none;
  idle_sessions = some 4;
  active_locks = none;
  blocking_tree = none;
}

abbrev cursors : Cursors
cursors = record {
  table_state = some 5;
  schema_table_state = some 9;
  vacuum_table_state = some 1;
  sequences_table_state = none;
  index_table_state = none;
  replication_table_state = none;
  statements_table_state = none;
  progress_table_state = none;
  idle_table_state = none;
  blocks_tree_state = none;
  blocks_locks_state = none;
  records_table_state = none;
}

abbrev screen : Selection.App
screen = record {
  active_tab = Tabs.schema_lens;
  schema_view = tables;
  micro_view = activity;
  blocks_active_pane = tree_pane;
  detail_open = true;
  table_detail_scroll = 4;
  table_detail_request = none;
  rows = rows;
  cursors = cursors;
}

clamp_selection-IsWithin_example :
    IsWithin 1 (cursor schema_table (clamp_selection screen).cursors)
    × ((clamp_selection screen).rows ≡ rows)
    × Clamped 1 (some 9) (cursor schema_table (clamp_selection screen).cursors)
unfolding cursor
clamp_selection-IsWithin_example = clamp_selection-IsWithin screen schema_table

move_selection-IsWithin_example :
    IsWithin 1 (cursor schema_table (move_selection screen (pos 1)).cursors)
    × Moved 1 (pos 1) (some 9) (cursor schema_table (move_selection screen (pos 1)).cursors)
unfolding cursor
move_selection-IsWithin_example = (move_selection-IsWithin screen schema_table (pos 1) (negsuc 3)).0

abbrev forest : Forest
forest =
    cons (record { pid = 1; usename = [] }) (cons (record { pid = 2; usename = [] }) nil nil)
      (cons (record { pid = 3; usename = [] }) nil nil)

find-preorder_example : (find forest 0 2).0 ≡ some (record { pid = 3; usename = [] })
find-preorder_example = (find-preorder forest 2).0

abbrev quiet : Snapshot
quiet = record {
  activity_rows = [];
  vitals_database = codes "db";
  last_admin_action = none;
  is_ok = true;
}

abbrev app : Confirm.App
app = record {
  active_tab = Tabs.micro_lens;
  micro_view = activity;
  blocks_active_pane = tree_pane;
  replaying = false;
  read_only = true;
  paused = true;
  tick_count = 0;
  snapshot = quiet;
  pending_snapshot = none;
  confirm = none;
  pending_admin = [];
  admin_feedback = none;
  admin_seen_epoch_ms = none;
  has_data = true;
}

abbrev selected : Selected
selected = record {
  row = some (record { pid = 42; username = codes "ann"; database = codes "db" });
  block_node = none;
  active_lock = none;
  progress_pid = none;
}

abbrev shown : ℕ → Text
shown n = n ∷ []

abbrev contained : Text → Text → Bool
contained s t = false

abbrev writable : Confirm.App
writable = record app { read_only = false }

Step-Effect_example :
    Effect shown contained
      (opened true selected)
      writable
      (Confirm.open_confirm writable true selected)
Step-Effect_example = Step-Effect shown contained (opened true selected) writable

abbrev told : Snapshot
told = record quiet {
  last_admin_action =
      some (record { kind = cancel; pid = 42; outcome = signalled true; at_epoch_ms = 5 });
}

pause-resume_example :
    (resume shown contained (receive_all shown contained app (quiet ∷ told ∷ []))).snapshot ≡ told
pause-resume_example = (pause-resume shown contained app (quiet ∷ told ∷ []) refl).1

announced_once_example :
    (apply_snapshot shown contained
      (record (apply_snapshot shown contained app told) { tick_count = 99; admin_feedback = none })
      told).admin_feedback
    ≡ none
announced_once_example =
    (announced_once shown contained app told told
      (record { kind = cancel; pid = 42; outcome = signalled true; at_epoch_ms = 5 }) refl refl 99
      none).1

abbrev no_filter : Filter.Filter
no_filter = record { text = codes "x"; editing = false; saved = [] }

abbrev filters : Filters
filters = record {
  micro = no_filter;
  schema = no_filter;
  statements = no_filter;
  progress = no_filter;
  records = no_filter;
  index = no_filter;
  should_quit = false;
}

abbrev typed : List KeyEvent
typed =
    record { code = char 97; control = false } ∷ record { code = backspace; control = false } ∷ []

schema_is_edited : Filter.slash_lens Tabs.schema_lens tables activity ≡ some schema_lens
unfolding Filter.slash_lens
schema_is_edited = refl

no_edit : Filter.active_filter_lens filters ≡ none
unfolding Filter.active_filter_lens
no_edit = refl

filter_edit_example :
    (handle_filter_key
      (press_all (press_slash Tabs.schema_lens tables activity filters) typed)
      (record { code = esc; control = false })).0
    ≡ filters
unfolding Filter.filter_of Filter.set_filter
filter_edit_example =
    (filter_edit Tabs.schema_lens tables activity filters schema_lens typed schema_is_edited no_edit
      ((refl, refl, refl), ((refl, refl, refl), tt))).0

-- The runs of `symbol` are the program's table.
abbrev indices : ℕ → ℕ → List ℕ
indices zero i = []
indices (suc n) i = i ∷ indices n (i + 1)

alphabet_is_the_table :
    map symbol (indices 64 0)
    ≡ codes "ABCDEFGHIJKLMNOPQRSTUVWXYZabcdefghijklmnopqrstuvwxyz0123456789+/"
unfolding symbol
alphabet_is_the_table = refl

base64_roundtrip_example : base64_decode (base64_encode (codes "psql")) ≡ codes "psql"
base64_roundtrip_example =
    base64_roundtrip (codes "psql") (omega arith, (omega arith, (omega arith, (omega arith, tt))))
