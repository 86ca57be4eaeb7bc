-- ===== src/Tui/Scenario.antt =====
-- A replay and a last press of Esc, for the theorems on the keys of the terminal front end.
use pg_lens.Prelude.{ℕ, ◌-◌, ◌*◌, ◌≡◌, refl, Bool, true, false, none, some, List, [], ◌∷◌}
use pg_lens.Prelude.Text.{Text, codes}
use pg_lens.Tui.Key.{KeyEvent, esc, char}
use pg_lens.Tui.Tabs
use pg_lens.Tui.Tabs.{index}
use pg_lens.Tui.Filter
use pg_lens.Tui.Keys
use pg_lens.Tui.Confirm
use pg_lens.Tui.Session.{Session, Input, run_calls, start, step, pressed}
use pg_lens.Tui.Session.ReadOnly.{IsHarmless, read_only-IsHarmless}
use pg_lens.Tui.Keys.{open_confirm}
use pg_lens.Tui.Keys.Arms.{arm_of, char_arm, same_tab}
use pg_lens.Tui.Selection.{tables, activity, tree_pane}
use pg_lens.Tui.Filter.{Filter, Filters}
use pg_lens.Tui.Replay.{
  Media, Player, Op, press_all, press_left, press_right, press_space, press_faster, pass_tick,
  start_replay, leave_replay,
}
use pg_lens.Tui.Replay.Frames.{replay-leave, IsPlaying}
use pg_lens.Tui.Keys.{App, Call, Under, overlay}
use pg_lens.Tui.Keys.Esc.{press_esc, close_or_quit, arm_or_quit}
use pg_lens.Tui.Keys.Run.{handle_key, run_arm}
use pg_lens.Tui.Keys.Quit.{quit_exact, quit_key}

-- Snapshots and speeds are numbers.
abbrev media : Media
media = record {
  Snap = ℕ;
  Speed = ℕ;
  one = 4;
  slower = λ s. s - 1;
  faster = λ s. s * 2;
  printed = λ s. [];
}

abbrev live : Player media
live = record { snapshot = 7; saved = none; replay = none }

abbrev played : List (Op media)
played = pass_tick true ∷ press_faster ∷ press_right ∷ press_right ∷ press_left ∷ press_space ∷ []

replay-leave_example :
    (p' : Player media) × (press_all media played (start_replay media 1 (2 ∷ 3 ∷ []) live)
      ≡ some p')
    × IsPlaying media 7 (1 ∷ 2 ∷ 3 ∷ []) p'
    × (leave_replay media p' ≡ some (record { snapshot = 7; saved = none; replay = none }))
replay-leave_example = replay-leave media live 1 (2 ∷ 3 ∷ []) played

abbrev no_filter : Filter
no_filter = record { text = []; editing = false; saved = [] }

abbrev filters : Filters
filters = record {
  micro = no_filter;
  schema = no_filter;
  statements = no_filter;
  progress = no_filter;
  records = no_filter;
  index = no_filter;
  should_quit = false;
}

-- The first tab with nothing open, where Esc was pressed five ticks ago.
abbrev waiting : App media
waiting = record {
  picker = false;
  help_open = false;
  confirm = none;
  delete_record_target = none;
  db_picker = false;
  server_picker = false;
  filters = filters;
  should_quit = false;
  tick_count = 105;
  esc_quit_armed_until = some 108;
  admin_feedback = none;
  active_tab = Tabs.macro_lens;
  previous_tab = none;
  detail_open = false;
  waits_open = false;
  schema_view = tables;
  micro_view = activity;
  blocks_active_pane = tree_pane;
  schema_show_partitions = false;
  table_detail_scroll = 0;
  sort_mode = Keys.duration;
  schema_sort_mode = Keys.total_size;
  statements_sort_mode = Keys.total_time;
  records_sort_mode = Keys.started_desc;
  show_splash = false;
  is_mock = false;
  read_only = true;
  pending_admin = [];
  launch_psql_requested = false;
  clipboard_request = none;
  schema_refresh_requests = 0;
  refresh_interval = 2000;
  player = live;
}

abbrev nowhere : Under media
nowhere = record {
  session_selected = false;
  table_name = none;
  index_selected = false;
  statement_selected = false;
  block_selected = false;
  progress_selected = false;
  slot_selected = false;
  selected_recording = none;
  clipboard_text = none;
}

abbrev pressed_esc : KeyEvent
pressed_esc = record { code = esc; control = false }

no_overlay : overlay media waiting ≡ none
unfolding overlay Filter.active_filter_lens
no_overlay = refl

it_ends :
    handle_key media nowhere waiting pressed_esc ≡ some (record waiting { should_quit = true }, [])
unfolding handle_key overlay Filter.active_filter_lens run_arm press_esc leave_replay close_or_quit
    arm_or_quit arm_of same_tab index
it_ends = refl

quit_exact_example : true ≡ quit_key media waiting pressed_esc
quit_exact_example =
    quit_exact media waiting nowhere pressed_esc (record waiting { should_quit = true }) []
      no_overlay it_ends

abbrev quiet : Confirm.Snapshot
quiet = record {
  activity_rows = [];
  vitals_database = codes "db";
  last_admin_action = none;
  is_ok = true;
}

-- The Micro Lens in read-only mode.
abbrev session : Session media
session = record {
  app = record waiting { active_tab = Tabs.micro_lens };
  paused = false;
  snapshot = quiet;
  pending_snapshot = none;
  admin_seen_epoch_ms = none;
  has_data = true;
}

abbrev pressed_c : Input media
pressed_c = record {
  key = record { code = char b'c'; control = false };
  under = nowhere;
  selected = record {
    row = some (record { pid = 42; username = codes "ann"; database = codes "db" });
    block_node = none;
    active_lock = none;
    progress_pid = none;
  };
  frame = quiet;
}

abbrev shown : ℕ → Text
shown n = n ∷ []

abbrev contained : Text → Text → Bool
contained s t = false

abbrev unchanged : Call → Input media → App media → App media
unchanged call i app = app

asks :
    handle_key media nowhere session.app pressed_c.key ≡ some (session.app, open_confirm false ∷ [])
unfolding handle_key overlay Filter.active_filter_lens run_arm arm_of char_arm same_tab index
asks = refl

abbrev refused : Session media
refused = run_calls media shown contained unchanged pressed_c (open_confirm false ∷ []) session

read_only-IsHarmless_example : IsHarmless media refused
read_only-IsHarmless_example =
    read_only-IsHarmless media shown contained unchanged
      (step start (pressed session pressed_c session.app (open_confirm false ∷ []) asks))
      (record { read_only = refl; confirm = refl; pending_admin = refl })
