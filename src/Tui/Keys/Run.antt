-- ===== src/Tui/Keys/Run.antt =====
-- The arms of `handle_key` in app.rs together: what each does to the `App`, and what it calls.
use pg_lens.Prelude.{
  ℕ, ◌+◌, ◌-◌, true, false, not, ◌&&◌, Option, none, some, [], ◌∷◌, is_some, min, max,
  if◌then◌else◌,
}
use pg_lens.Prelude.Text.{codes}
use pg_lens.Prelude.Int.{pos, negsuc}
use pg_lens.Tui.Key.{KeyEvent, admin_feedback_ticks}
use pg_lens.Tui.Tabs.{
  Tab, micro_lens, blocks_lens, replication_lens, schema_lens, index_lens, query_lens, records_lens,
  from_index, next, prev,
}
use pg_lens.Tui.Selection.{SchemaView, tables, sequences}
use pg_lens.Tui.Filter.{press_slash}
use pg_lens.Tui.Replay.{
  Media, press_home, press_end, press_left, press_right, press_loop, press_slower, press_faster,
}
use pg_lens.Tui.Keys.{
  App, Call, Under, overlay, handle_help_key, sort_next, schema_sort_next, statements_sort_next,
  records_sort_next, schema_view_next, micro_view_next, toggle, open_confirm, open_db_picker,
  open_server_picker, toggle_recording, export_snapshot, refresh_records, clamp_selection,
  resort_micro, resort_schema, resort_statements, resort_records, move_selection,
}
use pg_lens.Tui.Keys.Arms.{
  Arm, quit, escape, cancel, terminate, enter_row, next_tab, previous_tab, digit, go_back, slash,
  clear_filter, toggle_waits, toggle_vacuum, toggle_partitions, toggle_pane, jump_blocks,
  jump_query, jump_index, toggle_sequences, toggle_idle, yank, ask_delete, rescan, servers,
  databases, psql, help, scroll_up, scroll_down, move_up, move_down, page_back, page_on, first_row,
  last_row, sort_rows, space, refresh_schema, toggle_record, export, step_left, step_right,
  loop_frames, slow_down, speed_up, longer_interval, shorter_interval, nothing, arm_of, same_tab,
  in_tables, in_activity,
}
use pg_lens.Tui.Keys.Esc.{Result, just, calling, say, switch_to, press_esc}
use pg_lens.Tui.Keys.Press.{
  press_enter, press_clear, cross_query, cross_index, with_table, press_yank, press_delete,
  press_psql,
}
use pg_lens.Tui.Keys.Steps.{
  press_replay, quietly, loop_text, speed_text, press_far, press_space_bar,
}

module _ (media : Media) where
  unfoldable pub sort_of : Tab → App media → Result media
  unfolding sort_next schema_sort_next statements_sort_next records_sort_next
  sort_of schema_lens app =
      if in_tables app.schema_view
      then calling media (record app { schema_sort_mode = schema_sort_next app.schema_sort_mode })
          (resort_schema ∷ [])
      else just media app
  sort_of query_lens app =
      calling media
        (record app { statements_sort_mode = statements_sort_next app.statements_sort_mode })
        (resort_statements ∷ [])
  sort_of records_lens app =
      calling media (record app { records_sort_mode = records_sort_next app.records_sort_mode })
        (resort_records ∷ [])
  sort_of index_lens app = just media app
  sort_of replication_lens app = just media app
  sort_of micro_lens app =
      if in_activity app.micro_view
      then calling media (record app { sort_mode = sort_next app.sort_mode }) (resort_micro ∷ [])
      else just media app
  sort_of _ app =
      calling media (record app { sort_mode = sort_next app.sort_mode }) (resort_micro ∷ [])

  abbrev pub sequences_or_tables : SchemaView → SchemaView
  sequences_or_tables sequences = tables
  sequences_or_tables _ = sequences

  unfoldable pub jump_digit : ℕ → App media → Result media
  unfolding switch_to
  jump_digit n app = elim (from_index n) [
    | none ↦ just media app
    | some tab ↦ if same_tab tab app.active_tab then just media app else switch_to media tab app
  ]

  unfoldable pub jump_back : App media → Result media
  unfolding switch_to
  jump_back app = elim app.previous_tab [
    | none ↦ just media app
    | some tab ↦ switch_to media tab app
  ]

  unfoldable pub run_arm : Arm → Under media → App media → Result media
  unfolding press_esc press_enter switch_to jump_digit jump_back press_slash press_clear cross_query
      cross_index press_yank press_delete press_psql press_replay press_far press_space_bar sort_of
      schema_view_next micro_view_next toggle say next prev from_index
  run_arm quit under app = just media (record app { should_quit = true })
  run_arm escape under app = press_esc media app
  run_arm cancel under app = calling media app (open_confirm false ∷ [])
  run_arm terminate under app = calling media app (open_confirm true ∷ [])
  run_arm enter_row under app = press_enter media under app
  run_arm next_tab under app = switch_to media (next app.active_tab) app
  run_arm previous_tab under app = switch_to media (prev app.active_tab) app
  run_arm (digit n) under app = jump_digit n app
  run_arm go_back under app = jump_back app
  run_arm slash under app = just media (record app {
    filters = press_slash app.active_tab app.schema_view app.micro_view app.filters;
  })
  run_arm clear_filter under app = press_clear media app
  run_arm toggle_waits under app = just media (record app {
    waits_open = not app.waits_open;
    detail_open = app.waits_open && app.detail_open;
  })
  run_arm toggle_vacuum under app =
      just media
        (record app { schema_view = schema_view_next app.schema_view; detail_open = false })
  run_arm toggle_partitions under app =
      calling media (record app { schema_show_partitions = not app.schema_show_partitions })
        (resort_schema ∷ clamp_selection ∷ [])
  run_arm toggle_pane under app =
      just media (record app { blocks_active_pane = toggle app.blocks_active_pane })
  run_arm jump_blocks under app = switch_to media blocks_lens app
  run_arm jump_query under app = with_table media under app (cross_query media)
  run_arm jump_index under app = with_table media under app (cross_index media)
  run_arm toggle_sequences under app =
      just media
        (record app { schema_view = sequences_or_tables app.schema_view; detail_open = false })
  run_arm toggle_idle under app = just media (record app {
    micro_view = micro_view_next app.micro_view;
    detail_open = false;
    waits_open = false;
  })
  run_arm yank under app = press_yank media under app
  run_arm ask_delete under app = press_delete media under app
  run_arm rescan under app =
      calling media
        (say media (codes "Rescanned recordings directory") false admin_feedback_ticks app)
        (refresh_records ∷ [])
  run_arm servers under app = calling media app (open_server_picker ∷ [])
  run_arm databases under app = calling media app (open_db_picker ∷ [])
  run_arm psql under app = press_psql media app
  run_arm help under app = just media (record app { help_open = true })
  run_arm scroll_up under app =
      just media (record app { table_detail_scroll = app.table_detail_scroll - 1 })
  run_arm scroll_down under app =
      just media (record app { table_detail_scroll = min (app.table_detail_scroll + 1) 500 })
  run_arm move_up under app = calling media app (move_selection (negsuc 0) ∷ [])
  run_arm move_down under app = calling media app (move_selection (pos 1) ∷ [])
  run_arm page_back under app = calling media app (move_selection (negsuc 9) ∷ [])
  run_arm page_on under app = calling media app (move_selection (pos 10) ∷ [])
  run_arm first_row under app = press_far media press_home (pos 0) app
  run_arm last_row under app = press_far media press_end (pos 0x7fff_ffff_ffff_ffff) app
  run_arm sort_rows under app = sort_of app.active_tab app
  run_arm space under app = press_space_bar media app
  run_arm refresh_schema under app = just media (
      if is_some app.player.replay
      then app
      else record app { schema_refresh_requests = app.schema_refresh_requests + 1 })
  run_arm toggle_record under app = calling media app (toggle_recording ∷ [])
  run_arm export under app = calling media app (export_snapshot ∷ [])
  run_arm step_left under app = press_replay media press_left (quietly media) app
  run_arm step_right under app = press_replay media press_right (quietly media) app
  run_arm loop_frames under app = press_replay media press_loop (loop_text media) app
  run_arm slow_down under app = press_replay media press_slower (speed_text media) app
  run_arm speed_up under app = press_replay media press_faster (speed_text media) app
  run_arm longer_interval under app =
      just media (record app { refresh_interval = min (app.refresh_interval + 500) 10000 })
  run_arm shorter_interval under app =
      just media (record app { refresh_interval = max (app.refresh_interval - 500) 500 })
  run_arm nothing under app = just media app

  unfoldable pub via_overlay : App media → KeyEvent → Option Call → Result media
  unfolding handle_help_key
  via_overlay app key none = just media (handle_help_key media app key)
  via_overlay app key (some call) = calling media app (call ∷ [])

  -- `handle_key`, for a key that is pressed.
  unfoldable pub handle_key : Under media → App media → KeyEvent → Result media
  unfolding overlay arm_of run_arm
  handle_key under app key = elim (overlay media app) [
    | some call ↦ via_overlay app key call
    | none ↦ run_arm (arm_of media app key.code key.control) under app
  ]
