-- ===== src/Tui/Keys/Kept.antt =====
-- The arms of `handle_key` in app.rs that leave `should_quit` as it is.
use pg_lens.Prelude.{Bool, true, false, ℕ, ◌+◌, [], ◌≡◌, refl, is_some, if-each}
use pg_lens.Tui.Replay.{
  Media, press_home, press_end, press_left, press_right, press_loop, press_slower, press_faster,
}
use pg_lens.Tui.Keys.{App, Under}
use pg_lens.Tui.Keys.Arms.{
  Arm, quit, escape, cancel, terminate, enter_row, next_tab, previous_tab, digit, go_back, slash,
  clear_filter, toggle_waits, toggle_vacuum, toggle_partitions, toggle_pane, jump_blocks,
  jump_query, jump_index, toggle_sequences, toggle_idle, yank, ask_delete, rescan, servers,
  databases, psql, help, scroll_up, scroll_down, move_up, move_down, page_back, page_on, first_row,
  last_row, sort_rows, space, refresh_schema, toggle_record, export, step_left, step_right,
  loop_frames, slow_down, speed_up, longer_interval, shorter_interval, nothing,
}
use pg_lens.Tui.Keys.Esc.{just, say}
use pg_lens.Tui.Keys.Press.{cross_query, cross_index}
use pg_lens.Tui.Keys.Steps.{quietly, loop_text, speed_text}
use pg_lens.Tui.Keys.Run.{run_arm}
use pg_lens.Tui.Keys.Flag.{
  Stays, stays, press_enter-Stays, switch_to-Stays, jump_digit-Stays, press_esc-Stays,
  jump_back-Stays, press_clear-Stays, with_table-Stays, cross_query-Stays, cross_index-Stays,
  press_yank-Stays, press_delete-Stays, press_psql-Stays, press_far-Stays, sort_of-Stays,
  press_space_bar-Stays, press_replay-Stays,
}

-- Zero for the arms that leave the flag alone.
abbrev pub ending : Arm → ℕ
ending quit = 1
ending escape = 2
ending _ = 0

module _ (full : Bool) (media : Media) (under : Under media) (app : App media) where
  pub run_arm-Stays :
      (arm : Arm) → ending arm ≡ 0 → Stays full media app (run_arm media arm under app)
  unfolding run_arm say
  run_arm-Stays quit h = absurd (cc)
  run_arm-Stays escape h = absurd (cc)
  run_arm-Stays cancel h = stays full media app _ _ refl
  run_arm-Stays terminate h = stays full media app _ _ refl
  run_arm-Stays enter_row h = press_enter-Stays full media app under
  run_arm-Stays next_tab h = switch_to-Stays full media app _
  run_arm-Stays previous_tab h = switch_to-Stays full media app _
  run_arm-Stays (digit n) h = jump_digit-Stays full media app n
  run_arm-Stays go_back h = jump_back-Stays full media app
  run_arm-Stays slash h = stays full media app _ _ refl
  run_arm-Stays clear_filter h = press_clear-Stays full media app
  run_arm-Stays toggle_waits h = stays full media app _ _ refl
  run_arm-Stays toggle_vacuum h = stays full media app _ _ refl
  run_arm-Stays toggle_partitions h = stays full media app _ _ refl
  run_arm-Stays toggle_pane h = stays full media app _ _ refl
  run_arm-Stays jump_blocks h = switch_to-Stays full media app _
  run_arm-Stays jump_query h =
      with_table-Stays full media app under (cross_query media) (cross_query-Stays full media app)
  run_arm-Stays jump_index h =
      with_table-Stays full media app under (cross_index media) (cross_index-Stays full media app)
  run_arm-Stays toggle_sequences h = stays full media app _ _ refl
  run_arm-Stays toggle_idle h = stays full media app _ _ refl
  run_arm-Stays yank h = press_yank-Stays full media app under
  run_arm-Stays ask_delete h = press_delete-Stays full media app under
  run_arm-Stays rescan h = stays full media app _ _ refl
  run_arm-Stays servers h = stays full media app _ _ refl
  run_arm-Stays databases h = stays full media app _ _ refl
  run_arm-Stays psql h = press_psql-Stays full media app
  run_arm-Stays help h = stays full media app _ _ refl
  run_arm-Stays scroll_up h = stays full media app _ _ refl
  run_arm-Stays scroll_down h = stays full media app _ _ refl
  run_arm-Stays move_up h = stays full media app _ _ refl
  run_arm-Stays move_down h = stays full media app _ _ refl
  run_arm-Stays page_back h = stays full media app _ _ refl
  run_arm-Stays page_on h = stays full media app _ _ refl
  run_arm-Stays first_row h = press_far-Stays full media app press_home _
  run_arm-Stays last_row h = press_far-Stays full media app press_end _
  run_arm-Stays sort_rows h = sort_of-Stays full media app _
  run_arm-Stays space h = press_space_bar-Stays full media app
  run_arm-Stays refresh_schema h =
      if-each (λ a. Stays full media app (just media a)) (is_some app.player.replay)
        (λ t. stays full media app app [] refl)
        (λ t.
          stays full media app
            (record app { schema_refresh_requests = app.schema_refresh_requests + 1 }) [] refl)
  run_arm-Stays toggle_record h = stays full media app _ _ refl
  run_arm-Stays export h = stays full media app _ _ refl
  run_arm-Stays step_left h = press_replay-Stays full media app press_left (quietly media)
  run_arm-Stays step_right h = press_replay-Stays full media app press_right (quietly media)
  run_arm-Stays loop_frames h = press_replay-Stays full media app press_loop (loop_text media)
  run_arm-Stays slow_down h = press_replay-Stays full media app press_slower (speed_text media)
  run_arm-Stays speed_up h = press_replay-Stays full media app press_faster (speed_text media)
  run_arm-Stays longer_interval h = stays full media app _ _ refl
  run_arm-Stays shorter_interval h = stays full media app _ _ refl
  run_arm-Stays nothing h = stays full media app _ _ refl

-- No arm touches what decides about admin actions.
module _ (media : Media) (under : Under media) (app : App media) where
  pub run_arm-gate : (arm : Arm) → Stays false media app (run_arm media arm under app)
  unfolding run_arm
  run_arm-gate quit = stays false media app (record app { should_quit = true }) [] refl
  run_arm-gate escape = press_esc-Stays media app
  run_arm-gate arm = run_arm-Stays false media under app arm refl
