-- ===== src/Tui/Keys/Esc.antt =====
-- What `handle_key` of app.rs does on Esc, and where it leaves a tab. A result `none` is a panic of
-- an index of the replay.
use pg_lens.Prelude.{
  ℕ, ◌+◌, Bool, true, false, not, ◌&&◌, Option, none, some, List, [], ◌∷◌, is_empty, leb,
  if◌then◌else◌,
}
use pg_lens.Prelude.Text.{Text, codes}
use pg_lens.Tui.Key.{admin_feedback_ticks}
use pg_lens.Tui.Tabs.{Tab, micro_lens, schema_lens, index_lens, records_lens}
use pg_lens.Tui.Selection.{tables, activity}
use pg_lens.Tui.Replay.{Media, leave_replay}
use pg_lens.Tui.Keys.{
  App, Call, esc_quit_window_ticks, apply_snapshot, refresh_records, resort_indexes,
}
use pg_lens.Tui.Keys.Arms.{same_tab, in_tables, in_activity}

module _ (media : Media) where
  abbrev pub Result : Type 0
  Result = Option (App media × List Call)

  abbrev pub just : App media → Result
  just app = some (app, [])

  abbrev pub calling : App media → List Call → Result
  calling app calls = some (app, calls)

  unfoldable pub say : Text → Bool → ℕ → App media → App media
  say text error ticks app = record app {
    admin_feedback =
        some (record { text = text; error = error; expires_at_tick = app.tick_count + ticks });
  }

  -- The statements that leave a tab: by `Tab`, `BackTab`, a digit, `Backspace` or a letter.
  unfoldable pub switch_to : Tab → App media → Result
  unfolding same_tab
  switch_to tab app =
      let there : App media = record app {
        previous_tab = some app.active_tab;
        detail_open = false;
        waits_open = false;
        active_tab = tab;
      } in
      calling there (if same_tab tab records_lens then refresh_records ∷ [] else [])

  -- Whether the last press of Esc still counts.
  abbrev pub is_armed : Option ℕ → ℕ → Bool
  is_armed none now = false
  is_armed (some until) now = leb now until

  unfoldable pub arm_or_quit : App media → App media
  unfolding say
  arm_or_quit app =
      if is_armed app.esc_quit_armed_until app.tick_count
      then record app { should_quit = true }
      else say (codes "Press Esc again to quit (q quits immediately)") false esc_quit_window_ticks
          (record app { esc_quit_armed_until = some (app.tick_count + esc_quit_window_ticks) })

  abbrev pub came_from_schema : Option Tab → Bool
  came_from_schema none = false
  came_from_schema (some t) = same_tab t schema_lens

  abbrev pub clear_index : App media → App media
  clear_index app = record app {
    filters = record app.filters { index = record app.filters.index { text = [] } };
    active_tab = schema_lens;
  }

  -- The branches of Esc without a replay.
  unfoldable pub close_or_quit : App media → Result
  unfolding arm_or_quit same_tab
  close_or_quit app =
      if app.detail_open
      then just (record app { detail_open = false })
      else if app.waits_open
      then just (record app { waits_open = false })
      else if same_tab app.active_tab schema_lens && not (in_tables app.schema_view)
      then just (record app { schema_view = tables })
      else if same_tab app.active_tab index_lens
          && (came_from_schema app.previous_tab && not (is_empty app.filters.index.text))
      then calling (clear_index app) (resort_indexes ∷ [])
      else if same_tab app.active_tab micro_lens && not (in_activity app.micro_view)
      then just (record app { micro_view = activity })
      else just (arm_or_quit app)

  unfoldable pub press_esc : App media → Result
  unfolding leave_replay say close_or_quit
  press_esc app = elim (leave_replay media app.player) [
    | none ↦ close_or_quit app
    | some live ↦
        calling
          (say (codes "Exited replay, returned to live view") false admin_feedback_ticks
            (record app { player = live }))
          (apply_snapshot ∷ [])
  ]
