-- ===== src/Tui/Keys/Press.antt =====
-- What `handle_key` of app.rs does on Enter, on `\`, and on the letters of the lenses.
use pg_lens.Prelude.{
  ◌*◌, Bool, true, false, ◌&&◌, ◌||◌, none, some, List, [], ◌∷◌, ◌++◌, is_some, is_empty,
  if◌then◌else◌,
}
use pg_lens.Prelude.Text.{Text, codes}
use pg_lens.Tui.Key.{admin_feedback_ticks}
use pg_lens.Tui.Tabs.{
  macro_lens, blocks_lens, replication_lens, index_lens, query_lens, progress_lens, records_lens,
}
use pg_lens.Tui.Filter
use pg_lens.Tui.Filter.{Filter, Filters, FilterLens, slash_lens, press_slash, filter_of, set_filter}
use pg_lens.Tui.Replay.{Media, start_replay}
use pg_lens.Tui.Keys.{
  App, Call, Under, Recording, frames_of, unreadable, apply_snapshot, clamp_selection,
  sync_table_detail_request, resort_micro, resort_schema, resort_sequences, resort_indexes,
  resort_statements, resort_progress, resort_records, select_first_statement, select_first_index,
}
use pg_lens.Tui.Keys.Arms.{same_tab, on_tables, on_activity}
use pg_lens.Tui.Keys.Esc.{Result, just, calling, say}

module _ (media : Media) where
  unfoldable pub replay_recording : Recording media → App media → Result media
  unfolding say start_replay
  replay_recording r app = elim r.loaded [
    | frames_of [] ↦ just media (
        say media (codes "File " ++ (r.filename ++ codes " contains no snapshots")) true
          (admin_feedback_ticks * 2) app)
    | frames_of (first ∷ others) ↦
        calling media
          (say media
            (codes "Replaying "
              ++ (r.filename ++ codes " (Space: pause, ←/→: step, Esc: exit replay)"))
            false (admin_feedback_ticks * 2)
            (record app {
              player = start_replay media first others app.player;
              active_tab = macro_lens;
            }))
          (apply_snapshot ∷ [])
    | unreadable e ↦ just media (
        say media (codes "Failed to read " ++ (r.filename ++ (codes ": " ++ e))) true
          (admin_feedback_ticks * 2) app)
  ]

  -- The condition under which Enter opens the details.
  unfoldable pub opens_detail : Under media → App media → Bool
  unfolding same_tab
  opens_detail under app =
      (on_activity media app && under.session_selected)
      || ((on_tables media app && is_some under.table_name)
          || ((same_tab app.active_tab index_lens && under.index_selected)
              || ((same_tab app.active_tab query_lens && under.statement_selected)
                  || ((same_tab app.active_tab blocks_lens && under.block_selected)
                      || ((same_tab app.active_tab progress_lens && under.progress_selected)
                          || (same_tab app.active_tab replication_lens && under.slot_selected))))))

  unfoldable pub press_enter : Under media → App media → Result media
  unfolding replay_recording opens_detail same_tab
  press_enter under app =
      let on_recording : Result media = elim under.selected_recording [
        | none ↦ just media app
        | some r ↦ replay_recording r app
      ] in
      if app.detail_open
      then just media (record app { detail_open = false })
      else if app.waits_open
      then just media (record app { waits_open = false })
      else if same_tab app.active_tab records_lens
      then on_recording
      else if opens_detail under app
      then calling media (record app { detail_open = true }) (sync_table_detail_request ∷ [])
      else just media app

  abbrev pub sorted_lens : FilterLens → List Call
  sorted_lens Filter.micro_lens = resort_micro ∷ clamp_selection ∷ []
  sorted_lens Filter.schema_lens = resort_schema ∷ resort_sequences ∷ clamp_selection ∷ []
  sorted_lens Filter.query_lens = resort_statements ∷ clamp_selection ∷ []
  sorted_lens Filter.progress_lens = resort_progress ∷ clamp_selection ∷ []
  sorted_lens Filter.records_lens = resort_records ∷ clamp_selection ∷ []
  sorted_lens Filter.index_lens = resort_indexes ∷ clamp_selection ∷ []

  -- `\`: the filter of the lens is cleared, where it has one that is not empty.
  unfoldable pub press_clear : App media → Result media
  unfolding slash_lens filter_of set_filter
  press_clear app = elim (slash_lens app.active_tab app.schema_view app.micro_view) [
    | none ↦ just media app
    | some lens ↦
        let f = filter_of lens app.filters in
        if is_empty f.text
        then just media app
        else calling media
            (record app { filters = set_filter lens (record f { text = [] }) app.filters })
            (sorted_lens lens)
  ]

  abbrev pub seeded : Text → Filter
  seeded name = record { text = name; editing = false; saved = name }

  unfoldable pub cross_query : Text → App media → Result media
  cross_query name app =
      calling media
        (record app {
          previous_tab = some app.active_tab;
          detail_open = false;
          waits_open = false;
          active_tab = query_lens;
          filters = record app.filters { statements = seeded name };
        })
        (resort_statements ∷ select_first_statement ∷ clamp_selection ∷ [])

  unfoldable pub cross_index : Text → App media → Result media
  cross_index name app =
      calling media
        (record app {
          previous_tab = some app.active_tab;
          detail_open = false;
          waits_open = false;
          active_tab = index_lens;
          filters = record app.filters { index = seeded name };
        })
        (resort_indexes ∷ select_first_index ∷ clamp_selection ∷ [])

  abbrev pub with_table : Under media → App media → (Text → App media → Result media) → Result media
  with_table under app jump = elim under.table_name [ none ↦ just media app | some n ↦ jump n app ]

  unfoldable pub press_yank : Under media → App media → Result media
  unfolding say
  press_yank under app = elim under.clipboard_text [
    | some text ↦ just media (record app { clipboard_request = some text })
    | none ↦ just media (say media (codes "nothing to copy here") false admin_feedback_ticks app)
  ]

  unfoldable pub press_delete : Under media → App media → Result media
  unfolding say
  press_delete under app = elim under.selected_recording [
    | none ↦ just media app
    | some r ↦
        if r.is_active
        then just media (
            say media (codes "Cannot delete active in-flight recording (stop recording first)") true
              admin_feedback_ticks app)
        else just media (record app { delete_record_target = some r.path })
  ]

  unfoldable pub press_psql : App media → Result media
  unfolding say
  press_psql app =
      if is_some app.player.replay
      then just media (
          say media (codes "replay mode: no live connection for psql") false admin_feedback_ticks
            app)
      else if app.is_mock
      then just media (
          say media (codes "mock mode: no real connection for psql") false admin_feedback_ticks app)
      else just media (record app { launch_psql_requested = true })
