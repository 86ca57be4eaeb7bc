-- ===== src/Tui/Keys/Flag.antt =====
-- What the arms of `handle_key` in app.rs do to `should_quit` and to the admin actions.
use pg_lens.Prelude.{
  ℕ, ◌≡◌, refl, ap, ◌∙◌, Bool, true, false, ◌&&◌, Option, none, some, List, [], ◌∷◌, is_some,
  is_empty, not, if-both,
}
use pg_lens.Prelude.Text.{Text}
use pg_lens.Tui.Tabs.{
  Tab, macro_lens, micro_lens, blocks_lens, replication_lens, schema_lens, index_lens, query_lens,
  progress_lens, records_lens, from_index,
}
use pg_lens.Tui.Selection.{tables, activity}
use pg_lens.Prelude.Int.{ℤ}
use pg_lens.Tui.Confirm.{ConfirmState, AdminCommand}
use pg_lens.Tui.Filter.{slash_lens}
use pg_lens.Tui.Replay.{Media, leave_replay, Op, press, ReplayState, press_space}
use pg_lens.Tui.Keys.Arms.{same_tab, in_tables, in_activity}
use pg_lens.Tui.Keys.{resort_indexes, sort_next, schema_sort_next, move_selection_to, toggle_pause}
use pg_lens.Tui.Keys.{App, Call, Under, Recording, Loaded, frames_of, unreadable}
use pg_lens.Tui.Keys.Esc.{
  Result, switch_to, say, press_esc, close_or_quit, arm_or_quit, is_armed, clear_index,
  came_from_schema,
}
use pg_lens.Tui.Keys.Press.{
  press_enter, replay_recording, press_clear, cross_query, cross_index, press_yank, press_delete,
  press_psql, opens_detail, with_table,
}
use pg_lens.Tui.Keys.Steps.{press_replay, press_far, press_space_bar, said, after_press, quietly}
use pg_lens.Tui.Keys.Run.{sort_of, jump_digit, jump_back}

-- The fields that decide about admin actions, and, if `full`, the flag to quit.
abbrev pub watched :
    Bool → (media : Media) → App media → Bool × Bool × Option ConfirmState × List AdminCommand
watched full media a = (full && a.should_quit, a.read_only, a.confirm, a.pending_admin)

module _ (full : Bool) (media : Media) (app : App media) where
  abbrev IsSame : App media → Type 0
  IsSame a = watched full media a ≡ watched full media app

  -- A result with these fields as they were.
  pub record Stays (result : Result media) : Type 0 where
    pub holds : (a : App media) (cs : List Call) → result ≡ some (a, cs) → IsSame a

  pub stays : (a : App media) (cs : List Call) → IsSame a → Stays (some (a, cs))
  stays a cs e = record {
    holds = λ b ds h. let same : b ≡ a = cc h in ap (watched full media) same ∙ e;
  }

  pub panic-Stays : Stays none
  panic-Stays = record { holds = λ a cs h. absurd (cc) }

  pub option-Stays {ℓ} :
      {B : Type ℓ} (o : Option B) (n : Result media) (s : B → Result media)
      → Stays n
      → ((x : B) → Stays (s x))
      → Stays (elim o [ none ↦ n | some x ↦ s x ])
  option-Stays none n s hn hs = hn
  option-Stays (some x) n s hn hs = hs x

  pub switch_to-Stays : (t : Tab) → Stays (switch_to media t app)
  unfolding switch_to
  switch_to-Stays t = stays _ _ refl

  pub jump_digit-Stays : (n : ℕ) → Stays (jump_digit media n app)
  unfolding jump_digit
  jump_digit-Stays n =
      option-Stays (from_index n) _ _ (stays app [] refl)
        (λ t. if-both Stays _ (stays app [] refl) (switch_to-Stays t))

  pub jump_back-Stays : Stays (jump_back media app)
  unfolding jump_back
  jump_back-Stays = option-Stays app.previous_tab _ _ (stays app [] refl) switch_to-Stays

  pub press_yank-Stays : (under : Under media) → Stays (press_yank media under app)
  unfolding press_yank say
  press_yank-Stays under =
      option-Stays under.clipboard_text _ _ (stays _ [] refl) (λ t. stays _ [] refl)

  pub press_delete-Stays : (under : Under media) → Stays (press_delete media under app)
  unfolding press_delete say
  press_delete-Stays under =
      option-Stays under.selected_recording _ _ (stays _ [] refl)
        (λ r. if-both Stays _ (stays _ [] refl) (stays _ [] refl))

  pub press_psql-Stays : Stays (press_psql media app)
  unfolding press_psql say
  press_psql-Stays =
      if-both Stays (is_some app.player.replay) (stays (say media _ false _ app) [] refl) (
        if-both Stays app.is_mock (stays (say media _ false _ app) [] refl)
          (stays (record app { launch_psql_requested = true }) [] refl))

  pub with_table-Stays :
      (under : Under media) (jump : Text → App media → Result media)
      → ((n : Text) → Stays (jump n app))
      → Stays (with_table media under app jump)
  with_table-Stays under jump h = option-Stays under.table_name _ _ (stays _ [] refl) h

  pub cross_query-Stays : (n : Text) → Stays (cross_query media n app)
  unfolding cross_query
  cross_query-Stays n = stays _ _ refl

  pub cross_index-Stays : (n : Text) → Stays (cross_index media n app)
  unfolding cross_index
  cross_index-Stays n = stays _ _ refl

  pub press_clear-Stays : Stays (press_clear media app)
  unfolding press_clear
  press_clear-Stays =
      option-Stays (slash_lens app.active_tab app.schema_view app.micro_view) _ _ (stays _ [] refl)
        (λ l. if-both Stays _ (stays _ [] refl) (stays _ _ refl))

  loaded-Stays :
      (r : Recording media) (l : Loaded media) → r.loaded ≡ l → Stays (replay_recording media r app)
  unfolding replay_recording say
  loaded-Stays r (frames_of []) e = rw (replay_recording, e) (stays _ [] refl)
  loaded-Stays r (frames_of (x ∷ xs)) e = rw (replay_recording, e) (stays _ _ refl)
  loaded-Stays r (unreadable t) e = rw (replay_recording, e) (stays _ [] refl)

  pub press_enter-Stays : (under : Under media) → Stays (press_enter media under app)
  unfolding press_enter
  press_enter-Stays under =
      if-both Stays app.detail_open (stays (record app { detail_open = false }) [] refl) (
        if-both Stays app.waits_open (stays (record app { waits_open = false }) [] refl) (
          if-both Stays (same_tab app.active_tab records_lens)
            (option-Stays under.selected_recording _ _ (stays app [] refl)
              (λ r. loaded-Stays r r.loaded refl))
            (if-both Stays (opens_detail media under app)
              (stays (record app { detail_open = true }) _ refl) (stays app [] refl))))

  said-Stays :
      (o : Option Text) (cs : List Call) (a : App media) → IsSame a → Stays (said media o cs a)
  unfolding said say
  said-Stays none cs a e = stays a cs e
  said-Stays (some t) cs a e = stays _ [] e

  after-Stays :
      (op : Op media) (feedback : ReplayState media → Option Text)
      (before after : Option (ReplayState media)) (a : App media)
      → IsSame a
      → Stays (after_press media op feedback before after a)
  unfolding after_press
  after-Stays op feedback (some r) (some r') a e = said-Stays (feedback r') _ a e
  after-Stays op feedback (some r) none a e = stays a [] e
  after-Stays op feedback none after a e = stays a [] e

  pub press_replay-Stays :
      (op : Op media) (feedback : ReplayState media → Option Text)
      → Stays (press_replay media op feedback app)
  unfolding press_replay
  press_replay-Stays op feedback =
      option-Stays (press media op app.player) _ _ panic-Stays
        (λ p. after-Stays op feedback app.player.replay p.replay (record app { player = p }) refl)

  pub press_far-Stays : (op : Op media) (there : ℤ) → Stays (press_far media op there app)
  unfolding press_far
  press_far-Stays op there =
      if-both Stays (is_some app.player.replay) (press_replay-Stays op (quietly media))
        (stays app (move_selection_to there ∷ []) refl)

  pub press_space_bar-Stays : Stays (press_space_bar media app)
  unfolding press_space_bar
  press_space_bar-Stays =
      if-both Stays (is_some app.player.replay) (press_replay-Stays press_space (quietly media))
        (if-both Stays app.show_splash (stays app [] refl) (stays app (toggle_pause ∷ []) refl))

  pub sort_of-Stays : (t : Tab) → Stays (sort_of media t app)
  unfolding sort_of
  sort_of-Stays schema_lens =
      if-both Stays (in_tables app.schema_view)
        (stays (record app { schema_sort_mode = schema_sort_next app.schema_sort_mode }) _ refl)
        (stays app [] refl)
  sort_of-Stays query_lens = stays _ _ refl
  sort_of-Stays records_lens = stays _ _ refl
  sort_of-Stays index_lens = stays _ [] refl
  sort_of-Stays replication_lens = stays _ [] refl
  sort_of-Stays micro_lens =
      if-both Stays (in_activity app.micro_view)
        (stays (record app { sort_mode = sort_next app.sort_mode }) _ refl) (stays app [] refl)
  sort_of-Stays macro_lens = stays _ _ refl
  sort_of-Stays blocks_lens = stays _ _ refl
  sort_of-Stays progress_lens = stays _ _ refl

module _ (media : Media) (app : App media) where
  armed-IsSame : watched false media (arm_or_quit media app) ≡ watched false media app
  unfolding arm_or_quit say
  armed-IsSame =
      if-both (λ a. watched false media a ≡ watched false media app)
        (is_armed media app.esc_quit_armed_until app.tick_count) refl refl

  close_or_quit-Stays : Stays false media app (close_or_quit media app)
  unfolding close_or_quit
  close_or_quit-Stays =
      let P = Stays false media app in
      if-both P app.detail_open (stays false media app (record app { detail_open = false }) [] refl)
        (if-both P app.waits_open
          (stays false media app (record app { waits_open = false }) [] refl)
          (if-both P (same_tab app.active_tab schema_lens && not (in_tables app.schema_view))
            (stays false media app (record app { schema_view = tables }) [] refl)
            (if-both P
              (same_tab app.active_tab index_lens
                && (came_from_schema media app.previous_tab
                    && not (is_empty app.filters.index.text)))
              (stays false media app (clear_index media app) (resort_indexes ∷ []) refl)
              (if-both P (same_tab app.active_tab micro_lens && not (in_activity app.micro_view))
                (stays false media app (record app { micro_view = activity }) [] refl)
                (stays false media app (arm_or_quit media app) [] armed-IsSame)))))

  pub press_esc-Stays : Stays false media app (press_esc media app)
  unfolding press_esc say
  press_esc-Stays =
      option-Stays false media app (leave_replay media app.player) _ _ close_or_quit-Stays
        (λ live. stays false media app _ _ refl)
