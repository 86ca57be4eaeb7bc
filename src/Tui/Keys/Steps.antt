-- ===== src/Tui/Keys/Steps.antt =====
-- The arms of `handle_key` in app.rs for a replay, with what they do outside one.
use pg_lens.Prelude.{false, Option, none, some, List, [], ◌∷◌, ◌++◌, is_some, if◌then◌else◌}
use pg_lens.Prelude.Text.{Text, codes}
use pg_lens.Prelude.Int.{ℤ}
use pg_lens.Tui.Key.{admin_feedback_ticks}
use pg_lens.Tui.Replay.{Media, ReplayState, press, applies, Op, press_space}
use pg_lens.Tui.Keys.{App, Call, toggle_pause, apply_snapshot, move_selection_to}
use pg_lens.Tui.Keys.Esc.{Result, just, calling, say}

module _ (media : Media) where
  unfoldable pub said : Option Text → List Call → App media → Result media
  unfolding say
  said none shown app = calling media app shown
  said (some text) shown app = just media (say media text false admin_feedback_ticks app)

  -- After an arm of a replay, with its state before and after: `feedback` is what it says, if there
  -- is one.
  unfoldable pub after_press :
      Op media
      → (ReplayState media → Option Text)
      → Option (ReplayState media)
      → Option (ReplayState media)
      → App media
      → Result media
  unfolding said applies
  after_press op feedback (some r) (some r') app =
      said (feedback r') (if applies media op r then apply_snapshot ∷ [] else []) app
  after_press op feedback _ _ app = just media app

  unfoldable pub press_replay :
      Op media → (ReplayState media → Option Text) → App media → Result media
  unfolding press after_press
  press_replay op feedback app = elim (press media op app.player) [
    | none ↦ none
    | some player ↦
        after_press op feedback app.player.replay player.replay (record app { player = player })
  ]

  abbrev pub quietly : ReplayState media → Option Text
  quietly r = none

  abbrev pub loop_text : ReplayState media → Option Text
  loop_text r =
      some (codes "Replay loop " ++ (if r.loop_playback then codes "enabled" else codes "disabled"))

  abbrev pub speed_text : ReplayState media → Option Text
  speed_text r = some (codes "Playback speed: " ++ (media.printed r.speed ++ codes "x"))

  -- `Home` and `End`, which move a cursor outside a replay.
  unfoldable pub press_far : Op media → ℤ → App media → Result media
  unfolding press_replay
  press_far op there app =
      if is_some app.player.replay
      then press_replay op quietly app
      else calling media app (move_selection_to there ∷ [])

  unfoldable pub press_space_bar : App media → Result media
  unfolding press_replay
  press_space_bar app =
      if is_some app.player.replay
      then press_replay press_space quietly app
      else if app.show_splash
      then just media app
      else calling media app (toggle_pause ∷ [])
