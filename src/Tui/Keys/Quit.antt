-- ===== src/Tui/Keys/Quit.antt =====
-- When `handle_key` of app.rs ends the program.
use pg_lens.Prelude.{
  ℕ, ◌≡◌, refl, sym, ap, ◌∙◌, inl, inr, Bool, true, false, not, ◌&&◌, ◌||◌, Option, none, some,
  List, [], ◌∷◌, is_some, arith, if-both, if-each, if◌then◌else◌, nat_eq, Bool-cases, Option-cases,
  is_empty,
}
use pg_lens.Prelude.Text.{codes}
use pg_lens.Tui.Key.{
  KeyCode, KeyEvent, esc, up, down, delete, char, is_esc, is_char, is_ctrl_c, admin_feedback_ticks,
}
use pg_lens.Tui.Tabs.{micro_lens, schema_lens, index_lens, records_lens}
use pg_lens.Tui.Selection.{tables, activity}
use pg_lens.Tui.Replay.{Media, Player, leave_replay}
use pg_lens.Tui.Keys.{App, Call, Under, overlay, resort_indexes, apply_snapshot}
use pg_lens.Tui.Keys.Arms
use pg_lens.Tui.Keys.Arms.{
  Arm, same_tab, in_tables, in_activity, arm_of, char_arm, middle_char, lens_char, jump_char,
  later_char,
}
use pg_lens.Tui.Keys.Esc.{
  Result, just, calling, press_esc, close_or_quit, arm_or_quit, is_armed, say, came_from_schema,
  clear_index,
}
use pg_lens.Tui.Keys.Run.{run_arm, handle_key}
use pg_lens.Tui.Keys.Kept.{ending, run_arm-Stays}
use pg_lens.Tui.Keys.Flag.{Stays, stays}

module _ (media : Media) (app : App media) where
  later_stays : (c : ℕ) (control : Bool) → ending (later_char media app c control) ≡ 0
  unfolding later_char
  later_stays c control = ground arith

  jump_stays : (c : ℕ) (control : Bool) → ending (jump_char media app c control) ≡ 0
  unfolding jump_char
  jump_stays c control = let h = later_stays c control in ground arith

  lens_stays : (c : ℕ) (control : Bool) → ending (lens_char media app c control) ≡ 0
  unfolding lens_char
  lens_stays c control = let h = jump_stays c control in ground arith

  middle_stays : (c : ℕ) (control : Bool) → ending (middle_char media app c control) ≡ 0
  unfolding middle_char
  middle_stays c control = let h = lens_stays c control in ground arith

  quit_char :
      (c : ℕ) (control : Bool)
      → ending (char_arm media app c control)
        ≡ (if nat_eq c b'q' || (nat_eq c b'c' && control) then 1 else 0)
  unfolding char_arm
  quit_char c control = let h = middle_stays c control in ground arith

  -- Whether Esc has something to close.
  left_view : Bool
  left_view = same_tab app.active_tab schema_lens && not (in_tables app.schema_view)

  from_schema : Bool
  from_schema =
      same_tab app.active_tab index_lens
      && (came_from_schema media app.previous_tab && not (is_empty app.filters.index.text))

  in_idle : Bool
  in_idle = same_tab app.active_tab micro_lens && not (in_activity app.micro_view)

  pub closes : Bool
  unfolding left_view from_schema in_idle
  closes = app.detail_open || (app.waits_open || (left_view || (from_schema || in_idle)))

  none_of :
      (a b c d e : Bool)
      → (a || (b || (c || (d || e)))) ≡ true
      → a ≡ false
      → b ≡ false
      → c ≡ false
      → d ≡ false
      → e ≡ false
      → ⊥
  none_of a b c d e h ha hb hc hd he = ground arith

  close-Stays : closes ≡ true → Stays true media app (close_or_quit media app)
  unfolding closes close_or_quit
  close-Stays h =
      if-each (Stays true media app) app.detail_open
        (λ t. stays true media app (record app { detail_open = false }) [] refl)
        (λ a.
          if-each (Stays true media app) app.waits_open
            (λ t. stays true media app (record app { waits_open = false }) [] refl)
            (λ b.
              if-each (Stays true media app) left_view
                (λ t. stays true media app (record app { schema_view = tables }) [] refl)
                (λ c.
                  if-each (Stays true media app) from_schema
                    (λ t. stays true media app (clear_index media app) (resort_indexes ∷ []) refl)
                    (λ d.
                      if-each (Stays true media app) in_idle
                        (λ t. stays true media app (record app { micro_view = activity }) [] refl)
                        (λ e. absurd (none_of _ _ left_view from_schema in_idle h a b c d e))))))

  close-falls : closes ≡ false → close_or_quit media app ≡ just media (arm_or_quit media app)
  unfolding closes close_or_quit
  close-falls h = ground arith

  armed :
      (arm_or_quit media app).should_quit
      ≡ (app.should_quit || is_armed media app.esc_quit_armed_until app.tick_count)
  unfolding arm_or_quit say
  armed = ground arith

  -- Whether Esc ends the program: nothing to leave or to close, and the last Esc still counts.
  pub esc_quits : Bool
  esc_quits =
      not (is_some app.player.saved)
      && (not closes && is_armed media app.esc_quit_armed_until app.tick_count)

  -- Whether a key ends the program.
  pub quit_key : KeyEvent → Bool
  quit_key key = (is_esc key.code && esc_quits) || (is_char b'q' key.code || is_ctrl_c key)

  Ends : Bool → Result media → Type 0
  Ends b result = (a : App media) (cs : List Call) → result ≡ some (a, cs) → a.should_quit ≡ b

  ends : (b : Bool) (a : App media) (cs : List Call) → a.should_quit ≡ b → Ends b (some (a, cs))
  unfolding Ends
  ends b a cs e c ds h = let same : c ≡ a = cc h in ap (λ (x : App media). x.should_quit) same ∙ e

  or_false : (b : Bool) → b ≡ (b || false)
  or_false true = refl
  or_false false = refl

  or_true : (b : Bool) → true ≡ (b || true)
  or_true true = refl
  or_true false = refl

  Stays-Ends :
      (result : Result media) → Stays true media app result → Ends (app.should_quit || false) result
  unfolding Ends
  Stays-Ends result s a cs h = ap (λ w. w.0) (s.holds a cs h) ∙ or_false app.should_quit

  quit-Ends :
      (under : Under media) → Ends (app.should_quit || true) (run_arm media Arms.quit under app)
  unfolding run_arm
  quit-Ends under = ends _ (record app { should_quit = true }) [] (or_true app.should_quit)

  no_esc : is_some app.player.saved ≡ true → esc_quits ≡ false
  unfolding esc_quits
  no_esc h = rw (esc_quits, h) refl

  no_close : closes ≡ true → esc_quits ≡ false
  unfolding esc_quits
  no_close h = ground arith

  last_esc :
      is_some app.player.saved ≡ false
      → closes ≡ false
      → esc_quits ≡ is_armed media app.esc_quit_armed_until app.tick_count
  unfolding esc_quits
  last_esc h k = rw (esc_quits, h, k) refl

  close-Ends :
      is_some app.player.saved ≡ false
      → Ends (app.should_quit || esc_quits) (close_or_quit media app)
  close-Ends h = elim (Bool-cases closes) [
    | inl t ↦ rw (no_close t) (Stays-Ends _ (close-Stays t))
    | inr f ↦ rw (close-falls f, last_esc h f) (ends _ (arm_or_quit media app) [] armed)
  ]

  after_esc :
      (o : Option (Player media))
      → is_some o ≡ is_some app.player.saved
      → Ends (app.should_quit || esc_quits) (elim o [
        | none ↦ close_or_quit media app
        | some live ↦
            calling media
              (say media
                (codes "Exited replay, returned to live view")
                false
                admin_feedback_ticks
                (record app { player = live }))
              (apply_snapshot ∷ [])
      ])
  unfolding say
  after_esc none e = close-Ends (sym e)
  after_esc (some live) e = rw (no_esc (sym e)) (ends _ _ _ (or_false app.should_quit))

  left_of : (p : Player media) → is_some (leave_replay media p) ≡ is_some p.saved
  unfolding leave_replay
  left_of p = elim (Option-cases p.saved) [
    | inl h ↦ rw (leave_replay, h) refl
    | inr h ↦ rw (leave_replay, h.1) refl
  ]

  esc-Ends : Ends (app.should_quit || esc_quits) (press_esc media app)
  unfolding press_esc
  esc-Ends = after_esc (leave_replay media app.player) (left_of app.player)

  module _ (under : Under media) where
    -- What an arm that is not Esc's does to the flag.
    arm-Ends :
        (arm : Arm) (b : Bool)
        → ending arm ≡ (if b then 1 else 0)
        → Ends (app.should_quit || b) (run_arm media arm under app)
    arm-Ends Arms.quit true h = quit-Ends under
    arm-Ends Arms.quit false h = absurd (cc)
    arm-Ends Arms.escape true h = absurd (cc)
    arm-Ends Arms.escape false h = absurd (cc)
    arm-Ends arm false h = Stays-Ends _ (run_arm-Stays true media under app arm h)
    arm-Ends arm true h = absurd (cc)

    key-Ends :
        (code : KeyCode) (control : Bool)
        → Ends
            (app.should_quit || quit_key (record { code = code; control = control }))
            (run_arm media (arm_of media app code control) under app)
    unfolding quit_key run_arm arm_of
    key-Ends esc control = rw (sym (or_false esc_quits)) esc-Ends
    key-Ends (char c) control = arm-Ends (char_arm media app c control) _ (quit_char c control)
    key-Ends up control =
        arm-Ends _ false (if-both (λ arm. ending arm ≡ 0) (Arms.scrolls media app) refl refl)
    key-Ends down control =
        arm-Ends _ false (if-both (λ arm. ending arm ≡ 0) (Arms.scrolls media app) refl refl)
    key-Ends delete control =
        arm-Ends _ false
          (if-both (λ arm. ending arm ≡ 0) (same_tab app.active_tab records_lens) refl refl)
    key-Ends code control = arm-Ends (arm_of media app code control) false refl

    -- A key that meets no overlay ends the program exactly if it is q, Ctrl-C, or an Esc that finds
    -- no replay to leave, nothing open to close and no view to go back from, while an earlier Esc
    -- still counts. That the key does not panic is a hypothesis.
    pub quit_exact :
        (key : KeyEvent) (a : App media) (cs : List Call)
        → overlay media app ≡ none
        → handle_key media under app key ≡ some (a, cs)
        → a.should_quit ≡ (app.should_quit || quit_key key)
    unfolding handle_key Ends
    quit_exact key a cs h r = key-Ends key.code key.control a cs (sym (rw (handle_key, h) refl) ∙ r)
