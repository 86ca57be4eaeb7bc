-- ===== src/Tui/Replay/Frames.antt =====
-- What is on screen during a replay of app.rs, and that it ends where it began.
use pg_lens.Prelude.{
  ℕ, ◌+◌, ◌-◌, ◌<◌, ◌≡◌, refl, ap, ◌∙◌, true, false, Option, none, some, List, [], ◌∷◌, length,
  get_elem?, get_elem?-some, get_elem?-below, last?, arith, if-each, if-both, ltb→lt,
}
use pg_lens.Tui.Replay.{
  Media, ReplayState, Player, start_replay, leave_replay, show_frame, put, paused_at, Op,
  press_home, press_end, press_left, press_right, press_space, press_loop, press_slower,
  press_faster, pass_tick, home_frame, end_frame, left_frame, right_frame, space_frame, tick_frame,
  run_op, press, press_all,
}

last?-get {ℓ} : {A : Type ℓ} (x : A) (xs : List A) → last? (x ∷ xs) ≡ get_elem? (x ∷ xs) (length xs)
last?-get x [] = refl
last?-get x (y ∷ xs) = last?-get y xs

module _ (media : Media) where
  open media use {Snap, Speed}

  -- A replay of the frames is on: its current frame is on screen, and the live view is kept.
  pub record IsPlaying (live : Snap) (frames : List Snap) (p : Player media) : Type 0 where
    pub state : ReplayState media
    pub on : p.replay ≡ some state
    pub of_frames : state.frames ≡ frames
    pub on_screen : get_elem? frames state.current_idx ≡ some p.snapshot
    pub kept : p.saved ≡ some live

  pub record Plays (live : Snap) (frames : List Snap) (result : Option (Player media))
      : Type 0 where
    pub player : Player media
    pub returned : result ≡ some player
    pub playing : IsPlaying live frames player

  returns-Plays :
      (live : Snap) (frames : List Snap) (p : Player media)
      → IsPlaying live frames p
      → Plays live frames (some p)
  returns-Plays live frames p h = record { player = p; returned = refl; playing = h }

  module _ (live first : Snap) (others : List Snap) where
    show-Plays :
        (r : ReplayState media) (i : ℕ) (p : Player media)
        → r.frames ≡ first ∷ others
        → i < length (first ∷ others)
        → p.saved ≡ some live
        → Plays live (first ∷ others) (show_frame media r i p)
    unfolding show_frame
    show-Plays r i p e h kept =
        let there = get_elem?-some (first ∷ others) i h in
        let has : get_elem? r.frames i ≡ some there.0 = ap (λ fs. get_elem? fs i) e ∙ there.1 in
        rw (show_frame, has)
          (returns-Plays live (first ∷ others) _ record {
            state = record r { current_idx = i };
            on = refl;
            of_frames = e;
            on_screen = there.1;
            kept = kept;
          })

    -- A change of the state that keeps the frames and the place.
    put-Plays :
        (r r' : ReplayState media) (p : Player media)
        → r.frames ≡ first ∷ others
        → get_elem? (first ∷ others) r.current_idx ≡ some p.snapshot
        → p.saved ≡ some live
        → r'.frames ≡ r.frames
        → r'.current_idx ≡ r.current_idx
        → Plays live (first ∷ others) (some (put media r' p))
    put-Plays r r' p e shown kept same place = returns-Plays live (first ∷ others) _ record {
      state = r';
      on = refl;
      of_frames = same ∙ e;
      on_screen = ap (get_elem? (first ∷ others)) place ∙ shown;
      kept = kept;
    }

    place_below :
        (i : ℕ) (s : Snap) → get_elem? (first ∷ others) i ≡ some s → i < length (first ∷ others)
    place_below i s h = get_elem?-below (first ∷ others) i s h

    run_op-Plays :
        (op : Op media) (r : ReplayState media) (p : Player media)
        → r.frames ≡ first ∷ others
        → get_elem? (first ∷ others) r.current_idx ≡ some p.snapshot
        → p.saved ≡ some live
        → p.replay ≡ some r
        → Plays live (first ∷ others) (run_op media op r p)
    unfolding run_op home_frame end_frame left_frame right_frame space_frame tick_frame
    run_op-Plays press_home r p e shown kept on =
        rw (run_op, home_frame, ap (λ fs. get_elem? fs 0) e)
          (returns-Plays live (first ∷ others) _ record {
            state = record r { is_paused = true; current_idx = 0 };
            on = refl;
            of_frames = e;
            on_screen = refl;
            kept = kept;
          })
    run_op-Plays press_end r p e shown kept on =
        let there = get_elem?-some (first ∷ others) (length others) (omega arith) in
        let has : last? r.frames ≡ some there.0 = ap last? e ∙ (last?-get first others ∙ there.1) in
        rw (run_op, end_frame, has)
          (returns-Plays live (first ∷ others) _ record {
            state = record r { is_paused = true; current_idx = length r.frames - 1 };
            on = refl;
            of_frames = e;
            on_screen = ap (get_elem? (first ∷ others)) (omega (arith, ap length e)) ∙ there.1;
            kept = kept;
          })
    run_op-Plays press_left r p e shown kept on =
        if-each (Plays live (first ∷ others)) _
          (λ t.
            show-Plays (paused_at media r) (r.current_idx - 1) p e
              (omega (arith, place_below r.current_idx p.snapshot shown)) kept)
          (λ t. put-Plays r (paused_at media r) p e shown kept refl refl)
    run_op-Plays press_right r p e shown kept on =
        if-each (Plays live (first ∷ others)) _
          (λ t.
            show-Plays (paused_at media r) (r.current_idx + 1) p e
              (omega (arith, ltb→lt (r.current_idx + 1) (length r.frames) t, ap length e)) kept)
          (λ t. put-Plays r (paused_at media r) p e shown kept refl refl)
    run_op-Plays press_space r p e shown kept on =
        if-both (Plays live (first ∷ others)) _
          (put-Plays r (paused_at media r) p e shown kept refl refl)
          (if-both (Plays live (first ∷ others)) _
            (show-Plays (record r { is_paused = false }) 0 p e (omega arith) kept)
            (put-Plays r (record r { is_paused = false }) p e shown kept refl refl))
    run_op-Plays press_loop r p e shown kept on = put-Plays r _ p e shown kept refl refl
    run_op-Plays press_slower r p e shown kept on = put-Plays r _ p e shown kept refl refl
    run_op-Plays press_faster r p e shown kept on = put-Plays r _ p e shown kept refl refl
    run_op-Plays (pass_tick elapsed) r p e shown kept on =
        if-both (Plays live (first ∷ others)) _
          (returns-Plays live (first ∷ others) p
            (record { state = r; on = on; of_frames = e; on_screen = shown; kept = kept }))
          (if-each (Plays live (first ∷ others)) _
            (λ t.
              show-Plays r (r.current_idx + 1) p e
                (omega (arith, ltb→lt (r.current_idx + 1) (length r.frames) t, ap length e)) kept)
            (λ t.
              if-both (Plays live (first ∷ others)) _ (show-Plays r 0 p e (omega arith) kept)
                (put-Plays r (paused_at media r) p e shown kept refl refl)))

    press-Plays :
        (op : Op media) (p : Player media)
        → IsPlaying live (first ∷ others) p
        → Plays live (first ∷ others) (press media op p)
    unfolding press
    press-Plays op p h =
        rw (press, h.on) (run_op-Plays op h.state p h.of_frames h.on_screen h.kept h.on)

    press_all-IsPlaying :
        (ops : List (Op media)) (p : Player media)
        → IsPlaying live (first ∷ others) p
        → (p' : Player media) × (press_all media ops p ≡ some p')
          × IsPlaying live (first ∷ others) p'
    unfolding press_all
    press_all-IsPlaying [] p h = (p, refl, h)
    press_all-IsPlaying (op ∷ ops) p h =
        let step = press-Plays op p h in
        let rest = press_all-IsPlaying ops step.player step.playing in
        (rest.0, rw (press_all, step.returned) rest.1, rest.2)

  -- Whatever keys of a replay are pressed and however its frames pass, a recording with a frame is
  -- replayed without a panic: the current frame is the one on screen, and Esc ends the replay with
  -- the view on screen that was there when it began. That no snapshot arrives meanwhile is assumed.
  pub replay-leave :
      (p : Player media) (first : Snap) (others : List Snap) (ops : List (Op media))
      → (p' : Player media) × (press_all media ops (start_replay media first others p) ≡ some p')
        × IsPlaying p.snapshot (first ∷ others) p'
        × (leave_replay media p'
            ≡ some (record { snapshot = p.snapshot; saved = none; replay = none }))
  unfolding leave_replay start_replay
  replay-leave p first others ops =
      let begun : IsPlaying p.snapshot (first ∷ others) (start_replay media first others p) =
        record { state = _; on = refl; of_frames = refl; on_screen = refl; kept = refl } in
      let r = press_all-IsPlaying p.snapshot first others ops _ begun in
      (r.0, r.1, r.2, rw (leave_replay, r.2.kept) refl)
