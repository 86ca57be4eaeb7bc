-- ===== src/Tui/Session/ReadOnly.antt =====
-- Read-only mode of app.rs, whatever happens.
use pg_lens.Prelude.{
  ℕ, ◌+◌, ◌≡◌, refl, ap, ◌∙◌, Bool, true, false, Option, none, some, List, [], ◌∷◌, if-both, arith,
}
use pg_lens.Prelude.Text.{Text}
use pg_lens.Tui.Key.{KeyEvent}
use pg_lens.Tui.Confirm.Gate
use pg_lens.Tui.Confirm.Gate.{IsShut, run_event-IsShut}
use pg_lens.Tui.Replay.{Media}
use pg_lens.Tui.Keys
use pg_lens.Tui.Keys.{App, Call, Under, overlay, handle_help_key}
use pg_lens.Tui.Keys.Arms.{arm_of}
use pg_lens.Tui.Keys.Run.{handle_key, via_overlay}
use pg_lens.Tui.Keys.Flag.{Stays, stays, option-Stays, watched}
use pg_lens.Tui.Keys.Kept.{run_arm-gate}
use pg_lens.Tui.Session.{
  Session, Input, admin_of, with_admin, run_call, run_calls, pass, Step, Steps, pressed, received,
  ticked, told, ended, forwarded, served, start, step,
}

module _ (media : Media) where
  help-watched :
      (app : App media) (key : KeyEvent)
      → watched false media (handle_help_key media app key) ≡ watched false media app
  unfolding handle_help_key
  help-watched app key = ground arith

  overlay-Stays :
      (app : App media) (key : KeyEvent) (o : Option Call)
      → Stays false media app (via_overlay media app key o)
  unfolding via_overlay
  overlay-Stays app key none = stays false media app _ [] (help-watched app key)
  overlay-Stays app key (some call) = stays false media app app (call ∷ []) refl

  handle_key-Stays :
      (under : Under media) (app : App media) (key : KeyEvent)
      → Stays false media app (handle_key media under app key)
  unfolding handle_key
  handle_key-Stays under app key =
      option-Stays false media app (overlay media app) _ _
        (run_arm-gate media under app (arm_of media app key.code key.control))
        (overlay-Stays app key)

  -- Read-only mode, with no modal open and nothing queued.
  pub record IsHarmless (s : Session media) : Type 0 where
    pub read_only : s.app.read_only ≡ true
    pub confirm : s.app.confirm ≡ none
    pub pending_admin : s.app.pending_admin ≡ []

  module _ (show : ℕ → Text) (contains : Text → Text → Bool)
      (other : Call → Input media → App media → App media) where
    event-IsHarmless :
        (s : Session media) (event : Gate.Event show contains)
        → IsHarmless s
        → IsHarmless (with_admin media s (Gate.run_event show contains event (admin_of media s)))
    event-IsHarmless s event h =
        let shut : IsShut show contains (admin_of media s) = record {
          read_only = h.read_only;
          confirm = h.confirm;
          pending_admin = h.pending_admin;
        } in
        let after = run_event-IsShut show contains event (admin_of media s) shut in
        record {
          read_only = h.read_only;
          confirm = after.confirm;
          pending_admin = after.pending_admin;
        }

    call-IsHarmless :
        (i : Input media) (call : Call) (s : Session media)
        → IsHarmless s
        → IsHarmless (run_call media show contains other i call s)
    unfolding run_call
    call-IsHarmless i Keys.handle_confirm_key s h = event-IsHarmless s (Gate.pressed i.key) h
    call-IsHarmless i (Keys.open_confirm terminates) s h =
        event-IsHarmless s (Gate.opened terminates i.selected) h
    call-IsHarmless i Keys.toggle_pause s h = event-IsHarmless s Gate.toggled h
    call-IsHarmless i Keys.apply_snapshot s h = event-IsHarmless s (Gate.shown i.frame) h
    call-IsHarmless i call s h = record {
      read_only = h.read_only;
      confirm = h.confirm;
      pending_admin = h.pending_admin;
    }

    calls-IsHarmless :
        (i : Input media) (calls : List Call) (s : Session media)
        → IsHarmless s
        → IsHarmless (run_calls media show contains other i calls s)
    unfolding run_calls
    calls-IsHarmless i [] s h = h
    calls-IsHarmless i (call ∷ calls) s h = calls-IsHarmless i calls _ (call-IsHarmless i call s h)

    Step-IsHarmless :
        {s t : Session media} → Step media show contains other s t → IsHarmless s → IsHarmless t
    unfolding pass
    Step-IsHarmless (pressed s i a calls e) h =
        let same = (handle_key-Stays i.under s.app i.key).holds a calls e in
        calls-IsHarmless i calls _ (record {
          read_only = ap (λ w. w.1) same ∙ h.read_only;
          confirm = ap (λ w. w.2) same ∙ h.confirm;
          pending_admin = ap (λ w. w.3) same ∙ h.pending_admin;
        })
    Step-IsHarmless (received s snapshot) h = event-IsHarmless s (Gate.received snapshot) h
    Step-IsHarmless (ticked s elapsed player frame e) h =
        let kept : IsHarmless (record s {
          app = record s.app {
            tick_count = s.app.tick_count + 1;
            admin_feedback = _;
            player = player;
          };
        }) =
          record {
            read_only = h.read_only;
            confirm = h.confirm;
            pending_admin = h.pending_admin;
          } in
        if-both IsHarmless _ (event-IsHarmless _ (Gate.shown frame) kept) kept
    Step-IsHarmless (told s f) h = record {
      read_only = h.read_only;
      confirm = h.confirm;
      pending_admin = h.pending_admin;
    }
    Step-IsHarmless (ended s) h = record {
      read_only = h.read_only;
      confirm = h.confirm;
      pending_admin = h.pending_admin;
    }
    Step-IsHarmless (forwarded s) h = record {
      read_only = h.read_only;
      confirm = h.confirm;
      pending_admin = refl;
    }
    Step-IsHarmless (served s a) h = record {
      read_only = h.read_only;
      confirm = h.confirm;
      pending_admin = h.pending_admin;
    }

    -- In read-only mode, from a state with no modal open and nothing queued, no admin command is
    -- ever queued and no modal ever opens, whatever keys are pressed on whatever tab, in a replay
    -- or not, and whatever snapshots, ticks and answers come. That the functions which only other
    -- components model leave the modal, the queue and the mode alone is a part of the model.
    pub read_only-IsHarmless :
        {s t : Session media} → Steps media show contains other s t → IsHarmless s → IsHarmless t
    read_only-IsHarmless start h = h
    read_only-IsHarmless (step before now) h = Step-IsHarmless now (read_only-IsHarmless before h)
