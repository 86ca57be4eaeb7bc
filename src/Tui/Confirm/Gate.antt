-- ===== src/Tui/Confirm/Gate.antt =====
-- No admin command goes out but one that was shown and confirmed.
use pg_lens.Prelude.{
  ℕ, ◌≡◌, refl, sym, ap, ◌∙◌, ◌⊎◌, inl, inr, Bool, true, false, ◌||◌, Option, none, some, [], ◌∷◌,
  ◌++◌, if◌then◌else◌, if-both, if-each, Option-cases,
}
use pg_lens.Prelude.Text.{Text}
use pg_lens.Tui.Key.{KeyEvent, is_char, is_esc}
use pg_lens.Tui.Tabs.{
  Tab, macro_lens, micro_lens, blocks_lens, replication_lens, schema_lens, index_lens, query_lens,
  progress_lens, records_lens,
}
use pg_lens.Tui.Selection.{MicroView, activity, idle, BlocksPane, tree_pane, locks_pane}
use pg_lens.Tui.Confirm.{
  Holder, whom, of_progress, AdminCommand, cancel_backend, terminate_backend, ConfirmState,
  ActivityRow, Snapshot, App, Selected, AdminActionResult, announce, seen, confirm_key, victim,
  open_confirm, note_admin_result, apply_snapshot, resume, toggle_pause, receive,
  handle_confirm_key,
}

abbrev row_pid : Option ActivityRow → Option ℕ
row_pid none = none
row_pid (some row) = some row.pid

abbrev holder_pid : Option Holder → Option ℕ
holder_pid none = none
holder_pid (some h) = some h.pid

module _ (show : ℕ → Text) (contains : Text → Text → Bool) where
  -- A call of one of the functions on admin actions, or the main loop that takes what is queued.
  pub data Event : Type 0 where
    opened : Bool → Selected → Event
    pressed : KeyEvent → Event
    toggled : Event
    forwarded : Event
    received : Snapshot → Event
    shown : Snapshot → Event

  abbrev pub run_event : Event → App → App
  run_event (opened terminates sel) app = open_confirm app terminates sel
  run_event (pressed key) app = handle_confirm_key show contains app key
  run_event toggled app = toggle_pause show contains app
  run_event forwarded app = record app { pending_admin = [] }
  run_event (received s) app = receive show contains app s
  run_event (shown s) app = apply_snapshot show contains app s

  -- The fields that decide about admin actions.
  pub record SameGate (a b : App) : Type 0 where
    pub read_only : b.read_only ≡ a.read_only
    pub replaying : b.replaying ≡ a.replaying
    pub confirm : b.confirm ≡ a.confirm
    pub pending_admin : b.pending_admin ≡ a.pending_admin

  same : (app : App) → SameGate app app
  same app = record { read_only = refl; replaying = refl; confirm = refl; pending_admin = refl }

  announce-SameGate :
      (app : App) (o : Option AdminActionResult) → SameGate app (announce show contains app o)
  announce-SameGate app none = same app
  announce-SameGate app (some r) =
      if-both (SameGate app) (seen app.admin_seen_epoch_ms r.at_epoch_ms) (same app)
        (record { read_only = refl; replaying = refl; confirm = refl; pending_admin = refl })

  note-SameGate : (app : App) → SameGate app (note_admin_result show contains app)
  unfolding note_admin_result
  note-SameGate app = announce-SameGate app app.snapshot.last_admin_action

  apply_snapshot-SameGate :
      (app : App) (s : Snapshot) → SameGate app (apply_snapshot show contains app s)
  unfolding apply_snapshot
  apply_snapshot-SameGate app s =
      let g = note-SameGate (record app { snapshot = s; has_data = app.has_data || s.is_ok }) in
      record {
        read_only = g.read_only;
        replaying = g.replaying;
        confirm = g.confirm;
        pending_admin = g.pending_admin;
      }

  resume-SameGate : (app : App) → SameGate app (resume show contains app)
  unfolding resume
  resume-SameGate app = elim (Option-cases app.pending_snapshot) [
    | inl e ↦
        rw e (record { read_only = refl; replaying = refl; confirm = refl; pending_admin = refl })
    | inr (s, e) ↦ rw e (
        let g =
          apply_snapshot-SameGate (record app { paused = false; pending_snapshot = none }) s in
        record {
          read_only = g.read_only;
          replaying = g.replaying;
          confirm = g.confirm;
          pending_admin = g.pending_admin;
        })
  ]

  -- The pid of what is selected on screen, if an admin action can be about it.
  abbrev pub pid_at : Tab → MicroView → BlocksPane → Selected → Option ℕ
  pid_at micro_lens activity b sel = row_pid sel.row
  pid_at micro_lens idle b sel = none
  pid_at blocks_lens m tree_pane sel = holder_pid sel.block_node
  pid_at blocks_lens m locks_pane sel = holder_pid sel.active_lock
  pid_at progress_lens m b sel = sel.progress_pid
  pid_at _ m b sel = none

  abbrev pub selected_pid : App → Selected → Option ℕ
  selected_pid app sel = pid_at app.active_tab app.micro_view app.blocks_active_pane sel

  abbrev pub asked : Bool → ℕ → AdminCommand
  asked true pid = terminate_backend pid
  asked false pid = cancel_backend pid

  abbrev Opens : Bool → Selected → App → App → Type 0
  Opens terminates sel a b =
      (a.replaying ≡ false)
      × (a.read_only ≡ false)
      × (b.read_only ≡ false)
      × (b.pending_admin ≡ a.pending_admin)
      × (c : ConfirmState) × (pid : ℕ) × (b.confirm ≡ some c)
      × (selected_pid a sel ≡ some pid)
      × (c.command ≡ asked terminates pid)

  abbrev IsRefused : Selected → App → Type 0
  IsRefused sel a = (a.replaying ≡ true) ⊎ ((a.read_only ≡ true) ⊎ (selected_pid a sel ≡ none))

  abbrev IsInert : KeyEvent → App → Type 0
  IsInert key a =
      (a.confirm ≡ none)
      ⊎ ((is_char b'y' key.code ≡ false) × ((is_char b'n' key.code || is_esc key.code) ≡ false))

  abbrev Closes : KeyEvent → App → App → Type 0
  Closes key a b =
      (c : ConfirmState) × (a.confirm ≡ some c)
      × (b.confirm ≡ none)
      × (b.read_only ≡ a.read_only)
      × (((is_char b'y' key.code ≡ true) × (b.pending_admin ≡ a.pending_admin ++ c.command ∷ []))
          ⊎ ((is_char b'y' key.code ≡ false) × (b.pending_admin ≡ a.pending_admin)))

  -- What a call does to the gate. The modal opens, outside of a replay and of read-only mode, with
  -- the command that was asked for and the pid that is selected, and else nothing changes. A key
  -- closes the modal, and y queues its command, last, or nothing changes.
  abbrev pub Effect : Event → App → App → Type 0
  Effect (opened terminates sel) a b = (SameGate a b × IsRefused sel a) ⊎ Opens terminates sel a b
  Effect (pressed key) a b = (SameGate a b × IsInert key a) ⊎ Closes key a b
  Effect toggled a b = SameGate a b
  Effect forwarded a b =
      (b.pending_admin ≡ []) × (b.confirm ≡ a.confirm) × (b.read_only ≡ a.read_only)
  Effect (received s) a b = SameGate a b
  Effect (shown s) a b = SameGate a b

  whom-pid : (app : App) (o : Option Holder) → row_pid (whom app o) ≡ holder_pid o
  whom-pid app none = refl
  whom-pid app (some h) = refl

  progress-pid : (app : App) (o : Option ℕ) → row_pid (of_progress app o) ≡ o
  progress-pid app none = refl
  progress-pid app (some pid) = refl

  victim-pid :
      (app : App) (sel : Selected) (tab : Tab) (m : MicroView) (b : BlocksPane)
      → app.micro_view ≡ m
      → app.blocks_active_pane ≡ b
      → row_pid (victim app tab sel) ≡ pid_at tab m b sel
  unfolding victim
  victim-pid app sel micro_lens activity b e f = rw (victim, e) refl
  victim-pid app sel micro_lens idle b e f = rw (victim, e) refl
  victim-pid app sel blocks_lens m tree_pane e f = rw (victim, f) (whom-pid app sel.block_node)
  victim-pid app sel blocks_lens m locks_pane e f = rw (victim, f) (whom-pid app sel.active_lock)
  victim-pid app sel progress_lens m b e f = progress-pid app sel.progress_pid
  victim-pid app sel macro_lens m b e f = refl
  victim-pid app sel replication_lens m b e f = refl
  victim-pid app sel schema_lens m b e f = refl
  victim-pid app sel index_lens m b e f = refl
  victim-pid app sel query_lens m b e f = refl
  victim-pid app sel records_lens m b e f = refl

  command-asked :
      (terminates : Bool) (pid : ℕ)
      → (if terminates then terminate_backend pid else cancel_backend pid) ≡ asked terminates pid
  command-asked true pid = refl
  command-asked false pid = refl

  opened-Effect :
      (app : App) (terminates : Bool) (sel : Selected)
      → Effect (opened terminates sel) app (open_confirm app terminates sel)
  unfolding open_confirm
  opened-Effect app terminates sel =
      let P = Effect (opened terminates sel) app in
      let pid = victim-pid app sel app.active_tab app.micro_view app.blocks_active_pane refl refl in
      if-each P app.replaying (λ t. inl (same app, inl t))
        (λ live. elim (Option-cases (victim app app.active_tab sel)) [
          | inl e ↦ rw e (inl (same app, inr (inr (sym pid ∙ ap row_pid e))))
          | inr (row, e) ↦ rw e (
              if-each P app.read_only
                (λ t. inl (
                  record {
                    read_only = refl;
                    replaying = refl;
                    confirm = refl;
                    pending_admin = refl;
                  },
                  inr (inl t),
                ))
                (λ free. inr (
                  live,
                  free,
                  free,
                  refl,
                  _,
                  row.pid,
                  refl,
                  sym pid ∙ ap row_pid e,
                  command-asked terminates row.pid,
                )))
        ])

  confirm_key-Effect :
      (app : App) (o : Option ConfirmState) (key : KeyEvent)
      → app.confirm ≡ o
      → Effect (pressed key) app (confirm_key show contains app o key)
  confirm_key-Effect app none key e = inl (same app, inl e)
  confirm_key-Effect app (some c) key e =
      let P = Effect (pressed key) app in
      if-each P (is_char b'y' key.code)
        (λ y.
          if-both P app.paused
            (let g = resume-SameGate _ in
              inr (c, e, g.confirm, g.read_only, inl (y, g.pending_admin)))
            (inr (c, e, refl, refl, inl (y, refl))))
        (λ y.
          if-each P (is_char b'n' key.code || is_esc key.code)
            (λ n. inr (c, e, refl, refl, inr (y, refl))) (λ n. inl (same app, inr (y, n))))

  pressed-Effect :
      (app : App) (key : KeyEvent)
      → Effect (pressed key) app (handle_confirm_key show contains app key)
  unfolding handle_confirm_key
  pressed-Effect app key = confirm_key-Effect app app.confirm key refl

  toggle-SameGate : (app : App) → SameGate app (toggle_pause show contains app)
  unfolding toggle_pause
  toggle-SameGate app =
      if-both (SameGate app) app.paused (resume-SameGate app)
        (record { read_only = refl; replaying = refl; confirm = refl; pending_admin = refl })

  receive-SameGate : (app : App) (s : Snapshot) → SameGate app (receive show contains app s)
  unfolding receive
  receive-SameGate app s =
      if-both (SameGate app) app.paused
        (record { read_only = refl; replaying = refl; confirm = refl; pending_admin = refl })
        (apply_snapshot-SameGate app s)

  -- Whatever is called: the modal opens exactly outside of a replay and of read-only mode where
  -- something is selected, with its pid and the command that was asked for; a command is queued
  -- only by y, as the one that the open modal shows, once, since the modal closes; n and Esc close
  -- it with nothing queued; and nothing else touches what is queued but the main loop that takes it.
  pub Step-Effect : (event : Event) (app : App) → Effect event app (run_event event app)
  Step-Effect (opened terminates sel) app = opened-Effect app terminates sel
  Step-Effect (pressed key) app = pressed-Effect app key
  Step-Effect toggled app = toggle-SameGate app
  Step-Effect forwarded app = (refl, refl, refl)
  Step-Effect (received s) app = receive-SameGate app s
  Step-Effect (shown s) app = apply_snapshot-SameGate app s

  -- Read-only mode, with no modal open and nothing queued.
  pub record IsShut (a : App) : Type 0 where
    pub read_only : a.read_only ≡ true
    pub confirm : a.confirm ≡ none
    pub pending_admin : a.pending_admin ≡ []

  SameGate-IsShut : (a b : App) → SameGate a b → IsShut a → IsShut b
  SameGate-IsShut a b g h = record {
    read_only = g.read_only ∙ h.read_only;
    confirm = g.confirm ∙ h.confirm;
    pending_admin = g.pending_admin ∙ h.pending_admin;
  }

  Effect-IsShut : (event : Event) (a b : App) → Effect event a b → IsShut a → IsShut b
  Effect-IsShut (opened terminates sel) a b (inl (g, r)) h = SameGate-IsShut a b g h
  Effect-IsShut (opened terminates sel) a b (inr o) h =
      let free = o.1 in let shut = h.read_only in absurd (cc)
  Effect-IsShut (pressed key) a b (inl (g, r)) h = SameGate-IsShut a b g h
  Effect-IsShut (pressed key) a b (inr o) h =
      let some_c = o.1 in let shut = h.confirm in absurd (cc)
  Effect-IsShut toggled a b g h = SameGate-IsShut a b g h
  Effect-IsShut forwarded a b o h = record {
    read_only = o.2 ∙ h.read_only;
    confirm = o.1 ∙ h.confirm;
    pending_admin = o.0;
  }
  Effect-IsShut (received s) a b g h = SameGate-IsShut a b g h
  Effect-IsShut (shown s) a b g h = SameGate-IsShut a b g h

  pub run_event-IsShut : (event : Event) (app : App) → IsShut app → IsShut (run_event event app)
  run_event-IsShut event app h = Effect-IsShut event app _ (Step-Effect event app) h
