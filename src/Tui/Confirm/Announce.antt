-- ===== src/Tui/Confirm/Announce.antt =====
-- A paused screen loses nothing but what is out of date, and a result is announced once.
use pg_lens.Prelude.{
  ℕ, ◌+◌, ◌⊎◌, nat_eq, Bool-cases, ◌≡◌, refl, ◌∙◌, inl, inr, Bool, true, false, ◌||◌, Option, none,
  some, List, [], ◌∷◌, last?, or_else, unwrap_or, ap, if◌then◌else◌, if-both, arith,
}
use pg_lens.Prelude.Text.{Text}
use pg_lens.Tui.Key.{AdminFeedback, admin_feedback_ticks}
use pg_lens.Tui.Confirm.{
  Snapshot, App, AdminActionResult, message, feedback, announce, seen, apply_parked,
  note_admin_result, apply_snapshot, resume, receive,
}

last_or_else :
    (s : Snapshot) (rest : List Snapshot) (o : Option Snapshot)
    → or_else (last? rest) (some s) ≡ or_else (last? (s ∷ rest)) o
last_or_else s [] o = refl
last_or_else s (t ∷ r) o = last_or_else_more s t r o
  where
    last_or_else_more :
        (s t : Snapshot) (r : List Snapshot) (o : Option Snapshot)
        → or_else (last? (t ∷ r)) (some s) ≡ or_else (last? (t ∷ r)) o
    last_or_else_more s t [] o = refl
    last_or_else_more s t (u ∷ r) o = last_or_else_more s u r o

seen-some : (o : Option ℕ) (n : ℕ) → seen o n ≡ true → o ≡ some n
seen-some none n h = absurd (cc)
seen-some (some t) n h = ap some (ground (arith, h))

nat_eq_self : (n : ℕ) → nat_eq n n ≡ true
nat_eq_self n = ground arith

module _ (show : ℕ → Text) (contains : Text → Text → Bool) where
  -- The fields that a pause is about.
  record SameView (a b : App) : Type 0 where
    snapshot : b.snapshot ≡ a.snapshot
    paused : b.paused ≡ a.paused
    pending_snapshot : b.pending_snapshot ≡ a.pending_snapshot

  announce-SameView :
      (app : App) (o : Option AdminActionResult) → SameView app (announce show contains app o)
  announce-SameView app none = record { snapshot = refl; paused = refl; pending_snapshot = refl }
  announce-SameView app (some r) =
      if-both (SameView app) (seen app.admin_seen_epoch_ms r.at_epoch_ms)
        (record { snapshot = refl; paused = refl; pending_snapshot = refl })
        (record { snapshot = refl; paused = refl; pending_snapshot = refl })

  apply_snapshot-SameView :
      (app : App) (s : Snapshot)
      → SameView (record app { snapshot = s }) (apply_snapshot show contains app s)
  unfolding apply_snapshot note_admin_result
  apply_snapshot-SameView app s =
      let g =
        announce-SameView (record app { snapshot = s; has_data = app.has_data || s.is_ok })
          s.last_admin_action in
      record { snapshot = g.snapshot; paused = g.paused; pending_snapshot = g.pending_snapshot }

  -- Snapshots that come one after the other.
  abbrev pub receive_all : App → List Snapshot → App
  unfolding receive
  receive_all app [] = app
  receive_all app (s ∷ rest) = receive_all (receive show contains app s) rest

  receive-paused :
      (app : App) (s : Snapshot)
      → app.paused ≡ true
      → receive show contains app s ≡ record app { pending_snapshot = some s }
  unfolding receive
  receive-paused app s p =
      ap
        (λ b.
          if b
          then record app { pending_snapshot = some s }
          else apply_snapshot show contains app s)
        p

  receive_all-paused :
      (app : App) (snaps : List Snapshot)
      → app.paused ≡ true
      → ((receive_all app snaps).paused ≡ true)
        × ((receive_all app snaps).snapshot ≡ app.snapshot)
        × ((receive_all app snaps).pending_snapshot ≡ or_else (last? snaps) app.pending_snapshot)
  unfolding receive_all
  receive_all-paused app [] p = (p, refl, refl)
  receive_all-paused app (s ∷ rest) p =
      let (p', e, f) = receive_all-paused (record app { pending_snapshot = some s }) rest p in
      rw (receive_all, receive-paused app s p) (p', e, f ∙ last_or_else s rest app.pending_snapshot)

  apply_parked-lem :
      (app : App) (o : Option Snapshot)
      → app.pending_snapshot ≡ o
      → let after = apply_parked show contains app o in
        (after.snapshot ≡ unwrap_or o app.snapshot)
        × (after.paused ≡ app.paused)
        × (after.pending_snapshot ≡ none)
  apply_parked-lem app none e = (refl, refl, e)
  apply_parked-lem app (some s) e =
      let g = apply_snapshot-SameView (record app { pending_snapshot = none }) s in
      (g.snapshot, g.paused, g.pending_snapshot)

  -- A paused screen keeps its picture however many snapshots come; resuming shows the newest one
  -- that came, or, with none, the one that was parked before, or the old picture; and nothing
  -- stays parked.
  pub pause-resume :
      (app : App) (snaps : List Snapshot)
      → app.paused ≡ true
      → let frozen = receive_all app snaps in
        let after = resume show contains frozen in
        (frozen.snapshot ≡ app.snapshot)
        × (after.snapshot ≡ unwrap_or (or_else (last? snaps) app.pending_snapshot) app.snapshot)
        × (after.paused ≡ false)
        × (after.pending_snapshot ≡ none)
  unfolding resume
  pause-resume app snaps p =
      let (_, e, f) = receive_all-paused app snaps p in
      let frozen = receive_all app snaps in
      let (g, h, k) =
        apply_parked-lem (record frozen { paused = false }) frozen.pending_snapshot refl in
      (e, g ∙ (rw (f, e) refl), h, k)

  -- The result was seen before, or its message stands.
  pub Told : App → App → AdminActionResult → Type 0
  Told app shown r =
      (app.admin_seen_epoch_ms ≡ some r.at_epoch_ms)
      ⊎ (shown.admin_feedback
          ≡ some (record {
            text = (message show contains r.kind r.outcome r.pid).0;
            error = (message show contains r.kind r.outcome r.pid).1;
            expires_at_tick = app.tick_count + admin_feedback_ticks;
          }))

  announced :
      (app : App) (s : Snapshot) (r : AdminActionResult)
      → s.last_admin_action ≡ some r
      → Told app (apply_snapshot show contains app s) r
        × ((apply_snapshot show contains app s).admin_seen_epoch_ms ≡ some r.at_epoch_ms)
  unfolding Told apply_snapshot note_admin_result feedback
  announced app s r e = elim (Bool-cases (seen app.admin_seen_epoch_ms r.at_epoch_ms)) [
    | inl t ↦
        let was = seen-some app.admin_seen_epoch_ms r.at_epoch_ms t in
        (inl was, rw (apply_snapshot, note_admin_result, e, t) was)
    | inr f ↦ rw (apply_snapshot, note_admin_result, e, f) (inr refl, refl)
  ]

  announced_again :
      (app : App) (t : Snapshot) (r : AdminActionResult)
      → t.last_admin_action ≡ some r
      → app.admin_seen_epoch_ms ≡ some r.at_epoch_ms
      → (apply_snapshot show contains app t).admin_feedback ≡ app.admin_feedback
  unfolding apply_snapshot note_admin_result
  announced_again app t r f h =
      rw (apply_snapshot, note_admin_result, f, h, nat_eq_self r.at_epoch_ms) refl

  -- The result of an action is announced once: the snapshot that carries it says it, unless it was
  -- said before, and when a snapshot with the same result is shown again, at whatever time, the
  -- message that stands then, if there is one, is left alone.
  pub announced_once :
      (app : App) (s t : Snapshot) (r : AdminActionResult)
      → s.last_admin_action ≡ some r
      → t.last_admin_action ≡ some r
      → (now : ℕ) (standing : Option AdminFeedback)
      → let shown = apply_snapshot show contains app s in
        let later : App = record shown { tick_count = now; admin_feedback = standing } in
        Told app shown r × ((apply_snapshot show contains later t).admin_feedback ≡ standing)
  announced_once app s t r e f now standing =
      let shown = announced app s r e in (shown.0, announced_again _ t r f shown.1)
