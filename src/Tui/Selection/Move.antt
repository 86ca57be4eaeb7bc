-- ===== src/Tui/Selection/Move.antt =====
-- Where the keys of app.rs move the cursors.
use pg_lens.Prelude.{
  ℕ, zero, suc, ◌<◌, ◌≡◌, refl, sym, ap, ◌∙◌, Option, none, some, if-both, arith, ◌+◌, ◌-◌, ◌≤◌,
  ◌⊎◌, min, Bool, true, false, if◌then◌else◌,
}
use pg_lens.Tui.Tabs.{
  Tab, macro_lens, micro_lens, blocks_lens, replication_lens, schema_lens, index_lens, query_lens,
  progress_lens, records_lens,
}
use mathlib.Core.Path.{subst}
use pg_lens.Prelude.Int.{ℤ, pos, negsuc, max_zero}
use pg_lens.Tui.Selection.{
  Cursors, App, Target, Rows, target, SchemaView, tables, vacuum, sequences, MicroView, activity,
  idle, BlocksPane, tree_pane, locks_pane, blocks_tree, blocks_locks, index_table,
  replication_table, vacuum_table, sequences_table, schema_table, statements_table, progress_table,
  records_table, idle_table, activity_table, len_of, cursor, set_cursor, move_state, app_target,
  sync_table_detail_request, move_selection, move_selection_to, clamp_to,
}
use pg_lens.Tui.Selection.Bounds.{IsWithin, clamp_to-IsWithin, Clamped, size}

-- Whether a table is the one on screen.
abbrev pub shows : Target → Tab → SchemaView → MicroView → BlocksPane → Bool
shows blocks_tree blocks_lens s m tree_pane = true
shows blocks_locks blocks_lens s m locks_pane = true
shows index_table index_lens s m b = true
shows replication_table replication_lens s m b = true
shows vacuum_table schema_lens vacuum m b = true
shows sequences_table schema_lens sequences m b = true
shows schema_table schema_lens tables m b = true
shows statements_table query_lens s m b = true
shows progress_table progress_lens s m b = true
shows records_table records_lens s m b = true
shows idle_table micro_lens s idle b = true
shows activity_table micro_lens s activity b = true
shows activity_table macro_lens s m b = true
shows _ _ _ _ _ = false

-- Where a step leads from a row: by so many rows down or up, stopping at the ends.
abbrev pub Stepped : ℕ → ℤ → ℕ → ℕ → Type 0
Stepped last (pos n) i j = ((j ≡ i + n) × (j ≤ last)) ⊎ ((last < i + n) × (j ≡ last))
Stepped last (negsuc n) i j = (j + suc n ≡ i) ⊎ ((i < suc n) × (j ≡ 0))

-- A cursor that is moved: from where it is brought back to, by the step.
abbrev pub Moved : ℕ → ℤ → Option ℕ → Option ℕ → Type 0
Moved zero delta before after = after ≡ none
Moved (suc last) delta before after =
    (i j : ℕ) × Clamped (suc last) before (some i) × (after ≡ some j) × Stepped last delta i j

-- A cursor that jumps: to the row, or to the nearest one that there is.
abbrev pub Jumped : ℕ → ℤ → Option ℕ → Type 0
Jumped zero goal after = after ≡ none
Jumped (suc last) (pos n) after =
    ((n ≤ last) × (after ≡ some n)) ⊎ ((last < n) × (after ≡ some last))
Jumped (suc last) (negsuc n) after = after ≡ some 0

move_state-Moved : (s : Option ℕ) (len : ℕ) (d : ℤ) → Moved len d s (move_state s len d)
unfolding move_state
move_state-Moved s zero (pos n) = refl
move_state-Moved s zero (negsuc n) = refl
move_state-Moved none (suc last) (pos n) = (0, min n last, refl, ground arith, ground arith)
move_state-Moved (some i) (suc last) (pos n) =
    (min i last, min (min i last + n) last, ground arith, ground arith, ground arith)
move_state-Moved none (suc last) (negsuc n) = (0, 0, refl, ground arith, ground arith)
move_state-Moved (some i) (suc last) (negsuc n) =
    (min i last, min i last - suc n, ground arith, ground arith, ground arith)

clamp_to-Jumped : (len : ℕ) (goal : ℤ) → Jumped len goal (clamp_to len (max_zero goal))
clamp_to-Jumped zero goal = refl
clamp_to-Jumped (suc last) (pos n) = ground arith
clamp_to-Jumped (suc last) (negsuc n) = ground arith

move_state-IsWithin : (s : Option ℕ) (len : ℕ) (d : ℤ) → IsWithin len (move_state s len d)
unfolding move_state
move_state-IsWithin s zero (pos n) = refl
move_state-IsWithin s zero (negsuc n) = refl
move_state-IsWithin s (suc len) (pos n) = ground arith
move_state-IsWithin s (suc len) (negsuc n) = ground arith

sync-cursors : (app : App) → (sync_table_detail_request app).cursors ≡ app.cursors
unfolding sync_table_detail_request
sync-cursors app = if-both (λ (a : App). a.cursors ≡ app.cursors) _ refl refl

len_of-size : (t : Target) (r : Rows) → len_of t r ≡ size t r
unfolding len_of
len_of-size blocks_tree r = refl
len_of-size blocks_locks r = refl
len_of-size index_table r = refl
len_of-size replication_table r = refl
len_of-size vacuum_table r = refl
len_of-size sequences_table r = refl
len_of-size schema_table r = refl
len_of-size statements_table r = refl
len_of-size progress_table r = refl
len_of-size records_table r = refl
len_of-size idle_table r = refl
len_of-size activity_table r = refl

-- Only the cursor of the table on screen is set.
routed :
    (t : Target) (tab : Tab) (s : SchemaView) (m : MicroView) (b : BlocksPane) (x : Option ℕ)
    (c : Cursors)
    → cursor t (set_cursor (target tab s m b) x c) ≡ (if shows t tab s m b then x else cursor t c)
unfolding cursor set_cursor target
routed activity_table macro_lens s m b x c = refl
routed activity_table micro_lens s activity b x c = refl
routed idle_table micro_lens s idle b x c = refl
routed blocks_tree blocks_lens s m tree_pane x c = refl
routed blocks_locks blocks_lens s m locks_pane x c = refl
routed replication_table replication_lens s m b x c = refl
routed schema_table schema_lens tables m b x c = refl
routed vacuum_table schema_lens vacuum m b x c = refl
routed sequences_table schema_lens sequences m b x c = refl
routed index_table index_lens s m b x c = refl
routed statements_table query_lens s m b x c = refl
routed progress_table progress_lens s m b x c = refl
routed records_table records_lens s m b x c = refl
routed t macro_lens s m b x c = refl
routed t micro_lens s activity b x c = refl
routed t micro_lens s idle b x c = refl
routed t blocks_lens s m tree_pane x c = refl
routed t blocks_lens s m locks_pane x c = refl
routed t replication_lens s m b x c = refl
routed t schema_lens tables m b x c = refl
routed t schema_lens vacuum m b x c = refl
routed t schema_lens sequences m b x c = refl
routed t index_lens s m b x c = refl
routed t query_lens s m b x c = refl
routed t progress_lens s m b x c = refl
routed t records_lens s m b x c = refl

on_screen :
    (t : Target) (tab : Tab) (s : SchemaView) (m : MicroView) (b : BlocksPane)
    → shows t tab s m b ≡ true
    → target tab s m b ≡ t
unfolding target
on_screen activity_table macro_lens s m b h = refl
on_screen activity_table micro_lens s activity b h = refl
on_screen idle_table micro_lens s idle b h = refl
on_screen blocks_tree blocks_lens s m tree_pane h = refl
on_screen blocks_locks blocks_lens s m locks_pane h = refl
on_screen replication_table replication_lens s m b h = refl
on_screen schema_table schema_lens tables m b h = refl
on_screen vacuum_table schema_lens vacuum m b h = refl
on_screen sequences_table schema_lens sequences m b h = refl
on_screen index_table index_lens s m b h = refl
on_screen statements_table query_lens s m b h = refl
on_screen progress_table progress_lens s m b h = refl
on_screen records_table records_lens s m b h = refl
on_screen t macro_lens s m b h = absurd (cc)
on_screen t micro_lens s activity b h = absurd (cc)
on_screen t micro_lens s idle b h = absurd (cc)
on_screen t blocks_lens s m tree_pane h = absurd (cc)
on_screen t blocks_lens s m locks_pane h = absurd (cc)
on_screen t replication_lens s m b h = absurd (cc)
on_screen t schema_lens tables m b h = absurd (cc)
on_screen t schema_lens vacuum m b h = absurd (cc)
on_screen t schema_lens sequences m b h = absurd (cc)
on_screen t index_lens s m b h = absurd (cc)
on_screen t query_lens s m b h = absurd (cc)
on_screen t progress_lens s m b h = absurd (cc)
on_screen t records_lens s m b h = absurd (cc)

-- What holds of the table on screen, and what of the others.
abbrev pub OnScreen : Bool → Type 0 → Type 0 → Type 0
OnScreen true shown hidden = shown
OnScreen false shown hidden = hidden

module _ (app : App) (t : Target) where
  abbrev shown : Bool
  shown = shows t app.active_tab app.schema_view app.micro_view app.blocks_active_pane

  screen-OnScreen :
      (x : Option ℕ) (P : Option ℕ → Type 0) (after : Cursors)
      → after ≡ set_cursor (app_target app) x app.cursors
      → (app_target app ≡ t → P x)
      → (b : Bool) → shown ≡ b
      → OnScreen b (P (cursor t after)) (cursor t after ≡ cursor t app.cursors)
  unfolding app_target
  screen-OnScreen x P after e h true eq =
      let there : cursor t after ≡ x =
        ap (cursor t) e
        ∙ routed t _ _ _ _ x app.cursors
        ∙ ap (λ b. if b then x else cursor t app.cursors) eq in
      subst P (sym there) (h (on_screen t _ _ _ _ eq))
  screen-OnScreen x P after e h false eq =
      ap (cursor t) e
      ∙ routed t _ _ _ _ x app.cursors
      ∙ ap (λ b. if b then x else cursor t app.cursors) eq

  MovedTo : ℤ → Option ℕ → Option ℕ → Type 0
  MovedTo delta before after =
      IsWithin (size t app.rows) after × Moved (size t app.rows) delta before after

  JumpedTo : ℤ → Option ℕ → Type 0
  JumpedTo goal after = IsWithin (size t app.rows) after × Jumped (size t app.rows) goal after

  move-OnScreen :
      (delta : ℤ) (u : Target)
      → u ≡ t
      → MovedTo delta
          (cursor t app.cursors)
          (move_state (cursor u app.cursors) (len_of u app.rows) delta)
  unfolding MovedTo
  move-OnScreen delta u e =
      subst
        (λ (v : Target).
          MovedTo delta (cursor t app.cursors)
            (move_state (cursor v app.cursors) (len_of v app.rows) delta))
        (sym e)
        (subst
          (λ n. MovedTo delta (cursor t app.cursors) (move_state (cursor t app.cursors) n delta))
          (sym (len_of-size t app.rows))
          (
            move_state-IsWithin (cursor t app.cursors) (size t app.rows) delta,
            move_state-Moved (cursor t app.cursors) (size t app.rows) delta,
          ))

  jump-OnScreen :
      (goal : ℤ) (u : Target) → u ≡ t → JumpedTo goal (clamp_to (len_of u app.rows) (max_zero goal))
  unfolding JumpedTo
  jump-OnScreen goal u e =
      subst (λ (v : Target). JumpedTo goal (clamp_to (len_of v app.rows) (max_zero goal))) (sym e)
        (subst (λ n. JumpedTo goal (clamp_to n (max_zero goal))) (sym (len_of-size t app.rows))
          (
            clamp_to-IsWithin (size t app.rows) (max_zero goal),
            clamp_to-Jumped (size t app.rows) goal,
          ))

  -- A key that moves the selection moves the cursor of the table on screen by its step, and one
  -- that jumps moves it to its goal, stopping at both ends, so that it is on a row, or missing if
  -- there are none; the cursors of the other tables stay where they are.
  pub move_selection-IsWithin :
      (delta goal : ℤ)
      → let before = cursor t app.cursors in
        let after = cursor t (move_selection app delta).cursors in
        let jumped = cursor t (move_selection_to app goal).cursors in
        OnScreen shown
          (IsWithin (size t app.rows) after × Moved (size t app.rows) delta before after)
          (after ≡ before)
        × OnScreen shown
            (IsWithin (size t app.rows) jumped × Jumped (size t app.rows) goal jumped)
            (jumped ≡ before)
  unfolding move_selection move_selection_to MovedTo JumpedTo
  move_selection-IsWithin delta goal =
      let u = app_target app in
      let x = move_state (cursor u app.cursors) (len_of u app.rows) delta in
      let y = clamp_to (len_of u app.rows) (max_zero goal) in
      (
        screen-OnScreen x (MovedTo delta (cursor t app.cursors)) _
            (sync-cursors (record app { cursors = set_cursor u x app.cursors }))
            (move-OnScreen delta u) shown refl,
        screen-OnScreen y (JumpedTo goal) _
            (sync-cursors (record app { cursors = set_cursor u y app.cursors }))
            (jump-OnScreen goal u) shown refl,
      )
