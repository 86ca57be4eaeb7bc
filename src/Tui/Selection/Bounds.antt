-- ===== src/Tui/Selection/Bounds.antt =====
-- The cursors stay on the rows.
use pg_lens.Prelude.{
  ℕ, zero, suc, ◌<◌, ◌≡◌, refl, Option, none, some, arith, ◌≤◌, ◌⊎◌, length, unwrap_or,
}
use pg_lens.Tui.Selection.{
  App, Target, Rows, tree_len, blocks_tree, blocks_locks, index_table, replication_table,
  vacuum_table, sequences_table, schema_table, statements_table, progress_table, records_table,
  idle_table, activity_table, cursor, clamp_to, clamp, clamp_selection,
}

-- A cursor is on one of `len` rows, and there is none exactly if there are no rows.
abbrev pub IsWithin : ℕ → Option ℕ → Type 0
IsWithin len none = len ≡ 0
IsWithin len (some i) = i < len

pub clamp_to-IsWithin : (len i : ℕ) → IsWithin len (clamp_to len i)
clamp_to-IsWithin zero i = refl
clamp_to-IsWithin (suc len) i = ground arith

-- A cursor that is brought back to `len` rows: one that was on a row stays there, one that was
-- behind the last row is on the last one, and a missing one is on the first; without rows there is
-- none.
abbrev pub Clamped : ℕ → Option ℕ → Option ℕ → Type 0
Clamped zero before after = after ≡ none
Clamped (suc last) none after = after ≡ some 0
Clamped (suc last) (some i) after =
    ((i ≤ last) × (after ≡ some i)) ⊎ ((last < i) × (after ≡ some last))

clamp-Clamped : (len : ℕ) (s : Option ℕ) → Clamped len s (clamp len s)
clamp-Clamped zero s = refl
clamp-Clamped (suc last) none = ground arith
clamp-Clamped (suc last) (some i) = ground arith

-- How many rows a table shows.
abbrev pub size : Target → Rows → ℕ
size blocks_tree r = tree_len r.blocking_tree
size blocks_locks r = unwrap_or r.active_locks 0
size index_table r = length r.index_row_order
size replication_table r = length r.replication_row_order
size vacuum_table r = unwrap_or r.vacuum_tables 0
size sequences_table r = length r.sequences_row_order
size schema_table r = length r.schema_row_order
size statements_table r = length r.statements_row_order
size progress_table r = length r.progress_row_order
size records_table r = length r.records_row_order
size idle_table r = unwrap_or r.idle_sessions 0
size activity_table r = length r.row_order

-- After `clamp_selection`, whatever the rows have become, every cursor is on one of the rows of its
-- table, and is missing exactly if there are none: one that was on a row stays there, and one that
-- was behind the last row is on the last one. The rows are left alone.
pub clamp_selection-IsWithin :
    (app : App) (t : Target)
    → IsWithin (size t app.rows) (cursor t (clamp_selection app).cursors)
      × ((clamp_selection app).rows ≡ app.rows)
      × Clamped (size t app.rows) (cursor t app.cursors) (cursor t (clamp_selection app).cursors)
unfolding clamp_selection cursor
clamp_selection-IsWithin app blocks_tree = (clamp_to-IsWithin _ _, refl, clamp-Clamped _ _)
clamp_selection-IsWithin app blocks_locks = (clamp_to-IsWithin _ _, refl, clamp-Clamped _ _)
clamp_selection-IsWithin app index_table = (clamp_to-IsWithin _ _, refl, clamp-Clamped _ _)
clamp_selection-IsWithin app replication_table = (clamp_to-IsWithin _ _, refl, clamp-Clamped _ _)
clamp_selection-IsWithin app vacuum_table = (clamp_to-IsWithin _ _, refl, clamp-Clamped _ _)
clamp_selection-IsWithin app sequences_table = (clamp_to-IsWithin _ _, refl, clamp-Clamped _ _)
clamp_selection-IsWithin app schema_table = (clamp_to-IsWithin _ _, refl, clamp-Clamped _ _)
clamp_selection-IsWithin app statements_table = (clamp_to-IsWithin _ _, refl, clamp-Clamped _ _)
clamp_selection-IsWithin app progress_table = (clamp_to-IsWithin _ _, refl, clamp-Clamped _ _)
clamp_selection-IsWithin app records_table = (clamp_to-IsWithin _ _, refl, clamp-Clamped _ _)
clamp_selection-IsWithin app idle_table = (clamp_to-IsWithin _ _, refl, clamp-Clamped _ _)
clamp_selection-IsWithin app activity_table = (clamp_to-IsWithin _ _, refl, clamp-Clamped _ _)
