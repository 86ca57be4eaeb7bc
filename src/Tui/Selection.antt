-- ===== src/Tui/Selection.antt =====
-- The cursors of the tables in crates/pg_lens_tui/src/app.rs: which one a key moves, how far, and
-- how all are kept on their rows. Of the `App` it holds the fields that these functions touch.
pub mod Bounds
pub mod Move
pub mod Tree
use pg_lens.Prelude.{
  ℕ, zero, suc, ◌+◌, ◌-◌, min, Bool, true, false, not, ◌&&◌, ◌||◌, Option, none, some, List, [],
  ◌∷◌, length, get_elem?, unwrap_or, nat_eq, if◌then◌else◌,
}
use pg_lens.Prelude.Text.{Text}
use pg_lens.Prelude.Int.{ℤ, pos, negsuc, max_zero}
use pg_lens.Tui.Tabs.{
  Tab, macro_lens, micro_lens, blocks_lens, replication_lens, schema_lens, index_lens, query_lens,
  progress_lens, records_lens, index,
}

pub data SchemaView : Type 0 where
  tables : SchemaView
  vacuum : SchemaView
  sequences : SchemaView

pub data MicroView : Type 0 where
  activity : MicroView
  idle : MicroView

pub data BlocksPane : Type 0 where
  tree_pane : BlocksPane
  locks_pane : BlocksPane

-- What the program reads of a `BlockTreeNode` besides its children.
pub record BlockNode : Type 0 where
  pub pid : ℕ
  pub usename : Text

-- A `Vec<BlockTreeNode>`: the first node, its children, and the other nodes.
pub data Forest : Type 0 where
  nil : Forest
  cons : BlockNode → Forest → Forest → Forest

-- `count`, a function inside `selection_target` and inside `clamp_selection`
unfoldable pub count : Forest → ℕ
count nil = 0
count (cons node children rest) = suc (count children) + count rest

-- `find`, a function inside `selected_block_node`, with the counter that it changes
unfoldable pub find : Forest → ℕ → ℕ → Option BlockNode × ℕ
find nil curr target = (none, curr)
find (cons node children rest) curr target =
    let inside : Option BlockNode × ℕ = find children (suc curr) target in
    let behind : Option BlockNode × ℕ = find rest inside.1 target in
    if nat_eq curr target
    then (some node, curr)
    else elim inside.0 [ some found ↦ (some found, inside.1) | none ↦ behind ]

-- The columns of a `TableStatRow` that a detail request is made of.
pub record TableRow : Type 0 where
  pub oid : ℕ
  pub schema : Text
  pub name : Text

pub data TableDetailRequest : Type 0 where
  fetch : TableRow → TableDetailRequest

-- The rows that the lenses show: the display orders, and what is read of the snapshot.
pub record Rows : Type 0 where
  pub row_order : List ℕ
  pub schema_row_order : List ℕ
  pub sequences_row_order : List ℕ
  pub index_row_order : List ℕ
  pub replication_row_order : List ℕ
  pub statements_row_order : List ℕ
  pub progress_row_order : List ℕ
  pub records_row_order : List ℕ
  pub schema_tables : Option (List TableRow)
  pub vacuum_tables : Option ℕ
  pub idle_sessions : Option ℕ
  pub active_locks : Option ℕ
  pub blocking_tree : Option Forest

-- The selected rows of the tables.
pub record Cursors : Type 0 where
  pub table_state : Option ℕ
  pub schema_table_state : Option ℕ
  pub vacuum_table_state : Option ℕ
  pub sequences_table_state : Option ℕ
  pub index_table_state : Option ℕ
  pub replication_table_state : Option ℕ
  pub statements_table_state : Option ℕ
  pub progress_table_state : Option ℕ
  pub idle_table_state : Option ℕ
  pub blocks_tree_state : Option ℕ
  pub blocks_locks_state : Option ℕ
  pub records_table_state : Option ℕ

pub record App : Type 0 where
  pub active_tab : Tab
  pub schema_view : SchemaView
  pub micro_view : MicroView
  pub blocks_active_pane : BlocksPane
  pub detail_open : Bool
  pub table_detail_scroll : ℕ
  pub table_detail_request : Option TableDetailRequest
  pub rows : Rows
  pub cursors : Cursors

-- The arms of `selection_target`.
pub data Target : Type 0 where
  blocks_tree : Target
  blocks_locks : Target
  index_table : Target
  replication_table : Target
  vacuum_table : Target
  sequences_table : Target
  schema_table : Target
  statements_table : Target
  progress_table : Target
  records_table : Target
  idle_table : Target
  activity_table : Target

unfoldable pub target : Tab → SchemaView → MicroView → BlocksPane → Target
target blocks_lens s m tree_pane = blocks_tree
target blocks_lens s m locks_pane = blocks_locks
target index_lens s m b = index_table
target replication_lens s m b = replication_table
target schema_lens vacuum m b = vacuum_table
target schema_lens sequences m b = sequences_table
target schema_lens tables m b = schema_table
target query_lens s m b = statements_table
target progress_lens s m b = progress_table
target records_lens s m b = records_table
target micro_lens s idle b = idle_table
target micro_lens s activity b = activity_table
target macro_lens s m b = activity_table

abbrev pub tree_len : Option Forest → ℕ
tree_len none = 0
tree_len (some tree) = count tree

-- The second component of `selection_target`
unfoldable pub len_of : Target → Rows → ℕ
unfolding count
len_of blocks_tree rows = tree_len rows.blocking_tree
len_of blocks_locks rows = unwrap_or rows.active_locks 0
len_of index_table rows = length rows.index_row_order
len_of replication_table rows = length rows.replication_row_order
len_of vacuum_table rows = unwrap_or rows.vacuum_tables 0
len_of sequences_table rows = length rows.sequences_row_order
len_of schema_table rows = length rows.schema_row_order
len_of statements_table rows = length rows.statements_row_order
len_of progress_table rows = length rows.progress_row_order
len_of records_table rows = length rows.records_row_order
len_of idle_table rows = unwrap_or rows.idle_sessions 0
len_of activity_table rows = length rows.row_order

-- The first component of `selection_target`, read and written.
unfoldable pub cursor : Target → Cursors → Option ℕ
cursor blocks_tree c = c.blocks_tree_state
cursor blocks_locks c = c.blocks_locks_state
cursor index_table c = c.index_table_state
cursor replication_table c = c.replication_table_state
cursor vacuum_table c = c.vacuum_table_state
cursor sequences_table c = c.sequences_table_state
cursor schema_table c = c.schema_table_state
cursor statements_table c = c.statements_table_state
cursor progress_table c = c.progress_table_state
cursor records_table c = c.records_table_state
cursor idle_table c = c.idle_table_state
cursor activity_table c = c.table_state

unfoldable pub set_cursor : Target → Option ℕ → Cursors → Cursors
set_cursor blocks_tree s c = record c { blocks_tree_state = s }
set_cursor blocks_locks s c = record c { blocks_locks_state = s }
set_cursor index_table s c = record c { index_table_state = s }
set_cursor replication_table s c = record c { replication_table_state = s }
set_cursor vacuum_table s c = record c { vacuum_table_state = s }
set_cursor sequences_table s c = record c { sequences_table_state = s }
set_cursor schema_table s c = record c { schema_table_state = s }
set_cursor statements_table s c = record c { statements_table_state = s }
set_cursor progress_table s c = record c { progress_table_state = s }
set_cursor records_table s c = record c { records_table_state = s }
set_cursor idle_table s c = record c { idle_table_state = s }
set_cursor activity_table s c = record c { table_state = s }

-- `move_state`; the sum of a row number and a step stays far below the range of a `usize`.
unfoldable pub move_state : Option ℕ → ℕ → ℤ → Option ℕ
move_state state len (pos n) =
    if nat_eq len 0 then none else some (min (min (unwrap_or state 0) (len - 1) + n) (len - 1))
move_state state len (negsuc n) =
    if nat_eq len 0 then none else some (min (unwrap_or state 0) (len - 1) - suc n)

abbrev bind : {A B : Type 0} → Option A → (A → Option B) → Option B
bind none f = none
bind (some a) f = f a

-- `selected_table`
unfoldable pub selected_table : App → Option TableRow
selected_table app = bind app.rows.schema_tables (λ all.
    bind app.cursors.schema_table_state (λ display_idx.
      bind (get_elem? app.rows.schema_row_order display_idx) (λ i. get_elem? all i)))

abbrev shows_tables : App → Bool
shows_tables app =
    nat_eq (index app.active_tab) 4 && (elim app.schema_view [ tables ↦ true | _ ↦ false ])

abbrev request : Option TableRow → Option TableDetailRequest → Option TableDetailRequest
request none r = r
request (some t) r = some (fetch t)

unfoldable pub sync_table_detail_request : App → App
unfolding selected_table index
sync_table_detail_request app =
    if not app.detail_open || not (shows_tables app) then app else record app {
      table_detail_scroll = 0;
      table_detail_request = request (selected_table app) app.table_detail_request;
    }

unfoldable pub app_target : App → Target
unfolding target
app_target app = target app.active_tab app.schema_view app.micro_view app.blocks_active_pane

unfoldable pub move_selection : App → ℤ → App
unfolding len_of cursor set_cursor move_state sync_table_detail_request
move_selection app delta =
    let t = app_target app in
    sync_table_detail_request (record app {
      cursors =
          set_cursor t (move_state (cursor t app.cursors) (len_of t app.rows) delta) app.cursors;
    })

abbrev pub clamp_to : ℕ → ℕ → Option ℕ
clamp_to len i = if nat_eq len 0 then none else some (min i (len - 1))

unfoldable pub move_selection_to : App → ℤ → App
unfolding len_of set_cursor sync_table_detail_request
move_selection_to app goal =
    let t = app_target app in
    sync_table_detail_request (record app {
      cursors = set_cursor t (clamp_to (len_of t app.rows) (max_zero goal)) app.cursors;
    })

-- One block of `clamp_selection`.
abbrev pub clamp : ℕ → Option ℕ → Option ℕ
clamp len s = clamp_to len (unwrap_or s 0)

-- The blocks that also close the detail panel of their own lens.
abbrev closes : App → Bool
closes app =
    (nat_eq (length app.rows.row_order) 0 && nat_eq (index app.active_tab) 1)
    || (nat_eq (length app.rows.schema_row_order) 0 && nat_eq (index app.active_tab) 4)
    || (nat_eq (length app.rows.index_row_order) 0 && nat_eq (index app.active_tab) 5)
    || (nat_eq (length app.rows.statements_row_order) 0 && nat_eq (index app.active_tab) 6)
    || (nat_eq (length app.rows.progress_row_order) 0 && nat_eq (index app.active_tab) 7)

unfoldable pub clamp_selection : App → App
unfolding len_of index
clamp_selection app =
    let r = app.rows in
    let c = app.cursors in
    record app {
      detail_open = if closes app then false else app.detail_open;
      cursors = record {
        table_state = clamp (length r.row_order) c.table_state;
        schema_table_state = clamp (length r.schema_row_order) c.schema_table_state;
        vacuum_table_state = clamp (unwrap_or r.vacuum_tables 0) c.vacuum_table_state;
        sequences_table_state = clamp (length r.sequences_row_order) c.sequences_table_state;
        index_table_state = clamp (length r.index_row_order) c.index_table_state;
        replication_table_state = clamp (length r.replication_row_order) c.replication_table_state;
        statements_table_state = clamp (length r.statements_row_order) c.statements_table_state;
        progress_table_state = clamp (length r.progress_row_order) c.progress_table_state;
        idle_table_state = clamp (unwrap_or r.idle_sessions 0) c.idle_table_state;
        blocks_tree_state = clamp (tree_len r.blocking_tree) c.blocks_tree_state;
        blocks_locks_state = clamp (unwrap_or r.active_locks 0) c.blocks_locks_state;
        records_table_state = clamp (length r.records_row_order) c.records_table_state;
      };
    }

-- `selected_block_node`
unfoldable pub selected_block_node : App → Option BlockNode
unfolding find
selected_block_node app =
    bind app.rows.blocking_tree
      (λ tree. bind app.cursors.blocks_tree_state (λ idx. (find tree 0 idx).0))
