-- ===== src/Tui/Tabs.antt =====
-- `Tab` of crates/pg_lens_tui/src/app.rs.
pub mod Cycle
use pg_lens.Prelude.{ℕ, Option, none, some, nat_eq, if◌then◌else◌}

pub data Tab : Type 0 where
  macro_lens : Tab
  micro_lens : Tab
  blocks_lens : Tab
  replication_lens : Tab
  schema_lens : Tab
  index_lens : Tab
  query_lens : Tab
  progress_lens : Tab
  records_lens : Tab

unfoldable pub index : Tab → ℕ
index macro_lens = 0
index micro_lens = 1
index blocks_lens = 2
index replication_lens = 3
index schema_lens = 4
index index_lens = 5
index query_lens = 6
index progress_lens = 7
index records_lens = 8

unfoldable pub from_index : ℕ → Option Tab
from_index n =
    if nat_eq n 0
    then some macro_lens
    else if nat_eq n 1
    then some micro_lens
    else if nat_eq n 2
    then some blocks_lens
    else if nat_eq n 3
    then some replication_lens
    else if nat_eq n 4
    then some schema_lens
    else if nat_eq n 5
    then some index_lens
    else if nat_eq n 6
    then some query_lens
    else if nat_eq n 7
    then some progress_lens
    else if nat_eq n 8
    then some records_lens
    else none

unfoldable pub next : Tab → Tab
next macro_lens = micro_lens
next micro_lens = blocks_lens
next blocks_lens = replication_lens
next replication_lens = schema_lens
next schema_lens = index_lens
next index_lens = query_lens
next query_lens = progress_lens
next progress_lens = records_lens
next records_lens = macro_lens

unfoldable pub prev : Tab → Tab
prev macro_lens = records_lens
prev micro_lens = macro_lens
prev blocks_lens = micro_lens
prev replication_lens = blocks_lens
prev schema_lens = replication_lens
prev index_lens = schema_lens
prev query_lens = index_lens
prev progress_lens = query_lens
prev records_lens = progress_lens
