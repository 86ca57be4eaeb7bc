-- ===== src/Poller/Slow.antt =====
-- The slow collection of crates/pg_lens_core/src/poller.rs: when it is due and what it keeps. Times
-- are in milliseconds; the rows that are only carried along are of any type.
pub mod Keep
use pg_lens.Prelude.{
  ℕ, ◌+◌, ◌-◌, ◌*◌, max, Bool, true, false, Option, none, some, List, [], ◌∷◌, ◌++◌, leb,
  if◌then◌else◌,
}
use pg_lens.Prelude.Text.{Text, codes}
use pg_lens.Prelude.Int.{ℤ, max_zero}
use pg_lens.Conn.Error.{Result, ok, err}
use pg_lens.Schema.Growth
use pg_lens.Schema.Growth.{Float, TableStatRow, SchemaGrowthTracker}

abbrev pub schema_interval_min : ℕ
schema_interval_min = 5000

abbrev pub max_tracked_tables : ℕ
max_tracked_tables = 200

abbrev pub growth_lookback_ms : ℕ
growth_lookback_ms = 60 * 60 * 1000

unfoldable pub growth_cap : ℤ → ℕ
growth_cap table_stats_limit = max (max_zero table_stats_limit) max_tracked_tables

unfoldable pub cadence_elapsed : Option ℕ → ℕ → ℕ → Bool
cadence_elapsed none now interval = true
cadence_elapsed (some at) now interval = leb interval (now - at)

pub data SchemaStatus : Type 0 where
  fine : SchemaStatus
  error : Text → SchemaStatus

-- The rows that `SchemaState` carries along.
pub record Payload : Type 1 where
  pub TableBloat : Type 0
  pub IndexBloat : Type 0
  pub ClusterAge : Type 0
  pub VacuumRow : Type 0
  pub IndexRow : Type 0
  pub SequenceRow : Type 0

module _ (float : Float) (payload : Payload) where
  open payload use {TableBloat, IndexBloat, ClusterAge, VacuumRow, IndexRow, SequenceRow}

  pub record SchemaSnapshot : Type 0 where
    pub collected_at_epoch_ms : ℕ
    pub tables : List (TableStatRow float)
    pub tables_total : Option ℕ
    pub table_bloat : List TableBloat
    pub index_bloat : List IndexBloat
    pub vacuum_cluster_age : Option ClusterAge
    pub vacuum_tables : List VacuumRow
    pub indexes : List IndexRow
    pub stats_reset_epoch_secs : Option ℕ
    pub sequences : List SequenceRow
    pub status : SchemaStatus

  pub record SchemaCollection : Type 0 where
    pub tables : List (TableStatRow float)
    pub tables_total : ℕ
    pub bloat : Option (Result Text (List TableBloat × List IndexBloat))
    pub vacuum_cluster_age : Option ClusterAge
    pub vacuum_tables : List VacuumRow
    pub indexes : List IndexRow
    pub stats_reset_epoch_secs : Option ℕ
    pub sequences : List SequenceRow

  -- `refresh_pending` is `refresh_rx.has_changed().unwrap_or(false)`.
  pub record SchemaState : Type 0 where
    pub interval : ℕ
    pub refresh_pending : Bool
    pub last_attempt : Option ℕ
    pub current : Option SchemaSnapshot
    pub growth : SchemaGrowthTracker float
    pub table_stats_limit : ℤ

  unfoldable pub new : ℕ → Bool → ℤ → SchemaState
  unfolding growth_cap Growth.new
  new interval pending limit = record {
    interval = max interval schema_interval_min;
    refresh_pending = pending;
    last_attempt = none;
    current = none;
    growth = Growth.new float (growth_cap limit);
    table_stats_limit = limit;
  }

  -- The answer of `due`, and the state with the refresh signal consumed.
  unfoldable pub due : SchemaState → ℕ → Option Bool × SchemaState
  unfolding cadence_elapsed
  due s now =
      if s.refresh_pending
      then (some true, record s { refresh_pending = false })
      else if cadence_elapsed s.last_attempt now s.interval
      then (some false, s)
      else (none, s)

  abbrev from_previous : {A : Type 0} → (SchemaSnapshot → A) → A → Option SchemaSnapshot → A
  from_previous f d none = d
  from_previous f d (some p) = f p

  abbrev kept_table_bloat : Option SchemaSnapshot → List TableBloat
  kept_table_bloat = from_previous (λ p. p.table_bloat) []

  abbrev kept_index_bloat : Option SchemaSnapshot → List IndexBloat
  kept_index_bloat = from_previous (λ p. p.index_bloat) []

  -- The `match` on the bloat part of a collection.
  unfoldable pub choose_bloat :
      Option SchemaSnapshot
      → Option (Result Text (List TableBloat × List IndexBloat))
      → List TableBloat × List IndexBloat × SchemaStatus
  choose_bloat previous none = (kept_table_bloat previous, kept_index_bloat previous, fine)
  choose_bloat previous (some (ok (tables, indexes))) = (tables, indexes, fine)
  choose_bloat previous (some (err msg)) = (
    kept_table_bloat previous,
    kept_index_bloat previous,
    error (codes "estimated-bloat collection failed: " ++ msg),
  )

  unfoldable pub store : SchemaState → SchemaCollection → ℕ → SchemaState
  unfolding Growth.update Growth.apply choose_bloat
  store s collection now =
      let growth = Growth.update float s.growth collection.tables now in
      let (table_bloat, index_bloat, status) = choose_bloat s.current collection.bloat in
      record s {
        growth = growth;
        current = some (record {
          collected_at_epoch_ms = now;
          tables = Growth.apply float growth collection.tables now growth_lookback_ms;
          tables_total = some collection.tables_total;
          table_bloat = table_bloat;
          index_bloat = index_bloat;
          vacuum_cluster_age = collection.vacuum_cluster_age;
          vacuum_tables = collection.vacuum_tables;
          indexes = collection.indexes;
          stats_reset_epoch_secs = collection.stats_reset_epoch_secs;
          sequences = collection.sequences;
          status = status;
        });
      }

  unfoldable pub reset : SchemaState → SchemaState
  unfolding growth_cap Growth.new
  reset s = record s {
    last_attempt = none;
    current = none;
    growth = Growth.new float (growth_cap s.table_stats_limit);
  }

  unfoldable pub store_error : SchemaState → Text → ℕ → SchemaState
  store_error s msg now =
      let previous = s.current in
      record s {
        current = some (record {
          collected_at_epoch_ms = from_previous (λ p. p.collected_at_epoch_ms) now previous;
          tables = from_previous (λ p. p.tables) [] previous;
          tables_total = from_previous (λ p. p.tables_total) none previous;
          table_bloat = from_previous (λ p. p.table_bloat) [] previous;
          index_bloat = from_previous (λ p. p.index_bloat) [] previous;
          vacuum_cluster_age = from_previous (λ p. p.vacuum_cluster_age) none previous;
          vacuum_tables = from_previous (λ p. p.vacuum_tables) [] previous;
          indexes = from_previous (λ p. p.indexes) [] previous;
          stats_reset_epoch_secs = from_previous (λ p. p.stats_reset_epoch_secs) none previous;
          sequences = from_previous (λ p. p.sequences) [] previous;
          status = error msg;
        });
      }
