-- ===== src/Poller/Tests.antt =====
-- A collection that is kept and a session that fails.
use pg_lens.Prelude.{ℕ, ◌≡◌, refl, true, false, none, some, [], ◌∷◌}
use pg_lens.Prelude.Text.{Text, codes}
use pg_lens.Prelude.Int.{ℤ, pos}
use pg_lens.Schema.Growth.{Float}
use pg_lens.Poller.Slow.{Payload, SchemaSnapshot, SchemaState, fine, error}
use pg_lens.Poller.Slow.Keep.{fail_all, fail_all-keeps, with_status}
use pg_lens.Poller.Reconnect.{Parts, Poller, round, slept}
use pg_lens.Poller.Reconnect
use pg_lens.Poller.Reconnect.Backoff
use pg_lens.Poller.Reconnect.Backoff.{backoff_exact, delays}

abbrev float : Float
float = record { F32 = ℤ; percent = λ a b. a; abs_above = λ p limit. false }

abbrev payload : Payload
payload = record {
  TableBloat = ℕ;
  IndexBloat = ℕ;
  ClusterAge = ℕ;
  VacuumRow = ℕ;
  IndexRow = ℕ;
  SequenceRow = ℕ;
}

abbrev collected : SchemaSnapshot float payload
collected = record {
  collected_at_epoch_ms = 40;
  tables = [];
  tables_total = some 3;
  table_bloat = 1 ∷ [];
  index_bloat = [];
  vacuum_cluster_age = some 9;
  vacuum_tables = [];
  indexes = 5 ∷ [];
  stats_reset_epoch_secs = none;
  sequences = [];
  status = fine;
}

abbrev state : SchemaState float payload
state = record {
  interval = 60000;
  refresh_pending = false;
  last_attempt = some 40;
  current = some collected;
  growth = record { rings = []; max_tables = 200 };
  table_stats_limit = pos 50;
}

fail_all-keeps_example :
    (fail_all float payload state ((codes "a", 50) ∷ (codes "b", 60) ∷ [])).current
    ≡ some (with_status float payload collected (error (codes "b")))
fail_all-keeps_example =
    (fail_all-keeps float payload state collected ((codes "a", 50) ∷ (codes "b", 60) ∷ []) refl).0

abbrev parts : Parts
parts = record {
  Config = Text;
  Password = Text;
  Statements = ℕ;
  IoStats = ℕ;
  TableDetail = ℕ;
  Admin = ℕ;
  Telemetry = ℕ;
  StorePath = Text;
  Point = ℕ;
  dbname = λ config name. name;
  history_path = λ config name. none;
  read = λ path. none;
  json = record { from_str = λ line. none; to_string = λ n. none };
  no_statements = 0;
  no_io_stats = 0;
  no_detail = 0;
  no_telemetry = 0;
}

abbrev poller : Poller float payload parts
poller = record {
  config = codes "db";
  password_source = none;
  service_name = none;
  backoff = 8;
  history = record { cap = 1800; points = 4 ∷ [] };
  store = none;
  appends_since_compact = 1;
  schema = state;
  statements = 1;
  io_stats = 1;
  table_detail = 1;
  last_admin = none;
  telemetry = 1;
  published = [];
  waited = [];
}

backoff_exact_example :
    (q : Poller float payload parts) × (r : Poller float payload parts) × (round float payload parts
        poller true
        (Reconnect.error (codes "x"))
        slept
      ≡ some q)
    × (Backoff.fail_all float payload parts q (codes "y" ∷ codes "z" ∷ []) ≡ some r)
    × (r.waited ≡ 1 ∷ 2 ∷ 4 ∷ [])
    × (r.published ≡ codes "x" ∷ codes "y" ∷ codes "z" ∷ [])
    × (r.config ≡ codes "db")
    × (r.history ≡ record { cap = 1800; points = 4 ∷ [] })
    × (r.last_admin ≡ none)
backoff_exact_example =
    backoff_exact float payload parts poller (codes "x") (codes "y" ∷ codes "z" ∷ [])
