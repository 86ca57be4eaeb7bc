-- ===== src/Poller/Reconnect.antt =====
-- The outer loop of crates/pg_lens_core/src/poller.rs, `run`, over sessions as a parameter: what a
-- session left behind, and why it ended. Times are in seconds.
pub mod Backoff
use pg_lens.Prelude.{
  ℕ, zero, suc, ◌+◌, ◌*◌, ◌^◌, min, Bool, true, false, Option, none, some, List, [], ◌∷◌, ◌++◌,
  if◌then◌else◌,
}
use pg_lens.Prelude.Text.{Text}
use pg_lens.History
use pg_lens.History.{SnapshotHistory, Json, File}
use pg_lens.Schema.Growth.{Float}
use pg_lens.Poller.Slow
use pg_lens.Poller.Slow.{Payload, SchemaState}

abbrev pub backoff_initial : ℕ
backoff_initial = 1

abbrev pub backoff_max : ℕ
backoff_max = 10

-- The parts of the state that the loop only passes on, with what a new one starts as, and the
-- calls of the driver and of the front end's function for the path of the history file.
pub record Parts : Type 1 where
  pub Config : Type 0
  pub Password : Type 0
  pub Statements : Type 0
  pub IoStats : Type 0
  pub TableDetail : Type 0
  pub Admin : Type 0
  pub Telemetry : Type 0
  pub StorePath : Type 0
  pub Point : Type 0
  -- `config.dbname(&name)` of the driver
  pub dbname : Config → Text → Config
  pub history_path : Config → Option Text → Option StorePath
  -- What the file at a path holds.
  pub read : StorePath → File
  pub json : Json Point
  pub no_statements : Statements
  pub no_io_stats : IoStats
  pub no_detail : TableDetail
  pub no_telemetry : Telemetry

module _ (float : Float) (payload : Payload) (parts : Parts) where
  open parts use {
    Config, Password, Statements, IoStats, TableDetail, Admin, Telemetry, StorePath, Point,
  }

  pub record ServerSwitchTarget : Type 0 where
    pub config : Config
    pub password_source : Option Password
    pub service_name : Text

  pub data SessionEnd : Type 0 where
    closed : SessionEnd
    switch_database : Text → SessionEnd
    switch_server : ServerSwitchTarget → SessionEnd
    error : Text → SessionEnd

  pub record Poller : Type 0 where
    pub config : Config
    pub password_source : Option Password
    pub service_name : Option Text
    pub backoff : ℕ
    pub history : SnapshotHistory Point
    pub store : Option StorePath
    pub appends_since_compact : ℕ
    pub schema : SchemaState float payload
    pub statements : Statements
    pub io_stats : IoStats
    pub table_detail : TableDetail
    pub last_admin : Option Admin
    pub telemetry : Telemetry
    -- The errors that were published, and the waits, from the first to the last.
    pub published : List Text
    pub waited : List ℕ

  abbrev pub file_of : Option StorePath → File
  file_of none = none
  file_of (some path) = parts.read path

  -- What both arms for a switch do, once the connection is changed.
  unfoldable pub start_over : Poller → Option StorePath → Poller
  unfolding History.start Slow.reset
  start_over p store = record p {
    history = (History.start parts.json (file_of store)).history;
    store = store;
    appends_since_compact = 0;
    schema = Slow.reset float payload p.schema;
    statements = parts.no_statements;
    io_stats = parts.no_io_stats;
    table_detail = parts.no_detail;
    last_admin = none;
    telemetry = parts.no_telemetry;
  }

  -- What interrupts the wait or the channel behind it.
  pub data Wake : Type 0 where
    slept : Wake
    shut_down : Wake
    no_receiver : Wake

  abbrev go_on : Wake → Poller → Option Poller
  go_on slept p = some p
  go_on shut_down p = none
  go_on no_receiver p = none

  -- One round of the loop behind the session: none if the poller ends.
  unfoldable pub round : Poller → Bool → SessionEnd → Wake → Option Poller
  unfolding start_over
  round p polled_ok closed wake = none
  round p polled_ok (switch_database name) wake =
      let config = parts.dbname p.config name in
      some (start_over (record p { config = config }) (parts.history_path config (some name)))
  round p polled_ok (switch_server t) wake = some (
      start_over
        (record p {
          config = t.config;
          password_source = t.password_source;
          service_name = some t.service_name;
        })
        (parts.history_path t.config none))
  round p polled_ok (error msg) wake =
      let delay = if polled_ok then backoff_initial else p.backoff in
      go_on wake (record p {
        published = p.published ++ msg ∷ [];
        waited = p.waited ++ delay ∷ [];
        backoff = min (delay * 2) backoff_max;
      })
