-- ===== src/Lib.antt =====
-- pg_lens watches a PostgreSQL server: a poller connects, collects and publishes snapshots, and a
-- terminal and a web front end show them. This library models the parts of it that decide, and
-- proves what makes them correct.
--
-- Conn: where to connect. Conn/Settings and Conn/Resolve are crates/pg_lens_core/src/settings.rs
--   (`resolve` with its parts, in the order of the code), Conn/Services is services.rs beside it,
--   Conn/Remote is remote_config.rs. `tokio_postgres::Config` is the parameter `ConfigApi` of
--   Conn/Config, the operating system and the TOML reader are the parameter `Os`.
-- Sessions: Sessions/Blocking is crates/pg_lens_core/src/blocking.rs. Its loop runs on fuel, two
--   more than there are rows; a theorem shows that this is enough for every list of rows.
--   Sessions/Tree is blocks.rs beside it: `build_blocking_tree` and `build_node`, whose recursion
--   runs on fuel, two more than there are rows, which is enough for every list of rows too.
--   Durations and the order in which a `HashSet` is iterated are parameters.
-- History: crates/pg_lens_core/src/history.rs and history_store.rs, with the lines of poller.rs
--   that push, append, compact and load. A tick of the poller is `tick`, a start of it `start`.
--   `serde_json` is a parameter, of which it is assumed that what it writes it reads back with the
--   same whole numbers; floating-point numbers may differ.
-- Schema: Schema/Growth is crates/pg_lens_core/src/schema_growth.rs; floating-point operations are
--   the parameter `Float`. Schema/Advisor is index_advisor.rs beside it.
-- Poller: crates/pg_lens_core/src/poller.rs. Poller/Slow is `SchemaState`, over Schema/Growth;
--   Poller/Reconnect is the loop of `run`, over Poller/Slow and History, with the session and the
--   wait as inputs of a round.
-- Recording: crates/pg_lens_core/src/recording.rs. Recording/Dates prints and parses times,
--   Recording/Names the names of files; a text is the list of its bytes there. Recording/Writer is
--   `RecordingWriter` over a disk, a map from paths to lines, with the answers of the operating
--   system as inputs. Recording/Prune is `prune_recordings`, from the entries that were listed on.
-- Tui: crates/pg_lens_tui/src/app.rs. Tui/Tabs is `Tab`, Tui/Picker the three pickers,
--   Tui/Selection the cursors, Tui/Confirm the admin actions and the pause, Tui/Filter the editing
--   of the filters. Each holds the fields of `App` that its functions touch. Tui/Clipboard is the
--   coder of clipboard.rs beside app.rs. Tui/Keys is `handle_key`: Tui/Keys/Arms is its match,
--   Tui/Keys/Esc, Press and Steps what its arms do, Tui/Keys/Run the whole, with the calls that they
--   make as a list; Tui/Keys/Flag and Kept are lemmas on what they leave alone. Tui/Replay is the
--   replay of a recording, a part of the state of Tui/Keys; a result `none` is a panic. Tui/Session
--   is `update`: the keys of Tui/Keys, whose calls run Tui/Confirm, with the snapshots and ticks that
--   come between; what the calls of other functions do is a parameter there.
-- Prelude: lists, tests, texts as lists of code points, integers and maps for all of these.
--
-- Numbers that only count or index are native numbers; sizes that may be negative are integers.
-- Sums of indices and times are not wrapped: they stay far below the range of their types.
--
-- Not modelled: SQL and its rows, drawing, HTTP, child processes, the reading of recorded frames
-- and of directories, and the web front end.
pub mod Prelude
pub mod Conn
pub mod Sessions
pub mod History
pub mod Schema
pub mod Poller
pub mod Recording
pub mod Tui
