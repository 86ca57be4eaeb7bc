-- ===== src/Tui.antt =====
-- The model of the terminal front end, crates/pg_lens_tui/src/app.rs.
mod Scenario
mod Tests
pub mod Key
pub mod Tabs
pub mod Picker
pub mod Selection
pub mod Confirm
pub mod Filter
pub mod Clipboard
pub mod Replay
pub mod Keys
pub mod Session
