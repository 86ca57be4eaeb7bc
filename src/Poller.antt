-- ===== src/Poller.antt =====
-- The state of the poller, crates/pg_lens_core/src/poller.rs.
mod Tests
pub mod Slow
pub mod Reconnect
