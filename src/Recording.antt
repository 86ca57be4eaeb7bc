-- ===== src/Recording.antt =====
-- The files of recordings, crates/pg_lens_core/src/recording.rs.
mod Tests
mod Scenario
pub mod Prune
pub mod Dates
pub mod Names
pub mod Writer
