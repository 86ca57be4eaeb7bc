-- ===== src/Conn.antt =====
-- Where to connect: `settings.rs`, `services.rs` and `remote_config.rs` of
-- crates/pg_lens_core/src.
mod Tests
pub mod Error
pub mod Config
pub mod Services
pub mod Remote
pub mod Settings
pub mod Resolve
