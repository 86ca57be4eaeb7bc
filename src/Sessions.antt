-- ===== src/Sessions.antt =====
-- What the program makes of the sessions that wait for each other.
mod Tests
mod Scenario
pub mod Blocking
pub mod Tree
