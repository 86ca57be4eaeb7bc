-- ===== src/Schema.antt =====
-- What the program makes of the slow collections about the objects of a database.
mod Tests
pub mod Growth
pub mod Advisor
