-- ===== src/Petri/SchemaValidator/History.antt =====
-- What the queue of schema changes remembers of the whole history, and what Check concludes from it.
pub mod Newer
pub mod Runs
pub mod Check
