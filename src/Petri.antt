-- ===== src/Petri.antt =====
-- Parts of the package petri.
pub mod SchemaChecker
pub mod SchemaValidator
