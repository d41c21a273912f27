-- ===== src/Solomonkey.antt =====
-- The key-value layer, solomonkey/.
pub mod Handle
pub mod Key
pub mod UnionIter
