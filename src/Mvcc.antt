-- ===== src/Mvcc.antt =====
-- The multi-version store of causetstore/mockstore/mockeinsteindb.
pub mod Types
pub mod Marshal
pub mod Env
pub mod Lock
pub mod Iter
pub mod Reads
pub mod Commit
pub mod Status
pub mod Conflict
pub mod Errors
pub mod Prewrite
pub mod Pessimistic
pub mod Ranges
pub mod Raw
pub mod Scan
pub mod Rows
pub mod Invariant
pub mod Txn
pub mod Debug
pub mod Sample
pub mod Reach
