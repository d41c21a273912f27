-- ===== src/Mvcc/Rows.antt =====
-- The records of the database as typed rows: what mvsr-oocEncode and MarshalBinary make of a lock
-- or of a version, and what the decoders of mvcc_leveldb.go read back from it.
pub mod Codec
pub mod Reading
pub mod Order
pub mod View
pub mod Writing
pub mod Effects
use mileva_db.Prelude.{
  if◌then◌else◌, ℕ, ◌<◌, ◌≡◌, Bool, true, false, Option, none, some, List, [], ◌∷◌, map, compare,
  lt, eq, gt, if◌then◌else◌, All, Ordering,
}
use mileva_db.Bytes.{bytes_equal, Bytes, bytes_compare, bytes_equal}
use mileva_db.Mvcc.Types.{Lock, Value, lock_ver}
use mileva_db.Mvcc.Marshal.{marshal_lock, marshal_value}
use mileva_db.Mvcc.Marshal.RoundTrip.{LockFits, ValueFits}
use mileva_db.Mvcc.Env.{Env, entries}
use mileva_db.Mvcc.Lock.{mvcc_encode}

pub data Load : Type 0 where
  lock_load : Lock → Load
  value_load : Value → Load

-- A lock stands at the version `lock_ver` of its key, a value at its commit timestamp.
abbrev pub load_ver : Load → ℕ
load_ver (lock_load l) = lock_ver
load_ver (value_load v) = v.commit_ts

pub record Row : Type 0 where
  pub key : Bytes
  pub load : Load

abbrev pub load_lock : Load → Option Lock
load_lock (lock_load l) = some l
load_lock (value_load v) = none

abbrev pub load_value : Load → Option Value
load_value (lock_load l) = none
load_value (value_load v) = some v

-- What lockDecoder and valueDecoder read from a row.
abbrev pub lock_here : Bytes → Row → Option Lock
lock_here key r = if bytes_equal r.key key then load_lock r.load else none

abbrev pub value_here : Bytes → Row → Option Value
value_here key r = if bytes_equal r.key key then load_value r.load else none

-- Keys ascend, and the versions of a key descend.
unfoldable pub row_compare : Row → Row → Ordering
row_compare r s = elim (bytes_compare r.key s.key) [
  | lt ↦ lt
  | gt ↦ gt
  | eq ↦ compare (load_ver s.load) (load_ver r.load)
]

abbrev pub Ascending : List Row → Type 0
Ascending [] = Unit
Ascending (r ∷ rs) = All (λ s. row_compare r s ≡ lt) rs × Ascending rs

module _ (e : Env) where
  abbrev pub marshal_load : Load → Bytes
  marshal_load (lock_load l) = marshal_lock e.op_to_int32 l
  marshal_load (value_load v) = marshal_value v

  unfoldable pub encode_row : Row → Bytes × Bytes
  encode_row r = (mvcc_encode e r.key (load_ver r.load), marshal_load r.load)

  -- What the binary form holds; the version of the lock is no commit timestamp.
  abbrev pub LoadFits : Load → Type 0
  LoadFits (lock_load l) = LockFits e.op_to_int32 l
  LoadFits (value_load v) = ValueFits v × (v.commit_ts < lock_ver)

  abbrev pub RowsFit : List Row → Type 0
  RowsFit = All (λ r. LoadFits r.load)

  -- The database holds the rows, in order.
  pub record Holds (db : e.Db) (rows : List Row) : Type 0 where
    pub stored : entries e db ≡ map encode_row rows
    pub fit : RowsFit rows
    pub ascending : Ascending rows
