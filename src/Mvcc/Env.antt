-- ===== src/Mvcc/Env.antt =====
-- What the store calls and does not implement: goleveldb, the memcomparable codec, the generated
-- protocol numbers, the timestamp oracle, the deadlock detector and the key fingerprint.
use mileva_db.Prelude.{
  ℕ, ◌≡◌, Bool, true, Option, none, some, List, [], ◌∷◌, ◌++◌, ◌<◌, ◌^◌, compare, lt, eq, gt,
  if◌then◌else◌, ◌&&◌, not,
}
use mileva_db.Bytes.{Bytes, bytes_compare, bytes_equal}
-- leveldb's order of keys is that of `bytes.Compare`.
pub use mileva_db.Bytes.{is_below}
use mileva_db.Mvcc.Types.{Op, Error, Result, ok, u64_mod}

pub data BatchOp : Type 0 where
  put : (key value : Bytes) → BatchOp
  delete : (key : Bytes) → BatchOp

abbrev pub Batch : Type 0
Batch = List BatchOp

-- A leveldb iterator: the pairs from its position on, and the error met behind the last of them.
pub record Iterator : Type 0 where
  pub rest : List (Bytes × Bytes)
  pub failure : Option Error

pub record Env : Type 1 where
  -- codec.EncodeBytes, DecodeBytes (the rest, then the key), EncodeUintDesc, DecodeUintDesc
  pub encode_bytes : Bytes → Bytes → Bytes
  pub decode_bytes : Bytes → Option (Bytes × Bytes)
  pub encode_uint_desc : Bytes → ℕ → Bytes
  pub decode_uint_desc : Bytes → Option (Bytes × ℕ)
  -- the int32 of kvrpcpb.Op
  pub op_to_int32 : Op → ℕ
  pub op_of_int32 : ℕ → Op
  -- uint64(oracle.ExtractPhysical(ts))
  pub extract_physical : ℕ → ℕ
  -- farm.Fingerprint64
  pub fingerprint64 : Bytes → ℕ
  -- leveldb.DB: NewIterator over a range (`none` is a nil Limit), Write of a batch, of
  -- which Put and Delete are the case of one operation
  pub Db : Type 0
  pub new_iterator : Db → Bytes → Option Bytes → Iterator
  pub write : Db → Batch → Result Db
  -- Get of a key, `none` for an error: a key that is not there is one
  pub lookup : Db → Bytes → Option Bytes
  -- deadlock.Detector: Detect answers with the KeyHash of a deadlock, CleanUp forgets a waiter
  pub Detector : Type 0
  pub detect : Detector → (start_ts lock_ts hash : ℕ) → Option ℕ × Detector
  pub clean_up : Detector → ℕ → Detector

abbrev pub below_limit : Option Bytes → Bytes → Bool
below_limit none k = true
below_limit (some limit) k = is_below k limit

-- The pairs of the range [start, limit).
unfoldable pub in_range : Bytes → Option Bytes → List (Bytes × Bytes) → List (Bytes × Bytes)
in_range start limit [] = []
in_range start limit ((k, v) ∷ l) =
    if not (is_below k start) && below_limit limit k
    then (k, v) ∷ in_range start limit l
    else in_range start limit l

-- The value under a key.
unfoldable pub find_pair : Bytes → List (Bytes × Bytes) → Option Bytes
find_pair k [] = none
find_pair k ((j, w) ∷ l) = if bytes_equal j k then some w else find_pair k l

-- One write to a sequence of pairs with ascending keys.
unfoldable pub put_pair : Bytes → Bytes → List (Bytes × Bytes) → List (Bytes × Bytes)
put_pair k v [] = (k, v) ∷ []
put_pair k v ((j, w) ∷ l) = elim (bytes_compare k j) [
  | lt ↦ (k, v) ∷ (j, w) ∷ l
  | eq ↦ (k, v) ∷ l
  | gt ↦ (j, w) ∷ put_pair k v l
]

unfoldable pub delete_pair : Bytes → List (Bytes × Bytes) → List (Bytes × Bytes)
delete_pair k [] = []
delete_pair k ((j, w) ∷ l) = elim (bytes_compare k j) [
  | lt ↦ (j, w) ∷ l
  | eq ↦ l
  | gt ↦ (j, w) ∷ delete_pair k l
]

abbrev pub apply_op : BatchOp → List (Bytes × Bytes) → List (Bytes × Bytes)
apply_op (put k v) l = put_pair k v l
apply_op (delete k) l = delete_pair k l

-- A batch is applied in the order of its operations.
unfoldable pub apply_batch : Batch → List (Bytes × Bytes) → List (Bytes × Bytes)
apply_batch [] l = l
apply_batch (op ∷ batch) l = apply_batch batch (apply_op op l)

-- The whole content, in the order of the keys.
abbrev pub entries : (e : Env) → e.Db → List (Bytes × Bytes)
entries e db = (e.new_iterator db [] none).rest

-- What the store relies on. The codec round trips and keeps the order, descending for versions; the
-- protocol numbers round trip in 32 bits; the database, kept in memory, iterates over the pairs of
-- a range in the order of their keys, and applies a batch as a whole, without an I/O error.
pub record IsLawful (e : Env) : Type 0 where
  pub decode-encode_bytes :
      (key rest : Bytes) → e.decode_bytes (e.encode_bytes [] key ++ rest) ≡ some (rest, key)
  pub encode_uint_desc-append :
      (b : Bytes) (v : ℕ) → e.encode_uint_desc b v ≡ b ++ e.encode_uint_desc [] v
  pub decode-encode_uint_desc :
      (v : ℕ) → v < u64_mod → e.decode_uint_desc (e.encode_uint_desc [] v) ≡ some ([], v)
  pub encode_uint_desc-ne-nil : (v : ℕ) → (e.encode_uint_desc [] v ≡ []) → ⊥
  pub compare-encode_bytes :
      (j k s t : Bytes)
      → bytes_compare (e.encode_bytes [] j ++ s) (e.encode_bytes [] k ++ t)
        ≡ elim (bytes_compare j k) [ lt ↦ lt | gt ↦ gt | eq ↦ bytes_compare s t ]
  pub compare-encode_uint_desc :
      (v w : ℕ)
      → v < u64_mod
      → w < u64_mod
      → bytes_compare (e.encode_uint_desc [] v) (e.encode_uint_desc [] w) ≡ compare w v
  pub op_of-op_to : (op : Op) → e.op_of_int32 (e.op_to_int32 op) ≡ op
  pub op_to-lt : (op : Op) → e.op_to_int32 op < 2 ^ 32
  pub iterates :
      (db : e.Db) (start : Bytes) (limit : Option Bytes)
      → e.new_iterator db start limit
        ≡ record { rest = in_range start limit (entries e db); failure = none }
  pub writes :
      (db : e.Db) (batch : Batch)
      → (db' : e.Db) × (e.write db batch ≡ ok db')
        × (entries e db' ≡ apply_batch batch (entries e db))
  pub looks_up : (db : e.Db) (key : Bytes) → e.lookup db key ≡ find_pair key (entries e db)
