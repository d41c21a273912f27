-- ===== src/Mvcc/Types.antt =====
-- The data of causetstore/mockstore/mockeinsteindb/mvcc.go and errors.go.
use mileva_db.Prelude.{ℕ, Option, List}
use mileva_db.Bytes.{Bytes}

-- `kvrpcpb.Op`, a generated enumeration: the values that the store names.
pub data Op : Type 0 where
  op_put op_del op_lock op_rollback op_insert op_pessimistic_lock op_check_not_exists : Op

-- `mvsr-oocValueType` is an `int`, and its constants are counted by `iota`.
abbrev pub type_put : ℕ
type_put = 0

abbrev pub type_delete : ℕ
type_delete = 1

abbrev pub type_rollback : ℕ
type_rollback = 2

abbrev pub type_lock : ℕ
type_lock = 3

pub record Value : Type 0 where
  pub value_type : ℕ
  pub start_ts : ℕ
  pub commit_ts : ℕ
  pub value : Bytes

pub record Lock : Type 0 where
  pub start_ts : ℕ
  pub primary : Bytes
  pub value : Bytes
  pub op : Op
  pub ttl : ℕ
  pub for_update_ts : ℕ
  pub txn_size : ℕ
  pub min_commit_ts : ℕ

pub record Entry : Type 0 where
  pub key : Bytes
  pub values : List Value
  pub dagger : Option Lock

-- math.MaxUint64, the version under which the lock of a key is stored
abbrev pub lock_ver : ℕ
lock_ver = 18446744073709551615

abbrev pub u64_mod : ℕ
u64_mod = 18446744073709551616

pub record LockedInfo : Type 0 where
  pub key : Bytes
  pub primary : Bytes
  pub start_ts : ℕ
  pub for_update_ts : ℕ
  pub ttl : ℕ
  pub txn_size : ℕ
  pub lock_type : Op

-- The error types of errors.go, then the errors made by `errors.New` and those of the libraries.
pub data Error : Type 0 where
  locked : LockedInfo → Error
  key_already_exist : Bytes → Error
  retryable : Error
  abort : Error
  already_committed : ℕ → Error
  already_rollbacked : (start_ts : ℕ) (key : Bytes) → Error
  conflict : (start_ts conflict_ts conflict_commit_ts : ℕ) (key : Bytes) → Error
  deadlock : (lock_ts : ℕ) (lock_key : Bytes) (key_hash : ℕ) → Error
  commit_ts_expired : (start_ts attempted_commit_ts : ℕ) (key : Bytes) (min_commit_ts : ℕ) → Error
  txn_not_found : (start_ts : ℕ) (primary_key : Bytes) → Error
  invalid_encoded_key : Error
  lock_under_safe_point : (key : Bytes) (start_ts safe_point : ℕ) → Error
  heartbeat_not_primary : Error
  lock_not_exist : Error
  too_large_slice : Error
  unexpected_eof : Error
  varint_overflow : Error
  codec_failure : Error
  db_failure : Error

-- An answer and a Go error: of the pair that the source returns, one is nil or not looked at.
pub data Result {ℓ} (Answer : Type ℓ) : Type ℓ where
  err : Error → Result Answer
  ok : Answer → Result Answer

-- `if err != nil { return err }`
infixl 5 ◌>>=◌
abbrev pub ◌>>=◌ {ℓ κ} :
    {From : Type ℓ} {To : Type κ} → Result From → (From → Result To) → Result To
err failure >>= next = err failure
ok answer >>= next = next answer
