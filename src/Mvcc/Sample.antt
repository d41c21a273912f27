-- ===== src/Mvcc/Sample.antt =====
-- A concrete environment for the examples: a codec with a mark before each byte, and a database
-- that is a list of pairs. It meets what the store relies on.
pub mod Laws
use mileva_db.Prelude.{ℕ, zero, suc, ◌-◌, Option, none, some, List, [], ◌∷◌, ◌++◌}
use mathlib.Core.Option
use mileva_db.Bytes.{Bytes}
use mileva_db.Mvcc.Types.{
  Op, op_put, op_del, op_lock, op_rollback, op_insert, op_pessimistic_lock, op_check_not_exists,
  Error, Result, ok, lock_ver,
}
use mileva_db.Mvcc.Env.{Env, Batch, Iterator, in_range, find_pair, apply_batch}

abbrev pub mark_bytes : Bytes → Bytes
mark_bytes [] = 0 ∷ []
mark_bytes (x ∷ xs) = 1 ∷ x ∷ mark_bytes xs

abbrev pub add_byte : ℕ → Option (Bytes × Bytes) → Option (Bytes × Bytes)
add_byte x none = none
add_byte x (some (rest, key)) = some (rest, x ∷ key)

abbrev pub unmark_bytes : Bytes → Option (Bytes × Bytes)
unmark_bytes [] = none
unmark_bytes (zero ∷ rest) = some (rest, [])
unmark_bytes (suc m ∷ []) = none
unmark_bytes (suc m ∷ x ∷ rest) = add_byte x (unmark_bytes rest)

abbrev pub first_number : Bytes → Option (Bytes × ℕ)
first_number [] = none
first_number (x ∷ rest) = some (rest, lock_ver - x)

abbrev pub sample_code : Op → ℕ
sample_code op_put = 0
sample_code op_del = 1
sample_code op_lock = 2
sample_code op_rollback = 3
sample_code op_insert = 4
sample_code op_pessimistic_lock = 5
sample_code op_check_not_exists = 6

abbrev pub sample_op : ℕ → Op
sample_op zero = op_put
sample_op (suc zero) = op_del
sample_op (suc (suc zero)) = op_lock
sample_op (suc (suc (suc zero))) = op_rollback
sample_op (suc (suc (suc (suc zero)))) = op_insert
sample_op (suc (suc (suc (suc (suc zero))))) = op_pessimistic_lock
sample_op _ = op_check_not_exists

abbrev pub sample_env : Env
sample_env = record {
  encode_bytes = λ b key. b ++ mark_bytes key;
  decode_bytes = unmark_bytes;
  encode_uint_desc = λ b v. b ++ (lock_ver - v) ∷ [];
  decode_uint_desc = first_number;
  op_to_int32 = sample_code;
  op_of_int32 = sample_op;
  extract_physical = λ ts. ts;
  fingerprint64 = λ key. 7;
  Db = List (Bytes × Bytes);
  new_iterator = λ db start limit. record { rest = in_range start limit db; failure = none };
  write = λ db batch. ok (apply_batch batch db);
  lookup = λ db key. find_pair key db;
  Detector = Unit {0};
  detect = λ d start_ts lock_ts hash. (none, d);
  clean_up = λ d start_ts. d;
}
