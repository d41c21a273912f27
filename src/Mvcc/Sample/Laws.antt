-- ===== src/Mvcc/Sample/Laws.antt =====
-- The concrete environment is lawful.
use mileva_db.Prelude.{
  map, ℕ, ◌-◌, ◌<◌, ◌^◌, ◌≡◌, refl, ap, Option, none, some, List, [], ◌∷◌, ◌++◌, compare, lt, eq,
  gt, arith, false,
}
use mileva_db.Bytes.{Bytes, bytes_compare}
use mileva_db.Mvcc.Types.{
  Op, op_put, op_del, op_lock, op_rollback, op_insert, op_pessimistic_lock, op_check_not_exists,
  u64_mod, lock_ver,
}
use mileva_db.Mvcc.Env.{IsLawful, in_range, apply_batch, is_below}
use mileva_db.Mvcc.Rows.{Row, RowsFit, Ascending, Holds, encode_row}
use mileva_db.Mvcc.Sample.{
  sample_env, mark_bytes, unmark_bytes, first_number, sample_code, sample_op,
}

unmark-mark_bytes : (key rest : Bytes) → unmark_bytes (mark_bytes key ++ rest) ≡ some (rest, key)
unmark-mark_bytes [] rest = refl
unmark-mark_bytes (x ∷ xs) rest = rw (unmark-mark_bytes xs rest)

compare-mark_bytes :
    (j k s t : Bytes)
    → bytes_compare (mark_bytes j ++ s) (mark_bytes k ++ t)
      ≡ elim (bytes_compare j k) [ lt ↦ lt | gt ↦ gt | eq ↦ bytes_compare s t ]
unfolding bytes_compare
compare-mark_bytes [] [] s t = ground arith
compare-mark_bytes [] (y ∷ ys) s t = ground arith
compare-mark_bytes (x ∷ xs) [] s t = ground arith
compare-mark_bytes (x ∷ xs) (y ∷ ys) s t = ground (arith, compare-mark_bytes xs ys s t)

pub sample_op-code : (op : Op) → sample_op (sample_code op) ≡ op
sample_op-code op_put = refl
sample_op-code op_del = refl
sample_op-code op_lock = refl
sample_op-code op_rollback = refl
sample_op-code op_insert = refl
sample_op-code op_pessimistic_lock = refl
sample_op-code op_check_not_exists = refl

sample_code-lt : (op : Op) → sample_code op < 2 ^ 32
sample_code-lt op = ground arith

is_below-nil : (k : Bytes) → is_below k [] ≡ false
unfolding bytes_compare
is_below-nil [] = refl
is_below-nil (x ∷ xs) = refl

in_range-all : (l : List (Bytes × Bytes)) → in_range [] none l ≡ l
unfolding in_range
in_range-all [] = refl
in_range-all ((k, v) ∷ l) = rw (is_below-nil k, in_range) (rw (in_range-all l))

compare-desc :
    (v w : ℕ)
    → v < u64_mod
    → w < u64_mod
    → bytes_compare ((lock_ver - v) ∷ []) ((lock_ver - w) ∷ []) ≡ compare w v
unfolding bytes_compare
compare-desc v w h k = ground arith

first-number : (v : ℕ) → v < u64_mod → first_number ((lock_ver - v) ∷ []) ≡ some ([], v)
first-number v h = ap {B = Option (Bytes × ℕ)} (λ x. some ([], x)) (omega arith)

pub sample_lawful : IsLawful sample_env
sample_lawful = record {
  decode-encode_bytes = unmark-mark_bytes;
  encode_uint_desc-append = λ b v. refl;
  decode-encode_uint_desc = first-number;
  encode_uint_desc-ne-nil = λ v q. cc;
  compare-encode_bytes = compare-mark_bytes;
  compare-encode_uint_desc = compare-desc;
  op_of-op_to = sample_op-code;
  op_to-lt = sample_code-lt;
  iterates = λ db start limit. rw (in_range-all db);
  writes = λ db batch.
      (apply_batch batch db, refl, rw (in_range-all db, in_range-all (apply_batch batch db)));
  looks_up = λ db key. rw (in_range-all db) refl;
}

-- A database made of encoded rows holds them.
pub Holds-sample :
    (rows : List Row)
    → RowsFit sample_env rows
    → Ascending rows
    → Holds sample_env (map (encode_row sample_env) rows) rows
Holds-sample rows fit asc = record {
  stored = in_range-all (map (encode_row sample_env) rows);
  fit = fit;
  ascending = asc;
}
