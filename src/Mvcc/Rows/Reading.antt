-- ===== src/Mvcc/Rows/Reading.antt =====
-- The iterator over a database that holds rows, and each loop over it as a function of the lock and
-- the versions of one key.
use mileva_db.Prelude.{
  ℕ, ◌<◌, ◌≡◌, refl, not, Option, none, some, List, [], ◌∷◌, map, if◌then◌else◌, arith, ◌==◌, leb,
  ◌&&◌, ◌||◌, Bool-cases, Option-cases, inl, inr,
}
use mileva_db.Bytes.{Bytes}
use mileva_db.Mvcc.Types.{
  Lock, Value, Result, ok, err, lock_ver, u64_mod, ◌>>=◌, type_delete, type_rollback, type_lock,
}
use mileva_db.Mvcc.Env.{Env, IsLawful, is_below, in_range}
use mileva_db.Mvcc.Lock.{IsolationLevel, mvcc_encode, check_if_si}
use mileva_db.Mvcc.Iter.{Pairs, seek, decode_lock}
use mileva_db.Mvcc.Reads.{visible, value_loop, get_value_at, get}
use mileva_db.Mvcc.Commit.{get_txn_commit_info}
use mileva_db.Mvcc.Rows.{lock_here, value_here, Row, load_ver, encode_row, RowsFit, Holds}
use mileva_db.Mvcc.Rows.Codec.{
  compare-mvcc_encode, load_ver-lt, decode_lock_pair-encode_row, decode_value_pair-encode_row,
}

-- The rows from the lock of `key` on.
unfoldable pub rows_from : Bytes → List Row → List Row
rows_from key [] = []
rows_from key (r ∷ rs) = if not (is_below r.key key) then r ∷ rows_from key rs else rows_from key rs

-- The lock of `key` at the front, and the rows behind it.
unfoldable pub take_lock : Bytes → List Row → Option Lock × List Row
take_lock key [] = (none, [])
take_lock key (r ∷ rs) = elim (lock_here key r) [ none ↦ (none, r ∷ rs) | some l ↦ (some l, rs) ]

-- The versions of `key` at the front.
unfoldable pub take_values : Bytes → List Row → List Value
take_values key [] = []
take_values key (r ∷ rs) =
    let further = take_values key rs in elim (value_here key r) [ none ↦ [] | some v ↦ v ∷ further ]

abbrev pub front_lock : Bytes → List Row → Option Lock
front_lock key rows = (take_lock key (rows_from key rows)).0

abbrev pub front_values : Bytes → List Row → List Value
front_values key rows = take_values key (take_lock key (rows_from key rows)).1

-- The value read at `ts` from the versions of a key, the latest first: that of the first version
-- which is not later, rollback records and locks without data aside.
unfoldable pub read_values : ℕ → List Value → Option Bytes
read_values ts [] = none
read_values ts (v ∷ vs) =
    let further = read_values ts vs in
    if leb v.commit_ts ts && not ((v.value_type == type_rollback) || (v.value_type == type_lock))
    then if v.value_type == type_delete then none else some v.value
    else further

-- The record of a transaction among the versions of a key.
unfoldable pub find_txn : ℕ → List Value → Option Value
find_txn start_ts [] = none
find_txn start_ts (v ∷ vs) = if v.start_ts == start_ts then some v else find_txn start_ts vs

module _ (e : Env) (law : IsLawful e) where
  below_slot :
      (key k : Bytes) (ver : ℕ)
      → ver < u64_mod
      → is_below (mvcc_encode e k ver) (mvcc_encode e key lock_ver) ≡ is_below k key
  below_slot key k ver h =
      ground (arith, compare-mvcc_encode e law k key ver lock_ver h (omega arith))

  in_range-map :
      (key : Bytes) (rows : List Row)
      → RowsFit e rows
      → in_range (mvcc_encode e key lock_ver) none (map (encode_row e) rows)
        ≡ map (encode_row e) (rows_from key rows)
  unfolding in_range rows_from encode_row
  in_range-map key [] fit = refl
  in_range-map key (r ∷ rs) fit =
      rw (below_slot key r.key (load_ver r.load) (load_ver-lt e law r.load fit.0))
        (ground (arith, in_range-map key rs fit.1))

  pub RowsFit-rows_from :
      (key : Bytes) (rows : List Row) → RowsFit e rows → RowsFit e (rows_from key rows)
  unfolding rows_from
  RowsFit-rows_from key [] fit = tt
  RowsFit-rows_from key (r ∷ rs) fit = elim (Bool-cases (is_below r.key key)) [
    | inl below ↦ rw below (RowsFit-rows_from key rs fit.1)
    | inr from ↦ rw from (fit.0, RowsFit-rows_from key rs fit.1)
  ]

  pub seek_lem :
      (db : e.Db) (rows : List Row) (key : Bytes)
      → Holds e db rows
      → seek e db key ≡ record { rest = map (encode_row e) (rows_from key rows); failure = none }
  unfolding seek
  seek_lem db rows key h = rw (law.iterates, h.stored, in_range-map key rows h.fit)

  pub decode_lock-map :
      (key : Bytes) (rows : List Row)
      → RowsFit e rows
      → decode_lock e key (map (encode_row e) rows) none
        ≡ ok ((take_lock key rows).0, map (encode_row e) (take_lock key rows).1)
  unfolding decode_lock take_lock
  decode_lock-map key [] fit = refl
  decode_lock-map key (r ∷ rs) fit = elim (Option-cases (lock_here key r)) [
    | inl q ↦ rw (decode_lock_pair-encode_row e law key r fit.0, decode_lock, q, take_lock)
    | inr (l, q) ↦ rw (decode_lock_pair-encode_row e law key r fit.0, decode_lock, q, take_lock)
  ]

  pub RowsFit-take_lock :
      (key : Bytes) (rows : List Row) → RowsFit e rows → RowsFit e (take_lock key rows).1
  unfolding take_lock
  RowsFit-take_lock key [] fit = tt
  RowsFit-take_lock key (r ∷ rs) fit = elim (Option-cases (lock_here key r)) [
    | inl q ↦ rw (q, take_lock) fit
    | inr (l, q) ↦ rw (q, take_lock) fit.1
  ]

  value_loop-map :
      (ts : ℕ) (key : Bytes) (rows : List Row)
      → RowsFit e rows
      → (value_loop e ts key (map (encode_row e) rows)).0
        ≡ ok (read_values ts (take_values key rows))
  unfolding value_loop take_values read_values visible
  value_loop-map ts key [] fit = refl
  value_loop-map ts key (r ∷ rs) fit =
      rw (decode_value_pair-encode_row e law key r fit.0, value_loop)
        (ground (arith, value_loop-map ts key rs fit.1))

  pub get_txn_commit_info-map :
      (key : Bytes) (start_ts : ℕ) (rows : List Row)
      → RowsFit e rows
      → get_txn_commit_info e (map (encode_row e) rows) key start_ts
        ≡ ok (find_txn start_ts (take_values key rows))
  unfolding get_txn_commit_info take_values find_txn
  get_txn_commit_info-map key start_ts [] fit = refl
  get_txn_commit_info-map key start_ts (r ∷ rs) fit =
      rw (decode_value_pair-encode_row e law key r fit.0, get_txn_commit_info)
        (ground (arith, get_txn_commit_info-map key start_ts rs fit.1))

  after_check :
      (key : Bytes) (rows : List Row) (r : Result ℕ)
      → RowsFit e rows
      → (elim r as (λ _. Result (Option Bytes) × Pairs) [
        | ok read_ts ↦ value_loop e read_ts key (map (encode_row e) rows)
        | err er ↦ (err er, map (encode_row e) rows)
      ]).0
        ≡ (r >>= λ read_ts. ok (read_values read_ts (take_values key rows)))
  after_check key rows (ok read_ts) fit = value_loop-map read_ts key rows fit
  after_check key rows (err er) fit = refl

  -- A read of a database that holds rows is the check of the key's lock, then the first version
  -- that is visible at the timestamp that the check allows.
  pub get-front :
      (db : e.Db) (rows : List Row) (key : Bytes) (ts : ℕ) (iso : IsolationLevel)
      (resolved : List ℕ)
      → Holds e db rows
      → get e db key ts iso resolved ≡ (
          check_if_si e iso (front_lock key rows) ts key resolved >>= λ read_ts.
          ok (read_values read_ts (front_values key rows)))
  unfolding get get_value_at
  get-front db rows key ts iso resolved h =
      rw (seek_lem db rows key h, get)
        (rw
          (
            decode_lock-map key (rows_from key rows) (RowsFit-rows_from key rows h.fit),
            get_value_at,
          )
          (after_check key (take_lock key (rows_from key rows)).1
            (check_if_si e iso (front_lock key rows) ts key resolved)
            (RowsFit-take_lock key (rows_from key rows) (RowsFit-rows_from key rows h.fit))))
