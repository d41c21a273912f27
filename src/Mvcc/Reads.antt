-- ===== src/Mvcc/Reads.antt =====
-- Get, BatchGet and newScanIterator of causetstore/mockstore/mockeinsteindb/mvcc_leveldb.go, and
-- mvsr-oocEntry.Get of mvcc.go. They hold `mu` for reading; each is one step on the database.
use mileva_db.Prelude.{ℕ, ◌||◌, Option, none, some, List, [], ◌∷◌, leb, ◌==◌, if◌then◌else◌}
use mileva_db.Bytes.{Bytes}
use mileva_db.Mvcc.Types.{
  Lock, Value, Entry, Error, Result, ok, err, type_delete, type_rollback, type_lock, lock_ver,
  ◌>>=◌,
}
use mileva_db.Mvcc.Env.{Env, Iterator}
use mileva_db.Mvcc.Lock.{IsolationLevel, mvcc_encode, mvcc_decode, check_if_si, first_visible}
use mileva_db.Mvcc.Iter.{Pairs, seek, decode_lock, decode_value_pair}

-- Pair: a key with its value, or with the error met when it was read
pub record Pair : Type 0 where
  pub key : Bytes
  pub value : Option Bytes
  pub error : Option Error

-- One value against the read timestamp: `none` goes on to the next.
unfoldable pub visible : ℕ → Value → Option (Option Bytes)
visible ts v =
    if (v.value_type == type_rollback) || (v.value_type == type_lock)
    then none
    else if leb v.commit_ts ts
    then some (if v.value_type == type_delete then none else some v.value)
    else none

module _ (e : Env) where
  -- The loop of getValue, and the pairs that the iterator is left at. Behind the last pair the
  -- loop ends by `iter.Valid()`, so an iterator's error there is not seen.
  unfoldable pub value_loop : ℕ → Bytes → Pairs → Result (Option Bytes) × Pairs
  value_loop ts key [] = (ok none, [])
  value_loop ts key (p ∷ rest) =
      let further = value_loop ts key rest in
      elim (decode_value_pair e key p) [
        | err er ↦ (err er, p ∷ rest)
        | ok none ↦ (ok none, p ∷ rest)
        | ok (some v) ↦ elim (visible ts v) [ none ↦ further | some result ↦ (ok result, rest) ]
      ]

  unfoldable pub after_lock :
      Bytes
      → ℕ
      → IsolationLevel
      → List ℕ
      → Pairs
      → Result (Option Lock × Pairs)
      → Result (Option Bytes) × Pairs
  after_lock key ts iso resolved here (err er) = (err er, here)
  after_lock key ts iso resolved here (ok (l, rest)) = elim (check_if_si e iso l ts key resolved) [
    | err er ↦ (err er, rest)
    | ok read_ts ↦ value_loop read_ts key rest
  ]

  -- The function getValue, on an iterator.
  unfoldable pub get_value_at :
      Bytes → ℕ → IsolationLevel → List ℕ → Pairs → Option Error → Result (Option Bytes) × Pairs
  unfolding after_lock
  get_value_at key ts iso resolved pairs failure =
      after_lock key ts iso resolved pairs (decode_lock e key pairs failure)

  -- Get, and the method getValue
  unfoldable pub get : e.Db → Bytes → ℕ → IsolationLevel → List ℕ → Result (Option Bytes)
  get db key ts iso resolved =
      let it = seek e db key in (get_value_at key ts iso resolved it.rest it.failure).0

  unfoldable pub batch_pair : Bytes → Result (Option Bytes) → List Pair → List Pair
  batch_pair k (ok none) pairs = pairs
  batch_pair k (ok (some v)) pairs = record { key = k; value = some v; error = none } ∷ pairs
  batch_pair k (err er) pairs = record { key = k; value = none; error = some er } ∷ pairs

  unfoldable pub batch_get : e.Db → List Bytes → ℕ → IsolationLevel → List ℕ → List Pair
  unfolding batch_pair
  batch_get db [] ts iso resolved = []
  batch_get db (k ∷ ks) ts iso resolved =
      batch_pair k (get db k ts iso resolved) (batch_get db ks ts iso resolved)

  -- newScanIterator: an empty start or end is no bound, and an empty start is replaced by the
  -- first key.
  unfoldable pub scan_limit : Bytes → Option Bytes
  scan_limit [] = none
  scan_limit (b ∷ bs) = some (mvcc_encode e (b ∷ bs) lock_ver)

  unfoldable pub scan_start : Bytes → Bytes
  scan_start [] = []
  scan_start (b ∷ bs) = mvcc_encode e (b ∷ bs) lock_ver

  unfoldable pub first_key : Bytes → Pairs → Result Bytes
  first_key (b ∷ bs) pairs = ok (b ∷ bs)
  first_key [] [] = ok []
  first_key [] ((k, v) ∷ rest) = do (key, ver) ← mvcc_decode e k; ok key

  unfoldable pub new_scan_iterator : e.Db → Bytes → Bytes → Result (Iterator × Bytes)
  unfolding scan_limit scan_start first_key
  new_scan_iterator db start_key end_key = do
    let it = e.new_iterator db (scan_start start_key) (scan_limit end_key)
    key ← first_key start_key it.rest
    ok (it, key)

-- The loop of mvsr-oocEntry.Get, which ReverseScan uses.
unfoldable pub entry_get :
    (e : Env) → Entry → Bytes → ℕ → IsolationLevel → List ℕ → Result (Option Bytes)
entry_get e entry raw_key ts iso resolved = do
  read_ts ← check_if_si e iso entry.dagger ts raw_key resolved
  ok (first_visible read_ts entry.values)
