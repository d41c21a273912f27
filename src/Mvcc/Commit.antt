-- ===== src/Mvcc/Commit.antt =====
-- Commit, Rollback and their helpers in
-- causetstore/mockstore/mockeinsteindb/mvcc_leveldb.go.
-- Each takes `mu` for writing, so it is one step on the store: the database and the detector.
use mileva_db.Prelude.{ℕ, not, Option, none, some, List, [], ◌∷◌, ◌++◌, ltb, ◌==◌, if◌then◌else◌}
use mileva_db.Bytes.{Bytes}
use mileva_db.Mvcc.Types.{
  Op, op_put, op_lock, Lock, Value, Error, Result, ok, err, retryable, already_committed,
  commit_ts_expired, type_put, type_delete, type_rollback, type_lock, lock_ver, ◌>>=◌,
}
use mileva_db.Mvcc.Env.{Env, Batch, put, delete}
use mileva_db.Mvcc.Marshal.{marshal_lock, marshal_value}
use mileva_db.Mvcc.Lock.{mvcc_encode}
use mileva_db.Mvcc.Iter.{Pairs, seek, decode_lock, decode_value_pair}

-- MVCCLevelDB: EDB and deadlockDetector
pub record Store (e : Env) : Type 0 where
  pub edb : e.Db
  pub deadlock_detector : e.Detector

-- The value type that commitLock writes for a lock's operation.
unfoldable pub committed_type : Op → ℕ
committed_type op_put = type_put
committed_type op_lock = type_lock
committed_type _ = type_delete

unfoldable pub rollback_value : ℕ → Value
rollback_value start_ts = record {
  value_type = type_rollback;
  start_ts = start_ts;
  commit_ts = start_ts;
  value = [];
}

unfoldable pub committed_value : Lock → ℕ → ℕ → Value
committed_value l start_ts commit_ts = record {
  value_type = committed_type l.op;
  start_ts = start_ts;
  commit_ts = commit_ts;
  value = l.value;
}

module _ (e : Env) where
  -- batch.Put and batch.Delete of a value or of a key's lock
  abbrev pub put_value : Bytes → Value → Batch
  put_value key v = put (mvcc_encode e key v.commit_ts) (marshal_value v) ∷ []

  abbrev pub put_lock : Bytes → Lock → Batch
  put_lock key l = put (mvcc_encode e key lock_ver) (marshal_lock e.op_to_int32 l) ∷ []

  abbrev pub delete_lock : Bytes → Batch
  delete_lock key = delete (mvcc_encode e key lock_ver) ∷ []

  -- `mvsr-ooc.EDB.Write(batch, nil)`, as the last step of an operation
  abbrev pub write_batch {ℓ} : {A : Type ℓ} → Store e → Batch → A → Result A × Store e
  write_batch s batch a = elim (e.write s.edb batch) [
    | err er ↦ (err er, s)
    | ok db ↦ (ok a, record s { edb = db })
  ]

  abbrev pub clean_up_after {ℓ} : {A : Type ℓ} → ℕ → Result A × Store e → Result A × Store e
  clean_up_after start_ts (r, s) =
      (r, record s { deadlock_detector = e.clean_up s.deadlock_detector start_ts })

  abbrev pub commit_pairs {ℓ} : {A : Type ℓ} → Store e → Result Batch → A → Result A × Store e
  commit_pairs s (err er) a = (err er, s)
  commit_pairs s (ok batch) a = write_batch s batch a

  -- getTxnCommitInfo: the record of the transaction among the values of the key. Behind the last
  -- pair the loop ends by `iter.Valid()`.
  unfoldable pub get_txn_commit_info : Pairs → Bytes → ℕ → Result (Option Value)
  get_txn_commit_info [] expect_key start_ts = ok none
  get_txn_commit_info (p ∷ rest) expect_key start_ts =
      let further = get_txn_commit_info rest expect_key start_ts in
      elim (decode_value_pair e expect_key p) [
        | err er ↦ err er
        | ok none ↦ ok none
        | ok (some v) ↦ if v.start_ts == start_ts then ok (some v) else further
      ]

  unfoldable pub commit_lock : Lock → Bytes → ℕ → ℕ → Batch
  commit_lock l key start_ts commit_ts =
      put_value key (committed_value l start_ts commit_ts) ++ delete_lock key

  unfoldable pub rollback_lock : Bytes → ℕ → Batch
  rollback_lock key start_ts = put_value key (rollback_value start_ts) ++ delete_lock key

  -- commitKey without the lock of the transaction
  unfoldable pub commit_without_lock : Option Value → Result Batch
  commit_without_lock none = err retryable
  commit_without_lock (some c) =
      if not (c.value_type == type_rollback) then ok [] else err retryable

  unfoldable pub commit_found : Bytes → ℕ → ℕ → Option Lock × Pairs → Result Batch
  unfolding commit_without_lock
  commit_found key start_ts commit_ts (none, rest) = do
    c ← get_txn_commit_info rest key start_ts
    commit_without_lock c
  commit_found key start_ts commit_ts (some l, rest) =
      if not (l.start_ts == start_ts)
      then (do c ← get_txn_commit_info rest key start_ts; commit_without_lock c)
      else if ltb commit_ts l.min_commit_ts
      then err (commit_ts_expired start_ts commit_ts key l.min_commit_ts)
      else ok (commit_lock l key start_ts commit_ts)

  -- commitKey: what it adds to the batch
  unfoldable pub commit_key : e.Db → Bytes → ℕ → ℕ → Result Batch
  unfolding commit_found
  commit_key db key start_ts commit_ts = do
    let it = seek e db key
    found ← decode_lock e key it.rest it.failure
    commit_found key start_ts commit_ts found

  -- The loop over the keys: the first error ends it.
  unfoldable pub commit_keys : e.Db → List Bytes → ℕ → ℕ → Result Batch
  commit_keys db [] start_ts commit_ts = ok []
  commit_keys db (k ∷ ks) start_ts commit_ts = do
    batch ← commit_key db k start_ts commit_ts
    more ← commit_keys db ks start_ts commit_ts
    ok (batch ++ more)

  unfoldable pub commit : Store e → List Bytes → ℕ → ℕ → Result (Unit {0}) × Store e
  commit s keys start_ts commit_ts =
      clean_up_after start_ts (commit_pairs s (commit_keys s.edb keys start_ts commit_ts) tt)

  -- rollbackKey and Cleanup behind the lock: what the commit record of the transaction says
  unfoldable pub rollback_without_lock : Bytes → ℕ → Option Value → Result Batch
  rollback_without_lock key start_ts none = ok (put_value key (rollback_value start_ts))
  rollback_without_lock key start_ts (some c) =
      if not (c.value_type == type_rollback) then err (already_committed c.commit_ts) else ok []

  unfoldable pub rollback_found : Bytes → ℕ → Option Lock × Pairs → Result Batch
  unfolding rollback_without_lock
  rollback_found key start_ts (none, rest) = do
    c ← get_txn_commit_info rest key start_ts
    rollback_without_lock key start_ts c
  rollback_found key start_ts (some l, rest) =
      if l.start_ts == start_ts
      then ok (rollback_lock key start_ts)
      else (do c ← get_txn_commit_info rest key start_ts; rollback_without_lock key start_ts c)

  -- rollbackKey: an iterator that is not valid skips to the write of the rollback record.
  unfoldable pub rollback_at : Bytes → ℕ → Pairs → Option Error → Result Batch
  unfolding rollback_found
  rollback_at key start_ts [] failure = ok (put_value key (rollback_value start_ts))
  rollback_at key start_ts (p ∷ rest) failure = do
    found ← decode_lock e key (p ∷ rest) failure
    rollback_found key start_ts found

  unfoldable pub rollback_key : e.Db → Bytes → ℕ → Result Batch
  rollback_key db key start_ts =
      let it = seek e db key in rollback_at key start_ts it.rest it.failure

  unfoldable pub rollback_keys : e.Db → List Bytes → ℕ → Result Batch
  rollback_keys db [] start_ts = ok []
  rollback_keys db (k ∷ ks) start_ts = do
    batch ← rollback_key db k start_ts
    more ← rollback_keys db ks start_ts
    ok (batch ++ more)

  unfoldable pub rollback : Store e → List Bytes → ℕ → Result (Unit {0}) × Store e
  rollback s keys start_ts =
      clean_up_after start_ts (commit_pairs s (rollback_keys s.edb keys start_ts) tt)
