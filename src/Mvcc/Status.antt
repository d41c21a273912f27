-- ===== src/Mvcc/Status.antt =====
-- Cleanup, CheckTxnStatus and TxnHeartBeat of
-- causetstore/mockstore/mockeinsteindb/mvcc_leveldb.go: what a reader does about another
-- transaction's lock.
use mileva_db.Prelude.{
  ℕ, ◌+◌, ◌%◌, Bool, true, false, not, ◌||◌, Option, none, some, [], ◌∷◌, ltb, ◌==◌, if◌then◌else◌,
}
use mileva_db.Bytes.{Bytes, bytes_equal}
use mileva_db.Mvcc.Types.{
  Lock, Value, Error, Result, ok, err, already_committed, txn_not_found, heartbeat_not_primary,
  lock_not_exist, type_rollback, lock_ver, u64_mod,
}
use mileva_db.Mvcc.Env.{Env}
use mileva_db.Mvcc.Lock.{lock_err}
use mileva_db.Mvcc.Iter.{Pairs, seek, decode_lock}
use mileva_db.Mvcc.Commit.{
  Store, write_batch, clean_up_after, put_lock, put_value, rollback_value, rollback_lock,
  get_txn_commit_info,
}

-- kvrpcpb.CausetAction
pub data Action : Type 0 where
  no_action ttl_expire_rollback lock_not_exist_rollback min_commit_ts_pushed : Action

pub record TxnStatus : Type 0 where
  pub ttl : ℕ
  pub commit_ts : ℕ
  pub action : Action

-- callerStartTS + 1 as a uint64
abbrev pub next_ts : ℕ → ℕ
next_ts ts = (ts + 1) % u64_mod

-- minCommitTS pushed past the caller, and on to the current timestamp.
unfoldable pub pushed_min_commit_ts : ℕ → ℕ → ℕ
pushed_min_commit_ts caller_start_ts current_ts =
    if ltb (next_ts caller_start_ts) current_ts then current_ts else next_ts caller_start_ts

module _ (e : Env) where
  -- uint64(ExtractPhysical(startTS)) + ttl < uint64(ExtractPhysical(currentTS)), in uint64
  unfoldable pub expired : Lock → ℕ → Bool
  expired l current_ts =
      ltb ((e.extract_physical l.start_ts + l.ttl) % u64_mod) (e.extract_physical current_ts)

  unfoldable pub cleanup_committed : Store e → Result (Option Value) → Result (Unit {0}) × Store e
  cleanup_committed s (err er) = (err er, s)
  -- The rollback record is put in a batch that is not written.
  cleanup_committed s (ok none) = (ok tt, s)
  cleanup_committed s (ok (some c)) =
      if not (c.value_type == type_rollback)
      then (err (already_committed c.commit_ts), s)
      else (ok tt, s)

  unfoldable pub cleanup_found :
      Store e → Bytes → ℕ → ℕ → Result (Option Lock × Pairs) → Result (Unit {0}) × Store e
  unfolding cleanup_committed
  cleanup_found s key start_ts current_ts (err er) = (err er, s)
  cleanup_found s key start_ts current_ts (ok (none, rest)) =
      cleanup_committed s (get_txn_commit_info e rest key start_ts)
  cleanup_found s key start_ts current_ts (ok (some l, rest)) =
      if l.start_ts == start_ts
      then if (current_ts == 0) || expired l current_ts
        then write_batch e s (rollback_lock e key start_ts) tt
        else (lock_err e l key, s)
      else cleanup_committed s (get_txn_commit_info e rest key start_ts)

  unfoldable pub cleanup_at :
      Store e → Bytes → ℕ → ℕ → Pairs → Option Error → Result (Unit {0}) × Store e
  unfolding cleanup_found
  cleanup_at s key start_ts current_ts [] failure = (ok tt, s)
  cleanup_at s key start_ts current_ts (p ∷ rest) failure =
      cleanup_found s key start_ts current_ts (decode_lock e key (p ∷ rest) failure)

  unfoldable pub cleanup : Store e → Bytes → ℕ → ℕ → Result (Unit {0}) × Store e
  unfolding cleanup_at
  cleanup s key start_ts current_ts =
      let it = seek e s.edb key in
      clean_up_after e start_ts (cleanup_at s key start_ts current_ts it.rest it.failure)

  -- No lock and no commit record of the transaction.
  unfoldable pub status_not_found : Store e → Bytes → ℕ → Bool → Result TxnStatus × Store e
  status_not_found s primary lock_ts true =
      write_batch e s (put_value e primary (rollback_value lock_ts))
        (record { ttl = 0; commit_ts = 0; action = lock_not_exist_rollback })
  status_not_found s primary lock_ts false = (err (txn_not_found lock_ts primary), s)

  unfoldable pub status_committed :
      Store e → Bytes → ℕ → Bool → Result (Option Value) → Result TxnStatus × Store e
  unfolding status_not_found
  status_committed s primary lock_ts rollback_if_not_exist (err er) = (err er, s)
  status_committed s primary lock_ts rollback_if_not_exist (ok none) =
      status_not_found s primary lock_ts rollback_if_not_exist
  status_committed s primary lock_ts rollback_if_not_exist (ok (some c)) =
      if not (c.value_type == type_rollback)
      then (ok (record { ttl = 0; commit_ts = c.commit_ts; action = no_action }), s)
      else (ok (record { ttl = 0; commit_ts = 0; action = no_action }), s)

  -- The lock of the transaction is there.
  unfoldable pub status_locked :
      Store e → Bytes → Lock → (lock_ts caller_start_ts current_ts : ℕ) → Result TxnStatus × Store e
  status_locked s primary l lock_ts caller_start_ts current_ts =
      if expired l current_ts
      then write_batch e s (rollback_lock e primary lock_ts)
          (record { ttl = 0; commit_ts = 0; action = ttl_expire_rollback })
      else if caller_start_ts == lock_ver
      then (ok (record { ttl = l.ttl; commit_ts = 0; action = min_commit_ts_pushed }), s)
      else if ltb 0 l.min_commit_ts
      then if ltb l.min_commit_ts (next_ts caller_start_ts)
        then write_batch e s
            (put_lock e primary
              (record l { min_commit_ts = pushed_min_commit_ts caller_start_ts current_ts }))
            (record { ttl = l.ttl; commit_ts = 0; action = min_commit_ts_pushed })
        else (ok (record { ttl = l.ttl; commit_ts = 0; action = min_commit_ts_pushed }), s)
      else (ok (record { ttl = l.ttl; commit_ts = 0; action = no_action }), s)

  unfoldable pub status_found :
      Store e
      → Bytes
      → (lock_ts caller_start_ts current_ts : ℕ) → Bool
      → Result (Option Lock × Pairs)
      → Result TxnStatus × Store e
  unfolding status_committed status_locked
  status_found s primary lock_ts caller current rollback_if_not_exist (err er) = (err er, s)
  status_found s primary lock_ts caller current rollback_if_not_exist (ok (none, rest)) =
      status_committed s primary lock_ts rollback_if_not_exist
        (get_txn_commit_info e rest primary lock_ts)
  status_found s primary lock_ts caller current rollback_if_not_exist (ok (some l, rest)) =
      if l.start_ts == lock_ts
      then status_locked s primary l lock_ts caller current
      else status_committed s primary lock_ts rollback_if_not_exist
          (get_txn_commit_info e rest primary lock_ts)

  unfoldable pub status_at :
      Store e
      → Bytes
      → (lock_ts caller_start_ts current_ts : ℕ) → Bool
      → Pairs
      → Option Error
      → Result TxnStatus × Store e
  unfolding status_found status_not_found
  status_at s primary lock_ts caller current rollback_if_not_exist [] failure =
      status_not_found s primary lock_ts rollback_if_not_exist
  status_at s primary lock_ts caller current rollback_if_not_exist (p ∷ rest) failure =
      status_found s primary lock_ts caller current rollback_if_not_exist
        (decode_lock e primary (p ∷ rest) failure)

  unfoldable pub check_txn_status :
      Store e
      → Bytes
      → (lock_ts caller_start_ts current_ts : ℕ) → (rollback_if_not_exist : Bool)
      → Result TxnStatus × Store e
  unfolding status_at
  check_txn_status s primary lock_ts caller_start_ts current_ts rollback_if_not_exist =
      let it = seek e s.edb primary in
      status_at s primary lock_ts caller_start_ts current_ts rollback_if_not_exist it.rest
        it.failure

  -- TxnHeartBeat
  unfoldable pub heartbeat_locked : Store e → Bytes → Lock → ℕ → Result ℕ × Store e
  heartbeat_locked s key l advise_ttl =
      if not (bytes_equal l.primary key)
      then (err heartbeat_not_primary, s)
      else if ltb l.ttl advise_ttl
      then write_batch e s (put_lock e key (record l { ttl = advise_ttl })) advise_ttl
      else (ok l.ttl, s)

  unfoldable pub heartbeat_found :
      Store e → Bytes → ℕ → ℕ → Result (Option Lock × Pairs) → Result ℕ × Store e
  unfolding heartbeat_locked
  heartbeat_found s key start_ts advise_ttl (err er) = (err er, s)
  heartbeat_found s key start_ts advise_ttl (ok (none, rest)) = (err lock_not_exist, s)
  heartbeat_found s key start_ts advise_ttl (ok (some l, rest)) =
      if l.start_ts == start_ts
      then heartbeat_locked s key l advise_ttl
      else (err lock_not_exist, s)

  unfoldable pub heartbeat_at : Store e → Bytes → ℕ → ℕ → Pairs → Option Error → Result ℕ × Store e
  unfolding heartbeat_found
  heartbeat_at s key start_ts advise_ttl [] failure = (err lock_not_exist, s)
  heartbeat_at s key start_ts advise_ttl (p ∷ rest) failure =
      heartbeat_found s key start_ts advise_ttl (decode_lock e key (p ∷ rest) failure)

  unfoldable pub txn_heart_beat : Store e → Bytes → ℕ → ℕ → Result ℕ × Store e
  unfolding heartbeat_at
  txn_heart_beat s key start_ts advise_ttl =
      let it = seek e s.edb key in heartbeat_at s key start_ts advise_ttl it.rest it.failure
