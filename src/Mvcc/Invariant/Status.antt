-- ===== src/Mvcc/Invariant/Status.antt =====
-- Cleanup, CheckTxnStatus and TxnHeartBeat against the invariant of Mvcc/Invariant.
use mileva_db.Prelude.{
  ℕ, ◌<◌, Bool, true, false, Option, none, some, [], ◌∷◌, map, if◌then◌else◌, arith,
}
use mileva_db.Bytes.{Bytes}
use mileva_db.Mvcc.Types.{Error, Lock, Value, Result, ok, err, lock_ver, u64_mod}
use mileva_db.Mvcc.Env.{Env, IsLawful, Batch}
use mileva_db.Mvcc.Iter.{Pairs, seek, decode_lock}
use mileva_db.Mvcc.Marshal.RoundTrip.{LockFits}
use mileva_db.Mvcc.Commit.{Store, rollback_value, put_value, write_batch}
use mileva_db.Mvcc.Status.{
  pushed_min_commit_ts, cleanup_committed, cleanup_found, cleanup_at, cleanup, status_not_found,
  status_committed, status_locked, status_found, status_at, check_txn_status, heartbeat_locked,
  heartbeat_found, heartbeat_at, txn_heart_beat,
}
use mileva_db.Mvcc.Rows.{encode_row}
use mileva_db.Mvcc.Invariant.{
  IsWellFormed, IsEncoded, LockOk, rollback_lock-IsEncoded, put_value-IsEncoded, put_lock-IsEncoded,
  rollback_value-fits, decode_lock-seek, write_batch-IsWellFormed,
}

-- The store that an operation leaves is well formed.
record Keeps {ℓ} (e : Env) {A : Type ℓ} (r : Result A × Store e) : Type ℓ where
  kept : IsWellFormed e r.1.edb

Keeps-if {ℓ} :
    {e : Env} {A : Type ℓ} (b : Bool) (x y : Result A × Store e)
    → Keeps e x
    → Keeps e y
    → Keeps e (if b then x else y)
Keeps-if true x y h k = h
Keeps-if false x y h k = k

module _ (e : Env) (law : IsLawful e) (s : Store e) (w : IsWellFormed e s.edb) where
  stay {ℓ} : {A : Type ℓ} (r : Result A) → Keeps e (r, s)
  stay r = record { kept = w }

  Keeps-write {ℓ} :
      {A : Type ℓ} (batch : Batch) (a : A) → IsEncoded e batch → Keeps e (write_batch e s batch a)
  Keeps-write batch a enc = record { kept = write_batch-IsWellFormed e law s batch a w enc }

  cleanup_committed-Keeps : (r : Result (Option Value)) → Keeps e (cleanup_committed e s r)
  unfolding cleanup_committed
  cleanup_committed-Keeps (err er) = search stay
  cleanup_committed-Keeps (ok none) = search stay
  cleanup_committed-Keeps (ok (some c)) = search (stay, Keeps-if)

  cleanup_found-Keeps :
      (key : Bytes) (start_ts current_ts : ℕ) (r : Result (Option Lock × Pairs))
      → start_ts < lock_ver
      → Keeps e (cleanup_found e s key start_ts current_ts r)
  unfolding cleanup_found
  cleanup_found-Keeps key start_ts current_ts (err er) h = search stay
  cleanup_found-Keeps key start_ts current_ts (ok (none, rest)) h = search cleanup_committed-Keeps
  cleanup_found-Keeps key start_ts current_ts (ok (some l, rest)) h =
      search (stay, Keeps-if, Keeps-write, cleanup_committed-Keeps, rollback_lock-IsEncoded)

  cleanup_at-Keeps :
      (key : Bytes) (start_ts current_ts : ℕ) (pairs : Pairs) (failure : Option Error)
      → start_ts < lock_ver
      → Keeps e (cleanup_at e s key start_ts current_ts pairs failure)
  unfolding cleanup_at
  cleanup_at-Keeps key start_ts current_ts [] failure h = search stay
  cleanup_at-Keeps key start_ts current_ts (p ∷ rest) failure h = search cleanup_found-Keeps

  pub cleanup-IsWellFormed :
      (key : Bytes) (start_ts current_ts : ℕ)
      → start_ts < lock_ver
      → IsWellFormed e (cleanup e s key start_ts current_ts).1.edb
  unfolding cleanup
  cleanup-IsWellFormed key start_ts current_ts h =
      (cleanup_at-Keeps key start_ts current_ts (seek e s.edb key).rest (seek e s.edb key).failure
        h).kept

  rollback_record-IsEncoded :
      (key : Bytes) (start_ts : ℕ)
      → start_ts < lock_ver
      → IsEncoded e (put_value e key (rollback_value start_ts))
  rollback_record-IsEncoded key start_ts h =
      put_value-IsEncoded e key (rollback_value start_ts) (rollback_value-fits e start_ts h)
        (unfold rollback_value in h)

  status_not_found-Keeps :
      (key : Bytes) (lock_ts : ℕ) (b : Bool)
      → lock_ts < lock_ver
      → Keeps e (status_not_found e s key lock_ts b)
  unfolding status_not_found
  status_not_found-Keeps key lock_ts true h = search (Keeps-write, rollback_record-IsEncoded)
  status_not_found-Keeps key lock_ts false h = search stay

  status_committed-Keeps :
      (key : Bytes) (lock_ts : ℕ) (b : Bool) (r : Result (Option Value))
      → lock_ts < lock_ver
      → Keeps e (status_committed e s key lock_ts b r)
  unfolding status_committed
  status_committed-Keeps key lock_ts b (err er) h = search stay
  status_committed-Keeps key lock_ts b (ok none) h = search status_not_found-Keeps
  status_committed-Keeps key lock_ts b (ok (some c)) h = search (stay, Keeps-if)

  pub pushed-fits :
      (caller current : ℕ) → current < u64_mod → pushed_min_commit_ts caller current < u64_mod
  unfolding pushed_min_commit_ts
  pushed-fits caller current h = ground arith

  status_locked-Keeps :
      (key : Bytes) (l : Lock) (lock_ts caller current : ℕ)
      → LockFits e.op_to_int32 l
      → lock_ts < lock_ver
      → current < u64_mod
      → Keeps e (status_locked e s key l lock_ts caller current)
  unfolding status_locked
  status_locked-Keeps key l lock_ts caller current fit h k =
      search (stay, Keeps-if, Keeps-write, rollback_lock-IsEncoded, put_lock-IsEncoded, pushed)
        depth 8
    where
      pushed :
          LockFits e.op_to_int32 (record l { min_commit_ts = pushed_min_commit_ts caller current })
      pushed = record {
        start_ts = fit.start_ts;
        primary = fit.primary;
        value = fit.value;
        op = fit.op;
        ttl = fit.ttl;
        for_update_ts = fit.for_update_ts;
        txn_size = fit.txn_size;
        min_commit_ts = pushed-fits caller current k;
      }

  status_found-Keeps :
      (key : Bytes) (lock_ts caller current : ℕ) (b : Bool) (l : Option Lock) (rest : Pairs)
      → LockOk e l
      → lock_ts < lock_ver
      → current < u64_mod
      → Keeps e (status_found e s key lock_ts caller current b (ok (l, rest)))
  unfolding status_found
  status_found-Keeps key lock_ts caller current b none rest lf h k = search status_committed-Keeps
  status_found-Keeps key lock_ts caller current b (some l) rest lf h k =
      search (Keeps-if, status_locked-Keeps, status_committed-Keeps)

  status_at-Keeps :
      (key : Bytes) (lock_ts caller current : ℕ) (b : Bool) (pairs : Pairs) (failure : Option Error)
      → lock_ts < lock_ver
      → Keeps e (status_found e s key lock_ts caller current b (decode_lock e key pairs failure))
      → Keeps e (status_at e s key lock_ts caller current b pairs failure)
  unfolding status_at
  status_at-Keeps key lock_ts caller current b [] failure h k = search status_not_found-Keeps
  status_at-Keeps key lock_ts caller current b (p ∷ rest) failure h k = k

  pub check_txn_status-IsWellFormed :
      (key : Bytes) (lock_ts caller current : ℕ) (b : Bool)
      → lock_ts < lock_ver
      → current < u64_mod
      → IsWellFormed e (check_txn_status e s key lock_ts caller current b).1.edb
  unfolding check_txn_status
  check_txn_status-IsWellFormed key lock_ts caller current b h k =
      let (l, rows, q, lf, fit) = decode_lock-seek e law s.edb key w in
      (status_at-Keeps key lock_ts caller current b (seek e s.edb key).rest
        (seek e s.edb key).failure h
        (rw q (
          status_found-Keeps key lock_ts caller current b l (map (encode_row e) rows) lf h k))).kept

  heartbeat_locked-Keeps :
      (key : Bytes) (l : Lock) (advise_ttl : ℕ)
      → LockFits e.op_to_int32 l
      → advise_ttl < u64_mod
      → Keeps e (heartbeat_locked e s key l advise_ttl)
  unfolding heartbeat_locked
  heartbeat_locked-Keeps key l advise_ttl fit h =
      search (stay, Keeps-if, Keeps-write, put_lock-IsEncoded, longer)
    where
      longer : LockFits e.op_to_int32 (record l { ttl = advise_ttl })
      longer = record {
        start_ts = fit.start_ts;
        primary = fit.primary;
        value = fit.value;
        op = fit.op;
        ttl = h;
        for_update_ts = fit.for_update_ts;
        txn_size = fit.txn_size;
        min_commit_ts = fit.min_commit_ts;
      }

  heartbeat_found-Keeps :
      (key : Bytes) (start_ts advise_ttl : ℕ) (l : Option Lock) (rest : Pairs)
      → LockOk e l
      → advise_ttl < u64_mod
      → Keeps e (heartbeat_found e s key start_ts advise_ttl (ok (l, rest)))
  unfolding heartbeat_found
  heartbeat_found-Keeps key start_ts advise_ttl none rest lf h = search stay
  heartbeat_found-Keeps key start_ts advise_ttl (some l) rest lf h =
      search (stay, Keeps-if, heartbeat_locked-Keeps)

  heartbeat_at-Keeps :
      (key : Bytes) (start_ts advise_ttl : ℕ) (pairs : Pairs) (failure : Option Error)
      → Keeps e (heartbeat_found e s key start_ts advise_ttl (decode_lock e key pairs failure))
      → Keeps e (heartbeat_at e s key start_ts advise_ttl pairs failure)
  unfolding heartbeat_at
  heartbeat_at-Keeps key start_ts advise_ttl [] failure k = search stay
  heartbeat_at-Keeps key start_ts advise_ttl (p ∷ rest) failure k = k

  pub txn_heart_beat-IsWellFormed :
      (key : Bytes) (start_ts advise_ttl : ℕ)
      → advise_ttl < u64_mod
      → IsWellFormed e (txn_heart_beat e s key start_ts advise_ttl).1.edb
  unfolding txn_heart_beat
  txn_heart_beat-IsWellFormed key start_ts advise_ttl h =
      let (l, rows, q, lf, fit) = decode_lock-seek e law s.edb key w in
      (heartbeat_at-Keeps key start_ts advise_ttl (seek e s.edb key).rest (seek e s.edb key).failure
        (rw q
          (heartbeat_found-Keeps key start_ts advise_ttl l (map (encode_row e) rows) lf h))).kept
