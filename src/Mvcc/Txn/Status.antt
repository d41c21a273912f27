-- ===== src/Mvcc/Txn/Status.antt =====
-- What CheckTxnStatus and TxnHeartBeat do to the lock of a transaction.
use mileva_db.Prelude.{
  ℕ, ◌<◌, ◌≤◌, ◌≡◌, refl, Bool, true, false, none, some, List, [], ◌∷◌, map, arith, ltb,
  if◌then◌else◌, Bool-cases, inl, inr, ltb→lt, ==-refl,
}
use mileva_db.Bytes.{Bytes, bytes_equal, bytes_equal_refl, eq_of_bytes_equal}
use mileva_db.Mvcc.Types.{Lock, ok, err, commit_ts_expired, lock_ver, u64_mod}
use mileva_db.Mvcc.Env.{Env, IsLawful}
use mileva_db.Mvcc.Marshal.RoundTrip.{LockFits}
use mileva_db.Mvcc.Iter.{Pairs, seek, decode_lock}
use mileva_db.Mvcc.Commit.{Store, write_batch, put_lock, commit, commit_keys}
use mileva_db.Mvcc.Status.{
  TxnStatus, next_ts, pushed_min_commit_ts, expired, status_locked, status_found, status_at,
  check_txn_status, min_commit_ts_pushed, heartbeat_locked, heartbeat_found, heartbeat_at,
  txn_heart_beat,
}
use mileva_db.Mvcc.Rows.{Row, encode_row, Holds}
use mileva_db.Mvcc.Rows.View.{find_lock, find_values}
use mileva_db.Mvcc.Rows.Writing.{put_row, insert_row}
use mileva_db.Mvcc.Rows.Effects.{lock_row, find_lock-insert_lock, find_values-insert_lock}
use mileva_db.Mvcc.Invariant.{write_batch-Holds}
use mileva_db.Mvcc.Txn.{at_key}
use mileva_db.Mvcc.Txn.Commit.{commit_decision, commit_key-view, LockOk-find_lock}

decode_lock-empty :
    (e : Env) (key : Bytes) (l : Lock) (rest : Pairs)
    → decode_lock e key [] none ≡ ok (some l, rest)
    → ⊥
unfolding decode_lock
decode_lock-empty e key l rest q = cc

pushed-bounds :
    (caller current : ℕ)
    → caller < lock_ver
    → current < u64_mod
    → (caller < pushed_min_commit_ts caller current)
      × (pushed_min_commit_ts caller current < u64_mod)
unfolding pushed_min_commit_ts
pushed-bounds caller current cf uf = ground arith

module _ (e : Env) (law : IsLawful e) (s : Store e) (rows : List Row) (key : Bytes) (l : Lock)
    (h : Holds e s.edb rows) (here : find_lock key rows ≡ some l) where
  status_at-locked :
      (lock_ts caller current : ℕ) (b : Bool) (pairs rest : Pairs)
      → decode_lock e key pairs none ≡ ok (some l, rest)
      → l.start_ts ≡ lock_ts
      → status_at e s key lock_ts caller current b pairs none
        ≡ status_locked e s key l lock_ts caller current
  unfolding status_at status_found
  status_at-locked lock_ts caller current b [] rest q own =
      absurd (decode_lock-empty e key l rest q)
  status_at-locked lock_ts caller current b (p ∷ pairs) rest q own =
      rw (q, own, ==-refl lock_ts) refl

  check_txn_status-locked :
      (lock_ts caller current : ℕ) (b : Bool)
      → l.start_ts ≡ lock_ts
      → check_txn_status e s key lock_ts caller current b
        ≡ status_locked e s key l lock_ts caller current
  unfolding check_txn_status
  check_txn_status-locked lock_ts caller current b own =
      let a = at_key e law s.edb rows key h in
      rw a.no_failure (
        status_at-locked lock_ts caller current b (seek e s.edb key).rest
          (map (encode_row e) a.rest) (rw (← here, ← a.no_failure) a.decodes) own)

  heartbeat_at-locked :
      (start_ts advise_ttl : ℕ) (pairs rest : Pairs)
      → decode_lock e key pairs none ≡ ok (some l, rest)
      → l.start_ts ≡ start_ts
      → heartbeat_at e s key start_ts advise_ttl pairs none ≡ heartbeat_locked e s key l advise_ttl
  unfolding heartbeat_at heartbeat_found
  heartbeat_at-locked start_ts advise_ttl [] rest q own = absurd (decode_lock-empty e key l rest q)
  heartbeat_at-locked start_ts advise_ttl (p ∷ pairs) rest q own =
      rw (q, own, ==-refl start_ts) refl

  txn_heart_beat-locked :
      (start_ts advise_ttl : ℕ)
      → l.start_ts ≡ start_ts
      → txn_heart_beat e s key start_ts advise_ttl ≡ heartbeat_locked e s key l advise_ttl
  unfolding txn_heart_beat
  txn_heart_beat-locked start_ts advise_ttl own =
      let a = at_key e law s.edb rows key h in
      rw a.no_failure (
        heartbeat_at-locked start_ts advise_ttl (seek e s.edb key).rest (map (encode_row e) a.rest)
          (rw (← here, ← a.no_failure) a.decodes) own)

  -- The timestamp is below the lock's minCommitTS.
  commit-expired :
      (start_ts commit_ts : ℕ)
      → l.start_ts ≡ start_ts
      → commit_ts < l.min_commit_ts
      → (commit e s (key ∷ []) start_ts commit_ts).0
        ≡ err (commit_ts_expired start_ts commit_ts key l.min_commit_ts)
  unfolding commit commit_keys commit_decision
  commit-expired start_ts commit_ts own below =
      rw (commit_key-view e law s.edb rows key start_ts commit_ts h, here)
        (ground (arith, ==-refl start_ts))

module _ (e : Env) (law : IsLawful e) (s : Store e) (rows : List Row) (key : Bytes) (l : Lock)
    (h : Holds e s.edb rows) (here : find_lock key rows ≡ some l) where
  lock_fits : LockFits e.op_to_int32 l
  lock_fits = LockOk-find_lock e key rows l h.fit here

  abbrev pushed_lock : (caller current : ℕ) → Lock
  pushed_lock caller current = record l { min_commit_ts = pushed_min_commit_ts caller current }

  abbrev pushed_status : TxnStatus
  pushed_status = record { ttl = l.ttl; commit_ts = 0; action = min_commit_ts_pushed }

  abbrev replaced : Lock → List Row
  replaced l' = insert_row (lock_row key l') rows

  status_locked-pushes :
      (lock_ts caller current : ℕ)
      → expired e l current ≡ false
      → 0 < l.min_commit_ts
      → caller < lock_ver
      → l.min_commit_ts < next_ts caller
      → status_locked e s key l lock_ts caller current
        ≡ write_batch e s
            (put_lock e key (record l { min_commit_ts = pushed_min_commit_ts caller current }))
            (record { ttl = l.ttl; commit_ts = 0; action = min_commit_ts_pushed })
  unfolding status_locked
  status_locked-pushes lock_ts caller current alive pushable cf below = ground arith

  status_locked-keeps :
      (lock_ts caller current : ℕ)
      → expired e l current ≡ false
      → next_ts caller ≤ l.min_commit_ts
      → (status_locked e s key l lock_ts caller current).1 ≡ s
  unfolding status_locked
  status_locked-keeps lock_ts caller current alive above = ground arith

  -- Let the store hold `rows`, in which the key is locked by the transaction `lock_ts`, with a
  -- lock that is not expired at the current timestamp and whose minCommitTS is not 0. Let the
  -- caller's timestamp be below the maximum and the current one fit 64 bits. Then after
  -- CheckTxnStatus, Commit of the key at a timestamp that is not above the caller's returns the
  -- commit-timestamp-expired error, with a minCommitTS above the caller's timestamp.
  pub check_txn_status-commit :
      (lock_ts caller current commit_ts : ℕ) (b : Bool)
      → l.start_ts ≡ lock_ts
      → expired e l current ≡ false
      → 0 < l.min_commit_ts
      → caller < lock_ver
      → current < u64_mod
      → commit_ts ≤ caller
      → (min : ℕ) × (caller < min)
        × ((commit e
              (check_txn_status e s key lock_ts caller current b).1
              (key ∷ [])
              lock_ts
              commit_ts).0
            ≡ err (commit_ts_expired lock_ts commit_ts key min))
  check_txn_status-commit lock_ts caller current commit_ts b own alive pushable cf uf late =
      rw (check_txn_status-locked e law s rows key l h here lock_ts caller current b own)
        (elim (Bool-cases (ltb l.min_commit_ts (next_ts caller))) [
          | inl below ↦
              let (db, written, holds) =
                write_batch-Holds {0} e law s rows
                  (put_row (lock_row key (pushed_lock caller current)) ∷ []) pushed_status h
                  (pushed, tt) in
              (
                pushed_min_commit_ts caller current,
                above.0,
                rw
                    (
                      status_locked-pushes lock_ts caller current alive pushable cf
                          (ltb→lt l.min_commit_ts (next_ts caller) below),
                      written,
                    )
                    (commit-expired e law (record s { edb = db })
                      (replaced (pushed_lock caller current)) key (pushed_lock caller current) holds
                      (rw
                        (
                          find_lock-insert_lock key key (pushed_lock caller current) rows,
                          bytes_equal_refl key,
                        )
                        refl)
                      lock_ts commit_ts own late_pushed),
              )
          | inr kept ↦ (
            l.min_commit_ts,
            ground arith,
            rw (status_locked-keeps lock_ts caller current alive (ground arith))
                (commit-expired e law s rows key l h here lock_ts commit_ts own (ground arith)),
          )
        ])
    where
      above :
          (caller < pushed_min_commit_ts caller current)
          × (pushed_min_commit_ts caller current < u64_mod)
      above = pushed-bounds caller current cf uf

      late_pushed : commit_ts < pushed_min_commit_ts caller current
      late_pushed = omega (arith, above.0)

      pushed :
          LockFits e.op_to_int32 (record l { min_commit_ts = pushed_min_commit_ts caller current })
      pushed = record {
        start_ts = lock_fits.start_ts;
        primary = lock_fits.primary;
        value = lock_fits.value;
        op = lock_fits.op;
        ttl = lock_fits.ttl;
        for_update_ts = lock_fits.for_update_ts;
        txn_size = lock_fits.txn_size;
        min_commit_ts = above.1;
      }

  heartbeat_locked-longer :
      (advise_ttl : ℕ)
      → l.primary ≡ key
      → ltb l.ttl advise_ttl ≡ true
      → heartbeat_locked e s key l advise_ttl
        ≡ write_batch e s (put_lock e key (record l { ttl = advise_ttl })) advise_ttl
  unfolding heartbeat_locked
  heartbeat_locked-longer advise_ttl primary longer =
      rw (primary, bytes_equal_refl key, longer) refl

  heartbeat_locked-kept :
      (advise_ttl : ℕ)
      → l.primary ≡ key
      → ltb l.ttl advise_ttl ≡ false
      → heartbeat_locked e s key l advise_ttl ≡ (ok l.ttl, s)
  unfolding heartbeat_locked
  heartbeat_locked-kept advise_ttl primary kept = rw (primary, bytes_equal_refl key, kept) refl

  find_lock-same :
      (j : Bytes) → find_lock j rows ≡ (if bytes_equal key j then some l else find_lock j rows)
  find_lock-same j = elim (Bool-cases (bytes_equal key j)) [
    | inl same ↦ rw (same, ← eq_of_bytes_equal key j same, here) refl
    | inr other ↦ rw other refl
  ]

  -- Let the store hold `rows`, in which the key is locked by the transaction `start_ts` and is
  -- the lock's primary key. TxnHeartBeat with a TTL that fits 64 bits returns the larger of that
  -- TTL and the lock's, and the database then holds rows in which the key's lock has the returned
  -- TTL and is otherwise as it was, the lock of every other key is as it was, and so are the
  -- versions of all keys.
  pub txn_heart_beat-ttl :
      (start_ts advise_ttl : ℕ)
      → l.start_ts ≡ start_ts
      → l.primary ≡ key
      → advise_ttl < u64_mod
      → let ttl = if ltb l.ttl advise_ttl then advise_ttl else l.ttl in
        ((txn_heart_beat e s key start_ts advise_ttl).0 ≡ ok ttl)
        × (rows' : List Row) × Holds e (txn_heart_beat e s key start_ts advise_ttl).1.edb rows'
        × ((j : Bytes)
            → (find_lock j rows'
                ≡ (if bytes_equal key j then some (record l { ttl = ttl }) else find_lock j rows))
              × (find_values j rows' ≡ find_values j rows))
  txn_heart_beat-ttl start_ts advise_ttl own primary fits =
      rw (txn_heart_beat-locked e law s rows key l h here start_ts advise_ttl own)
        (elim (Bool-cases (ltb l.ttl advise_ttl)) [
          | inl longer ↦
              let (db, written, holds) =
                write_batch-Holds {0} e law s rows
                  (put_row (lock_row key (record l { ttl = advise_ttl })) ∷ []) advise_ttl h
                  (longer_fits, tt) in
              rw (heartbeat_locked-longer advise_ttl primary longer, written, longer)
                (
                  refl,
                  replaced (record l { ttl = advise_ttl }),
                  holds,
                  λ j. (
                    find_lock-insert_lock j key (record l { ttl = advise_ttl }) rows,
                    find_values-insert_lock e j key (record l { ttl = advise_ttl }) rows h.fit,
                  ),
                )
          | inr kept ↦
              rw (heartbeat_locked-kept advise_ttl primary kept, kept)
                (refl, rows, h, λ j. (find_lock-same j, refl))
        ])
    where
      longer_fits : LockFits e.op_to_int32 (record l { ttl = advise_ttl })
      longer_fits = record {
        start_ts = lock_fits.start_ts;
        primary = lock_fits.primary;
        value = lock_fits.value;
        op = lock_fits.op;
        ttl = fits;
        for_update_ts = lock_fits.for_update_ts;
        txn_size = lock_fits.txn_size;
        min_commit_ts = lock_fits.min_commit_ts;
      }
