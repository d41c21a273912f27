-- ===== src/Mvcc/Pessimistic.antt =====
-- PessimisticLock and PessimisticRollback of
-- causetstore/mockstore/mockeinsteindb/mvcc_leveldb.go.
use mileva_db.Prelude.{
  ℕ, Bool, true, false, not, ◌&&◌, Option, none, some, List, [], ◌∷◌, ◌++◌, leb, ◌==◌,
  if◌then◌else◌,
}
use mileva_db.Bytes.{Bytes}
use mileva_db.Mvcc.Types.{
  op_pessimistic_lock, locked, deadlock, Lock, Error, Result, ok, err, ◌>>=◌,
}
use mileva_db.Mvcc.Env.{Env, Batch}
use mileva_db.Mvcc.Lock.{lock_err, is_op_pessimistic_lock}
use mileva_db.Mvcc.Iter.{Pairs, seek, decode_lock}
use mileva_db.Mvcc.Commit.{Store, put_lock, delete_lock}
use mileva_db.Mvcc.Conflict.{Mutation, check_conflict_value}
use mileva_db.Mvcc.Errors.{any_error, write_unless_errors}

-- lockCtx, but for the values that it collects
pub record LockCtx : Type 0 where
  pub start_ts : ℕ
  pub for_update_ts : ℕ
  pub primary : Bytes
  pub ttl : ℕ
  pub min_commit_ts : ℕ
  pub return_values : Bool

-- What a mutation adds to the batch and to the values of the response.
abbrev pub Locking : Type 0
Locking = Batch × List (Option Bytes)

unfoldable pub pessimistic_lock_of : LockCtx → Lock
pessimistic_lock_of c = record {
  start_ts = c.start_ts;
  primary = c.primary;
  value = [];
  op = op_pessimistic_lock;
  ttl = c.ttl;
  for_update_ts = c.for_update_ts;
  txn_size = 0;
  min_commit_ts = c.min_commit_ts;
}

-- The response: the errors of the keys, or the values.
pub record LockResponse : Type 0 where
  pub errors : List Error
  pub values : List (Option Bytes)

-- convertToKeyErrors of rpc.go, which leaves out what is no error
abbrev pub convert_to_key_errors : List (Option Error) → List Error
convert_to_key_errors [] = []
convert_to_key_errors (none ∷ errs) = convert_to_key_errors errs
convert_to_key_errors (some er ∷ errs) = er ∷ convert_to_key_errors errs

module _ (e : Env) where
  unfoldable pub pessimistic_blocked :
      e.Detector → Mutation → LockCtx → Lock → Result Locking × e.Detector
  pessimistic_blocked det m c l =
      let (found, det') = e.detect det c.start_ts l.start_ts (e.fingerprint64 m.key) in
      (
        elim found [
          | some key_hash ↦ err (deadlock l.start_ts m.key key_hash)
          | none ↦ lock_err e l m.key
        ],
        det',
      )

  unfoldable pub pessimistic_found :
      e.Detector
      → Mutation
      → LockCtx
      → Option Error
      → Option Lock × Pairs
      → Result Locking × e.Detector
  unfolding pessimistic_blocked
  pessimistic_found det m c failure (some l, rest) =
      if not (l.start_ts == c.start_ts) then pessimistic_blocked det m c l else (ok ([], []), det)
  pessimistic_found det m c failure (none, rest) = (
    (do
      val ← check_conflict_value e rest failure m c.for_update_ts c.start_ts true
      ok (put_lock e m.key (pessimistic_lock_of c), if c.return_values then val ∷ [] else [])),
    det,
  )

  -- pessimisticLockMutation
  unfoldable pub pessimistic_lock_mutation :
      e.Db → e.Detector → Mutation → LockCtx → Result Locking × e.Detector
  unfolding pessimistic_found
  pessimistic_lock_mutation db det m c =
      let it = seek e db m.key in
      elim (decode_lock e m.key it.rest it.failure) [
        | err er ↦ (err er, det)
        | ok found ↦ pessimistic_found det m c it.failure found
      ]

  abbrev pub is_locked {ℓ} : {A : Type ℓ} → Result A → Bool
  is_locked (err (locked info)) = true
  is_locked _ = false

  unfoldable pub add_locking :
      Result Locking
      → List (Option Error) × Locking × e.Detector
      → List (Option Error) × Locking × e.Detector
  add_locking (err er) (errs, more, det) = (some er ∷ errs, more, det)
  add_locking (ok (batch, values)) (errs, (more, further), det) =
      (none ∷ errs, (batch ++ more, values ++ further), det)

  -- The loop of PessimisticLock: without waiting it stops at the first key that is locked.
  unfoldable pub pessimistic_lock_loop :
      e.Db
      → (no_wait : Bool) → LockCtx
      → e.Detector
      → List Mutation
      → List (Option Error) × Locking × e.Detector
  unfolding add_locking
  pessimistic_lock_loop db no_wait c det [] = ([], ([], []), det)
  pessimistic_lock_loop db no_wait c det (m ∷ ms) =
      let (r, det') = pessimistic_lock_mutation db det m c in
      let rest = pessimistic_lock_loop db no_wait c det' ms in
      if no_wait && is_locked r then add_locking r ([], ([], []), det') else add_locking r rest

  unfoldable pub pessimistic_lock_end :
      Store e → LockCtx → List (Option Error) × Locking × e.Detector → LockResponse × Store e
  pessimistic_lock_end s c (errs, (batch, values), det) =
      if any_error errs
      then (
        record { errors = convert_to_key_errors errs; values = [] },
        record s { deadlock_detector = det },
      )
      else elim (e.write s.edb batch) [
        | err er ↦ (record { errors = er ∷ []; values = [] }, record s { deadlock_detector = det })
        | ok db ↦ (
          record { errors = []; values = if c.return_values then values else [] },
          record { edb = db; deadlock_detector = det },
        )
      ]

  -- PessimisticLock. `no_wait` is WaitTimeout == LockNoWait; the simulated wait only sleeps.
  unfoldable pub pessimistic_lock :
      Store e → (no_wait : Bool) → LockCtx → List Mutation → LockResponse × Store e
  unfolding pessimistic_lock_end
  pessimistic_lock s no_wait c mutations =
      pessimistic_lock_end s c (pessimistic_lock_loop s.edb no_wait c s.deadlock_detector mutations)

  -- pessimisticRollbackKey
  unfoldable pub rollback_pessimistic : Bytes → ℕ → ℕ → Option Lock × Pairs → Batch
  rollback_pessimistic key start_ts for_update_ts (none, rest) = []
  rollback_pessimistic key start_ts for_update_ts (some l, rest) =
      if is_op_pessimistic_lock l.op
        && ((l.start_ts == start_ts) && leb l.for_update_ts for_update_ts)
      then delete_lock e key
      else []

  unfoldable pub pessimistic_rollback_key : e.Db → Bytes → ℕ → ℕ → Result Batch
  unfolding rollback_pessimistic
  pessimistic_rollback_key db key start_ts for_update_ts = do
    let it = seek e db key
    found ← decode_lock e key it.rest it.failure
    ok (rollback_pessimistic key start_ts for_update_ts found)

  unfoldable pub rollback_step :
      Result Batch → List (Option Error) × Batch → List (Option Error) × Batch
  rollback_step (err er) (errs, batch) = (some er ∷ errs, batch)
  rollback_step (ok ops) (errs, batch) = (none ∷ errs, ops ++ batch)

  unfoldable pub pessimistic_rollback_keys : e.Db → List Bytes → ℕ → ℕ → List (Option Error) × Batch
  unfolding rollback_step
  pessimistic_rollback_keys db [] start_ts for_update_ts = ([], [])
  pessimistic_rollback_keys db (k ∷ ks) start_ts for_update_ts =
      rollback_step (pessimistic_rollback_key db k start_ts for_update_ts)
        (pessimistic_rollback_keys db ks start_ts for_update_ts)

  unfoldable pub pessimistic_rollback : Store e → List Bytes → ℕ → ℕ → List (Option Error) × Store e
  unfolding pessimistic_rollback_keys
  pessimistic_rollback s keys start_ts for_update_ts =
      write_unless_errors e s (pessimistic_rollback_keys s.edb keys start_ts for_update_ts)
