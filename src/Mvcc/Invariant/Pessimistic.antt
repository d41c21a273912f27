-- ===== src/Mvcc/Invariant/Pessimistic.antt =====
-- PessimisticLock against the invariant of Mvcc/Invariant.
use mileva_db.Prelude.{
  ℕ, ◌<◌, Bool, true, Option, none, some, List, [], ◌∷◌, ◌==◌, ◌&&◌, Bool-cases, inl, inr,
  if◌then◌else◌, arith,
}
use mileva_db.Bytes.{Bytes}
use mileva_db.Mvcc.Types.{Error, Lock, Result, ok, err, u64_mod, ◌>>=◌}
use mileva_db.Mvcc.Env.{Env, IsLawful}
use mileva_db.Mvcc.Lock.{lock_err}
use mileva_db.Mvcc.Iter.{Pairs, seek, decode_lock}
use mileva_db.Mvcc.Marshal.RoundTrip.{LockFits, Fits}
use mileva_db.Mvcc.Commit.{Store, put_lock}
use mileva_db.Mvcc.Conflict.{Mutation, check_conflict_value}
use mileva_db.Mvcc.Errors.{any_error}
use mileva_db.Mvcc.Pessimistic.{
  LockCtx, Locking, pessimistic_lock_of, pessimistic_blocked, pessimistic_found,
  pessimistic_lock_mutation, is_locked, add_locking, pessimistic_lock_loop, pessimistic_lock_end,
  pessimistic_lock,
}
use mileva_db.Mvcc.Rows.Writing.{apply_rows, write-Holds}
use mileva_db.Mvcc.Invariant.{
  IsWellFormed, IsEncoded, IsEncoded-nil, IsEncoded-append, put_lock-IsEncoded,
}

-- What a request may carry: 64-bit numbers and a slice that can be read back.
pub record LockCtxFits (c : LockCtx) : Type 0 where
  pub start_ts : c.start_ts < u64_mod
  pub primary : Fits c.primary
  pub ttl : c.ttl < u64_mod
  pub for_update_ts : c.for_update_ts < u64_mod
  pub min_commit_ts : c.min_commit_ts < u64_mod

module _ (e : Env) (law : IsLawful e) (c : LockCtx) (c_fits : LockCtxFits c) where
  -- The batch of a mutation that locks is one of encoded records.
  abbrev LocksEncoded : Result Locking → Type 0
  LocksEncoded (err er) = Unit
  LocksEncoded (ok l) = IsEncoded e l.0

  pessimistic_lock_of-Fits : LockFits e.op_to_int32 (pessimistic_lock_of c)
  unfolding pessimistic_lock_of
  pessimistic_lock_of-Fits = record {
    start_ts = c_fits.start_ts;
    primary = c_fits.primary;
    value = omega arith;
    op = law.op_to-lt _;
    ttl = c_fits.ttl;
    for_update_ts = c_fits.for_update_ts;
    txn_size = omega arith;
    min_commit_ts = c_fits.min_commit_ts;
  }

  found-refused :
      (found : Option ℕ) (l : Lock) (m : Mutation) (er : ℕ → Error)
      → LocksEncoded (elim found [ some hash ↦ err (er hash) | none ↦ lock_err e l m.key ])
  unfolding lock_err
  found-refused none l m er = tt
  found-refused (some hash) l m er = tt

  blocked-LocksEncoded :
      (det : e.Detector) (m : Mutation) (l : Lock)
      → LocksEncoded (pessimistic_blocked e det m c l).0
  unfolding pessimistic_blocked
  blocked-LocksEncoded det m l = found-refused _ l m _

  checked-LocksEncoded :
      (m : Mutation) (r : Result (Option Bytes)) (values : Option Bytes → List (Option Bytes))
      → LocksEncoded (r >>= λ val. ok (put_lock e m.key (pessimistic_lock_of c), values val))
  checked-LocksEncoded m (err er) values = tt
  checked-LocksEncoded m (ok val) values =
      put_lock-IsEncoded e m.key (pessimistic_lock_of c) pessimistic_lock_of-Fits

  found-LocksEncoded :
      (det : e.Detector) (m : Mutation) (failure : Option Error) (l : Option Lock) (rest : Pairs)
      → LocksEncoded (pessimistic_found e det m c failure (l, rest)).0
  unfolding pessimistic_found
  found-LocksEncoded det m failure (some l) rest = elim (Bool-cases (l.start_ts == c.start_ts)) [
    | inl own ↦ rw own (IsEncoded-nil e)
    | inr foreign ↦ rw foreign (blocked-LocksEncoded det m l)
  ]
  found-LocksEncoded det m failure none rest =
      checked-LocksEncoded m (check_conflict_value e rest failure m c.for_update_ts c.start_ts true)
        (λ val. if c.return_values then val ∷ [] else [])

  decoded-LocksEncoded :
      (det : e.Detector) (m : Mutation) (failure : Option Error) (r : Result (Option Lock × Pairs))
      → (let found : Result Locking × e.Detector = elim r [
        | err er ↦ (err er, det)
        | ok lock ↦ pessimistic_found e det m c failure lock
      ] in
          LocksEncoded found.0)
  decoded-LocksEncoded det m failure (err er) = tt
  decoded-LocksEncoded det m failure (ok (l, rest)) = found-LocksEncoded det m failure l rest

  mutation-LocksEncoded :
      (db : e.Db) (det : e.Detector) (m : Mutation)
      → LocksEncoded (pessimistic_lock_mutation e db det m c).0
  unfolding pessimistic_lock_mutation
  mutation-LocksEncoded db det m =
      decoded-LocksEncoded det m (seek e db m.key).failure
        (decode_lock e m.key (seek e db m.key).rest (seek e db m.key).failure)

  add_locking-IsEncoded :
      (r : Result Locking) (rest : List (Option Error) × Locking × e.Detector)
      → LocksEncoded r
      → IsEncoded e rest.1.0
      → IsEncoded e (add_locking e r rest).1.0
  unfolding add_locking
  add_locking-IsEncoded (err er) (errs, more, det) h k = k
  add_locking-IsEncoded (ok (batch, values)) (errs, (more, further), det) h k =
      IsEncoded-append e batch more h k

  pessimistic_lock_loop-IsEncoded :
      (db : e.Db) (no_wait : Bool) (det : e.Detector) (ms : List Mutation)
      → IsEncoded e (pessimistic_lock_loop e db no_wait c det ms).1.0
  unfolding pessimistic_lock_loop
  pessimistic_lock_loop-IsEncoded db no_wait det [] = IsEncoded-nil e
  pessimistic_lock_loop-IsEncoded db no_wait det (m ∷ ms) =
      let r = pessimistic_lock_mutation e db det m c in
      let here = mutation-LocksEncoded db det m in
      elim (Bool-cases (no_wait && is_locked e r.0)) [
        | inl stops ↦
            rw stops (add_locking-IsEncoded r.0 ([], ([], []), r.1) here (IsEncoded-nil e))
        | inr goes_on ↦ rw goes_on (
            add_locking-IsEncoded r.0 (pessimistic_lock_loop e db no_wait c r.1 ms) here
              (pessimistic_lock_loop-IsEncoded db no_wait r.1 ms))
      ]

  pessimistic_lock_end-IsWellFormed :
      (s : Store e) (x : List (Option Error) × Locking × e.Detector)
      → IsWellFormed e s.edb
      → IsEncoded e x.1.0
      → IsWellFormed e (pessimistic_lock_end e s c x).1.edb
  unfolding pessimistic_lock_end
  pessimistic_lock_end-IsWellFormed s (errs, (batch, values), det) w enc =
      elim (Bool-cases (any_error errs)) [
        | inl q ↦ rw q w
        | inr q ↦
            let (db, written, holds) = write-Holds e law s.edb w.rows enc.ops w.holds enc.fit in
            let kept : IsWellFormed e db = record {
              rows = apply_rows enc.ops w.rows;
              holds = holds;
            } in
            rw (q, enc.encodes, written) kept
      ]

  pub pessimistic_lock-IsWellFormed :
      (s : Store e) (no_wait : Bool) (ms : List Mutation)
      → IsWellFormed e s.edb
      → IsWellFormed e (pessimistic_lock e s no_wait c ms).1.edb
  unfolding pessimistic_lock
  pessimistic_lock-IsWellFormed s no_wait ms w =
      pessimistic_lock_end-IsWellFormed s
        (pessimistic_lock_loop e s.edb no_wait c s.deadlock_detector ms) w
        (pessimistic_lock_loop-IsEncoded s.edb no_wait s.deadlock_detector ms)
