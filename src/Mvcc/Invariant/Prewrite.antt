-- ===== src/Mvcc/Invariant/Prewrite.antt =====
-- Prewrite and PessimisticRollback against the invariant of Mvcc/Invariant.
use mileva_db.Prelude.{
  ℕ, ◌<◌, Bool, true, false, Option, none, some, List, [], ◌∷◌, map, leb, ◌==◌, ◌&&◌, Bool-cases,
  inl, inr, if◌then◌else◌, arith, All,
}
use mileva_db.Bytes.{Bytes}
use mileva_db.Mvcc.Types.{Error, Lock, Result, ok, err, u64_mod}
use mileva_db.Mvcc.Env.{Env, IsLawful, Batch}
use mileva_db.Mvcc.Lock.{lock_err, is_op_pessimistic_lock, si}
use mileva_db.Mvcc.Iter.{Pairs, seek, decode_lock}
use mileva_db.Mvcc.Marshal.RoundTrip.{LockFits, Fits}
use mileva_db.Mvcc.Reads.{get}
use mileva_db.Mvcc.Commit.{Store, put_lock}
use mileva_db.Mvcc.Conflict.{Mutation, check_conflict_value}
use mileva_db.Mvcc.Errors.{any_error, write_unless_errors}
use mileva_db.Mvcc.Prewrite.{
  PrewriteCtx, PrewriteRequest, prewrite_ctx, prewrite_lock, over_pessimistic, prewrite_found,
  prewrite_mutation, prewrite_step, prewrite_one, prewrite_loop, prewrite, is_op_check_not_exists,
  checks_absence, prewrite_absent,
}
use mileva_db.Mvcc.Pessimistic.{
  rollback_pessimistic, pessimistic_rollback_key, rollback_step, pessimistic_rollback_keys,
  pessimistic_rollback,
}
use mileva_db.Mvcc.Rows.{Row, encode_row, RowsFit}
use mileva_db.Mvcc.Rows.Writing.{apply_rows, write-Holds}
use mileva_db.Mvcc.Invariant.{
  IsWellFormed, IsEncoded, IsEncoded-nil, IsEncoded-append, Yields, Yields-bind, LockOk,
  put_lock-IsEncoded, delete_lock-IsEncoded, decode_lock-Yields,
}

-- What a request may carry: 64-bit numbers and slices that can be read back.
pub record CtxFits (c : PrewriteCtx) : Type 0 where
  pub start_ts : c.start_ts < u64_mod
  pub primary : Fits c.primary
  pub ttl : c.ttl < u64_mod
  pub txn_size : c.txn_size < u64_mod
  pub min_commit_ts : c.min_commit_ts < u64_mod

over_pessimistic-fits :
    (f : _) (c : PrewriteCtx) (l : Lock) → CtxFits c → LockFits f l → CtxFits (over_pessimistic c l)
unfolding over_pessimistic
over_pessimistic-fits f c l h k = ground arith

record Adds (e : Env) (r : List (Option Error) × Batch) : Type 0 where
  added : IsEncoded e r.1

Adds-if :
    {e : Env} (b : Bool) (x y : List (Option Error) × Batch)
    → Adds e x
    → Adds e y
    → Adds e (if b then x else y)
Adds-if true x y h k = h
Adds-if false x y h k = k

abbrev step_of : Result Batch → List (Option Error) × Batch
step_of (err er) = (some er ∷ [], [])
step_of (ok batch) = (none ∷ [], batch)

module _ (e : Env) (law : IsLawful e) where
  prewrite_lock-Fits :
      (c : PrewriteCtx) (m : Mutation)
      → CtxFits c
      → Fits m.value
      → LockFits e.op_to_int32 (prewrite_lock c m)
  unfolding prewrite_lock
  prewrite_lock-Fits c m h k = record {
    start_ts = h.start_ts;
    primary = h.primary;
    value = k;
    op = law.op_to-lt _;
    ttl = h.ttl;
    for_update_ts = omega arith;
    txn_size = h.txn_size;
    min_commit_ts = ground (arith, h.min_commit_ts);
  }

  prewrite_found-Yields :
      (m : Mutation) (c : PrewriteCtx) (b : Bool) (failure : Option Error)
      → CtxFits c
      → Fits m.value
      → (l : Option Lock) (rows : List Row) → LockOk e l
      → RowsFit e rows
      → Yields e (prewrite_found e m c b failure (l, map (encode_row e) rows))
  unfolding prewrite_found lock_err
  prewrite_found-Yields m c b failure h k (some l) rows lf fit =
      elim (Bool-cases (l.start_ts == c.start_ts)) [
        | inr q ↦ rw q tt
        | inl q ↦ rw q (elim (Bool-cases (is_op_pessimistic_lock l.op)) [
          | inr t ↦ rw t (IsEncoded-nil e)
          | inl t ↦ rw t (
              put_lock-IsEncoded e m.key _ (
                prewrite_lock-Fits (over_pessimistic c l) m
                  (over_pessimistic-fits e.op_to_int32 c l h lf) k))
        ])
      ]
  prewrite_found-Yields m c true failure h k none rows lf fit = tt
  prewrite_found-Yields m c false failure h k none rows lf fit =
      Yields-bind e
        (check_conflict_value e (map (encode_row e) rows) failure m c.start_ts c.start_ts false)
        (λ _. ok (put_lock e m.key (prewrite_lock c m)))
        (λ _ _. put_lock-IsEncoded e m.key (prewrite_lock c m) (prewrite_lock-Fits c m h k))

  pub prewrite_mutation-Yields :
      (db : e.Db) (m : Mutation) (c : PrewriteCtx) (b : Bool)
      → CtxFits c
      → Fits m.value
      → IsWellFormed e db
      → Yields e (prewrite_mutation e db m c b)
  unfolding prewrite_mutation
  prewrite_mutation-Yields db m c b h k w =
      decode_lock-Yields e law db m.key (prewrite_found e m c b (seek e db m.key).failure) w
        (prewrite_found-Yields m c b (seek e db m.key).failure h k)

  -- What a round of the loop adds to the batch is encoded.
  step-Adds : (m : Mutation) (r : Result Batch) → Yields e r → Adds e (step_of r)
  step-Adds m (err er) h = record { added = IsEncoded-nil e }
  step-Adds m (ok batch) h = record { added = h }

  absent-Adds :
      (m : Mutation) (rest : List (Option Error) × Batch) (r : Result (Option Bytes))
      → Adds e rest
      → Adds e (prewrite_absent e m rest r)
  unfolding prewrite_absent
  absent-Adds m rest (err er) h = record { added = IsEncoded-nil e }
  absent-Adds m rest (ok (some v)) h = record { added = IsEncoded-nil e }
  absent-Adds m rest (ok none) h = h

  one-Adds :
      (db : e.Db) (m : Mutation) (c : PrewriteCtx) (ts : ℕ) (resolved : List ℕ) (b : Bool)
      → CtxFits c
      → Fits m.value
      → IsWellFormed e db
      → Adds e (prewrite_one e db m c ts resolved b)
  unfolding prewrite_one prewrite_step
  one-Adds db m c ts resolved b h k w =
      let step : Adds e (prewrite_step e db m c b) =
        step-Adds m (prewrite_mutation e db m c b) (prewrite_mutation-Yields db m c b h k w) in
      let rest : List (Option Error) × Batch =
        if is_op_check_not_exists m.op then ([], []) else prewrite_step e db m c b in
      let rest_adds : Adds e rest =
        Adds-if (is_op_check_not_exists m.op) ([], []) (prewrite_step e db m c b)
          (record { added = IsEncoded-nil e }) step in
      Adds-if (checks_absence m.op ts)
        (prewrite_absent e m rest (get e db m.key c.start_ts si resolved)) rest
        (absent-Adds m rest (get e db m.key c.start_ts si resolved) rest_adds) rest_adds

  loop-Adds :
      (db : e.Db) (r : PrewriteRequest) (ms : List (Mutation × Bool))
      → CtxFits (prewrite_ctx r)
      → All (λ (mb : Mutation × Bool). Fits mb.0.value) ms
      → IsWellFormed e db
      → Adds e (prewrite_loop e db r ms)
  unfolding prewrite_loop
  loop-Adds db r [] h k w = record { added = IsEncoded-nil e }
  loop-Adds db r ((m, b) ∷ ms) h k w = record {
    added =
        IsEncoded-append e _ _
          (one-Adds db m (prewrite_ctx r) r.for_update_ts r.resolved_locks b h k.0 w).added
          (loop-Adds db r ms h k.1 w).added;
  }

  unless_errors-IsWellFormed :
      (s : Store e) (errs : List (Option Error)) (batch : Batch)
      → IsWellFormed e s.edb
      → IsEncoded e batch
      → IsWellFormed e (write_unless_errors e s (errs, batch)).1.edb
  unless_errors-IsWellFormed s errs batch w enc = elim (Bool-cases (any_error errs)) [
    | inl q ↦ rw q w
    | inr q ↦
        let (db, written, holds) = write-Holds e law s.edb w.rows enc.ops w.holds enc.fit in
        let kept : IsWellFormed e db = record { rows = apply_rows enc.ops w.rows; holds = holds } in
        rw (q, enc.encodes, written) kept
  ]

  -- From a well-formed database, a prewrite whose numbers and slices fit leaves a well-formed one.
  pub prewrite-IsWellFormed :
      (s : Store e) (r : PrewriteRequest)
      → CtxFits (prewrite_ctx r)
      → All (λ (mb : Mutation × Bool). Fits mb.0.value) r.mutations
      → IsWellFormed e s.edb
      → IsWellFormed e (prewrite e s r).1.edb
  unfolding prewrite
  prewrite-IsWellFormed s r h k w =
      unless_errors-IsWellFormed s (prewrite_loop e s.edb r r.mutations).0
        (prewrite_loop e s.edb r r.mutations).1 w (loop-Adds s.edb r r.mutations h k w).added

  rollback_pessimistic-IsEncoded :
      (key : Bytes) (start_ts for_update_ts : ℕ) (found : Option Lock × Pairs)
      → IsEncoded e (rollback_pessimistic e key start_ts for_update_ts found)
  unfolding rollback_pessimistic
  rollback_pessimistic-IsEncoded key start_ts for_update_ts (none, rest) = IsEncoded-nil e
  rollback_pessimistic-IsEncoded key start_ts for_update_ts (some l, rest) =
      elim (Bool-cases (
        is_op_pessimistic_lock l.op
        && ((l.start_ts == start_ts) && leb l.for_update_ts for_update_ts))) [
          | inl q ↦ rw q (delete_lock-IsEncoded e key)
          | inr q ↦ rw q (IsEncoded-nil e)
        ]

  pessimistic_rollback_key-Yields :
      (db : e.Db) (key : Bytes) (start_ts for_update_ts : ℕ)
      → Yields e (pessimistic_rollback_key e db key start_ts for_update_ts)
  unfolding pessimistic_rollback_key
  pessimistic_rollback_key-Yields db key start_ts for_update_ts =
      Yields-bind e (decode_lock e key (seek e db key).rest (seek e db key).failure)
        (λ found. ok (rollback_pessimistic e key start_ts for_update_ts found))
        (λ found _. rollback_pessimistic-IsEncoded key start_ts for_update_ts found)

  rollback_step-Adds :
      (r : Result Batch) (rest : List (Option Error) × Batch)
      → Yields e r
      → Adds e rest
      → Adds e (rollback_step e r rest)
  unfolding rollback_step
  rollback_step-Adds (err er) (errs, batch) h k = record { added = k.added }
  rollback_step-Adds (ok ops) (errs, batch) h k = record {
    added = IsEncoded-append e ops batch h k.added;
  }

  rollback_keys-Adds :
      (db : e.Db) (ks : List Bytes) (start_ts for_update_ts : ℕ)
      → Adds e (pessimistic_rollback_keys e db ks start_ts for_update_ts)
  unfolding pessimistic_rollback_keys
  rollback_keys-Adds db [] start_ts for_update_ts = record { added = IsEncoded-nil e }
  rollback_keys-Adds db (k ∷ ks) start_ts for_update_ts =
      rollback_step-Adds (pessimistic_rollback_key e db k start_ts for_update_ts)
        (pessimistic_rollback_keys e db ks start_ts for_update_ts)
        (pessimistic_rollback_key-Yields db k start_ts for_update_ts)
        (rollback_keys-Adds db ks start_ts for_update_ts)

  pub pessimistic_rollback-IsWellFormed :
      (s : Store e) (keys : List Bytes) (start_ts for_update_ts : ℕ)
      → IsWellFormed e s.edb
      → IsWellFormed e (pessimistic_rollback e s keys start_ts for_update_ts).1.edb
  unfolding pessimistic_rollback
  pessimistic_rollback-IsWellFormed s keys start_ts for_update_ts w =
      unless_errors-IsWellFormed s (pessimistic_rollback_keys e s.edb keys start_ts for_update_ts).0
        (pessimistic_rollback_keys e s.edb keys start_ts for_update_ts).1 w
        (rollback_keys-Adds s.edb keys start_ts for_update_ts).added
