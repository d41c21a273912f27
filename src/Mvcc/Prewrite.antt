-- ===== src/Mvcc/Prewrite.antt =====
-- Prewrite and prewriteMutation of causetstore/mockstore/mockeinsteindb/mvcc_leveldb.go.
use mileva_db.Prelude.{
  ℕ, Bool, true, false, not, ◌&&◌, ◌||◌, Option, none, some, List, [], ◌∷◌, ◌++◌, ltb, ◌==◌,
  if◌then◌else◌,
}
use mileva_db.Bytes.{Bytes, bytes_equal}
use mileva_db.Mvcc.Types.{
  Op, op_put, op_insert, op_check_not_exists, Lock, Error, Result, ok, err, key_already_exist,
  abort, ◌>>=◌,
}
use mileva_db.Mvcc.Env.{Env, Batch}
use mileva_db.Mvcc.Lock.{lock_err, is_op_pessimistic_lock, si}
use mileva_db.Mvcc.Iter.{Pairs, seek, decode_lock}
use mileva_db.Mvcc.Reads.{get}
use mileva_db.Mvcc.Commit.{Store, put_lock}
use mileva_db.Mvcc.Conflict.{Mutation, check_conflict_value}
use mileva_db.Mvcc.Errors.{write_unless_errors}

-- The parameters of a prewrite that its mutations share.
pub record PrewriteCtx : Type 0 where
  pub start_ts : ℕ
  pub primary : Bytes
  pub ttl : ℕ
  pub txn_size : ℕ
  pub min_commit_ts : ℕ

abbrev pub stored_op : Op → Op
stored_op op_insert = op_put
stored_op op = op

-- The lock that prewriteMutation writes.
unfoldable pub prewrite_lock : PrewriteCtx → Mutation → Lock
prewrite_lock c m = record {
  start_ts = c.start_ts;
  primary = c.primary;
  value = m.value;
  op = stored_op m.op;
  ttl = c.ttl;
  for_update_ts = 0;
  txn_size = c.txn_size;
  min_commit_ts = if bytes_equal c.primary m.key then c.min_commit_ts else 0;
}

-- The pessimistic lock that is overwritten does not lose its TTL or its pushed minCommitTS.
unfoldable pub over_pessimistic : PrewriteCtx → Lock → PrewriteCtx
over_pessimistic c l = record c {
  ttl = if ltb c.ttl l.ttl then l.ttl else c.ttl;
  min_commit_ts = if ltb c.min_commit_ts l.min_commit_ts then l.min_commit_ts else c.min_commit_ts;
}

abbrev pub is_op_insert : Op → Bool
is_op_insert op_insert = true
is_op_insert _ = false

abbrev pub is_op_check_not_exists : Op → Bool
is_op_check_not_exists op_check_not_exists = true
is_op_check_not_exists _ = false

-- Inserted keys are checked for absence, but not in a pessimistic transaction.
abbrev pub checks_absence : Op → ℕ → Bool
checks_absence op for_update_ts =
    (is_op_insert op || is_op_check_not_exists op) && (for_update_ts == 0)

module _ (e : Env) where
  unfoldable pub prewrite_found :
      Mutation → PrewriteCtx → Bool → Option Error → Option Lock × Pairs → Result Batch
  prewrite_found m c is_pessimistic_lock failure (some l, rest) =
      if not (l.start_ts == c.start_ts)
      then lock_err e (if is_pessimistic_lock then record l { ttl = 0 } else l) m.key
      else if not (is_op_pessimistic_lock l.op)
      then ok []
      else ok (put_lock e m.key (prewrite_lock (over_pessimistic c l) m))
  prewrite_found m c true failure (none, rest) = err abort
  prewrite_found m c false failure (none, rest) = do
    checked ← check_conflict_value e rest failure m c.start_ts c.start_ts false
    ok (put_lock e m.key (prewrite_lock c m))

  -- prewriteMutation: what it adds to the batch
  unfoldable pub prewrite_mutation : e.Db → Mutation → PrewriteCtx → Bool → Result Batch
  unfolding prewrite_found
  prewrite_mutation db m c is_pessimistic_lock = do
    let it = seek e db m.key
    found ← decode_lock e m.key it.rest it.failure
    prewrite_found m c is_pessimistic_lock it.failure found

  -- One round of the loop of Prewrite: the errors that it appends, `none` for nil, and the batch.
  -- A mutation that only checks for absence appends nothing when it succeeds.
  unfoldable pub prewrite_step : e.Db → Mutation → PrewriteCtx → Bool → List (Option Error) × Batch
  prewrite_step db m c is_pessimistic_lock = elim (prewrite_mutation db m c is_pessimistic_lock) [
    | err er ↦ (some er ∷ [], [])
    | ok batch ↦ (none ∷ [], batch)
  ]

  -- What the check for absence answers before the mutation goes on to `rest`.
  unfoldable pub prewrite_absent :
      Mutation → List (Option Error) × Batch → Result (Option Bytes) → List (Option Error) × Batch
  prewrite_absent m rest (err er) = (some er ∷ [], [])
  prewrite_absent m rest (ok (some v)) = (some (key_already_exist m.key) ∷ [], [])
  prewrite_absent m rest (ok none) = rest

  unfoldable pub prewrite_one :
      e.Db → Mutation → PrewriteCtx → ℕ → List ℕ → Bool → List (Option Error) × Batch
  unfolding prewrite_step prewrite_absent
  prewrite_one db m c for_update_ts resolved is_pessimistic_lock =
      let rest : List (Option Error) × Batch =
        if is_op_check_not_exists m.op
        then ([], [])
        else prewrite_step db m c is_pessimistic_lock in
      if checks_absence m.op for_update_ts
      then prewrite_absent m rest (get e db m.key c.start_ts si resolved)
      else rest

-- kvrpcpb.PrewriteRequest. A flag stands beside its mutation: the source indexes the repeated field
-- IsPessimisticLock by the mutation's position and reads false where the field is empty.
pub record PrewriteRequest : Type 0 where
  pub mutations : List (Mutation × Bool)
  pub primary_lock : Bytes
  pub start_version : ℕ
  pub for_update_ts : ℕ
  pub lock_ttl : ℕ
  pub min_commit_ts : ℕ
  pub txn_size : ℕ
  pub resolved_locks : List ℕ

abbrev pub prewrite_ctx : PrewriteRequest → PrewriteCtx
prewrite_ctx r = record {
  start_ts = r.start_version;
  primary = r.primary_lock;
  ttl = r.lock_ttl;
  txn_size = r.txn_size;
  min_commit_ts = r.min_commit_ts;
}

module _ (e : Env) where
  unfoldable pub prewrite_loop :
      e.Db → PrewriteRequest → List (Mutation × Bool) → List (Option Error) × Batch
  unfolding prewrite_one
  prewrite_loop db r [] = ([], [])
  prewrite_loop db r ((m, flag) ∷ ms) =
      let (errs, batch) =
        prewrite_one e db m (prewrite_ctx r) r.for_update_ts r.resolved_locks flag in
      let (more, further) = prewrite_loop db r ms in (errs ++ more, batch ++ further)

  unfoldable pub prewrite : Store e → PrewriteRequest → List (Option Error) × Store e
  prewrite s r = write_unless_errors e s (prewrite_loop s.edb r r.mutations)
