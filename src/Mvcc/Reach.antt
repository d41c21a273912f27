-- ===== src/Mvcc/Reach.antt =====
-- The histories of the store: sequences of calls of its writing operations, each a step. RawPut
-- and RawBatchPut are none: they write any key, also one that is no encoding.
use mileva_db.Prelude.{ℕ, ◌<◌, ◌≡◌, Bool, Option, some, List, All}
use mileva_db.Bytes.{Bytes}
use mileva_db.Mvcc.Types.{Result, lock_ver, u64_mod}
use mileva_db.Mvcc.Env.{Env}
use mileva_db.Mvcc.Marshal.RoundTrip.{Fits}
use mileva_db.Mvcc.Commit.{Store, commit, rollback}
use mileva_db.Mvcc.Status.{cleanup, check_txn_status, txn_heart_beat}
use mileva_db.Mvcc.Conflict.{Mutation}
use mileva_db.Mvcc.Prewrite.{PrewriteRequest, prewrite_ctx, prewrite}
use mileva_db.Mvcc.Pessimistic.{LockCtx, pessimistic_lock, pessimistic_rollback}
use mileva_db.Mvcc.Ranges.{resolve_lock, batch_resolve_lock, gc}
use mileva_db.Mvcc.Raw.{delete_range, raw_delete_range, raw_delete, raw_batch_delete}
use mileva_db.Mvcc.Invariant.Prewrite.{CtxFits}
use mileva_db.Mvcc.Invariant.Pessimistic.{LockCtxFits}
use mileva_db.Mvcc.Invariant.Ranges.{InfosFit}

-- A transaction's timestamp is below the maximum, under which locks are stored; other numbers fit
-- 64 bits, and slices can be read back.
pub data Step (e : Env) (s : Store e) : Store e → Type 0 where
  prewrites :
      (r : PrewriteRequest)
      → CtxFits (prewrite_ctx r)
      → All (λ (mb : Mutation × Bool). Fits mb.0.value) r.mutations
      → Step e s (prewrite e s r).1
  commits :
      (keys : List Bytes) (start_ts commit_ts : ℕ)
      → start_ts < lock_ver
      → commit_ts < lock_ver
      → Step e s (commit e s keys start_ts commit_ts).1
  rolls_back :
      (keys : List Bytes) (start_ts : ℕ)
      → start_ts < lock_ver
      → Step e s (rollback e s keys start_ts).1
  cleans_up :
      (key : Bytes) (start_ts current_ts : ℕ)
      → start_ts < lock_ver
      → Step e s (cleanup e s key start_ts current_ts).1
  checks_status :
      (key : Bytes) (lock_ts caller_start_ts current_ts : ℕ) (rollback_if_not_exist : Bool)
      → lock_ts < lock_ver
      → current_ts < u64_mod
      → Step e s
          (check_txn_status e s key lock_ts caller_start_ts current_ts rollback_if_not_exist).1
  heart_beats :
      (key : Bytes) (start_ts advise_ttl : ℕ)
      → advise_ttl < u64_mod
      → Step e s (txn_heart_beat e s key start_ts advise_ttl).1
  rolls_back_pessimistic :
      (keys : List Bytes) (start_ts for_update_ts : ℕ)
      → Step e s (pessimistic_rollback e s keys start_ts for_update_ts).1
  locks_pessimistically :
      (no_wait : Bool) (c : LockCtx) (mutations : List Mutation)
      → LockCtxFits c
      → Step e s (pessimistic_lock e s no_wait c mutations).1
  resolves :
      {t : Store e} (start_key end_key : Bytes) (start_ts commit_ts : ℕ) (r : Result (Unit {0}))
      → start_ts < lock_ver
      → commit_ts < lock_ver
      → resolve_lock e s start_key end_key start_ts commit_ts ≡ some (r, t)
      → Step e s t
  resolves_batch :
      {t : Store e} (start_key end_key : Bytes) (infos : List (ℕ × ℕ)) (r : Result (Unit {0}))
      → InfosFit infos
      → batch_resolve_lock e s start_key end_key infos ≡ some (r, t)
      → Step e s t
  collects_garbage :
      {t : Store e} (start_key end_key : Bytes) (safe_point : ℕ) (r : Result (Unit {0}))
      → gc e s start_key end_key safe_point ≡ some (r, t)
      → Step e s t
  deletes_range : (start_key end_key : Bytes) → Step e s (delete_range e s start_key end_key).1
  deletes_raw_range :
      (start_key : Bytes) (end_key : Option Bytes)
      → Step e s (raw_delete_range e s start_key end_key)
  deletes_raw : (key : Bytes) → Step e s (raw_delete e s key)
  deletes_raw_batch : (keys : List Bytes) → Step e s (raw_batch_delete e s keys)

pub data Reach (e : Env) (s : Store e) : Store e → Type 0 where
  here : Reach e s s
  next : {t u : Store e} → Reach e s t → Step e t u → Reach e s u
