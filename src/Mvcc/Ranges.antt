-- ===== src/Mvcc/Ranges.antt =====
-- The operations on a range of keys: ScanLock, ResolveLock, BatchResolveLock and GC of
-- causetstore/mockstore/mockeinsteindb/mvcc_leveldb.go. GC has a loop over the versions of each key.
pub mod Fuel
use mileva_db.Prelude.{
  ℕ, zero, suc, Bool, true, false, not, ◌||◌, Option, none, some, List, [], ◌∷◌, ◌++◌, ltb, leb,
  ◌==◌, if◌then◌else◌, length,
}
use mileva_db.Bytes.{Bytes}
use mileva_db.Mvcc.Types.{
  Lock, Value, Error, Result, ok, err, type_put, type_delete, lock_under_safe_point, ◌>>=◌,
}
use mileva_db.Mvcc.Env.{Env, Iterator, Batch, delete}
use mileva_db.Mvcc.Lock.{mvcc_encode, mvcc_decode}
use mileva_db.Mvcc.Iter.{Pairs, decode_lock, decode_value_pair, skip_key}
use mileva_db.Mvcc.Reads.{new_scan_iterator}
use mileva_db.Mvcc.Commit.{Store, write_batch, commit_lock, rollback_lock}

-- kvrpcpb.LockInfo
pub record LockInfo : Type 0 where
  pub primary_lock : Bytes
  pub lock_version : ℕ
  pub key : Bytes

module _ (e : Env) where
  -- The loop that ScanLock, ResolveLock and BatchResolveLock share, over the keys of the iterator:
  -- `body` appends to what is collected for a key and its lock. `none`: the fuel ran out.
  unfoldable pub lock_loop {ℓ} :
      {A : Type ℓ}
      → ℕ
      → (body : Bytes → Option Lock → List A) → Bytes
      → Pairs
      → Option Error
      → List A
      → Option (Result (List A))
  lock_loop zero body curr_key pairs failure acc = none
  lock_loop (suc fuel) body curr_key [] failure acc = some (ok acc)
  lock_loop (suc fuel) body curr_key (p ∷ rest) failure acc =
      elim (decode_lock e curr_key (p ∷ rest) failure) [
        | err er ↦ some (err er)
        | ok (found, here) ↦ elim (skip_key e curr_key here failure) [
          | err er ↦ some (err er)
          | ok (more, next_key, next) ↦
              lock_loop fuel body next_key next failure (acc ++ body curr_key found)
        ]
      ]

  -- With the keys of the iterator for fuel, and one round for a start key that is not there.
  unfoldable pub for_each_lock {ℓ} :
      {A : Type ℓ}
      → e.Db
      → Bytes
      → Bytes
      → (body : Bytes → Option Lock → List A) → Option (Result (List A))
  for_each_lock db start_key end_key body = elim (new_scan_iterator e db start_key end_key) [
    | err er ↦ some (err er)
    | ok (it, curr_key) ↦ lock_loop (suc (suc (length it.rest))) body curr_key it.rest it.failure []
  ]

  unfoldable pub scan_lock_body : ℕ → Bytes → Option Lock → List LockInfo
  scan_lock_body max_ts key none = []
  scan_lock_body max_ts key (some l) =
      if leb l.start_ts max_ts
      then record { primary_lock = l.primary; lock_version = l.start_ts; key = key } ∷ []
      else []

  unfoldable pub scan_lock : e.Db → Bytes → Bytes → ℕ → Option (Result (List LockInfo))
  unfolding scan_lock_body
  scan_lock db start_key end_key max_ts = for_each_lock db start_key end_key (scan_lock_body max_ts)

  -- A lock is committed at a positive timestamp and rolled back at 0.
  unfoldable pub resolve : Bytes → Lock → ℕ → Batch
  resolve key l commit_ts =
      if ltb 0 commit_ts
      then commit_lock e l key l.start_ts commit_ts
      else rollback_lock e key l.start_ts

  unfoldable pub resolve_body : ℕ → ℕ → Bytes → Option Lock → Batch
  resolve_body start_ts commit_ts key none = []
  resolve_body start_ts commit_ts key (some l) =
      if l.start_ts == start_ts then resolve key l commit_ts else []

  -- txnInfos, a map from start timestamps
  abbrev pub txn_info : List (ℕ × ℕ) → ℕ → Option ℕ
  txn_info [] start_ts = none
  txn_info ((ts, commit_ts) ∷ infos) start_ts =
      if start_ts == ts then some commit_ts else txn_info infos start_ts

  unfoldable pub batch_resolve_body : List (ℕ × ℕ) → Bytes → Option Lock → Batch
  batch_resolve_body infos key none = []
  batch_resolve_body infos key (some l) = elim (txn_info infos l.start_ts) [
    | none ↦ []
    | some commit_ts ↦ resolve key l commit_ts
  ]

  abbrev pub write_collected :
      Store e → Option (Result Batch) → Option (Result (Unit {0}) × Store e)
  write_collected s none = none
  write_collected s (some (err er)) = some (err er, s)
  write_collected s (some (ok batch)) = some (write_batch e s batch tt)

  unfoldable pub resolve_lock :
      Store e → Bytes → Bytes → (start_ts commit_ts : ℕ) → Option (Result (Unit {0}) × Store e)
  resolve_lock s start_key end_key start_ts commit_ts =
      write_collected s (for_each_lock s.edb start_key end_key (resolve_body start_ts commit_ts))

  unfoldable pub batch_resolve_lock :
      Store e → Bytes → Bytes → List (ℕ × ℕ) → Option (Result (Unit {0}) × Store e)
  unfolding batch_resolve_body
  batch_resolve_lock s start_key end_key infos =
      write_collected s (for_each_lock s.edb start_key end_key (batch_resolve_body infos))

  -- The version is dropped: its key in the batch.
  abbrev pub drop_version : Bytes → Value → Batch
  drop_version key v = delete (mvcc_encode e key v.commit_ts) ∷ []

  -- GC at one version: the batch, and whether a later version is still to be kept.
  unfoldable pub gc_version : ℕ → Bytes → Bool → Value → Batch × Bool
  gc_version safe_point key keep_next v =
      if ltb safe_point v.commit_ts
      then ([], keep_next)
      else if (v.value_type == type_put) || (v.value_type == type_delete)
      then (
        if not keep_next || (v.value_type == type_delete) then drop_version key v else [],
        false,
      )
      else (drop_version key v, keep_next)

  -- The inner loop of GC, over the versions of `key`: the batch, the next key and the pairs from it.
  unfoldable pub gc_versions : ℕ → Bytes → Bool → Pairs → Result (Batch × Bytes × Pairs)
  gc_versions safe_point key keep_next [] = ok ([], key, [])
  gc_versions safe_point key keep_next ((k, w) ∷ rest) =
      let further = λ (keep : Bool). gc_versions safe_point key keep rest in
      elim (decode_value_pair e key (k, w)) [
        | err er ↦ err er
        | ok none ↦ (do (next_key, ver) ← mvcc_decode e k; ok ([], next_key, (k, w) ∷ rest))
        | ok (some v) ↦ (do
          let (batch, keep) = gc_version safe_point key keep_next v
          (more, next_key, pairs) ← further keep
          ok (batch ++ more, next_key, pairs))
      ]

  abbrev pub blocks_gc : ℕ → Option Lock → Option ℕ
  blocks_gc safe_point none = none
  blocks_gc safe_point (some l) = if leb l.start_ts safe_point then some l.start_ts else none

  unfoldable pub gc_loop : ℕ → ℕ → Bytes → Pairs → Option Error → Batch → Option (Result Batch)
  gc_loop zero safe_point curr_key pairs failure acc = none
  gc_loop (suc fuel) safe_point curr_key [] failure acc = some (ok acc)
  gc_loop (suc fuel) safe_point curr_key (p ∷ rest) failure acc =
      elim (decode_lock e curr_key (p ∷ rest) failure) [
        | err er ↦ some (err er)
        | ok (found, here) ↦ elim (blocks_gc safe_point found) [
          | some start_ts ↦ some (err (lock_under_safe_point curr_key start_ts safe_point))
          | none ↦ elim (gc_versions safe_point curr_key true here) [
            | err er ↦ some (err er)
            | ok (batch, next_key, next) ↦
                gc_loop fuel safe_point next_key next failure (acc ++ batch)
          ]
        ]
      ]

  unfoldable pub gc_from : Store e → ℕ → Result (Iterator × Bytes) → Option (Result Batch)
  gc_from s safe_point (err er) = some (err er)
  gc_from s safe_point (ok (it, curr_key)) =
      gc_loop (suc (suc (length it.rest))) safe_point curr_key it.rest it.failure []

  unfoldable pub gc : Store e → Bytes → Bytes → ℕ → Option (Result (Unit {0}) × Store e)
  unfolding gc_from
  gc s start_key end_key safe_point =
      write_collected s (gc_from s safe_point (new_scan_iterator e s.edb start_key end_key))
