-- ===== src/Mvcc/Raw.antt =====
-- The RawKV operations and DeleteRange of causetstore/mockstore/mockeinsteindb/mvcc_leveldb.go.
-- An error of the database is logged and dropped. A nil bound is `none`.
pub mod Laws
use mileva_db.Prelude.{
  ℕ, Bool, false, zero, suc, not, Option, none, some, List, [], ◌∷◌, ◌++◌, map, if◌then◌else◌,
}
use mileva_db.Bytes.{Bytes}
use mileva_db.Mvcc.Types.{Result, ok, err}
use mileva_db.Mvcc.Env.{Env, Batch, put, delete, is_below}
use mileva_db.Mvcc.Iter.{Pairs}
use mileva_db.Mvcc.Reads.{Pair}
use mileva_db.Mvcc.Commit.{Store}

-- An empty end is no bound.
abbrev pub past_end : Bytes → Bytes → Bool
past_end [] k = false
past_end (b ∷ bs) k = not (is_below k (b ∷ bs))

module _ (e : Env) where
  -- terror.Log(mvsr-ooc.EDB.Write(batch, nil))
  unfoldable pub log_write : Store e → Batch → Store e
  log_write s batch = elim (e.write s.edb batch) [ err _ ↦ s | ok db ↦ record s { edb = db } ]

  unfoldable pub raw_put : Store e → Bytes → Bytes → Store e
  raw_put s key value = log_write s (put key value ∷ [])

  -- A value stands beside its key: the source indexes the values by the key's position.
  unfoldable pub raw_batch_put : Store e → List (Bytes × Bytes) → Store e
  raw_batch_put s pairs = log_write s (map (λ (kv : Bytes × Bytes). put kv.0 kv.1) pairs)

  unfoldable pub raw_get : Store e → Bytes → Option Bytes
  raw_get s key = e.lookup s.edb key

  unfoldable pub raw_batch_get : Store e → List Bytes → List (Option Bytes)
  raw_batch_get s keys = map (λ (key : Bytes). e.lookup s.edb key) keys

  unfoldable pub raw_delete : Store e → Bytes → Store e
  raw_delete s key = log_write s (delete key ∷ [])

  unfoldable pub raw_batch_delete : Store e → List Bytes → Store e
  raw_batch_delete s keys = log_write s (map (λ (key : Bytes). delete key) keys)

  -- The loop of RawScan; while a pair is left, `iter.Error()` is nil.
  unfoldable pub raw_scan_loop : ℕ → Bytes → Pairs → List Pair
  raw_scan_loop zero end_key pairs = []
  raw_scan_loop (suc limit) end_key [] = []
  raw_scan_loop (suc limit) end_key ((k, v) ∷ rest) =
      let further =
        record { key = k; value = some v; error = none } ∷ raw_scan_loop limit end_key rest in
      if past_end end_key k then [] else further

  unfoldable pub raw_scan : Store e → Bytes → Bytes → ℕ → List Pair
  raw_scan s start_key end_key limit =
      raw_scan_loop limit end_key (e.new_iterator s.edb start_key none).rest

  -- The pairs from the last one back.
  abbrev pub backwards : Pairs → Pairs → Pairs
  backwards [] seen = seen
  backwards (p ∷ rest) seen = backwards rest (p ∷ seen)

  unfoldable pub raw_reverse_scan_loop : ℕ → Bytes → Pairs → List Pair
  raw_reverse_scan_loop zero end_key pairs = []
  raw_reverse_scan_loop (suc limit) end_key [] = []
  raw_reverse_scan_loop (suc limit) end_key ((k, v) ∷ rest) =
      let further =
        record { key = k; value = some v; error = none }
        ∷ raw_reverse_scan_loop limit end_key rest in
      if is_below k end_key then [] else further

  unfoldable pub raw_reverse_scan : Store e → Option Bytes → Bytes → ℕ → List Pair
  raw_reverse_scan s start_key end_key limit =
      raw_reverse_scan_loop limit end_key (backwards (e.new_iterator s.edb [] start_key).rest [])

  unfoldable pub do_raw_delete_range : Store e → Bytes → Option Bytes → Result (Unit {0}) × Store e
  do_raw_delete_range s start_key end_key =
      elim (e.write s.edb
        (map (λ (kv : Bytes × Bytes). delete kv.0) (e.new_iterator s.edb start_key end_key).rest)) [
          | err er ↦ (err er, s)
          | ok db ↦ (ok tt, record s { edb = db })
        ]

  unfoldable pub raw_delete_range : Store e → Bytes → Option Bytes → Store e
  raw_delete_range s start_key end_key = (do_raw_delete_range s start_key end_key).1

  unfoldable pub delete_range : Store e → Bytes → Bytes → Result (Unit {0}) × Store e
  delete_range s start_key end_key =
      do_raw_delete_range s (e.encode_bytes [] start_key) (some (e.encode_bytes [] end_key))
