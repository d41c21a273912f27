-- ===== src/Mvcc/Raw/Laws.antt =====
-- What the RawKV operations promise a client: a map from keys to values.
use mileva_db.Prelude.{◌≡◌, refl, Option, some, List, [], ◌∷◌, map, if◌then◌else◌, arith}
use mileva_db.Bytes.{Bytes, bytes_equal, eq_of_bytes_compare, eq_of_bytes_equal, bytes_compare_refl}
use mileva_db.Mvcc.Env.{Env, IsLawful, Batch, put, put_pair, find_pair, apply_batch, entries}
use mileva_db.Mvcc.Commit.{Store}
use mileva_db.Mvcc.Raw.{log_write, raw_get, raw_batch_put}

find_pair-put_pair :
    (j k v : Bytes) (l : List (Bytes × Bytes))
    → find_pair j (put_pair k v l) ≡ (if bytes_equal k j then some v else find_pair j l)
unfolding find_pair put_pair
find_pair-put_pair j k v [] = refl
find_pair-put_pair j k v ((i, w) ∷ l) = ground (
  arith,
  eq_of_bytes_compare k i,
  find_pair-put_pair j k v l,
  eq_of_bytes_equal k j,
  eq_of_bytes_equal i j,
  bytes_compare_refl k,
)

-- The value that the last pair of a batch gives to a key.
unfoldable pub last_put : Bytes → List (Bytes × Bytes) → Option Bytes → Option Bytes
last_put j [] before = before
last_put j ((k, v) ∷ pairs) before = last_put j pairs (if bytes_equal k j then some v else before)

find_pair-batch_put :
    (j : Bytes) (pairs l : List (Bytes × Bytes))
    → find_pair j (apply_batch (map (λ (kv : Bytes × Bytes). put kv.0 kv.1) pairs) l)
      ≡ last_put j pairs (find_pair j l)
unfolding apply_batch last_put
find_pair-batch_put j [] l = refl
find_pair-batch_put j ((k, v) ∷ pairs) l =
    rw (← find_pair-put_pair j k v l) (find_pair-batch_put j pairs (put_pair k v l))

module _ (e : Env) (law : IsLawful e) where
  raw_get-log_write :
      (s : Store e) (batch : Batch) (j : Bytes)
      → raw_get e (log_write e s batch) j ≡ find_pair j (apply_batch batch (entries e s.edb))
  unfolding raw_get log_write
  raw_get-log_write s batch j =
      let (db, written, stored) = law.writes s.edb batch in
      rw (log_write, written, law.looks_up db j, stored) refl

  -- After RawBatchPut of any pairs, RawGet of a key answers the value that the last pair with that
  -- key gives it, and without such a pair what it answered before.
  pub raw_get-raw_batch_put :
      (s : Store e) (pairs : List (Bytes × Bytes)) (j : Bytes)
      → raw_get e (raw_batch_put e s pairs) j ≡ last_put j pairs (raw_get e s j)
  unfolding raw_batch_put
  raw_get-raw_batch_put s pairs j =
      rw
        (
          raw_get-log_write s (map (λ (kv : Bytes × Bytes). put kv.0 kv.1) pairs) j,
          find_pair-batch_put j pairs (entries e s.edb),
          before,
        )
        refl
    where
      before : raw_get e s j ≡ find_pair j (entries e s.edb)
      before = unfold raw_get in law.looks_up s.edb j
