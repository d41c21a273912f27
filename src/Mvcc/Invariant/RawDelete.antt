-- ===== src/Mvcc/Invariant/RawDelete.antt =====
-- RawDelete and RawBatchDelete against the invariant of Mvcc/Invariant: what goes under a key that is
-- no encoding was not there.
use mileva_db.Prelude.{◌≡◌, ◌∙◌, refl, ap, lt, eq, gt, Ordering, List, [], ◌∷◌, map, All}
use mileva_db.Bytes.{Bytes, bytes_compare}
use mileva_db.Mvcc.Env.{Env, IsLawful, delete, delete_pair, apply_batch, entries}
use mileva_db.Mvcc.Commit.{Store}
use mileva_db.Mvcc.Raw.{log_write, raw_delete, raw_batch_delete}
use mileva_db.Mvcc.Rows.{Row, Ascending, encode_row, RowsFit, Holds, row_compare, LoadFits}
use mileva_db.Mvcc.Invariant.{IsWellFormed}

module _ (e : Env) where
  -- delete_pair on the encodings of rows.
  delete_rows : Bytes → List Row → List Row
  delete_rows k [] = []
  delete_rows k (r ∷ rs) = elim (bytes_compare k (encode_row e r).0) [
    | lt ↦ r ∷ rs
    | eq ↦ rs
    | gt ↦ r ∷ delete_rows k rs
  ]

  delete_one-map :
      (o : Ordering) (r : Row) (rs later : List Row) (pairs : List (Bytes × Bytes))
      → pairs ≡ map (encode_row e) later
      → (let deleted : List (Bytes × Bytes) = elim o [
        | lt ↦ encode_row e r ∷ map (encode_row e) rs
        | eq ↦ map (encode_row e) rs
        | gt ↦ encode_row e r ∷ pairs
      ] in
          let left : List Row = elim o [ lt ↦ r ∷ rs | eq ↦ rs | gt ↦ r ∷ later ] in
          deleted ≡ map (encode_row e) left)
  delete_one-map lt r rs later pairs h = refl
  delete_one-map eq r rs later pairs h = refl
  delete_one-map gt r rs later pairs h = ap (λ (l : List (Bytes × Bytes)). encode_row e r ∷ l) h

  delete_pair-map :
      (k : Bytes) (rows : List Row)
      → delete_pair k (map (encode_row e) rows) ≡ map (encode_row e) (delete_rows k rows)
  unfolding delete_pair delete_rows
  delete_pair-map k [] = refl
  delete_pair-map k (r ∷ rs) =
      delete_one-map (bytes_compare k (encode_row e r).0) r rs (delete_rows k rs)
        (delete_pair k (map (encode_row e) rs)) (delete_pair-map k rs)

  All-delete_one :
      (P : Row → Type 0) (o : Ordering) (r : Row) (rs later : List Row)
      → P r
      → All P rs
      → All P later
      → (let left : List Row = elim o [ lt ↦ r ∷ rs | eq ↦ rs | gt ↦ r ∷ later ] in All P left)
  All-delete_one P lt r rs later p h k = (p, h)
  All-delete_one P eq r rs later p h k = h
  All-delete_one P gt r rs later p h k = (p, k)

  All-delete_rows :
      (P : Row → Type 0) (k : Bytes) (rows : List Row) → All P rows → All P (delete_rows k rows)
  unfolding delete_rows
  All-delete_rows P k [] h = tt
  All-delete_rows P k (r ∷ rs) h =
      All-delete_one P (bytes_compare k (encode_row e r).0) r rs (delete_rows k rs) h.0 h.1
        (All-delete_rows P k rs h.1)

  Ascending-delete_one :
      (o : Ordering) (r : Row) (rs later : List Row)
      → Ascending (r ∷ rs)
      → All (λ s. row_compare r s ≡ lt) later
      → Ascending later
      → (let left : List Row = elim o [ lt ↦ r ∷ rs | eq ↦ rs | gt ↦ r ∷ later ] in Ascending left)
  Ascending-delete_one lt r rs later asc h k = asc
  Ascending-delete_one eq r rs later asc h k = asc.1
  Ascending-delete_one gt r rs later asc h k = (h, k)

  Ascending-delete_rows :
      (k : Bytes) (rows : List Row) → Ascending rows → Ascending (delete_rows k rows)
  unfolding delete_rows
  Ascending-delete_rows k [] asc = tt
  Ascending-delete_rows k (r ∷ rs) asc =
      Ascending-delete_one (bytes_compare k (encode_row e r).0) r rs (delete_rows k rs) asc
        (All-delete_rows (λ s. row_compare r s ≡ lt) k rs asc.0) (Ascending-delete_rows k rs asc.1)

  -- The deletions of a list of keys, one after the other.
  delete_keys : List Bytes → List Row → List Row
  delete_keys [] rows = rows
  delete_keys (k ∷ ks) rows = delete_keys ks (delete_rows k rows)

  apply_batch-deletes :
      (ks : List Bytes) (rows : List Row)
      → apply_batch (map (λ (key : Bytes). delete key) ks) (map (encode_row e) rows)
        ≡ map (encode_row e) (delete_keys ks rows)
  unfolding apply_batch delete_keys
  apply_batch-deletes [] rows = refl
  apply_batch-deletes (k ∷ ks) rows =
      ap (λ (l : List (Bytes × Bytes)). apply_batch (map (λ (key : Bytes). delete key) ks) l)
        (delete_pair-map k rows)
      ∙ apply_batch-deletes ks (delete_rows k rows)

  RowsFit-delete_keys :
      (ks : List Bytes) (rows : List Row) → RowsFit e rows → RowsFit e (delete_keys ks rows)
  unfolding delete_keys
  RowsFit-delete_keys [] rows h = h
  RowsFit-delete_keys (k ∷ ks) rows h =
      RowsFit-delete_keys ks (delete_rows k rows)
        (All-delete_rows (λ r. LoadFits e r.load) k rows h)

  Ascending-delete_keys :
      (ks : List Bytes) (rows : List Row) → Ascending rows → Ascending (delete_keys ks rows)
  unfolding delete_keys
  Ascending-delete_keys [] rows h = h
  Ascending-delete_keys (k ∷ ks) rows h =
      Ascending-delete_keys ks (delete_rows k rows) (Ascending-delete_rows k rows h)

module _ (e : Env) (law : IsLawful e) where
  pub raw_batch_delete-IsWellFormed :
      (s : Store e) (keys : List Bytes)
      → IsWellFormed e s.edb
      → IsWellFormed e (raw_batch_delete e s keys).edb
  unfolding raw_batch_delete log_write
  raw_batch_delete-IsWellFormed s keys w =
      let (db, written, content) = law.writes s.edb (map (λ (key : Bytes). delete key) keys) in
      let left = delete_keys e keys w.rows in
      let stored : entries e db ≡ map (encode_row e) left =
        rw (content, w.holds.stored) (apply_batch-deletes e keys w.rows) in
      let holds : Holds e db left = record {
        stored = stored;
        fit = RowsFit-delete_keys e keys w.rows w.holds.fit;
        ascending = Ascending-delete_keys e keys w.rows w.holds.ascending;
      } in
      let kept : IsWellFormed e db = record { rows = left; holds = holds } in
      rw (written, log_write) kept

  pub raw_delete-IsWellFormed :
      (s : Store e) (key : Bytes) → IsWellFormed e s.edb → IsWellFormed e (raw_delete e s key).edb
  raw_delete-IsWellFormed s key w =
      unfold raw_delete raw_batch_delete in raw_batch_delete-IsWellFormed s (key ∷ []) w
