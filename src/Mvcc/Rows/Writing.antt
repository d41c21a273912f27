-- ===== src/Mvcc/Rows/Writing.antt =====
-- What a batch does to the rows of a database.
use mileva_db.Prelude.{
  Order-cases, is_lt, is_eq, is_gt, ℕ, ◌<◌, ◌≡◌, refl, ◌∙◌, ap, List, [], ◌∷◌, map, compare, lt, eq,
  gt, Ordering, arith, All,
}
use mileva_db.Bytes.{Bytes, bytes_compare, eq_of_bytes_compare}
use mileva_db.Mvcc.Types.{ok, u64_mod}
use mileva_db.Mvcc.Env.{
  Env, IsLawful, BatchOp, put, delete, put_pair, delete_pair, apply_op, apply_batch,
}
use mileva_db.Mvcc.Lock.{mvcc_encode}
use mileva_db.Mvcc.Rows.{
  Row, load_ver, row_compare, Ascending, marshal_load, encode_row, LoadFits, RowsFit, Holds,
}
use mileva_db.Mvcc.Rows.Codec.{compare-mvcc_encode, load_ver-lt}
use mileva_db.Mvcc.Rows.Order.{All-mono, row_compare-lt_trans, row_compare-gt}

unfoldable pub insert_row : Row → List Row → List Row
insert_row r [] = r ∷ []
insert_row r (s ∷ rs) = elim (row_compare r s) [
  | lt ↦ r ∷ s ∷ rs
  | eq ↦ r ∷ rs
  | gt ↦ s ∷ insert_row r rs
]

-- Where the slot of `key` at `ver` stands against a row.
unfoldable pub slot_compare : Bytes → ℕ → Row → Ordering
slot_compare key ver s = elim (bytes_compare key s.key) [
  | lt ↦ lt
  | gt ↦ gt
  | eq ↦ compare (load_ver s.load) ver
]

unfoldable pub delete_slot : Bytes → ℕ → List Row → List Row
delete_slot key ver [] = []
delete_slot key ver (s ∷ rs) = elim (slot_compare key ver s) [
  | lt ↦ s ∷ rs
  | eq ↦ rs
  | gt ↦ s ∷ delete_slot key ver rs
]

pub data RowOp : Type 0 where
  put_row : Row → RowOp
  delete_at : (key : Bytes) (ver : ℕ) → RowOp

abbrev pub apply_row_op : RowOp → List Row → List Row
apply_row_op (put_row r) rows = insert_row r rows
apply_row_op (delete_at key ver) rows = delete_slot key ver rows

abbrev pub apply_rows : List RowOp → List Row → List Row
apply_rows [] rows = rows
apply_rows (op ∷ ops) rows = apply_rows ops (apply_row_op op rows)

module _ {κ} (P : Row → Type κ) where
  pub All-insert_row : (r : Row) (rows : List Row) → P r → All P rows → All P (insert_row r rows)
  unfolding insert_row
  All-insert_row r [] p h = (p, tt)
  All-insert_row r (s ∷ rs) p h =
      elim (row_compare r s)
        as (λ o. All P (elim o [ lt ↦ r ∷ s ∷ rs | eq ↦ r ∷ rs | gt ↦ s ∷ insert_row r rs ])) [
          | lt ↦ (p, h)
          | eq ↦ (p, h.1)
          | gt ↦ (h.0, All-insert_row r rs p h.1)
        ]

  pub All-delete_slot :
      (key : Bytes) (ver : ℕ) (rows : List Row) → All P rows → All P (delete_slot key ver rows)
  unfolding delete_slot
  All-delete_slot key ver [] h = tt
  All-delete_slot key ver (s ∷ rs) h =
      elim (slot_compare key ver s)
        as (λ o. All P (elim o [ lt ↦ s ∷ rs | eq ↦ rs | gt ↦ s ∷ delete_slot key ver rs ])) [
          | lt ↦ h
          | eq ↦ h.1
          | gt ↦ (h.0, All-delete_slot key ver rs h.1)
        ]

row_compare-eq : (r s t : Row) → row_compare r s ≡ eq → row_compare s t ≡ lt → row_compare r t ≡ lt
unfolding row_compare
row_compare-eq r s t h k = ground (arith, eq_of_bytes_compare r.key s.key)

module _ (r s : Row) (rs : List Row) where
  pub insert_row-lt : row_compare r s ≡ lt → insert_row r (s ∷ rs) ≡ r ∷ s ∷ rs
  unfolding insert_row
  insert_row-lt q = rw (q, insert_row)

  pub insert_row-eq : row_compare r s ≡ eq → insert_row r (s ∷ rs) ≡ r ∷ rs
  unfolding insert_row
  insert_row-eq q = rw (q, insert_row)

  pub insert_row-gt : row_compare r s ≡ gt → insert_row r (s ∷ rs) ≡ s ∷ insert_row r rs
  unfolding insert_row
  insert_row-gt q = rw (q, insert_row)

module _ (key : Bytes) (ver : ℕ) (s : Row) (rs : List Row) where
  pub delete_slot-lt : slot_compare key ver s ≡ lt → delete_slot key ver (s ∷ rs) ≡ s ∷ rs
  unfolding delete_slot
  delete_slot-lt q = rw (q, delete_slot)

  pub delete_slot-eq : slot_compare key ver s ≡ eq → delete_slot key ver (s ∷ rs) ≡ rs
  unfolding delete_slot
  delete_slot-eq q = rw (q, delete_slot)

  pub delete_slot-gt :
      slot_compare key ver s ≡ gt → delete_slot key ver (s ∷ rs) ≡ s ∷ delete_slot key ver rs
  unfolding delete_slot
  delete_slot-gt q = rw (q, delete_slot)

pub Ascending-insert_row :
    (r : Row) (rows : List Row) → Ascending rows → Ascending (insert_row r rows)
Ascending-insert_row r [] h = unfold insert_row in (tt, tt)
Ascending-insert_row r (s ∷ rs) h = elim (Order-cases (row_compare r s)) [
  | is_lt q ↦
      rw (insert_row-lt r s rs q) ((q, All-mono _ _ rs (λ t. row_compare-lt_trans r s t q) h.0), h)
  | is_eq q ↦ rw (insert_row-eq r s rs q) (All-mono _ _ rs (λ t. row_compare-eq r s t q) h.0, h.1)
  | is_gt q ↦ rw (insert_row-gt r s rs q) (
    All-insert_row (λ t. row_compare s t ≡ lt) r rs (row_compare-gt r s q) h.0,
    Ascending-insert_row r rs h.1,
  )
]

pub Ascending-delete_slot :
    (key : Bytes) (ver : ℕ) (rows : List Row)
    → Ascending rows
    → Ascending (delete_slot key ver rows)
Ascending-delete_slot key ver [] h = unfold delete_slot in tt
Ascending-delete_slot key ver (s ∷ rs) h = elim (Order-cases (slot_compare key ver s)) [
  | is_lt q ↦ rw (delete_slot-lt key ver s rs q) h
  | is_eq q ↦ rw (delete_slot-eq key ver s rs q) h.1
  | is_gt q ↦ rw (delete_slot-gt key ver s rs q) (
    All-delete_slot (λ t. row_compare s t ≡ lt) key ver rs h.0,
    Ascending-delete_slot key ver rs h.1,
  )
]

module _ (e : Env) where
  abbrev pub encode_op : RowOp → BatchOp
  encode_op (put_row r) = put (mvcc_encode e r.key (load_ver r.load)) (marshal_load e r.load)
  encode_op (delete_at key ver) = delete (mvcc_encode e key ver)

  abbrev pub OpFits : RowOp → Type 0
  OpFits (put_row r) = LoadFits e r.load
  OpFits (delete_at key ver) = ver < u64_mod

module _ (e : Env) (law : IsLawful e) where
  put_pair-map :
      (r : Row) (rows : List Row)
      → LoadFits e r.load
      → RowsFit e rows
      → put_pair
          (mvcc_encode e r.key (load_ver r.load))
          (marshal_load e r.load)
          (map (encode_row e) rows)
        ≡ map (encode_row e) (insert_row r rows)
  unfolding put_pair insert_row row_compare encode_row
  put_pair-map r [] fit fits = refl
  put_pair-map r (s ∷ rs) fit fits = ground (
    arith,
    compare-mvcc_encode e law r.key s.key (load_ver r.load) (load_ver s.load)
        (load_ver-lt e law r.load fit) (load_ver-lt e law s.load fits.0),
    put_pair-map r rs fit fits.1,
  )

  delete_pair-map :
      (key : Bytes) (ver : ℕ) (rows : List Row)
      → ver < u64_mod
      → RowsFit e rows
      → delete_pair (mvcc_encode e key ver) (map (encode_row e) rows)
        ≡ map (encode_row e) (delete_slot key ver rows)
  unfolding delete_pair delete_slot slot_compare encode_row
  delete_pair-map key ver [] fit fits = refl
  delete_pair-map key ver (s ∷ rs) fit fits = ground (
    arith,
    compare-mvcc_encode e law key s.key ver (load_ver s.load) fit (load_ver-lt e law s.load fits.0),
    delete_pair-map key ver rs fit fits.1,
  )

  RowsFit-apply :
      (op : RowOp) (rows : List Row)
      → OpFits e op
      → RowsFit e rows
      → RowsFit e (apply_row_op op rows)
  RowsFit-apply (put_row r) rows fit fits = All-insert_row (λ s. LoadFits e s.load) r rows fit fits
  RowsFit-apply (delete_at key ver) rows fit fits =
      All-delete_slot (λ s. LoadFits e s.load) key ver rows fits

  Ascending-apply :
      (op : RowOp) (rows : List Row) → Ascending rows → Ascending (apply_row_op op rows)
  Ascending-apply (put_row r) rows asc = Ascending-insert_row r rows asc
  Ascending-apply (delete_at key ver) rows asc = Ascending-delete_slot key ver rows asc

  apply_op-map :
      (op : RowOp) (rows : List Row)
      → OpFits e op
      → RowsFit e rows
      → apply_op (encode_op e op) (map (encode_row e) rows)
        ≡ map (encode_row e) (apply_row_op op rows)
  apply_op-map (put_row r) rows fit fits = put_pair-map r rows fit fits
  apply_op-map (delete_at key ver) rows fit fits = delete_pair-map key ver rows fit fits

  apply_batch-map :
      (ops : List RowOp) (rows : List Row)
      → All (OpFits e) ops
      → RowsFit e rows
      → (apply_batch (map (encode_op e) ops) (map (encode_row e) rows)
          ≡ map (encode_row e) (apply_rows ops rows))
        × RowsFit e (apply_rows ops rows)
  unfolding apply_batch
  apply_batch-map [] rows fit fits = (refl, fits)
  apply_batch-map (op ∷ ops) rows fit fits =
      let (q, fits') =
        apply_batch-map ops (apply_row_op op rows) fit.1 (RowsFit-apply op rows fit.0 fits) in
      (ap (apply_batch (map (encode_op e) ops)) (apply_op-map op rows fit.0 fits) ∙ q, fits')

  Ascending-apply_rows :
      (ops : List RowOp) (rows : List Row) → Ascending rows → Ascending (apply_rows ops rows)
  Ascending-apply_rows [] rows asc = asc
  Ascending-apply_rows (op ∷ ops) rows asc =
      Ascending-apply_rows ops (apply_row_op op rows) (Ascending-apply op rows asc)

  -- A batch of encoded operations is written, and then the database holds the changed rows.
  pub write-Holds :
      (db : e.Db) (rows : List Row) (ops : List RowOp)
      → Holds e db rows
      → All (OpFits e) ops
      → (db' : e.Db) × (e.write db (map (encode_op e) ops) ≡ ok db')
        × Holds e db' (apply_rows ops rows)
  write-Holds db rows ops h fit =
      let (db', written, content) = law.writes db (map (encode_op e) ops) in
      let (q, fits) = apply_batch-map ops rows fit h.fit in
      (
        db',
        written,
        record {
          stored = content ∙ ap (apply_batch (map (encode_op e) ops)) h.stored ∙ q;
          fit = fits;
          ascending = Ascending-apply_rows ops rows h.ascending;
        },
      )
