-- ===== src/Mvcc/Rows/Effects.antt =====
-- What a written or deleted record changes in the view: the lock and the versions of each key.
use mileva_db.Prelude.{
  Order-cases, is_lt, is_eq, is_gt, ◌<◌, ◌≡◌, refl, none, some, List, [], ◌∷◌, compare, lt, eq, gt,
  if◌then◌else◌, arith, All,
}
use mileva_db.Bytes.{
  Bytes, bytes_compare-lt_trans, bytes_compare, bytes_equal, eq_of_bytes_compare, eq_of_bytes_equal,
  bytes_compare_refl,
}
use mileva_db.Mvcc.Types.{Lock, Value, lock_ver}
use mileva_db.Mvcc.Env.{Env}
use mileva_db.Mvcc.Rows.{
  Row, Load, lock_load, value_load, load_ver, load_value, row_compare, Ascending, LoadFits, RowsFit,
  lock_here,
}
use mileva_db.Mvcc.Rows.Order.{All-mono, ne_of_gt, bytes_equal-compare}
use mileva_db.Mvcc.Rows.View.{
  find_lock, find_values, find_lock-Unlocked, find_values-Above, Above-after,
}
use mileva_db.Mvcc.Rows.Writing.{
  insert_row, slot_compare, delete_slot, insert_row-lt, insert_row-eq, insert_row-gt,
  delete_slot-lt, delete_slot-eq, delete_slot-gt,
}

abbrev pub lock_row : Bytes → Lock → Row
lock_row key l = record { key = key; load = lock_load l }

abbrev pub value_row : Bytes → Value → Row
value_row key v = record { key = key; load = value_load v }

-- A version put among the versions of its key, the latest first; one at the same timestamp goes.
unfoldable pub insert_version : Value → List Value → List Value
insert_version v [] = v ∷ []
insert_version v (w ∷ ws) = elim (compare w.commit_ts v.commit_ts) [
  | lt ↦ v ∷ w ∷ ws
  | eq ↦ v ∷ ws
  | gt ↦ w ∷ insert_version v ws
]

-- Rows behind the slot of a key's lock.
slot_past :
    (k : Bytes) (s t : Row)
    → (slot_compare k lock_ver s ≡ gt → ⊥)
    → row_compare s t ≡ lt
    → slot_compare k lock_ver t ≡ lt
unfolding slot_compare row_compare
slot_past k s t h q = ground (
  arith,
  bytes_compare-lt_trans k s.key t.key,
  eq_of_bytes_compare k s.key,
  eq_of_bytes_compare s.key t.key,
)

unlocked_past : (k : Bytes) (s : Row) → slot_compare k lock_ver s ≡ lt → lock_here k s ≡ none
unfolding slot_compare
unlocked_past k s h =
    ground (arith, bytes_equal-compare s.key k, eq_of_bytes_equal s.key k, bytes_compare_refl k)

find_lock_past :
    (k : Bytes) (s : Row) (rs : List Row)
    → (slot_compare k lock_ver s ≡ gt → ⊥)
    → All (λ t. row_compare s t ≡ lt) rs
    → find_lock k rs ≡ none
find_lock_past k s rs h later =
    find_lock-Unlocked k rs (All-mono _ _ rs (λ t q. unlocked_past k t (slot_past k s t h q)) later)

value_at_lock_ver :
    (e : Env) (l : Load) → LoadFits e l → load_ver l ≡ lock_ver → load_value l ≡ none
value_at_lock_ver e (lock_load l) fit q = refl
value_at_lock_ver e (value_load v) fit q = absurd (omega arith)

module _ (key k : Bytes) where
  pub find_lock-insert_lock :
      (l : Lock) (rows : List Row)
      → find_lock key (insert_row (lock_row k l) rows)
        ≡ (if bytes_equal k key then some l else find_lock key rows)
  unfolding find_lock insert_row row_compare
  find_lock-insert_lock l [] = ground arith
  find_lock-insert_lock l (s ∷ rs) = elim (Order-cases (row_compare (lock_row k l) s)) [
    | is_lt q ↦ rw (insert_row-lt (lock_row k l) s rs q) (ground arith)
    | is_eq q ↦
        rw (insert_row-eq (lock_row k l) s rs q) (ground (arith, eq_of_bytes_compare k s.key))
    | is_gt q ↦ rw (insert_row-gt (lock_row k l) s rs q) (
        ground (
          arith,
          find_lock-insert_lock l rs,
          eq_of_bytes_equal k key,
          eq_of_bytes_equal s.key key,
          bytes_compare_refl key,
        ))
  ]

  pub find_lock-delete_lock :
      (rows : List Row)
      → Ascending rows
      → find_lock key (delete_slot k lock_ver rows)
        ≡ (if bytes_equal k key then none else find_lock key rows)
  unfolding find_lock delete_slot slot_compare
  find_lock-delete_lock [] asc = ground arith
  find_lock-delete_lock (s ∷ rs) asc = elim (Order-cases (slot_compare k lock_ver s)) [
    | is_lt q ↦ rw (delete_slot-lt k lock_ver s rs q) (
        ground (
          arith,
          find_lock_past k s rs (λ (g : slot_compare k lock_ver s ≡ gt). cc) asc.0,
          unlocked_past k s q,
          eq_of_bytes_equal k key,
        ))
    | is_eq q ↦ rw (delete_slot-eq k lock_ver s rs q) (
        ground (
          arith,
          find_lock_past k s rs (λ (g : slot_compare k lock_ver s ≡ gt). cc) asc.0,
          eq_of_bytes_compare k s.key,
          eq_of_bytes_equal k key,
        ))
    | is_gt q ↦ rw (delete_slot-gt k lock_ver s rs q) (
        ground (
          arith,
          find_lock-delete_lock rs asc.1,
          eq_of_bytes_equal k key,
          eq_of_bytes_equal s.key key,
          bytes_compare_refl key,
        ))
  ]

module _ (e : Env) (key k : Bytes) where
  pub find_lock-insert_value :
      (v : Value) (rows : List Row)
      → v.commit_ts < lock_ver
      → find_lock key (insert_row (value_row k v) rows) ≡ find_lock key rows
  unfolding find_lock insert_row row_compare
  find_lock-insert_value v [] h = ground arith
  find_lock-insert_value v (s ∷ rs) h = elim (Order-cases (row_compare (value_row k v) s)) [
    | is_lt q ↦ rw (insert_row-lt (value_row k v) s rs q) (ground arith)
    | is_eq q ↦ rw (insert_row-eq (value_row k v) s rs q) (ground arith)
    | is_gt q ↦
        rw (insert_row-gt (value_row k v) s rs q) (ground (arith, find_lock-insert_value v rs))
  ]

  pub find_values-insert_lock :
      (l : Lock) (rows : List Row)
      → RowsFit e rows
      → find_values key (insert_row (lock_row k l) rows) ≡ find_values key rows
  unfolding find_values insert_row row_compare
  find_values-insert_lock l [] fit = ground arith
  find_values-insert_lock l (s ∷ rs) fit = elim (Order-cases (row_compare (lock_row k l) s)) [
    | is_lt q ↦ rw (insert_row-lt (lock_row k l) s rs q) (ground arith)
    | is_eq q ↦
        rw (insert_row-eq (lock_row k l) s rs q) (ground (arith, value_at_lock_ver e s.load fit.0))
    | is_gt q ↦
        rw (insert_row-gt (lock_row k l) s rs q)
          (ground (arith, find_values-insert_lock l rs fit.1))
  ]

  pub find_values-delete_lock :
      (rows : List Row)
      → RowsFit e rows
      → find_values key (delete_slot k lock_ver rows) ≡ find_values key rows
  unfolding find_values delete_slot slot_compare
  find_values-delete_lock [] fit = ground arith
  find_values-delete_lock (s ∷ rs) fit = elim (Order-cases (slot_compare k lock_ver s)) [
    | is_lt q ↦ rw (delete_slot-lt k lock_ver s rs q) (ground arith)
    | is_eq q ↦
        rw (delete_slot-eq k lock_ver s rs q) (ground (arith, value_at_lock_ver e s.load fit.0))
    | is_gt q ↦
        rw (delete_slot-gt k lock_ver s rs q) (ground (arith, find_values-delete_lock rs fit.1))
  ]

  pub find_values-insert_value :
      (v : Value) (rows : List Row)
      → v.commit_ts < lock_ver
      → Ascending rows
      → find_values key (insert_row (value_row k v) rows) ≡ (
          if bytes_equal k key
          then insert_version v (find_values key rows)
          else find_values key rows)
  unfolding find_values insert_row row_compare insert_version
  find_values-insert_value v [] h asc = ground arith
  find_values-insert_value v (s ∷ rs) h asc = elim (Order-cases (row_compare (value_row k v) s)) [
    | is_lt q ↦ rw (insert_row-lt (value_row k v) s rs q) (
        ground (
          arith,
          λ (g : bytes_compare k s.key ≡ lt). find_values-Above k rs (Above-after k s rs g asc.0),
          ne_of_gt k s.key,
          eq_of_bytes_compare k s.key,
          eq_of_bytes_equal k key,
        ))
    | is_eq q ↦
        rw (insert_row-eq (value_row k v) s rs q)
          (ground (arith, eq_of_bytes_compare k s.key, eq_of_bytes_equal k key))
    | is_gt q ↦ rw (insert_row-gt (value_row k v) s rs q) (
        ground (
          arith,
          find_values-insert_value v rs h asc.1,
          eq_of_bytes_compare k s.key,
          eq_of_bytes_equal k key,
          eq_of_bytes_equal s.key key,
          bytes_compare_refl key,
        ))
  ]
