-- ===== src/Mvcc/Rows/View.antt =====
-- The lock and the versions of a key, found anywhere among the rows: the abstract view of the
-- database. For ascending rows it is what the iterator from the key's lock meets.
use mileva_db.Prelude.{
  ◌≤◌, ◌≡◌, refl, sym, ◌∙◌, false, Option, none, some, List, [], ◌∷◌, lt, arith, Bool-cases,
  Option-cases, inl, inr, All,
}
use mileva_db.Bytes.{Bytes, bytes_compare, bytes_equal, eq_of_bytes_equal}
use mileva_db.Mvcc.Types.{Lock, Value, lock_ver}
use mileva_db.Mvcc.Env.{Env, is_below}
use mileva_db.Mvcc.Rows.{
  Row, Load, lock_load, value_load, load_ver, row_compare, Ascending, lock_here, value_here,
  LoadFits, RowsFit,
}
use mileva_db.Mvcc.Rows.Reading.{rows_from, take_lock, take_values, front_lock, front_values}
use mileva_db.Mvcc.Rows.Order.{All-mono, above_after, ne_of_lt, ne_of_gt, above_of}

unfoldable pub find_lock : Bytes → List Row → Option Lock
find_lock key [] = none
find_lock key (r ∷ rs) =
    let further = find_lock key rs in elim (lock_here key r) [ none ↦ further | some l ↦ some l ]

unfoldable pub find_values : Bytes → List Row → List Value
find_values key [] = []
find_values key (r ∷ rs) =
    let further = find_values key rs in
    elim (value_here key r) [ none ↦ further | some v ↦ v ∷ further ]

module _ (key : Bytes) where
  find_lock-rows_from : (rows : List Row) → find_lock key (rows_from key rows) ≡ find_lock key rows
  unfolding rows_from find_lock
  find_lock-rows_from [] = refl
  find_lock-rows_from (r ∷ rs) = ground (arith, find_lock-rows_from rs, ne_of_lt r.key key)

  find_values-rows_from :
      (rows : List Row) → find_values key (rows_from key rows) ≡ find_values key rows
  unfolding rows_from find_values
  find_values-rows_from [] = refl
  find_values-rows_from (r ∷ rs) = ground (arith, find_values-rows_from rs, ne_of_lt r.key key)

  All-rows_from {κ} : (P : Row → Type κ) (rows : List Row) → All P rows → All P (rows_from key rows)
  unfolding rows_from
  All-rows_from P [] h = tt
  All-rows_from P (r ∷ rs) h = elim (Bool-cases (is_below r.key key)) [
    | inl below ↦ rw below (All-rows_from P rs h.1)
    | inr from ↦ rw from (h.0, All-rows_from P rs h.1)
  ]

  Ascending-rows_from : (rows : List Row) → Ascending rows → Ascending (rows_from key rows)
  unfolding rows_from
  Ascending-rows_from [] h = tt
  Ascending-rows_from (r ∷ rs) h = elim (Bool-cases (is_below r.key key)) [
    | inl below ↦ rw below (Ascending-rows_from rs h.1)
    | inr from ↦
        rw from (All-rows_from (λ s. row_compare r s ≡ lt) rs h.0, Ascending-rows_from rs h.1)
  ]

  abbrev NotBelow : List Row → Type 0
  NotBelow = All (λ r. is_below r.key key ≡ false)

  NotBelow-rows_from : (rows : List Row) → NotBelow (rows_from key rows)
  unfolding rows_from
  NotBelow-rows_from [] = tt
  NotBelow-rows_from (r ∷ rs) = elim (Bool-cases (is_below r.key key)) [
    | inl below ↦ rw below (NotBelow-rows_from rs)
    | inr from ↦ rw from (from, NotBelow-rows_from rs)
  ]

  abbrev pub Unlocked : List Row → Type 0
  Unlocked = All (λ r. lock_here key r ≡ none)

  pub find_lock-Unlocked : (rows : List Row) → Unlocked rows → find_lock key rows ≡ none
  unfolding find_lock
  find_lock-Unlocked [] h = refl
  find_lock-Unlocked (r ∷ rs) h = rw (h.0, find_lock) (find_lock-Unlocked rs h.1)

  abbrev pub Above : List Row → Type 0
  Above = All (λ r. bytes_compare key r.key ≡ lt)

  pub find_values-Above : (rows : List Row) → Above rows → find_values key rows ≡ []
  unfolding find_values
  find_values-Above [] h = refl
  find_values-Above (r ∷ rs) h = ground (arith, find_values-Above rs, ne_of_gt key r.key)

  pub Above-after :
      (r : Row) (rs : List Row)
      → bytes_compare key r.key ≡ lt
      → All (λ s. row_compare r s ≡ lt) rs
      → Above rs
  Above-after r rs h = All-mono _ _ rs (λ s. above_after key r s h)

  take_values-eq :
      (rows : List Row)
      → NotBelow rows
      → Unlocked rows
      → Ascending rows
      → take_values key rows ≡ find_values key rows
  unfolding take_values find_values
  take_values-eq [] nb free asc = refl
  take_values-eq (r ∷ rs) nb free asc = elim (Bool-cases (bytes_equal r.key key)) [
    | inl same ↦ ground (arith, take_values-eq rs nb.1 free.1 asc.1)
    | inr other ↦
        ground
          (arith, find_values-Above rs (Above-after r rs (above_of key r.key nb.0 other) asc.0))
  ]

  unlocked_after :
      (r s : Row)
      → load_ver r.load ≤ lock_ver
      → is_below r.key key ≡ false
      → row_compare r s ≡ lt
      → lock_here key s ≡ none
  unfolding row_compare
  unlocked_after r s fit nb before = ground (arith, eq_of_bytes_equal s.key key)

  take_lock-none :
      (r : Row) (rs : List Row) → lock_here key r ≡ none → take_lock key (r ∷ rs) ≡ (none, r ∷ rs)
  unfolding take_lock
  take_lock-none r rs q = rw (q, take_lock)

  take_lock-some :
      (r : Row) (rs : List Row) (l : Lock)
      → lock_here key r ≡ some l
      → take_lock key (r ∷ rs) ≡ (some l, rs)
  unfolding take_lock
  take_lock-some r rs l q = rw (q, take_lock)

  find_lock-some :
      (r : Row) (rs : List Row) (l : Lock)
      → lock_here key r ≡ some l
      → find_lock key (r ∷ rs) ≡ some l
  unfolding find_lock
  find_lock-some r rs l q = rw (q, find_lock)

  find_values_lock :
      (r : Row) (rs : List Row) (l : Lock)
      → lock_here key r ≡ some l
      → find_values key (r ∷ rs) ≡ find_values key rs
  unfolding find_values
  find_values_lock r rs l q = ground arith

  take_lock_lem :
      (rows : List Row)
      → All (λ r. load_ver r.load ≤ lock_ver) rows
      → NotBelow rows
      → Ascending rows
      → ((take_lock key rows).0 ≡ find_lock key rows)
        × Unlocked (take_lock key rows).1
        × (find_values key (take_lock key rows).1 ≡ find_values key rows)
        × NotBelow (take_lock key rows).1
        × Ascending (take_lock key rows).1
  unfolding take_lock
  take_lock_lem [] fit nb asc = (unfold find_lock in refl, tt, refl, tt, tt)
  take_lock_lem (r ∷ rs) fit nb asc =
      let later : Unlocked rs = All-mono _ _ rs (λ s. unlocked_after r s fit.0 nb.0) asc.0 in
      elim (Option-cases (lock_here key r)) [
        | inl q ↦
            rw (take_lock-none r rs q)
              (sym (find_lock-Unlocked (r ∷ rs) (q, later)), (q, later), refl, nb, asc)
        | inr (l, q) ↦
            rw (take_lock-some r rs l q)
              (sym (find_lock-some r rs l q), later, sym (find_values_lock r rs l q), nb.1, asc.1)
      ]

  abbrev pub VersionsBounded : List Row → Type 0
  VersionsBounded = All (λ r. load_ver r.load ≤ lock_ver)

  front_lem :
      (rows : List Row)
      → VersionsBounded rows
      → Ascending rows
      → (front_lock key rows ≡ find_lock key rows) × (front_values key rows ≡ find_values key rows)
  front_lem rows fit asc =
      let from = rows_from key rows in
      let (lock_eq, free, values_eq, nb, asc') =
        take_lock_lem from (All-rows_from (λ r. load_ver r.load ≤ lock_ver) rows fit)
          (NotBelow-rows_from rows) (Ascending-rows_from rows asc) in
      (
        lock_eq ∙ find_lock-rows_from rows,
        take_values-eq (take_lock key from).1 nb free asc' ∙ values_eq ∙ find_values-rows_from rows,
      )

pub VersionsBounded-RowsFit :
    (e : Env) (rows : List Row) → RowsFit e rows → All (λ r. load_ver r.load ≤ lock_ver) rows
VersionsBounded-RowsFit e rows = All-mono (λ r. LoadFits e r.load) _ rows (λ r. bound r.load)
  where
    bound : (l : Load) → LoadFits e l → load_ver l ≤ lock_ver
    bound (lock_load l) h = omega arith
    bound (value_load v) h = omega arith

-- The iterator from the lock of a key meets that lock, if there is one, and the versions of the key.
pub front_lock-eq-find_lock :
    (e : Env) (key : Bytes) (rows : List Row)
    → RowsFit e rows
    → Ascending rows
    → front_lock key rows ≡ find_lock key rows
front_lock-eq-find_lock e key rows fit asc =
    (front_lem key rows (VersionsBounded-RowsFit e rows fit) asc).0

pub front_values-eq-find_values :
    (e : Env) (key : Bytes) (rows : List Row)
    → RowsFit e rows
    → Ascending rows
    → front_values key rows ≡ find_values key rows
front_values-eq-find_values e key rows fit asc =
    (front_lem key rows (VersionsBounded-RowsFit e rows fit) asc).1
