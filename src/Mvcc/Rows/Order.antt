-- ===== src/Mvcc/Rows/Order.antt =====
-- The order of rows, and what an ascending list of rows says of one key.
use mileva_db.Prelude.{◌≡◌, true, false, List, [], ◌∷◌, lt, eq, gt, arith, All}
use mileva_db.Bytes.{
  Bytes, bytes_compare, bytes_equal, bytes_compare-lt_trans, eq_of_bytes_compare,
  bytes_compare_refl, lt_of_gt, gt_of_lt, eq_of_bytes_equal, bytes_equal_refl,
}
use mileva_db.Mvcc.Env.{is_below}
use mileva_db.Mvcc.Rows.{Row, row_compare}

pub All-mono {ℓ κ} :
    {A : Type ℓ} (P Q : A → Type κ) (xs : List A) → ((x : A) → P x → Q x) → All P xs → All Q xs
All-mono P Q [] f h = tt
All-mono P Q (x ∷ xs) f h = (f x h.0, All-mono P Q xs f h.1)

pub row_compare-lt_trans :
    (r s t : Row) → row_compare r s ≡ lt → row_compare s t ≡ lt → row_compare r t ≡ lt
unfolding row_compare
row_compare-lt_trans r s t h k = ground (
  arith,
  bytes_compare-lt_trans r.key s.key t.key,
  eq_of_bytes_compare r.key s.key,
  eq_of_bytes_compare s.key t.key,
  bytes_compare_refl r.key,
)

pub row_compare-gt : (r s : Row) → row_compare r s ≡ gt → row_compare s r ≡ lt
unfolding row_compare
row_compare-gt r s h =
    ground (arith, lt_of_gt r.key s.key, eq_of_bytes_compare r.key s.key, bytes_compare_refl s.key)

-- A key that is not below `key` stays so further on.
pub not_below_after :
    (key : Bytes) (r s : Row)
    → is_below r.key key ≡ false
    → row_compare r s ≡ lt
    → is_below s.key key ≡ false
unfolding row_compare
not_below_after key r s h k =
    ground (arith, bytes_compare-lt_trans r.key s.key key, eq_of_bytes_compare r.key s.key)

pub above_after :
    (key : Bytes) (r s : Row)
    → bytes_compare key r.key ≡ lt
    → row_compare r s ≡ lt
    → bytes_compare key s.key ≡ lt
unfolding row_compare
above_after key r s h k =
    ground (arith, bytes_compare-lt_trans key r.key s.key, eq_of_bytes_compare r.key s.key)

pub bytes_equal-compare : (j k : Bytes) → bytes_equal j k ≡ true → bytes_compare j k ≡ eq
bytes_equal-compare j k h = ground (arith, eq_of_bytes_equal j k, bytes_compare_refl j)

pub ne_of_lt : (j k : Bytes) → bytes_compare j k ≡ lt → bytes_equal j k ≡ false
ne_of_lt j k h = ground (arith, bytes_equal-compare j k)

pub ne_of_gt : (j k : Bytes) → bytes_compare j k ≡ lt → bytes_equal k j ≡ false
ne_of_gt j k h = ground (arith, bytes_equal-compare k j, gt_of_lt j k)

-- A key that is neither below `key` nor equal to it is above it.
pub above_of :
    (key k : Bytes) → is_below k key ≡ false → bytes_equal k key ≡ false → bytes_compare key k ≡ lt
above_of key k h ne = ground (arith, eq_of_bytes_compare k key, bytes_equal_refl k, lt_of_gt k key)
