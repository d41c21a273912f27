-- ===== src/Solomonkey/UnionIter/Order.antt =====
-- The order in which a union iterator goes, forwards or in reverse.
use mileva_db.Prelude.{
  ◌≡◌, refl, Bool, false, List, [], ◌∷◌, lt, eq, gt, arith, All, none, some, Option, if◌then◌else◌,
}
use mileva_db.Bytes.{
  Bytes, bytes_equal, bytes_compare-lt_trans, eq_of_bytes_compare, lt_of_gt, gt_of_lt,
  bytes_compare_refl, eq_of_bytes_equal,
}
use mileva_db.Mvcc.Env.{find_pair}
use mileva_db.Solomonkey.Key.{cmp_key}
use mileva_db.Solomonkey.UnionIter.{iter_cmp, negate, is_empty}

module _ (r : Bool) where
  pub iter_cmp-lt_trans :
      (i j k : Bytes) → iter_cmp r i j ≡ lt → iter_cmp r j k ≡ lt → iter_cmp r i k ≡ lt
  unfolding iter_cmp negate cmp_key
  iter_cmp-lt_trans i j k h l = ground (
    arith,
    bytes_compare-lt_trans i j k,
    bytes_compare-lt_trans k j i,
    lt_of_gt i j,
    lt_of_gt j k,
    gt_of_lt k i,
  )

  pub eq_of_iter_cmp : (j k : Bytes) → iter_cmp r j k ≡ eq → j ≡ k
  unfolding iter_cmp negate cmp_key
  eq_of_iter_cmp j k h = ground (arith, eq_of_bytes_compare j k)

  pub lt_of_iter_gt : (j k : Bytes) → iter_cmp r j k ≡ gt → iter_cmp r k j ≡ lt
  unfolding iter_cmp negate cmp_key
  lt_of_iter_gt j k h = ground (arith, lt_of_gt j k, gt_of_lt j k)

  iter_cmp_refl : (k : Bytes) → iter_cmp r k k ≡ eq
  unfolding iter_cmp negate cmp_key
  iter_cmp_refl k = ground (arith, bytes_compare_refl k)

  pub ne_of_iter_lt : (j k : Bytes) → iter_cmp r j k ≡ lt → bytes_equal j k ≡ false
  ne_of_iter_lt j k h = ground (arith, eq_of_bytes_equal j k, iter_cmp_refl j)

  pub ne_of_iter_gt : (j k : Bytes) → iter_cmp r j k ≡ lt → bytes_equal k j ≡ false
  ne_of_iter_gt j k h = ground (arith, eq_of_bytes_equal k j, iter_cmp_refl j)

  -- The pairs come after a key.
  abbrev pub After : Bytes → List (Bytes × Bytes) → Type 0
  After k l = All (λ p. iter_cmp r k p.0 ≡ lt) l

  -- The pairs come in the order of the iterator, without doubles.
  abbrev pub Ordered : List (Bytes × Bytes) → Type 0
  Ordered [] = Unit
  Ordered ((k, v) ∷ l) = After k l × Ordered l

  pub After-trans :
      (j k : Bytes) (l : List (Bytes × Bytes)) → iter_cmp r j k ≡ lt → After k l → After j l
  After-trans j k [] h a = tt
  After-trans j k ((i, v) ∷ l) h a = (iter_cmp-lt_trans j k i h a.0, After-trans j k l h a.1)

  pub find_pair-After : (k : Bytes) (l : List (Bytes × Bytes)) → After k l → find_pair k l ≡ none
  unfolding find_pair
  find_pair-After k [] a = refl
  find_pair-After k ((i, v) ∷ l) a = rw (ne_of_iter_gt k i a.0) (find_pair-After k l a.1)

-- What a client is to find under a key: what the buffer says, where an empty value is a deletion, and
-- the snapshot's value where the buffer says nothing.
abbrev pub overlaid : Option Bytes → Option Bytes → Option Bytes
overlaid (some v) s = if is_empty v then none else some v
overlaid none s = s

unfoldable pub overlay : Bytes → (dirty snapshot : List (Bytes × Bytes)) → Option Bytes
overlay k d s = overlaid (find_pair k d) (find_pair k s)
