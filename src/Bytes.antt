-- ===== src/Bytes.antt =====
-- Byte strings, and what the sources use of Go's `bytes` package: `Compare` and `Equal`.
-- A byte is a number below 256; a byte string is a list of them.
use mileva_db.Prelude.{
  ℕ, ◌≡◌, refl, Bool, true, false, ◌&&◌, List, [], ◌∷◌, compare, Ordering, lt, eq, gt, arith, ◌==◌,
  All, ◌<◌,
}

abbrev pub Bytes : Type 0
Bytes = List ℕ

abbrev pub IsBytes : Bytes → Type 0
IsBytes = All (λ b. b < 256)

unfoldable pub bytes_compare : Bytes → Bytes → Ordering
bytes_compare [] [] = eq
bytes_compare [] (y ∷ ys) = lt
bytes_compare (x ∷ xs) [] = gt
bytes_compare (x ∷ xs) (y ∷ ys) = elim (compare x y) [
  | lt ↦ lt
  | gt ↦ gt
  | eq ↦ bytes_compare xs ys
]

unfoldable pub bytes_equal : Bytes → Bytes → Bool
bytes_equal [] [] = true
bytes_equal [] (y ∷ ys) = false
bytes_equal (x ∷ xs) [] = false
bytes_equal (x ∷ xs) (y ∷ ys) = (x == y) && bytes_equal xs ys

pub bytes_equal_refl : (xs : Bytes) → bytes_equal xs xs ≡ true
unfolding bytes_equal
bytes_equal_refl [] = refl
bytes_equal_refl (x ∷ xs) = ground (arith, bytes_equal_refl xs)

pub eq_of_bytes_equal : (xs ys : Bytes) → bytes_equal xs ys ≡ true → xs ≡ ys
unfolding bytes_equal
eq_of_bytes_equal [] [] h = refl
eq_of_bytes_equal [] (y ∷ ys) h = cc
eq_of_bytes_equal (x ∷ xs) [] h = cc
eq_of_bytes_equal (x ∷ xs) (y ∷ ys) h = ground (arith, eq_of_bytes_equal xs ys)

pub bytes_compare_refl : (xs : Bytes) → bytes_compare xs xs ≡ eq
unfolding bytes_compare
bytes_compare_refl [] = refl
bytes_compare_refl (x ∷ xs) = ground (arith, bytes_compare_refl xs)

pub eq_of_bytes_compare : (xs ys : Bytes) → bytes_compare xs ys ≡ eq → xs ≡ ys
unfolding bytes_compare
eq_of_bytes_compare [] [] h = refl
eq_of_bytes_compare [] (y ∷ ys) h = cc
eq_of_bytes_compare (x ∷ xs) [] h = cc
eq_of_bytes_compare (x ∷ xs) (y ∷ ys) h = ground (arith, eq_of_bytes_compare xs ys)

pub bytes_compare-lt_trans :
    (xs ys zs : Bytes)
    → bytes_compare xs ys ≡ lt
    → bytes_compare ys zs ≡ lt
    → bytes_compare xs zs ≡ lt
unfolding bytes_compare
bytes_compare-lt_trans [] [] zs h k = k
bytes_compare-lt_trans [] (y ∷ ys) [] h k = cc
bytes_compare-lt_trans [] (y ∷ ys) (z ∷ zs) h k = refl
bytes_compare-lt_trans (x ∷ xs) [] zs h k = cc
bytes_compare-lt_trans (x ∷ xs) (y ∷ ys) [] h k = cc
bytes_compare-lt_trans (x ∷ xs) (y ∷ ys) (z ∷ zs) h k =
    ground (arith, bytes_compare-lt_trans xs ys zs)

pub lt_of_gt : (xs ys : Bytes) → bytes_compare xs ys ≡ gt → bytes_compare ys xs ≡ lt
unfolding bytes_compare
lt_of_gt [] [] h = cc
lt_of_gt [] (y ∷ ys) h = cc
lt_of_gt (x ∷ xs) [] h = refl
lt_of_gt (x ∷ xs) (y ∷ ys) h = ground (arith, lt_of_gt xs ys)

pub gt_of_lt : (xs ys : Bytes) → bytes_compare xs ys ≡ lt → bytes_compare ys xs ≡ gt
unfolding bytes_compare
gt_of_lt [] [] h = cc
gt_of_lt [] (y ∷ ys) h = refl
gt_of_lt (x ∷ xs) [] h = cc
gt_of_lt (x ∷ xs) (y ∷ ys) h = ground (arith, gt_of_lt xs ys)

abbrev pub is_below : Bytes → Bytes → Bool
is_below j k = elim (bytes_compare j k) [ lt ↦ true | _ ↦ false ]

pub not_below_nil : (j : Bytes) → is_below j [] ≡ false
unfolding bytes_compare
not_below_nil [] = refl
not_below_nil (y ∷ j) = refl
