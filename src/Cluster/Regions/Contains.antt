-- ===== src/Cluster/Regions/Contains.antt =====
-- How many regions of the cluster contain a key.
use mathlib.Core.Path.{subst}
use mileva_db.Prelude.{
  ℕ, ◌+◌, ◌≡◌, ◌≢◌, refl, ap, Bool, true, false, not, none, some, List, [], ◌∷◌, ◌==◌, arith,
  Bool-cases, inl, inr,
}
use mileva_db.Bytes.{Bytes, is_below, bytes_compare-lt_trans, eq_of_bytes_compare, lt_of_gt}
use mileva_db.Maps.{map_get, map_set, map_delete, IsUnique}
use mileva_db.Mvcc.Scan.{region_contains}
use mileva_db.Cluster.Region.{Region}

abbrev pub count_one : Bool → ℕ
count_one true = 1
count_one false = 0

abbrev pub holds_key : Bytes → Region → Bool
holds_key k r = region_contains r.start_key r.end_key k

unfoldable pub owners : Bytes → List (ℕ × Region) → ℕ
owners k [] = 0
owners k ((i, r) ∷ m) = count_one (holds_key k r) + owners k m

-- An end key that is behind a key, or no end.
abbrev pub ends_behind : Bytes → Bytes → Bool
ends_behind [] k = true
ends_behind (b ∷ bs) k = not (is_below (b ∷ bs) k)

pub not_below_trans :
    (i j k : Bytes) → is_below j i ≡ false → is_below k j ≡ false → is_below k i ≡ false
not_below_trans i j k h l = ground (
  arith,
  bytes_compare-lt_trans k i j,
  eq_of_bytes_compare i j,
  lt_of_gt j i,
  eq_of_bytes_compare j i,
)

-- Two ranges that meet make up one.
pub join_contains :
    (s m e k : Bytes)
    → is_below m s ≡ false
    → ends_behind e m ≡ true
    → m ≢ []
    → count_one (region_contains s m k) + count_one (region_contains m e k)
      ≡ count_one (region_contains s e k)
unfolding region_contains
join_contains s [] e k h l ne = absurd (ne refl)
join_contains s (b ∷ bs) [] k h l ne = ground (arith, not_below_trans s (b ∷ bs) k)
join_contains s (b ∷ bs) (c ∷ cs) k h l ne = ground (
  arith,
  not_below_trans s (b ∷ bs) k,
  not_below_trans k (b ∷ bs) (c ∷ cs),
  not_below_trans (b ∷ bs) (c ∷ cs) k,
)

module _ (k : Bytes) (i : ℕ) where
  pub owners-set :
      (r q : Region) (m : List (ℕ × Region))
      → map_get ◌==◌ i m ≡ some r
      → owners k (map_set ◌==◌ i q m) + count_one (holds_key k r)
        ≡ owners k m + count_one (holds_key k q)
  unfolding owners map_get map_set
  owners-set r q [] h = cc
  owners-set r q ((j, t) ∷ m) h = elim (Bool-cases (j == i)) [
    | inl p ↦
        let e : t ≡ r = ground arith in rw p (omega (arith, ap (λ x. count_one (holds_key k x)) e))
    | inr p ↦
        let f : map_get ◌==◌ i m ≡ some r = ground arith in rw p (omega (arith, owners-set r q m f))
  ]

  pub owners-set_absent :
      (q : Region) (m : List (ℕ × Region))
      → map_get ◌==◌ i m ≡ none
      → owners k (map_set ◌==◌ i q m) ≡ owners k m + count_one (holds_key k q)
  unfolding owners map_get map_set
  owners-set_absent q [] h = omega arith
  owners-set_absent q ((j, t) ∷ m) h = elim (Bool-cases (j == i)) [
    | inl p ↦ ground arith
    | inr p ↦
        let f : map_get ◌==◌ i m ≡ none = ground arith in
        rw p (omega (arith, owners-set_absent q m f))
  ]

  owners-delete_absent :
      (m : List (ℕ × Region))
      → map_get ◌==◌ i m ≡ none
      → owners k (map_delete ◌==◌ i m) ≡ owners k m
  unfolding owners map_get map_delete
  owners-delete_absent [] h = refl
  owners-delete_absent ((j, t) ∷ m) h = elim (Bool-cases (j == i)) [
    | inl p ↦ ground arith
    | inr p ↦
        let f : map_get ◌==◌ i m ≡ none = ground arith in
        rw p (omega (arith, owners-delete_absent m f))
  ]

  pub owners-delete :
      (r : Region) (m : List (ℕ × Region))
      → IsUnique ◌==◌ m
      → map_get ◌==◌ i m ≡ some r
      → owners k (map_delete ◌==◌ i m) + count_one (holds_key k r) ≡ owners k m
  unfolding owners map_get map_delete
  owners-delete r [] u h = cc
  owners-delete r ((j, t) ∷ m) u h = elim (Bool-cases (j == i)) [
    | inl p ↦
        let e : t ≡ r = ground arith in
        let a : j ≡ i = ground arith in
        let f : map_get ◌==◌ i m ≡ none = subst (λ x. map_get ◌==◌ x m ≡ none) a u.0 in
        rw p (omega (arith, ap (λ x. count_one (holds_key k x)) e, owners-delete_absent m f))
    | inr p ↦
        let f : map_get ◌==◌ i m ≡ some r = ground arith in
        rw p (omega (arith, owners-delete r m u.1 f))
  ]
