-- ===== src/Cluster/SplitRange/Groups.antt =====
-- getEntriesGroupByRegions divides the pairs evenly.
use mileva_db.Prelude.{
  ℕ, zero, suc, ◌+◌, ◌-◌, ◌*◌, ◌/◌, ◌%◌, ◌≤◌, ◌<◌, ◌≡◌, refl, ap, ◌∙◌, some, List, [], ◌∷◌, ◌++◌,
  arith, Bool-cases, inl, inr, All, length, take, drop, ltb, if◌then◌else◌,
}
use mileva_db.Mvcc.Reads.{Pair}
use mileva_db.Cluster.SplitRange.{group_loop, entries_group_by_regions}

unfoldable pub concat_groups : List (List Pair) → List Pair
concat_groups [] = []
concat_groups (g ∷ gs) = g ++ concat_groups gs

take-drop : (n : ℕ) (xs : List Pair) → take n xs ++ drop n xs ≡ xs
take-drop zero xs = refl
take-drop (suc n) [] = refl
take-drop (suc n) (x ∷ xs) = ap (λ l. x ∷ l) (take-drop n xs)

length-take : (n : ℕ) (xs : List Pair) → n ≤ length xs → length (take n xs) ≡ n
length-take zero xs h = refl
length-take (suc n) [] h = absurd (omega (arith, h))
length-take (suc n) (x ∷ xs) h = omega (arith, length-take n xs (omega (arith, h)))

length-drop : (n : ℕ) (xs : List Pair) → n ≤ length xs → length (drop n xs) + n ≡ length xs
length-drop zero xs h = omega arith
length-drop (suc n) [] h = absurd (omega (arith, h))
length-drop (suc n) (x ∷ xs) h = omega (arith, length-drop n xs (omega (arith, h)))

-- The sizes of groups differ by one at most, and no group is empty.
abbrev pub EvenSize : ℕ → List Pair → Type 0
EvenSize q g = (q ≤ length g) × (length g ≤ q + 1) × (0 < length g)

abbrev Grouped : ℕ → ℕ → ℕ → List Pair → List (List Pair) → Type 0
Grouped n q r pairs gs =
    (concat_groups gs ≡ pairs) × All (EvenSize q) gs × (length gs ≡ (if ltb 0 q then n else r))

positive : (q n l : ℕ) → suc l ≡ q * suc n → 0 < q
positive zero n l h = absurd (omega (arith, h))
positive (suc q) n l h = omega arith

-- One group in front of the others.
one_group :
    (n q r size : ℕ) (pairs : List Pair) (gs : List (List Pair))
    → size ≤ length pairs
    → q ≤ size
    → size ≤ q + 1
    → 0 < size
    → (length gs + 1 ≡ (if ltb 0 q then suc n else r))
    → concat_groups gs ≡ drop size pairs
    → All (EvenSize q) gs
    → Grouped (suc n) q r pairs (take size pairs ∷ gs)
unfolding concat_groups
one_group n q r size pairs gs le low high some_size count c even =
    let t = length-take size pairs le in
    (
      ap (λ l. take size pairs ++ l) c ∙ take-drop size pairs,
      ((omega (arith, t, low), omega (arith, t, high), omega (arith, t, some_size)), even),
      omega (arith, count),
    )

no_groups : (n q r : ℕ) → 0 ≡ q * n + r → r ≤ n → 0 ≡ (if ltb 0 q then n else r)
no_groups n zero r e l = ground (arith, e)
no_groups zero (suc q) r e l = ground arith
no_groups (suc n) (suc q) r e l = absurd (omega (arith, e))

group_loop-Grouped :
    (fuel n q r : ℕ) (pairs : List Pair)
    → length pairs ≤ fuel
    → length pairs ≡ q * n + r
    → r ≤ n
    → Grouped n q r pairs (group_loop fuel q r pairs)
unfolding group_loop concat_groups
group_loop-Grouped fuel n q r [] h e l = (refl, tt, no_groups n q r e l)
group_loop-Grouped zero n q r (p ∷ pairs) h e l = absurd (omega (arith, h))
group_loop-Grouped (suc fuel) zero q r (p ∷ pairs) h e l = absurd (omega (arith, e, l))
group_loop-Grouped (suc fuel) (suc n) q r (p ∷ pairs) h e l = elim (Bool-cases (ltb 0 r)) [
  | inl t ↦
      let pos : 0 < r = ground arith in
      let le : q + 1 ≤ length (p ∷ pairs) = omega (arith, e, pos) in
      let d = length-drop (q + 1) (p ∷ pairs) le in
      let rest =
        group_loop-Grouped fuel n q (r - 1) (drop (q + 1) (p ∷ pairs)) (omega (arith, d, h))
          (omega (arith, d, e, pos)) (omega (arith, l)) in
      rw t (
        one_group n q r (q + 1) (p ∷ pairs) _ le (omega arith) (omega arith) (omega arith)
          (ground (arith, rest.2)) rest.0 rest.1)
  | inr t ↦
      let zero_left : r ≡ 0 = ground arith in
      let le : q ≤ length (p ∷ pairs) = omega (arith, e) in
      let some_size : 0 < q = positive q n (length pairs) (omega (arith, e, zero_left)) in
      let d = length-drop q (p ∷ pairs) le in
      let rest =
        group_loop-Grouped fuel n q (r - 1) (drop q (p ∷ pairs)) (omega (arith, d, h, some_size))
          (omega (arith, d, e, zero_left)) (omega (arith, l)) in
      rw t (
        one_group n q r q (p ∷ pairs) _ le (omega arith) (omega arith) some_size
          (ground (arith, rest.2, some_size)) rest.0 rest.1)
]

quotient_zero : (q d r l : ℕ) → q * d + r ≡ l → l < d → q ≡ 0
quotient_zero zero d r l e h = refl
quotient_zero (suc q) d r l e h = absurd (omega (arith, e, h))

remainder_all : (q d r l : ℕ) → q * d + r ≡ l → q ≡ 0 → r ≡ l
remainder_all zero d r l e h = omega (arith, e)
remainder_all (suc q) d r l e h = absurd (omega (arith, h))

quotient_positive : (q d r l : ℕ) → q * d + r ≡ l → r < d → d ≤ l → 0 < q
quotient_positive zero d r l e h g = absurd (omega (arith, e, h, g))
quotient_positive (suc q) d r l e h g = omega arith

group_number :
    (l n : ℕ)
    → (if ltb 0 (l / suc n) then suc n else l % suc n) ≡ (if ltb l (suc n) then l else suc n)
group_number l n = elim (Bool-cases (ltb l (suc n))) [
  | inl p ↦
      let lower : l < suc n = ground arith in
      let z = quotient_zero (l / suc n) (suc n) (l % suc n) l (omega arith) lower in
      let m : l % suc n ≡ l = remainder_all (l / suc n) (suc n) (l % suc n) l (omega arith) z in
      rw (p, z, m) refl
  | inr p ↦
      let ge : suc n ≤ l = ground arith in
      let z = quotient_positive (l / suc n) (suc n) (l % suc n) l (omega arith) (omega arith) ge in
      rw p (ground (arith, z))
]

-- getEntriesGroupByRegions, for a count that is not 0, gives groups that make up the pairs in their
-- order, whose sizes differ by one at most and of which none is empty: as many as the count, or one
-- for each pair where the pairs are fewer.
pub entries_group_by_regions-concat :
    (pairs : List Pair) (n : ℕ)
    → (gs : List (List Pair)) × (entries_group_by_regions pairs (suc n) ≡ some gs)
      × (concat_groups gs ≡ pairs)
      × All (EvenSize (length pairs / suc n)) gs
      × (length gs ≡ (if ltb (length pairs) (suc n) then length pairs else suc n))
unfolding entries_group_by_regions
entries_group_by_regions-concat pairs n =
    let all =
      group_loop-Grouped (length pairs) (suc n) (length pairs / suc n) (length pairs % suc n) pairs
        (omega arith) (omega arith) (omega arith) in
    (_, refl, all.0, all.1, all.2 ∙ group_number (length pairs) n)
