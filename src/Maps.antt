-- ===== src/Maps.antt =====
-- Go maps as association lists: the first pair under a key counts. The order of the pairs stands
-- for the order in which a loop over the map meets them, which Go leaves open.
use mathlib.Core.Path.{subst}
use mileva_db.Prelude.{
  ℕ, suc, ◌≡◌, refl, Bool, true, false, Option, none, some, List, [], ◌∷◌, if◌then◌else◌, ◌==◌,
  length, arith, Bool-cases, All, inl, inr,
}

-- The test of keys decides equality.
pub record IsEquality {K : Type 0} (same : K → K → Bool) : Type 0 where
  pub same_refl : (k : K) → same k k ≡ true
  pub eq_of_same : (j k : K) → same j k ≡ true → j ≡ k

pub number_IsEquality : IsEquality ◌==◌
number_IsEquality = record { same_refl = λ k. ground arith; eq_of_same = λ j k h. ground arith }

module _ {K V : Type 0} (same : K → K → Bool) where
  unfoldable pub map_get : K → List (K × V) → Option V
  map_get k [] = none
  map_get k ((j, v) ∷ m) = if same j k then some v else map_get k m

  unfoldable pub map_set : K → V → List (K × V) → List (K × V)
  map_set k v [] = (k, v) ∷ []
  map_set k v ((j, w) ∷ m) =
      let rest = map_set k v m in if same j k then (j, v) ∷ m else (j, w) ∷ rest

  unfoldable pub map_delete : K → List (K × V) → List (K × V)
  map_delete k [] = []
  map_delete k ((j, w) ∷ m) = let rest = map_delete k m in if same j k then rest else (j, w) ∷ rest

  -- No key stands twice.
  abbrev pub IsUnique : List (K × V) → Type 0
  IsUnique [] = Unit
  IsUnique ((k, v) ∷ m) = (map_get k m ≡ none) × IsUnique m

  -- How many pairs have the key.
  abbrev pub times : K → List (K × V) → ℕ
  times k [] = 0
  times k ((j, v) ∷ m) = if same j k then suc (times k m) else times k m

  -- Whether a map has the key.
  abbrev pub is_in : K → List (K × V) → Bool
  is_in k m = elim (map_get k m) [ none ↦ false | some v ↦ true ]

  module _ (law : IsEquality same) where
    pub get-set :
        (k j : K) (v : V) (m : List (K × V))
        → map_get j (map_set k v m) ≡ (if same k j then some v else map_get j m)
    unfolding map_get map_set
    get-set k j v [] = refl
    get-set k j v ((i, w) ∷ m) = elim (Bool-cases (same i k)) [
      | inl p ↦ let q : i ≡ k = law.eq_of_same i k p in rw (p, q) (ground arith)
      | inr p ↦
          rw p (
            ground
              (arith, get-set k j v m, law.eq_of_same i j, law.eq_of_same k j, law.same_refl j))
    ]

    pub get-delete :
        (k j : K) (m : List (K × V))
        → map_get j (map_delete k m) ≡ (if same k j then none else map_get j m)
    unfolding map_get map_delete
    get-delete k j [] = ground arith
    get-delete k j ((i, w) ∷ m) = elim (Bool-cases (same i k)) [
      | inl p ↦
          let q : i ≡ k = law.eq_of_same i k p in
          rw (p, q) (ground (arith, get-delete k j m, law.same_refl k))
      | inr p ↦ rw p (
          ground (arith, get-delete k j m, law.eq_of_same i j, law.eq_of_same k j, law.same_refl j))
    ]

    pub set-IsUnique : (k : K) (v : V) (m : List (K × V)) → IsUnique m → IsUnique (map_set k v m)
    unfolding map_get map_set
    set-IsUnique k v [] h = (refl, tt)
    set-IsUnique k v ((i, w) ∷ m) h = elim (Bool-cases (same i k)) [
      | inl p ↦ rw p h
      | inr p ↦ rw p (
        rw (get-set k i v m) (ground (arith, h.0, law.eq_of_same k i, law.same_refl i)),
        set-IsUnique k v m h.1,
      )
    ]

    pub delete-IsUnique : (k : K) (m : List (K × V)) → IsUnique m → IsUnique (map_delete k m)
    unfolding map_get map_delete
    delete-IsUnique k [] h = tt
    delete-IsUnique k ((i, w) ∷ m) h = elim (Bool-cases (same i k)) [
      | inl p ↦ rw p (delete-IsUnique k m h.1)
      | inr p ↦ rw p (rw (get-delete k i m) (ground (arith, h.0)), delete-IsUnique k m h.1)
    ]

    pub length-set :
        (k : K) (v : V) (m : List (K × V))
        → length (map_set k v m) ≡ (if is_in k m then length m else suc (length m))
    unfolding map_get map_set
    length-set k v [] = refl
    length-set k v ((i, w) ∷ m) = elim (Bool-cases (same i k)) [
      | inl p ↦ rw p (ground (arith, p))
      | inr p ↦ rw p (ground (arith, length-set k v m))
    ]

    delete_absent : (k : K) (m : List (K × V)) → map_get k m ≡ none → map_delete k m ≡ m
    unfolding map_get map_delete
    delete_absent k [] h = refl
    delete_absent k ((i, w) ∷ m) h = ground (arith, delete_absent k m)

    pub length-delete :
        (k : K) (m : List (K × V))
        → IsUnique m
        → length m ≡ (if is_in k m then suc (length (map_delete k m)) else length (map_delete k m))
    unfolding map_get map_delete
    length-delete k [] h = refl
    length-delete k ((i, w) ∷ m) h = elim (Bool-cases (same i k)) [
      | inl p ↦
          let q : i ≡ k = law.eq_of_same i k p in
          let r : map_get k m ≡ none = subst (λ x. map_get x m ≡ none) q h.0 in
          rw p (ground (arith, p, delete_absent k m r))
      | inr p ↦ rw p (ground (arith, length-delete k m h.1))
    ]

    times_absent : (k : K) (m : List (K × V)) → map_get k m ≡ none → times k m ≡ 0
    unfolding map_get
    times_absent k [] h = refl
    times_absent k ((i, w) ∷ m) h = ground (arith, times_absent k m)

    pub times-IsUnique :
        (k : K) (m : List (K × V)) → IsUnique m → times k m ≡ (if is_in k m then 1 else 0)
    unfolding map_get
    times-IsUnique k [] h = refl
    times-IsUnique k ((i, w) ∷ m) h = elim (Bool-cases (same i k)) [
      | inl p ↦
          let q : i ≡ k = law.eq_of_same i k p in
          let r : map_get k m ≡ none = subst (λ x. map_get x m ≡ none) q h.0 in
          rw p (ground (arith, times_absent k m r))
      | inr p ↦ rw p (ground (arith, times-IsUnique k m h.1))
    ]

    pub All-set :
        (P : K × V → Type 0)
        → (k : K) (v : V) (m : List (K × V)) → P (k, v)
        → ((i : K) → same i k ≡ true → P (i, v))
        → All P m
        → All P (map_set k v m)
    unfolding map_set
    All-set P k v [] p q h = (p, tt)
    All-set P k v ((i, w) ∷ m) p q h = elim (Bool-cases (same i k)) [
      | inl e ↦ rw e (q i e, h.1)
      | inr e ↦ rw e (h.0, All-set P k v m p q h.1)
    ]

    pub All-delete :
        (P : K × V → Type 0) (k : K) (m : List (K × V)) → All P m → All P (map_delete k m)
    unfolding map_delete
    All-delete P k [] h = tt
    All-delete P k ((i, w) ∷ m) h = elim (Bool-cases (same i k)) [
      | inl e ↦ rw e (All-delete P k m h.1)
      | inr e ↦ rw e (h.0, All-delete P k m h.1)
    ]

    -- A pair further on in a map without doubles is what the map gives for its key.
    abbrev IsFoundIn : List (K × V) → K × V → Type 0
    IsFoundIn m p = map_get p.0 m ≡ some p.1

    found_behind :
        (k : K) (v : V) (m l : List (K × V))
        → map_get k m ≡ none
        → All (IsFoundIn m) l
        → All (IsFoundIn ((k, v) ∷ m)) l
    unfolding map_get
    found_behind k v m [] absent h = tt
    found_behind k v m ((i, w) ∷ l) absent h =
        (ground (arith, h.0, absent, law.eq_of_same k i), found_behind k v m l absent h.1)

    pub get-All : (m : List (K × V)) → IsUnique m → All (λ p. map_get p.0 m ≡ some p.1) m
    unfolding map_get
    get-All [] h = tt
    get-All ((k, v) ∷ m) h = (rw (law.same_refl k) refl, found_behind k v m m h.0 (get-All m h.1))
