-- ===== src/Cluster/SplitRange/Evacuate/Range.antt =====
-- The whole of evacuateOldRegionRanges.
use mileva_db.Prelude.{
  ℕ, ◌+◌, ◌*◌, ◌≤◌, ◌<◌, ◌^◌, ◌≡◌, refl, ap, ◌∙◌, true, false, ◌||◌, none, some, List, [], ◌∷◌,
  ◌==◌, if◌then◌else◌, arith, Bool-cases, inl, inr, All, length,
}
use mileva_db.Bytes.{Bytes, is_below, not_below_nil}
use mileva_db.Maps.{map_get, IsUnique, number_IsEquality, get-All}
use mileva_db.Mvcc.Rows.Order.{All-mono}
use mileva_db.Mvcc.Scan.{region_contains}
use mileva_db.Cluster.Region.{Region}
use mileva_db.Cluster.Stores.{Cluster}
use mileva_db.Cluster.SplitRange.{
  evacuate_loop, evacuate_old_region_ranges, regions_cover_range, ends_before, on_left, on_right,
}
use mileva_db.Cluster.Regions.Contains.{owners, not_below_trans}
use mileva_db.Cluster.SplitRange.Evacuate.Pieces.{lost}
use mileva_db.Cluster.SplitRange.Evacuate.Loop.{IsReady, Others, id_in_use}
use mileva_db.Cluster.SplitRange.Evacuate.Round.{evacuate_region-Step}

abbrev Distinct : List Region → Type 0
Distinct [] = Unit
Distinct (r ∷ rs) = All (λ s. (r.id == s.id) ≡ false) rs × Distinct rs

lost_left : (start end rs re k : Bytes) → ends_before start re ≡ true → lost start end rs re k ≡ 0
unfolding region_contains
lost_left start end rs [] k h = cc
lost_left start [] rs (x ∷ re) k h = ground (arith, not_below_trans (x ∷ re) start k)
lost_left start (e ∷ end) rs (x ∷ re) k h = ground (arith, not_below_trans (x ∷ re) start k)

lost_right :
    (start end rs re k : Bytes)
    → is_below start end ≡ true
    → is_below rs end ≡ false
    → lost start end rs re k ≡ 0
unfolding region_contains
lost_right start [] rs re k order h = ground (arith, not_below_nil start)
lost_right start (e ∷ end) rs [] k order h = ground (arith, not_below_trans (e ∷ end) rs k)
lost_right start (e ∷ end) rs (x ∷ re) k order h = ground (arith, not_below_trans (e ∷ end) rs k)

module _ (start end : Bytes) where
  abbrev Meets : Region → Type 0
  Meets r = (on_left start r ≡ false) × (on_right end r ≡ false)

  abbrev IsIn : Cluster → Region → Type 0
  IsIn c r = map_get ◌==◌ r.id c.regions ≡ some r

  unfoldable losts : Bytes → List Region → ℕ
  losts k [] = 0
  losts k (r ∷ rs) = lost start end r.start_key r.end_key k + losts k rs

  -- The regions that the loop has still to visit are untouched by a round.
  still-IsIn :
      (c after : Cluster) (r : Region) (rs : List Region)
      → IsReady c
      → Others r.id c after
      → All (λ s. (r.id == s.id) ≡ false) rs
      → All (IsIn c) rs
      → All (IsIn after) rs
  still-IsIn c after r [] w o d h = tt
  still-IsIn c after r (s ∷ rs) w o d h =
      (o.same s.id (id_in_use c w s h.0) d.0 ∙ h.0, still-IsIn c after r rs w o d.1 h.1)

  evacuate_loop-owners :
      is_below start end ≡ true
      → (rs : List Region) (c : Cluster) → IsReady c
      → All (IsIn c) rs
      → All Meets rs
      → Distinct rs
      → c.id + 2 * length rs < 2 ^ 64
      → (after : Cluster) × (evacuate_loop start end rs c ≡ some after)
        × IsReady after
        × ((k : Bytes) → owners k after.regions + losts k rs ≡ owners k c.regions)
        × (after.id ≤ c.id + 2 * length rs)
  unfolding evacuate_loop losts
  evacuate_loop-owners order [] c w h m d le = (c, refl, w, λ k. omega arith, omega arith)
  evacuate_loop-owners order (r ∷ rs) c w h m d le =
      let step = evacuate_region-Step start end order c w r h.0 m.0.0 m.0.1 (omega (arith, le)) in
      let o : Others r.id c step.after = step.others in
      let rest =
        evacuate_loop-owners order rs step.after step.ready
          (still-IsIn c step.after r rs w o d.0 h.1) m.1 d.1 (omega (arith, le, o.to_id)) in
      (
        rest.0,
        rw (step.is_some, evacuate_loop) rest.1,
        rest.2,
        λ k. omega (arith, rest.3 k, step.counts k),
        omega (arith, rest.4, o.to_id),
      )

  -- The regions that do not meet the range lose nothing to it.
  losts-cover :
      is_below start end ≡ true
      → (k : Bytes) (m : List (ℕ × Region))
      → losts k (regions_cover_range start end m)
        ≡ (if region_contains start end k then owners k m else 0)
  unfolding losts regions_cover_range owners
  losts-cover order k [] = ground arith
  losts-cover order k ((i, r) ∷ m) = elim (Bool-cases (on_left start r)) [
    | inl p ↦
        rw p (ground (arith, losts-cover order k m, lost_left start end r.start_key r.end_key k p))
    | inr p ↦ elim (Bool-cases (on_right end r)) [
      | inl q ↦
          let z = lost_right start end r.start_key r.end_key k order (ground arith) in
          rw (p, q) (ground (arith, losts-cover order k m, z))
      | inr q ↦ rw (p, q) (ground (arith, losts-cover order k m))
    ]
  ]

  All-cover :
      (P : Region → Type 0) (m : List (ℕ × Region))
      → All (λ p. P p.1) m
      → All P (regions_cover_range start end m)
  unfolding regions_cover_range
  All-cover P [] h = tt
  All-cover P ((i, r) ∷ m) h = elim (Bool-cases (on_left start r || on_right end r)) [
    | inl p ↦ rw p (All-cover P m h.1)
    | inr p ↦ rw p (h.0, All-cover P m h.1)
  ]

  cover-Meets : (m : List (ℕ × Region)) → All Meets (regions_cover_range start end m)
  unfolding regions_cover_range
  cover-Meets [] = tt
  cover-Meets ((i, r) ∷ m) = elim (Bool-cases (on_left start r || on_right end r)) [
    | inl p ↦ rw p (cover-Meets m)
    | inr p ↦ rw p ((ground arith, ground arith), cover-Meets m)
  ]

  abbrev Keyed : List (ℕ × Region) → Type 0
  Keyed m = All (λ p. p.1.id ≡ p.0) m

  other_ids :
      (i : ℕ) (m : List (ℕ × Region))
      → Keyed m
      → map_get ◌==◌ i m ≡ none
      → All (λ p. (i == p.1.id) ≡ false) m
  unfolding map_get
  other_ids i [] h a = tt
  other_ids i ((j, r) ∷ m) h a = (ground (arith, h.0), other_ids i m h.1 (ground arith))

  cover-Distinct :
      (m : List (ℕ × Region))
      → IsUnique ◌==◌ m
      → Keyed m
      → Distinct (regions_cover_range start end m)
  unfolding regions_cover_range
  cover-Distinct [] u h = tt
  cover-Distinct ((i, r) ∷ m) u h = elim (Bool-cases (on_left start r || on_right end r)) [
    | inl p ↦ rw p (cover-Distinct m u.1 h.1)
    | inr p ↦
        rw (p, h.0)
          (All-cover (λ s. (i == s.id) ≡ false) m (other_ids i m h.1 u.0), cover-Distinct m u.1 h.1)
  ]

  length-cover : (m : List (ℕ × Region)) → length (regions_cover_range start end m) ≤ length m
  unfolding regions_cover_range
  length-cover [] = omega arith
  length-cover ((i, r) ∷ m) = elim (Bool-cases (on_left start r || on_right end r)) [
    | inl p ↦ rw p (omega (arith, length-cover m))
    | inr p ↦ rw p (omega (arith, length-cover m))
  ]

-- On a range that is not empty, with two ids to spare for each region, evacuateOldRegionRanges
-- does not panic, and leaves the keys of the range in no region and every other key in as many
-- regions as before.
pub evacuate_old_region_ranges-owners :
    (start end : Bytes) (c : Cluster)
    → is_below start end ≡ true
    → IsReady c
    → c.id + 2 * length c.regions < 2 ^ 64
    → (after : Cluster) × (evacuate_old_region_ranges start end c ≡ some after)
      × IsReady after
      × ((k : Bytes)
          → owners k after.regions
            ≡ (if region_contains start end k then 0 else owners k c.regions))
      × (after.id ≤ c.id + 2 * length c.regions)
unfolding evacuate_old_region_ranges
evacuate_old_region_ranges-owners start end c order w le =
    let found = get-All ◌==◌ number_IsEquality c.regions w.unique in
    let keyed : Keyed start end c.regions =
      All-mono _ _ c.regions (λ p h. w.keyed p.0 p.1 h) found in
    let ins =
      All-mono _ (λ p. IsIn start end c p.1) c.regions
        (λ p h. ap (λ i. map_get ◌==◌ i c.regions) (w.keyed p.0 p.1 h) ∙ h) found in
    let short = length-cover start end c.regions in
    let done =
      evacuate_loop-owners start end order (regions_cover_range start end c.regions) c w
        (All-cover start end (IsIn start end c) c.regions ins) (cover-Meets start end c.regions)
        (cover-Distinct start end c.regions w.unique keyed) (omega (arith, le, short)) in
    (
      done.0,
      done.1,
      done.2,
      λ k. ground (arith, done.3 k, losts-cover start end order k c.regions),
      omega (arith, done.4, short),
    )
