-- ===== src/Cluster/SplitRange/Create.antt =====
-- createNewRegions fills the range again, and splitRange as a whole keeps the partition.
use mathlib.Core.Path.{subst}
use mileva_db.Prelude.{
  ℕ, suc, ◌+◌, ◌*◌, ◌≤◌, ◌<◌, ◌^◌, ◌≡◌, ◌≢◌, refl, sym, ap, true, false, some, List, [], ◌∷◌, ◌++◌,
  arith, All, length, if◌then◌else◌, ltb, ◌/◌,
}
use mileva_db.Bytes.{
  Bytes, is_below, bytes_compare-lt_trans, bytes_compare_refl, eq_of_bytes_compare, lt_of_gt,
  not_below_nil, gt_of_lt,
}
use mileva_db.Mvcc.Env.{Env}
use mileva_db.Mvcc.Scan.{region_contains, new_mvcc_key, raw_key}
use mileva_db.Mvcc.Reads.{Pair}
use mileva_db.Cluster.Regions.Partition.{IsPartition}
use mileva_db.Mvcc.Rows.Order.{All-mono}
use mileva_db.Cluster.Stores.{Cluster}
use mileva_db.Cluster.SplitRange.{group_loop, create_loop, split_range, entries_group_by_regions}
use mileva_db.Cluster.SplitRange.Groups.{concat_groups, EvenSize, entries_group_by_regions-concat}
use mileva_db.Cluster.SplitRange.Evacuate.Loop.{IsReady, added}
use mileva_db.Cluster.SplitRange.Evacuate.Range.{evacuate_old_region_ranges-owners}
use mileva_db.Cluster.Regions.Contains.{count_one, owners, join_contains, ends_behind}

below_trans : (i j k : Bytes) → is_below j i ≡ false → is_below j k ≡ true → is_below i k ≡ true
below_trans i j k h l =
    ground (arith, bytes_compare-lt_trans i j k, eq_of_bytes_compare j i, lt_of_gt j i)

not_below_of_below : (j k : Bytes) → is_below j k ≡ true → is_below k j ≡ false
not_below_of_below j k h = ground (arith, gt_of_lt j k)

ne_nil_of_below : (j k : Bytes) → is_below j k ≡ true → k ≢ []
ne_nil_of_below j [] h e = ground (arith, not_below_nil j)
ne_nil_of_below j (b ∷ bs) h e = cc

ends_behind_below : (k end : Bytes) → is_below k end ≡ true → ends_behind end k ≡ true
ends_behind_below k [] h = refl
ends_behind_below k (b ∷ bs) h = ground (arith, not_below_of_below k (b ∷ bs))

not_below_refl : (k : Bytes) → is_below k k ≡ false
not_below_refl k = ground (arith, bytes_compare_refl k)

module _ (e : Env) (end : Bytes) where
  -- The encoded keys ascend from `from` on, and are below the end of the range.
  abbrev pub Rises : Bytes → List Pair → Type 0
  Rises from [] = Unit
  Rises from (p ∷ ps) =
      (is_below from (new_mvcc_key e p.key) ≡ true)
      × (is_below (new_mvcc_key e p.key) end ≡ true)
      × Rises (new_mvcc_key e p.key) ps

  -- ... where the first of them may be `from` itself.
  abbrev pub RisesFrom : Bytes → List Pair → Type 0
  RisesFrom from [] = Unit
  RisesFrom from (p ∷ ps) =
      (is_below (new_mvcc_key e p.key) from ≡ false)
      × (is_below (new_mvcc_key e p.key) end ≡ true)
      × Rises (new_mvcc_key e p.key) ps

  -- Behind some pairs, the others rise too.
  Rises-drop : (from : Bytes) (ps qs : List Pair) → Rises from (ps ++ qs) → Rises from qs
  Rises-drop from [] qs h = h
  Rises-drop from (p ∷ ps) [] h = tt
  Rises-drop from (p ∷ ps) (q ∷ qs) h =
      let rest = Rises-drop (new_mvcc_key e p.key) ps (q ∷ qs) h.2 in
      (
        below_trans from (new_mvcc_key e p.key) (new_mvcc_key e q.key)
            (not_below_of_below from (new_mvcc_key e p.key) h.0) rest.0,
        rest.1,
        rest.2,
      )

  create_loop-owners :
      (from : Bytes) (g : List Pair) (gs : List (List Pair)) (c : Cluster)
      → IsReady c
      → All (λ g. 0 < length g) (g ∷ gs)
      → RisesFrom from (g ++ concat_groups gs)
      → c.id + 2 * length (g ∷ gs) < 2 ^ 64
      → (after : Cluster) × (create_loop e from end (g ∷ gs) c ≡ some after)
        × IsReady after
        × ((k : Bytes)
            → owners k after.regions ≡ owners k c.regions + count_one (region_contains from end k))
  unfolding create_loop concat_groups
  create_loop-owners from g [] c w some_size rise le =
      let new = added from end c w (omega (arith, le)) in (new.0, new.1, new.2, new.3)
  create_loop-owners from g ([] ∷ gs) c w some_size rise le = absurd (omega (arith, some_size.1.0))
  create_loop-owners from [] ((p ∷ ps) ∷ gs) c w some_size rise le =
      absurd (omega (arith, some_size.0))
  create_loop-owners from (x ∷ g) ((p ∷ ps) ∷ gs) c w some_size rise le =
      let m : Bytes = new_mvcc_key e p.key in
      let later = Rises-drop (new_mvcc_key e x.key) g (p ∷ (ps ++ concat_groups gs)) rise.2 in
      let above : is_below from m ≡ true =
        below_trans from (new_mvcc_key e x.key) m rise.0 later.0 in
      let new = added from m c w (omega (arith, le)) in
      let ih =
        create_loop-owners m (p ∷ ps) gs new.0 new.2 some_size.1
          (not_below_refl m, later.1, later.2) (omega (arith, le, new.5)) in
      (
        ih.0,
        rw (new.1, create_loop) ih.1,
        ih.2,
        λ k. omega (
          arith,
          ih.3 k,
          new.3 k,
          join_contains from m end k (not_below_of_below from m above)
              (ends_behind_below m end later.1) (ne_nil_of_below from m above),
        ),
      )

-- As create_loop-owners, of groups that make up some pairs.
create_groups-owners :
    (e : Env) (end start : Bytes) (gs : List (List Pair)) (c : Cluster) (p : Pair) (ps : List Pair)
    → IsReady c
    → concat_groups gs ≡ p ∷ ps
    → All (λ g. 0 < length g) gs
    → RisesFrom e end start (p ∷ ps)
    → c.id + 2 * length gs < 2 ^ 64
    → (after : Cluster) × (create_loop e start end gs c ≡ some after)
      × IsReady after
      × ((k : Bytes)
          → owners k after.regions ≡ owners k c.regions + count_one (region_contains start end k))
create_groups-owners e end start [] c p ps w same some_size rise le =
    unfold concat_groups in absurd (omega (arith, ap length same))
create_groups-owners e end start (g ∷ gs) c p ps w same some_size rise le =
    create_loop-owners e end start g gs c w some_size
      (unfold concat_groups in subst (RisesFrom e end start) (sym same) rise) le

fewer_groups : (l n g : ℕ) → g ≡ (if ltb l (suc n) then l else suc n) → g ≤ l
fewer_groups l n g h = ground (arith, h)

module _ (e : Env) (mvcc_scan : (start end : Bytes) → List Pair) where
  -- splitRange of a partition, over a range that is not empty and in which the scan finds pairs, whose
  -- encoded keys ascend from the range's start and stay below its end, with ids to spare, does not
  -- panic and gives a partition again.
  pub split_range-IsPartition :
      (c : Cluster) (start end from to : Bytes) (n : ℕ) (p : Pair) (ps : List Pair)
      → IsReady c
      → IsPartition c
      → is_below start end ≡ true
      → raw_key e start ≡ some from
      → raw_key e end ≡ some to
      → mvcc_scan from to ≡ p ∷ ps
      → RisesFrom e end start (p ∷ ps)
      → c.id + 2 * length c.regions + 2 * length (p ∷ ps) < 2 ^ 64
      → (after : Cluster) × (split_range e mvcc_scan c start end (suc n) ≡ some after)
        × IsPartition after
  unfolding split_range
  split_range-IsPartition c start end from to n p ps w part order rs re scanned rise le =
      let out = evacuate_old_region_ranges-owners start end c order w (omega (arith, le)) in
      let groups = entries_group_by_regions-concat (p ∷ ps) n in
      let some_size =
        All-mono (EvenSize (length (p ∷ ps) / suc n)) (λ g. 0 < length g) groups.0 (λ g h. h.2)
          groups.3 in
      let few = fewer_groups (length (p ∷ ps)) n (length groups.0) groups.4 in
      let new =
        create_groups-owners e end start groups.0 out.0 p ps out.2 groups.2 some_size rise
          (omega (arith, le, few, out.4)) in
      (
        new.0,
        rw (out.1, rs, re, scanned, groups.1, split_range) new.1,
        record {
          unique = new.2.unique;
          covered = λ k. ground (arith, new.3 k, out.3 k, part.covered k);
        },
      )

  -- splitRange over a range in which the scan finds no pair takes the keys of the range out of every
  -- region: from then on no region has them.
  pub split_range-no_pairs :
      (c : Cluster) (start end from to : Bytes) (n : ℕ)
      → IsReady c
      → is_below start end ≡ true
      → raw_key e start ≡ some from
      → raw_key e end ≡ some to
      → mvcc_scan from to ≡ []
      → c.id + 2 * length c.regions < 2 ^ 64
      → (after : Cluster) × (split_range e mvcc_scan c start end (suc n) ≡ some after)
        × ((k : Bytes)
            → owners k after.regions
              ≡ (if region_contains start end k then 0 else owners k c.regions))
  unfolding split_range entries_group_by_regions group_loop create_loop
  split_range-no_pairs c start end from to n w order rs re scanned le =
      let out = evacuate_old_region_ranges-owners start end c order w le in
      (out.0, rw (out.1, rs, re, scanned, split_range) refl, out.3)
