-- ===== src/Cluster/SplitRange/Evacuate/Round.antt =====
-- One round of the loop of evacuateOldRegionRanges, in each of its branches.
use mileva_db.Prelude.{
  ◌+◌, ◌<◌, ◌^◌, ◌≡◌, ◌≢◌, refl, ◌∙◌, true, false, Option, some, [], ◌∷◌, ◌==◌, arith, lt, eq, gt,
  Order-cases, is_lt, is_eq, is_gt, Ordering,
}
use mileva_db.Bytes.{Bytes, is_below, bytes_compare}
use mileva_db.Maps.{map_get, map_delete}
use mileva_db.Mvcc.Scan.{region_contains}
use mileva_db.Cluster.Region.{Region, update_key_range, inc_version}
use mileva_db.Cluster.Stores.{Cluster, set_regions}
use mileva_db.Cluster.SplitRange.{
  put_region, add_new_region, evacuate_region, end_cmp, ends_before, on_left, on_right,
}
use mileva_db.Cluster.Regions.Contains.{count_one, owners, owners-delete}
use mileva_db.Cluster.SplitRange.Evacuate.Pieces.{
  lost, pieces-around, pieces-left, pieces-right, pieces-inside,
}
use mileva_db.Cluster.SplitRange.Evacuate.Loop.{
  IsReady, Others, put-IsReady, put-Others, put-owners, delete-IsReady, delete-Others, added,
}

-- The round gives a cluster in which each key has lost its owner exactly where the region and the
-- range have it.
pub record Step (start end : Bytes) (r : Region) (c : Cluster) (o : Option Cluster) : Type 0 where
  pub after : Cluster
  pub is_some : o ≡ some after
  pub ready : IsReady after
  pub counts :
      (k : Bytes)
      → owners k after.regions + lost start end r.start_key r.end_key k ≡ owners k c.regions
  pub others : Others r.id c after

starts_below :
    (start end re : Bytes)
    → end_cmp re end ≢ gt
    → ends_before start re ≡ false
    → is_below start re ≡ true
starts_below start end [] g h = absurd (g refl)
starts_below start end (b ∷ bs) g h = ground arith

lt_ne_gt : (o : Ordering) → o ≡ lt → o ≢ gt
lt_ne_gt o p q = cc

eq_ne_gt : (o : Ordering) → o ≡ eq → o ≢ gt
eq_ne_gt o p q = cc

eq_ne_lt : (o : Ordering) → o ≡ eq → o ≢ lt
eq_ne_lt o p q = cc

gt_ne_lt : (o : Ordering) → o ≡ gt → o ≢ lt
gt_ne_lt o p q = cc

module _ (start end : Bytes) (order : is_below start end ≡ true) (c : Cluster) (w : IsReady c)
    (r : Region) (here : map_get ◌==◌ r.id c.regions ≡ some r) where
  -- A region that is narrowed to `left` and `right`, and stays.
  narrowed :
      (left right : Bytes)
      → ((k : Bytes)
          → count_one (region_contains r.start_key r.end_key k)
            ≡ count_one (region_contains left right k) + lost start end r.start_key r.end_key k)
      → Step start end r c (some (put_region (update_key_range left right r) c))
  unfolding update_key_range inc_version
  narrowed left right pieces =
      let q : Region = update_key_range left right r in
      record {
        after = put_region q c;
        is_some = refl;
        ready = put-IsReady c w r here q refl;
        counts = λ k. omega (arith, put-owners c w r here q k refl, pieces k);
        others = put-Others c w r here q refl;
      }

  removed :
      ((k : Bytes)
        → count_one (region_contains r.start_key r.end_key k)
          ≡ lost start end r.start_key r.end_key k)
      → Step start end r c (some (set_regions (map_delete ◌==◌ r.id c.regions) c))
  removed pieces = record {
    after = set_regions (map_delete ◌==◌ r.id c.regions) c;
    is_some = refl;
    ready = delete-IsReady c w r here;
    counts = λ k. omega (arith, owners-delete k r.id r c.regions w.unique here, pieces k);
    others = delete-Others c w r here;
  }

  halved :
      c.id + 2 < 2 ^ 64
      → ((k : Bytes)
          → count_one (region_contains r.start_key r.end_key k)
            ≡ count_one (region_contains r.start_key start k)
              + count_one (region_contains end r.end_key k)
              + lost start end r.start_key r.end_key k)
      → Step start end r c
          (add_new_region end r.end_key (put_region (update_key_range r.start_key start r) c))
  unfolding update_key_range inc_version
  halved h pieces =
      let q : Region = update_key_range r.start_key start r in
      let cut : Cluster = put_region q c in
      let others : Others r.id c cut = put-Others c w r here q refl in
      let new = added end r.end_key cut (put-IsReady c w r here q refl) h in
      record {
        after = new.0;
        is_some = new.1;
        ready = new.2;
        counts = λ k. omega (arith, put-owners c w r here q k refl, pieces k, new.3 k);
        others = record {
          same = λ i g p. new.4 i g ∙ others.same i g p;
          from_id = omega (arith, new.5);
          to_id = omega (arith, new.5);
        };
      }

  starts_left :
      on_left start r ≡ false
      → end_cmp r.end_key end ≢ gt
      → (k : Bytes) → bytes_compare r.start_key start ≡ lt
      → count_one (region_contains r.start_key r.end_key k)
        ≡ count_one (region_contains r.start_key start k) + lost start end r.start_key r.end_key k
  starts_left l q k p =
      pieces-left start end order r.start_key r.end_key k p q (starts_below start end r.end_key q l)

  starts_inside :
      on_right end r ≡ false
      → bytes_compare r.start_key start ≢ lt
      → Step start end r c (elim (end_cmp r.end_key end) [
        | gt ↦ some (put_region (update_key_range end r.end_key r) c)
        | _ ↦ some (set_regions (map_delete ◌==◌ r.id c.regions) c)
      ])
  starts_inside m p =
      let i : is_below r.start_key end ≡ true = ground arith in
      elim (Order-cases (end_cmp r.end_key end)) [
        | is_gt q ↦ rw q (
            narrowed end r.end_key
              (λ k. pieces-right start end order r.start_key r.end_key k p q i))
        | is_lt q ↦
            rw q (
              removed (λ k. pieces-inside start end order r.start_key r.end_key k p (lt_ne_gt _ q)))
        | is_eq q ↦
            rw q (
              removed (λ k. pieces-inside start end order r.start_key r.end_key k p (eq_ne_gt _ q)))
      ]

  pub evacuate_region-Step :
      on_left start r ≡ false
      → on_right end r ≡ false
      → c.id + 2 < 2 ^ 64
      → Step start end r c (evacuate_region start end r c)
  unfolding evacuate_region
  evacuate_region-Step l m h = elim (Order-cases (bytes_compare r.start_key start)) [
    | is_lt p ↦ elim (Order-cases (end_cmp r.end_key end)) [
      | is_gt q ↦
          rw (p, q, evacuate_region)
            (halved h (λ k. pieces-around start end order r.start_key r.end_key k p q))
      | is_lt q ↦
          rw (p, q, evacuate_region)
            (narrowed r.start_key start (λ k. starts_left l (lt_ne_gt _ q) k p))
      | is_eq q ↦
          rw (p, q, evacuate_region)
            (narrowed r.start_key start (λ k. starts_left l (eq_ne_gt _ q) k p))
    ]
    | is_eq p ↦ rw (p, evacuate_region) (starts_inside m (eq_ne_lt _ p))
    | is_gt p ↦ rw (p, evacuate_region) (starts_inside m (gt_ne_lt _ p))
  ]
