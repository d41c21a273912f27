-- ===== src/Cluster/SplitRange/Evacuate/Loop.antt =====
-- What one round of the loop of evacuateOldRegionRanges does to the cluster.
use mathlib.Core.Path.{subst}
use mileva_db.Prelude.{
  ℕ, ◌+◌, ◌≤◌, ◌<◌, ◌%◌, ◌^◌, ◌≡◌, refl, sym, ap, ◌∙◌, false, none, some, [], ◌∷◌, ◌==◌, ltb,
  if◌then◌else◌, arith, Bool-cases, inl, inr,
}
use mileva_db.Bytes.{Bytes}
use mileva_db.Maps.{
  map_get, map_set, map_delete, IsUnique, number_IsEquality, get-set, get-delete, set-IsUnique,
  delete-IsUnique,
}
use mileva_db.Mvcc.Scan.{region_contains}
use mileva_db.Cluster.Region.{Region, new_region, new_peers, update_key_range, inc_version}
use mileva_db.Cluster.Stores.{Cluster, set_regions, alloc_id, first_store_id}
use mileva_db.Cluster.SplitRange.{put_region, add_new_region}
use mileva_db.Cluster.Regions.Contains.{count_one, holds_key, owners, owners-set, owners-set_absent}

-- Each region stands once, under its own id, and the ids that are still to be allocated are free.
pub record IsReady (c : Cluster) : Type 0 where
  pub unique : IsUnique ◌==◌ c.regions
  pub keyed : (i : ℕ) (r : Region) → map_get ◌==◌ i c.regions ≡ some r → r.id ≡ i
  pub fresh : (i : ℕ) → c.id < i → map_get ◌==◌ i c.regions ≡ none

-- Between two states of the cluster: the regions other than `id` are there as before, and at most
-- two ids were allocated.
pub record Others (id : ℕ) (c after : Cluster) : Type 0 where
  pub same :
      (i : ℕ)
      → i ≤ c.id
      → (id == i) ≡ false
      → map_get ◌==◌ i after.regions ≡ map_get ◌==◌ i c.regions
  pub from_id : c.id ≤ after.id
  pub to_id : after.id ≤ c.id + 2

module _ (c : Cluster) (w : IsReady c) (r : Region)
    (here : map_get ◌==◌ r.id c.regions ≡ some r) where
  put_get :
      (q : Region) (i : ℕ)
      → map_get ◌==◌ i (put_region q c).regions
        ≡ (if q.id == i then some q else map_get ◌==◌ i c.regions)
  put_get q i = get-set ◌==◌ number_IsEquality q.id i q c.regions

  pub id_in_use : r.id ≤ c.id
  id_in_use = elim (Bool-cases (ltb c.id r.id)) [
    | inl p ↦ ground (arith, w.fresh r.id)
    | inr p ↦ ground arith
  ]

  pub put-IsReady : (q : Region) → q.id ≡ r.id → IsReady (put_region q c)
  put-IsReady q e = record {
    unique = set-IsUnique ◌==◌ number_IsEquality q.id q c.regions w.unique;
    keyed = λ i t h. ground (arith, put_get q i, w.keyed i t);
    fresh = λ i h. ground (arith, put_get q i, w.fresh i, id_in_use);
  }

  pub put-Others : (q : Region) → q.id ≡ r.id → Others r.id c (put_region q c)
  put-Others q e = record {
    same = λ i h p. ground (arith, put_get q i);
    from_id = omega arith;
    to_id = omega arith;
  }

  pub put-owners :
      (q : Region) (k : Bytes)
      → q.id ≡ r.id
      → owners k (put_region q c).regions + count_one (holds_key k r)
        ≡ owners k c.regions + count_one (holds_key k q)
  put-owners q k e = owners-set k q.id r q c.regions (rw e here)

  pub delete-IsReady : IsReady (set_regions (map_delete ◌==◌ r.id c.regions) c)
  delete-IsReady = record {
    unique = delete-IsUnique ◌==◌ number_IsEquality r.id c.regions w.unique;
    keyed =
        λ i t h. ground (arith, get-delete ◌==◌ number_IsEquality r.id i c.regions, w.keyed i t);
    fresh = λ i h. ground (arith, get-delete ◌==◌ number_IsEquality r.id i c.regions, w.fresh i);
  }

  pub delete-Others : Others r.id c (set_regions (map_delete ◌==◌ r.id c.regions) c)
  delete-Others = record {
    same = λ i h p. ground (arith, get-delete ◌==◌ number_IsEquality r.id i c.regions);
    from_id = omega arith;
    to_id = omega arith;
  }

module _ (c : Cluster) (w : IsReady c) (q : Region) (e : q.id ≡ c.id + 2) (after : Cluster) where
  abbrev IsAdded : Type 0
  IsAdded = (after.regions ≡ map_set ◌==◌ q.id q c.regions) × (after.id ≡ c.id + 2)

  added_get :
      (i : ℕ)
      → IsAdded
      → map_get ◌==◌ i after.regions ≡ (if q.id == i then some q else map_get ◌==◌ i c.regions)
  added_get i h = ap (map_get ◌==◌ i) h.0 ∙ get-set ◌==◌ number_IsEquality q.id i q c.regions

  added-IsReady : IsAdded → IsReady after
  added-IsReady h = record {
    unique =
        subst (IsUnique ◌==◌) (sym h.0)
          (set-IsUnique ◌==◌ number_IsEquality q.id q c.regions w.unique);
    keyed = λ i t g. ground (arith, added_get i h, w.keyed i t);
    fresh = λ i g. ground (arith, added_get i h, w.fresh i, h.1);
  }

  added-owners :
      (k : Bytes)
      → IsAdded
      → owners k after.regions ≡ owners k c.regions + count_one (holds_key k q)
  added-owners k h =
      ap (owners k) h.0
      ∙ owners-set_absent k q.id q c.regions (rw e (w.fresh (c.id + 2) (omega arith)))

-- A new region stands under the second id that is allocated.
pub added :
    (start end : Bytes) (c : Cluster)
    → IsReady c
    → c.id + 2 < 2 ^ 64
    → (after : Cluster) × (add_new_region start end c ≡ some after)
      × IsReady after
      × ((k : Bytes)
          → owners k after.regions ≡ owners k c.regions + count_one (region_contains start end k))
      × ((i : ℕ) → i ≤ c.id → map_get ◌==◌ i after.regions ≡ map_get ◌==◌ i c.regions)
      × (after.id ≡ c.id + 2)
unfolding add_new_region alloc_id new_region update_key_range inc_version
added start end c w h =
    let two : ((c.id + 1) % 2 ^ 64 + 1) % 2 ^ 64 ≡ c.id + 2 = omega (arith, h) in
    let moved : Cluster = record {
      id = ((c.id + 1) % 2 ^ 64 + 1) % 2 ^ 64;
      stores = c.stores;
      regions = c.regions;
      delay_events = c.delay_events;
    } in
    let q : Region = update_key_range start end record {
      id = ((c.id + 1) % 2 ^ 64 + 1) % 2 ^ 64;
      start_key = [];
      end_key = [];
      peers = new_peers (first_store_id moved ∷ []) ((c.id + 1) % 2 ^ 64 ∷ []);
      conf_ver = 0;
      version = 0;
      leader = (c.id + 1) % 2 ^ 64;
    } in
    let after : Cluster = put_region q moved in
    (
      after,
      refl,
      added-IsReady c w q two after (refl, two),
      λ k. added-owners c w q two after k (refl, two),
      λ i g. ground (arith, added_get c w q two after i (refl, two), two),
      two,
    )
