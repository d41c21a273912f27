-- ===== src/Cluster/Regions/Partition.antt =====
-- The regions divide the keys: Bootstrap starts a partition of the key space, Split and Merge keep it,
-- and GetRegionByKey reads it.
use mileva_db.Prelude.{
  ℕ, suc, ◌≡◌, ◌≢◌, refl, sym, ap, ◌∙◌, true, false, none, some, List, [], ◌∷◌, ◌==◌, arith,
  Bool-cases, inl, inr, length, map,
}
use mileva_db.Bytes.{Bytes, is_below, not_below_nil}
use mileva_db.Maps.{
  map_get, map_set, map_delete, IsUnique, number_IsEquality, get-set, set-IsUnique, delete-IsUnique,
}
use mileva_db.Mvcc.Scan.{region_contains}
use mileva_db.Cluster.Region.{
  Region, new_region, split_region, merge_region, update_key_range, inc_version, leader_peer,
}
use mileva_db.Cluster.Stores.{Cluster, set_regions}
use mileva_db.Cluster.Regions.{bootstrap, split_raw, merge, get_region_by_key, find_region}
use mileva_db.Cluster.Regions.Contains.{
  count_one, holds_key, owners, ends_behind, join_contains, owners-set, owners-set_absent,
  owners-delete,
}

-- Each id stands once, and each key is in exactly one region.
pub record IsPartition (c : Cluster) : Type 0 where
  pub unique : IsUnique ◌==◌ c.regions
  pub covered : (k : Bytes) → owners k c.regions ≡ 1

length-map {ℓ κ} :
    {A : Type ℓ} {B : Type κ} (f : A → B) (xs : List A) → length (map f xs) ≡ length xs
length-map f [] = refl
length-map f (x ∷ xs) = ap suc (length-map f xs)

pub new_region-some :
    (region_id : ℕ) (store_ids peer_ids : List ℕ) (leader : ℕ)
    → length store_ids ≡ length peer_ids
    → (r : Region) × (new_region region_id store_ids peer_ids leader ≡ some r)
      × (r.id ≡ region_id)
      × (r.start_key ≡ [])
      × (r.end_key ≡ [])
unfolding new_region
new_region-some region_id store_ids peer_ids leader h =
    let e : (length store_ids == length peer_ids) ≡ true = ground arith in
    rw e (_, refl, refl, refl, refl)

everything :
    (k : Bytes) (r : Region) → r.start_key ≡ [] → r.end_key ≡ [] → count_one (holds_key k r) ≡ 1
unfolding region_contains
everything k r s e = rw (s, e, not_below_nil k) refl

-- Bootstrap of a cluster without regions, with as many peers as stores, gives one region that has
-- every key.
pub bootstrap-IsPartition :
    (c : Cluster) (region_id : ℕ) (store_ids peer_ids : List ℕ) (leader : ℕ)
    → c.regions ≡ []
    → length store_ids ≡ length peer_ids
    → (after : Cluster) × (bootstrap c region_id store_ids peer_ids leader ≡ some after)
      × IsPartition after
unfolding bootstrap map_set owners
bootstrap-IsPartition c region_id store_ids peer_ids leader h l =
    let new = new_region-some region_id store_ids peer_ids leader l in
    let after : Cluster = set_regions ((region_id, new.0) ∷ []) c in
    (
      after,
      rw (new.1, h, bootstrap) refl,
      record {
        unique = (unfold map_get in refl, tt);
        covered = λ k. omega (arith, everything k new.0 new.3 new.4);
      },
    )

different_ids :
    (i j : ℕ) (r : Region) (m : List (ℕ × Region))
    → map_get ◌==◌ i m ≡ some r
    → map_get ◌==◌ j m ≡ none
    → (i == j) ≡ false
different_ids i j r m h k = elim (Bool-cases (i == j)) [
  | inl p ↦
      let e : i ≡ j = ground arith in
      let f : some r ≡ none = sym h ∙ ap (λ x. map_get ◌==◌ x m) e ∙ k in cc
  | inr p ↦ p
]

-- Split of a region that is there, with as many peers as it has, at a key that is not its start nor
-- behind its end, and under an id that is not in use, does not panic and keeps the partition.
pub split_raw-IsPartition :
    (c : Cluster) (region_id new_region_id : ℕ) (key : Bytes) (peer_ids : List ℕ) (leader : ℕ)
    → (r : Region) → IsPartition c
    → map_get ◌==◌ region_id c.regions ≡ some r
    → map_get ◌==◌ new_region_id c.regions ≡ none
    → length r.peers ≡ length peer_ids
    → key ≢ []
    → is_below key r.start_key ≡ false
    → ends_behind r.end_key key ≡ true
    → (after : Cluster) × (new : Region) × (split_raw c region_id new_region_id key peer_ids leader
        ≡ some (after, new))
      × IsPartition after
unfolding split_raw split_region update_key_range inc_version
split_raw-IsPartition c region_id new_region_id key peer_ids leader r w here free l ne low high =
    let e : (length r.peers == length peer_ids) ≡ true = ground arith in
    let new =
      new_region-some new_region_id (map (λ p. p.store_id) r.peers) peer_ids leader
        (omega (arith, l, length-map (λ p. p.store_id) r.peers)) in
    let left : Region = update_key_range r.start_key key r in
    let right : Region = update_key_range key r.end_key new.0 in
    let step : List (ℕ × Region) = map_set ◌==◌ region_id left c.regions in
    let other : (region_id == new_region_id) ≡ false =
      different_ids region_id new_region_id r c.regions here free in
    (
      set_regions (map_set ◌==◌ new_region_id right step) c,
      right,
      rw (here, e, new.1, split_raw, split_region) refl,
      record {
        unique =
            set-IsUnique ◌==◌ number_IsEquality new_region_id right step
              (set-IsUnique ◌==◌ number_IsEquality region_id left c.regions w.unique);
        covered = λ k. omega (
          arith,
          w.covered k,
          owners-set k region_id r left c.regions here,
          owners-set_absent k new_region_id right step (
              rw (get-set ◌==◌ number_IsEquality region_id new_region_id left c.regions, other)
                free),
          join_contains r.start_key key r.end_key k low high ne,
        );
      },
    )

-- Merge of a region with the one that starts at its end does not panic and keeps the partition.
pub merge-IsPartition :
    (c : Cluster) (region_id1 region_id2 : ℕ) (r1 r2 : Region)
    → IsPartition c
    → map_get ◌==◌ region_id1 c.regions ≡ some r1
    → map_get ◌==◌ region_id2 c.regions ≡ some r2
    → region_id1 ≢ region_id2
    → r1.end_key ≡ r2.start_key
    → r1.end_key ≢ []
    → is_below r1.end_key r1.start_key ≡ false
    → ends_behind r2.end_key r2.start_key ≡ true
    → (after : Cluster) × (merge c region_id1 region_id2 ≡ some after) × IsPartition after
unfolding merge merge_region inc_version
merge-IsPartition c region_id1 region_id2 r1 r2 w here there ne meet some_end low high =
    let joined : Region = merge_region r1 r2.end_key in
    let step : List (ℕ × Region) = map_set ◌==◌ region_id1 joined c.regions in
    let other : (region_id1 == region_id2) ≡ false = ground (arith, ne) in
    let still : map_get ◌==◌ region_id2 step ≡ some r2 =
      rw (get-set ◌==◌ number_IsEquality region_id1 region_id2 joined c.regions, other) there in
    let unique = set-IsUnique ◌==◌ number_IsEquality region_id1 joined c.regions w.unique in
    (
      set_regions (map_delete ◌==◌ region_id2 step) c,
      rw (there, here, merge) refl,
      record {
        unique = delete-IsUnique ◌==◌ number_IsEquality region_id2 step unique;
        covered = λ k. omega (
          arith,
          w.covered k,
          owners-set k region_id1 r1 joined c.regions here,
          owners-delete k region_id2 r2 step unique still,
          join_contains r1.start_key r1.end_key r2.end_key k low (rw meet high) some_end,
          ap (λ x. count_one (region_contains x r2.end_key k)) meet,
        );
      },
    )

-- A map that has the key in no region gives no region that has it.
no_owner :
    (k : Bytes) (m : List (ℕ × Region)) (i : ℕ) (s : Region)
    → owners k m ≡ 0
    → map_get ◌==◌ i m ≡ some s
    → holds_key k s ≡ false
unfolding owners map_get
no_owner k [] i s h g = cc
no_owner k ((j, t) ∷ m) i s h g = ground (arith, no_owner k m i s)

-- Where one region has the key, the loop of GetRegionByKey finds it, and no other region has it.
found_owner :
    (k : Bytes) (m : List (ℕ × Region))
    → owners k m ≡ 1
    → (r : Region) × (find_region (holds_key k) m ≡ some r)
      × (holds_key k r ≡ true)
      × ((i : ℕ) (s : Region) → map_get ◌==◌ i m ≡ some s → holds_key k s ≡ true → s ≡ r)
unfolding owners map_get find_region
found_owner k [] h = absurd (omega (arith, h))
found_owner k ((j, t) ∷ m) h = elim (Bool-cases (holds_key k t)) [
  | inl p ↦
      let none_left : owners k m ≡ 0 = omega (arith, h, ap count_one p) in
      (
        t,
        rw p refl,
        p,
        λ i s g q. elim (Bool-cases (j == i)) [
          | inl e ↦ ground arith
          | inr e ↦ ground (arith, no_owner k m i s none_left)
        ],
      )
  | inr p ↦
      let one : owners k m ≡ 1 = omega (arith, h, ap count_one p) in
      let rest = found_owner k m one in
      (
        rest.0,
        rw p rest.1,
        rest.2,
        λ i s g q. elim (Bool-cases (j == i)) [
          | inl e ↦ ground arith
          | inr e ↦ rest.3 i s (ground arith) q
        ],
      )
]

-- In a partition GetRegionByKey finds a region for each key: the region that has the key, which is
-- the only one, whichever the order in which the map is looked through.
pub get_region_by_key-IsPartition :
    (c : Cluster) (k : Bytes)
    → IsPartition c
    → (r : Region) × (get_region_by_key c k ≡ some (r, leader_peer r))
      × (region_contains r.start_key r.end_key k ≡ true)
      × ((i : ℕ) (s : Region)
          → map_get ◌==◌ i c.regions ≡ some s
          → region_contains s.start_key s.end_key k ≡ true
          → s ≡ r)
unfolding get_region_by_key
get_region_by_key-IsPartition c k w =
    let found = found_owner k c.regions (w.covered k) in
    (found.0, rw (found.1, get_region_by_key) refl, found.2, found.3)
