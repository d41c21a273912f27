-- ===== src/Tests/Cluster.antt =====
-- The theorems on the cluster at concrete inputs.
use mileva_db.Prelude.{
  ℕ, ◌+◌, ◌*◌, ◌/◌, ◌≡◌, ◌≤◌, refl, true, none, some, List, [], ◌∷◌, length, All, arith,
  if◌then◌else◌, ltb, ◌==◌,
}
use mileva_db.Bytes.{Bytes, bytes_compare, not_below_nil}
use mileva_db.Maps.{map_get}
use mileva_db.Mvcc.Scan.{region_contains, new_mvcc_key, raw_key}
use mileva_db.Mvcc.Reads.{Pair}
use mileva_db.Mvcc.Sample.{sample_env}
use mileva_db.Cluster.Region.{Peer, Region, leader_peer}
use mileva_db.Cluster.Stores.{Cluster, new_cluster}
use mileva_db.Cluster.Regions.{bootstrap, split_raw, merge, get_region_by_key}
use mileva_db.Cluster.Regions.Contains.{owners}
use mileva_db.Cluster.Regions.Partition.{
  IsPartition, bootstrap-IsPartition, split_raw-IsPartition, merge-IsPartition,
  get_region_by_key-IsPartition,
}
use mileva_db.Cluster.SplitRange.{evacuate_old_region_ranges, entries_group_by_regions, split_range}
use mileva_db.Cluster.SplitRange.Groups.{concat_groups, EvenSize, entries_group_by_regions-concat}
use mileva_db.Cluster.SplitRange.Evacuate.Loop.{IsReady}
use mileva_db.Cluster.SplitRange.Evacuate.Range.{evacuate_old_region_ranges-owners}
use mileva_db.Cluster.SplitRange.Create.{split_range-IsPartition, split_range-no_pairs}

bootstrap-IsPartition_example :
    (after : Cluster) × (bootstrap new_cluster 3 (1 ∷ []) (2 ∷ []) 2 ≡ some after)
    × IsPartition after
bootstrap-IsPartition_example = bootstrap-IsPartition new_cluster 3 (1 ∷ []) (2 ∷ []) 2 refl refl

abbrev the_peer : Peer
the_peer = record { id = 2; store_id = 1 }

-- A region that has every key, and a cluster of it.
abbrev whole : Region
whole = record {
  id = 3;
  start_key = [];
  end_key = [];
  peers = the_peer ∷ [];
  conf_ver = 0;
  version = 0;
  leader = 2;
}

abbrev one_region : Cluster
one_region = record { id = 3; stores = []; regions = (3, whole) ∷ []; delay_events = [] }

one_region-IsPartition : IsPartition one_region
unfolding owners region_contains
one_region-IsPartition = record {
  unique = (unfold map_get in refl, tt);
  covered = λ k. rw (not_below_nil k) refl;
}

one_region-IsReady : IsReady one_region
unfolding map_get
one_region-IsReady = record {
  unique = (refl, tt);
  keyed = λ i r h. ground arith;
  fresh = λ i h. ground arith;
}

abbrev left_half : Region
left_half = record {
  id = 3;
  start_key = [];
  end_key = 5 ∷ [];
  peers = the_peer ∷ [];
  conf_ver = 0;
  version = 1;
  leader = 2;
}

abbrev right_half : Region
right_half = record {
  id = 4;
  start_key = 5 ∷ [];
  end_key = [];
  peers = the_peer ∷ [];
  conf_ver = 0;
  version = 1;
  leader = 2;
}

abbrev two_regions : Cluster
two_regions = record {
  id = 4;
  stores = [];
  regions = (3, left_half) ∷ (4, right_half) ∷ [];
  delay_events = [];
}

two_regions-IsPartition : IsPartition two_regions
unfolding owners region_contains
two_regions-IsPartition = record {
  unique = (unfold map_get in refl, (unfold map_get in refl, tt));
  covered = λ k. ground (arith, not_below_nil k);
}

split_raw-IsPartition_example :
    (after : Cluster) × (new : Region) × (split_raw one_region 3 4 (5 ∷ []) (6 ∷ []) 6
      ≡ some (after, new))
    × IsPartition after
split_raw-IsPartition_example =
    split_raw-IsPartition one_region 3 4 (5 ∷ []) (6 ∷ []) 6 whole one_region-IsPartition
      (unfold map_get in refl) (unfold map_get in refl) refl (λ h. cc)
      (unfold bytes_compare in refl) refl

merge-IsPartition_example :
    (after : Cluster) × (merge two_regions 3 4 ≡ some after) × IsPartition after
merge-IsPartition_example =
    merge-IsPartition two_regions 3 4 left_half right_half two_regions-IsPartition
      (unfold map_get in refl) (unfold map_get in refl) (λ h. omega (arith, h)) refl (λ h. cc)
      (unfold bytes_compare in refl) refl

get_region_by_key-IsPartition_example :
    (r : Region) × (get_region_by_key two_regions (6 ∷ []) ≡ some (r, leader_peer r))
    × (region_contains r.start_key r.end_key (6 ∷ []) ≡ true)
    × ((i : ℕ) (s : Region)
        → map_get ◌==◌ i two_regions.regions ≡ some s
        → region_contains s.start_key s.end_key (6 ∷ []) ≡ true
        → s ≡ r)
get_region_by_key-IsPartition_example =
    get_region_by_key-IsPartition two_regions (6 ∷ []) two_regions-IsPartition

evacuate_old_region_ranges-owners_example :
    (after : Cluster) × (evacuate_old_region_ranges (5 ∷ []) (7 ∷ []) one_region ≡ some after)
    × IsReady after
    × ((k : Bytes)
        → owners k after.regions
          ≡ (if region_contains (5 ∷ []) (7 ∷ []) k then 0 else owners k ((3, whole) ∷ [])))
    × (after.id ≤ 3 + 2 * 1)
evacuate_old_region_ranges-owners_example =
    evacuate_old_region_ranges-owners (5 ∷ []) (7 ∷ []) one_region (unfold bytes_compare in refl)
      one_region-IsReady (omega arith)

abbrev pair_at : ℕ → Pair
pair_at n = record { key = n ∷ []; value = some []; error = none }

abbrev three_pairs : List Pair
three_pairs = pair_at 5 ∷ pair_at 6 ∷ pair_at 7 ∷ []

entries_group_by_regions-concat_example :
    (gs : List (List Pair)) × (entries_group_by_regions three_pairs 2 ≡ some gs)
    × (concat_groups gs ≡ three_pairs)
    × All (EvenSize (3 / 2)) gs
    × (length gs ≡ (if ltb 3 2 then 3 else 2))
entries_group_by_regions-concat_example = entries_group_by_regions-concat three_pairs 1

-- The encoded range from 5 to 9 of the sample codec.
abbrev range_start : Bytes
range_start = 1 ∷ 5 ∷ 0 ∷ []

abbrev range_end : Bytes
range_end = 1 ∷ 9 ∷ 0 ∷ []

split_range-IsPartition_example :
    (after : Cluster) × (split_range sample_env
        (λ from to. three_pairs)
        one_region
        range_start
        range_end
        2
      ≡ some after)
    × IsPartition after
unfolding new_mvcc_key raw_key bytes_compare
split_range-IsPartition_example =
    split_range-IsPartition sample_env (λ from to. three_pairs) one_region range_start range_end
      (5 ∷ []) (9 ∷ []) 1 (pair_at 5) (pair_at 6 ∷ pair_at 7 ∷ []) one_region-IsReady
      one_region-IsPartition refl refl refl refl (refl, refl, (refl, refl, (refl, refl, tt)))
      (omega arith)

split_range-no_pairs_example :
    (after : Cluster) × (split_range sample_env (λ from to. []) one_region range_start range_end 2
      ≡ some after)
    × ((k : Bytes)
        → owners k after.regions
          ≡ (if region_contains range_start range_end k then 0 else owners k ((3, whole) ∷ [])))
unfolding raw_key bytes_compare
split_range-no_pairs_example =
    split_range-no_pairs sample_env (λ from to. []) one_region range_start range_end (5 ∷ [])
      (9 ∷ []) 1 one_region-IsReady refl refl refl refl (omega arith)
