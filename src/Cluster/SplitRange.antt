-- ===== src/Cluster/SplitRange.antt =====
-- Splitting a range of keys evenly: splitRange of cluster.go and what it calls. The scan of the
-- MVCCStore, an interface, is an argument, and so are the prefixes of blockcodec, which is not in
-- the repository. A `none` is a panic.
pub mod Groups
pub mod Create
pub mod Evacuate
use mileva_db.Prelude.{
  ℕ, zero, suc, ◌+◌, ◌-◌, ◌/◌, ◌%◌, ◌≡◌, Bool, true, false, not, ◌&&◌, ◌||◌, Option, none, some,
  List, [], ◌∷◌, ◌++◌, ◌==◌, if◌then◌else◌, length, ltb, take, drop, lt, gt, eq, Ordering, map,
}
use mileva_db.Bytes.{Bytes, bytes_compare, is_below}
use mileva_db.Maps.{map_set, map_delete}
use mileva_db.Mvcc.Env.{Env}
use mileva_db.Mvcc.Scan.{new_mvcc_key, raw_key}
use mileva_db.Mvcc.Reads.{Pair}
use mileva_db.Solomonkey.Key.{prefix_next}
use mileva_db.Cluster.Region.{Region, new_region, update_key_range}
use mileva_db.Cluster.Stores.{Cluster, set_regions, alloc_id, first_store_id}

-- getRegionsCoverRange
-- An empty end is not before any key.
abbrev pub ends_before : Bytes → Bytes → Bool
ends_before start [] = false
ends_before start (b ∷ bs) = not (is_below start (b ∷ bs))

abbrev pub on_left : Bytes → Region → Bool
on_left start r = ends_before start r.end_key

abbrev pub on_right : Bytes → Region → Bool
on_right end r = not (is_below r.start_key end)

unfoldable pub regions_cover_range : (start end : Bytes) → List (ℕ × Region) → List Region
regions_cover_range start end [] = []
regions_cover_range start end ((i, r) ∷ m) =
    let rest = regions_cover_range start end m in
    if on_left start r || on_right end r then rest else r ∷ rest

-- `endCmp`: an empty end is behind every key.
abbrev pub end_cmp : Bytes → Bytes → Ordering
end_cmp [] end = gt
end_cmp (b ∷ bs) end = bytes_compare (b ∷ bs) end

-- A write through the pointer of a region of the map, which stands under its id.
abbrev pub put_region : Region → Cluster → Cluster
put_region r c = set_regions (map_set ◌==◌ r.id r c.regions) c

-- `peerID := c.allocID()`, then a region with that peer on the first store, in a range.
unfoldable pub add_new_region : (start end : Bytes) → Cluster → Option Cluster
add_new_region start end c =
    let p = alloc_id c in
    let r = alloc_id p.1 in
    elim (new_region r.0 (first_store_id r.1 ∷ []) (p.0 ∷ []) p.0) [
      | none ↦ none
      | some region ↦ some (put_region (update_key_range start end region) r.1)
    ]

-- The body of the loop of evacuateOldRegionRanges.
unfoldable pub evacuate_region : (start end : Bytes) → Region → Cluster → Option Cluster
evacuate_region start end r c = elim (bytes_compare r.start_key start) [
  | lt ↦ elim (end_cmp r.end_key end) [
    | gt ↦ add_new_region end r.end_key (put_region (update_key_range r.start_key start r) c)
    | _ ↦ some (put_region (update_key_range r.start_key start r) c)
  ]
  | _ ↦ elim (end_cmp r.end_key end) [
    | gt ↦ some (put_region (update_key_range end r.end_key r) c)
    | _ ↦ some (set_regions (map_delete ◌==◌ r.id c.regions) c)
  ]
]

unfoldable pub evacuate_loop : (start end : Bytes) → List Region → Cluster → Option Cluster
evacuate_loop start end [] c = some c
evacuate_loop start end (r ∷ rs) c = elim (evacuate_region start end r c) [
  | none ↦ none
  | some after ↦ evacuate_loop start end rs after
]

unfoldable pub evacuate_old_region_ranges : (start end : Bytes) → Cluster → Option Cluster
evacuate_old_region_ranges start end c =
    evacuate_loop start end (regions_cover_range start end c.regions) c

-- The loop of getEntriesGroupByRegions over the pairs that are left, on fuel.
unfoldable pub group_loop : ℕ → (quotient remainder : ℕ) → List Pair → List (List Pair)
group_loop fuel quotient remainder [] = []
group_loop zero quotient remainder (p ∷ pairs) = []
group_loop (suc fuel) quotient remainder (p ∷ pairs) =
    let size : ℕ = if ltb 0 remainder then quotient + 1 else quotient in
    let rest = group_loop fuel quotient (remainder - 1) (drop size (p ∷ pairs)) in
    take size (p ∷ pairs) ∷ rest

-- getEntriesGroupByRegions; it divides by the count.
unfoldable pub entries_group_by_regions : List Pair → (count : ℕ) → Option (List (List Pair))
entries_group_by_regions pairs zero = none
entries_group_by_regions pairs (suc n) =
    some (group_loop (length pairs) (length pairs / suc n) (length pairs % suc n) pairs)

module _ (e : Env) where
  -- The loop of createNewRegions, where the next region is to start at `from`.
  unfoldable pub create_loop : (from end : Bytes) → List (List Pair) → Cluster → Option Cluster
  create_loop from end [] c = some c
  create_loop from end (g ∷ []) c = add_new_region from end c
  create_loop from end (g ∷ [] ∷ gs) c = none
  create_loop from end (g ∷ (p ∷ ps) ∷ gs) c = elim (add_new_region from (new_mvcc_key e p.key) c) [
    | none ↦ none
    | some after ↦ create_loop (new_mvcc_key e p.key) end ((p ∷ ps) ∷ gs) after
  ]

  module _ (mvcc_scan : (start end : Bytes) → List Pair) where
    unfoldable pub split_range : Cluster → (start end : Bytes) → (count : ℕ) → Option Cluster
    split_range c start end count = elim (evacuate_old_region_ranges start end c) [
      | none ↦ none
      | some evacuated ↦ elim (raw_key e start) [
        | none ↦ none
        | some from ↦ elim (raw_key e end) [
          | none ↦ none
          | some to ↦ elim (entries_group_by_regions (mvcc_scan from to) count) [
            | none ↦ none
            | some groups ↦ create_loop start end groups evacuated
          ]
        ]
      ]
    ]

    unfoldable pub split_keys : Cluster → (start end : Bytes) → (count : ℕ) → Option Cluster
    split_keys c start end count = split_range c (new_mvcc_key e start) (new_mvcc_key e end) count

    -- SplitTable and SplitIndex, by the prefix that blockcodec gives for a table or an index
    unfoldable pub split_prefix : Cluster → (prefix : Bytes) → (count : ℕ) → Option Cluster
    split_prefix c prefix count = split_keys c prefix (prefix_next prefix) count
