-- ===== src/Cluster/Regions.antt =====
-- The regions of the cluster: lookups, peers, splits and merges. A `none` of a whole answer is a
-- panic, by a region that is not there or by lists of different lengths.
pub mod Contains
pub mod Partition
pub mod Peers
use mileva_db.Prelude.{
  ℕ, zero, suc, ◌+◌, ◌-◌, ◌/◌, ◌≡◌, Bool, true, false, not, ◌&&◌, Option, none, some, List, [], ◌∷◌,
  ◌++◌, ◌==◌, if◌then◌else◌, map, length, ltb, take, drop, lt, gt, eq,
}
use mileva_db.Bytes.{Bytes, bytes_equal, bytes_compare, is_below}
use mileva_db.Maps.{map_get, map_set, map_delete}
use mileva_db.Mvcc.Env.{Env}
use mileva_db.Mvcc.Scan.{region_contains, new_mvcc_key}
use mileva_db.Cluster.Region.{
  Peer, Region, new_region, add_peer, remove_peer, change_leader, leader_peer, split_region,
  merge_region,
}
use mileva_db.Cluster.Stores.{Cluster, set_regions, alloc_id, alloc_ids, add_store}

unfoldable pub get_all_regions : Cluster → List Region
get_all_regions c = map (λ p. p.1) c.regions

unfoldable pub get_region : Cluster → ℕ → Option (Region × ℕ)
get_region c region_id = elim (map_get ◌==◌ region_id c.regions) [
  | none ↦ none
  | some r ↦ some (r, r.leader)
]

unfoldable pub find_region : (Region → Bool) → List (ℕ × Region) → Option Region
find_region test [] = none
find_region test ((k, r) ∷ regions) = if test r then some r else find_region test regions

abbrev pub with_leader : Option Region → Option (Region × Option Peer)
with_leader none = none
with_leader (some r) = some (r, leader_peer r)

unfoldable pub get_region_by_key : Cluster → Bytes → Option (Region × Option Peer)
get_region_by_key c key =
    with_leader (find_region (λ r. region_contains r.start_key r.end_key key) c.regions)

-- The answer in front of the panic on a nil region; an answer of nil is `some none`.
unfoldable pub prev_region : Cluster → Region → Option (Region × Option Peer)
prev_region c current = elim current.start_key [
  | [] ↦ none
  | b ∷ bs ↦ with_leader (find_region (λ r. bytes_equal r.end_key current.start_key) c.regions)
]

unfoldable pub get_prev_region_by_key : Cluster → Bytes → Option (Option (Region × Option Peer))
get_prev_region_by_key c key = elim (get_region_by_key c key) [
  | none ↦ none
  | some (current, leader) ↦ some (prev_region c current)
]

unfoldable pub get_region_by_id : Cluster → ℕ → Option (Region × Option Peer)
get_region_by_id c region_id = with_leader (find_region (λ r. r.id == region_id) c.regions)

-- sort.Slice by the start key: the order of regions with one start key is left open.
unfoldable pub insert_by_start : Region → List Region → List Region
insert_by_start r [] = r ∷ []
insert_by_start r (s ∷ regions) =
    let rest = insert_by_start r regions in
    if is_below r.start_key s.start_key then r ∷ s ∷ regions else s ∷ rest

unfoldable pub sort_by_start : List Region → List Region
sort_by_start [] = []
sort_by_start (r ∷ regions) = insert_by_start r (sort_by_start regions)

-- sort.Search: the binary search for the first index in [i, j) at which the test holds.
unfoldable pub test_at : (Region → Bool) → ℕ → List Region → Bool
test_at test n [] = true
test_at test zero (r ∷ regions) = test r
test_at test (suc n) (r ∷ regions) = test_at test n regions

unfoldable pub search_loop : ℕ → (Region → Bool) → List Region → (i j : ℕ) → ℕ
search_loop zero test regions i j = i
search_loop (suc fuel) test regions i j =
    let h = (i + j) / 2 in
    let below = test_at test h regions in
    let found =
      search_loop fuel test regions (if below then i else h + 1) (if below then h else j) in
    if ltb i j then found else i

unfoldable pub search_regions : (Region → Bool) → List Region → ℕ
search_regions test regions = search_loop (length regions) test regions 0 (length regions)

abbrev pub ends_after : Bytes → Region → Bool
ends_after start_key r = elim r.end_key [ [] ↦ true | b ∷ bs ↦ is_below start_key r.end_key ]

unfoldable pub cut_at_end : Bytes → List Region → List Region
cut_at_end [] regions = regions
cut_at_end (b ∷ bs) regions =
    elim (search_regions (λ r. not (is_below r.start_key (b ∷ bs))) regions) [
      | zero ↦ regions
      | suc n ↦ take (suc n) regions
    ]

unfoldable pub cut_to_limit : ℕ → List Region → List Region
cut_to_limit limit regions =
    if ltb 0 limit && ltb limit (length regions) then take limit regions else regions

-- The leader that a region with none is given.
abbrev pub leader_or_empty : Option Peer → Peer
leader_or_empty none = record { id = 0; store_id = 0 }
leader_or_empty (some p) = p

unfoldable pub scan_regions : Cluster → (start_key end_key : Bytes) → ℕ → List (Region × Peer)
scan_regions c start_key end_key limit =
    let sorted = sort_by_start (get_all_regions c) in
    let behind = drop (search_regions (ends_after start_key) sorted) sorted in
    map (λ r. (r, leader_or_empty (leader_peer r))) (cut_to_limit limit (cut_at_end end_key behind))

unfoldable pub bootstrap : Cluster → ℕ → (store_ids peer_ids : List ℕ) → ℕ → Option Cluster
bootstrap c region_id store_ids peer_ids leader_peer_id =
    elim (new_region region_id store_ids peer_ids leader_peer_id) [
      | none ↦ none
      | some r ↦ some (set_regions (map_set ◌==◌ region_id r c.regions) c)
    ]

-- A call of a method on c.regions[regionID].
unfoldable pub modify_region : ℕ → (Region → Region) → Cluster → Option Cluster
modify_region region_id f c = elim (map_get ◌==◌ region_id c.regions) [
  | none ↦ none
  | some r ↦ some (set_regions (map_set ◌==◌ region_id (f r) c.regions) c)
]

unfoldable pub add_region_peer : Cluster → (region_id store_id peer_id : ℕ) → Option Cluster
add_region_peer c region_id store_id peer_id =
    modify_region region_id (λ r. add_peer r peer_id store_id) c

unfoldable pub remove_region_peer : Cluster → (region_id store_id : ℕ) → Option Cluster
remove_region_peer c region_id store_id = modify_region region_id (λ r. remove_peer r store_id) c

unfoldable pub change_region_leader : Cluster → (region_id leader_peer_id : ℕ) → Option Cluster
change_region_leader c region_id leader_peer_id =
    modify_region region_id (λ r. change_leader r leader_peer_id) c

unfoldable pub give_up_leader : Cluster → ℕ → Option Cluster
give_up_leader c region_id = change_region_leader c region_id 0

unfoldable pub split_raw :
    Cluster → (region_id new_region_id : ℕ) → Bytes → List ℕ → ℕ → Option (Cluster × Region)
split_raw c region_id new_region_id raw_key peer_ids leader_peer_id =
    elim (map_get ◌==◌ region_id c.regions) [
      | none ↦ none
      | some r ↦ elim (split_region r new_region_id raw_key peer_ids leader_peer_id) [
        | none ↦ none
        | some (old, region) ↦ some (
          set_regions (map_set ◌==◌ new_region_id region (map_set ◌==◌ region_id old c.regions)) c,
          region,
        )
      ]
    ]

-- The end of the second region is read before the first is changed.
unfoldable pub merge : Cluster → (region_id1 region_id2 : ℕ) → Option Cluster
merge c region_id1 region_id2 = elim (map_get ◌==◌ region_id2 c.regions) [
  | none ↦ none
  | some r2 ↦ elim (map_get ◌==◌ region_id1 c.regions) [
    | none ↦ none
    | some r1 ↦ some (
        set_regions
          (map_delete ◌==◌ region_id2
            (map_set ◌==◌ region_id1 (merge_region r1 r2.end_key) c.regions))
          c)
  ]
]

module _ (e : Env) where
  unfoldable pub split :
      Cluster → (region_id new_region_id : ℕ) → Bytes → List ℕ → ℕ → Option Cluster
  split c region_id new_region_id key peer_ids leader_peer_id =
      elim (split_raw c region_id new_region_id (new_mvcc_key e key) peer_ids leader_peer_id) [
        | none ↦ none
        | some (after, region) ↦ some after
      ]

-- cluster_manipulate.go, with `fmt.Sprintf("causetstore%d", storeID)` as a function of the id.
module _ (store_name : ℕ → Bytes) where
  unfoldable pub bootstrap_with_single_store : Cluster → Option ((ℕ × ℕ × ℕ) × Cluster)
  bootstrap_with_single_store c =
      let s = alloc_id c in
      let p = alloc_id s.1 in
      let r = alloc_id p.1 in
      elim (bootstrap (add_store r.1 s.0 (store_name s.0)) r.0 (s.0 ∷ []) (p.0 ∷ []) p.0) [
        | none ↦ none
        | some after ↦ some ((s.0, p.0, r.0), after)
      ]

  abbrev pub add_stores : List ℕ → Cluster → Cluster
  add_stores [] c = c
  add_stores (s ∷ ss) c = add_stores ss (add_store c s (store_name s))

  -- With no store it panics, at peerIDs[0].
  unfoldable pub bootstrap_with_multi_stores :
      Cluster → ℕ → Option ((List ℕ × List ℕ × ℕ × ℕ) × Cluster)
  bootstrap_with_multi_stores c n =
      let ss = alloc_ids n c in
      let ps = alloc_ids n ss.1 in
      elim ps.0 [
        | [] ↦ none
        | leader ∷ more ↦
            let r = alloc_id ps.1 in
            elim (bootstrap (add_stores ss.0 r.1) r.0 ss.0 ps.0 leader) [
              | none ↦ none
              | some after ↦ some ((ss.0, ps.0, r.0, leader), after)
            ]
      ]

  -- The splits of BootstrapWithMultiRegions, each of the region that the one before has made.
  unfoldable pub split_all :
      Env
      → List Bytes
      → ℕ
      → (region_ids : List ℕ) → ℕ
      → (peer_ids : List ℕ) → Cluster
      → Option Cluster
  split_all e [] region_id region_ids peer_id peer_ids c = some c
  split_all e (k ∷ ks) region_id [] peer_id peer_ids c = none
  split_all e (k ∷ ks) region_id (r ∷ rs) peer_id [] c = none
  split_all e (k ∷ ks) region_id (r ∷ rs) peer_id (p ∷ ps) c =
      elim (split e c region_id r k (peer_id ∷ []) peer_id) [
        | none ↦ none
        | some after ↦ split_all e ks r rs p ps after
      ]

  unfoldable pub bootstrap_with_multi_regions :
      Env → Cluster → List Bytes → Option ((ℕ × List ℕ × List ℕ) × Cluster)
  bootstrap_with_multi_regions e c split_keys = elim (bootstrap_with_single_store c) [
    | none ↦ none
    | some ((store_id, peer_id, region_id), c1) ↦
        let rs = alloc_ids (length split_keys) c1 in
        let ps = alloc_ids (length split_keys) rs.1 in
        elim (split_all e split_keys region_id rs.0 peer_id ps.0 ps.1) [
          | none ↦ none
          | some after ↦ some ((store_id, region_id ∷ rs.0, peer_id ∷ ps.0), after)
        ]
  ]
