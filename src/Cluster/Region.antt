-- ===== src/Cluster/Region.antt =====
-- A region and its peers: the end of cluster.go. Ids, epochs and versions are uint64, with the
-- wrap-around written out; a `none` is a panic.
use mileva_db.Prelude.{
  ℕ, ◌+◌, ◌%◌, ◌^◌, Option, none, some, List, [], ◌∷◌, ◌++◌, map, length, ◌==◌, if◌then◌else◌,
}
use mileva_db.Bytes.{Bytes}

-- metapb.Peer, generated: the fields that the source sets.
pub record Peer : Type 0 where
  pub id : ℕ
  pub store_id : ℕ

-- Region, with the fields of its metapb.Region and of the epoch in that.
pub record Region : Type 0 where
  pub id : ℕ
  pub start_key : Bytes
  pub end_key : Bytes
  pub peers : List Peer
  pub conf_ver : ℕ
  pub version : ℕ
  pub leader : ℕ

-- newPeerMeta, for each index
unfoldable pub new_peers : (store_ids peer_ids : List ℕ) → List Peer
new_peers [] ps = []
new_peers (s ∷ ss) [] = []
new_peers (s ∷ ss) (p ∷ ps) = record { id = p; store_id = s } ∷ new_peers ss ps

unfoldable pub new_region : ℕ → (store_ids peer_ids : List ℕ) → ℕ → Option Region
new_region region_id store_ids peer_ids leader_peer_id =
    if length store_ids == length peer_ids
    then some record {
      id = region_id;
      start_key = [];
      end_key = [];
      peers = new_peers store_ids peer_ids;
      conf_ver = 0;
      version = 0;
      leader = leader_peer_id;
    }
    else none

unfoldable pub inc_conf_ver : Region → Region
inc_conf_ver r = record {
  id = r.id;
  start_key = r.start_key;
  end_key = r.end_key;
  peers = r.peers;
  conf_ver = (r.conf_ver + 1) % 2 ^ 64;
  version = r.version;
  leader = r.leader;
}

unfoldable pub inc_version : Region → Region
inc_version r = record {
  id = r.id;
  start_key = r.start_key;
  end_key = r.end_key;
  peers = r.peers;
  conf_ver = r.conf_ver;
  version = (r.version + 1) % 2 ^ 64;
  leader = r.leader;
}

abbrev pub set_peers : List Peer → ℕ → Region → Region
set_peers ps leader r = record {
  id = r.id;
  start_key = r.start_key;
  end_key = r.end_key;
  peers = ps;
  conf_ver = r.conf_ver;
  version = r.version;
  leader = leader;
}

abbrev pub set_range : (start_key end_key : Bytes) → Region → Region
set_range start_key end_key r = record {
  id = r.id;
  start_key = start_key;
  end_key = end_key;
  peers = r.peers;
  conf_ver = r.conf_ver;
  version = r.version;
  leader = r.leader;
}

-- Region.uFIDelateKeyRange
unfoldable pub update_key_range : (start_key end_key : Bytes) → Region → Region
update_key_range start_key end_key r = inc_version (set_range start_key end_key r)

unfoldable pub add_peer : Region → (peer_id store_id : ℕ) → Region
add_peer r peer_id store_id =
    inc_conf_ver
      (set_peers (r.peers ++ (record { id = peer_id; store_id = store_id } ∷ [])) r.leader r)

-- The first peer with the id goes.
unfoldable pub drop_peer : ℕ → List Peer → List Peer
drop_peer peer_id [] = []
drop_peer peer_id (p ∷ ps) =
    let rest = drop_peer peer_id ps in if p.id == peer_id then ps else p ∷ rest

unfoldable pub remove_peer : Region → (peer_id : ℕ) → Region
remove_peer r peer_id =
    inc_conf_ver
      (set_peers (drop_peer peer_id r.peers) (if r.leader == peer_id then 0 else r.leader) r)

unfoldable pub change_leader : Region → ℕ → Region
change_leader r leader_id = set_peers r.peers leader_id r

unfoldable pub find_peer : ℕ → List Peer → Option Peer
find_peer peer_id [] = none
find_peer peer_id (p ∷ ps) = if p.id == peer_id then some p else find_peer peer_id ps

unfoldable pub leader_peer : Region → Option Peer
leader_peer r = find_peer r.leader r.peers

-- Region.split: the region that stays, and the new one behind the key.
unfoldable pub split_region : Region → ℕ → Bytes → List ℕ → ℕ → Option (Region × Region)
split_region r new_region_id key peer_ids leader_peer_id =
    if length r.peers == length peer_ids
    then elim (new_region new_region_id (map (λ p. p.store_id) r.peers) peer_ids leader_peer_id) [
      | none ↦ none
      | some region ↦
          some (update_key_range r.start_key key r, update_key_range key r.end_key region)
    ]
    else none

unfoldable pub merge_region : Region → Bytes → Region
merge_region r end_key = inc_version (set_range r.start_key end_key r)
