-- ===== src/Cluster/Stores.antt =====
-- The cluster's state, its ids and its stores. A loop over a map takes the pairs in the order of the
-- list, which stands for the order that Go leaves open.
use mileva_db.Prelude.{
  ℕ, zero, suc, ◌+◌, ◌%◌, ◌^◌, Bool, true, false, ◌&&◌, Option, none, some, List, [], ◌∷◌, ◌==◌,
  if◌then◌else◌, map,
}
use mileva_db.Bytes.{Bytes, bytes_equal}
use mileva_db.Maps.{map_get, map_set, map_delete}
use mileva_db.Cluster.Region.{Region}

pub data StoreState : Type 0 where
  up offline : StoreState

-- CausetStore, with the fields of its metapb.CausetStore that the source uses.
pub record CausetStore : Type 0 where
  pub id : ℕ
  pub address : Bytes
  pub labels : List (Bytes × Bytes)
  pub state : StoreState
  pub cancel : Bool

pub record Cluster : Type 0 where
  pub id : ℕ
  pub stores : List (ℕ × CausetStore)
  pub regions : List (ℕ × Region)
  -- under a start timestamp and a region's id
  pub delay_events : List ((ℕ × ℕ) × ℕ)

abbrev pub new_cluster : Cluster
new_cluster = record { id = 0; stores = []; regions = []; delay_events = [] }

abbrev pub set_stores : List (ℕ × CausetStore) → Cluster → Cluster
set_stores stores c = record {
  id = c.id;
  stores = stores;
  regions = c.regions;
  delay_events = c.delay_events;
}

abbrev pub set_regions : List (ℕ × Region) → Cluster → Cluster
set_regions regions c = record {
  id = c.id;
  stores = c.stores;
  regions = regions;
  delay_events = c.delay_events;
}

abbrev pub set_delays : List ((ℕ × ℕ) × ℕ) → Cluster → Cluster
set_delays delays c = record {
  id = c.id;
  stores = c.stores;
  regions = c.regions;
  delay_events = delays;
}

unfoldable pub alloc_id : Cluster → ℕ × Cluster
alloc_id c = (
  (c.id + 1) % 2 ^ 64,
  record {
    id = (c.id + 1) % 2 ^ 64;
    stores = c.stores;
    regions = c.regions;
    delay_events = c.delay_events;
  },
)

unfoldable pub alloc_ids : ℕ → Cluster → List ℕ × Cluster
alloc_ids zero c = ([], c)
alloc_ids (suc n) c =
    let first = alloc_id c in let rest = alloc_ids n first.1 in (first.0 ∷ rest.0, rest.1)

unfoldable pub get_store : Cluster → ℕ → Option CausetStore
get_store c store_id = map_get ◌==◌ store_id c.stores

unfoldable pub get_all_stores : Cluster → List CausetStore
get_all_stores c = map (λ p. p.1) c.stores

-- `if causetstore := c.stores[storeID]; causetstore != nil`, and a write through the pointer
unfoldable pub modify_store : ℕ → (CausetStore → CausetStore) → Cluster → Cluster
modify_store store_id f c = elim (map_get ◌==◌ store_id c.stores) [
  | none ↦ c
  | some s ↦ set_stores (map_set ◌==◌ store_id (f s) c.stores) c
]

abbrev pub set_state : StoreState → CausetStore → CausetStore
set_state state s = record {
  id = s.id;
  address = s.address;
  labels = s.labels;
  state = state;
  cancel = s.cancel;
}

abbrev pub set_cancel : Bool → CausetStore → CausetStore
set_cancel cancel s = record {
  id = s.id;
  address = s.address;
  labels = s.labels;
  state = s.state;
  cancel = cancel;
}

unfoldable pub stop_store : Cluster → ℕ → Cluster
stop_store c store_id = modify_store store_id (set_state offline) c

unfoldable pub start_store : Cluster → ℕ → Cluster
start_store c store_id = modify_store store_id (set_state up) c

unfoldable pub cancel_store : Cluster → ℕ → Cluster
cancel_store c store_id = modify_store store_id (set_cancel true) c

unfoldable pub un_cancel_store : Cluster → ℕ → Cluster
un_cancel_store c store_id = modify_store store_id (set_cancel false) c

unfoldable pub store_by_addr : Bytes → List (ℕ × CausetStore) → Option CausetStore
store_by_addr addr [] = none
store_by_addr addr ((k, s) ∷ stores) =
    if bytes_equal s.address addr then some s else store_by_addr addr stores

unfoldable pub get_store_by_addr : Cluster → Bytes → Option CausetStore
get_store_by_addr c addr = store_by_addr addr c.stores

-- What GetAndCheckStoreByAddr returns: context.Canceled, or a store or nil.
pub data Checked : Type 0 where
  canceled : Checked
  checked : Option CausetStore → Checked

unfoldable pub checked_by_addr : Bytes → List (ℕ × CausetStore) → Checked
checked_by_addr addr [] = checked none
checked_by_addr addr ((k, s) ∷ stores) =
    if s.cancel
    then canceled
    else if bytes_equal s.address addr
    then checked (some s)
    else checked_by_addr addr stores

unfoldable pub get_and_check_store_by_addr : Cluster → Bytes → Checked
get_and_check_store_by_addr c addr = checked_by_addr addr c.stores

unfoldable pub new_store : ℕ → Bytes → List (Bytes × Bytes) → CausetStore
new_store store_id addr labels = record {
  id = store_id;
  address = addr;
  labels = labels;
  state = up;
  cancel = false;
}

unfoldable pub add_store : Cluster → ℕ → Bytes → Cluster
add_store c store_id addr =
    set_stores (map_set ◌==◌ store_id (new_store store_id addr []) c.stores) c

unfoldable pub remove_store : Cluster → ℕ → Cluster
remove_store c store_id = set_stores (map_delete ◌==◌ store_id c.stores) c

-- UFIDelateStoreAddr
unfoldable pub update_store_addr : Cluster → ℕ → Bytes → List (Bytes × Bytes) → Cluster
update_store_addr c store_id addr labels =
    set_stores (map_set ◌==◌ store_id (new_store store_id addr labels) c.stores) c

unfoldable pub first_store_id : Cluster → ℕ
first_store_id c = elim c.stores [ [] ↦ 0 | p ∷ ps ↦ p.0 ]

abbrev pub same_delay : ℕ × ℕ → ℕ × ℕ → Bool
same_delay j k = (j.0 == k.0) && (j.1 == k.1)

unfoldable pub schedule_delay : Cluster → (start_ts region_id dur : ℕ) → Cluster
schedule_delay c start_ts region_id dur =
    set_delays (map_set same_delay (start_ts, region_id) dur c.delay_events) c

-- handleDelay: the time that it sleeps, if there is an event, which is gone then.
unfoldable pub handle_delay : Cluster → (start_ts region_id : ℕ) → Option ℕ × Cluster
handle_delay c start_ts region_id = elim (map_get same_delay (start_ts, region_id) c.delay_events) [
  | none ↦ (none, c)
  | some dur ↦ (some dur, set_delays (map_delete same_delay (start_ts, region_id) c.delay_events) c)
]
