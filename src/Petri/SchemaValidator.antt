-- ===== src/Petri/SchemaValidator.antt =====
-- The validator of schema versions, petri/schema_validator.go. Versions and the ids of tables are
-- int64 that are not negative; a time counts nanoseconds. The schema replicants, whose type is not
-- in the repository, are of a type `Rep`, the time of a timestamp is an argument, and so is the
-- variable with the maximal length of the queue.
pub mod Queue
pub mod History
use Prim.Native.Nat.{bit_or}
use mileva_db.Prelude.{
  ℕ, zero, suc, ◌+◌, ◌-◌, ◌≡◌, Bool, true, false, not, ◌&&◌, Option, none, some, List, [], ◌∷◌,
  ◌++◌, ◌==◌, if◌then◌else◌, ltb, leb, length, map,
}
use mileva_db.Maps.{map_get, map_set}

-- checkResult
pub data CheckResult : Type 0 where
  result_succ result_fail result_unknown : CheckResult

-- einsteindb.RelatedSchemaChange: the fields that the source uses.
pub record RelatedSchemaChange (Rep : Type 0) : Type 0 where
  pub phy_tbl_ids : List ℕ
  pub causet_action_types : List ℕ
  pub amendable : Bool
  pub latest_schema_replicant : Option Rep

pub record DeltaSchemaInfo : Type 0 where
  pub schema_version : ℕ
  pub related_ids : List ℕ
  pub related_causet_actions : List ℕ

pub record SchemaValidator (Rep : Type 0) : Type 0 where
  pub is_started : Bool
  pub lease : ℕ
  pub latest_schema_ver : ℕ
  pub latest_schema_replicant : Option Rep
  pub latest_schema_expire : ℕ
  pub delta_schema_infos : List DeltaSchemaInfo

-- Whether an id stands with an action: the inner loop of containIn. Go panics where an id has no
-- action of its own.
unfoldable pub has_related : (id action : ℕ) → (ids actions : List ℕ) → Bool
has_related id action [] actions = false
has_related id action (i ∷ ids) [] = false
has_related id action (i ∷ ids) (a ∷ actions) =
    let rest = has_related id action ids actions in
    if (id == i) && (action == a) then true else rest

unfoldable pub all_related : (last_ids last_actions ids actions : List ℕ) → Bool
all_related [] last_actions ids actions = true
all_related (i ∷ last_ids) [] ids actions = false
all_related (i ∷ last_ids) (a ∷ last_actions) ids actions =
    has_related i a ids actions && all_related last_ids last_actions ids actions

unfoldable pub contain_in : DeltaSchemaInfo → DeltaSchemaInfo → Bool
contain_in last cur =
    if ltb (length cur.related_ids) (length last.related_ids)
    then false
    else all_related last.related_ids last.related_causet_actions cur.related_ids
        cur.related_causet_actions

-- The last element, which the first of the queue is not, replaced where the new one contains it.
unfoldable pub merge_last :
    DeltaSchemaInfo → DeltaSchemaInfo → List DeltaSchemaInfo → List DeltaSchemaInfo
merge_last delta last [] = if contain_in last delta then delta ∷ [] else last ∷ delta ∷ []
merge_last delta d (e ∷ infos) = d ∷ merge_last delta e infos

unfoldable pub push_delta : DeltaSchemaInfo → List DeltaSchemaInfo → List DeltaSchemaInfo
push_delta delta [] = delta ∷ []
push_delta delta (first ∷ []) = first ∷ delta ∷ []
push_delta delta (first ∷ last ∷ infos) = first ∷ merge_last delta last infos

-- `[1:]` where the queue is too long
unfoldable pub cut_queue : ℕ → List DeltaSchemaInfo → List DeltaSchemaInfo
cut_queue max_cnt [] = []
cut_queue max_cnt (first ∷ infos) =
    if ltb max_cnt (length (first ∷ infos)) then infos else first ∷ infos

-- findNewerDeltas: whether the loop from the right has run to this place, and the deltas from where
-- it stopped.
unfoldable pub newer_from : ℕ → List DeltaSchemaInfo → Bool × List DeltaSchemaInfo
newer_from curr_ver [] = (true, [])
newer_from curr_ver (d ∷ infos) =
    let rest = newer_from curr_ver infos in
    if rest.0 && ltb curr_ver d.schema_version then (true, d ∷ rest.1) else (false, rest.1)

abbrev pub find_newer_deltas : ℕ → List DeltaSchemaInfo → List DeltaSchemaInfo
find_newer_deltas curr_ver infos = (newer_from curr_ver infos).1

abbrev pub or_zero : Option ℕ → ℕ
or_zero none = 0
or_zero (some n) = n

-- changedTblMap, from the inner loop to the outer one
unfoldable pub note_table : (id action : ℕ) → (block_ids : List ℕ) → List (ℕ × ℕ) → List (ℕ × ℕ)
note_table id action [] changed = changed
note_table id action (b ∷ block_ids) changed = note_table id action block_ids (
    if id == b
    then map_set ◌==◌ id (bit_or (or_zero (map_get ◌==◌ id changed)) action) changed
    else changed)

abbrev pub first_action : List ℕ → ℕ
first_action [] = 0
first_action (a ∷ actions) = a

abbrev pub other_actions : List ℕ → List ℕ
other_actions [] = []
other_actions (a ∷ actions) = actions

unfoldable pub note_tables : (ids actions block_ids : List ℕ) → List (ℕ × ℕ) → List (ℕ × ℕ)
note_tables [] actions block_ids changed = changed
note_tables (i ∷ ids) actions block_ids changed =
    note_tables ids (other_actions actions) block_ids
      (note_table i (first_action actions) block_ids changed)

unfoldable pub note_deltas : List DeltaSchemaInfo → List ℕ → List (ℕ × ℕ) → List (ℕ × ℕ)
note_deltas [] block_ids changed = changed
note_deltas (d ∷ infos) block_ids changed =
    note_deltas infos block_ids
      (note_tables d.related_ids d.related_causet_actions block_ids changed)

-- sort.Slice of the ids
unfoldable pub insert_id : ℕ → List ℕ → List ℕ
insert_id i [] = i ∷ []
insert_id i (j ∷ ids) = let rest = insert_id i ids in if ltb j i then j ∷ rest else i ∷ j ∷ ids

unfoldable pub sort_ids : List ℕ → List ℕ
sort_ids [] = []
sort_ids (i ∷ ids) = insert_id i (sort_ids ids)

abbrev pub is_nil {ℓ} : {A : Type ℓ} → List A → Bool
is_nil [] = true
is_nil (x ∷ xs) = false

module _ {Rep : Type 0} where
  unfoldable pub new_schema_validator : ℕ → SchemaValidator Rep
  new_schema_validator lease = record {
    is_started = true;
    lease = lease;
    latest_schema_ver = 0;
    latest_schema_replicant = none;
    latest_schema_expire = 0;
    delta_schema_infos = [];
  }

  -- Stop and Reset, which differ in the flag
  abbrev pub clear : Bool → SchemaValidator Rep → SchemaValidator Rep
  clear started s = record {
    is_started = started;
    lease = s.lease;
    latest_schema_ver = 0;
    latest_schema_replicant = s.latest_schema_replicant;
    latest_schema_expire = s.latest_schema_expire;
    delta_schema_infos = [];
  }

  unfoldable pub stop_validator : SchemaValidator Rep → SchemaValidator Rep
  stop_validator s = clear false s

  unfoldable pub reset_validator : SchemaValidator Rep → SchemaValidator Rep
  reset_validator s = clear true s

  unfoldable pub restart_validator : SchemaValidator Rep → SchemaValidator Rep
  restart_validator s = record {
    is_started = true;
    lease = s.lease;
    latest_schema_ver = s.latest_schema_ver;
    latest_schema_replicant = s.latest_schema_replicant;
    latest_schema_expire = s.latest_schema_expire;
    delta_schema_infos = s.delta_schema_infos;
  }

  abbrev pub delta_of : ℕ → Option (RelatedSchemaChange Rep) → DeltaSchemaInfo
  delta_of version none = record {
    schema_version = version;
    related_ids = [];
    related_causet_actions = [];
  }
  delta_of version (some change) = record {
    schema_version = version;
    related_ids = change.phy_tbl_ids;
    related_causet_actions = change.causet_action_types;
  }

  unfoldable pub enqueue :
      (max_cnt : ℕ)
      → ℕ
      → Option (RelatedSchemaChange Rep)
      → List DeltaSchemaInfo
      → List DeltaSchemaInfo
  enqueue max_cnt schema_version change [] =
      if leb max_cnt 0 then [] else delta_of schema_version change ∷ []
  enqueue max_cnt schema_version change (first ∷ infos) =
      if leb max_cnt 0
      then first ∷ infos
      else cut_queue max_cnt (push_delta (delta_of schema_version change) (first ∷ infos))

  -- What the source makes of nil where `do` is nil, and of SchemaReplicant() else.
  abbrev pub or_replicant : Option Rep → Option Rep → Option Rep
  or_replicant none old = old
  or_replicant (some rep) old = some rep

  module _ (time_of_ts : ℕ → ℕ) where
    -- UFIDelate, given `s.do.SchemaReplicant()`, none where `do` is nil
    unfoldable pub update_validator :
        (max_cnt : ℕ)
        → Option Rep
        → (lease_grant_ts old_ver curr_ver : ℕ) → Option (RelatedSchemaChange Rep)
        → SchemaValidator Rep
        → SchemaValidator Rep
    update_validator max_cnt rep lease_grant_ts old_ver curr_ver change s =
        if s.is_started
        then record {
          is_started = true;
          lease = s.lease;
          latest_schema_ver = curr_ver;
          latest_schema_replicant = or_replicant rep s.latest_schema_replicant;
          latest_schema_expire = time_of_ts lease_grant_ts + s.lease - 1000000;
          delta_schema_infos =
              if curr_ver == old_ver
              then s.delta_schema_infos
              else enqueue max_cnt curr_ver change s.delta_schema_infos;
        }
        else s

    -- The change that is returned for the tables noted.
    unfoldable pub changed_tables : List (ℕ × ℕ) → RelatedSchemaChange Rep
    changed_tables changed =
        let ids = sort_ids (map (λ p. p.0) changed) in
        record {
          phy_tbl_ids = ids;
          causet_action_types = map (λ i. or_zero (map_get ◌==◌ i changed)) ids;
          amendable = true;
          latest_schema_replicant = none;
        }

    abbrev pub no_change : RelatedSchemaChange Rep
    no_change = record {
      phy_tbl_ids = [];
      causet_action_types = [];
      amendable = false;
      latest_schema_replicant = none;
    }

    unfoldable pub is_related_blocks_changed :
        SchemaValidator Rep → ℕ → List ℕ → RelatedSchemaChange Rep × Bool
    is_related_blocks_changed s curr_ver block_ids =
        if is_nil s.delta_schema_infos
        then (no_change, true)
        else if length (find_newer_deltas curr_ver s.delta_schema_infos)
            == length s.delta_schema_infos
        then (no_change, true)
        else if is_nil (note_deltas (find_newer_deltas curr_ver s.delta_schema_infos) block_ids [])
        then (no_change, false)
        else (
          changed_tables
              (note_deltas (find_newer_deltas curr_ver s.delta_schema_infos) block_ids []),
          true,
        )

    abbrev pub with_replicant : Option Rep → RelatedSchemaChange Rep → RelatedSchemaChange Rep
    with_replicant rep change = record {
      phy_tbl_ids = change.phy_tbl_ids;
      causet_action_types = change.causet_action_types;
      amendable = change.amendable;
      latest_schema_replicant = rep;
    }

    unfoldable pub check_older :
        SchemaValidator Rep
        → RelatedSchemaChange Rep × Bool
        → Option (RelatedSchemaChange Rep) × CheckResult
    check_older s (change, false) = (none, result_succ)
    check_older s (change, true) =
        if change.amendable
        then (some (with_replicant s.latest_schema_replicant change), result_fail)
        else (none, result_fail)

    unfoldable pub check_validator :
        SchemaValidator Rep
        → (txn_ts schema_ver : ℕ) → List ℕ
        → Option (RelatedSchemaChange Rep) × CheckResult
    check_validator s txn_ts schema_ver related_ids =
        if not s.is_started
        then (none, result_unknown)
        else if s.lease == 0
        then (none, result_succ)
        else if ltb schema_ver s.latest_schema_ver
        then (if is_nil related_ids
            then (none, result_fail)
            else check_older s (is_related_blocks_changed s schema_ver related_ids))
        else if ltb s.latest_schema_expire (time_of_ts txn_ts)
        then (none, result_unknown)
        else (none, result_succ)
