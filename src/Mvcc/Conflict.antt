-- ===== src/Mvcc/Conflict.antt =====
-- checkConflictValue of causetstore/mockstore/mockeinsteindb/mvcc_leveldb.go.
use mileva_db.Prelude.{
  ℕ, Bool, true, not, ◌&&◌, ◌||◌, Option, none, some, [], ◌∷◌, ltb, ◌==◌, if◌then◌else◌,
}
use mileva_db.Bytes.{Bytes}
use mileva_db.Mvcc.Types.{
  Op, Value, Error, Result, ok, err, conflict, already_rollbacked, key_already_exist, type_put,
  type_delete, type_rollback, type_lock,
}
use mileva_db.Mvcc.Env.{Env}
use mileva_db.Mvcc.Lock.{is_op_pessimistic_lock}
use mileva_db.Mvcc.Iter.{Pairs, at_end, decode_value_pair}

-- kvrpcpb.Mutation; the assertion is only compared with Assertion_NotExist
pub record Mutation : Type 0 where
  pub op : Op
  pub key : Bytes
  pub value : Bytes
  pub assert_not_exist : Bool

-- What checkConflictValue still has to do, and the value that it found.
pub record Needs : Type 0 where
  pub get_val : Bool
  pub check_assertion : Bool
  pub check_rollback : Bool
  pub found : Option Bytes

-- The three parts of the loop's body.
unfoldable pub is_rolled_back : ℕ → Needs → Value → Bool
is_rolled_back start_ts n v =
    n.check_rollback && ((v.value_type == type_rollback) && (v.commit_ts == start_ts))

unfoldable pub asserts_absent : Mutation → Needs → Value → Bool
asserts_absent m n v =
    n.check_assertion
    && (((v.value_type == type_put) || (v.value_type == type_lock)) && is_op_pessimistic_lock m.op)

unfoldable pub is_data : Value → Bool
is_data v = (v.value_type == type_delete) || (v.value_type == type_put)

unfoldable pub needs_after : ℕ → Needs → Value → Needs
needs_after start_ts n v = record {
  get_val = n.get_val && not (is_data v);
  check_assertion = n.check_assertion && not (v.value_type == type_delete);
  check_rollback = n.check_rollback && not (ltb v.commit_ts start_ts);
  found = if n.get_val && is_data v then some v.value else n.found;
}

abbrev pub needs_nothing : Needs → Bool
needs_nothing n = not n.check_assertion && (not n.get_val && not n.check_rollback)

module _ (e : Env) where
  -- The loop of checkConflictValue, at the decoded value `v` with the pairs behind it.
  unfoldable pub conflict_loop :
      Mutation → ℕ → Option Error → Needs → Value → Pairs → Result (Option Bytes)
  conflict_loop m start_ts failure n v [] =
      if is_rolled_back start_ts n v
      then err (already_rollbacked start_ts m.key)
      else if asserts_absent m n v
      then err (key_already_exist m.key)
      else if needs_nothing (needs_after start_ts n v)
      then ok (needs_after start_ts n v).found
      else at_end failure (needs_after start_ts n v).found
  conflict_loop m start_ts failure n v (p ∷ rest) =
      let further =
        λ (w : Value). conflict_loop m start_ts failure (needs_after start_ts n v) w rest in
      if is_rolled_back start_ts n v
      then err (already_rollbacked start_ts m.key)
      else if asserts_absent m n v
      then err (key_already_exist m.key)
      else if needs_nothing (needs_after start_ts n v)
      then ok (needs_after start_ts n v).found
      else elim (decode_value_pair e m.key p) [
        | err er ↦ err er
        | ok none ↦ ok (needs_after start_ts n v).found
        | ok (some w) ↦ further w
      ]

  unfoldable pub conflict_from :
      Mutation
      → (for_update_ts start_ts : ℕ) → Bool
      → Option Error
      → Value
      → Pairs
      → Result (Option Bytes)
  conflict_from m for_update_ts start_ts get_val failure v rest =
      if ltb for_update_ts v.commit_ts
      then err (conflict for_update_ts v.start_ts v.commit_ts m.key)
      else conflict_loop m start_ts failure
          (record {
            get_val = get_val;
            check_assertion = m.assert_not_exist;
            check_rollback = true;
            found = none;
          })
          v rest

  -- checkConflictValue; `found` stays `none` unless `get_val` asks for it
  unfoldable pub check_conflict_value :
      Pairs → Option Error → Mutation → (for_update_ts start_ts : ℕ) → Bool → Result (Option Bytes)
  unfolding conflict_from
  check_conflict_value [] failure m for_update_ts start_ts get_val = at_end failure none
  check_conflict_value (p ∷ rest) failure m for_update_ts start_ts get_val =
      elim (decode_value_pair e m.key p) [
        | err er ↦ err er
        | ok none ↦ ok none
        | ok (some v) ↦ conflict_from m for_update_ts start_ts get_val failure v rest
      ]
