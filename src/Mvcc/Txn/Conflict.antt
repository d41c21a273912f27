-- ===== src/Mvcc/Txn/Conflict.antt =====
-- What checkConflictValue and prewriteMutation decide, as functions of the lock and the versions.
use mileva_db.Prelude.{
  ℕ, ◌≡◌, refl, ap, Bool, true, false, not, Option, none, some, List, [], ◌∷◌, map, ltb, ◌==◌,
  if◌then◌else◌, Option-cases, inl, inr,
}
use mileva_db.Bytes.{Bytes}
use mileva_db.Mvcc.Types.{
  Lock, Value, Result, ok, err, conflict, already_rollbacked, key_already_exist, abort, ◌>>=◌,
}
use mileva_db.Mvcc.Env.{Env, IsLawful, Batch}
use mileva_db.Mvcc.Lock.{lock_err, is_op_pessimistic_lock}
use mileva_db.Mvcc.Commit.{put_lock}
use mileva_db.Mvcc.Conflict.{
  Mutation, Needs, is_rolled_back, asserts_absent, needs_after, needs_nothing, conflict_loop,
  conflict_from, check_conflict_value,
}
use mileva_db.Mvcc.Prewrite.{
  PrewriteCtx, prewrite_lock, over_pessimistic, prewrite_found, prewrite_mutation,
}
use mileva_db.Mvcc.Rows.{Row, encode_row, RowsFit, Holds, value_here}
use mileva_db.Mvcc.Rows.Codec.{decode_value_pair-encode_row}
use mileva_db.Mvcc.Rows.Reading.{take_values}
use mileva_db.Mvcc.Rows.View.{find_lock, find_values}
use mileva_db.Mvcc.Txn.{at_key}

-- The loop over the versions from the latest on.
unfoldable pub conflict_scan : Mutation → ℕ → Needs → List Value → Result (Option Bytes)
conflict_scan m start_ts n [] = ok n.found
conflict_scan m start_ts n (v ∷ vs) =
    let further = conflict_scan m start_ts (needs_after start_ts n v) vs in
    if is_rolled_back start_ts n v
    then err (already_rollbacked start_ts m.key)
    else if asserts_absent m n v
    then err (key_already_exist m.key)
    else if needs_nothing (needs_after start_ts n v)
    then ok (needs_after start_ts n v).found
    else further

abbrev pub first_needs : Mutation → Bool → Needs
first_needs m get_val = record {
  get_val = get_val;
  check_assertion = m.assert_not_exist;
  check_rollback = true;
  found = none;
}

unfoldable pub conflict_decision :
    Mutation → (for_update_ts start_ts : ℕ) → Bool → List Value → Result (Option Bytes)
conflict_decision m for_update_ts start_ts get_val [] = ok none
conflict_decision m for_update_ts start_ts get_val (v ∷ vs) =
    if ltb for_update_ts v.commit_ts
    then err (conflict for_update_ts v.start_ts v.commit_ts m.key)
    else conflict_scan m start_ts (first_needs m get_val) (v ∷ vs)

module _ (e : Env) (law : IsLawful e) (m : Mutation) where
  conflict_loop-map :
      (start_ts : ℕ) (n : Needs) (v : Value) (rows : List Row)
      → RowsFit e rows
      → conflict_loop e m start_ts none n v (map (encode_row e) rows)
        ≡ conflict_scan m start_ts n (v ∷ take_values m.key rows)
  unfolding conflict_loop conflict_scan take_values
  conflict_loop-map start_ts n v [] fit = refl
  conflict_loop-map start_ts n v (r ∷ rs) fit = elim (Option-cases (value_here m.key r)) [
    | inl q ↦
        rw (decode_value_pair-encode_row e law m.key r fit.0, conflict_loop, q, take_values) refl
    | inr (w, q) ↦
        rw (decode_value_pair-encode_row e law m.key r fit.0, conflict_loop, q, take_values)
          (ap
            (λ (further : Result (Option Bytes)).
              (if is_rolled_back start_ts n v
                then err (already_rollbacked start_ts m.key)
                else if asserts_absent m n v
                then err (key_already_exist m.key)
                else if needs_nothing (needs_after start_ts n v)
                then ok (needs_after start_ts n v).found
                else further))
            (conflict_loop-map start_ts (needs_after start_ts n v) w rs fit.1))
  ]

  pub check_conflict_value-map :
      (for_update_ts start_ts : ℕ) (get_val : Bool) (rows : List Row)
      → RowsFit e rows
      → check_conflict_value e (map (encode_row e) rows) none m for_update_ts start_ts get_val
        ≡ conflict_decision m for_update_ts start_ts get_val (take_values m.key rows)
  unfolding check_conflict_value conflict_from conflict_decision take_values
  check_conflict_value-map for_update_ts start_ts get_val [] fit = refl
  check_conflict_value-map for_update_ts start_ts get_val (r ∷ rs) fit =
      elim (Option-cases (value_here m.key r)) [
        | inl q ↦
            rw
              (
                decode_value_pair-encode_row e law m.key r fit.0,
                check_conflict_value,
                q,
                take_values,
              )
              refl
        | inr (v, q) ↦
            rw
              (
                decode_value_pair-encode_row e law m.key r fit.0,
                check_conflict_value,
                q,
                take_values,
                conflict_loop-map start_ts (first_needs m get_val) v rs fit.1,
              )
              refl
      ]

-- prewriteMutation as a function of the lock and the versions of the key.
module _ (e : Env) (m : Mutation) (c : PrewriteCtx) where
  unfoldable pub prewrite_decision : Bool → Option Lock → List Value → Result Batch
  prewrite_decision is_pessimistic_lock (some l) versions =
      if not (l.start_ts == c.start_ts)
      then lock_err e (if is_pessimistic_lock then record l { ttl = 0 } else l) m.key
      else if not (is_op_pessimistic_lock l.op)
      then ok []
      else ok (put_lock e m.key (prewrite_lock (over_pessimistic c l) m))
  prewrite_decision true none versions = err abort
  prewrite_decision false none versions = do
    checked ← conflict_decision m c.start_ts c.start_ts false versions
    ok (put_lock e m.key (prewrite_lock c m))

module _ (e : Env) (law : IsLawful e) (m : Mutation) (c : PrewriteCtx) where
  prewrite_found-view :
      (flag : Bool) (lock : Option Lock) (versions : List Value) (rest : List Row)
      → RowsFit e rest
      → take_values m.key rest ≡ versions
      → prewrite_found e m c flag none (lock, map (encode_row e) rest)
        ≡ prewrite_decision e m c flag lock versions
  unfolding prewrite_found prewrite_decision
  prewrite_found-view flag (some l) versions rest fit q = refl
  prewrite_found-view true none versions rest fit q = refl
  prewrite_found-view false none versions rest fit q =
      rw (← q, check_conflict_value-map e law m c.start_ts c.start_ts false rest fit) refl

  pub prewrite_mutation-view :
      (db : e.Db) (rows : List Row) (flag : Bool)
      → Holds e db rows
      → prewrite_mutation e db m c flag
        ≡ prewrite_decision e m c flag (find_lock m.key rows) (find_values m.key rows)
  unfolding prewrite_mutation
  prewrite_mutation-view db rows flag h =
      let a = at_key e law db rows m.key h in
      rw (a.decodes, a.no_failure)
        (prewrite_found-view flag (find_lock m.key rows) (find_values m.key rows) a.rest a.fit
          a.values)
