-- ===== src/Tests.antt =====
-- Concrete stores, and the theorems applied to them.
mod Solomonkey
mod Cluster
mod Petri
mod Arena
use mileva_db.Prelude.{
  ℕ, ◌<◌, ◌≡◌, ◌≢◌, lt, ◌∙◌, refl, true, false, none, some, List, [], ◌∷◌, map, arith,
  if◌then◌else◌, All,
}
use mileva_db.Bytes.{Bytes, bytes_equal, bytes_compare}
use mileva_db.Mvcc.Types.{
  Lock, Value, Error, ok, err, op_put, type_put, retryable, commit_ts_expired,
}
use mileva_db.Mvcc.Marshal.{marshal_lock, unmarshal_lock, marshal_value, unmarshal_value}
use mileva_db.Mvcc.Marshal.RoundTrip.{
  LockFits, ValueFits, unmarshal-marshal_lock, unmarshal-marshal_value,
}
use mileva_db.Mvcc.Lock.{rc, si, mvcc_encode, mvcc_decode, check_if_si}
use mileva_db.Mvcc.Reads.{get, visible}
use mileva_db.Mvcc.Commit.{Store, put_lock, commit, rollback}
use mileva_db.Mvcc.Status.{check_txn_status, txn_heart_beat, cleanup, expired}
use mileva_db.Mvcc.Conflict.{Mutation, is_rolled_back, asserts_absent, needs_after, is_data}
use mileva_db.Mvcc.Prewrite.{PrewriteCtx, prewrite_lock, prewrite_mutation}
use mileva_db.Mvcc.Rows.{Row, Holds, RowsFit, Ascending, encode_row, row_compare}
use mileva_db.Mvcc.Rows.Codec.{mvcc_decode-encode}
use mileva_db.Mvcc.Rows.Reading.{read_values, find_txn}
use mileva_db.Mvcc.Rows.View.{find_lock, find_values}
use mileva_db.Mvcc.Rows.Effects.{lock_row, value_row}
use mileva_db.Mvcc.Pessimistic.{LockCtx}
use mileva_db.Mvcc.Sample.{sample_env, sample_code, sample_op}
use mileva_db.Mvcc.Sample.Laws.{sample_lawful, Holds-sample, sample_op-code}
use mileva_db.Mvcc.Debug.{answer, mvcc_get_by_key}
use mileva_db.Mvcc.Debug.View.{HaveOps, mvcc_get_by_key-view}
use mileva_db.Mvcc.Raw.{raw_get, raw_batch_put}
use mileva_db.Mvcc.Raw.Laws.{last_put, raw_get-raw_batch_put}
use mileva_db.Mvcc.Txn.{get-view}
use mileva_db.Mvcc.Txn.Commit.{Prewritten}
use mileva_db.Mvcc.Txn.Conflict.{
  prewrite_decision, prewrite_mutation-view, conflict_decision, conflict_scan,
}
use mileva_db.Mvcc.Txn.Committed.{lock_among, OlderThan, get-commit}
use mileva_db.Mvcc.Txn.WriteConflict.{prewrite_mutation-NoConflict, NoConflict}
use mileva_db.Mvcc.Txn.Status.{check_txn_status-commit, txn_heart_beat-ttl}
use mileva_db.Mvcc.Txn.Rollback.{is_own, rollback-commit, get-rollback}
use mileva_db.Mvcc.Txn.Refused.{rollback-prewrite_mutation}
use mileva_db.Mvcc.Txn.Cleanup.{cleanup-unlocked}

abbrev sample_key : Bytes
sample_key = 7 ∷ []

abbrev dagger : Lock
dagger = record {
  start_ts = 5;
  primary = 7 ∷ [];
  value = 9 ∷ [];
  op = op_put;
  ttl = 3;
  for_update_ts = 0;
  txn_size = 1;
  min_commit_ts = 6;
}

abbrev old : Value
old = record { value_type = type_put; start_ts = 2; commit_ts = 3; value = 8 ∷ [] }

abbrev locked_rows : List Row
locked_rows = lock_row sample_key dagger ∷ value_row sample_key old ∷ []

abbrev plain_rows : List Row
plain_rows = value_row sample_key old ∷ []

dagger-fits : LockFits sample_code dagger
dagger-fits = record {
  start_ts = omega arith;
  primary = omega arith;
  value = omega arith;
  op = omega arith;
  ttl = omega arith;
  for_update_ts = omega arith;
  txn_size = omega arith;
  min_commit_ts = omega arith;
}

old-fits : ValueFits old
old-fits = record {
  value_type = omega arith;
  start_ts = omega arith;
  commit_ts = omega arith;
  value = omega arith;
}

locked-fit : RowsFit sample_env locked_rows
locked-fit = (dagger-fits, ((old-fits, omega arith), tt))

locked-Ascending : Ascending locked_rows
unfolding row_compare bytes_compare
locked-Ascending = ((refl, tt), (tt, tt))

abbrev store : List Row → Store sample_env
store rows = record { edb = map (encode_row sample_env) rows; deadlock_detector = tt }

locked-Holds : Holds sample_env (map (encode_row sample_env) locked_rows) locked_rows
locked-Holds = Holds-sample locked_rows locked-fit locked-Ascending

plain-Holds : Holds sample_env (map (encode_row sample_env) plain_rows) plain_rows
plain-Holds = Holds-sample plain_rows ((old-fits, omega arith), tt) (tt, tt)

locked-found : find_lock sample_key locked_rows ≡ some dagger
unfolding find_lock bytes_equal
locked-found = refl

locked-Prewritten : Prewritten 5 10 locked_rows ((sample_key, dagger) ∷ [])
locked-Prewritten = ((locked-found, refl, omega arith), tt)

plain-found : find_values sample_key plain_rows ≡ old ∷ []
unfolding find_values bytes_equal
plain-found = refl

plain-fresh : find_txn 5 (find_values sample_key plain_rows) ≡ none
unfolding find_values bytes_equal find_txn
plain-fresh = refl

locked-fresh : find_txn 5 (find_values sample_key locked_rows) ≡ none
unfolding find_values bytes_equal find_txn
locked-fresh = refl

plain-unlocked : is_own 5 (find_lock sample_key plain_rows) ≡ false
unfolding find_lock bytes_equal
plain-unlocked = refl

locked-older : OlderThan 10 (find_values sample_key locked_rows)
unfolding find_values bytes_equal
locked-older = (omega arith, tt)

locked-other : All (λ v. v.commit_ts ≢ 5) (find_values sample_key locked_rows)
unfolding find_values bytes_equal
locked-other = ((λ q. omega arith), tt)

-- Witnesses
get-commit_example :
    ((commit sample_env (store locked_rows) (sample_key ∷ []) 5 10).0 ≡ ok tt)
    × (get sample_env
          (commit sample_env (store locked_rows) (sample_key ∷ []) 5 10).1.edb
          sample_key
          12
          si
          []
        ≡ ok (some (9 ∷ [])))
unfolding lock_among bytes_equal
get-commit_example =
    get-commit sample_env sample_lawful (store locked_rows) locked_rows ((sample_key, dagger) ∷ [])
      5 10 (omega arith) (omega arith) locked-Holds locked-Prewritten sample_key 12 si []
      (λ l q. locked-older)

abbrev mutation : Mutation
mutation = record { op = op_put; key = sample_key; value = 4 ∷ []; assert_not_exist = false }

abbrev ctx : ℕ → PrewriteCtx
ctx ts = record { start_ts = ts; primary = sample_key; ttl = 3; txn_size = 1; min_commit_ts = 0 }

plain-decided :
    prewrite_decision sample_env mutation
      (ctx 5)
      false
      (find_lock sample_key plain_rows)
      (find_values sample_key plain_rows)
    ≡ ok (put_lock sample_env sample_key (prewrite_lock (ctx 5) mutation))
unfolding prewrite_decision conflict_decision conflict_scan is_rolled_back asserts_absent
    needs_after find_lock find_values bytes_equal is_data
plain-decided = refl

plain-prewritten :
    prewrite_mutation sample_env (map (encode_row sample_env) plain_rows) mutation (ctx 5) false
    ≡ ok (put_lock sample_env sample_key (prewrite_lock (ctx 5) mutation))
plain-prewritten =
    prewrite_mutation-view sample_env sample_lawful mutation (ctx 5)
      (map (encode_row sample_env) plain_rows) plain_rows false plain-Holds
    ∙ plain-decided

prewrite_mutation-NoConflict_example :
    NoConflict 5 false (find_lock sample_key plain_rows) (find_values sample_key plain_rows)
prewrite_mutation-NoConflict_example =
    prewrite_mutation-NoConflict sample_env sample_lawful (map (encode_row sample_env) plain_rows)
      plain_rows plain-Holds mutation (ctx 5) false
      (put_lock sample_env sample_key (prewrite_lock (ctx 5) mutation)) plain-prewritten

abbrev lock_ctx : LockCtx
lock_ctx = record {
  start_ts = 8;
  for_update_ts = 9;
  primary = 1 ∷ [];
  ttl = 3;
  min_commit_ts = 10;
  return_values = false;
}

abbrev to_lock : Mutation
to_lock = record { op = op_put; key = 1 ∷ []; value = []; assert_not_exist = false }

get-view_example :
    get sample_env (map (encode_row sample_env) plain_rows) sample_key 4 si [] ≡ ok (some (8 ∷ []))
unfolding check_if_si read_values visible find_values find_lock bytes_equal
get-view_example =
    get-view sample_env sample_lawful (map (encode_row sample_env) plain_rows) plain_rows sample_key
      4 si [] plain-Holds

not-expired : expired sample_env dagger 7 ≡ false
unfolding expired
not-expired = refl

check_txn_status-commit_example :
    (min : ℕ) × (8 < min)
    × ((commit sample_env
          (check_txn_status sample_env (store locked_rows) sample_key 5 8 7 true).1
          (sample_key ∷ [])
          5
          7).0
        ≡ err (commit_ts_expired 5 7 sample_key min))
check_txn_status-commit_example =
    check_txn_status-commit sample_env sample_lawful (store locked_rows) locked_rows sample_key
      dagger locked-Holds locked-found 5 8 7 7 true refl not-expired (omega arith) (omega arith)
      (omega arith) (omega arith)

rollback-prewrite_mutation_example :
    (er : Error) × (prewrite_mutation sample_env
        (rollback sample_env (store plain_rows) (sample_key ∷ []) 5).1.edb
        mutation
        (ctx 5)
        false
      ≡ err er)
rollback-prewrite_mutation_example =
    rollback-prewrite_mutation sample_env sample_lawful (store plain_rows) plain_rows mutation
      (ctx 5) (omega arith) plain-Holds plain-fresh false

rollback-commit_example :
    ((rollback sample_env (store locked_rows) (sample_key ∷ []) 5).0 ≡ ok tt)
    × ((commit sample_env
          (rollback sample_env (store locked_rows) (sample_key ∷ []) 5).1
          (sample_key ∷ [])
          5
          10).0
        ≡ err retryable)
    × ((commit sample_env
          (rollback sample_env (store locked_rows) (sample_key ∷ []) 5).1
          (sample_key ∷ [])
          5
          10).1.edb
        ≡ (rollback sample_env (store locked_rows) (sample_key ∷ []) 5).1.edb)
rollback-commit_example =
    rollback-commit sample_env sample_lawful (store locked_rows) locked_rows sample_key 5
      (omega arith) locked-Holds locked-fresh 10

get-rollback_example :
    get sample_env
      (rollback sample_env (store locked_rows) (sample_key ∷ []) 5).1.edb
      sample_key
      12
      rc
      []
    ≡ get sample_env (map (encode_row sample_env) locked_rows) sample_key 12 rc []
get-rollback_example =
    get-rollback sample_env sample_lawful (store locked_rows) locked_rows sample_key 5 (omega arith)
      locked-Holds locked-fresh sample_key 12 locked-other

txn_heart_beat-ttl_example :
    ((txn_heart_beat sample_env (store locked_rows) sample_key 5 20).0 ≡ ok 20)
    × (rows' : List Row) × Holds sample_env
        (txn_heart_beat sample_env (store locked_rows) sample_key 5 20).1.edb
        rows'
    × ((j : Bytes)
        → (find_lock j rows' ≡ (
            if bytes_equal sample_key j
            then some (record dagger { ttl = 20 })
            else find_lock j locked_rows))
          × (find_values j rows' ≡ find_values j locked_rows))
txn_heart_beat-ttl_example =
    txn_heart_beat-ttl sample_env sample_lawful (store locked_rows) locked_rows sample_key dagger
      locked-Holds locked-found 5 20 refl refl (omega arith)

unmarshal-marshal_lock_example :
    unmarshal_lock sample_op (marshal_lock sample_code dagger) ≡ ok dagger
unmarshal-marshal_lock_example =
    unmarshal-marshal_lock sample_code sample_op sample_op-code dagger dagger-fits

unmarshal-marshal_value_example : unmarshal_value (marshal_value old) ≡ ok old
unmarshal-marshal_value_example = unmarshal-marshal_value old old-fits

mvcc_decode-encode_example :
    mvcc_decode sample_env (mvcc_encode sample_env sample_key 9) ≡ ok (sample_key, 9)
mvcc_decode-encode_example = mvcc_decode-encode sample_env sample_lawful sample_key 9 (omega arith)

cleanup-unlocked_example :
    ((cleanup sample_env (store plain_rows) sample_key 5 0).0 ≡ ok tt)
    × ((cleanup sample_env (store plain_rows) sample_key 5 0).1.edb
        ≡ map (encode_row sample_env) plain_rows)
cleanup-unlocked_example =
    cleanup-unlocked sample_env sample_lawful (store plain_rows) plain_rows sample_key 5 0
      plain-Holds plain-fresh plain-unlocked

raw_get-raw_batch_put_example :
    raw_get sample_env
      (raw_batch_put sample_env
        (store plain_rows)
        ((sample_key, 1 ∷ []) ∷ (sample_key, 2 ∷ []) ∷ []))
      sample_key
    ≡ some (2 ∷ [])
unfolding last_put bytes_equal
raw_get-raw_batch_put_example =
    raw_get-raw_batch_put sample_env sample_lawful (store plain_rows)
      ((sample_key, 1 ∷ []) ∷ (sample_key, 2 ∷ []) ∷ []) sample_key

locked-ops : HaveOps (find_values sample_key locked_rows) (op_put ∷ [])
unfolding find_values bytes_equal
locked-ops = (refl, tt)

mvcc_get_by_key-view_example :
    mvcc_get_by_key sample_env (map (encode_row sample_env) locked_rows) sample_key
    ≡ answer (record {
      lock = some (record {
        lock_type = op_put;
        start_ts = 5;
        primary = 7 ∷ [];
        short_value = some (9 ∷ []);
      });
      writes =
          record { write_type = op_put; start_ts = 2; commit_ts = 3; short_value = some (8 ∷ []) }
          ∷ [];
      values = record { start_ts = 2; value = 8 ∷ [] } ∷ [];
    })
unfolding find_lock find_values bytes_equal
mvcc_get_by_key-view_example =
    mvcc_get_by_key-view sample_env sample_lawful sample_key
      (map (encode_row sample_env) locked_rows) locked_rows (op_put ∷ []) locked-Holds locked-ops
