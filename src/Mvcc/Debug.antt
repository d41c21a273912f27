-- ===== src/Mvcc/Debug.antt =====
-- MvccGetByKey and MvccGetByStartTS of causetstore/mockstore/mockeinsteindb/mvcc_leveldb.go.
pub mod View
use mileva_db.Prelude.{
  ℕ, zero, suc, Bool, Option, none, some, List, [], ◌∷◌, map, leb, length, if◌then◌else◌, ◌==◌,
}
use mileva_db.Bytes.{Bytes}
use mileva_db.Mvcc.Types.{
  Op, op_put, op_del, op_rollback, op_lock, Lock, Value, Error, Result, ok, err,
}
use mileva_db.Mvcc.Marshal.{unmarshal_value}
use mileva_db.Mvcc.Env.{Env}
use mileva_db.Mvcc.Iter.{Pairs, seek, decode_lock, decode_value_pair}

-- A nil answer, an index out of range, or an answer.
pub data Answer (A : Type 0) : Type 0 where
  no_answer : Answer A
  panics : Answer A
  answer : A → Answer A

-- kvrpcpb.MvccLock, MvccWrite, MvccValue and MvccInfo; a nil short value is `none`
pub record MvccLock : Type 0 where
  pub lock_type : Op
  pub start_ts : ℕ
  pub primary : Bytes
  pub short_value : Option Bytes

pub record MvccWrite : Type 0 where
  pub write_type : Op
  pub start_ts : ℕ
  pub commit_ts : ℕ
  pub short_value : Option Bytes

pub record MvccValue : Type 0 where
  pub start_ts : ℕ
  pub value : Bytes

pub record MvccInfo : Type 0 where
  pub lock : Option MvccLock
  pub writes : List MvccWrite
  pub values : List MvccValue

-- valueTypeOpMap; `none` is an index out of range
abbrev pub value_type_op : ℕ → Option Op
value_type_op zero = some op_put
value_type_op (suc zero) = some op_del
value_type_op (suc (suc zero)) = some op_rollback
value_type_op (suc (suc (suc zero))) = some op_lock
value_type_op _ = none

unfoldable pub short_value : Bytes → Option Bytes
short_value value = if leb (length value) 64 then some value else none

unfoldable pub info_lock : Lock → MvccLock
info_lock l = record {
  lock_type = l.op;
  start_ts = l.start_ts;
  primary = l.primary;
  short_value = short_value l.value;
}

unfoldable pub info_write : Value → Op → MvccWrite
info_write v op = record {
  write_type = op;
  start_ts = v.start_ts;
  commit_ts = v.commit_ts;
  short_value = short_value v.value;
}

unfoldable pub info_value : Value → MvccValue
info_value v = record { start_ts = v.start_ts; value = v.value }

-- One version in front of the writes and values behind it.
unfoldable pub add_version :
    Value → Answer (List MvccWrite × List MvccValue) → Answer (List MvccWrite × List MvccValue)
add_version v further = elim (value_type_op v.value_type) [
  | none ↦ panics
  | some op ↦ elim further [
    | no_answer ↦ no_answer
    | panics ↦ panics
    | answer (ws, vs) ↦ answer (info_write v op ∷ ws, info_value v ∷ vs)
  ]
]

unfoldable pub info_of : Option Lock → Answer (List MvccWrite × List MvccValue) → Answer MvccInfo
info_of l no_answer = no_answer
info_of l panics = panics
info_of l (answer (ws, vs)) = answer (record {
  lock = elim l [ none ↦ none | some k ↦ some (info_lock k) ];
  writes = ws;
  values = vs;
})

module _ (e : Env) where
  -- The loop of MvccGetByKey
  unfoldable pub versions_loop : Bytes → Pairs → Answer (List MvccWrite × List MvccValue)
  versions_loop key [] = answer ([], [])
  versions_loop key (p ∷ rest) =
      let further = versions_loop key rest in
      elim (decode_value_pair e key p) [
        | err _ ↦ no_answer
        | ok none ↦ answer ([], [])
        | ok (some v) ↦ add_version v further
      ]

  unfoldable pub info_from : Bytes → Result (Option Lock × Pairs) → Answer MvccInfo
  unfolding info_of
  info_from key (err _) = no_answer
  info_from key (ok (l, rest)) = info_of l (versions_loop key rest)

  unfoldable pub mvcc_get_by_key : e.Db → Bytes → Answer MvccInfo
  mvcc_get_by_key db key =
      let it = seek e db key in info_from key (decode_lock e key it.rest it.failure)

  -- The loop of MvccGetByStartTS: the key of the first pair that reads as a value of the
  -- transaction, `none` where that key is not decoded, and the nil key without such a pair.
  unfoldable pub find_start_ts : ℕ → Pairs → Option Bytes
  find_start_ts start_ts [] = some []
  find_start_ts start_ts ((k, w) ∷ rest) =
      let further = find_start_ts start_ts rest in
      elim (unmarshal_value w) [
        | err _ ↦ further
        | ok v ↦
            if v.start_ts == start_ts
            then elim (e.decode_bytes k) [ none ↦ none | some (remain, key) ↦ some key ]
            else further
      ]

  unfoldable pub mvcc_get_by_start_ts : e.Db → ℕ → Answer MvccInfo × Bytes
  mvcc_get_by_start_ts db start_ts =
      elim (find_start_ts start_ts (e.new_iterator db [] none).rest) [
        | none ↦ (no_answer, [])
        | some key ↦ (mvcc_get_by_key db key, key)
      ]
