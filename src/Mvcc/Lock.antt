-- ===== src/Mvcc/Lock.antt =====
-- Methods of `mvsr-oocLock` and `mvsr-oocEntry`, and the key encoding, from mvcc.go and mvcc_leveldb.go in
-- causetstore/mockstore/mockeinsteindb.
use mileva_db.Prelude.{
  ℕ, ◌-◌, Bool, true, false, ◌&&◌, ◌||◌, Option, none, some, List, [], ◌∷◌, ltb, leb, ◌==◌,
  if◌then◌else◌, not,
}
use mileva_db.Bytes.{Bytes, bytes_equal}
use mileva_db.Mvcc.Types.{
  Op, op_lock, op_pessimistic_lock, Lock, Value, Result, ok, err, locked, invalid_encoded_key,
  codec_failure, type_rollback, type_lock, lock_ver,
}
use mileva_db.Mvcc.Env.{Env}

-- kvrpcpb.IsolationLevel
pub data IsolationLevel : Type 0 where
  si rc : IsolationLevel

abbrev pub is_op_lock : Op → Bool
is_op_lock op_lock = true
is_op_lock _ = false

abbrev pub is_op_pessimistic_lock : Op → Bool
is_op_pessimistic_lock op_pessimistic_lock = true
is_op_pessimistic_lock _ = false

abbrev pub contains : List ℕ → ℕ → Bool
contains [] x = false
contains (y ∷ ys) x = (x == y) || contains ys x

module _ (e : Env) where
  -- mvsr-oocEncode
  unfoldable pub mvcc_encode : Bytes → ℕ → Bytes
  mvcc_encode key ver = e.encode_uint_desc (e.encode_bytes [] key) ver

  unfoldable pub finish_decode : Bytes → Bytes × ℕ → Result (Bytes × ℕ)
  finish_decode key ([], ver) = ok (key, ver)
  finish_decode key (b ∷ remain, ver) = err invalid_encoded_key

  unfoldable pub decode_version : Bytes × Bytes → Result (Bytes × ℕ)
  unfolding finish_decode
  decode_version ([], key) = ok (key, 0)
  decode_version (b ∷ remain, key) = elim (e.decode_uint_desc (b ∷ remain)) [
    | none ↦ err codec_failure
    | some r ↦ finish_decode key r
  ]

  -- mvsr-oocDecode: a key with no version behind it is a meta key.
  unfoldable pub mvcc_decode : Bytes → Result (Bytes × ℕ)
  unfolding decode_version
  mvcc_decode encoded_key = elim (e.decode_bytes encoded_key) [
    | none ↦ err codec_failure
    | some r ↦ decode_version r
  ]

  unfoldable pub lock_err {ℓ} : {A : Type ℓ} → Lock → Bytes → Result A
  lock_err l key = err (
      locked (record {
        key = mvcc_encode key lock_ver;
        primary = l.primary;
        start_ts = l.start_ts;
        for_update_ts = l.for_update_ts;
        ttl = l.ttl;
        txn_size = l.txn_size;
        lock_type = l.op;
      }))

  -- `l.startTS - 1` is a uint64 and would wrap at 0.
  unfoldable pub check : Lock → ℕ → Bytes → List ℕ → Result ℕ
  check l ts key resolved_locks =
      if ltb ts l.start_ts || (is_op_lock l.op || is_op_pessimistic_lock l.op)
      then ok ts
      else if (ts == lock_ver) && bytes_equal l.primary key
      then ok (if l.start_ts == 0 then lock_ver else l.start_ts - 1)
      else if contains resolved_locks l.start_ts
      then ok ts
      else lock_err l key

  unfoldable pub check_if_si : IsolationLevel → Option Lock → ℕ → Bytes → List ℕ → Result ℕ
  check_if_si si (some l) ts key resolved = check l ts key resolved
  check_if_si si none ts key resolved = ok ts
  check_if_si rc l ts key resolved = ok ts

-- The loop of mvsr-oocEntry.Get: the first value that is visible at `ts`.
unfoldable pub first_visible : ℕ → List Value → Option Bytes
first_visible ts [] = none
first_visible ts (v ∷ vs) =
    if leb v.commit_ts ts
      && (not (v.value_type == type_rollback) && not (v.value_type == type_lock))
    then some v.value
    else first_visible ts vs
