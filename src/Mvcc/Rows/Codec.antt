-- ===== src/Mvcc/Rows/Codec.antt =====
-- The key encoding, its order, and the decoders on encoded rows.
use mileva_db.Prelude.{ℕ, ◌<◌, ◌≡◌, refl, some, [], ◌∷◌, ◌++◌, compare, lt, eq, gt, arith}
use mileva_db.Bytes.{Bytes, bytes_compare}
use mileva_db.Mvcc.Types.{ok, lock_ver, u64_mod}
use mileva_db.Mvcc.Marshal.RoundTrip.{unmarshal-marshal_lock, unmarshal-marshal_value}
use mileva_db.Mvcc.Env.{Env, IsLawful}
use mileva_db.Mvcc.Lock.{mvcc_encode, mvcc_decode, decode_version}
use mileva_db.Mvcc.Iter.{decode_lock_pair, decode_value_pair}
use mileva_db.Mvcc.Rows.{
  lock_here, value_here, Row, Load, lock_load, value_load, load_ver, encode_row, LoadFits,
}

module _ (e : Env) (law : IsLawful e) where
  decode_version-append :
      (remain key : Bytes) (ver : ℕ)
      → (remain ≡ [] → ⊥)
      → e.decode_uint_desc remain ≡ some ([], ver)
      → decode_version e (remain, key) ≡ ok (key, ver)
  unfolding decode_version
  decode_version-append [] key ver ne h = absurd (ne refl)
  decode_version-append (b ∷ remain) key ver ne h = rw (h, decode_version)

  mvcc_encode_lem :
      (key : Bytes) (ver : ℕ)
      → mvcc_encode e key ver ≡ e.encode_bytes [] key ++ e.encode_uint_desc [] ver
  unfolding mvcc_encode
  mvcc_encode_lem key ver = law.encode_uint_desc-append (e.encode_bytes [] key) ver

  -- A key and a version that fits 64 bits are decoded from their encoding.
  pub mvcc_decode-encode :
      (key : Bytes) (ver : ℕ)
      → ver < u64_mod
      → mvcc_decode e (mvcc_encode e key ver) ≡ ok (key, ver)
  unfolding mvcc_decode
  mvcc_decode-encode key ver h =
      rw (mvcc_encode_lem, mvcc_decode, law.decode-encode_bytes)
        (decode_version-append (e.encode_uint_desc [] ver) key ver (law.encode_uint_desc-ne-nil ver)
          (law.decode-encode_uint_desc ver h))

  -- Encoded keys with versions that fit 64 bits are ordered by their keys, and under one key by
  -- their versions, the latest first.
  pub compare-mvcc_encode :
      (j k : Bytes) (v w : ℕ)
      → v < u64_mod
      → w < u64_mod
      → bytes_compare (mvcc_encode e j v) (mvcc_encode e k w)
        ≡ elim (bytes_compare j k) [ lt ↦ lt | gt ↦ gt | eq ↦ compare w v ]
  compare-mvcc_encode j k v w hv hw =
      rw (mvcc_encode_lem j v, mvcc_encode_lem k w, law.compare-encode_bytes)
        (ground (arith, law.compare-encode_uint_desc v w hv hw))

  pub load_ver-lt : (l : Load) → LoadFits e l → load_ver l < u64_mod
  load_ver-lt (lock_load l) h = omega arith
  load_ver-lt (value_load v) h = omega arith

  decode_lock_load :
      (key : Bytes) (k : Bytes) (l : Load)
      → LoadFits e l
      → decode_lock_pair e key (encode_row e (record { key = k; load = l }))
        ≡ ok (lock_here key (record { key = k; load = l }))
  unfolding decode_lock_pair encode_row
  decode_lock_load key k (lock_load l) h =
      rw
        (
          mvcc_decode-encode k lock_ver (omega arith),
          unmarshal-marshal_lock e.op_to_int32 e.op_of_int32 law.op_of-op_to l h,
        )
        (ground arith)
  decode_lock_load key k (value_load v) h =
      rw (mvcc_decode-encode k v.commit_ts (omega arith)) (ground arith)

  pub decode_lock_pair-encode_row :
      (key : Bytes) (r : Row)
      → LoadFits e r.load
      → decode_lock_pair e key (encode_row e r) ≡ ok (lock_here key r)
  decode_lock_pair-encode_row key r h = decode_lock_load key r.key r.load h

  decode_value_load :
      (key : Bytes) (k : Bytes) (l : Load)
      → LoadFits e l
      → decode_value_pair e key (encode_row e (record { key = k; load = l }))
        ≡ ok (value_here key (record { key = k; load = l }))
  unfolding decode_value_pair encode_row
  decode_value_load key k (lock_load l) h =
      rw (mvcc_decode-encode k lock_ver (omega arith)) (ground arith)
  decode_value_load key k (value_load v) h =
      rw (mvcc_decode-encode k v.commit_ts (omega arith), unmarshal-marshal_value v h.0)
        (ground arith)

  pub decode_value_pair-encode_row :
      (key : Bytes) (r : Row)
      → LoadFits e r.load
      → decode_value_pair e key (encode_row e r) ≡ ok (value_here key r)
  decode_value_pair-encode_row key r h = decode_value_load key r.key r.load h
