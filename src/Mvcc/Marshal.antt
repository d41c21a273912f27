-- ===== src/Mvcc/Marshal.antt =====
-- The binary form of locks and values: `MarshalBinary`, `UnmarshalBinary` and `marshalHelper` of
-- causetstore/mockstore/mockeinsteindb/mvcc.go, over Go's `encoding/binary`.
-- The helper's `err` field is the error case of `Result`: once it is set, every later read or write
-- returns at once. A write goes to a `bytes.Buffer`, which does not fail.
pub mod RoundTrip
use mileva_db.Prelude.{
  ℕ, zero, suc, ◌+◌, ◌*◌, ◌/◌, ◌%◌, Bool, true, false, ◌&&◌, List, [], ◌∷◌, ◌++◌, ltb, leb, ◌==◌,
  if◌then◌else◌, length, take, drop,
}
use mileva_db.Bytes.{Bytes}
use mileva_db.Mvcc.Types.{
  Op, Value, Lock, Result, ok, err, ◌>>=◌, too_large_slice, unexpected_eof, varint_overflow,
}

-- binary.Write and binary.Read of a fixed-size integer of `w` bytes, in little-endian order
unfoldable pub write_number : ℕ → ℕ → Bytes
write_number zero n = []
write_number (suc w) n = (n % 256) ∷ write_number w (n / 256)

unfoldable pub read_number : ℕ → Bytes → Result (ℕ × Bytes)
read_number zero buf = ok (0, buf)
read_number (suc w) [] = err unexpected_eof
read_number (suc w) (b ∷ buf) = read_number w buf >>= λ r. ok (b + 256 * r.0, r.1)

-- binary.PutUvarint into an array of binary.MaxVarintLen64 = 10 bytes
unfoldable pub put_uvarint : ℕ → ℕ → Bytes
put_uvarint zero x = []
put_uvarint (suc room) x =
    let more = (x % 128 + 128) ∷ put_uvarint room (x / 128) in if ltb x 128 then x ∷ [] else more

-- binary.ReadUvarint: `left` bytes may still be read, `scale` is 2 ^ s, and `x` the bits so far.
unfoldable pub read_uvarint_loop : ℕ → ℕ → ℕ → Bytes → Result (ℕ × Bytes)
read_uvarint_loop zero scale x buf = err varint_overflow
read_uvarint_loop (suc left) scale x [] = err unexpected_eof
read_uvarint_loop (suc left) scale x (b ∷ buf) =
    let next = read_uvarint_loop left (scale * 128) (x + (b % 128) * scale) buf in
    if ltb b 128
    then if (left == 0) && ltb 1 b then err varint_overflow else ok (x + b * scale, buf)
    else next

abbrev pub max_varint_len64 : ℕ
max_varint_len64 = 10

-- const c10M in ReadSlice
abbrev pub c10M : ℕ
c10M = 10485760

unfoldable pub write_slice : Bytes → Bytes
write_slice slice = put_uvarint max_varint_len64 (length slice) ++ slice

-- io.ReadFull into a new slice of `sz` bytes
unfoldable pub read_full : ℕ → Bytes → Result (Bytes × Bytes)
read_full sz buf = if leb sz (length buf) then ok (take sz buf, drop sz buf) else err unexpected_eof

unfoldable pub read_sized : ℕ × Bytes → Result (Bytes × Bytes)
read_sized (sz, buf) = if ltb c10M sz then err too_large_slice else read_full sz buf

unfoldable pub read_slice : Bytes → Result (Bytes × Bytes)
unfolding read_sized
read_slice buf = read_uvarint_loop max_varint_len64 1 0 buf >>= read_sized

-- The value types are 0 to 3, so their `int64` is the number itself.
unfoldable pub marshal_value : Value → Bytes
marshal_value v =
    write_number 8 v.value_type
    ++ (write_number 8 v.start_ts ++ (write_number 8 v.commit_ts ++ write_slice v.value))

unfoldable pub unmarshal_value : Bytes → Result Value
unmarshal_value buf = do
  (vt, buf) ← read_number 8 buf
  (start, buf) ← read_number 8 buf
  (commit, buf) ← read_number 8 buf
  (slice, buf) ← read_slice buf
  ok (record { value_type = vt; start_ts = start; commit_ts = commit; value = slice })

-- `kvrpcpb.Op` is an `int32`; its numbers are those of the generated protocol code.
module _ (op_to_int32 : Op → ℕ) where
  unfoldable pub marshal_lock : Lock → Bytes
  marshal_lock l =
      write_number 8 l.start_ts
      ++ (write_slice l.primary
          ++ (write_slice l.value
              ++ (write_number 4 (op_to_int32 l.op)
                  ++ (write_number 8 l.ttl
                      ++ (write_number 8 l.for_update_ts
                          ++ (write_number 8 l.txn_size ++ write_number 8 l.min_commit_ts))))))

module _ (op_of_int32 : ℕ → Op) where
  unfoldable pub unmarshal_lock : Bytes → Result Lock
  unmarshal_lock buf = do
    (start, buf) ← read_number 8 buf
    (primary, buf) ← read_slice buf
    (slice, buf) ← read_slice buf
    (code, buf) ← read_number 4 buf
    (ttl, buf) ← read_number 8 buf
    (for_update, buf) ← read_number 8 buf
    (size, buf) ← read_number 8 buf
    (min_commit, buf) ← read_number 8 buf
    ok (record {
      start_ts = start;
      primary = primary;
      value = slice;
      op = op_of_int32 code;
      ttl = ttl;
      for_update_ts = for_update;
      txn_size = size;
      min_commit_ts = min_commit;
    })
