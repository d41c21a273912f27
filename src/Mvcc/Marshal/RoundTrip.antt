-- ===== src/Mvcc/Marshal/RoundTrip.antt =====
-- MarshalBinary and then UnmarshalBinary, for values within the machine's widths.
use mileva_db.Prelude.{
  ℕ, zero, suc, ◌+◌, ◌*◌, ◌/◌, ◌%◌, ◌≤◌, ◌<◌, ◌^◌, ◌≡◌, ap, ◌++◌, [], arith, ltb, length,
  append_assoc, append-nil, length-append, take-append, drop-append, le→leb, Bool-cases, inl, inr,
}
use native.Mathlib.Nat.{div-add-mod}
use mileva_db.Bytes.{Bytes}
use mileva_db.Mvcc.Types.{Op, Value, Lock, ok, u64_mod}
use mileva_db.Mvcc.Marshal.{
  write_number, read_number, put_uvarint, read_uvarint_loop, write_slice, read_full, read_sized,
  read_slice, c10M, marshal_value, unmarshal_value, marshal_lock, unmarshal_lock,
}

-- 256 ^ w, the numbers that `w` bytes hold
pub width : ℕ → ℕ
width zero = 1
width (suc w) = 256 * width w

read-write_number :
    (w n : ℕ) (rest : Bytes) → n < width w → read_number w (write_number w n ++ rest) ≡ ok (n, rest)
unfolding width read_number write_number
read-write_number zero n rest h = ground arith
read-write_number (suc w) n rest h =
    rw (read-write_number w (n / 256) rest (omega arith)) (ground arith)

-- 128 ^ k
room : ℕ → ℕ
room zero = 1
room (suc k) = 128 * room k

split_digit : (x scale a : ℕ) → a + (x % 128) * scale + (x / 128) * (scale * 128) ≡ a + x * scale
split_digit x scale a = omega (arith, ap (λ (t : ℕ). t * scale) (div-add-mod x 128))

read-put_uvarint :
    (left k x scale a : ℕ) (rest : Bytes)
    → k < left
    → x < room k
    → read_uvarint_loop left scale a (put_uvarint left x ++ rest) ≡ ok (a + x * scale, rest)
unfolding room read_uvarint_loop put_uvarint
read-put_uvarint zero k x scale a rest h r = elim h [ ]
read-put_uvarint (suc left) zero x scale a rest h r = ground arith
read-put_uvarint (suc left) (suc k) x scale a rest h r = elim (Bool-cases (ltb x 128)) [
  | inl last ↦ rw last (ground arith)
  | inr more ↦ rw more (
      ground (
        arith,
        read-put_uvarint left k (x / 128) (scale * 128) (a + (x % 128) * scale) rest,
        split_digit x scale a,
      ))
]

-- A slice that ReadSlice accepts.
abbrev pub Fits : Bytes → Type 0
Fits slice = length slice ≤ c10M

read_full-append :
    (slice rest : Bytes) → read_full (length slice) (slice ++ rest) ≡ ok (slice, rest)
unfolding read_full
read_full-append slice rest = rw (
  le→leb (length slice) (length (slice ++ rest)) (omega (arith, length-append slice rest)),
  take-append slice rest,
  drop-append slice rest,
)

read_sized-append :
    (sz : ℕ) (slice rest : Bytes)
    → sz ≡ length slice
    → Fits slice
    → read_sized (sz, slice ++ rest) ≡ ok (slice, rest)
unfolding read_sized
read_sized-append sz slice rest e h = rw e (ground (arith, read_full-append slice rest))

read-write_slice :
    (slice rest : Bytes) → Fits slice → read_slice (write_slice slice ++ rest) ≡ ok (slice, rest)
unfolding read_slice write_slice room
read-write_slice slice rest h =
    rw
      (
        append_assoc,
        read-put_uvarint 10 4 (length slice) 1 0 (slice ++ rest) (omega arith) (omega arith),
      )
      (read_sized-append (0 + length slice * 1) slice rest (omega arith) h)

read-write_last : (slice : Bytes) → Fits slice → read_slice (write_slice slice) ≡ ok (slice, [])
read-write_last slice h = rw append-nil at (read-write_slice slice [] h)

read-write_u64 :
    (n : ℕ) (rest : Bytes) → n < u64_mod → read_number 8 (write_number 8 n ++ rest) ≡ ok (n, rest)
unfolding width
read-write_u64 n rest h = read-write_number 8 n rest (omega arith)

pub record ValueFits (v : Value) : Type 0 where
  pub value_type : v.value_type < u64_mod
  pub start_ts : v.start_ts < u64_mod
  pub commit_ts : v.commit_ts < u64_mod
  pub value : Fits v.value

-- A value whose numbers fit 64 bits and whose bytes ReadSlice accepts is read back as it was.
pub unmarshal-marshal_value : (v : Value) → ValueFits v → unmarshal_value (marshal_value v) ≡ ok v
unfolding unmarshal_value marshal_value width
unmarshal-marshal_value v h = rw (
  read-write_u64 v.value_type _ h.value_type,
  read-write_u64 v.start_ts _ h.start_ts,
  read-write_u64 v.commit_ts _ h.commit_ts,
  read-write_last v.value h.value,
)

pub record LockFits (op_to_int32 : Op → ℕ) (l : Lock) : Type 0 where
  pub start_ts : l.start_ts < u64_mod
  pub primary : Fits l.primary
  pub value : Fits l.value
  pub op : op_to_int32 l.op < 2 ^ 32
  pub ttl : l.ttl < u64_mod
  pub for_update_ts : l.for_update_ts < u64_mod
  pub txn_size : l.txn_size < u64_mod
  pub min_commit_ts : l.min_commit_ts < u64_mod

read-write_u32 :
    (n : ℕ) (rest : Bytes) → n < 2 ^ 32 → read_number 4 (write_number 4 n ++ rest) ≡ ok (n, rest)
unfolding width
read-write_u32 n rest h = read-write_number 4 n rest (omega arith)

read-write_last_u64 : (n : ℕ) → n < u64_mod → read_number 8 (write_number 8 n) ≡ ok (n, [])
read-write_last_u64 n h = rw append-nil at (read-write_u64 n [] h)

-- A lock whose numbers fit their widths, whose slices ReadSlice accepts and whose operation is
-- decoded from its own number is read back as it was.
pub unmarshal-marshal_lock :
    (op_to_int32 : Op → ℕ) (op_of_int32 : ℕ → Op)
    → ((op : Op) → op_of_int32 (op_to_int32 op) ≡ op)
    → (l : Lock) → LockFits op_to_int32 l
    → unmarshal_lock op_of_int32 (marshal_lock op_to_int32 l) ≡ ok l
unfolding unmarshal_lock marshal_lock
unmarshal-marshal_lock op_to_int32 op_of_int32 decode l h = rw (
  read-write_u64 l.start_ts _ h.start_ts,
  read-write_slice l.primary _ h.primary,
  read-write_slice l.value _ h.value,
  read-write_u32 (op_to_int32 l.op) _ h.op,
  decode l.op,
  read-write_u64 l.ttl _ h.ttl,
  read-write_u64 l.for_update_ts _ h.for_update_ts,
  read-write_u64 l.txn_size _ h.txn_size,
  read-write_last_u64 l.min_commit_ts h.min_commit_ts,
)
