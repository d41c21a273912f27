-- ===== src/Solomonkey/Handle.antt =====
-- Handles of rows and the map over them: the second half of solomonkey/key.go. An int64 is its
-- two's complement pattern below 2 ^ 64, a uint16 a number below 2 ^ 16. A `none` is a panic.
pub mod Columns
pub mod Laws
use mileva_db.Prelude.{
  ℕ, zero, suc, ◌+◌, ◌-◌, ◌%◌, ◌^◌, ◌≡◌, Bool, true, false, ◌&&◌, Option, none, some, List, [], ◌∷◌,
  ◌++◌, Ordering, lt, gt, eq, compare, length, take, drop, ◌==◌, ltb, leb, if◌then◌else◌,
}
use mileva_db.Bytes.{Bytes, bytes_compare, bytes_equal}
use mileva_db.Maps.{map_get, map_set, map_delete}
use mileva_db.Solomonkey.Key.{prefix_next}

pub record CommonHandle : Type 0 where
  pub encoded : Bytes
  pub col_end_offsets : List ℕ

-- The interface, with its two implementations.
pub data Handle : Type 0 where
  int_handle : ℕ → Handle
  common_handle : CommonHandle → Handle

-- What NewCommonHandle returns, and the end of the fuel.
pub data NewHandle : Type 0 where
  out_of_fuel codec_error : NewHandle
  made : CommonHandle → NewHandle

-- `make([]byte, 9)` with the bytes written over its start.
unfoldable pub pad_nine : ℕ → Bytes → Bytes
pad_nine zero b = b
pad_nine (suc n) [] = 0 ∷ pad_nine n []
pad_nine (suc n) (x ∷ b) = x ∷ pad_nine n b

-- The loop of NewCommonHandle, with codec.CutOne as `cut_one`: a column and the bytes behind it.
unfoldable pub cut_columns :
    (Bytes → Option (Bytes × Bytes))
    → (fuel : ℕ) → Bytes
    → (remain : Bytes) → ℕ
    → List ℕ
    → NewHandle
cut_columns cut_one fuel encoded [] end_off offsets =
    made record { encoded = encoded; col_end_offsets = offsets }
cut_columns cut_one zero encoded (b ∷ bs) end_off offsets = out_of_fuel
cut_columns cut_one (suc fuel) encoded (b ∷ bs) end_off offsets =
    if b == 0
    then made record { encoded = encoded; col_end_offsets = offsets }
    else elim (cut_one (b ∷ bs)) [
      | none ↦ codec_error
      | some (col, remain) ↦
          let off = (end_off + length col) % 2 ^ 16 in
          cut_columns cut_one fuel encoded remain off (offsets ++ (off ∷ []))
    ]

unfoldable pub new_common_handle : (Bytes → Option (Bytes × Bytes)) → Bytes → NewHandle
new_common_handle cut_one encoded =
    cut_columns cut_one (length encoded)
      (if ltb (length encoded) 9 then pad_nine 9 encoded else encoded) encoded 0 []

abbrev pub is_int : Handle → Bool
is_int (int_handle v) = true
is_int (common_handle c) = false

unfoldable pub next_handle : Handle → Handle
next_handle (int_handle v) = int_handle ((v + 1) % 2 ^ 64)
next_handle (common_handle c) =
    common_handle record { encoded = prefix_next c.encoded; col_end_offsets = c.col_end_offsets }

unfoldable pub equal_handle : Handle → Handle → Bool
equal_handle (int_handle v) (int_handle w) = v == w
equal_handle (int_handle v) (common_handle d) = false
equal_handle (common_handle c) (int_handle w) = false
equal_handle (common_handle c) (common_handle d) = bytes_equal c.encoded d.encoded

-- The place of an int64 in the order of the signed numbers.
abbrev pub signed_rank : ℕ → ℕ
signed_rank v = (v + 2 ^ 63) % 2 ^ 64

unfoldable pub compare_handle : Handle → Handle → Option Ordering
compare_handle (int_handle v) (int_handle w) = some (
    if ltb (signed_rank w) (signed_rank v)
    then gt
    else if ltb (signed_rank v) (signed_rank w)
    then lt
    else eq)
compare_handle (int_handle v) (common_handle d) = none
compare_handle (common_handle c) (int_handle w) = none
compare_handle (common_handle c) (common_handle d) = some (bytes_compare c.encoded d.encoded)

-- `b[start:end]`
unfoldable pub slice : (start end : ℕ) → Bytes → Option Bytes
slice start end b =
    if leb start end && leb end (length b) then some (drop start (take end b)) else none

abbrev pub offset_at : ℕ → List ℕ → Option ℕ
offset_at i [] = none
offset_at zero (o ∷ os) = some o
offset_at (suc i) (o ∷ os) = offset_at i os

unfoldable pub col_start : ℕ → List ℕ → Option ℕ
col_start zero os = some 0
col_start (suc i) os = offset_at i os

-- CommonHandle.EncodedDefCaus
unfoldable pub encoded_def_caus : CommonHandle → ℕ → Option Bytes
encoded_def_caus c i = elim (col_start i c.col_end_offsets) [
  | none ↦ none
  | some start ↦ elim (offset_at i c.col_end_offsets) [
    | none ↦ none
    | some end ↦ slice start end c.encoded
  ]
]

pub record StrHandleVal (V : Type 0) : Type 0 where
  pub handle : Handle
  pub val : V

pub record HandleMap (V : Type 0) : Type 0 where
  pub ints : List (ℕ × V)
  pub strs : List (Bytes × StrHandleVal V)

module _ {V : Type 0} where
  abbrev pub new_handle_map : HandleMap V
  new_handle_map = record { ints = []; strs = [] }

  abbrev pub str_val : Option (StrHandleVal V) → Option V
  str_val none = none
  str_val (some s) = some s.val

  unfoldable pub get_handle : HandleMap V → Handle → Option V
  get_handle m (int_handle i) = map_get ◌==◌ i m.ints
  get_handle m (common_handle c) = str_val (map_get bytes_equal c.encoded m.strs)

  unfoldable pub set_handle : HandleMap V → Handle → V → HandleMap V
  set_handle m (int_handle i) v = record { ints = map_set ◌==◌ i v m.ints; strs = m.strs }
  set_handle m (common_handle c) v = record {
    ints = m.ints;
    strs = map_set bytes_equal c.encoded record { handle = common_handle c; val = v } m.strs;
  }

  unfoldable pub delete_handle : HandleMap V → Handle → HandleMap V
  delete_handle m (int_handle i) = record { ints = map_delete ◌==◌ i m.ints; strs = m.strs }
  delete_handle m (common_handle c) = record {
    ints = m.ints;
    strs = map_delete bytes_equal c.encoded m.strs;
  }

  unfoldable pub handle_map_len : HandleMap V → ℕ
  handle_map_len m = length m.ints + length m.strs

-- HandleMap.Range: `fn` works on a state of the caller's, and says whether to go on.
module _ {V State : Type 0} (fn : Handle → V → State → State × Bool) where
  unfoldable pub range_strs : List (Bytes × StrHandleVal V) → State → State
  range_strs [] s = s
  range_strs ((k, sv) ∷ rest) s =
      let after = fn sv.handle sv.val s in
      let later = range_strs rest after.0 in if after.1 then later else after.0

  unfoldable pub range_ints : List (ℕ × V) → List (Bytes × StrHandleVal V) → State → State
  range_ints [] strs s = range_strs strs s
  range_ints ((i, v) ∷ rest) strs s =
      let after = fn (int_handle i) v s in
      let later = range_ints rest strs after.0 in if after.1 then later else after.0

  unfoldable pub range_handles : HandleMap V → State → State
  range_handles m s = range_ints m.ints m.strs s
