-- ===== src/Arena.antt =====
-- The memory of the in-memory buffer: memdbMemCam of causetstore/memdb_arena.go. What is modelled is
-- where it allocates: a block is its size and its used length, and a slice that is given out is
-- an address and a size. The blocks stand with the last one first. Lengths are ints, which stay
-- far below 2 ^ 63.
pub mod Alloc
pub mod Truncate
use mileva_db.Prelude.{
  ℕ, zero, suc, ◌+◌, ◌-◌, ◌*◌, ◌/◌, ◌%◌, ◌^◌, ◌≡◌, Bool, true, false, Option, none, some, List, [],
  ◌∷◌, ◌++◌, ◌==◌, if◌then◌else◌, ltb, leb, length, drop,
}

abbrev pub max_block_size : ℕ
max_block_size = 134217728

abbrev pub init_block_size : ℕ
init_block_size = 4096

-- memdbMemCamAddr
pub record Addr : Type 0 where
  pub idx : ℕ
  pub off : ℕ

pub record Block : Type 0 where
  pub buf_len : ℕ
  pub length : ℕ

pub record MemCam : Type 0 where
  pub block_size : ℕ
  pub blocks : List Block

-- `(a.length + 7) & alignMask`: the mask keeps bits 3 to 31.
unfoldable pub aligned : ℕ → ℕ
aligned n = (n + 7) % 2 ^ 32 / 8 * 8

-- memdbMemCamBlock.alloc, `none` for nullBlockOffset
unfoldable pub alloc_in_block : (size : ℕ) → (align : Bool) → Block → Option (ℕ × Block)
alloc_in_block size align b =
    let offset : ℕ = if align then aligned b.length else b.length in
    if ltb b.buf_len (offset + size)
    then none
    else some (offset % 2 ^ 32, record { buf_len = b.buf_len; length = offset + size })

-- The loop of enlarge: it doubles an int of at most 2 ^ 27 to above that, and so ends within the fuel.
unfoldable pub enlarge_loop : (fuel : ℕ) → (alloc_size block_size : ℕ) → ℕ
enlarge_loop zero alloc_size block_size = block_size
enlarge_loop (suc fuel) alloc_size block_size =
    let more = enlarge_loop fuel alloc_size (block_size * 2) in
    if leb block_size alloc_size then more else block_size

unfoldable pub enlarged_size : (alloc_size block_size : ℕ) → ℕ
enlarged_size alloc_size block_size =
    if ltb max_block_size (enlarge_loop 28 alloc_size block_size)
    then max_block_size
    else enlarge_loop 28 alloc_size block_size

unfoldable pub enlarge : (alloc_size block_size : ℕ) → MemCam → MemCam
enlarge alloc_size block_size a = record {
  block_size = enlarged_size alloc_size block_size;
  blocks = record { buf_len = enlarged_size alloc_size block_size; length = 0 } ∷ a.blocks;
}

-- What alloc returns: it panics on a size that is too large.
pub data Allocated : Type 0 where
  too_large null_addr : Allocated
  allocated : Addr → MemCam → Allocated

-- With no block, where Go panics, it answers as with a full one: alloc never does that.
unfoldable pub alloc_in_last_block :
    (size : ℕ) → (align : Bool) → ℕ → List Block → (otherwise : Allocated) → Allocated
alloc_in_last_block size align block_size [] otherwise = otherwise
alloc_in_last_block size align block_size (b ∷ bs) otherwise = elim (alloc_in_block size align b) [
  | none ↦ otherwise
  | some (offset, used) ↦
      allocated record { idx = length bs % 2 ^ 32; off = offset }
        record { block_size = block_size; blocks = used ∷ bs }
]

abbrev pub start_blocks : ℕ → MemCam → List Block → MemCam
start_blocks size a [] = enlarge size init_block_size a
start_blocks size a (b ∷ bs) = a

unfoldable pub alloc_from : (size : ℕ) → (align : Bool) → MemCam → Allocated
alloc_from size align a =
    let more = enlarge size (a.block_size * 2) a in
    alloc_in_last_block size align a.block_size a.blocks
      (alloc_in_last_block size align more.block_size more.blocks null_addr)

unfoldable pub alloc : (size : ℕ) → (align : Bool) → MemCam → Allocated
alloc size align a =
    if ltb max_block_size size
    then too_large
    else alloc_from size align (start_blocks size a a.blocks)

unfoldable pub reset_arena : MemCam → MemCam
reset_arena a = record { block_size = 0; blocks = [] }

-- memdbCheckpoint
pub record Checkpoint : Type 0 where
  pub block_size : ℕ
  pub blocks : ℕ
  pub offset_in_block : ℕ

abbrev pub is_same_position : Checkpoint → Checkpoint → Bool
is_same_position cp other =
    if cp.blocks == other.blocks then cp.offset_in_block == other.offset_in_block else false

abbrev pub last_length : List Block → ℕ
last_length [] = 0
last_length (b ∷ bs) = b.length

unfoldable pub checkpoint : MemCam → Checkpoint
checkpoint a = record {
  block_size = a.block_size;
  blocks = length a.blocks;
  offset_in_block = last_length a.blocks;
}

abbrev pub set_last_length : ℕ → List Block → List Block
set_last_length n [] = []
set_last_length n (b ∷ bs) = record { buf_len = b.buf_len; length = n } ∷ bs

-- Of a checkpoint of this arena: one with more blocks than there are would panic.
unfoldable pub truncate : MemCam → Checkpoint → MemCam
truncate a snap = record {
  block_size = snap.block_size;
  blocks = set_last_length snap.offset_in_block (drop (length a.blocks - snap.blocks) a.blocks);
}
