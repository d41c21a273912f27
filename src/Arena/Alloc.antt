-- ===== src/Arena/Alloc.antt =====
-- Where alloc puts what it allocates.
use mathlib.Core.Path.{subst}
use mileva_db.Prelude.{
  sym, ℕ, zero, suc, ◌+◌, ◌*◌, ◌%◌, ◌^◌, ◌≤◌, ◌<◌, ◌≡◌, refl, Bool, true, false, none, some, List,
  [], ◌∷◌, if◌then◌else◌, ltb, leb, length, arith, Bool-cases, inl, inr, All, ◌⊎◌,
}
use mileva_db.Arena.{
  max_block_size, init_block_size, Addr, Block, MemCam, aligned, alloc_in_block, enlarge_loop,
  enlarged_size, enlarge, Allocated, null_addr, allocated, alloc_in_last_block, start_blocks,
  alloc_from, alloc,
}

-- A number doubled, as often as the loop may.
unfoldable doubled : ℕ → ℕ → ℕ
doubled zero n = n
doubled (suc f) n = doubled f (n * 2)

enlarge_loop-gt : (fuel size n : ℕ) → size < doubled fuel n → size < enlarge_loop fuel size n
unfolding enlarge_loop doubled
enlarge_loop-gt zero size n h = h
enlarge_loop-gt (suc fuel) size n h = elim (Bool-cases (leb n size)) [
  | inl p ↦ rw p (enlarge_loop-gt fuel size (n * 2) h)
  | inr p ↦ rw p (ground arith)
]

enough : (size n : ℕ) → size ≤ max_block_size → 0 < n → size < doubled 28 n
unfolding doubled
enough size n h k = omega (arith, h, k)

enlarged_size-fits :
    (size n : ℕ)
    → size ≤ max_block_size
    → 0 < n
    → (size ≤ enlarged_size size n)
      × (enlarged_size size n ≤ max_block_size)
      × (0 < enlarged_size size n)
unfolding enlarged_size
enlarged_size-fits size n h k =
    let g = enlarge_loop-gt 28 size n (enough size n h k) in
    elim (Bool-cases (ltb max_block_size (enlarge_loop 28 size n))) [
      | inl p ↦ rw p (h, omega arith, omega arith)
      | inr p ↦ rw p (omega (arith, g), ground arith, omega (arith, g))
    ]

-- The used part of each block is in it.
abbrev pub Fits : List Block → Type 0
Fits bs = All (λ b. (b.length ≤ b.buf_len) × (b.buf_len ≤ max_block_size)) bs

abbrev pub IsSized : ℕ → List Block → Type 0
IsSized n [] = Unit
IsSized n (b ∷ bs) = 0 < n

pub record IsArena (a : MemCam) : Type 0 where
  pub fits : Fits a.blocks
  pub sized : IsSized a.block_size a.blocks

aligned-le : (n : ℕ) → n ≤ max_block_size → (n ≤ aligned n) × (aligned n % 8 ≡ 0)
unfolding aligned
aligned-le n h = (omega (arith, h), omega (arith, h))

-- An allocation in a block: behind its used part, within its size, and aligned where it is asked for.
pub record InBlock (size : ℕ) (align : Bool) (b : Block) : Type 0 where
  pub offset : ℕ
  pub used : Block
  pub is_some : alloc_in_block size align b ≡ some (offset, used)
  pub same_len : used.buf_len ≡ b.buf_len
  pub ends_at : offset + size ≡ used.length
  pub behind : b.length ≤ offset
  pub within : offset + size ≤ b.buf_len
  pub is_aligned : (if align then offset % 8 else 0) ≡ 0

offset_of : Bool → ℕ → ℕ
offset_of align n = if align then aligned n else n

offset_of-aligned :
    (align : Bool) (n : ℕ)
    → n ≤ max_block_size
    → (n ≤ offset_of align n) × ((if align then offset_of align n % 8 else 0) ≡ 0)
unfolding offset_of
offset_of-aligned true n h = aligned-le n h
offset_of-aligned false n h = (omega arith, refl)

in_block :
    (size : ℕ) (align : Bool) (b : Block)
    → b.length ≤ max_block_size
    → b.buf_len ≤ max_block_size
    → offset_of align b.length + size ≤ b.buf_len
    → InBlock size align b
unfolding alloc_in_block offset_of
in_block size align b h k g =
    let o = offset_of-aligned align b.length h in
    let small : offset_of align b.length % 2 ^ 32 ≡ offset_of align b.length =
      omega (arith, g, k) in
    let fits : ltb b.buf_len (offset_of align b.length + size) ≡ false = ground (arith, g) in
    record {
      offset = offset_of align b.length;
      used = record { buf_len = b.buf_len; length = offset_of align b.length + size };
      is_some = rw (fits, small) refl;
      same_len = refl;
      ends_at = refl;
      behind = o.0;
      within = g;
      is_aligned = o.1;
    }

-- Where an allocation stands: in the last block, which is new, or the last one as before with a
-- used part in front of the allocation.
pub record Placed (size : ℕ) (align : Bool) (a : MemCam) (o : Allocated) : Type 0 where
  pub addr : Addr
  pub after : MemCam
  pub last : Block
  pub rest : List Block
  pub is_allocated : o ≡ allocated addr after
  pub arena : IsArena after
  pub last_of : after.blocks ≡ last ∷ rest
  pub index : addr.idx ≡ length rest % 2 ^ 32
  pub ends_at : addr.off + size ≡ last.length
  pub is_aligned : (if align then addr.off % 8 else 0) ≡ 0
  pub fresh :
      (rest ≡ a.blocks)
      ⊎ ((b : Block) × (a.blocks ≡ b ∷ rest) × (b.buf_len ≡ last.buf_len) × (b.length ≤ addr.off))

new_offset : (align : Bool) → offset_of align 0 ≡ 0
unfolding offset_of aligned
new_offset true = refl
new_offset false = refl

in_new_block :
    (size : ℕ) (align : Bool) (a : MemCam) (n : ℕ) (other : Allocated)
    → IsArena a
    → size ≤ max_block_size
    → 0 < n
    → Placed size align a (
        alloc_in_last_block size align
          (enlarge size n a).block_size
          (enlarge size n a).blocks
          other)
unfolding alloc_in_last_block enlarge
in_new_block size align a n other w h k =
    let f = enlarged_size-fits size n h k in
    let b : Block = record { buf_len = enlarged_size size n; length = 0 } in
    let p = in_block size align b (omega arith) f.1 (omega (arith, new_offset align, f.0)) in
    record {
      addr = record { idx = length a.blocks % 2 ^ 32; off = p.offset };
      after = record { block_size = enlarged_size size n; blocks = p.used ∷ a.blocks };
      last = p.used;
      rest = a.blocks;
      is_allocated = rw (p.is_some, alloc_in_last_block) refl;
      arena = record {
        fits = (
          (omega (arith, p.ends_at, p.within, p.same_len), omega (arith, p.same_len, f.1)),
          w.fits,
        );
        sized = f.2;
      };
      last_of = refl;
      index = refl;
      ends_at = p.ends_at;
      is_aligned = p.is_aligned;
      fresh = inl refl;
    }

in_old_block :
    (size : ℕ) (align : Bool) (a : MemCam) (b : Block) (bs : List Block) (other : Allocated)
    → IsArena a
    → a.blocks ≡ b ∷ bs
    → Placed size align a other
    → Placed size align a (alloc_in_last_block size align a.block_size (b ∷ bs) other)
unfolding alloc_in_last_block
in_old_block size align a b bs other w e new =
    let fits : Fits (b ∷ bs) = subst Fits e w.fits in
    let small : b.length ≤ max_block_size = omega (arith, fits.0.0, fits.0.1) in
    elim (Bool-cases (ltb b.buf_len (offset_of align b.length + size))) [
      | inl full ↦
          let no : alloc_in_block size align b ≡ none =
            unfold alloc_in_block offset_of in rw full refl in
          rw (no, alloc_in_last_block) new
      | inr room ↦
          let p = in_block size align b small fits.0.1 (ground arith) in
          record {
            addr = record { idx = length bs % 2 ^ 32; off = p.offset };
            after = record { block_size = a.block_size; blocks = p.used ∷ bs };
            last = p.used;
            rest = bs;
            is_allocated = rw (p.is_some, alloc_in_last_block) refl;
            arena = record {
              fits = (
                (
                  omega (arith, p.ends_at, p.within, p.same_len),
                  omega (arith, p.same_len, fits.0.1),
                ),
                fits.1,
              );
              sized = subst (IsSized a.block_size) e w.sized;
            };
            last_of = refl;
            index = refl;
            ends_at = p.ends_at;
            is_aligned = p.is_aligned;
            fresh = inr (b, e, sym p.same_len, p.behind);
          }
    ]

from_blocks :
    (size : ℕ) (align : Bool) (n : ℕ) (bs : List Block)
    → IsArena record { block_size = n; blocks = bs }
    → size ≤ max_block_size
    → Placed size align
        record { block_size = n; blocks = bs }
        (alloc_from size align (start_blocks size record { block_size = n; blocks = bs } bs))
unfolding alloc_from
from_blocks size align n [] w h =
    let start : MemCam = record { block_size = n; blocks = [] } in
    in_new_block size align start init_block_size _ w h (omega arith)
from_blocks size align n (b ∷ bs) w h =
    let a : MemCam = record { block_size = n; blocks = b ∷ bs } in
    in_old_block size align a b bs _ w refl
      (in_new_block size align a (n * 2) null_addr w h (omega (arith, w.sized)))

-- alloc of a size that is not too large always finds a place, in an arena whose used parts are in
-- their blocks, and leaves such an arena: what it gives out ends where the used part of the last
-- block ends, starts at a multiple of 8 if it is to be aligned, and overlaps nothing that was given
-- out before, since the block is new or was used at most up to there.
pub alloc-Placed :
    (size : ℕ) (align : Bool) (a : MemCam)
    → IsArena a
    → size ≤ max_block_size
    → Placed size align a (alloc size align a)
unfolding alloc
alloc-Placed size align a w h =
    let e : ltb max_block_size size ≡ false = ground arith in
    rw (e, alloc) (from_blocks size align a.block_size a.blocks w h)
