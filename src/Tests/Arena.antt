-- ===== src/Tests/Arena.antt =====
-- The theorems on the arena at concrete inputs.
use mileva_db.Prelude.{ℕ, ◌≡◌, refl, true, [], ◌∷◌, arith}
use mileva_db.Arena.{
  Block, MemCam, alloc, alloc_in_block, alloc_in_last_block, alloc_from, aligned, checkpoint,
  truncate,
}
use mileva_db.Arena.Alloc.{Placed, alloc-Placed}
use mileva_db.Arena.Truncate.{Allocs, no_alloc, one_more, truncate-checkpoint}

abbrev empty_arena : MemCam
empty_arena = record { block_size = 0; blocks = [] }

abbrev block_of : ℕ → Block
block_of n = record { buf_len = 4096; length = n }

abbrev arena_of : ℕ → MemCam
arena_of n = record { block_size = 4096; blocks = block_of n ∷ [] }

alloc-Placed_example : Placed 5000 true empty_arena (alloc 5000 true empty_arena)
alloc-Placed_example =
    alloc-Placed 5000 true empty_arena record { fits = tt; sized = tt } (omega arith)

one_alloc : Allocs (arena_of 5) (arena_of 18)
unfolding alloc alloc_from alloc_in_last_block alloc_in_block aligned
one_alloc =
    one_more (arena_of 5) no_alloc 10 true record { idx = 0; off = 8 } (arena_of 18) (omega arith)
      refl

truncate-checkpoint_example : truncate (arena_of 18) (checkpoint (arena_of 5)) ≡ arena_of 5
truncate-checkpoint_example =
    truncate-checkpoint (arena_of 5) (arena_of 18)
      record { fits = ((omega arith, omega arith), tt); sized = omega arith } one_alloc
