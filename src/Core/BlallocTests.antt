-- ===== src/Core/BlallocTests.antt =====
-- Runs of the block allocator.
use libyimmo.Base.{none, some, [], ◌∷◌, ◌≡◌, refl, arith}
use libyimmo.Core.Blalloc.{Block, block_create, blalloc, blalloc_strdup, blalloc_reset}
use libyimmo.Core.Blalloc.Sequence.{IsBlock, allocate, Placed, allocate-Placed}

abbrev storage : Block
storage = block_create 4128 64

storage-IsBlock : IsBlock storage
storage-IsBlock = record {
  started = omega arith;
  ended = omega arith;
  left = refl;
  bounded = omega arith;
}

-- Behind a string of three bytes, an object of 8 bytes is at an odd address.
not_aligned :
    allocate storage (3 ∷ 8 ∷ [])
    ≡ record { start = 4128; size = 3 } ∷ record { start = 4131; size = 8 } ∷ []
unfolding blalloc
not_aligned = refl

-- A request that would fill the block is refused, and the block is as before.
full : blalloc storage 64 ≡ (none, storage)
unfolding blalloc
full = refl

copied : (blalloc_strdup storage (0x61 ∷ 0x62 ∷ [])).0 ≡ some 4128
unfolding blalloc_strdup blalloc
copied = refl

reset : blalloc_reset (blalloc storage 3).1 ≡ storage
unfolding blalloc
reset = refl

allocate-Placed_example : Placed 4128 4192 (allocate storage (3 ∷ 100 ∷ 8 ∷ []))
allocate-Placed_example =
    allocate-Placed storage (3 ∷ 100 ∷ 8 ∷ []) storage-IsBlock
      (omega arith, (omega arith, (omega arith, tt)))
