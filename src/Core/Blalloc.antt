-- ===== src/Core/Blalloc.antt =====
-- The block allocator, src/core/ymo_blalloc.c, on addresses of 64 bits.
pub mod Sequence
use libyimmo.Base.{
  ℕ, zero, suc, ◌+◌, ◌-◌, ◌*◌, ◌%◌, ◌^◌, bit_and, Option, none, some, List, [], ◌∷◌, length, ltb,
  if◌then◌else◌, sub_size,
}

-- `ymo_blalloc_t`: `val` is the address of the storage, up to `end`.
pub record Block : Type 0 where
  pub val : ℕ
  pub current : ℕ
  pub end : ℕ
  pub remain : ℕ

-- Where YMO_ALLOC finds memory, whose `val` is at the address.
abbrev pub block_create : ℕ → ℕ → Block
block_create val n = record { val = val; current = val; end = val + n; remain = n }

-- YMO_TYPE_CEIL: YMO_TYPE_ALIGN is sizeof(void*), 8, whatever the alignment, and `~8` is the mask.
abbrev pub type_ceil : ℕ → ℕ
type_ceil p = bit_and ((p + 8) % 2 ^ 64) (2 ^ 64 - 9)

-- The object's address, or NULL, and the block. The alignment that is asked for is not used.
unfoldable pub blalloc : Block → ℕ → Option ℕ × Block
blalloc block t_size =
    let obj_start = type_ceil block.current in
    let obj_end = (obj_start + t_size) % 2 ^ 64 in
    if ltb obj_end block.end
    then (
      some obj_start,
      record block {
        remain = sub_size block.remain (sub_size obj_end block.current);
        current = obj_end;
      },
    )
    else (none, block)

-- The address of the copy, which needs a byte more than the string.
unfoldable pub blalloc_strdup : Block → List ℕ → Option ℕ × Block
blalloc_strdup block s = blalloc block (length s + 1)

abbrev pub blalloc_reset : Block → Block
blalloc_reset block = record block { current = block.val; remain = sub_size block.end block.val }
