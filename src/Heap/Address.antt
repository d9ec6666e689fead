-- ===== src/Heap/Address.antt =====
-- Sizes, blocks and addresses.
use lazy_os.Prelude.{ℕ, ◌+◌, ◌-◌, ◌*◌, ◌%◌, ◌^◌, ◌≤◌, ◌<◌, ◌≡◌, arith, sub32, is_negative, false}
use lazy_os.Heap.{Heap, block_size, align_value_to_upper, block_to_address, address_to_block}

-- For a size up to 2^32 - 4096 the aligned size is the least multiple of the block size that
-- covers the size.
pub align_value_to_upper_lem :
    (val : ℕ)
    → val ≤ 2 ^ 32 - block_size
    → (align_value_to_upper val % block_size ≡ 0)
      × (val ≤ align_value_to_upper val)
      × (align_value_to_upper val < val + block_size)
unfolding align_value_to_upper
align_value_to_upper_lem val fits = ground arith

-- For a 32-bit size above 2^32 - 4096 the aligned size wraps to 0.
pub align_value_to_upper-wraps :
    (val : ℕ) → 2 ^ 32 - block_size < val → val < 2 ^ 32 → align_value_to_upper val ≡ 0
unfolding align_value_to_upper
align_value_to_upper-wraps val big word = ground arith

-- The block's bytes lie in the address space, at an offset that an `int` holds.
pub record IsAddressable (heap : Heap) : Type 0 where
  pub below : heap.start_addr + heap.table.total_entries * block_size < 2 ^ 32
  pub signed : heap.table.total_entries * block_size < 2 ^ 31

pub block_to_address_lem :
    (heap : Heap) (block : ℕ)
    → IsAddressable heap
    → block < heap.table.total_entries
    → block_to_address heap block ≡ heap.start_addr + block * block_size
unfolding block_to_address
block_to_address_lem heap block a inside = omega (arith, a.below)

-- In a heap that lies in the address space the address of a block leads back to the block.
pub address_to_block-block_to_address :
    (heap : Heap) (block : ℕ)
    → IsAddressable heap
    → block < heap.table.total_entries
    → address_to_block heap (block_to_address heap block) ≡ block
unfolding address_to_block
address_to_block-block_to_address heap block a inside =
    rw (block_to_address_lem heap block a inside) (
      let offset : sub32 (heap.start_addr + block * block_size) heap.start_addr
          ≡ block * block_size =
        omega (arith, a.below, a.signed) in
      let positive : is_negative (block * block_size) ≡ false = ground (arith, a.signed) in
      rw (offset, positive) (omega arith))
