-- ===== src/Kheap/Init.antt =====
-- The heap that `kheap_init` sets up, and the cleared blocks that `kzalloc` takes from a heap.
use lazy_os.Prelude.{
  ℕ, ◌-◌, ◌/◌, ◌%◌, ◌^◌, ◌≤◌, ◌<◌, ◌≡◌, refl, true, false, arith, within, ◌==◌, if◌then◌else◌,
}
use lazy_os.Heap.{
  Heap, block_size, create_heap, entry_type, align_value_to_upper, get_start_block, malloc_blocks,
  malloc,
}
use lazy_os.Heap.Search.{Fits}
use lazy_os.Heap.Address.{IsAddressable, align_value_to_upper_lem}
use lazy_os.Heap.Cycle.{IsClean, IsAllocated, malloc_blocks_lem}
use lazy_os.Kheap.{Kernel, kheap_init, kzalloc}
use lazy_os.Kheap.Bytes.{byte_at, clear_memory-byte_at}

-- The number of blocks that `heap_malloc` asks for.
abbrev pub blocks : ℕ → ℕ
blocks size = align_value_to_upper size / block_size

pub blocks-pos : (size : ℕ) → 0 < size → size ≤ 2 ^ 32 - 4096 → 0 < blocks size
blocks-pos size pos small =
    let (aligned, covers, tight) = align_value_to_upper_lem size small in omega arith

-- What a freshly created heap is: all its blocks are free.
pub record IsFresh (heap : Heap) : Type 0 where
  pub total : heap.table.total_entries ≡ 25600
  pub addressable : IsAddressable heap
  pub clean : IsClean heap
  pub vacant : Fits heap 0 25600

-- `kheap_init` succeeds whatever the table's memory held, and all the 25600 blocks are free.
pub kheap_init-IsFresh :
    (contents : ℕ → ℕ) → ((kheap_init contents).0 ≡ 0) × IsFresh (kheap_init contents).1
unfolding kheap_init create_heap entry_type
kheap_init-IsFresh contents = (
  refl,
  record {
    total = refl;
    addressable = record { below = omega arith; signed = omega arith };
    clean = record { zeroed = λ j p q. ground arith };
    vacant = record {
      inside = omega arith;
      vacant = λ j p q. let inside : within 0 25600 j ≡ true = ground arith in rw inside refl;
    };
  },
)

-- Where some run of blocks that covers the size fits in a heap that lies in the address space and
-- starts at the address of a word, for a size from 1 to 2^32 - 4096, `kzalloc` takes the first
-- such run: the heap marks exactly its blocks, exactly its first `size` bytes are cleared, and no
-- other byte of memory changes.
pub kzalloc_lem :
    (size p : ℕ) (k : Kernel)
    → IsAddressable k.heap
    → 0 < k.heap.start_addr
    → k.heap.start_addr % 4 ≡ 0
    → 0 < size
    → size ≤ 2 ^ 32 - 4096
    → Fits k.heap p (blocks size)
    → ((q : ℕ) → Fits k.heap q (blocks size) → get_start_block k.heap (blocks size) ≤ q)
      × IsAllocated k.heap
          (get_start_block k.heap (blocks size))
          (blocks size)
          (kzalloc size k).0
          (kzalloc size k).1.heap
      × ((b : ℕ)
          → byte_at (kzalloc size k).1.memory b
            ≡ (if within (kzalloc size k).0 size b then 0 else byte_at k.memory b))
unfolding kzalloc malloc
kzalloc_lem size p k ad start aligned pos small fit =
    let n = blocks size in
    let (first, al) = malloc_blocks_lem k.heap n p ad (blocks-pos size pos small) fit in
    let valid : ((malloc_blocks k.heap n).0 == 0) ≡ false = ground (arith, al.address_lem) in
    let word : (malloc_blocks k.heap n).0 % 4 ≡ 0 = omega (arith, al.address_lem) in
    rw valid (
      λ q fits. (malloc_blocks_lem k.heap n q ad (blocks-pos size pos small) fits).0,
      al,
      λ b. clear_memory-byte_at k.memory (malloc_blocks k.heap n).0 size b word,
    )
