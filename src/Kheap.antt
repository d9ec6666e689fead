-- ===== src/Kheap.antt =====
-- src/memory/heap/kheap.c: the kernel's heap, and the words of memory that `kzalloc` clears.
-- `print` shows messages only, and is left out. Memory is read and written by aligned 32-bit words:
-- a memory is a function from the address of a word to the word, whose lowest byte comes first.
pub mod Bytes
pub mod Init
mod Tests
use lazy_os.Prelude.{ℕ, ◌+◌, ◌-◌, ◌*◌, ◌/◌, ◌%◌, ◌^◌, ◌==◌, if◌then◌else◌, u32, within}
use lazy_os.Heap.{Heap, HeapTable, create_heap, malloc, free}

abbrev pub heap_size_bytes : ℕ
heap_size_bytes = 104857600

abbrev pub heap_block_size : ℕ
heap_block_size = 4096

abbrev pub heap_address : ℕ
heap_address = 0x01000000

-- The table that `kheap_init` fills in. Its entries lie at a fixed address, with any contents.
unfoldable pub kernel_heap_table : (ℕ → ℕ) → HeapTable
kernel_heap_table contents = record {
  entries = contents;
  total_entries = heap_size_bytes / heap_block_size;
}

unfoldable pub kheap_init : (ℕ → ℕ) → ℕ × Heap
unfolding kernel_heap_table
kheap_init contents =
    create_heap heap_address (u32 (heap_address + heap_size_bytes)) (kernel_heap_table contents)

-- The kernel's heap and the memory.
pub record Kernel : Type 0 where
  pub heap : Heap
  pub memory : ℕ → ℕ

unfoldable pub kmalloc : ℕ → Kernel → ℕ × Kernel
kmalloc size k = let (ptr, heap) = malloc k.heap size in (ptr, record k { heap = heap })

unfoldable pub kfree : ℕ → Kernel → Kernel
kfree ptr k = record k { heap = free k.heap ptr }

-- `memset(ptr, 0, size)` from the address of a word on: the words that lie inside are zero, and of the
-- word behind them the bytes that are left.
unfoldable pub clear_memory : (memory : ℕ → ℕ) → (ptr size : ℕ) → ℕ → ℕ
clear_memory memory ptr size a =
    let whole = size - size % 4 in
    if within ptr whole a
    then 0
    else if ptr + whole == a
    then memory a - memory a % 2 ^ (8 * (size % 4))
    else memory a

unfoldable pub kzalloc : ℕ → Kernel → ℕ × Kernel
unfolding kmalloc clear_memory
kzalloc size k =
    let (ptr, k') = kmalloc size k in
    if ptr == 0 then (0, k') else (ptr, record k' { memory = clear_memory k'.memory ptr size })
