-- ===== src/Heap.antt =====
-- src/memory/heap/heap.c: the heap of blocks, as a table with one entry for each block.
pub mod Search
pub mod Mark
pub mod Address
pub mod Cycle
mod Tests
use lazy_os.Prelude.{
  ℕ, zero, suc, ◌+◌, ◌-◌, ◌*◌, ◌/◌, ◌%◌, ◌^◌, bit_and, bit_or, Bool, not, ◌||◌, ◌==◌, if◌then◌else◌,
  ltb, update, fill, u32, neg, sub32, is_negative, int_le, int_lt,
}

abbrev pub einvarg : ℕ
einvarg = 2

abbrev pub no_memory : ℕ
no_memory = 3

abbrev pub block_size : ℕ
block_size = 4096

abbrev pub entry_taken : ℕ
entry_taken = 0x01

abbrev pub entry_free : ℕ
entry_free = 0x00

abbrev pub has_next : ℕ
has_next = 0b10000000

abbrev pub is_first : ℕ
is_first = 0b01000000

pub record HeapTable : Type 0 where
  pub entries : ℕ → ℕ
  pub total_entries : ℕ

pub record Heap : Type 0 where
  pub table : HeapTable
  pub start_addr : ℕ

unfoldable pub validate_table : ℕ → ℕ → HeapTable → ℕ
validate_table ptr end table =
    if table.total_entries == sub32 end ptr / block_size then 0 else neg einvarg

unfoldable pub validate_alignment : ℕ → Bool
validate_alignment ptr = ptr % block_size == 0

-- The result is the code and the heap that `g_heap` points to.
unfoldable pub create_heap : ℕ → ℕ → HeapTable → ℕ × Heap
unfolding validate_table validate_alignment
create_heap ptr end table =
    let res : ℕ =
      if not (validate_alignment ptr) || not (validate_alignment end) then neg einvarg else 0 in
    let res : ℕ = validate_table ptr end table in
    (
      res,
      record {
        table =
            if not (is_negative res)
            then record table { entries = fill table.entries 0 table.total_entries entry_free }
            else table;
        start_addr = ptr;
      },
    )

unfoldable pub align_value_to_upper : ℕ → ℕ
align_value_to_upper val =
    if val % block_size == 0 then val else u32 (val - val % block_size + block_size)

unfoldable pub entry_type : ℕ → ℕ
entry_type entry = bit_and entry 0x0f

-- The loop of `heap_get_start_block` with `k` entries left, from the entry `i`.
unfoldable pub search : (k : ℕ) → (ℕ → ℕ) → ℕ → (i current start : ℕ) → ℕ
unfolding entry_type
search zero entries total_blocks i current start = start
search (suc k) entries total_blocks i current start =
    let taken = search k entries total_blocks (i + 1) 0 (neg 1) in
    let start' : ℕ = if start == neg 1 then u32 i else start in
    let current' : ℕ = u32 (current + 1) in
    let longer = search k entries total_blocks (i + 1) current' start' in
    if entry_type (entries i) == entry_free
    then (if current' == total_blocks then start' else longer)
    else taken

unfoldable pub get_start_block : Heap → ℕ → ℕ
get_start_block heap total_blocks =
    let start = search heap.table.total_entries heap.table.entries total_blocks 0 0 (neg 1) in
    if start == neg 1 then neg no_memory else start

unfoldable pub block_to_address : Heap → ℕ → ℕ
block_to_address heap block = u32 (heap.start_addr + u32 (block * block_size))

-- The loop of `heap_mark_blocks_taken`. The fuel is one more than the blocks to mark.
unfoldable pub mark_loop : (fuel : ℕ) → (i end_block entry : ℕ) → (ℕ → ℕ) → ℕ → ℕ
mark_loop zero i end_block entry entries = entries
mark_loop (suc fuel) i end_block entry entries =
    let entry' : ℕ = if i == end_block then entry_taken else bit_or entry_taken has_next in
    let rest = mark_loop fuel (u32 (i + 1)) end_block entry' (update entries i entry) in
    if int_le i end_block then rest else entries

unfoldable pub mark_blocks_taken : ℕ → ℕ → (ℕ → ℕ) → ℕ → ℕ
unfolding mark_loop
mark_blocks_taken start_block total_blocks =
    mark_loop (total_blocks + 1) start_block (sub32 (u32 (start_block + total_blocks)) 1) (
      if ltb 1 total_blocks
      then bit_or (bit_or entry_taken is_first) has_next
      else bit_or entry_taken is_first)

unfoldable pub with_entries : Heap → (ℕ → ℕ) → Heap
with_entries heap entries = record heap { table = record heap.table { entries = entries } }

-- The address is 0 where the source returns the null pointer.
unfoldable pub malloc_blocks : Heap → ℕ → ℕ × Heap
unfolding with_entries
malloc_blocks heap total_blocks =
    let start = get_start_block heap total_blocks in
    if is_negative start then (0, heap) else (
      block_to_address heap start,
      with_entries heap (mark_blocks_taken start total_blocks heap.table.entries),
    )

unfoldable pub malloc : Heap → ℕ → ℕ × Heap
malloc heap size = malloc_blocks heap (align_value_to_upper size / block_size)

-- The division rounds towards zero, so a negative offset gives a block that is not positive.
unfoldable pub address_to_block : Heap → ℕ → ℕ
address_to_block heap address =
    let offset = sub32 address heap.start_addr in
    if is_negative offset then u32 (2 ^ 32 - sub32 0 offset / block_size) else offset / block_size

-- The loop of `heap_mark_blocks_free`. The fuel is one more than the entries up to `total`.
unfoldable pub free_loop : (fuel : ℕ) → (i total : ℕ) → (ℕ → ℕ) → ℕ → ℕ
free_loop zero i total entries = entries
free_loop (suc fuel) i total entries =
    let freed = update entries i entry_free in
    let rest = free_loop fuel (u32 (i + 1)) total freed in
    if int_lt i total then (if bit_and (entries i) has_next == 0 then freed else rest) else entries

unfoldable pub mark_blocks_free : Heap → ℕ → Heap
unfolding with_entries free_loop
mark_blocks_free heap starting_block =
    let total = heap.table.total_entries in
    with_entries heap
      (free_loop (sub32 total starting_block + 1) starting_block total heap.table.entries)

unfoldable pub free : Heap → ℕ → Heap
free heap ptr = mark_blocks_free heap (address_to_block heap ptr)
