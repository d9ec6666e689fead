-- ===== src/Fat12.antt =====
-- src/fs/fat/fat12.c: the table of clusters, whose chains are the files' contents.
-- The table is a function from the cluster to its 16-bit entry, and a result of type `int` its bit
-- pattern.
pub mod Allocate
pub mod Release
pub mod Content
pub mod Directory
pub mod Files
mod Tests
use lazy_os.Prelude.{
  ℕ, zero, suc, ◌+◌, ◌-◌, ◌/◌, ◌%◌, ◌^◌, Bool, true, false, Option, none, some, ◌==◌, if◌then◌else◌,
  update, u32, neg,
}
use lazy_os.Heap.{no_memory}

abbrev pub total_fat12_entries : ℕ
total_fat12_entries = 2648

abbrev pub end_of_file : ℕ
end_of_file = 0xFFF

abbrev pub free_entry : ℕ
free_entry = 0x00

abbrev pub starting_data_sector : ℕ
starting_data_sector = 233

abbrev pub sector_size : ℕ
sector_size = 512

-- The loop of `find_next_free`, with `k` entries left, from the entry `i`.
unfoldable pub find_free_from : (k : ℕ) → (ℕ → ℕ) → (i : ℕ) → ℕ
find_free_from zero table i = neg 1
find_free_from (suc k) table i =
    let rest = find_free_from k table (i + 1) in if table i == free_entry then i else rest

unfoldable pub find_next_free : (table : ℕ → ℕ) → (from : ℕ) → ℕ
find_next_free table from = find_free_from (total_fat12_entries - from) table from

-- The loop of `fat12_allocate`, with `k` sectors left; `current` is the last one of the chain. The
-- test is false where it returns for the lack of free entries.
unfoldable pub allocate_loop : (k : ℕ) → (ℕ → ℕ) → (current : ℕ) → Bool × (ℕ → ℕ) × ℕ
allocate_loop zero table current = (true, table, current)
allocate_loop (suc k) table current =
    let next = find_next_free table (current + 1) in
    let rest = allocate_loop k (update table current next) next in
    if next == neg 1 then (false, table, current) else rest

unfoldable pub fat12_allocate : (size : ℕ) → (ℕ → ℕ) → ℕ × (ℕ → ℕ)
fat12_allocate size table =
    let sectors_needed = u32 (size + 511) / sector_size in
    let first = find_next_free table 0 in
    let (done, table', current) = allocate_loop (sectors_needed - 1) table first in
    if first == neg 1
    then (neg no_memory, table)
    else if done
    then (starting_data_sector + first, update table' current end_of_file)
    else (neg no_memory, table')

-- The loop of `free_file` on fuel: `none` means that the fuel ran out.
unfoldable pub free_file_loop : (fuel : ℕ) → (ℕ → ℕ) → (file_sector : ℕ) → Option (ℕ → ℕ)
free_file_loop zero table file_sector = none
free_file_loop (suc fuel) table file_sector =
    let next = table file_sector in
    let rest = free_file_loop fuel (update table next free_entry) next in
    if table file_sector == end_of_file then some (update table file_sector free_entry) else rest
