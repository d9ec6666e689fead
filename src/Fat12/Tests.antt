-- ===== src/Fat12/Tests.antt =====
-- The file system's theorems on an empty disk.
use lazy_os.Prelude.{ℕ, ◌<◌, ◌≡◌, ◌↔◌, arith, true, none, ◌==◌, if◌then◌else◌}
use lazy_os.Kheap.{Kernel}
use lazy_os.Str.{strnlen}
use lazy_os.Streamer.{DiskStream}
use lazy_os.Disk.Ata.{View, idle}
use lazy_os.Fat12.{end_of_file, fat12_allocate, free_file_loop}
use lazy_os.Fat12.Directory.{comp_file_name}
use lazy_os.Fat12.Directory.Names.{comp_file_name_lem}
use lazy_os.Fat12.Allocate.{free_count, IsAllocated, fat12_allocate-IsAllocated}
use lazy_os.Fat12.Release.{free_file_loop_lem}

abbrev empty_table : ℕ → ℕ
empty_table j = 0

-- Cluster 0 leads to cluster 1, the last one.
abbrev two_clusters : ℕ → ℕ
two_clusters j = if j == 0 then 1 else if j == 1 then end_of_file else 0

fat12_allocate-IsAllocated_example :
    (first : ℕ) × IsAllocated empty_table 1000 (fat12_allocate 1000 empty_table) first
unfolding free_count
fat12_allocate-IsAllocated_example = fat12_allocate-IsAllocated 1000 empty_table (omega arith)

free_file_loop_lem_example : free_file_loop 101 two_clusters 0 ≡ none
free_file_loop_lem_example = free_file_loop_lem 100 two_clusters 0

abbrev kernel : Kernel
kernel = record {
  heap = record {
    table = record { entries = λ j. 0; total_entries = 25600 };
    start_addr = 0x01000000;
  };
  memory = λ a. 0;
}

abbrev stream : DiskStream
stream = record { address = 0; pos = 0; disk = 1 }

abbrev zeros : ℕ → ℕ
zeros j = 0

abbrev counting : ℕ → ℕ
counting j = j

-- The letters of `abc`.
abbrev abc : ℕ → ℕ
abc j = if j == 0 then 97 else if j == 1 then 98 else if j == 2 then 99 else 0

comp_file_name_lem_example :
    (comp_file_name counting abc ≡ true) ↔ ((j : ℕ) → j < strnlen abc 8 → counting j ≡ abc j)
comp_file_name_lem_example = comp_file_name_lem counting abc

-- An idle disk of zeros.
abbrev blank_disk : View
blank_disk = record {
  bytes = zeros;
  registers = record { count = 0; low = 0; mid = 0; high = 0; drive = 0 };
  mode = idle;
  busy = 0;
}
