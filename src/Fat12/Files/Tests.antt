-- ===== src/Fat12/Files/Tests.antt =====
-- The operations on files on an empty disk.
use lazy_os.Prelude.{
  copy, ℕ, ◌+◌, ◌-◌, ◌%◌, true, false, within, [], ◌<◌, ◌≡◌, ◌≢◌, refl, arith, Option, some, none,
  ◌==◌, if◌then◌else◌, List,
}
use lazy_os.Heap.{
  address_to_block, align_value_to_upper, block_to_address, entry_type, free, free_loop,
  get_start_block, malloc, malloc_blocks, mark_blocks_free, mark_blocks_taken, mark_loop, search,
  with_entries,
}
use lazy_os.Str.{strnlen, strnlen_loop}
use lazy_os.Streamer.{
  disk_streamer_close, write_loop, disk_streamer_new, disk_streamer_write, in_sector,
  disk_streamer_seek, advance,
}
use lazy_os.Fat12.Content.{cluster_start, write_data_into_memory, write_data_loop, int_part}
use lazy_os.Fat12.{end_of_file, fat12_allocate, find_next_free, find_free_from, allocate_loop}
use lazy_os.Kheap.{Kernel, kzalloc, kfree, kmalloc}
use lazy_os.Disk.{blocks}
use lazy_os.Disk.Ata.{View, idle}
use lazy_os.Disk.Simulated.{ports}
use lazy_os.Streamer.Array.{array, array_disk}
use lazy_os.Fat12.Content.Allocated.{rest_size}
use lazy_os.Fat12.Directory.{
  find_file, root_entries, Fs, padded, table_bytes, find_slot, write_into_memory, put_entry,
}
use lazy_os.Fat12.Allocate.{free_count}
use lazy_os.Fat12.Directory.Entries.{put_entry-IsEntry}
use lazy_os.Fat12.Files.{create_file, read_file, delete_file}
use lazy_os.Fat12.Files.Create.{CanCreate, IsCreated, create_file-IsCreated, IsCreated-found}
use lazy_os.Fat12.Files.Others.{create_file-IsKept}
use lazy_os.Fat12.Files.Save.{IsKept}
use lazy_os.Fat12.Files.Delete.{IsDeleted, delete_file-IsDeleted}
use lazy_os.Fat12.Content.Chain.{IsFile-inside}
use lazy_os.Fat12.Files.RoundTrip.{IsBytes, read_file-create_file}

-- The letters of `abc`.
abbrev abc : ℕ → ℕ
abc j = if j == 0 then 97 else if j == 1 then 98 else if j == 2 then 99 else 0

abbrev zeros : ℕ → ℕ
zeros j = 0

abbrev counting : ℕ → ℕ
counting j = j

abbrev kernel : Kernel
kernel = record {
  heap = record { table = record { entries = zeros; total_entries = 8 }; start_addr = 0x01000000 };
  memory = zeros;
}

abbrev empty_disk : Fs array zeros
empty_disk = record { table = zeros; dir = zeros; kernel = kernel; device = zeros }

-- What follows the creation of a file of two clusters.
abbrev made : Option (Option ℕ × Fs array zeros)
made = create_file array zeros abc abc counting 700 32 zeros empty_disk

abbrev after : Fs array zeros
after = elim made [ none ↦ empty_disk | some r ↦ r.1 ]

abbrev slot : Option ℕ
slot = some 0

empty_disk-CanCreate : CanCreate array array_disk zeros 700 empty_disk 0
unfolding free_count find_slot
empty_disk-CanCreate = record {
  ready = tt;
  room = omega arith;
  few = omega arith;
  small = omega arith;
  enough = omega arith;
  slot = refl;
}

empty_disk-IsBytes : IsBytes array zeros abc abc 32 zeros empty_disk
empty_disk-IsBytes = record {
  name_lem = λ j. ground arith;
  ext_lem = λ j. ground arith;
  time_stamp_lem = λ j. omega arith;
  attribute_lem = omega arith;
  dir_lem = λ j. omega arith;
}

read_file-create_file_example :
    (slot ≡ slot)
    × (text : ℕ → ℕ) × (s'' : Fs array zeros) × (read_file array zeros abc after
        ≡ some (some text, s''))
    × (text (rest_size 700) ≡ 0)
    × ((j : ℕ) → j < 700 → j ≢ rest_size 700 → text j ≡ j % 256)
    × (array_disk.bytes s''.device ≡ array_disk.bytes after.device)
unfolding create_file copy kzalloc padded address_to_block align_value_to_upper block_to_address
    entry_type free free_loop get_start_block malloc malloc_blocks mark_blocks_free
    mark_blocks_taken mark_loop search with_entries kfree kmalloc strnlen strnlen_loop
    disk_streamer_close write_loop find_slot write_into_memory disk_streamer_new
    write_data_into_memory write_data_loop fat12_allocate find_next_free find_free_from
    allocate_loop put_entry disk_streamer_write int_part in_sector disk_streamer_seek advance
read_file-create_file_example =
    read_file-create_file array array_disk zeros abc abc counting 700 32 zeros empty_disk after 0
      slot empty_disk-CanCreate empty_disk-IsBytes (λ j h. absurd (omega arith)) refl (omega arith)

create_file-IsCreated_example :
    (c : ℕ) × (cs : List ℕ) × (s : Fs array zeros) × (create_file array zeros abc abc counting 700
        32 zeros empty_disk
      ≡ some (some 0, s))
    × IsCreated array array_disk zeros abc abc counting 700 32 zeros 0 c cs empty_disk s
create_file-IsCreated_example =
    create_file-IsCreated array array_disk zeros abc abc counting 700 32 zeros empty_disk 0
      empty_disk-CanCreate

-- A file system with one file of three zeros.
abbrev one_table : ℕ → ℕ
one_table j = if j == 0 then end_of_file else 0

abbrev one_dir : ℕ → ℕ
one_dir = put_entry 0 abc abc 233 32 zeros 3 zeros

abbrev one_disk : ℕ → ℕ
one_disk a =
    if within 112128 6272 a
    then one_dir (a - 112128)
    else if within 103424 5296 a
    then table_bytes one_table (a - 103424)
    else 0

abbrev one_file : Fs array zeros
one_file = record { table = one_table; dir = one_dir; kernel = kernel; device = one_disk }

one_file-IsKept : IsKept array array_disk zeros 0 0 [] zeros 3 one_file
one_file-IsKept =
    let is = put_entry-IsEntry 0 abc abc 233 32 zeros 3 zeros (omega arith) (omega arith) in
    record {
      size_lem = is.size_lem;
      first_cluster_lem = is.first_cluster_lem;
      file = (refl, omega arith, omega arith);
      holds = λ i h.
          let a : within 112128 6272 (cluster_start 0 + i) ≡ false = ground arith in
          let b : within 103424 5296 (cluster_start 0 + i) ≡ false = ground arith in rw (a, b) refl;
      dir_lem = λ j h.
          let a : within 112128 6272 (112128 + j) ≡ true = ground arith in
          let b : 112128 + j - 112128 ≡ j = omega arith in rw (a, b) refl;
      table_lem = λ j h.
          let a : within 112128 6272 (103424 + j) ≡ false = ground arith in
          let b : within 103424 5296 (103424 + j) ≡ true = ground arith in
          let c : 103424 + j - 103424 ≡ j = omega arith in rw (a, b, c) (omega arith);
      ready = tt;
    }

one_file-CanCreate : CanCreate array array_disk zeros 700 one_file 1
unfolding free_count find_slot put_entry padded strnlen strnlen_loop copy
one_file-CanCreate = record {
  ready = tt;
  room = omega arith;
  few = omega arith;
  small = omega arith;
  enough = omega arith;
  slot = refl;
}

create_file-IsKept_example :
    (s : Fs array zeros) × (create_file array zeros abc abc counting 700 32 zeros one_file
      ≡ some (some 1, s))
    × IsKept array array_disk zeros 0 0 [] zeros 3 s
create_file-IsKept_example =
    create_file-IsKept array array_disk zeros abc abc counting 700 32 zeros one_file 1 0 0 [] zeros
      3 one_file-CanCreate (omega arith) (λ e. absurd (omega arith), tt) one_file-IsKept

-- The file system with that file, its clusters, and what holds of it.
stored :
    (c : ℕ) × (cs : List ℕ) × (s : Fs array zeros) × IsKept array array_disk zeros 0 c cs counting
      700 s
    × (find_file root_entries s.dir abc 0 ≡ some 0)
stored =
    let (c, cs, s, e, is) =
      create_file-IsCreated array array_disk zeros abc abc counting 700 32 zeros empty_disk 0
        empty_disk-CanCreate in
    let on = IsFile-inside (fat12_allocate 700 zeros).1 4096 c cs 700 is.granted.file in
    (
      c,
      cs,
      s,
      is.kept,
      IsCreated-found array array_disk zeros abc abc counting 700 32 zeros empty_disk s 0 c cs is
          (omega arith) (omega arith) (omega arith) (λ j h. absurd (omega arith)),
    )

delete_file-IsDeleted_example :
    (s : Fs array zeros) × (delete_file array zeros abc stored.2 ≡ some s)
    × IsDeleted array array_disk zeros 0 stored.0 stored.1 stored.2 s
delete_file-IsDeleted_example =
    delete_file-IsDeleted array array_disk zeros 0 stored.0 stored.1 abc counting 700 stored.2
      stored.3 (omega arith) (omega arith) stored.4

-- An idle disk of zeros, behind its ports.
abbrev blank_disk : View
blank_disk = record {
  bytes = zeros;
  registers = record { count = 0; low = 0; mid = 0; high = 0; drive = 0 };
  mode = idle;
  busy = 0;
}

abbrev blank_fs : Fs (blocks ports 2) zeros
blank_fs = record { table = zeros; dir = zeros; kernel = kernel; device = blank_disk }

abbrev made_fs : Fs (blocks ports 2) zeros
made_fs = elim (create_file (blocks ports 2) zeros abc abc counting 300 32 zeros blank_fs) [
  | none ↦ blank_fs
  | some r ↦ r.1
]
