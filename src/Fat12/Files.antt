-- ===== src/Fat12/Files.antt =====
-- The operations on files: `create_file`, `read_file` and `delete_file`.
pub mod Erase
pub mod Save
pub mod Load
pub mod Create
pub mod Others
pub mod RoundTrip
pub mod OnDisk
pub mod Delete
mod Tests
use lazy_os.Prelude.{
  ℕ, zero, suc, ◌+◌, ◌-◌, ◌*◌, ◌%◌, ◌^◌, ◌==◌, if◌then◌else◌, Option, none, some, ◌>>=◌, sub32,
  update, fill, u32,
}
use lazy_os.Kheap.{kzalloc, kfree}
use lazy_os.Streamer.{
  Blocks, DiskStream, Transfer, disk_streamer_close, disk_streamer_seek, disk_streamer_write,
}
use lazy_os.Fat12.{
  total_fat12_entries, end_of_file, free_entry, sector_size, starting_data_sector, fat12_allocate,
}
use lazy_os.Fat12.Content.{cluster_start, read_content}
use lazy_os.Fat12.Directory.{
  Fs, open_stream, save_area, load_area, close_area, find_file, find_slot, put_entry, entry,
  root_entries, entry_size, load16, load32, table_bytes, fat1_sector, start_root_dir,
  first_cluster_at, size_at, write_into_memory,
}

module _ (b : Blocks) (buff : ℕ → ℕ) where
  -- The number of the entry is that of the pointer that the code returns; `none` is the null one, where
  -- the directory is full. A failed allocation is not looked at: its code becomes the first cluster.
  unfoldable pub create_file :
      (name ext content : ℕ → ℕ)
      → (size attribute : ℕ) → (time_stamp : ℕ → ℕ) → Fs b buff
      → Option (Option ℕ × Fs b buff)
  create_file name ext content size attribute time_stamp s =
      let (allocated, table) = fat12_allocate size s.table in
      let first_cluster = allocated % 2 ^ 16 in
      let s1 = record s { table = table } in
      elim (find_slot root_entries s.dir 0) [
        | none ↦ some (none, s1)
        | some i ↦
            let dir = put_entry i name ext first_cluster attribute time_stamp size s.dir in
            do s2 ← write_into_memory b buff i content (record s1 { dir = dir }); some (some i, s2)
      ]

  -- What follows the search of `read_file`. The string is what the code prints; `none` stands for the
  -- message that there is no such file. The buffer that it reads to is not null.
  unfoldable pub read_found :
      (found : Option ℕ) → DiskStream → Fs b buff → Option (Option (ℕ → ℕ) × Fs b buff)
  read_found none stream s = some (none, close_area b buff stream s.device s)
  read_found (some i) stream s =
      let size = load32 s.dir (entry i + size_at) in
      let first_cluster = load16 s.dir (entry i + first_cluster_at) in
      let (ptr, kernel) = kzalloc (u32 (size + 1)) s.kernel in
      if ptr == 0 then none else (do
        (stream', text, d) ← read_content b s.table buff size first_cluster stream s.device
        let closed = close_area b buff stream' d (record s { kernel = kernel })
        some (some text, record closed { kernel = kfree ptr closed.kernel }))

  unfoldable pub read_file : (name : ℕ → ℕ) → Fs b buff → Option (Option (ℕ → ℕ) × Fs b buff)
  unfolding read_found
  read_file name s = do
    (stream, s1) ← open_stream b buff s
    t ← load_area b buff stream start_root_dir s1.dir (root_entries * entry_size) s1.device
    read_found (find_file root_entries t.memory name 0) t.stream
        (record s1 { dir = t.memory; device = t.device })

  -- The loop of `delete_file` on fuel, with what it does to the last cluster behind it: each cluster
  -- is filled with zeros, and its entry is freed.
  unfoldable pub delete_loop :
      (fuel : ℕ)
      → DiskStream
      → (next : ℕ) → (table : ℕ → ℕ) → b.Device
      → Option (Transfer b × (ℕ → ℕ))
  delete_loop zero stream next table d = none
  delete_loop (suc fuel) stream next table d =
      let seeked = disk_streamer_seek stream (u32 (cluster_start next)) in
      let freed = update table next free_entry in
      elim (disk_streamer_write b seeked buff (λ j. 0) 0 sector_size d) [
        | none ↦ none
        | some t ↦
            let rest = delete_loop fuel t.stream (table next) freed t.device in
            if table next == end_of_file then some (t, freed) else rest
      ]

  -- What follows the search of `delete_file`.
  unfoldable pub delete_found : (i : ℕ) → Fs b buff → Option (Fs b buff)
  delete_found i s = do
    let next = sub32 (load16 s.dir (entry i + first_cluster_at)) starting_data_sector
    (stream, s1) ← open_stream b buff s
    (t, table) ← delete_loop (2 ^ 16) stream next s1.table s1.device
    let dir = fill s1.dir (entry i) entry_size 0
    t1 ← save_area b buff t.stream start_root_dir dir (root_entries * entry_size) t.device
    t2 ←
        save_area b buff t1.stream fat1_sector (table_bytes table) (2 * total_fat12_entries)
          t1.device
    some (close_area b buff t2.stream t2.device (record s1 { table = table; dir = dir }))

  unfoldable pub delete_file : (name : ℕ → ℕ) → Fs b buff → Option (Fs b buff)
  unfolding delete_found
  delete_file name s = elim (find_file root_entries s.dir name 0) [
    | none ↦ some s
    | some i ↦ delete_found i s
  ]
