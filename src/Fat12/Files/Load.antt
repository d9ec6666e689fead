-- ===== src/Fat12/Files/Load.antt =====
-- What `read_file` prints of a file that is on the disk.
use mathlib.Core.Path.{fun_ext}
use lazy_os.Prelude.{
  ℕ, ◌+◌, ◌-◌, ◌*◌, ◌%◌, ◌^◌, ◌<◌, ◌≤◌, ◌≡◌, ◌≢◌, refl, ◌∙◌, false, arith, within, List, Option,
  some, ◌==◌, u32, Bool-cases, inl, inr,
}
use lazy_os.Kheap.{Kernel, kzalloc, kfree}
use lazy_os.Streamer.{Blocks, DiskStream, Transfer, disk_streamer_new, disk_streamer_seek}
use lazy_os.Streamer.Laws.{Disk}
use lazy_os.Streamer.Read.{disk_streamer_read-IsRead}
use lazy_os.Fat12.{sector_size, starting_data_sector}
use lazy_os.Fat12.Content.{read_content}
use lazy_os.Fat12.Content.Chain.{IsFile-inside}
use lazy_os.Fat12.Content.Load.{last_size}
use lazy_os.Fat12.Content.Cycle.{opened, read_content_lem}
use lazy_os.Fat12.Directory.{
  Fs, load_area, close_area, find_file, entry, root_entries, entry_size, load16, load32,
  start_root_dir, first_cluster_at, size_at,
}
use lazy_os.Fat12.Files.{read_found, read_file}
use lazy_os.Fat12.Files.Save.{IsKept}

module _ (b : Blocks) (k : Disk b) (buff : ℕ → ℕ) where
  -- The directory that is on the disk is read as it is in memory.
  load_dir_lem :
      (stream : DiskStream) (dir : ℕ → ℕ) (d : b.Device)
      → k.Ready d
      → stream.disk ≡ b.disk_get 0
      → starting_data_sector ≤ k.sectors
      → ((j : ℕ) → dir j < 256)
      → ((j : ℕ)
          → j < root_entries * entry_size
          → k.bytes d (start_root_dir * sector_size + j) ≡ dir j % 256)
      → (t : Transfer b) × (load_area b buff stream start_root_dir dir (root_entries * entry_size) d
          ≡ some t)
        × (t.stream.disk ≡ b.disk_get 0)
        × (t.memory ≡ dir)
        × (k.bytes t.device ≡ k.bytes d)
        × k.Ready t.device
  unfolding disk_streamer_seek
  load_dir_lem stream dir d ready first room byte held =
      let start = start_root_dir * sector_size in
      let total = root_entries * entry_size in
      let (t, e, is) =
        disk_streamer_read-IsRead b k (disk_streamer_seek stream start) buff dir 0 total d ready
          (record { first = first; inside = omega arith }) in
      (
        t,
        e,
        rw is.stream_lem first,
        fun_ext λ j. elim (Bool-cases (within 0 total j)) [
          | inl here ↦
              let at : j - 0 ≡ j = omega arith in
              let low : dir j % 256 ≡ dir j = omega (arith, byte j) in
              is.memory_lem j ∙ rw (here, at, held j (ground arith)) low
          | inr out ↦ is.memory_lem j ∙ rw out refl
        ],
        is.bytes_lem,
        is.ready,
      )

  read_found-run :
      (i : ℕ) (stream : DiskStream) (s : Fs b buff) (size first_cluster ptr : ℕ) (kernel : Kernel)
      (r : DiskStream × (ℕ → ℕ) × b.Device)
      → load32 s.dir (entry i + size_at) ≡ size
      → load16 s.dir (entry i + first_cluster_at) ≡ first_cluster
      → kzalloc (u32 (size + 1)) s.kernel ≡ (ptr, kernel)
      → (ptr == 0) ≡ false
      → read_content b s.table buff size first_cluster stream s.device ≡ some r
      → (s' : Fs b buff) × (read_found b buff (some i) stream s ≡ some (some r.1, s'))
        × (s'.table ≡ s.table)
        × (s'.dir ≡ s.dir)
        × (s'.device ≡ r.2)
  unfolding read_found
  read_found-run i stream s size first_cluster ptr kernel (stream', text, d) es ec ek ptr_lem er =
      let closed = close_area b buff stream' d (record s { kernel = kernel }) in
      (
        record closed { kernel = kfree ptr closed.kernel },
        rw (read_found, es, ec, ek, ptr_lem, er) refl,
        refl,
        refl,
        refl,
      )

  read_file-run :
      (name : ℕ → ℕ) (s : Fs b buff) (stream : DiskStream) (kernel : Kernel) (t : Transfer b)
      (found : Option ℕ) (r : Option (Option (ℕ → ℕ) × Fs b buff))
      → disk_streamer_new b 0 s.kernel ≡ (some stream, kernel)
      → load_area b buff stream start_root_dir s.dir (root_entries * entry_size) s.device ≡ some t
      → find_file root_entries t.memory name 0 ≡ found
      → read_found b buff found t.stream
          (record s { kernel = kernel; dir = t.memory; device = t.device })
        ≡ r
      → read_file b buff name s ≡ r
  unfolding read_file
  read_file-run name s stream kernel t found r new et ef er = rw (read_file, new, et, ef) er

  -- A file that is on the disk, and is the first whose entry has its name, is read if the heap has room
  -- for the string: `read_file` ends and prints its content, as bytes, but for a null character at the
  -- place that the size of the last cluster's content names. It keeps the table, the directory and the
  -- disk.
  pub read_file_lem :
      (i c : ℕ) (cs : List ℕ) (name content : ℕ → ℕ) (size : ℕ) (s : Fs b buff)
      → IsKept b k buff i c cs content size s
      → k.sectors ≤ 2 ^ 16
      → size < 2 ^ 25
      → ((j : ℕ) → s.dir j < 256)
      → find_file root_entries s.dir name 0 ≡ some i
      → (kzalloc (u32 (size + 1)) (disk_streamer_new b 0 s.kernel).1).0 ≢ 0
      → (text : ℕ → ℕ) × (s' : Fs b buff) × (read_file b buff name s ≡ some (some text, s'))
        × (text (last_size cs size) ≡ 0)
        × ((j : ℕ) → j < size → j ≢ last_size cs size → text j ≡ content j % 256)
        × (s'.table ≡ s.table)
        × (s'.dir ≡ s.dir)
        × (k.bytes s'.device ≡ k.bytes s.device)
        × k.Ready s'.device
  read_file_lem i c cs name content size s kept few small byte found room =
      let (stream, kernel, new, first) = opened b k s.table buff content s.kernel in
      let on = IsFile-inside s.table k.sectors c cs size kept.file in
      let (t, et, first', same_dir, same_disk, ready) =
        load_dir_lem stream s.dir s.device kept.ready first (omega arith) byte kept.dir_lem in
      let (r, er, nul, same, kept_disk, ready') =
        read_content_lem b k s.table buff content c cs size t.stream t.device ready first' kept.file
          few small (rw same_disk kept.holds) in
      let allocated = kzalloc (u32 (size + 1)) kernel in
      let there : allocated.0 ≢ 0 = λ e. room (rw new e) in
      let ptr_lem : (allocated.0 == 0) ≡ false = ground arith in
      let s1 = record s { kernel = kernel; dir = t.memory; device = t.device } in
      let (s', ef, table_lem, dir_lem, device_lem) =
        read_found-run i t.stream s1 size (c + starting_data_sector) allocated.0 allocated.1 r
          (rw same_dir kept.size_lem) (rw same_dir kept.first_cluster_lem) refl ptr_lem er in
      (
        r.1,
        s',
        read_file-run name s stream kernel t (some i) (some (some r.1, s')) new et
            (rw same_dir found) ef,
        nul,
        same,
        table_lem,
        dir_lem ∙ same_dir,
        rw device_lem (kept_disk ∙ same_disk),
        rw device_lem ready',
      )
