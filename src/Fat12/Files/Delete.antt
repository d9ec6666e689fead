-- ===== src/Fat12/Files/Delete.antt =====
-- What `delete_file` leaves in memory and on the disk.
use lazy_os.Prelude.{
  ℕ, ◌+◌, ◌*◌, ◌%◌, ◌^◌, ◌<◌, ◌≤◌, ◌≡◌, refl, ◌∙◌, arith, List, [], ◌∷◌, some, fill, sub32,
}
use lazy_os.Kheap.{Kernel}
use lazy_os.Streamer.{Blocks, DiskStream, Transfer, disk_streamer_new}
use lazy_os.Streamer.Laws.{Disk}
use lazy_os.Fat12.{total_fat12_entries, sector_size, starting_data_sector}
use lazy_os.Fat12.Content.{cluster_start}
use lazy_os.Fat12.Content.Chain.{Fresh, IsFile-inside}
use lazy_os.Fat12.Content.Cycle.{opened}
use lazy_os.Fat12.Directory.{
  Fs, save_area, close_area, find_file, entry, root_entries, entry_size, load16, table_bytes,
  fat1_sector, start_root_dir, first_cluster_at,
}
use lazy_os.Fat12.Files.{delete_loop, delete_found, delete_file}
use lazy_os.Fat12.Files.Erase.{IsErased, AllFree, AllZero, delete_loop-IsErased}
use lazy_os.Fat12.Files.Save.{IsArea, IsKept, IsElsewhere, save_area-IsArea}

module _ (b : Blocks) (k : Disk b) (buff : ℕ → ℕ) where
  delete_found-run :
      (i next : ℕ) (s : Fs b buff) (stream : DiskStream) (kernel : Kernel) (t t1 t2 : Transfer b)
      (table : ℕ → ℕ)
      → sub32 (load16 s.dir (entry i + first_cluster_at)) starting_data_sector ≡ next
      → disk_streamer_new b 0 s.kernel ≡ (some stream, kernel)
      → delete_loop b buff (2 ^ 16) stream next s.table s.device ≡ some (t, table)
      → save_area b buff t.stream start_root_dir
          (fill s.dir (entry i) entry_size 0)
          (root_entries * entry_size)
          t.device
        ≡ some t1
      → save_area b buff t1.stream fat1_sector
          (table_bytes table)
          (2 * total_fat12_entries)
          t1.device
        ≡ some t2
      → delete_found b buff i s
        ≡ some (
            close_area b buff t2.stream t2.device (record s {
              kernel = kernel;
              table = table;
              dir = fill s.dir (entry i) entry_size 0;
            }))
  unfolding delete_found
  delete_found-run i next s stream kernel t t1 t2 table en new el ed et =
      rw (delete_found, en, new, el, ed, et) refl

  delete_file-run :
      (i : ℕ) (name : ℕ → ℕ) (s s' : Fs b buff)
      → find_file root_entries s.dir name 0 ≡ some i
      → delete_found b buff i s ≡ some s'
      → delete_file b buff name s ≡ some s'
  unfolding delete_file
  delete_file-run i name s s' found e = rw (delete_file, found) e

  -- What the deletion of the file at the entry `i` and the clusters `c` and `cs` leaves.
  pub record IsDeleted (i c : ℕ) (cs : List ℕ) (s s' : Fs b buff) : Type 0 where
    pub free : AllFree s'.table (c ∷ cs)
    pub used : (j : ℕ) → Fresh j (c ∷ cs) → s'.table j ≡ s.table j
    pub zeros : AllZero (k.bytes s'.device) (c ∷ cs)
    pub dir_lem : s'.dir ≡ fill s.dir (entry i) entry_size 0
    pub dir_saved :
        (j : ℕ)
        → j < root_entries * entry_size
        → k.bytes s'.device (start_root_dir * sector_size + j) ≡ s'.dir j % 256
    pub table_saved :
        (j : ℕ)
        → j < 2 * total_fat12_entries
        → k.bytes s'.device (fat1_sector * sector_size + j) ≡ table_bytes s'.table j
    pub elsewhere : IsElsewhere b k buff c cs s.device s'.device
    pub ready : k.Ready s'.device

  -- Zeros stay where all bytes of the data are kept.
  AllZero-agree :
      (bytes bytes' : ℕ → ℕ) (cs : List ℕ)
      → ((a : ℕ) → starting_data_sector * sector_size ≤ a → bytes' a ≡ bytes a)
      → AllZero bytes cs
      → AllZero bytes' cs
  AllZero-agree bytes bytes' [] same zeros = tt
  AllZero-agree bytes bytes' (c ∷ cs) same (zeros, rest) = (
    λ i h. same (cluster_start c + i) (omega arith) ∙ zeros i h,
    AllZero-agree bytes bytes' cs same rest,
  )

  IsDeleted-areas :
      (i c : ℕ) (cs : List ℕ) (s : Fs b buff) (table : ℕ → ℕ) (d d1 d2 : b.Device) (kernel : Kernel)
      → IsErased b k buff s.table table c cs s.device d
      → IsArea b k buff start_root_dir
          (fill s.dir (entry i) entry_size 0)
          (root_entries * entry_size)
          d
          d1
      → IsArea b k buff fat1_sector (table_bytes table) (2 * total_fat12_entries) d1 d2
      → IsDeleted i c cs s (record {
        table = table;
        dir = fill s.dir (entry i) entry_size 0;
        kernel = kernel;
        device = d2;
      })
  IsDeleted-areas i c cs s table d d1 d2 kernel erased a a' = record {
    free = erased.free;
    used = erased.used;
    zeros =
        AllZero-agree (k.bytes d) (k.bytes d2) (c ∷ cs)
          (λ x h. a'.outside x (ground arith) ∙ a.outside x (ground arith)) erased.zeros;
    dir_lem = refl;
    dir_saved = λ j h. a'.outside (start_root_dir * sector_size + j) (ground arith) ∙ a.inside j h;
    table_saved = λ j h. a'.inside j h ∙ omega arith;
    elsewhere =
        λ x h away. a'.outside x (ground arith) ∙ a.outside x (ground arith) ∙ erased.kept x away;
    ready = a'.ready;
  }

  -- A file on a disk of at most 2^16 sectors, of a size below 2^25, that is the first of its name
  -- in the directory: `delete_file` ends; its clusters are free and full of zeros, its entry is
  -- zero, all other entries of the table and of the directory and all other bytes of the data are
  -- kept, and the table and the directory are on the disk.
  pub delete_file-IsDeleted :
      (i c : ℕ) (cs : List ℕ) (name content : ℕ → ℕ) (size : ℕ) (s : Fs b buff)
      → IsKept b k buff i c cs content size s
      → k.sectors ≤ 2 ^ 16
      → size < 2 ^ 25
      → find_file root_entries s.dir name 0 ≡ some i
      → (s' : Fs b buff) × (delete_file b buff name s ≡ some s') × IsDeleted i c cs s s'
  delete_file-IsDeleted i c cs name content size s kept few small found =
      let on = IsFile-inside s.table k.sectors c cs size kept.file in
      let (stream, kernel, new, first) = opened b k s.table buff content s.kernel in
      let next : sub32 (load16 s.dir (entry i + first_cluster_at)) starting_data_sector ≡ c =
        rw kept.first_cluster_lem (omega arith) in
      let (r, el, first', erased) =
        delete_loop-IsErased b k buff (2 ^ 16) stream s.table c cs size s.device kept.ready first
          kept.file (omega arith) in
      let dir = fill s.dir (entry i) entry_size 0 in
      let (t1, ed, first1, a) =
        save_area-IsArea b k buff r.0.stream start_root_dir dir (root_entries * entry_size)
          r.0.device erased.ready first' (omega arith) in
      let (t2, et, first2, a') =
        save_area-IsArea b k buff t1.stream fat1_sector (table_bytes r.1) (2 * total_fat12_entries)
          t1.device a.ready first1 (omega arith) in
      let k2 = close_area b buff t2.stream t2.device (record s { kernel = kernel }) in
      (
        record { table = r.1; dir = dir; kernel = k2.kernel; device = t2.device },
        delete_file-run i name s _ found
            (delete_found-run i c s stream kernel r.0 t1 t2 r.1 next new el ed et),
        IsDeleted-areas i c cs s r.1 r.0.device t1.device t2.device k2.kernel erased a a',
      )
