-- ===== src/Fat12/Files/Save.antt =====
-- What `write_into_memory` leaves on the disk: the file, the table and the directory.
use lazy_os.Prelude.{
  ℕ, ◌+◌, ◌-◌, ◌*◌, ◌%◌, ◌^◌, ◌<◌, ◌≤◌, ◌≡◌, refl, ◌∙◌, true, false, arith, within, List, [], ◌∷◌,
  some,
}
use lazy_os.Kheap.{Kernel}
use lazy_os.Streamer.{Blocks, DiskStream, Transfer, disk_streamer_new, disk_streamer_seek}
use lazy_os.Streamer.Laws.{Disk}
use lazy_os.Streamer.Write.{disk_streamer_write-IsWritten}
use lazy_os.Fat12.{total_fat12_entries, sector_size, starting_data_sector}
use lazy_os.Fat12.Content.{cluster_start, write_data_into_memory}
use lazy_os.Fat12.Content.Chain.{Away, IsFile, IsFile-inside, Holds}
use lazy_os.Fat12.Content.Cycle.{opened, write_data_into_memory-IsSaved}
use lazy_os.Fat12.Directory.{
  Fs, save_area, close_area, entry, root_entries, entry_size, load16, load32, table_bytes,
  fat1_sector, start_root_dir, first_cluster_at, size_at, write_into_memory,
}

-- A byte in front of the data sectors is in no cluster.
Away-low : (a : ℕ) (cs : List ℕ) → a < starting_data_sector * sector_size → Away a cs
Away-low a [] h = tt
Away-low a (c ∷ cs) h =
    let out : within (cluster_start c) sector_size a ≡ false = ground arith in
    (out, Away-low a cs h)

-- What holds of the clusters' bytes holds of all bytes that agree behind the start of the data.
Holds-agree :
    (bytes bytes' : ℕ → ℕ) (c : ℕ) (cs : List ℕ) (content : ℕ → ℕ) (src size : ℕ)
    → ((a : ℕ) → starting_data_sector * sector_size ≤ a → bytes' a ≡ bytes a)
    → Holds bytes c cs content src size
    → Holds bytes' c cs content src size
Holds-agree bytes bytes' c [] content src size same held =
    λ i h. same (cluster_start c + i) (omega arith) ∙ held i h
Holds-agree bytes bytes' c (c' ∷ cs) content src size same (held, rest) = (
  λ i h. same (cluster_start c + i) (omega arith) ∙ held i h,
  Holds-agree bytes bytes' c' cs content (src + sector_size) (size - sector_size) same rest,
)

module _ (b : Blocks) (k : Disk b) (buff : ℕ → ℕ) where
  -- An area that starts at a sector.
  pub record IsArea (sector : ℕ) (memory : ℕ → ℕ) (total : ℕ) (d d' : b.Device) : Type 0 where
    pub inside : (j : ℕ) → j < total → k.bytes d' (sector * sector_size + j) ≡ memory j % 256
    pub outside :
        (a : ℕ) → within (sector * sector_size) total a ≡ false → k.bytes d' a ≡ k.bytes d a
    pub ready : k.Ready d'

  pub save_area-IsArea :
      (stream : DiskStream) (sector : ℕ) (memory : ℕ → ℕ) (total : ℕ) (d : b.Device)
      → k.Ready d
      → stream.disk ≡ b.disk_get 0
      → sector * sector_size + total ≤ k.sectors * sector_size
      → (t : Transfer b) × (save_area b buff stream sector memory total d ≡ some t)
        × (t.stream.disk ≡ b.disk_get 0)
        × IsArea sector memory total d t.device
  unfolding disk_streamer_seek
  save_area-IsArea stream sector memory total d ready first room =
      let start = sector * sector_size in
      let (t, e, is) =
        disk_streamer_write-IsWritten b k (disk_streamer_seek stream start) buff memory 0 total d
          ready (record { first = first; inside = room }) in
      (
        t,
        e,
        rw is.stream_lem first,
        record {
          inside = λ j h.
              let here : within start total (start + j) ≡ true = ground arith in
              let at : 0 + (start + j - start) ≡ j = omega arith in
              is.bytes_lem (start + j) ∙ rw (here, at) refl;
          outside = λ a out. is.bytes_lem a ∙ rw out refl;
          ready = is.ready;
        },
      )

  -- A file whose entry, clusters and content are on the disk, with the whole directory and table.
  pub record IsKept (i c : ℕ) (cs : List ℕ) (content : ℕ → ℕ) (size : ℕ) (s : Fs b buff)
      : Type 0 where
    pub size_lem : load32 s.dir (entry i + size_at) ≡ size
    pub first_cluster_lem : load16 s.dir (entry i + first_cluster_at) ≡ c + starting_data_sector
    pub file : IsFile s.table k.sectors c cs size
    pub holds : Holds (k.bytes s.device) c cs content 0 size
    pub dir_lem :
        (j : ℕ)
        → j < root_entries * entry_size
        → k.bytes s.device (start_root_dir * sector_size + j) ≡ s.dir j % 256
    pub table_lem :
        (j : ℕ)
        → j < 2 * total_fat12_entries
        → k.bytes s.device (fat1_sector * sector_size + j) ≡ table_bytes s.table j
    pub ready : k.Ready s.device

  write_into_memory-run :
      (i : ℕ) (content : ℕ → ℕ) (s : Fs b buff) (stream : DiskStream) (kernel kernel' : Kernel)
      (d : b.Device) (size first_cluster : ℕ) (t t' : Transfer b)
      → disk_streamer_new b 0 s.kernel ≡ (some stream, kernel)
      → load32 s.dir (entry i + size_at) ≡ size
      → load16 s.dir (entry i + first_cluster_at) ≡ first_cluster
      → write_data_into_memory b s.table buff size first_cluster content kernel s.device
        ≡ some (kernel', d)
      → save_area b buff stream fat1_sector (table_bytes s.table) (2 * total_fat12_entries) d
        ≡ some t
      → save_area b buff t.stream start_root_dir s.dir (root_entries * entry_size) t.device
        ≡ some t'
      → write_into_memory b buff i content s
        ≡ some (close_area b buff t'.stream t'.device (record s { kernel = kernel' }))
  unfolding write_into_memory
  write_into_memory-run i content s stream kernel kernel' d size first_cluster t t' new es ec ew et
        ed =
      rw (write_into_memory, new, es, ec, ew, et, ed) refl

  -- The two areas lie in front of the data sectors and apart, so the first write leaves what it puts
  -- there to the second, and both leave the clusters alone.
  IsKept-areas :
      (i c : ℕ) (cs : List ℕ) (content : ℕ → ℕ) (size : ℕ) (s s' : Fs b buff) (d d1 : b.Device)
      → load32 s.dir (entry i + size_at) ≡ size
      → load16 s.dir (entry i + first_cluster_at) ≡ c + starting_data_sector
      → IsFile s.table k.sectors c cs size
      → Holds (k.bytes d) c cs content 0 size
      → IsArea fat1_sector (table_bytes s.table) (2 * total_fat12_entries) d d1
      → IsArea start_root_dir s.dir (root_entries * entry_size) d1 s'.device
      → s'.table ≡ s.table
      → s'.dir ≡ s.dir
      → IsKept i c cs content size s'
  IsKept-areas i c cs content size s s' d d1 es ec file held a a' same_table same_dir = record {
    size_lem = rw same_dir es;
    first_cluster_lem = rw same_dir ec;
    file = rw same_table file;
    holds =
        Holds-agree (k.bytes d) (k.bytes s'.device) c cs content 0 size
          (λ x h. a'.outside x (ground arith) ∙ a.outside x (ground arith)) held;
    dir_lem = λ j h. rw same_dir (a'.inside j h);
    table_lem = λ j h.
        a'.outside (fat1_sector * sector_size + j) (ground arith)
        ∙ a.inside j h
        ∙ rw same_table (omega arith);
    ready = a'.ready;
  }

  -- A byte of the data that is in none of the file's clusters is kept.
  abbrev pub IsElsewhere : (c : ℕ) → List ℕ → (d d' : b.Device) → Type 0
  IsElsewhere c cs d d' =
      (a : ℕ)
      → starting_data_sector * sector_size ≤ a
      → Away a (c ∷ cs)
      → k.bytes d' a ≡ k.bytes d a

  -- Where the directory's entry names clusters of the disk that are as many as its size takes:
  -- `write_into_memory` ends; then the content is in the clusters, the table and the directory are on
  -- the disk, and all other bytes of the data are kept.
  pub write_into_memory-IsKept :
      (i : ℕ) (content : ℕ → ℕ) (s : Fs b buff) (c : ℕ) (cs : List ℕ) (size : ℕ)
      → k.Ready s.device
      → load32 s.dir (entry i + size_at) ≡ size
      → load16 s.dir (entry i + first_cluster_at) ≡ c + starting_data_sector
      → IsFile s.table k.sectors c cs size
      → k.sectors ≤ 2 ^ 16
      → size < 2 ^ 25
      → (s' : Fs b buff) × (write_into_memory b buff i content s ≡ some s')
        × (s'.table ≡ s.table)
        × (s'.dir ≡ s.dir)
        × IsKept i c cs content size s'
        × IsElsewhere c cs s.device s'.device
  write_into_memory-IsKept i content s c cs size ready es ec file few small =
      let on = IsFile-inside s.table k.sectors c cs size file in
      let (stream, kernel, new, first) = opened b k s.table buff content s.kernel in
      let (w, ew, saved) =
        write_data_into_memory-IsSaved b k s.table buff content c cs size kernel s.device ready file
          few small in
      let (t, et, first', a) =
        save_area-IsArea stream fat1_sector (table_bytes s.table) (2 * total_fat12_entries) w.1
          saved.ready first (omega arith) in
      let (t', ed, first'', a') =
        save_area-IsArea t.stream start_root_dir s.dir (root_entries * entry_size) t.device a.ready
          first' (omega arith) in
      let s' = close_area b buff t'.stream t'.device (record s { kernel = w.0 }) in
      (
        s',
        write_into_memory-run i content s stream kernel w.0 w.1 size (c + starting_data_sector) t t'
            new es ec ew et ed,
        refl,
        refl,
        IsKept-areas i c cs content size s s' w.1 t.device es ec file saved.holds a a' refl refl,
        λ x low away. a'.outside x (ground arith) ∙ a.outside x (ground arith) ∙ saved.kept x away,
      )
