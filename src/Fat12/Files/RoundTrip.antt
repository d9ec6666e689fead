-- ===== src/Fat12/Files/RoundTrip.antt =====
-- A file is created and then read by its name.
use mathlib.Core.Option.{some-injective}
use lazy_os.Prelude.{ℕ, ◌+◌, ◌%◌, ◌<◌, ◌≡◌, ◌≢◌, ap, sym, ◌∙◌, false, arith, Option, some, u32}
use lazy_os.Kheap.{kzalloc}
use lazy_os.Streamer.{Blocks, disk_streamer_new}
use lazy_os.Streamer.Laws.{Disk}
use lazy_os.Fat12.{starting_data_sector, fat12_allocate}
use lazy_os.Fat12.Content.Allocated.{rest_size}
use lazy_os.Fat12.Content.Chain.{IsFile-inside}
use lazy_os.Fat12.Directory.{Fs, root_entries}
use lazy_os.Fat12.Directory.Names.{matches}
use lazy_os.Fat12.Directory.Entries.{put_entry-byte}
use lazy_os.Fat12.Files.{create_file, read_file}
use lazy_os.Fat12.Files.Create.{CanCreate, find_slot-inside, create_file-IsCreated, IsCreated-found}
use lazy_os.Fat12.Files.Load.{read_file_lem}

module _ (b : Blocks) (buff name ext : ℕ → ℕ) (attribute : ℕ) (time_stamp : ℕ → ℕ) where
  -- What `create_file` is given: bytes.
  pub record IsBytes (s : Fs b buff) : Type 0 where
    pub name_lem : (j : ℕ) → name j < 256
    pub ext_lem : (j : ℕ) → ext j < 256
    pub time_stamp_lem : (j : ℕ) → time_stamp j < 256
    pub attribute_lem : attribute < 256
    pub dir_lem : (j : ℕ) → s.dir j < 256

module _ (b : Blocks) (k : Disk b) (buff : ℕ → ℕ) (name ext content : ℕ → ℕ) (size attribute : ℕ)
    (time_stamp : ℕ → ℕ) where
  -- A file of bytes, of a name that no entry in front of the new one has, is created where
  -- `create_file` can succeed, and then read by its name with room for the text on the kernel's
  -- heap: `read_file` ends and prints the content, as bytes, but for a null character at the size
  -- of the content's part in the last cluster; that is its end for a file of one cluster, and
  -- inside a longer one. It leaves the bytes of the disk as they are.
  pub read_file-create_file :
      (s s' : Fs b buff) (i : ℕ) (created : Option ℕ)
      → CanCreate b k buff size s i
      → IsBytes b buff name ext attribute time_stamp s
      → ((j : ℕ) → j < i → matches s.dir name j ≡ false)
      → create_file b buff name ext content size attribute time_stamp s ≡ some (created, s')
      → (kzalloc (u32 (size + 1)) (disk_streamer_new b 0 s'.kernel).1).0 ≢ 0
      → (created ≡ some i)
        × (text : ℕ → ℕ) × (s'' : Fs b buff) × (read_file b buff name s' ≡ some (some text, s''))
        × (text (rest_size size) ≡ 0)
        × ((j : ℕ) → j < size → j ≢ rest_size size → text j ≡ content j % 256)
        × (k.bytes s''.device ≡ k.bytes s'.device)
  read_file-create_file s s' i created can bytes new run heap =
      let small = can.small in
      let few = can.few in
      let (c, cs, s1, e, is1) =
        create_file-IsCreated b k buff name ext content size attribute time_stamp s i can in
      let same = some-injective (some i, s1) (created, s') (sym e ∙ run) in
      let is = rw (ap (λ r. r.1) same) at is1 in
      let on = IsFile-inside (fat12_allocate size s.table).1 k.sectors c cs size is.granted.file in
      let sector = c + starting_data_sector in
      let found =
        IsCreated-found b k buff name ext content size attribute time_stamp s s' i c cs is
          (find_slot-inside root_entries s.dir 0 i can.slot) (omega arith) (omega arith) new in
      let byte : (j : ℕ) → s'.dir j < 256 = rw is.dir_lem (
        put_entry-byte i name ext sector attribute time_stamp size s.dir bytes.name_lem
          bytes.ext_lem bytes.time_stamp_lem bytes.attribute_lem bytes.dir_lem) in
      let (text, s'', er, nul, inside, table_lem, dir_lem, kept, ready) =
        read_file_lem b k buff i c cs name content size s' is.kept few small byte found heap in
      (
        sym (ap (λ r. r.0) same),
        text,
        s'',
        er,
        rw is.granted.last at nul,
        rw is.granted.last at inside,
        kept,
      )
