-- ===== src/Fat12/Files/Others.antt =====
-- The other files, when `create_file` adds one.
use lazy_os.Prelude.{ℕ, ◌+◌, ◌-◌, ◌^◌, ◌<◌, ◌≡◌, ◌≢◌, refl, ◌∙◌, arith, List, [], ◌∷◌, some}
use lazy_os.Streamer.{Blocks}
use lazy_os.Streamer.Laws.{Disk}
use lazy_os.Fat12.{sector_size, starting_data_sector, free_entry, fat12_allocate}
use lazy_os.Fat12.Content.{cluster_start}
use lazy_os.Fat12.Content.Chain.{Fresh, Fresh-Away, IsFile, IsFile-inside, Holds}
use lazy_os.Fat12.Directory.{Fs, entry, put_entry, load16, load32, size_at, first_cluster_at}
use lazy_os.Fat12.Directory.Entries.{put_entry-IsEntry}
use lazy_os.Fat12.Files.{create_file}
use lazy_os.Fat12.Files.Save.{IsKept, IsElsewhere}
use lazy_os.Fat12.Files.Create.{CanCreate, IsCreated, create_file-IsCreated}

-- No entry of the list is free.
abbrev pub AllUsed : (table : ℕ → ℕ) → List ℕ → Type 0
AllUsed table [] = Unit
AllUsed table (c ∷ cs) = (table c ≢ free_entry) × AllUsed table cs

-- A table that keeps the entries in use keeps a file.
IsFile-used :
    (table table' : ℕ → ℕ) (sectors c : ℕ) (cs : List ℕ) (size : ℕ)
    → ((j : ℕ) → table j ≢ free_entry → table' j ≡ table j)
    → AllUsed table (c ∷ cs)
    → IsFile table sectors c cs size
    → IsFile table' sectors c cs size
IsFile-used table table' sectors c [] size same (used, rest) (last, on, fits) =
    (same c used ∙ last, on, fits)
IsFile-used table table' sectors c (c' ∷ cs) size same (used, rest)
      (next, more, on, big, fresh, file) =
    (
      same c used ∙ next,
      more,
      on,
      big,
      fresh,
      IsFile-used table table' sectors c' cs (size - sector_size) same rest file,
    )

-- Numbers in memory whose bytes are kept.
load16_same :
    (m m' : ℕ → ℕ) (a : ℕ) → ((f : ℕ) → f < 4 → m (a + f) ≡ m' (a + f)) → load16 m a ≡ load16 m' a
load16_same m m' a same =
    let plain : a + 0 ≡ a = omega arith in
    let first : m a ≡ m' a = rw plain at (same 0 (omega arith)) in
    rw (first, same 1 (omega arith)) refl

load32_same :
    (m m' : ℕ → ℕ) (a : ℕ) → ((f : ℕ) → f < 4 → m (a + f) ≡ m' (a + f)) → load32 m a ≡ load32 m' a
load32_same m m' a same =
    let plain : a + 0 ≡ a = omega arith in
    let first : m a ≡ m' a = rw plain at (same 0 (omega arith)) in
    rw (first, same 1 (omega arith), same 2 (omega arith), same 3 (omega arith)) refl

module _ (b : Blocks) (k : Disk b) (buff : ℕ → ℕ) where
  -- A cluster outside of the new file's keeps its bytes.
  cluster_kept :
      (x c : ℕ) (cs : List ℕ) (d d' : b.Device) (i : ℕ)
      → Fresh x (c ∷ cs)
      → IsElsewhere b k buff c cs d d'
      → i < sector_size
      → k.bytes d' (cluster_start x + i) ≡ k.bytes d (cluster_start x + i)
  cluster_kept x c cs d d' i fresh elsewhere h =
      elsewhere (cluster_start x + i) (omega arith) (Fresh-Away x (c ∷ cs) i h fresh)

  Holds-elsewhere :
      (table content : ℕ → ℕ) (c0 : ℕ) (cs0 : List ℕ) (src size c : ℕ) (cs : List ℕ)
      (d d' : b.Device)
      → IsFile table k.sectors c0 cs0 size
      → AllUsed table (c0 ∷ cs0)
      → ((j : ℕ) → table j ≢ free_entry → Fresh j (c ∷ cs))
      → IsElsewhere b k buff c cs d d'
      → Holds (k.bytes d) c0 cs0 content src size
      → Holds (k.bytes d') c0 cs0 content src size
  Holds-elsewhere table content c0 [] src size c cs d d' file (used, rest) apart elsewhere held =
      λ i h.
        cluster_kept c0 c cs d d' i (apart c0 used) elsewhere (omega (arith, file.2)) ∙ held i h
  Holds-elsewhere table content c0 (c1 ∷ cs0) src size c cs d d' file (used, rest) apart elsewhere
        (held, later) =
      (
        λ i h. cluster_kept c0 c cs d d' i (apart c0 used) elsewhere h ∙ held i h,
        Holds-elsewhere table content c1 cs0 (src + sector_size) (size - sector_size) c cs d d'
            file.5 rest apart elsewhere later,
      )

  -- Where the calls end with a new file, a file at another entry of the directory, whose clusters are in
  -- use, stays in memory and on the disk.
  IsKept-other :
      (name ext content : ℕ → ℕ) (size attribute : ℕ) (time_stamp : ℕ → ℕ) (s s' : Fs b buff)
      (i c : ℕ) (cs : List ℕ) (j c0 : ℕ) (cs0 : List ℕ) (content0 : ℕ → ℕ) (size0 : ℕ)
      → IsCreated b k buff name ext content size attribute time_stamp i c cs s s'
      → c + starting_data_sector < 2 ^ 16
      → size < 2 ^ 32
      → j ≢ i
      → AllUsed s.table (c0 ∷ cs0)
      → IsKept b k buff j c0 cs0 content0 size0 s
      → IsKept b k buff j c0 cs0 content0 size0 s'
  IsKept-other name ext content size attribute time_stamp s s' i c cs j c0 cs0 content0 size0 is
        fits small other used before =
      let sector = c + starting_data_sector in
      let dir = put_entry i name ext sector attribute time_stamp size s.dir in
      let e = put_entry-IsEntry i name ext sector attribute time_stamp size s.dir fits small in
      record {
        size_lem = rw is.dir_lem (
            load32_same dir s.dir (entry j + size_at)
              (λ f h. e.others (entry j + size_at + f) (ground arith))
            ∙ before.size_lem);
        first_cluster_lem = rw is.dir_lem (
            load16_same dir s.dir (entry j + first_cluster_at)
              (λ f h. e.others (entry j + first_cluster_at + f) (ground arith))
            ∙ before.first_cluster_lem);
        file = rw is.table_lem (
            IsFile-used s.table (fat12_allocate size s.table).1 k.sectors c0 cs0 size0
              is.granted.used used before.file);
        holds =
            Holds-elsewhere s.table content0 c0 cs0 0 size0 c cs s.device s'.device before.file used
              is.granted.fresh is.elsewhere before.holds;
        dir_lem = is.kept.dir_lem;
        table_lem = is.kept.table_lem;
        ready = is.kept.ready;
      }

  -- Where `create_file` can succeed it does, with a new file at the entry `i`, and a file at
  -- another entry, whose clusters are in use, stays as it is: its entry, its chain, and its
  -- content on the disk, where the new table and directory are too.
  pub create_file-IsKept :
      (name ext content : ℕ → ℕ) (size attribute : ℕ) (time_stamp : ℕ → ℕ) (s : Fs b buff) (i : ℕ)
      (j c0 : ℕ) (cs0 : List ℕ) (content0 : ℕ → ℕ) (size0 : ℕ)
      → CanCreate b k buff size s i
      → j ≢ i
      → AllUsed s.table (c0 ∷ cs0)
      → IsKept b k buff j c0 cs0 content0 size0 s
      → (s' : Fs b buff) × (create_file b buff name ext content size attribute time_stamp s
          ≡ some (some i, s'))
        × IsKept b k buff j c0 cs0 content0 size0 s'
  create_file-IsKept name ext content size attribute time_stamp s i j c0 cs0 content0 size0 can
        other used before =
      let few = can.few in
      let small = can.small in
      let (c, cs, s', e, is) =
        create_file-IsCreated b k buff name ext content size attribute time_stamp s i can in
      let table = (fat12_allocate size s.table).1 in
      let on = IsFile-inside table k.sectors c cs size is.granted.file in
      (
        s',
        e,
        IsKept-other name ext content size attribute time_stamp s s' i c cs j c0 cs0 content0 size0
            is (omega arith) (omega arith) other used before,
      )
