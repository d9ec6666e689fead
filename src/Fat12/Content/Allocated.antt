-- ===== src/Fat12/Content/Allocated.antt =====
-- The clusters that `fat12_allocate` gives a file, and the content that is kept in them.
use lazy_os.Prelude.{
  ℕ, zero, suc, ◌+◌, ◌-◌, ◌*◌, ◌^◌, ◌<◌, ◌≤◌, ◌≡◌, ◌≢◌, refl, ◌∙◌, arith, List, [], ◌∷◌, some, ◌%◌,
}
use lazy_os.Kheap.{Kernel}
use lazy_os.Streamer.{Blocks, DiskStream}
use lazy_os.Streamer.Laws.{Disk}
use lazy_os.Fat12.{
  total_fat12_entries, starting_data_sector, sector_size, free_entry, fat12_allocate,
}
use lazy_os.Fat12.Allocate.{IsChain, AllVacant, clusters, free_count, fat12_allocate-IsAllocated}
use lazy_os.Fat12.Content.{write_data_into_memory, read_content}
use lazy_os.Fat12.Content.Chain.{Fresh, IsFile}
use lazy_os.Fat12.Content.Load.{last_size}
use lazy_os.Fat12.Content.Cycle.{read_content-write_data_into_memory}

-- The `n` clusters behind `c` on its chain.
abbrev pub followers : (table : ℕ → ℕ) → (c n : ℕ) → List ℕ
followers table c zero = []
followers table c (suc n) = table c ∷ followers table (table c) n

-- The chain goes up, so a cluster below it is not on it.
Fresh-followers :
    (table : ℕ → ℕ) (x c n : ℕ) → x < c → IsChain table c n → Fresh x (c ∷ followers table c n)
Fresh-followers table x c zero h chain = (omega arith, tt)
Fresh-followers table x c (suc n) h (up, inside, chain) =
    (omega arith, Fresh-followers table x (table c) n (omega arith) chain)

pub IsChain-IsFile :
    (table : ℕ → ℕ) (sectors c n size : ℕ)
    → total_fat12_entries + starting_data_sector ≤ sectors
    → c < total_fat12_entries
    → IsChain table c n
    → (0 < n → sector_size * n < size)
    → size ≤ sector_size * (n + 1)
    → IsFile table sectors c (followers table c n) size
IsChain-IsFile table sectors c zero size room inside last more le = (last, omega arith, omega arith)
IsChain-IsFile table sectors c (suc n) size room inside (up, next, chain) more le =
    let big = more (omega arith) in
    (
      refl,
      omega arith,
      omega arith,
      omega arith,
      Fresh-followers table c (table c) n up chain,
      IsChain-IsFile table sectors (table c) n (size - sector_size) room next chain
          (λ h. omega arith) (omega arith),
    )

-- How much of the content is in the last cluster.
abbrev pub rest_size : (size : ℕ) → ℕ
rest_size size = size - sector_size * (clusters size - 1)

last_size-followers :
    (table : ℕ → ℕ) (c n size : ℕ) → last_size (followers table c n) size ≡ size - sector_size * n
last_size-followers table c zero size = omega arith
last_size-followers table c (suc n) size =
    last_size-followers table (table c) n (size - sector_size) ∙ omega arith

-- What is in use is not on the new chain.
Fresh-vacant :
    (before after : ℕ → ℕ) (x c n : ℕ)
    → before x ≢ free_entry
    → before c ≡ free_entry
    → AllVacant before after c n
    → Fresh x (c ∷ followers after c n)
Fresh-vacant before after x c zero used free vacant = (λ e. used (rw e free), tt)
Fresh-vacant before after x c (suc n) used free (next, vacant) =
    (λ e. used (rw e free), Fresh-vacant before after x (after c) n used next vacant)

-- A new file of `size` bytes at the clusters `first` and `cs`, all of which were free before.
pub record IsGranted (before : ℕ → ℕ) (sectors size : ℕ) (r : ℕ × (ℕ → ℕ)) (first : ℕ) (cs : List ℕ)
    : Type 0 where
  pub sector_lem : r.0 ≡ first + starting_data_sector
  pub file : IsFile r.1 sectors first cs size
  pub last : last_size cs size ≡ rest_size size
  pub used : (j : ℕ) → before j ≢ free_entry → r.1 j ≡ before j
  pub fresh : (j : ℕ) → before j ≢ free_entry → Fresh j (first ∷ cs)

-- With enough free entries `fat12_allocate` returns the first sector of a file of the size asked for.
pub fat12_allocate-IsGranted :
    (size : ℕ) (table : ℕ → ℕ) (sectors : ℕ)
    → clusters size ≤ free_count total_fat12_entries table 0
    → size < 2 ^ 25
    → total_fat12_entries + starting_data_sector ≤ sectors
    → (first : ℕ) × (cs : List ℕ) × IsGranted table sectors size
        (fat12_allocate size table)
        first
        cs
fat12_allocate-IsGranted size table sectors enough small room =
    let (first, is) = fat12_allocate-IsAllocated size table enough in
    let after = (fat12_allocate size table).1 in
    let n = clusters size - 1 in
    (
      first,
      followers after first n,
      record {
        sector_lem = is.sector_lem ∙ omega arith;
        file =
            IsChain-IsFile after sectors first n size room is.inside is.chain (λ h. omega arith)
              (omega arith);
        last = last_size-followers after first n size;
        used = is.used;
        fresh = λ j h. Fresh-vacant table after j first n h is.free is.vacant;
      },
    )

-- On a disk with the clusters' sectors, of at most 2^16 sectors, with enough free entries for a
-- size below 2^25: content that is written to newly allocated clusters is read back byte by byte,
-- as bytes, but for a null character at the size less that of the clusters in front of the last
-- one. That is the end of a file of one cluster, and inside a longer one.
pub read_content-fat12_allocate :
    (b : Blocks) (k : Disk b) (table buff content : ℕ → ℕ) (size : ℕ) (kernel : Kernel)
    (stream : DiskStream) (d : b.Device)
    → k.Ready d
    → stream.disk ≡ b.disk_get 0
    → clusters size ≤ free_count total_fat12_entries table 0
    → size < 2 ^ 25
    → total_fat12_entries + starting_data_sector ≤ k.sectors
    → k.sectors ≤ 2 ^ 16
    → let (first_cluster, table') = fat12_allocate size table in
      (w : Kernel × b.Device) × (r : DiskStream × (ℕ → ℕ) × b.Device) × (write_data_into_memory b
          table' buff size first_cluster content kernel d
        ≡ some w)
      × (read_content b table' buff size first_cluster stream w.1 ≡ some r)
      × (r.1 (rest_size size) ≡ 0)
      × ((i : ℕ) → i < size → i ≢ rest_size size → r.1 i ≡ content i % 256)
read_content-fat12_allocate b k table buff content size kernel stream d ready first enough small
      room few =
    let (c, cs, is) = fat12_allocate-IsGranted size table k.sectors enough small room in
    let (w, r, written, got, nul, same) =
      read_content-write_data_into_memory b k (fat12_allocate size table).1 buff content c cs size
        kernel stream d ready first is.file few small in
    (w, r, rw is.sector_lem written, rw is.sector_lem got, rw is.last at nul, rw is.last at same)
