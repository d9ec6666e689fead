-- ===== src/Fat12/Files/Create.antt =====
-- What `create_file` leaves in memory and on the disk.
use lazy_os.Prelude.{
  ℕ, zero, suc, ◌+◌, ◌*◌, ◌%◌, ◌^◌, ◌<◌, ◌≤◌, ◌≡◌, refl, false, arith, List, some, ◌==◌, Bool-cases,
  inl, inr,
}
use mathlib.Core.Option.{some-injective, none-ne-some}
use lazy_os.Streamer.{Blocks}
use lazy_os.Streamer.Laws.{Disk}
use lazy_os.Fat12.{total_fat12_entries, starting_data_sector, fat12_allocate}
use lazy_os.Fat12.Allocate.{clusters, free_count}
use lazy_os.Fat12.Content.Allocated.{IsGranted, fat12_allocate-IsGranted}
use lazy_os.Fat12.Content.Chain.{IsFile-inside}
use lazy_os.Fat12.Directory.{Fs, find_slot, find_file, put_entry, root_entries, write_into_memory}
use lazy_os.Fat12.Directory.Names.{matches}
use lazy_os.Fat12.Directory.Entries.{put_entry-IsEntry}
use lazy_os.Fat12.Directory.Create.{find_file-put_entry}
use lazy_os.Fat12.Files.{create_file}
use lazy_os.Fat12.Files.Save.{IsKept, IsElsewhere, write_into_memory-IsKept}

-- The slot that the search returns is an entry of the directory.
pub find_slot-inside :
    (k : ℕ) (dir : ℕ → ℕ) (from i : ℕ) → find_slot k dir from ≡ some i → i < from + k
unfolding find_slot
find_slot-inside zero dir from i e = absurd (none-ne-some i e)
find_slot-inside (suc k) dir from i e = elim (Bool-cases (dir (from * 28) == 0)) [
  | inl here ↦ let same : from ≡ i = some-injective from i (rw here at e) in omega arith
  | inr used ↦ let later = find_slot-inside k dir (from + 1) i (rw used at e) in omega arith
]

module _ (b : Blocks) (k : Disk b) (buff : ℕ → ℕ) (size : ℕ) where
  -- Where a call of `create_file` can succeed: the disk is ready and has the sectors of all clusters,
  -- 2^16 at most, the size is below 2^25, the table has enough free entries, and `i` is the directory's
  -- first unused entry.
  pub record CanCreate (s : Fs b buff) (i : ℕ) : Type 0 where
    pub ready : k.Ready s.device
    pub room : total_fat12_entries + starting_data_sector ≤ k.sectors
    pub few : k.sectors ≤ 2 ^ 16
    pub small : size < 2 ^ 25
    pub enough : clusters size ≤ free_count total_fat12_entries s.table 0
    pub slot : find_slot root_entries s.dir 0 ≡ some i

module _ (b : Blocks) (k : Disk b) (buff : ℕ → ℕ) (name ext content : ℕ → ℕ) (size attribute : ℕ)
    (time_stamp : ℕ → ℕ) where
  create_file-run :
      (s s' : Fs b buff) (i first_cluster : ℕ)
      → (fat12_allocate size s.table).0 % 2 ^ 16 ≡ first_cluster
      → find_slot root_entries s.dir 0 ≡ some i
      → write_into_memory b buff i content (record s {
        table = (fat12_allocate size s.table).1;
        dir = put_entry i name ext first_cluster attribute time_stamp size s.dir;
      })
        ≡ some s'
      → create_file b buff name ext content size attribute time_stamp s ≡ some (some i, s')
  unfolding create_file
  create_file-run s s' i first_cluster ec ei ew = rw (create_file, ei, ec, ew) refl

  -- What a successful call of `create_file` leaves.
  pub record IsCreated (i c : ℕ) (cs : List ℕ) (s s' : Fs b buff) : Type 0 where
    pub granted : IsGranted s.table k.sectors size (fat12_allocate size s.table) c cs
    pub table_lem : s'.table ≡ (fat12_allocate size s.table).1
    pub dir_lem :
        s'.dir ≡ put_entry i name ext (c + starting_data_sector) attribute time_stamp size s.dir
    pub kept : IsKept b k buff i c cs content size s'
    pub elsewhere : IsElsewhere b k buff c cs s.device s'.device

  -- On a ready disk that has the sectors of all clusters, and 2^16 sectors at most, for a size
  -- below 2^25, with enough free entries of the table and a slot in the directory: `create_file`
  -- ends and returns the slot. The content is in clusters that were free, the entry has the file's
  -- fields, and the table and the directory are on the disk, with all other bytes of the data as
  -- before.
  pub create_file-IsCreated :
      (s : Fs b buff) (i : ℕ)
      → CanCreate b k buff size s i
      → (c : ℕ) × (cs : List ℕ) × (s' : Fs b buff) × (create_file b buff name ext content size
            attribute time_stamp s
          ≡ some (some i, s'))
        × IsCreated i c cs s s'
  create_file-IsCreated s i can =
      let few = can.few in
      let small = can.small in
      let (c, cs, granted) =
        fat12_allocate-IsGranted size s.table k.sectors can.enough small can.room in
      let on = IsFile-inside (fat12_allocate size s.table).1 k.sectors c cs size granted.file in
      let sector = c + starting_data_sector in
      let dir = put_entry i name ext sector attribute time_stamp size s.dir in
      let is =
        put_entry-IsEntry i name ext sector attribute time_stamp size s.dir (omega arith)
          (omega arith) in
      let at : (fat12_allocate size s.table).0 % 2 ^ 16 ≡ sector =
        rw granted.sector_lem (omega arith) in
      let (s', e, table_lem, dir_lem, kept, elsewhere) =
        write_into_memory-IsKept b k buff i content
          (record s { table = (fat12_allocate size s.table).1; dir = dir }) c cs size can.ready
          is.size_lem is.first_cluster_lem granted.file few small in
      (
        c,
        cs,
        s',
        create_file-run s s' i sector at can.slot e,
        record {
          granted = granted;
          table_lem = table_lem;
          dir_lem = dir_lem;
          kept = kept;
          elsewhere = elsewhere;
        },
      )

  -- The search for the new file's name finds it, where no entry in front of it has that name.
  pub IsCreated-found :
      (s s' : Fs b buff) (i c : ℕ) (cs : List ℕ)
      → IsCreated i c cs s s'
      → i < root_entries
      → c + starting_data_sector < 2 ^ 16
      → size < 2 ^ 32
      → ((j : ℕ) → j < i → matches s.dir name j ≡ false)
      → find_file root_entries s'.dir name 0 ≡ some i
  IsCreated-found s s' i c cs is inside fits small before = rw is.dir_lem (
      find_file-put_entry i name ext (c + starting_data_sector) attribute time_stamp size s.dir
        inside fits small before)
