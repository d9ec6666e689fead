-- ===== src/Fat12/Content/OnDisk.antt =====
-- The contents of files on the machine's disk: the file system, the streamer and the driver together.
use lazy_os.Prelude.{ℕ, ◌+◌, ◌%◌, ◌^◌, ◌<◌, ◌≤◌, ◌≡◌, ◌≢◌, arith, some}
use lazy_os.Kheap.{Kernel}
use lazy_os.Streamer.{DiskStream}
use lazy_os.Ports.{Ports}
use lazy_os.Disk.{blocks, disk_get}
use lazy_os.Disk.Ata.{Ata}
use lazy_os.Disk.Driver.{IsReady, ata_disk}
use lazy_os.Fat12.{total_fat12_entries, starting_data_sector, fat12_allocate}
use lazy_os.Fat12.Allocate.{clusters, free_count}
use lazy_os.Fat12.Content.{write_data_into_memory, read_content}
use lazy_os.Fat12.Content.Allocated.{rest_size, read_content-fat12_allocate}

module _ (p : Ports) (a : Ata p) (fuel : ℕ) (enough : a.patience < fuel) (sectors : ℕ)
    (room : total_fat12_entries + starting_data_sector ≤ sectors) (few : sectors ≤ 2 ^ 16) where
  -- Over ports that behave as an ATA disk of enough sectors, and at most 2^16, which is ready,
  -- with more fuel than its patience and enough free entries for a size below 2^25: content that
  -- the driver writes to newly allocated clusters is read back by it byte by byte, as bytes, but
  -- for a null character at the size of the content's part in the last cluster.
  pub read_content-blocks :
      (table buff content : ℕ → ℕ) (size : ℕ) (kernel : Kernel) (stream : DiskStream) (s : p.State)
      → IsReady p a fuel enough s
      → stream.disk ≡ disk_get 0
      → clusters size ≤ free_count total_fat12_entries table 0
      → size < 2 ^ 25
      → let (first_cluster, table') = fat12_allocate size table in
        (w : Kernel × p.State) × (r : DiskStream × (ℕ → ℕ) × p.State) × (write_data_into_memory
            (blocks p fuel)
            table'
            buff
            size
            first_cluster
            content
            kernel
            s
          ≡ some w)
        × (read_content (blocks p fuel) table' buff size first_cluster stream w.1 ≡ some r)
        × (r.1 (rest_size size) ≡ 0)
        × ((i : ℕ) → i < size → i ≢ rest_size size → r.1 i ≡ content i % 256)
  unfolding ata_disk
  read_content-blocks table buff content size kernel stream s ready first vacant small =
      read_content-fat12_allocate (blocks p fuel) (ata_disk p a fuel enough sectors (omega arith))
        table buff content size kernel stream s ready first vacant small room few
