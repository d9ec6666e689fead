-- ===== src/Fat12/Content.antt =====
-- The content of a file, cluster by cluster: `write_data_into_memory` and the loop of `read_file`.
pub mod Chain
pub mod Store
pub mod Load
pub mod Cycle
pub mod Allocated
pub mod OnDisk
use lazy_os.Prelude.{
  ℕ, zero, suc, ◌+◌, ◌-◌, ◌*◌, ◌%◌, ◌^◌, ◌==◌, ltb, if◌then◌else◌, Option, none, some, sub32,
  int_lt, update,
}
use lazy_os.Kheap.{Kernel}
use lazy_os.Streamer.{
  Blocks, DiskStream, Transfer, disk_streamer_new, disk_streamer_close, disk_streamer_read,
  disk_streamer_seek, disk_streamer_write,
}
use lazy_os.Fat12.{end_of_file, sector_size, starting_data_sector}

-- `data_size > SECTOR_SIZE ? SECTOR_SIZE : data_size`, on `int` and on `uint32_t`.
unfoldable pub int_part : (data_size : ℕ) → ℕ
int_part data_size = if int_lt sector_size data_size then sector_size else data_size

unfoldable pub part : (data_size : ℕ) → ℕ
part data_size = if ltb sector_size data_size then sector_size else data_size

-- The byte at which a cluster of the table begins on the disk.
abbrev pub cluster_start : (cluster : ℕ) → ℕ
cluster_start cluster = (cluster + starting_data_sector) * sector_size

module _ (b : Blocks) (table : ℕ → ℕ) (buff : ℕ → ℕ) where
  -- The loop of `write_data_into_memory` on fuel, with the write of the last cluster behind it. `src` is
  -- the place of `content` that the code's pointer has reached, and `buff` what the streamer's own buffer
  -- holds when it is called.
  unfoldable pub write_data_loop :
      (fuel : ℕ)
      → DiskStream
      → (next : ℕ) → (content : ℕ → ℕ) → (src data_size to_write : ℕ) → b.Device
      → Option (Transfer b)
  write_data_loop zero stream next content src data_size to_write d = none
  write_data_loop (suc fuel) stream next content src data_size to_write d =
      let seeked = disk_streamer_seek stream (cluster_start next) in
      let n = int_part data_size in
      if table next == end_of_file
      then disk_streamer_write b seeked buff content src to_write d
      else elim (disk_streamer_write b seeked buff content src n d) [
        | none ↦ none
        | some t ↦
            write_data_loop fuel t.stream (table next) content (src + n) (sub32 data_size n) n
              t.device
      ]

  -- The end of `write_data_into_memory`.
  abbrev pub close_written : Kernel → Option (Transfer b) → Option (Kernel × b.Device)
  close_written k none = none
  close_written k (some t) = some (disk_streamer_close t.stream k, t.device)

  -- What follows the opening of a stream; `none` also stands for the use of a null stream. A file has
  -- fewer clusters than there are 16-bit numbers.
  abbrev pub write_opened :
      (size next : ℕ)
      → (content : ℕ → ℕ) → b.Device
      → Option DiskStream × Kernel
      → Option (Kernel × b.Device)
  write_opened size next content d (none, k) = none
  write_opened size next content d (some stream, k) =
      close_written k (write_data_loop (2 ^ 16) stream next content 0 size (int_part size) d)

  unfoldable pub write_data_into_memory :
      (size first_cluster : ℕ) → (content : ℕ → ℕ) → Kernel → b.Device → Option (Kernel × b.Device)
  write_data_into_memory size first_cluster content k d =
      let next = (first_cluster + 2 ^ 16 - starting_data_sector) % 2 ^ 16 in
      write_opened size next content d (disk_streamer_new b 0 k)

  -- The loop of `read_file` on fuel, with the read of the last cluster behind it, which takes all that
  -- is left; `next` is a sector. The number is what is left of the size.
  unfoldable pub read_data_loop :
      (fuel : ℕ)
      → DiskStream
      → (next : ℕ) → (out : ℕ → ℕ) → (dst data_size : ℕ) → b.Device
      → Option (Transfer b × ℕ)
  read_data_loop zero stream next out dst data_size d = none
  read_data_loop (suc fuel) stream next out dst data_size d =
      let seeked = disk_streamer_seek stream (next * sector_size) in
      let n = part data_size in
      let entry = table (next - starting_data_sector) in
      if entry == end_of_file
      then elim (disk_streamer_read b seeked buff out dst (data_size % 2 ^ 16) d) [
        | none ↦ none
        | some t ↦ some (t, data_size)
      ]
      else elim (disk_streamer_read b seeked buff out dst n d) [
        | none ↦ none
        | some t ↦
            read_data_loop fuel t.stream ((entry + starting_data_sector) % 2 ^ 16) t.memory
              (dst + n) (sub32 data_size n) t.device
      ]

  -- The string that `read_file` prints, in its zeroed buffer: the null character goes to the place that
  -- the rest of the size names.
  abbrev pub printed : Option (Transfer b × ℕ) → Option (DiskStream × (ℕ → ℕ) × b.Device)
  printed none = none
  printed (some (t, left)) = some (t.stream, update t.memory left 0, t.device)

  unfoldable pub read_content :
      (size first_cluster : ℕ) → DiskStream → b.Device → Option (DiskStream × (ℕ → ℕ) × b.Device)
  read_content size first_cluster stream d =
      printed (read_data_loop (2 ^ 16) stream first_cluster (λ j. 0) 0 size d)
