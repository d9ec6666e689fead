-- ===== src/Streamer.antt =====
-- src/disk/streamer.c: a position on the disk, and the transfers that split it into sectors. The
-- blocks of the disk are an interface, which src/disk/disk.c implements.
pub mod Laws
pub mod Read
pub mod Write
pub mod RoundTrip
pub mod Array
mod Tests
use lazy_os.Prelude.{
  ℕ, zero, suc, ◌+◌, ◌-◌, ◌%◌, ◌==◌, if◌then◌else◌, Option, none, some, u32, sub32, int_div,
  int_mod, int_lt, is_negative, copy,
}
use lazy_os.Kheap.{Kernel, kzalloc, kfree}

-- What the streamer calls: one block is read into a buffer or written from it, at a pointer to a disk.
-- The result is a code; `none` stands for a call that does not return.
pub record Blocks : Type 1 where
  pub Device : Type 0
  pub disk_get : (index : ℕ) → ℕ
  pub read_block : (disk lba : ℕ) → (buff : ℕ → ℕ) → Device → Option (ℕ × (ℕ → ℕ) × Device)
  pub write_block : (disk lba : ℕ) → (buff : ℕ → ℕ) → Device → Option (ℕ × Device)

abbrev pub lazyos_sector_size : ℕ
lazyos_sector_size = 512

-- The structure, with the address at which it was allocated.
pub record DiskStream : Type 0 where
  pub address : ℕ
  pub pos : ℕ
  pub disk : ℕ

-- `none` stands for the null pointer that is returned where there is no such disk.
unfoldable pub disk_streamer_new : Blocks → (disk_id : ℕ) → Kernel → Option DiskStream × Kernel
disk_streamer_new b disk_id k =
    let disk = b.disk_get disk_id in
    let (address, k') = kzalloc 8 k in
    if disk == 0 then (none, k) else (some (record { address = address; pos = 0; disk = disk }), k')

unfoldable pub disk_streamer_seek : DiskStream → (pos : ℕ) → DiskStream
disk_streamer_seek stream pos = record stream { pos = pos }

unfoldable pub disk_streamer_close : DiskStream → Kernel → Kernel
disk_streamer_close stream k = kfree stream.address k

-- How many bytes the next round transfers.
unfoldable pub in_sector : DiskStream → (remaining : ℕ) → ℕ
in_sector stream remaining =
    let space = sub32 lazyos_sector_size (int_mod stream.pos lazyos_sector_size) in
    if int_lt space remaining then space else remaining

unfoldable pub advance : DiskStream → (n : ℕ) → DiskStream
advance stream n = record stream { pos = u32 (stream.pos + n) }

module _ (b : Blocks) where
  -- What a transfer ends with: its code, the stream, the memory that it fills and the device.
  pub record Transfer : Type 0 where
    pub code : ℕ
    pub stream : DiskStream
    pub memory : ℕ → ℕ
    pub device : b.Device

  -- The loop of `disk_streamer_read`, on fuel: `out` is the memory, and `dst` the place in it where the
  -- next byte goes.
  unfoldable pub read_loop :
      (fuel : ℕ)
      → DiskStream
      → (buff out : ℕ → ℕ) → (dst remaining : ℕ) → b.Device
      → Option Transfer
  read_loop zero stream buff out dst remaining d = none
  read_loop (suc fuel) stream buff out dst remaining d =
      let sector = int_div stream.pos lazyos_sector_size in
      let offset = int_mod stream.pos lazyos_sector_size in
      let to_read = in_sector stream remaining in
      let round = λ (r : ℕ × (ℕ → ℕ) × b.Device).
        (let next =
            read_loop fuel (advance stream to_read) r.1 (copy to_read r.1 offset out dst)
              (dst + to_read) (sub32 remaining to_read) r.2 in
          if is_negative r.0
          then some (record { code = r.0; stream = stream; memory = out; device = r.2 })
          else next) in
      if int_lt 0 remaining
      then elim (b.read_block stream.disk sector buff d) [ none ↦ none | some r ↦ round r ]
      else some (record { code = 0; stream = stream; memory = out; device = d })

  -- Every round transfers a byte at least, so `total` rounds and one for the last test are enough.
  unfoldable pub disk_streamer_read :
      DiskStream → (buff out : ℕ → ℕ) → (dst total : ℕ) → b.Device → Option Transfer
  unfolding read_loop
  disk_streamer_read stream buff out dst total d = read_loop (total + 1) stream buff out dst total d

  -- The loop of `disk_streamer_write`, on fuel: `memory` is read from `src` on.
  unfoldable pub write_loop :
      (fuel : ℕ)
      → DiskStream
      → (buff memory : ℕ → ℕ) → (src remaining : ℕ) → b.Device
      → Option Transfer
  write_loop zero stream buff memory src remaining d = none
  write_loop (suc fuel) stream buff memory src remaining d =
      let sector = int_div stream.pos lazyos_sector_size in
      let offset = int_mod stream.pos lazyos_sector_size in
      let to_write = in_sector stream remaining in
      let stop = λ (code : ℕ) (device : b.Device).
        (some (record { code = code; stream = stream; memory = memory; device = device })) in
      let round = λ (r : ℕ × (ℕ → ℕ) × b.Device).
        (let filled = copy to_write memory src r.1 offset in
          if is_negative r.0
          then stop r.0 r.2
          else elim (b.write_block stream.disk sector filled r.2) [
            | none ↦ none
            | some (code, device) ↦
                (let next =
                    write_loop fuel (advance stream to_write) filled memory (src + to_write)
                      (sub32 remaining to_write) device in
                  if is_negative code then stop code device else next)
          ]) in
      if int_lt 0 remaining
      then elim (b.read_block stream.disk sector buff d) [ none ↦ none | some r ↦ round r ]
      else stop 0 d

  unfoldable pub disk_streamer_write :
      DiskStream → (buff memory : ℕ → ℕ) → (src total : ℕ) → b.Device → Option Transfer
  unfolding write_loop
  disk_streamer_write stream buff memory src total d =
      write_loop (total + 1) stream buff memory src total d
