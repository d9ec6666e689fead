-- ===== src/Streamer/Laws.antt =====
-- What the streamer relies on of the blocks: sectors of a disk of bytes.
use lazy_os.Prelude.{
  ℕ, ◌+◌, ◌*◌, ◌-◌, ◌%◌, ◌^◌, ◌<◌, ◌≤◌, ◌≡◌, ◌≢◌, refl, ltb, if◌then◌else◌, within, some, sub32,
  arith, int_mod_small, int_lt_small,
}
use lazy_os.Streamer.{Blocks, DiskStream, in_sector, lazyos_sector_size}

-- The buffer after the read of a sector.
abbrev pub sector_into : (bytes : ℕ → ℕ) → (lba : ℕ) → (buff : ℕ → ℕ) → ℕ → ℕ
sector_into bytes lba buff j =
    if ltb j lazyos_sector_size then bytes (lba * lazyos_sector_size + j) else buff j

-- The disk after the write of a sector. A cell of memory is cut to a byte.
abbrev pub sector_from : (bytes : ℕ → ℕ) → (lba : ℕ) → (buff : ℕ → ℕ) → ℕ → ℕ
sector_from bytes lba buff a =
    if within (lba * lazyos_sector_size) lazyos_sector_size a
    then buff (a - lba * lazyos_sector_size) % 256
    else bytes a

-- The disk 0 is there; a read returns a sector of its bytes, and a write replaces one.
pub record Disk (b : Blocks) : Type 1 where
  pub Ready : b.Device → Type 0
  pub bytes : b.Device → ℕ → ℕ
  pub sectors : ℕ
  pub small : sectors * lazyos_sector_size < 2 ^ 31
  pub present : b.disk_get 0 ≢ 0
  pub after_read : (lba : ℕ) → (buff : ℕ → ℕ) → b.Device → b.Device
  pub after_write : (lba : ℕ) → (buff : ℕ → ℕ) → b.Device → b.Device
  pub byte : (d : b.Device) (a : ℕ) → bytes d a < 256
  pub read_block_lem :
      (lba : ℕ) (buff : ℕ → ℕ) (d : b.Device)
      → Ready d
      → lba < sectors
      → (b.read_block (b.disk_get 0) lba buff d
          ≡ some (0, sector_into (bytes d) lba buff, after_read lba buff d))
        × Ready (after_read lba buff d)
        × (bytes (after_read lba buff d) ≡ bytes d)
  pub write_block_lem :
      (lba : ℕ) (buff : ℕ → ℕ) (d : b.Device)
      → Ready d
      → lba < sectors
      → (b.write_block (b.disk_get 0) lba buff d ≡ some (0, after_write lba buff d))
        × Ready (after_write lba buff d)
        × (bytes (after_write lba buff d) ≡ sector_from (bytes d) lba buff)

-- A transfer of `total` bytes from the stream's position on stays on the disk 0.
pub record InDisk (b : Blocks) (k : Disk b) (stream : DiskStream) (total : ℕ) : Type 0 where
  pub first : stream.disk ≡ b.disk_get 0
  pub inside : stream.pos + total ≤ k.sectors * lazyos_sector_size

-- The bytes of a round, as numbers.
abbrev pub round_size : (pos remaining : ℕ) → ℕ
round_size pos remaining = if ltb (512 - pos % 512) remaining then 512 - pos % 512 else remaining

pub in_sector_lem :
    (stream : DiskStream) (remaining : ℕ)
    → stream.pos < 2 ^ 31
    → remaining < 2 ^ 31
    → in_sector stream remaining ≡ round_size stream.pos remaining
unfolding in_sector
in_sector_lem stream remaining p q =
    let space : sub32 512 (stream.pos % 512) ≡ 512 - stream.pos % 512 = omega arith in
    rw
      (
        int_mod_small stream.pos 512 p,
        space,
        int_lt_small (512 - stream.pos % 512) remaining (omega arith) q,
      )
      refl

-- The stream after a round, without the wrap-around of its position.
abbrev pub moved : DiskStream → ℕ → DiskStream
moved stream n = record stream { pos = stream.pos + n }

pub InDisk-moved :
    (b : Blocks) (k : Disk b) (stream : DiskStream) (remaining : ℕ)
    → InDisk b k stream remaining
    → InDisk b k
        (moved stream (round_size stream.pos remaining))
        (remaining - round_size stream.pos remaining)
InDisk-moved b k stream remaining h = record { first = h.first; inside = ground (arith, h.inside) }
