-- ===== src/Disk.antt =====
-- src/disk/disk.c: the driver of the primary disk, over the ports of the machine. The ports are a
-- parameter: what a port read returns and what a port does is up to the hardware.
pub mod Ata
pub mod Commands
pub mod Transfer
pub mod Driver
pub mod Simulated
mod Tests
use lazy_os.Prelude.{
  ℕ, zero, suc, ◌+◌, ◌-◌, ◌*◌, ◌/◌, ◌%◌, ◌^◌, bit_and, bit_or, ◌==◌, if◌then◌else◌, Option, none,
  some, neg, update,
}
use lazy_os.Ports.{Ports}
use lazy_os.Streamer.{Blocks, lazyos_sector_size}

abbrev pub eio : ℕ
eio = 5

-- The address of the only disk's structure, `&dsk`: not null.
abbrev pub dsk : ℕ
dsk = 1

pub record DiskInfo : Type 0 where
  pub disk_type : ℕ
  pub disk_sector_size : ℕ

unfoldable pub disk_search_and_init : DiskInfo
disk_search_and_init = record { disk_type = 0; disk_sector_size = lazyos_sector_size }

unfoldable pub disk_get : (index : ℕ) → ℕ
disk_get index = if index == 0 then dsk else 0

module _ (p : Ports) where
  -- `while (insb(0x1f7) & 0x80)`, on fuel: `none` stands for a wait that goes on.
  unfoldable pub wait_idle : (fuel : ℕ) → p.State → Option p.State
  wait_idle zero s = none
  wait_idle (suc fuel) s =
      let (status, s') = p.insb 0x1f7 s in
      let rest = wait_idle fuel s' in if bit_and status 0x80 == 0 then some s' else rest

  -- `while (!(insb(0x1f7) & 0x08))`
  unfoldable pub wait_data : (fuel : ℕ) → p.State → Option p.State
  wait_data zero s = none
  wait_data (suc fuel) s =
      let (status, s') = p.insb 0x1f7 s in
      let rest = wait_data fuel s' in if bit_and status 0x08 == 0 then rest else some s'

  -- The six writes of a command; `out` takes the lowest byte of the value.
  unfoldable pub send : (lba total command : ℕ) → p.State → p.State
  send lba total command s =
      let s1 = p.outb 0x1f6 (bit_or (lba / 2 ^ 24) 0xE0 % 256) s in
      let s2 = p.outb 0x1f2 (total % 256) s1 in
      let s3 = p.outb 0x1f3 (lba % 256) s2 in
      let s4 = p.outb 0x1f4 (lba / 2 ^ 8 % 256) s3 in
      let s5 = p.outb 0x1f5 (lba / 2 ^ 16 % 256) s4 in p.outb 0x1f7 command s5

  -- The words of a sector, with `k` words left, from the word `i` of the buffer of bytes.
  unfoldable pub read_words : (k : ℕ) → (buff : ℕ → ℕ) → (i : ℕ) → p.State → (ℕ → ℕ) × p.State
  read_words zero buff i s = (buff, s)
  read_words (suc k) buff i s =
      let (word, s') = p.insw 0x1f0 s in
      read_words k (update (update buff (2 * i) (word % 256)) (2 * i + 1) (word / 256)) (i + 1) s'

  -- The sectors, with `k` of them left: the next word goes to the word `i` of the buffer.
  unfoldable pub read_sectors :
      (k fuel : ℕ) → (buff : ℕ → ℕ) → (i : ℕ) → p.State → Option ((ℕ → ℕ) × p.State)
  read_sectors zero fuel buff i s = some (buff, s)
  read_sectors (suc k) fuel buff i s = elim (wait_data fuel s) [
    | none ↦ none
    | some s' ↦
        let (buff', s'') = read_words 256 buff i s' in read_sectors k fuel buff' (i + 256) s''
  ]

  unfoldable pub disk_read_sector :
      (fuel lba total : ℕ) → (buff : ℕ → ℕ) → p.State → Option (ℕ × (ℕ → ℕ) × p.State)
  disk_read_sector fuel lba total buff s = elim (wait_idle fuel s) [
    | none ↦ none
    | some s' ↦ elim (read_sectors total fuel buff 0 (send lba total 0x20 s')) [
      | none ↦ none
      | some (buff', s'') ↦ some (0, buff', s'')
    ]
  ]

  unfoldable pub write_words : (k : ℕ) → (buff : ℕ → ℕ) → (j : ℕ) → p.State → p.State
  write_words zero buff j s = s
  write_words (suc k) buff j s =
      write_words k buff (j + 1)
        (p.outw 0x1f0 (buff (2 * j) % 256 + 256 * (buff (2 * j + 1) % 256)) s)

  -- Every sector is written from the start of the buffer.
  unfoldable pub write_sectors : (k fuel : ℕ) → (buff : ℕ → ℕ) → p.State → Option p.State
  write_sectors zero fuel buff s = some s
  write_sectors (suc k) fuel buff s = elim (wait_data fuel s) [
    | none ↦ none
    | some s' ↦ write_sectors k fuel buff (write_words 256 buff 0 s')
  ]

  unfoldable pub disk_write_sector :
      (fuel lba total : ℕ) → (buff : ℕ → ℕ) → p.State → Option (ℕ × p.State)
  disk_write_sector fuel lba total buff s = elim (wait_idle fuel s) [
    | none ↦ none
    | some s' ↦ elim (write_sectors total fuel buff (send lba total 0x30 s')) [
      | none ↦ none
      | some s'' ↦ some (0, s'')
    ]
  ]

  unfoldable pub disk_read_block :
      (fuel idisk lba total : ℕ) → (buff : ℕ → ℕ) → p.State → Option (ℕ × (ℕ → ℕ) × p.State)
  disk_read_block fuel idisk lba total buff s =
      if idisk == dsk then disk_read_sector fuel lba total buff s else some (neg eio, buff, s)

  unfoldable pub disk_write_block :
      (fuel idisk lba total : ℕ) → (buff : ℕ → ℕ) → p.State → Option (ℕ × p.State)
  disk_write_block fuel idisk lba total buff s =
      if idisk == dsk then disk_write_sector fuel lba total buff s else some (neg eio, s)

  -- The blocks that the streamer calls: single sectors.
  abbrev pub blocks : (fuel : ℕ) → Blocks
  blocks fuel = record {
    Device = p.State;
    disk_get = disk_get;
    read_block = λ disk lba buff s. disk_read_block fuel disk lba 1 buff s;
    write_block = λ disk lba buff s. disk_write_block fuel disk lba 1 buff s;
  }
