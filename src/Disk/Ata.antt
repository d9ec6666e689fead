-- ===== src/Disk/Ata.antt =====
-- What the driver relies on of the hardware: the commands of an ATA disk, as its documents give them.
use lazy_os.Prelude.{
  ℕ, ◌+◌, ◌-◌, ◌*◌, ◌/◌, ◌%◌, ◌^◌, ◌≤◌, ◌<◌, ◌≡◌, Bool, true, false, not, ◌&&◌, bit_and, ◌==◌,
  if◌then◌else◌, update,
}
use lazy_os.Ports.{Ports}

-- What the disk does: nothing, or a transfer of the `left` next words of the bytes from `address` on.
pub data Mode : Type 0 where
  idle : Mode
  reading writing : (address left : ℕ) → Mode

-- The registers that the ports 0x1f2 to 0x1f6 write.
pub record Registers : Type 0 where
  pub count : ℕ
  pub low : ℕ
  pub mid : ℕ
  pub high : ℕ
  pub drive : ℕ

-- The byte at which the sector in the registers begins: its number has 28 bits.
abbrev pub sector_start : Registers → ℕ
sector_start r = 512 * (r.low + r.mid * 2 ^ 8 + r.high * 2 ^ 16 + r.drive % 16 * 2 ^ 24)

abbrev pub transfers : Mode → Bool
transfers idle = false
transfers (reading address left) = true
transfers (writing address left) = true

-- The disk at an instant: its bytes, its registers, its mode, and how many reads of the status find it
-- busy.
pub record View : Type 0 where
  pub bytes : ℕ → ℕ
  pub registers : Registers
  pub mode : Mode
  pub busy : ℕ

-- The mode after one more word.
abbrev pub after_word : (next : ℕ → ℕ → Mode) → (address left : ℕ) → Mode
after_word next address left = if left == 0 then idle else next (address + 2) left

abbrev pub set_word : (ℕ → ℕ) → (address word : ℕ) → ℕ → ℕ
set_word bytes address word =
    update (update bytes address (word % 256)) (address + 1) (word / 256 % 256)

-- After a command the disk transfers the sector of the registers, and is busy for at most `patience`
-- reads of its status.
pub record IsStarted (patience : ℕ) (before after : View) (next : ℕ → ℕ → Mode) : Type 0 where
  pub bytes_lem : after.bytes ≡ before.bytes
  pub mode_lem : after.mode ≡ next (sector_start before.registers) 256
  pub busy_lem : after.busy ≤ patience

pub record Ata (p : Ports) : Type 1 where
  pub view : p.State → View
  pub patience : ℕ
  -- Only the status register is read, and a read of it changes how long the disk is busy.
  pub status_busy : (s : p.State) → (bit_and (p.insb 0x1f7 s).0 0x80 == 0) ≡ ((view s).busy == 0)
  pub status_data :
      (s : p.State)
      → (bit_and (p.insb 0x1f7 s).0 0x08 == 0) ≡ not ((view s).busy == 0 && transfers (view s).mode)
  pub status_after :
      (s : p.State) → view (p.insb 0x1f7 s).1 ≡ record (view s) { busy = (view s).busy - 1 }
  pub set_drive :
      (v : ℕ) (s : p.State)
      → view (p.outb 0x1f6 v s)
        ≡ record (view s) { registers = record (view s).registers { drive = v } }
  pub set_count :
      (v : ℕ) (s : p.State)
      → view (p.outb 0x1f2 v s)
        ≡ record (view s) { registers = record (view s).registers { count = v } }
  pub set_low :
      (v : ℕ) (s : p.State)
      → view (p.outb 0x1f3 v s)
        ≡ record (view s) { registers = record (view s).registers { low = v } }
  pub set_mid :
      (v : ℕ) (s : p.State)
      → view (p.outb 0x1f4 v s)
        ≡ record (view s) { registers = record (view s).registers { mid = v } }
  pub set_high :
      (v : ℕ) (s : p.State)
      → view (p.outb 0x1f5 v s)
        ≡ record (view s) { registers = record (view s).registers { high = v } }
  -- The commands READ SECTORS and WRITE SECTORS, for one sector of the first drive by its number.
  pub start_read :
      (s : p.State)
      → (view s).mode ≡ idle
      → (view s).registers.count ≡ 1
      → (view s).registers.drive / 16 ≡ 14
      → IsStarted patience (view s) (view (p.outb 0x1f7 0x20 s)) reading
  pub start_write :
      (s : p.State)
      → (view s).mode ≡ idle
      → (view s).registers.count ≡ 1
      → (view s).registers.drive / 16 ≡ 14
      → IsStarted patience (view s) (view (p.outb 0x1f7 0x30 s)) writing
  -- The data register gives and takes the next word, the lower byte first.
  pub read_word :
      (address left : ℕ) (s : p.State)
      → (view s).mode ≡ reading address (left + 1)
      → (view s).busy ≡ 0
      → ((p.insw 0x1f0 s).0 ≡ (view s).bytes address + 256 * (view s).bytes (address + 1))
        × (view (p.insw 0x1f0 s).1 ≡ record (view s) { mode = after_word reading address left })
  pub write_word :
      (address left word : ℕ) (s : p.State)
      → (view s).mode ≡ writing address (left + 1)
      → (view s).busy ≡ 0
      → view (p.outw 0x1f0 word s) ≡ record (view s) {
        bytes = set_word (view s).bytes address word;
        mode = after_word writing address left;
      }
  pub byte : (a : ℕ) (s : p.State) → (view s).bytes a < 256
