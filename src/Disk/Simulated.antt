-- ===== src/Disk/Simulated.antt =====
-- A disk behind ports that behave as the documents say: it fills the hypotheses on the hardware.
use lazy_os.Prelude.{
  ℕ, ◌+◌, ◌-◌, ◌*◌, ◌%◌, ◌≡◌, refl, inl, inr, arith, not, ◌&&◌, bit_and, ◌==◌, if◌then◌else◌,
  Bool-cases,
}
use mathlib.Core.Path.{fun_ext}
use lazy_os.Ports.{Ports}
use lazy_os.Disk.Ata.{
  Ata, View, Mode, idle, reading, writing, IsStarted, sector_start, transfers, after_word, set_word,
}

abbrev pub seen : View → View
seen v = record v { bytes = λ a. v.bytes a % 256 }

abbrev pub status : View → ℕ
status v = if v.busy == 0 then (if transfers v.mode then 0x08 else 0) else 0x80

abbrev pub word_of : Mode → (ℕ → ℕ) → ℕ
word_of idle bytes = 0
word_of (reading address left) bytes = bytes address % 256 + 256 * (bytes (address + 1) % 256)
word_of (writing address left) bytes = 0

abbrev pub after_read : Mode → Mode
after_read idle = idle
after_read (reading address left) = after_word reading address (left - 1)
after_read (writing address left) = idle

abbrev pub after_write : (word : ℕ) → View → Mode → View
after_write word v idle = v
after_write word v (reading address left) = v
after_write word v (writing address left) = record v {
  bytes = set_word v.bytes address word;
  mode = after_word writing address (left - 1);
}

abbrev pub register : (port value : ℕ) → View → View
register port value v =
    let r = v.registers in
    let start = sector_start r in
    if port == 0x1f2
    then record v { registers = record r { count = value } }
    else if port == 0x1f3
    then record v { registers = record r { low = value } }
    else if port == 0x1f4
    then record v { registers = record r { mid = value } }
    else if port == 0x1f5
    then record v { registers = record r { high = value } }
    else if port == 0x1f6
    then record v { registers = record r { drive = value } }
    else if value == 0x20
    then record v { mode = reading start 256; busy = 1 }
    else record v { mode = writing start 256; busy = 1 }

abbrev pub ports : Ports
ports = record {
  State = View;
  insb = λ port v. (status v, record v { busy = v.busy - 1 });
  insw = λ port v. (word_of v.mode v.bytes, record v { mode = after_read v.mode });
  outb = register;
  outw = λ port word v. after_write word v v.mode;
  cli = λ s. s;
  sti = λ s. s;
}

pub status-busy : (v : View) → (bit_and (status v) 0x80 == 0) ≡ (v.busy == 0)
status-busy v = elim (Bool-cases (v.busy == 0)) [
  | inl free ↦ elim (Bool-cases (transfers v.mode)) [
    | inl on ↦ rw (free, on) refl
    | inr off ↦ rw (free, off) refl
  ]
  | inr busy ↦ rw busy refl
]

pub status-data :
    (v : View) → (bit_and (status v) 0x08 == 0) ≡ not (v.busy == 0 && transfers v.mode)
status-data v = elim (Bool-cases (v.busy == 0)) [
  | inl free ↦ elim (Bool-cases (transfers v.mode)) [
    | inl on ↦ rw (free, on) refl
    | inr off ↦ rw (free, off) refl
  ]
  | inr busy ↦ rw busy refl
]

pub set_word-seen :
    (bytes : ℕ → ℕ) (address word : ℕ)
    → (λ a. set_word bytes address word a % 256) ≡ set_word (λ a. bytes a % 256) address word
set_word-seen bytes address word = fun_ext λ a. ground arith

pub started :
    (v : View) (next : ℕ → ℕ → Mode)
    → IsStarted 1
        (seen v)
        (seen (record v { mode = next (sector_start v.registers) 256; busy = 1 }))
        next
started v next = record { bytes_lem = refl; mode_lem = refl; busy_lem = omega arith }

pub read_word-seen :
    (address left : ℕ) (v : View)
    → v.mode ≡ reading address (left + 1)
    → (word_of v.mode v.bytes ≡ (seen v).bytes address + 256 * (seen v).bytes (address + 1))
      × (seen (record v { mode = after_read v.mode })
          ≡ record (seen v) { mode = after_word reading address left })
read_word-seen address left v m =
    let one : left + 1 - 1 ≡ left = omega arith in (rw m refl, rw (m, one) refl)

pub write_word-seen :
    (address left word : ℕ) (v : View)
    → v.mode ≡ writing address (left + 1)
    → seen (after_write word v v.mode) ≡ record (seen v) {
      bytes = set_word (seen v).bytes address word;
      mode = after_word writing address left;
    }
write_word-seen address left word v m =
    let one : left + 1 - 1 ≡ left = omega arith in
    rw (m, one, set_word-seen v.bytes address word) refl

abbrev pub ata : Ata ports
ata = record {
  view = seen;
  patience = 1;
  status_busy = status-busy;
  status_data = status-data;
  status_after = λ s. refl;
  set_drive = λ v s. refl;
  set_count = λ v s. refl;
  set_low = λ v s. refl;
  set_mid = λ v s. refl;
  set_high = λ v s. refl;
  start_read = λ s m c d. started s reading;
  start_write = λ s m c d. started s writing;
  read_word = λ address left s m free. read_word-seen address left s m;
  write_word = λ address left word s m free. write_word-seen address left word s m;
  byte = λ a s. omega arith;
}
