-- ===== src/Streamer/Array.antt =====
-- A disk that is a function from the address to the byte: it fills the streamer's interface.
use lazy_os.Prelude.{ℕ, ◌%◌, ◌≡◌, refl, arith, some}
use mathlib.Core.Path.{fun_ext}
use lazy_os.Streamer.{Blocks}
use lazy_os.Streamer.Laws.{Disk, sector_into, sector_from}

abbrev pub shown : (ℕ → ℕ) → ℕ → ℕ
shown d a = d a % 256

abbrev pub array : Blocks
array = record {
  Device = ℕ → ℕ;
  disk_get = λ index. 1;
  read_block = λ disk lba buff d. some (0, sector_into (shown d) lba buff, d);
  write_block = λ disk lba buff d. some (0, sector_from d lba buff);
}

pub sector_from-shown :
    (lba : ℕ) (buff d : ℕ → ℕ) → shown (sector_from d lba buff) ≡ sector_from (shown d) lba buff
sector_from-shown lba buff d = fun_ext λ a. ground arith

abbrev pub array_disk : Disk array
array_disk = record {
  Ready = λ d. Unit;
  bytes = shown;
  sectors = 4096;
  small = omega arith;
  present = omega arith;
  after_read = λ lba buff d. d;
  after_write = λ lba buff d. sector_from d lba buff;
  byte = λ d a. omega arith;
  read_block_lem = λ lba buff d ready h. (refl, tt, refl);
  write_block_lem = λ lba buff d ready h. (refl, tt, sector_from-shown lba buff d);
}
