-- ===== src/Disk/Tests.antt =====
-- The driver on a disk of one pattern.
use lazy_os.Prelude.{◌/◌}
use lazy_os.Disk.Ata.{View, idle}

-- The byte at every address is the number of its sector; the disk still does something.
abbrev numbered : View
numbered = record {
  bytes = λ a. a / 512;
  registers = record { count = 0; low = 0; mid = 0; high = 0; drive = 0 };
  mode = idle;
  busy = 1;
}
