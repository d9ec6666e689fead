-- ===== src/Fat12/Files/OnDisk.antt =====
-- Files on the machine's disk: the file system, the streamer and the driver together.
use lazy_os.Ports.{Ports}
use lazy_os.Disk.Ata.{Ata}
