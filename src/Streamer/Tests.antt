-- ===== src/Streamer/Tests.antt =====
-- Transfers across the border of two sectors, on a disk that is a function.
use lazy_os.Prelude.{ℕ, ◌≡◌, refl, arith, some}
use lazy_os.Streamer.{DiskStream, Transfer, disk_streamer_read, disk_streamer_write}
use lazy_os.Streamer.Laws.{InDisk}
use lazy_os.Streamer.Array.{array, array_disk}
use lazy_os.Streamer.Read.{IsRead, disk_streamer_read-IsRead}
use lazy_os.Streamer.Write.{IsWritten, disk_streamer_write-IsWritten}

-- 20 bytes from the byte 1020 on: four of them are in the sector 1.
abbrev stream : DiskStream
stream = record { address = 0; pos = 1020; disk = 1 }

stream-InDisk : InDisk array array_disk stream 20
stream-InDisk = record { first = refl; inside = omega arith }

abbrev zeros : ℕ → ℕ
zeros j = 0

abbrev counting : ℕ → ℕ
counting j = j

disk_streamer_read-IsRead_example :
    (r : Transfer array) × (disk_streamer_read array stream zeros zeros 3 20 counting ≡ some r)
    × IsRead array array_disk stream zeros 3 20 counting r
disk_streamer_read-IsRead_example =
    disk_streamer_read-IsRead array array_disk stream zeros zeros 3 20 counting tt stream-InDisk

disk_streamer_write-IsWritten_example :
    (r : Transfer array) × (disk_streamer_write array stream zeros counting 3 20 zeros ≡ some r)
    × IsWritten array array_disk stream counting 3 20 zeros r
disk_streamer_write-IsWritten_example =
    disk_streamer_write-IsWritten array array_disk stream zeros counting 3 20 zeros tt stream-InDisk
