-- ===== src/Streamer/RoundTrip.antt =====
-- Bytes that are written and read again.
use lazy_os.Prelude.{ℕ, ◌+◌, ◌-◌, ◌%◌, ◌<◌, ◌≡◌, refl, ◌∙◌, true, arith, within, some}
use lazy_os.Streamer.{
  Blocks, DiskStream, Transfer, disk_streamer_read, disk_streamer_seek, disk_streamer_write,
}
use lazy_os.Streamer.Laws.{Disk, InDisk}
use lazy_os.Streamer.Read.{disk_streamer_read-IsRead}
use lazy_os.Streamer.Write.{disk_streamer_write-IsWritten}

module _ (b : Blocks) (k : Disk b) where
  -- Over any blocks that keep sectors of bytes: after a write of `total` bytes that stays on the
  -- disk, a seek back to where it began and a read of as many bytes to any place give the bytes
  -- that were written.
  pub disk_streamer_read-disk_streamer_write :
      (stream : DiskStream) (buff buff' memory out : ℕ → ℕ) (src dst total : ℕ) (d : b.Device)
      → k.Ready d
      → InDisk b k stream total
      → (w : Transfer b) × (r : Transfer b) × (disk_streamer_write b stream buff memory src total d
          ≡ some w)
        × (disk_streamer_read b
              (disk_streamer_seek w.stream stream.pos)
              buff'
              out
              dst
              total
              w.device
            ≡ some r)
        × (r.code ≡ 0)
        × ((i : ℕ) → i < total → r.memory (dst + i) ≡ memory (src + i) % 256)
  unfolding disk_streamer_seek
  disk_streamer_read-disk_streamer_write stream buff buff' memory out src dst total d ready h =
      let (w, ew, isw) = disk_streamer_write-IsWritten b k stream buff memory src total d ready h in
      let back : disk_streamer_seek w.stream stream.pos ≡ stream = rw isw.stream_lem refl in
      let (r, er, isr) =
        disk_streamer_read-IsRead b k stream buff' out dst total w.device isw.ready h in
      (
        w,
        r,
        ew,
        rw back er,
        isr.code_lem,
        λ i lt.
            let here : within dst total (dst + i) ≡ true = ground arith in
            let there : within stream.pos total (stream.pos + i) ≡ true = ground arith in
            let at : dst + i - dst ≡ i = omega arith in
            let from : stream.pos + i - stream.pos ≡ i = omega arith in
            isr.memory_lem (dst + i)
            ∙ rw (here, at, isw.bytes_lem (stream.pos + i), there, from) refl,
      )
