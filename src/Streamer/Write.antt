-- ===== src/Streamer/Write.antt =====
-- What `disk_streamer_write` leaves on the disk.
use lazy_os.Prelude.{
  ℕ, zero, suc, ◌+◌, ◌-◌, ◌*◌, ◌/◌, ◌%◌, ◌^◌, ◌≤◌, ◌<◌, ◌≡◌, refl, ◌∙◌, true, false, inl, inr,
  arith, ltb, if◌then◌else◌, some, within, copy, copy_lem, u32, sub32, Bool-cases, int_lt,
  int_div_small, int_mod_small,
}
use lazy_os.Streamer.{Blocks, DiskStream, Transfer, advance, write_loop, disk_streamer_write}
use lazy_os.Streamer.Laws.{
  Disk, InDisk, InDisk-moved, moved, round_size, sector_into, sector_from, in_sector_lem,
}

module _ (b : Blocks) (k : Disk b) where
  -- What a write of the `total` bytes of `memory` from `src` on ends with.
  pub record IsWritten (stream : DiskStream) (memory : ℕ → ℕ) (src total : ℕ) (d : b.Device)
      (r : Transfer b) : Type 0 where
    pub code_lem : r.code ≡ 0
    pub stream_lem : r.stream ≡ moved stream total
    pub bytes_lem :
        (a : ℕ)
        → k.bytes r.device a ≡ (
            if within stream.pos total a
            then memory (src + (a - stream.pos)) % 256
            else k.bytes d a)
    pub memory_lem : r.memory ≡ memory
    pub ready : k.Ready r.device

  -- The buffer that a round writes, and the device after it.
  abbrev filled : DiskStream → (buff memory : ℕ → ℕ) → (src remaining : ℕ) → b.Device → ℕ → ℕ
  filled stream buff memory src remaining d =
      copy (round_size stream.pos remaining) memory src
        (sector_into (k.bytes d) (stream.pos / 512) buff) (stream.pos % 512)

  abbrev written : DiskStream → (buff memory : ℕ → ℕ) → (src remaining : ℕ) → b.Device → b.Device
  written stream buff memory src remaining d =
      k.after_write (stream.pos / 512) (filled stream buff memory src remaining d)
        (k.after_read (stream.pos / 512) buff d)

  write_loop-step :
      (fuel : ℕ) (stream : DiskStream) (buff memory : ℕ → ℕ) (src remaining : ℕ) (d : b.Device)
      → k.Ready d
      → InDisk b k stream remaining
      → 0 < remaining
      → write_loop b (suc fuel) stream buff memory src remaining d
        ≡ write_loop b fuel
            (moved stream (round_size stream.pos remaining))
            (filled stream buff memory src remaining d)
            memory
            (src + round_size stream.pos remaining)
            (remaining - round_size stream.pos remaining)
            (written stream buff memory src remaining d)
  unfolding write_loop advance
  write_loop-step fuel stream buff memory src remaining d ready h pos =
      let small = k.small in
      let inside = h.inside in
      let lba = stream.pos / 512 in
      let p : stream.pos < 2 ^ 31 = omega arith in
      let q : remaining < 2 ^ 31 = omega arith in
      let more : int_lt 0 remaining ≡ true = ground arith in
      let block = k.read_block_lem lba buff d ready (omega arith) in
      let put =
        k.write_block_lem lba (filled stream buff memory src remaining d) (k.after_read lba buff d)
          block.1 (omega arith) in
      let given : b.read_block stream.disk lba buff d
          ≡ some (0, sector_into (k.bytes d) lba buff, k.after_read lba buff d) =
        rw h.first block.0 in
      let stored : b.write_block stream.disk lba (filled stream buff memory src remaining d)
            (k.after_read lba buff d)
          ≡ some (0, written stream buff memory src remaining d) =
        rw h.first put.0 in
      let next : u32 (stream.pos + round_size stream.pos remaining)
          ≡ stream.pos + round_size stream.pos remaining =
        ground arith in
      let left : sub32 remaining (round_size stream.pos remaining)
          ≡ remaining - round_size stream.pos remaining =
        ground arith in
      rw
        (
          more,
          int_div_small stream.pos 512 p,
          given,
          int_mod_small stream.pos 512 p,
          in_sector_lem stream remaining p q,
          int_div_small stream.pos 512 p,
          stored,
          int_mod_small stream.pos 512 p,
          in_sector_lem stream remaining p q,
          next,
          left,
        )
        refl

  -- The bytes of a round and of the rest are those of the whole.
  joined :
      (stream : DiskStream) (buff memory : ℕ → ℕ) (src remaining : ℕ) (d : b.Device) (a : ℕ)
      → InDisk b k stream remaining
      → (if within
            (stream.pos + round_size stream.pos remaining)
            (remaining - round_size stream.pos remaining)
            a
          then memory (
              src
              + round_size stream.pos remaining
              + (a - (stream.pos + round_size stream.pos remaining)))
            % 256
          else sector_from
              (k.bytes d)
              (stream.pos / 512)
              (filled stream buff memory src remaining d)
              a)
        ≡ (if within stream.pos remaining a
            then memory (src + (a - stream.pos)) % 256
            else k.bytes d a)
  joined stream buff memory src remaining d a h =
      let n = round_size stream.pos remaining in
      let lba = stream.pos / 512 in
      let offset = stream.pos % 512 in
      let le : n ≤ remaining = ground arith in
      let fits : n ≤ 512 - offset = ground arith in
      let start : lba * 512 + offset ≡ stream.pos = omega arith in
      elim (Bool-cases (within (stream.pos + n) (remaining - n) a)) [
        | inl later ↦
            let here : within stream.pos remaining a ≡ true = ground arith in
            let place : src + n + (a - (stream.pos + n)) ≡ src + (a - stream.pos) = ground arith in
            rw (later, here, place) refl
        | inr early ↦ rw early (elim (Bool-cases (within (lba * 512) 512 a)) [
          | inr far ↦
              let out : within stream.pos remaining a ≡ false = ground arith in rw (far, out) refl
          | inl near ↦
              rw
                (
                  near,
                  copy_lem n memory src (sector_into (k.bytes d) lba buff) offset (a - lba * 512),
                )
                (elim (Bool-cases (within offset n (a - lba * 512))) [
                  | inl now ↦
                      let here : within stream.pos remaining a ≡ true = ground arith in
                      let place : src + (a - lba * 512 - offset) ≡ src + (a - stream.pos) =
                        ground arith in
                      rw (now, here, place) refl
                  | inr never ↦
                      let out : within stream.pos remaining a ≡ false = ground arith in
                      let inside : ltb (a - lba * 512) 512 ≡ true = ground arith in
                      let place : lba * 512 + (a - lba * 512) ≡ a = ground arith in
                      let cut : k.bytes d a % 256 ≡ k.bytes d a = omega (arith, k.byte d a) in
                      rw (never, out, inside, place, cut) refl
                ])
        ])
      ]

  write_loop-end :
      (fuel : ℕ) (stream : DiskStream) (buff memory : ℕ → ℕ) (src : ℕ) (d : b.Device)
      → k.Ready d
      → (r : Transfer b) × (write_loop b (suc fuel) stream buff memory src 0 d ≡ some r)
        × IsWritten stream memory src 0 d r
  unfolding write_loop
  write_loop-end fuel stream buff memory src d ready =
      let same : stream.pos + 0 ≡ stream.pos = omega arith in
      (
        record { code = 0; stream = stream; memory = memory; device = d },
        refl,
        record {
          code_lem = refl;
          stream_lem = rw same refl;
          bytes_lem = λ a. ground arith;
          memory_lem = refl;
          ready = ready;
        },
      )

  write_loop-IsWritten :
      (fuel : ℕ) (stream : DiskStream) (buff memory : ℕ → ℕ) (src remaining : ℕ) (d : b.Device)
      → k.Ready d
      → InDisk b k stream remaining
      → remaining < fuel
      → (r : Transfer b) × (write_loop b fuel stream buff memory src remaining d ≡ some r)
        × IsWritten stream memory src remaining d r
  write_loop-IsWritten zero stream buff memory src remaining d ready h enough = absurd (omega arith)
  write_loop-IsWritten (suc fuel) stream buff memory src remaining d ready h enough =
      elim (Bool-cases (ltb 0 remaining)) [
        | inr none_left ↦
            let zero' : remaining ≡ 0 = ground arith in
            rw zero' (write_loop-end fuel stream buff memory src d ready)
        | inl more ↦
            let n = round_size stream.pos remaining in
            let lba = stream.pos / 512 in
            let pos : 0 < n = ground arith in
            let le : n ≤ remaining = ground arith in
            let small = k.small in
            let inside = h.inside in
            let (same, ready', kept) = k.read_block_lem lba buff d ready (omega arith) in
            let (put, ready'', changed) =
              k.write_block_lem lba (filled stream buff memory src remaining d)
                (k.after_read lba buff d) ready' (omega arith) in
            let (r, e, is) =
              write_loop-IsWritten fuel (moved stream n) (filled stream buff memory src remaining d)
                memory (src + n) (remaining - n) (written stream buff memory src remaining d)
                ready'' (InDisk-moved b k stream remaining h) (omega arith) in
            let whole : stream.pos + n + (remaining - n) ≡ stream.pos + remaining = omega arith in
            (
              r,
              write_loop-step fuel stream buff memory src remaining d ready h (ground arith) ∙ e,
              record {
                code_lem = is.code_lem;
                stream_lem = is.stream_lem ∙ rw whole refl;
                bytes_lem = λ a.
                    is.bytes_lem a
                    ∙ rw (changed, kept) (joined stream buff memory src remaining d a h);
                memory_lem = is.memory_lem;
                ready = is.ready;
              },
            )
      ]

  -- Over any blocks that keep sectors of bytes, a write that stays on the disk ends and returns 0:
  -- it replaces exactly the `total` bytes from the stream's position on by those of the memory
  -- from `src` on, and moves the position behind them.
  pub disk_streamer_write-IsWritten :
      (stream : DiskStream) (buff memory : ℕ → ℕ) (src total : ℕ) (d : b.Device)
      → k.Ready d
      → InDisk b k stream total
      → (r : Transfer b) × (disk_streamer_write b stream buff memory src total d ≡ some r)
        × IsWritten stream memory src total d r
  unfolding disk_streamer_write
  disk_streamer_write-IsWritten stream buff memory src total d ready h =
      write_loop-IsWritten (total + 1) stream buff memory src total d ready h (omega arith)
