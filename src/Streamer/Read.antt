-- ===== src/Streamer/Read.antt =====
-- What `disk_streamer_read` copies to memory.
use lazy_os.Prelude.{
  ℕ, zero, suc, ◌+◌, ◌-◌, ◌*◌, ◌/◌, ◌%◌, ◌^◌, ◌≤◌, ◌<◌, ◌≡◌, refl, ◌∙◌, true, false, inl, inr,
  arith, ltb, if◌then◌else◌, some, within, copy, copy_lem, u32, sub32, Bool-cases, int_lt,
  int_div_small, int_mod_small,
}
use lazy_os.Streamer.{Blocks, DiskStream, Transfer, advance, read_loop, disk_streamer_read}
use lazy_os.Streamer.Laws.{
  Disk, InDisk, InDisk-moved, moved, round_size, sector_into, in_sector_lem,
}

module _ (b : Blocks) (k : Disk b) where
  -- What a read of `total` bytes to the place `dst` of the memory `out` ends with.
  pub record IsRead (stream : DiskStream) (out : ℕ → ℕ) (dst total : ℕ) (d : b.Device)
      (r : Transfer b) : Type 0 where
    pub code_lem : r.code ≡ 0
    pub stream_lem : r.stream ≡ moved stream total
    pub memory_lem :
        (j : ℕ)
        → r.memory j ≡ (if within dst total j then k.bytes d (stream.pos + (j - dst)) else out j)
    pub bytes_lem : k.bytes r.device ≡ k.bytes d
    pub ready : k.Ready r.device

  -- The memory after one round.
  abbrev copied : DiskStream → (buff out : ℕ → ℕ) → (dst remaining : ℕ) → b.Device → ℕ → ℕ
  copied stream buff out dst remaining d =
      copy (round_size stream.pos remaining) (sector_into (k.bytes d) (stream.pos / 512) buff)
        (stream.pos % 512) out dst

  read_loop-step :
      (fuel : ℕ) (stream : DiskStream) (buff out : ℕ → ℕ) (dst remaining : ℕ) (d : b.Device)
      → k.Ready d
      → InDisk b k stream remaining
      → 0 < remaining
      → read_loop b (suc fuel) stream buff out dst remaining d
        ≡ read_loop b fuel
            (moved stream (round_size stream.pos remaining))
            (sector_into (k.bytes d) (stream.pos / 512) buff)
            (copied stream buff out dst remaining d)
            (dst + round_size stream.pos remaining)
            (remaining - round_size stream.pos remaining)
            (k.after_read (stream.pos / 512) buff d)
  unfolding read_loop advance
  read_loop-step fuel stream buff out dst remaining d ready h pos =
      let small = k.small in
      let inside = h.inside in
      let p : stream.pos < 2 ^ 31 = omega arith in
      let q : remaining < 2 ^ 31 = omega arith in
      let more : int_lt 0 remaining ≡ true = ground arith in
      let block = k.read_block_lem (stream.pos / 512) buff d ready (omega arith) in
      let given : b.read_block stream.disk (stream.pos / 512) buff d
          ≡ some (
            0,
            sector_into (k.bytes d) (stream.pos / 512) buff,
            k.after_read (stream.pos / 512) buff d,
          ) =
        rw h.first block.0 in
      let next : u32 (stream.pos + round_size stream.pos remaining)
          ≡ stream.pos + round_size stream.pos remaining =
        ground arith in
      let left : sub32 remaining (round_size stream.pos remaining)
          ≡ remaining - round_size stream.pos remaining =
        ground arith in
      rw
        (
          more,
          int_div_small stream.pos 512 p,
          given,
          int_mod_small stream.pos 512 p,
          in_sector_lem stream remaining p q,
          next,
          left,
        )
        refl

  -- The memory of a round and of the rest is that of the whole.
  joined :
      (stream : DiskStream) (buff out : ℕ → ℕ) (dst remaining : ℕ) (d : b.Device) (j : ℕ)
      → InDisk b k stream remaining
      → (if within
            (dst + round_size stream.pos remaining)
            (remaining - round_size stream.pos remaining)
            j
          then k.bytes d (
              stream.pos
              + round_size stream.pos remaining
              + (j - (dst + round_size stream.pos remaining)))
          else copied stream buff out dst remaining d j)
        ≡ (if within dst remaining j then k.bytes d (stream.pos + (j - dst)) else out j)
  joined stream buff out dst remaining d j h =
      let n = round_size stream.pos remaining in
      let le : n ≤ remaining = ground arith in
      let fits : n ≤ 512 - stream.pos % 512 = ground arith in
      rw (copy_lem n (sector_into (k.bytes d) (stream.pos / 512) buff) (stream.pos % 512) out dst j)
        (elim (Bool-cases (within (dst + n) (remaining - n) j)) [
          | inl later ↦
              let here : within dst remaining j ≡ true = ground arith in
              let place : stream.pos + n + (j - (dst + n)) ≡ stream.pos + (j - dst) =
                ground arith in
              rw (later, here, place) refl
          | inr early ↦ rw early (elim (Bool-cases (within dst n j)) [
            | inl now ↦
                let here : within dst remaining j ≡ true = ground arith in
                let inside : ltb (stream.pos % 512 + (j - dst)) 512 ≡ true = ground arith in
                let place : stream.pos / 512 * 512 + (stream.pos % 512 + (j - dst))
                    ≡ stream.pos + (j - dst) =
                  omega arith in
                rw (now, here, inside, place) refl
            | inr never ↦
                let out' : within dst remaining j ≡ false = ground arith in rw (never, out') refl
          ])
        ])

  read_loop-end :
      (fuel : ℕ) (stream : DiskStream) (buff out : ℕ → ℕ) (dst : ℕ) (d : b.Device)
      → k.Ready d
      → (r : Transfer b) × (read_loop b (suc fuel) stream buff out dst 0 d ≡ some r)
        × IsRead stream out dst 0 d r
  unfolding read_loop
  read_loop-end fuel stream buff out dst d ready =
      let same : stream.pos + 0 ≡ stream.pos = omega arith in
      (
        record { code = 0; stream = stream; memory = out; device = d },
        refl,
        record {
          code_lem = refl;
          stream_lem = rw same refl;
          memory_lem = λ j. ground arith;
          bytes_lem = refl;
          ready = ready;
        },
      )

  read_loop-IsRead :
      (fuel : ℕ) (stream : DiskStream) (buff out : ℕ → ℕ) (dst remaining : ℕ) (d : b.Device)
      → k.Ready d
      → InDisk b k stream remaining
      → remaining < fuel
      → (r : Transfer b) × (read_loop b fuel stream buff out dst remaining d ≡ some r)
        × IsRead stream out dst remaining d r
  read_loop-IsRead zero stream buff out dst remaining d ready h enough = absurd (omega arith)
  read_loop-IsRead (suc fuel) stream buff out dst remaining d ready h enough =
      elim (Bool-cases (ltb 0 remaining)) [
        | inl more ↦
            let n = round_size stream.pos remaining in
            let lba = stream.pos / 512 in
            let pos : 0 < n = ground arith in
            let le : n ≤ remaining = ground arith in
            let small = k.small in
            let inside = h.inside in
            let (same, ready', kept) = k.read_block_lem lba buff d ready (omega arith) in
            let (r, e, is) =
              read_loop-IsRead fuel (moved stream n) (sector_into (k.bytes d) lba buff)
                (copied stream buff out dst remaining d) (dst + n) (remaining - n)
                (k.after_read lba buff d) ready' (InDisk-moved b k stream remaining h)
                (omega arith) in
            let whole : stream.pos + n + (remaining - n) ≡ stream.pos + remaining = omega arith in
            (
              r,
              read_loop-step fuel stream buff out dst remaining d ready h (ground arith) ∙ e,
              record {
                code_lem = is.code_lem;
                stream_lem = is.stream_lem ∙ rw whole refl;
                memory_lem =
                    λ j. is.memory_lem j ∙ rw kept (joined stream buff out dst remaining d j h);
                bytes_lem = is.bytes_lem ∙ kept;
                ready = is.ready;
              },
            )
        | inr none_left ↦
            let zero' : remaining ≡ 0 = ground arith in
            rw zero' (read_loop-end fuel stream buff out dst d ready)
      ]

  -- Over any blocks that keep sectors of bytes, a read that stays on the disk ends and returns 0:
  -- it fills exactly the `total` bytes from `dst` on with the bytes of the disk from the stream's
  -- position on, moves the position behind them, and leaves the disk's bytes as they are.
  pub disk_streamer_read-IsRead :
      (stream : DiskStream) (buff out : ℕ → ℕ) (dst total : ℕ) (d : b.Device)
      → k.Ready d
      → InDisk b k stream total
      → (r : Transfer b) × (disk_streamer_read b stream buff out dst total d ≡ some r)
        × IsRead stream out dst total d r
  unfolding disk_streamer_read
  disk_streamer_read-IsRead stream buff out dst total d ready h =
      read_loop-IsRead (total + 1) stream buff out dst total d ready h (omega arith)
