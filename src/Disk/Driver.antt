-- ===== src/Disk/Driver.antt =====
-- The driver reads and writes the sectors of the disk: it fills the streamer's interface.
use lazy_os.Prelude.{
  ℕ, ◌+◌, ◌-◌, ◌*◌, ◌^◌, ◌≤◌, ◌<◌, ◌≡◌, refl, ◌∙◌, arith, ltb, within, some, none,
}
use mathlib.Core.Path.{fun_ext}
use lazy_os.Streamer.Laws.{Disk, sector_into, sector_from}
use lazy_os.Ports.{Ports}
use lazy_os.Disk.{
  blocks, disk_get, disk_read_sector, disk_write_sector, disk_read_block, disk_write_block,
  read_sectors, write_sectors, read_words, write_words, send, wait_data, wait_idle,
}
use lazy_os.Disk.Ata.{Ata, idle, reading, writing}
use lazy_os.Disk.Commands.{wait_idle_lem, wait_data_lem, send_lem}
use lazy_os.Disk.Transfer.{words_into, words_from, read_words_lem, write_words_lem}

-- One sector, when both waits end.
module _ (p : Ports) (fuel lba : ℕ) (buff : ℕ → ℕ) (s s1 s3 : p.State) where
  disk_read_sector-waits :
      wait_idle p fuel s ≡ some s1
      → wait_data p fuel (send p lba 1 0x20 s1) ≡ some s3
      → disk_read_sector p fuel lba 1 buff s
        ≡ some (0, (read_words p 256 buff 0 s3).0, (read_words p 256 buff 0 s3).1)
  unfolding read_sectors disk_read_sector read_words
  disk_read_sector-waits idle_now data_now = rw (disk_read_sector, idle_now, data_now) refl

  disk_write_sector-waits :
      wait_idle p fuel s ≡ some s1
      → wait_data p fuel (send p lba 1 0x30 s1) ≡ some s3
      → disk_write_sector p fuel lba 1 buff s ≡ some (0, write_words p 256 buff 0 s3)
  unfolding write_sectors disk_write_sector write_words
  disk_write_sector-waits idle_now data_now = rw (disk_write_sector, idle_now, data_now) refl

module _ (p : Ports) (a : Ata p) (fuel : ℕ) (enough : a.patience < fuel) where
  -- Between calls the disk does nothing, and is busy for a while at most.
  pub record IsReady (s : p.State) : Type 0 where
    pub mode_lem : (a.view s).mode ≡ idle
    pub busy_lem : (a.view s).busy ≤ a.patience

  -- What a read of the sector `lba` returns and leaves.
  pub record IsSectorRead (lba : ℕ) (buff : ℕ → ℕ) (s : p.State) (r : ℕ × (ℕ → ℕ) × p.State)
      : Type 0 where
    pub code_lem : r.0 ≡ 0
    pub buff_lem : r.1 ≡ sector_into (a.view s).bytes lba buff
    pub bytes_lem : (a.view r.2).bytes ≡ (a.view s).bytes
    pub ready : IsReady r.2

  words_into-eq_sector :
      (bytes : ℕ → ℕ) (lba : ℕ) (buff : ℕ → ℕ) (j : ℕ)
      → words_into bytes (512 * lba) 256 buff 0 j ≡ sector_into bytes lba buff j
  words_into-eq_sector bytes lba buff j =
      let place : 512 * lba + (j - 2 * 0) ≡ lba * 512 + j = omega arith in
      let same : within (2 * 0) (2 * 256) j ≡ ltb j 512 = ground arith in rw (place, same) refl

  words_from-eq_sector :
      (bytes : ℕ → ℕ) (lba : ℕ) (buff : ℕ → ℕ) (x : ℕ)
      → words_from bytes (512 * lba) 256 buff 0 x ≡ sector_from bytes lba buff x
  words_from-eq_sector bytes lba buff x =
      let start : 512 * lba ≡ lba * 512 = omega arith in
      let place : 2 * 0 + (x - lba * 512) ≡ x - lba * 512 = omega arith in rw (start, place) refl

  pub disk_read_sector-IsSectorRead :
      (lba : ℕ) (buff : ℕ → ℕ) (s : p.State)
      → IsReady s
      → lba < 2 ^ 28
      → (r : ℕ × (ℕ → ℕ) × p.State) × (disk_read_sector p fuel lba 1 buff s ≡ some r)
        × IsSectorRead lba buff s r
  disk_read_sector-IsSectorRead lba buff s ready h =
      let (s1, e1, v1) = wait_idle_lem p a fuel s (omega (arith, ready.busy_lem)) in
      let (bytes2, mode2, busy2) =
        send_lem p a 0x20 reading a.start_read lba s1 h (rw v1 ready.mode_lem) in
      let (s3, e3, v3) =
        wait_data_lem p a fuel (send p lba 1 0x20 s1) (omega arith) (rw mode2 refl) in
      let (cells, v4) = read_words_lem p a 255 buff 0 (512 * lba) s3 (rw v3 mode2) (rw v3 refl) in
      let same : (a.view s3).bytes ≡ (a.view s).bytes = rw (v3, bytes2, v1) refl in
      (
        (0, (read_words p 256 buff 0 s3).0, (read_words p 256 buff 0 s3).1),
        disk_read_sector-waits p fuel lba buff s s1 s3 e1 e3,
        record {
          code_lem = refl;
          buff_lem =
              fun_ext λ j. cells j ∙ rw same (words_into-eq_sector (a.view s).bytes lba buff j);
          bytes_lem = rw v4 same;
          ready = record { mode_lem = rw v4 refl; busy_lem = rw (v4, v3) (omega arith) };
        },
      )

  pub record IsSectorWritten (lba : ℕ) (buff : ℕ → ℕ) (s : p.State) (r : ℕ × p.State) : Type 0 where
    pub code_lem : r.0 ≡ 0
    pub bytes_lem : (a.view r.1).bytes ≡ sector_from (a.view s).bytes lba buff
    pub ready : IsReady r.1

  pub disk_write_sector-IsSectorWritten :
      (lba : ℕ) (buff : ℕ → ℕ) (s : p.State)
      → IsReady s
      → lba < 2 ^ 28
      → (r : ℕ × p.State) × (disk_write_sector p fuel lba 1 buff s ≡ some r)
        × IsSectorWritten lba buff s r
  disk_write_sector-IsSectorWritten lba buff s ready h =
      let (s1, e1, v1) = wait_idle_lem p a fuel s (omega (arith, ready.busy_lem)) in
      let (bytes2, mode2, busy2) =
        send_lem p a 0x30 writing a.start_write lba s1 h (rw v1 ready.mode_lem) in
      let (s3, e3, v3) =
        wait_data_lem p a fuel (send p lba 1 0x30 s1) (omega arith) (rw mode2 refl) in
      let (cells, mode4, busy4) =
        write_words_lem p a 255 buff 0 (512 * lba) s3 (rw v3 mode2) (rw v3 refl) in
      let same : (a.view s3).bytes ≡ (a.view s).bytes = rw (v3, bytes2, v1) refl in
      (
        (0, write_words p 256 buff 0 s3),
        disk_write_sector-waits p fuel lba buff s s1 s3 e1 e3,
        record {
          code_lem = refl;
          bytes_lem =
              fun_ext λ x. cells x ∙ rw same (words_from-eq_sector (a.view s).bytes lba buff x);
          ready = record { mode_lem = mode4; busy_lem = rw busy4 (omega arith) };
        },
      )

  -- The state in which a run ends.
  abbrev pub read_end : (lba : ℕ) → (buff : ℕ → ℕ) → p.State → p.State
  read_end lba buff s = elim (disk_read_sector p fuel lba 1 buff s) [ none ↦ s | some r ↦ r.2 ]

  abbrev pub write_end : (lba : ℕ) → (buff : ℕ → ℕ) → p.State → p.State
  write_end lba buff s = elim (disk_write_sector p fuel lba 1 buff s) [ none ↦ s | some r ↦ r.1 ]

  module _ (lba : ℕ) (buff : ℕ → ℕ) (s : p.State) where
    read_block-run :
        (r : ℕ × (ℕ → ℕ) × p.State)
        → disk_read_sector p fuel lba 1 buff s ≡ some r
        → IsSectorRead lba buff s r
        → (disk_read_block p fuel (disk_get 0) lba 1 buff s
            ≡ some (0, sector_into (a.view s).bytes lba buff, read_end lba buff s))
          × IsReady (read_end lba buff s)
          × ((a.view (read_end lba buff s)).bytes ≡ (a.view s).bytes)
    unfolding disk_read_block disk_get
    read_block-run (code, buff', s') e is = (
      rw (read_end, e) (rw (is.code_lem, is.buff_lem) refl),
      rw (read_end, e) is.ready,
      rw (read_end, e) is.bytes_lem,
    )

    write_block-run :
        (r : ℕ × p.State)
        → disk_write_sector p fuel lba 1 buff s ≡ some r
        → IsSectorWritten lba buff s r
        → (disk_write_block p fuel (disk_get 0) lba 1 buff s ≡ some (0, write_end lba buff s))
          × IsReady (write_end lba buff s)
          × ((a.view (write_end lba buff s)).bytes ≡ sector_from (a.view s).bytes lba buff)
    unfolding disk_write_block disk_get
    write_block-run (code, s') e is = (
      rw (write_end, e) (rw is.code_lem refl),
      rw (write_end, e) is.ready,
      rw (write_end, e) is.bytes_lem,
    )

  pub read_block-Disk :
      (lba : ℕ) (buff : ℕ → ℕ) (s : p.State)
      → IsReady s
      → lba < 2 ^ 28
      → (disk_read_block p fuel (disk_get 0) lba 1 buff s
          ≡ some (0, sector_into (a.view s).bytes lba buff, read_end lba buff s))
        × IsReady (read_end lba buff s)
        × ((a.view (read_end lba buff s)).bytes ≡ (a.view s).bytes)
  read_block-Disk lba buff s ready h =
      let (r, e, is) = disk_read_sector-IsSectorRead lba buff s ready h in
      read_block-run lba buff s r e is

  pub write_block-Disk :
      (lba : ℕ) (buff : ℕ → ℕ) (s : p.State)
      → IsReady s
      → lba < 2 ^ 28
      → (disk_write_block p fuel (disk_get 0) lba 1 buff s ≡ some (0, write_end lba buff s))
        × IsReady (write_end lba buff s)
        × ((a.view (write_end lba buff s)).bytes ≡ sector_from (a.view s).bytes lba buff)
  write_block-Disk lba buff s ready h =
      let (r, e, is) = disk_write_sector-IsSectorWritten lba buff s ready h in
      write_block-run lba buff s r e is

  -- The driver as the disk that the streamer relies on: a disk of so many sectors that the address of
  -- every byte is a positive `int`.
  unfoldable pub ata_disk : (sectors : ℕ) → sectors < 2 ^ 22 → Disk (blocks p fuel)
  unfolding disk_get
  ata_disk sectors few = record {
    Ready = IsReady;
    bytes = λ s. (a.view s).bytes;
    sectors = sectors;
    small = omega arith;
    present = omega arith;
    after_read = read_end;
    after_write = write_end;
    byte = λ s x. a.byte x s;
    read_block_lem = λ lba buff s ready h. read_block-Disk lba buff s ready (omega arith);
    write_block_lem = λ lba buff s ready h. write_block-Disk lba buff s ready (omega arith);
  }
