-- ===== src/Disk/Commands.antt =====
-- The waits, and the writes of a command.
use lazy_os.Prelude.{
  ℕ, zero, suc, ◌+◌, ◌-◌, ◌*◌, ◌/◌, ◌%◌, ◌^◌, ◌≤◌, ◌<◌, ◌≡◌, refl, ◌∙◌, true, inl, inr, arith,
  bit_or, ◌==◌, some, Bool-cases,
}
use lazy_os.Prelude.Bytes.{all_below, all_below-lt}
use lazy_os.Ports.{Ports}
use lazy_os.Disk.{wait_idle, wait_data, send}
use lazy_os.Disk.Ata.{Ata, Mode, idle, Registers, IsStarted, sector_start, transfers}

-- The drive register holds the number's highest four bits below the pattern 0xE0.
drive_table : all_below 16 (λ x. bit_or x 0xE0 % 256 == 224 + x) ≡ true
unfolding all_below
drive_table = refl

pub drive_lem : (x : ℕ) → x < 16 → bit_or x 0xE0 % 256 ≡ 224 + x
drive_lem x h =
    let row = all_below-lt 16 (λ x. bit_or x 0xE0 % 256 == 224 + x) x drive_table h in ground arith

module _ (p : Ports) (a : Ata p) where
  pub wait_idle_lem :
      (fuel : ℕ) (s : p.State)
      → (a.view s).busy < fuel
      → (s' : p.State) × (wait_idle p fuel s ≡ some s')
        × (a.view s' ≡ record (a.view s) { busy = 0 })
  unfolding wait_idle
  wait_idle_lem zero s h = absurd (omega arith)
  wait_idle_lem (suc fuel) s h = elim (Bool-cases ((a.view s).busy == 0)) [
    | inl free ↦
        let z : (a.view s).busy - 1 ≡ 0 = ground arith in
        ((p.insb 0x1f7 s).1, rw (a.status_busy s, free) refl, a.status_after s ∙ rw z refl)
    | inr busy ↦
        let less : (a.view (p.insb 0x1f7 s).1).busy < fuel = rw (a.status_after s) (ground arith) in
        let (s', e, v) = wait_idle_lem fuel (p.insb 0x1f7 s).1 less in
        (s', rw (a.status_busy s, busy) e, v ∙ rw (a.status_after s) refl)
  ]

  pub wait_data_lem :
      (fuel : ℕ) (s : p.State)
      → (a.view s).busy < fuel
      → transfers (a.view s).mode ≡ true
      → (s' : p.State) × (wait_data p fuel s ≡ some s')
        × (a.view s' ≡ record (a.view s) { busy = 0 })
  unfolding wait_data
  wait_data_lem zero s h t = absurd (omega arith)
  wait_data_lem (suc fuel) s h t = elim (Bool-cases ((a.view s).busy == 0)) [
    | inl free ↦
        let z : (a.view s).busy - 1 ≡ 0 = ground arith in
        ((p.insb 0x1f7 s).1, rw (a.status_data s, free, t) refl, a.status_after s ∙ rw z refl)
    | inr busy ↦
        let less : (a.view (p.insb 0x1f7 s).1).busy < fuel = rw (a.status_after s) (ground arith) in
        let same : transfers (a.view (p.insb 0x1f7 s).1).mode ≡ true = rw (a.status_after s) t in
        let (s', e, v) = wait_data_lem fuel (p.insb 0x1f7 s).1 less same in
        (s', rw (a.status_data s, busy) e, v ∙ rw (a.status_after s) refl)
  ]

  -- The registers before the command itself.
  abbrev addressed : (lba : ℕ) → Registers
  addressed lba = record {
    count = 1;
    low = lba % 256;
    mid = lba / 2 ^ 8 % 256;
    high = lba / 2 ^ 16 % 256;
    drive = 224 + lba / 2 ^ 24;
  }

  addressed-start : (lba : ℕ) → lba < 2 ^ 28 → sector_start (addressed lba) ≡ 512 * lba
  addressed-start lba h = omega arith

  -- A command that the hardware starts, sent for the sector `lba`.
  module _ (command : ℕ) (next : ℕ → ℕ → Mode)
      (start : (s : p.State)
        → (a.view s).mode ≡ idle
        → (a.view s).registers.count ≡ 1
        → (a.view s).registers.drive / 16 ≡ 14
        → IsStarted a.patience (a.view s) (a.view (p.outb 0x1f7 command s)) next) where
    pub send_lem :
        (lba : ℕ) (s : p.State)
        → lba < 2 ^ 28
        → (a.view s).mode ≡ idle
        → ((a.view (send p lba 1 command s)).bytes ≡ (a.view s).bytes)
          × ((a.view (send p lba 1 command s)).mode ≡ next (512 * lba) 256)
          × ((a.view (send p lba 1 command s)).busy ≤ a.patience)
    unfolding send
    send_lem lba s h free =
        let s1 = p.outb 0x1f6 (bit_or (lba / 2 ^ 24) 0xE0 % 256) s in
        let s2 = p.outb 0x1f2 1 s1 in
        let s3 = p.outb 0x1f3 (lba % 256) s2 in
        let s4 = p.outb 0x1f4 (lba / 2 ^ 8 % 256) s3 in
        let s5 = p.outb 0x1f5 (lba / 2 ^ 16 % 256) s4 in
        let drive = drive_lem (lba / 2 ^ 24) (omega arith) in
        let before : a.view s5 ≡ record (a.view s) { registers = addressed lba } =
          rw
            (
              a.set_high (lba / 2 ^ 16 % 256) s4,
              a.set_mid (lba / 2 ^ 8 % 256) s3,
              a.set_low (lba % 256) s2,
              a.set_count 1 s1,
              a.set_drive (bit_or (lba / 2 ^ 24) 0xE0 % 256) s,
              drive,
            )
            refl in
        let started = start s5 (rw before free) (rw before refl) (rw before (omega arith)) in
        let from = addressed-start lba h in
        (
          started.bytes_lem ∙ rw before refl,
          started.mode_lem ∙ rw (before, from) refl,
          started.busy_lem,
        )
