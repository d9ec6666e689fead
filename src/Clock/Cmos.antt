-- ===== src/Clock/Cmos.antt =====
-- What `read_date` relies on of the real-time clock, and the date that it then reads.
use lazy_os.Prelude.{
  ℕ, zero, suc, ◌+◌, ◌*◌, ◌≤◌, ◌<◌, ◌≡◌, ◌≢◌, refl, ap, ◌∙◌, arith, bit_and, ◌==◌, some, Bool-cases,
  inl, inr,
}
use lazy_os.Ports.{Ports}
use lazy_os.Clock.Digits.{convert_to_num_lem}
use lazy_os.Clock.{RtcTime, convert_to_num, rtc_read, rtc_updated, read_numbers, read_date}

-- A port write of a register's number to 0x70 and a port read of 0x71 read that register. The status
-- register says whether an update of the others goes on, and there are `busy` such reads of it left.
-- Where it says that none goes on, the other registers stand still for a while: for six reads at least.
-- Turning the interrupts off or on is not such a read. So these are the ports of a call that no handler
-- which itself takes the clock's ports or much time interrupts in front of its `cli`.
pub record Cmos (p : Ports) : Type 0 where
  pub register : p.State → ℕ → ℕ
  pub busy : p.State → ℕ
  pub window : p.State → ℕ
  pub patience : ℕ
  pub busy_le : (s : p.State) → busy s ≤ patience
  pub status_lem :
      (s : p.State) → (bit_and (p.insb 0x71 (p.outb 0x70 0x0A s)).0 0x80 == 0) ≡ (busy s == 0)
  pub waited : (s : p.State) → busy s ≢ 0 → busy (p.insb 0x71 (p.outb 0x70 0x0A s)).1 < busy s
  pub updated : (s : p.State) → busy s ≡ 0 → 6 ≤ window (p.insb 0x71 (p.outb 0x70 0x0A s)).1
  pub value_lem :
      (r : ℕ) (s : p.State) → r < 0x0A → (p.insb 0x71 (p.outb 0x70 r s)).0 ≡ register s r
  pub stands :
      (r : ℕ) (s : p.State)
      → r < 0x0A
      → 0 < window s
      → register (p.insb 0x71 (p.outb 0x70 r s)).1 ≡ register s
  pub window_lem :
      (r : ℕ) (s : p.State) → r < 0x0A → window s ≤ window (p.insb 0x71 (p.outb 0x70 r s)).1 + 1
  pub cli_lem : (s : p.State) → (register (p.cli s) ≡ register s) × (window (p.cli s) ≡ window s)
  pub sti_lem : (s : p.State) → register (p.sti s) ≡ register s
  -- Each register holds two decimal digits.
  pub tens : p.State → ℕ → ℕ
  pub units : p.State → ℕ → ℕ
  pub digits :
      (s : p.State) (r : ℕ)
      → r < 0x0A
      → (register s r ≡ tens s r * 16 + units s r) × (tens s r < 10) × (units s r < 10)

module _ (p : Ports) (k : Cmos p) where
  -- The wait ends with the registers at rest.
  rtc_updated-rests :
      (fuel : ℕ) (s : p.State)
      → k.busy s < fuel
      → (s' : p.State) × (rtc_updated p fuel s ≡ some s') × (6 ≤ k.window s')
  unfolding rtc_updated rtc_read
  rtc_updated-rests zero s enough = absurd (omega arith)
  rtc_updated-rests (suc fuel) s enough = elim (Bool-cases (k.busy s == 0)) [
    | inl done ↦ ((rtc_read p 0x0A s).1, rw (k.status_lem s, done) refl, k.updated s (ground arith))
    | inr more ↦
        let less = k.waited s (ground arith) in
        let (s', e, rests) = rtc_updated-rests fuel (rtc_read p 0x0A s).1 (omega arith) in
        (s', rw (k.status_lem s, more) e, rests)
  ]

  -- The number that a register's digits make.
  abbrev pub number_at : p.State → (r : ℕ) → ℕ
  number_at s r = k.tens s r * 10 + k.units s r

  abbrev pub date_at : p.State → RtcTime
  date_at s = record {
    seconds = number_at s 0x00;
    minutes = number_at s 0x02;
    hours = number_at s 0x04;
    day = number_at s 0x07;
    month = number_at s 0x08;
    year = number_at s 0x09;
  }

  -- One read while the registers stand as in the state `s0`.
  rtc_read-stands :
      (r w : ℕ) (s0 s : p.State)
      → r < 0x0A
      → k.register s ≡ k.register s0
      → w + 1 ≤ k.window s
      → (convert_to_num (rtc_read p r s).0 ≡ number_at s0 r)
        × (k.register (rtc_read p r s).1 ≡ k.register s0)
        × (w ≤ k.window (rtc_read p r s).1)
  unfolding rtc_read
  rtc_read-stands r w s0 s small same open_for =
      let (form, ten, unit) = k.digits s0 r small in
      let value : (p.insb 0x71 (p.outb 0x70 r s)).0 ≡ k.tens s0 r * 16 + k.units s0 r =
        k.value_lem r s small ∙ ap (λ regs. regs r) same ∙ form in
      (
        rw value (convert_to_num_lem (k.tens s0 r) (k.units s0 r) ten unit),
        k.stands r s small (omega arith) ∙ same,
        (let left = k.window_lem r s small in omega arith),
      )

  read_numbers-stands :
      (s : p.State)
      → 6 ≤ k.window s
      → (s' : p.State) × (read_numbers p s ≡ (date_at s, s')) × (k.register s' ≡ k.register s)
  unfolding read_numbers
  read_numbers-stands s rests =
      let (e1, k1, w1) = rtc_read-stands 0x00 5 s s (omega arith) refl rests in
      let s1 = (rtc_read p 0x00 s).1 in
      let (e2, k2, w2) = rtc_read-stands 0x02 4 s s1 (omega arith) k1 w1 in
      let s2 = (rtc_read p 0x02 s1).1 in
      let (e3, k3, w3) = rtc_read-stands 0x04 3 s s2 (omega arith) k2 w2 in
      let s3 = (rtc_read p 0x04 s2).1 in
      let (e4, k4, w4) = rtc_read-stands 0x07 2 s s3 (omega arith) k3 w3 in
      let s4 = (rtc_read p 0x07 s3).1 in
      let (e5, k5, w5) = rtc_read-stands 0x08 1 s s4 (omega arith) k4 w4 in
      let s5 = (rtc_read p 0x08 s4).1 in
      let (e6, k6, w6) = rtc_read-stands 0x09 0 s s5 (omega arith) k5 w5 in
      ((rtc_read p 0x09 s5).1, rw (e1, e2, e3, e4, e5, e6) refl, k6)

  -- Over ports that behave as the clock, with more fuel than the longest update takes, `read_date`
  -- ends. The six numbers of the date are the decimal numbers of the registers of one state, in
  -- which no update goes on: no update falls between its reads.
  pub read_date-consistent :
      (fuel : ℕ) (s : p.State)
      → k.patience < fuel
      → (s1 s2 : p.State) × (read_date p fuel s ≡ some (date_at s1, s2))
        × (6 ≤ k.window s1)
        × (k.register s2 ≡ k.register s1)
  unfolding read_date
  read_date-consistent fuel s enough =
      let (s1, e1, rests) = rtc_updated-rests fuel s (let le = k.busy_le s in omega arith) in
      let off = p.cli s1 in
      let rests' : 6 ≤ k.window off = omega (arith, (k.cli_lem s1).1) in
      let (s2, e2, same) = read_numbers-stands off rests' in
      (
        off,
        p.sti s2,
        rw e1 (ap (λ (r : RtcTime × p.State). some (r.0, p.sti r.1)) e2),
        rests',
        k.sti_lem s2 ∙ same,
      )
