-- ===== src/Clock/Simulated.antt =====
-- A clock whose registers hold 35.
use lazy_os.Prelude.{
  ℕ, ◌+◌, ◌-◌, ◌%◌, ◌<◌, ◌≤◌, ◌≡◌, ◌≢◌, refl, arith, true, false, ◌==◌, bit_and, if◌then◌else◌,
  Bool-cases, inl, inr,
}
use lazy_os.Ports.{Ports}
use lazy_os.Clock.Cmos.{Cmos}

-- The register that is chosen, the status reads until the update is over, and the reads after it for
-- which the registers stand.
pub record Clock : Type 0 where
  pub chosen : ℕ
  pub busy : ℕ
  pub window : ℕ

abbrev read_status : Clock → ℕ × Clock
read_status s =
    if s.busy % 10 == 0
    then (0, record s { window = 6 })
    else (0x80, record s { busy = s.busy % 10 - 1 })

abbrev pub ports : Ports
ports = record {
  State = Clock;
  insb = λ port s.
      if s.chosen == 0x0A then read_status s else (0x35, record s { window = s.window - 1 });
  insw = λ port s. (0, s);
  outb = λ port value s. record s { chosen = value };
  outw = λ port value s. s;
  cli = λ s. s;
  sti = λ s. s;
}

pub status_bit :
    (s : Clock)
    → (bit_and (ports.insb 0x71 (ports.outb 0x70 0x0A s)).0 0x80 == 0) ≡ (s.busy % 10 == 0)
status_bit s = elim (Bool-cases (s.busy % 10 == 0)) [ inl e ↦ rw e refl | inr e ↦ rw e refl ]

pub status_waited :
    (s : Clock)
    → s.busy % 10 ≢ 0
    → (ports.insb 0x71 (ports.outb 0x70 0x0A s)).1.busy % 10 < s.busy % 10
status_waited s h = let e : (s.busy % 10 == 0) ≡ false = ground arith in rw e (omega arith)

pub status_done :
    (s : Clock) → s.busy % 10 ≡ 0 → 6 ≤ (ports.insb 0x71 (ports.outb 0x70 0x0A s)).1.window
status_done s h = let e : (s.busy % 10 == 0) ≡ true = ground arith in rw e (omega arith)

pub number_value : (r : ℕ) (s : Clock) → r < 0x0A → (ports.insb 0x71 (ports.outb 0x70 r s)).0 ≡ 0x35
number_value r s h = let e : (r == 0x0A) ≡ false = ground arith in rw e refl

pub number_window :
    (r : ℕ) (s : Clock) → r < 0x0A → s.window ≤ (ports.insb 0x71 (ports.outb 0x70 r s)).1.window + 1
number_window r s h = let e : (r == 0x0A) ≡ false = ground arith in rw e (omega arith)

abbrev pub cmos : Cmos ports
cmos = record {
  register = λ s r. 0x35;
  busy = λ s. s.busy % 10;
  window = λ s. s.window;
  patience = 9;
  busy_le = λ s. omega arith;
  status_lem = status_bit;
  waited = status_waited;
  updated = status_done;
  value_lem = λ r s h. number_value r s h;
  stands = λ r s h w. refl;
  window_lem = λ r s h. number_window r s h;
  cli_lem = λ s. (refl, refl);
  sti_lem = λ s. refl;
  tens = λ s r. 3;
  units = λ s r. 5;
  digits = λ s r h. (refl, omega arith, omega arith);
}

abbrev pub updating : Clock
updating = record { chosen = 0; busy = 4; window = 0 }
