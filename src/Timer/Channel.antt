-- ===== src/Timer/Channel.antt =====
-- What `init_pit` relies on of the 8254's channel 0, as its data sheet gives it, and the rate of the
-- interrupts that it sets up.
use lazy_os.Prelude.{
  ℕ, zero, suc, ◌+◌, ◌-◌, ◌*◌, ◌/◌, ◌%◌, ◌^◌, ◌≤◌, ◌<◌, ◌≡◌, ap, ◌∙◌, arith, ◌==◌, if◌then◌else◌,
  some, sub32, u32, Bool-cases, inl, inr,
}
use lazy_os.Ports.{Ports}
use lazy_os.Timer.{mode_command_register, pit_io_port, sleep_loop, sleep}

-- The bytes of the count that the channel waits for, behind a word of the mode that asks for both.
pub data Waits : Type 0 where
  nothing low high : Waits

-- The mode, whether it counts in decimal, and the count from which the channel counts down, as its two
-- bytes say.
pub record Channel : Type 0 where
  pub waits : Waits
  pub mode : ℕ
  pub decimal : ℕ
  pub reload : ℕ

-- The steps from one interrupt to the next in the modes 2 and 3: a count of zero stands for 2^16.
abbrev pub period : Channel → ℕ
period c = if c.reload == 0 then 2 ^ 16 else c.reload

-- A word for channel 0 that asks for both bytes of the count, the lower one first: its bits 1 to 3 are
-- the mode, and bit 0 says whether it counts in decimal.
abbrev pub mode_word : (value : ℕ) → Channel → Channel
mode_word value c = record c { waits = low; mode = value / 2 % 8; decimal = value % 2 }

abbrev pub count_byte : (value : ℕ) → Waits → Channel → Channel
count_byte value nothing c = c
count_byte value low c = record c { waits = high; reload = c.reload / 256 * 256 + value }
count_byte value high c = record c { waits = nothing; reload = value * 256 + c.reload % 256 }

pub record Pit (p : Ports) : Type 0 where
  pub channel : p.State → Channel
  -- The bits 6 and 7 choose the channel, and 4 and 5 both bytes; nothing is said of other words.
  pub command_lem :
      (value : ℕ) (s : p.State)
      → value / 64 % 4 ≡ 0
      → value / 16 % 4 ≡ 3
      → channel (p.outb mode_command_register value s) ≡ mode_word value (channel s)
  pub count_lem :
      (value : ℕ) (s : p.State)
      → channel (p.outb pit_io_port value s) ≡ count_byte value (channel s).waits (channel s)

-- A rate: `count` steps of the clock `clock` come `rate` times a second, but for less than one step.
pub record IsRate (clock count rate : ℕ) : Type 0 where
  pub not_slower : count * rate ≤ clock
  pub not_faster : clock < count * rate + rate

module _ (p : Ports) (k : Pit p) where
  -- The channel after the three writes.
  pub record IsSetUp (count : ℕ) (c : Channel) : Type 0 where
    pub waits_lem : c.waits ≡ nothing
    pub mode_lem : c.mode ≡ 3
    pub decimal_lem : c.decimal ≡ 0
    pub reload_lem : c.reload ≡ count

-- The loop of `sleep` ends after as many rounds as the count.
sleep_loop_lem :
    (fuel count rounds : ℕ)
    → count < fuel
    → count < 2 ^ 32
    → sleep_loop fuel count rounds ≡ some (rounds + count)
unfolding sleep_loop
sleep_loop_lem zero count rounds enough word = absurd (omega arith)
sleep_loop_lem (suc fuel) count rounds enough word = elim (Bool-cases (count == 0)) [
  | inl last ↦ rw last (ap (λ n. some n) (let e : count ≡ 0 = ground arith in omega arith))
  | inr more ↦
      let less : sub32 count 1 ≡ count - 1 = ground arith in
      rw (more, less, sleep_loop_lem fuel (count - 1) (rounds + 1) (omega arith) (omega arith))
        (ap (λ n. some n) (ground arith))
]

-- `sleep` ends, after ten thousand rounds for each millisecond, as a word of 32 bits.
sleep_lem : (ms : ℕ) → sleep ms ≡ some (u32 (ms * 10000))
unfolding sleep
sleep_lem ms =
    sleep_loop_lem (2 ^ 32) (u32 (ms * 10000)) 0 (omega arith) (omega arith)
    ∙ ap (λ n. some n) (omega arith)
