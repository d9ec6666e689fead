-- ===== src/Ports.antt =====
-- src/IO/io.h and src/IO/io.asm: the ports of the machine, which the drivers of the disk, the clock, the
-- timer and the interrupt controllers use. What a port read returns and what a port does is up to the
-- hardware.
use lazy_os.Prelude.{ℕ}

-- The instructions behind `insb`, `insw`, `outb` and `outw`, and `cli` and `sti`, which turn the
-- interrupts off and on. A read may change the hardware too.
pub record Ports : Type 1 where
  pub State : Type 0
  pub insb : (port : ℕ) → State → ℕ × State
  pub insw : (port : ℕ) → State → ℕ × State
  pub outb : (port value : ℕ) → State → State
  pub outw : (port value : ℕ) → State → State
  pub cli : State → State
  pub sti : State → State
