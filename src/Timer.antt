-- ===== src/Timer.antt =====
-- src/PIT/pit.c: the programmable timer, its interrupt, and the loop of `sleep`.
pub mod Channel
mod Tests
use lazy_os.Prelude.{
  ℕ, zero, suc, ◌+◌, ◌-◌, ◌*◌, ◌/◌, ◌%◌, ◌^◌, bit_and, ◌==◌, if◌then◌else◌, Option, none, some, u32,
  sub32,
}
use lazy_os.Ports.{Ports}
use lazy_os.Process.{Machine, scheduler}

abbrev pub mode_command_register : ℕ
mode_command_register = 0x43

abbrev pub pit_io_port : ℕ
pit_io_port = 0x40

abbrev pub pit_freq : ℕ
pit_freq = 1193182

module _ (p : Ports) where
  -- It returns `time_slice`. The frequency is not zero.
  unfoldable pub init_pit : (freq : ℕ) → p.State → ℕ × p.State
  init_pit freq s =
      let divisor = pit_freq / freq in
      let s1 = p.outb mode_command_register 0x36 s in
      let s2 = p.outb pit_io_port (bit_and divisor 0xFF) s1 in
      (1000 / freq, p.outb pit_io_port (bit_and (divisor / 2 ^ 8) 0xFF) s2)

  -- The end of the interrupt is sent in front of the switch. `esp` is the one that the switch saves.
  unfoldable pub timer_handler : (esp time_slice : ℕ) → p.State × Machine → p.State × Machine
  timer_handler esp time_slice (s, k) = (p.outb 0x20 0x20 s, scheduler esp time_slice k)

-- `while (count--)`, on fuel: the number of the rounds, each of which does nothing.
unfoldable pub sleep_loop : (fuel : ℕ) → (count rounds : ℕ) → Option ℕ
sleep_loop zero count rounds = none
sleep_loop (suc fuel) count rounds =
    let rest = sleep_loop fuel (sub32 count 1) (rounds + 1) in
    if count == 0 then some rounds else rest

unfoldable pub sleep : (ms : ℕ) → Option ℕ
unfolding sleep_loop
sleep ms = sleep_loop (2 ^ 32) (u32 (ms * 10000)) 0
