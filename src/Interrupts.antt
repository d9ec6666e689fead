-- ===== src/Interrupts.antt =====
-- The handlers that src/idt/idt.c puts in the table, and the end of a process by an exception of
-- src/idt/ISR/isr.c: the parts that they call, together.
pub mod Ends
mod Tests
use lazy_os.Prelude.{ℕ, ◌-◌, Option, none, some, Bool, ◌||◌, ◌==◌, ltb, within, if◌then◌else◌}
use lazy_os.Ports.{Ports}
use lazy_os.Vga.{Terminal}
use lazy_os.Console.{Services, Console, keyboard_callback}
use lazy_os.Idt.{Outcome, killed, halted, softwear_interrupt_handler}
use lazy_os.Idt.Messages.{exception_messages}
use lazy_os.Process.{Machine, process_exit}
use lazy_os.Timer.{timer_handler}

module _ (p : Ports) where
  unfoldable pub timer_interrupt : (esp time_slice : ℕ) → p.State × Machine → p.State × Machine
  timer_interrupt esp time_slice world = timer_handler p esp time_slice world

  -- The callback reads the scan code first.
  unfoldable pub keyboard_interrupt : (v : Services) → p.State × Console v → p.State × Console v
  keyboard_interrupt v (s, c) =
      let (scan_code, s') = p.insb 0x60 (p.outb 0x20 0x20 s) in
      (s', keyboard_callback v scan_code c)

  unfoldable pub no_interrupt_handler : p.State → p.State
  no_interrupt_handler s = p.outb 0x20 0x20 s

-- Whether the processor pushes an error code with the exception, by the macros of isr.asm.
unfoldable pub has_error_code : (vector : ℕ) → Bool
has_error_code vector =
    vector == 8 || within 10 5 vector || vector == 17 || vector == 21 || vector == 30

-- The words on the stack when the handler is called, from the lowest one on, to which it gets a pointer:
-- eight registers, the number of the exception, its error code or zero, and those that the processor
-- has pushed.
unfoldable pub stack_frame : (registers pushed : ℕ → ℕ) → (vector code : ℕ) → ℕ → ℕ
unfolding has_error_code
stack_frame registers pushed vector code j =
    if ltb j 8
    then registers j
    else if j == 8
    then vector
    else if j == 9
    then (if has_error_code vector then code else 0)
    else pushed (j - 10)

-- `reg->int_no`: nine words stand before it in the structure, `ds` and the eight registers.
unfoldable pub int_no : (frame : ℕ → ℕ) → ℕ
int_no frame = frame 9

-- `none` stands for a processor that is stopped.
abbrev pub outcome_of : (esp : ℕ) → Machine → Outcome → Option (Terminal × Machine)
outcome_of esp k (killed t) = some (t, process_exit esp k)
outcome_of esp k (halted t) = none

unfoldable pub exception :
    (esp : ℕ) → (frame : ℕ → ℕ) → Terminal × Machine → Option (Terminal × Machine)
unfolding int_no
exception esp frame (t, k) =
    outcome_of esp k (softwear_interrupt_handler exception_messages (int_no frame) t)
