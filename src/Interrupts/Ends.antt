-- ===== src/Interrupts/Ends.antt =====
-- What the handlers tell the interrupt controllers, and what an exception does to its process.
use lazy_os.Prelude.{
  ℕ, ◌≡◌, ◌≢◌, refl, true, arith, Option, none, some, ◌==◌, ltb, if◌then◌else◌, Bool-cases, inl,
  inr,
}
use lazy_os.Ports.{Ports}
use lazy_os.Vga.{Terminal}
use lazy_os.Pic.Chips.{Chips, end_of_interrupt}
use lazy_os.Queue.Push.{IsValid}
use lazy_os.Process.{Machine, priority_of}
use lazy_os.Process.Handover.{IsGone, HandsOver, process_exit-HandsOver}
use lazy_os.Timer.{timer_handler}
use lazy_os.Idt.{softwear_interrupt_handler}
use lazy_os.Interrupts.{
  timer_interrupt, no_interrupt_handler, exception, has_error_code, int_no, stack_frame,
}

module _ (p : Ports) (k : Chips p) where
  -- The interrupt of the first chip is over, and the second chip is not told.
  pub record IsEnded (before after : p.State) : Type 0 where
    pub first_lem : k.first after ≡ end_of_interrupt (k.first before)
    pub second_lem : k.second after ≡ k.second before

  no_interrupt_handler-IsEnded : (s : p.State) → IsEnded s (no_interrupt_handler p s)
  unfolding no_interrupt_handler
  no_interrupt_handler-IsEnded s =
      let (first, second) = k.first_ends s in record { first_lem = first; second_lem = second }

  timer_interrupt-IsEnded :
      (esp time_slice : ℕ) (s : p.State) (m : Machine)
      → IsEnded s (timer_interrupt p esp time_slice (s, m)).0
  unfolding timer_interrupt timer_handler
  timer_interrupt-IsEnded esp time_slice s m =
      let (first, second) = k.first_ends s in record { first_lem = first; second_lem = second }

-- What the handler reads as the number of the exception.
abbrev pub read_number : (vector code : ℕ) → ℕ
read_number vector code = if has_error_code vector then code else 0

int_no-stack_frame :
    (registers pushed : ℕ → ℕ) (vector code : ℕ)
    → int_no (stack_frame registers pushed vector code) ≡ read_number vector code
unfolding int_no stack_frame
int_no-stack_frame registers pushed vector code = refl

-- The outcomes of an exception.
pub data Handled (esp vector code : ℕ) (m : Machine) : Option (Terminal × Machine) → Type 0 where
  -- The processor is stopped.
  stopped : has_error_code vector ≡ true → code ≢ 0 → Handled esp vector code m none
  -- The process that ran has ended, and the next one goes on.
  ended :
      (t : Terminal) (gone after : Machine)
      → read_number vector code ≡ 0
      → IsGone m.executing m gone
      → HandsOver esp m.executing gone after
      → Handled esp vector code m (some (t, after))

-- From an ordered ready queue, an exception without an error code, whichever it is, or with the
-- error code zero, ends the process that runs: it is terminated and kept to be freed, and the
-- processor goes to a process of the highest priority of the ready queue, or to the kernel if
-- there is none. An exception with another error code stops the processor.
pub exception-Handled :
    (esp vector code : ℕ) (registers pushed : ℕ → ℕ) (t : Terminal) (m : Machine)
    → IsValid (priority_of m) m.ready_queue
    → Handled esp vector code m (exception esp (stack_frame registers pushed vector code) (t, m))
unfolding exception softwear_interrupt_handler
exception-Handled esp vector code registers pushed t m valid =
    let (gone, is, over) = process_exit-HandsOver esp m valid in
    let e = int_no-stack_frame registers pushed vector code in
    rw e (elim (Bool-cases (read_number vector code == 0)) [
      | inl z ↦
          let zero_read : read_number vector code ≡ 0 = ground arith in
          rw zero_read (ended _ gone _ zero_read is over)
      | inr nz ↦ elim (Bool-cases (ltb (read_number vector code) 32)) [
        | inl low ↦ rw (low, nz) (stopped (ground arith) (ground arith))
        | inr high ↦ rw high (stopped (ground arith) (ground arith))
      ]
    ])
