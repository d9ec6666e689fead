-- ===== src/Interrupts/Tests.antt =====
-- Exceptions on a machine of which two processes stand in the ready queue.
use lazy_os.Prelude.{ℕ, arith, none, some, ◌==◌, if◌then◌else◌}
use lazy_os.Prelude.Int.{pos}
use lazy_os.Vga.{Terminal}
use lazy_os.Queue.Push.{IsValid}
use lazy_os.Process.{ready, Process, Machine, priority_of}
use lazy_os.Interrupts.{exception, stack_frame}
use lazy_os.Interrupts.Ends.{Handled, exception-Handled}

abbrev proc : ℕ → Process
proc i = record {
  sp = 0;
  cr3 = 0;
  state = ready;
  priority = i;
  pid = i;
  burst_time = pos 30;
  spinning = 0;
}

abbrev machine : Machine
machine = record {
  system = record {
    kernel = record {
      heap = record {
        table = record { entries = λ j. 0; total_entries = 8 };
        start_addr = 0x10000;
      };
      memory = λ a. 0;
    };
    bitmap = λ i. 0;
    current_directory = 0;
  };
  procs = proc;
  zombie = none;
  indx = 4;
  ready_queue = record { slots = λ i. if i == 0 then 3 else 2; size = 2 };
  waiting_queue = record { slots = λ i. 0; size = 0 };
  executing = some 1;
  pd_ptr = 0;
  cr3 = 0;
}

abbrev screen : Terminal
screen = record {
  video_mem = λ j. 0;
  terminal_row = 0;
  terminal_col = 0;
  saved_screen = λ j. 0;
  saved_row = 0;
  saved_col = 0;
}

machine-IsValid : IsValid (priority_of machine) machine.ready_queue
unfolding priority_of
machine-IsValid = record { order = λ c pos inside. ground arith; bounded = omega arith }

-- An invalid operation code.
exception-Handled_example :
    Handled 0 6 0 machine (exception 0 (stack_frame (λ j. 0) (λ j. 0) 6 0) (screen, machine))
exception-Handled_example = exception-Handled 0 6 0 (λ j. 0) (λ j. 0) screen machine machine-IsValid
