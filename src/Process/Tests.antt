-- ===== src/Process/Tests.antt =====
-- A machine whose four processes are ready, of which two stand in the ready queue.
use lazy_os.Prelude.{ℕ, ◌<◌, ◌≡◌, arith, none, some, ◌==◌, if◌then◌else◌}
use lazy_os.Prelude.Int.{pos}
use lazy_os.Process.{
  ready, Process, Machine, max_procs, create_process, process_exit, schedule, scheduler,
  priority_of,
}
use lazy_os.Process.States.{IsUsed}
use lazy_os.Process.Sound.{AllSound}
use lazy_os.Process.Created.{Reach-AllSound}
use lazy_os.Queue.Order.{count}
use lazy_os.Process.Slots.{here, next, tick, exit, create_process-exhausted}
use lazy_os.Process.Switch.{Scheduled, schedule-Scheduled}

abbrev proc : ℕ → Process
proc i = record {
  sp = 0;
  cr3 = 0;
  state = ready;
  priority = i;
  pid = i;
  burst_time = pos 30;
  spinning = 0;
}

abbrev machine : Machine
machine = record {
  system = record {
    kernel = record {
      heap = record {
        table = record { entries = λ j. 0; total_entries = 8 };
        start_addr = 0x10000;
      };
      memory = λ a. 0;
    };
    bitmap = λ i. 0;
    current_directory = 0;
  };
  procs = proc;
  zombie = none;
  indx = 4;
  ready_queue = record { slots = λ i. if i == 0 then 3 else 2; size = 2 };
  waiting_queue = record { slots = λ i. 0; size = 0 };
  executing = some 1;
  pd_ptr = 0;
  cr3 = 0;
}

machine-IsUsed : (i : ℕ) → i < max_procs → IsUsed i machine
machine-IsUsed i h t = cc

create_process-exhausted_example :
    create_process 0 0 (process_exit 0 machine) ≡ (none, process_exit 0 machine)
create_process-exhausted_example =
    create_process-exhausted machine (process_exit 0 machine) 0 0 machine-IsUsed
      (next here (exit 0))

machine-AllSound : AllSound machine
unfolding count priority_of
machine-AllSound = record {
  valid = record { order = λ c pos inside. ground arith; bounded = omega arith };
  once = λ x. ground arith;
  used = λ x h t. cc;
  below = λ x h. ground arith;
}

-- The first process has ten ticks of thirty behind it, and two others are ready.
schedule-Scheduled_example : Scheduled 0x7000 10 1 machine (schedule 0x7000 10 1 machine)
schedule-Scheduled_example =
    schedule-Scheduled 0x7000 10 1 machine machine-AllSound.valid (omega arith)

Reach-AllSound_example : AllSound (process_exit 0 (scheduler 0 10 machine))
Reach-AllSound_example = Reach-AllSound (next (next here (tick 0 10)) (exit 0)) machine-AllSound
