-- ===== src/Process.antt =====
-- src/process/process.c, with context_switch of src/process/process.asm.
-- A pointer to a process is a number: `i` for `&procs[i]`, and `max_procs` for `&kernel_proc`. A
-- call of `context_switch` ends the step, since its caller goes on only when it is switched to.
-- `burst_time` is a float that only ever holds whole numbers below 2 ^ 24, where float arithmetic is
-- exact, so it is an integer here.
pub mod States
pub mod Slots
pub mod Handover
pub mod Switch
pub mod Sound
pub mod Places
pub mod Created
mod Tests
use lazy_os.Prelude.{
  ℕ, zero, suc, ◌+◌, ◌-◌, ◌*◌, ◌%◌, ◌^◌, bit_or, Bool, Option, none, some, ◌==◌, if◌then◌else◌,
  update, u32, sub32, ltb,
}
use lazy_os.Prelude.Int.{ℤ, pos, minus, is_nonpositive}
use lazy_os.Queue.{PriorityQueue, pq_init, pq_push, pq_pop, pq_is_empty}
use lazy_os.Kheap.{kfree}
use lazy_os.Paging.{
  System, load, store, page_size, is_present, is_writable, paging_new_process_directory, vmm_alloc,
  paging_get_physical, free_vmm,
}

abbrev pub max_procs : ℕ
max_procs = 4

abbrev pub kernel_proc : ℕ
kernel_proc = 4

abbrev pub proc_stack_virt : ℕ
proc_stack_virt = 0x10000000

pub data ProcessState : Type 0 where
  unused ready running terminated : ProcessState

-- The state that a word of memory stands for, by the order of the C enumeration.
abbrev pub state_of_word : ℕ → ProcessState
state_of_word zero = unused
state_of_word (suc zero) = ready
state_of_word (suc (suc zero)) = running
state_of_word (suc (suc (suc n))) = terminated

-- The word that the assembly file writes under the name PROCESS_RUNNING.
abbrev pub asm_process_running : ℕ
asm_process_running = 3

pub record Process : Type 0 where
  pub sp : ℕ
  pub cr3 : ℕ
  pub state : ProcessState
  pub priority : ℕ
  pub pid : ℕ
  pub burst_time : ℤ
  pub spinning : ℕ

-- The globals of process.c, the memory, and the processor's CR3.
pub record Machine : Type 0 where
  pub system : System
  pub procs : ℕ → Process
  pub zombie : Option ℕ
  pub indx : ℕ
  pub ready_queue : PriorityQueue
  pub waiting_queue : PriorityQueue
  pub executing : Option ℕ
  pub pd_ptr : ℕ
  pub cr3 : ℕ

-- `p->state = state`
unfoldable pub set_state : ℕ → ProcessState → Machine → Machine
set_state p state k = record k { procs = update k.procs p (record (k.procs p) { state = state }) }

unfoldable pub priority_of : Machine → ℕ → ℕ
priority_of k p = (k.procs p).priority

unfoldable pub push_ready : ℕ → Machine → Machine
unfolding priority_of
push_ready p k = record k { ready_queue = pq_push (priority_of k) k.ready_queue p }

-- `esp` is the stack pointer after `pusha`. CR3 is loaded if it differs and is not null.
unfoldable pub context_switch : (esp : ℕ) → (curr : Option ℕ) → (next : ℕ) → Machine → Machine
unfolding set_state
context_switch esp none next k =
    let k' = set_state next (state_of_word asm_process_running) k in
    let directory = (k'.procs next).cr3 in
    record k' { cr3 = if directory == 0 then k'.cr3 else directory }
context_switch esp (some curr) next k =
    let saved = record k { procs = update k.procs curr (record (k.procs curr) { sp = esp }) } in
    let k' = set_state next (state_of_word asm_process_running) saved in
    let directory = (k'.procs next).cr3 in
    record k' { cr3 = if directory == 0 then k'.cr3 else directory }

unfoldable pub init_queue : Machine → Machine
unfolding pq_init
init_queue k =
    let proc = k.procs kernel_proc in
    record k {
      ready_queue = pq_init k.ready_queue;
      waiting_queue = pq_init k.waiting_queue;
      procs =
          update k.procs kernel_proc
            (record proc { cr3 = load k.system k.pd_ptr 0; state = ready });
    }

-- The process that runs next is popped, marked and switched to; without one the kernel goes on.
-- `curr` is the process to save.
unfoldable pub switch_to_next : (esp : ℕ) → (curr : Option ℕ) → Option ℕ → Machine → Machine
unfolding set_state
switch_to_next esp curr none k = k
switch_to_next esp curr (some next) k =
    context_switch esp curr next (record (set_state next running k) { executing = some next })

unfoldable pub pop_and_switch : (esp : ℕ) → (curr : Option ℕ) → Machine → Machine
unfolding switch_to_next priority_of
pop_and_switch esp curr k =
    let (next, queue) = pq_pop (priority_of k) k.ready_queue in
    switch_to_next esp curr next (record k { ready_queue = queue })

unfoldable pub leave_to_kernel : (esp : ℕ) → Machine → Machine
leave_to_kernel esp k = context_switch esp none kernel_proc (record k { executing = none })

unfoldable pub mark_terminated : Option ℕ → Machine → Machine
unfolding set_state
mark_terminated none k = k
mark_terminated (some p) k = set_state p terminated k

unfoldable pub process_exit : (esp : ℕ) → Machine → Machine
unfolding mark_terminated pop_and_switch leave_to_kernel
process_exit esp k =
    let dying = k.executing in
    let k' = record (mark_terminated dying k) { zombie = dying } in
    if pq_is_empty k'.ready_queue then leave_to_kernel esp k' else pop_and_switch esp dying k'

unfoldable pub start_processes : (esp : ℕ) → Machine → Machine
unfolding pop_and_switch
start_processes esp k =
    if pq_is_empty k.ready_queue then k else pop_and_switch esp (some kernel_proc) k

unfoldable pub free_proc : ℕ → Machine → Machine
free_proc proc k =
    let directory = (k.procs proc).cr3 in
    let system = (free_vmm directory proc_stack_virt page_size k.system).1 in
    record k { system = record system { kernel = kfree directory system.kernel } }

unfoldable pub reap : Option ℕ → Machine → Machine
unfolding free_proc
reap none k = k
reap (some proc) k = record (free_proc proc k) { zombie = none }

-- `prev->burst_time -= time_slice`, unless the process spins on a lock.
unfoldable pub charge : (time_slice : ℕ) → ℕ → Machine → Machine
charge time_slice prev k =
    let proc = k.procs prev in
    let left = minus proc.burst_time time_slice in
    if proc.spinning == 0
    then record k { procs = update k.procs prev (record proc { burst_time = left }) }
    else k

-- The part of `scheduler` behind the test of `executing_process`.
unfoldable pub schedule : (esp time_slice : ℕ) → (prev : ℕ) → Machine → Machine
unfolding charge set_state pop_and_switch leave_to_kernel push_ready
schedule esp time_slice prev k =
    let charged = charge time_slice prev k in
    let ended = set_state prev terminated charged in
    let waiting = push_ready prev (set_state prev ready charged) in
    if is_nonpositive (charged.procs prev).burst_time
    then (if pq_is_empty ended.ready_queue
        then leave_to_kernel esp ended
        else pop_and_switch esp none ended)
    else if pq_is_empty charged.ready_queue
    then charged
    else pop_and_switch esp (some prev) waiting

unfoldable pub schedule_executing : (esp time_slice : ℕ) → Option ℕ → Machine → Machine
unfolding schedule
schedule_executing esp time_slice none k = k
schedule_executing esp time_slice (some prev) k = schedule esp time_slice prev k

unfoldable pub scheduler : (esp time_slice : ℕ) → Machine → Machine
unfolding reap schedule_executing
scheduler esp time_slice k =
    let reaped = reap k.zombie k in schedule_executing esp time_slice reaped.executing reaped

-- The first unused slot, with `n` slots left, from the slot `i`.
unfoldable pub find_unused : (n : ℕ) → (ℕ → Process) → (i : ℕ) → Option ℕ
find_unused zero procs i = none
find_unused (suc n) procs i =
    let rest = find_unused n procs (i + 1) in
    elim ((procs i).state) [ unused ↦ some i | ready ↦ rest | running ↦ rest | terminated ↦ rest ]

-- The words below `phys_top`: the return address, the entry and eight registers.
unfoldable pub push_frame : (phys_top exit_address entry : ℕ) → System → System
unfolding store
push_frame phys_top exit_address entry s =
    let s1 = store (sub32 phys_top 4) 0 exit_address s in
    let s2 = store (sub32 phys_top 8) 0 entry s1 in
    let s3 = store (sub32 phys_top 12) 0 0 s2 in
    let s4 = store (sub32 phys_top 16) 0 0 s3 in
    let s5 = store (sub32 phys_top 20) 0 0 s4 in
    let s6 = store (sub32 phys_top 24) 0 0 s5 in
    let s7 = store (sub32 phys_top 28) 0 0 s6 in
    let s8 = store (sub32 phys_top 32) 0 0 s7 in
    let s9 = store (sub32 phys_top 36) 0 0 s8 in store (sub32 phys_top 40) 0 0 s9

-- The process that a slot holds once it is set up.
unfoldable pub new_process : (sp directory indx : ℕ) → Process
new_process sp directory indx = record {
  sp = sp;
  cr3 = directory;
  state = ready;
  priority = 1;
  pid = indx % 256;
  burst_time = pos 400;
  spinning = 0;
}

-- `create_process` in the slot `proc`.
unfoldable pub create_in : (exit_address entry proc : ℕ) → Machine → Option ℕ × Machine
unfolding push_frame new_process push_ready
create_in exit_address entry proc k =
    let (pd, s1) = paging_new_process_directory (load k.system k.pd_ptr 0) k.system in
    let directory = load s1 pd 0 in
    let (virt_top, s2) =
      vmm_alloc directory proc_stack_virt (page_size * 2) (bit_or is_present is_writable) s1 in
    let phys_base = paging_get_physical directory (sub32 virt_top page_size) s2 in
    let phys_top = u32 (phys_base + page_size) in
    let s3 = push_frame phys_top exit_address entry s2 in
    let made = record k {
      system = s3;
      procs = update k.procs proc (new_process (sub32 virt_top 40) directory k.indx);
      indx = u32 (k.indx + 1);
    } in
    if pd == 0
    then (none, record k { system = s1 })
    else if phys_base == 0
    then (none, record k { system = s2 })
    else (some proc, push_ready proc made)

unfoldable pub create_found : (exit_address entry : ℕ) → Option ℕ → Machine → Option ℕ × Machine
unfolding create_in
create_found exit_address entry none k = (none, k)
create_found exit_address entry (some proc) k = create_in exit_address entry proc k

unfoldable pub create_process : (exit_address entry : ℕ) → Machine → Option ℕ × Machine
unfolding create_found find_unused
create_process exit_address entry k =
    create_found exit_address entry (find_unused max_procs k.procs 0) k
