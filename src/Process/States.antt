-- ===== src/Process/States.antt =====
-- What the operations do to the states of the processes.
use lazy_os.Prelude.{
  ℕ, ◌≡◌, ◌≢◌, Bool, true, false, Option, none, some, arith, ◌==◌, if◌then◌else◌, Bool-cases, inl,
  inr,
}
use lazy_os.Queue.{pq_pop, pq_is_empty}
use lazy_os.Prelude.Int.{is_nonpositive}
use lazy_os.Process.{
  ProcessState, unused, ready, running, terminated, Machine, set_state, push_ready, context_switch,
  switch_to_next, pop_and_switch, leave_to_kernel, mark_terminated, process_exit, start_processes,
  reap, charge, schedule, schedule_executing, scheduler, priority_of, kernel_proc,
}

-- The slot is not free.
abbrev pub IsUsed : ℕ → Machine → Type 0
IsUsed i k = (k.procs i).state ≢ unused

-- No slot that is in use becomes free.
abbrev pub Keeps : Machine → Machine → Type 0
Keeps before after = (i : ℕ) → IsUsed i before → IsUsed i after

pub set_state-Keeps :
    (p : ℕ) (state : ProcessState) (k : Machine) → state ≢ unused → Keeps k (set_state p state k)
unfolding set_state
set_state-Keeps p state k ne i h = elim (Bool-cases (p == i)) [ inl e ↦ rw e ne | inr e ↦ rw e h ]

pub context_switch-Keeps :
    (esp : ℕ) (curr : Option ℕ) (next : ℕ) (k : Machine) → Keeps k (context_switch esp curr next k)
unfolding context_switch
context_switch-Keeps esp none next k i h = elim (Bool-cases (next == i)) [
  | inl e ↦ rw e (λ t. cc)
  | inr e ↦ rw e h
]
context_switch-Keeps esp (some curr) next k i h = elim (Bool-cases (next == i)) [
  | inl e ↦ rw e (λ t. cc)
  | inr e ↦ rw e (elim (Bool-cases (curr == i)) [
    | inl f ↦ let same : curr ≡ i = ground arith in rw (f, same) h
    | inr f ↦ rw f h
  ])
]

switch_to_next-Keeps :
    (esp : ℕ) (curr next : Option ℕ) (k : Machine) → Keeps k (switch_to_next esp curr next k)
unfolding switch_to_next
switch_to_next-Keeps esp curr none k i h = h
switch_to_next-Keeps esp curr (some next) k i h =
    context_switch-Keeps esp curr next (record (set_state next running k) { executing = some next })
      i (set_state-Keeps next running k (λ t. cc) i h)

pop_and_switch-Keeps :
    (esp : ℕ) (curr : Option ℕ) (k : Machine) → Keeps k (pop_and_switch esp curr k)
unfolding pop_and_switch
pop_and_switch-Keeps esp curr k i h =
    let popped = pq_pop (priority_of k) k.ready_queue in
    switch_to_next-Keeps esp curr popped.0 (record k { ready_queue = popped.1 }) i h

leave_to_kernel-Keeps : (esp : ℕ) (k : Machine) → Keeps k (leave_to_kernel esp k)
unfolding leave_to_kernel
leave_to_kernel-Keeps esp k i h =
    context_switch-Keeps esp none kernel_proc (record k { executing = none }) i h

mark_terminated-Keeps : (p : Option ℕ) (k : Machine) → Keeps k (mark_terminated p k)
unfolding mark_terminated
mark_terminated-Keeps none k i h = h
mark_terminated-Keeps (some p) k i h = set_state-Keeps p terminated k (λ t. cc) i h

-- The two ways to give up the processor.
yield-Keeps :
    (esp : ℕ) (curr : Option ℕ) (k : Machine) (empty : Bool)
    → Keeps k (if empty then leave_to_kernel esp k else pop_and_switch esp curr k)
yield-Keeps esp curr k true = leave_to_kernel-Keeps esp k
yield-Keeps esp curr k false = pop_and_switch-Keeps esp curr k

pub process_exit-Keeps : (esp : ℕ) (k : Machine) → Keeps k (process_exit esp k)
unfolding process_exit
process_exit-Keeps esp k i h =
    let k' = record (mark_terminated k.executing k) { zombie = k.executing } in
    yield-Keeps esp k.executing k' (pq_is_empty k'.ready_queue) i
      (mark_terminated-Keeps k.executing k i h)

pub start_processes-Keeps : (esp : ℕ) (k : Machine) → Keeps k (start_processes esp k)
unfolding start_processes
start_processes-Keeps esp k i h = elim (Bool-cases (pq_is_empty k.ready_queue)) [
  | inl e ↦ rw e h
  | inr e ↦ rw e (pop_and_switch-Keeps esp (some kernel_proc) k i h)
]

reap-Keeps : (zombie : Option ℕ) (k : Machine) → Keeps k (reap zombie k)
unfolding reap
reap-Keeps none k i h = h
reap-Keeps (some proc) k i h = h

pub charge-Keeps : (time_slice prev : ℕ) (k : Machine) → Keeps k (charge time_slice prev k)
unfolding charge
charge-Keeps time_slice prev k i h = elim (Bool-cases ((k.procs prev).spinning == 0)) [
  | inr e ↦ rw e h
  | inl e ↦ rw e (elim (Bool-cases (prev == i)) [
    | inl f ↦ let same : prev ≡ i = ground arith in rw (f, same) h
    | inr f ↦ rw f h
  ])
]

schedule-Keeps : (esp time_slice prev : ℕ) (k : Machine) → Keeps k (schedule esp time_slice prev k)
unfolding schedule
schedule-Keeps esp time_slice prev k i h =
    let charged = charge time_slice prev k in
    let held : IsUsed i charged = charge-Keeps time_slice prev k i h in
    elim (Bool-cases (is_nonpositive (charged.procs prev).burst_time)) [
      | inl over ↦ rw over (
          yield-Keeps esp none (set_state prev terminated charged)
            (pq_is_empty (set_state prev terminated charged).ready_queue) i
            (set_state-Keeps prev terminated charged (λ t. cc) i held))
      | inr more ↦ rw more (elim (Bool-cases (pq_is_empty charged.ready_queue)) [
        | inl alone ↦ rw alone held
        | inr others ↦ rw others (
            pop_and_switch-Keeps esp (some prev) (push_ready prev (set_state prev ready charged)) i
              (set_state-Keeps prev ready charged (λ t. cc) i held))
      ])
    ]

schedule_executing-Keeps :
    (esp time_slice : ℕ) (executing : Option ℕ) (k : Machine)
    → Keeps k (schedule_executing esp time_slice executing k)
unfolding schedule_executing
schedule_executing-Keeps esp time_slice none k i h = h
schedule_executing-Keeps esp time_slice (some prev) k i h = schedule-Keeps esp time_slice prev k i h

pub scheduler-Keeps : (esp time_slice : ℕ) (k : Machine) → Keeps k (scheduler esp time_slice k)
unfolding scheduler
scheduler-Keeps esp time_slice k i h =
    schedule_executing-Keeps esp time_slice (reap k.zombie k).executing (reap k.zombie k) i
      (reap-Keeps k.zombie k i h)
