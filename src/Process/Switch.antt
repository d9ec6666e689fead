-- ===== src/Process/Switch.antt =====
-- Which process runs after a timer interrupt, and what becomes of the one that ran.
use lazy_os.Prelude.{
  ℕ, ◌<◌, ◌≡◌, refl, sym, subst, leb, true, false, none, some, arith, ◌==◌, if◌then◌else◌,
  Bool-cases, inl, inr,
}
use lazy_os.Prelude.Int.{ℤ, minus, is_nonpositive}
use lazy_os.Queue.{PriorityQueue, max_processes, pq_push, pq_is_empty}
use lazy_os.Queue.Push.{IsValid, IsPushed, pq_push-IsPushed}
use lazy_os.Process.{
  ProcessState, terminated, ready, Process, Machine, set_state, push_ready, pop_and_switch,
  leave_to_kernel, charge, schedule, priority_of,
}
use lazy_os.Process.Handover.{HandsOver, hand_over, priority_of-procs}

pub push-nonempty :
    (prio : ℕ → ℕ) (q : PriorityQueue) (p : ℕ)
    → pq_is_empty q ≡ false
    → pq_is_empty (pq_push prio q p) ≡ false
unfolding pq_is_empty pq_push
push-nonempty prio q p e = elim (Bool-cases (leb 256 q.size)) [
  | inl full ↦ rw full e
  | inr room ↦ rw room (ground arith)
]

-- The time that a process has left after a slice.
abbrev pub left_after : (time_slice : ℕ) → Process → ℤ
left_after time_slice proc =
    if proc.spinning == 0 then minus proc.burst_time time_slice else proc.burst_time

charge-burst :
    (time_slice prev : ℕ) (k : Machine)
    → ((charge time_slice prev k).procs prev).burst_time ≡ left_after time_slice (k.procs prev)
unfolding charge
charge-burst time_slice prev k =
    let self : (prev == prev) ≡ true = ground arith in
    elim (Bool-cases ((k.procs prev).spinning == 0)) [
      | inl e ↦ rw (e, self) refl
      | inr e ↦ rw e refl
    ]

pub charge-queue :
    (time_slice prev : ℕ) (k : Machine) → (charge time_slice prev k).ready_queue ≡ k.ready_queue
unfolding charge
charge-queue time_slice prev k = elim (Bool-cases ((k.procs prev).spinning == 0)) [
  | inl e ↦ rw e refl
  | inr e ↦ rw e refl
]

pub charge-executing :
    (time_slice prev : ℕ) (k : Machine) → (charge time_slice prev k).executing ≡ k.executing
unfolding charge
charge-executing time_slice prev k = elim (Bool-cases ((k.procs prev).spinning == 0)) [
  | inl e ↦ rw e refl
  | inr e ↦ rw e refl
]

-- A process that leaves the processor, in a state: its slice is charged, and the other processes, the
-- memory and the processor are as before.
pub record IsLeft (time_slice prev : ℕ) (state : ProcessState) (k after : Machine) : Type 0 where
  pub procs_lem :
      (p : ℕ)
      → after.procs p ≡ (
          if prev == p
          then record (k.procs p) { burst_time = left_after time_slice (k.procs p); state = state }
          else k.procs p)
  pub cr3_lem : after.cr3 ≡ k.cr3
  pub system_lem : after.system ≡ k.system
  pub zombie_lem : after.zombie ≡ k.zombie

charge-IsLeft :
    (time_slice prev : ℕ) (k : Machine)
    → IsLeft time_slice prev (k.procs prev).state k (charge time_slice prev k)
unfolding charge
charge-IsLeft time_slice prev k = elim (Bool-cases ((k.procs prev).spinning == 0)) [
  | inl e ↦ rw e (record {
    procs_lem = λ p. elim (Bool-cases (prev == p)) [
      | inl f ↦ let same : prev ≡ p = ground arith in rw (f, ← same, e) refl
      | inr f ↦ rw f refl
    ];
    cr3_lem = refl;
    system_lem = refl;
    zombie_lem = refl;
  })
  | inr e ↦ rw e (record {
    procs_lem = λ p. elim (Bool-cases (prev == p)) [
      | inl f ↦ let same : prev ≡ p = ground arith in rw (f, ← same, e) refl
      | inr f ↦ rw f refl
    ];
    cr3_lem = refl;
    system_lem = refl;
    zombie_lem = refl;
  })
]

set_state-IsLeft :
    (time_slice prev : ℕ) (state : ProcessState) (k : Machine)
    → IsLeft time_slice prev state k (set_state prev state (charge time_slice prev k))
unfolding set_state
set_state-IsLeft time_slice prev state k =
    let c = charge-IsLeft time_slice prev k in
    let self : (prev == prev) ≡ true = ground arith in
    record {
      procs_lem = λ p. elim (Bool-cases (prev == p)) [
        | inl f ↦ let same : prev ≡ p = ground arith in rw (f, ← same, c.procs_lem prev, self) refl
        | inr f ↦ rw (f, c.procs_lem p, f) refl
      ];
      cr3_lem = c.cr3_lem;
      system_lem = c.system_lem;
      zombie_lem = c.zombie_lem;
    }

IsLeft-priority :
    {time_slice prev : ℕ} {state : ProcessState} {k after : Machine}
    → IsLeft time_slice prev state k after
    → priority_of after ≡ priority_of k
IsLeft-priority {time_slice} {prev} {state} {k} {after} left = priority_of-procs k after λ p.
    rw (left.procs_lem p) (elim (Bool-cases (prev == p)) [ inl f ↦ rw f refl | inr f ↦ rw f refl ])

-- The outcomes of a timer interrupt in the process `prev`, through the machine `left` in which it has
-- left the processor.
pub data Scheduled (esp time_slice prev : ℕ) (k after : Machine) : Type 0 where
  -- Its time is up: it ends, its stack pointer is not saved, and the next process goes on.
  ended :
      (left : Machine)
      → is_nonpositive (left_after time_slice (k.procs prev)) ≡ true
      → IsLeft time_slice prev terminated k left
      → left.ready_queue ≡ k.ready_queue
      → HandsOver esp none left after
      → Scheduled esp time_slice prev k after
  -- No other process is ready: it goes on, and the slice is charged.
  alone :
      is_nonpositive (left_after time_slice (k.procs prev)) ≡ false
      → k.ready_queue.size ≡ 0
      → IsLeft time_slice prev (k.procs prev).state k after
      → after.executing ≡ k.executing
      → after.ready_queue ≡ k.ready_queue
      → Scheduled esp time_slice prev k after
  -- It joins the ready queue, and the next process of that queue goes on; its stack pointer is saved.
  preempted :
      (left : Machine)
      → is_nonpositive (left_after time_slice (k.procs prev)) ≡ false
      → 0 < k.ready_queue.size
      → IsLeft time_slice prev ready k left
      → IsPushed (priority_of k) k.ready_queue prev left.ready_queue
      → HandsOver esp (some prev) left after
      → Scheduled esp time_slice prev k after

schedule-preempted :
    (esp time_slice prev : ℕ) (k : Machine)
    → IsValid (priority_of k) k.ready_queue
    → k.ready_queue.size < max_processes
    → is_nonpositive (left_after time_slice (k.procs prev)) ≡ false
    → 0 < k.ready_queue.size
    → Scheduled esp time_slice prev k (
        pop_and_switch esp
          (some prev)
          (push_ready prev (set_state prev ready (charge time_slice prev k))))
unfolding push_ready set_state pq_is_empty
schedule-preempted esp time_slice prev k valid room more pos =
    let is = set_state-IsLeft time_slice prev ready k in
    let k1 = set_state prev ready (charge time_slice prev k) in
    let left = push_ready prev k1 in
    let queue : k1.ready_queue ≡ k.ready_queue = charge-queue time_slice prev k in
    let same = IsLeft-priority is in
    let pushed : IsPushed (priority_of k) k.ready_queue prev left.ready_queue =
      rw (same, queue) (pq_push-IsPushed (priority_of k) k.ready_queue prev valid room) in
    let is' : IsLeft time_slice prev ready k left = record {
      procs_lem = is.procs_lem;
      cr3_lem = is.cr3_lem;
      system_lem = is.system_lem;
      zombie_lem = is.zombie_lem;
    } in
    let same' : priority_of left ≡ priority_of k = IsLeft-priority is' in
    let some_ready : (left.ready_queue.size == 0) ≡ false = ground (arith, pushed.size_lem) in
    preempted left more pos is' pushed (
      rw some_ready at (
        hand_over esp (some prev) left
          (subst (λ f. IsValid f left.ready_queue) (sym same') pushed.valid)))

schedule-ended :
    (esp time_slice prev : ℕ) (k : Machine)
    → IsValid (priority_of k) k.ready_queue
    → is_nonpositive (left_after time_slice (k.procs prev)) ≡ true
    → Scheduled esp time_slice prev k (
        let left = set_state prev terminated (charge time_slice prev k) in
        if pq_is_empty left.ready_queue
        then leave_to_kernel esp left
        else pop_and_switch esp none left)
unfolding set_state
schedule-ended esp time_slice prev k valid over =
    let is = set_state-IsLeft time_slice prev terminated k in
    let left = set_state prev terminated (charge time_slice prev k) in
    let queue : left.ready_queue ≡ k.ready_queue = charge-queue time_slice prev k in
    ended left over is queue (
      hand_over esp none left (
        subst (λ f. IsValid f left.ready_queue) (sym (IsLeft-priority is))
          (subst (λ q. IsValid (priority_of k) q) (sym queue) valid)))

-- From an ordered ready queue with room for one more, a timer interrupt in a process charges its
-- slice and has one of three outcomes, by the time that is left and the queue. With no time left
-- the process is terminated, its stack pointer is not saved, and the processor goes to a process
-- of the highest priority, which leaves the queue, or to the kernel if the queue is empty. With no
-- other process ready it goes on. Else it joins the queue as ready, with its stack pointer saved,
-- and a process of the highest priority of that queue leaves it and goes on. The switch loads the
-- directory of the process that goes on and marks it as terminated; nothing else of the processes
-- changes.
pub schedule-Scheduled :
    (esp time_slice prev : ℕ) (k : Machine)
    → IsValid (priority_of k) k.ready_queue
    → k.ready_queue.size < max_processes
    → Scheduled esp time_slice prev k (schedule esp time_slice prev k)
unfolding schedule pq_is_empty
schedule-Scheduled esp time_slice prev k valid room =
    let burst = charge-burst time_slice prev k in
    let queue = charge-queue time_slice prev k in
    let charged = charge time_slice prev k in
    elim (Bool-cases (is_nonpositive (charged.procs prev).burst_time)) [
      | inl over ↦ rw over (schedule-ended esp time_slice prev k valid (rw burst at over))
      | inr more ↦ elim (Bool-cases (k.ready_queue.size == 0)) [
        | inl none_ready ↦
            let empty : pq_is_empty charged.ready_queue ≡ true = rw queue none_ready in
            rw (more, empty)
              (alone (rw burst at more) (ground arith) (charge-IsLeft time_slice prev k)
                (charge-executing time_slice prev k) queue)
        | inr others ↦
            let waiting : pq_is_empty charged.ready_queue ≡ false = rw queue others in
            rw (more, waiting)
              (schedule-preempted esp time_slice prev k valid room (rw burst at more)
                (ground arith))
      ]
    ]
