-- ===== src/Process/Places.antt =====
-- Every operation keeps each process in one place.
use lazy_os.Prelude.{
  ℕ, ◌≡◌, refl, sym, subst, ◌∙◌, false, Option, none, some, arith, ◌==◌, if◌then◌else◌, Bool-cases,
  inl, inr,
}
use lazy_os.Prelude.Int.{is_nonpositive}
use lazy_os.Queue.{pq_is_empty}
use lazy_os.Queue.Push.{pq_push-IsPushed}
use lazy_os.Process.{
  ready, terminated, Machine, kernel_proc, set_state, priority_of, push_ready, pop_and_switch,
  leave_to_kernel, mark_terminated, process_exit, start_processes, reap, charge, schedule,
  schedule_executing, scheduler,
}
use lazy_os.Process.States.{charge-Keeps}
use lazy_os.Process.Switch.{push-nonempty, charge-queue, charge-executing}
use lazy_os.Process.Sound.{
  IsSound, IsSound-room, IsAlike, set_state-IsAlike, IsSound-idle, IsSound-alike, AllSound,
  switched-AllSound, pop_and_switch-AllSound,
}

leave_to_kernel-AllSound :
    (esp : ℕ) (k : Machine) → IsSound none k → AllSound (leave_to_kernel esp k)
unfolding leave_to_kernel priority_of
leave_to_kernel-AllSound esp k is =
    switched-AllSound esp none kernel_proc (record k { executing = none })
      (record { valid = is.valid; once = is.once; used = is.used; below = is.below })

yield-AllSound :
    (esp : ℕ) (curr : Option ℕ) (k : Machine)
    → IsSound none k
    → AllSound
        (if pq_is_empty k.ready_queue then leave_to_kernel esp k else pop_and_switch esp curr k)
yield-AllSound esp curr k is = elim (Bool-cases (pq_is_empty k.ready_queue)) [
  | inl e ↦ rw e (leave_to_kernel-AllSound esp k is)
  | inr e ↦ rw e (pop_and_switch-AllSound esp curr k e is)
]

marked-IsSound :
    (dying : Option ℕ) (k : Machine)
    → IsSound none k
    → IsSound none (record (mark_terminated dying k) { zombie = dying })
unfolding mark_terminated priority_of
marked-IsSound none k is = record {
  valid = is.valid;
  once = is.once;
  used = is.used;
  below = is.below;
}
marked-IsSound (some p) k is =
    let is' =
      IsSound-alike none k (set_state p terminated k) (set_state-IsAlike p terminated k (λ t. cc))
        is in
    record { valid = is'.valid; once = is'.once; used = is'.used; below = is'.below }

pub process_exit-AllSound : (esp : ℕ) (k : Machine) → AllSound k → AllSound (process_exit esp k)
unfolding process_exit
process_exit-AllSound esp k is =
    yield-AllSound esp k.executing (record (mark_terminated k.executing k) { zombie = k.executing })
      (marked-IsSound k.executing k (IsSound-idle k.executing k is))

pub start_processes-AllSound :
    (esp : ℕ) (k : Machine) → AllSound k → AllSound (start_processes esp k)
unfolding start_processes
start_processes-AllSound esp k is = elim (Bool-cases (pq_is_empty k.ready_queue)) [
  | inl e ↦ rw e is
  | inr e ↦
      rw e (pop_and_switch-AllSound esp (some kernel_proc) k e (IsSound-idle k.executing k is))
]

-- A process leaves the processor, or nothing, for the queue: its priority and its slot are in order.
push_ready-IsSound :
    (prev : ℕ) (k : Machine) → IsSound (some prev) k → IsSound none (push_ready prev k)
unfolding push_ready priority_of
push_ready-IsSound prev k is =
    let room = IsSound-room (some prev) k is in
    let pushed = pq_push-IsPushed (priority_of k) k.ready_queue prev is.valid (omega arith) in
    record {
      valid = pushed.valid;
      once = λ x. let le = is.once x in let same = pushed.same x in omega arith;
      used = λ x h. is.used x (let same = pushed.same x in omega arith);
      below = λ x h. is.below x (let same = pushed.same x in omega arith);
    }

charge-priority :
    (time_slice prev : ℕ) (k : Machine) (x : ℕ)
    → ((charge time_slice prev k).procs x).priority ≡ (k.procs x).priority
unfolding charge
charge-priority time_slice prev k x = elim (Bool-cases ((k.procs prev).spinning == 0)) [
  | inr e ↦ rw e refl
  | inl e ↦ rw e (elim (Bool-cases (prev == x)) [
    | inl f ↦ let same : prev ≡ x = ground arith in rw (f, same) refl
    | inr f ↦ rw f refl
  ])
]

push_ready-nonempty :
    (p : ℕ) (k : Machine)
    → pq_is_empty k.ready_queue ≡ false
    → pq_is_empty (push_ready p k).ready_queue ≡ false
unfolding push_ready
push_ready-nonempty p k e = push-nonempty (priority_of k) k.ready_queue p e

charge-IsAlike : (time_slice prev : ℕ) (k : Machine) → IsAlike k (charge time_slice prev k)
unfolding priority_of
charge-IsAlike time_slice prev k = record {
  queue_lem = charge-queue time_slice prev k;
  priority_lem = charge-priority time_slice prev k;
  keeps = charge-Keeps time_slice prev k;
}

schedule-AllSound :
    (esp time_slice prev : ℕ) (k : Machine)
    → k.executing ≡ some prev
    → AllSound k
    → AllSound (schedule esp time_slice prev k)
unfolding schedule
schedule-AllSound esp time_slice prev k on is =
    let k1 = charge time_slice prev k in
    let is0 : IsSound (some prev) k = subst (λ e. IsSound e k) on is in
    let is1 = IsSound-alike (some prev) k k1 (charge-IsAlike time_slice prev k) is0 in
    let e1 = charge-executing time_slice prev k ∙ on in
    let ended = set_state prev terminated k1 in
    let waiting = push_ready prev (set_state prev ready k1) in
    elim (Bool-cases (is_nonpositive (k1.procs prev).burst_time)) [
      | inl over ↦ rw over (
          yield-AllSound esp none ended (
            IsSound-idle (some prev) ended (
              IsSound-alike (some prev) k1 ended (set_state-IsAlike prev terminated k1 (λ t. cc))
                is1)))
      | inr more ↦ rw more (elim (Bool-cases (pq_is_empty k1.ready_queue)) [
        | inl alone ↦ rw alone (subst (λ e. IsSound e k1) (sym e1) is1)
        | inr others ↦ rw others (
            pop_and_switch-AllSound esp (some prev) waiting
              (push_ready-nonempty prev (set_state prev ready k1) others)
              (push_ready-IsSound prev (set_state prev ready k1) (
                IsSound-alike (some prev) k1 (set_state prev ready k1)
                  (set_state-IsAlike prev ready k1 (λ t. cc)) is1)))
      ])
    ]

reap-IsSound : (zombie e : Option ℕ) (k : Machine) → IsSound e k → IsSound e (reap zombie k)
unfolding reap priority_of
reap-IsSound none e k is = is
reap-IsSound (some proc) e k is = record {
  valid = is.valid;
  once = is.once;
  used = is.used;
  below = is.below;
}

reap-executing : (zombie : Option ℕ) (k : Machine) → (reap zombie k).executing ≡ k.executing
unfolding reap
reap-executing none k = refl
reap-executing (some proc) k = refl

schedule_executing-AllSound :
    (esp time_slice : ℕ) (executing : Option ℕ) (k : Machine)
    → k.executing ≡ executing
    → AllSound k
    → AllSound (schedule_executing esp time_slice executing k)
unfolding schedule_executing
schedule_executing-AllSound esp time_slice none k e is = is
schedule_executing-AllSound esp time_slice (some prev) k e is =
    schedule-AllSound esp time_slice prev k e is

pub scheduler-AllSound :
    (esp time_slice : ℕ) (k : Machine) → AllSound k → AllSound (scheduler esp time_slice k)
unfolding scheduler
scheduler-AllSound esp time_slice k is =
    let k1 = reap k.zombie k in
    schedule_executing-AllSound esp time_slice k1.executing k1 refl (
      subst (λ e. IsSound e k1) (sym (reap-executing k.zombie k))
        (reap-IsSound k.zombie k.executing k is))
