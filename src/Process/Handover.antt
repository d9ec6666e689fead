-- ===== src/Process/Handover.antt =====
-- What the switch from one process to the next does to the processes and to the processor.
use mathlib.Core.Path.{fun_ext}
use lazy_os.Prelude.{
  ℕ, ◌<◌, ◌≡◌, refl, ◌∙◌, Bool, true, false, Option, none, some, arith, ◌==◌, if◌then◌else◌,
  Bool-cases, inl, inr,
}
use lazy_os.Queue.{pq_pop, pq_is_empty}
use lazy_os.Queue.Push.{IsValid}
use lazy_os.Queue.Pop.{IsPopped, pq_pop-IsPopped}
use lazy_os.Process.{
  terminated, running, Machine, set_state, context_switch, switch_to_next, pop_and_switch,
  leave_to_kernel, mark_terminated, process_exit, priority_of, kernel_proc,
}

-- Whether it is the process `p`.
abbrev pub is : Option ℕ → (p : ℕ) → Bool
is none p = false
is (some q) p = q == p

-- A switch that saves the process of `curr`, if there is one, and goes on with `next`: only the stack
-- pointer of the one and the state of the other change, and CR3 is the directory of `next`, if it has one.
pub record IsSwitched (esp : ℕ) (curr : Option ℕ) (next : ℕ) (before after : Machine) : Type 0 where
  pub procs_lem :
      (p : ℕ)
      → after.procs p ≡ record (before.procs p) {
        sp = if is curr p then esp else (before.procs p).sp;
        state = if next == p then terminated else (before.procs p).state;
      }
  pub cr3_lem :
      after.cr3 ≡ (if (before.procs next).cr3 == 0 then before.cr3 else (before.procs next).cr3)
  pub system_lem : after.system ≡ before.system
  pub zombie_lem : after.zombie ≡ before.zombie

-- The processor goes to a process of the highest priority, which leaves the ready queue, or to the
-- kernel if the queue is empty.
pub data HandsOver (esp : ℕ) (curr : Option ℕ) (before after : Machine) : Type 0 where
  to_kernel :
      before.ready_queue.size ≡ 0
      → after.executing ≡ none
      → after.ready_queue ≡ before.ready_queue
      → IsSwitched esp none kernel_proc before after
      → HandsOver esp curr before after
  to_process :
      (next : ℕ)
      → after.executing ≡ some next
      → IsPopped (priority_of before) before.ready_queue next after.ready_queue
      → IsSwitched esp curr next before after
      → HandsOver esp curr before after

-- The states of `next` and the directory at a switch to it.
context_switch-IsSwitched :
    (esp : ℕ) (curr : Option ℕ) (next : ℕ) (k : Machine)
    → IsSwitched esp curr next k (context_switch esp curr next k)
unfolding context_switch set_state
context_switch-IsSwitched esp none next k =
    let self : (next == next) ≡ true = ground arith in
    record {
      procs_lem = λ p. elim (Bool-cases (next == p)) [
        | inl e ↦ let same : next ≡ p = ground arith in rw (e, same) refl
        | inr e ↦ rw e refl
      ];
      cr3_lem = rw self refl;
      system_lem = refl;
      zombie_lem = refl;
    }
context_switch-IsSwitched esp (some curr) next k =
    let self : (next == next) ≡ true = ground arith in
    record {
      procs_lem = λ p. elim (Bool-cases (next == p)) [
        | inl e ↦
            let same : next ≡ p = ground arith in
            rw (e, same)
              (elim (Bool-cases (curr == p)) [
                | inl f ↦ let own : curr ≡ p = ground arith in rw (f, own) refl
                | inr f ↦ rw f refl
              ])
        | inr e ↦ rw e (elim (Bool-cases (curr == p)) [
          | inl f ↦ let own : curr ≡ p = ground arith in rw (f, own) refl
          | inr f ↦ rw f refl
        ])
      ];
      cr3_lem = rw self (elim (Bool-cases (curr == next)) [
        | inl f ↦ let own : curr ≡ next = ground arith in rw (f, own) refl
        | inr f ↦ rw f refl
      ]);
      system_lem = refl;
      zombie_lem = refl;
    }

-- The mark that the scheduler sets before the switch does not outlast it.
IsSwitched-marked :
    (esp : ℕ) (curr : Option ℕ) (next : ℕ) (k before after : Machine)
    → before.procs ≡ (set_state next running k).procs
    → before.cr3 ≡ k.cr3
    → before.system ≡ k.system
    → before.zombie ≡ k.zombie
    → IsSwitched esp curr next before after
    → IsSwitched esp curr next k after
unfolding set_state
IsSwitched-marked esp curr next k before after marked reg sys zom is_it =
    let self : (next == next) ≡ true = ground arith in
    record {
      procs_lem = λ p.
          is_it.procs_lem p
          ∙ rw marked (elim (Bool-cases (next == p)) [
            | inl e ↦ let same : next ≡ p = ground arith in rw (e, same) refl
            | inr e ↦ rw e refl
          ]);
      cr3_lem = is_it.cr3_lem ∙ rw (marked, reg, self) refl;
      system_lem = is_it.system_lem ∙ sys;
      zombie_lem = is_it.zombie_lem ∙ zom;
    }

context_switch-executing :
    (esp : ℕ) (curr : Option ℕ) (next : ℕ) (k : Machine)
    → (context_switch esp curr next k).executing ≡ k.executing
unfolding context_switch
context_switch-executing esp none next k = refl
context_switch-executing esp (some curr) next k = refl

context_switch-queue :
    (esp : ℕ) (curr : Option ℕ) (next : ℕ) (k : Machine)
    → (context_switch esp curr next k).ready_queue ≡ k.ready_queue
unfolding context_switch
context_switch-queue esp none next k = refl
context_switch-queue esp (some curr) next k = refl

leave_to_kernel-HandsOver :
    (esp : ℕ) (curr : Option ℕ) (k : Machine)
    → k.ready_queue.size ≡ 0
    → HandsOver esp curr k (leave_to_kernel esp k)
unfolding leave_to_kernel
leave_to_kernel-HandsOver esp curr k e =
    let k' = record k { executing = none } in
    let sw = context_switch-IsSwitched esp none kernel_proc k' in
    to_kernel e (context_switch-executing esp none kernel_proc k')
      (context_switch-queue esp none kernel_proc k')
      (record {
        procs_lem = sw.procs_lem;
        cr3_lem = sw.cr3_lem;
        system_lem = sw.system_lem;
        zombie_lem = sw.zombie_lem;
      })

pop_and_switch-HandsOver :
    (esp : ℕ) (curr : Option ℕ) (k : Machine)
    → IsValid (priority_of k) k.ready_queue
    → 0 < k.ready_queue.size
    → HandsOver esp curr k (pop_and_switch esp curr k)
unfolding pop_and_switch switch_to_next set_state
pop_and_switch-HandsOver esp curr k valid pos =
    let (first, popped) = pq_pop-IsPopped (priority_of k) k.ready_queue valid pos in
    let next = k.ready_queue.slots 0 in
    let k' = record k { ready_queue = (pq_pop (priority_of k) k.ready_queue).1 } in
    let k2 = record (set_state next running k') { executing = some next } in
    rw first (
      to_process next (context_switch-executing esp curr next k2)
        (rw (context_switch-queue esp curr next k2) popped)
        (IsSwitched-marked esp curr next k k2 _ refl refl refl refl
          (context_switch-IsSwitched esp curr next k2)))

-- The choice that an exit and the timer share.
pub hand_over :
    (esp : ℕ) (curr : Option ℕ) (k : Machine)
    → IsValid (priority_of k) k.ready_queue
    → HandsOver esp curr k
        (if pq_is_empty k.ready_queue then leave_to_kernel esp k else pop_and_switch esp curr k)
unfolding pq_is_empty
hand_over esp curr k valid = elim (Bool-cases (k.ready_queue.size == 0)) [
  | inl e ↦ rw e (leave_to_kernel-HandsOver esp curr k (ground arith))
  | inr e ↦ rw e (pop_and_switch-HandsOver esp curr k valid (ground arith))
]

-- An order of priorities that are the same.
pub priority_of-procs :
    (k k' : Machine)
    → ((p : ℕ) → (k'.procs p).priority ≡ (k.procs p).priority)
    → priority_of k' ≡ priority_of k
unfolding priority_of
priority_of-procs k k' same = fun_ext same

-- A process that has ended, or has not run: `k` after its exit.
pub record IsGone (dying : Option ℕ) (k after : Machine) : Type 0 where
  pub procs_lem :
      (p : ℕ)
      → after.procs p
        ≡ record (k.procs p) { state = if is dying p then terminated else (k.procs p).state }
  pub zombie_lem : after.zombie ≡ dying
  pub queue_lem : after.ready_queue ≡ k.ready_queue
  pub cr3_lem : after.cr3 ≡ k.cr3
  pub system_lem : after.system ≡ k.system

mark_terminated-IsGone :
    (dying : Option ℕ) (k : Machine)
    → IsGone dying k (record (mark_terminated dying k) { zombie = dying })
unfolding mark_terminated set_state
mark_terminated-IsGone none k = record {
  procs_lem = λ p. refl;
  zombie_lem = refl;
  queue_lem = refl;
  cr3_lem = refl;
  system_lem = refl;
}
mark_terminated-IsGone (some q) k = record {
  procs_lem = λ p. elim (Bool-cases (q == p)) [
    | inl e ↦ let same : q ≡ p = ground arith in rw (e, same) refl
    | inr e ↦ rw e refl
  ];
  zombie_lem = refl;
  queue_lem = refl;
  cr3_lem = refl;
  system_lem = refl;
}

-- From an ordered ready queue, an exit ends the process that runs, keeps it for the scheduler to free,
-- and hands over to the next one.
pub process_exit-HandsOver :
    (esp : ℕ) (k : Machine)
    → IsValid (priority_of k) k.ready_queue
    → (k' : Machine) × IsGone k.executing k k' × HandsOver esp k.executing k' (process_exit esp k)
unfolding process_exit
process_exit-HandsOver esp k valid =
    let gone = mark_terminated-IsGone k.executing k in
    let k' = record (mark_terminated k.executing k) { zombie = k.executing } in
    let same : priority_of k' ≡ priority_of k =
      priority_of-procs k k' (λ p. rw (gone.procs_lem p) refl) in
    (k', gone, hand_over esp k.executing k' (rw (same, gone.queue_lem) valid))
