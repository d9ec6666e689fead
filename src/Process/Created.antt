-- ===== src/Process/Created.antt =====
-- The creation of a process, and every sequence of operations.
use mathlib.Core.Option.{some-injective, none-ne-some}
use lazy_os.Prelude.{
  ℕ, zero, suc, ◌+◌, ◌*◌, ◌<◌, ◌≡◌, ◌≢◌, refl, true, false, Option, none, some, arith, ◌==◌, update,
  u32, sub32, bit_or, Bool-cases, inl, inr, ltb, ◌⊎◌,
}
use lazy_os.Queue.Push.{holds, pq_push-IsPushed}
use lazy_os.Paging.{
  load, page_size, is_present, is_writable, paging_new_process_directory, vmm_alloc,
  paging_get_physical, System,
}
use lazy_os.Process.{
  ProcessState, unused, ready, running, terminated, Process, Machine, max_procs, proc_stack_virt,
  priority_of, push_ready, push_frame, find_unused, new_process, create_in, create_found,
  create_process,
}
use lazy_os.Process.Slots.{Step, create, start, tick, exit, Reach, here, next}
use lazy_os.Process.Sound.{on_it, IsSound, IsSound-room, AllSound, IsValid-prio, holds-slot}
use lazy_os.Process.Places.{process_exit-AllSound, start_processes-AllSound, scheduler-AllSound}

-- The slot that the search returns is unused, and one of the table's.
found_at :
    (state : ProcessState) (i p : ℕ) (rest : Option ℕ)
    → elim state [ unused ↦ some i | ready ↦ rest | running ↦ rest | terminated ↦ rest ] ≡ some p
    → ((state ≡ unused) × (i ≡ p)) ⊎ (rest ≡ some p)
found_at unused i p rest e = inl (refl, some-injective i p e)
found_at ready i p rest e = inr e
found_at running i p rest e = inr e
found_at terminated i p rest e = inr e

find_unused-unused :
    (n : ℕ) (procs : ℕ → Process) (i p : ℕ)
    → find_unused n procs i ≡ some p
    → ((procs p).state ≡ unused) × (p < i + n)
unfolding find_unused
find_unused-unused zero procs i p e = absurd (none-ne-some p e)
find_unused-unused (suc n) procs i p e =
    elim (found_at (procs i).state i p (find_unused n procs (i + 1)) e) [
      | inl (vacant, same) ↦ (rw same at vacant, omega arith)
      | inr later ↦
          let (vacant, small) = find_unused-unused n procs (i + 1) p later in (vacant, omega arith)
    ]

-- The new process is pushed to the queue of the machine that holds it.
pushed-IsSound :
    (proc : ℕ) (new : Process) (indx : ℕ) (s : System) (e : Option ℕ) (k : Machine)
    → (k.procs proc).state ≡ unused
    → proc < max_procs
    → new.state ≢ unused
    → IsSound e k
    → IsSound e
        (push_ready proc (record k { system = s; procs = update k.procs proc new; indx = indx }))
unfolding push_ready priority_of
pushed-IsSound proc new indx s e k vacant small ne is =
    let k1 : Machine = record k { system = s; procs = update k.procs proc new; indx = indx } in
    let q = k.ready_queue in
    let away : (x : ℕ) → 0 < holds x q + on_it e x → (proc == x) ≡ false = λ x h.
      elim (Bool-cases (proc == x)) [
        | inr other ↦ other
        | inl same ↦ absurd (is.used x h (let e : proc ≡ x = ground arith in rw (← e) vacant))
      ] in
    let valid =
      IsValid-prio (priority_of k) (priority_of k1) q
        (λ c h.
          let out = away (q.slots c) (let n = holds-slot q.slots q.size c h in omega arith) in
          rw (priority_of, out) refl)
        is.valid in
    let room = IsSound-room e k is in
    let pushed = pq_push-IsPushed (priority_of k1) q proc valid (omega arith) in
    let alone : (x : ℕ) → (proc == x) ≡ true → holds x q + on_it e x ≡ 0 = λ x same.
      elim (Bool-cases (ltb 0 (holds x q + on_it e x))) [
        | inl more ↦ absurd (let out = away x (ground arith) in ground arith)
        | inr none_left ↦ ground arith
      ] in
    record {
      valid = pushed.valid;
      once = λ x. elim (Bool-cases (proc == x)) [
        | inl same ↦
            let zero' = alone x same in
            let one = pushed.same x in let two = rw same at one in omega arith
        | inr other ↦
            let le = is.once x in
            let one = pushed.same x in let two = rw other at one in omega arith
      ];
      used = λ x h. elim (Bool-cases (proc == x)) [
        | inl same ↦ rw same ne
        | inr other ↦
            rw other
              (is.used x (let one = pushed.same x in let two = rw other at one in omega arith))
      ];
      below = λ x h. elim (Bool-cases (proc == x)) [
        | inl same ↦ let e : proc ≡ x = ground arith in omega arith
        | inr other ↦
            is.below x (let one = pushed.same x in let two = rw other at one in omega arith)
      ];
    }

pushed-AllSound :
    (proc : ℕ) (new : Process) (indx : ℕ) (s : System) (k : Machine)
    → (k.procs proc).state ≡ unused
    → proc < max_procs
    → new.state ≢ unused
    → AllSound k
    → AllSound
        (push_ready proc (record k { system = s; procs = update k.procs proc new; indx = indx }))
unfolding push_ready
pushed-AllSound proc new indx s k vacant small ne is =
    pushed-IsSound proc new indx s k.executing k vacant small ne is

system-IsSound :
    (s : System) (e : Option ℕ) (k : Machine) → IsSound e k → IsSound e (record k { system = s })
unfolding priority_of
system-IsSound s e k is = record {
  valid = is.valid;
  once = is.once;
  used = is.used;
  below = is.below;
}

create_in-AllSound :
    (exit_address entry proc : ℕ) (k : Machine)
    → (k.procs proc).state ≡ unused
    → proc < max_procs
    → AllSound k
    → AllSound (create_in exit_address entry proc k).1
unfolding create_in new_process
create_in-AllSound exit_address entry proc k vacant small is =
    let (pd, s1) = paging_new_process_directory (load k.system k.pd_ptr 0) k.system in
    let directory = load s1 pd 0 in
    let (virt_top, s2) =
      vmm_alloc directory proc_stack_virt (page_size * 2) (bit_or is_present is_writable) s1 in
    let phys_base = paging_get_physical directory (sub32 virt_top page_size) s2 in
    let s3 = push_frame (u32 (phys_base + page_size)) exit_address entry s2 in
    let new = new_process (sub32 virt_top 40) directory k.indx in
    elim (Bool-cases (pd == 0)) [
      | inl e ↦ rw e (system-IsSound s1 k.executing k is)
      | inr e ↦ rw e (elim (Bool-cases (phys_base == 0)) [
        | inl f ↦ rw f (system-IsSound s2 k.executing k is)
        | inr f ↦ rw f (pushed-AllSound proc new (u32 (k.indx + 1)) s3 k vacant small (λ t. cc) is)
      ])
    ]

create_found-AllSound :
    (exit_address entry : ℕ) (slot : Option ℕ) (k : Machine)
    → find_unused max_procs k.procs 0 ≡ slot
    → AllSound k
    → AllSound (create_found exit_address entry slot k).1
unfolding create_found
create_found-AllSound exit_address entry none k e is = is
create_found-AllSound exit_address entry (some proc) k e is =
    let (vacant, small) = find_unused-unused max_procs k.procs 0 proc e in
    create_in-AllSound exit_address entry proc k vacant (omega arith) is

create_process-AllSound :
    (exit_address entry : ℕ) (k : Machine)
    → AllSound k
    → AllSound (create_process exit_address entry k).1
unfolding create_process
create_process-AllSound exit_address entry k is =
    create_found-AllSound exit_address entry (find_unused max_procs k.procs 0) k refl is

Step-AllSound : {m n : Machine} → Step m n → AllSound m → AllSound n
Step-AllSound {m} (create exit_address entry) is = create_process-AllSound exit_address entry m is
Step-AllSound {m} (start esp) is = start_processes-AllSound esp m is
Step-AllSound {m} (tick esp time_slice) is = scheduler-AllSound esp time_slice m is
Step-AllSound {m} (exit esp) is = process_exit-AllSound esp m is

-- From a machine that is sound, every sequence of creations, starts, timer interrupts and exits
-- leads to one that is: the ready queue is in the order of the priorities, no process is in it
-- twice, or in it and on the processor, and each of them has one of the four slots, which is in
-- use.
pub Reach-AllSound : {k m : Machine} → Reach k m → AllSound k → AllSound m
Reach-AllSound here is = is
Reach-AllSound (next r s) is = Step-AllSound s (Reach-AllSound r is)
