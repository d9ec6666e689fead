-- ===== src/Process/Slots.antt =====
-- `create_process`: the slot that it takes, and the steps of the whole machine.
use lazy_os.Prelude.{
  ℕ, zero, suc, ◌+◌, ◌*◌, ◌≤◌, ◌<◌, ◌≡◌, ◌≢◌, refl, Option, none, some, arith, ◌==◌, sub32, bit_or,
  Bool-cases, inl, inr,
}
use lazy_os.Paging.{
  load, page_size, is_present, is_writable, paging_new_process_directory, vmm_alloc,
  paging_get_physical,
}
use lazy_os.Process.{
  proc_stack_virt, unused, Process, Machine, max_procs, find_unused, create_in, create_found,
  create_process, process_exit, start_processes, scheduler,
}
use lazy_os.Process.States.{
  IsUsed, Keeps, process_exit-Keeps, start_processes-Keeps, scheduler-Keeps,
}

create_in-Keeps :
    (exit_address entry proc : ℕ) (k : Machine) → Keeps k (create_in exit_address entry proc k).1
unfolding create_in
create_in-Keeps exit_address entry proc k i h =
    let (pd, s1) = paging_new_process_directory (load k.system k.pd_ptr 0) k.system in
    let directory = load s1 pd 0 in
    let (virt_top, s2) =
      vmm_alloc directory proc_stack_virt (page_size * 2) (bit_or is_present is_writable) s1 in
    let phys_base = paging_get_physical directory (sub32 virt_top page_size) s2 in
    elim (Bool-cases (pd == 0)) [
      | inl e ↦ rw e h
      | inr e ↦ rw e (elim (Bool-cases (phys_base == 0)) [
        | inl f ↦ rw f h
        | inr f ↦ rw f (elim (Bool-cases (proc == i)) [ inl g ↦ rw g (λ t. cc) | inr g ↦ rw g h ])
      ])
    ]

create_found-Keeps :
    (exit_address entry : ℕ) (slot : Option ℕ) (k : Machine)
    → Keeps k (create_found exit_address entry slot k).1
unfolding create_found
create_found-Keeps exit_address entry none k i h = h
create_found-Keeps exit_address entry (some proc) k i h =
    create_in-Keeps exit_address entry proc k i h

create_process-Keeps :
    (exit_address entry : ℕ) (k : Machine) → Keeps k (create_process exit_address entry k).1
unfolding create_process
create_process-Keeps exit_address entry k =
    create_found-Keeps exit_address entry (find_unused max_procs k.procs 0) k

-- An operation of the process table: a creation, the start, a timer interrupt or an exit.
pub data Step (k : Machine) : Machine → Type 0 where
  create : (exit_address entry : ℕ) → Step k (create_process exit_address entry k).1
  start : (esp : ℕ) → Step k (start_processes esp k)
  tick : (esp time_slice : ℕ) → Step k (scheduler esp time_slice k)
  exit : (esp : ℕ) → Step k (process_exit esp k)

pub data Reach (k : Machine) : Machine → Type 0 where
  here : Reach k k
  next : {m n : Machine} → Reach k m → Step m n → Reach k n

Step-Keeps : {m n : Machine} → Step m n → Keeps m n
Step-Keeps {m} (create exit_address entry) = create_process-Keeps exit_address entry m
Step-Keeps {m} (start esp) = start_processes-Keeps esp m
Step-Keeps {m} (tick esp time_slice) = scheduler-Keeps esp time_slice m
Step-Keeps {m} (exit esp) = process_exit-Keeps esp m

pub Reach-Keeps : {k m : Machine} → Reach k m → Keeps k m
Reach-Keeps here i h = h
Reach-Keeps (next r s) i h = Step-Keeps s i (Reach-Keeps r i h)

find_unused-none :
    (n : ℕ) (procs : ℕ → Process) (i : ℕ)
    → ((j : ℕ) → i ≤ j → j < i + n → (procs j).state ≢ unused)
    → find_unused n procs i ≡ none
unfolding find_unused
find_unused-none zero procs i used = refl
find_unused-none (suc n) procs i used =
    let ih = find_unused-none n procs (i + 1) (λ j p q. used j (omega arith) (omega arith)) in
    let here = used i (omega arith) (omega arith) in ground arith

-- Once every slot has been used, `create_process` fails and changes nothing, whatever sequence of
-- creations, starts, timer interrupts and exits has run since.
pub create_process-exhausted :
    (k m : Machine) (exit_address entry : ℕ)
    → ((i : ℕ) → i < max_procs → IsUsed i k)
    → Reach k m
    → create_process exit_address entry m ≡ (none, m)
unfolding create_process create_found
create_process-exhausted k m exit_address entry used r =
    rw (find_unused-none max_procs m.procs 0 (λ j p q. Reach-Keeps r j (used j q))) refl
