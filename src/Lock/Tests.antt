-- ===== src/Lock/Tests.antt =====
-- The lock with the kernel's two processes.
use lazy_os.Prelude.{ℕ, ◌≡◌, refl, arith, true, false, List, [], ◌∷◌, ◌==◌, u32}
use lazy_os.Lock.{
  spin, finished, Shared, exchange, one_step, run, run_all, initial, terminate, Reach, stay, step,
  runs, ends,
}
use lazy_os.Lock.Exclusion.{Reach-Held, initial-Held, mutual_exclusion}
use lazy_os.Lock.Counting.{code_of, total, shared_variable_lem}
use lazy_os.Lock.Within.{turns}
use lazy_os.Lock.Progress.{IsReleased, run_all-finished}
use lazy_os.Lock.Abandoned.{lock_abandoned}

-- The first process has taken the lock, the second one waits, and the first one's time is up.
abbrev taken : Shared
taken = run code_of 0 (run code_of 0 (run code_of 0 initial))

abbrev waiting : Shared
waiting = run code_of 1 taken

taken-Reach : Reach code_of 2 initial waiting
taken-Reach =
    step
      (step (step (step stay (runs 0 (omega arith))) (runs 0 (omega arith))) (runs 0 (omega arith)))
      (runs 1 (omega arith))

abbrev abandoned : Shared
abandoned = terminate 0 waiting

abandoned-Reach : Reach code_of 2 initial abandoned
unfolding run one_step exchange initial
abandoned-Reach = step taken-Reach (ends 0 (omega arith) refl)

abbrev holder : ℕ
holder = 0

mutual_exclusion_example : (holder ≡ holder) × (abandoned.shared_lock ≡ 1)
unfolding run one_step exchange initial terminate
mutual_exclusion_example = mutual_exclusion code_of 2 holder holder abandoned-Reach refl refl

shared_variable_lem_example : waiting.shared_variable ≡ u32 (total code_of 2 waiting.pcs)
shared_variable_lem_example = shared_variable_lem code_of 2 taken-Reach

lock_abandoned_example :
    ((abandoned.shared_lock == 0) ≡ false)
    × (abandoned.pcs 1 ≡ spin)
    × (abandoned.spinning 1 ≡ 1)
    × (abandoned.alive 1 ≡ true)
unfolding run one_step exchange initial terminate
lock_abandoned_example =
    lock_abandoned code_of 2 0 1 (omega arith)
      (Reach-Held code_of 2 abandoned-Reach (initial-Held code_of 2))
      (record { held_lem = refl; ended = refl; waits = refl; marked = refl; lives = refl }) stay

-- Turns of both processes, the second one's without effect.
abbrev turn_list : List ℕ
turn_list = 0 ∷ 1 ∷ 0 ∷ 0 ∷ 1 ∷ 0 ∷ 0 ∷ 1 ∷ 0 ∷ 0 ∷ 1 ∷ 0 ∷ 0 ∷ 1 ∷ 0 ∷ 0 ∷ 1 ∷ 0 ∷ []

run_all-finished_example :
    IsReleased code_of 0 turn_list waiting × ((run_all code_of turn_list waiting).pcs 0 ≡ finished)
unfolding run one_step exchange initial turns
run_all-finished_example = run_all-finished code_of turn_list 0 waiting refl refl (omega arith)
