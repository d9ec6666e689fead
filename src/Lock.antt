-- ===== src/Lock.antt =====
-- src/process/spinlock.asm, and its use by the processes of src/kernel.c.
-- One instruction that touches shared memory is one step of a process, and the timer interrupt can
-- switch between any two of them. What a process prints and how long it sleeps is left out. The lock
-- and the variable are words; the process that executes is the one that takes the step, so its own
-- mark is the one that `setLock` sets.
pub mod Exclusion
pub mod Counting
pub mod Within
pub mod Progress
pub mod Abandoned
mod Tests
use lazy_os.Prelude.{
  ℕ, zero, suc, ◌+◌, ◌-◌, ◌^◌, ◌<◌, ◌≡◌, Bool, true, false, ◌==◌, ltb, if◌then◌else◌, update, u32,
  List, [], ◌∷◌,
}

pub data Code : Type 0 where
  proc_a_entry proc_b_entry : Code

-- How often the body of the loop runs.
abbrev pub rounds : Code → ℕ
rounds proc_a_entry = 5
rounds proc_b_entry = 20

-- What one round adds to the variable, as a word: `shared_variable++` or `shared_variable--`.
abbrev pub change : Code → ℕ
change proc_a_entry = 1
change proc_b_entry = 2 ^ 32 - 1

-- Where a process is. `loaded i v` is inside of round `i`, with the variable's value in a register.
pub data Pc : Type 0 where
  starts spin acquired releasing finished : Pc
  round : ℕ → Pc
  loaded : ℕ → ℕ → Pc

-- What the processes share: the lock, the variable, and of each process its place, the mark that
-- `setLock` sets for the scheduler, and whether it still runs.
pub record Shared : Type 0 where
  pub shared_lock : ℕ
  pub shared_variable : ℕ
  pub pcs : ℕ → Pc
  pub spinning : ℕ → ℕ
  pub alive : ℕ → Bool

abbrev pub at : (p : ℕ) → Pc → Shared → Shared
at p pc s = record s { pcs = update s.pcs p pc }

-- `mov byte [ecx + SPINNING_OFFSET], value`
abbrev pub mark : (p value : ℕ) → Shared → Shared
mark p value s = record s { spinning = update s.spinning p value }

-- `xchg eax, [edx]` with one in `eax`, and the jump back if the old word is not zero.
unfoldable pub exchange : (p : ℕ) → Shared → Shared
exchange p s = at p (if s.shared_lock == 0 then acquired else spin) (record s { shared_lock = 1 })

-- One step of the process `p`.
unfoldable pub one_step : Code → (p : ℕ) → Pc → Shared → Shared
unfolding exchange
one_step c p starts s = at p spin (mark p 1 s)
one_step c p spin s = exchange p s
one_step c p acquired s = at p (round 0) (mark p 0 s)
one_step c p (round i) s =
    at p (if ltb i (rounds c) then loaded i s.shared_variable else releasing) s
one_step c p (loaded i v) s =
    at p (round (i + 1)) (record s { shared_variable = u32 (v + change c) })
one_step c p releasing s = at p finished (record s { shared_lock = 0 })
one_step c p finished s = s

-- The processes start with the lock free and the variable zero.
unfoldable pub initial : Shared
initial = record {
  shared_lock = 0;
  shared_variable = 0;
  pcs = λ p. starts;
  spinning = λ p. 0;
  alive = λ p. true;
}

-- The scheduler ends a process, whose time is up.
unfoldable pub terminate : (p : ℕ) → Shared → Shared
terminate p s = record s { alive = update s.alive p false }

-- Which code each process runs.
module _ (code : ℕ → Code) where
  unfoldable pub run : (p : ℕ) → Shared → Shared
  unfolding one_step
  run p s = if s.alive p then one_step (code p) p (s.pcs p) s else s

  unfoldable pub run_all : List ℕ → Shared → Shared
  unfolding run
  run_all [] s = s
  run_all (p ∷ ps) s = run_all ps (run p s)

  -- A process below `n` takes a step, or is ended. A process that spins is not charged, so its time is not up.
  pub data Step (n : ℕ) (s : Shared) : Shared → Type 0 where
    runs : (p : ℕ) → p < n → Step n s (run p s)
    ends : (p : ℕ) → p < n → s.spinning p ≡ 0 → Step n s (terminate p s)

  pub data Reach (n : ℕ) (s : Shared) : Shared → Type 0 where
    stay : Reach n s s
    step : {t u : Shared} → Reach n s t → Step n t u → Reach n s u
