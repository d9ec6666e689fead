-- ===== src/Lock/Abandoned.antt =====
-- The end of a process that has the lock.
use lazy_os.Prelude.{ℕ, ◌≡◌, ◌≢◌, refl, ◌∙◌, true, false, arith, ◌==◌, Bool-cases, inl, inr}
use lazy_os.Lock.{
  Code, spin, Shared, exchange, one_step, run, terminate, Step, runs, ends, Reach, stay, step,
}
use lazy_os.Lock.Exclusion.{inside, Held, free, held, Reach-Held}
use lazy_os.Lock.Within.{run-IsOther}

-- The process `h` was ended with the lock, and `q` waits for it.
pub record IsStuck (h q : ℕ) (s : Shared) : Type 0 where
  pub held_lem : inside (s.pcs h) ≡ true
  pub ended : s.alive h ≡ false
  pub waits : s.pcs q ≡ spin
  pub marked : s.spinning q ≡ 1
  pub lives : s.alive q ≡ true

Held-taken : (h : ℕ) (s : Shared) → Held s → inside (s.pcs h) ≡ true → (s.shared_lock == 0) ≡ false
Held-taken h s (free e out) in_it = absurd (let no_one = out h in ground arith)
Held-taken h s (held p e in_p out) in_it = ground arith

-- The waiting process finds the lock taken and jumps back.
exchange-IsStuck :
    (h q : ℕ) (s : Shared) → h ≢ q → Held s → IsStuck h q s → IsStuck h q (exchange q s)
unfolding exchange
exchange-IsStuck h q s apart lock is =
    let taken = Held-taken h s lock is.held_lem in
    let self : (q == q) ≡ true = ground arith in
    let other : (q == h) ≡ false = ground arith in
    record {
      held_lem = rw other is.held_lem;
      ended = is.ended;
      waits = rw (taken, self) refl;
      marked = is.marked;
      lives = is.lives;
    }

module _ (code : ℕ → Code) (n : ℕ) where
  run_waiting-IsStuck :
      (h q : ℕ) (s : Shared) → h ≢ q → Held s → IsStuck h q s → IsStuck h q (run code q s)
  unfolding run one_step
  run_waiting-IsStuck h q s apart lock is = elim (Bool-cases (s.alive q)) [
    | inl on ↦ rw (on, is.waits) (exchange-IsStuck h q s apart lock is)
    | inr off ↦ rw off is
  ]

  run_ended-IsStuck : (h q : ℕ) (s : Shared) → IsStuck h q s → IsStuck h q (run code h s)
  unfolding run
  run_ended-IsStuck h q s is = rw is.ended is

  run-IsStuck :
      (h q p : ℕ) (s : Shared) → h ≢ q → Held s → IsStuck h q s → IsStuck h q (run code p s)
  run-IsStuck h q p s apart lock is = elim (Bool-cases (p == h)) [
    | inl first ↦ let e : p ≡ h = ground arith in rw e (run_ended-IsStuck h q s is)
    | inr not_first ↦ elim (Bool-cases (p == q)) [
      | inl second ↦ let e : p ≡ q = ground arith in rw e (run_waiting-IsStuck h q s apart lock is)
      | inr neither ↦
          let a = run-IsOther code p h s (ground arith) in
          let b = run-IsOther code p q s (ground arith) in
          record {
            held_lem = rw a.pcs_lem is.held_lem;
            ended = a.alive_lem ∙ is.ended;
            waits = b.pcs_lem ∙ is.waits;
            marked = b.spinning_lem ∙ is.marked;
            lives = b.alive_lem ∙ is.lives;
          }
    ]
  ]

  terminate-IsStuck :
      (h q p : ℕ) (s : Shared) → s.spinning p ≡ 0 → IsStuck h q s → IsStuck h q (terminate p s)
  unfolding terminate
  terminate-IsStuck h q p s charged is = record {
    held_lem = is.held_lem;
    ended = elim (Bool-cases (p == h)) [ inl same ↦ rw same refl | inr other ↦ rw other is.ended ];
    waits = is.waits;
    marked = is.marked;
    lives = elim (Bool-cases (p == q)) [
      | inl same ↦ absurd (
          let e : p ≡ q = ground arith in
          let mark = is.marked in let not_marked = rw e at charged in omega arith)
      | inr other ↦ rw other is.lives
    ];
  }

  Step-IsStuck :
      (h q : ℕ) {s t : Shared} → Step code n s t → h ≢ q → Held s → IsStuck h q s → IsStuck h q t
  Step-IsStuck h q {s} (runs p below) apart lock is = run-IsStuck h q p s apart lock is
  Step-IsStuck h q {s} (ends p below charged) apart lock is = terminate-IsStuck h q p s charged is

  Reach-IsStuck :
      (h q : ℕ) {s t : Shared} → Reach code n s t → h ≢ q → Held s → IsStuck h q s → IsStuck h q t
  Reach-IsStuck h q stay apart lock is = is
  Reach-IsStuck h q (step before one) apart lock is =
      Step-IsStuck h q one apart (Reach-Held code n before lock)
        (Reach-IsStuck h q before apart lock is)

  -- Where a process was ended between `setLock` and `releaseLock`, a process that waits for the
  -- lock waits for ever: in every later state the lock is taken, the process is still in the loop
  -- of `setLock`, it is marked as spinning, and it has not been ended.
  pub lock_abandoned :
      (h q : ℕ) {s t : Shared}
      → h ≢ q
      → Held s
      → IsStuck h q s
      → Reach code n s t
      → ((t.shared_lock == 0) ≡ false) × (t.pcs q ≡ spin) × (t.spinning q ≡ 1) × (t.alive q ≡ true)
  lock_abandoned h q {s} {t} apart lock is reach =
      let stuck = Reach-IsStuck h q reach apart lock is in
      (
        Held-taken h t (Reach-Held code n reach lock) stuck.held_lem,
        stuck.waits,
        stuck.marked,
        stuck.lives,
      )
