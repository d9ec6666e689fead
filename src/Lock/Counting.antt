-- ===== src/Lock/Counting.antt =====
-- No update of the shared variable is lost.
use lazy_os.Prelude.{
  ℕ, zero, suc, ◌+◌, ◌-◌, ◌*◌, ◌^◌, ◌<◌, ◌≤◌, ◌≡◌, ◌≢◌, refl, ◌∙◌, true, false, arith, ◌==◌, ltb,
  if◌then◌else◌, Bool-cases, inl, inr, update, u32,
}
use lazy_os.Lock.{
  Code, proc_a_entry, proc_b_entry, Pc, starts, spin, acquired, round, loaded, releasing, finished,
  Shared, at, exchange, one_step, rounds, change, run, initial, terminate, Step, runs, ends, Reach,
  stay, step,
}
use lazy_os.Lock.Exclusion.{inside, Held, Reach-Held, initial-Held, others_outside}

-- The rounds that a process has written to the variable.
abbrev pub rounds_done : Code → Pc → ℕ
rounds_done c starts = 0
rounds_done c spin = 0
rounds_done c acquired = 0
rounds_done c (round i) = i
rounds_done c (loaded i v) = i
rounds_done c releasing = rounds c
rounds_done c finished = rounds c

module _ (code : ℕ → Code) where
  -- What the processes below `n` have added to the variable.
  unfoldable pub total : (n : ℕ) → (ℕ → Pc) → ℕ
  total zero pcs = 0
  total (suc n) pcs = total n pcs + rounds_done (code n) (pcs n) * change (code n)

-- A round is one of those that the code runs, and what is in the register is the variable's value.
abbrev pub Fits : Code → (variable : ℕ) → Pc → Type 0
Fits c variable starts = Unit
Fits c variable spin = Unit
Fits c variable acquired = Unit
Fits c variable (round i) = i ≤ rounds c
Fits c variable (loaded i v) = (i < rounds c) × (v ≡ variable)
Fits c variable releasing = Unit
Fits c variable finished = Unit

-- Outside of the lock the variable does not matter.
Fits-outside : (c : Code) (v v' : ℕ) (pc : Pc) → inside pc ≡ false → Fits c v pc → Fits c v' pc
Fits-outside c v v' starts out fits = tt
Fits-outside c v v' spin out fits = tt
Fits-outside c v v' acquired out fits = tt
Fits-outside c v v' (round i) out fits = fits
Fits-outside c v v' (loaded i w) out fits = absurd (ground (arith, out))
Fits-outside c v v' releasing out fits = tt
Fits-outside c v v' finished out fits = tt

module _ (code : ℕ → Code) (n : ℕ) where
  total-above :
      (m p : ℕ) (pc : Pc) (pcs : ℕ → Pc) → m ≤ p → total code m (update pcs p pc) ≡ total code m pcs
  unfolding total
  total-above zero p pc pcs above = refl
  total-above (suc m) p pc pcs above =
      let other : (p == m) ≡ false = ground arith in
      rw (total-above m p pc pcs (omega arith), other) refl

  -- Where the place of one process changes, the total changes by what it has done.
  total-update :
      (m p : ℕ) (pc : Pc) (pcs : ℕ → Pc) (more : ℕ)
      → p < m
      → rounds_done (code p) pc * change (code p)
        ≡ rounds_done (code p) (pcs p) * change (code p) + more
      → total code m (update pcs p pc) ≡ total code m pcs + more
  unfolding total
  total-update zero p pc pcs more below e = absurd (omega arith)
  total-update (suc m) p pc pcs more below e = elim (Bool-cases (p == m)) [
    | inl last ↦
        let same : p ≡ m = ground arith in
        let e' = rw same at e in rw (total-above m p pc pcs (omega arith), last, e') (omega arith)
    | inr other ↦ rw (total-update m p pc pcs more (ground arith) e, other) (omega arith)
  ]

  -- The variable is what the processes have added to it.
  pub record Counts (s : Shared) : Type 0 where
    pub fits : (q : ℕ) → Fits (code q) s.shared_variable (s.pcs q)
    pub counted : s.shared_variable ≡ u32 (total code n s.pcs)

  Fits-at :
      (p q v : ℕ) (pc : Pc) (s : Shared)
      → Fits (code p) v pc
      → (q ≢ p → Fits (code q) v (s.pcs q))
      → Fits (code q) v (update s.pcs p pc q)
  Fits-at p q v pc s new old = elim (Bool-cases (p == q)) [
    | inl same_one ↦ let e : p ≡ q = ground arith in rw (same_one, ← e) new
    | inr other ↦ rw other (old (ground arith))
  ]

  -- A step that does not write the variable.
  Counts-same :
      (p : ℕ) (pc : Pc) (s t : Shared)
      → p < n
      → t.shared_variable ≡ s.shared_variable
      → t.pcs ≡ update s.pcs p pc
      → rounds_done (code p) pc ≡ rounds_done (code p) (s.pcs p)
      → Fits (code p) s.shared_variable pc
      → Counts s
      → Counts t
  Counts-same p pc s t below variable places same new k =
      let done : rounds_done (code p) pc * change (code p)
          ≡ rounds_done (code p) (s.pcs p) * change (code p) + 0 =
        rw same (omega arith) in
      let sum = total-update n p pc s.pcs 0 below done in
      record {
        fits =
            λ q. rw (variable, places) (Fits-at p q s.shared_variable pc s new λ other. k.fits q);
        counted = variable ∙ k.counted ∙ rw (places, sum) (omega arith);
      }

  -- A step that writes it, of the process that has the lock.
  Counts-stored :
      (p i v : ℕ) (s : Shared)
      → p < n
      → s.pcs p ≡ loaded i v
      → Held s
      → Counts s
      → Counts (at p (round (i + 1)) (record s { shared_variable = u32 (v + change (code p)) }))
  Counts-stored p i v s below at_it h k =
      let (more, read) = rw at_it at (k.fits p) in
      let in_p : inside (s.pcs p) ≡ true = rw at_it refl in
      let done : rounds_done (code p) (round (i + 1)) * change (code p)
          ≡ rounds_done (code p) (s.pcs p) * change (code p) + change (code p) =
        rw at_it (omega arith) in
      let sum = total-update n p (round (i + 1)) s.pcs (change (code p)) below done in
      let value = u32 (v + change (code p)) in
      record {
        fits = λ q. Fits-at p q value (round (i + 1)) s (omega arith) λ other.
            Fits-outside (code q) s.shared_variable value (s.pcs q)
              (others_outside p q s h in_p other) (k.fits q);
        counted = rw sum (let old = k.counted in omega arith);
      }

  one_step-Counts :
      (p : ℕ) (pc : Pc) (s : Shared)
      → p < n
      → s.pcs p ≡ pc
      → Held s
      → Counts s
      → Counts (one_step (code p) p pc s)
  unfolding one_step exchange
  one_step-Counts p starts s below e h k = Counts-same p spin s _ below refl refl (rw e refl) tt k
  one_step-Counts p spin s below e h k = elim (Bool-cases (s.shared_lock == 0)) [
    | inl won ↦ rw won (Counts-same p acquired s _ below refl refl (rw e refl) tt k)
    | inr lost ↦ rw lost (Counts-same p spin s _ below refl refl (rw e refl) tt k)
  ]
  one_step-Counts p acquired s below e h k =
      Counts-same p (round 0) s _ below refl refl (rw e refl) (omega arith) k
  one_step-Counts p (round i) s below e h k =
      let fits = rw e at (k.fits p) in
      elim (Bool-cases (ltb i (rounds (code p)))) [
        | inl more ↦ rw more (
            Counts-same p (loaded i s.shared_variable) s _ below refl refl (rw e refl)
              (ground arith, refl) k)
        | inr last ↦
            let all : rounds (code p) ≡ i = ground arith in
            rw last (Counts-same p releasing s _ below refl refl (rw e all) tt k)
      ]
  one_step-Counts p (loaded i v) s below e h k = Counts-stored p i v s below e h k
  one_step-Counts p releasing s below e h k =
      Counts-same p finished s _ below refl refl (rw e refl) tt k
  one_step-Counts p finished s below e h k = k

  terminate-Counts : (p : ℕ) (s : Shared) → Counts s → Counts (terminate p s)
  unfolding terminate
  terminate-Counts p s k = record { fits = k.fits; counted = k.counted }

  run-Counts : (p : ℕ) (s : Shared) → p < n → Held s → Counts s → Counts (run code p s)
  unfolding run
  run-Counts p s below h k = elim (Bool-cases (s.alive p)) [
    | inl on ↦ rw on (one_step-Counts p (s.pcs p) s below refl h k)
    | inr off ↦ rw off k
  ]

  Step-Counts : {s t : Shared} → Step code n s t → Held s → Counts s → Counts t
  Step-Counts {s} (runs p below) h k = run-Counts p s below h k
  Step-Counts {s} (ends p below charged) h k = terminate-Counts p s k

  Reach-Counts : {s t : Shared} → Reach code n s t → Held s → Counts s → Counts t
  Reach-Counts stay h k = k
  Reach-Counts (step before one) h k =
      Step-Counts one (Reach-Held code n before h) (Reach-Counts before h k)

  total-start : (m : ℕ) → total code m (λ p. starts) ≡ 0
  unfolding total
  total-start zero = refl
  total-start (suc m) = rw (total-start m) (omega arith)

  initial-Counts : Counts initial
  unfolding initial
  initial-Counts = record { fits = λ q. tt; counted = rw (total-start n) refl }

  -- However the steps are interleaved, and whichever processes are ended: the variable is the sum
  -- of the changes of all rounds that the processes have finished, as a word. No update is lost.
  pub shared_variable_lem :
      {s : Shared} → Reach code n initial s → s.shared_variable ≡ u32 (total code n s.pcs)
  shared_variable_lem reach =
      let counts = Reach-Counts reach (initial-Held code n) initial-Counts in counts.counted

-- The two processes of the kernel.
abbrev pub code_of : ℕ → Code
code_of p = if p == 0 then proc_a_entry else proc_b_entry

-- When both processes have finished, the variable is -15 as a word: five increments and twenty
-- decrements.
pub shared_variable-finished :
    {s : Shared}
    → Reach code_of 2 initial s
    → s.pcs 0 ≡ finished
    → s.pcs 1 ≡ finished
    → s.shared_variable ≡ 2 ^ 32 - 15
unfolding total
shared_variable-finished {s} reach a b =
    let counted = shared_variable_lem code_of 2 reach in rw (a, b) at counted
