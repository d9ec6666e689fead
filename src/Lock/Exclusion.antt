-- ===== src/Lock/Exclusion.antt =====
-- At most one process is between `setLock` and `releaseLock`.
use lazy_os.Prelude.{
  ℕ, ◌+◌, ◌≡◌, ◌≢◌, refl, sym, ◌∙◌, Bool, true, false, arith, ◌==◌, ltb, Bool-cases, inl, inr,
  update,
}
use lazy_os.Lock.{
  Code, Pc, starts, spin, acquired, round, loaded, releasing, finished, Shared, at, exchange,
  one_step, rounds, run, initial, terminate, Step, runs, ends, Reach, stay, step,
}

-- Whether a process has the lock.
abbrev pub inside : Pc → Bool
inside starts = false
inside spin = false
inside acquired = true
inside (round i) = true
inside (loaded i v) = true
inside releasing = true
inside finished = false

-- The lock's word says whether some process has it, and no two have.
pub data Held (s : Shared) : Type 0 where
  free : s.shared_lock ≡ 0 → ((q : ℕ) → inside (s.pcs q) ≡ false) → Held s
  held :
      (p : ℕ)
      → s.shared_lock ≡ 1
      → inside (s.pcs p) ≡ true
      → ((q : ℕ) → q ≢ p → inside (s.pcs q) ≡ false)
      → Held s

-- The places after a step of `p`.
update-inside :
    (pcs : ℕ → Pc) (p q : ℕ) (pc : Pc)
    → inside pc ≡ inside (pcs p)
    → inside (update pcs p pc q) ≡ inside (pcs q)
update-inside pcs p q pc same = elim (Bool-cases (p == q)) [
  | inl same_one ↦ let e : p ≡ q = ground arith in rw (same_one, ← e) same
  | inr other ↦ rw other refl
]

-- A step that neither takes nor releases the lock.
Held-same :
    (p : ℕ) (pc : Pc) (s t : Shared)
    → t.shared_lock ≡ s.shared_lock
    → t.pcs ≡ update s.pcs p pc
    → inside pc ≡ inside (s.pcs p)
    → Held s
    → Held t
Held-same p pc s t lock places same (free e out) =
    free (lock ∙ e) λ q. rw places (update-inside s.pcs p q pc same ∙ out q)
Held-same p pc s t lock places same (held h e in_it out) =
    held h (lock ∙ e) (rw places (update-inside s.pcs p h pc same ∙ in_it))
      λ q other. rw places (update-inside s.pcs p q pc same ∙ out q other)

exchange-Held : (p : ℕ) (s : Shared) → s.pcs p ≡ spin → Held s → Held (exchange p s)
unfolding exchange
exchange-Held p s at_spin (free e out) =
    let self : (p == p) ≡ true = ground arith in
    let won : (s.shared_lock == 0) ≡ true = ground arith in
    rw won (
      held p refl (rw self refl)
        λ q other. let apart : (p == q) ≡ false = ground arith in rw apart (out q))
exchange-Held p s at_spin (held h e in_it out) =
    let lost : (s.shared_lock == 0) ≡ false = ground arith in
    rw lost (
      Held-same p spin s (at p spin (record s { shared_lock = 1 })) (sym e) refl (rw at_spin refl)
        (held h e in_it out))

-- The process that releases the lock has it, so no other one does.
release-Held :
    (p : ℕ) (s : Shared)
    → s.pcs p ≡ releasing
    → Held s
    → Held (at p finished (record s { shared_lock = 0 }))
release-Held p s at_it (free e out) = absurd (let no_one = rw at_it at (out p) in ground arith)
release-Held p s at_it (held h e in_it out) =
    let self : (p == p) ≡ true = ground arith in
    free refl λ q. elim (Bool-cases (p == q)) [
      | inl same_one ↦ rw same_one refl
      | inr other ↦ rw other (elim (Bool-cases (h == q)) [
        | inl holder ↦ absurd (
            let apart : p ≢ h = ground arith in
            let not_in = rw at_it at (out p apart) in ground arith)
        | inr outside ↦ out q (ground arith)
      ])
    ]

one_step-Held :
    (c : Code) (p : ℕ) (pc : Pc) (s : Shared) → s.pcs p ≡ pc → Held s → Held (one_step c p pc s)
unfolding one_step
one_step-Held c p starts s e h = Held-same p spin s _ refl refl (rw e refl) h
one_step-Held c p spin s e h = exchange-Held p s e h
one_step-Held c p acquired s e h = Held-same p (round 0) s _ refl refl (rw e refl) h
one_step-Held c p (round i) s e h = elim (Bool-cases (ltb i (rounds c))) [
  | inl more ↦ rw more (Held-same p (loaded i s.shared_variable) s _ refl refl (rw e refl) h)
  | inr done ↦ rw done (Held-same p releasing s _ refl refl (rw e refl) h)
]
one_step-Held c p (loaded i v) s e h = Held-same p (round (i + 1)) s _ refl refl (rw e refl) h
one_step-Held c p releasing s e h = release-Held p s e h
one_step-Held c p finished s e h = h

terminate-Held : (p : ℕ) (s : Shared) → Held s → Held (terminate p s)
unfolding terminate
terminate-Held p s (free e out) = free e out
terminate-Held p s (held h e in_it out) = held h e in_it out

is_holder :
    (pcs : ℕ → Pc) (h p : ℕ)
    → ((r : ℕ) → r ≢ h → inside (pcs r) ≡ false)
    → inside (pcs p) ≡ true
    → p ≡ h
is_holder pcs h p out in_p = elim (Bool-cases (p == h)) [
  | inl same_one ↦ ground arith
  | inr other ↦ absurd (let not_in = out p (ground arith) in ground arith)
]

-- While one process has the lock, no other one does.
pub others_outside :
    (p q : ℕ) (s : Shared) → Held s → inside (s.pcs p) ≡ true → q ≢ p → inside (s.pcs q) ≡ false
others_outside p q s (free e out) in_p other = out q
others_outside p q s (held h e in_it out) in_p other =
    let p' = is_holder s.pcs h p out in_p in out q (λ same. other (omega arith))

only :
    (pcs : ℕ → Pc) (h p q : ℕ)
    → ((r : ℕ) → r ≢ h → inside (pcs r) ≡ false)
    → inside (pcs p) ≡ true
    → inside (pcs q) ≡ true
    → p ≡ q
only pcs h p q out in_p in_q =
    let p' : p ≡ h = is_holder pcs h p out in_p in
    let q' : q ≡ h = is_holder pcs h q out in_q in omega arith

module _ (code : ℕ → Code) (n : ℕ) where
  run-Held : (p : ℕ) (s : Shared) → Held s → Held (run code p s)
  unfolding run
  run-Held p s h = elim (Bool-cases (s.alive p)) [
    | inl on ↦ rw on (one_step-Held (code p) p (s.pcs p) s refl h)
    | inr off ↦ rw off h
  ]

  Step-Held : {s t : Shared} → Step code n s t → Held s → Held t
  Step-Held {s} (runs p small) h = run-Held p s h
  Step-Held {s} (ends p small charged) h = terminate-Held p s h

  pub Reach-Held : {s t : Shared} → Reach code n s t → Held s → Held t
  Reach-Held stay h = h
  Reach-Held (step before one) h = Step-Held one (Reach-Held before h)

  pub initial-Held : Held initial
  unfolding initial
  initial-Held = free refl λ q. refl

  -- However the steps of the processes are interleaved, and whichever of them are ended: two
  -- processes that are both between the end of `setLock` and the end of `releaseLock` are the same
  -- one, and the lock's word is then 1.
  pub mutual_exclusion :
      (p q : ℕ) {s : Shared}
      → Reach code n initial s
      → inside (s.pcs p) ≡ true
      → inside (s.pcs q) ≡ true
      → (p ≡ q) × (s.shared_lock ≡ 1)
  mutual_exclusion p q {s} reach in_p in_q = elim (Reach-Held reach initial-Held) [
    | free e out ↦ absurd (let no_one = out p in ground arith)
    | held h e in_it out ↦ (only s.pcs h p q out in_p in_q, e)
  ]
