-- ===== src/Lock/Within.antt =====
-- How many of its own steps a process that has got the lock is away from its end.
use lazy_os.Prelude.{
  ℕ, ◌+◌, ◌-◌, ◌*◌, ◌≤◌, ◌≡◌, ◌≢◌, refl, ◌∙◌, Bool, true, false, arith, ◌==◌, ltb, if◌then◌else◌,
  Bool-cases, inl, inr, update, List, [], ◌∷◌,
}
use lazy_os.Lock.{
  Code, Pc, starts, spin, acquired, round, loaded, releasing, finished, Shared, exchange, one_step,
  rounds, run, run_all,
}
use lazy_os.Lock.Exclusion.{inside}

-- Whether a process has got the lock, now or before.
abbrev pub got : Pc → Bool
got starts = false
got spin = false
got acquired = true
got (round i) = true
got (loaded i v) = true
got releasing = true
got finished = true

-- The steps that are left until it has released the lock.
abbrev pub work : Code → Pc → ℕ
work c starts = 0
work c spin = 0
work c acquired = 2 * rounds c + 3
work c (round i) = 2 * (rounds c - i) + 2
work c (loaded i v) = 2 * (rounds c - (i + 1)) + 3
work c releasing = 1
work c finished = 0

-- How often a process is in a schedule.
unfoldable pub turns : (p : ℕ) → List ℕ → ℕ
turns p [] = 0
turns p (q ∷ ps) = if p == q then turns p ps + 1 else turns p ps

-- A process that has got the lock is at most `k` steps away from its end, and runs.
pub record IsWithin (c : Code) (p k : ℕ) (s : Shared) : Type 0 where
  pub got_lem : got (s.pcs p) ≡ true
  pub work_lem : work c (s.pcs p) ≤ k
  pub alive_lem : s.alive p ≡ true

IsWithin-at :
    (c : Code) (p k : ℕ) (pc : Pc) (s t : Shared)
    → t.pcs ≡ update s.pcs p pc
    → t.alive p ≡ true
    → got pc ≡ true
    → work c pc ≤ k
    → IsWithin c p k t
IsWithin-at c p k pc s t places alive has le =
    let self : (p == p) ≡ true = ground arith in
    record { got_lem = rw (places, self) has; work_lem = rw (places, self) le; alive_lem = alive }

-- Its own step brings it nearer.
one_step-IsWithin :
    (c : Code) (p k : ℕ) (pc : Pc) (s : Shared)
    → s.pcs p ≡ pc
    → got pc ≡ true
    → work c pc ≤ k + 1
    → s.alive p ≡ true
    → IsWithin c p k (one_step c p pc s)
unfolding one_step
one_step-IsWithin c p k starts s e has le on = absurd (ground (arith, has))
one_step-IsWithin c p k spin s e has le on = absurd (ground (arith, has))
one_step-IsWithin c p k acquired s e has le on =
    IsWithin-at c p k (round 0) s _ refl on refl (omega arith)
one_step-IsWithin c p k (round i) s e has le on = elim (Bool-cases (ltb i (rounds c))) [
  | inl more ↦
      rw more (IsWithin-at c p k (loaded i s.shared_variable) s _ refl on refl (ground arith))
  | inr last ↦ rw last (IsWithin-at c p k releasing s _ refl on refl (omega arith))
]
one_step-IsWithin c p k (loaded i v) s e has le on =
    IsWithin-at c p k (round (i + 1)) s _ refl on refl (omega arith)
one_step-IsWithin c p k releasing s e has le on =
    IsWithin-at c p k finished s _ refl on refl (omega arith)
one_step-IsWithin c p k finished s e has le on = record {
  got_lem = rw e refl;
  work_lem = rw e (omega arith);
  alive_lem = on;
}

-- A step of one process keeps the place, the mark and the life of the others.
pub record IsOther (q : ℕ) (s t : Shared) : Type 0 where
  pub pcs_lem : t.pcs q ≡ s.pcs q
  pub alive_lem : t.alive q ≡ s.alive q
  pub spinning_lem : t.spinning q ≡ s.spinning q

IsOther-at :
    (p q : ℕ) (pc : Pc) (s t : Shared)
    → p ≢ q
    → t.pcs ≡ update s.pcs p pc
    → t.alive ≡ s.alive
    → t.spinning q ≡ s.spinning q
    → IsOther q s t
IsOther-at p q pc s t apart places lives marks =
    let other : (p == q) ≡ false = ground arith in
    record { pcs_lem = rw (places, other) refl; alive_lem = rw lives refl; spinning_lem = marks }

one_step-IsOther :
    (c : Code) (p q : ℕ) (pc : Pc) (s : Shared) → p ≢ q → IsOther q s (one_step c p pc s)
unfolding one_step exchange
one_step-IsOther c p q starts s apart =
    let other : (p == q) ≡ false = ground arith in
    IsOther-at p q spin s _ apart refl refl (rw other refl)
one_step-IsOther c p q spin s apart = IsOther-at p q _ s _ apart refl refl refl
one_step-IsOther c p q acquired s apart =
    let other : (p == q) ≡ false = ground arith in
    IsOther-at p q (round 0) s _ apart refl refl (rw other refl)
one_step-IsOther c p q (round i) s apart = IsOther-at p q _ s _ apart refl refl refl
one_step-IsOther c p q (loaded i v) s apart =
    IsOther-at p q (round (i + 1)) s _ apart refl refl refl
one_step-IsOther c p q releasing s apart = IsOther-at p q finished s _ apart refl refl refl
one_step-IsOther c p q finished s apart = record {
  pcs_lem = refl;
  alive_lem = refl;
  spinning_lem = refl;
}

pub got_inside : (pc : Pc) → inside pc ≡ true → got pc ≡ true
got_inside starts in_it = in_it
got_inside spin in_it = in_it
got_inside acquired in_it = refl
got_inside (round i) in_it = refl
got_inside (loaded i v) in_it = refl
got_inside releasing in_it = refl
got_inside finished in_it = refl

-- Who has got the lock and has no step left has finished.
no_work : (c : Code) (pc : Pc) → got pc ≡ true → work c pc ≤ 0 → pc ≡ finished
no_work c starts has le = absurd (ground (arith, has))
no_work c spin has le = absurd (ground (arith, has))
no_work c acquired has le = absurd (omega arith)
no_work c (round i) has le = absurd (omega arith)
no_work c (loaded i v) has le = absurd (omega arith)
no_work c releasing has le = absurd (omega arith)
no_work c finished has le = refl

module _ (code : ℕ → Code) where
  pub run-IsOther : (p q : ℕ) (s : Shared) → p ≢ q → IsOther q s (run code p s)
  unfolding run
  run-IsOther p q s apart = elim (Bool-cases (s.alive p)) [
    | inl on ↦ rw on (one_step-IsOther (code p) p q (s.pcs p) s apart)
    | inr off ↦ rw off (record { pcs_lem = refl; alive_lem = refl; spinning_lem = refl })
  ]

  pub run-IsWithin :
      (p k : ℕ) (s : Shared) → IsWithin (code p) p (k + 1) s → IsWithin (code p) p k (run code p s)
  unfolding run
  run-IsWithin p k s is =
      rw is.alive_lem
        (one_step-IsWithin (code p) p k (s.pcs p) s refl is.got_lem is.work_lem is.alive_lem)

  IsWithin-other :
      (p q k : ℕ) (s : Shared)
      → q ≢ p
      → IsWithin (code p) p k s
      → IsWithin (code p) p k (run code q s)
  IsWithin-other p q k s apart is =
      let same = run-IsOther q p s apart in
      record {
        got_lem = rw same.pcs_lem is.got_lem;
        work_lem = rw same.pcs_lem is.work_lem;
        alive_lem = same.alive_lem ∙ is.alive_lem;
      }

  pub run_all-within :
      (ps : List ℕ) (p : ℕ) (s : Shared)
      → IsWithin (code p) p (turns p ps) s
      → ((run_all code ps s).pcs p ≡ finished)
  unfolding run_all turns
  run_all-within [] p s is = no_work (code p) (s.pcs p) is.got_lem is.work_lem
  run_all-within (q ∷ ps) p s is = elim (Bool-cases (p == q)) [
    | inl mine ↦
        let e : p ≡ q = ground arith in
        let is' = rw mine at is in
        rw (← e) (run_all-within ps p (run code p s) (run-IsWithin p (turns p ps) s is'))
    | inr other ↦
        let is' = rw other at is in
        run_all-within ps p (run code q s) (IsWithin-other p q (turns p ps) s (ground arith) is')
  ]
