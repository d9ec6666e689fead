-- ===== src/Lock/Progress.antt =====
-- The process that has the lock gives it back, unless it is ended.
use lazy_os.Prelude.{
  ℕ, ◌≤◌, ◌≡◌, refl, sym, ap, ◌∙◌, ◌⊎◌, ◌++◌, true, arith, ◌==◌, ltb, Bool-cases, inl, inr, List,
  [], ◌∷◌,
}
use lazy_os.Lock.{
  Code, Pc, starts, spin, acquired, round, loaded, releasing, finished, Shared, one_step, rounds,
  run, run_all,
}
use lazy_os.Lock.Exclusion.{inside}
use lazy_os.Lock.Within.{
  work, turns, IsWithin, got_inside, run-IsOther, run-IsWithin, run_all-within,
}

inside-work : (c : Code) (pc : Pc) → inside pc ≡ true → work c pc ≤ 0 → ⊥
inside-work c starts in_it le = ground (arith, in_it)
inside-work c spin in_it le = ground (arith, in_it)
inside-work c acquired in_it le = omega arith
inside-work c (round i) in_it le = omega arith
inside-work c (loaded i v) in_it le = omega arith
inside-work c releasing in_it le = omega arith
inside-work c finished in_it le = ground (arith, in_it)

-- A process that has the lock still has it behind a step, unless it releases it.
one_step-inside :
    (c : Code) (p : ℕ) (pc : Pc) (s : Shared)
    → inside pc ≡ true
    → (pc ≡ releasing) ⊎ (inside ((one_step c p pc s).pcs p) ≡ true)
unfolding one_step
one_step-inside c p starts s in_it = absurd (ground (arith, in_it))
one_step-inside c p spin s in_it = absurd (ground (arith, in_it))
one_step-inside c p acquired s in_it =
    let self : (p == p) ≡ true = ground arith in inr (rw self refl)
one_step-inside c p (round i) s in_it =
    let self : (p == p) ≡ true = ground arith in
    inr (
      rw self (elim (Bool-cases (ltb i (rounds c))) [
        | inl more ↦ rw more refl
        | inr last ↦ rw last refl
      ]))
one_step-inside c p (loaded i v) s in_it =
    let self : (p == p) ≡ true = ground arith in inr (rw self refl)
one_step-inside c p releasing s in_it = inl refl
one_step-inside c p finished s in_it = absurd (ground (arith, in_it))

-- At one of its turns in the schedule, `p` still has the lock, whose word is then zero.
pub record IsReleased (code : ℕ → Code) (p : ℕ) (ps : List ℕ) (s : Shared) : Type 0 where
  pub before : List ℕ
  pub after : List ℕ
  pub split_lem : ps ≡ before ++ (p ∷ after)
  pub has_lem : (run_all code before s).pcs p ≡ releasing
  pub freed_lem : (run code p (run_all code before s)).shared_lock ≡ 0

module _ (code : ℕ → Code) where
  run-releasing :
      (p : ℕ) (s : Shared) → s.pcs p ≡ releasing → s.alive p ≡ true → (run code p s).shared_lock ≡ 0
  unfolding run one_step
  run-releasing p s e on = rw (on, e) refl

  run-inside :
      (p : ℕ) (s : Shared)
      → s.alive p ≡ true
      → inside ((one_step (code p) p (s.pcs p) s).pcs p) ≡ true
      → inside ((run code p s).pcs p) ≡ true
  unfolding run
  run-inside p s on h = rw on h

  IsReleased-next :
      (q p : ℕ) (ps : List ℕ) (s : Shared)
      → IsReleased code p ps (run code q s)
      → IsReleased code p (q ∷ ps) s
  unfolding run_all
  IsReleased-next q p ps s r = record {
    before = q ∷ r.before;
    after = r.after;
    split_lem = ap (λ qs. q ∷ qs) r.split_lem;
    has_lem = r.has_lem;
    freed_lem = r.freed_lem;
  }

  run_all-IsReleased :
      (ps : List ℕ) (p : ℕ) (s : Shared)
      → inside (s.pcs p) ≡ true
      → s.alive p ≡ true
      → work (code p) (s.pcs p) ≤ turns p ps
      → IsReleased code p ps s
  unfolding run_all turns
  run_all-IsReleased [] p s in_it on enough = absurd (inside-work (code p) (s.pcs p) in_it enough)
  run_all-IsReleased (q ∷ ps) p s in_it on enough = elim (Bool-cases (p == q)) [
    | inl mine ↦
        let e : p ≡ q = ground arith in
        let here : q ≡ p = sym e in
        let within_it : IsWithin (code p) p (turns p ps) (run code p s) =
          run-IsWithin code p (turns p ps) s (record {
            got_lem = got_inside (s.pcs p) in_it;
            work_lem = rw mine at enough;
            alive_lem = on;
          }) in
        rw here (elim (one_step-inside (code p) p (s.pcs p) s in_it) [
          | inl last ↦ record {
            before = [];
            after = ps;
            split_lem = refl;
            has_lem = last;
            freed_lem = run-releasing p s last on;
          }
          | inr still ↦
              let still' : inside ((run code p s).pcs p) ≡ true = run-inside p s on still in
              IsReleased-next p p ps s (
                run_all-IsReleased ps p (run code p s) still' within_it.alive_lem
                  within_it.work_lem)
        ])
    | inr other ↦
        let enough' = rw other at enough in
        let same = run-IsOther code q p s (ground arith) in
        IsReleased-next q p ps s (
          run_all-IsReleased ps p (run code q s) (rw same.pcs_lem in_it) (same.alive_lem ∙ on)
            (rw same.pcs_lem enough'))
  ]

  -- A process that runs and has the lock releases it and finishes in every schedule in which it
  -- has as many turns as there are steps left to do, whatever the other processes do in between:
  -- at one of its turns it is about to release the lock, and the lock is free behind that turn.
  pub run_all-finished :
      (ps : List ℕ) (p : ℕ) (s : Shared)
      → inside (s.pcs p) ≡ true
      → s.alive p ≡ true
      → work (code p) (s.pcs p) ≤ turns p ps
      → IsReleased code p ps s × ((run_all code ps s).pcs p ≡ finished)
  run_all-finished ps p s in_it on enough = (
    run_all-IsReleased ps p s in_it on enough,
    run_all-within code ps p s
        (record { got_lem = got_inside (s.pcs p) in_it; work_lem = enough; alive_lem = on }),
  )
