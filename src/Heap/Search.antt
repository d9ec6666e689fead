-- ===== src/Heap/Search.antt =====
-- What `heap_get_start_block` finds.
use lazy_os.Prelude.{
  ℕ, zero, suc, ◌+◌, ◌-◌, ◌^◌, ◌≤◌, ◌<◌, ◌≡◌, refl, inl, inr, true, false, arith, u32, ◌==◌,
  if◌then◌else◌, neg, Bool-cases, ltb,
}
use lazy_os.Heap.{Heap, entry_type, entry_free, no_memory, search, get_start_block}

-- Block `i` is free.
abbrev pub IsFree : (ℕ → ℕ) → ℕ → Type 0
IsFree entries i = (entry_type (entries i) == entry_free) ≡ true

abbrev pub IsTaken : (ℕ → ℕ) → ℕ → Type 0
IsTaken entries i = (entry_type (entries i) == entry_free) ≡ false

-- The `n` blocks from `lo` on are free and lie in the table.
pub record Fits (heap : Heap) (lo n : ℕ) : Type 0 where
  pub inside : lo + n ≤ heap.table.total_entries
  pub vacant : (j : ℕ) → lo ≤ j → j < lo + n → IsFree heap.table.entries j

-- The free blocks at the end of the table begin at `lo`, which is its size if there are none.
pub record IsTail (heap : Heap) (lo : ℕ) : Type 0 where
  pub inside : lo ≤ heap.table.total_entries
  pub vacant : (j : ℕ) → lo ≤ j → j < heap.table.total_entries → IsFree heap.table.entries j
  pub bounded : 0 < lo → IsTaken heap.table.entries (lo - 1)

-- The loop has passed `i` entries, and the last `current` of them are a maximal free run.
record Scanned (entries : ℕ → ℕ) (n i current start : ℕ) : Type 0 where
  behind : current ≤ i
  short : current < n
  run : (j : ℕ) → i - current ≤ j → j < i → IsFree entries j
  edge : 0 < i - current → IsTaken entries (i - current - 1)
  start_lem : start ≡ (if current == 0 then neg 1 else i - current)

Scanned-start :
    {entries : ℕ → ℕ} {n i current start : ℕ}
    → i < 2 ^ 31
    → Scanned entries n i current start
    → (if start == neg 1 then u32 i else start) ≡ i - current
Scanned-start {start} small s = let e = s.start_lem in grind arith

Scanned-run :
    {entries : ℕ → ℕ} {n i current start : ℕ} (j : ℕ)
    → IsFree entries i
    → Scanned entries n i current start
    → i - current ≤ j
    → j < i + 1
    → IsFree entries j
Scanned-run {i} j here s p q = elim (Bool-cases (j == i)) [
  | inl e ↦ let e' : j ≡ i = ground arith in rw e' here
  | inr e ↦ s.run j p (ground arith)
]

Scanned-free :
    {entries : ℕ → ℕ} {n i current start : ℕ}
    → IsFree entries i
    → (current + 1 == n) ≡ false
    → Scanned entries n i current start
    → Scanned entries n (i + 1) (current + 1) (i - current)
Scanned-free {i} {current} here more s = record {
  behind = omega (arith, s.behind);
  short = ground (arith, s.short);
  run = λ j p q. Scanned-run j here s (omega (arith, s.behind)) q;
  edge = λ q.
      let same : i + 1 - (current + 1) ≡ i - current = omega arith in
      rw same (s.edge (omega arith));
  start_lem = ground (arith, s.behind);
}

Scanned-taken :
    (entries : ℕ → ℕ) (n i : ℕ) → 0 < n → IsTaken entries i → Scanned entries n (i + 1) 0 (neg 1)
Scanned-taken entries n i pos taken = record {
  behind = omega arith;
  short = pos;
  run = λ j p q. absurd (omega arith);
  edge = λ q. let same : i + 1 - 0 - 1 ≡ i = omega arith in rw same taken;
  start_lem = refl;
}

Scanned-nil : (entries : ℕ → ℕ) (n : ℕ) → 0 < n → Scanned entries n 0 0 (neg 1)
Scanned-nil entries n pos = record {
  behind = omega arith;
  short = pos;
  run = λ j p q. absurd (omega arith);
  edge = λ q. absurd (omega arith);
  start_lem = refl;
}

Scanned-Fits :
    {heap : Heap} {n i current start : ℕ}
    → i < heap.table.total_entries
    → IsFree heap.table.entries i
    → current + 1 ≡ n
    → Scanned heap.table.entries n i current start
    → Fits heap (i - current) n
Scanned-Fits lt here done s = record {
  inside = omega (arith, s.behind);
  vacant = λ j q r. Scanned-run j here s q (omega (arith, s.behind));
}

module _ (heap : Heap) (n p : ℕ) (small : heap.table.total_entries < 2 ^ 31)
    (fit : Fits heap p n) where
  search_first :
      (k i current start : ℕ)
      → 0 < n
      → i + k ≡ heap.table.total_entries
      → i - current ≤ p
      → Scanned heap.table.entries n i current start
      → (search k heap.table.entries n i current start ≤ p)
        × Fits heap (search k heap.table.entries n i current start) n
  unfolding search
  search_first zero i current start pos e before s =
      absurd (omega (arith, fit.inside, s.short, s.behind))
  search_first (suc k) i current start pos e before s =
      elim (Bool-cases (entry_type (heap.table.entries i) == entry_free)) [
        | inr taken ↦ rw taken (
            search_first k (i + 1) 0 (neg 1) pos (omega arith) (past taken)
              (Scanned-taken heap.table.entries n i pos taken))
        | inl here ↦
            let small' : i < 2 ^ 31 = omega arith in
            let counted : u32 (current + 1) ≡ current + 1 = omega (arith, s.behind) in
            rw (here, Scanned-start small' s, counted)
              (elim (Bool-cases (current + 1 == n)) [
                | inl done ↦ rw done (before, Scanned-Fits (omega arith) here (ground arith) s)
                | inr more ↦ rw more (
                    search_first k (i + 1) (current + 1) (i - current) pos (omega arith)
                      (omega (arith, s.behind)) (Scanned-free here more s))
              ])
      ]
    where
      past : (entry_type (heap.table.entries i) == entry_free) ≡ false → i + 1 - 0 ≤ p
      past taken = ground (arith, s.short, s.behind, fit.vacant i)

-- Where some run of `n` free blocks, 0 < n, fits in a table of less than 2^31 entries, the search
-- returns the first such run.
pub get_start_block-first :
    (heap : Heap) (n p : ℕ)
    → heap.table.total_entries < 2 ^ 31
    → 0 < n
    → Fits heap p n
    → (get_start_block heap n ≤ p) × Fits heap (get_start_block heap n) n
unfolding get_start_block
get_start_block-first heap n p small pos fit =
    let (first, there) =
      search_first heap n p small fit heap.table.total_entries 0 0 (neg 1) pos (omega arith)
        (omega arith) (Scanned-nil heap.table.entries n pos) in
    let found : (search heap.table.total_entries heap.table.entries n 0 0 (neg 1) == neg 1)
        ≡ false =
      ground (arith, there.inside) in
    rw found (first, there)

Scanned-IsTail :
    {heap : Heap} {n i current start lo : ℕ}
    → i ≡ heap.table.total_entries
    → IsTail heap lo
    → Scanned heap.table.entries n i current start
    → i - current ≡ lo
Scanned-IsTail {heap} {i} {current} {lo} e t s = elim (Bool-cases (ltb (i - current) lo)) [
  | inl before ↦
      let bound : 0 < lo = ground arith in
      let inside = t.inside in
      let free = s.run (lo - 1) (ground arith) (omega arith) in
      absurd (ground (arith, t.bounded bound))
  | inr after ↦ elim (Bool-cases (ltb lo (i - current))) [
    | inl more ↦
        let bound : 0 < i - current = ground arith in
        let free = t.vacant (i - current - 1) (ground arith) (omega (arith, s.behind)) in
        absurd (ground (arith, s.edge bound))
    | inr same ↦ ground arith
  ]
]

module _ (heap : Heap) (n lo : ℕ) (small : heap.table.total_entries < 2 ^ 31)
    (tail : IsTail heap lo) (full : (p : ℕ) → ¬ Fits heap p n) where
  search_last :
      (k i current start : ℕ)
      → 0 < n
      → i + k ≡ heap.table.total_entries
      → Scanned heap.table.entries n i current start
      → search k heap.table.entries n i current start
        ≡ (if lo == heap.table.total_entries then neg 1 else lo)
  unfolding search
  search_last zero i current start pos e s =
      let at = Scanned-IsTail (omega arith) tail s in ground (arith, s.start_lem, s.behind)
  search_last (suc k) i current start pos e s =
      elim (Bool-cases (entry_type (heap.table.entries i) == entry_free)) [
        | inr taken ↦ rw taken (
            search_last k (i + 1) 0 (neg 1) pos (omega arith)
              (Scanned-taken heap.table.entries n i pos taken))
        | inl here ↦
            let small' : i < 2 ^ 31 = omega arith in
            let counted : u32 (current + 1) ≡ current + 1 = omega (arith, s.behind) in
            rw (here, Scanned-start small' s, counted)
              (elim (Bool-cases (current + 1 == n)) [
                | inl done ↦ absurd (full _ (Scanned-Fits (omega arith) here (ground arith) s))
                | inr more ↦ rw more (
                    search_last k (i + 1) (current + 1) (i - current) pos (omega arith)
                      (Scanned-free here more s))
              ])
      ]

-- Where no run of `n` free blocks, 0 < n, fits in a table of less than 2^31 entries, the search
-- reports the lack of memory only if the last block is taken: otherwise it returns the start of
-- the free blocks at the end.
pub get_start_block-tail :
    (heap : Heap) (n lo : ℕ)
    → heap.table.total_entries < 2 ^ 31
    → 0 < n
    → IsTail heap lo
    → ((p : ℕ) → ¬ Fits heap p n)
    → get_start_block heap n ≡ (if lo == heap.table.total_entries then neg no_memory else lo)
unfolding get_start_block
get_start_block-tail heap n lo small pos tail full =
    let last =
      search_last heap n lo small tail full heap.table.total_entries 0 0 (neg 1) pos (omega arith)
        (Scanned-nil heap.table.entries n pos) in
    rw last (ground (arith, tail.inside))
