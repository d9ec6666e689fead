-- ===== src/Heap/Mark.antt =====
-- What `heap_mark_blocks_taken` and `heap_mark_blocks_free` do to each entry of the table.
use lazy_os.Prelude.{
  ℕ, zero, suc, ◌+◌, ◌-◌, ◌^◌, ◌≤◌, ◌<◌, bit_and, ◌≡◌, refl, true, false, ◌&&◌, inl, inr, arith,
  ltb, leb, ◌==◌, if◌then◌else◌, update, within, u32, sub32, Bool-cases, int_le_small, int_lt_small,
}
use lazy_os.Heap.{
  Heap, has_next, entry_free, mark_loop, mark_blocks_taken, free_loop, mark_blocks_free,
}

-- The entry of block `j` in a run of `n` blocks from `lo` on, once it is marked.
unfoldable pub mark_tag : (lo n j : ℕ) → ℕ
mark_tag lo n j = if j == lo then (if ltb 1 n then 0xC1 else 0x41) else 0x81

pub mark_tag-linked : (lo n j : ℕ) → 1 < n → (bit_and (mark_tag lo n j) has_next == 0) ≡ false
unfolding mark_tag
mark_tag-linked lo n j long =
    let long' : ltb 1 n ≡ true = ground arith in
    elim (Bool-cases (j == lo)) [ inl e ↦ rw (e, long') refl | inr e ↦ rw e refl ]

pub mark_tag-closed :
    (lo j : ℕ) → (j == lo) ≡ true → (bit_and (mark_tag lo 1 j) has_next == 0) ≡ true
unfolding mark_tag
mark_tag-closed lo j e = rw e refl

mark_loop_lem :
    (fuel i end entry : ℕ) (entries : ℕ → ℕ) (j : ℕ)
    → end < i + fuel
    → i ≤ end + 1
    → end < 2 ^ 31 - 1
    → mark_loop fuel i end entry entries j
      ≡ (if leb i j && leb j end then (if j == i then entry else 0x81) else entries j)
unfolding mark_loop
mark_loop_lem zero i end entry entries j fuel le small = ground arith
mark_loop_lem (suc fuel) i end entry entries j enough le small =
    let next : u32 (i + 1) ≡ i + 1 = omega arith in
    rw (next, int_le_small i end (omega arith) (omega arith))
      (elim (Bool-cases (leb i end)) [
        | inl more ↦
            let entry' : ℕ = if i == end then 1 else 0x81 in
            let ih =
              mark_loop_lem fuel (i + 1) end entry' (update entries i entry) j (omega arith)
                (ground arith) small in
            rw (more, ih) (ground arith)
        | inr done ↦ rw done (ground arith)
      ])

-- Marking a run of `n` blocks, 0 < n, below 2^31 as taken sets the entries of its blocks and no
-- others: the first block has the first flag, and every block of a longer run, the last one
-- included, has the next flag.
pub mark_blocks_taken_lem :
    (lo n : ℕ) (entries : ℕ → ℕ) (j : ℕ)
    → 0 < n
    → lo + n < 2 ^ 31
    → mark_blocks_taken lo n entries j ≡ (if within lo n j then mark_tag lo n j else entries j)
unfolding mark_blocks_taken mark_tag
mark_blocks_taken_lem lo n entries j pos small =
    let end : sub32 (u32 (lo + n)) 1 ≡ lo + n - 1 = omega arith in
    rw end (
      rw
        (mark_loop_lem (n + 1) lo (lo + n - 1) _ entries j (omega arith) (omega arith)
          (omega arith))
        (ground arith))

-- From block `i` on every block has the next flag up to `last`, which is the first block without
-- the flag or the last block of the table.
pub record IsRun (entries : ℕ → ℕ) (total i last : ℕ) : Type 0 where
  pub ordered : i ≤ last
  pub inside : last < total
  pub linked : (j : ℕ) → i ≤ j → j < last → (bit_and (entries j) has_next == 0) ≡ false
  pub closed : last + 1 < total → (bit_and (entries last) has_next == 0) ≡ true

IsRun-step :
    {entries : ℕ → ℕ} {total i last : ℕ}
    → i < last
    → IsRun entries total i last
    → IsRun (update entries i entry_free) total (i + 1) last
IsRun-step {i} {last} lt run = record {
  ordered = omega arith;
  inside = run.inside;
  linked = λ j p q.
      let apart : (i == j) ≡ false = ground arith in rw apart (run.linked j (omega arith) q);
  closed = λ p. let apart : (i == last) ≡ false = ground arith in rw apart (run.closed p);
}

free_loop-end :
    (fuel i total : ℕ) (entries : ℕ → ℕ)
    → i ≡ total
    → total < 2 ^ 31
    → free_loop fuel i total entries ≡ entries
unfolding free_loop
free_loop-end zero i total entries e small = refl
free_loop-end (suc fuel) i total entries e small =
    let stop : ltb i total ≡ false = ground arith in
    rw (int_lt_small i total (omega arith) small, stop)

free_loop_lem :
    (fuel i last total : ℕ) (entries : ℕ → ℕ) (j : ℕ)
    → total < i + fuel
    → total < 2 ^ 31
    → IsRun entries total i last
    → free_loop fuel i total entries j ≡ (if leb i j && leb j last then entry_free else entries j)
unfolding free_loop
free_loop_lem zero i last total entries j enough small run =
    absurd (omega (arith, run.ordered, run.inside))
free_loop_lem (suc fuel) i last total entries j enough small run =
    let le = run.ordered in
    let inside = run.inside in
    let next : u32 (i + 1) ≡ i + 1 = omega arith in
    let more : ltb i total ≡ true = ground arith in
    rw (next, int_lt_small i total (omega arith) (omega arith), more)
      (elim (Bool-cases (i == last)) [
        | inl e ↦
            let e' : i ≡ last = ground arith in
            elim (Bool-cases (ltb (last + 1) total)) [
              | inl short ↦
                  let stop : (bit_and (entries i) has_next == 0) ≡ true =
                    rw e' (run.closed (ground arith)) in
                  rw stop (ground arith)
              | inr whole ↦
                  let done : i + 1 ≡ total = ground arith in
                  rw (free_loop-end fuel (i + 1) total (update entries i entry_free) done small)
                    (ground arith)
            ]
        | inr e ↦
            let go = run.linked i (omega arith) (ground arith) in
            rw go (
              rw
                (free_loop_lem fuel (i + 1) last total (update entries i entry_free) j (omega arith)
                  small (IsRun-step (ground arith) run))
                (ground arith))
      ])

-- In a table of less than 2^31 entries, freeing at a block clears the entries of its run, up to
-- the first one without the next flag or the end of the table, and no others.
pub mark_blocks_free_lem :
    (heap : Heap) (i last j : ℕ)
    → heap.table.total_entries < 2 ^ 31
    → IsRun heap.table.entries heap.table.total_entries i last
    → (mark_blocks_free heap i).table.entries j
      ≡ (if leb i j && leb j last then entry_free else heap.table.entries j)
unfolding mark_blocks_free
mark_blocks_free_lem heap i last j small run =
    free_loop_lem _ i last heap.table.total_entries heap.table.entries j
      (omega (arith, run.ordered, run.inside)) small run
