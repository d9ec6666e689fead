-- ===== src/Heap/Tests.antt =====
-- The heap's theorems on a table of eight blocks.
use lazy_os.Prelude.{
  ℕ, ◌≤◌, ◌≡◌, refl, true, false, arith, ltb, ◌==◌, if◌then◌else◌, Bool-cases, inl, inr,
}
use lazy_os.Heap.{Heap, entry_type, entry_free, search, get_start_block, malloc_blocks, free}
use lazy_os.Heap.Search.{Fits, IsTail, get_start_block-first, get_start_block-tail}
use lazy_os.Heap.Mark.{IsRun}
use lazy_os.Heap.Address.{IsAddressable}
use lazy_os.Heap.Cycle.{IsAllocated, IsClean, IsEnded, malloc_blocks_lem, free-malloc_blocks}

-- Blocks 1 and 4 are taken, and the six others are free.
abbrev some_taken : ℕ → ℕ
some_taken j = if j == 1 then 0x41 else if j == 4 then 0x41 else 0

abbrev small_heap : Heap
small_heap = record {
  table = record { entries = some_taken; total_entries = 8 };
  start_addr = 65536;
}

small_heap-IsAddressable : IsAddressable small_heap
small_heap-IsAddressable = record { below = omega arith; signed = omega arith }

small_heap-Fits : Fits small_heap 5 3
unfolding entry_type
small_heap-Fits = record {
  inside = omega arith;
  vacant = λ j p q. let free : some_taken j ≡ 0 = ground arith in rw free refl;
}

some_taken-clean : (j : ℕ) → (entry_type (some_taken j) == entry_free) ≡ true → some_taken j ≡ 0
unfolding entry_type
some_taken-clean j q = elim (Bool-cases (j == 1)) [
  | inl one ↦ cc (rw one at q)
  | inr other ↦ elim (Bool-cases (j == 4)) [
    | inl four ↦ cc (rw (other, four) at q)
    | inr free ↦ rw (other, free) refl
  ]
]

small_heap-IsClean : IsClean small_heap
small_heap-IsClean = record { zeroed = λ j p q. some_taken-clean j q }

-- Only the last two blocks are free.
abbrev full_heap : Heap
full_heap = record {
  table = record { entries = λ j. if ltb j 6 then 0x41 else 0; total_entries = 8 };
  start_addr = 65536;
}

full_heap-IsTail : IsTail full_heap 6
unfolding entry_type
full_heap-IsTail = record {
  inside = omega arith;
  vacant = λ j p q. let free : ltb j 6 ≡ false = ground arith in rw free refl;
  bounded = λ p. refl;
}

full_heap-full : (p : ℕ) → ¬ Fits full_heap p 3
unfolding entry_type
full_heap-full p fit =
    let taken : ltb p 6 ≡ true = ground (arith, fit.inside) in
    let here = fit.vacant p (omega arith) (omega arith) in cc (rw taken at here)

get_start_block-first_example :
    (get_start_block small_heap 3 ≤ 5) × Fits small_heap (get_start_block small_heap 3) 3
get_start_block-first_example =
    get_start_block-first small_heap 3 5 (omega arith) (omega arith) small_heap-Fits

-- The search for three blocks returns block 6 of 8.
get_start_block-tail_example : get_start_block full_heap 3 ≡ 6
get_start_block-tail_example =
    get_start_block-tail full_heap 3 6 (omega arith) (omega arith) full_heap-IsTail full_heap-full

-- A run of blocks 2 to 4, of which the last one has no next flag.
abbrev linked_heap : Heap
linked_heap = record small_heap {
  table = record {
    entries = λ j. if j == 2 then 0xC1 else if j == 3 then 0x81 else 0x41;
    total_entries = 8;
  };
}

linked_heap-IsRun : IsRun linked_heap.table.entries 8 2 4
linked_heap-IsRun = record {
  ordered = omega arith;
  inside = omega arith;
  linked = λ j p q. elim (Bool-cases (j == 2)) [
    | inl two ↦ rw two refl
    | inr other ↦ let three : (j == 3) ≡ true = ground arith in rw (other, three) refl
  ];
  closed = λ p. refl;
}

malloc_blocks_lem_example :
    (get_start_block small_heap 3 ≤ 5)
    × IsAllocated small_heap
        (get_start_block small_heap 3)
        3
        (malloc_blocks small_heap 3).0
        (malloc_blocks small_heap 3).1
malloc_blocks_lem_example =
    malloc_blocks_lem small_heap 3 5 small_heap-IsAddressable (omega arith) small_heap-Fits

pair-Fits : Fits small_heap 2 2
unfolding entry_type
pair-Fits = record {
  inside = omega arith;
  vacant = λ j p q. let free : some_taken j ≡ 0 = ground arith in rw free refl;
}

pair_start : get_start_block small_heap 2 ≡ 2
unfolding get_start_block search entry_type
pair_start = refl

pair-IsEnded : IsEnded small_heap (get_start_block small_heap 2) 2
pair-IsEnded = rw pair_start (λ o. refl)

-- Blocks 2 and 3 are allocated and released: block 4, which was taken, is free afterwards.
free-malloc_blocks_example :
    (free (malloc_blocks small_heap 2).1 (malloc_blocks small_heap 2).0).table.entries 4 ≡ 0
unfolding get_start_block search entry_type
free-malloc_blocks_example =
    free-malloc_blocks small_heap 2 2 4 small_heap-IsAddressable small_heap-IsClean (omega arith)
      pair-Fits pair-IsEnded
