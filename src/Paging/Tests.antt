-- ===== src/Paging/Tests.antt =====
-- A directory at 0x1000 with one table, at 0x2000, in its entry 1.
use lazy_os.Prelude.{
  ℕ, ◌+◌, ◌*◌, ◌/◌, ◌%◌, ◌^◌, ◌<◌, ◌≡◌, ◌≢◌, refl, arith, none, some, ◌==◌, if◌then◌else◌, false,
  Bool-cases, inl, inr,
}
use lazy_os.Heap.{
  align_value_to_upper, get_start_block, search, entry_type, block_to_address, malloc_blocks,
  malloc,
}
use lazy_os.Kheap.{Kernel, kmalloc, kzalloc}
use lazy_os.Paging.{System, paging_get_physical, paging_set}
use lazy_os.Paging.Walk.{
  IsWords, target, entry_of, frame_byte, translate, or_zero, paging_get_physical_lem,
}
use lazy_os.Paging.Map.{IsPage, IsOwn, paging_set-mapped}
use lazy_os.Paging.Fresh.{IsNew, paging_set-extended}

abbrev memory : ℕ → ℕ
memory a = if a == 0x1004 then 0x2007 else 0

memory-IsWords : IsWords memory
memory-IsWords a = ground arith

abbrev kernel : Kernel
kernel = record {
  heap = record { table = record { entries = λ j. 0; total_entries = 8 }; start_addr = 0x10000 };
  memory = memory;
}

abbrev system : System
system = record { kernel = kernel; bitmap = λ i. 0; current_directory = 0x1000 }

directory-IsPage : IsPage 0x1000
directory-IsPage = record { aligned = refl; word = omega arith }

entry_absent : (d : ℕ) → d < 1024 → d ≢ 1 → target (entry_of memory 0x1000 d) ≡ none
unfolding target entry_of
entry_absent d h ne =
    let other : ((0x1000 + 4 * d) % 2 ^ 32 == 0x1004) ≡ false = ground arith in rw other refl

table-IsOwn : IsOwn memory 0x1000 1 0x2000
unfolding target entry_of
table-IsOwn = record {
  named = refl;
  page = record { aligned = refl; word = omega arith };
  apart = λ e. absurd (omega arith);
  own = λ d' table' small named ne. cc (rw (entry_absent d' small ne) at named);
}

only_table :
    (d table : ℕ) → d < 1024 → target (entry_of memory 0x1000 d) ≡ some table → table ≡ 0x2000
unfolding target entry_of
only_table d table h named = elim (Bool-cases (d == 1)) [
  | inl one ↦ let one' : d ≡ 1 = ground arith in cc (rw one' at named)
  | inr other ↦ cc (rw (entry_absent d h (ground arith)) at named)
]

table-IsNew : IsNew memory 0x1000 2 0x10000
unfolding target entry_of
table-IsNew = record {
  page = record { aligned = refl; word = omega arith };
  valid = λ e. absurd (omega arith);
  apart = λ e. absurd (omega arith);
  absent = refl;
  own = λ d' table' small named.
      let t = only_table d' table' small named in
      (λ e. absurd (omega arith), λ e. absurd (omega arith));
}

heap_page : kzalloc 4096 kernel ≡ (0x10000, (kzalloc 4096 kernel).1)
unfolding kzalloc kmalloc malloc malloc_blocks align_value_to_upper get_start_block search
    entry_type block_to_address
heap_page = refl

paging_get_physical_lem_example :
    paging_get_physical 0x1000 0x403000 system ≡ or_zero (translate memory 0x1000 0x403000)
paging_get_physical_lem_example =
    paging_get_physical_lem 0x1000 0x403000 system memory-IsWords (omega arith)

paging_set-mapped_example :
    ((paging_set 0x1000 0x403000 0x7003 system).0 ≡ 0)
    × ((v : ℕ)
        → v < 2 ^ 32
        → translate (paging_set 0x1000 0x403000 0x7003 system).1.kernel.memory 0x1000 v
          ≡ (if v / 4096 == 0x403 then frame_byte (target 0x7003) v else translate memory 0x1000 v))
paging_set-mapped_example =
    paging_set-mapped system 0x1000 0x403000 0x7003 0x2000 memory-IsWords directory-IsPage
      (omega arith) refl table-IsOwn

paging_set-extended_example :
    ((paging_set 0x1000 0x803000 0x7003 system).0 ≡ 0)
    × ((v : ℕ)
        → v < 2 ^ 32
        → translate (paging_set 0x1000 0x803000 0x7003 system).1.kernel.memory 0x1000 v
          ≡ (if v / 4096 == 0x803 then frame_byte (target 0x7003) v else translate memory 0x1000 v))
paging_set-extended_example =
    paging_set-extended system (kzalloc 4096 kernel).1 0x1000 0x803000 0x7003 0x10000 heap_page
      memory-IsWords directory-IsPage (omega arith) refl table-IsNew
