-- ===== src/Kheap/Tests.antt =====
-- The kernel heap as it is set up.
use lazy_os.Prelude.{ℕ, ◌≡◌, ◌≤◌, arith, within, if◌then◌else◌}
use lazy_os.Heap.{align_value_to_upper, create_heap, get_start_block}
use lazy_os.Heap.Search.{Fits}
use lazy_os.Heap.Cycle.{IsAllocated}
use lazy_os.Kheap.{Kernel, kheap_init, kzalloc}
use lazy_os.Kheap.Bytes.{byte_at}
use lazy_os.Kheap.Init.{IsFresh, blocks, kheap_init-IsFresh, kzalloc_lem}

abbrev ones : ℕ → ℕ
ones i = 0xFFFFFFFF

fresh : IsFresh (kheap_init ones).1
fresh = (kheap_init-IsFresh ones).1

abbrev fresh_kernel : Kernel
fresh_kernel = record { heap = (kheap_init ones).1; memory = ones }

two-Fits : Fits (kheap_init ones).1 0 (blocks 5001)
unfolding align_value_to_upper
two-Fits = record {
  inside = omega (arith, fresh.total);
  vacant = λ j p q. fresh.vacant.vacant j p (omega arith);
}

-- A size that is no number of words.
kzalloc_lem_example :
    ((q : ℕ)
      → Fits (kheap_init ones).1 q (blocks 5001)
      → get_start_block (kheap_init ones).1 (blocks 5001) ≤ q)
    × IsAllocated
        (kheap_init ones).1
        (get_start_block (kheap_init ones).1 (blocks 5001))
        (blocks 5001)
        (kzalloc 5001 fresh_kernel).0
        (kzalloc 5001 fresh_kernel).1.heap
    × ((b : ℕ)
        → byte_at (kzalloc 5001 fresh_kernel).1.memory b
          ≡ (if within (kzalloc 5001 fresh_kernel).0 5001 b then 0 else byte_at ones b))
unfolding kheap_init create_heap
kzalloc_lem_example =
    kzalloc_lem 5001 0 fresh_kernel fresh.addressable (omega arith) (omega arith) (omega arith)
      (omega arith) two-Fits
