-- ===== src/Paging/Walk.antt =====
-- The translation that the processor makes, and `paging_get_physical`.
use lazy_os.Prelude.{
  ℕ, ◌+◌, ◌-◌, ◌*◌, ◌/◌, ◌%◌, ◌^◌, ◌<◌, ◌≡◌, refl, Option, none, some, arith, ◌==◌, if◌then◌else◌,
  neg, Bool-cases, inl, inr,
}
use lazy_os.Prelude.Masks.{bit_and-one, bit_and-page, bit_or-zero, bit_and-offset}
use lazy_os.Heap.{einvarg}
use lazy_os.Paging.{System, load, paging_get_indexes, paging_get_physical}

-- The indexes of a 32-bit address that is aligned to a page are its highest 10 bits and the next
-- 10; another address is refused.
pub paging_get_indexes_lem :
    (virtual_address : ℕ)
    → virtual_address < 2 ^ 32
    → paging_get_indexes virtual_address ≡ (
        if virtual_address % 4096 == 0
        then (0, virtual_address / 2 ^ 22, virtual_address / 2 ^ 12 % 2 ^ 10)
        else (neg einvarg, 0, 0))
unfolding paging_get_indexes
paging_get_indexes_lem virtual_address h =
    let same : virtual_address % (1024 * 4096) / 4096 ≡ virtual_address / 2 ^ 12 % 2 ^ 10 =
      omega arith in
    rw same refl

-- The memory's words are 32 bits wide.
abbrev pub IsWords : (ℕ → ℕ) → Type 0
IsWords memory = (a : ℕ) → memory a < 2 ^ 32

-- The table or the frame that an entry names, if its present bit is set.
unfoldable pub target : ℕ → Option ℕ
target entry = if entry % 2 == 1 then some (entry - entry % 4096) else none

-- The processor's walk through the directory and the table, to the byte's physical address.
unfoldable pub entry_of : (memory : ℕ → ℕ) → (table i : ℕ) → ℕ
entry_of memory table i = memory ((table + 4 * i) % 2 ^ 32)

-- The physical address of byte `virt` in a frame.
abbrev pub frame_byte : Option ℕ → ℕ → Option ℕ
frame_byte none virt = none
frame_byte (some frame) virt = some (frame + virt % 4096)

-- The second step of the walk, from the table.
abbrev pub through : (memory : ℕ → ℕ) → Option ℕ → ℕ → Option ℕ
through memory none virt = none
through memory (some table) virt =
    frame_byte (target (entry_of memory table (virt / 2 ^ 12 % 2 ^ 10))) virt

unfoldable pub translate : (memory : ℕ → ℕ) → (directory virt : ℕ) → Option ℕ
translate memory directory virt =
    through memory (target (entry_of memory directory (virt / 2 ^ 22))) virt

abbrev pub or_zero : Option ℕ → ℕ
or_zero none = 0
or_zero (some a) = a

-- In a memory of 32-bit words, at an aligned address `paging_get_physical` is the processor's
-- translation, with 0 where there is none; at any other address it returns 0.
pub paging_get_physical_lem :
    (directory virt : ℕ) (s : System)
    → IsWords s.kernel.memory
    → virt < 2 ^ 32
    → paging_get_physical directory virt s
      ≡ (if virt % 4096 == 0 then or_zero (translate s.kernel.memory directory virt) else 0)
unfolding paging_get_physical translate target load entry_of
paging_get_physical_lem directory virt s words h =
    rw (paging_get_indexes_lem virt h) (elim (Bool-cases (virt % 4096 == 0)) [
      | inr odd ↦ rw odd refl
      | inl aligned ↦
          let e1 = entry_of s.kernel.memory directory (virt / 2 ^ 22) in
          let e2 = entry_of s.kernel.memory (e1 - e1 % 4096) (virt / 2 ^ 12 % 2 ^ 10) in
          let page : virt % 4096 ≡ 0 = ground arith in
          rw
            (
              aligned,
              bit_and-one e1,
              bit_and-page e1 (words _),
              bit_and-one e2,
              bit_and-page e2 (words _),
              bit_and-offset virt page,
              bit_or-zero (e2 - e2 % 4096),
            )
            (ground arith)
    ])
