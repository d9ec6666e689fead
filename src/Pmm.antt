-- ===== src/Pmm.antt =====
-- src/memory/paging/PMM/pmm.c: the bitmap of physical frames, and src/e820_mmap/e820_mmap.c, which
-- fills it from the firmware's memory map. The bitmap is a function from the index to the byte.
pub mod Frames
pub mod Alloc
pub mod Fill
mod Tests
use lazy_os.Prelude.{
  ℕ, zero, suc, ◌+◌, ◌-◌, ◌*◌, ◌/◌, ◌%◌, ◌^◌, bit_or, bit_xor, Bool, ◌&&◌, Option, none, some, List,
  [], ◌∷◌, ltb, leb, ◌==◌, if◌then◌else◌, update, fill, u32, neg, is_negative,
}
use lazy_os.Prelude.Bytes.{set_bit, clear_bit, low_clear}
use lazy_os.Heap.{no_memory}

abbrev pub pmm_entries : ℕ
pmm_entries = 131072

abbrev pub whole_entry_taken : ℕ
whole_entry_taken = 0b11111111

-- The result is an `int`: -1 stands for the frames of a size at the end of the address space.
unfoldable pub calc_frames : ℕ → ℕ
calc_frames size = if leb (2 ^ 32 - 1) size then 2 ^ 32 - 1 else (size + 4095) / 4096

-- An `int` as a `uint64_t`.
unfoldable pub sign_extend : ℕ → ℕ
sign_extend x = if is_negative x then x + (2 ^ 64 - 2 ^ 32) else x

-- The `for` of `fill_from_to`, with `k` rounds left. `none` is its early return, before the filler
-- is written.
unfoldable pub fill_tail : (k : ℕ) → (full_block not_full_block filler : ℕ) → Option (ℕ × ℕ × ℕ)
fill_tail zero full_block not_full_block filler = some (full_block, not_full_block, filler)
fill_tail (suc k) full_block not_full_block filler =
    let borrows = not_full_block == 0 in
    let full' = if borrows then full_block - 1 else full_block in
    let not_full' : ℕ = if borrows then 7 else not_full_block in
    let rest = fill_tail k full' (not_full' - 1) (bit_or (filler / 2) 0b10000000) in
    if full_block == 0 && borrows then none else rest

-- The loop of the body: `full_block` whole bytes behind `block`. It returns the last one's index.
unfoldable pub fill_body : (full_block : ℕ) → (ℕ → ℕ) → (block : ℕ) → ℕ × (ℕ → ℕ)
fill_body zero bitmap block = (block, bitmap)
fill_body (suc full_block) bitmap block =
    fill_body full_block (update bitmap (block + 1) whole_entry_taken) (block + 1)

-- The marker of the head has the lowest `not_full_block` bits set.
unfoldable pub fill_head : (not_full_block : ℕ) → (marker : ℕ) → ℕ
fill_head zero marker = marker
fill_head (suc not_full_block) marker =
    fill_head not_full_block (bit_or (marker * 2 % 256) 0b00000001)

-- What `fill_from_to` writes behind the first frame, once the tail's loop has ended.
unfoldable pub fill_rest : (bitmap : ℕ → ℕ) → (block : ℕ) → Option (ℕ × ℕ × ℕ) → ℕ → ℕ
unfolding fill_body fill_head
fill_rest bitmap block none = bitmap
fill_rest bitmap block (some (full_block, not_full_block, filler)) =
    let filled = update bitmap block (bit_or (bitmap block) filler) in
    let (last, body) = fill_body full_block filled block in
    update body (last + 1) (bit_or (body (last + 1)) (fill_head not_full_block 0))

unfoldable pub fill_from_to : (base len : ℕ) → (ℕ → ℕ) → ℕ → ℕ
unfolding calc_frames sign_extend fill_tail fill_rest
fill_from_to base len bitmap =
    let start_frame = sign_extend (calc_frames base) in
    let block = u32 (start_frame / 8) in
    let frame_in_block = start_frame % 8 in
    let first = update bitmap block (set_bit (bitmap block) frame_in_block) in
    let left : ℕ = calc_frames len - 1 in
    if leb len 0
    then bitmap
    else if left == 0
    then first
    else fill_rest first block (fill_tail (6 - frame_in_block) (left / 8) (left % 8) 0b10000000)

abbrev pub heap_start : ℕ
heap_start = 0x01000000

abbrev pub heap_end : ℕ
heap_end = 0x01000000 + 104857600

-- The third call passes the heap's end address as a length.
unfoldable pub manual_prefill : (ℕ → ℕ) → ℕ → ℕ
manual_prefill bitmap =
    fill_from_to heap_start heap_end
      (fill_from_to 0x100000 0x100000 (fill_from_to 0x0000 0x100000 bitmap))

-- The bytes behind the bitmap's memory are those of `memory`.
unfoldable pub init_bitmap_pmm : (memory : ℕ → ℕ) → ℕ → ℕ
unfolding manual_prefill
init_bitmap_pmm memory = manual_prefill (fill memory 0 pmm_entries 0)

-- The loop over the full bytes, with `k` entries left, from the entry `i`.
unfoldable pub find_block : (k : ℕ) → (ℕ → ℕ) → (i : ℕ) → ℕ
find_block zero bitmap i = i
find_block (suc k) bitmap i =
    let rest = find_block k bitmap (i + 1) in if bitmap i == 255 then rest else i

-- `get_free_physical_address` over a bitmap of `entries` bytes.
unfoldable pub get_free_in : (entries : ℕ) → (ℕ → ℕ) → ℕ × (ℕ → ℕ)
get_free_in entries bitmap =
    let i = find_block entries bitmap 0 in
    let j = low_clear 8 (bit_xor (bitmap i) 255) 0 in
    if leb entries i
    then (neg no_memory, bitmap)
    else (u32 ((i * 8 + j) * 4096), update bitmap i (set_bit (bitmap i) j))

unfoldable pub get_free_physical_address : (ℕ → ℕ) → ℕ × (ℕ → ℕ)
get_free_physical_address = get_free_in pmm_entries

unfoldable pub free_physical_frame : (physical_addr : ℕ) → (ℕ → ℕ) → ℕ → ℕ
free_physical_frame physical_addr bitmap =
    let frame = physical_addr / 4096 in
    update bitmap (frame / 8) (clear_bit (bitmap (frame / 8)) (frame % 8))

-- An entry of the firmware's map; `kind` is the field `type`.
pub record E820Entry : Type 0 where
  pub base : ℕ
  pub length : ℕ
  pub kind : ℕ

-- The base and the length are cut to 32 bits when they are passed on.
unfoldable pub get_e820_mmap : List E820Entry → (ℕ → ℕ) → ℕ → ℕ
get_e820_mmap [] bitmap = bitmap
get_e820_mmap (e ∷ entries) bitmap =
    get_e820_mmap entries
      (if e.kind == 1 then bitmap else fill_from_to (u32 e.base) (u32 e.length) bitmap)
