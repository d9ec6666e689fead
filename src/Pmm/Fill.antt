-- ===== src/Pmm/Fill.antt =====
-- The frames that `fill_from_to` takes, and those that are taken after `init_bitmap_PMM`.
use lazy_os.Prelude.{
  ℕ, zero, suc, ◌+◌, ◌-◌, ◌*◌, ◌/◌, ◌%◌, ◌^◌, ◌≤◌, ◌<◌, bit_or, ◌≡◌, ◌∙◌, Bool, true, false, ◌||◌,
  arith, some, none, ltb, leb, ◌==◌, if◌then◌else◌, update, fill, within, u32, is_negative,
  Bool-cases, inl, inr,
}
use lazy_os.Prelude.Bytes.{set_bit, bit_or-full, test_bit-full}
use lazy_os.Pmm.{
  calc_frames, fill_tail, fill_body, fill_rest, fill_from_to, init_bitmap_pmm, pmm_entries,
  whole_entry_taken,
}
use lazy_os.Pmm.Frames.{IsBytes, is_taken, is_taken-set}

fill_body-last : (n : ℕ) (bitmap : ℕ → ℕ) (block : ℕ) → (fill_body n bitmap block).0 ≡ block + n
unfolding fill_body
fill_body-last zero bitmap block = omega arith
fill_body-last (suc n) bitmap block =
    omega (arith, fill_body-last n (update bitmap (block + 1) whole_entry_taken) (block + 1))

fill_body_lem :
    (n : ℕ) (bitmap : ℕ → ℕ) (block j : ℕ)
    → (fill_body n bitmap block).1 j ≡ fill bitmap (block + 1) n whole_entry_taken j
unfolding fill_body
fill_body_lem zero bitmap block j = ground arith
fill_body_lem (suc n) bitmap block j =
    ground (arith, fill_body_lem n (update bitmap (block + 1) whole_entry_taken) (block + 1) j)

-- The tail of a range that begins with a byte and is a whole number of bytes long.
fill_tail-aligned : (full : ℕ) → fill_tail 6 full 7 0b10000000 ≡ some (full, 1, 0b11111110)
unfolding fill_tail
fill_tail-aligned full = ground arith

fill_rest-aligned :
    (bitmap : ℕ → ℕ) (block m j : ℕ)
    → bitmap block < 256
    → 0 < m
    → fill_rest
        (update bitmap block (bit_or (bitmap block) 1))
        block
        (some (m - 1, 1, 0b11111110))
        j
      ≡ (if within block m j then 255 else if j == block + m then bit_or (bitmap j) 1 else bitmap j)
unfolding fill_rest
fill_rest-aligned bitmap block m j byte pos =
    let first = update bitmap block (bit_or (bitmap block) 1) in
    let filled = update first block (bit_or (first block) 0b11111110) in
    let last = fill_body-last (m - 1) filled block in
    let behind = fill_body_lem (m - 1) filled block (block + (m - 1) + 1) in
    let at = fill_body_lem (m - 1) filled block j in
    let whole = bit_or-full (bitmap block) byte in
    let next : block + (m - 1) + 1 ≡ block + m = omega arith in
    rw (last, behind, at, next) (ground arith)

-- A range of `m` whole bytes of the bitmap from the byte `b` on, 0 < m, within the bitmap, is
-- taken; so is the frame behind it, and no other bit changes.
pub fill_from_to-aligned :
    (bitmap : ℕ → ℕ) (b m j : ℕ)
    → bitmap b < 256
    → 0 < m
    → b + m ≤ pmm_entries
    → m < pmm_entries
    → fill_from_to (32768 * b) (32768 * m) bitmap j
      ≡ (if within b m j then 255 else if j == b + m then bit_or (bitmap j) 1 else bitmap j)
unfolding fill_from_to set_bit
fill_from_to-aligned bitmap b m j byte pos range short =
    let start : calc_frames (32768 * b) ≡ 8 * b = ground arith in
    let length : calc_frames (32768 * m) ≡ 8 * m = ground arith in
    let positive : is_negative (8 * b) ≡ false = ground arith in
    let block : u32 (8 * b / 8) ≡ b = omega arith in
    let bit : 8 * b % 8 ≡ 0 = omega arith in
    let some_length : leb (32768 * m) 0 ≡ false = ground arith in
    let more : (8 * m - 1 == 0) ≡ false = ground arith in
    let full : (8 * m - 1) / 8 ≡ m - 1 = omega arith in
    let seven : (8 * m - 1) % 8 ≡ 7 = omega arith in
    rw (start, length, positive, block, bit, some_length, more, full, seven, fill_tail-aligned)
      (fill_rest-aligned bitmap b m j byte pos)

-- The bytes of the bitmap after `init_bitmap_PMM`: the first two megabytes and the heap are taken,
-- and one frame behind each of them.
unfoldable pub initial_byte : ℕ → ℕ
initial_byte j =
    if ltb j 64
    then 255
    else if j == 64
    then 1
    else if within 512 3712 j
    then 255
    else if j == 4224
    then 1
    else 0

abbrev low : (ℕ → ℕ) → ℕ → ℕ
low memory = fill_from_to 0x0000 0x100000 (fill memory 0 pmm_entries 0)

low_lem :
    (memory : ℕ → ℕ) (j : ℕ)
    → j < pmm_entries
    → low memory j ≡ (if ltb j 32 then 255 else if j == 32 then 1 else 0)
low_lem memory j inside =
    let cleared : fill memory 0 pmm_entries 0 j ≡ 0 = ground arith in
    fill_from_to-aligned (fill memory 0 pmm_entries 0) 0 32 j (omega arith) (omega arith)
      (omega arith) (omega arith)
    ∙ rw cleared (ground arith)

abbrev kernel : (ℕ → ℕ) → ℕ → ℕ
kernel memory = fill_from_to 0x100000 0x100000 (low memory)

kernel_lem :
    (memory : ℕ → ℕ) (j : ℕ)
    → j < pmm_entries
    → kernel memory j ≡ (if ltb j 64 then 255 else if j == 64 then 1 else 0)
kernel_lem memory j inside =
    fill_from_to-aligned (low memory) 32 32 j (rw (low_lem memory 32 (omega arith)) (omega arith))
      (omega arith) (omega arith) (omega arith)
    ∙ rw (low_lem memory j inside) (ground arith)

-- After `init_bitmap_PMM` the bitmap's bytes within its bounds are those of `initial_byte`: the
-- reserved frames are taken, with one frame behind the low memory and 16 MB and one frame behind
-- the heap.
pub init_bitmap_pmm_lem :
    (memory : ℕ → ℕ) (j : ℕ) → j < pmm_entries → init_bitmap_pmm memory j ≡ initial_byte j
unfolding init_bitmap_pmm initial_byte
init_bitmap_pmm_lem memory j inside =
    fill_from_to-aligned (kernel memory) 512 3712 j
      (rw (kernel_lem memory 512 (omega arith)) (omega arith)) (omega arith) (omega arith)
      (omega arith)
    ∙ rw (kernel_lem memory j inside) (ground arith)

-- A frame of the first two megabytes or of the kernel's heap.
abbrev pub is_reserved : ℕ → Bool
is_reserved f = ltb f 512 || within 4096 25600 f

-- After `init_bitmap_PMM` the frames of the first 2 MB and of the kernel's heap are taken.
pub init_bitmap_pmm-reserved :
    (memory : ℕ → ℕ) (f : ℕ) → is_reserved f ≡ true → is_taken (init_bitmap_pmm memory) f ≡ true
unfolding is_taken initial_byte
init_bitmap_pmm-reserved memory f reserved =
    let full : initial_byte (f / 8) ≡ 255 = ground arith in
    rw (init_bitmap_pmm_lem memory (f / 8) (ground arith), full)
      (test_bit-full (f % 8) (omega arith))

-- The tail's loop returns early if the frames run out before its rounds do.
fill_tail-short : (k r filler : ℕ) → r < k → fill_tail k 0 r filler ≡ none
unfolding fill_tail
fill_tail-short zero r filler short = absurd (omega arith)
fill_tail-short (suc k) r filler short =
    ground (arith, fill_tail-short k (r - 1) (bit_or (filler / 2) 0b10000000))

-- Of a range of `n` frames from frame `f` on, 0 < n, which ends before the last two frames of the
-- bitmap's byte, only the first frame is taken.
pub fill_from_to-short :
    (bitmap : ℕ → ℕ) (f n g : ℕ)
    → IsBytes bitmap
    → f < 2 ^ 20 - 1
    → 0 < n
    → f % 8 + n ≤ 6
    → is_taken (fill_from_to (4096 * f) (4096 * n) bitmap) g ≡ ((f == g) || is_taken bitmap g)
unfolding fill_from_to fill_rest
fill_from_to-short bitmap f n g bytes range pos short =
    let start : calc_frames (4096 * f) ≡ f = ground arith in
    let length : calc_frames (4096 * n) ≡ n = ground arith in
    let positive : is_negative f ≡ false = ground arith in
    let block : u32 (f / 8) ≡ f / 8 = omega arith in
    let some_length : leb (4096 * n) 0 ≡ false = ground arith in
    let none_full : (n - 1) / 8 ≡ 0 = omega arith in
    let rest : (n - 1) % 8 ≡ n - 1 = omega arith in
    rw
      (
        start,
        length,
        positive,
        block,
        some_length,
        none_full,
        rest,
        fill_tail-short (6 - f % 8) (n - 1) 0b10000000 (omega arith),
      )
      (elim (Bool-cases (n - 1 == 0)) [
        | inl one ↦ rw one (is_taken-set bitmap f g bytes)
        | inr more ↦ rw more (is_taken-set bitmap f g bytes)
      ])
