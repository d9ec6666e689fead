-- ===== src/Pmm/Alloc.antt =====
-- What `get_free_physical_address` finds.
use lazy_os.Prelude.{
  ℕ, zero, suc, ◌+◌, ◌*◌, ◌/◌, ◌%◌, ◌≤◌, ◌<◌, ◌≡◌, refl, true, false, ◌||◌, arith, ltb, leb, ◌==◌,
  neg, Bool-cases, inl, inr, bit_xor,
}
use lazy_os.Prelude.Bytes.{low_clear, low_clear-IsLowClear, test_bit-full, set_bit-lt}
use lazy_os.Heap.{no_memory}
use lazy_os.Pmm.{find_block, get_free_in, pmm_entries}
use lazy_os.Pmm.Frames.{IsBytes, is_taken, is_taken-set, IsBytes-update}

-- The loop stops at the first byte that is not full, or behind the last one.
record IsFound (bitmap : ℕ → ℕ) (lo hi i : ℕ) : Type 0 where
  above : lo ≤ i
  below : i ≤ hi
  passed : (j : ℕ) → lo ≤ j → j < i → bitmap j ≡ 255
  stopped : i < hi → (bitmap i == 255) ≡ false

find_block-IsFound :
    (k : ℕ) (bitmap : ℕ → ℕ) (i hi : ℕ) → i + k ≡ hi → IsFound bitmap i hi (find_block k bitmap i)
unfolding find_block
find_block-IsFound zero bitmap i hi e = record {
  above = omega arith;
  below = omega arith;
  passed = λ j p q. absurd (omega arith);
  stopped = λ p. absurd (omega arith);
}
find_block-IsFound (suc k) bitmap i hi e = elim (Bool-cases (bitmap i == 255)) [
  | inr open_block ↦ rw open_block (record {
    above = omega arith;
    below = omega arith;
    passed = λ j p q. absurd (omega arith);
    stopped = λ p. open_block;
  })
  | inl full ↦
      let r = find_block-IsFound k bitmap (i + 1) hi (omega arith) in
      rw full (record {
        above = omega (arith, r.above);
        below = r.below;
        passed = λ j p q. elim (Bool-cases (j == i)) [
          | inl same ↦ let same' : j ≡ i = ground arith in rw same' (ground arith)
          | inr other ↦ r.passed j (ground arith) q
        ];
        stopped = r.stopped;
      })
]

-- Frame `f` is the first free one.
pub record IsFirstFree (bitmap : ℕ → ℕ) (f : ℕ) : Type 0 where
  pub free : is_taken bitmap f ≡ false
  pub taken_below : (g : ℕ) → g < f → is_taken bitmap g ≡ true

-- What an allocation returns and leaves: the first free frame, and that frame is taken.
pub record IsGiven (bitmap : ℕ → ℕ) (entries : ℕ) (r : ℕ × (ℕ → ℕ)) (f : ℕ) : Type 0 where
  pub address_lem : r.0 ≡ f * 4096
  pub inside : f < entries * 8
  pub first : IsFirstFree bitmap f
  pub bytes : IsBytes r.1
  pub marked : (g : ℕ) → is_taken r.1 g ≡ ((f == g) || is_taken bitmap g)

module _ (entries : ℕ) (bitmap : ℕ → ℕ) (small : entries ≤ pmm_entries)
    (bytes : IsBytes bitmap) where
  abbrev block : ℕ
  block = find_block entries bitmap 0

  abbrev frame : ℕ
  frame = block * 8 + low_clear 8 (bit_xor (bitmap block) 255) 0

  block-IsFound : IsFound bitmap 0 entries block
  block-IsFound = find_block-IsFound entries bitmap 0 entries (omega arith)

  full-is_taken : (g : ℕ) → g / 8 < block → is_taken bitmap g ≡ true
  unfolding is_taken
  full-is_taken g h =
      rw (block-IsFound.passed (g / 8) (omega arith) h) (test_bit-full (g % 8) (omega arith))

  frame-IsFirstFree : block < entries → IsFirstFree bitmap frame
  unfolding is_taken
  frame-IsFirstFree inside =
      let stops = block-IsFound.stopped inside in
      let byte = bytes block in
      let l = low_clear-IsLowClear (bitmap block) (ground arith) in
      let div : frame / 8 ≡ block = omega (arith, l.inside) in
      let remainder : frame % 8 ≡ low_clear 8 (bit_xor (bitmap block) 255) 0 =
        omega (arith, l.inside) in
      record {
        free = rw (div, remainder) l.clear;
        taken_below = λ g h. elim (Bool-cases (ltb (g / 8) block)) [
          | inl before ↦ full-is_taken g (ground arith)
          | inr here ↦
              let same : g / 8 ≡ block = ground (arith, l.inside) in
              rw same (l.lower (g % 8) (omega (arith, l.inside)))
        ];
      }

  -- Over a bitmap of bytes, with at most the source's number of entries, of which some frame is
  -- free: the allocation returns the address of the first free frame, takes that frame and no
  -- other.
  pub get_free_in-IsGiven :
      (g : ℕ)
      → g < entries * 8
      → is_taken bitmap g ≡ false
      → (f : ℕ) × IsGiven bitmap entries (get_free_in entries bitmap) f
  unfolding get_free_in
  get_free_in-IsGiven g range free =
      let inside : block < entries = elim (Bool-cases (ltb (g / 8) block)) [
        | inl before ↦ let full = full-is_taken g (ground arith) in absurd (ground arith)
        | inr after ↦ ground arith
      ] in
      let found : leb entries block ≡ false = ground arith in
      let stops = block-IsFound.stopped inside in
      let byte = bytes block in
      let l = low_clear-IsLowClear (bitmap block) (ground arith) in
      let div : frame / 8 ≡ block = omega (arith, l.inside) in
      let remainder : frame % 8 ≡ low_clear 8 (bit_xor (bitmap block) 255) 0 =
        omega (arith, l.inside) in
      (
        frame,
        rw found (record {
          address_lem = omega (arith, l.inside);
          inside = omega (arith, l.inside);
          first = frame-IsFirstFree inside;
          bytes = IsBytes-update bitmap _ _ bytes (set_bit-lt _ _ byte l.inside);
          marked = λ h. rw (div, remainder) at (is_taken-set bitmap frame h bytes);
        }),
      )

  -- Over a bitmap of bytes, with at most the source's number of entries, of which no frame is
  -- free: the allocation reports the lack of memory and changes nothing.
  pub get_free_in-full :
      ((g : ℕ) → g < entries * 8 → is_taken bitmap g ≡ true)
      → get_free_in entries bitmap ≡ (neg no_memory, bitmap)
  unfolding get_free_in
  get_free_in-full full = elim (Bool-cases (leb entries block)) [
    | inl none_left ↦ rw none_left refl
    | inr found ↦
        let inside : block < entries = ground arith in
        let stops = block-IsFound.stopped inside in
        let byte = bytes block in
        let l = low_clear-IsLowClear (bitmap block) (ground arith) in
        let first = frame-IsFirstFree inside in
        let taken = full frame (omega (arith, l.inside)) in
        let free = first.free in absurd (ground arith)
  ]
