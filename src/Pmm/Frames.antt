-- ===== src/Pmm/Frames.antt =====
-- Frames as bits of the bitmap, and what `free_physical_frame` does to them.
use lazy_os.Prelude.{
  ℕ, ◌/◌, ◌%◌, ◌<◌, ◌≡◌, refl, Bool, false, not, ◌&&◌, ◌||◌, arith, ◌==◌, update, Bool-cases, inl,
  inr,
}
use lazy_os.Prelude.Bytes.{
  test_bit, set_bit, clear_bit, clear_bit-lt, test_bit-set_bit, test_bit-clear_bit,
}
use lazy_os.Pmm.{free_physical_frame}

-- The bitmap's cells are bytes.
abbrev pub IsBytes : (ℕ → ℕ) → Type 0
IsBytes bitmap = (i : ℕ) → bitmap i < 256

-- Frame `f` is marked as taken.
unfoldable pub is_taken : (ℕ → ℕ) → ℕ → Bool
is_taken bitmap f = test_bit (bitmap (f / 8)) (f % 8)

-- Setting the bit of a frame takes that frame and no other.
pub is_taken-set :
    (bitmap : ℕ → ℕ) (f g : ℕ)
    → IsBytes bitmap
    → is_taken (update bitmap (f / 8) (set_bit (bitmap (f / 8)) (f % 8))) g
      ≡ ((f == g) || is_taken bitmap g)
unfolding is_taken
is_taken-set bitmap f g bytes = elim (Bool-cases (f / 8 == g / 8)) [
  | inl e ↦
      let e' : f / 8 ≡ g / 8 = ground arith in
      let bit =
        test_bit-set_bit (bitmap (f / 8)) (f % 8) (g % 8) (bytes (f / 8)) (omega arith)
          (omega arith) in
      let same : (f % 8 == g % 8) ≡ (f == g) = ground arith in rw (e, bit, same, e') refl
  | inr e ↦ let apart : (f == g) ≡ false = ground arith in rw (e, apart) refl
]

pub is_taken-clear :
    (bitmap : ℕ → ℕ) (f g : ℕ)
    → IsBytes bitmap
    → is_taken (update bitmap (f / 8) (clear_bit (bitmap (f / 8)) (f % 8))) g
      ≡ (not (f == g) && is_taken bitmap g)
unfolding is_taken
is_taken-clear bitmap f g bytes = elim (Bool-cases (f / 8 == g / 8)) [
  | inl e ↦
      let e' : f / 8 ≡ g / 8 = ground arith in
      let bit =
        test_bit-clear_bit (bitmap (f / 8)) (f % 8) (g % 8) (bytes (f / 8)) (omega arith)
          (omega arith) in
      let same : (f % 8 == g % 8) ≡ (f == g) = ground arith in rw (e, bit, same, e') refl
  | inr e ↦ let apart : (f == g) ≡ false = ground arith in rw (e, apart) refl
]

pub IsBytes-update :
    (bitmap : ℕ → ℕ) (i v : ℕ) → IsBytes bitmap → v < 256 → IsBytes (update bitmap i v)
IsBytes-update bitmap i v bytes small j = elim (Bool-cases (i == j)) [
  | inl e ↦ rw e small
  | inr e ↦ rw e (bytes j)
]

-- In a bitmap of bytes `free_physical_frame` frees the frame of the address, and no other.
pub free_physical_frame_lem :
    (physical_addr : ℕ) (bitmap : ℕ → ℕ) (f : ℕ)
    → IsBytes bitmap
    → is_taken (free_physical_frame physical_addr bitmap) f
      ≡ (not (physical_addr / 4096 == f) && is_taken bitmap f)
unfolding free_physical_frame
free_physical_frame_lem physical_addr bitmap f bytes =
    is_taken-clear bitmap (physical_addr / 4096) f bytes

pub free_physical_frame-IsBytes :
    (physical_addr : ℕ) (bitmap : ℕ → ℕ)
    → IsBytes bitmap
    → IsBytes (free_physical_frame physical_addr bitmap)
unfolding free_physical_frame
free_physical_frame-IsBytes physical_addr bitmap bytes =
    IsBytes-update bitmap _ _ bytes (clear_bit-lt _ _ (bytes _) (omega arith))
