-- ===== src/Kheap/Bytes.antt =====
-- The bytes of the memory's words, and what clearing does to them.
use mathlib.Core.Path.{fun_ext}
use lazy_os.Prelude.{
  ℕ, zero, suc, ◌+◌, ◌-◌, ◌*◌, ◌/◌, ◌%◌, ◌^◌, ◌<◌, ◌≡◌, refl, true, false, arith, ltb, within, fill,
  ◌==◌, if◌then◌else◌, Bool-cases, inl, inr,
}
use lazy_os.Kheap.{clear_memory}

-- The byte at an address.
unfoldable pub byte_at : (memory : ℕ → ℕ) → (address : ℕ) → ℕ
byte_at memory address = memory (address - address % 4) / 2 ^ (8 * (address % 4)) % 2 ^ 8

-- A number of bytes in a row is a number of words where it is a multiple of four.
pub clear_memory-fill :
    (memory : ℕ → ℕ) (ptr size : ℕ)
    → size % 4 ≡ 0
    → clear_memory memory ptr size ≡ fill memory ptr size 0
unfolding clear_memory
clear_memory-fill memory ptr size e =
    let whole : size - size % 4 ≡ size = omega arith in
    fun_ext λ a.
      rw (whole, e)
        (elim (Bool-cases (ptr + size == a)) [
          | inl next ↦ rw next (ground arith)
          | inr other ↦ rw other refl
        ])

by_four {ℓ} : (P : ℕ → Type ℓ) (r : ℕ) → r < 4 → P 0 → P 1 → P 2 → P 3 → P r
by_four P zero h a b c d = a
by_four P (suc zero) h a b c d = b
by_four P (suc (suc zero)) h a b c d = c
by_four P (suc (suc (suc zero))) h a b c d = d
by_four P (suc (suc (suc (suc r)))) h a b c d = absurd (omega arith)

zero_byte : (j : ℕ) → j < 4 → 0 / 2 ^ (8 * j) % 2 ^ 8 ≡ 0
zero_byte j h = by_four (λ j. 0 / 2 ^ (8 * j) % 2 ^ 8 ≡ 0) j h refl refl refl refl

-- The byte `j` of a word whose lowest `r` bytes are cleared.
abbrev IsZeroed : (w r j : ℕ) → Type 0
IsZeroed w r j =
    (w - w % 2 ^ (8 * r)) / 2 ^ (8 * j) % 2 ^ 8 ≡ (if ltb j r then 0 else w / 2 ^ (8 * j) % 2 ^ 8)

cleared_byte : (w r j : ℕ) → r < 4 → j < 4 → IsZeroed w r j
cleared_byte w r j p q =
    by_four (λ r. IsZeroed w r j) r p
      (by_four (λ j. IsZeroed w 0 j) j q (omega arith) (omega arith) (omega arith) (omega arith))
      (by_four (λ j. IsZeroed w 1 j) j q (omega arith) (omega arith) (omega arith) (omega arith))
      (by_four (λ j. IsZeroed w 2 j) j q (omega arith) (omega arith) (omega arith) (omega arith))
      (by_four (λ j. IsZeroed w 3 j) j q (omega arith) (omega arith) (omega arith) (omega arith))

-- From the address of a word on, exactly the bytes asked for are cleared.
pub clear_memory-byte_at :
    (memory : ℕ → ℕ) (ptr size b : ℕ)
    → ptr % 4 ≡ 0
    → byte_at (clear_memory memory ptr size) b ≡ (if within ptr size b then 0 else byte_at memory b)
unfolding byte_at clear_memory
clear_memory-byte_at memory ptr size b aligned =
    let a = b - b % 4 in
    let small : b % 4 < 4 = omega arith in
    elim (Bool-cases (within ptr (size - size % 4) a)) [
      | inl inside ↦
          let there : within ptr size b ≡ true = ground arith in
          rw (inside, there) (zero_byte (b % 4) small)
      | inr outside ↦ elim (Bool-cases (ptr + (size - size % 4) == a)) [
        | inl last ↦
            let same : within ptr size b ≡ ltb (b % 4) (size % 4) = ground arith in
            rw (outside, last, same)
              (cleared_byte (memory a) (size % 4) (b % 4) (omega arith) small)
        | inr other ↦
            let away : within ptr size b ≡ false = ground arith in rw (outside, other, away) refl
      ]
    ]
