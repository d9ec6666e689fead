-- ===== src/Prelude/Arrays.antt =====
-- A region of memory as a function from the index to the cell: a write changes one cell, and an
-- index out of an array's range names a cell outside that array.
use Prim.Native.Nat.{ℕ, zero, suc, ◌+◌, ◌-◌}
use mathlib.Core.Path.{◌≡◌, refl}
use mathlib.Core.Logic.{inl, inr}
use native.Mathlib.Omega.{arith}
use mathlib.Core.Bool.{Bool, true, false, ◌&&◌}
use lazy_os.Prelude.Tests.{ltb, leb, ◌==◌, if◌then◌else◌, Bool-cases}

-- `a[i] = v`
abbrev pub update {ℓ} : {A : Type ℓ} → (ℕ → A) → ℕ → A → ℕ → A
update a i v j = if i == j then v else a j

-- `lo ≤ j < lo + n`
abbrev pub within : ℕ → ℕ → ℕ → Bool
within lo n j = leb lo j && ltb j (lo + n)

-- The cells of `n` indices from `lo` on are set to `v`.
abbrev pub fill {ℓ} : {A : Type ℓ} → (ℕ → A) → ℕ → ℕ → A → ℕ → A
fill a lo n v j = if within lo n j then v else a j

-- `n` cells of `from`, from `i` on, are copied to `to`, from `j` on, one after the other.
unfoldable pub copy {ℓ} :
    {A : Type ℓ} → (n : ℕ) → (from : ℕ → A) → (i : ℕ) → (to : ℕ → A) → (j : ℕ) → ℕ → A
copy zero from i to j = to
copy (suc n) from i to j = copy n from (i + 1) (update to j (from i)) (j + 1)

pub copy_lem :
    (n : ℕ) (from : ℕ → ℕ) (i : ℕ) (to : ℕ → ℕ) (j k : ℕ)
    → copy n from i to j k ≡ (if within j n k then from (i + (k - j)) else to k)
unfolding copy
copy_lem zero from i to j k = ground arith
copy_lem (suc n) from i to j k = elim (Bool-cases (j == k)) [
  | inl e ↦
      let e' : k ≡ j = ground arith in
      let here : within j (suc n) j ≡ true = ground arith in
      let past : within (j + 1) n j ≡ false = ground arith in
      let zero' : i + (j - j) ≡ i = omega arith in
      let self : (j == j) ≡ true = ground arith in
      rw (e', copy_lem n from (i + 1) (update to j (from i)) (j + 1) j, here, past, zero', self)
        refl
  | inr ne ↦
      let same : within j (suc n) k ≡ within (j + 1) n k = ground arith in
      rw (same, copy_lem n from (i + 1) (update to j (from i)) (j + 1) k)
        (elim (Bool-cases (within (j + 1) n k)) [
          | inl here ↦
              let shift : i + 1 + (k - (j + 1)) ≡ i + (k - j) = ground arith in
              rw (here, shift) refl
          | inr out ↦ rw (out, ne) refl
        ])
]
