-- ===== src/Memory/Laws.antt =====
-- What `memset` writes and `memcmp` decides.
use lazy_os.Prelude.{
  ℕ, zero, suc, ◌+◌, ◌%◌, ◌≤◌, ◌<◌, ◌≡◌, ◌≢◌, inl, inr, true, false, arith, ◌==◌, if◌then◌else◌,
  update, fill, neg, Bool-cases,
}
use lazy_os.Memory.{memset_loop, memset, char_lt, memcmp_from, memcmp}

memset_loop_lem :
    (k : ℕ) (region : ℕ → ℕ) (i c j : ℕ) → memset_loop k region i c j ≡ fill region i k (c % 256) j
unfolding memset_loop
memset_loop_lem zero region i c j = ground arith
memset_loop_lem (suc k) region i c j =
    ground (arith, memset_loop_lem k (update region i (c % 256)) (i + 1) c j)

-- `memset` sets the first `size` bytes to the value's lowest byte and leaves the others.
pub memset_lem :
    (region : ℕ → ℕ) (c size j : ℕ) → memset region c size j ≡ fill region 0 size (c % 256) j
unfolding memset
memset_lem region c size j = memset_loop_lem size region 0 c j

memcmp_from-zero :
    (num : ℕ) (ptr1 ptr2 : ℕ → ℕ) (i j : ℕ)
    → memcmp_from num ptr1 ptr2 i ≡ 0
    → i ≤ j
    → j < i + num
    → ptr1 j ≡ ptr2 j
unfolding memcmp_from
memcmp_from-zero zero ptr1 ptr2 i j e p q = absurd (omega arith)
memcmp_from-zero (suc num) ptr1 ptr2 i j e p q =
    ground (arith, memcmp_from-zero num ptr1 ptr2 (i + 1) j)

memcmp_from-first :
    (num : ℕ) (ptr1 ptr2 : ℕ → ℕ) (i k : ℕ)
    → i ≤ k
    → k < i + num
    → ((j : ℕ) → i ≤ j → j < k → ptr1 j ≡ ptr2 j)
    → (ptr1 k == ptr2 k) ≡ false
    → memcmp_from num ptr1 ptr2 i ≡ (if char_lt (ptr1 k) (ptr2 k) then neg 1 else 1)
unfolding memcmp_from
memcmp_from-first zero ptr1 ptr2 i k p q same ne = absurd (omega arith)
memcmp_from-first (suc num) ptr1 ptr2 i k p q same ne = elim (Bool-cases (i == k)) [
  | inl e ↦ let e' : i ≡ k = ground arith in rw (e', ne)
  | inr e ↦
      let lt : i < k = ground arith in
      let here : (ptr1 i == ptr2 i) ≡ true = rw (same i (omega arith) lt) (ground arith) in
      rw here (
        memcmp_from-first num ptr1 ptr2 (i + 1) k (omega arith) (omega arith)
          (λ j r s. same j (omega arith) s) ne)
]

-- `memcmp` returns 0 only if all the bytes compared agree.
pub memcmp-zero :
    (ptr1 ptr2 : ℕ → ℕ) (num j : ℕ) → memcmp ptr1 ptr2 num ≡ 0 → j < num → ptr1 j ≡ ptr2 j
unfolding memcmp
memcmp-zero ptr1 ptr2 num j e h = memcmp_from-zero num ptr1 ptr2 0 j e (omega arith) (omega arith)

-- At the first byte that differs `memcmp` returns the order of the two bytes as signed chars.
pub memcmp-first :
    (ptr1 ptr2 : ℕ → ℕ) (num k : ℕ)
    → k < num
    → ((j : ℕ) → j < k → ptr1 j ≡ ptr2 j)
    → ptr1 k ≢ ptr2 k
    → memcmp ptr1 ptr2 num ≡ (if char_lt (ptr1 k) (ptr2 k) then neg 1 else 1)
unfolding memcmp
memcmp-first ptr1 ptr2 num k h same ne =
    memcmp_from-first num ptr1 ptr2 0 k (omega arith) (omega arith) (λ j p q. same j q)
      (ground arith)
