-- ===== src/Prelude/Bytes.antt =====
-- Facts about the bits of a byte, checked for every byte.
use Prim.Native.Nat.{ℕ, zero, suc, ◌+◌, ◌-◌, ◌/◌, ◌^◌, ◌<◌, bit_and, bit_or, bit_xor}
use mathlib.Core.Path.{◌≡◌, refl}
use mathlib.Core.Bool.{Bool, true, false, ◌&&◌, ◌||◌, not}
use native.Mathlib.Omega.{arith}
use lazy_os.Prelude.Tests.{ltb, leb, ◌==◌, ==_iff, ltb→lt, if◌then◌else◌}

unfoldable pub all_below : ℕ → (ℕ → Bool) → Bool
all_below zero p = true
all_below (suc n) p = p n && all_below n p

pub all_below-lt : (n : ℕ) (p : ℕ → Bool) (x : ℕ) → all_below n p ≡ true → x < n → p x ≡ true
unfolding all_below
all_below-lt zero p x h lt = absurd (omega arith)
all_below-lt (suc n) p x h lt = ground (arith, all_below-lt n p x)

-- Bit `k` of `b` is set.
unfoldable pub test_bit : ℕ → ℕ → Bool
test_bit b k = bit_and (b / 2 ^ k) 1 == 1

-- Boolean equality of two tests.
abbrev pub agree : Bool → Bool → Bool
agree true b = b
agree false b = not b

pub agree-eq : (a b : Bool) → agree a b ≡ true → a ≡ b
agree-eq a b h = ground arith

-- `b | (1 << j)`
unfoldable pub set_bit : ℕ → ℕ → ℕ
set_bit b j = bit_or b (2 ^ j)

-- `b & ~(1 << j)`, where the complement is taken on an `int`.
unfoldable pub clear_bit : ℕ → ℕ → ℕ
clear_bit b j = bit_and b (bit_xor (2 ^ j) (2 ^ 32 - 1))

abbrev set_row : ℕ → ℕ → ℕ → Bool
set_row b j k = agree (test_bit (set_bit b j) k) ((j == k) || test_bit b k)

set_table : all_below 256 (λ b. all_below 8 λ j. all_below 8 (set_row b j)) ≡ true
unfolding all_below test_bit set_bit
set_table = refl

set_bytes : all_below 256 (λ b. all_below 8 λ j. ltb (set_bit b j) 256) ≡ true
unfolding all_below set_bit
set_bytes = refl

abbrev clear_row : ℕ → ℕ → ℕ → Bool
clear_row b j k = agree (test_bit (clear_bit b j) k) (not (j == k) && test_bit b k)

clear_table : all_below 256 (λ b. all_below 8 λ j. all_below 8 (clear_row b j)) ≡ true
unfolding all_below test_bit clear_bit
clear_table = refl

clear_bytes : all_below 256 (λ b. all_below 8 λ j. ltb (clear_bit b j) 256) ≡ true
unfolding all_below clear_bit
clear_bytes = refl

pub set_bit-lt : (b j : ℕ) → b < 256 → j < 8 → set_bit b j < 256
set_bit-lt b j p q = ltb→lt _ _ (all_below-lt 8 _ j (all_below-lt 256 _ b set_bytes p) q)

pub test_bit-set_bit :
    (b j k : ℕ) → b < 256 → j < 8 → k < 8 → test_bit (set_bit b j) k ≡ ((j == k) || test_bit b k)
test_bit-set_bit b j k p q r =
    agree-eq _ _
      (all_below-lt 8 (set_row b j) k (all_below-lt 8 _ j (all_below-lt 256 _ b set_table p) q) r)

pub clear_bit-lt : (b j : ℕ) → b < 256 → j < 8 → clear_bit b j < 256
clear_bit-lt b j p q = ltb→lt _ _ (all_below-lt 8 _ j (all_below-lt 256 _ b clear_bytes p) q)

pub test_bit-clear_bit :
    (b j k : ℕ)
    → b < 256
    → j < 8
    → k < 8
    → test_bit (clear_bit b j) k ≡ (not (j == k) && test_bit b k)
test_bit-clear_bit b j k p q r =
    agree-eq _ _ (
      all_below-lt 8 (clear_row b j) k (all_below-lt 8 _ j (all_below-lt 256 _ b clear_table p) q)
        r)

-- The lowest bit that is clear, from bit `j` on with `k` bits left: the loop's
-- `(inverted >> j) & 1`.
unfoldable pub low_clear : (k : ℕ) → (inverted j : ℕ) → ℕ
low_clear zero inverted j = j
low_clear (suc k) inverted j =
    let rest = low_clear k inverted (j + 1) in if bit_and (inverted / 2 ^ j) 1 == 0 then rest else j

abbrev low : ℕ → ℕ
low b = low_clear 8 (bit_xor b 255) 0

low_inside : all_below 255 (λ b. ltb (low b) 8) ≡ true
unfolding all_below low_clear
low_inside = refl

low_free : all_below 255 (λ b. not (test_bit b (low b))) ≡ true
unfolding all_below test_bit low_clear
low_free = refl

abbrev low_row : ℕ → ℕ → Bool
low_row b k = leb (low b) k || test_bit b k

low_table : all_below 255 (λ b. all_below 8 (low_row b)) ≡ true
unfolding all_below test_bit low_clear
low_table = refl

-- Bit `j` is the lowest clear bit of a byte.
pub record IsLowClear (b j : ℕ) : Type 0 where
  pub inside : j < 8
  pub clear : test_bit b j ≡ false
  pub lower : (k : ℕ) → k < j → test_bit b k ≡ true

pub low_clear-IsLowClear : (b : ℕ) → b < 255 → IsLowClear b (low_clear 8 (bit_xor b 255) 0)
low_clear-IsLowClear b p =
    let inside = ltb→lt _ _ (all_below-lt 255 _ b low_inside p) in
    let free = all_below-lt 255 _ b low_free p in
    record {
      inside = inside;
      clear = ground arith;
      lower = λ k q.
          let bit = all_below-lt 8 (low_row b) k (all_below-lt 255 _ b low_table p) (omega arith) in
          ground arith;
    }

full_table : all_below 256 (λ b. bit_or (bit_or b 1) 0xFE == 255) ≡ true
unfolding all_below
full_table = refl

pub bit_or-full : (b : ℕ) → b < 256 → bit_or (bit_or b 1) 0xFE ≡ 255
bit_or-full b p = (==_iff _ _).0 (all_below-lt 256 _ b full_table p)

full_bits : all_below 8 (test_bit 255) ≡ true
unfolding all_below test_bit
full_bits = refl

pub test_bit-full : (k : ℕ) → k < 8 → test_bit 255 k ≡ true
test_bit-full k p = all_below-lt 8 _ k full_bits p
