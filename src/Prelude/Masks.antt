-- ===== src/Prelude/Masks.antt =====
-- Laws of `bit_and` and `bit_or` at variables, from the recursion on binary digits.
use Prim.Native.Nat.{
  ℕ, zero, suc, ◌+◌, ◌-◌, ◌*◌, ◌/◌, ◌%◌, ◌^◌, ◌≤◌, ◌<◌, min, max, bit_and, bit_or, digits,
  bit_and-bitwise, bit_or-bitwise,
}
use mathlib.Core.Path.{◌≡◌, refl, ◌∙◌}
use native.Mathlib.Omega.{arith}

-- The count of digits to go does not matter once it is at least the number.
digits_fuel :
    (z : ℕ → ℕ) (f : ℕ → ℕ → ℕ) (n m a b : ℕ) → a ≤ n → a ≤ m → digits z f n a b ≡ digits z f m a b
digits_fuel z f zero zero a b p q = refl
digits_fuel z f zero (suc m) zero b p q = refl
digits_fuel z f zero (suc m) (suc a) b p q = absurd (omega arith)
digits_fuel z f (suc n) zero zero b p q = refl
digits_fuel z f (suc n) zero (suc a) b p q = absurd (omega arith)
digits_fuel z f (suc n) (suc m) zero b p q = refl
digits_fuel z f (suc n) (suc m) (suc a) b p q =
    omega (arith, digits_fuel z f n m (suc a / 2) (b / 2) (omega arith) (omega arith))

and_zero_left : (b : ℕ) → bit_and 0 b ≡ 0
and_zero_left b = bit_and-bitwise 0 b

or_zero_left : (b : ℕ) → bit_or 0 b ≡ b
or_zero_left b = bit_or-bitwise 0 b

pub bit_and_step : (a b : ℕ) → bit_and a b ≡ 2 * bit_and (a / 2) (b / 2) + min (a % 2) (b % 2)
bit_and_step zero b = omega (arith, and_zero_left b, and_zero_left (b / 2))
bit_and_step (suc a) b =
    let h = suc a / 2 in
    omega (
      arith,
      bit_and-bitwise (suc a) b,
      bit_and-bitwise h (b / 2),
      digits_fuel (λ b. 0) min a h h (b / 2) (omega arith) (omega arith),
    )

pub bit_or_step : (a b : ℕ) → bit_or a b ≡ 2 * bit_or (a / 2) (b / 2) + max (a % 2) (b % 2)
bit_or_step zero b = omega (arith, or_zero_left b, or_zero_left (b / 2))
bit_or_step (suc a) b =
    let h = suc a / 2 in
    omega (
      arith,
      bit_or-bitwise (suc a) b,
      bit_or-bitwise h (b / 2),
      digits_fuel (λ b. b) max a h h (b / 2) (omega arith) (omega arith),
    )

and_zero_below : (n a : ℕ) → a ≤ n → bit_and a 0 ≡ 0
and_zero_below n zero h = refl
and_zero_below zero (suc a) h = absurd (omega arith)
and_zero_below (suc n) (suc a) h =
    omega (arith, bit_and_step (suc a) 0, and_zero_below n (suc a / 2) (omega arith))

pub bit_and-zero : (a : ℕ) → bit_and a 0 ≡ 0
bit_and-zero a = and_zero_below a a (omega arith)

or_zero_below : (n a : ℕ) → a ≤ n → bit_or a 0 ≡ a
or_zero_below n zero h = refl
or_zero_below zero (suc a) h = absurd (omega arith)
or_zero_below (suc n) (suc a) h =
    omega (arith, bit_or_step (suc a) 0, or_zero_below n (suc a / 2) (omega arith))

pub bit_or-zero : (a : ℕ) → bit_or a 0 ≡ a
bit_or-zero a = or_zero_below a a (omega arith)

-- `k` ones, `k` doublings and `k` halvings.
abbrev pub ones : ℕ → ℕ
ones zero = 0
ones (suc k) = 2 * ones k + 1

abbrev pub shift_left : ℕ → ℕ → ℕ
shift_left zero x = x
shift_left (suc k) x = 2 * shift_left k x

abbrev pub shift_right : ℕ → ℕ → ℕ
shift_right zero x = x
shift_right (suc k) x = shift_right k (x / 2)

pub bit_and-ones : (k x : ℕ) → x ≤ ones k → bit_and x (ones k) ≡ x
bit_and-ones zero x h = bit_and-zero x ∙ omega arith
bit_and-ones (suc k) x h =
    let half : (2 * ones k + 1) / 2 ≡ ones k = omega arith in
    bit_and_step x (2 * ones k + 1) ∙ rw (half, bit_and-ones k (x / 2) (omega arith)) (omega arith)

pub bit_and-shift_left :
    (k x m : ℕ) → bit_and x (shift_left k m) ≡ shift_left k (bit_and (shift_right k x) m)
bit_and-shift_left zero x m = refl
bit_and-shift_left (suc k) x m =
    let half : 2 * shift_left k m / 2 ≡ shift_left k m = omega arith in
    bit_and_step x (2 * shift_left k m) ∙ rw (half, bit_and-shift_left k (x / 2) m) (omega arith)

pub bit_or-shift_left : (k q r : ℕ) → r ≤ ones k → bit_or (shift_left k q) r ≡ shift_left k q + r
bit_or-shift_left zero q r h = let e : r ≡ 0 = omega arith in rw e (bit_or-zero q ∙ omega arith)
bit_or-shift_left (suc k) q r h =
    let half : 2 * shift_left k q / 2 ≡ shift_left k q = omega arith in
    bit_or_step (2 * shift_left k q) r
    ∙ rw (half, bit_or-shift_left k q (r / 2) (omega arith)) (omega arith)

-- A mask of `k` ones takes the lowest bits.
bit_and-low : (k x : ℕ) → bit_and x (ones k) + shift_left k (shift_right k x) ≡ x
bit_and-low zero x = rw (bit_and-zero x) (omega arith)
bit_and-low (suc k) x =
    let half : (2 * ones k + 1) / 2 ≡ ones k = omega arith in
    rw (bit_and_step x (2 * ones k + 1), half) (omega (arith, bit_and-low k (x / 2)))

pub bit_and-word : (x : ℕ) → bit_and x 0xffff ≡ x % 2 ^ 16
bit_and-word x =
    let sixteen : shift_left 16 (shift_right 16 x) ≡ 2 ^ 16 * (x / 2 ^ 16) = omega arith in
    omega (arith, bit_and-low 16 x, sixteen)

pub bit_and-byte : (x : ℕ) → bit_and x 0xff ≡ x % 2 ^ 8
bit_and-byte x =
    let eight : shift_left 8 (shift_right 8 x) ≡ 2 ^ 8 * (x / 2 ^ 8) = omega arith in
    omega (arith, bit_and-low 8 x, eight)

-- The masks of page addresses: `x & 1`, `x & 0xfffff000`, and flags below a page address.
pub bit_and-one : (x : ℕ) → bit_and x 1 ≡ x % 2
bit_and-one x = bit_and_step x 1 ∙ rw (bit_and-zero (x / 2)) (omega arith)

pub bit_and-page : (x : ℕ) → x < 2 ^ 32 → bit_and x 0xfffff000 ≡ x - x % 4096
bit_and-page x h =
    let twelve : shift_right 12 x ≡ x / 4096 = omega arith in
    bit_and-shift_left 12 x 0xfffff
    ∙ rw twelve (rw (bit_and-ones 20 (x / 4096) (omega arith)) (omega arith))

pub bit_or-page : (q r : ℕ) → r < 4096 → bit_or (4096 * q) r ≡ 4096 * q + r
bit_or-page q r h =
    let twelve : shift_left 12 q ≡ 4096 * q = omega arith in
    rw twelve at (bit_or-shift_left 12 q r (omega arith))

bit_and-below : (k q : ℕ) → bit_and (shift_left k q) (ones k) ≡ 0
bit_and-below zero q = bit_and-zero q
bit_and-below (suc k) q =
    let half : 2 * shift_left k q / 2 ≡ shift_left k q = omega arith in
    let mask : (2 * ones k + 1) / 2 ≡ ones k = omega arith in
    bit_and_step (2 * shift_left k q) (2 * ones k + 1)
    ∙ rw (half, mask, bit_and-below k q) (omega arith)

pub bit_and-offset : (x : ℕ) → x % 4096 ≡ 0 → bit_and x 0xfff ≡ 0
bit_and-offset x h =
    let twelve : shift_left 12 (x / 4096) ≡ x = omega arith in
    rw twelve at (bit_and-below 12 (x / 4096))

bit_or-low :
    (k q r f : ℕ)
    → r ≤ ones k
    → f ≤ ones k
    → bit_or (shift_left k q + r) f ≡ shift_left k q + bit_or r f
bit_or-low zero q r f h g =
    let r0 : r ≡ 0 = omega arith in
    let f0 : f ≡ 0 = omega arith in rw (r0, f0) (bit_or-zero (q + 0))
bit_or-low (suc k) q r f h g =
    let half : (2 * shift_left k q + r) / 2 ≡ shift_left k q + r / 2 = omega arith in
    bit_or_step (2 * shift_left k q + r) f
    ∙ rw (half, bit_or-low k q (r / 2) (f / 2) (omega arith) (omega arith))
        (omega (arith, bit_or_step r f))

-- Flags are set below a page address.
pub bit_or-flags :
    (q r f : ℕ) → r < 4096 → f < 4096 → bit_or (4096 * q + r) f ≡ 4096 * q + bit_or r f
bit_or-flags q r f h g =
    let twelve : shift_left 12 q ≡ 4096 * q = omega arith in
    rw twelve at (bit_or-low 12 q r f (omega arith) (omega arith))
