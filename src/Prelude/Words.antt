-- ===== src/Prelude/Words.antt =====
-- 32-bit words. An `int` is its bit pattern below `2 ^ 32`.
use Prim.Native.Nat.{ℕ, ◌+◌, ◌-◌, ◌/◌, ◌%◌, ◌^◌, ◌<◌}
use mathlib.Core.Path.{◌≡◌, refl}
use mathlib.Core.Bool.{Bool, false}
use native.Mathlib.Omega.{arith}
use lazy_os.Prelude.Tests.{ltb, leb, if◌then◌else◌}

abbrev pub u32 : ℕ → ℕ
u32 x = x % 2 ^ 32

-- The pattern of `- n`.
abbrev pub neg : ℕ → ℕ
neg n = 2 ^ 32 - n

-- `a - b` on 32-bit words.
abbrev pub sub32 : ℕ → ℕ → ℕ
sub32 a b = (a + 2 ^ 32 - b) % 2 ^ 32

-- `x < 0` and `a <= b` on `int`.
abbrev pub is_negative : ℕ → Bool
is_negative x = leb (2 ^ 31) x

abbrev pub int_le : ℕ → ℕ → Bool
int_le a b = leb ((a + 2 ^ 31) % 2 ^ 32) ((b + 2 ^ 31) % 2 ^ 32)

abbrev pub int_lt : ℕ → ℕ → Bool
int_lt a b = ltb ((a + 2 ^ 31) % 2 ^ 32) ((b + 2 ^ 31) % 2 ^ 32)

-- On numbers below `2 ^ 31` the signed orders are those of the numbers.
pub int_le_small : (a b : ℕ) → a < 2 ^ 31 → b < 2 ^ 31 → int_le a b ≡ leb a b
int_le_small a b p q = ground arith

pub int_lt_small : (a b : ℕ) → a < 2 ^ 31 → b < 2 ^ 31 → int_lt a b ≡ ltb a b
int_lt_small a b p q = ground arith

-- `a / d` and `a % d` on `int`, for a positive `d`: the quotient is rounded towards 0.
abbrev pub int_div : ℕ → ℕ → ℕ
int_div a d = if is_negative a then (2 ^ 32 - sub32 0 a / d) % 2 ^ 32 else a / d

abbrev pub int_mod : ℕ → ℕ → ℕ
int_mod a d = if is_negative a then (2 ^ 32 - sub32 0 a % d) % 2 ^ 32 else a % d

pub int_div_small : (a d : ℕ) → a < 2 ^ 31 → int_div a d ≡ a / d
int_div_small a d h = let e : is_negative a ≡ false = ground arith in rw e refl

pub int_mod_small : (a d : ℕ) → a < 2 ^ 31 → int_mod a d ≡ a % d
int_mod_small a d h = let e : is_negative a ≡ false = ground arith in rw e refl
