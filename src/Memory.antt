-- ===== src/Memory.antt =====
-- src/memory/memory.c: the byte loops. A region is a function from the offset to the byte, and the
-- comparison's result the pattern of an `int`.
pub mod Laws
mod Tests
use lazy_os.Prelude.{ℕ, zero, suc, ◌+◌, ◌%◌, Bool, ◌==◌, if◌then◌else◌, ltb, update, neg}

-- The loop of `memset` with `k` bytes left, from the byte `i`; the value is cast to `char`.
unfoldable pub memset_loop : (k : ℕ) → (ℕ → ℕ) → (i c : ℕ) → ℕ → ℕ
memset_loop zero region i c = region
memset_loop (suc k) region i c = memset_loop k (update region i (c % 256)) (i + 1) c

unfoldable pub memset : (ℕ → ℕ) → (c size : ℕ) → ℕ → ℕ
unfolding memset_loop
memset region c size = memset_loop size region 0 c

-- A `char` is signed: the order of two bytes is that of their values moved by 128.
unfoldable pub char_lt : ℕ → ℕ → Bool
char_lt a b = ltb ((a + 128) % 256) ((b + 128) % 256)

-- The loop of `memcmp` with `num` bytes left, from the byte `i`.
unfoldable pub memcmp_from : (num : ℕ) → (ptr1 ptr2 : ℕ → ℕ) → (i : ℕ) → ℕ
unfolding char_lt
memcmp_from zero ptr1 ptr2 i = 0
memcmp_from (suc num) ptr1 ptr2 i =
    let rest = memcmp_from num ptr1 ptr2 (i + 1) in
    if ptr1 i == ptr2 i then rest else if char_lt (ptr1 i) (ptr2 i) then neg 1 else 1

unfoldable pub memcmp : (ptr1 ptr2 : ℕ → ℕ) → (num : ℕ) → ℕ
unfolding memcmp_from
memcmp ptr1 ptr2 num = memcmp_from num ptr1 ptr2 0
