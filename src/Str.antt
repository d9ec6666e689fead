-- ===== src/Str.antt =====
-- src/str/str.c: strings as functions from the index to the character, which end at the first null
-- character. The loops without a bound run on fuel.
pub mod Compare
mod Tests
use lazy_os.Prelude.{
  ℕ, zero, suc, ◌+◌, ◌-◌, ◌^◌, Bool, true, false, not, ◌&&◌, ◌==◌, if◌then◌else◌, ltb, leb, sub32,
}

-- The loop of `strlen`, at the length `len`.
unfoldable pub strlen_loop : (fuel : ℕ) → (ℕ → ℕ) → (len : ℕ) → ℕ
strlen_loop zero str len = len
strlen_loop (suc fuel) str len =
    let rest = strlen_loop fuel str (len + 1) in if str len == 0 then len else rest

unfoldable pub strlen : (fuel : ℕ) → (ℕ → ℕ) → ℕ
strlen fuel str = strlen_loop fuel str 0

-- The loop of `strnlen`, with `k` characters left, from the character `i`.
unfoldable pub strnlen_loop : (k : ℕ) → (ℕ → ℕ) → (i : ℕ) → ℕ
strnlen_loop zero ch i = i
strnlen_loop (suc k) ch i = let rest = strnlen_loop k ch (i + 1) in if ch i == 0 then i else rest

unfoldable pub strnlen : (ℕ → ℕ) → (max : ℕ) → ℕ
strnlen ch max = strnlen_loop max ch 0

-- The loop of `strcomp`, at the character `i`.
unfoldable pub strcomp_loop : (fuel : ℕ) → (str1 str2 : ℕ → ℕ) → (i : ℕ) → Bool
strcomp_loop zero str1 str2 i = true
strcomp_loop (suc fuel) str1 str2 i =
    let rest = strcomp_loop fuel str1 str2 (i + 1) in
    if str1 i == 0 && str2 i == 0 then true else if str1 i == str2 i then rest else false

unfoldable pub strcomp : (fuel : ℕ) → (str1 str2 : ℕ → ℕ) → Bool
strcomp fuel str1 str2 =
    if strlen fuel str1 == strlen fuel str2 then strcomp_loop fuel str1 str2 0 else false

unfoldable pub is_digit : ℕ → Bool
is_digit ch = leb 48 ch && leb ch 57

-- A `char` above 127 is negative, with all the higher bits set.
unfoldable pub to_numberic_digit : ℕ → ℕ
to_numberic_digit ch =
    let char : ℕ = if leb 128 ch then ch + (2 ^ 32 - 2 ^ 8) else ch in sub32 char 48
