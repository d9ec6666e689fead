-- ===== src/Clock/Digits.antt =====
-- The printed form of a byte, read back.
use lazy_os.Prelude.{
  ℕ, zero, suc, ◌+◌, ◌-◌, ◌*◌, ◌≤◌, ◌<◌, ◌≡◌, refl, ◌∙◌, true, false, arith, ◌==◌, leb, leb→le,
  if◌then◌else◌, update, Bool-cases, inl, inr,
}
use lazy_os.Prelude.Bytes.{all_below, all_below-lt}
use lazy_os.Clock.{convert_to_num, digits_loop, reverse_loop, itoa}

-- The decimal number that is read from `buf` at `j`, up to the null character: `k` characters at
-- most.
unfoldable pub read_number : (k : ℕ) → (buf : ℕ → ℕ) → (j acc : ℕ) → ℕ
read_number zero buf j acc = acc
read_number (suc k) buf j acc =
    let rest = read_number k buf (j + 1) (acc * 10 + (buf j - 48)) in
    if buf j == 0 then acc else rest

itoa_table :
    (tmp buf : ℕ → ℕ) → all_below 256 (λ num. read_number 4 (itoa num tmp buf) 0 0 == num) ≡ true
unfolding all_below itoa digits_loop reverse_loop read_number
itoa_table tmp buf = refl

count_table : (tmp : ℕ → ℕ) → all_below 256 (λ num. leb (digits_loop 4 num tmp 0).0 3) ≡ true
unfolding all_below digits_loop
count_table tmp = refl

bcd_table : all_below 10 (λ t. all_below 10 λ u. convert_to_num (t * 16 + u) == t * 10 + u) ≡ true
unfolding all_below convert_to_num
bcd_table = refl

reverse_loop-outside :
    (k : ℕ) (tmp buf : ℕ → ℕ) (j m : ℕ) → j + k < m → reverse_loop k tmp buf j m ≡ buf m
unfolding reverse_loop
reverse_loop-outside zero tmp buf j m h =
    let apart : (j == m) ≡ false = ground arith in rw apart refl
reverse_loop-outside (suc k) tmp buf j m h =
    let apart : (j == m) ≡ false = ground arith in
    reverse_loop-outside k tmp (update buf j (tmp k)) (j + 1) m (omega arith) ∙ rw apart refl

itoa-outside : (num : ℕ) (tmp buf : ℕ → ℕ) (j : ℕ) → num < 256 → 4 ≤ j → itoa num tmp buf j ≡ buf j
unfolding itoa
itoa-outside num tmp buf j h p =
    let count = leb→le _ _ (all_below-lt 256 _ num (count_table tmp) h) in
    elim (Bool-cases (num == 0)) [
      | inl e ↦ rw e (ground arith)
      | inr e ↦ rw e (
          reverse_loop-outside (digits_loop 4 num tmp 0).0 (digits_loop 4 num tmp 0).1 buf 0 j
            (omega arith))
    ]

==→≡ : (a b : ℕ) → (a == b) ≡ true → a ≡ b
==→≡ a b h = ground arith

pub convert_to_num_lem : (t u : ℕ) → t < 10 → u < 10 → convert_to_num (t * 16 + u) ≡ t * 10 + u
convert_to_num_lem t u p q = ==→≡ _ _ (all_below-lt 10 _ u (all_below-lt 10 _ t bcd_table p) q)

-- For a BCD byte of the digits `t` and `u` the printed form of its number reads back as the number
-- of those digits.
pub itoa-convert_to_num :
    (t u : ℕ) (tmp buf : ℕ → ℕ)
    → t < 10
    → u < 10
    → read_number 4 (itoa (convert_to_num (t * 16 + u)) tmp buf) 0 0 ≡ t * 10 + u
itoa-convert_to_num t u tmp buf p q =
    rw (convert_to_num_lem t u p q)
      (==→≡ _ _ (all_below-lt 256 _ (t * 10 + u) (itoa_table tmp buf) (omega arith)))

-- The printed form of a byte reads back as that byte, and `itoa` writes nothing past the first
-- four cells of the buffer.
pub itoa_lem :
    (num : ℕ) (tmp buf : ℕ → ℕ)
    → num < 256
    → (read_number 4 (itoa num tmp buf) 0 0 ≡ num) × ((j : ℕ) → 4 ≤ j → itoa num tmp buf j ≡ buf j)
itoa_lem num tmp buf h = (
  ==→≡ _ _ (all_below-lt 256 _ num (itoa_table tmp buf) h),
  λ j p. itoa-outside num tmp buf j h p,
)
