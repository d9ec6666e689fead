-- ===== src/Str/Compare.antt =====
-- What `strcomp` decides.
use lazy_os.Prelude.{
  ℕ, zero, suc, ◌+◌, ◌<◌, ◌≡◌, ◌≢◌, refl, ◌∙◌, Bool, true, false, ◌&&◌, arith, ◌==◌, Bool-cases,
  inl, inr,
}
use lazy_os.Str.{strlen_loop, strlen, strcomp_loop, strcomp}

-- From `i` on the string has `n` characters and then the null character.
pub record IsString (str : ℕ → ℕ) (i n : ℕ) : Type 0 where
  pub ended : str (i + n) ≡ 0
  pub inside : (j : ℕ) → j < n → str (i + j) ≢ 0

-- The `n` characters from `i` on agree.
unfoldable pub agree_from : (n : ℕ) → (str1 str2 : ℕ → ℕ) → (i : ℕ) → Bool
agree_from zero str1 str2 i = true
agree_from (suc n) str1 str2 i = (str1 i == str2 i) && agree_from n str1 str2 (i + 1)

IsString-next : (str : ℕ → ℕ) (i n : ℕ) → IsString str i (suc n) → IsString str (i + 1) n
IsString-next str i n s = record {
  ended = let e : i + 1 + n ≡ i + suc n = omega arith in rw e s.ended;
  inside =
      λ j h. let e : i + 1 + j ≡ i + suc j = omega arith in rw e (s.inside (suc j) (omega arith));
}

IsString-head : (str : ℕ → ℕ) (i n : ℕ) → IsString str i (suc n) → (str i == 0) ≡ false
IsString-head str i n s =
    let e : i + 0 ≡ i = omega arith in
    let ne : str i ≢ 0 = rw e at (s.inside 0 (omega arith)) in ground arith

IsString-last : (str : ℕ → ℕ) (i : ℕ) → IsString str i 0 → (str i == 0) ≡ true
IsString-last str i s =
    let e : i + 0 ≡ i = omega arith in let z : str i ≡ 0 = rw e at s.ended in ground arith

strlen_loop_lem :
    (fuel : ℕ) (str : ℕ → ℕ) (i n : ℕ)
    → IsString str i n
    → n < fuel
    → strlen_loop fuel str i ≡ i + n
unfolding strlen_loop
strlen_loop_lem zero str i n s h = absurd (omega arith)
strlen_loop_lem (suc fuel) str i zero s h = rw (IsString-last str i s) (omega arith)
strlen_loop_lem (suc fuel) str i (suc n) s h =
    let ih = strlen_loop_lem fuel str (i + 1) n (IsString-next str i n s) (omega arith) in
    rw (IsString-head str i n s) (omega arith)

strcomp_loop_lem :
    (fuel : ℕ) (str1 str2 : ℕ → ℕ) (i n : ℕ)
    → IsString str1 i n
    → IsString str2 i n
    → n < fuel
    → strcomp_loop fuel str1 str2 i ≡ agree_from n str1 str2 i
unfolding strcomp_loop agree_from
strcomp_loop_lem zero str1 str2 i n s t h = absurd (omega arith)
strcomp_loop_lem (suc fuel) str1 str2 i zero s t h =
    rw (IsString-last str1 i s, IsString-last str2 i t) refl
strcomp_loop_lem (suc fuel) str1 str2 i (suc n) s t h =
    let ih =
      strcomp_loop_lem fuel str1 str2 (i + 1) n (IsString-next str1 i n s)
        (IsString-next str2 i n t) (omega arith) in
    rw (IsString-head str1 i n s, ih)
      (elim (Bool-cases (str1 i == str2 i)) [ inl e ↦ rw e refl | inr e ↦ rw e refl ])

-- For two strings whose lengths are below the fuel, `strcomp` is true exactly if the lengths and
-- all the characters agree.
pub strcomp_lem :
    (fuel : ℕ) (str1 str2 : ℕ → ℕ) (n1 n2 : ℕ)
    → IsString str1 0 n1
    → IsString str2 0 n2
    → n1 < fuel
    → n2 < fuel
    → strcomp fuel str1 str2 ≡ (n1 == n2) && agree_from n1 str1 str2 0
unfolding strcomp strlen
strcomp_lem fuel str1 str2 n1 n2 s t h1 h2 =
    let len1 : strlen_loop fuel str1 0 ≡ n1 = strlen_loop_lem fuel str1 0 n1 s h1 ∙ omega arith in
    let len2 : strlen_loop fuel str2 0 ≡ n2 = strlen_loop_lem fuel str2 0 n2 t h2 ∙ omega arith in
    rw (len1, len2)
      (elim (Bool-cases (n1 == n2)) [
        | inl e ↦
            let e' : n2 ≡ n1 = ground arith in
            rw (e, strcomp_loop_lem fuel str1 str2 0 n1 s (rw e' at t) h1) refl
        | inr e ↦ rw e refl
      ])
