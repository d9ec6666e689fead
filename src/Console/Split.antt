-- ===== src/Console/Split.antt =====
-- The words of a line.
use lazy_os.Prelude.{ℕ, zero, suc, ◌+◌, ◌<◌, ◌≡◌, ◌≢◌, refl, false, arith, ◌==◌, update, some, none}
use lazy_os.Console.{split, split_loop, buffer_size}

-- The first `n` characters from `i` on are neither spaces nor null characters.
abbrev pub IsWord : (buff : ℕ → ℕ) → (i n : ℕ) → Type 0
IsWord buff i n = (j : ℕ) → j < n → (buff (i + j) ≢ 0) × (buff (i + j) ≢ 32)

split_loop_lem :
    (k : ℕ) (buff : ℕ → ℕ) (i n : ℕ)
    → IsWord buff i n
    → n < k
    → (buff (i + n) ≡ 32 → split_loop k buff i ≡ (update buff (i + n) 0, some (i + n + 1)))
      × (buff (i + n) ≡ 0 → split_loop k buff i ≡ (buff, none))
unfolding split_loop
split_loop_lem zero buff i n word h = absurd (omega arith)
split_loop_lem (suc k) buff i zero word h =
    let z : i + 0 ≡ i = omega arith in
    (λ space. let at = rw z at space in rw (z, at) refl, λ end. let at = rw z at end in rw at refl)
split_loop_lem (suc k) buff i (suc n) word h =
    let z : i + 0 ≡ i = omega arith in
    let first = rw z at (word 0 (omega arith)) in
    let a : (buff i == 0) ≡ false = ground (arith, first.0) in
    let b : (buff i == 32) ≡ false = ground (arith, first.1) in
    let place : i + 1 + n ≡ i + suc n = omega arith in
    let word' : IsWord buff (i + 1) n =
      λ j lt. let e : i + 1 + j ≡ i + suc j = omega arith in rw e (word (suc j) (omega arith)) in
    let rest = rw place at (split_loop_lem k buff (i + 1) n word' (omega arith)) in
    (λ space. rw (a, b) (rest.0 space), λ end. rw (a, b) (rest.1 end))

split_loop-start :
    (k : ℕ) (buff : ℕ → ℕ) (n : ℕ)
    → IsWord buff 0 n
    → n < k
    → (buff n ≡ 32 → split_loop k buff 0 ≡ (update buff n 0, some (n + 1)))
      × (buff n ≡ 0 → split_loop k buff 0 ≡ (buff, none))
split_loop-start k buff n word h =
    let z : 0 + n ≡ n = omega arith in rw z at (split_loop_lem k buff 0 n word h)

-- A line whose first word has `n` characters is cut behind that word. Where a space follows it, the
-- second word begins behind the space; where the line ends there, there is no second word.
pub split_lem :
    (buff : ℕ → ℕ) (n : ℕ)
    → IsWord buff 0 n
    → n < buffer_size
    → (buff n ≡ 32 → split buff ≡ (update buff n 0, some (n + 1)))
      × (buff n ≡ 0 → split buff ≡ (buff, none))
unfolding split
split_lem buff n word h = split_loop-start buffer_size buff n word h
