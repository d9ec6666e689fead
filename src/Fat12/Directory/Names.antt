-- ===== src/Fat12/Directory/Names.antt =====
-- The search for a name.
use lazy_os.Prelude.{
  ℕ, zero, suc, ◌+◌, ◌<◌, ◌≤◌, ◌≡◌, refl, ◌↔◌, true, false, arith, ◌==◌, Option, none, some,
  Bool-cases, inl, inr, Bool,
}
use lazy_os.Str.{strnlen}
use lazy_os.Fat12.Directory.{comp_loop, comp_file_name, find_file, entry}

-- The first of the entries from `lo` to `hi` that matches.
abbrev pub matches : (dir name : ℕ → ℕ) → (i : ℕ) → Bool
matches dir name i = comp_file_name (λ j. dir (entry i + j)) name

abbrev pub IsFirst : (dir name : ℕ → ℕ) → (lo hi : ℕ) → Option ℕ → Type 0
IsFirst dir name lo hi none = (j : ℕ) → lo ≤ j → j < hi → matches dir name j ≡ false
IsFirst dir name lo hi (some i) =
    (lo ≤ i)
    × (i < hi)
    × (matches dir name i ≡ true)
    × ((j : ℕ) → lo ≤ j → j < i → matches dir name j ≡ false)

-- From an entry that does not match.
IsFirst-suc :
    (dir name : ℕ → ℕ) (lo hi : ℕ) (r : Option ℕ)
    → matches dir name lo ≡ false
    → IsFirst dir name (lo + 1) hi r
    → IsFirst dir name lo hi r
IsFirst-suc dir name lo hi none out later = λ j from to. elim (Bool-cases (j == lo)) [
  | inl here ↦ let e : j ≡ lo = ground arith in rw e out
  | inr past ↦ later j (ground arith) to
]
IsFirst-suc dir name lo hi (some i) out (from, to, found, before) = (
  omega arith,
  to,
  found,
  λ j from' to'. elim (Bool-cases (j == lo)) [
    | inl here ↦ let e : j ≡ lo = ground arith in rw e out
    | inr past ↦ before j (ground arith) to'
  ],
)

pub find_file-IsFirst :
    (k : ℕ) (dir name : ℕ → ℕ) (i : ℕ) → IsFirst dir name i (i + k) (find_file k dir name i)
unfolding find_file
find_file-IsFirst zero dir name i = λ j from to. absurd (omega arith)
find_file-IsFirst (suc k) dir name i = elim (Bool-cases (matches dir name i)) [
  | inl here ↦ rw here ((omega arith, omega arith, here, λ j from to. absurd (omega arith)))
  | inr out ↦
      let end : i + 1 + k ≡ i + suc k = omega arith in
      rw out (
        IsFirst-suc dir name i (i + suc k) (find_file k dir name (i + 1)) out
          (rw end at (find_file-IsFirst k dir name (i + 1))))
]

comp_loop_lem :
    (k : ℕ) (ptr1 ptr2 : ℕ → ℕ) (i : ℕ)
    → ((j : ℕ) → i ≤ j → j < i + k → ptr1 j ≡ ptr2 j)
    → comp_loop k ptr1 ptr2 i ≡ true
unfolding comp_loop
comp_loop_lem zero ptr1 ptr2 i same = refl
comp_loop_lem (suc k) ptr1 ptr2 i same =
    let self : (ptr2 i == ptr2 i) ≡ true = ground arith in
    rw (same i (omega arith) (omega arith), self)
      (comp_loop_lem k ptr1 ptr2 (i + 1) λ j from to. same j (omega arith) (omega arith))

comp_loop-agree :
    (k : ℕ) (ptr1 ptr2 : ℕ → ℕ) (i j : ℕ)
    → comp_loop k ptr1 ptr2 i ≡ true
    → i ≤ j
    → j < i + k
    → ptr1 j ≡ ptr2 j
unfolding comp_loop
comp_loop-agree zero ptr1 ptr2 i j e from to = absurd (omega arith)
comp_loop-agree (suc k) ptr1 ptr2 i j e from to = elim (Bool-cases (ptr1 i == ptr2 i)) [
  | inr apart ↦ absurd (let miss = rw apart at e in ground arith)
  | inl same ↦ elim (Bool-cases (j == i)) [
    | inl here ↦
        let e' : j ≡ i = ground arith in let cell : ptr1 i ≡ ptr2 i = ground arith in rw e' cell
    | inr past ↦ comp_loop-agree k ptr1 ptr2 (i + 1) j (rw same at e) (ground arith) (omega arith)
  ]
]

-- `comp_file_name` is true exactly if the characters of the second name, the first eight of them
-- at most, agree with those of the first name at their places.
pub comp_file_name_lem :
    (ptr1 ptr2 : ℕ → ℕ)
    → (comp_file_name ptr1 ptr2 ≡ true) ↔ ((j : ℕ) → j < strnlen ptr2 8 → ptr1 j ≡ ptr2 j)
unfolding comp_file_name
comp_file_name_lem ptr1 ptr2 = (
  λ e j h. comp_loop-agree (strnlen ptr2 8) ptr1 ptr2 0 j e (omega arith) (omega arith),
  λ same. comp_loop_lem (strnlen ptr2 8) ptr1 ptr2 0 λ j from to. same j (omega arith),
)
