-- ===== src/Fat12/Directory/Create.antt =====
-- A file that is created is found by its name.
use lazy_os.Prelude.{
  ℕ, zero, suc, ◌+◌, ◌^◌, ◌<◌, ◌≤◌, ◌≡◌, refl, sym, ◌∙◌, true, false, arith, ◌==◌, Option, none,
  some, Bool-cases, inl, inr, ltb,
}
use lazy_os.Str.{strnlen, strnlen_loop}
use lazy_os.Fat12.Directory.{find_file, put_entry, entry, padded, root_entries}
use lazy_os.Fat12.Directory.Entries.{IsEntry, put_entry-IsEntry}
use lazy_os.Fat12.Directory.Names.{matches, IsFirst, find_file-IsFirst, comp_file_name_lem}

strnlen_loop-le : (k : ℕ) (ch : ℕ → ℕ) (i : ℕ) → strnlen_loop k ch i ≤ i + k
unfolding strnlen_loop
strnlen_loop-le zero ch i = omega arith
strnlen_loop-le (suc k) ch i =
    let later = strnlen_loop-le k ch (i + 1) in
    elim (Bool-cases (ch i == 0)) [
      | inl last ↦ rw last (omega arith)
      | inr more ↦ rw more (omega arith)
    ]

strnlen_loop-inside :
    (k : ℕ) (ch : ℕ → ℕ) (i j : ℕ) → i ≤ j → j < strnlen_loop k ch i → (ch j == 0) ≡ false
unfolding strnlen_loop
strnlen_loop-inside zero ch i j from to = absurd (omega arith)
strnlen_loop-inside (suc k) ch i j from to = elim (Bool-cases (ch i == 0)) [
  | inl last ↦ absurd (let none_left = rw last at to in omega arith)
  | inr more ↦ elim (Bool-cases (j == i)) [
    | inl here ↦ let e : j ≡ i = ground arith in rw e more
    | inr past ↦ strnlen_loop-inside k ch (i + 1) j (ground arith) (rw more at to)
  ]
]

-- The characters of a name are those that an entry of that name begins with.
padded_lem : (name : ℕ → ℕ) (j : ℕ) → j < strnlen name 8 → padded name 8 j ≡ name j
unfolding padded strnlen
padded_lem name j h =
    let inside = strnlen_loop-inside 8 name 0 j (omega arith) h in
    let short : ltb j (strnlen name 8) ≡ true = ground arith in rw (inside, short) refl

-- The first match is the only result of the search.
IsFirst-unique :
    (dir name : ℕ → ℕ) (hi i : ℕ) (r : Option ℕ)
    → i < hi
    → matches dir name i ≡ true
    → ((j : ℕ) → j < i → matches dir name j ≡ false)
    → IsFirst dir name 0 hi r
    → r ≡ some i
IsFirst-unique dir name hi i none h hit before first =
    absurd (let miss = first i (omega arith) h in ground arith)
IsFirst-unique dir name hi i (some f) h hit before (from, to, found, earlier) =
    elim (Bool-cases (ltb f i)) [
      | inl less ↦ absurd (let miss = before f (ground arith) in ground arith)
      | inr ge ↦ elim (Bool-cases (ltb i f)) [
        | inl more ↦ absurd (let miss = earlier i (omega arith) (ground arith) in ground arith)
        | inr le ↦ let e : f ≡ i = ground arith in rw e refl
      ]
    ]

module _ (i : ℕ) (name ext : ℕ → ℕ) (first_cluster attribute : ℕ) (time_stamp : ℕ → ℕ) (size : ℕ)
    (dir dir' : ℕ → ℕ) where
  matches-here :
      IsEntry i name ext first_cluster attribute time_stamp size dir dir'
      → matches dir' name i ≡ true
  unfolding strnlen
  matches-here is =
      (comp_file_name_lem (λ j. dir' (entry i + j)) name).1 λ j h.
        let le = strnlen_loop-le 8 name 0 in is.name_lem j (omega arith) ∙ padded_lem name j h

  matches-before :
      (j : ℕ)
      → j < i
      → matches dir name j ≡ false
      → IsEntry i name ext first_cluster attribute time_stamp size dir dir'
      → matches dir' name j ≡ false
  unfolding strnlen
  matches-before j h miss is = elim (Bool-cases (matches dir' name j)) [
    | inr out ↦ out
    | inl hit ↦
        let agree = (comp_file_name_lem (λ m. dir' (entry j + m)) name).0 hit in
        let le = strnlen_loop-le 8 name 0 in
        let before =
          (comp_file_name_lem (λ m. dir (entry j + m)) name).1
            λ m short. sym (is.others (entry j + m) (ground arith)) ∙ agree m short in
        absurd (ground arith)
  ]

-- After `create_file` has filled in the entry `i` of the directory, for a first cluster of 16 bits
-- and a size of 32 bits, the search for the file's name finds that entry, if the name matches none
-- of the entries in front of it.
pub find_file-put_entry :
    (i : ℕ) (name ext : ℕ → ℕ) (first_cluster attribute : ℕ) (time_stamp : ℕ → ℕ) (size : ℕ)
    (dir : ℕ → ℕ)
    → i < root_entries
    → first_cluster < 2 ^ 16
    → size < 2 ^ 32
    → ((j : ℕ) → j < i → matches dir name j ≡ false)
    → find_file root_entries
        (put_entry i name ext first_cluster attribute time_stamp size dir)
        name
        0
      ≡ some i
find_file-put_entry i name ext first_cluster attribute time_stamp size dir inside fits small
      before =
    let dir' = put_entry i name ext first_cluster attribute time_stamp size dir in
    let is = put_entry-IsEntry i name ext first_cluster attribute time_stamp size dir fits small in
    let here = matches-here i name ext first_cluster attribute time_stamp size dir dir' is in
    IsFirst-unique dir' name root_entries i (find_file root_entries dir' name 0) inside here
      (λ j h.
        matches-before i name ext first_cluster attribute time_stamp size dir dir' j h (before j h)
          is)
      (find_file-IsFirst root_entries dir' name 0)
