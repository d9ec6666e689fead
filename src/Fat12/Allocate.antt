-- ===== src/Fat12/Allocate.antt =====
-- The chain that `fat12_allocate` builds.
use lazy_os.Prelude.{
  ℕ, zero, suc, ◌+◌, ◌-◌, ◌/◌, ◌≤◌, ◌<◌, ◌≡◌, ◌≢◌, refl, ◌∙◌, true, false, arith, ◌==◌,
  if◌then◌else◌, update, u32, neg, Bool-cases, inl, inr,
}
use lazy_os.Fat12.{
  total_fat12_entries, end_of_file, free_entry, starting_data_sector, sector_size, find_free_from,
  find_next_free, allocate_loop, fat12_allocate,
}

-- How many of the `k` entries from `i` on are free.
unfoldable pub free_count : (k : ℕ) → (ℕ → ℕ) → (i : ℕ) → ℕ
free_count zero table i = 0
free_count (suc k) table i = (if table i == free_entry then 1 else 0) + free_count k table (i + 1)

free_count-update :
    (k : ℕ) (table : ℕ → ℕ) (i c v : ℕ)
    → c < i
    → free_count k (update table c v) i ≡ free_count k table i
unfolding free_count
free_count-update zero table i c v h = refl
free_count-update (suc k) table i c v h =
    let apart : (c == i) ≡ false = ground arith in
    rw (apart, free_count-update k table (i + 1) c v (omega arith)) refl

-- The first free entry at `i` or later, with what is free behind it.
record IsNext (table : ℕ → ℕ) (i found count : ℕ) : Type 0 where
  above : i ≤ found
  inside : found < total_fat12_entries
  free : table found ≡ free_entry
  rest : free_count (total_fat12_entries - (found + 1)) table (found + 1) + 1 ≡ count

find_free_from-IsNext :
    (k : ℕ) (table : ℕ → ℕ) (i : ℕ)
    → i + k ≡ total_fat12_entries
    → 0 < free_count k table i
    → IsNext table i (find_free_from k table i) (free_count k table i)
unfolding find_free_from free_count
find_free_from-IsNext zero table i e pos = absurd (omega arith)
find_free_from-IsNext (suc k) table i e pos = elim (Bool-cases (table i == free_entry)) [
  | inl here ↦
      let rest : total_fat12_entries - (i + 1) ≡ k = omega arith in
      rw here (record {
        above = omega arith;
        inside = omega arith;
        free = ground arith;
        rest = rw rest (omega arith);
      })
  | inr used ↦
      let plain : 0 + free_count k table (i + 1) ≡ free_count k table (i + 1) = omega arith in
      let later = find_free_from-IsNext k table (i + 1) (omega arith) (rw (used, plain) at pos) in
      rw (used, plain)
        (record {
          above = omega (arith, later.above);
          inside = later.inside;
          free = later.free;
          rest = later.rest;
        })
]

find_next_free-IsNext :
    (table : ℕ → ℕ) (from : ℕ)
    → from ≤ total_fat12_entries
    → 0 < free_count (total_fat12_entries - from) table from
    → IsNext table from
        (find_next_free table from)
        (free_count (total_fat12_entries - from) table from)
unfolding find_next_free
find_next_free-IsNext table from h pos =
    find_free_from-IsNext (total_fat12_entries - from) table from (omega arith) pos

-- The result of a search that finds an entry is not the one of a failure.
not_failed : (x : ℕ) → x < total_fat12_entries → (x == neg 1) ≡ false
not_failed x h = ground arith

-- From cluster `c` on the entries of the table lead through `n` more clusters to the last one.
abbrev pub IsChain : (ℕ → ℕ) → ℕ → ℕ → Type 0
IsChain table c zero = table c ≡ end_of_file
IsChain table c (suc n) =
    (c < table c) × (table c < total_fat12_entries) × IsChain table (table c) n

-- The `n` clusters that follow `c` in the table `after` were free before.
abbrev pub AllVacant : (before after : ℕ → ℕ) → (c n : ℕ) → Type 0
AllVacant before after c zero = Unit
AllVacant before after c (suc n) =
    (before (after c) ≡ free_entry) × AllVacant before after (after c) n

-- An entry in front of the chain does not matter.
AllVacant-update :
    (before after : ℕ → ℕ) (x v c n : ℕ)
    → x ≤ c
    → IsChain after c n
    → AllVacant (update before x v) after c n
    → AllVacant before after c n
AllVacant-update before after x v c zero le chain vacant = tt
AllVacant-update before after x v c (suc n) le (up, inside, chain) (free, vacant) =
    let apart : (x == after c) ≡ false = ground arith in
    (rw apart at free, AllVacant-update before after x v (after c) n (omega arith) chain vacant)

-- The chain is built in free entries from `c` on, and all others are kept.
record IsBuilt (before after : ℕ → ℕ) (c n : ℕ) : Type 0 where
  chain : IsChain after c n
  vacant : AllVacant before after c n
  below : (j : ℕ) → j < c → after j ≡ before j
  used : (j : ℕ) → j ≢ c → before j ≢ free_entry → after j ≡ before j

IsChain-suc :
    (table : ℕ → ℕ) (c next n : ℕ)
    → table c ≡ next
    → c < next
    → next < total_fat12_entries
    → IsChain table next n
    → IsChain table c (suc n)
IsChain-suc table c next n e lt inside chain = rw e (lt, inside, chain)

AllVacant-suc :
    (before after : ℕ → ℕ) (c next n : ℕ)
    → after c ≡ next
    → before next ≡ free_entry
    → AllVacant before after next n
    → AllVacant before after c (suc n)
AllVacant-suc before after c next n e free vacant = rw e (free, vacant)

IsBuilt-suc :
    (table after : ℕ → ℕ) (c next n : ℕ)
    → c < next
    → next < total_fat12_entries
    → table next ≡ free_entry
    → IsBuilt (update table c next) after next n
    → IsBuilt table after c (suc n)
IsBuilt-suc table after c next n lt inside free b =
    let self : (c == c) ≡ true = ground arith in
    let follows : after c ≡ next = b.below c lt ∙ rw self refl in
    record {
      chain = IsChain-suc after c next n follows lt inside b.chain;
      vacant =
          AllVacant-suc table after c next n follows free
            (AllVacant-update table after c next next n (omega arith) b.chain b.vacant);
      below = λ j h.
          let apart : (c == j) ≡ false = ground arith in b.below j (omega arith) ∙ rw apart refl;
      used = λ j ne h.
          let apart : (c == j) ≡ false = ground arith in
          let other : j ≢ next = λ e. h (rw e free) in b.used j other (rw apart h) ∙ rw apart refl;
    }

allocate_loop-IsBuilt :
    (k : ℕ) (table : ℕ → ℕ) (c : ℕ)
    → c < total_fat12_entries
    → k ≤ free_count (total_fat12_entries - (c + 1)) table (c + 1)
    → ((allocate_loop k table c).0 ≡ true)
      × IsBuilt table
          (update (allocate_loop k table c).1 (allocate_loop k table c).2 end_of_file)
          c
          k
unfolding allocate_loop
allocate_loop-IsBuilt zero table c inside enough =
    let self : (c == c) ≡ true = ground arith in
    (
      refl,
      record {
        chain = rw self refl;
        vacant = tt;
        below = λ j h. ground arith;
        used = λ j ne h. ground arith;
      },
    )
allocate_loop-IsBuilt (suc k) table c inside enough =
    let next = find_next_free table (c + 1) in
    let n = find_next_free-IsNext table (c + 1) (omega arith) (omega arith) in
    let found : (next == neg 1) ≡ false = not_failed next n.inside in
    let lt : c < next = omega (arith, n.above) in
    let left : k ≤ free_count (total_fat12_entries - (next + 1)) (update table c next) (next + 1) =
      rw
        (free_count-update (total_fat12_entries - (next + 1)) table (next + 1) c next (omega arith))
        (omega (arith, n.rest)) in
    let (done, built) = allocate_loop-IsBuilt k (update table c next) next n.inside left in
    rw found (done, IsBuilt-suc table _ c next k lt n.inside n.free built)

-- The clusters that a file of `size` bytes takes: one at least.
abbrev pub clusters : ℕ → ℕ
clusters size = u32 (size + 511) / sector_size - 1 + 1

-- What an allocation returns and leaves: the sector of the first cluster of a chain, which is built
-- in free entries; every entry in use is kept.
pub record IsAllocated (before : ℕ → ℕ) (size : ℕ) (r : ℕ × (ℕ → ℕ)) (first : ℕ) : Type 0 where
  pub sector_lem : r.0 ≡ starting_data_sector + first
  pub inside : first < total_fat12_entries
  pub free : before first ≡ free_entry
  pub chain : IsChain r.1 first (clusters size - 1)
  pub vacant : AllVacant before r.1 first (clusters size - 1)
  pub used : (j : ℕ) → before j ≢ free_entry → r.1 j ≡ before j

-- With enough free entries `fat12_allocate` builds a chain of as many clusters as the size takes,
-- in free entries, and keeps every entry in use; it returns the sector of the first.
pub fat12_allocate-IsAllocated :
    (size : ℕ) (table : ℕ → ℕ)
    → clusters size ≤ free_count total_fat12_entries table 0
    → (first : ℕ) × IsAllocated table size (fat12_allocate size table) first
unfolding fat12_allocate
fat12_allocate-IsAllocated size table enough =
    let first = find_next_free table 0 in
    let n = find_next_free-IsNext table 0 (omega arith) (omega arith) in
    let found : (first == neg 1) ≡ false = not_failed first n.inside in
    let sectors = u32 (size + 511) / sector_size in
    let (done, built) =
      allocate_loop-IsBuilt (sectors - 1) table first n.inside (omega (arith, n.rest)) in
    let count : clusters size - 1 ≡ sectors - 1 = omega arith in
    (
      first,
      rw (found, done)
          (record {
            sector_lem = refl;
            inside = n.inside;
            free = n.free;
            chain = rw count built.chain;
            vacant = rw count built.vacant;
            used = λ j h. built.used j (λ e. h (rw e n.free)) h;
          }),
    )
