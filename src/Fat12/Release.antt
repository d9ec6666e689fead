-- ===== src/Fat12/Release.antt =====
-- `free_file`: what the walk along a chain does, given that it clears each entry before it reads it.
use lazy_os.Prelude.{
  ℕ, zero, suc, ◌≡◌, refl, arith, ◌==◌, if◌then◌else◌, update, none, some, Bool-cases, inl, inr,
}
use lazy_os.Fat12.{end_of_file, free_entry, free_file_loop}

-- From a cleared entry the walk goes to the first cluster, and stays there.
free_file_loop-free :
    (fuel : ℕ) (table : ℕ → ℕ) (c : ℕ) → table c ≡ free_entry → free_file_loop fuel table c ≡ none
unfolding free_file_loop
free_file_loop-free zero table c e = refl
free_file_loop-free (suc fuel) table c e =
    rw e (free_file_loop-free fuel (update table free_entry free_entry) free_entry refl)

-- On a file of one cluster the walk of `free_file` ends at once and frees that cluster's entry
-- alone; on a longer one it does not end, whatever the fuel.
pub free_file_loop_lem :
    (fuel : ℕ) (table : ℕ → ℕ) (file_sector : ℕ)
    → free_file_loop (suc fuel) table file_sector ≡ (
        if table file_sector == end_of_file
        then some (update table file_sector free_entry)
        else none)
unfolding free_file_loop
free_file_loop_lem fuel table file_sector = elim (Bool-cases (table file_sector == end_of_file)) [
  | inl last ↦ rw last refl
  | inr more ↦
      let self : update table (table file_sector) free_entry (table file_sector) ≡ free_entry =
        ground arith in
      rw more (
        free_file_loop-free fuel (update table (table file_sector) free_entry) (table file_sector)
          self)
]
