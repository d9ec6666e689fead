-- ===== src/Heap/Cycle.antt =====
-- An allocation, and the release of what it allocated.
use lazy_os.Prelude.{
  ℕ, ◌+◌, ◌-◌, ◌*◌, ◌^◌, ◌≤◌, ◌<◌, bit_and, ◌≡◌, refl, sym, ◌∙◌, Bool, true, false, ◌&&◌, arith,
  is_negative, Bool-cases, inl, inr, ltb, leb, ◌==◌, if◌then◌else◌, within,
}
use lazy_os.Heap.{
  Heap, has_next, entry_free, block_size, malloc_blocks, free, get_start_block, block_to_address,
  address_to_block,
}
use lazy_os.Heap.Search.{IsFree, Fits, get_start_block-first}
use lazy_os.Heap.Mark.{
  mark_tag, mark_tag-linked, mark_tag-closed, IsRun, mark_blocks_taken_lem, mark_blocks_free_lem,
}
use lazy_os.Heap.Address.{IsAddressable, block_to_address_lem, address_to_block-block_to_address}

-- What an allocation of `n` blocks at `lo` returns and leaves.
pub record IsAllocated (heap : Heap) (lo n : ℕ) (address : ℕ) (after : Heap) : Type 0 where
  pub address_lem : address ≡ heap.start_addr + lo * block_size
  pub vacant : Fits heap lo n
  pub start_kept : after.start_addr ≡ heap.start_addr
  pub total_kept : after.table.total_entries ≡ heap.table.total_entries
  pub entries_lem :
      (j : ℕ)
      → after.table.entries j ≡ (if within lo n j then mark_tag lo n j else heap.table.entries j)

-- Where the heap lies in the address space and some run of `n` free blocks fits, 0 < n, an
-- allocation of `n` blocks succeeds: it takes the first such run, returns its address, marks
-- exactly its blocks and keeps the rest of the heap.
pub malloc_blocks_lem :
    (heap : Heap) (n p : ℕ)
    → IsAddressable heap
    → 0 < n
    → Fits heap p n
    → (get_start_block heap n ≤ p)
      × IsAllocated heap
          (get_start_block heap n)
          n
          (malloc_blocks heap n).0
          (malloc_blocks heap n).1
unfolding malloc_blocks
malloc_blocks_lem heap n p a pos fit =
    let small : heap.table.total_entries < 2 ^ 31 = omega (arith, a.signed) in
    let (first, there) = get_start_block-first heap n p small pos fit in
    let lo = get_start_block heap n in
    let inside : lo < heap.table.total_entries = omega (arith, there.inside) in
    let found : is_negative lo ≡ false = ground arith in
    (
      first,
      rw found (record {
        address_lem = block_to_address_lem heap lo a inside;
        vacant = there;
        start_kept = refl;
        total_kept = refl;
        entries_lem =
            λ j. mark_blocks_taken_lem lo n heap.table.entries j pos (omega (arith, there.inside));
      }),
    )

-- Every free block has the entry 0, with no flag set.
pub record IsClean (heap : Heap) : Type 0 where
  pub zeroed :
      (j : ℕ)
      → j < heap.table.total_entries
      → IsFree heap.table.entries j
      → heap.table.entries j ≡ entry_free

-- The block behind the run is freed with it.
abbrev pub overshoots : Heap → (lo n : ℕ) → Bool
overshoots heap lo n = ltb 1 n && ltb (lo + n) heap.table.total_entries

-- The last block that a release of the run frees.
abbrev pub last_block : Heap → (lo n : ℕ) → ℕ
last_block heap lo n = if overshoots heap lo n then lo + n else lo + n - 1

-- If the block behind a longer run is in the table, its entry does not have the next flag.
abbrev pub IsEnded : Heap → (lo n : ℕ) → Type 0
IsEnded heap lo n =
    overshoots heap lo n ≡ true → (bit_and (heap.table.entries (lo + n)) has_next == 0) ≡ true

module _ {heap after : Heap} {lo n address : ℕ} (pos : 0 < n)
    (al : IsAllocated heap lo n address after) where
  tag_at : (j : ℕ) → within lo n j ≡ true → after.table.entries j ≡ mark_tag lo n j
  tag_at j e = al.entries_lem j ∙ rw e refl

  tag_past : after.table.entries (lo + n) ≡ heap.table.entries (lo + n)
  tag_past =
      let out : within lo n (lo + n) ≡ false = ground arith in al.entries_lem (lo + n) ∙ rw out refl

  last_block-closed :
      IsEnded heap lo n
      → last_block heap lo n + 1 < heap.table.total_entries
      → (bit_and (after.table.entries (last_block heap lo n)) has_next == 0) ≡ true
  last_block-closed ended p = elim (Bool-cases (overshoots heap lo n)) [
    | inl over ↦ rw (over, tag_past) (ended over)
    | inr exact ↦
        let single : n ≡ 1 = ground (arith, al.vacant.inside) in
        let here : within lo n (lo + n - 1) ≡ true = ground arith in
        rw (exact, tag_at _ here, single) (mark_tag-closed lo (lo + 1 - 1) (ground arith))
  ]

  allocated-IsRun :
      IsEnded heap lo n
      → IsRun after.table.entries after.table.total_entries lo (last_block heap lo n)
  allocated-IsRun ended = rw al.total_kept (record {
    ordered = ground arith;
    inside = ground (arith, al.vacant.inside);
    linked = λ j p q. rw (tag_at j (ground arith)) (mark_tag-linked lo n j (ground arith));
    closed = last_block-closed ended;
  })

  free_allocated :
      (j : ℕ)
      → IsAddressable heap
      → IsEnded heap lo n
      → (free after address).table.entries j
        ≡ (if leb lo j && leb j (last_block heap lo n) then entry_free else after.table.entries j)
  unfolding free
  free_allocated j a ended =
      let a' : IsAddressable after = record {
        below = rw (al.start_kept, al.total_kept) a.below;
        signed = rw al.total_kept a.signed;
      } in
      let inside : lo < after.table.total_entries =
        omega (arith, al.vacant.inside, al.total_kept) in
      let at : address ≡ block_to_address after lo =
        al.address_lem ∙ sym (rw (block_to_address_lem after lo a' inside, al.start_kept) refl) in
      let back : address_to_block after address ≡ lo =
        rw at (address_to_block-block_to_address after lo a' inside) in
      rw back (
        mark_blocks_free_lem after lo _ j (omega (arith, al.total_kept, a.signed))
          (allocated-IsRun ended))

-- Where an allocation of `n` blocks fits and the block behind a run of several is not itself
-- linked, releasing what the allocation returned brings every entry back, but for a run longer
-- than one block the block behind it is freed too.
pub free-malloc_blocks :
    (heap : Heap) (n p j : ℕ)
    → IsAddressable heap
    → IsClean heap
    → 0 < n
    → Fits heap p n
    → IsEnded heap (get_start_block heap n) n
    → (free (malloc_blocks heap n).1 (malloc_blocks heap n).0).table.entries j ≡ (
        if overshoots heap (get_start_block heap n) n && (j == get_start_block heap n + n)
        then entry_free
        else heap.table.entries j)
free-malloc_blocks heap n p j a clean pos fit ended =
    let lo = get_start_block heap n in
    let (first, al) = malloc_blocks_lem heap n p a pos fit in
    free_allocated pos al j a ended ∙ elim (Bool-cases (within lo n j)) [
      | inl mine ↦
          let was =
            clean.zeroed j (ground (arith, al.vacant.inside))
              (al.vacant.vacant j (ground arith) (ground arith)) in
          ground (arith, was)
      | inr other ↦ rw (al.entries_lem j, other) (ground arith)
    ]
