-- ===== src/Paging/Fresh.antt =====
-- `paging_set` on a page whose table does not exist yet: a table is taken from the heap.
use lazy_os.Prelude.{
  ℕ, ◌+◌, ◌*◌, ◌/◌, ◌%◌, ◌^◌, ◌<◌, bit_and, bit_or, ◌≡◌, ◌≢◌, refl, ◌∙◌, sym, ap, true, false,
  Option, none, some, arith, ◌==◌, if◌then◌else◌, update, fill, within, Bool-cases, inl, inr,
}
use lazy_os.Prelude.Masks.{bit_and-one, bit_and-page, bit_or-flags}
use lazy_os.Kheap.{Kernel, kmalloc, kzalloc}
use lazy_os.Kheap.Bytes.{clear_memory-fill}
use lazy_os.Paging.{System, store, paging_set}
use lazy_os.Paging.Walk.{IsWords, target, entry_of, frame_byte, through, translate}
use lazy_os.Paging.Map.{
  IsPage, IsOwn, table_of, translate-written, entry_of-update, entry_of-word, target-IsPage,
}

table_flags : (table : ℕ) → IsPage table → bit_or (bit_or (bit_or table 1) 2) 4 ≡ table + 7
table_flags table page =
    let q = table / 4096 in
    let split : table ≡ 4096 * q + 0 = omega (arith, page.aligned) in
    rw
      (
        split,
        bit_or-flags q 0 1 (omega arith) (omega arith),
        bit_or-flags q 1 2 (omega arith) (omega arith),
        bit_or-flags q 3 4 (omega arith) (omega arith),
      )
      (omega arith)

target_flags : (table : ℕ) → IsPage table → target (table + 7) ≡ some table
unfolding target
target_flags table page = ground (arith, page.aligned)

entry_of-fill :
    (memory : ℕ → ℕ) (p q i : ℕ)
    → IsPage p
    → IsPage q
    → i < 1024
    → entry_of (fill memory p 4096 0) q i ≡ (if p == q then 0 else entry_of memory q i)
unfolding entry_of
entry_of-fill memory p q i ip iq h =
    let same : within p 4096 ((q + 4 * i) % 2 ^ 32) ≡ (p == q) =
      ground (arith, ip.aligned, ip.word, iq.aligned, iq.word) in
    rw same refl

-- The table that the heap gives: a page that is not the directory, nor the table of an entry;
-- and no entry names the directory as its table.
pub record IsNew (memory : ℕ → ℕ) (directory d table : ℕ) : Type 0 where
  pub page : IsPage table
  pub valid : table ≢ 0
  pub apart : table ≢ directory
  pub absent : table_of memory directory d ≡ none
  pub own :
      (d' table' : ℕ)
      → d' < 1024
      → table_of memory directory d' ≡ some table'
      → (table' ≢ table) × (table' ≢ directory)

module _ (memory : ℕ → ℕ) (words : IsWords memory) (directory d table : ℕ) (dir : IsPage directory)
    (small : d < 1024) (new : IsNew memory directory d table) where
  -- The memory with the cleared table and the directory's new entry.
  abbrev extended : ℕ → ℕ
  extended = update (fill memory table 4096 0) ((directory + 4 * d) % 2 ^ 32) (table + 7)

  extended-IsWords : IsWords extended
  extended-IsWords a = elim (Bool-cases ((directory + 4 * d) % 2 ^ 32 == a)) [
    | inl e ↦ rw e (omega (arith, new.page.word, new.page.aligned))
    | inr e ↦ rw e (elim (Bool-cases (within table 4096 a)) [
      | inl f ↦ rw f (omega arith)
      | inr f ↦ rw f (words a)
    ])
  ]

  directory_entry :
      (d' : ℕ)
      → d' < 1024
      → entry_of extended directory d'
        ≡ (if d == d' then table + 7 else entry_of memory directory d')
  directory_entry d' h =
      let differ : (table == directory) ≡ false = let ne = new.apart in ground arith in
      entry_of-update (fill memory table 4096 0) directory directory d d' (table + 7) dir dir small
        h
      ∙ rw (entry_of-fill memory table directory d' new.page dir h, differ) (ground arith)

  table_entry :
      (other i : ℕ)
      → IsPage other
      → other ≢ directory
      → i < 1024
      → entry_of extended other i ≡ (if table == other then 0 else entry_of memory other i)
  table_entry other i page ne h =
      let differ : (directory == other) ≡ false = ground arith in
      entry_of-update (fill memory table 4096 0) directory other d i (table + 7) dir page small h
      ∙ rw (entry_of-fill memory table other i new.page page h, differ) refl

  extended-IsOwn : IsOwn extended directory d table
  extended-IsOwn =
      let self : (d == d) ≡ true = ground arith in
      record {
        named = rw (directory_entry d small, self) (target_flags table new.page);
        page = new.page;
        apart = new.apart;
        own = λ d' table' h e ne.
            let differ : (d == d') ≡ false = ground arith in
            (new.own d' table' h (rw (directory_entry d' h, differ) at e)).0;
      }

  -- The new table maps nothing yet.
  through_new : (v : ℕ) → v < 2 ^ 32 → through extended (some table) v ≡ none
  unfolding target
  through_new v h =
      let self : (table == table) ≡ true = ground arith in
      rw (table_entry table (v / 2 ^ 12 % 2 ^ 10) new.page new.apart (omega arith), self) refl

  through_old :
      (v : ℕ)
      → v < 2 ^ 32
      → (found : Option ℕ) → table_of memory directory (v / 2 ^ 22) ≡ found
      → through extended found v ≡ through memory found v
  through_old v h none e = refl
  through_old v h (some t) e =
      let (fresh, other) = new.own (v / 2 ^ 22) t (omega arith) e in
      let word = entry_of-word memory directory (v / 2 ^ 22) words in
      let page = target-IsPage (entry_of memory directory (v / 2 ^ 22)) t word e in
      let differ : (table == t) ≡ false = ground arith in
      rw (table_entry t (v / 2 ^ 12 % 2 ^ 10) page other (omega arith), differ) refl

  translate-extended :
      (v : ℕ) → v < 2 ^ 32 → translate extended directory v ≡ translate memory directory v
  unfolding translate
  translate-extended v h =
      rw (directory_entry (v / 2 ^ 22) (omega arith)) (elim (Bool-cases (d == v / 2 ^ 22)) [
        | inl e ↦
            let here : v / 2 ^ 22 ≡ d = ground arith in
            rw (e, target_flags table new.page, through_new v h, here, new.absent) refl
        | inr e ↦ rw e (through_old v h _ refl)
      ])

-- What `paging_set` writes where it takes a new table from the heap.
paging_set-allocates :
    (s : System) (k : Kernel) (directory virt phys table : ℕ)
    → kzalloc 4096 s.kernel ≡ (table, k)
    → virt < 2 ^ 32
    → virt % 4096 ≡ 0
    → IsNew s.kernel.memory directory (virt / 2 ^ 22) table
    → paging_set directory virt phys s ≡ (
      0,
      store table
          (virt / 2 ^ 12 % 2 ^ 10)
          phys
          (store directory (virt / 2 ^ 22) (table + 7) (record s { kernel = k })),
    )
unfolding paging_set entry_of target
paging_set-allocates s k directory virt phys table given word aligned new =
    let e = s.kernel.memory ((directory + 4 * (virt / 2 ^ 22)) % 2 ^ 32) in
    let even : e % 2 ≡ 0 = let none_yet = new.absent in ground arith in
    let page : (virt % 4096 == 0) ≡ true = ground arith in
    let index : virt % (1024 * 4096) / 4096 ≡ virt / 2 ^ 12 % 2 ^ 10 = omega arith in
    let missing : (bit_and e 1 == 0) ≡ true = rw (bit_and-one e, even) refl in
    let valid : (table == 0) ≡ false = let ne = new.valid in ground arith in
    let back : bit_and (table + 7) 0xfffff000 ≡ table =
      bit_and-page (table + 7) (omega (arith, new.page.aligned, new.page.word))
      ∙ omega (arith, new.page.aligned) in
    rw (page, index, missing, given, valid, table_flags table new.page, back) refl

kzalloc-memory :
    (size : ℕ) (before after : Kernel) (ptr : ℕ)
    → kzalloc size before ≡ (ptr, after)
    → ptr ≢ 0
    → size % 4 ≡ 0
    → after.memory ≡ fill before.memory ptr size 0
unfolding kzalloc
kzalloc-memory size before after ptr e ne words = elim (Bool-cases ((kmalloc size before).0 == 0)) [
  | inl z ↦ let got = ap (λ (r : ℕ × Kernel). r.0) (rw z at e) in absurd (ne (sym got))
  | inr nz ↦
      let got = ap (λ (r : ℕ × Kernel). r.0) (rw nz at e) in
      let left = ap (λ (r : ℕ × Kernel). r.1.memory) (rw nz at e) in
      sym left ∙ rw got (clear_memory-fill before.memory ptr size words)
]

-- In a memory of 32-bit words, where the page has no table yet and the heap gives a new one, which
-- is no table in use nor the directory, `paging_set` at an aligned address returns 0 and maps that
-- page, and the processor translates every other address as before.
pub paging_set-extended :
    (s : System) (k : Kernel) (directory virt phys table : ℕ)
    → kzalloc 4096 s.kernel ≡ (table, k)
    → IsWords s.kernel.memory
    → IsPage directory
    → virt < 2 ^ 32
    → virt % 4096 ≡ 0
    → IsNew s.kernel.memory directory (virt / 2 ^ 22) table
    → ((paging_set directory virt phys s).0 ≡ 0)
      × ((v : ℕ)
          → v < 2 ^ 32
          → translate (paging_set directory virt phys s).1.kernel.memory directory v ≡ (
              if v / 4096 == virt / 4096
              then frame_byte (target phys) v
              else translate s.kernel.memory directory v))
unfolding store
paging_set-extended s k directory virt phys table given words dir word aligned new =
    let memory = s.kernel.memory in
    let small : virt / 2 ^ 22 < 1024 = omega arith in
    let own = extended-IsOwn memory words directory (virt / 2 ^ 22) table dir small new in
    let words' = extended-IsWords memory words directory (virt / 2 ^ 22) table dir small new in
    let same = translate-extended memory words directory (virt / 2 ^ 22) table dir small new in
    rw
      (
        paging_set-allocates s k directory virt phys table given word aligned new,
        kzalloc-memory 4096 s.kernel k table given new.valid refl,
      )
      (
        refl,
        λ v h.
            rw (same v h) at
              (translate-written _ words' directory virt phys table dir word own v h),
      )
