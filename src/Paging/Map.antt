-- ===== src/Paging/Map.antt =====
-- `paging_set` maps one page, and changes the translation of no other.
use lazy_os.Prelude.{
  ℕ, ◌+◌, ◌-◌, ◌*◌, ◌/◌, ◌%◌, ◌^◌, ◌<◌, bit_and, ◌≡◌, ◌≢◌, refl, ◌∙◌, true, false, ◌&&◌, Option,
  none, some, arith, ◌==◌, if◌then◌else◌, update, Bool-cases, inl, inr,
}
use lazy_os.Prelude.Masks.{bit_and-one, bit_and-page}
use lazy_os.Paging.{System, store, paging_set}
use lazy_os.Paging.Walk.{IsWords, target, entry_of, frame_byte, through, translate}

-- The address of a page.
pub record IsPage (page : ℕ) : Type 0 where
  pub aligned : page % 4096 ≡ 0
  pub word : page < 2 ^ 32

-- Two words of pages are the same word only at the same place of the same page.
words_apart :
    (p q i j : ℕ)
    → IsPage p
    → IsPage q
    → i < 1024
    → j < 1024
    → ((p + 4 * i) % 2 ^ 32 == (q + 4 * j) % 2 ^ 32) ≡ ((p == q) && (i == j))
words_apart p q i j ip iq hi hj = ground (arith, ip.aligned, ip.word, iq.aligned, iq.word)

pub entry_of-update :
    (memory : ℕ → ℕ) (p q i j v : ℕ)
    → IsPage p
    → IsPage q
    → i < 1024
    → j < 1024
    → entry_of (update memory ((p + 4 * i) % 2 ^ 32) v) q j
      ≡ (if (p == q) && (i == j) then v else entry_of memory q j)
unfolding entry_of
entry_of-update memory p q i j v ip iq hi hj = rw (words_apart p q i j ip iq hi hj) refl

-- The table of the directory's entry `d`, if it is present.
abbrev pub table_of : (memory : ℕ → ℕ) → (directory d : ℕ) → Option ℕ
table_of memory directory d = target (entry_of memory directory d)

-- The table that entry `d` names is neither the directory nor another entry's table.
pub record IsOwn (memory : ℕ → ℕ) (directory d table : ℕ) : Type 0 where
  pub named : table_of memory directory d ≡ some table
  pub page : IsPage table
  pub apart : table ≢ directory
  pub own :
      (d' table' : ℕ)
      → d' < 1024
      → table_of memory directory d' ≡ some table'
      → d' ≢ d
      → table' ≢ table

pub entry_of-word :
    (memory : ℕ → ℕ) (table i : ℕ) → IsWords memory → entry_of memory table i < 2 ^ 32
unfolding entry_of
entry_of-word memory table i words = words _

pub target-IsPage : (entry table : ℕ) → entry < 2 ^ 32 → target entry ≡ some table → IsPage table
unfolding target
target-IsPage entry table word e = record { aligned = ground arith; word = ground arith }

module _ (memory : ℕ → ℕ) (words : IsWords memory) (directory virt phys table : ℕ)
    (dir : IsPage directory) (word : virt < 2 ^ 32)
    (own : IsOwn memory directory (virt / 2 ^ 22) table) where
  abbrev pub written : ℕ → ℕ
  written = update memory ((table + 4 * (virt / 2 ^ 12 % 2 ^ 10)) % 2 ^ 32) phys

  directory_kept : (d : ℕ) → d < 1024 → entry_of written directory d ≡ entry_of memory directory d
  directory_kept d h =
      let differ : (table == directory) ≡ false = let ne = own.apart in ground arith in
      entry_of-update memory table directory (virt / 2 ^ 12 % 2 ^ 10) d phys own.page dir
        (omega arith) h
      ∙ rw differ refl

  table_at :
      (other : ℕ)
      → IsPage other
      → (v : ℕ) → v < 2 ^ 32
      → entry_of written other (v / 2 ^ 12 % 2 ^ 10) ≡ (
          if (table == other) && (virt / 2 ^ 12 % 2 ^ 10 == v / 2 ^ 12 % 2 ^ 10)
          then phys
          else entry_of memory other (v / 2 ^ 12 % 2 ^ 10))
  table_at other page v h =
      entry_of-update memory table other _ _ phys own.page page (omega arith) (omega arith)

  elsewhere :
      (v : ℕ)
      → v < 2 ^ 32
      → (v / 2 ^ 22 == virt / 2 ^ 22) ≡ false
      → (found : Option ℕ) → target (entry_of memory directory (v / 2 ^ 22)) ≡ found
      → through written found v ≡ through memory found v
  elsewhere v h other none e = refl
  elsewhere v h other (some t) e =
      let page =
        target-IsPage (entry_of memory directory (v / 2 ^ 22)) t
          (entry_of-word memory directory _ words) e in
      let ne = own.own (v / 2 ^ 22) t (omega arith) e (ground arith) in
      let differ : (table == t) ≡ false = ground arith in rw (table_at t page v h, differ) refl

  -- A write to the entry of `virt` in its table maps the page of `virt`, and no other.
  pub translate-written :
      (v : ℕ)
      → v < 2 ^ 32
      → translate written directory v ≡ (
          if v / 4096 == virt / 4096
          then frame_byte (target phys) v
          else translate memory directory v)
  unfolding translate
  translate-written v h =
      rw (directory_kept (v / 2 ^ 22) (omega arith))
        (elim (Bool-cases (v / 2 ^ 22 == virt / 2 ^ 22)) [
          | inl same ↦
              let here : v / 2 ^ 22 ≡ virt / 2 ^ 22 = ground arith in
              let hit : ((table == table) && (virt / 2 ^ 12 % 2 ^ 10 == v / 2 ^ 12 % 2 ^ 10))
                  ≡ (v / 4096 == virt / 4096) =
                ground arith in
              rw (here, own.named, table_at table own.page v h, hit)
                (elim (Bool-cases (v / 4096 == virt / 4096)) [
                  | inl e ↦ rw e refl
                  | inr e ↦ rw e refl
                ])
          | inr other ↦
              let apart : (v / 4096 == virt / 4096) ≡ false = ground arith in
              rw apart (elsewhere v h other (target (entry_of memory directory (v / 2 ^ 22))) refl)
        ])

target-inv :
    (entry table : ℕ) → target entry ≡ some table → (entry % 2 ≡ 1) × (table ≡ entry - entry % 4096)
unfolding target
target-inv entry table e = ground arith

-- What `paging_set` writes where the page's table is present.
paging_set-writes :
    (s : System) (directory virt phys table : ℕ)
    → IsWords s.kernel.memory
    → virt < 2 ^ 32
    → virt % 4096 ≡ 0
    → table_of s.kernel.memory directory (virt / 2 ^ 22) ≡ some table
    → paging_set directory virt phys s ≡ (0, store table (virt / 2 ^ 12 % 2 ^ 10) phys s)
unfolding paging_set entry_of
paging_set-writes s directory virt phys table words word aligned named =
    let e = s.kernel.memory ((directory + 4 * (virt / 2 ^ 22)) % 2 ^ 32) in
    let (odd, at) = target-inv e table named in
    let page : (virt % 4096 == 0) ≡ true = ground arith in
    let index : virt % (1024 * 4096) / 4096 ≡ virt / 2 ^ 12 % 2 ^ 10 = omega arith in
    let present : (bit_and e 1 == 0) ≡ false = rw (bit_and-one e, odd) refl in
    rw (page, index, present, bit_and-page e (words _), ← at) refl

-- In a memory of 32-bit words, where the page's table is present and is neither the directory nor
-- another entry's table, `paging_set` at an aligned address returns 0 and maps that page, and the
-- processor translates every other address as before.
pub paging_set-mapped :
    (s : System) (directory virt phys table : ℕ)
    → IsWords s.kernel.memory
    → IsPage directory
    → virt < 2 ^ 32
    → virt % 4096 ≡ 0
    → IsOwn s.kernel.memory directory (virt / 2 ^ 22) table
    → ((paging_set directory virt phys s).0 ≡ 0)
      × ((v : ℕ)
          → v < 2 ^ 32
          → translate (paging_set directory virt phys s).1.kernel.memory directory v ≡ (
              if v / 4096 == virt / 4096
              then frame_byte (target phys) v
              else translate s.kernel.memory directory v))
unfolding store
paging_set-mapped s directory virt phys table words dir word aligned own =
    rw (paging_set-writes s directory virt phys table words word aligned own.named) (
      refl,
      λ v h. translate-written s.kernel.memory words directory virt phys table dir word own v h,
    )
