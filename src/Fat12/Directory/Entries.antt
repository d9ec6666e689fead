-- ===== src/Fat12/Directory/Entries.antt =====
-- The fields of an entry of the directory, after `create_file` has copied a file to it.
use lazy_os.Prelude.{
  ℕ, ◌+◌, ◌-◌, ◌/◌, ◌%◌, ◌^◌, ◌<◌, ◌≡◌, refl, false, arith, within, ◌==◌, if◌then◌else◌, update,
  copy, copy_lem,
}
use mathlib.Core.Path.{fun_ext}
use lazy_os.Fat12.Directory.{
  put_entry, padded, entry, entry_size, load16, load32, ext_at, first_cluster_at, attribute_at,
  time_stamp_at, size_at, store16,
}

module _ (i : ℕ) (name ext : ℕ → ℕ) (first_cluster attribute : ℕ) (time_stamp : ℕ → ℕ) (size : ℕ)
    (dir : ℕ → ℕ) where
  -- The bytes of the entry at `e`, its fields from the last one to the first.
  abbrev cell : (e j : ℕ) → ℕ
  cell e j =
      if e + 27 == j
      then size / 2 ^ 24 % 2 ^ 8
      else if e + 26 == j
      then size / 2 ^ 16 % 2 ^ 8
      else if e + 25 == j
      then size / 2 ^ 8 % 2 ^ 8
      else if e + 24 == j
      then size % 2 ^ 8
      else if within (e + 15) 6 j
      then time_stamp (j - (e + 15))
      else if e + 14 == j
      then attribute
      else if e + 13 == j
      then first_cluster / 2 ^ 8 % 2 ^ 8
      else if e + 12 == j
      then first_cluster % 2 ^ 8
      else if within (e + 8) 3 j
      then padded ext 3 (j - (e + 8))
      else if within e 8 j
      then padded name 8 (j - e)
      else dir j

  put_entry-cell :
      (j : ℕ)
      → put_entry i name ext first_cluster attribute time_stamp size dir j ≡ cell (entry i) j
  unfolding put_entry
  put_entry-cell j =
      let e = entry i in
      let named = copy 8 (padded name 8) 0 dir e in
      let typed = copy 3 (padded ext 3) 0 named (e + ext_at) in
      let placed = store16 first_cluster typed (e + first_cluster_at) in
      let marked = update placed (e + attribute_at) attribute in
      let a : e + 24 + 2 + 1 ≡ e + 27 = omega arith in
      let b : e + 24 + 2 ≡ e + 26 = omega arith in
      let c : e + 24 + 1 ≡ e + 25 = omega arith in
      let d : e + 12 + 1 ≡ e + 13 = omega arith in
      let high : size / 2 ^ 16 / 2 ^ 8 ≡ size / 2 ^ 24 = omega arith in
      let x : 0 + (j - (e + 15)) ≡ j - (e + 15) = omega arith in
      let y : 0 + (j - (e + 8)) ≡ j - (e + 8) = omega arith in
      let z : 0 + (j - e) ≡ j - e = omega arith in
      rw
        (
          a,
          b,
          c,
          high,
          copy_lem 6 time_stamp 0 marked (e + time_stamp_at) j,
          x,
          d,
          copy_lem 3 (padded ext 3) 0 named (e + ext_at) j,
          y,
          copy_lem 8 (padded name 8) 0 dir e j,
          z,
        )
        refl

  -- `create_file` fills in one entry: its name, cut or padded to eight characters, its first cluster and
  -- its size are those of the file, and all other entries are kept.
  pub record IsEntry (dir' : ℕ → ℕ) : Type 0 where
    pub name_lem : (j : ℕ) → j < 8 → dir' (entry i + j) ≡ padded name 8 j
    pub ext_lem : (j : ℕ) → j < 3 → dir' (entry i + ext_at + j) ≡ padded ext 3 j
    pub first_cluster_lem : load16 dir' (entry i + first_cluster_at) ≡ first_cluster
    pub attribute_lem : dir' (entry i + attribute_at) ≡ attribute
    pub time_stamp_lem : (j : ℕ) → j < 6 → dir' (entry i + time_stamp_at + j) ≡ time_stamp j
    pub size_lem : load32 dir' (entry i + size_at) ≡ size
    pub others : (a : ℕ) → within (entry i) entry_size a ≡ false → dir' a ≡ dir a

  module _ (e : ℕ) where
    cell-name : (j : ℕ) → j < 8 → cell e (e + j) ≡ padded name 8 j
    cell-name j h = let back : e + j - e ≡ j = omega arith in rw back (ground arith)

    cell-ext : (j : ℕ) → j < 3 → cell e (e + 8 + j) ≡ padded ext 3 j
    cell-ext j h = let back : e + 8 + j - (e + 8) ≡ j = omega arith in rw back (ground arith)

    cell-time_stamp : (j : ℕ) → j < 6 → cell e (e + 15 + j) ≡ time_stamp j
    cell-time_stamp j h =
        let back : e + 15 + j - (e + 15) ≡ j = omega arith in rw back (ground arith)

    cell-first_cluster : first_cluster < 2 ^ 16 → load16 (cell e) (e + 12) ≡ first_cluster
    cell-first_cluster h = ground arith

    cell-attribute : cell e (e + 14) ≡ attribute
    cell-attribute = ground arith

    cell-size : size < 2 ^ 32 → load32 (cell e) (e + 24) ≡ size
    cell-size h = ground arith

    cell-others : (a : ℕ) → within e 28 a ≡ false → cell e a ≡ dir a
    cell-others a h = ground arith

  pub put_entry-IsEntry :
      first_cluster < 2 ^ 16
      → size < 2 ^ 32
      → IsEntry (put_entry i name ext first_cluster attribute time_stamp size dir)
  put_entry-IsEntry fits small =
      let e : put_entry i name ext first_cluster attribute time_stamp size dir ≡ cell (entry i) =
        fun_ext put_entry-cell in
      rw e (record {
        name_lem = cell-name (entry i);
        ext_lem = cell-ext (entry i);
        first_cluster_lem = cell-first_cluster (entry i) fits;
        attribute_lem = cell-attribute (entry i);
        time_stamp_lem = cell-time_stamp (entry i);
        size_lem = cell-size (entry i) small;
        others = cell-others (entry i);
      })

  padded_byte : ((j : ℕ) → name j < 256) → (max j : ℕ) → padded name max j < 256
  unfolding padded
  padded_byte h max j = ground (arith, h j)

  padded-ext_byte : ((j : ℕ) → ext j < 256) → (max j : ℕ) → padded ext max j < 256
  unfolding padded
  padded-ext_byte h max j = ground (arith, h j)

  -- Where the fields and the directory are bytes, so is the directory with the new entry.
  pub put_entry-byte :
      ((j : ℕ) → name j < 256)
      → ((j : ℕ) → ext j < 256)
      → ((j : ℕ) → time_stamp j < 256)
      → attribute < 256
      → ((j : ℕ) → dir j < 256)
      → (j : ℕ) → put_entry i name ext first_cluster attribute time_stamp size dir j < 256
  put_entry-byte names exts times one before j =
      let e = entry i in
      let a = times (j - (e + 15)) in
      let c = padded-ext_byte exts 3 (j - (e + 8)) in
      let d = padded_byte names 8 (j - e) in
      let f = before j in rw (put_entry-cell j) (ground arith)
