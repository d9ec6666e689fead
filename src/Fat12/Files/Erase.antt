-- ===== src/Fat12/Files/Erase.antt =====
-- What `delete_file` does to a file's clusters.
use lazy_os.Prelude.{
  ℕ, zero, suc, ◌+◌, ◌-◌, ◌*◌, ◌<◌, ◌≡◌, refl, ◌∙◌, true, false, arith, List, [], ◌∷◌, some, ◌==◌,
  if◌then◌else◌, update, u32,
}
use lazy_os.Streamer.{Blocks, DiskStream, Transfer, disk_streamer_seek, disk_streamer_write}
use lazy_os.Streamer.Laws.{Disk}
use lazy_os.Fat12.{end_of_file, free_entry, sector_size, starting_data_sector}
use lazy_os.Fat12.Content.{cluster_start}
use lazy_os.Fat12.Content.Chain.{Fresh, Away, IsFile, Fresh-Away}
use lazy_os.Fat12.Content.Store.{IsPut, disk_streamer_write-IsPut}
use lazy_os.Fat12.Files.{delete_loop}

-- Every entry of the list is free.
abbrev pub AllFree : (table : ℕ → ℕ) → List ℕ → Type 0
AllFree table [] = Unit
AllFree table (c ∷ cs) = (table c ≡ free_entry) × AllFree table cs

-- Every cluster of the list is full of zeros.
abbrev pub AllZero : (bytes : ℕ → ℕ) → List ℕ → Type 0
AllZero bytes [] = Unit
AllZero bytes (c ∷ cs) =
    ((i : ℕ) → i < sector_size → bytes (cluster_start c + i) ≡ 0) × AllZero bytes cs

-- A change of another entry keeps a file.
IsFile-update :
    (table : ℕ → ℕ) (sectors x v c : ℕ) (cs : List ℕ) (size : ℕ)
    → Fresh x (c ∷ cs)
    → IsFile table sectors c cs size
    → IsFile (update table x v) sectors c cs size
IsFile-update table sectors x v c [] size fresh file =
    let other : (x == c) ≡ false = ground (arith, fresh.0) in (rw other file.0, file.1, file.2)
IsFile-update table sectors x v c (c' ∷ cs) size fresh file =
    let other : (x == c) ≡ false = ground (arith, fresh.0) in
    (
      rw other file.0,
      file.1,
      file.2,
      file.3,
      file.4,
      IsFile-update table sectors x v c' cs (size - sector_size) fresh.1 file.5,
    )

module _ (b : Blocks) (k : Disk b) (buff : ℕ → ℕ) where
  pub record IsErased (table table' : ℕ → ℕ) (c : ℕ) (cs : List ℕ) (d d' : b.Device) : Type 0 where
    pub free : AllFree table' (c ∷ cs)
    pub used : (j : ℕ) → Fresh j (c ∷ cs) → table' j ≡ table j
    pub zeros : AllZero (k.bytes d') (c ∷ cs)
    pub kept : (a : ℕ) → Away a (c ∷ cs) → k.bytes d' a ≡ k.bytes d a
    pub ready : k.Ready d'

  -- A cluster of zeros, from what was put there.
  zeros_put :
      (table : ℕ → ℕ) (c : ℕ) (d : b.Device) (t : Transfer b)
      → IsPut b k table buff (λ j. 0) c 0 512 d t
      → (i : ℕ) → i < sector_size
      → k.bytes t.device (cluster_start c + i) ≡ 0
  zeros_put table c d t put i h = put.inside i h

  delete_loop-step :
      (fuel : ℕ) (stream : DiskStream) (table : ℕ → ℕ) (c : ℕ) (d : b.Device) (t : Transfer b)
      → c + starting_data_sector < k.sectors
      → disk_streamer_write b (disk_streamer_seek stream (cluster_start c)) buff (λ j. 0) 0 512 d
        ≡ some t
      → delete_loop b buff (suc fuel) stream c table d ≡ (
          if table c == end_of_file
          then some (t, update table c free_entry)
          else delete_loop b buff fuel t.stream (table c) (update table c free_entry) t.device)
  unfolding delete_loop
  delete_loop-step fuel stream table c d t on e =
      let at : u32 (cluster_start c) ≡ cluster_start c = omega (arith, k.small) in
      rw (delete_loop, at, e) refl

  IsErased-last :
      (table : ℕ → ℕ) (c : ℕ) (d : b.Device) (t : Transfer b)
      → IsPut b k table buff (λ j. 0) c 0 512 d t
      → IsErased table (update table c free_entry) c [] d t.device
  IsErased-last table c d t put = record {
    free = (let self : (c == c) ≡ true = ground arith in rw self refl, tt);
    used = λ j fresh. let other : (c == j) ≡ false = ground (arith, fresh.0) in rw other refl;
    zeros = (zeros_put table c d t put, tt);
    kept = λ a away. put.outside a away.0;
    ready = put.ready;
  }

  IsErased-suc :
      (table table' : ℕ → ℕ) (c c' : ℕ) (cs : List ℕ) (d d' : b.Device) (t : Transfer b)
      → Fresh c (c' ∷ cs)
      → IsPut b k table buff (λ j. 0) c 0 512 d t
      → IsErased (update table c free_entry) table' c' cs t.device d'
      → IsErased table table' c (c' ∷ cs) d d'
  IsErased-suc table table' c c' cs d d' t fresh put rest = record {
    free =
        (let self : (c == c) ≡ true = ground arith in rest.used c fresh ∙ rw self refl, rest.free);
    used = λ j far.
        let other : (c == j) ≡ false = ground (arith, far.0) in rest.used j far.1 ∙ rw other refl;
    zeros = (
      λ i h.
          rest.kept (cluster_start c + i) (Fresh-Away c (c' ∷ cs) i h fresh)
          ∙ zeros_put table c d t put i h,
      rest.zeros,
    );
    kept = λ a away. rest.kept a away.1 ∙ put.outside a away.0;
    ready = rest.ready;
  }

  -- Where the table leads through different clusters of the disk, as many as the size takes, and
  -- the fuel is above their number: the loop of `delete_file` ends, frees the clusters' entries
  -- and fills the clusters with zeros; all other entries and all bytes outside of the clusters
  -- stay as they are.
  pub delete_loop-IsErased :
      (fuel : ℕ) (stream : DiskStream) (table : ℕ → ℕ) (c : ℕ) (cs : List ℕ) (size : ℕ)
      (d : b.Device)
      → k.Ready d
      → stream.disk ≡ b.disk_get 0
      → IsFile table k.sectors c cs size
      → size < sector_size * fuel
      → (r : Transfer b × (ℕ → ℕ)) × (delete_loop b buff fuel stream c table d ≡ some r)
        × (r.0.stream.disk ≡ b.disk_get 0)
        × IsErased table r.1 c cs d r.0.device
  delete_loop-IsErased zero stream table c cs size d ready first file enough = absurd (omega arith)
  delete_loop-IsErased (suc fuel) stream table c [] size d ready first (entry, on, fits) enough =
      let (t, e, put) =
        disk_streamer_write-IsPut b k table buff (λ j. 0) stream c 0 512 d ready first on
          (omega arith) in
      (
        (t, update table c free_entry),
        delete_loop-step fuel stream table c d t on e ∙ rw entry refl,
        put.disk_lem,
        IsErased-last table c d t put,
      )
  delete_loop-IsErased (suc fuel) stream table c (c' ∷ cs) size d ready first
        (entry, more, on, big, fresh, file) enough =
      let (t, e, put) =
        disk_streamer_write-IsPut b k table buff (λ j. 0) stream c 0 512 d ready first on
          (omega arith) in
      let file' =
        IsFile-update table k.sectors c free_entry c' cs (size - sector_size) fresh file in
      let (r, e', first', rest) =
        delete_loop-IsErased fuel t.stream (update table c free_entry) c' cs (size - sector_size)
          t.device put.ready put.disk_lem file' (omega arith) in
      let test : (c' == end_of_file) ≡ false = ground arith in
      (
        r,
        delete_loop-step fuel stream table c d t on e ∙ rw (entry, test) e',
        first',
        IsErased-suc table r.1 c c' cs d r.0.device t fresh put rest,
      )
