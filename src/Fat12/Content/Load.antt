-- ===== src/Fat12/Content/Load.antt =====
-- What the loop of `read_file` finds in a file's clusters.
use lazy_os.Prelude.{
  ℕ, zero, suc, ◌+◌, ◌-◌, ◌*◌, ◌%◌, ◌^◌, ◌<◌, ◌≤◌, ◌≡◌, ◌≢◌, refl, ◌∙◌, true, false, arith, within,
  List, [], ◌∷◌, some, ◌==◌, sub32, ltb, inl, inr, Bool-cases,
}
use lazy_os.Streamer.{Blocks, DiskStream, Transfer, disk_streamer_seek, disk_streamer_read}
use lazy_os.Streamer.Laws.{Disk}
use lazy_os.Streamer.Read.{disk_streamer_read-IsRead}
use lazy_os.Fat12.{end_of_file, sector_size, starting_data_sector}
use lazy_os.Fat12.Content.{cluster_start, part, read_data_loop}
use lazy_os.Fat12.Content.Chain.{IsFile, IsFile-inside, Holds}

-- The bytes in the last cluster of a file.
abbrev pub last_size : List ℕ → (size : ℕ) → ℕ
last_size [] size = size
last_size (c ∷ cs) size = last_size cs (size - sector_size)

part_big : (n : ℕ) → 512 < n → part n ≡ 512
unfolding part
part_big n more = let test : ltb 512 n ≡ true = ground arith in rw test refl

module _ (b : Blocks) (k : Disk b) (table buff content : ℕ → ℕ) where
  -- `size` bytes of `content` from `src` on are in the memory from `dst` on; the rest is as before.
  pub record IsLoaded (memory out : ℕ → ℕ) (src dst size : ℕ) (d d' : b.Device) : Type 0 where
    pub inside : (i : ℕ) → i < size → memory (dst + i) ≡ content (src + i) % 256
    pub outside : (j : ℕ) → within dst size j ≡ false → memory j ≡ out j
    pub bytes_lem : k.bytes d' ≡ k.bytes d
    pub ready : k.Ready d'

  -- One cluster, or the used part of it.
  disk_streamer_read-IsLoaded :
      (stream : DiskStream) (c : ℕ) (out : ℕ → ℕ) (src dst n : ℕ) (d : b.Device)
      → k.Ready d
      → stream.disk ≡ b.disk_get 0
      → c + starting_data_sector < k.sectors
      → n ≤ sector_size
      → ((i : ℕ) → i < n → k.bytes d (cluster_start c + i) ≡ content (src + i) % 256)
      → (t : Transfer b) × (disk_streamer_read b
            (disk_streamer_seek stream (cluster_start c))
            buff
            out
            dst
            n
            d
          ≡ some t)
        × (t.stream.disk ≡ b.disk_get 0)
        × IsLoaded t.memory out src dst n d t.device
  unfolding disk_streamer_seek
  disk_streamer_read-IsLoaded stream c out src dst n d ready first inside le held =
      let (t, e, is) =
        disk_streamer_read-IsRead b k (disk_streamer_seek stream (cluster_start c)) buff out dst n d
          ready (record { first = first; inside = omega arith }) in
      (
        t,
        e,
        rw is.stream_lem first,
        record {
          inside = λ i h.
              let here : within dst n (dst + i) ≡ true = ground arith in
              let at : dst + i - dst ≡ i = omega arith in
              is.memory_lem (dst + i) ∙ rw (here, at) (held i h);
          outside = λ j far. is.memory_lem j ∙ rw far refl;
          bytes_lem = is.bytes_lem;
          ready = is.ready;
        },
      )

  read_data_loop-step :
      (fuel : ℕ) (stream : DiskStream) (c c' : ℕ) (out : ℕ → ℕ) (dst size : ℕ) (d : b.Device)
      (t : Transfer b)
      → table c ≡ c'
      → c' ≢ end_of_file
      → c' + starting_data_sector < 2 ^ 16
      → sector_size < size
      → size < 2 ^ 32
      → disk_streamer_read b (disk_streamer_seek stream (cluster_start c)) buff out dst 512 d
        ≡ some t
      → read_data_loop b table buff (suc fuel) stream (c + starting_data_sector) out dst size d
        ≡ read_data_loop b table buff fuel t.stream
            (c' + starting_data_sector)
            t.memory
            (dst + 512)
            (size - 512)
            t.device
  unfolding read_data_loop
  read_data_loop-step fuel stream c c' out dst size d t entry more on big small e =
      let test : (c' == end_of_file) ≡ false = ground arith in
      let left : sub32 size 512 ≡ size - 512 = ground arith in
      let back : c + 233 - 233 ≡ c = omega arith in
      let next : (c' + 233) % 2 ^ 16 ≡ c' + 233 = omega arith in
      let n = part_big size big in rw (back, entry, test, n, e, back, entry, next, n, left) refl

  read_data_loop-last :
      (fuel : ℕ) (stream : DiskStream) (c : ℕ) (out : ℕ → ℕ) (dst size : ℕ) (d : b.Device)
      (t : Transfer b)
      → table c ≡ end_of_file
      → size ≤ sector_size
      → disk_streamer_read b (disk_streamer_seek stream (cluster_start c)) buff out dst size d
        ≡ some t
      → read_data_loop b table buff (suc fuel) stream (c + starting_data_sector) out dst size d
        ≡ some (t, size)
  unfolding read_data_loop
  read_data_loop-last fuel stream c out dst size d t entry fits e =
      let back : c + 233 - 233 ≡ c = omega arith in
      let cut : size % 2 ^ 16 ≡ size = omega arith in rw (back, entry, cut, e) refl

  -- A full cluster in front of the rest.
  IsLoaded-suc :
      (memory memory' out : ℕ → ℕ) (src dst size : ℕ) (d d' d'' : b.Device)
      → sector_size < size
      → IsLoaded memory out src dst 512 d d'
      → IsLoaded memory' memory (src + 512) (dst + 512) (size - 512) d' d''
      → IsLoaded memory' out src dst size d d''
  IsLoaded-suc memory memory' out src dst size d d' d'' big here rest = record {
    inside = λ i h. elim (Bool-cases (ltb i 512)) [
      | inl early ↦ rest.outside (dst + i) (ground arith) ∙ here.inside i (ground arith)
      | inr late ↦
          let to : dst + i ≡ dst + 512 + (i - 512) = ground arith in
          let from : src + i ≡ src + 512 + (i - 512) = ground arith in
          rw (to, from) (rest.inside (i - 512) (ground arith))
    ];
    outside = λ j far. rest.outside j (ground arith) ∙ here.outside j (ground arith);
    bytes_lem = rest.bytes_lem ∙ here.bytes_lem;
    ready = rest.ready;
  }

  pub read_data_loop-IsLoaded :
      (fuel : ℕ) (stream : DiskStream) (c : ℕ) (cs : List ℕ) (out : ℕ → ℕ) (src dst size : ℕ)
      (d : b.Device)
      → k.Ready d
      → stream.disk ≡ b.disk_get 0
      → IsFile table k.sectors c cs size
      → k.sectors ≤ 2 ^ 16
      → size < sector_size * fuel
      → size < 2 ^ 31
      → Holds (k.bytes d) c cs content src size
      → (t : Transfer b) × (read_data_loop b table buff fuel stream
            (c + starting_data_sector)
            out
            dst
            size
            d
          ≡ some (t, last_size cs size))
        × IsLoaded t.memory out src dst size d t.device
  read_data_loop-IsLoaded zero stream c cs out src dst size d ready first file few enough small
        held =
      absurd (omega arith)
  read_data_loop-IsLoaded (suc fuel) stream c [] out src dst size d ready first (entry, on, fits)
        few enough small held =
      let (t, e, next, got) =
        disk_streamer_read-IsLoaded stream c out src dst size d ready first on fits held in
      (t, read_data_loop-last fuel stream c out dst size d t entry fits e, got)
  read_data_loop-IsLoaded (suc fuel) stream c (c' ∷ cs) out src dst size d ready first
        (entry, more, on, big, fresh, file) few enough small held =
      let (t, e, next, got) =
        disk_streamer_read-IsLoaded stream c out src dst 512 d ready first on (omega arith)
          held.0 in
      let held' : Holds (k.bytes t.device) c' cs content (src + 512) (size - 512) =
        rw got.bytes_lem held.1 in
      let (t', e', rest) =
        read_data_loop-IsLoaded fuel t.stream c' cs t.memory (src + 512) (dst + 512) (size - 512)
          t.device got.ready next file few (omega arith) (omega arith) held' in
      let on' = IsFile-inside table k.sectors c' cs (size - 512) file in
      (
        t',
        read_data_loop-step fuel stream c c' out dst size d t entry more (omega arith) big
              (omega arith) e
            ∙ e',
        IsLoaded-suc t.memory t'.memory out src dst size d t.device t'.device big got rest,
      )
