-- ===== src/Fat12/Content/Store.antt =====
-- What `write_data_into_memory` leaves on the disk.
use lazy_os.Prelude.{
  ℕ, zero, suc, ◌+◌, ◌-◌, ◌*◌, ◌%◌, ◌^◌, ◌<◌, ◌≤◌, ◌≡◌, ◌≢◌, refl, ◌∙◌, true, false, arith, within,
  List, [], ◌∷◌, some, ◌==◌, sub32, int_lt_small, ◌⊎◌, inr,
}
use lazy_os.Streamer.{Blocks, DiskStream, Transfer, disk_streamer_seek, disk_streamer_write}
use lazy_os.Streamer.Laws.{Disk}
use lazy_os.Streamer.Write.{disk_streamer_write-IsWritten}
use lazy_os.Fat12.{end_of_file, sector_size, starting_data_sector}
use lazy_os.Fat12.Content.{cluster_start, int_part, write_data_loop}
use lazy_os.Fat12.Content.Chain.{Fresh, Away, IsFile, Holds, Fresh-Away}

int_part_small : (n : ℕ) → n < 2 ^ 31 → 512 < n → int_part n ≡ 512
unfolding int_part
int_part_small n h more = rw (int_lt_small 512 n (omega arith) h) (ground arith)

module _ (b : Blocks) (k : Disk b) (table buff content : ℕ → ℕ) where
  pub record IsStored (c : ℕ) (cs : List ℕ) (src size : ℕ) (d : b.Device) (t : Transfer b)
      : Type 0 where
    pub holds : Holds (k.bytes t.device) c cs content src size
    pub kept : (a : ℕ) → Away a (c ∷ cs) → k.bytes t.device a ≡ k.bytes d a
    pub ready : k.Ready t.device

  -- One cluster, at its place on the disk.
  pub record IsPut (c src n : ℕ) (d : b.Device) (t : Transfer b) : Type 0 where
    pub inside : (i : ℕ) → i < n → k.bytes t.device (cluster_start c + i) ≡ content (src + i) % 256
    pub outside :
        (a : ℕ) → within (cluster_start c) sector_size a ≡ false → k.bytes t.device a ≡ k.bytes d a
    pub ready : k.Ready t.device
    pub disk_lem : t.stream.disk ≡ b.disk_get 0

  pub disk_streamer_write-IsPut :
      (stream : DiskStream) (c src n : ℕ) (d : b.Device)
      → k.Ready d
      → stream.disk ≡ b.disk_get 0
      → c + starting_data_sector < k.sectors
      → n ≤ sector_size
      → (t : Transfer b) × (disk_streamer_write b
            (disk_streamer_seek stream (cluster_start c))
            buff
            content
            src
            n
            d
          ≡ some t)
        × IsPut c src n d t
  unfolding disk_streamer_seek
  disk_streamer_write-IsPut stream c src n d ready first inside le =
      let (t, e, is) =
        disk_streamer_write-IsWritten b k (disk_streamer_seek stream (cluster_start c)) buff content
          src n d ready (record { first = first; inside = omega arith }) in
      (
        t,
        e,
        record {
          inside = λ i h.
              let here : within (cluster_start c) n (cluster_start c + i) ≡ true = ground arith in
              let at : cluster_start c + i - cluster_start c ≡ i = omega arith in
              is.bytes_lem (cluster_start c + i) ∙ rw (here, at) refl;
          outside = λ a out.
              let far : within (cluster_start c) n a ≡ false = ground arith in
              is.bytes_lem a ∙ rw far refl;
          ready = is.ready;
          disk_lem = rw is.stream_lem first;
        },
      )

  write_data_loop-step :
      (fuel : ℕ) (stream : DiskStream) (c c' src size to_write : ℕ) (d : b.Device) (t : Transfer b)
      → table c ≡ c'
      → c' ≢ end_of_file
      → sector_size < size
      → size < 2 ^ 31
      → disk_streamer_write b (disk_streamer_seek stream (cluster_start c)) buff content src 512 d
        ≡ some t
      → write_data_loop b table buff (suc fuel) stream c content src size to_write d
        ≡ write_data_loop b table buff fuel t.stream c' content
            (src + 512)
            (size - 512)
            512
            t.device
  unfolding write_data_loop
  write_data_loop-step fuel stream c c' src size to_write d t entry more big small e =
      let test : (c' == end_of_file) ≡ false = ground arith in
      let left : sub32 size 512 ≡ size - 512 = ground arith in
      let n = int_part_small size small big in rw (entry, test, n, e, entry, n, left) refl

  write_data_loop-last :
      (fuel : ℕ) (stream : DiskStream) (c src size to_write : ℕ) (d : b.Device)
      → table c ≡ end_of_file
      → write_data_loop b table buff (suc fuel) stream c content src size to_write d
        ≡ disk_streamer_write b
            (disk_streamer_seek stream (cluster_start c))
            buff
            content
            src
            to_write
            d
  unfolding write_data_loop
  write_data_loop-last fuel stream c src size to_write d entry = rw entry refl

  -- A full cluster in front of those that hold the rest.
  IsStored-suc :
      (c c' : ℕ) (cs : List ℕ) (src size : ℕ) (d : b.Device) (t t' : Transfer b)
      → Fresh c (c' ∷ cs)
      → IsPut c src 512 d t
      → IsStored c' cs (src + 512) (size - 512) t.device t'
      → IsStored c (c' ∷ cs) src size d t'
  IsStored-suc c c' cs src size d t t' fresh put rest = record {
    holds = (
      λ i h. rest.kept (cluster_start c + i) (Fresh-Away c (c' ∷ cs) i h fresh) ∙ put.inside i h,
      rest.holds,
    );
    kept = λ a away. rest.kept a away.1 ∙ put.outside a away.0;
    ready = rest.ready;
  }

  pub write_data_loop-IsStored :
      (fuel : ℕ) (stream : DiskStream) (c : ℕ) (cs : List ℕ) (src size to_write : ℕ) (d : b.Device)
      → k.Ready d
      → stream.disk ≡ b.disk_get 0
      → IsFile table k.sectors c cs size
      → size ≤ to_write ⊎ (to_write ≡ sector_size)
      → to_write ≤ sector_size
      → size < sector_size * fuel
      → size < 2 ^ 31
      → (t : Transfer b) × (write_data_loop b table buff fuel stream c content src size to_write d
          ≡ some t)
        × IsStored c cs src size d t
  write_data_loop-IsStored zero stream c cs src size to_write d ready first file le cap fuel_lem
        small =
      absurd (omega arith)
  write_data_loop-IsStored (suc fuel) stream c [] src size to_write d ready first (entry, on, fits)
        le cap fuel_lem small =
      let (t, e, put) = disk_streamer_write-IsPut stream c src to_write d ready first on cap in
      (
        t,
        write_data_loop-last fuel stream c src size to_write d entry ∙ e,
        record {
          holds = λ i h. put.inside i (ground (arith, le));
          kept = λ a away. put.outside a away.0;
          ready = put.ready;
        },
      )
  write_data_loop-IsStored (suc fuel) stream c (c' ∷ cs) src size to_write d ready first
        (entry, more, on, big, fresh, file) le cap fuel_lem small =
      let (t, e, put) = disk_streamer_write-IsPut stream c src 512 d ready first on (omega arith) in
      let (t', e', rest) =
        write_data_loop-IsStored fuel t.stream c' cs (src + 512) (size - 512) 512 t.device put.ready
          put.disk_lem file (inr refl) (omega arith) (omega arith) (omega arith) in
      (
        t',
        write_data_loop-step fuel stream c c' src size to_write d t entry more big small e ∙ e',
        IsStored-suc c c' cs src size d t t' fresh put rest,
      )
