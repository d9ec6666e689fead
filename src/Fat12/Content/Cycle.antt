-- ===== src/Fat12/Content/Cycle.antt =====
-- A file's content, written and read again.
use lazy_os.Prelude.{
  ℕ, ◌+◌, ◌-◌, ◌%◌, ◌^◌, ◌<◌, ◌≤◌, ◌≡◌, ◌≢◌, refl, ap, sym, ◌∙◌, false, arith, List, ◌∷◌, some,
  ◌==◌, ltb, int_lt_small, ◌⊎◌, inl, inr, Bool-cases, update,
}
use lazy_os.Kheap.{Kernel, kzalloc}
use lazy_os.Streamer.{Blocks, DiskStream, disk_streamer_new, Transfer, disk_streamer_close}
use lazy_os.Streamer.Laws.{Disk}
use lazy_os.Fat12.{sector_size, starting_data_sector}
use lazy_os.Fat12.Content.{
  int_part, write_data_loop, write_data_into_memory, read_data_loop, read_content, write_opened,
  close_written, printed,
}
use lazy_os.Fat12.Content.Chain.{IsFile, IsFile-inside, Holds, Away}
use lazy_os.Fat12.Content.Store.{write_data_loop-IsStored}
use lazy_os.Fat12.Content.Load.{last_size, read_data_loop-IsLoaded}

int_part_lem :
    (size : ℕ)
    → size < 2 ^ 31
    → (size ≤ int_part size ⊎ (int_part size ≡ sector_size)) × (int_part size ≤ sector_size)
unfolding int_part
int_part_lem size h = rw (int_lt_small 512 size (omega arith) h) (elim (Bool-cases (ltb 512 size)) [
  | inl big ↦ rw big (inr refl, omega arith)
  | inr fits ↦ rw fits (inl (omega arith), ground arith)
])

-- The null character behind the string.
cut_here : (memory : ℕ → ℕ) (left : ℕ) → update memory left 0 left ≡ 0
cut_here memory left = ground arith

cut_elsewhere :
    (memory content : ℕ → ℕ) (left i : ℕ)
    → left ≢ i
    → memory (0 + i) ≡ content (0 + i) % 256
    → update memory left 0 i ≡ content i % 256
cut_elsewhere memory content left i apart same =
    let plain : 0 + i ≡ i = omega arith in
    let kept : update memory left 0 i ≡ memory i = ground arith in kept ∙ (rw plain at same)

module _ (b : Blocks) (k : Disk b) (table buff content : ℕ → ℕ) where
  -- What the write of a file of `size` bytes leaves.
  pub record IsSaved (c : ℕ) (cs : List ℕ) (size : ℕ) (d d' : b.Device) : Type 0 where
    pub holds : Holds (k.bytes d') c cs content 0 size
    pub kept : (a : ℕ) → Away a (c ∷ cs) → k.bytes d' a ≡ k.bytes d a
    pub ready : k.Ready d'

  pub opened :
      (kernel : Kernel)
      → (stream : DiskStream) × (kernel' : Kernel) × (disk_streamer_new b 0 kernel
          ≡ (some stream, kernel'))
        × (stream.disk ≡ b.disk_get 0)
  unfolding disk_streamer_new
  opened kernel =
      let there : (b.disk_get 0 == 0) ≡ false = ground (arith, k.present) in
      let (address, kernel') = kzalloc 8 kernel in
      (record { address = address; pos = 0; disk = b.disk_get 0 }, kernel', rw there refl, refl)

  write_data_into_memory-run :
      (c size : ℕ) (kernel kernel' : Kernel) (d : b.Device) (stream : DiskStream) (t : Transfer b)
      → c + starting_data_sector < 2 ^ 16
      → disk_streamer_new b 0 kernel ≡ (some stream, kernel')
      → write_data_loop b table buff (2 ^ 16) stream c content 0 size (int_part size) d ≡ some t
      → write_data_into_memory b table buff size (c + starting_data_sector) content kernel d
        ≡ some (disk_streamer_close t.stream kernel', t.device)
  unfolding write_data_into_memory
  write_data_into_memory-run c size kernel kernel' d stream t on new run =
      let at : (c + 233 + 2 ^ 16 - 233) % 2 ^ 16 ≡ c = omega arith in
      ap
        (λ (next : ℕ).
          (write_opened b table buff size next content d (disk_streamer_new b 0 kernel)))
        at
      ∙ ap (write_opened b table buff size c content d) new
      ∙ ap (close_written b table buff kernel') run

  -- On a disk of at most 2^16 sectors, where the table leads through different clusters of the
  -- disk, as many as the size below 2^25 takes: the write of a file's content ends, fills exactly
  -- these clusters with it, and keeps all other bytes of the disk outside of them.
  pub write_data_into_memory-IsSaved :
      (c : ℕ) (cs : List ℕ) (size : ℕ) (kernel : Kernel) (d : b.Device)
      → k.Ready d
      → IsFile table k.sectors c cs size
      → k.sectors ≤ 2 ^ 16
      → size < 2 ^ 25
      → (r : Kernel × b.Device) × (write_data_into_memory b table buff size
            (c + starting_data_sector)
            content
            kernel
            d
          ≡ some r)
        × IsSaved c cs size d r.1
  write_data_into_memory-IsSaved c cs size kernel d ready file few small =
      let (stream, kernel', new, first) = opened kernel in
      let (le, cap) = int_part_lem size (omega arith) in
      let on = IsFile-inside table k.sectors c cs size file in
      let (t, run, is) =
        write_data_loop-IsStored b k table buff content (2 ^ 16) stream c cs 0 size (int_part size)
          d ready first file le cap (omega arith) (omega arith) in
      (
        (disk_streamer_close t.stream kernel', t.device),
        write_data_into_memory-run c size kernel kernel' d stream t (omega arith) new run,
        record { holds = is.holds; kept = is.kept; ready = is.ready },
      )

  read_content-run :
      (sector size : ℕ) (stream : DiskStream) (d : b.Device) (t : Transfer b) (left : ℕ)
      → read_data_loop b table buff (2 ^ 16) stream sector (λ j. 0) 0 size d ≡ some (t, left)
      → read_content b table buff size sector stream d
        ≡ some (t.stream, update t.memory left 0, t.device)
  unfolding read_content
  read_content-run sector size stream d t left run = ap (printed b table buff) run

  -- Of a file's content on the disk, `read_file` prints the bytes of the file, but for a null character
  -- at the place that the size of the last cluster's content names: on a file of more than one cluster
  -- that is inside the content, which it cuts short. On a file of one cluster it ends the content.
  pub read_content_lem :
      (c : ℕ) (cs : List ℕ) (size : ℕ) (stream : DiskStream) (d : b.Device)
      → k.Ready d
      → stream.disk ≡ b.disk_get 0
      → IsFile table k.sectors c cs size
      → k.sectors ≤ 2 ^ 16
      → size < 2 ^ 25
      → Holds (k.bytes d) c cs content 0 size
      → (r : DiskStream × (ℕ → ℕ) × b.Device) × (read_content b table buff size
            (c + starting_data_sector)
            stream
            d
          ≡ some r)
        × (r.1 (last_size cs size) ≡ 0)
        × ((i : ℕ) → i < size → i ≢ last_size cs size → r.1 i ≡ content i % 256)
        × (k.bytes r.2 ≡ k.bytes d)
        × k.Ready r.2
  read_content_lem c cs size stream d ready first file few small held =
      let (t, run, is) =
        read_data_loop-IsLoaded b k table buff content (2 ^ 16) stream c cs (λ j. 0) 0 0 size d
          ready first file few (omega arith) (omega arith) held in
      let left = last_size cs size in
      (
        (t.stream, update t.memory left 0, t.device),
        read_content-run (c + starting_data_sector) size stream d t left run,
        cut_here t.memory left,
        λ i h apart. cut_elsewhere t.memory content left i (λ e. apart (sym e)) (is.inside i h),
        is.bytes_lem,
        is.ready,
      )

  -- The content of a file that is written to its clusters is printed from them: every byte of it but
  -- for the null character that `read_file` puts behind the last cluster's part, counted from the
  -- start.
  pub read_content-write_data_into_memory :
      (c : ℕ) (cs : List ℕ) (size : ℕ) (kernel : Kernel) (stream : DiskStream) (d : b.Device)
      → k.Ready d
      → stream.disk ≡ b.disk_get 0
      → IsFile table k.sectors c cs size
      → k.sectors ≤ 2 ^ 16
      → size < 2 ^ 25
      → (w : Kernel × b.Device) × (r : DiskStream × (ℕ → ℕ) × b.Device) × (write_data_into_memory b
            table buff size
            (c + starting_data_sector)
            content
            kernel
            d
          ≡ some w)
        × (read_content b table buff size (c + starting_data_sector) stream w.1 ≡ some r)
        × (r.1 (last_size cs size) ≡ 0)
        × ((i : ℕ) → i < size → i ≢ last_size cs size → r.1 i ≡ content i % 256)
  read_content-write_data_into_memory c cs size kernel stream d ready first file few small =
      let (w, ew, saved) = write_data_into_memory-IsSaved c cs size kernel d ready file few small in
      let (r, er, nul, same, kept, ready') =
        read_content_lem c cs size stream w.1 saved.ready first file few small saved.holds in
      (w, r, ew, er, nul, same)
