-- ===== src/Fat12/Directory.antt =====
-- The root directory and the files that it names. The array `root_dir` is its bytes, as the disk holds
-- them: 224 structures of 28 bytes, with the padding that aligns the fields.
pub mod Entries
pub mod Names
pub mod Create
use lazy_os.Prelude.{
  ℕ, zero, suc, ◌+◌, ◌-◌, ◌*◌, ◌/◌, ◌%◌, ◌^◌, Bool, true, false, not, ◌&&◌, ◌==◌, ltb,
  if◌then◌else◌, Option, none, some, ◌>>=◌, List, [], ◌∷◌, sub32, copy, update, fill, u32,
}
use lazy_os.Kheap.{Kernel, kzalloc, kfree}
use lazy_os.Str.{strnlen}
use lazy_os.Vga.{Terminal, terminal_write_char, print, white, black}
use lazy_os.Clock.{RtcTime, print_time}
use lazy_os.Streamer.{
  Blocks, DiskStream, Transfer, disk_streamer_new, disk_streamer_close, disk_streamer_read,
  disk_streamer_seek, disk_streamer_write,
}
use lazy_os.Fat12.{
  total_fat12_entries, end_of_file, free_entry, sector_size, starting_data_sector, fat12_allocate,
}
use lazy_os.Fat12.Content.{cluster_start, write_data_into_memory, read_content}

abbrev pub fat1_sector : ℕ
fat1_sector = 202

abbrev pub start_root_dir : ℕ
start_root_dir = 219

abbrev pub root_entries : ℕ
root_entries = 224

abbrev pub entry_size : ℕ
entry_size = 28

-- The address of the entry `i`; its name comes first. The other fields' places follow.
abbrev pub entry : (i : ℕ) → ℕ
entry i = i * entry_size

abbrev pub ext_at : ℕ
ext_at = 8

abbrev pub first_cluster_at : ℕ
first_cluster_at = 12

abbrev pub attribute_at : ℕ
attribute_at = 14

abbrev pub time_stamp_at : ℕ
time_stamp_at = 15

abbrev pub size_at : ℕ
size_at = 24

-- Numbers in memory, the lowest byte first.
abbrev pub load16 : (ℕ → ℕ) → (a : ℕ) → ℕ
load16 m a = m a + m (a + 1) * 2 ^ 8

abbrev pub load32 : (ℕ → ℕ) → (a : ℕ) → ℕ
load32 m a = m a + m (a + 1) * 2 ^ 8 + m (a + 2) * 2 ^ 16 + m (a + 3) * 2 ^ 24

abbrev pub store16 : (v : ℕ) → (ℕ → ℕ) → (a : ℕ) → ℕ → ℕ
store16 v m a = update (update m a (v % 2 ^ 8)) (a + 1) (v / 2 ^ 8 % 2 ^ 8)

abbrev pub store32 : (v : ℕ) → (ℕ → ℕ) → (a : ℕ) → ℕ → ℕ
store32 v m a = store16 (v / 2 ^ 16) (store16 v m a) (a + 2)

-- The table's entries as the bytes of its array, and back.
abbrev pub table_bytes : (ℕ → ℕ) → ℕ → ℕ
table_bytes table a = table (a / 2) / 2 ^ (8 * (a % 2)) % 2 ^ 8

abbrev pub table_from : (ℕ → ℕ) → ℕ → ℕ
table_from bytes c = load16 bytes (2 * c)

-- The loop of `comp_file_name`, with `k` characters left, from the character `i`.
unfoldable pub comp_loop : (k : ℕ) → (ptr1 ptr2 : ℕ → ℕ) → (i : ℕ) → Bool
comp_loop zero ptr1 ptr2 i = true
comp_loop (suc k) ptr1 ptr2 i =
    let rest = comp_loop k ptr1 ptr2 (i + 1) in if ptr1 i == ptr2 i then rest else false

unfoldable pub comp_file_name : (ptr1 ptr2 : ℕ → ℕ) → Bool
comp_file_name ptr1 ptr2 = comp_loop (strnlen ptr2 8) ptr1 ptr2 0

-- The loop of `read_file` and `delete_file` that looks for a name, with `k` entries left.
unfoldable pub find_file : (k : ℕ) → (dir name : ℕ → ℕ) → (i : ℕ) → Option ℕ
find_file zero dir name i = none
find_file (suc k) dir name i =
    let rest = find_file k dir name (i + 1) in
    if comp_file_name (λ j. dir (entry i + j)) name then some i else rest

-- The loop of `create_file` that looks for an unused entry, with `k` entries left.
unfoldable pub find_slot : (k : ℕ) → (dir : ℕ → ℕ) → (i : ℕ) → Option ℕ
find_slot zero dir i = none
find_slot (suc k) dir i =
    let rest = find_slot k dir (i + 1) in if dir (entry i) == 0 then some i else rest

-- A character of a name of at most `max` of them, or a space behind its end.
unfoldable pub padded : (name : ℕ → ℕ) → (max i : ℕ) → ℕ
padded name max i = if not (name i == 0) && ltb i (strnlen name max) then name i else 32

-- The copy of the new file to its entry. The padding keeps its bytes.
unfoldable pub put_entry :
    (i : ℕ)
    → (name ext : ℕ → ℕ) → (first_cluster attribute : ℕ) → (time_stamp : ℕ → ℕ) → (size : ℕ)
    → (dir : ℕ → ℕ) → ℕ
    → ℕ
put_entry i name ext first_cluster attribute time_stamp size dir =
    let named = copy 8 (padded name 8) 0 dir (entry i) in
    let typed = copy 3 (padded ext 3) 0 named (entry i + ext_at) in
    let placed = store16 first_cluster typed (entry i + first_cluster_at) in
    let marked = update placed (entry i + attribute_at) attribute in
    let stamped = copy 6 time_stamp 0 marked (entry i + time_stamp_at) in
    store32 size stamped (entry i + size_at)

-- `list_files`: the numbers of a time are bytes of the directory.
unfoldable pub write_chars : (k : ℕ) → (ch : ℕ → ℕ) → (j : ℕ) → Terminal → Terminal
write_chars zero ch j t = t
write_chars (suc k) ch j t = write_chars k ch (j + 1) (terminal_write_char (ch j) white black t)

abbrev pub time_of : (time_stamp : ℕ → ℕ) → RtcTime
time_of time_stamp = record {
  seconds = time_stamp 0;
  minutes = time_stamp 1;
  hours = time_stamp 2;
  day = time_stamp 3;
  month = time_stamp 4;
  year = time_stamp 5;
}

-- The contents of the stack before the call are `tmp` and `buf`.
module _ (tmp buf : ℕ → ℕ) where
  unfoldable pub list_entry : (dir : ℕ → ℕ) → (i : ℕ) → Terminal → Terminal
  list_entry dir i t =
      let named = write_chars 8 (λ j. dir (entry i + j)) 0 t in
      let dotted = terminal_write_char 46 white black named in
      let typed = write_chars 3 (λ j. dir (entry i + ext_at + j)) 0 dotted in
      let spaced = print (32 ∷ 32 ∷ []) typed in
      let timed = print_time tmp buf (time_of (λ j. dir (entry i + time_stamp_at + j))) spaced in
      print (10 ∷ []) timed

  unfoldable pub list_loop : (k : ℕ) → (dir : ℕ → ℕ) → (i : ℕ) → Terminal → Terminal
  list_loop zero dir i t = t
  list_loop (suc k) dir i t =
      list_loop k dir (i + 1) (if dir (entry i) == 0 then t else list_entry dir i t)

  unfoldable pub list_files : (dir : ℕ → ℕ) → Terminal → Terminal
  list_files dir t = list_loop root_entries dir 0 t

module _ (b : Blocks) (buff : ℕ → ℕ) where
  -- The module's variables, the kernel's heap and the disk. The contents of a file are a region apart.
  pub record Fs : Type 0 where
    pub table : ℕ → ℕ
    pub dir : ℕ → ℕ
    pub kernel : Kernel
    pub device : b.Device

  -- `none` also stands for the use of a null stream.
  abbrev pub open_stream : Fs → Option (DiskStream × Fs)
  open_stream s =
      let (opened, kernel) = disk_streamer_new b 0 s.kernel in
      opened >>= λ stream. some (stream, record s { kernel = kernel })

  -- A part of memory, written to a sector on or read from it.
  abbrev pub save_area :
      DiskStream → (sector : ℕ) → (memory : ℕ → ℕ) → (total : ℕ) → b.Device → Option (Transfer b)
  save_area stream sector memory total d =
      disk_streamer_write b (disk_streamer_seek stream (sector * sector_size)) buff memory 0 total d

  abbrev pub load_area :
      DiskStream → (sector : ℕ) → (memory : ℕ → ℕ) → (total : ℕ) → b.Device → Option (Transfer b)
  load_area stream sector memory total d =
      disk_streamer_read b (disk_streamer_seek stream (sector * sector_size)) buff memory 0 total d

  abbrev pub close_area : DiskStream → b.Device → Fs → Fs
  close_area stream d s = record s { kernel = disk_streamer_close stream s.kernel; device = d }

  -- It reads as many bytes as the table has entries.
  unfoldable pub read_fat12_table : Fs → Option Fs
  read_fat12_table s = do
    (stream, s') ← open_stream s
    t ← load_area stream fat1_sector (table_bytes s'.table) total_fat12_entries s'.device
    some (close_area t.stream t.device (record s' { table = table_from t.memory }))

  -- The table is cleared memory at first. `none` also stands for the use of a null table.
  unfoldable pub fat12_table_init : Fs → Option Fs
  unfolding read_fat12_table
  fat12_table_init s =
      let (ptr, kernel) = kzalloc (2 * total_fat12_entries) s.kernel in
      if ptr == 0 then none else read_fat12_table (record s { table = λ c. 0; kernel = kernel })

  unfoldable pub write_into_memory : (i : ℕ) → (content : ℕ → ℕ) → Fs → Option Fs
  write_into_memory i content s = do
    (stream, s1) ← open_stream s
    let size = load32 s1.dir (entry i + size_at)
    let first_cluster = load16 s1.dir (entry i + first_cluster_at)
    (kernel, d) ←
        write_data_into_memory b s1.table buff size first_cluster content s1.kernel s1.device
    t ← save_area stream fat1_sector (table_bytes s1.table) (2 * total_fat12_entries) d
    t' ← save_area t.stream start_root_dir s1.dir (root_entries * entry_size) t.device
    some (close_area t'.stream t'.device (record s1 { kernel = kernel }))
