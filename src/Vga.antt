-- ===== src/Vga.antt =====
-- src/drivers/VGA/VGA.c: the text terminal, its cells, its cursor and the saved screen. The video
-- memory is a function from the index of a 16-bit cell; the nested loops over rows and columns visit
-- the cells in the order of their index, so each is one loop on it.
pub mod Cursor
pub mod Screen
pub mod Walk
pub mod Erase
mod Tests
use lazy_os.Prelude.{
  ℕ, zero, suc, ◌+◌, ◌-◌, ◌*◌, ◌/◌, ◌%◌, ◌^◌, bit_or, Bool, true, false, not, ◌&&◌, List, [], ◌∷◌,
  ◌==◌, if◌then◌else◌, leb, ltb, update,
}

abbrev pub vga_width : ℕ
vga_width = 80

abbrev pub vga_height : ℕ
vga_height = 20

-- The colours by the order of the enumeration, and the characters '\n' and ' '.
abbrev pub black : ℕ
black = 0

abbrev pub blue : ℕ
blue = 1

abbrev pub green : ℕ
green = 2

abbrev pub cyan : ℕ
cyan = 3

abbrev pub purple : ℕ
purple = 5

abbrev pub white : ℕ
white = 15

abbrev pub new_line : ℕ
new_line = 10

abbrev pub blank : ℕ
blank = 32

-- The globals of the file.
pub record Terminal : Type 0 where
  pub video_mem : ℕ → ℕ
  pub terminal_row : ℕ
  pub terminal_col : ℕ
  pub saved_screen : ℕ → ℕ
  pub saved_row : ℕ
  pub saved_col : ℕ

-- `c` is a byte; a `char` is signed, so that one above 127 has all the higher bits set.
unfoldable pub terminal_make_char : (c fg bg : ℕ) → ℕ
terminal_make_char c fg bg =
    let color = bit_or (bg * 2 ^ 4) fg % 2 ^ 8 in
    let char : ℕ = if leb 128 c then c + (2 ^ 32 - 2 ^ 8) else c in
    bit_or (color * 2 ^ 8) char % 2 ^ 16

unfoldable pub terminal_put_char : (x y fg bg ch : ℕ) → Terminal → Terminal
terminal_put_char x y fg bg ch t =
    let location = (y * vga_width + x) % 2 ^ 16 in
    record t { video_mem = update t.video_mem location (terminal_make_char ch fg bg) }

-- The loop that moves the rows up, with `k` cells left, from the cell `i`.
unfoldable pub move_up : (k : ℕ) → (ℕ → ℕ) → (i : ℕ) → ℕ → ℕ
move_up zero video i = video
move_up (suc k) video i = move_up k (update video i (video (i + vga_width))) (i + 1)

-- The loops that write one value to the cells, with `k` cells left, from the cell `i`.
unfoldable pub set_cells : (k : ℕ) → (ℕ → ℕ) → (i v : ℕ) → ℕ → ℕ
set_cells zero video i v = video
set_cells (suc k) video i v = set_cells k (update video i v) (i + 1) v

unfoldable pub terminal_scroll : Terminal → Terminal
terminal_scroll t =
    let moved = move_up ((vga_height - 1) * vga_width) t.video_mem 0 in
    record t {
      video_mem =
          set_cells vga_width moved ((vga_height - 1) * vga_width)
            (terminal_make_char blank black black);
    }

-- The first column of the next row, which scrolls at the end of the screen.
unfoldable pub next_row : Terminal → Terminal
next_row t =
    let row = (t.terminal_row + 1) % 2 ^ 16 in
    let down = record t { terminal_row = row; terminal_col = 0 } in
    if leb vga_height row
    then record (terminal_scroll down) { terminal_row = vga_height - 1 }
    else down

unfoldable pub terminal_write_char : (c fg bg : ℕ) → Terminal → Terminal
terminal_write_char c fg bg t =
    let t' = if leb vga_width t.terminal_col then next_row t else t in
    let put = terminal_put_char t'.terminal_col t'.terminal_row fg bg c t' in
    if c == new_line
    then next_row t
    else record put { terminal_col = (put.terminal_col + 1) % 2 ^ 16 }

unfoldable pub terminal_clear : Terminal → Terminal
terminal_clear t = record t {
  video_mem =
      set_cells (vga_height * vga_width) t.video_mem 0 (terminal_make_char blank black black);
  terminal_row = 0;
  terminal_col = 0;
}

-- `terminal_initialize` also sets the address of the video memory, which is fixed here.
unfoldable pub terminal_initialize : Terminal → Terminal
terminal_initialize t =
    let home = record t { terminal_row = 0; terminal_col = 0 } in
    record home {
      video_mem =
          set_cells (vga_height * vga_width) home.video_mem 0
            (terminal_make_char blank black black);
    }

-- The characters of a string, as `print` and `print_color` write them.
unfoldable pub print_color : (msg : List ℕ) → (fg bg : ℕ) → Terminal → Terminal
print_color [] fg bg t = t
print_color (c ∷ msg) fg bg t = print_color msg fg bg (terminal_write_char c fg bg t)

unfoldable pub print : (msg : List ℕ) → Terminal → Terminal
print msg t = print_color msg white black t

unfoldable pub back_one : Terminal → Terminal
back_one t =
    if t.terminal_col == 0
    then (if t.terminal_row == 0
        then t
        else record t { terminal_row = t.terminal_row - 1; terminal_col = vga_width })
    else record t { terminal_col = t.terminal_col - 1 }

unfoldable pub cell_attr : (x y : ℕ) → Terminal → ℕ
cell_attr x y t = t.video_mem (y * vga_width + x) / 2 ^ 8 % 2 ^ 8

unfoldable pub at_origin : Terminal → Bool
at_origin t = t.terminal_col == 0 && t.terminal_row == 0

-- The loop of `Backspace`, on fuel.
unfoldable pub skip_black : (fuel : ℕ) → Terminal → Terminal
skip_black zero t = t
skip_black (suc fuel) t =
    let rest = skip_black fuel (back_one t) in
    if not (at_origin t) && (cell_attr t.terminal_col t.terminal_row t == 0) then rest else t

-- The fuel is the number of positions before the cursor.
unfoldable pub backspace : Terminal → Terminal
backspace t =
    let back = back_one t in
    let found = skip_black (back.terminal_row * 81 + back.terminal_col) back in
    if at_origin t
    then t
    else terminal_put_char found.terminal_col found.terminal_row black black blank found

-- The loop that copies the cells, with `k` cells left, from the cell `i`.
unfoldable pub copy_cells : (k : ℕ) → (from to : ℕ → ℕ) → (i : ℕ) → ℕ → ℕ
copy_cells zero from to i = to
copy_cells (suc k) from to i = copy_cells k from (update to i (from i)) (i + 1)

unfoldable pub save_window_content : Terminal → Terminal
save_window_content t = record t {
  saved_row = t.terminal_row % 2 ^ 8;
  saved_col = t.terminal_col % 2 ^ 8;
  saved_screen = copy_cells (vga_height * vga_width) t.video_mem t.saved_screen 0;
  terminal_row = 0;
  terminal_col = 0;
}

unfoldable pub retrive_saved_window : Terminal → Terminal
retrive_saved_window t = record t {
  video_mem = copy_cells (vga_height * vga_width) t.saved_screen t.video_mem 0;
  terminal_row = t.saved_row;
  terminal_col = t.saved_col;
}

-- The title that the editor shows.
abbrev pub editor_title : List ℕ
editor_title =
    84 ∷ 101 ∷ 114 ∷ 109 ∷ 105 ∷ 97 ∷ 110 ∷ 108 ∷ 32 ∷ 109 ∷ 111 ∷ 100 ∷ 101 ∷ 32 ∷ 58 ∷ []

unfoldable pub print_digit : (num : ℕ) → Terminal → Terminal
print_digit num t = terminal_write_char ((num + 48) % 2 ^ 8) blue purple t

unfoldable pub enter_editor_mode : (filename : List ℕ) → Terminal → Terminal
unfolding print
enter_editor_mode filename t =
    let title = print_color editor_title green black (terminal_clear t) in
    print (new_line ∷ new_line ∷ []) (print_color filename cyan black title)
