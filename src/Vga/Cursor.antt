-- ===== src/Vga/Cursor.antt =====
-- Where the cursor goes, and that the terminal writes inside its screen.
use lazy_os.Prelude.{
  ℕ, zero, suc, ◌+◌, ◌-◌, ◌*◌, ◌≤◌, ◌<◌, ◌≡◌, refl, inl, inr, false, arith, ◌==◌, leb,
  if◌then◌else◌, Bool-cases, List, [], ◌∷◌, ◌∙◌, update, ◌%◌, ◌^◌,
}
use lazy_os.Vga.{
  vga_width, vga_height, new_line, Terminal, terminal_put_char, move_up, set_cells, terminal_scroll,
  next_row, terminal_write_char, print_color,
}

-- The cursor is in a row of the screen; a column past the last one means a full row.
pub record IsValid (t : Terminal) : Type 0 where
  pub row : t.terminal_row < vga_height
  pub col : t.terminal_col ≤ vga_width

-- A step leaves the cursor valid and the memory past the screen as it is.
pub record IsStep (t u : Terminal) : Type 0 where
  pub valid : IsValid u
  pub outside : (i : ℕ) → vga_height * vga_width ≤ i → u.video_mem i ≡ t.video_mem i

set_cells-outside :
    (k : ℕ) (video : ℕ → ℕ) (i v j : ℕ) → i + k ≤ j → set_cells k video i v j ≡ video j
unfolding set_cells
set_cells-outside zero video i v j h = refl
set_cells-outside (suc k) video i v j h =
    set_cells-outside k (update video i v) (i + 1) v j (omega arith) ∙ ground arith

move_up-outside : (k : ℕ) (video : ℕ → ℕ) (i j : ℕ) → i + k ≤ j → move_up k video i j ≡ video j
unfolding move_up
move_up-outside zero video i j h = refl
move_up-outside (suc k) video i j h =
    move_up-outside k (update video i (video (i + vga_width))) (i + 1) j (omega arith)
    ∙ ground arith

-- A cell of the screen at the cursor, or the first cell of the row below.
terminal_put_char-IsStep :
    (x y fg bg ch : ℕ) (t : Terminal)
    → IsValid t
    → y * vga_width + x < vga_height * vga_width
    → IsStep t (terminal_put_char x y fg bg ch t)
unfolding terminal_put_char
terminal_put_char-IsStep x y fg bg ch t valid h = record {
  valid = record { row = valid.row; col = valid.col };
  outside = λ i p.
      let apart : ((y * vga_width + x) % 2 ^ 16 == i) ≡ false = ground arith in rw apart refl;
}

next_row-IsStep :
    (t : Terminal) → IsValid t → IsStep t (next_row t) × ((next_row t).terminal_col ≡ 0)
unfolding next_row terminal_scroll
next_row-IsStep t valid =
    let row = valid.row in
    let small : (t.terminal_row + 1) % 2 ^ 16 ≡ t.terminal_row + 1 = omega arith in
    elim (Bool-cases (leb vga_height ((t.terminal_row + 1) % 2 ^ 16))) [
      | inl last ↦ rw last (
        record {
          valid = record { row = omega arith; col = omega arith };
          outside = λ i p.
              set_cells-outside vga_width _ ((vga_height - 1) * vga_width) _ i p
              ∙ move_up-outside ((vga_height - 1) * vga_width) t.video_mem 0 i (omega arith);
        },
        refl,
      )
      | inr more ↦ rw more (
        record { valid = record { row = ground arith; col = omega arith }; outside = λ i p. refl },
        refl,
      )
    ]

IsStep-refl : (t : Terminal) → IsValid t → IsStep t t
IsStep-refl t valid = record { valid = valid; outside = λ i p. refl }

IsStep-trans : (t u v : Terminal) → IsStep t u → IsStep u v → IsStep t v
IsStep-trans t u v a b = record { valid = b.valid; outside = λ i p. b.outside i p ∙ a.outside i p }

-- The cursor after the test of `terminal_write_char` for the end of the row.
abbrev with_room : Terminal → Terminal
with_room t = if leb vga_width t.terminal_col then next_row t else t

with_room-IsStep :
    (t : Terminal) → IsValid t → IsStep t (with_room t) × ((with_room t).terminal_col < vga_width)
with_room-IsStep t valid = elim (Bool-cases (leb vga_width t.terminal_col)) [
  | inl full ↦ let (step, col) = next_row-IsStep t valid in rw full (step, omega (arith, col))
  | inr more ↦ rw more (IsStep-refl t valid, ground arith)
]

-- The character is put in a column of the screen, and the cursor moves to the next one.
put_and_move-IsStep :
    (c fg bg : ℕ) (t : Terminal)
    → IsValid t
    → t.terminal_col < vga_width
    → IsStep t (record (terminal_put_char t.terminal_col t.terminal_row fg bg c t) {
      terminal_col = (t.terminal_col + 1) % 2 ^ 16;
    })
unfolding terminal_put_char
put_and_move-IsStep c fg bg t valid h =
    let row = valid.row in
    let put =
      terminal_put_char-IsStep t.terminal_col t.terminal_row fg bg c t valid (omega arith) in
    record { valid = record { row = row; col = omega arith }; outside = put.outside }

terminal_put_char-col :
    (x y fg bg ch : ℕ) (t : Terminal)
    → (terminal_put_char x y fg bg ch t).terminal_col ≡ t.terminal_col
unfolding terminal_put_char
terminal_put_char-col x y fg bg ch t = refl

terminal_write_char-IsStep :
    (c fg bg : ℕ) (t : Terminal) → IsValid t → IsStep t (terminal_write_char c fg bg t)
unfolding terminal_write_char
terminal_write_char-IsStep c fg bg t valid = elim (Bool-cases (c == new_line)) [
  | inl line ↦ rw line (next_row-IsStep t valid).0
  | inr other ↦
      let (step, col) = with_room-IsStep t valid in
      rw
        (
          other,
          terminal_put_char-col (with_room t).terminal_col (with_room t).terminal_row fg bg c
              (with_room t),
        )
        (IsStep-trans t (with_room t) _ step
          (put_and_move-IsStep c fg bg (with_room t) step.valid col))
]

-- From a cursor in the screen, printing any string keeps the cursor in the screen and the memory
-- past the screen as it was.
pub print_color-IsStep :
    (msg : List ℕ) (fg bg : ℕ) (t : Terminal) → IsValid t → IsStep t (print_color msg fg bg t)
unfolding print_color
print_color-IsStep [] fg bg t valid = IsStep-refl t valid
print_color-IsStep (c ∷ msg) fg bg t valid =
    let one = terminal_write_char-IsStep c fg bg t valid in
    IsStep-trans t (terminal_write_char c fg bg t) _ one
      (print_color-IsStep msg fg bg (terminal_write_char c fg bg t) one.valid)
