-- ===== src/Vga/Tests.antt =====
-- The terminal's theorems on a screen of white letters.
use lazy_os.Prelude.{arith, [], ◌∷◌}
use lazy_os.Vga.{Terminal, white, black, print_color, backspace}
use lazy_os.Vga.Cursor.{IsValid, IsStep, print_color-IsStep}
use lazy_os.Vga.Erase.{IsErased, backspace-IsErased}

-- Cell `i` holds the number `i`, and the cursor is in the last row.
abbrev numbered : Terminal
numbered = record {
  video_mem = λ i. i;
  terminal_row = 19;
  terminal_col = 80;
  saved_screen = λ i. 0;
  saved_row = 0;
  saved_col = 0;
}

numbered-IsValid : IsValid numbered
numbered-IsValid = record { row = omega arith; col = omega arith }

print_color-IsStep_example : IsStep numbered (print_color (65 ∷ 10 ∷ 66 ∷ []) white black numbered)
print_color-IsStep_example =
    print_color-IsStep (65 ∷ 10 ∷ 66 ∷ []) white black numbered numbered-IsValid

-- The cursor is in the first column, on a cell that is not black.
abbrev first_column : Terminal
first_column = record numbered { terminal_row = 5; terminal_col = 0 }

backspace-IsErased_example : IsErased first_column (backspace first_column)
backspace-IsErased_example =
    backspace-IsErased first_column (record { row = omega arith; col = omega arith }) (omega arith)
