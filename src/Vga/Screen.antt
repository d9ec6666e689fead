-- ===== src/Vga/Screen.antt =====
-- What scrolling does to the cells, and the round trip of the saved screen.
use lazy_os.Prelude.{
  ℕ, zero, suc, ◌+◌, ◌-◌, ◌*◌, ◌^◌, ◌<◌, ◌≡◌, ◌∙◌, arith, if◌then◌else◌, ltb, fill, within, update,
}
use lazy_os.Vga.{
  vga_width, vga_height, black, blank, Terminal, terminal_make_char, move_up, set_cells,
  terminal_scroll, copy_cells, save_window_content, retrive_saved_window,
}

copy_cells_lem :
    (k : ℕ) (from to : ℕ → ℕ) (i j : ℕ)
    → copy_cells k from to i j ≡ (if within i k j then from j else to j)
unfolding copy_cells
copy_cells_lem zero from to i j = ground arith
copy_cells_lem (suc k) from to i j =
    ground (arith, copy_cells_lem k from (update to i (from i)) (i + 1) j)

set_cells_lem : (k : ℕ) (video : ℕ → ℕ) (i v j : ℕ) → set_cells k video i v j ≡ fill video i k v j
unfolding set_cells
set_cells_lem zero video i v j = ground arith
set_cells_lem (suc k) video i v j = ground (arith, set_cells_lem k (update video i v) (i + 1) v j)

move_up_lem :
    (k : ℕ) (video : ℕ → ℕ) (i j : ℕ)
    → move_up k video i j ≡ (if within i k j then video (j + vga_width) else video j)
unfolding move_up
move_up_lem zero video i j = ground arith
move_up_lem (suc k) video i j =
    ground (arith, move_up_lem k (update video i (video (i + vga_width))) (i + 1) j)

-- The two ways to write the cases of a scroll.
scroll_cases :
    (next old v j : ℕ)
    → (if within ((vga_height - 1) * vga_width) vga_width j
        then v
        else (if within 0 ((vga_height - 1) * vga_width) j then next else old))
      ≡ (if ltb j ((vga_height - 1) * vga_width)
          then next
          else (if ltb j (vga_height * vga_width) then v else old))
scroll_cases next old v j = ground arith

-- After a scroll each row is the one that was below it, the last row is blank, and the memory past
-- the screen is as it was.
pub terminal_scroll_lem :
    (t : Terminal) (j : ℕ)
    → (terminal_scroll t).video_mem j ≡ (
        if ltb j ((vga_height - 1) * vga_width)
        then t.video_mem (j + vga_width)
        else (if ltb j (vga_height * vga_width)
            then terminal_make_char blank black black
            else t.video_mem j))
unfolding terminal_scroll
terminal_scroll_lem t j =
    let moved = move_up ((vga_height - 1) * vga_width) t.video_mem 0 in
    let v = terminal_make_char blank black black in
    rw
      (
        set_cells_lem vga_width moved ((vga_height - 1) * vga_width) v j,
        move_up_lem ((vga_height - 1) * vga_width) t.video_mem 0 j,
      )
      (scroll_cases (t.video_mem (j + vga_width)) (t.video_mem j) v j)

-- What `save_window_content` saves, `retrive_saved_window` brings back, whatever was written to
-- the video memory in between: the cells of the screen, and a cursor of coordinates below 256.
pub retrive_saved_window-save_window_content :
    (t : Terminal) (video : ℕ → ℕ) (row col j : ℕ)
    → t.terminal_row < 2 ^ 8
    → t.terminal_col < 2 ^ 8
    → let later = record (save_window_content t) {
      video_mem = video;
      terminal_row = row;
      terminal_col = col;
    } in
      let back = retrive_saved_window later in
      (back.terminal_row ≡ t.terminal_row)
      × (back.terminal_col ≡ t.terminal_col)
      × (back.video_mem j ≡ (if ltb j (vga_height * vga_width) then t.video_mem j else video j))
unfolding save_window_content retrive_saved_window
retrive_saved_window-save_window_content t video row col j p q =
    let saved = copy_cells_lem (vga_height * vga_width) t.video_mem t.saved_screen 0 j in
    let cells =
      copy_cells_lem (vga_height * vga_width)
        (copy_cells (vga_height * vga_width) t.video_mem t.saved_screen 0) video 0 j in
    (omega arith, omega arith, cells ∙ rw saved (ground arith))
