-- ===== src/Vga/Erase.antt =====
-- What a backspace erases.
use lazy_os.Prelude.{
  ℕ, ◌+◌, ◌-◌, ◌*◌, ◌≤◌, ◌<◌, ◌≡◌, ◌∙◌, sym, ap, ◌/◌, if◌then◌else◌, ◌⊎◌, inl, inr, false, ◌&&◌,
  arith, ◌==◌, Bool-cases, ◌%◌, ◌^◌,
}
use lazy_os.Vga.{
  vga_width, vga_height, black, blank, Terminal, terminal_make_char, terminal_put_char, back_one,
  cell_attr, at_origin, backspace,
}
use lazy_os.Vga.Cursor.{IsValid}
use lazy_os.Vga.Walk.{position, back_one-IsBack, skip_black-IsStop, IsWalked, IsWalked-put}

-- The cell at the cursor, the attribute of a cell, and the cell behind the last one that a backspace
-- erases: in the first column the cell under the cursor counts too, since the step back goes to the
-- position behind the last column of the row above, which names the same cell.
abbrev pub cursor_cell : Terminal → ℕ
cursor_cell t = t.terminal_row * vga_width + t.terminal_col

abbrev pub attr_of : (cell : ℕ) → Terminal → ℕ
attr_of cell t = t.video_mem cell / 2 ^ 8 % 2 ^ 8

abbrev pub limit : Terminal → ℕ
limit t = if t.terminal_col == 0 then cursor_cell t + 1 else cursor_cell t

-- The cursor goes to the last cell in front of the limit that is not black, or to the first one of the
-- screen; that cell is erased, and no other cell changes.
pub record IsErased (t u : Terminal) : Type 0 where
  pub valid : IsValid u
  pub before : cursor_cell u < limit t
  pub stop : (cursor_cell u ≡ 0) ⊎ ((attr_of (cursor_cell u) t == 0) ≡ false)
  pub skipped : (i : ℕ) → cursor_cell u < i → i < limit t → attr_of i t ≡ 0
  pub inside : cursor_cell u < vga_height * vga_width
  pub cells :
      (i : ℕ)
      → u.video_mem i
        ≡ (if cursor_cell u == i then terminal_make_char blank black black else t.video_mem i)

-- A position whose cell is `i`, between the two.
position_of :
    (row col row' col' i : ℕ)
    → col ≤ 80
    → col' ≤ 80
    → row' * 80 + col' < i
    → i < (if col == 0 then row * 80 + col + 1 else row * 80 + col)
    → (p : ℕ) × (row' * 81 + col' < p) × (p < row * 81 + col) × (p / 81 * 80 + p % 81 ≡ i)
position_of row col row' col' i small small' above below = elim (Bool-cases (i == row * 80)) [
  | inl edge ↦
      let e : i ≡ row * 80 = ground arith in (row * 81 - 1, omega arith, omega arith, omega arith)
  | inr inner ↦ (i / 80 * 81 + i % 80, omega arith, ground arith, omega arith)
]

IsWalked-IsErased : (t u : Terminal) → IsValid t → IsWalked t u → IsErased t u
unfolding cell_attr
IsWalked-IsErased t u valid w =
    let col = valid.col in
    let col' = w.valid.col in
    let row = valid.row in
    record {
      valid = w.valid;
      before = let lt = w.before in ground arith;
      stop = elim w.stop [ inl e ↦ inl (omega arith) | inr e ↦ inr e ];
      skipped = λ i above below.
          let (p, from, to, same) =
            position_of t.terminal_row t.terminal_col u.terminal_row u.terminal_col i col col' above
              below in
          ap (λ j. t.video_mem j / 2 ^ 8 % 2 ^ 8) (sym same) ∙ w.skipped p from to;
      inside = w.inside;
      cells = w.cells;
    }

-- From a cursor in the screen past the first cell, the backspace goes to the last cell before the
-- cursor that is not black, or to the first one of the screen if there is none, and erases it; no
-- other cell changes. With the cursor in the first column, the cell under the cursor counts as one
-- before it.
pub backspace-IsErased : (t : Terminal) → IsValid t → 0 < cursor_cell t → IsErased t (backspace t)
unfolding backspace terminal_put_char at_origin
backspace-IsErased t valid past =
    let pos : 0 < position t = omega arith in
    let b = back_one-IsBack t valid in
    let s = skip_black-IsStop (position (back_one t)) (back_one t) b.valid (omega arith) in
    let origin : (t.terminal_col == 0 && t.terminal_row == 0) ≡ false = ground arith in
    rw origin (IsWalked-IsErased t _ valid (IsWalked-put t (back_one t) _ valid pos b s))
