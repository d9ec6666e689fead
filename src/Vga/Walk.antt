-- ===== src/Vga/Walk.antt =====
-- The walk of a backspace over black cells: it ends, and where.
use lazy_os.Prelude.{
  ℕ, zero, suc, ◌+◌, ◌-◌, ◌*◌, ◌≤◌, ◌<◌, ◌≡◌, refl, ◌∙◌, sym, ap, ◌≢◌, ◌/◌, if◌then◌else◌, ◌⊎◌, inl,
  inr, false, not, ◌&&◌, arith, ◌==◌, Bool-cases, ◌%◌, ◌^◌,
}
use lazy_os.Vga.{
  vga_width, vga_height, black, blank, Terminal, terminal_make_char, terminal_put_char, back_one,
  cell_attr, at_origin, skip_black,
}
use lazy_os.Vga.Cursor.{IsValid}

-- The walk's positions before the cursor, of which each row has 81: the last one of a row shares its cell
-- with the first one of the next row. And the attribute of the cell at a position.
abbrev pub position : Terminal → ℕ
position t = t.terminal_row * 81 + t.terminal_col

abbrev pub attr_at : ℕ → Terminal → ℕ
attr_at p t = cell_attr (p % 81) (p / 81) t

-- Where a walk back from `t` stops: at the last position up to the cursor whose cell is not black, or
-- at the first of all.
pub record IsStop (t u : Terminal) : Type 0 where
  pub cells : u.video_mem ≡ t.video_mem
  pub valid : IsValid u
  pub before : position u ≤ position t
  pub stop : (position u ≡ 0) ⊎ ((cell_attr u.terminal_col u.terminal_row t == 0) ≡ false)
  pub skipped : (p : ℕ) → position u < p → p ≤ position t → attr_at p t ≡ 0

pub record IsBack (t u : Terminal) : Type 0 where
  pub cells : u.video_mem ≡ t.video_mem
  pub valid : IsValid u
  pub position_lem : position u ≡ position t - 1

pub back_one-IsBack : (t : Terminal) → IsValid t → IsBack t (back_one t)
unfolding back_one
back_one-IsBack t valid =
    let row = valid.row in
    let col = valid.col in
    elim (Bool-cases (t.terminal_col == 0)) [
      | inl first ↦
          let c : t.terminal_col ≡ 0 = ground arith in
          elim (Bool-cases (t.terminal_row == 0)) [
            | inl top ↦
                let r : t.terminal_row ≡ 0 = ground arith in
                rw (first, top) (record { cells = refl; valid = valid; position_lem = omega arith })
            | inr below ↦
                let r : 0 < t.terminal_row = ground arith in
                rw (first, below)
                  (record {
                    cells = refl;
                    valid = record { row = omega arith; col = omega arith };
                    position_lem = omega arith;
                  })
          ]
      | inr later ↦
          let c : 0 < t.terminal_col = ground arith in
          rw later (record {
            cells = refl;
            valid = record { row = row; col = omega arith };
            position_lem = omega arith;
          })
    ]

attr_at-position :
    (t : Terminal) → IsValid t → attr_at (position t) t ≡ cell_attr t.terminal_col t.terminal_row t
attr_at-position t valid =
    let col = valid.col in
    let c : position t % 81 ≡ t.terminal_col = omega arith in
    let r : position t / 81 ≡ t.terminal_row = omega arith in rw (c, r) refl

-- The attribute depends on the cells only.
cell_attr-cells :
    (t u : Terminal) (x y : ℕ) → u.video_mem ≡ t.video_mem → cell_attr x y u ≡ cell_attr x y t
unfolding cell_attr
cell_attr-cells t u x y e = rw e refl

-- One more black cell in front of a walk.
IsStop-back :
    (t u v : Terminal)
    → IsValid t
    → cell_attr t.terminal_col t.terminal_row t ≡ 0
    → IsBack t u
    → IsStop u v
    → IsStop t v
IsStop-back t u v valid dark b s = record {
  cells = s.cells ∙ b.cells;
  valid = s.valid;
  before = omega (arith, s.before, b.position_lem);
  stop = elim s.stop [
    | inl e ↦ inl e
    | inr e ↦ inr (rw (← cell_attr-cells t u v.terminal_col v.terminal_row b.cells) e)
  ];
  skipped = λ p lt le. elim (Bool-cases (p == position t)) [
    | inl e ↦
        let e' : p ≡ position t = ground arith in
        ap (λ q. attr_at q t) e' ∙ attr_at-position t valid ∙ dark
    | inr ne ↦
        let ne' : p ≢ position t = ground arith in
        sym (cell_attr-cells t u (p % 81) (p / 81) b.cells)
        ∙ s.skipped p lt (omega (arith, b.position_lem))
  ];
}

IsStop-here :
    (t : Terminal)
    → IsValid t
    → (position t ≡ 0) ⊎ ((cell_attr t.terminal_col t.terminal_row t == 0) ≡ false)
    → IsStop t t
IsStop-here t valid stop = record {
  cells = refl;
  valid = valid;
  before = omega arith;
  stop = stop;
  skipped = λ p lt le. absurd (omega arith);
}

pub skip_black-IsStop :
    (fuel : ℕ) (t : Terminal) → IsValid t → position t ≤ fuel → IsStop t (skip_black fuel t)
unfolding skip_black at_origin
skip_black-IsStop zero t valid h = IsStop-here t valid (inl (omega arith))
skip_black-IsStop (suc fuel) t valid h =
    let b = back_one-IsBack t valid in
    elim (Bool-cases (not (at_origin t) && (cell_attr t.terminal_col t.terminal_row t == 0))) [
      | inl more ↦
          let later = skip_black-IsStop fuel (back_one t) b.valid (omega (arith, b.position_lem)) in
          let dark : cell_attr t.terminal_col t.terminal_row t ≡ 0 = ground arith in
          rw more (IsStop-back t (back_one t) _ valid dark b later)
      | inr last ↦ rw last (IsStop-here t valid (ground arith))
    ]

-- Where the walk of a backspace ends, whose cell is then erased.
pub record IsWalked (t u : Terminal) : Type 0 where
  pub valid : IsValid u
  pub before : position u < position t
  pub stop : (position u ≡ 0) ⊎ ((cell_attr u.terminal_col u.terminal_row t == 0) ≡ false)
  pub skipped : (p : ℕ) → position u < p → p < position t → attr_at p t ≡ 0
  pub inside : u.terminal_row * vga_width + u.terminal_col < vga_height * vga_width
  pub cells :
      (i : ℕ)
      → u.video_mem i ≡ (
          if u.terminal_row * vga_width + u.terminal_col == i
          then terminal_make_char blank black black
          else t.video_mem i)

-- The cell at which the walk stops is in the screen.
stop-inside :
    (t v : Terminal)
    → IsValid t
    → IsValid v
    → position v < position t
    → v.terminal_row * vga_width + v.terminal_col < vga_height * vga_width
stop-inside t v valid valid' lt =
    let row = valid.row in
    let col = valid.col in let row' = valid'.row in let col' = valid'.col in omega arith

pub IsWalked-put :
    (t u v : Terminal)
    → IsValid t
    → 0 < position t
    → IsBack t u
    → IsStop u v
    → IsWalked t (terminal_put_char v.terminal_col v.terminal_row black black blank v)
unfolding terminal_put_char
IsWalked-put t u v valid pos b s =
    let lt : position v < position t = omega (arith, s.before, b.position_lem) in
    let inside = stop-inside t v valid s.valid lt in
    let location : (v.terminal_row * vga_width + v.terminal_col) % 2 ^ 16
        ≡ v.terminal_row * vga_width + v.terminal_col =
      omega arith in
    record {
      valid = record { row = s.valid.row; col = s.valid.col };
      before = lt;
      stop = elim s.stop [
        | inl e ↦ inl e
        | inr e ↦ inr (rw (← cell_attr-cells t u v.terminal_col v.terminal_row b.cells) e)
      ];
      skipped = λ p above below.
          sym (cell_attr-cells t u (p % 81) (p / 81) b.cells)
          ∙ s.skipped p above (omega (arith, b.position_lem));
      inside = inside;
      cells = λ i. rw (location, s.cells, b.cells) refl;
    }
