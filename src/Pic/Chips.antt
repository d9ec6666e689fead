-- ===== src/Pic/Chips.antt =====
-- What `PIC_remap` relies on of the two 8259 controllers, as their data sheet gives it.
use lazy_os.Prelude.{
  ℕ, ◌+◌, ◌-◌, ◌%◌, ◌<◌, ◌≡◌, ◌≢◌, refl, ap, ◌∙◌, Bool, true, false, not, List, [], ◌∷◌, arith,
  bit_and, ◌==◌, if◌then◌else◌,
}
use lazy_os.Ports.{Ports}
use lazy_os.Vga.{Terminal}
use lazy_os.Pic.{pic1_command, pic1_data, pic2_command, pic2_data, remap_ports, pic_remap}

-- The words of the initialisation that a chip waits for; `operating` takes the mask.
pub data Stage : Type 0 where
  operating wants_vector wants_cascade wants_mode : Stage

-- What the words of the initialisation set: whether the chip stands alone, whether a mode word comes,
-- whether its lines are triggered by their level, the vector of its first line, the cascade word and
-- the mode word. Then the lines that are masked, and those in service, the highest priority first.
pub record Chip : Type 0 where
  pub stage : Stage
  pub single : Bool
  pub has_mode : Bool
  pub by_level : Bool
  pub vector : ℕ
  pub cascade : ℕ
  pub mode : ℕ
  pub masked : ℕ
  pub in_service : List ℕ

-- A first word of the initialisation: the bit 0x01 announces a mode word, which is zero without one,
-- 0x02 says that the chip stands alone, and 0x08 that the lines are triggered by their level. It masks
-- no line.
abbrev pub first_word : (value : ℕ) → Chip → Chip
first_word value chip = record chip {
  stage = wants_vector;
  single = not (bit_and value 0x02 == 0);
  has_mode = not (bit_and value 0x01 == 0);
  by_level = not (bit_and value 0x08 == 0);
  mode = if bit_and value 0x01 == 0 then 0 else chip.mode;
  masked = 0;
}

-- The end of the interrupt of the highest priority in service.
abbrev pub served : List ℕ → List ℕ
served [] = []
served (line ∷ lines) = lines

abbrev pub end_of_interrupt : Chip → Chip
end_of_interrupt chip = record chip { in_service = served chip.in_service }

abbrev pub before_mode : Chip → Stage
before_mode chip = if chip.has_mode then wants_mode else operating

-- A write to the data port: the lowest three bits of the vector are the number of the line.
abbrev pub data_word : (value : ℕ) → Stage → Chip → Chip
data_word value operating chip = record chip { masked = value }
data_word value wants_vector chip = record chip {
  vector = value - value % 8;
  stage = if chip.single then before_mode chip else wants_cascade;
}
data_word value wants_cascade chip = record chip { cascade = value; stage = before_mode chip }
data_word value wants_mode chip = record chip { mode = value; stage = operating }

-- A word to the command port that has the bit 0x10 is a first word of the initialisation, and 0x20 is
-- the end of an interrupt. Nothing is said of the other words.
-- The ports 0x20 and 0x21 are the first chip's, and 0xA0 and 0xA1 the second one's.
pub record Chips (p : Ports) : Type 0 where
  pub first : p.State → Chip
  pub second : p.State → Chip
  pub first_starts :
      (value : ℕ) (s : p.State)
      → bit_and value 0x10 ≢ 0
      → (first (p.outb pic1_command value s) ≡ first_word value (first s))
        × (second (p.outb pic1_command value s) ≡ second s)
  pub first_ends :
      (s : p.State)
      → (first (p.outb pic1_command 0x20 s) ≡ end_of_interrupt (first s))
        × (second (p.outb pic1_command 0x20 s) ≡ second s)
  pub first_data :
      (value : ℕ) (s : p.State)
      → (first (p.outb pic1_data value s) ≡ data_word value (first s).stage (first s))
        × (second (p.outb pic1_data value s) ≡ second s)
  pub second_starts :
      (value : ℕ) (s : p.State)
      → bit_and value 0x10 ≢ 0
      → (second (p.outb pic2_command value s) ≡ first_word value (second s))
        × (first (p.outb pic2_command value s) ≡ first s)
  pub second_ends :
      (s : p.State)
      → (second (p.outb pic2_command 0x20 s) ≡ end_of_interrupt (second s))
        × (first (p.outb pic2_command 0x20 s) ≡ first s)
  pub second_data :
      (value : ℕ) (s : p.State)
      → (second (p.outb pic2_data value s) ≡ data_word value (second s).stage (second s))
        × (first (p.outb pic2_data value s) ≡ first s)

-- A chip that is initialised, in 8086 mode, with another chip and lines that are triggered by their
-- edge: its lines are the eight vectors from `vector` on, and none is masked.
abbrev pub remapped : (vector cascade : ℕ) → Chip → Chip
remapped vector cascade chip = record {
  stage = operating;
  single = false;
  has_mode = true;
  by_level = false;
  vector = vector;
  cascade = cascade;
  mode = 1;
  masked = 0;
  in_service = chip.in_service;
}

module _ (p : Ports) (k : Chips p) where
  -- The two chips of a state.
  abbrev AreChips : (a b : Chip) → p.State → Type 0
  AreChips a b s = (k.first s ≡ a) × (k.second s ≡ b)

  after_first_command :
      (value : ℕ) {a b : Chip} (s : p.State)
      → bit_and value 0x10 ≢ 0
      → AreChips a b s
      → AreChips (first_word value a) b (p.outb pic1_command value s)
  after_first_command value s starts (ea, eb) =
      let (e, e') = k.first_starts value s starts in (e ∙ ap (first_word value) ea, e' ∙ eb)

  after_first_data :
      (value : ℕ) {a b : Chip} (s : p.State)
      → AreChips a b s
      → AreChips (data_word value a.stage a) b (p.outb pic1_data value s)
  after_first_data value s (ea, eb) =
      let (e, e') = k.first_data value s in
      (e ∙ ap (λ (c : Chip). data_word value c.stage c) ea, e' ∙ eb)

  after_second_command :
      (value : ℕ) {a b : Chip} (s : p.State)
      → bit_and value 0x10 ≢ 0
      → AreChips a b s
      → AreChips a (first_word value b) (p.outb pic2_command value s)
  after_second_command value s starts (ea, eb) =
      let (e, e') = k.second_starts value s starts in (e' ∙ ea, e ∙ ap (first_word value) eb)

  after_second_data :
      (value : ℕ) {a b : Chip} (s : p.State)
      → AreChips a b s
      → AreChips a (data_word value b.stage b) (p.outb pic2_data value s)
  after_second_data value s (ea, eb) =
      let (e, e') = k.second_data value s in
      (e' ∙ ea, e ∙ ap (λ (c : Chip). data_word value c.stage c) eb)

  -- From an offset that is a multiple of eight, below 248, `PIC_remap` leaves both chips
  -- initialised, whatever they were doing: in 8086 mode, in cascade and with lines that are
  -- triggered by their edge; the first one's lines are the vectors from the offset on, the second
  -- one's the eight vectors behind them, the second one is on line 2 of the first, and no line is
  -- masked.
  pub pic_remap_lem :
      (offset : ℕ) (t : Terminal) (s : p.State)
      → offset % 8 ≡ 0
      → offset < 248
      → (k.first (pic_remap p offset (t, s)).1 ≡ remapped offset 4 (k.first s))
        × (k.second (pic_remap p offset (t, s)).1 ≡ remapped (offset + 8) 2 (k.second s))
  unfolding pic_remap remap_ports
  pic_remap_lem offset t s aligned small =
      let v1 : offset % 256 - offset % 256 % 8 ≡ offset = omega arith in
      let v2 : (offset + 8) % 256 - (offset + 8) % 256 % 8 ≡ offset + 8 = omega arith in
      let c1 = after_first_command 0x11 s (omega arith) (refl, refl) in
      let c2 = after_second_command 0x11 _ (omega arith) c1 in
      let c3 = after_first_data (offset % 256) _ c2 in
      let c4 = after_second_data ((offset + 8) % 256) _ c3 in
      let c5 = after_first_data 4 _ c4 in
      let c6 = after_second_data 2 _ c5 in
      let c7 = after_first_data 1 _ c6 in
      let c8 = after_second_data 1 _ c7 in
      let c9 = after_first_data 0 _ c8 in rw (v1, v2) at (after_second_data 0 _ c9)
