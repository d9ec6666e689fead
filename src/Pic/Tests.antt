-- ===== src/Pic/Tests.antt =====
-- Two chips in another mode.
use lazy_os.Prelude.{ℕ, ◌≡◌, ◌≢◌, refl, arith, true, false, bit_and, [], ◌∷◌, ◌==◌, if◌then◌else◌}
use lazy_os.Ports.{Ports}
use lazy_os.Vga.{Terminal}
use lazy_os.Pic.{pic_offset, pic_remap}
use lazy_os.Pic.Chips.{
  Chip, operating, first_word, end_of_interrupt, data_word, Chips, remapped, pic_remap_lem,
}

record Pair : Type 0 where
  first : Chip
  second : Chip

-- The words of the two kinds, and no effect of the others.
abbrev command_word : (value : ℕ) → Chip → Chip
command_word value chip =
    if bit_and value 0x10 == 0
    then (if value == 0x20 then end_of_interrupt chip else chip)
    else first_word value chip

command_word-starts :
    (value : ℕ) (chip : Chip)
    → bit_and value 0x10 ≢ 0
    → command_word value chip ≡ first_word value chip
command_word-starts value chip starts =
    let e : (bit_and value 0x10 == 0) ≡ false = ground arith in rw e refl

abbrev write : (port value : ℕ) → Pair → Pair
write port value s =
    if port == 0x20
    then record s { first = command_word value s.first }
    else if port == 0x21
    then record s { first = data_word value s.first.stage s.first }
    else if port == 0xA0
    then record s { second = command_word value s.second }
    else if port == 0xA1
    then record s { second = data_word value s.second.stage s.second }
    else s

abbrev ports : Ports
ports = record {
  State = Pair;
  insb = λ port s. (0, s);
  insw = λ port s. (0, s);
  outb = write;
  outw = λ port value s. s;
  cli = λ s. s;
  sti = λ s. s;
}

abbrev chips : Chips ports
chips = record {
  first = λ s. s.first;
  second = λ s. s.second;
  first_starts = λ value s starts. (command_word-starts value s.first starts, refl);
  first_ends = λ s. (refl, refl);
  first_data = λ value s. (refl, refl);
  second_starts = λ value s starts. (command_word-starts value s.second starts, refl);
  second_ends = λ s. (refl, refl);
  second_data = λ value s. (refl, refl);
}

abbrev bios : Chip
bios = record {
  stage = operating;
  single = true;
  has_mode = false;
  by_level = true;
  vector = 8;
  cascade = 4;
  mode = 0;
  masked = 184;
  in_service = 1 ∷ [];
}

abbrev two : Pair
two = record { first = bios; second = bios }

abbrev screen : Terminal
screen = record {
  video_mem = λ j. 0;
  terminal_row = 0;
  terminal_col = 0;
  saved_screen = λ j. 0;
  saved_row = 0;
  saved_col = 0;
}

pic_remap_lem_example :
    (chips.first (pic_remap ports pic_offset (screen, two)).1 ≡ remapped 0x20 4 bios)
    × (chips.second (pic_remap ports pic_offset (screen, two)).1 ≡ remapped 0x28 2 bios)
pic_remap_lem_example = pic_remap_lem ports chips pic_offset screen two (omega arith) (omega arith)
