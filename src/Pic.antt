-- ===== src/Pic.antt =====
-- src/idt/PIC/pic.c: the set-up of the two interrupt controllers.
pub mod Chips
mod Tests
use lazy_os.Prelude.{ℕ, ◌+◌, ◌%◌, ◌^◌, ◌*◌, bit_or, List, [], ◌∷◌}
use lazy_os.Ports.{Ports}
use lazy_os.Vga.{Terminal, print}

abbrev pub pic1_command : ℕ
pic1_command = 0x20

abbrev pub pic1_data : ℕ
pic1_data = pic1_command + 1

abbrev pub pic2_command : ℕ
pic2_command = 0xA0

abbrev pub pic2_data : ℕ
pic2_data = pic2_command + 1

abbrev pub icw1_icw4 : ℕ
icw1_icw4 = 0x01

abbrev pub icw1_init : ℕ
icw1_init = 0x10

abbrev pub icw4_8086 : ℕ
icw4_8086 = 0x01

abbrev pub cascade_irq : ℕ
cascade_irq = 2

abbrev pub pic_offset : ℕ
pic_offset = 0x20

-- "Remaping PIC..." and "PIC has been remapped", each with a new line.
abbrev pub starting : List ℕ
starting = 82 ∷ 101 ∷ 109 ∷ 97 ∷ 112 ∷ 105 ∷ 110 ∷ 103 ∷ 32 ∷ 80 ∷ 73 ∷ 67 ∷ 46 ∷ 46 ∷ 46 ∷ 10 ∷ []

abbrev pub done_message : List ℕ
done_message =
    80 ∷ 73 ∷ 67 ∷ 32 ∷ 104 ∷ 97 ∷ 115 ∷ 32 ∷ 98 ∷ 101 ∷ 101 ∷ 110 ∷ 32 ∷ 114 ∷ 101 ∷ 109 ∷ 97 ∷ 112
    ∷ 112 ∷ 101 ∷ 100 ∷ 10 ∷ []

module _ (p : Ports) where
  -- The ten writes; a value that is passed as an `unsigned char` is cut to a byte.
  unfoldable pub remap_ports : (offset1 : ℕ) → p.State → p.State
  remap_ports offset1 s =
      let s1 = p.outb pic1_command (bit_or icw1_init icw1_icw4) s in
      let s2 = p.outb pic2_command (bit_or icw1_init icw1_icw4) s1 in
      let s3 = p.outb pic1_data (offset1 % 256) s2 in
      let s4 = p.outb pic2_data ((offset1 + 8) % 256) s3 in
      let s5 = p.outb pic1_data (2 ^ cascade_irq) s4 in
      let s6 = p.outb pic2_data 2 s5 in
      let s7 = p.outb pic1_data icw4_8086 s6 in
      let s8 = p.outb pic2_data icw4_8086 s7 in
      let s9 = p.outb pic1_data 0 s8 in p.outb pic2_data 0 s9

  unfoldable pub pic_remap : (offset1 : ℕ) → Terminal × p.State → Terminal × p.State
  pic_remap offset1 (t, s) = (print done_message (print starting t), remap_ports offset1 s)
