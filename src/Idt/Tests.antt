-- ===== src/Idt/Tests.antt =====
-- The table for handlers at sixteen bytes each.
use lazy_os.Prelude.{ℕ, ◌+◌, ◌*◌, ◌%◌, arith}
use lazy_os.Idt.{idt_init}
use lazy_os.Idt.Table.{IsGate, idt_init-IsGate}

abbrev isr : ℕ → ℕ
isr i = 0x100000 + i % 32 * 16

idt_init-IsGate_example :
    IsGate 0x1000d0 ((idt_init 0x200000 0x200010 0x200020 0x300000 isr).descriptors 13)
idt_init-IsGate_example =
    idt_init-IsGate 0x200000 0x200010 0x200020 0x300000 isr 13 (omega arith) (omega arith)
      (omega arith) (λ i. omega arith) (omega arith)
