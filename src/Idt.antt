-- ===== src/Idt.antt =====
-- src/idt/idt.c: the table of the interrupts' handlers, and src/idt/ISR/isr.c: the handler of the
-- processor's exceptions. The addresses of the handlers, which the assembly files define, are
-- parameters.
pub mod Table
pub mod Messages
mod Tests
use lazy_os.Prelude.{
  ℕ, zero, suc, ◌+◌, ◌-◌, ◌*◌, ◌/◌, ◌%◌, ◌^◌, List, [], ◌∷◌, bit_and, ◌==◌, ltb, if◌then◌else◌,
  update,
}
use lazy_os.Vga.{Terminal, print, print_color, black, green}

abbrev pub lazyos_total_interrupts : ℕ
lazyos_total_interrupts = 256

abbrev pub kernel_code_selector : ℕ
kernel_code_selector = 0x08

pub record IdtDesc : Type 0 where
  pub offset_1 : ℕ
  pub selector : ℕ
  pub unused : ℕ
  pub type_attributes : ℕ
  pub offset_2 : ℕ

-- The table, at the address `idt_descriptors` of its array, and the descriptor that is loaded.
pub record Idt : Type 0 where
  pub descriptors : ℕ → IdtDesc
  pub limit : ℕ
  pub base : ℕ

unfoldable pub idt_set : (interrupt_num address : ℕ) → Idt → Idt
idt_set interrupt_num address t =
    let desc : IdtDesc = record {
      offset_1 = bit_and address 0x0000ffff;
      selector = kernel_code_selector;
      unused = 0x00;
      type_attributes = 0x8E;
      offset_2 = address / 2 ^ 16;
    } in
    record t { descriptors = update t.descriptors interrupt_num desc }

-- The handler `address i` for each of `k` numbers, from `i` on.
unfoldable pub set_all : (k : ℕ) → (address : ℕ → ℕ) → (i : ℕ) → Idt → Idt
set_all zero address i t = t
set_all (suc k) address i t = set_all k address (i + 1) (idt_set i (address i) t)

abbrev pub cleared : IdtDesc
cleared = record { offset_1 = 0; selector = 0; unused = 0; type_attributes = 0; offset_2 = 0 }

-- `isr i` is the address of the handler `isr0` to `isr31`; the calls for them stand one by one.
unfoldable pub idt_init : (no_interrupt irq0 irq1 idt_descriptors : ℕ) → (isr : ℕ → ℕ) → Idt
unfolding idt_set set_all
idt_init no_interrupt irq0 irq1 idt_descriptors isr =
    let t : Idt = record {
      descriptors = λ i. cleared;
      limit = lazyos_total_interrupts * 8 - 1;
      base = idt_descriptors;
    } in
    let all = set_all lazyos_total_interrupts (λ i. no_interrupt) 0 t in
    idt_set 0x21 irq1 (idt_set 0x20 irq0 (set_all 32 isr 0 all))

-- What `softwear_interrupt_handler` does after it: it kills the process, or stops the processor.
pub data Outcome : Type 0 where
  killed halted : Terminal → Outcome

abbrev pub red : ℕ
red = 4

abbrev pub handled : List ℕ
handled =
    69 ∷ 120 ∷ 99 ∷ 101 ∷ 112 ∷ 116 ∷ 105 ∷ 111 ∷ 110 ∷ 32 ∷ 104 ∷ 97 ∷ 115 ∷ 32 ∷ 98 ∷ 101 ∷ 101
    ∷ 110 ∷ 32 ∷ 104 ∷ 97 ∷ 110 ∷ 100 ∷ 108 ∷ 101 ∷ 100 ∷ []

-- The texts of the exceptions are data, and so a parameter.
unfoldable pub softwear_interrupt_handler :
    (exception_messages : ℕ → List ℕ) → (int_no : ℕ) → Terminal → Outcome
softwear_interrupt_handler exception_messages int_no t =
    let named =
      print (10 ∷ []) (print_color (exception_messages int_no) red black (print (10 ∷ []) t)) in
    if ltb int_no 32
    then (if int_no == 0 then killed (print_color handled green black named) else halted named)
    else halted t
