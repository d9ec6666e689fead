-- ===== src/Idt/Table.antt =====
-- The handlers that the processor finds in the table.
use lazy_os.Prelude.{
  ℕ, zero, suc, ◌+◌, ◌-◌, ◌*◌, ◌/◌, ◌^◌, ◌<◌, ◌≡◌, refl, ◌∙◌, arith, bit_and, ◌==◌, ltb,
  if◌then◌else◌, within, true, false, Bool-cases, inl, inr,
}
use lazy_os.Prelude.Masks.{bit_and-word}
use lazy_os.Idt.{
  Idt, IdtDesc, idt_set, set_all, idt_init, kernel_code_selector, lazyos_total_interrupts, cleared,
}

-- The address that the two halves of a gate make.
abbrev pub target : IdtDesc → ℕ
target d = d.offset_1 + d.offset_2 * 2 ^ 16

-- A gate for interrupts of the kernel, with its handler.
pub record IsGate (address : ℕ) (d : IdtDesc) : Type 0 where
  pub target_lem : target d ≡ address
  pub selector_lem : d.selector ≡ kernel_code_selector
  pub unused_lem : d.unused ≡ 0
  pub type_lem : d.type_attributes ≡ 0x8E
  pub low : d.offset_1 < 2 ^ 16
  pub high : d.offset_2 < 2 ^ 16

abbrev gate : (address : ℕ) → IdtDesc
gate address = record {
  offset_1 = bit_and address 0x0000ffff;
  selector = kernel_code_selector;
  unused = 0x00;
  type_attributes = 0x8E;
  offset_2 = address / 2 ^ 16;
}

gate-IsGate : (address : ℕ) → address < 2 ^ 32 → IsGate address (gate address)
gate-IsGate address h =
    let m = bit_and-word address in
    rw m (record {
      target_lem = omega arith;
      selector_lem = refl;
      unused_lem = refl;
      type_lem = refl;
      low = omega arith;
      high = omega arith;
    })

set_all_lem :
    (k : ℕ) (address : ℕ → ℕ) (i : ℕ) (t : Idt) (j : ℕ)
    → (set_all k address i t).descriptors j
      ≡ (if within i k j then gate (address j) else t.descriptors j)
unfolding set_all idt_set
set_all_lem zero address i t j = let out : within i zero j ≡ false = ground arith in rw out refl
set_all_lem (suc k) address i t j = elim (Bool-cases (i == j)) [
  | inl here ↦
      let e : j ≡ i = ground arith in
      let in_range : within i (suc k) i ≡ true = ground arith in
      let past : within (i + 1) k i ≡ false = ground arith in
      let self : (i == i) ≡ true = ground arith in
      set_all_lem k address (i + 1) (idt_set i (address i) t) j ∙ rw (e, in_range, past, self) refl
  | inr away ↦
      let same : within i (suc k) j ≡ within (i + 1) k j = ground arith in
      set_all_lem k address (i + 1) (idt_set i (address i) t) j ∙ rw (same, away) refl
]

-- The handler of each number.
abbrev pub handler : (no_interrupt irq0 irq1 : ℕ) → (isr : ℕ → ℕ) → (n : ℕ) → ℕ
handler no_interrupt irq0 irq1 isr n =
    if ltb n 32 then isr n else if n == 0x20 then irq0 else if n == 0x21 then irq1 else no_interrupt

descriptor_lem :
    (no_interrupt irq0 irq1 idt_descriptors : ℕ) (isr : ℕ → ℕ) (n : ℕ)
    → n < lazyos_total_interrupts
    → (idt_init no_interrupt irq0 irq1 idt_descriptors isr).descriptors n
      ≡ gate (handler no_interrupt irq0 irq1 isr n)
unfolding idt_init idt_set
descriptor_lem no_interrupt irq0 irq1 idt_descriptors isr n h =
    let t : Idt = record {
      descriptors = λ i. cleared;
      limit = lazyos_total_interrupts * 8 - 1;
      base = idt_descriptors;
    } in
    let all = set_all lazyos_total_interrupts (λ i. no_interrupt) 0 t in
    let inside : within 0 lazyos_total_interrupts n ≡ true = ground arith in
    rw
      (
        set_all_lem 32 isr 0 all n,
        set_all_lem lazyos_total_interrupts (λ i. no_interrupt) 0 t n,
        inside,
      )
      (elim (Bool-cases (ltb n 32)) [
        | inl low ↦
            let a : (33 == n) ≡ false = ground arith in
            let b : (32 == n) ≡ false = ground arith in
            let c : within 0 32 n ≡ true = ground arith in rw (c, low, a, b) refl
        | inr high ↦
            let c : within 0 32 n ≡ false = ground arith in
            elim (Bool-cases (n == 32)) [
              | inl timer ↦ let e : n ≡ 32 = ground arith in rw e refl
              | inr other ↦
                  let b : (32 == n) ≡ false = ground arith in
                  elim (Bool-cases (n == 33)) [
                    | inl keyboard ↦ let e : n ≡ 33 = ground arith in rw e refl
                    | inr rest ↦
                        let a : (33 == n) ≡ false = ground arith in
                        rw (c, high, other, rest, a, b) refl
                  ]
            ]
      ])

handler-small :
    (no_interrupt irq0 irq1 : ℕ) (isr : ℕ → ℕ) (n : ℕ)
    → no_interrupt < 2 ^ 32
    → irq0 < 2 ^ 32
    → irq1 < 2 ^ 32
    → ((i : ℕ) → isr i < 2 ^ 32)
    → handler no_interrupt irq0 irq1 isr n < 2 ^ 32
handler-small no_interrupt irq0 irq1 isr n a b c d = ground (arith, d n)

-- For handlers at 32-bit addresses: after `idt_init` each of the 256 numbers has a gate of the
-- kernel's code whose halves make the address of its handler. The 32 exceptions, the timer and the
-- keyboard have their own; all the others have the one that ignores the interrupt.
pub idt_init-IsGate :
    (no_interrupt irq0 irq1 idt_descriptors : ℕ) (isr : ℕ → ℕ) (n : ℕ)
    → no_interrupt < 2 ^ 32
    → irq0 < 2 ^ 32
    → irq1 < 2 ^ 32
    → ((i : ℕ) → isr i < 2 ^ 32)
    → n < lazyos_total_interrupts
    → IsGate
        (handler no_interrupt irq0 irq1 isr n)
        ((idt_init no_interrupt irq0 irq1 idt_descriptors isr).descriptors n)
idt_init-IsGate no_interrupt irq0 irq1 idt_descriptors isr n a b c d h =
    rw (descriptor_lem no_interrupt irq0 irq1 idt_descriptors isr n h) (
      gate-IsGate (handler no_interrupt irq0 irq1 isr n)
        (handler-small no_interrupt irq0 irq1 isr n a b c d))
