-- ===== src/Idt/Messages.antt =====
-- src/idt/ISR/isr.c: the texts of the processor's exceptions.
use lazy_os.Prelude.{ℕ, zero, suc, List, [], ◌∷◌}

-- "[0x" with two digits and "] ", in front of a text.
abbrev numbered : (high low : ℕ) → List ℕ → List ℕ
numbered high low text = 91 ∷ 48 ∷ 120 ∷ high ∷ low ∷ 93 ∷ 32 ∷ text

-- "Divide by Zero Exception"
abbrev divide_by_zero_exception : List ℕ
divide_by_zero_exception =
    68 ∷ 105 ∷ 118 ∷ 105 ∷ 100 ∷ 101 ∷ 32 ∷ 98 ∷ 121 ∷ 32 ∷ 90 ∷ 101 ∷ 114 ∷ 111 ∷ 32 ∷ 69 ∷ 120
    ∷ 99 ∷ 101 ∷ 112 ∷ 116 ∷ 105 ∷ 111 ∷ 110 ∷ []

-- "Debug Exception"
abbrev debug_exception : List ℕ
debug_exception =
    68 ∷ 101 ∷ 98 ∷ 117 ∷ 103 ∷ 32 ∷ 69 ∷ 120 ∷ 99 ∷ 101 ∷ 112 ∷ 116 ∷ 105 ∷ 111 ∷ 110 ∷ []

-- "Unhandled Non-maskable Interrupt"
abbrev unhandled_non_maskable_interrupt : List ℕ
unhandled_non_maskable_interrupt =
    85 ∷ 110 ∷ 104 ∷ 97 ∷ 110 ∷ 100 ∷ 108 ∷ 101 ∷ 100 ∷ 32 ∷ 78 ∷ 111 ∷ 110 ∷ 45 ∷ 109 ∷ 97 ∷ 115
    ∷ 107 ∷ 97 ∷ 98 ∷ 108 ∷ 101 ∷ 32 ∷ 73 ∷ 110 ∷ 116 ∷ 101 ∷ 114 ∷ 114 ∷ 117 ∷ 112 ∷ 116 ∷ []

-- "Breakpoint Exception"
abbrev breakpoint_exception : List ℕ
breakpoint_exception =
    66 ∷ 114 ∷ 101 ∷ 97 ∷ 107 ∷ 112 ∷ 111 ∷ 105 ∷ 110 ∷ 116 ∷ 32 ∷ 69 ∷ 120 ∷ 99 ∷ 101 ∷ 112 ∷ 116
    ∷ 105 ∷ 111 ∷ 110 ∷ []

-- "Overflow Exception"
abbrev overflow_exception : List ℕ
overflow_exception =
    79 ∷ 118 ∷ 101 ∷ 114 ∷ 102 ∷ 108 ∷ 111 ∷ 119 ∷ 32 ∷ 69 ∷ 120 ∷ 99 ∷ 101 ∷ 112 ∷ 116 ∷ 105 ∷ 111
    ∷ 110 ∷ []

-- "Bound Range Exceeded Exception"
abbrev bound_range_exceeded_exception : List ℕ
bound_range_exceeded_exception =
    66 ∷ 111 ∷ 117 ∷ 110 ∷ 100 ∷ 32 ∷ 82 ∷ 97 ∷ 110 ∷ 103 ∷ 101 ∷ 32 ∷ 69 ∷ 120 ∷ 99 ∷ 101 ∷ 101
    ∷ 100 ∷ 101 ∷ 100 ∷ 32 ∷ 69 ∷ 120 ∷ 99 ∷ 101 ∷ 112 ∷ 116 ∷ 105 ∷ 111 ∷ 110 ∷ []

-- "Invalid Opcode/Operand Exception"
abbrev invalid_opcode_operand_exception : List ℕ
invalid_opcode_operand_exception =
    73 ∷ 110 ∷ 118 ∷ 97 ∷ 108 ∷ 105 ∷ 100 ∷ 32 ∷ 79 ∷ 112 ∷ 99 ∷ 111 ∷ 100 ∷ 101 ∷ 47 ∷ 79 ∷ 112
    ∷ 101 ∷ 114 ∷ 97 ∷ 110 ∷ 100 ∷ 32 ∷ 69 ∷ 120 ∷ 99 ∷ 101 ∷ 112 ∷ 116 ∷ 105 ∷ 111 ∷ 110 ∷ []

-- "Device Unavailable Exception"
abbrev device_unavailable_exception : List ℕ
device_unavailable_exception =
    68 ∷ 101 ∷ 118 ∷ 105 ∷ 99 ∷ 101 ∷ 32 ∷ 85 ∷ 110 ∷ 97 ∷ 118 ∷ 97 ∷ 105 ∷ 108 ∷ 97 ∷ 98 ∷ 108
    ∷ 101 ∷ 32 ∷ 69 ∷ 120 ∷ 99 ∷ 101 ∷ 112 ∷ 116 ∷ 105 ∷ 111 ∷ 110 ∷ []

-- "Double Fault"
abbrev double_fault : List ℕ
double_fault = 68 ∷ 111 ∷ 117 ∷ 98 ∷ 108 ∷ 101 ∷ 32 ∷ 70 ∷ 97 ∷ 117 ∷ 108 ∷ 116 ∷ []

-- "Coprocessor Segment Overrun"
abbrev coprocessor_segment_overrun : List ℕ
coprocessor_segment_overrun =
    67 ∷ 111 ∷ 112 ∷ 114 ∷ 111 ∷ 99 ∷ 101 ∷ 115 ∷ 115 ∷ 111 ∷ 114 ∷ 32 ∷ 83 ∷ 101 ∷ 103 ∷ 109 ∷ 101
    ∷ 110 ∷ 116 ∷ 32 ∷ 79 ∷ 118 ∷ 101 ∷ 114 ∷ 114 ∷ 117 ∷ 110 ∷ []

-- "Invalid TSS Exception"
abbrev invalid_tss_exception : List ℕ
invalid_tss_exception =
    73 ∷ 110 ∷ 118 ∷ 97 ∷ 108 ∷ 105 ∷ 100 ∷ 32 ∷ 84 ∷ 83 ∷ 83 ∷ 32 ∷ 69 ∷ 120 ∷ 99 ∷ 101 ∷ 112 ∷ 116
    ∷ 105 ∷ 111 ∷ 110 ∷ []

-- "Absent Segment Exception"
abbrev absent_segment_exception : List ℕ
absent_segment_exception =
    65 ∷ 98 ∷ 115 ∷ 101 ∷ 110 ∷ 116 ∷ 32 ∷ 83 ∷ 101 ∷ 103 ∷ 109 ∷ 101 ∷ 110 ∷ 116 ∷ 32 ∷ 69 ∷ 120
    ∷ 99 ∷ 101 ∷ 112 ∷ 116 ∷ 105 ∷ 111 ∷ 110 ∷ []

-- "Stack-segment Fault"
abbrev stack_segment_fault : List ℕ
stack_segment_fault =
    83 ∷ 116 ∷ 97 ∷ 99 ∷ 107 ∷ 45 ∷ 115 ∷ 101 ∷ 103 ∷ 109 ∷ 101 ∷ 110 ∷ 116 ∷ 32 ∷ 70 ∷ 97 ∷ 117
    ∷ 108 ∷ 116 ∷ []

-- "General Protection Fault"
abbrev general_protection_fault : List ℕ
general_protection_fault =
    71 ∷ 101 ∷ 110 ∷ 101 ∷ 114 ∷ 97 ∷ 108 ∷ 32 ∷ 80 ∷ 114 ∷ 111 ∷ 116 ∷ 101 ∷ 99 ∷ 116 ∷ 105 ∷ 111
    ∷ 110 ∷ 32 ∷ 70 ∷ 97 ∷ 117 ∷ 108 ∷ 116 ∷ []

-- "Page Fault "
abbrev page_fault : List ℕ
page_fault = 80 ∷ 97 ∷ 103 ∷ 101 ∷ 32 ∷ 70 ∷ 97 ∷ 117 ∷ 108 ∷ 116 ∷ 32 ∷ []

-- "Inexplicable Error"
abbrev inexplicable_error : List ℕ
inexplicable_error =
    73 ∷ 110 ∷ 101 ∷ 120 ∷ 112 ∷ 108 ∷ 105 ∷ 99 ∷ 97 ∷ 98 ∷ 108 ∷ 101 ∷ 32 ∷ 69 ∷ 114 ∷ 114 ∷ 111
    ∷ 114 ∷ []

-- "x87 Floating Exception"
abbrev x87_floating_exception : List ℕ
x87_floating_exception =
    120 ∷ 56 ∷ 55 ∷ 32 ∷ 70 ∷ 108 ∷ 111 ∷ 97 ∷ 116 ∷ 105 ∷ 110 ∷ 103 ∷ 32 ∷ 69 ∷ 120 ∷ 99 ∷ 101
    ∷ 112 ∷ 116 ∷ 105 ∷ 111 ∷ 110 ∷ []

-- "Alignment Check"
abbrev alignment_check : List ℕ
alignment_check =
    65 ∷ 108 ∷ 105 ∷ 103 ∷ 110 ∷ 109 ∷ 101 ∷ 110 ∷ 116 ∷ 32 ∷ 67 ∷ 104 ∷ 101 ∷ 99 ∷ 107 ∷ []

-- "Machine Check"
abbrev machine_check : List ℕ
machine_check = 77 ∷ 97 ∷ 99 ∷ 104 ∷ 105 ∷ 110 ∷ 101 ∷ 32 ∷ 67 ∷ 104 ∷ 101 ∷ 99 ∷ 107 ∷ []

-- "SIMD Floating Exception"
abbrev simd_floating_exception : List ℕ
simd_floating_exception =
    83 ∷ 73 ∷ 77 ∷ 68 ∷ 32 ∷ 70 ∷ 108 ∷ 111 ∷ 97 ∷ 116 ∷ 105 ∷ 110 ∷ 103 ∷ 32 ∷ 69 ∷ 120 ∷ 99 ∷ 101
    ∷ 112 ∷ 116 ∷ 105 ∷ 111 ∷ 110 ∷ []

-- "Intel reserved"
abbrev intel_reserved : List ℕ
intel_reserved =
    73 ∷ 110 ∷ 116 ∷ 101 ∷ 108 ∷ 32 ∷ 114 ∷ 101 ∷ 115 ∷ 101 ∷ 114 ∷ 118 ∷ 101 ∷ 100 ∷ []

abbrev messages : List (List ℕ)
messages =
    numbered 48 48 divide_by_zero_exception
    ∷ numbered 48 49 debug_exception
    ∷ numbered 48 50 unhandled_non_maskable_interrupt
    ∷ numbered 48 51 breakpoint_exception
    ∷ numbered 48 52 overflow_exception
    ∷ numbered 48 53 bound_range_exceeded_exception
    ∷ numbered 48 54 invalid_opcode_operand_exception
    ∷ numbered 48 55 device_unavailable_exception
    ∷ numbered 48 56 double_fault
    ∷ numbered 48 57 coprocessor_segment_overrun
    ∷ numbered 48 65 invalid_tss_exception
    ∷ numbered 48 66 absent_segment_exception
    ∷ numbered 48 67 stack_segment_fault
    ∷ numbered 48 68 general_protection_fault
    ∷ numbered 48 69 page_fault
    ∷ numbered 48 70 inexplicable_error
    ∷ numbered 49 48 x87_floating_exception
    ∷ numbered 49 49 alignment_check
    ∷ numbered 49 50 machine_check
    ∷ numbered 49 51 simd_floating_exception
    ∷ numbered 49 52 intel_reserved
    ∷ numbered 49 53 intel_reserved
    ∷ numbered 49 54 intel_reserved
    ∷ numbered 49 55 intel_reserved
    ∷ numbered 49 56 intel_reserved
    ∷ numbered 49 57 intel_reserved
    ∷ numbered 49 65 intel_reserved
    ∷ numbered 49 66 intel_reserved
    ∷ numbered 49 67 intel_reserved
    ∷ numbered 49 68 intel_reserved
    ∷ numbered 49 69 intel_reserved
    ∷ numbered 49 70 intel_reserved
    ∷ []

-- Past the end of the array there is no text.
unfoldable pub message_at : List (List ℕ) → (int_no : ℕ) → List ℕ
message_at [] int_no = []
message_at (text ∷ texts) zero = text
message_at (text ∷ texts) (suc int_no) = message_at texts int_no

unfoldable pub exception_messages : (int_no : ℕ) → List ℕ
unfolding message_at
exception_messages int_no = message_at messages int_no
