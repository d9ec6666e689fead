-- ===== src/Keyboard.antt =====
-- src/drivers/keyboard/keyboard.c: the letter of a scan code. A character is its ASCII code.
pub mod Codes
use lazy_os.Prelude.{ℕ, zero, suc, Bool, List, [], ◌∷◌, ◌==◌, if◌then◌else◌}
use lazy_os.Vga.{Terminal, backspace}

-- The cases of the `switch` that return, in their order.
abbrev pub letters : List (ℕ × ℕ)
letters =
    (0x29, 96)
    ∷ (0x01, 69)
    ∷ (0x02, 49)
    ∷ (0x03, 50)
    ∷ (0x04, 51)
    ∷ (0x05, 52)
    ∷ (0x06, 53)
    ∷ (0x07, 54)
    ∷ (0x08, 55)
    ∷ (0x09, 56)
    ∷ (0x0A, 57)
    ∷ (0x0B, 48)
    ∷ (0x0C, 45)
    ∷ (0x0D, 61)
    ∷ (0x10, 113)
    ∷ (0x11, 119)
    ∷ (0x12, 101)
    ∷ (0x13, 114)
    ∷ (0x14, 116)
    ∷ (0x15, 121)
    ∷ (0x16, 117)
    ∷ (0x17, 105)
    ∷ (0x18, 111)
    ∷ (0x19, 112)
    ∷ (0x1A, 91)
    ∷ (0x1B, 93)
    ∷ (0x1E, 97)
    ∷ (0x1F, 115)
    ∷ (0x20, 100)
    ∷ (0x21, 102)
    ∷ (0x22, 103)
    ∷ (0x23, 104)
    ∷ (0x24, 106)
    ∷ (0x25, 107)
    ∷ (0x26, 108)
    ∷ (0x27, 59)
    ∷ (0x28, 39)
    ∷ (0x1C, 10)
    ∷ (0x2C, 122)
    ∷ (0x2D, 120)
    ∷ (0x2E, 99)
    ∷ (0x2F, 118)
    ∷ (0x30, 98)
    ∷ (0x31, 110)
    ∷ (0x32, 109)
    ∷ (0x33, 44)
    ∷ (0x34, 46)
    ∷ (0x35, 47)
    ∷ (0x39, 32)
    ∷ []

-- The choice of the `switch`, whose default is the null character.
unfoldable pub choose : (scan_code : ℕ) → List (ℕ × ℕ) → ℕ
choose scan_code [] = 0
choose scan_code ((code, letter) ∷ cases) =
    let rest = choose scan_code cases in if scan_code == code then letter else rest

abbrev pub backspace_code : ℕ
backspace_code = 0x0E

-- The case of the backspace key, which calls `Backspace` and leaves the `switch`, returns the null
-- character as the last line does.
unfoldable pub return_letter : (scan_code : ℕ) → Terminal → ℕ × Terminal
return_letter scan_code t =
    if scan_code == backspace_code then (0, backspace t) else (choose scan_code letters, t)
