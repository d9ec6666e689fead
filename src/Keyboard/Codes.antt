-- ===== src/Keyboard/Codes.antt =====
-- Which scan codes have a letter, and that it tells them apart.
use lazy_os.Prelude.{
  ℕ, ◌<◌, ◌≡◌, ◌≢◌, refl, Bool, true, arith, ◌==◌, ltb, not, ◌&&◌, ◌||◌, List, [], ◌∷◌,
  if◌then◌else◌, inl, inr, Bool-cases,
}
use lazy_os.Prelude.Bytes.{all_below, all_below-lt}
use lazy_os.Vga.{Terminal}
use lazy_os.Keyboard.{letters, choose, return_letter, backspace_code}

-- The scan code of a letter, which is unique: the table read backwards.
unfoldable pub scan_of : (letter : ℕ) → List (ℕ × ℕ) → ℕ
scan_of letter [] = 0
scan_of letter ((code, l) ∷ cases) =
    let rest = scan_of letter cases in if letter == l then code else rest

-- A code of the table is found again from its letter, and is neither a release nor the backspace.
abbrev pub reads_back : ℕ → Bool
reads_back code =
    choose code letters == 0
    || (scan_of (choose code letters) letters == code
        && ltb code 0x80
        && not (code == backspace_code))

reads_back_table : all_below 256 reads_back ≡ true
unfolding all_below choose scan_of
reads_back_table = refl

reads_back-found :
    (code : ℕ)
    → reads_back code ≡ true
    → choose code letters ≢ 0
    → (scan_of (choose code letters) letters ≡ code) × (code < 0x80)
reads_back-found code row ne = ground arith

-- A scan code below 256 whose letter is not the null character is the one that the table has for
-- that letter; it leaves the terminal as it is, and is no release of a key.
pub return_letter-scan_of :
    (scan_code : ℕ) (t : Terminal)
    → scan_code < 256
    → (return_letter scan_code t).0 ≢ 0
    → (scan_of (return_letter scan_code t).0 letters ≡ scan_code)
      × ((return_letter scan_code t).1 ≡ t)
      × (scan_code < 0x80)
unfolding return_letter
return_letter-scan_of scan_code t h ne = elim (Bool-cases (scan_code == backspace_code)) [
  | inl back ↦ absurd (ne (rw back refl))
  | inr other ↦
      let row = all_below-lt 256 reads_back scan_code reads_back_table h in
      let (code, lt) = reads_back-found scan_code row (rw other at ne) in rw other (code, refl, lt)
]
