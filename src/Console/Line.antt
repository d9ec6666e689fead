-- ===== src/Console/Line.antt =====
-- The buffers of the line and of the editor as keys fill them.
use lazy_os.Prelude.{
  ℕ, zero, suc, ◌+◌, ◌-◌, ◌%◌, ◌^◌, ◌<◌, ◌≤◌, ◌≡◌, refl, ◌∙◌, true, false, arith, List, [], ◌∷◌,
  ◌==◌, if◌then◌else◌, update, fill, within, Bool-cases, inl, inr, leb,
}
use mathlib.Core.Path.{fun_ext}
use lazy_os.Console.{
  Buffer, buffer_size, input_into_buffer, clear_buffer, remove_one_from_buffer, text,
}

abbrev pub count : List ℕ → ℕ
count [] = 0
count (c ∷ cs) = count cs + 1

-- The keys of the characters, one after the other.
abbrev pub type_all : List ℕ → Buffer → Buffer
type_all [] b = b
type_all (c ∷ cs) b = type_all cs (input_into_buffer c b).1

pub input_into_buffer_lem :
    (c : ℕ) (b : Buffer)
    → b.position < 2 ^ 8
    → input_into_buffer c b
      ≡ (false, record { chars = update b.chars b.position c; position = (b.position + 1) % 2 ^ 8 })
unfolding input_into_buffer
input_into_buffer_lem c b h =
    let room : leb buffer_size b.position ≡ false = ground arith in rw room refl

-- Behind its characters a string constant holds null characters.
text-end : (cs : List ℕ) (j : ℕ) → count cs ≤ j → text cs j ≡ 0
text-end [] j h = refl
text-end (c ∷ cs) zero h = absurd (omega arith)
text-end (c ∷ cs) (suc j) h = text-end cs j (omega arith)

-- The cells of the first character and of those behind it.
typed-cons :
    (c : ℕ) (cs : List ℕ) (chars : ℕ → ℕ) (p j : ℕ)
    → (if within (p + 1) (count cs) j then text cs (j - (p + 1)) else update chars p c j)
      ≡ (if within p (count (c ∷ cs)) j then text (c ∷ cs) (j - p) else chars j)
typed-cons c cs chars p j = elim (Bool-cases (p == j)) [
  | inl here ↦
      let e : j ≡ p = ground arith in
      let out : within (p + 1) (count cs) p ≡ false = ground arith in
      let inside : within p (count cs + 1) p ≡ true = ground arith in
      let at : p - p ≡ 0 = omega arith in
      let self : (p == p) ≡ true = ground arith in rw (e, out, inside, at, self) refl
  | inr away ↦
      let same : within p (count cs + 1) j ≡ within (p + 1) (count cs) j = ground arith in
      rw (same, away)
        (elim (Bool-cases (within (p + 1) (count cs) j)) [
          | inl inside ↦ let at : j - p ≡ suc (j - (p + 1)) = ground arith in rw (inside, at) refl
          | inr out ↦ rw out refl
        ])
]

record IsTyped (cs : List ℕ) (b b' : Buffer) : Type 0 where
  position_lem : b'.position ≡ b.position + count cs
  chars_lem :
      (j : ℕ)
      → b'.chars j
        ≡ (if within b.position (count cs) j then text cs (j - b.position) else b.chars j)

type_all-IsTyped :
    (cs : List ℕ) (b : Buffer) → b.position + count cs < 2 ^ 8 → IsTyped cs b (type_all cs b)
type_all-IsTyped [] b h = record { position_lem = omega arith; chars_lem = λ j. ground arith }
type_all-IsTyped (c ∷ cs) b h =
    let next : (b.position + 1) % 2 ^ 8 ≡ b.position + 1 = omega arith in
    let one : (input_into_buffer c b).1
        ≡ record { chars = update b.chars b.position c; position = b.position + 1 } =
      rw (input_into_buffer_lem c b (omega arith), next) refl in
    let b1 : Buffer = record { chars = update b.chars b.position c; position = b.position + 1 } in
    let rest = type_all-IsTyped cs b1 (omega arith) in
    rw one (record {
      position_lem = rest.position_lem ∙ omega arith;
      chars_lem = λ j. rest.chars_lem j ∙ typed-cons c cs b.chars b.position j;
    })

typed-cleared :
    (cs : List ℕ) (chars : ℕ → ℕ) (j : ℕ)
    → j < buffer_size
    → (if within 0 (count cs) j then text cs (j - 0) else fill chars 0 buffer_size 0 j) ≡ text cs j
typed-cleared cs chars j h =
    let z : j - 0 ≡ j = omega arith in
    let inside : within 0 buffer_size j ≡ true = ground arith in
    rw (z, inside)
      (elim (Bool-cases (within 0 (count cs) j)) [
        | inl here ↦ rw here refl
        | inr out ↦ rw (out, text-end cs j (ground arith)) refl
      ])

erased :
    (ch : ℕ) (chars : ℕ → ℕ) (p j : ℕ) → chars p ≡ 0 → update (update chars p ch) p 0 j ≡ chars j
erased ch chars p j free = elim (Bool-cases (p == j)) [
  | inl here ↦
      let e : j ≡ p = ground arith in
      let self : (p == p) ≡ true = ground arith in rw (e, self, free) refl
  | inr away ↦ rw away refl
]

-- Fewer than 256 characters, typed to a buffer that was cleared, make their string in the buffer,
-- and the position is their number.
pub type_all-clear_buffer :
    (cs : List ℕ) (b : Buffer)
    → count cs < 2 ^ 8
    → ((type_all cs (clear_buffer b)).position ≡ count cs)
      × ((j : ℕ) → j < buffer_size → (type_all cs (clear_buffer b)).chars j ≡ text cs j)
unfolding clear_buffer
type_all-clear_buffer cs b h =
    let is = type_all-IsTyped cs (clear_buffer b) (omega arith) in
    (is.position_lem ∙ omega arith, λ j lt. is.chars_lem j ∙ typed-cleared cs b.chars j lt)

-- Where there is room, the backspace key takes back what the last key stored.
pub remove_one_from_buffer-input_into_buffer :
    (ch : ℕ) (b : Buffer)
    → b.position < 255
    → b.chars b.position ≡ 0
    → remove_one_from_buffer (input_into_buffer ch b).1 ≡ b
unfolding remove_one_from_buffer
remove_one_from_buffer-input_into_buffer ch b h free =
    let next : (b.position + 1) % 2 ^ 8 ≡ b.position + 1 = omega arith in
    let more : (b.position + 1 == 0) ≡ false = ground arith in
    let back : b.position + 1 - 1 ≡ b.position = omega arith in
    let same : update (update b.chars b.position ch) b.position 0 ≡ b.chars =
      fun_ext λ j. erased ch b.chars b.position j free in
    rw (input_into_buffer_lem ch b (omega arith), next, more, back, same) refl
