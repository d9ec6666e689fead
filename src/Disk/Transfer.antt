-- ===== src/Disk/Transfer.antt =====
-- The words of a sector, in both directions.
use lazy_os.Prelude.{
  ℕ, zero, suc, ◌+◌, ◌-◌, ◌*◌, ◌/◌, ◌%◌, ◌<◌, ◌≡◌, refl, ◌∙◌, true, false, inl, inr, arith, ◌==◌,
  if◌then◌else◌, within, update, Bool-cases,
}
use lazy_os.Ports.{Ports}
use lazy_os.Disk.{read_words, write_words}
use lazy_os.Disk.Ata.{Ata, idle, reading, writing, set_word}

-- The buffer after the words, and the bytes after the words that were written.
abbrev pub words_into : (bytes : ℕ → ℕ) → (address : ℕ) → (k : ℕ) → (buff : ℕ → ℕ) → (i : ℕ) → ℕ → ℕ
words_into bytes address k buff i j =
    if within (2 * i) (2 * k) j then bytes (address + (j - 2 * i)) else buff j

abbrev pub words_from : (bytes : ℕ → ℕ) → (address : ℕ) → (k : ℕ) → (buff : ℕ → ℕ) → (i : ℕ) → ℕ → ℕ
words_from bytes address k buff i x =
    if within address (2 * k) x then buff (2 * i + (x - address)) % 256 else bytes x

-- One more word in front.
into_step :
    (bytes : ℕ → ℕ) (address n : ℕ) (buff : ℕ → ℕ) (i word j : ℕ)
    → word ≡ bytes address + 256 * bytes (address + 1)
    → bytes address < 256
    → words_into bytes
        (address + 2)
        n
        (update (update buff (2 * i) (word % 256)) (2 * i + 1) (word / 256))
        (i + 1)
        j
      ≡ words_into bytes address (n + 1) buff i j
into_step bytes address n buff i word j e h =
    let low : word % 256 ≡ bytes address = omega arith in
    let high : word / 256 ≡ bytes (address + 1) = omega arith in
    elim (Bool-cases (j == 2 * i)) [
      | inl first ↦
          let j' : j ≡ 2 * i = ground arith in
          let place : address + (2 * i - 2 * i) ≡ address = omega arith in
          let out : within (2 * (i + 1)) (2 * n) (2 * i) ≡ false = ground arith in
          let here : within (2 * i) (2 * (n + 1)) (2 * i) ≡ true = ground arith in
          let self : (2 * i == 2 * i) ≡ true = ground arith in
          let other : (2 * i + 1 == 2 * i) ≡ false = ground arith in
          rw (j', place, out, here, self, other, low) refl
      | inr later ↦ elim (Bool-cases (j == 2 * i + 1)) [
        | inl second ↦
            let j' : j ≡ 2 * i + 1 = ground arith in
            let place : address + (2 * i + 1 - 2 * i) ≡ address + 1 = omega arith in
            let out : within (2 * (i + 1)) (2 * n) (2 * i + 1) ≡ false = ground arith in
            let here : within (2 * i) (2 * (n + 1)) (2 * i + 1) ≡ true = ground arith in
            let self : (2 * i + 1 == 2 * i + 1) ≡ true = ground arith in
            rw (j', place, out, here, self, high) refl
        | inr beyond ↦
            let a : (2 * i == j) ≡ false = ground arith in
            let b : (2 * i + 1 == j) ≡ false = ground arith in
            let same : within (2 * (i + 1)) (2 * n) j ≡ within (2 * i) (2 * (n + 1)) j =
              ground arith in
            rw (a, b, same)
              (elim (Bool-cases (within (2 * i) (2 * (n + 1)) j)) [
                | inl here ↦
                    let place : address + 2 + (j - 2 * (i + 1)) ≡ address + (j - 2 * i) =
                      ground arith in
                    rw (here, place) refl
                | inr out ↦ rw out refl
              ])
      ]
    ]

from_step :
    (bytes : ℕ → ℕ) (address n : ℕ) (buff : ℕ → ℕ) (i x : ℕ)
    → words_from
        (set_word bytes address (buff (2 * i) % 256 + 256 * (buff (2 * i + 1) % 256)))
        (address + 2)
        n
        buff
        (i + 1)
        x
      ≡ words_from bytes address (n + 1) buff i x
from_step bytes address n buff i x =
    let l = buff (2 * i) % 256 in
    let h = buff (2 * i + 1) % 256 in
    let low : (l + 256 * h) % 256 ≡ buff (2 * i) % 256 = omega arith in
    let high : (l + 256 * h) / 256 % 256 ≡ buff (2 * i + 1) % 256 = omega arith in
    elim (Bool-cases (x == address)) [
      | inl first ↦
          let x' : x ≡ address = ground arith in
          let place : 2 * i + (address - address) ≡ 2 * i = omega arith in
          let out : within (address + 2) (2 * n) address ≡ false = ground arith in
          let here : within address (2 * (n + 1)) address ≡ true = ground arith in
          let self : (address == address) ≡ true = ground arith in
          let other : (address + 1 == address) ≡ false = ground arith in
          rw (x', place, out, here, self, other, low) refl
      | inr later ↦ elim (Bool-cases (x == address + 1)) [
        | inl second ↦
            let x' : x ≡ address + 1 = ground arith in
            let place : 2 * i + (address + 1 - address) ≡ 2 * i + 1 = omega arith in
            let out : within (address + 2) (2 * n) (address + 1) ≡ false = ground arith in
            let here : within address (2 * (n + 1)) (address + 1) ≡ true = ground arith in
            let self : (address + 1 == address + 1) ≡ true = ground arith in
            rw (x', place, out, here, self, high) refl
        | inr beyond ↦
            let a : (address == x) ≡ false = ground arith in
            let b : (address + 1 == x) ≡ false = ground arith in
            let same : within (address + 2) (2 * n) x ≡ within address (2 * (n + 1)) x =
              ground arith in
            rw (a, b, same)
              (elim (Bool-cases (within address (2 * (n + 1)) x)) [
                | inl here ↦
                    let place : 2 * (i + 1) + (x - (address + 2)) ≡ 2 * i + (x - address) =
                      ground arith in
                    rw (here, place) refl
                | inr out ↦ rw out refl
              ])
      ]
    ]

module _ (p : Ports) (a : Ata p) where
  -- What the words that the disk still transfers leave, with the mode that follows.
  pub read_words_lem :
      (n : ℕ) (buff : ℕ → ℕ) (i address : ℕ) (s : p.State)
      → (a.view s).mode ≡ reading address (n + 1)
      → (a.view s).busy ≡ 0
      → ((j : ℕ)
          → (read_words p (suc n) buff i s).0 j
            ≡ words_into (a.view s).bytes address (n + 1) buff i j)
        × (a.view (read_words p (suc n) buff i s).1 ≡ record (a.view s) { mode = idle })
  unfolding read_words
  read_words_lem zero buff i address s m free =
      let (word, after) = a.read_word address 0 s m free in
      (
        λ j.
            (let nothing : within (2 * (i + 1)) (2 * 0) j ≡ false = ground arith in rw nothing refl)
            ∙ into_step (a.view s).bytes address 0 buff i (p.insw 0x1f0 s).0 j word
                (a.byte address s),
        after,
      )
  read_words_lem (suc n) buff i address s m free =
      let m' : (a.view s).mode ≡ reading address (suc n + 1) = m in
      let (word, after) = a.read_word address (suc n) s m free in
      let more : (suc n == 0) ≡ false = ground arith in
      let one : suc n ≡ n + 1 = omega arith in
      let mode' : (a.view (p.insw 0x1f0 s).1).mode ≡ reading (address + 2) (n + 1) =
        rw (after, more, one) refl in
      let free' : (a.view (p.insw 0x1f0 s).1).busy ≡ 0 = rw after free in
      let w = (p.insw 0x1f0 s).0 in
      let buff' = update (update buff (2 * i) (w % 256)) (2 * i + 1) (w / 256) in
      let (cells, view') =
        read_words_lem n buff' (i + 1) (address + 2) (p.insw 0x1f0 s).1 mode' free' in
      (
        λ j.
            cells j
            ∙ rw (after, one)
                (into_step (a.view s).bytes address (n + 1) buff i w j word (a.byte address s)),
        view' ∙ rw after refl,
      )

  pub write_words_lem :
      (n : ℕ) (buff : ℕ → ℕ) (i address : ℕ) (s : p.State)
      → (a.view s).mode ≡ writing address (n + 1)
      → (a.view s).busy ≡ 0
      → ((x : ℕ)
          → (a.view (write_words p (suc n) buff i s)).bytes x
            ≡ words_from (a.view s).bytes address (n + 1) buff i x)
        × ((a.view (write_words p (suc n) buff i s)).mode ≡ idle)
        × ((a.view (write_words p (suc n) buff i s)).busy ≡ 0)
  unfolding write_words
  write_words_lem zero buff i address s m free =
      let word = buff (2 * i) % 256 + 256 * (buff (2 * i + 1) % 256) in
      let after = a.write_word address 0 word s m free in
      (
        λ x.
            (let nothing : within (address + 2) (2 * 0) x ≡ false = ground arith in
              rw (after, nothing) refl)
            ∙ from_step (a.view s).bytes address 0 buff i x,
        rw after refl,
        rw after free,
      )
  write_words_lem (suc n) buff i address s m free =
      let word = buff (2 * i) % 256 + 256 * (buff (2 * i + 1) % 256) in
      let m' : (a.view s).mode ≡ writing address (suc n + 1) = m in
      let after = a.write_word address (suc n) word s m' free in
      let more : (suc n == 0) ≡ false = ground arith in
      let one : suc n ≡ n + 1 = omega arith in
      let mode' : (a.view (p.outw 0x1f0 word s)).mode ≡ writing (address + 2) (n + 1) =
        rw (after, more, one) refl in
      let free' : (a.view (p.outw 0x1f0 word s)).busy ≡ 0 = rw after free in
      let (cells, mode'', free'') =
        write_words_lem n buff (i + 1) (address + 2) (p.outw 0x1f0 word s) mode' free' in
      (
        λ x. cells x ∙ rw (after, one) (from_step (a.view s).bytes address (n + 1) buff i x),
        mode'',
        free'',
      )
