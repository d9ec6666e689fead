-- ===== src/Clock/Text.antt =====
-- The text that `print_time` prints.
use lazy_os.Prelude.{
  ℕ, ◌+◌, ◌/◌, ◌%◌, ◌<◌, ◌≡◌, refl, ap, ◌∙◌, Bool, true, false, ◌&&◌, arith, ◌==◌, ltb,
  if◌then◌else◌, List, [], ◌∷◌, ◌++◌,
}
use lazy_os.Prelude.Bytes.{all_below, all_below-lt}
use lazy_os.Vga.{Terminal, print, print_color, terminal_write_char, white, black}
use lazy_os.Clock.{RtcTime, digits_loop, reverse_loop, itoa, string_at, print_part, print_time}

-- A number below a thousand in decimal digits, without zeros in front.
abbrev pub decimal : ℕ → List ℕ
decimal n =
    if ltb n 10
    then (48 + n) ∷ []
    else if ltb n 100
    then (48 + n / 10) ∷ (48 + n % 10) ∷ []
    else (48 + n / 100) ∷ (48 + n / 10 % 10) ∷ (48 + n % 10) ∷ []

same_list : List ℕ → List ℕ → Bool
same_list [] [] = true
same_list [] (b ∷ ys) = false
same_list (a ∷ xs) [] = false
same_list (a ∷ xs) (b ∷ ys) = a == b && same_list xs ys

same_list_lem : (xs ys : List ℕ) → same_list xs ys ≡ true → xs ≡ ys
unfolding same_list
same_list_lem [] [] same = refl
same_list_lem [] (b ∷ ys) same = absurd (ground (arith, same))
same_list_lem (a ∷ xs) [] same = absurd (ground (arith, same))
same_list_lem (a ∷ xs) (b ∷ ys) same =
    let first : a ≡ b = ground arith in
    let rest : same_list xs ys ≡ true = ground arith in rw (first, same_list_lem xs ys rest) refl

decimal_table :
    (tmp buf : ℕ → ℕ)
    → all_below 256 (λ num. same_list (string_at 4 (itoa num tmp buf) 0) (decimal num)) ≡ true
unfolding all_below same_list string_at itoa digits_loop reverse_loop
decimal_table tmp buf = refl

-- The string that `itoa` leaves is the decimal form of its byte.
pub string_at-itoa :
    (num : ℕ) (tmp buf : ℕ → ℕ) → num < 256 → string_at 4 (itoa num tmp buf) 0 ≡ decimal num
string_at-itoa num tmp buf small = same_list_lem (string_at 4 (itoa num tmp buf) 0) (decimal num) (
    all_below-lt 256 (λ n. same_list (string_at 4 (itoa n tmp buf) 0) (decimal n)) num
      (decimal_table tmp buf) small)

print-++ : (a b : List ℕ) (t : Terminal) → print b (print a t) ≡ print (a ++ b) t
unfolding print print_color
print-++ [] b t = refl
print-++ (c ∷ a) b t = print-++ a b (terminal_write_char c white black t)

print_part_lem :
    (tmp : ℕ → ℕ) (num mark : ℕ) (buf : ℕ → ℕ) (t : Terminal)
    → num < 256
    → (print_part tmp num mark (buf, t)).1 ≡ print (decimal num ++ (mark ∷ [])) t
unfolding print_part
print_part_lem tmp num mark buf t small =
    rw (string_at-itoa num tmp buf small) (print-++ (decimal num) (mark ∷ []) t)

-- The numbers of a date are bytes.
pub record IsDate (time : RtcTime) : Type 0 where
  pub seconds_lem : time.seconds < 256
  pub minutes_lem : time.minutes < 256
  pub hours_lem : time.hours < 256
  pub day_lem : time.day < 256
  pub month_lem : time.month < 256
  pub year_lem : time.year < 256

-- The text of a date: `h:m:s d/m/y` and a new line.
abbrev pub part_text : (num mark : ℕ) → List ℕ
part_text num mark = decimal num ++ (mark ∷ [])

abbrev pub date_text : RtcTime → List ℕ
date_text time =
    ((((part_text time.hours 58 ++ part_text time.minutes 58) ++ part_text time.seconds 32)
        ++ part_text time.day 47)
      ++ part_text time.month 47)
    ++ part_text time.year 10

-- One part behind a text that is printed already.
print_part-after :
    (tmp : ℕ → ℕ) (num mark : ℕ) (before : (buf : ℕ → ℕ) × Terminal) (text : List ℕ) (t : Terminal)
    → num < 256
    → before.1 ≡ print text t
    → (print_part tmp num mark before).1 ≡ print (text ++ (decimal num ++ (mark ∷ []))) t
print_part-after tmp num mark (buf, t') text t small e =
    print_part_lem tmp num mark buf t' small
    ∙ ap (print (decimal num ++ (mark ∷ []))) e
    ∙ print-++ text (decimal num ++ (mark ∷ [])) t

-- Whatever the stack holds, `print_time` prints the date of bytes in decimal digits, without zeros in
-- front: `h:m:s d/m/y` and a new line.
pub print_time_lem :
    (tmp buf : ℕ → ℕ) (time : RtcTime) (t : Terminal)
    → IsDate time
    → print_time tmp buf time t ≡ print (date_text time) t
unfolding print_time
print_time_lem tmp buf time t is =
    let a = print_part tmp time.hours 58 (buf, t) in
    let b = print_part tmp time.minutes 58 a in
    let c = print_part tmp time.seconds 32 b in
    let d = print_part tmp time.day 47 c in
    let e = print_part tmp time.month 47 d in
    let first = print_part_lem tmp time.hours 58 buf t is.hours_lem in
    let second = print_part-after tmp time.minutes 58 a _ t is.minutes_lem first in
    let third = print_part-after tmp time.seconds 32 b _ t is.seconds_lem second in
    let fourth = print_part-after tmp time.day 47 c _ t is.day_lem third in
    let fifth = print_part-after tmp time.month 47 d _ t is.month_lem fourth in
    print_part-after tmp time.year 10 e _ t is.year_lem fifth
