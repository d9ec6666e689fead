-- ===== src/Clock.antt =====
-- src/clock/clock.c: the date of the real-time clock and its printed form. What an interrupt does
-- between two of the instructions is part of what the ports do.
pub mod Digits
pub mod Cmos
pub mod Text
pub mod Simulated
mod Tests
use lazy_os.Prelude.{
  ℕ, zero, suc, ◌+◌, ◌-◌, ◌*◌, ◌/◌, ◌%◌, bit_and, ◌==◌, if◌then◌else◌, update, Option, none, some,
  ◌>>=◌, List, [], ◌∷◌,
}
use lazy_os.Ports.{Ports}
use lazy_os.Vga.{Terminal, print}

pub record RtcTime : Type 0 where
  pub seconds : ℕ
  pub minutes : ℕ
  pub hours : ℕ
  pub day : ℕ
  pub month : ℕ
  pub year : ℕ

unfoldable pub convert_to_num : (bcd : ℕ) → ℕ
convert_to_num bcd = (bcd / 16 * 10 + bit_and bcd 0x0F) % 256

-- The loop that writes the digits to `tmp`, the last one first. It returns their number. Each round
-- divides by ten, so the fuel is at least the number of digits.
unfoldable pub digits_loop : (fuel : ℕ) → (num : ℕ) → (tmp : ℕ → ℕ) → (i : ℕ) → ℕ × (ℕ → ℕ)
digits_loop zero num tmp i = (i, tmp)
digits_loop (suc fuel) num tmp i =
    let rest = digits_loop fuel (num / 10) (update tmp i (48 + num % 10)) (i + 1) in
    if num == 0 then (i, tmp) else rest

-- The loop that reverses: `k` characters of `tmp` are left, and go to `buf` from `j` on.
unfoldable pub reverse_loop : (k : ℕ) → (tmp buf : ℕ → ℕ) → (j : ℕ) → ℕ → ℕ
reverse_loop zero tmp buf j = update buf j 0
reverse_loop (suc k) tmp buf j = reverse_loop k tmp (update buf j (tmp k)) (j + 1)

-- `num` is a byte, and `tmp` has any contents before.
unfoldable pub itoa : (num : ℕ) → (tmp buf : ℕ → ℕ) → ℕ → ℕ
itoa num tmp buf =
    let (i, digits) = digits_loop 4 num tmp 0 in
    if num == 0 then update (update buf 0 48) 1 0 else reverse_loop i digits buf 0

module _ (p : Ports) where
  unfoldable pub rtc_read : (type : ℕ) → p.State → ℕ × p.State
  rtc_read type s = p.insb 0x71 (p.outb 0x70 type s)

  -- `while (rtc_read(0x0A) & 0x80)`, on fuel: `none` stands for a wait that goes on.
  unfoldable pub rtc_updated : (fuel : ℕ) → p.State → Option p.State
  unfolding rtc_read
  rtc_updated zero s = none
  rtc_updated (suc fuel) s =
      let (status, s') = rtc_read 0x0A s in
      let rest = rtc_updated fuel s' in if bit_and status 0x80 == 0 then some s' else rest

  -- The six reads behind the wait, in the order of the code.
  unfoldable pub read_numbers : p.State → RtcTime × p.State
  unfolding rtc_read
  read_numbers s =
      let (seconds, s1) = rtc_read 0x00 s in
      let (minutes, s2) = rtc_read 0x02 s1 in
      let (hours, s3) = rtc_read 0x04 s2 in
      let (day, s4) = rtc_read 0x07 s3 in
      let (month, s5) = rtc_read 0x08 s4 in
      let (year, s6) = rtc_read 0x09 s5 in
      (
        record {
          seconds = convert_to_num seconds;
          minutes = convert_to_num minutes;
          hours = convert_to_num hours;
          day = convert_to_num day;
          month = convert_to_num month;
          year = convert_to_num year;
        },
        s6,
      )

  unfoldable pub read_date : (fuel : ℕ) → p.State → Option (RtcTime × p.State)
  unfolding rtc_updated read_numbers
  read_date fuel s = rtc_updated fuel s >>= λ s'.
      let (time, s'') = read_numbers (p.cli s') in some (time, p.sti s'')

-- The string in `buf` from `j` on, up to its null character, of at most `k` characters.
unfoldable pub string_at : (k : ℕ) → (buf : ℕ → ℕ) → (j : ℕ) → List ℕ
string_at zero buf j = []
string_at (suc k) buf j =
    let rest = string_at k buf (j + 1) in if buf j == 0 then [] else buf j ∷ rest

-- `itoa(num, buf); print(buf); print(mark);`: the buffer has four characters, and keeps them.
unfoldable pub print_part :
    (tmp : ℕ → ℕ) → (num mark : ℕ) → (buf : ℕ → ℕ) × Terminal → (buf : ℕ → ℕ) × Terminal
unfolding itoa string_at
print_part tmp num mark (buf, t) =
    let buf' = itoa num tmp buf in (buf', print (mark ∷ []) (print (string_at 4 buf' 0) t))

-- The contents of the stack, which `tmp` and `buf` have at first, do not matter.
unfoldable pub print_time : (tmp buf : ℕ → ℕ) → RtcTime → Terminal → Terminal
print_time tmp buf time t =
    let a = print_part tmp time.hours 58 (buf, t) in
    let b = print_part tmp time.minutes 58 a in
    let c = print_part tmp time.seconds 32 b in
    let d = print_part tmp time.day 47 c in
    let e = print_part tmp time.month 47 d in let f = print_part tmp time.year 10 e in f.1
