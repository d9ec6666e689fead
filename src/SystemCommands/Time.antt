-- ===== src/SystemCommands/Time.antt =====
-- The time that `get_time` prints.
use lazy_os.Prelude.{ℕ, ◌≤◌, ◌<◌, ◌≡◌, refl, arith, some}
use lazy_os.Ports.{Ports}
use lazy_os.Vga.{Terminal, print}
use lazy_os.Clock.Cmos.{Cmos, date_at, number_at, read_date-consistent}
use lazy_os.Clock.Text.{IsDate, date_text, print_time_lem}
use lazy_os.SystemCommands.{get_time}

module _ (p : Ports) (k : Cmos p) where
  number_at-byte : (s : p.State) (r : ℕ) → r < 0x0A → number_at p k s r < 256
  number_at-byte s r small = let (form, ten, unit) = k.digits s r small in omega arith

  date_at-IsDate : (s : p.State) → IsDate (date_at p k s)
  date_at-IsDate s = record {
    seconds_lem = number_at-byte s 0x00 (omega arith);
    minutes_lem = number_at-byte s 0x02 (omega arith);
    hours_lem = number_at-byte s 0x04 (omega arith);
    day_lem = number_at-byte s 0x07 (omega arith);
    month_lem = number_at-byte s 0x08 (omega arith);
    year_lem = number_at-byte s 0x09 (omega arith);
  }

  -- Over ports that behave as the clock, with more fuel than the longest update takes, `get_time`
  -- ends and prints the date of one state of the clock, in which no update goes on, in decimal
  -- digits.
  pub get_time_lem :
      (fuel : ℕ) (tmp buf : ℕ → ℕ) (t : Terminal) (s : p.State)
      → k.patience < fuel
      → (s1 s2 : p.State) × (get_time p fuel tmp buf (t, s)
          ≡ some (print (date_text (date_at p k s1)) t, s2))
        × (6 ≤ k.window s1)
        × (k.register s2 ≡ k.register s1)
  unfolding get_time
  get_time_lem fuel tmp buf t s enough =
      let (s1, s2, e, open_for, same) = read_date-consistent p k fuel s enough in
      let text = print_time_lem tmp buf (date_at p k s1) t (date_at-IsDate s1) in
      (s1, s2, rw (get_time, e, text) refl, open_for, same)
