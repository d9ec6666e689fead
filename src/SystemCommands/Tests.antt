-- ===== src/SystemCommands/Tests.antt =====
-- The time on an empty screen.
use lazy_os.Prelude.{ℕ, ◌≤◌, ◌≡◌, arith, some}
use lazy_os.Vga.{Terminal, print}
use lazy_os.Clock.Cmos.{date_at}
use lazy_os.Clock.Simulated.{Clock, ports, cmos, updating}
use lazy_os.Clock.Text.{date_text}
use lazy_os.SystemCommands.{get_time}
use lazy_os.SystemCommands.Time.{get_time_lem}

abbrev junk : ℕ → ℕ
junk i = 7

abbrev dark : Terminal
dark = record {
  video_mem = junk;
  terminal_row = 3;
  terminal_col = 70;
  saved_screen = junk;
  saved_row = 0;
  saved_col = 0;
}

get_time_lem_example :
    (s1 s2 : Clock) × (get_time ports 10 junk junk (dark, updating)
      ≡ some (print (date_text (date_at ports cmos s1)) dark, s2))
    × (6 ≤ s1.window)
    × (cmos.register s2 ≡ cmos.register s1)
get_time_lem_example = get_time_lem ports cmos 10 junk junk dark updating (omega arith)
