-- ===== src/SystemCommands.antt =====
-- src/drivers/VGA/system_commands.c: the commands of the command line that only print.
pub mod Time
mod Tests
use lazy_os.Prelude.{ℕ, Option, none, some, ◌>>=◌, List, [], ◌∷◌}
use lazy_os.Ports.{Ports}
use lazy_os.Vga.{Terminal, print}
use lazy_os.Clock.{read_date, print_time}

-- "testing the buffer" and a new line.
abbrev pub test_message : List ℕ
test_message =
    116 ∷ 101 ∷ 115 ∷ 116 ∷ 105 ∷ 110 ∷ 103 ∷ 32 ∷ 116 ∷ 104 ∷ 101 ∷ 32 ∷ 98 ∷ 117 ∷ 102 ∷ 102 ∷ 101
    ∷ 114 ∷ 10 ∷ []

unfoldable pub test_com : Terminal → Terminal
test_com t = print test_message t

-- On fuel for the wait of the clock. The stack of `print_time` holds `tmp` and `buf`.
unfoldable pub get_time :
    (p : Ports) (fuel : ℕ) (tmp buf : ℕ → ℕ) → Terminal × p.State → Option (Terminal × p.State)
get_time p fuel tmp buf (t, s) =
    read_date p fuel s >>= λ (time, s'). some (print_time tmp buf time t, s')
