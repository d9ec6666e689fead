-- ===== src/Console/Tests.antt =====
-- A word at the start of a line that was cleared.
use lazy_os.Prelude.{ℕ, ◌<◌, ◌≡◌, arith, [], ◌∷◌}
use lazy_os.Console.{Buffer, buffer_size, clear_buffer, text}
use lazy_os.Console.Line.{type_all, type_all-clear_buffer}

-- A line behind an earlier one, at the last position before the wrap-around.
abbrev old : Buffer
old = record { chars = λ j. 65; position = 255 }

type_all-clear_buffer_example :
    ((type_all (108 ∷ 115 ∷ []) (clear_buffer old)).position ≡ 2)
    × ((j : ℕ)
        → j < buffer_size
        → (type_all (108 ∷ 115 ∷ []) (clear_buffer old)).chars j ≡ text (108 ∷ 115 ∷ []) j)
type_all-clear_buffer_example = type_all-clear_buffer (108 ∷ 115 ∷ []) old (omega arith)
