-- ===== src/Str/Tests.antt =====
-- The command "ls" against itself and "la".
use lazy_os.Prelude.{ℕ, refl, arith, ◌==◌, if◌then◌else◌}
use lazy_os.Str.Compare.{IsString}

-- The string of an 'l' and the character `c`.
abbrev pair_of : ℕ → ℕ → ℕ
pair_of c i = if i == 0 then 108 else if i == 1 then c else 0

ls-IsString : IsString (pair_of 115) 0 2
ls-IsString = record { ended = refl; inside = λ j h. ground arith }

la-IsString : IsString (pair_of 97) 0 2
la-IsString = record { ended = refl; inside = λ j h. ground arith }
