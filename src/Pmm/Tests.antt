-- ===== src/Pmm/Tests.antt =====
-- The bitmap's theorems on small bitmaps and ranges.
use lazy_os.Prelude.{ℕ, ◌%◌, ◌<◌, ◌≡◌, refl, true, arith, ◌==◌, if◌then◌else◌}
use lazy_os.Prelude.Bytes.{test_bit, test_bit-full}
use lazy_os.Pmm.{get_free_in, init_bitmap_pmm}
use lazy_os.Pmm.Frames.{IsBytes, is_taken}
use lazy_os.Pmm.Alloc.{IsGiven, get_free_in-IsGiven}
use lazy_os.Pmm.Fill.{init_bitmap_pmm-reserved}

-- Frames 0 to 10 are taken.
abbrev eleven : ℕ → ℕ
eleven i = if i == 0 then 255 else if i == 1 then 7 else 0

eleven-IsBytes : IsBytes eleven
eleven-IsBytes i = ground arith

abbrev all_taken : ℕ → ℕ
all_taken i = 255

all_taken-taken : (g : ℕ) → g < 16 → is_taken all_taken g ≡ true
unfolding is_taken
all_taken-taken g h = test_bit-full (g % 8) (omega arith)

get_free_in-IsGiven_example : (f : ℕ) × IsGiven eleven 2 (get_free_in 2 eleven) f
unfolding is_taken test_bit
get_free_in-IsGiven_example =
    get_free_in-IsGiven 2 eleven (omega arith) eleven-IsBytes 12 (omega arith) refl

init_bitmap_pmm-reserved_example : is_taken (init_bitmap_pmm eleven) 5000 ≡ true
init_bitmap_pmm-reserved_example = init_bitmap_pmm-reserved eleven 5000 refl
