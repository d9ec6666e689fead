-- ===== src/Memory/Tests.antt =====
-- The byte loops on concrete regions.
use lazy_os.Prelude.{ℕ, ◌==◌, if◌then◌else◌}

abbrev zeros : ℕ → ℕ
zeros i = 0

-- The byte 200 at the index 3.
abbrev marked : ℕ → ℕ
marked i = if i == 3 then 200 else 0
