-- ===== src/Clock/Tests.antt =====
-- A clock in the middle of an update.
use lazy_os.Prelude.{◌≤◌, ◌≡◌, arith, some}
use lazy_os.Clock.{read_date}
use lazy_os.Clock.Cmos.{date_at, read_date-consistent}
use lazy_os.Clock.Simulated.{Clock, ports, cmos, updating}

read_date-consistent_example :
    (s1 s2 : Clock) × (read_date ports 10 updating ≡ some (date_at ports cmos s1, s2))
    × (6 ≤ s1.window)
    × (cmos.register s2 ≡ cmos.register s1)
read_date-consistent_example = read_date-consistent ports cmos 10 updating (omega arith)
