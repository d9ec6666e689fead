-- ===== src/Timer/Tests.antt =====
-- A timer that is that one channel.
use lazy_os.Prelude.{ℕ, ◌/◌, ◌%◌, ◌≡◌, refl, true, arith, ◌==◌, if◌then◌else◌}
use lazy_os.Ports.{Ports}
use lazy_os.Timer.Channel.{Channel, nothing, mode_word, count_byte, Pit}

-- A word for another channel, or for less than both bytes, has no effect.
abbrev select : (value : ℕ) → Channel → Channel
select value c =
    if value / 64 % 4 == 0 then (if value / 16 % 4 == 3 then mode_word value c else c) else c

select-both :
    (value : ℕ) (c : Channel)
    → value / 64 % 4 ≡ 0
    → value / 16 % 4 ≡ 3
    → select value c ≡ mode_word value c
select-both value c chosen both =
    let e : (value / 64 % 4 == 0) ≡ true = ground arith in
    let f : (value / 16 % 4 == 3) ≡ true = ground arith in rw (e, f) refl

abbrev ports : Ports
ports = record {
  State = Channel;
  insb = λ port c. (0, c);
  insw = λ port c. (0, c);
  outb = λ port value c.
      if port == 0x43
      then select value c
      else if port == 0x40
      then count_byte value c.waits c
      else c;
  outw = λ port value c. c;
  cli = λ s. s;
  sti = λ s. s;
}

abbrev pit : Pit ports
pit = record {
  channel = λ c. c;
  command_lem = λ value c chosen both. select-both value c chosen both;
  count_lem = λ value c. refl;
}

abbrev bios : Channel
bios = record { waits = nothing; mode = 2; decimal = 1; reload = 0 }
