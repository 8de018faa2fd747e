-- ===== src/Pit.antt =====
-- The timer, kernel/arch/i386/Pit.cc: one-shot programming and the wall clock. The bytes that go to
-- the device are the field `divisor`.
mod Tests
use doors.Base.{
  ℕ, ◌*◌, ◌/◌, ◌≤◌, ◌<◌, ◌≡◌, ltb, ◌==◌, if◌then◌else◌, add64, sub64, arith, u64_mod, ◌+◌,
}

abbrev pub pit_base_clock : ℕ
pit_base_clock = 1193182

abbrev pub pit_max_divisor : ℕ
pit_max_divisor = 65535

abbrev pub pit_max_ms : ℕ
pit_max_ms = 54

pub record Pit : Type 0 where
  pub ticks : ℕ
  pub deadline : ℕ
  pub divisor : ℕ

-- `clamp(x, lo, hi)`
abbrev pub clamp : ℕ → ℕ → ℕ → ℕ
clamp x lo hi = if ltb x lo then lo else if ltb hi x then hi else x

unfoldable pub one_shot_ms : ℕ → ℕ
one_shot_ms ms = let up = if ms == 0 then 1 else ms in if ltb pit_max_ms up then pit_max_ms else up

unfoldable pub program_for_ms : ℕ → Pit → Pit
unfolding one_shot_ms
program_for_ms ms p = record p {
  deadline = add64 p.ticks (one_shot_ms ms);
  divisor = clamp (pit_base_clock * one_shot_ms ms / 1000) 1 pit_max_divisor;
}

unfoldable pub init : Pit → Pit
init p = program_for_ms 1 (record p { ticks = 0; deadline = 0 })

-- The timer interrupt: the clock moves on to the deadline.
unfoldable pub tick : Pit → Pit
tick p = record p { ticks = p.deadline }

unfoldable pub uptime_ms : Pit → ℕ
uptime_ms p = p.ticks

unfoldable pub uptime_sec : Pit → ℕ
uptime_sec p = p.ticks / 1000

unfoldable pub ms_since : ℕ → Pit → ℕ
ms_since last p = sub64 p.ticks last

-- Programming any delay gives a divisor that the 16-bit counter holds uncut, and the interrupt
-- then moves the clock on by the delay, at least 1 ms and at most 54 ms, if the clock does not
-- overflow.
pub program_for_ms-tick :
    (ms : ℕ) (p : Pit)
    → p.ticks + pit_max_ms < u64_mod
    → ((program_for_ms ms p).divisor ≡ pit_base_clock * one_shot_ms ms / 1000)
      × ((program_for_ms ms p).divisor ≤ pit_max_divisor)
      × (uptime_ms (tick (program_for_ms ms p)) ≡ uptime_ms p + clamp ms 1 pit_max_ms)
unfolding program_for_ms tick uptime_ms
program_for_ms-tick ms p h = ground arith
