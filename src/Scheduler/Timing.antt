-- ===== src/Scheduler/Timing.antt =====
-- How far ahead `programNextTick` of kernel/kernel/Scheduler.cc sets the timer.
use doors.Base.{ℕ, ◌+◌, ◌-◌, ◌≤◌, ◌<◌, arith, sub64, u64_mod}
use doors.Pit.{pit_max_ms}
use doors.Scheduler.{Scheduler, quantum_ms}
use doors.Scheduler.Tick.{until_sleeper, next_tick_ms}

until_sleeper-le :
    (now : ℕ) (s : Scheduler)
    → 0 < s.sleep_count
    → now < (s.sleep_queue 0).deadline
    → (s.sleep_queue 0).deadline < u64_mod
    → until_sleeper now s ≤ (s.sleep_queue 0).deadline - now
unfolding until_sleeper
until_sleeper-le now s h k l = ground arith

next_tick_ms-le-until :
    (now : ℕ) (s : Scheduler) (m : ℕ) → until_sleeper now s ≤ m → 1 ≤ m → next_tick_ms now s ≤ m
unfolding next_tick_ms
next_tick_ms-le-until now s m h k = ground arith

-- programNextTick sets the timer at least 1 ms and at most 54 ms ahead, not past the earliest
-- deadline of the sleep queue (a 64-bit time) if that lies ahead, and not past the end of the
-- running quantum.
pub next_tick_ms_bounds :
    (now : ℕ) (s : Scheduler)
    → (s.sleep_queue 0).deadline < u64_mod
    → (1 ≤ next_tick_ms now s)
      × (next_tick_ms now s ≤ pit_max_ms)
      × (0 < s.sleep_count
          → now < (s.sleep_queue 0).deadline
          → now + next_tick_ms now s ≤ (s.sleep_queue 0).deadline)
      × (sub64 now s.quantum_start_ms < quantum_ms
          → sub64 now s.quantum_start_ms + next_tick_ms now s ≤ quantum_ms)
next_tick_ms_bounds now s h = (
  unfold next_tick_ms in ground arith,
  unfold next_tick_ms in ground arith,
  λ k l. omega (
    arith,
    next_tick_ms-le-until now s ((s.sleep_queue 0).deadline - now) (until_sleeper-le now s k l h)
        (omega arith),
  ),
  λ k. unfold next_tick_ms in ground arith,
)
