-- ===== src/Pit/Tests.antt =====
-- The timer at concrete inputs.
use doors.Base.{◌*◌, ◌/◌, ◌≤◌, ◌+◌, ◌≡◌, arith, refl}
use doors.Pit.{
  Pit, program_for_ms, tick, uptime_ms, pit_base_clock, pit_max_divisor, one_shot_ms,
  program_for_ms-tick,
}

abbrev at_five : Pit
at_five = record { ticks = 5; deadline = 6; divisor = 1 }

program_for_ms-tick_example :
    ((program_for_ms 200 at_five).divisor ≡ pit_base_clock * one_shot_ms 200 / 1000)
    × ((program_for_ms 200 at_five).divisor ≤ pit_max_divisor)
    × (uptime_ms (tick (program_for_ms 200 at_five)) ≡ uptime_ms at_five + 54)
program_for_ms-tick_example = program_for_ms-tick 200 at_five (omega arith)

program_for_ms_full : (program_for_ms 54 at_five).divisor ≡ 64431
unfolding program_for_ms
program_for_ms_full = refl
