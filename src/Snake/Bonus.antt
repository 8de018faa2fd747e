-- ===== src/Snake/Bonus.antt =====
-- The time that a bonus stays on the board in user/snake/Game.cc.
use doors.Base.{ℕ, ◌+◌, ◌-◌, ◌*◌, ◌<◌, ◌≡◌, ◌^◌, arith, ltb, if◌then◌else◌, u64_mod}
use doors.Snake.{Snake, bonus_interval_ms, bonus_duration_min_ms}
use doors.Snake.Step.{bonus_duration_ms}

abbrev pub bonus_ms : ℕ → ℕ
bonus_ms size =
    if ltb size 20
    then bonus_interval_ms - 200 * size
    else if ltb size 41
    then bonus_duration_min_ms
    else u64_mod + bonus_interval_ms - 200 * size

-- For a length below 2^31 the time of a bonus falls by 200 ms per cell from 8 seconds to 4 seconds
-- at a length of 20 and stays there up to a length of 40; for a longer snake it is 2^64 + 8000 -
-- 200 times the length.
pub bonus_duration_ms_lem : (s : Snake) → s.size < 2 ^ 31 → bonus_duration_ms s ≡ bonus_ms s.size
unfolding bonus_duration_ms
bonus_duration_ms_lem s h = ground arith
