-- ===== src/Snake/Tests.antt =====
-- Runs of user/snake/Game.cc, and the theorems about it at concrete inputs.
use doors.Base.{ℕ, ◌≡◌, refl, arith, Bool, true, false}
use doors.Snake.{
  Snake, Pos, right, body_at, place_food, food_fits, on_body, obstacle_collision, among,
  place_obstacles, fill_obstacles, add_obstacle, draw_twice, drawn_cell, lcg_next,
  place_boost_zones, fill_zones, zone_fits, obstacle_fits, add_zone, same_pos,
}
use doors.Snake.Step.{init, step, bonus_duration_ms}
use doors.Snake.Ahead.{Ahead}
use doors.Snake.Board.{Valid, Steps, step-Steps}
use doors.Snake.Bonus.{bonus_ms, bonus_duration_ms_lem}

abbrev origin : Pos
origin = record { row = 0; col = 0 }

-- A game before its `init`.
abbrev fresh : Snake
fresh = record {
  body = λ i. origin;
  before = λ i. origin;
  head = 0;
  size = 1;
  dir = right;
  food = origin;
  bonus_food = origin;
  obstacles = λ i. origin;
  obstacle_count = 0;
  eats_since_obstacle = 0;
  lcg = 0;
  score = 0;
  bonus_elapsed_ms = 0;
  bonus_remaining_ms = 0;
  score_highlight_remaining_ms = 0;
  wrap_mode = false;
  started = false;
  bonus_active = false;
  boost_zones = λ i. origin;
  boost_zone_count = 0;
  boost_active = false;
  boost_timer_ms = 0;
  boost_cooldown_ms = 0;
}

abbrev started_at : ℕ → Pos → Snake
started_at seed food = record fresh {
  body = λ i. record { row = 12; col = 40 };
  food = food;
  lcg = seed;
}

-- The food is in front of the head.
abbrev game : Snake
game = started_at 7 (record { row = 12; col = 41 })

game-Valid : Valid game
unfolding body_at
game-Valid = record {
  head_bound = omega arith;
  not_empty = omega arith;
  cells = λ i h k. ground arith;
  laid = record {
    obstacle_bound = omega arith;
    obstacle_cells = λ i h. absurd (omega arith);
    zone_bound = omega arith;
    zone_cells = λ i h. absurd (omega arith);
  };
  eats = omega arith;
}

step-Steps_example :
    (p : Pos) × Ahead right false (record { row = 12; col = 40 }) p × Steps game p (step 60 game)
unfolding body_at
step-Steps_example = step-Steps 60 game game-Valid

bonus_duration_ms_example : bonus_duration_ms (record fresh { size = 41 }) ≡ bonus_ms 41
bonus_duration_ms_example = bonus_duration_ms_lem (record fresh { size = 41 }) (omega arith)

-- With this seed the first obstacle is put on the food.
buried : Bool
buried = same_pos (init 8 true fresh).food ((init 8 true fresh).obstacles 0)

init_buries_food : buried ≡ true
unfolding buried init place_food food_fits on_body obstacle_collision among place_obstacles
    fill_obstacles add_obstacle draw_twice drawn_cell lcg_next place_boost_zones fill_zones
    zone_fits obstacle_fits add_zone body_at
init_buries_food = refl

-- A part of a long snake is looked for in front of the array.
far_part : ℕ
far_part = (body_at (record fresh { before = λ k. record { row = k; col = 0 } }) 103).row

body_at_far : far_part ≡ 3
unfolding far_part body_at
body_at_far = refl
