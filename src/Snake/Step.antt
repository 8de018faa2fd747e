-- ===== src/Snake/Step.antt =====
-- `init`, `step` and the intervals of user/snake/Game.cc. One step is a chain of parts, each of which
-- is a stretch of the code.
use doors.Base.{
  Outcome, done, panic, ℕ, zero, suc, ◌+◌, ◌-◌, ◌*◌, ◌/◌, ◌%◌, Bool, true, false, ◌||◌, ◌&&◌, not,
  Option, none, some, ◌==◌, if◌then◌else◌, ltb, leb, update, sub64, add64,
}
use doors.Snake.{
  Dir, up, down, left, right, Pos, Snake, board_rows, board_cols, snake_max, bonus_points,
  bonus_interval_ms, bonus_duration_min_ms, bonus_highlight_ms, max_obstacles,
  obstacle_step_interval, boost_duration_ms, boost_respawn_ms, max_cells, same_pos, wall_collision,
  self_collision, obstacle_collision, place_food, place_bonus_food, place_obstacles, spawn_obstacle,
  place_boost_zones,
}

-- Center of the playable area.
abbrev pub center : Pos
center = record { row = 12; col = 40 }

unfoldable pub init : ℕ → Bool → Snake → Snake
init seed with_obstacles s =
    let reset = record s {
      lcg = seed;
      head = 0;
      size = 1;
      dir = right;
      score = 0;
      body = update s.body 0 center;
      bonus_active = false;
      bonus_elapsed_ms = 0;
      bonus_remaining_ms = 0;
      score_highlight_remaining_ms = 0;
      obstacle_count = 0;
      eats_since_obstacle = 0;
      boost_zone_count = 0;
      boost_active = false;
      boost_timer_ms = 0;
      boost_cooldown_ms = 0;
    } in
    let fed = place_food (max_cells * 2) reset in
    place_boost_zones (if with_obstacles then place_obstacles fed else fed)

unfoldable pub move : Dir → Pos → Pos
move up p = record p { row = p.row - 1 }
move down p = record p { row = p.row + 1 }
move left p = record p { col = p.col - 1 }
move right p = record p { col = p.col + 1 }

abbrev pub wrap : ℕ → ℕ → ℕ
wrap bound x = if ltb x 1 then bound else if ltb bound x then 1 else x

-- The cell that the head moves to.
unfoldable pub next_pos : Snake → Pos
next_pos s =
    let p = move s.dir (s.body s.head) in
    if s.wrap_mode then record { row = wrap board_rows p.row; col = wrap board_cols p.col } else p

unfoldable pub blocked : Snake → Pos → Bool
blocked s p = (not s.wrap_mode && wall_collision p) || self_collision s p || obstacle_collision s p

unfoldable pub advance : Pos → Snake → Snake
advance p s = let h = (s.head + 1) % snake_max in record s { head = h; body = update s.body h p }

-- The obstacle that appears with every third meal.
unfoldable pub count_meal : Snake → Snake
count_meal s =
    let eats = s.eats_since_obstacle + 1 in
    if ltb s.obstacle_count max_obstacles
    then (if leb obstacle_step_interval eats
        then spawn_obstacle (max_cells * 2) (record s { eats_since_obstacle = 0 })
        else record s { eats_since_obstacle = eats })
    else s

unfoldable pub eat : Bool → Snake → Snake
eat ate s = if ate then count_meal (record s { size = s.size + 1; score = s.score + 1 }) else s

unfoldable pub eat_bonus : Bool → Snake → Snake
eat_bonus ate s =
    if ate
    then record s {
      score = s.score + bonus_points;
      bonus_active = false;
      score_highlight_remaining_ms = bonus_highlight_ms;
    }
    else s

-- The first of the `n` zones from `i` on that is `p`.
unfoldable pub find_zone : ℕ → ℕ → (ℕ → Pos) → Pos → Option ℕ
find_zone zero i zones p = none
find_zone (suc n) i zones p =
    let rest = find_zone n (suc i) zones p in if same_pos p (zones i) then some i else rest

-- The last zone takes the place of the one that is used up.
unfoldable pub use_zone : Pos → Snake → Snake
use_zone p s = elim (find_zone s.boost_zone_count 0 s.boost_zones p) [
  | none ↦ s
  | some i ↦ record s {
    boost_zones = update s.boost_zones i (s.boost_zones (s.boost_zone_count - 1));
    boost_zone_count = s.boost_zone_count - 1;
    boost_active = true;
    boost_timer_ms = boost_duration_ms;
  }
]

unfoldable pub feed : Bool → Snake → Snake
feed ate s = if ate then place_food (max_cells * 2) s else s

unfoldable pub run_boost : ℕ → Snake → Snake
run_boost dt s =
    if s.boost_active
    then (if leb s.boost_timer_ms dt
        then record s { boost_active = false; boost_timer_ms = 0 }
        else record s { boost_timer_ms = s.boost_timer_ms - dt })
    else s

unfoldable pub respawn_zones : ℕ → Snake → Snake
respawn_zones dt s =
    let cooled = record s { boost_cooldown_ms = add64 s.boost_cooldown_ms dt } in
    if s.boost_zone_count == 0
    then (if leb boost_respawn_ms cooled.boost_cooldown_ms
        then record (place_boost_zones cooled) { boost_cooldown_ms = 0 }
        else cooled)
    else s

unfoldable pub run_bonus : ℕ → Snake → Snake
run_bonus dt s =
    if s.bonus_active
    then (if leb s.bonus_remaining_ms dt
        then record s {
          bonus_active = false;
          bonus_elapsed_ms = add64 s.bonus_elapsed_ms (dt - s.bonus_remaining_ms);
        }
        else record s {
          bonus_remaining_ms = s.bonus_remaining_ms - dt;
          bonus_elapsed_ms = add64 s.bonus_elapsed_ms dt;
        })
    else record s { bonus_elapsed_ms = add64 s.bonus_elapsed_ms dt }

-- The highlight of the score, where the subtraction stops at 0.
unfoldable pub run_highlight : ℕ → Snake → Snake
run_highlight dt s = record s { score_highlight_remaining_ms = s.score_highlight_remaining_ms - dt }

-- `length_` is below 2^31.
unfoldable pub bonus_duration_ms : Snake → ℕ
bonus_duration_ms s =
    let ms = sub64 bonus_interval_ms (s.size * 200) in
    if ltb ms bonus_duration_min_ms then bonus_duration_min_ms else ms

unfoldable pub offer_bonus : Snake → Snake
offer_bonus s =
    let q = place_bonus_food (max_cells * 2) (record s { bonus_elapsed_ms = 0 }) in
    if not s.bonus_active && leb bonus_interval_ms s.bonus_elapsed_ms
    then record q { bonus_remaining_ms = bonus_duration_ms q; bonus_active = true }
    else s

-- The part of `step` behind the checks.
unfoldable pub move_to : ℕ → Pos → Snake → Snake
move_to dt p s =
    let ate = same_pos p s.food in
    let ate_bonus = s.bonus_active && same_pos p s.bonus_food in
    offer_bonus (
      run_highlight dt (
        run_bonus dt (
          respawn_zones dt
            (run_boost dt (feed ate (use_zone p (eat_bonus ate_bonus (eat ate (advance p s)))))))))

unfoldable pub step : ℕ → Snake → Snake × Bool
step dt s =
    let q = record s { started = true } in
    let p = next_pos q in if blocked q p then (q, false) else (move_to dt p q, true)

-- `clamp(200 - length_ * 8, 60, 200)`
unfoldable pub base_interval_ms : Snake → ℕ
base_interval_ms s = if ltb (200 - s.size * 8) 60 then 60 else 200 - s.size * 8

unfoldable pub is_vertical : Dir → Bool
is_vertical up = true
is_vertical down = true
is_vertical left = false
is_vertical right = false

unfoldable pub move_interval_ms : Snake → ℕ
move_interval_ms s =
    let ms = if s.boost_active then base_interval_ms s / 2 else base_interval_ms s in
    if is_vertical s.dir then (ms * 3 + 1) / 2 else ms

unfoldable pub set_wrap_mode : Bool → Snake → Snake
set_wrap_mode on s = record s { wrap_mode = on }

-- A trap for an index that is too large.
unfoldable pub obstacle_pos : ℕ → Snake → Outcome Pos
obstacle_pos i s = if leb s.obstacle_count i then panic else done (s.obstacles i)

unfoldable pub boost_zone_pos : ℕ → Snake → Outcome Pos
boost_zone_pos i s = if leb s.boost_zone_count i then panic else done (s.boost_zones i)
