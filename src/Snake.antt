-- ===== src/Snake.antt =====
-- The game user/snake/Game.cc and user/snake/Game.h: its state, the tests for collisions, and the
-- random placing of food, obstacles and boost zones. Rows and columns are numbers: what would be
-- below 0 is as far off the board as 0. What is drawn is left out.
pub mod Step
pub mod Ring
pub mod Placed
pub mod Rest
pub mod Ahead
pub mod Board
pub mod Bonus
mod Tests
use doors.Base.{
  ℕ, zero, suc, ◌+◌, ◌-◌, ◌*◌, ◌%◌, Bool, true, false, ◌||◌, ◌&&◌, not, ◌==◌, if◌then◌else◌, ltb,
  leb, update, u32_mod,
}

abbrev pub board_rows : ℕ
board_rows = 23

abbrev pub board_cols : ℕ
board_cols = 78

abbrev pub snake_max : ℕ
snake_max = 100

abbrev pub bonus_points : ℕ
bonus_points = 3

abbrev pub bonus_interval_ms : ℕ
bonus_interval_ms = 8000

abbrev pub bonus_duration_min_ms : ℕ
bonus_duration_min_ms = 4000

abbrev pub bonus_highlight_ms : ℕ
bonus_highlight_ms = 2000

abbrev pub max_obstacles : ℕ
max_obstacles = 20

abbrev pub obstacle_init_count : ℕ
obstacle_init_count = 10

abbrev pub obstacle_step_interval : ℕ
obstacle_step_interval = 3

abbrev pub max_boost_zones : ℕ
max_boost_zones = 3

abbrev pub boost_duration_ms : ℕ
boost_duration_ms = 4000

abbrev pub boost_respawn_ms : ℕ
boost_respawn_ms = 8000

abbrev pub max_cells : ℕ
max_cells = 1794

pub data Dir : Type 0 where
  up : Dir
  down : Dir
  left : Dir
  right : Dir

pub record Pos : Type 0 where
  pub row : ℕ
  pub col : ℕ

-- `before k` is what lies `k` places in front of the array `body_`.
pub record Snake : Type 0 where
  pub body : ℕ → Pos
  pub before : ℕ → Pos
  pub head : ℕ
  pub size : ℕ
  pub dir : Dir
  pub food : Pos
  pub bonus_food : Pos
  pub obstacles : ℕ → Pos
  pub obstacle_count : ℕ
  pub eats_since_obstacle : ℕ
  pub lcg : ℕ
  pub score : ℕ
  pub bonus_elapsed_ms : ℕ
  pub bonus_remaining_ms : ℕ
  pub score_highlight_remaining_ms : ℕ
  pub wrap_mode : Bool
  pub started : Bool
  pub bonus_active : Bool
  pub boost_zones : ℕ → Pos
  pub boost_zone_count : ℕ
  pub boost_active : Bool
  pub boost_timer_ms : ℕ
  pub boost_cooldown_ms : ℕ

abbrev pub same_pos : Pos → Pos → Bool
same_pos p q = p.row == q.row && p.col == q.col

unfoldable pub is_opposite : Dir → Dir → Bool
is_opposite up down = true
is_opposite down up = true
is_opposite left right = true
is_opposite right left = true
is_opposite up up = false
is_opposite up left = false
is_opposite up right = false
is_opposite down down = false
is_opposite down left = false
is_opposite down right = false
is_opposite left left = false
is_opposite left up = false
is_opposite left down = false
is_opposite right right = false
is_opposite right up = false
is_opposite right down = false

unfoldable pub set_dir : Dir → Snake → Snake
set_dir d s = if not (is_opposite s.dir d) then record s { dir = d } else s

-- `body_[(head_ - i + SNAKE_MAX) % SNAKE_MAX]`, where the remainder of a negative number is negative.
unfoldable pub body_at : Snake → ℕ → Pos
body_at s i =
    let under = (i - (s.head + snake_max)) % snake_max in
    if leb i (s.head + snake_max)
    then s.body ((s.head + snake_max - i) % snake_max)
    else if under == 0
    then s.body 0
    else s.before under

unfoldable pub lcg_next : ℕ → ℕ
lcg_next x = (x * 1664525 + 1013904223) % u32_mod

-- Two numbers are drawn for a cell of the board.
unfoldable pub drawn_cell : ℕ → Pos
drawn_cell x = record {
  row = lcg_next x % board_rows + 1;
  col = lcg_next (lcg_next x) % board_cols + 1;
}

unfoldable pub draw_twice : Snake → Snake
draw_twice s = record s { lcg = lcg_next (lcg_next s.lcg) }

unfoldable pub wall_collision : Pos → Bool
wall_collision p = ltb p.row 1 || ltb board_rows p.row || ltb p.col 1 || ltb board_cols p.col

-- One of the `n` parts of the snake from the `i`-th on is at `p`.
unfoldable pub on_body : ℕ → ℕ → Snake → Pos → Bool
on_body zero i s p = false
on_body (suc n) i s p = same_pos (body_at s i) p || on_body n (suc i) s p

unfoldable pub self_collision : Snake → Pos → Bool
self_collision s p = on_body (s.size - 1) 1 s p

-- One of the first `n` cells of the array is `p`.
unfoldable pub among : ℕ → (ℕ → Pos) → Pos → Bool
among zero cells p = false
among (suc n) cells p = same_pos (cells n) p || among n cells p

unfoldable pub obstacle_collision : Snake → Pos → Bool
obstacle_collision s p = among s.obstacle_count s.obstacles p

unfoldable pub food_fits : Snake → Pos → Bool
food_fits s p = not (on_body s.size 0 s p) && not (obstacle_collision s p)

-- At most `n` attempts.
unfoldable pub place_food : ℕ → Snake → Snake
place_food zero s = s
place_food (suc n) s =
    let p = drawn_cell s.lcg in
    let q = draw_twice s in
    elim (food_fits s p) [ true ↦ record q { food = p } | false ↦ place_food n q ]

unfoldable pub bonus_fits : Snake → Pos → Bool
bonus_fits s p =
    not (same_pos p s.food) && not (on_body s.size 0 s p) && not (obstacle_collision s p)

unfoldable pub place_bonus_food : ℕ → Snake → Snake
place_bonus_food zero s = s
place_bonus_food (suc n) s =
    let p = drawn_cell s.lcg in
    let q = draw_twice s in
    elim (bonus_fits s p) [ true ↦ record q { bonus_food = p } | false ↦ place_bonus_food n q ]

unfoldable pub add_obstacle : Pos → Snake → Snake
add_obstacle p s = record s {
  obstacles = update s.obstacles s.obstacle_count p;
  obstacle_count = s.obstacle_count + 1;
}

-- The loop of `placeObstacles`, which also ends with enough obstacles.
unfoldable pub fill_obstacles : ℕ → Snake → Snake
fill_obstacles zero s = s
fill_obstacles (suc n) s =
    let p = drawn_cell s.lcg in
    let q = draw_twice s in
    elim (ltb s.obstacle_count obstacle_init_count) [
      | false ↦ s
      | true ↦ elim (same_pos p (s.body s.head) || obstacle_collision s p) [
        | true ↦ fill_obstacles n q
        | false ↦ fill_obstacles n (add_obstacle p q)
      ]
    ]

unfoldable pub place_obstacles : Snake → Snake
place_obstacles s = fill_obstacles (max_cells * 3) (record s { obstacle_count = 0 })

unfoldable pub obstacle_fits : Snake → Pos → Bool
obstacle_fits s p =
    not (on_body s.size 0 s p)
    && not (same_pos p s.food)
    && not (s.bonus_active && same_pos p s.bonus_food)
    && not (obstacle_collision s p)

unfoldable pub spawn_obstacle : ℕ → Snake → Snake
spawn_obstacle zero s = s
spawn_obstacle (suc n) s =
    let p = drawn_cell s.lcg in
    let q = draw_twice s in
    elim (obstacle_fits s p) [ true ↦ add_obstacle p q | false ↦ spawn_obstacle n q ]

unfoldable pub zone_fits : Snake → Pos → Bool
zone_fits s p = obstacle_fits s p && not (among s.boost_zone_count s.boost_zones p)

unfoldable pub add_zone : Pos → Snake → Snake
add_zone p s = record s {
  boost_zones = update s.boost_zones s.boost_zone_count p;
  boost_zone_count = s.boost_zone_count + 1;
}

-- The loop of `placeBoostZones`, which also ends with enough zones.
unfoldable pub fill_zones : ℕ → Snake → Snake
fill_zones zero s = s
fill_zones (suc n) s =
    let p = drawn_cell s.lcg in
    let q = draw_twice s in
    elim (ltb s.boost_zone_count max_boost_zones) [
      | false ↦ s
      | true ↦ elim (zone_fits s p) [ true ↦ fill_zones n (add_zone p q) | false ↦ fill_zones n q ]
    ]

unfoldable pub place_boost_zones : Snake → Snake
place_boost_zones s = fill_zones (max_cells * 3) (record s { boost_zone_count = 0 })
