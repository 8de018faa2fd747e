-- ===== src/Snake/Board.antt =====
-- What `step` of user/snake/Game.cc keeps and does: the snake stays on the board and moves by one
-- cell.
use doors.Base.{
  ◌⊎◌, zero, sym, true, false, subst, Bool-cases, inl, inr, ℕ, suc, ◌+◌, ◌≤◌, ◌<◌, ◌≡◌, refl, ◌∙◌,
  arith, Bool, false, ◌&&◌, if◌then◌else◌,
}
use doors.Snake.{
  board_rows, board_cols, wall_collision, Pos, Snake, snake_max, body_at, bonus_points,
  obstacle_step_interval, same_pos, wall_collision,
}
use doors.Snake.Step.{
  wrap, move, next_pos, blocked, step, advance, eat, eat_bonus, move_to, next_pos, blocked,
}
use doors.Snake.Ahead.{Ahead, Ends, next_pos-Ahead, blocked-Ends, free-Ends}
use doors.Snake.Placed.{OnBoard, Laid, Placed, Laid-same}
use doors.Snake.Ring.{body_at-advance, body_at-SameBody, Eaten, eaten}
use doors.Snake.Rest.{rest_of_step-Placed}

pub record Valid (s : Snake) : Type 0 where
  pub head_bound : s.head < snake_max
  pub not_empty : 1 ≤ s.size
  pub cells : (i : ℕ) → i < s.size → i < snake_max → OnBoard (body_at s i)
  pub laid : Laid s
  pub eats : s.eats_since_obstacle < obstacle_step_interval

abbrev ate_food : Snake → Pos → Bool
ate_food s p = same_pos p s.food

abbrev ate_bonus : Snake → Pos → Bool
ate_bonus s p = s.bonus_active && same_pos p s.bonus_food

-- After a step to the cell `p`.
pub record Moves (s : Snake) (p : Pos) (t : Snake) : Type 0 where
  pub first : body_at t 0 ≡ p
  pub others : (i : ℕ) → suc i < snake_max → body_at t (suc i) ≡ body_at s i
  pub size : t.size ≡ s.size + (if ate_food s p then 1 else 0)
  pub score :
      t.score
      ≡ s.score + (if ate_food s p then 1 else 0) + (if ate_bonus s p then bonus_points else 0)

-- The snake that ate, and the state after the rest of the step.
fed : Snake → Pos → Snake
fed s p = eat_bonus (ate_bonus s p) (eat (ate_food s p) (advance p s))

fed-Eaten : (s : Snake) (p : Pos) → Eaten (advance p s) (fed s p) (ate_food s p) (ate_bonus s p)
unfolding fed
fed-Eaten s p = eaten (ate_food s p) (ate_bonus s p) (advance p s)

move_to-Placed : (dt : ℕ) (p : Pos) (s : Snake) → Placed (fed s p) (move_to dt p s)
unfolding move_to fed
move_to-Placed dt p s = rest_of_step-Placed dt (ate_food s p) p (fed s p)

body_at-fed : (s : Snake) (p : Pos) (i : ℕ) → body_at (fed s p) i ≡ body_at (advance p s) i
unfolding body_at
body_at-fed s p i = let e = fed-Eaten s p in rw (e.body, e.before, e.head) refl

move_to-Moves : (dt : ℕ) (p : Pos) (s : Snake) → s.head < snake_max → Moves s p (move_to dt p s)
unfolding advance
move_to-Moves dt p s h =
    let a = body_at-advance s p h in
    let e = fed-Eaten s p in
    let m = move_to-Placed dt p s in
    record {
      first = body_at-SameBody m.0 0 ∙ body_at-fed s p 0 ∙ a.0;
      others = λ i k. body_at-SameBody m.0 (suc i) ∙ body_at-fed s p (suc i) ∙ a.1 i k;
      size = m.0.size ∙ e.size;
      score = m.0.score ∙ e.score;
    }

moved_cells :
    (s t : Snake) (p : Pos)
    → OnBoard p
    → Valid s
    → Moves s p t
    → (i : ℕ) → i < t.size
    → i < snake_max
    → OnBoard (body_at t i)
moved_cells s t p o v w zero l k = subst OnBoard (sym w.first) o
moved_cells s t p o v w (suc i) l k =
    subst OnBoard (sym (w.others i k)) (v.cells i (ground (arith, w.size, l)) (omega arith))

move_to-Valid : (dt : ℕ) (p : Pos) (s : Snake) → OnBoard p → Valid s → Valid (move_to dt p s)
unfolding advance
move_to-Valid dt p s o v =
    let w = move_to-Moves dt p s v.head_bound in
    let e = fed-Eaten s p in
    let m = move_to-Placed dt p s in
    record {
      head_bound = rw (m.0.head, e.head) (omega arith);
      not_empty = omega (arith, w.size, v.not_empty);
      cells = moved_cells s (move_to dt p s) p o v w;
      laid = m.1 (e.laid (Laid-same refl refl refl refl v.laid));
      eats = omega (arith, m.0.eats, e.eats v.eats);
    }

wrap-bounds : (bound x : ℕ) → 1 ≤ bound → (1 ≤ wrap bound x) × (wrap bound x ≤ bound)
wrap-bounds bound x h = ground arith

wall_collision-OnBoard : (p : Pos) → wall_collision p ≡ false → OnBoard p
unfolding wall_collision
wall_collision-OnBoard p h = ground arith

unblocked :
    (s : Snake) (p : Pos) → s.wrap_mode ≡ false → blocked s p ≡ false → wall_collision p ≡ false
unfolding blocked
unblocked s p e h = ground arith

-- A cell that the head may move to is on the board.
next_pos-OnBoard : (s : Snake) → blocked s (next_pos s) ≡ false → OnBoard (next_pos s)
unfolding next_pos
next_pos-OnBoard s h = elim (Bool-cases s.wrap_mode) [
  | inl e ↦
      rw (e, next_pos)
        (let r = wrap-bounds board_rows (move s.dir (s.body s.head)).row (omega arith) in
          let c = wrap-bounds board_cols (move s.dir (s.body s.head)).col (omega arith) in
          (r.0, r.1, c.0, c.1))
  | inr e ↦ wall_collision-OnBoard (next_pos s) (unblocked s (next_pos s) e h)
]

-- `started_` is set before anything else.
abbrev pub begun : Snake → Snake
begun s = record s { started = true }

begun-Valid : (s : Snake) → Valid s → Valid (begun s)
unfolding body_at
begun-Valid s v = record {
  head_bound = v.head_bound;
  not_empty = v.not_empty;
  cells = v.cells;
  laid = Laid-same refl refl refl refl v.laid;
  eats = v.eats;
}

-- `step` when the next cell is `p`.
abbrev pub Steps : Snake → Pos → Snake × Bool → Type 0
Steps s p r =
    (Ends s p × (r ≡ (begun s, false)))
    ⊎ ((Ends s p → ⊥) × (r.1 ≡ true) × OnBoard p × Moves (begun s) p r.0 × Valid r.0)

-- From a state in which the head is within the ring, the cells of the snake, of which the ring
-- holds 100, and the obstacles and boost zones are on the board, there are at most 20 obstacles
-- and 3 zones, and fewer than 3 meals are counted: the next cell is the one ahead of the head in
-- the direction of the snake, on the other side of the board where it leaves it in wrap mode. step
-- returns false and only marks the game as started if, and only if, that cell is off the board
-- without wrap mode, is a part of the snake behind its head or is an obstacle. Otherwise it
-- returns true, the next cell is on the board and becomes the first cell of the snake, every cell
-- within the ring takes the place of the one before it, the length and the score grow by what was
-- eaten there, and such a state is reached again.
pub step-Steps :
    (dt : ℕ) (s : Snake)
    → Valid s
    → (p : Pos) × Ahead s.dir s.wrap_mode (body_at s 0) p × Steps s p (step dt s)
unfolding step body_at
step-Steps dt s v = (
  next_pos (begun s),
  next_pos-Ahead (begun s) v.head_bound (v.cells 0 v.not_empty (omega arith)),
  elim (Bool-cases (blocked (begun s) (next_pos (begun s)))) [
    | inl e ↦ rw (e, step) (inl (blocked-Ends (begun s) _ v.not_empty e, refl))
    | inr e ↦
        let o = next_pos-OnBoard (begun s) e in
        let w = begun-Valid s v in
        rw (e, step)
          (inr (
            free-Ends (begun s) _ v.not_empty e,
            refl,
            o,
            move_to-Moves dt (next_pos (begun s)) (begun s) w.head_bound,
            move_to-Valid dt (next_pos (begun s)) (begun s) o w,
          ))
  ],
)
