-- ===== src/Snake/Placed.antt =====
-- The cells that the random placing of user/snake/Game.cc draws, and what placing leaves of the snake.
use doors.Base.{
  ℕ, zero, suc, ◌≤◌, ◌<◌, ◌≡◌, inl, inr, refl, ◌∙◌, arith, true, false, ◌||◌, ltb, update_self,
  update_ne, Bool-cases, ℕ_discrete,
}
use doors.Snake.{
  Pos, Snake, board_rows, board_cols, max_obstacles, obstacle_init_count, max_boost_zones,
  drawn_cell, draw_twice, place_food, food_fits, place_bonus_food, bonus_fits, add_obstacle,
  spawn_obstacle, obstacle_fits, fill_obstacles, add_zone, fill_zones, zone_fits, same_pos,
  obstacle_collision,
}

abbrev pub OnBoard : Pos → Type 0
OnBoard p = (1 ≤ p.row) × (p.row ≤ board_rows) × (1 ≤ p.col) × (p.col ≤ board_cols)

pub drawn_cell-OnBoard : (x : ℕ) → OnBoard (drawn_cell x)
unfolding drawn_cell
drawn_cell-OnBoard x = omega arith

-- Obstacles and boost zones are on the board and not too many.
pub record Laid (s : Snake) : Type 0 where
  pub obstacle_bound : s.obstacle_count ≤ max_obstacles
  pub obstacle_cells : (i : ℕ) → i < s.obstacle_count → OnBoard (s.obstacles i)
  pub zone_bound : s.boost_zone_count ≤ max_boost_zones
  pub zone_cells : (i : ℕ) → i < s.boost_zone_count → OnBoard (s.boost_zones i)

-- The snake itself, and what counts its meals, are the same.
pub record SameBody (s t : Snake) : Type 0 where
  pub body : t.body ≡ s.body
  pub before : t.before ≡ s.before
  pub head : t.head ≡ s.head
  pub size : t.size ≡ s.size
  pub score : t.score ≡ s.score
  pub eats : t.eats_since_obstacle ≡ s.eats_since_obstacle

pub SameBody-fields :
    {s t : Snake}
    → t.body ≡ s.body
    → t.before ≡ s.before
    → t.head ≡ s.head
    → t.size ≡ s.size
    → t.score ≡ s.score
    → t.eats_since_obstacle ≡ s.eats_since_obstacle
    → SameBody s t
SameBody-fields a b c d e g = record {
  body = a;
  before = b;
  head = c;
  size = d;
  score = e;
  eats = g;
}

pub SameBody-refl : (s : Snake) → SameBody s s
SameBody-refl s = SameBody-fields refl refl refl refl refl refl

pub SameBody-trans : {s t q : Snake} → SameBody s t → SameBody t q → SameBody s q
SameBody-trans h k = record {
  body = k.body ∙ h.body;
  before = k.before ∙ h.before;
  head = k.head ∙ h.head;
  size = k.size ∙ h.size;
  score = k.score ∙ h.score;
  eats = k.eats ∙ h.eats;
}

-- The relation that a part of the step keeps.
abbrev pub Placed : Snake → Snake → Type 0
Placed s t = SameBody s t × (Laid s → Laid t)

pub Placed-trans : {s t q : Snake} → Placed s t → Placed t q → Placed s q
Placed-trans h k = (SameBody-trans h.0 k.0, λ l. k.1 (h.1 l))

-- A change of nothing that the relation speaks of.
pub Laid-same :
    {s t : Snake}
    → t.obstacles ≡ s.obstacles
    → t.obstacle_count ≡ s.obstacle_count
    → t.boost_zones ≡ s.boost_zones
    → t.boost_zone_count ≡ s.boost_zone_count
    → Laid s
    → Laid t
Laid-same o c z n l = record {
  obstacle_bound = rw c l.obstacle_bound;
  obstacle_cells = rw (o, c) l.obstacle_cells;
  zone_bound = rw n l.zone_bound;
  zone_cells = rw (z, n) l.zone_cells;
}

draw_twice-Placed : (s : Snake) → Placed s (draw_twice s)
unfolding draw_twice
draw_twice-Placed s = (SameBody-fields refl refl refl refl refl refl, Laid-same refl refl refl refl)

pub add_obstacle-Placed :
    (s : Snake) (p : Pos)
    → s.obstacle_count < max_obstacles
    → OnBoard p
    → Placed s (add_obstacle p s)
unfolding add_obstacle
add_obstacle-Placed s p h b = (
  SameBody-fields refl refl refl refl refl refl,
  λ l. record {
    obstacle_bound = omega arith;
    obstacle_cells = λ i k. elim (ℕ_discrete i s.obstacle_count) [
      | yes e ↦ rw (e, update_self s.obstacles s.obstacle_count p) b
      | no e ↦
          rw (update_ne s.obstacles s.obstacle_count i p e)
            (l.obstacle_cells i (omega (arith, e, k)))
    ];
    zone_bound = l.zone_bound;
    zone_cells = l.zone_cells;
  },
)

add_zone-Placed :
    (s : Snake) (p : Pos)
    → s.boost_zone_count < max_boost_zones
    → OnBoard p
    → Placed s (add_zone p s)
unfolding add_zone
add_zone-Placed s p h b = (
  SameBody-fields refl refl refl refl refl refl,
  λ l. record {
    obstacle_bound = l.obstacle_bound;
    obstacle_cells = l.obstacle_cells;
    zone_bound = omega arith;
    zone_cells = λ i k. elim (ℕ_discrete i s.boost_zone_count) [
      | yes e ↦ rw (e, update_self s.boost_zones s.boost_zone_count p) b
      | no e ↦
          rw (update_ne s.boost_zones s.boost_zone_count i p e)
            (l.zone_cells i (omega (arith, e, k)))
    ];
  },
)

pub place_food-Placed : (n : ℕ) (s : Snake) → Placed s (place_food n s)
unfolding place_food draw_twice
place_food-Placed zero s = (SameBody-refl s, λ l. l)
place_food-Placed (suc n) s =
    elim (food_fits s (drawn_cell s.lcg))
      as (λ b. Placed s (elim b [
        | true ↦ record (draw_twice s) { food = drawn_cell s.lcg }
        | false ↦ place_food n (draw_twice s)
      ])) [
        | true ↦ (SameBody-fields refl refl refl refl refl refl, Laid-same refl refl refl refl)
        | false ↦ Placed-trans (draw_twice-Placed s) (place_food-Placed n (draw_twice s))
      ]

pub place_bonus_food-Placed : (n : ℕ) (s : Snake) → Placed s (place_bonus_food n s)
unfolding place_bonus_food draw_twice
place_bonus_food-Placed zero s = (SameBody-refl s, λ l. l)
place_bonus_food-Placed (suc n) s =
    elim (bonus_fits s (drawn_cell s.lcg))
      as (λ b. Placed s (elim b [
        | true ↦ record (draw_twice s) { bonus_food = drawn_cell s.lcg }
        | false ↦ place_bonus_food n (draw_twice s)
      ])) [
        | true ↦ (SameBody-fields refl refl refl refl refl refl, Laid-same refl refl refl refl)
        | false ↦ Placed-trans (draw_twice-Placed s) (place_bonus_food-Placed n (draw_twice s))
      ]

pub spawn_obstacle-Placed :
    (n : ℕ) (s : Snake) → s.obstacle_count < max_obstacles → Placed s (spawn_obstacle n s)
unfolding spawn_obstacle draw_twice
spawn_obstacle-Placed zero s h = (SameBody-refl s, λ l. l)
spawn_obstacle-Placed (suc n) s h =
    elim (obstacle_fits s (drawn_cell s.lcg))
      as (λ b. Placed s (elim b [
        | true ↦ add_obstacle (drawn_cell s.lcg) (draw_twice s)
        | false ↦ spawn_obstacle n (draw_twice s)
      ])) [
        | true ↦
            Placed-trans (draw_twice-Placed s)
              (add_obstacle-Placed (draw_twice s) (drawn_cell s.lcg) h (drawn_cell-OnBoard s.lcg))
        | false ↦ Placed-trans (draw_twice-Placed s) (spawn_obstacle-Placed n (draw_twice s) h)
      ]

pub fill_obstacles-Placed : (n : ℕ) (s : Snake) → Placed s (fill_obstacles n s)
unfolding fill_obstacles draw_twice
fill_obstacles-Placed zero s = (SameBody-refl s, λ l. l)
fill_obstacles-Placed (suc n) s = elim (Bool-cases (ltb s.obstacle_count obstacle_init_count)) [
  | inr e ↦ rw (e, fill_obstacles) (SameBody-refl s, λ l. l)
  | inl e ↦
      rw (e, fill_obstacles)
        (elim (same_pos (drawn_cell s.lcg) (s.body s.head)
            || obstacle_collision s (drawn_cell s.lcg))
          as (λ b. Placed s (elim b [
            | true ↦ fill_obstacles n (draw_twice s)
            | false ↦ fill_obstacles n (add_obstacle (drawn_cell s.lcg) (draw_twice s))
          ])) [
            | true ↦ Placed-trans (draw_twice-Placed s) (fill_obstacles-Placed n (draw_twice s))
            | false ↦ Placed-trans (draw_twice-Placed s) (
                Placed-trans
                  (add_obstacle-Placed (draw_twice s) (drawn_cell s.lcg) (ground arith)
                    (drawn_cell-OnBoard s.lcg))
                  (fill_obstacles-Placed n (add_obstacle (drawn_cell s.lcg) (draw_twice s))))
          ])
]

pub fill_zones-Placed : (n : ℕ) (s : Snake) → Placed s (fill_zones n s)
unfolding fill_zones draw_twice
fill_zones-Placed zero s = (SameBody-refl s, λ l. l)
fill_zones-Placed (suc n) s = elim (Bool-cases (ltb s.boost_zone_count max_boost_zones)) [
  | inr e ↦ rw (e, fill_zones) (SameBody-refl s, λ l. l)
  | inl e ↦
      rw (e, fill_zones)
        (elim (zone_fits s (drawn_cell s.lcg))
          as (λ b. Placed s (elim b [
            | true ↦ fill_zones n (add_zone (drawn_cell s.lcg) (draw_twice s))
            | false ↦ fill_zones n (draw_twice s)
          ])) [
            | false ↦ Placed-trans (draw_twice-Placed s) (fill_zones-Placed n (draw_twice s))
            | true ↦ Placed-trans (draw_twice-Placed s) (
                Placed-trans
                  (add_zone-Placed (draw_twice s) (drawn_cell s.lcg) (ground arith)
                    (drawn_cell-OnBoard s.lcg))
                  (fill_zones-Placed n (add_zone (drawn_cell s.lcg) (draw_twice s))))
          ])
]
