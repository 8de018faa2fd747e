-- ===== src/Snake/Ring.antt =====
-- The snake of user/snake/Game.cc as a sequence of cells from its head on, which `body_` holds as a
-- ring of 100 places, and what the parts of a step leave of it.
use doors.Base.{
  ℕ, zero, suc, ◌+◌, ◌-◌, ◌*◌, ◌%◌, ◌≤◌, ◌<◌, ◌≡◌, ◌≢◌, inl, inr, refl, sym, ap, ◌∙◌, arith, Bool,
  true, false, if◌then◌else◌, ltb, leb, update, update_self, update_ne, Bool-cases, ℕ_discrete,
  Option-cases, some,
}
use doors.Snake.{
  Pos, Snake, snake_max, body_at, max_obstacles, bonus_points, obstacle_step_interval, max_cells,
  spawn_obstacle,
}
use doors.Snake.Step.{advance, count_meal, eat, eat_bonus, find_zone, use_zone, feed}
use doors.Snake.Placed.{
  Laid, SameBody, SameBody-fields, SameBody-refl, Placed, Laid-same, place_food-Placed,
  spawn_obstacle-Placed,
}

-- The place of part `i` in the ring.
abbrev place : ℕ → ℕ → ℕ
place head i = (head + snake_max - i) % snake_max

body_at-place : (s : Snake) (i : ℕ) → i < snake_max → body_at s i ≡ s.body (place s.head i)
unfolding body_at
body_at-place s i h = ground arith

place-next :
    (head i : ℕ)
    → head < snake_max
    → suc i < snake_max
    → (place ((head + 1) % snake_max) (suc i) ≡ place head i)
      × (place head i ≢ (head + 1) % snake_max)
place-next head i h k = omega arith

-- The new cell comes first, and every part takes the place of the one before it.
pub body_at-advance :
    (s : Snake) (p : Pos)
    → s.head < snake_max
    → (body_at (advance p s) 0 ≡ p)
      × ((i : ℕ) → suc i < snake_max → body_at (advance p s) (suc i) ≡ body_at s i)
unfolding advance
body_at-advance s p h = (
  body_at-place (advance p s) 0 (omega arith) ∙ first,
  λ i k.
      let n = place-next s.head i h k in
      body_at-place (advance p s) (suc i) k
      ∙ update_ne s.body ((s.head + 1) % snake_max) _ p (λ e. n.1 (sym n.0 ∙ e))
      ∙ ap s.body n.0
      ∙ sym (body_at-place s i (omega arith)),
)
  where
    first : update s.body ((s.head + 1) % snake_max) p (place ((s.head + 1) % snake_max) 0) ≡ p
    first = ground arith

-- The cells of the snake are those of `s`.
pub body_at-SameBody : {s t : Snake} → SameBody s t → (i : ℕ) → body_at t i ≡ body_at s i
unfolding body_at
body_at-SameBody h i = rw (h.body, h.before, h.head) refl

-- What is left when the head came to `p`, by what it ate.
pub record Eaten (s t : Snake) (ate bonus : Bool) : Type 0 where
  pub body : t.body ≡ s.body
  pub before : t.before ≡ s.before
  pub head : t.head ≡ s.head
  pub size : t.size ≡ s.size + (if ate then 1 else 0)
  pub score : t.score ≡ s.score + (if ate then 1 else 0) + (if bonus then bonus_points else 0)
  pub laid : Laid s → Laid t
  pub eats :
      s.eats_since_obstacle < obstacle_step_interval
      → t.eats_since_obstacle < obstacle_step_interval

-- The snake after `count_meal`.
record Counted (s t : Snake) : Type 0 where
  body : t.body ≡ s.body
  before : t.before ≡ s.before
  head : t.head ≡ s.head
  size : t.size ≡ s.size
  score : t.score ≡ s.score
  laid : Laid s → Laid t
  eats :
      s.eats_since_obstacle < obstacle_step_interval
      → t.eats_since_obstacle < obstacle_step_interval

spawned :
    (s : Snake)
    → s.obstacle_count < max_obstacles
    → Counted s (spawn_obstacle (max_cells * 2) (record s { eats_since_obstacle = 0 }))
spawned s h =
    let p = spawn_obstacle-Placed (max_cells * 2) (record s { eats_since_obstacle = 0 }) h in
    record {
      body = p.0.body;
      before = p.0.before;
      head = p.0.head;
      size = p.0.size;
      score = p.0.score;
      laid = λ l. p.1 (Laid-same refl refl refl refl l);
      eats = λ k. omega (arith, p.0.eats);
    }

count_meal-Counted : (s : Snake) → Counted s (count_meal s)
unfolding count_meal
count_meal-Counted s = elim (Bool-cases (ltb s.obstacle_count max_obstacles)) [
  | inr e ↦
      rw (e, count_meal)
        (record {
          body = refl;
          before = refl;
          head = refl;
          size = refl;
          score = refl;
          laid = λ l. l;
          eats = λ k. k;
        })
  | inl e ↦ elim (Bool-cases (leb obstacle_step_interval (s.eats_since_obstacle + 1))) [
    | inl z ↦ rw (e, z, count_meal) (spawned s (ground arith))
    | inr z ↦
        rw (e, z, count_meal)
          (record {
            body = refl;
            before = refl;
            head = refl;
            size = refl;
            score = refl;
            laid = Laid-same refl refl refl refl;
            eats = λ k. ground arith;
          })
  ]
]

eat-Eaten : (ate : Bool) (s : Snake) → Eaten s (eat ate s) ate false
unfolding eat
eat-Eaten false s = record {
  body = refl;
  before = refl;
  head = refl;
  size = omega arith;
  score = omega arith;
  laid = λ l. l;
  eats = λ k. k;
}
eat-Eaten true s =
    let c = count_meal-Counted (record s { size = s.size + 1; score = s.score + 1 }) in
    record {
      body = c.body;
      before = c.before;
      head = c.head;
      size = c.size;
      score = omega (arith, c.score);
      laid = λ l. c.laid (Laid-same refl refl refl refl l);
      eats = c.eats;
    }

eat_bonus-Eaten :
    (ate bonus : Bool) (s t : Snake) → Eaten s t ate false → Eaten s (eat_bonus bonus t) ate bonus
unfolding eat_bonus
eat_bonus-Eaten ate false s t h = h
eat_bonus-Eaten ate true s t h = record {
  body = h.body;
  before = h.before;
  head = h.head;
  size = h.size;
  score = omega (arith, h.score);
  laid = λ l. Laid-same refl refl refl refl (h.laid l);
  eats = h.eats;
}

pub eaten : (ate bonus : Bool) (s : Snake) → Eaten s (eat_bonus bonus (eat ate s)) ate bonus
eaten ate bonus s = eat_bonus-Eaten ate bonus s (eat ate s) (eat-Eaten ate s)

find_zone-bound :
    (n i j : ℕ) (zones : ℕ → Pos) (p : Pos) → find_zone n i zones p ≡ some j → (i ≤ j) × (j < i + n)
unfolding find_zone
find_zone-bound zero i j zones p h = absurd (ground (arith, h))
find_zone-bound (suc n) i j zones p h = ground (arith, h, find_zone-bound n (suc i) j zones p)

pub use_zone-Placed : (s : Snake) (p : Pos) → Placed s (use_zone p s)
unfolding use_zone
use_zone-Placed s p = elim (Option-cases (find_zone s.boost_zone_count 0 s.boost_zones p)) [
  | inl e ↦ rw (e, use_zone) (SameBody-refl s, λ l. l)
  | inr (j, e) ↦
      let b = find_zone-bound s.boost_zone_count 0 j s.boost_zones p e in
      rw (e, use_zone)
        (
          SameBody-fields refl refl refl refl refl refl,
          λ l. record {
            obstacle_bound = l.obstacle_bound;
            obstacle_cells = l.obstacle_cells;
            zone_bound = omega (arith, l.zone_bound);
            zone_cells = λ i k. elim (ℕ_discrete i j) [
              | yes z ↦
                  rw (z, update_self s.boost_zones j (s.boost_zones (s.boost_zone_count - 1)))
                    (l.zone_cells (s.boost_zone_count - 1) (omega (arith, b)))
              | no z ↦
                  rw (update_ne s.boost_zones j i (s.boost_zones (s.boost_zone_count - 1)) z)
                    (l.zone_cells i (omega arith))
            ];
          },
        )
]

pub feed-Placed : (ate : Bool) (s : Snake) → Placed s (feed ate s)
unfolding feed
feed-Placed true s = place_food-Placed (max_cells * 2) s
feed-Placed false s = (SameBody-refl s, λ l. l)
