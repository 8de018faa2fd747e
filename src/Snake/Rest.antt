-- ===== src/Snake/Rest.antt =====
-- What the parts of `step` of user/snake/Game.cc that follow the meals leave of the snake.
use doors.Base.{ℕ, ◌*◌, inl, inr, refl, arith, Bool, ◌&&◌, not, ◌==◌, leb, Bool-cases, add64}
use doors.Snake.{
  Pos, Snake, max_cells, place_boost_zones, boost_respawn_ms, bonus_interval_ms, place_bonus_food,
}
use doors.Snake.Step.{
  use_zone, feed, run_boost, respawn_zones, run_bonus, run_highlight, offer_bonus,
}
use doors.Snake.Placed.{
  SameBody-fields, SameBody-refl, Placed, Placed-trans, Laid-same, place_bonus_food-Placed,
  fill_zones-Placed,
}
use doors.Snake.Ring.{use_zone-Placed, feed-Placed}

run_boost-Placed : (dt : ℕ) (s : Snake) → Placed s (run_boost dt s)
unfolding run_boost
run_boost-Placed dt s = elim (Bool-cases s.boost_active) [
  | inr e ↦
      rw (e, run_boost)
        (SameBody-fields refl refl refl refl refl refl, Laid-same refl refl refl refl)
  | inl e ↦ elim (Bool-cases (leb s.boost_timer_ms dt)) [
    | inl z ↦
        rw (e, z, run_boost)
          (SameBody-fields refl refl refl refl refl refl, Laid-same refl refl refl refl)
    | inr z ↦
        rw (e, z, run_boost)
          (SameBody-fields refl refl refl refl refl refl, Laid-same refl refl refl refl)
  ]
]

-- Taking all zones away leaves none that is off the board.
cleared-Placed :
    (s : Snake) (c : ℕ) → Placed s (record s { boost_cooldown_ms = c; boost_zone_count = 0 })
cleared-Placed s c = (
  SameBody-fields refl refl refl refl refl refl,
  λ l. record {
    obstacle_bound = l.obstacle_bound;
    obstacle_cells = l.obstacle_cells;
    zone_bound = omega arith;
    zone_cells = λ i k. absurd (omega arith);
  },
)

cooled-Placed : (s t : Snake) (c : ℕ) → Placed s t → Placed s (record t { boost_cooldown_ms = c })
cooled-Placed s t c h = (
  SameBody-fields h.0.body h.0.before h.0.head h.0.size h.0.score h.0.eats,
  λ l. Laid-same refl refl refl refl (h.1 l),
)

respawn_zones-Placed : (dt : ℕ) (s : Snake) → Placed s (respawn_zones dt s)
unfolding respawn_zones place_boost_zones
respawn_zones-Placed dt s = elim (Bool-cases (s.boost_zone_count == 0)) [
  | inr e ↦ rw (e, respawn_zones) (SameBody-refl s, λ l. l)
  | inl e ↦ elim (Bool-cases (leb boost_respawn_ms (add64 s.boost_cooldown_ms dt))) [
    | inr z ↦
        rw (e, z, respawn_zones)
          (cooled-Placed s s (add64 s.boost_cooldown_ms dt) (SameBody-refl s, λ l. l))
    | inl z ↦
        rw (e, z, respawn_zones)
          (cooled-Placed s _ 0 (
            Placed-trans (cleared-Placed s (add64 s.boost_cooldown_ms dt)) (
              fill_zones-Placed (max_cells * 3) (record s {
                boost_cooldown_ms = add64 s.boost_cooldown_ms dt;
                boost_zone_count = 0;
              }))))
  ]
]

run_bonus-Placed : (dt : ℕ) (s : Snake) → Placed s (run_bonus dt s)
unfolding run_bonus
run_bonus-Placed dt s = elim (Bool-cases s.bonus_active) [
  | inr e ↦
      rw (e, run_bonus)
        (SameBody-fields refl refl refl refl refl refl, Laid-same refl refl refl refl)
  | inl e ↦ elim (Bool-cases (leb s.bonus_remaining_ms dt)) [
    | inl z ↦
        rw (e, z, run_bonus)
          (SameBody-fields refl refl refl refl refl refl, Laid-same refl refl refl refl)
    | inr z ↦
        rw (e, z, run_bonus)
          (SameBody-fields refl refl refl refl refl refl, Laid-same refl refl refl refl)
  ]
]

run_highlight-Placed : (dt : ℕ) (s : Snake) → Placed s (run_highlight dt s)
unfolding run_highlight
run_highlight-Placed dt s =
    (SameBody-fields refl refl refl refl refl refl, Laid-same refl refl refl refl)

offer_bonus-Placed : (s : Snake) → Placed s (offer_bonus s)
unfolding offer_bonus
offer_bonus-Placed s =
    elim (Bool-cases (not s.bonus_active && leb bonus_interval_ms s.bonus_elapsed_ms)) [
      | inr e ↦ rw (e, offer_bonus) (SameBody-refl s, λ l. l)
      | inl e ↦
          rw (e, offer_bonus)
            (
              SameBody-fields p.0.body p.0.before p.0.head p.0.size p.0.score p.0.eats,
              λ l. Laid-same refl refl refl refl (p.1 (Laid-same refl refl refl refl l)),
            )
    ]
  where
    p :
        Placed
          (record s { bonus_elapsed_ms = 0 })
          (place_bonus_food (max_cells * 2) (record s { bonus_elapsed_ms = 0 }))
    p = place_bonus_food-Placed (max_cells * 2) (record s { bonus_elapsed_ms = 0 })

-- Everything that follows the meals of a step.
abbrev pub rest_of_step : ℕ → Bool → Pos → Snake → Snake
rest_of_step dt ate p s =
    offer_bonus
      (run_highlight dt (run_bonus dt (respawn_zones dt (run_boost dt (feed ate (use_zone p s))))))

pub rest_of_step-Placed :
    (dt : ℕ) (ate : Bool) (p : Pos) (s : Snake) → Placed s (rest_of_step dt ate p s)
rest_of_step-Placed dt ate p s = Placed-trans (use_zone-Placed s p) (
    Placed-trans (feed-Placed ate _) (
      Placed-trans (run_boost-Placed dt _) (
        Placed-trans (respawn_zones-Placed dt _) (
          Placed-trans (run_bonus-Placed dt _)
            (Placed-trans (run_highlight-Placed dt _) (offer_bonus-Placed _))))))
