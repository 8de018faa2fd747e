-- ===== src/Snake/Ahead.antt =====
-- Where the snake of user/snake/Game.cc goes, and when the game ends, in terms of cells.
use doors.Base.{
  ℕ, zero, suc, ◌+◌, ◌-◌, ◌%◌, ◌≤◌, ◌<◌, ◌≡◌, ◌⊎◌, refl, subst, sym, arith, Bool, true, false, not,
  ◌&&◌, ◌||◌, if◌then◌else◌, leb, Bool-cases, inl, inr, ℕ_discrete,
}
use doors.Snake.{
  Dir, up, down, left, right, Pos, Snake, board_rows, board_cols, snake_max, same_pos, body_at,
  on_body, among, self_collision, obstacle_collision, wall_collision,
}
use doors.Snake.Step.{next_pos, blocked, move, wrap}
use doors.Snake.Placed.{OnBoard}

-- `x` is one below `y`, or `around` where `y` is the first of its row or column.
abbrev Before : ℕ → ℕ → ℕ → Type 0
Before around y x = (1 < y → x + 1 ≡ y) × (y ≡ 1 → x ≡ around)

-- `x` is one above `y`, or `around` where `y` is the last, `bound`.
abbrev Behind : ℕ → ℕ → ℕ → ℕ → Type 0
Behind bound around y x = (y < bound → x ≡ y + 1) × (y ≡ bound → x ≡ around)

-- The cell `p` is the next one from `h` in the direction; with the flag the board has no edges,
-- and else a cell behind an edge is off the board.
abbrev pub Ahead : Dir → Bool → Pos → Pos → Type 0
Ahead up w h p = (p.col ≡ h.col) × Before (if w then board_rows else 0) h.row p.row
Ahead down w h p = (p.col ≡ h.col) × Behind board_rows (if w then 1 else board_rows + 1) h.row p.row
Ahead left w h p = (p.row ≡ h.row) × Before (if w then board_cols else 0) h.col p.col
Ahead right w h p =
    (p.row ≡ h.row) × Behind board_cols (if w then 1 else board_cols + 1) h.col p.col

wrap-within : (bound x : ℕ) → 1 ≤ x → x ≤ bound → wrap bound x ≡ x
wrap-within bound x h k = ground arith

wrapped : Bool → Pos → Pos
wrapped w p = if w then record { row = wrap board_rows p.row; col = wrap board_cols p.col } else p

wrapped-Ahead : (d : Dir) (w : Bool) (h : Pos) → OnBoard h → Ahead d w h (wrapped w (move d h))
unfolding wrapped move
wrapped-Ahead up true h o = (ground (arith, o), (ground (arith, o), ground (arith, o)))
wrapped-Ahead up false h o = (refl, (omega arith, omega arith))
wrapped-Ahead down true h o = (ground (arith, o), (ground (arith, o), ground (arith, o)))
wrapped-Ahead down false h o = (refl, (omega arith, omega arith))
wrapped-Ahead left true h o = (ground (arith, o), (ground (arith, o), ground (arith, o)))
wrapped-Ahead left false h o = (refl, (omega arith, omega arith))
wrapped-Ahead right true h o = (ground (arith, o), (ground (arith, o), ground (arith, o)))
wrapped-Ahead right false h o = (refl, (omega arith, omega arith))

head_cell : (s : Snake) → s.head < snake_max → body_at s 0 ≡ s.body s.head
unfolding body_at
head_cell s h =
    let e : (s.head + snake_max - 0) % snake_max ≡ s.head = omega arith in
    let z : leb 0 (s.head + snake_max) ≡ true = ground arith in rw (z, e, body_at) refl

pub next_pos-Ahead :
    (s : Snake)
    → s.head < snake_max
    → OnBoard (body_at s 0)
    → Ahead s.dir s.wrap_mode (body_at s 0) (next_pos s)
unfolding next_pos wrapped
next_pos-Ahead s h o =
    subst (λ c. Ahead s.dir s.wrap_mode c (next_pos s)) (sym (head_cell s h))
      (wrapped-Ahead s.dir s.wrap_mode (s.body s.head) (subst OnBoard (head_cell s h) o))

abbrev pub SameCell : Pos → Pos → Type 0
SameCell p q = (p.row ≡ q.row) × (p.col ≡ q.col)

-- One of the cells from index `lo` up to `hi` is `p`.
abbrev pub Found : (ℕ → Pos) → ℕ → ℕ → Pos → Type 0
Found cells lo hi p = (j : ℕ) × (lo ≤ j) × (j < hi) × SameCell (cells j) p

-- The game ends: `p` is off a board with edges, or a part of the snake behind its head, or an
-- obstacle.
abbrev pub Ends : Snake → Pos → Type 0
Ends s p =
    ((s.wrap_mode ≡ false) × (OnBoard p → ⊥))
    ⊎ (Found (body_at s) 1 s.size p ⊎ Found s.obstacles 0 s.obstacle_count p)

-- A test and what it decides.
abbrev Decides : Bool → Type 0 → Type 0
Decides true P = P
Decides false P = P → ⊥

on_body-Decides :
    (n i : ℕ) (s : Snake) (p : Pos) → Decides (on_body n i s p) (Found (body_at s) i (i + n) p)
unfolding on_body
on_body-Decides zero i s p = λ f. absurd (omega (arith, f.1, f.2))
on_body-Decides (suc n) i s p = elim (Bool-cases (same_pos (body_at s i) p)) [
  | inl e ↦ rw (e, on_body) (i, omega arith, omega arith, (ground arith, ground arith))
  | inr e ↦ rw (e, on_body) (step (on_body n (suc i) s p) (on_body-Decides n (suc i) s p) e)
]
  where
    step :
        (b : Bool)
        → Decides b (Found (body_at s) (suc i) (suc i + n) p)
        → same_pos (body_at s i) p ≡ false
        → Decides b (Found (body_at s) i (i + suc n) p)
    step true h e = (h.0, omega (arith, h.1), omega (arith, h.2), h.3)
    step false h e = λ f. elim (ℕ_discrete f.0 i) [
      | yes z ↦ let c = subst (λ j. SameCell (body_at s j) p) z f.3 in ground (arith, c, e)
      | no z ↦ h (f.0, omega (arith, f.1, z), omega (arith, f.2), f.3)
    ]

among-Decides : (n : ℕ) (cells : ℕ → Pos) (p : Pos) → Decides (among n cells p) (Found cells 0 n p)
unfolding among
among-Decides zero cells p = λ f. absurd (omega (arith, f.2))
among-Decides (suc n) cells p = elim (Bool-cases (same_pos (cells n) p)) [
  | inl e ↦ rw (e, among) (n, omega arith, omega arith, (ground arith, ground arith))
  | inr e ↦ rw (e, among) (step (among n cells p) (among-Decides n cells p) e)
]
  where
    step :
        (b : Bool)
        → Decides b (Found cells 0 n p)
        → same_pos (cells n) p ≡ false
        → Decides b (Found cells 0 (suc n) p)
    step true h e = (h.0, omega arith, omega (arith, h.2), h.3)
    step false h e = λ f. elim (ℕ_discrete f.0 n) [
      | yes z ↦ let c = subst (λ j. SameCell (cells j) p) z f.3 in ground (arith, c, e)
      | no z ↦ h (f.0, omega arith, omega (arith, f.2, z), f.3)
    ]

wall_collision-Decides : (p : Pos) → Decides (wall_collision p) (OnBoard p → ⊥)
unfolding wall_collision
wall_collision-Decides p = elim (Bool-cases (wall_collision p)) [
  | inl e ↦ rw e (λ o. ground (arith, o))
  | inr e ↦ rw e (λ h. h (ground arith))
]

or-Decides :
    (w a b c : Bool) (A B C : Type 0)
    → Decides a A
    → Decides b B
    → Decides c C
    → Decides ((not w && a) || b || c) (((w ≡ false) × A) ⊎ (B ⊎ C))
or-Decides true a true c A B C x y z = inr (inl y)
or-Decides true a false true A B C x y z = inr (inr z)
or-Decides true a false false A B C x y z = λ f. elim f [
  | inl g ↦ (let e = g.0 in ground (arith, e))
  | inr (inl g) ↦ y g
  | inr (inr g) ↦ z g
]
or-Decides false true b c A B C x y z = inl (refl, x)
or-Decides false false true c A B C x y z = inr (inl y)
or-Decides false false false true A B C x y z = inr (inr z)
or-Decides false false false false A B C x y z =
    λ f. elim f [ inl g ↦ x g.1 | inr (inl g) ↦ y g | inr (inr g) ↦ z g ]

blocked-Decides : (s : Snake) (p : Pos) → 1 ≤ s.size → Decides (blocked s p) (Ends s p)
unfolding blocked self_collision obstacle_collision
blocked-Decides s p h =
    let e : 1 + (s.size - 1) ≡ s.size = omega arith in
    or-Decides s.wrap_mode (wall_collision p) (on_body (s.size - 1) 1 s p)
      (among s.obstacle_count s.obstacles p) (OnBoard p → ⊥) (Found (body_at s) 1 s.size p)
      (Found s.obstacles 0 s.obstacle_count p) (wall_collision-Decides p)
      (subst (λ n. Decides (on_body (s.size - 1) 1 s p) (Found (body_at s) 1 n p)) e
        (on_body-Decides (s.size - 1) 1 s p))
      (among-Decides s.obstacle_count s.obstacles p)

Decides-true : (b : Bool) (P : Type 0) → b ≡ true → Decides b P → P
Decides-true true P e d = d
Decides-true false P e d = absurd (ground (arith, e))

Decides-false : (b : Bool) (P : Type 0) → b ≡ false → Decides b P → P → ⊥
Decides-false true P e d = absurd (ground (arith, e))
Decides-false false P e d = d

-- The tests of `step` say whether the game ends.
pub blocked-Ends : (s : Snake) (p : Pos) → 1 ≤ s.size → blocked s p ≡ true → Ends s p
blocked-Ends s p h e = Decides-true (blocked s p) (Ends s p) e (blocked-Decides s p h)

pub free-Ends : (s : Snake) (p : Pos) → 1 ≤ s.size → blocked s p ≡ false → Ends s p → ⊥
free-Ends s p h e = Decides-false (blocked s p) (Ends s p) e (blocked-Decides s p h)
