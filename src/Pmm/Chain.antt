-- ===== src/Pmm/Chain.antt =====
-- The free list of kernel/kernel/Pmm.cc as a sequence of frames, and the invariant of the state.
use doors.Base.{ℕ, ◌<◌, ◌≡◌, List, ◌∷◌, length, Chain, Distinct, u32_mod}
use doors.Pmm.{Pmm}

-- The free list holds exactly the frames `xs`, none of them twice, and `freeCount_` is their number.
pub record IsValid (p : Pmm) (xs : List ℕ) : Type 0 where
  pub chain : Chain p.link 0 xs
  pub distinct : Distinct (0 ∷ xs)
  pub counted : p.free_count ≡ length xs
  pub small : length xs < u32_mod
