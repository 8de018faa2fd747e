-- ===== src/Malloc/Tests.antt =====
-- The pool of user programs at concrete inputs.
use doors.Base.{ℕ, ◌≡◌, refl, arith, true, false, some, [], ◌∷◌, add32, ◌==◌, if◌then◌else◌}
use doors.Malloc.{Malloc, header_bytes, needed_bytes, malloc}
use doors.Malloc.FirstFit.{Takes, malloc-Takes, malloc-exhausts}

abbrev unused : Malloc
unused = record { initialized = false; link = λ a. 0; size = λ a. 0 }

-- Blocks of 24 bytes at 64 and of 200 bytes at 512.
abbrev two_blocks : Malloc
two_blocks = record {
  initialized = true;
  link = λ a. if a == 0 then 64 else if a == 64 then 512 else 0;
  size = λ a. if a == 64 then 24 else 200;
}

malloc-Takes_example :
    (r : Malloc × ℕ) × (malloc 3 4096 16 20 two_blocks ≡ some r)
    × Takes two_blocks (needed_bytes 16 20) (64 ∷ 512 ∷ []) r
malloc-Takes_example =
    malloc-Takes two_blocks (64 ∷ 512 ∷ []) 3 4096 16 20 refl
      (refl, omega arith, (refl, omega arith, refl))
      ((omega arith, (omega arith, tt)), ((omega arith, tt), (tt, tt))) (omega arith) (omega arith)

malloc-exhausts_example :
    (t : Malloc) × (malloc 2 4096 16 1 unused ≡ some (t, add32 4096 header_bytes))
    × (malloc 2 4096 16 1 t ≡ some (t, 0))
malloc-exhausts_example =
    malloc-exhausts unused 4096 16 1 1 refl (omega arith) (omega arith) (omega arith)
      (unfold needed_bytes in omega arith)
