-- ===== src/Paging/CloneRounds.antt =====
-- The rounds of the loop of `clonePageDir` of kernel/arch/i386/Paging.cc, and the call as a whole.
use doors.Base.{done, ℕ, zero, suc, ◌+◌, ◌≡◌, List, true, if◌then◌else◌, ◌&&◌, length}
use doors.Paging.{Paging}
use doors.Paging.Directory.{clone_entry}
use doors.Paging.Flags.{is_present, is_user}
use doors.Paging.CloneDir.{Cloning}

-- How many of the `n` entries from `i` on are tables of user code.
unfoldable pub user_tables : ℕ → ℕ → (ℕ → ℕ) → ℕ
user_tables zero i words = 0
user_tables (suc n) i words =
    (if is_present (words i) && is_user (words i) then 1 else 0) + user_tables n (suc i) words

-- What one round leaves.
abbrev Round : Paging → ℕ → ℕ → ℕ → Paging → List ℕ → Type 0
Round s src dir i t xs =
    (q : Paging) × (ys : List ℕ) × (clone_entry i src dir t ≡ done (q, true))
    × Cloning s src dir (suc i) q ys
    × (length ys + (if is_present (s.mem src i) && is_user (s.mem src i) then 1 else 0) ≡ length xs)
