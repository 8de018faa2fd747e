-- ===== src/RingBuffer/Tests.antt =====
-- A ring buffer of three slots.
use doors.Base.{ℕ, ◌≡◌, refl, arith, some, [], ◌∷◌}
use doors.RingBuffer.{RingBuffer, empty, push, latest, size}
use doors.RingBuffer.Newest.{Holds, push_all, push_all-latest}

-- Five pushes, the newest first.
abbrev five_pushed : RingBuffer ℕ
five_pushed = push_all 3 (5 ∷ 4 ∷ 3 ∷ 2 ∷ 1 ∷ []) (empty 0)

wrapped : five_pushed.tail ≡ 2
unfolding push
wrapped = refl

push_all-latest_example :
    (latest 3 five_pushed ≡ some 5) × (size five_pushed ≡ 3) × Holds 3 five_pushed (5 ∷ 4 ∷ 3 ∷ [])
push_all-latest_example = push_all-latest 3 0 5 (4 ∷ 3 ∷ 2 ∷ 1 ∷ []) (omega arith)
