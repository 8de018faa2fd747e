-- ===== src/Divide/Tests.antt =====
-- Divisions at concrete operands.
use doors.Base.{ℕ, ◌+◌, ◌^◌, ◌≡◌, ◌≢◌, refl, arith, some, none}
use doors.Divide.{udivmoddi4, udivdi3, align}
use doors.Divide.Quotient.{Divides, udivmoddi4-Divides, udivmoddi4-wide_divisor}

seconds : udivmoddi4 10000000007 1000 ≡ some (10000000, 7)
unfolding udivmoddi4 align
seconds = refl

udivmoddi4-Divides_example :
    (r : ℕ × ℕ) × (udivmoddi4 10000000007 1000 ≡ some r) × Divides 10000000007 1000 r
udivmoddi4-Divides_example =
    udivmoddi4-Divides 10000000007 1000 (omega arith) (omega arith) (omega arith)
      (λ h. absurd (omega arith))

-- The low word of the divisor is 0.
traps : udivmoddi4 5 (2 ^ 32) ≡ none
unfolding udivmoddi4 align
traps = refl

-- 5 / (2 ^ 32 + 2)
divides_by_low_word : udivdi3 5 (2 ^ 32 + 2) ≡ some 2
unfolding udivdi3 align
divides_by_low_word = refl

udivmoddi4-wide_divisor_example : udivmoddi4 5 (2 ^ 32 + 2) ≢ some (0, 5)
udivmoddi4-wide_divisor_example =
    udivmoddi4-wide_divisor 5 (2 ^ 32 + 2) (omega arith) (omega arith) (omega arith) (0, 5)
      (refl, omega arith)
