-- ===== src/Divide.antt =====
-- 64-bit division on a 32-bit machine, libc++/stdlib/udivmoddi3.cc.
pub mod Align
pub mod Quotient
mod Tests
use doors.Base.{
  ℕ, zero, suc, ◌+◌, ◌-◌, ◌/◌, ◌*◌, ◌%◌, ◌^◌, Bool, ◌&&◌, Option, none, some, leb, ◌==◌,
  if◌then◌else◌, u32_mod, u64_mod,
}

-- `b <= a && (b & (1ULL << 63)) == 0`
abbrev pub grows : ℕ → ℕ → Bool
grows a b = leb b a && (b / 2 ^ 63 % 2 == 0)

-- The loop that aligns the divisor, from `shift` on: the shift and the divisor that it leaves. The
-- top bit is reached in 64 rounds.
unfoldable pub align : ℕ → ℕ → ℕ → ℕ → ℕ × ℕ
align zero a b shift = (shift, b)
align (suc rounds) a b shift =
    let rest = align rounds a (b * 2 % u64_mod) (suc shift) in
    if grows a b then rest else (shift, b)

-- `quotient |= 1ULL << shift`
unfoldable pub set_quotient_bit : ℕ → ℕ → ℕ
set_quotient_bit shift quotient =
    if quotient / 2 ^ shift % 2 == 0 then quotient + 2 ^ shift else quotient

-- One round of the second loop: the quotient and what is left of the dividend.
unfoldable pub subtract_once : ℕ → ℕ → ℕ → ℕ → ℕ × ℕ
unfolding set_quotient_bit
subtract_once shift a b quotient =
    if leb b a then (set_quotient_bit shift quotient, a - b) else (quotient, a)

-- The rounds of the second loop for `shift` down to 0.
unfoldable pub subtract_all : ℕ → ℕ → ℕ → ℕ → ℕ × ℕ
unfolding subtract_once
subtract_all zero a b quotient = subtract_once zero a b quotient
subtract_all (suc shift) a b quotient =
    let r = subtract_once (suc shift) a b quotient in subtract_all shift r.1 (b / 2) r.0

-- The same rounds in `__umoddi3`, which keeps no quotient.
unfoldable pub reduce_all : ℕ → ℕ → ℕ → ℕ
reduce_all zero a b = if leb b a then a - b else a
reduce_all (suc shift) a b = reduce_all shift (if leb b a then a - b else a) (b / 2)

-- `a_hi == 0 && b_lo <= a_lo`
abbrev pub takes_short_way : ℕ → ℕ → Bool
takes_short_way a b = (a / u32_mod == 0) && leb (b % u32_mod) (a % u32_mod)

-- The machine's 32-bit division, which traps on 0: the quotient and the remainder.
unfoldable pub divide32 : ℕ → ℕ → Option (ℕ × ℕ)
divide32 a b = if b == 0 then none else some (a / b, a % b)

-- `__udivmoddi4`: the quotient and `*rem`, `none` where the machine traps.
unfoldable pub udivmoddi4 : ℕ → ℕ → Option (ℕ × ℕ)
unfolding divide32 subtract_all
udivmoddi4 a b =
    let aligned = align 64 a b 0 in
    if b == 0
    then some (0, 0)
    else if takes_short_way a b
    then divide32 (a % u32_mod) (b % u32_mod)
    else some (subtract_all aligned.0 a aligned.1 0)

unfoldable pub udivdi3 : ℕ → ℕ → Option ℕ
unfolding divide32 subtract_all
udivdi3 a b =
    let aligned = align 64 a b 0 in
    if b == 0
    then some 0
    else if takes_short_way a b
    then elim (divide32 (a % u32_mod) (b % u32_mod)) [ none ↦ none | some r ↦ some r.0 ]
    else some (subtract_all aligned.0 a aligned.1 0).0

unfoldable pub umoddi3 : ℕ → ℕ → Option ℕ
unfolding divide32 reduce_all
umoddi3 a b =
    let aligned = align 64 a b 0 in
    if b == 0
    then some 0
    else if takes_short_way a b
    then elim (divide32 (a % u32_mod) (b % u32_mod)) [ none ↦ none | some r ↦ some r.1 ]
    else some (reduce_all aligned.0 a aligned.1)
