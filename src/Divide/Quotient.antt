-- ===== src/Divide/Quotient.antt =====
-- The functions of libc++/stdlib/udivmoddi3.cc divide, except on the operands of one shape, which
-- they send the short way although the divisor does not fit in 32 bits.
use doors.Base.{
  ℕ, zero, suc, ◌+◌, ◌-◌, ◌/◌, ◌*◌, ◌%◌, ◌^◌, ◌≤◌, ◌<◌, ◌≡◌, ◌≢◌, refl, sym, ap, ◌∙◌, arith, true,
  false, ◌==◌, dec_lt, Bool-cases, inl, inr, none, some, leb, if◌then◌else◌, u32_mod, u64_mod,
}
use mathlib.Core.Option.{map, none-ne-some, some-injective}
use native.Mathlib.Nat.{
  mul_assoc, mul_comm, mul-div_cancel, one-le-pow, add-mul, div-add-mod', mod-lt, mod-eq_of_lt,
}
use doors.Divide.{
  align, set_quotient_bit, subtract_once, subtract_all, reduce_all, takes_short_way, divide32,
  udivmoddi4, udivdi3, umoddi3,
}
use doors.Divide.Align.{Aligned, align-Aligned, mul-pow-suc}

-- `r` is the quotient and the remainder of `a` and `b`.
abbrev pub Divides : ℕ → ℕ → ℕ × ℕ → Type 0
Divides a b r = (r.0 * b + r.1 ≡ a) × (r.1 < b)

-- Before the round for `shift`: the quotient so far has bits above `shift` alone.
abbrev Multiple : ℕ → ℕ → Type 0
Multiple shift q = (k : ℕ) × (q ≡ k * 2 ^ shift)

-- A round for `shift` on the divisor `d` keeps what quotient and remainder stand for, and leaves
-- less than the divisor.
record Subtracted (a b d shift q : ℕ) (r : ℕ × ℕ) : Type 0 where
  kept : r.0 * b + r.1 ≡ q * b + a
  smaller : r.1 < d
  multiple : Multiple shift r.0

-- `k * 2 ^ (shift + 1)` with the bit `shift` set.
set_quotient_bit-even :
    (shift q n : ℕ) → q ≡ 2 * n * 2 ^ shift → set_quotient_bit shift q ≡ q + 2 ^ shift
unfolding set_quotient_bit
set_quotient_bit-even shift q n e =
    let d : q / 2 ^ shift ≡ 2 * n =
      ap (λ x. x / 2 ^ shift) e ∙ mul-div_cancel (2 * n) (one-le-pow shift 2 (omega arith)) in
    rw d (ground arith)

subtract_once-Subtracted :
    (a b d shift q n : ℕ)
    → d ≡ b * 2 ^ shift
    → a < 2 * d
    → q ≡ 2 * n * 2 ^ shift
    → Subtracted a b d shift q (subtract_once shift a d q)
unfolding subtract_once
subtract_once-Subtracted a b d shift q n e h m = elim (Bool-cases (leb d a)) [
  | inl t ↦
      rw (t, set_quotient_bit-even shift q n m)
        record {
          kept = ground (arith, add-mul q (2 ^ shift) b, mul_comm (2 ^ shift) b);
          smaller = ground arith;
          multiple = (2 * n + 1, omega (arith, add-mul (2 * n) 1 (2 ^ shift)));
        }
  | inr t ↦ rw t record { kept = refl; smaller = ground arith; multiple = (2 * n, m) }
]

double-Multiple : (shift k : ℕ) → k * 2 ^ suc shift ≡ 2 * k * 2 ^ shift
double-Multiple shift k = mul-pow-suc k shift ∙ sym (mul_assoc 2 k (2 ^ shift))

subtract_all-Divides :
    (shift a b d q n : ℕ)
    → d ≡ b * 2 ^ shift
    → a < 2 * d
    → q ≡ 2 * n * 2 ^ shift
    → ((subtract_all shift a d q).0 * b + (subtract_all shift a d q).1 ≡ q * b + a)
      × ((subtract_all shift a d q).1 < b)
unfolding subtract_all
subtract_all-Divides zero a b d q n e h m =
    let u = subtract_once-Subtracted a b d zero q n e h m in (u.kept, omega (arith, u.smaller))
subtract_all-Divides (suc shift) a b d q n e h m =
    let u = subtract_once-Subtracted a b d (suc shift) q n e h m in
    let half : d / 2 ≡ b * 2 ^ shift = omega (arith, mul-pow-suc b shift) in
    let v =
      subtract_all-Divides shift (subtract_once (suc shift) a d q).1 b (d / 2)
        (subtract_once (suc shift) a d q).0 u.multiple.0 half
        (omega (arith, u.smaller, mul-pow-suc b shift))
        (u.multiple.1 ∙ double-Multiple shift u.multiple.0) in
    (v.0 ∙ u.kept, v.1)

left_of : (shift a d q : ℕ) → (if leb d a then a - d else a) ≡ (subtract_once shift a d q).1
unfolding subtract_once
left_of shift a d q = ground arith

reduce_all-subtract_all : (shift a d q : ℕ) → reduce_all shift a d ≡ (subtract_all shift a d q).1
unfolding reduce_all subtract_all subtract_once set_quotient_bit
reduce_all-subtract_all zero a d q = ground arith
reduce_all-subtract_all (suc shift) a d q =
    ap (λ x. reduce_all shift x (d / 2)) (left_of (suc shift) a d q)
    ∙ reduce_all-subtract_all shift (subtract_once (suc shift) a d q).1 (d / 2)
        (subtract_once (suc shift) a d q).0

-- The shift and the divisor that the first loop leaves for operands of 64 bits.
aligned : (a b : ℕ) → a < u64_mod → b < u64_mod → b ≢ 0 → Aligned a b (align 64 a b 0)
aligned a b h k ne = align-Aligned a b 63 b 0 h k (omega arith) (omega arith)

long_way :
    (a b : ℕ)
    → a < u64_mod
    → b < u64_mod
    → b ≢ 0
    → Divides a b (subtract_all (align 64 a b 0).0 a (align 64 a b 0).1 0)
long_way a b h k ne =
    let u = aligned a b h k ne in
    let v =
      subtract_all-Divides (align 64 a b 0).0 a b (align 64 a b 0).1 0 0 u.shifted u.above
        (omega arith) in
    (omega (arith, v.0), v.1)

short : (a b : ℕ) → a < u32_mod → b % u32_mod ≤ a → takes_short_way a b ≡ true
short a b h l = ground arith

not_zero : (b : ℕ) → b ≢ 0 → (b == 0) ≡ false
not_zero b ne = ground arith

-- The two operands that the short way divides.
takes_short_way-low : (a b : ℕ) → takes_short_way a b ≡ true → (a < u32_mod) × (b % u32_mod ≤ a)
takes_short_way-low a b t = ground arith

fits_low :
    (a b : ℕ)
    → (a < u32_mod) × (b % u32_mod ≤ a)
    → (a < u32_mod → u32_mod ≤ b → a < b % u32_mod)
    → b < u32_mod
fits_low a b l wide = elim (dec_lt b u32_mod) [
  | yes h ↦ h
  | no h ↦ absurd (omega (arith, wide l.0 (omega arith)))
]

divide32-Divides :
    (a b : ℕ) → b ≢ 0 → (divide32 a b ≡ some (a / b, a % b)) × Divides a b (a / b, a % b)
unfolding divide32
divide32-Divides a b ne = (ground arith, (div-add-mod' a b, mod-lt a (omega arith)))

-- __udivmoddi4 on operands of 64 bits ends with the quotient and the remainder, if the divisor is
-- not 0 and if, where the dividend fits in 32 bits and the divisor does not, the low word of the
-- divisor is above the dividend.
pub udivmoddi4-Divides :
    (a b : ℕ)
    → a < u64_mod
    → b < u64_mod
    → b ≢ 0
    → (a < u32_mod → u32_mod ≤ b → a < b % u32_mod)
    → (r : ℕ × ℕ) × (udivmoddi4 a b ≡ some r) × Divides a b r
unfolding udivmoddi4 divide32
udivmoddi4-Divides a b h k ne wide = elim (Bool-cases (takes_short_way a b)) [
  | inl t ↦
      let l = takes_short_way-low a b t in
      let v = divide32-Divides a b ne in
      let fits : b < u32_mod = fits_low a b l wide in
      ((a / b, a % b), rw (not_zero b ne, t, mod-eq_of_lt l.0, mod-eq_of_lt fits) v.0, v.1)
  | inr t ↦
      (subtract_all (align 64 a b 0).0 a (align 64 a b 0).1 0, ground arith, long_way a b h k ne)
]

-- On all operands __udivdi3 returns the quotient of __udivmoddi4 and __umoddi3 its remainder, and
-- both trap exactly where it does.
pub udivmoddi4-parts :
    (a b : ℕ)
    → (udivdi3 a b ≡ map (λ r. r.0) (udivmoddi4 a b))
      × (umoddi3 a b ≡ map (λ r. r.1) (udivmoddi4 a b))
unfolding udivmoddi4 udivdi3 umoddi3
udivmoddi4-parts a b = elim (Bool-cases (b == 0)) [
  | inl z ↦ rw (z) (refl, refl)
  | inr z ↦ elim (Bool-cases (takes_short_way a b)) [
    | inl t ↦ elim (Bool-cases (b % u32_mod == 0)) [
      | inl y ↦ rw (z, t, y) (refl, refl)
      | inr y ↦ rw (z, t, y) (refl, refl)
    ]
    | inr t ↦
        rw (z, t)
          (refl, ap some (reduce_all-subtract_all (align 64 a b 0).0 a (align 64 a b 0).1 0))
  ]
]

divide32-zero : (a b : ℕ) → (b == 0) ≡ true → divide32 a b ≡ none
unfolding divide32
divide32-zero a b y = rw y refl

goes_short_way :
    (a b : ℕ)
    → a < u32_mod
    → u32_mod ≤ b
    → b % u32_mod ≤ a
    → udivmoddi4 a b ≡ divide32 a (b % u32_mod)
unfolding udivmoddi4
goes_short_way a b h k l = rw (not_zero b (ground arith), short a b h l, mod-eq_of_lt h) refl

Divides-small : (a b : ℕ) (r : ℕ × ℕ) → a < b → Divides a b r → r.0 ≡ 0
Divides-small a b (zero, r) h d = refl
Divides-small a b (suc q, r) h d = absurd (omega (arith, d.0, add-mul q 1 b))

-- Where the dividend fits in 32 bits, the divisor does not, and the low word of the divisor is at
-- most the dividend, __udivmoddi4 does not return the quotient and the remainder.
pub udivmoddi4-wide_divisor :
    (a b : ℕ)
    → a < u32_mod
    → u32_mod ≤ b
    → b % u32_mod ≤ a
    → (r : ℕ × ℕ) → Divides a b r
    → udivmoddi4 a b ≢ some r
unfolding udivmoddi4 divide32
udivmoddi4-wide_divisor a b h k l r d e = elim (Bool-cases (b % u32_mod == 0)) [
  | inl y ↦
      none-ne-some r (sym (divide32-zero a (b % u32_mod) y) ∙ sym (goes_short_way a b h k l) ∙ e)
  | inr y ↦
      let v = divide32-Divides a (b % u32_mod) (ground arith) in
      let same : (a / (b % u32_mod), a % (b % u32_mod)) ≡ r =
        some-injective (a / (b % u32_mod), a % (b % u32_mod)) r
          (sym v.0 ∙ sym (goes_short_way a b h k l) ∙ e) in
      omega (
        arith,
        v.1.0,
        v.1.1,
        ap (λ x. x.0) same,
        Divides-small a b r (omega arith) d,
        ap (λ x. x * (b % u32_mod)) (ap (λ x. x.0) same ∙ Divides-small a b r (omega arith) d),
      )
]
