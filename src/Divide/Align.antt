-- ===== src/Divide/Align.antt =====
-- The first loop of libc++/stdlib/udivmoddi3.cc shifts the divisor until it is above half the
-- dividend.
use doors.Base.{
  true, false, ℕ, zero, suc, ◌*◌, ◌%◌, ◌^◌, ◌≤◌, ◌<◌, ◌≡◌, sym, ap, ◌∙◌, arith, u64_mod, Bool-cases,
  inl, inr,
}
use native.Mathlib.Nat.{pow-suc, mul_assoc, mul_comm}
use doors.Divide.{align, grows}

-- The loop left the shift `r.0` and the divisor `r.1`.
pub record Aligned (a b : ℕ) (r : ℕ × ℕ) : Type 0 where
  pub shifted : r.1 ≡ b * 2 ^ r.0
  pub above : a < 2 * r.1

pub mul-pow-suc : (b s : ℕ) → b * 2 ^ suc s ≡ 2 * (b * 2 ^ s)
mul-pow-suc b s = ap (λ x. b * x) (pow-suc 2 s) ∙ sym (mul_assoc b (2 ^ s) 2) ∙ omega arith

double-pow : (b s : ℕ) → b * 2 * 2 ^ s ≡ 2 * (b * 2 ^ s)
double-pow b s = ap (λ x. x * 2 ^ s) (mul_comm b 2) ∙ mul_assoc 2 b (2 ^ s)

-- A divisor that may still grow has its top bit clear.
grows-double : (a d : ℕ) → d < u64_mod → grows a d ≡ true → (d ≤ a) × (d * 2 % u64_mod ≡ d * 2)
grows-double a d h t = ground arith

stops : (a d : ℕ) → a < u64_mod → d < u64_mod → grows a d ≡ false → a < 2 * d
stops a d h k t = ground arith

pub align-Aligned :
    (a b rounds d shift : ℕ)
    → a < u64_mod
    → d < u64_mod
    → 2 ^ 63 ≤ d * 2 ^ rounds
    → d ≡ b * 2 ^ shift
    → Aligned a b (align (suc rounds) a d shift)
unfolding align
align-Aligned a b zero d shift h k g e = elim (Bool-cases (grows a d)) [
  | inl t ↦ absurd (omega (arith, grows-double a d k t))
  | inr t ↦ rw t record { shifted = e; above = stops a d h k t }
]
align-Aligned a b (suc rounds) d shift h k g e = elim (Bool-cases (grows a d)) [
  | inl t ↦
      let u = (grows-double a d k t).1 in
      rw (t, u)
        (align-Aligned a b rounds (d * 2) (suc shift) h (omega arith)
          (omega (arith, mul-pow-suc d rounds, double-pow d rounds))
          (omega (arith, mul-pow-suc b shift)))
  | inr t ↦ rw t record { shifted = e; above = stops a d h k t }
]
