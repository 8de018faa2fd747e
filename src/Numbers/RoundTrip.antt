-- ===== src/Numbers/RoundTrip.antt =====
-- What libc++/stdlib/utos.cc and itos.cc print, strtoull.cc and strtoll.cc read back.
use doors.Base.{
  to_int32, ℕ, zero, suc, ◌+◌, ◌-◌, ◌*◌, ◌/◌, ◌%◌, ◌^◌, ◌≤◌, ◌<◌, ◌≡◌, ◌≢◌, refl, sym, ap, subst,
  ◌∙◌, arith, Bool, true, false, not, ◌&&◌, ◌==◌, ltb, List, [], ◌∷◌, ◌++◌, Bool-cases, inl, inr,
  u32_mod, u64_mod, some, ℤ, pos, negsuc, ℕ_discrete,
}
use mathlib.Core.Option
use mathlib.Core.List.{reverse, reverse-cons}
use native.Mathlib.Nat.{
  div-add-mod', div-le_self, mod-lt, mul-le-mul_left, lt_of_lt_of_le, lt_of_le_of_lt, mod-eq_of_lt,
  pow-suc, div-lt_iff_lt-mul,
}
use doors.Numbers.{
  digit_char, digit_value, read_digits, print_digits, utos, itos, strtoull, strtoll, strtol,
  is_negative, is_space, to_int64, low32,
}
use doors.Numbers.Digits.{
  Readable, ignored, digit_char_lem, read_digits-snoc, read_ignored, action-ignored,
}

-- The number of digits halves the number at least.
div-half : (n f base : ℕ) → 2 ≤ base → n < 2 ^ suc f → n / base < 2 ^ f
div-half n f base h l =
    let e : 2 ^ suc f ≡ 2 ^ f * 2 = pow-suc 2 f in
    let m : 2 ^ f * 2 ≤ 2 ^ f * base = mul-le-mul_left (2 ^ f) h in
    let z : 0 < base = omega arith in
    (div-lt_iff_lt-mul z).1 (lt_of_lt_of_le (subst (λ x. n < x) e l) m)

base-nonzero : (base : ℕ) → Readable base → base ≢ 0
base-nonzero base h e = let l = h.0 in absurd (ground (arith, l, e))

-- A zero is the one character `0`.
read_zero : (base : ℕ) → Readable base → read_digits false base 0 (0x30 ∷ []) ≡ (0, [])
unfolding digit_char digit_value read_digits
read_zero base h =
    let d = digit_char_lem false base 0 0 h (omega (arith, h.0)) in
    let z : 0 * base + 0 ≡ 0 = omega arith in
    read_digits-snoc base 0 0 0x30 [] (base-nonzero base h) refl (d.2) (d.1)
    ∙ ap (λ v. (v % u64_mod, [])) z

print_more :
    (fuel n base : ℕ) (upcase : Bool) (ds : List ℕ)
    → n ≢ 0
    → print_digits fuel (n / base) base upcase ≡ some ds
    → print_digits (suc fuel) n base upcase ≡ some (digit_char upcase (n % base) ∷ ds)
unfolding print_digits
print_more fuel n base upcase ds e p =
    let z : (n == 0) ≡ false = ground (arith, e) in rw (z, p, print_digits) refl

is_negative-space :
    (x : ℕ) (xs : List ℕ) → is_space x ≡ true → is_negative (x ∷ xs) ≡ is_negative xs
unfolding is_negative
is_negative-space x xs e = rw (e, is_negative) refl

is_negative-other : (x : ℕ) (xs : List ℕ) → is_space x ≡ false → is_negative (x ∷ xs) ≡ (x == 0x2D)
unfolding is_negative
is_negative-other x xs e = rw (e, is_negative) refl

is_negative-snoc :
    (c : ℕ) (xs : List ℕ)
    → (c == 0x2D) ≡ false
    → is_negative xs ≡ false
    → is_negative (xs ++ (c ∷ [])) ≡ false
unfolding is_negative
is_negative-snoc c [] n e = ground arith
is_negative-snoc c (x ∷ xs) n e = elim (Bool-cases (is_space x)) [
  | inl s ↦
      is_negative-space x (xs ++ (c ∷ [])) s
      ∙ is_negative-snoc c xs n (sym (is_negative-space x xs s) ∙ e)
  | inr s ↦ is_negative-other x (xs ++ (c ∷ [])) s ∙ sym (is_negative-other x xs s) ∙ e
]

ignored-no_minus : (res c : ℕ) → ignored res c ≡ false → (c == 0x2D) ≡ false
ignored-no_minus res c e = ground arith

-- The digits of a number, read from the highest on, give it back and have no minus.
Reads : ℕ → ℕ → List ℕ → Type 0
Reads n base str = (read_digits false base 0 str ≡ (n, [])) × (is_negative str ≡ false)

Reads-zero : (n base : ℕ) → n ≡ 0 → Reads n base []
unfolding Reads read_digits is_negative
Reads-zero n base e = (ap (λ v. (v, [])) (sym e), refl)

Reads-more :
    (n base : ℕ) (upcase : Bool) (ds : List ℕ)
    → Readable base
    → n < u64_mod
    → Reads (n / base) base (reverse ds)
    → Reads n base (reverse (digit_char upcase (n % base) ∷ ds))
unfolding Reads
Reads-more n base upcase ds h m r =
    let z : 0 < base = omega (arith, h.0) in
    let d = digit_char_lem upcase base (n % base) (n / base) h (mod-lt n z) in
    let c = digit_char upcase (n % base) in
    (
      ap (read_digits false base 0) (reverse-cons c ds)
          ∙ read_digits-snoc base 0 (n / base) c (reverse ds) (base-nonzero base h) (r.0) (d.2)
              (d.1)
          ∙ ap (λ v. (v % u64_mod, [])) (ap (λ v. n / base * base + v) (d.0) ∙ div-add-mod' n base)
          ∙ ap (λ v. (v, [])) (mod-eq_of_lt m),
      ap is_negative (reverse-cons c ds)
          ∙ is_negative-snoc c (reverse ds) (ignored-no_minus (n / base) c (d.2)) (r.1),
    )

print_digits-Reads :
    (fuel n base : ℕ) (upcase : Bool)
    → Readable base
    → n < 2 ^ fuel
    → n < u64_mod
    → (ds : List ℕ) × (print_digits fuel n base upcase ≡ some ds) × Reads n base (reverse ds)
unfolding print_digits
print_digits-Reads zero n base upcase h l m =
    let e : n ≡ 0 = omega arith in ([], ground (arith, e), Reads-zero n base e)
print_digits-Reads (suc fuel) n base upcase h l m = elim (ℕ_discrete n 0) [
  | yes e ↦ ([], ground (arith, e), Reads-zero n base e)
  | no e ↦
      let small : n / base < u64_mod = lt_of_le_of_lt (div-le_self n base) m in
      let r =
        print_digits-Reads fuel (n / base) base upcase h (div-half n fuel base (h.0) l) small in
      (
        digit_char upcase (n % base) ∷ r.0,
        print_more fuel n base upcase (r.0) e (r.1),
        Reads-more n base upcase (r.0) h m (r.2),
      )
]

printed :
    (fuel n base : ℕ) (upcase : Bool) (ds : List ℕ)
    → n ≢ 0
    → print_digits fuel n base upcase ≡ some ds
    → utos fuel n base upcase ≡ some (reverse ds)
unfolding utos
printed fuel n base upcase ds e p =
    let z : (n == 0) ≡ false = ground (arith, e) in rw (z, p, utos) refl

utos-Reads :
    (fuel n base : ℕ) (upcase : Bool)
    → Readable base
    → n < 2 ^ fuel
    → n < u64_mod
    → (str : List ℕ) × (utos fuel n base upcase ≡ some str) × Reads n base str
unfolding utos Reads is_negative
utos-Reads fuel n base upcase h l m = elim (ℕ_discrete n 0) [
  | yes e ↦ (0x30 ∷ [], ground (arith, e), (read_zero base h ∙ ap (λ v. (v, [])) (sym e), refl))
  | no e ↦
      let r = print_digits-Reads fuel n base upcase h l m in
      (reverse (r.0), printed fuel n base upcase (r.0) e (r.1), r.2)
]

-- For a base from 2 to 10 or of 16 and every number below 2 ^ 64 that is below 2 ^ fuel, the loop
-- of utos and ltos ends within that many rounds, and strtoull with the same base reads the number
-- back from the string, to its end.
pub strtoull-utos :
    (fuel n base : ℕ) (upcase : Bool)
    → Readable base
    → n < 2 ^ fuel
    → n < u64_mod
    → (str : List ℕ) × (utos fuel n base upcase ≡ some str) × (strtoull str base ≡ (n, []))
unfolding strtoull Reads
strtoull-utos fuel n base upcase h l m =
    let r = utos-Reads fuel n base upcase h l m in (r.0, r.1, r.2.0)

-- The numbers of 32 bits with a sign.
abbrev pub Int32 : ℤ → Type 0
Int32 (pos n) = n < 2 ^ 31
Int32 (negsuc n) = n < 2 ^ 31

to_int64-small : (n : ℕ) → n < 2 ^ 31 → to_int64 n ≡ pos n
unfolding to_int64
to_int64-small n l = let z : ltb n (2 ^ 63) ≡ true = ground arith in rw (z, to_int64) refl

to_int64-minus : (n : ℕ) → n < 2 ^ 31 → to_int64 ((u64_mod - (n + 1)) % u64_mod) ≡ negsuc n
unfolding to_int64
to_int64-minus n l =
    let e : (u64_mod - (n + 1)) % u64_mod ≡ u64_mod - (n + 1) = omega arith in
    let z : ltb (u64_mod - (n + 1)) (2 ^ 63) ≡ false = ground arith in
    let v : u64_mod - 1 - (u64_mod - (n + 1)) ≡ n = omega arith in rw (e, z, v, to_int64) refl

-- The value of a text of the digits, with and without a minus.
strtoll-pos : (n base : ℕ) (str : List ℕ) → n < 2 ^ 31 → Reads n base str → strtoll str base ≡ pos n
unfolding strtoll strtoull Reads
strtoll-pos n base str l r =
    let z : (not (n == 0) && false) ≡ false = ground arith in
    rw (r.0, r.1, z, strtoll, strtoull) (to_int64-small n l)

strtoll-negsuc :
    (n base : ℕ) (str : List ℕ)
    → n < 2 ^ 31
    → Reads (n + 1) base str
    → strtoll (0x2D ∷ str) base ≡ negsuc n
unfolding strtoll strtoull Reads is_negative
strtoll-negsuc n base str l r =
    let z : not (n + 1 == 0) ≡ true = ground arith in
    rw
      (
        read_ignored base 0 0x2D str (action-ignored base 0 0x2D str refl),
        r.0,
        z,
        strtoll,
        strtoull,
      )
      (to_int64-minus n l)

low32-Int32 : (num : ℤ) → Int32 num → to_int32 (low32 num) ≡ num
unfolding low32
low32-Int32 (pos n) l =
    let e : n % u32_mod ≡ n = omega arith in
    let z : ltb n (2 ^ 31) ≡ true = ground arith in rw (e, z, low32) refl
low32-Int32 (negsuc n) l =
    let e : n % u32_mod ≡ n = omega arith in
    let z : ltb (u32_mod - 1 - n) (2 ^ 31) ≡ false = ground arith in
    let v : u32_mod - 1 - (u32_mod - 1 - n) ≡ n = omega arith in rw (e, z, v, low32) refl

strtoll_of_itos :
    (num : ℤ) (base : ℕ) (upcase : Bool)
    → Readable base
    → Int32 num
    → (str : List ℕ) × (itos 32 num base upcase ≡ some str) × (strtoll str base ≡ num)
unfolding itos
strtoll_of_itos (pos n) base upcase h l =
    let r = utos-Reads 32 n base upcase h (omega arith) (omega arith) in
    (r.0, r.1, strtoll-pos n base (r.0) l (r.2))
strtoll_of_itos (negsuc n) base upcase h l =
    let r = utos-Reads 32 (n + 1) base upcase h (omega arith) (omega arith) in
    (0x2D ∷ r.0, ap (Option.map (λ cs. 0x2D ∷ cs)) (r.1), strtoll-negsuc n base (r.0) l (r.2))

-- For a base from 2 to 10 or of 16 and every signed number of 32 bits, itos ends within 32 rounds
-- of its loop, and strtoll and strtol with the same base read the number back from the string it
-- writes.
pub strtol-itos :
    (num : ℤ) (base : ℕ) (upcase : Bool)
    → Readable base
    → Int32 num
    → (str : List ℕ) × (itos 32 num base upcase ≡ some str)
      × (strtoll str base ≡ num)
      × (strtol str base ≡ num)
unfolding strtol
strtol-itos num base upcase h l =
    let r = strtoll_of_itos num base upcase h l in
    (r.0, r.1, r.2, ap (λ v. to_int32 (low32 v)) (r.2) ∙ low32-Int32 num l)
