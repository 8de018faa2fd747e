-- ===== src/Numbers/Digits.antt =====
-- The digits that libc++/stdlib/utos.cc writes and libc++/stdlib/strtoull.cc reads, one at a time.
use doors.Base.{
  ℕ, ◌+◌, ◌*◌, ◌%◌, ◌≤◌, ◌<◌, ◌≡◌, ◌≢◌, ◌⊎◌, refl, sym, ap, ◌∙◌, arith, Bool, true, false, ◌&&◌,
  ◌||◌, ◌==◌, if◌then◌else◌, List, [], ◌∷◌, ◌++◌, Bool-cases, inl, inr, u64_mod,
}
use doors.Numbers.{
  is_space, is_sign, digit_char, digit_value, accepted, read_digits, action, ignore, add_digit,
  stop, base_or_10,
}

-- The bases whose digits are all read.
abbrev pub Readable : ℕ → Type 0
Readable base = (2 ≤ base) × ((base ≤ 10) ⊎ (base ≡ 16))

abbrev pub ignored : ℕ → ℕ → Bool
ignored res ch = is_sign ch || (is_space ch && res == 0)

-- A written digit is read as its value.
pub digit_char_lem :
    (upcase : Bool) (base rem res : ℕ)
    → Readable base
    → rem < base
    → (digit_value (digit_char upcase rem) ≡ rem)
      × (accepted base (digit_char upcase rem) ≡ true)
      × (ignored res (digit_char upcase rem) ≡ false)
unfolding digit_char digit_value
digit_char_lem true base rem res h l = ground arith
digit_char_lem false base rem res h l = ground arith

-- With a base other than 0 a character is passed over, added or refused.
pub action-ignored :
    (base res ch : ℕ) (cs : List ℕ) → ignored res ch ≡ true → action base res ch cs ≡ ignore
unfolding action
action-ignored base res ch cs e = rw (e, action) refl

action-other :
    (base res ch : ℕ) (cs : List ℕ)
    → base ≢ 0
    → ignored res ch ≡ false
    → action base res ch cs ≡ (if accepted base ch then add_digit else stop)
unfolding action
action-other base res ch cs h e =
    let z : (base == 0 && res == 0) ≡ false = ground (arith, h) in rw (e, z, action) refl

action-accepted :
    (base res ch : ℕ) (cs : List ℕ)
    → base ≢ 0
    → ignored res ch ≡ false
    → accepted base ch ≡ true
    → action base res ch cs ≡ add_digit
action-accepted base res ch cs h e a =
    action-other base res ch cs h e ∙ ap (λ b. if b then add_digit else stop) a

pub read_ignored :
    (base res ch : ℕ) (cs : List ℕ)
    → action base res ch cs ≡ ignore
    → read_digits false base res (ch ∷ cs) ≡ read_digits false base res cs
unfolding read_digits
read_ignored base res ch cs e = rw (e, read_digits) refl

read_added :
    (base res ch : ℕ) (cs : List ℕ)
    → base ≢ 0
    → action base res ch cs ≡ add_digit
    → read_digits false base res (ch ∷ cs)
      ≡ read_digits false base ((res * base + digit_value ch) % u64_mod) cs
unfolding read_digits
read_added base res ch cs h e =
    let z : base_or_10 base ≡ base = ground (arith, h) in
    rw (e, read_digits) (ap (λ b. read_digits false b ((res * b + digit_value ch) % u64_mod) cs) z)

read_stopped :
    (base res ch : ℕ) (cs : List ℕ)
    → action base res ch cs ≡ stop
    → read_digits false base res (ch ∷ cs) ≡ (res, ch ∷ cs)
unfolding read_digits
read_stopped base res ch cs e = rw (e, read_digits) refl

not_read : (a b x : ℕ) (xs : List ℕ) (p q : ℕ × List ℕ) → p ≡ (a, x ∷ xs) → q ≡ (b, []) → p ≡ q → ⊥
not_read a b x xs p q e f g =
    let t : x ∷ xs ≡ [] = ap (λ r. r.1) (sym e ∙ g ∙ f) in ground (arith, t)

-- One more digit behind a number that is read to its end.
pub read_digits-snoc :
    (base res v c : ℕ) (xs : List ℕ)
    → base ≢ 0
    → read_digits false base res xs ≡ (v, [])
    → ignored v c ≡ false
    → accepted base c ≡ true
    → read_digits false base res (xs ++ (c ∷ [])) ≡ ((v * base + digit_value c) % u64_mod, [])
unfolding read_digits
read_digits-snoc base res v c [] h e i a =
    let r : res ≡ v = ap (λ p. p.0) e in
    ap (λ w. read_digits false base w (c ∷ [])) r
    ∙ read_added base v c [] h (action-accepted base v c [] h i a)
read_digits-snoc base res v c (x ∷ xs) h e i a = elim (Bool-cases (ignored res x)) [
  | inl n ↦
      read_ignored base res x (xs ++ (c ∷ [])) (action-ignored base res x _ n)
      ∙ read_digits-snoc base res v c xs h
          (sym (read_ignored base res x xs (action-ignored base res x xs n)) ∙ e) i a
  | inr n ↦ elim (Bool-cases (accepted base x)) [
    | inl m ↦
        read_added base res x (xs ++ (c ∷ [])) h (action-accepted base res x (xs ++ (c ∷ [])) h n m)
        ∙ read_digits-snoc base ((res * base + digit_value x) % u64_mod) v c xs h
            (sym (read_added base res x xs h (action-accepted base res x xs h n m)) ∙ e) i a
    | inr m ↦
        let t = action-other base res x xs h n ∙ ap (λ b. if b then add_digit else stop) m in
        absurd (not_read res v x xs _ (v, []) (read_stopped base res x xs t) refl e)
  ]
]
