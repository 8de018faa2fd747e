-- ===== src/Bytes/Strings.antt =====
-- Strings in memory, and the loops of libc++/include/string.h and libc++/string that run to their end.
use doors.Base.{
  ℕ, zero, suc, ◌+◌, ◌<◌, ◌≡◌, ◌≢◌, refl, arith, Bool, true, false, ◌&&◌, ◌==◌, some, Bool-cases,
  inl, inr,
}
use doors.Bytes.{Memory, strlen, match_here}

-- A string of `len` bytes, none of them NUL, and a NUL behind.
abbrev pub StringAt : Memory → ℕ → ℕ → Type 0
StringAt mem zero str = mem str ≡ 0
StringAt mem (suc len) str = (mem str ≢ 0) × StringAt mem len (str + 1)

pub strlen-StringAt :
    (mem : Memory) (len fuel str : ℕ)
    → StringAt mem len str
    → len < fuel
    → strlen fuel str mem ≡ some len
unfolding strlen
strlen-StringAt mem len zero str s l = absurd (omega arith)
strlen-StringAt mem zero (suc fuel) str s l = ground (arith, s)
strlen-StringAt mem (suc len) (suc fuel) str s l =
    let z : (mem str == 0) ≡ false = ground (arith, s.0) in
    rw (z, strlen-StringAt mem len fuel (str + 1) (s.1) (omega arith), strlen) refl

-- The `m` bytes at `h` are those at `n`.
abbrev pub matches : Memory → ℕ → ℕ → ℕ → Bool
matches mem zero h n = true
matches mem (suc m) h n = mem h == mem n && matches mem m (h + 1) (n + 1)

pub match_here-matches :
    (mem : Memory) (l m fuel h n : ℕ)
    → StringAt mem l h
    → StringAt mem m n
    → l < fuel
    → match_here fuel h n mem ≡ some (matches mem m h n)
unfolding match_here
match_here-matches mem l m zero h n s t lt = absurd (omega arith)
match_here-matches mem zero zero (suc fuel) h n s t lt = ground (arith, s, t)
match_here-matches mem zero (suc m) (suc fuel) h n s t lt = ground (arith, s, t.0)
match_here-matches mem (suc l) zero (suc fuel) h n s t lt = ground (arith, s.0, t)
match_here-matches mem (suc l) (suc m) (suc fuel) h n s t lt =
    let a : (mem h == 0) ≡ false = ground (arith, s.0) in
    let b : (mem n == 0) ≡ false = ground (arith, t.0) in
    let r = match_here-matches mem l m fuel (h + 1) (n + 1) (s.1) (t.1) (omega arith) in
    elim (Bool-cases (mem h == mem n)) [
      | inl e ↦ rw (a, b, e, match_here) r
      | inr e ↦ rw (a, b, e, match_here) refl
    ]
