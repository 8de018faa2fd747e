-- ===== src/Bytes/Search.antt =====
-- What libc++/string/strrchr.cc and strstr.cc find.
use doors.Base.{
  ℕ, zero, ◌+◌, ◌%◌, ◌<◌, ◌≤◌, ◌≡◌, ◌≢◌, refl, sym, ap, arith, true, false, ◌==◌, Option, none,
  some, Bool-cases, inl, inr, subst, suc, ℕ_discrete, ==_iff,
}
use mathlib.Core.Option
use doors.Bytes.{Memory, strrchr, find_down, strstr, search_from}
use doors.Bytes.Strings.{StringAt, strlen-StringAt, matches, match_here-matches}

-- The last of the `num` bytes behind `str` that is `byte`.
unfoldable pub Last : Memory → ℕ → ℕ → ℕ → Option ℕ → Type 0
Last mem str num byte none = (k : ℕ) → str < k → k ≤ str + num → mem k ≢ byte
Last mem str num byte (some p) =
    (str < p) × (p ≤ str + num) × (mem p ≡ byte) × ((k : ℕ) → p < k → k ≤ str + num → mem k ≢ byte)

Last-more :
    (mem : Memory) (i str byte : ℕ) (r : Option ℕ)
    → mem (str + suc i) ≢ byte
    → Last mem str i byte r
    → Last mem str (suc i) byte r
unfolding Last
Last-more mem i str byte none h l = λ k a b. elim (ℕ_discrete k (str + suc i)) [
  | yes e ↦ subst (λ x. mem x ≢ byte) (sym e) h
  | no e ↦ l k a (omega (arith, e))
]
Last-more mem i str byte (some p) h l = (
  l.0,
  omega (arith, l.1),
  l.2,
  λ k a b. elim (ℕ_discrete k (str + suc i)) [
    | yes e ↦ subst (λ x. mem x ≢ byte) (sym e) h
    | no e ↦ l.3 k a (omega (arith, e))
  ],
)

Last-here :
    (mem : Memory) (i str byte : ℕ)
    → mem (str + suc i) ≡ byte
    → Last mem str (suc i) byte (some (str + suc i))
unfolding Last
Last-here mem i str byte e = (omega arith, omega arith, e, λ k a b. absurd (omega arith))

find_down-Last :
    (mem : Memory) (num str byte : ℕ) → Last mem str num byte (find_down num str byte mem)
unfolding Last find_down
find_down-Last mem zero str byte = λ k a b. absurd (omega arith)
find_down-Last mem (suc i) str byte = elim (Bool-cases (mem (str + suc i) == byte)) [
  | inl e ↦
      let t : find_down (suc i) str byte mem ≡ some (str + suc i) = rw (e, find_down) refl in
      subst (Last mem str (suc i) byte) (sym t)
        (Last-here mem i str byte ((==_iff (mem (str + suc i)) byte).0 e))
  | inr e ↦
      let t : find_down (suc i) str byte mem ≡ find_down i str byte mem = rw (e, find_down) refl in
      subst (Last mem str (suc i) byte) (sym t) (
        Last-more mem i str byte (find_down i str byte mem) (ground (arith, e))
          (find_down-Last mem i str byte))
]

-- For a string in memory, with more fuel than it is long, strrchr ends; it returns the last place,
-- behind the first character of the string and up to its NUL, that holds the character, and
-- nullptr if there is none behind the first.
pub strrchr-Last :
    (mem : Memory) (len fuel str value : ℕ)
    → StringAt mem len str
    → len < fuel
    → (r : Option ℕ) × (strrchr fuel str value mem ≡ some r) × Last mem str len (value % 256) r
unfolding strrchr
strrchr-Last mem len fuel str value s l = (
  find_down len str (value % 256) mem,
  ap (Option.map (λ n. find_down n str (value % 256) mem)) (strlen-StringAt mem len fuel str s l),
  find_down-Last mem len str (value % 256),
)

-- The first place, from `str` to the end of its `len` bytes, where the `m` bytes of `substr` are.
unfoldable pub First : Memory → ℕ → ℕ → ℕ → ℕ → Option ℕ → Type 0
First mem str len substr m none = (q : ℕ) → str ≤ q → q < str + len → matches mem m q substr ≡ false
First mem str len substr m (some p) =
    (str ≤ p)
    × (p ≤ str + len)
    × (matches mem m p substr ≡ true)
    × ((q : ℕ) → str ≤ q → q < p → matches mem m q substr ≡ false)

First-here :
    (mem : Memory) (str len substr m : ℕ)
    → matches mem m str substr ≡ true
    → First mem str len substr m (some str)
unfolding First
First-here mem str len substr m e = (omega arith, omega arith, e, λ q a b. absurd (omega arith))

First-more :
    (mem : Memory) (str len substr m : ℕ) (r : Option ℕ)
    → matches mem m str substr ≡ false
    → First mem (str + 1) len substr m r
    → First mem str (suc len) substr m r
unfolding First
First-more mem str len substr m none h f = λ q a b. elim (ℕ_discrete q str) [
  | yes e ↦ subst (λ x. matches mem m x substr ≡ false) (sym e) h
  | no e ↦ f q (omega (arith, e)) (omega arith)
]
First-more mem str len substr m (some p) h f = (
  omega (arith, f.0),
  omega (arith, f.1),
  f.2,
  λ q a b. elim (ℕ_discrete q str) [
    | yes e ↦ subst (λ x. matches mem m x substr ≡ false) (sym e) h
    | no e ↦ f.3 q (omega (arith, e)) b
  ],
)

search_from-First :
    (mem : Memory) (len fuel str substr m : ℕ)
    → StringAt mem len str
    → StringAt mem m substr
    → len < fuel
    → (r : Option ℕ) × (search_from fuel str substr mem ≡ some r) × First mem str len substr m r
unfolding search_from First Option.bind
search_from-First mem len zero str substr m s t l = absurd (omega arith)
search_from-First mem zero (suc fuel) str substr m s t l =
    (none, ground (arith, s), λ q a b. absurd (omega arith))
search_from-First mem (suc len) (suc fuel) str substr m s t l =
    let z : (mem str == 0) ≡ false = ground (arith, s.0) in
    let h = match_here-matches mem (suc len) m (suc fuel) str substr s t l in
    elim (Bool-cases (matches mem m str substr)) [
      | inl e ↦ (some str, rw (z, h, e, search_from) refl, First-here mem str (suc len) substr m e)
      | inr e ↦
          let r = search_from-First mem len fuel (str + 1) substr m (s.1) t (omega arith) in
          (r.0, rw (z, h, e, search_from) (r.1), First-more mem str len substr m (r.0) e (r.2))
    ]

-- For two strings in memory, with more fuel than the first is long, strstr ends; it returns the
-- first place of the string where the bytes of the second stand, and nullptr only if they stand at
-- none.
pub strstr-First :
    (mem : Memory) (len m fuel str substr : ℕ)
    → StringAt mem len str
    → StringAt mem m substr
    → len < fuel
    → (r : Option ℕ) × (strstr fuel str substr mem ≡ some r) × First mem str len substr m r
unfolding strstr
strstr-First mem len zero fuel str substr s t l =
    (some str, ground (arith, t), First-here mem str len substr 0 refl)
strstr-First mem len (suc m) fuel str substr s t l =
    let z : (mem substr == 0) ≡ false = ground (arith, t.0) in
    let r = search_from-First mem len fuel str substr (suc m) s t l in
    (r.0, rw (z, strstr) (r.1), r.2)
