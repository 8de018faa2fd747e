-- ===== src/Base/Lists.antt =====
-- Lists measured and indexed by native numbers, and the predicates on lists that the components
-- share.
use Prim.Native.Nat.{ℕ, zero, suc, ◌+◌}
use mathlib.Core.Path.{◌≡◌}
use mathlib.Core.Logic.{◌≢◌, ◌⊎◌, inl, inr}
use mathlib.Core.Bool.{Bool, true, false}
use mathlib.Core.List.{List, [], ◌∷◌}
use native.Mathlib.Omega.{arith}
use doors.Base.Tests.{if◌then◌else◌}

module _ {ℓ} {A : Type ℓ} where
  abbrev pub length : List A → ℕ
  length [] = 0
  length (x ∷ xs) = suc (length xs)

  abbrev pub get_or : List A → ℕ → A → A
  get_or [] i d = d
  get_or (x ∷ xs) zero d = x
  get_or (x ∷ xs) (suc i) d = get_or xs i d

  -- The elements that pass a test.
  abbrev pub keep_if : (A → Bool) → List A → List A
  keep_if p [] = []
  keep_if p (x ∷ xs) = if p x then x ∷ keep_if p xs else keep_if p xs

  -- How many elements pass a test.
  abbrev pub count_if : (A → Bool) → List A → ℕ
  count_if p [] = 0
  count_if p (x ∷ xs) = (if p x then 1 else 0) + count_if p xs

  abbrev pub any_of : (A → Bool) → List A → Bool
  any_of p [] = false
  any_of p (x ∷ xs) = if p x then true else any_of p xs

-- `a` is not an element.
abbrev pub Absent : ℕ → List ℕ → Type 0
Absent a [] = Unit {0}
Absent a (x ∷ xs) = (a ≢ x) × Absent a xs

-- No element occurs twice.
abbrev pub Distinct : List ℕ → Type 0
Distinct [] = Unit {0}
Distinct (x ∷ xs) = Absent x xs × Distinct xs

-- `a` is an element.
abbrev pub Member : ℕ → List ℕ → Type 0
Member a [] = ⊥
Member a (x ∷ xs) = (a ≡ x) ⊎ Member a xs

abbrev pub All {ℓ κ} : {A : Type ℓ} → (A → Type κ) → List A → Type κ
All P [] = Unit
All P (x ∷ xs) = P x × All P xs

pub Absent-keep_if : (p : ℕ → Bool) (a : ℕ) (xs : List ℕ) → Absent a xs → Absent a (keep_if p xs)
Absent-keep_if p a [] h = tt
Absent-keep_if p a (x ∷ xs) h = ground (arith, Absent-keep_if p a xs)

pub Distinct-keep_if : (p : ℕ → Bool) (xs : List ℕ) → Distinct xs → Distinct (keep_if p xs)
Distinct-keep_if p [] h = tt
Distinct-keep_if p (x ∷ xs) h = ground (arith, Absent-keep_if p x xs, Distinct-keep_if p xs)

pub Absent-Member : (a : ℕ) (xs : List ℕ) → Absent a xs → Member a xs → ⊥
Absent-Member a [] h m = m
Absent-Member a (x ∷ xs) h (inl e) = h.0 e
Absent-Member a (x ∷ xs) h (inr m) = Absent-Member a xs h.1 m

-- Every number is an element or is not.
pub Member-cases : (a : ℕ) (xs : List ℕ) → Absent a xs ⊎ Member a xs
Member-cases a [] = inl tt
Member-cases a (x ∷ xs) = grind (arith, Member-cases a xs)
