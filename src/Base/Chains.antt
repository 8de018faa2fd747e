-- ===== src/Base/Chains.antt =====
-- Singly linked lists in a store of links.
use Prim.Native.Nat.{ℕ}
use mathlib.Core.Path.{◌≡◌, sym, ◌∙◌}
use mathlib.Core.Logic.{◌≢◌}
use mathlib.Core.List.{List, [], ◌∷◌}
use doors.Base.Lists.{Absent}
use doors.Base.Words.{update, update_ne}

-- From the location `loc` the links lead through the frames `xs`, in order, to `nullptr`.
abbrev pub Chain : (ℕ → ℕ) → ℕ → List ℕ → Type 0
Chain link loc [] = link loc ≡ 0
Chain link loc (x ∷ xs) = (link loc ≡ x) × (x ≢ 0) × Chain link x xs

-- A write elsewhere leaves a chain alone.
pub Chain-update :
    (link : ℕ → ℕ) (loc i v : ℕ) (xs : List ℕ)
    → loc ≢ i
    → Absent i xs
    → Chain link loc xs
    → Chain (update link i v) loc xs
Chain-update link loc i v [] h a c = update_ne link i loc v h ∙ c
Chain-update link loc i v (x ∷ xs) h a c =
    (update_ne link i loc v h ∙ c.0, c.1, Chain-update link x i v xs (λ e. a.0 (sym e)) a.1 c.2)

-- A write to a location that is not in the chain, after which `loc'` holds what `loc` held.
pub Chain-relink :
    (link : ℕ → ℕ) (loc loc' i v : ℕ) (xs : List ℕ)
    → update link i v loc' ≡ link loc
    → Absent i xs
    → Chain link loc xs
    → Chain (update link i v) loc' xs
Chain-relink link loc loc' i v [] e a c = e ∙ c
Chain-relink link loc loc' i v (x ∷ xs) e a c =
    (e ∙ c.0, c.1, Chain-update link x i v xs (λ h. a.0 (sym h)) a.1 c.2)
