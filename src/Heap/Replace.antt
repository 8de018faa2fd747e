-- ===== src/Heap/Replace.antt =====
-- What `alloc` of kernel/kernel/Heap.cc writes into the links: the block that it takes leaves the
-- free list, and the rest that it splits off stands in its place.
use doors.Base.{
  Chain, Chain-update, Chain-relink, ℕ, ◌≡◌, ◌≢◌, inl, inr, sym, ◌∙◌, subst, arith, ◌==◌,
  if◌then◌else◌, List, [], ◌∷◌, ◌++◌, update, update_self, update_ne, Member, Absent, Distinct,
}
use doors.Heap.BestFit.{Precedes}

-- `xs` with `rs` in place of `b`.
abbrev pub replace : ℕ → List ℕ → List ℕ → List ℕ
replace b rs [] = []
replace b rs (x ∷ xs) = if x == b then rs ++ xs else x ∷ replace b rs xs

pub Precedes-Member :
    (p b loc : ℕ) (xs : List ℕ) → Precedes p b loc xs → Member b xs × Member p (loc ∷ xs)
Precedes-Member p b loc [] m = absurd m
Precedes-Member p b loc (x ∷ xs) (inl e) = (inl e.1, inl e.0)
Precedes-Member p b loc (x ∷ xs) (inr m) = let u = Precedes-Member p b x xs m in (inr u.0, inr u.1)

pub Absent-≢ : (a b : ℕ) (xs : List ℕ) → Absent a xs → Member b xs → a ≢ b
Absent-≢ a b [] h m e = m
Absent-≢ a b (x ∷ xs) h (inl q) e = h.0 (e ∙ q)
Absent-≢ a b (x ∷ xs) h (inr m) e = Absent-≢ a b xs h.1 m e

pub replace-head : (b x : ℕ) (rs xs : List ℕ) → b ≡ x → replace b rs (x ∷ xs) ≡ rs ++ xs
replace-head b x rs xs e = ground arith

pub replace-tail : (b x : ℕ) (rs xs : List ℕ) → x ≢ b → replace b rs (x ∷ xs) ≡ x ∷ replace b rs xs
replace-tail b x rs xs n = ground arith

-- The whole block leaves the list.
pub Chain-whole :
    (link : ℕ → ℕ) (p b loc : ℕ) (xs : List ℕ)
    → Precedes p b loc xs
    → Distinct (loc ∷ xs)
    → Chain link loc xs
    → Chain (update link p (link b)) loc (replace b [] xs)
Chain-whole link p b loc [] m d c = absurd m
Chain-whole link p b loc (x ∷ xs) (inl e) d c =
    rw (replace-head b x [] xs e.1, e.0, e.1)
      (Chain-relink link x loc loc (link x) xs (update_self link loc (link x)) d.0.1 c.2)
Chain-whole link p b loc (x ∷ xs) (inr m) d c =
    let u = Precedes-Member p b x xs m in
    rw (replace-tail b x [] xs (Absent-≢ x b xs d.1.0 u.0)) (
      update_ne link p loc (link b) (Absent-≢ loc p (x ∷ xs) d.0 u.1) ∙ c.0,
      c.1,
      Chain-whole link p b x xs m d.1 c.2,
    )

split_here :
    (link : ℕ → ℕ) (r loc x : ℕ) (xs : List ℕ)
    → r ≢ 0
    → Absent r (loc ∷ x ∷ xs)
    → Distinct (loc ∷ x ∷ xs)
    → Chain link loc (x ∷ xs)
    → Chain (update (update link r (link x)) loc r) loc (r ∷ xs)
split_here link r loc x xs n a d c = (
  update_self (update link r (link x)) loc r,
  n,
  Chain-update (update link r (link x)) r loc r xs a.0 d.0.1
      (Chain-relink link x r r (link x) xs (update_self link r (link x)) a.1.1 c.2),
)

-- The rest `r` takes the place of the block.
pub Chain-split :
    (link : ℕ → ℕ) (p b r loc : ℕ) (xs : List ℕ)
    → r ≢ 0
    → Absent r (loc ∷ xs)
    → Precedes p b loc xs
    → Distinct (loc ∷ xs)
    → Chain link loc xs
    → Chain (update (update link r (link b)) p r) loc (replace b (r ∷ []) xs)
Chain-split link p b r loc [] n a m d c = absurd m
Chain-split link p b r loc (x ∷ xs) n a (inl e) d c = rw (replace-head b x (r ∷ []) xs e.1) (
    subst (λ y. Chain (update (update link r (link y)) p r) loc (r ∷ xs)) (sym e.1)
      (subst (λ q. Chain (update (update link r (link x)) q r) loc (r ∷ xs)) (sym e.0)
        (split_here link r loc x xs n a d c)))
Chain-split link p b r loc (x ∷ xs) n a (inr m) d c =
    let u = Precedes-Member p b x xs m in
    rw (replace-tail b x (r ∷ []) xs (Absent-≢ x b xs d.1.0 u.0)) (
      update_ne (update link r (link b)) p loc r (Absent-≢ loc p (x ∷ xs) d.0 u.1)
          ∙ update_ne link r loc (link b) (λ e. a.0 (sym e))
          ∙ c.0,
      c.1,
      Chain-split link p b r x xs n a.1 m d.1 c.2,
    )
