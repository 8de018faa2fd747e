-- ===== src/Heap/Apart.antt =====
-- The free blocks of kernel/kernel/Heap.cc and the one that `alloc` takes do not overlap.
use doors.Base.{
  ℕ, ◌+◌, ◌≤◌, ◌≡◌, ◌≢◌, ◌⊎◌, inl, inr, refl, sym, ap, subst, arith, List, [], ◌∷◌, ◌++◌, Member,
  All, Absent, Distinct,
}
use doors.Heap.{raw_size}
use doors.Heap.Replace.{replace, replace-head, replace-tail, Absent-≢}

-- The `n` bytes from `a` on lie outside all the blocks `xs`.
abbrev pub Apart : (ℕ → ℕ) → ℕ → ℕ → List ℕ → Type 0
Apart size a n xs = All (λ y. (a + n ≤ y) ⊎ (y + raw_size (size y) ≤ a)) xs

-- No two of the blocks overlap.
abbrev pub Separate : (ℕ → ℕ) → List ℕ → Type 0
Separate size [] = Unit {0}
Separate size (x ∷ xs) = Apart size x (raw_size (size x)) xs × Separate size xs

-- The bytes of all the blocks.
abbrev pub total : (ℕ → ℕ) → List ℕ → ℕ
total size [] = 0
total size (x ∷ xs) = raw_size (size x) + total size xs

pub All-++ : (P : ℕ → Type 0) (xs ys : List ℕ) → All P xs → All P ys → All P (xs ++ ys)
All-++ P [] ys h k = k
All-++ P (x ∷ xs) ys h k = (h.0, All-++ P xs ys h.1 k)

pub All-Member : (P : ℕ → Type 0) (b : ℕ) (xs : List ℕ) → All P xs → Member b xs → P b
All-Member P b [] h m = absurd m
All-Member P b (x ∷ xs) h (inl e) = subst P (sym e) h.0
All-Member P b (x ∷ xs) h (inr m) = All-Member P b xs h.1 m

Apart-part :
    (size : ℕ → ℕ) (a n c k : ℕ) (xs : List ℕ)
    → a ≤ c
    → c + k ≤ a + n
    → Apart size a n xs
    → Apart size c k xs
Apart-part size a n c k [] h g s = tt
Apart-part size a n c k (x ∷ xs) h g s = (ground (arith, s.0), Apart-part size a n c k xs h g s.1)

total-++ : (size : ℕ → ℕ) (xs ys : List ℕ) → total size (xs ++ ys) ≡ total size xs + total size ys
total-++ size [] ys = omega arith
total-++ size (x ∷ xs) ys = omega (arith, total-++ size xs ys)

-- The first `n` bytes of the block `b` are taken, and the blocks `rs` lie in what is left of it.
module _ (size size' : ℕ → ℕ) (b n : ℕ) (rs : List ℕ) (room : n ≤ raw_size (size b))
    (inside : All (λ r. (b + n ≤ r) × (r + raw_size (size' r) ≤ b + raw_size (size b))) rs)
    (apart : Separate size' rs) (same : (y : ℕ) → y ≢ b → Absent y rs → size' y ≡ size y) where
  abbrev Fresh : List ℕ → Type 0
  Fresh xs = All (λ x. Absent x rs) xs

  Apart-same :
      (a m : ℕ) (xs : List ℕ) → Absent b xs → Fresh xs → Apart size a m xs → Apart size' a m xs
  Apart-same a m [] d f s = tt
  Apart-same a m (x ∷ xs) d f s =
      (ground (arith, s.0, same x (λ e. d.0 (sym e)) f.0), Apart-same a m xs d.1 f.1 s.1)

  Separate-same : (xs : List ℕ) → Absent b xs → Fresh xs → Separate size xs → Separate size' xs
  Separate-same [] d f s = tt
  Separate-same (x ∷ xs) d f s = (
    rw (same x (λ e. d.0 (sym e)) f.0) (Apart-same x (raw_size (size x)) xs d.1 f.1 s.0),
    Separate-same xs d.1 f.1 s.1,
  )

  rests-Apart :
      (a m : ℕ) (qs : List ℕ)
      → All (λ r. (b + n ≤ r) × (r + raw_size (size' r) ≤ b + raw_size (size b))) qs
      → (a + m ≤ b) ⊎ (b + raw_size (size b) ≤ a)
      → Apart size' a m qs
  rests-Apart a m [] i h = tt
  rests-Apart a m (q ∷ qs) i h = (ground (arith, i.0, h), rests-Apart a m qs i.1 h)

  pub Apart-replace :
      (a m : ℕ) (xs : List ℕ)
      → Member b xs
      → Distinct xs
      → Fresh xs
      → Apart size a m xs
      → Apart size' a m (replace b rs xs)
  Apart-replace a m [] k d f s = absurd k
  Apart-replace a m (x ∷ xs) (inl e) d f s = rw (replace-head b x rs xs e) (
      All-++ _ rs xs
        (rests-Apart a m rs inside
          (subst (λ y. (a + m ≤ y) ⊎ (y + raw_size (size y) ≤ a)) (sym e) s.0))
        (Apart-same a m xs (subst (λ y. Absent y xs) (sym e) d.0) f.1 s.1))
  Apart-replace a m (x ∷ xs) (inr k) d f s =
      let ne = Absent-≢ x b xs d.0 k in
      rw (replace-tail b x rs xs ne)
        (ground (arith, s.0, same x ne f.0), Apart-replace a m xs k d.1 f.1 s.1)

  -- The rests do not overlap the other free blocks.
  rests-Separate :
      (qs xs : List ℕ)
      → All (λ r. (b + n ≤ r) × (r + raw_size (size' r) ≤ b + raw_size (size b))) qs
      → Separate size' qs
      → Apart size' b (raw_size (size b)) xs
      → Separate size' xs
      → Separate size' (qs ++ xs)
  rests-Separate [] xs i v s t = t
  rests-Separate (q ∷ qs) xs i v s t = (
    All-++ _ qs xs v.0 (
        Apart-part size' b (raw_size (size b)) q (raw_size (size' q)) xs (omega (arith, i.0))
          (omega (arith, i.0)) s),
    rests-Separate qs xs i.1 v.1 s t,
  )

  pub Separate-replace :
      (xs : List ℕ)
      → Member b xs
      → Distinct xs
      → Fresh xs
      → Separate size xs
      → Separate size' (replace b rs xs)
  Separate-replace [] k d f s = absurd k
  Separate-replace (x ∷ xs) (inl e) d f s =
      let gone : Absent b xs = subst (λ y. Absent y xs) (sym e) d.0 in
      rw (replace-head b x rs xs e) (
        rests-Separate rs xs inside apart
          (Apart-same b (raw_size (size b)) xs gone f.1
            (subst (λ y. Apart size y (raw_size (size y)) xs) (sym e) s.0))
          (Separate-same xs gone f.1 s.1))
  Separate-replace (x ∷ xs) (inr k) d f s =
      let ne = Absent-≢ x b xs d.0 k in
      rw (replace-tail b x rs xs ne, same x ne f.0)
        (Apart-replace x (raw_size (size x)) xs k d.1 f.1 s.0, Separate-replace xs k d.1 f.1 s.1)

  rests_after :
      (qs : List ℕ)
      → All (λ r. (b + n ≤ r) × (r + raw_size (size' r) ≤ b + raw_size (size b))) qs
      → Apart size' b n qs
  rests_after [] i = tt
  rests_after (q ∷ qs) i = (inl i.0.0, rests_after qs i.1)

  -- The bytes that are taken do not overlap what stays free.
  pub taken-Apart :
      (xs : List ℕ)
      → Member b xs
      → Distinct xs
      → Fresh xs
      → Separate size xs
      → Apart size' b n (replace b rs xs)
  taken-Apart [] k d f s = absurd k
  taken-Apart (x ∷ xs) (inl e) d f s =
      let gone : Absent b xs = subst (λ y. Absent y xs) (sym e) d.0 in
      rw (replace-head b x rs xs e) (
        All-++ _ rs xs (rests_after rs inside) (
          Apart-same b n xs gone f.1 (
            Apart-part size b (raw_size (size b)) b n xs (omega arith) (omega arith)
              (subst (λ y. Apart size y (raw_size (size y)) xs) (sym e) s.0))))
  taken-Apart (x ∷ xs) (inr k) d f s =
      let ne = Absent-≢ x b xs d.0 k in
      rw (replace-tail b x rs xs ne)
        (ground (arith, same x ne f.0, All-Member _ b xs s.0 k), taken-Apart xs k d.1 f.1 s.1)

  total-same : (xs : List ℕ) → Absent b xs → Fresh xs → total size' xs ≡ total size xs
  total-same [] d f = refl
  total-same (x ∷ xs) d f = ground (arith, same x (λ e. d.0 (sym e)) f.0, total-same xs d.1 f.1)

  -- No byte is lost.
  pub total-replace :
      (xs : List ℕ)
      → Member b xs
      → Distinct xs
      → Fresh xs
      → total size' (replace b rs xs) + raw_size (size b) ≡ total size xs + total size' rs
  total-replace [] k d f = absurd k
  total-replace (x ∷ xs) (inl e) d f =
      let gone : Absent b xs = subst (λ y. Absent y xs) (sym e) d.0 in
      rw (replace-head b x rs xs e)
        (ground (arith, total-++ size' rs xs, total-same xs gone f.1, ap size e))
  total-replace (x ∷ xs) (inr k) d f =
      let ne = Absent-≢ x b xs d.0 k in
      rw (replace-tail b x rs xs ne) (ground (arith, same x ne f.0, total-replace xs k d.1 f.1))
