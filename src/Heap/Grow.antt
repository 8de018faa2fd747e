-- ===== src/Heap/Grow.antt =====
-- A free block of kernel/kernel/Heap.cc that absorbs the bytes behind it.
use doors.Base.{
  ℕ, ◌+◌, ◌≤◌, ◌<◌, ◌≡◌, ◌≢◌, ◌⊎◌, inl, inr, refl, sym, ap, subst, arith, List, [], ◌∷◌, Member,
  All, Absent, Distinct, ℕ_discrete,
}
use doors.Heap.{Heap, raw_size}
use doors.Heap.BestFit.{bytes}
use doors.Heap.Replace.{Absent-≢}
use doors.Heap.Apart.{Apart, Separate, total}
use doors.Heap.Valid.{IsFree}

-- `size'` differs at `node` alone, which has `k` bytes more there.
module _ (h : Heap) (size' : ℕ → ℕ) (node k : ℕ) (more : raw_size (size' node) ≡ bytes h node + k)
    (same : (y : ℕ) → y ≢ node → size' y ≡ h.size y) where
  pub grown-same :
      (a n : ℕ) (xs : List ℕ) → Absent node xs → Apart h.size a n xs → Apart size' a n xs
  grown-same a n [] d s = tt
  grown-same a n (x ∷ xs) d s =
      (ground (arith, s.0, same x (λ e. d.0 (sym e))), grown-same a n xs d.1 s.1)

  pub grown-Separate-same : (xs : List ℕ) → Absent node xs → Separate h.size xs → Separate size' xs
  grown-Separate-same [] d s = tt
  grown-Separate-same (x ∷ xs) d s = (
    rw (same x (λ e. d.0 (sym e))) (grown-same x (bytes h x) xs d.1 s.0),
    grown-Separate-same xs d.1 s.1,
  )

  -- Bytes that overlap neither the free blocks nor what was absorbed.
  pub grown-Apart :
      (a n : ℕ) (xs : List ℕ)
      → 0 < n
      → Distinct xs
      → (a + n ≤ node + bytes h node) ⊎ (node + bytes h node + k ≤ a)
      → Apart h.size a n xs
      → Apart size' a n xs
  grown-Apart a n [] p d o s = tt
  grown-Apart a n (x ∷ xs) p d o s = elim (ℕ_discrete x node) [
    | yes e ↦ (
      subst (λ y. (a + n ≤ y) ⊎ (y + raw_size (size' y) ≤ a)) (sym e)
          (grown_here a n p o (subst (λ y. (a + n ≤ y) ⊎ (y + bytes h y ≤ a)) e s.0)),
      grown-same a n xs (subst (λ y. Absent y xs) e d.0) s.1,
    )
    | no ne ↦ (ground (arith, s.0, same x ne), grown-Apart a n xs p d.1 o s.1)
  ]
    where
      grown_here :
          (a n : ℕ)
          → 0 < n
          → (a + n ≤ node + bytes h node) ⊎ (node + bytes h node + k ≤ a)
          → (a + n ≤ node) ⊎ (node + bytes h node ≤ a)
          → (a + n ≤ node) ⊎ (node + raw_size (size' node) ≤ a)
      grown_here a n p o s = ground (arith, more)

  grown-extends :
      (xs : List ℕ)
      → Absent node xs
      → All (IsFree h) xs
      → Apart h.size node (bytes h node) xs
      → Apart h.size (node + bytes h node) k xs
      → Apart size' node (bytes h node + k) xs
  grown-extends [] d f s t = tt
  grown-extends (x ∷ xs) d f s t = (
    ground (arith, s.0, t.0, f.0.big, same x (λ e. d.0 (sym e))),
    grown-extends xs d.1 f.1 s.1 t.1,
  )

  pub grown-Separate :
      (xs : List ℕ)
      → Distinct xs
      → All (IsFree h) xs
      → Apart h.size (node + bytes h node) k xs
      → Separate h.size xs
      → Separate size' xs
  grown-Separate [] d f t s = tt
  grown-Separate (x ∷ xs) d f t s = elim (ℕ_discrete x node) [
    | yes e ↦
        let gone : Absent node xs = subst (λ y. Absent y xs) e d.0 in
        (
          subst (λ y. Apart size' y (raw_size (size' y)) xs) (sym e)
              (rw more
                (grown-extends xs gone f.1 (subst (λ y. Apart h.size y (bytes h y) xs) e s.0) t.1)),
          grown-Separate-same xs gone s.1,
        )
    | no ne ↦ (
      rw (same x ne)
          (grown-Apart x (bytes h x) xs (omega (arith, f.0.big)) d.1 (ground (arith, t.0)) s.0),
      grown-Separate xs d.1 f.1 t.1 s.1,
    )
  ]

  pub grown-total-same : (xs : List ℕ) → Absent node xs → total size' xs ≡ total h.size xs
  grown-total-same [] d = refl
  grown-total-same (x ∷ xs) d = ground (arith, same x (λ e. d.0 (sym e)), grown-total-same xs d.1)

  pub grown-total :
      (xs : List ℕ) → Distinct xs → Member node xs → total size' xs ≡ total h.size xs + k
  grown-total [] d m = absurd m
  grown-total (x ∷ xs) d (inl e) = ground (
    arith,
    grown-total-same xs (subst (λ y. Absent y xs) (sym e) d.0),
    more,
    ap size' e,
    ap h.size e,
  )
  grown-total (x ∷ xs) d (inr m) =
      ground (arith, same x (Absent-≢ x node xs d.0 m), grown-total xs d.1 m)
