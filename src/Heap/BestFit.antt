-- ===== src/Heap/BestFit.antt =====
-- The search of `alloc` in kernel/kernel/Heap.cc finds the smallest block that is large enough.
use doors.Base.{
  Chain, ℕ, zero, suc, ◌≤◌, ◌<◌, ◌≡◌, ◌≢◌, ◌⊎◌, inl, inr, refl, sym, ap, subst, arith, true, false,
  Bool, ◌&&◌, ◌||◌, ltb, leb, ◌==◌, Bool-cases, List, [], ◌∷◌, length, Option, some, All,
}
use doors.Heap.{Heap, raw_size, find_best}

abbrev pub bytes : Heap → ℕ → ℕ
bytes h b = raw_size (h.size b)

All-of : {P : ℕ → Type 0} (xs : List ℕ) → ((x : ℕ) → P x) → All P xs
All-of [] f = tt
All-of (x ∷ xs) f = (f x, All-of xs f)

-- On the way from `prev` over the nodes, `p` comes directly before `b`.
abbrev pub Precedes : ℕ → ℕ → ℕ → List ℕ → Type 0
Precedes p b prev [] = ⊥
Precedes p b prev (x ∷ xs) = ((p ≡ prev) × (b ≡ x)) ⊎ Precedes p b x xs

module _ (h : Heap) (needed : ℕ) where
  -- A block that is not null, and no larger than `b`.
  abbrev pub NoLarger : ℕ → ℕ → Type 0
  NoLarger r b = (r ≢ 0) × (bytes h r ≤ bytes h b)

  -- The search went on from `prev` over the nodes `xs`, with `b0` the best block before them and
  -- `p0` the place that links to it.
  pub record Best (prev : ℕ) (xs : List ℕ) (b0 p0 : ℕ) (o : Option (ℕ × ℕ)) : Type 0 where
    pub found : ℕ × ℕ
    pub ends : o ≡ some found
    pub least : All (λ x. needed ≤ bytes h x → NoLarger found.0 x) xs
    pub keeps : b0 ≢ 0 → NoLarger found.0 b0
    pub fits : found.0 ≢ 0 → needed ≤ bytes h found.0
    pub placed : found.0 ≢ 0 → h.link found.1 ≡ found.0
    pub origin : (found ≡ (b0, p0)) ⊎ Precedes found.1 found.0 prev xs

  abbrev takes : ℕ → ℕ → Bool
  takes x b0 = leb needed (bytes h x) && (b0 == 0 || ltb (bytes h x) (bytes h b0))

  module _ (fuel prev x b0 p0 : ℕ) (xs : List ℕ) (n : x ≢ 0) (c : h.link prev ≡ x)
      (fits0 : b0 ≢ 0 → needed ≤ bytes h b0) where
    exact_fit :
        takes x b0 ≡ true
        → (bytes h x == needed) ≡ true
        → Best prev (x ∷ xs) b0 p0 (find_best h (suc fuel) needed prev x b0 p0)
    unfolding find_best
    exact_fit t e = record {
      found = (x, prev);
      ends = ground arith;
      least = (λ k. (n, omega arith), All-of xs (λ y k. (n, ground arith)));
      keeps = λ k. (n, ground (arith, fits0 k));
      fits = λ k. ground arith;
      placed = λ k. c;
      origin = inr (inl (refl, refl));
    }

    better :
        takes x b0 ≡ true
        → (bytes h x == needed) ≡ false
        → Best x xs x prev (find_best h fuel needed x (h.link x) x prev)
        → Best prev (x ∷ xs) b0 p0 (find_best h (suc fuel) needed prev x b0 p0)
    unfolding find_best
    better t e u = record {
      found = u.found;
      ends = ground (arith, u.ends);
      least = (λ k. u.keeps n, u.least);
      keeps = λ k. ((u.keeps n).0, ground (arith, (u.keeps n).1));
      fits = u.fits;
      placed = u.placed;
      origin = elim u.origin [
        | inl q ↦ inr (inl (ap (λ r. r.1) q, ap (λ r. r.0) q))
        | inr m ↦ inr (inr m)
      ];
    }

    skipped : takes x b0 ≡ false → needed ≤ bytes h x → (b0 ≢ 0) × (bytes h b0 ≤ bytes h x)
    skipped t k = ground arith

    no_better :
        takes x b0 ≡ false
        → Best x xs b0 p0 (find_best h fuel needed x (h.link x) b0 p0)
        → Best prev (x ∷ xs) b0 p0 (find_best h (suc fuel) needed prev x b0 p0)
    unfolding find_best
    no_better t u = record {
      found = u.found;
      ends = ground (arith, u.ends);
      least = (
        λ k. let s = skipped t k in let l = u.keeps s.0 in (l.0, omega (arith, l.1, s.1)),
        u.least,
      );
      keeps = u.keeps;
      fits = u.fits;
      placed = u.placed;
      origin = elim u.origin [ inl q ↦ inl q | inr m ↦ inr (inr m) ];
    }

  end_reached :
      (fuel prev b0 p0 : ℕ)
      → (b0 ≢ 0 → needed ≤ bytes h b0)
      → (b0 ≢ 0 → h.link p0 ≡ b0)
      → Best prev [] b0 p0 (find_best h (suc fuel) needed prev 0 b0 p0)
  unfolding find_best
  end_reached fuel prev b0 p0 f l = record {
    found = (b0, p0);
    ends = refl;
    least = tt;
    keeps = λ k. (k, omega arith);
    fits = f;
    placed = l;
    origin = inl refl;
  }

  pub find_best-Best :
      (fuel prev b0 p0 : ℕ) (xs : List ℕ)
      → length xs < fuel
      → Chain h.link prev xs
      → (b0 ≢ 0 → needed ≤ bytes h b0)
      → (b0 ≢ 0 → h.link p0 ≡ b0)
      → Best prev xs b0 p0 (find_best h fuel needed prev (h.link prev) b0 p0)
  find_best-Best zero prev b0 p0 xs k c f l = absurd (omega arith)
  find_best-Best (suc fuel) prev b0 p0 [] k c f l =
      subst (λ y. Best prev [] b0 p0 (find_best h (suc fuel) needed prev y b0 p0)) (sym c)
        (end_reached fuel prev b0 p0 f l)
  find_best-Best (suc fuel) prev b0 p0 (x ∷ xs) k c f l =
      subst (λ y. Best prev (x ∷ xs) b0 p0 (find_best h (suc fuel) needed prev y b0 p0)) (sym c.0)
        (elim (Bool-cases (takes x b0)) [
          | inl t ↦ elim (Bool-cases (bytes h x == needed)) [
            | inl e ↦ exact_fit fuel prev x b0 p0 xs c.1 c.0 f t e
            | inr e ↦
                better fuel prev x b0 p0 xs c.1 c.0 f t e
                  (find_best-Best fuel x x prev xs (omega arith) c.2 (λ n. ground arith) (λ n. c.0))
          ]
          | inr t ↦
              no_better fuel prev x b0 p0 xs c.1 c.0 f t
                (find_best-Best fuel x b0 p0 xs (omega arith) c.2 f l)
        ])
