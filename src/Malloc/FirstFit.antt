-- ===== src/Malloc/FirstFit.antt =====
-- `malloc` of libc++/stdlib/malloc.cc takes the first block that is large enough, and takes it
-- whole.
use doors.Base.{
  Chain, ℕ, zero, suc, ◌+◌, ◌-◌, ◌≤◌, ◌<◌, ◌≡◌, ◌≢◌, ◌⊎◌, inl, inr, refl, sym, ap, ◌∙◌, arith, true,
  false, if◌then◌else◌, leb, ◌==◌, Bool-cases, List, [], ◌∷◌, length, Option, some, All, Distinct,
  u32_mod, add32, update, update_self,
}
use doors.Heap.BestFit.{Precedes}
use doors.Heap.Replace.{replace, Chain-whole}
use doors.Malloc.{
  Malloc, header_bytes, pool_size, init_pool, needed_bytes, find_first, take_first, unlink_first,
  malloc,
}

-- Behind `prev` the blocks `xs` begin with blocks that are too small, and then comes `b`, behind `p`.
abbrev pub First : (ℕ → ℕ) → ℕ → ℕ → ℕ → ℕ → List ℕ → Type 0
First size needed p b prev [] = ⊥
First size needed p b prev (x ∷ xs) =
    ((p ≡ prev) × (b ≡ x) × (x ≢ 0) × (needed ≤ size x))
    ⊎ ((size x < needed) × First size needed p b x xs)

First-Precedes :
    (size : ℕ → ℕ) (needed p b prev : ℕ) (xs : List ℕ)
    → First size needed p b prev xs
    → Precedes p b prev xs
First-Precedes size needed p b prev [] f = f
First-Precedes size needed p b prev (x ∷ xs) (inl e) = inl (e.0, e.1)
First-Precedes size needed p b prev (x ∷ xs) (inr f) = inr (First-Precedes size needed p b x xs f.1)

First-nonzero :
    (size : ℕ → ℕ) (needed p b prev : ℕ) (xs : List ℕ) → First size needed p b prev xs → b ≢ 0
First-nonzero size needed p b prev [] f e = f
First-nonzero size needed p b prev (x ∷ xs) (inl q) e = q.2 (sym q.1 ∙ e)
First-nonzero size needed p b prev (x ∷ xs) (inr f) e = First-nonzero size needed p b x xs f.1 e

-- What the walk finds.
record Finds (m : Malloc) (needed prev : ℕ) (xs : List ℕ) (o : Option (ℕ × ℕ)) : Type 0 where
  found : ℕ × ℕ
  ends : o ≡ some found
  first :
      ((found.0 ≡ 0) × All (λ x. m.size x < needed) xs)
      ⊎ First m.size needed found.1 found.0 prev xs

find_first-Finds :
    (m : Malloc) (fuel needed prev : ℕ) (xs : List ℕ)
    → length xs < fuel
    → Chain m.link prev xs
    → Finds m needed prev xs (find_first m fuel needed prev (m.link prev))
unfolding find_first
find_first-Finds m zero needed prev xs l c = absurd (omega arith)
find_first-Finds m (suc fuel) needed prev [] l c = record {
  found = (m.link prev, prev);
  ends = ground (arith, c);
  first = inl (c, tt);
}
find_first-Finds m (suc fuel) needed prev (x ∷ xs) l c =
    let u = find_first-Finds m fuel needed x xs (omega arith) c.2 in
    elim (Bool-cases (leb needed (m.size x))) [
      | inl t ↦ record {
        found = (x, prev);
        ends = rw c.0 (ground arith);
        first = inr (inl (refl, refl, c.1, ground arith));
      }
      | inr t ↦ record {
        found = u.found;
        ends = rw c.0 (ground (arith, u.ends, c.1));
        first = elim u.first [
          | inl z ↦ inl (z.0, (ground arith, z.1))
          | inr f ↦ inr (inr (ground arith, f))
        ];
      }
    ]

-- The answer of `malloc` to a request for `needed` bytes, header included.
abbrev pub Takes : Malloc → ℕ → List ℕ → Malloc × ℕ → Type 0
Takes m needed xs r =
    ((r ≡ (m, 0)) × All (λ x. m.size x < needed) xs)
    ⊎ ((p : ℕ) × (b : ℕ) × First m.size needed p b 0 xs
        × (r.1 ≡ add32 b header_bytes)
        × Chain r.0.link 0 (replace b [] xs)
        × (r.0.size ≡ m.size))

unlink_first-none : (found : ℕ × ℕ) (m : Malloc) → found.0 ≡ 0 → unlink_first found m ≡ (m, 0)
unfolding unlink_first
unlink_first-none found m e = rw e refl

unlink_first-some :
    (found : ℕ × ℕ) (m : Malloc)
    → found.0 ≢ 0
    → unlink_first found m
      ≡ (record m { link = update m.link found.1 (m.link found.0) }, add32 found.0 header_bytes)
unfolding unlink_first
unlink_first-some found m n = elim (Bool-cases (found.0 == 0)) [
  | inl t ↦ absurd (n (ground arith))
  | inr t ↦ rw t refl
]

not_null : (n : ℕ) → n ≢ 0 → (n == 0) ≡ false
not_null n ne = ground arith

take_first-find_first :
    (fuel needed : ℕ) (found : ℕ × ℕ) (g : Malloc)
    → find_first g fuel needed 0 (g.link 0) ≡ some found
    → take_first fuel needed g ≡ some (unlink_first found g)
unfolding take_first
take_first-find_first fuel needed found g e = rw (take_first, e) refl

-- A call in a state that `init` makes `g` of, where the search in `g` finds `found`.
malloc-find_first :
    (m g : Malloc) (fuel pool align size : ℕ) (found : ℕ × ℕ)
    → init_pool pool m ≡ g
    → size ≢ 0
    → find_first g fuel (needed_bytes align size) 0 (g.link 0) ≡ some found
    → malloc fuel pool align size m ≡ some (unlink_first found g)
unfolding malloc
malloc-find_first m g fuel pool align size found i n e = rw (not_null size n) (
    ap (take_first fuel (needed_bytes align size)) i
    ∙ take_first-find_first fuel (needed_bytes align size) found g e)

init_pool-initialized : (pool : ℕ) (m : Malloc) → m.initialized ≡ true → init_pool pool m ≡ m
unfolding init_pool
init_pool-initialized pool m i = elim (Bool-cases m.initialized) [
  | inl t ↦
      ap
        (λ b. if b then m else record {
          initialized = true;
          link = update (update m.link 0 pool) pool 0;
          size = update m.size pool (pool_size - header_bytes);
        })
        t
  | inr t ↦ absurd (ground (arith, i, t))
]

-- In an initialized state, on a free list without repetition, for a size other than 0 and with
-- fuel above the length of the list, malloc ends. It returns null and changes nothing if every
-- free block is smaller than the bytes needed; otherwise it takes the first block that is large
-- enough off the list, whole, with the others in their order and no size changed, and returns the
-- address behind its header.
pub malloc-Takes :
    (m : Malloc) (xs : List ℕ) (fuel pool align size : ℕ)
    → m.initialized ≡ true
    → Chain m.link 0 xs
    → Distinct (0 ∷ xs)
    → length xs < fuel
    → size ≢ 0
    → (r : Malloc × ℕ) × (malloc fuel pool align size m ≡ some r)
      × Takes m (needed_bytes align size) xs r
malloc-Takes m xs fuel pool align size i c d l n =
    let u = find_first-Finds m fuel (needed_bytes align size) 0 xs l c in
    let value =
      malloc-find_first m m fuel pool align size u.found (init_pool-initialized pool m i) n
        u.ends in
    elim u.first [
      | inl z ↦ ((m, 0), value ∙ ap some (unlink_first-none u.found m z.0), inl (refl, z.1))
      | inr f ↦ (
        (
          record m { link = update m.link u.found.1 (m.link u.found.0) },
          add32 u.found.0 header_bytes,
        ),
        value
            ∙ ap some (
                unlink_first-some u.found m
                  (First-nonzero m.size (needed_bytes align size) u.found.1 u.found.0 0 xs f)),
        inr (
          u.found.1,
          u.found.0,
          f,
          refl,
          Chain-whole m.link u.found.1 u.found.0 0 xs
              (First-Precedes m.size (needed_bytes align size) u.found.1 u.found.0 0 xs f) d c,
          refl,
        ),
      )
    ]

init_pool-Chain :
    (pool : ℕ) (m : Malloc)
    → pool ≢ 0
    → m.initialized ≡ false
    → ((init_pool pool m).initialized ≡ true)
      × Chain (init_pool pool m).link 0 (pool ∷ [])
      × ((init_pool pool m).size pool ≡ pool_size - header_bytes)
unfolding init_pool
init_pool-Chain pool m n i = rw i (refl, (ground arith, n, ground arith), ground arith)

find_first-head :
    (g : Malloc) (needed b : ℕ)
    → b ≢ 0
    → g.link 0 ≡ b
    → needed ≤ g.size b
    → find_first g 2 needed 0 (g.link 0) ≡ some (b, 0)
unfolding find_first
find_first-head g needed b n e l = rw e (ground arith)

find_first-end :
    (g : Malloc) (needed : ℕ) → g.link 0 ≡ 0 → find_first g 2 needed 0 (g.link 0) ≡ some (0, 0)
unfolding find_first
find_first-end g needed e = rw e refl

-- In a program that has not allocated yet, and with the pool not at address 0, a malloc of a size
-- other than 0 that fits in the pool takes the whole pool, so that the next malloc of any size
-- other than 0 returns null.
pub malloc-exhausts :
    (m : Malloc) (pool align first second : ℕ)
    → m.initialized ≡ false
    → pool ≢ 0
    → first ≢ 0
    → second ≢ 0
    → needed_bytes align first ≤ pool_size - header_bytes
    → (t : Malloc) × (malloc 2 pool align first m ≡ some (t, add32 pool header_bytes))
      × (malloc 2 pool align second t ≡ some (t, 0))
malloc-exhausts m pool align first second i n f s l =
    let g = init_pool pool m in
    let t : Malloc = record g { link = update g.link 0 (g.link pool) } in
    let c = init_pool-Chain pool m n i in
    (
      t,
      malloc-find_first m g 2 pool align first (pool, 0) refl f
            (find_first-head g (needed_bytes align first) pool n c.1.0 (omega (arith, c.2, l)))
          ∙ ap some (unlink_first-some (pool, 0) g n),
      malloc-find_first t t 2 pool align second (0, 0) (init_pool-initialized pool t c.0) s
            (find_first-end t (needed_bytes align second)
              (update_self g.link 0 (g.link pool) ∙ c.1.2))
          ∙ ap some (unlink_first-none (0, 0) t refl),
    )

-- For an alignment of 16 and a size of 32 bits, what malloc looks for holds the size and a header
-- if the size plus 15 does not overflow 32 bits; if it does, malloc looks for 8 bytes only.
pub needed_bytes_wrap :
    (size : ℕ)
    → size < u32_mod
    → (size + 15 < u32_mod → size + header_bytes ≤ needed_bytes 16 size)
      × (u32_mod ≤ size + 15 → needed_bytes 16 size ≡ header_bytes)
unfolding needed_bytes
needed_bytes_wrap size h = (λ l. omega arith, λ l. omega arith)
