-- ===== src/Heap/Merge.antt =====
-- Merging a free block of kernel/kernel/Heap.cc with the bytes behind it keeps the heap valid.
use doors.Base.{
  Chain, ℕ, ◌+◌, ◌%◌, ◌≤◌, ◌<◌, ◌≡◌, ◌≢◌, ◌⊎◌, sym, ap, ◌∙◌, subst, arith, false, List, Member, All,
  Distinct, update, add32, u32_mod, ℕ_discrete,
}
use doors.Heap.{Heap, raw_size, is_alloc}
use doors.Heap.BestFit.{bytes}
use doors.Heap.Apart.{Apart, Separate, total}
use doors.Heap.Valid.{IsFree, IsValid}
use doors.Heap.Carve.{All-map}
use doors.Heap.Grow.{grown-Apart, grown-Separate, grown-total}

-- The free blocks `ys` of `t` have `k` bytes more than the free blocks `xs` of `h`, and bytes outside the latter are outside the former, if they are `Clear`.
pub record Merges (h : Heap) (xs : List ℕ) (Clear : ℕ → ℕ → Type 0) (k : ℕ) (t : Heap) (ys : List ℕ)
    : Type 0 where
  pub valid : IsValid t ys
  pub conserved : total t.size ys ≡ total h.size xs + k
  pub others : (a n : ℕ) → 0 < n → Clear a n → Apart h.size a n xs → Apart t.size a n ys

abbrev pub Anywhere : ℕ → ℕ → Type 0
Anywhere a n = Unit

pub Merges-refl : (h : Heap) (xs : List ℕ) → IsValid h xs → Merges h xs Anywhere 0 h xs
Merges-refl h xs v = record { valid = v; conserved = omega arith; others = λ a n p c o. o }

-- The size of a free block that absorbs `k` bytes behind it, which end in the heap.
grown-bytes :
    (h : Heap) (node k : ℕ)
    → h.end < u32_mod
    → IsFree h node
    → k % 2 ≡ 0
    → node + bytes h node + k ≤ h.end
    → (raw_size (add32 (h.size node) k) ≡ bytes h node + k)
      × (is_alloc (add32 (h.size node) k) ≡ false)
grown-bytes h node k s f e l =
    let u : h.size node ≡ bytes h node = ground (arith, f.unflagged) in
    let w : add32 (h.size node) k ≡ bytes h node + k = omega arith in
    rw w (omega arith, ground arith)

-- `t` is `h` with `k` bytes more in the block `node`.
module _ (h t : Heap) (node k : ℕ) (f : IsFree h node) (small : h.end < u32_mod) (even : k % 2 ≡ 0)
    (room : node + bytes h node + k ≤ h.end) (start : t.start ≡ h.start) (end : t.end ≡ h.end)
    (size : t.size ≡ update h.size node (add32 (h.size node) k)) (magic : t.magic ≡ h.magic) where
  pub more : bytes t node ≡ bytes h node + k
  more =
      ap (λ s. raw_size (s node)) size ∙ ground (arith, (grown-bytes h node k small f even room).0)

  pub same : (y : ℕ) → y ≢ node → t.size y ≡ h.size y
  same y ne = ap (λ s. s y) size ∙ ground arith

  grown-IsFree : (x : ℕ) → IsFree h x → IsFree t x
  grown-IsFree x u = elim (ℕ_discrete x node) [
    | yes e ↦ subst (IsFree t) (sym e) record {
      above = omega (arith, f.above, start);
      big = omega (arith, f.big, more);
      below = omega (arith, more, room, end);
      unflagged =
          ap (λ s. is_alloc (s node)) size
          ∙ ground (arith, (grown-bytes h node k small f even room).1);
      unmarked = ap (λ m. m node) magic ∙ f.unmarked;
    }
    | no ne ↦ record {
      above = omega (arith, u.above, start);
      big = rw (same x ne) u.big;
      below = rw (same x ne, end) u.below;
      unflagged = rw (same x ne) u.unflagged;
      unmarked = ap (λ m. m x) magic ∙ u.unmarked;
    }
  ]

  pub grown-Merges :
      (xs : List ℕ)
      → Chain t.link 0 xs
      → Distinct xs
      → All (IsFree h) xs
      → Separate h.size xs
      → Member node xs
      → Apart h.size (node + bytes h node) k xs
      → Merges h xs (λ a n. (a + n ≤ node + bytes h node) ⊎ (node + bytes h node + k ≤ a)) k t xs
  grown-Merges xs c d b s m a = record {
    valid = record {
      chain = c;
      separate = grown-Separate h t.size node k more same xs d b a s;
      blocks = All-map (IsFree h) (IsFree t) xs grown-IsFree b;
      small = rw end small;
    };
    conserved = grown-total h t.size node k more same xs d m;
    others = λ a n p o q. grown-Apart h t.size node k more same a n xs p d o q;
  }
