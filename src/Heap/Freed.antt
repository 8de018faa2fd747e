-- ===== src/Heap/Freed.antt =====
-- `free` of kernel/kernel/Heap.cc gives the bytes of a block back, merged with its free neighbours.
use doors.Base.{
  ℕ, suc, ◌+◌, ◌≤◌, ◌<◌, ◌≡◌, ◌≢◌, ◌⊎◌, inl, refl, ◌∙◌, arith, false, ◌==◌, List, [], ◌∷◌, length,
  some, Member, Absent, update, update_self, update_ne, add32, sub32, u32_mod, ℕ_discrete,
}
use doors.Heap.{Heap, raw_size, header_size}
use doors.Heap.BestFit.{bytes}
use doors.Heap.Apart.{Apart, total, All-Member}
use doors.Heap.Valid.{IsFree, IsValid, InUse, IsValid-Distinct, Absent-flagged, All-others}
use doors.Heap.Carve.{nothing_fresh}
use doors.Heap.Grow.{grown-same, grown-Separate-same, grown-total-same}
use doors.Heap.Merge.{Merges, Anywhere, grown-Merges}
use doors.Heap.Coalesce.{coalesce-Merges}
use doors.Heap.Found.{find_before-EndsAt}
use doors.Heap.FreeAgain.{Chain-add, free-in_use, not_in_use}
use doors.Heap.Release.{free, release, add_to_free_list}

-- The `n` bytes from `a` on are none of the `k` from `node` on.
abbrev pub Outside : ℕ → ℕ → ℕ → ℕ → Type 0
Outside node k a n = (a + n ≤ node) ⊎ (node + k ≤ a)

-- The block at `node` without its marks.
abbrev cleared : ℕ → Heap → Heap
cleared node h = record h {
  size = update h.size node (raw_size (h.size node));
  magic = update h.magic node 0;
}

module _ (h : Heap) (node : ℕ) (xs : List ℕ) (v : IsValid h xs) (u : InUse h xs node) where
  not_listed : Absent node xs
  not_listed = Absent-flagged h node xs u.flagged v.blocks

  bytes-cleared : bytes (cleared node h) node ≡ bytes h node + 0
  bytes-cleared = ground arith

  bytes-cleared_eq : bytes (cleared node h) node ≡ bytes h node
  bytes-cleared_eq = ground arith

  size-cleared : (y : ℕ) → y ≢ node → (cleared node h).size y ≡ h.size y
  size-cleared y ne = update_ne h.size node y (raw_size (h.size node)) ne

  cleared-Apart : (a n : ℕ) → Apart h.size a n xs → Apart (cleared node h).size a n xs
  cleared-Apart a n o =
      grown-same h (cleared node h).size node 0 bytes-cleared size-cleared a n xs not_listed o

  cleared-IsValid : IsValid (cleared node h) xs
  cleared-IsValid = record {
    chain = v.chain;
    separate =
        grown-Separate-same h (cleared node h).size node 0 bytes-cleared size-cleared xs not_listed
          v.separate;
    blocks =
        All-others (IsFree h) (IsFree (cleared node h)) node [] xs
          (λ x ne a f. record {
            above = f.above;
            big = rw (size-cleared x ne) f.big;
            below = rw (size-cleared x ne) f.below;
            unflagged = rw (size-cleared x ne) f.unflagged;
            unmarked = update_ne h.magic node x 0 ne ∙ f.unmarked;
          })
          not_listed (nothing_fresh xs) v.blocks;
    small = v.small;
  }

  total-cleared : total (cleared node h).size xs ≡ total h.size xs
  total-cleared =
      grown-total-same h (cleared node h).size node 0 bytes-cleared size-cleared xs not_listed

  -- The block is put in front of the free list.
  added-IsValid : node ≢ 0 → IsValid (add_to_free_list node (cleared node h)) (node ∷ xs)
  unfolding add_to_free_list
  added-IsValid n =
      let c = cleared-IsValid in
      record {
        chain = Chain-add (cleared node h) node xs n not_listed (IsValid-Distinct h xs v).0 v.chain;
        separate = (
          cleared-Apart node (bytes (cleared node h) node) (rw bytes-cleared_eq u.apart),
          c.separate,
        );
        blocks = (
          record {
            above = u.above;
            big = omega (arith, bytes-cleared, u.big);
            below = omega (arith, bytes-cleared, u.below);
            unflagged = ground arith;
            unmarked = update_self (update h.magic node 0) node 0;
          },
          All-others (IsFree (cleared node h)) (IsFree (add_to_free_list node (cleared node h)))
              node [] xs
              (λ x ne a f. record {
                above = f.above;
                big = f.big;
                below = f.below;
                unflagged = f.unflagged;
                unmarked = update_ne (update h.magic node 0) node x 0 ne ∙ f.unmarked;
              })
              not_listed (nothing_fresh xs) c.blocks,
        );
        small = v.small;
      }

  added-Merges :
      node ≢ 0
      → Merges h xs
          (Outside node (bytes h node))
          (bytes h node)
          (add_to_free_list node (cleared node h))
          (node ∷ xs)
  unfolding add_to_free_list
  added-Merges n = record {
    valid = added-IsValid n;
    conserved = omega (arith, bytes-cleared_eq, total-cleared);
    others = λ a k l o q. (ground (arith, o, bytes-cleared_eq), cleared-Apart a k q);
  }

  -- The free block `b` in front takes the bytes.
  abbrev extended : ℕ → Heap
  extended b = record (cleared node h) {
    size =
        update (cleared node h).size b
          (add32 ((cleared node h).size b) ((cleared node h).size node));
  }

  extended-Merges :
      (b : ℕ)
      → Member b xs
      → add32 b (bytes (cleared node h) b) ≡ node
      → Merges h xs (Outside node (bytes h node)) (bytes h node) (extended b) xs
  extended-Merges b m e =
      let c = cleared-IsValid in
      let f = All-Member (IsFree (cleared node h)) b xs c.blocks m in
      let at : b + bytes (cleared node h) b ≡ node = omega (arith, f.below, v.small) in
      let k : (cleared node h).size node ≡ bytes h node = ground arith in
      let w =
        grown-Merges (cleared node h) (extended b) b ((cleared node h).size node) f v.small
          (ground (arith, k)) (omega (arith, u.below, at, k)) refl refl refl refl xs v.chain
          (IsValid-Distinct h xs v).1 c.blocks c.separate m
          (rw (at, k) (cleared-Apart node (bytes h node) u.apart)) in
      record {
        valid = w.valid;
        conserved = omega (arith, w.conserved, total-cleared, k);
        others = λ a n l o q. w.others a n l (ground (arith, o, at, k)) (cleared-Apart a n q);
      }

Merges-trans :
    (h g t : Heap) (xs ys zs : List ℕ) (Clear : ℕ → ℕ → Type 0) (k : ℕ)
    → Merges h xs Clear k g ys
    → Merges g ys Anywhere 0 t zs
    → Merges h xs Clear k t zs
Merges-trans h g t xs ys zs Clear k p q = record {
  valid = q.valid;
  conserved = omega (arith, p.conserved, q.conserved);
  others = λ a n l o r. q.others a n l tt (p.others a n l o r);
}

release-Merges :
    (h : Heap) (node : ℕ) (xs : List ℕ) (fuel : ℕ)
    → IsValid h xs
    → InUse h xs node
    → node ≢ 0
    → suc (length xs) < fuel
    → (t : Heap) × (release fuel node h ≡ some t)
      × (ys : List ℕ) × Merges h xs (Outside node (bytes h node)) (bytes h node) t ys
unfolding release
release-Merges h node xs fuel v u n l =
    let b = find_before-EndsAt (cleared node h) fuel node 0 xs (omega arith) v.chain in
    elim (ℕ_discrete b.found 0) [
      | yes z ↦
          let p = added-Merges h node xs v u n in
          let q =
            coalesce-Merges (add_to_free_list node (cleared node h)) (node ∷ xs) node fuel p.valid
              (inl refl) l in
          (
            q.0,
            rw (release, b.ends, z) q.1,
            q.2,
            Merges-trans h (add_to_free_list node (cleared node h)) q.0 xs (node ∷ xs) q.2
                (Outside node (bytes h node)) (bytes h node) p q.3,
          )
      | no z ↦
          let m = b.member z in
          let p = extended-Merges h node xs v u b.found m (b.adjacent z) in
          let q =
            coalesce-Merges (extended h node xs v u b.found) xs b.found fuel p.valid m
              (omega arith) in
          (
            q.0,
            rw (release, b.ends, is_some b.found z) q.1,
            q.2,
            Merges-trans h (extended h node xs v u b.found) q.0 xs xs q.2
                (Outside node (bytes h node)) (bytes h node) p q.3,
          )
    ]
  where
    is_some : (b : ℕ) → b ≢ 0 → (b == 0) ≡ false
    is_some b n = ground arith

in_use-InUse : (h : Heap) (xs : List ℕ) (node : ℕ) → InUse h xs node → not_in_use h node ≡ false
in_use-InUse h xs node u = ground (arith, u.flagged, u.marked)

-- On a valid heap, for the 32-bit address behind the header of a block in use that overlaps no
-- free block, and with fuel above the number of free blocks and one more, free ends with a valid
-- heap. Its free blocks hold exactly the bytes of the block more, also where the block is merged
-- with the free blocks in front of it and behind it; and bytes outside the block and outside all
-- free blocks are outside all free blocks afterwards.
pub free-Merges :
    (h : Heap) (xs : List ℕ) (ptr fuel : ℕ)
    → IsValid h xs
    → InUse h xs (sub32 ptr header_size)
    → header_size < ptr
    → ptr < u32_mod
    → suc (length xs) < fuel
    → (t : Heap) × (free fuel ptr h ≡ some t)
      × (ys : List ℕ) × Merges h xs
          (Outside (sub32 ptr header_size) (bytes h (sub32 ptr header_size)))
          (bytes h (sub32 ptr header_size))
          t
          ys
free-Merges h xs ptr fuel v u k s l =
    let q = release-Merges h (sub32 ptr header_size) xs fuel v u (omega arith) l in
    (
      q.0,
      free-in_use h fuel ptr (omega arith) (in_use-InUse h xs (sub32 ptr header_size) u) ∙ q.1,
      q.2,
      q.3,
    )
