-- ===== src/Heap/Alloc.antt =====
-- `alloc` of kernel/kernel/Heap.cc takes a best-fitting block off the free list, whole or in part.
use doors.Base.{
  ℕ, ◌+◌, ◌%◌, ◌≤◌, ◌<◌, ◌≡◌, ◌≢◌, ◌⊎◌, inl, inr, refl, ap, ℕ_discrete, arith, false, List, [], ◌∷◌,
  length, none, some, All, u32_mod, leb, ◌==◌, sub32, add32, Bool-cases, Option-cases,
}
use doors.Heap.{
  Heap, min_block, header_size, size_max, needed_for, find_best, split_block, whole_block,
  take_block, alloc,
}
use doors.Heap.BestFit.{bytes, Best, find_best-Best, Precedes}
use doors.Heap.Replace.{Precedes-Member}
use doors.Heap.Apart.{All-Member}
use doors.Heap.Valid.{IsFree, IsValid}
use doors.Heap.BlockSize.{needed_for_room}
use doors.Heap.Carve.{Allocates, Carves-Allocates, fits_in, split-Carves, whole-Carves, All-map}

not_null : (b : ℕ) → b ≢ 0 → (b == 0) ≡ false
not_null b ne = ground arith

nothing_taken : (n p : ℕ) (h : Heap) → take_block n 0 p h ≡ (h, 0)
unfolding take_block
nothing_taken n p h = refl

take_block-Allocates :
    (h : Heap) (xs : List ℕ) (n p b : ℕ)
    → IsValid h xs
    → b ≢ 0
    → min_block ≤ n
    → (n % 16 ≡ 0) ⊎ (n ≡ size_max)
    → n ≤ bytes h b
    → All (λ x. n ≤ bytes h x → bytes h b ≤ bytes h x) xs
    → Precedes p b 0 xs
    → Allocates h xs n b (take_block n b p h)
unfolding take_block
take_block-Allocates h xs n p b v ne k u l least m =
    let mem = (Precedes-Member p b 0 xs m).0 in
    let f = All-Member (IsFree h) b xs v.blocks mem in
    let whole : n % 16 ≡ 0 = ground (arith, u, f.below, v.small) in
    let a : add32 b header_size ≡ b + header_size = omega (arith, fits_in h b n v.small f l) in
    elim (Bool-cases (leb min_block (sub32 (bytes h b) n))) [
      | inl t ↦
          rw (not_null b ne, t)
            (Carves-Allocates h (split_block n b p h) xs n b ((b + n) ∷ []) (add32 b header_size) v
              mem least a k (split-Carves h xs n p b v whole k l (ground arith) f m))
      | inr t ↦
          rw (not_null b ne, t)
            (Carves-Allocates h (whole_block b p h) xs n b [] (add32 b header_size) v mem least a k
              (whole-Carves h xs n p b v l m))
    ]

-- What `alloc` answers to a request of `size` bytes: null, where there is no block size for it or
-- no free block of that size, with the state unchanged; or a block.
abbrev pub Answer : Heap → List ℕ → ℕ → Heap × ℕ → Type 0
Answer h xs size r =
    ((needed_for size ≡ none) × (r ≡ (h, 0)))
    ⊎ ((n : ℕ) × (needed_for size ≡ some n)
        × (size + header_size ≤ n)
        × (((r ≡ (h, 0)) × All (λ x. bytes h x < n) xs) ⊎ ((b : ℕ) × Allocates h xs n b r)))

found_block :
    (h : Heap) (xs : List ℕ) (size n : ℕ) (fuel : ℕ)
    → IsValid h xs
    → size < u32_mod
    → needed_for size ≡ some n
    → (u : Best h n 0 xs 0 0 (find_best h fuel n 0 (h.link 0) 0 0))
    → Answer h xs size (take_block n u.found.0 u.found.1 h)
found_block h xs size n fuel v k e u =
    let room = needed_for_room size n k e in
    elim (ℕ_discrete u.found.0 0) [
      | yes z ↦ inr (
        n,
        e,
        room.0,
        inl (
          rw z (nothing_taken n u.found.1 h),
          All-map _ _ xs (λ x f. ground (arith, f, z)) u.least,
        ),
      )
      | no z ↦ inr (
        n,
        e,
        room.0,
        inr (
          u.found.0,
          take_block-Allocates h xs n u.found.1 u.found.0 v z room.1 room.2 (u.fits z)
              (All-map _ _ xs (λ x f l. (f l).1) u.least)
              (elim u.origin [ inl q ↦ absurd (z (ap (λ r. r.0) q)) | inr m ↦ m ]),
        ),
      )
    ]

-- On a valid heap, for a size of 32 bits, and with fuel above the number of free blocks, alloc
-- ends. It returns null and changes nothing if the size has no block size or no free block is
-- large enough; otherwise it takes a smallest free block that is large enough, whole or in part,
-- and returns the address behind its header: the block has room for the request and the header and
-- is marked as in use, the free list is valid, no free block overlaps the block, and free bytes
-- and bytes of the block are together as many as before were free.
pub alloc-Answer :
    (h : Heap) (xs : List ℕ) (size fuel : ℕ)
    → IsValid h xs
    → size < u32_mod
    → length xs < fuel
    → (r : Heap × ℕ) × (alloc fuel size h ≡ some r) × Answer h xs size r
unfolding alloc
alloc-Answer h xs size fuel v k l = elim (Option-cases (needed_for size)) [
  | inl e ↦ ((h, 0), rw (alloc, e) refl, inl (e, refl))
  | inr s ↦
      let u =
        find_best-Best h s.0 fuel 0 0 0 xs l v.chain (λ z. absurd (z refl))
          (λ z. absurd (z refl)) in
      (
        take_block s.0 u.found.0 u.found.1 h,
        rw (alloc, s.1, u.ends) refl,
        found_block h xs size s.0 fuel v k s.1 u,
      )
]
