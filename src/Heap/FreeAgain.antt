-- ===== src/Heap/FreeAgain.antt =====
-- `free` of kernel/kernel/Heap.cc ends, and a second `free` of the same block does nothing.
use doors.Base.{
  Chain, Chain-update, Chain-relink, ℕ, zero, suc, ◌<◌, ◌≡◌, ◌≢◌, inl, inr, refl, ap, ◌∙◌, arith,
  Bool, true, false, not, ◌||◌, leb, ◌==◌, Bool-cases, List, [], ◌∷◌, length, some, Absent, update,
  update_self, add32, sub32, u32_mod,
}
use doors.Heap.{Heap, raw_size, is_alloc, header_size, heap_magic}
use doors.Heap.Valid.{IsValid, IsValid-Distinct, Absent-flagged}
use doors.Heap.Release.{
  find_link, find_before, coalesce, absorb, release, free, add_to_free_list, remove_from_free_list,
}

-- The walks end on a chain that is shorter than the fuel.
find_link-ends :
    (h : Heap) (fuel target prev : ℕ) (xs : List ℕ)
    → length xs < fuel
    → Chain h.link prev xs
    → (r : ℕ × ℕ) × (find_link h fuel target prev (h.link prev) ≡ some r)
unfolding find_link
find_link-ends h zero target prev xs l c = absurd (omega arith)
find_link-ends h (suc fuel) target prev [] l c = ((prev, h.link prev), ground (arith, c))
find_link-ends h (suc fuel) target prev (x ∷ xs) l c =
    let u = find_link-ends h fuel target x xs (omega arith) c.2 in
    elim (Bool-cases (x == target)) [
      | inl t ↦ ((prev, x), rw c.0 (ground arith))
      | inr t ↦ (u.0, rw c.0 (ground (arith, u.1, c.1)))
    ]

find_before-ends :
    (h : Heap) (fuel node prev : ℕ) (xs : List ℕ)
    → length xs < fuel
    → Chain h.link prev xs
    → (b : ℕ) × (find_before h fuel node (h.link prev) ≡ some b)
unfolding find_before
find_before-ends h zero node prev xs l c = absurd (omega arith)
find_before-ends h (suc fuel) node prev [] l c = (h.link prev, ground (arith, c))
find_before-ends h (suc fuel) node prev (x ∷ xs) l c =
    let u = find_before-ends h fuel node x xs (omega arith) c.2 in
    elim (Bool-cases (add32 x (raw_size (h.size x)) == node)) [
      | inl t ↦ (x, rw c.0 (ground arith))
      | inr t ↦ (u.0, rw c.0 (ground (arith, u.1, c.1)))
    ]

absorb-magic :
    (node next : ℕ) (found : ℕ × ℕ) (h : Heap) → (absorb node next found h).magic ≡ h.magic
unfolding absorb remove_from_free_list
absorb-magic node next found h = elim (Bool-cases (found.1 == 0)) [
  | inl t ↦ rw t refl
  | inr t ↦ rw t refl
]

-- Merging with the next block ends and marks nothing.
coalesce-ends :
    (h : Heap) (fuel node : ℕ) (xs : List ℕ)
    → length xs < fuel
    → Chain h.link 0 xs
    → (t : Heap) × (coalesce fuel node h ≡ some t) × (t.magic ≡ h.magic)
unfolding coalesce absorb remove_from_free_list
coalesce-ends h fuel node xs l c =
    let next = add32 node (h.size node) in
    let u = find_link-ends h fuel next 0 xs l c in
    elim (Bool-cases (leb h.end next)) [
      | inl t ↦ (h, rw t refl, refl)
      | inr t ↦
          elim (Bool-cases
            (h.size next == 0 || (is_alloc (h.size next) || not (h.magic next == 0)))) [
              | inl s ↦ (h, rw (t, s) refl, refl)
              | inr s ↦ (absorb node next u.0 h, rw (t, s, u.1) refl, absorb-magic node next u.0 h)
            ]
    ]

pub Chain-add :
    (h : Heap) (node : ℕ) (xs : List ℕ)
    → node ≢ 0
    → Absent node xs
    → Absent 0 xs
    → Chain h.link 0 xs
    → Chain (add_to_free_list node h).link 0 (node ∷ xs)
unfolding add_to_free_list
Chain-add h node xs n a z c = (
  update_self (update h.link node (h.link 0)) 0 node,
  n,
  Chain-update (update h.link node (h.link 0)) node 0 node xs n z
      (Chain-relink h.link 0 node node (h.link 0) xs (update_self h.link node (h.link 0)) a c),
)

release-ends :
    (h : Heap) (fuel node : ℕ) (xs : List ℕ)
    → suc (length xs) < fuel
    → node ≢ 0
    → Absent node xs
    → Absent 0 xs
    → Chain h.link 0 xs
    → (t : Heap) × (release fuel node h ≡ some t) × (t.magic node ≡ 0)
unfolding release add_to_free_list
release-ends h fuel node xs l n a z c =
    let cleared : Heap = record h {
      size = update h.size node (raw_size (h.size node));
      magic = update h.magic node 0;
    } in
    let u = find_before-ends cleared fuel node 0 xs (omega arith) c in
    elim (Bool-cases (u.0 == 0)) [
      | inl t ↦
          let v =
            coalesce-ends (add_to_free_list node cleared) fuel node (node ∷ xs) l
              (Chain-add cleared node xs n a z c) in
          (
            v.0,
            rw (release, u.1, t) v.1,
            ap (λ m. m node) v.2 ∙ update_self (update h.magic node 0) node 0,
          )
      | inr t ↦
          let grown : Heap = record cleared {
            size = update cleared.size u.0 (add32 (cleared.size u.0) (cleared.size node));
          } in
          let v = coalesce-ends grown fuel u.0 xs (omega arith) c in
          (v.0, rw (release, u.1, t) v.1, ap (λ m. m node) v.2 ∙ update_self h.magic node 0)
    ]

pub is_not_null : (ptr : ℕ) → ptr ≢ 0 → (ptr == 0) ≡ false
is_not_null ptr n = ground arith

-- `!isAlloc(hdr->size) || hdr->magic != HEAP_MAGIC`
abbrev pub not_in_use : Heap → ℕ → Bool
not_in_use h node = not (is_alloc (h.size node)) || not (h.magic node == heap_magic)

free-not_in_use :
    (h : Heap) (fuel ptr : ℕ)
    → not_in_use h (sub32 ptr header_size) ≡ true
    → free fuel ptr h ≡ some h
unfolding free
free-not_in_use h fuel ptr e = elim (Bool-cases (ptr == 0)) [
  | inl t ↦ rw t refl
  | inr t ↦ rw (t, e) refl
]

pub free-in_use :
    (h : Heap) (fuel ptr : ℕ)
    → ptr ≢ 0
    → not_in_use h (sub32 ptr header_size) ≡ false
    → free fuel ptr h ≡ release fuel (sub32 ptr header_size) h
unfolding free
free-in_use h fuel ptr n e = rw (is_not_null ptr n, e) refl

unmarked : (t : Heap) (node : ℕ) → t.magic node ≡ 0 → not_in_use t node ≡ true
unmarked t node e = ground (arith, e)

in_use : (h : Heap) (node : ℕ) → not_in_use h node ≡ false → is_alloc (h.size node) ≡ true
in_use h node e = ground arith

-- On a valid heap, with fuel above the number of free blocks and one more, free of a 32-bit
-- address above 16 ends, and freeing the same address once more then changes nothing.
pub free-free :
    (h : Heap) (xs : List ℕ) (fuel again ptr : ℕ)
    → IsValid h xs
    → suc (length xs) < fuel
    → header_size < ptr
    → ptr < u32_mod
    → (t : Heap) × (free fuel ptr h ≡ some t) × (free again ptr t ≡ some t)
free-free h xs fuel again ptr v l k s =
    let node = sub32 ptr header_size in
    elim (Bool-cases (not_in_use h node)) [
      | inl t ↦ (h, free-not_in_use h fuel ptr t, free-not_in_use h again ptr t)
      | inr t ↦
          let u =
            release-ends h fuel node xs l (omega arith)
              (Absent-flagged h node xs (in_use h node t) v.blocks) (IsValid-Distinct h xs v).0
              v.chain in
          (
            u.0,
            free-in_use h fuel ptr (omega arith) t ∙ u.1,
            free-not_in_use u.0 again ptr (unmarked u.0 node u.2),
          )
    ]
