-- ===== src/Heap/Coalesce.antt =====
-- `coalesce` of kernel/kernel/Heap.cc keeps the heap valid and loses no byte.
use doors.Base.{
  ℕ, ◌+◌, ◌<◌, ◌≡◌, ◌≢◌, inl, inr, refl, ap, ◌∙◌, subst, arith, not, ◌||◌, leb, ◌==◌, Bool-cases,
  List, [], length, some, Member, All, Distinct, update, add32, ℕ_discrete,
}
use doors.Heap.{Heap, raw_size, is_alloc}
use doors.Heap.BestFit.{bytes, Precedes}
use doors.Heap.Replace.{replace, Chain-whole, Precedes-Member}
use doors.Heap.Apart.{
  Apart, Separate, total, All-Member, Apart-replace, Separate-replace, taken-Apart, total-replace,
}
use doors.Heap.Valid.{
  IsFree, IsValid, IsValid-Distinct, Distinct-Separate, All-replace, Member-replace,
}
use doors.Heap.Carve.{nothing_fresh}
use doors.Heap.Merge.{Merges, Anywhere, Merges-refl, grown-Merges}
use doors.Heap.Found.{find_link-LinkTo}
use doors.Heap.Release.{coalesce, absorb, remove_from_free_list}

-- What `absorb` leaves where the next block `c` is on the list.
abbrev absorbed : ℕ → ℕ → ℕ → Heap → Heap
absorbed node c p g = record g {
  link = update g.link p (g.link c);
  size = update g.size node (add32 (g.size node) (raw_size (g.size c)));
}

absorb-absorbed :
    (node c : ℕ) (found : ℕ × ℕ) (g : Heap)
    → found.1 ≢ 0
    → absorb node c found g ≡ absorbed node c found.0 g
unfolding absorb remove_from_free_list
absorb-absorbed node c found g n = elim (Bool-cases (found.1 == 0)) [
  | inl t ↦ absurd (n (ground arith))
  | inr t ↦ rw t refl
]

absorb-none : (node c : ℕ) (found : ℕ × ℕ) (g : Heap) → found.1 ≡ 0 → absorb node c found g ≡ g
unfolding absorb
absorb-none node c found g e = rw e refl

-- The block `b` leaves the list; the others stay as they are.
record Leaves (g : Heap) (xs : List ℕ) (b : ℕ) (zs : List ℕ) : Type 0 where
  distinct : Distinct zs
  blocks : All (IsFree g) zs
  separate : Separate g.size zs
  apart : Apart g.size b (bytes g b) zs
  conserved : total g.size zs + bytes g b ≡ total g.size xs
  others : (a n : ℕ) → Apart g.size a n xs → Apart g.size a n zs

leave :
    (g : Heap) (xs : List ℕ) (b : ℕ) → IsValid g xs → Member b xs → Leaves g xs b (replace b [] xs)
leave g xs b v m =
    let d = (IsValid-Distinct g xs v).1 in
    let fr = nothing_fresh xs in
    let blocks = All-replace (IsFree g) (IsFree g) b [] xs (λ x ne a u. u) tt d m fr v.blocks in
    let separate =
      Separate-replace g.size g.size b (bytes g b) [] (omega arith) tt tt (λ y n a. refl) xs m d fr
        v.separate in
    record {
      distinct = Distinct-Separate g (replace b [] xs) blocks separate;
      blocks = blocks;
      separate = separate;
      apart =
          taken-Apart g.size g.size b (bytes g b) [] (omega arith) tt tt (λ y n a. refl) xs m d fr
            v.separate;
      conserved =
          total-replace g.size g.size b (bytes g b) [] (omega arith) tt tt (λ y n a. refl) xs m d fr
          ∙ omega arith;
      others = λ a n o.
          Apart-replace g.size g.size b (bytes g b) [] (omega arith) tt tt (λ y n a. refl) a n xs m
            d fr o;
    }

absorbed-Merges :
    (g : Heap) (xs : List ℕ) (node p c : ℕ)
    → IsValid g xs
    → Member node xs
    → c ≡ node + bytes g node
    → Precedes p c 0 xs
    → Merges g xs Anywhere 0 (absorbed node c p g) (replace c [] xs)
absorbed-Merges g xs node p c v m e q =
    let mc = (Precedes-Member p c 0 xs q).0 in
    let f = All-Member (IsFree g) node xs v.blocks m in
    let fc = All-Member (IsFree g) c xs v.blocks mc in
    let w = leave g xs c v mc in
    let u =
      grown-Merges g (absorbed node c p g) node (bytes g c) f v.small (omega arith)
        (omega (arith, fc.below, e)) refl refl refl refl (replace c [] xs)
        (Chain-whole g.link p c 0 xs q (IsValid-Distinct g xs v) v.chain) w.distinct w.blocks
        w.separate (Member-replace node c [] xs (λ z. omega (arith, f.big, e, z)) m)
        (subst (λ y. Apart g.size y (bytes g c) (replace c [] xs)) e w.apart) in
    record {
      valid = u.valid;
      conserved = omega (arith, u.conserved, w.conserved);
      others =
          λ a n l t o. u.others a n l (ground (arith, e, All-Member _ c xs o mc)) (w.others a n o);
    }

-- Where `node` is a free block, `coalesce` ends with a valid heap.
pub coalesce-Merges :
    (g : Heap) (xs : List ℕ) (node fuel : ℕ)
    → IsValid g xs
    → Member node xs
    → length xs < fuel
    → (t : Heap) × (coalesce fuel node g ≡ some t) × (ys : List ℕ) × Merges g xs Anywhere 0 t ys
unfolding coalesce
coalesce-Merges g xs node fuel v m l =
    let next = add32 node (g.size node) in
    let f = All-Member (IsFree g) node xs v.blocks m in
    let u = find_link-LinkTo g fuel next 0 xs l v.chain in
    let e : next ≡ node + bytes g node = ground (arith, f.unflagged, f.below, v.small) in
    elim (Bool-cases (leb g.end next)) [
      | inl t ↦ (g, rw t refl, xs, Merges-refl g xs v)
      | inr t ↦
          elim (Bool-cases
            (g.size next == 0 || (is_alloc (g.size next) || not (g.magic next == 0)))) [
              | inl s ↦ (g, rw (t, s) refl, xs, Merges-refl g xs v)
              | inr s ↦ elim (ℕ_discrete u.found.1 0) [
                | yes z ↦ (
                  g,
                  rw (t, s, u.ends) (ap some (absorb-none node next u.found g z)),
                  xs,
                  Merges-refl g xs v,
                )
                | no z ↦ (
                  absorbed node next u.found.0 g,
                  rw (t, s, u.ends) (ap some (absorb-absorbed node next u.found g z)),
                  replace next [] xs,
                  absorbed-Merges g xs node u.found.0 next v m e (u.linked z),
                )
              ]
            ]
    ]
