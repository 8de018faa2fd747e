-- ===== src/Heap/Valid.antt =====
-- What the free list of kernel/kernel/Heap.cc must satisfy.
use doors.Base.{
  Chain, ℕ, ◌+◌, ◌≤◌, ◌<◌, ◌≡◌, ◌≢◌, inl, inr, sym, arith, true, false, ap, ◌∙◌, ℕ_discrete, List,
  [], ◌∷◌, ◌++◌, Member, All, Absent, Distinct, u32_mod, subst,
}
use doors.Heap.{Heap, is_alloc, min_block, heap_magic}
use doors.Heap.BestFit.{bytes}
use doors.Heap.Replace.{replace, replace-head, replace-tail, Absent-≢}
use doors.Heap.Apart.{Apart, Separate, All-++, All-Member}

-- A block that is free: it has the least size, lies within the heap, and is not marked.
pub record IsFree (h : Heap) (x : ℕ) : Type 0 where
  pub above : h.start ≤ x
  pub big : min_block ≤ bytes h x
  pub below : x + bytes h x ≤ h.end
  pub unflagged : is_alloc (h.size x) ≡ false
  pub unmarked : h.magic x ≡ 0

-- The free list holds the blocks `xs`, which do not overlap.
pub record IsValid (h : Heap) (xs : List ℕ) : Type 0 where
  pub chain : Chain h.link 0 xs
  pub separate : Separate h.size xs
  pub blocks : All (IsFree h) xs
  pub small : h.end < u32_mod

-- The block at `x` is in use and overlaps no free block.
pub record InUse (h : Heap) (xs : List ℕ) (x : ℕ) : Type 0 where
  pub above : h.start ≤ x
  pub big : min_block ≤ bytes h x
  pub below : x + bytes h x ≤ h.end
  pub flagged : is_alloc (h.size x) ≡ true
  pub marked : h.magic x ≡ heap_magic
  pub apart : Apart h.size x (bytes h x) xs

Absent-Chain : (link : ℕ → ℕ) (loc : ℕ) (xs : List ℕ) → Chain link loc xs → Absent 0 xs
Absent-Chain link loc [] c = tt
Absent-Chain link loc (x ∷ xs) c = (λ e. c.1 (sym e), Absent-Chain link x xs c.2)

Absent-Apart :
    (h : Heap) (a n r : ℕ) (xs : List ℕ)
    → a ≤ r
    → r < a + n
    → All (IsFree h) xs
    → Apart h.size a n xs
    → Absent r xs
Absent-Apart h a n r [] l k f s = tt
Absent-Apart h a n r (x ∷ xs) l k f s =
    (λ e. ground (arith, s.0, f.0.big), Absent-Apart h a n r xs l k f.1 s.1)

pub Distinct-Separate :
    (h : Heap) (xs : List ℕ) → All (IsFree h) xs → Separate h.size xs → Distinct xs
Distinct-Separate h [] f s = tt
Distinct-Separate h (x ∷ xs) f s = (
  Absent-Apart h x (bytes h x) x xs (omega arith) (omega (arith, f.0.big)) f.1 s.0,
  Distinct-Separate h xs f.1 s.1,
)

pub IsValid-Distinct : (h : Heap) (xs : List ℕ) → IsValid h xs → Distinct (0 ∷ xs)
IsValid-Distinct h xs v =
    (Absent-Chain h.link 0 xs v.chain, Distinct-Separate h xs v.blocks v.separate)

-- An address within a free block is the address of no other.
pub inside-Absent :
    (h : Heap) (b r : ℕ) (xs : List ℕ)
    → b < r
    → r < b + bytes h b
    → Member b xs
    → All (IsFree h) xs
    → Separate h.size xs
    → Absent r xs
inside-Absent h b r [] l k m f s = tt
inside-Absent h b r (x ∷ xs) l k (inl e) f s = (
  λ q. omega arith,
  Absent-Apart h b (bytes h b) r xs (omega arith) k f.1
      (subst (λ y. Apart h.size y (bytes h y) xs) (sym e) s.0),
)
inside-Absent h b r (x ∷ xs) l k (inr m) f s =
    (λ q. ground (arith, All-Member _ b xs s.0 m, f.0.big), inside-Absent h b r xs l k m f.1 s.1)

pub All-others :
    (P Q : ℕ → Type 0) (b : ℕ) (rs ys : List ℕ)
    → ((x : ℕ) → x ≢ b → Absent x rs → P x → Q x)
    → Absent b ys
    → All (λ x. Absent x rs) ys
    → All P ys
    → All Q ys
All-others P Q b rs [] g a f h = tt
All-others P Q b rs (y ∷ ys) g a f h =
    (g y (λ e. a.0 (sym e)) f.0 h.0, All-others P Q b rs ys g a.1 f.1 h.1)

pub All-replace :
    (P Q : ℕ → Type 0) (b : ℕ) (rs xs : List ℕ)
    → ((x : ℕ) → x ≢ b → Absent x rs → P x → Q x)
    → All Q rs
    → Distinct xs
    → Member b xs
    → All (λ x. Absent x rs) xs
    → All P xs
    → All Q (replace b rs xs)
All-replace P Q b rs [] g q d m f h = absurd m
All-replace P Q b rs (x ∷ xs) g q d (inl e) f h =
    rw (replace-head b x rs xs e)
      (All-++ Q rs xs q (All-others P Q b rs xs g (subst (λ y. Absent y xs) (sym e) d.0) f.1 h.1))
All-replace P Q b rs (x ∷ xs) g q d (inr m) f h =
    let ne = Absent-≢ x b xs d.0 m in
    rw (replace-tail b x rs xs ne) (g x ne f.0 h.0, All-replace P Q b rs xs g q d.1 m f.1 h.1)

-- A block in use is not on the free list.
pub Absent-flagged :
    (h : Heap) (node : ℕ) (xs : List ℕ)
    → is_alloc (h.size node) ≡ true
    → All (IsFree h) xs
    → Absent node xs
Absent-flagged h node [] a f = tt
Absent-flagged h node (x ∷ xs) a f =
    (λ e. ground (arith, ap h.size e, f.0.unflagged), Absent-flagged h node xs a f.1)

pub Member-replace : (y b : ℕ) (rs xs : List ℕ) → y ≢ b → Member y xs → Member y (replace b rs xs)
Member-replace y b rs [] n m = absurd m
Member-replace y b rs (x ∷ xs) n m = elim (ℕ_discrete b x) [
  | yes e ↦
      rw (replace-head b x rs xs e)
        (Member-++ y rs xs (elim m [ inl q ↦ absurd (n (q ∙ sym e)) | inr k ↦ k ]))
  | no ne ↦
      rw (replace-tail b x rs xs (λ e. ne (sym e)))
        (elim m [ inl q ↦ inl q | inr k ↦ inr (Member-replace y b rs xs n k) ])
]
  where
    Member-++ : (y : ℕ) (rs xs : List ℕ) → Member y xs → Member y (rs ++ xs)
    Member-++ y [] xs m = m
    Member-++ y (r ∷ rs) xs m = inr (Member-++ y rs xs m)
