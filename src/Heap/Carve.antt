-- ===== src/Heap/Carve.antt =====
-- What `alloc` of kernel/kernel/Heap.cc writes when it takes a block, whole or in part.
use doors.Base.{
  Chain, ℕ, ◌+◌, ◌-◌, ◌%◌, ◌≤◌, ◌<◌, ◌≡◌, ◌≢◌, refl, sym, ◌∙◌, arith, true, List, [], ◌∷◌, Member,
  All, Absent, Distinct, u32_mod, sub32, add32,
}
use doors.Heap.{Heap, is_alloc, min_block, header_size, heap_magic, split_block, whole_block}
use doors.Heap.BestFit.{bytes, Precedes}
use doors.Heap.Replace.{replace, Chain-whole, Chain-split, Precedes-Member}
use doors.Heap.Apart.{Separate, total, Separate-replace, taken-Apart, total-replace, All-Member}
use doors.Heap.Valid.{InUse, IsFree, IsValid, IsValid-Distinct, inside-Absent, All-replace}

-- The block `b` was taken for `n` bytes: of the free blocks that are large enough it is a smallest;
-- it is marked, it overlaps no free block, and no byte is lost.
pub record Allocates (h : Heap) (xs : List ℕ) (n b : ℕ) (r : Heap × ℕ) : Type 0 where
  pub member : Member b xs
  pub least : All (λ x. n ≤ bytes h x → bytes h b ≤ bytes h x) xs
  pub address : r.1 ≡ b + header_size
  pub free_list : List ℕ
  pub valid : IsValid r.0 free_list
  pub room : n ≤ bytes r.0 b
  pub in_use : InUse r.0 free_list b
  pub conserved : total r.0.size free_list + bytes r.0 b ≡ total h.size xs

-- The state `t` has the blocks `rs` in place of `b`, of which it has taken the first bytes.
pub record Carves (h t : Heap) (xs : List ℕ) (n b : ℕ) (rs : List ℕ) : Type 0 where
  frame : (t.start ≡ h.start) × (t.end ≡ h.end)
  chain : Chain t.link 0 (replace b rs xs)
  enough : n ≤ bytes t b
  within : bytes t b ≤ bytes h b
  inside : All (λ r. (b + bytes t b ≤ r) × (r + bytes t r ≤ b + bytes h b)) rs
  apart : Separate t.size rs
  same : (y : ℕ) → y ≢ b → Absent y rs → t.size y ≡ h.size y
  same_magic : (y : ℕ) → y ≢ b → Absent y rs → t.magic y ≡ h.magic y
  fresh : All (λ x. Absent x rs) xs
  rests : All (IsFree t) rs
  flagged : is_alloc (t.size b) ≡ true
  marked : t.magic b ≡ heap_magic
  conserved : total t.size rs + bytes t b ≡ bytes h b

pub Carves-Allocates :
    (h t : Heap) (xs : List ℕ) (n b : ℕ) (rs : List ℕ) (a : ℕ)
    → IsValid h xs
    → Member b xs
    → All (λ x. n ≤ bytes h x → bytes h b ≤ bytes h x) xs
    → a ≡ b + header_size
    → min_block ≤ n
    → Carves h t xs n b rs
    → Allocates h xs n b (t, a)
Carves-Allocates h t xs n b rs a v m l e k c =
    let d : Distinct xs = (IsValid-Distinct h xs v).1 in
    let f = All-Member (IsFree h) b xs v.blocks m in
    record {
      member = m;
      least = l;
      address = e;
      free_list = replace b rs xs;
      valid = record {
        chain = c.chain;
        separate =
            Separate-replace h.size t.size b (bytes t b) rs c.within c.inside c.apart c.same xs m d
              c.fresh v.separate;
        blocks =
            All-replace (IsFree h) (IsFree t) b rs xs
              (λ x ne f u. record {
                above = omega (arith, u.above, c.frame.0);
                big = rw (c.same x ne f) u.big;
                below = rw (c.same x ne f, c.frame.1) u.below;
                unflagged = rw (c.same x ne f) u.unflagged;
                unmarked = c.same_magic x ne f ∙ u.unmarked;
              })
              c.rests d m c.fresh v.blocks;
        small = rw c.frame.1 v.small;
      };
      room = c.enough;
      in_use = record {
        above = omega (arith, f.above, c.frame.0);
        big = omega (arith, k, c.enough);
        below = omega (arith, f.below, c.frame.1, c.within);
        flagged = c.flagged;
        marked = c.marked;
        apart =
            taken-Apart h.size t.size b (bytes t b) rs c.within c.inside c.apart c.same xs m d
              c.fresh v.separate;
      };
      conserved = omega (
        arith,
        c.conserved,
        total-replace h.size t.size b (bytes t b) rs c.within c.inside c.apart c.same xs m d
            c.fresh,
      );
    }

pub fits_in : (h : Heap) (b n : ℕ) → h.end < u32_mod → IsFree h b → n ≤ bytes h b → b + n < u32_mod
fits_in h b n s f l = omega (arith, f.below)

Absent-fresh : (r : ℕ) (xs : List ℕ) → Absent r xs → All (λ x. Absent x (r ∷ [])) xs
Absent-fresh r [] a = tt
Absent-fresh r (x ∷ xs) a = ((λ e. a.0 (sym e), tt), Absent-fresh r xs a.1)

pub nothing_fresh : (xs : List ℕ) → All (λ x. Absent x []) xs
nothing_fresh [] = tt
nothing_fresh (x ∷ xs) = (tt, nothing_fresh xs)

pub split-Carves :
    (h : Heap) (xs : List ℕ) (n p b : ℕ)
    → IsValid h xs
    → n % 16 ≡ 0
    → min_block ≤ n
    → n ≤ bytes h b
    → min_block ≤ sub32 (bytes h b) n
    → IsFree h b
    → Precedes p b 0 xs
    → Carves h (split_block n b p h) xs n b ((b + n) ∷ [])
unfolding split_block
split-Carves h xs n p b v u k l g f m =
    let lim = fits_in h b n v.small f l in
    let small : bytes h b < u32_mod = omega (arith, f.below, v.small) in
    let fresh : Absent (b + n) xs =
      inside-Absent h b (b + n) xs (omega arith) (omega arith) (Precedes-Member p b 0 xs m).0
        v.blocks v.separate in
    let e : add32 b n ≡ b + n = omega arith in
    let rest : bytes (split_block n b p h) (b + n) ≡ bytes h b - n = ground arith in
    let taken : bytes (split_block n b p h) b ≡ n = ground arith in
    record {
      frame = (refl, refl);
      chain = rw e (
          Chain-split h.link p b (b + n) 0 xs (omega arith) (λ q. omega arith, fresh) m
            (IsValid-Distinct h xs v) v.chain);
      enough = omega arith;
      within = omega arith;
      inside = ((omega arith, omega arith), tt);
      apart = (tt, tt);
      same = λ y ne a. ground arith;
      same_magic = λ y ne a. ground arith;
      fresh = Absent-fresh (b + n) xs fresh;
      rests = (
        record {
          above = omega (arith, f.above);
          big = omega arith;
          below = omega (arith, f.below);
          unflagged = ground arith;
          unmarked = ground arith;
        },
        tt,
      );
      flagged = ground arith;
      marked = ground arith;
      conserved = omega arith;
    }

pub whole-Carves :
    (h : Heap) (xs : List ℕ) (n p b : ℕ)
    → IsValid h xs
    → n ≤ bytes h b
    → Precedes p b 0 xs
    → Carves h (whole_block b p h) xs n b []
unfolding whole_block
whole-Carves h xs n p b v l m =
    let taken : bytes (whole_block b p h) b ≡ bytes h b = ground arith in
    record {
      frame = (refl, refl);
      chain = Chain-whole h.link p b 0 xs m (IsValid-Distinct h xs v) v.chain;
      enough = omega arith;
      within = omega arith;
      inside = tt;
      apart = tt;
      same = λ y ne a. ground arith;
      same_magic = λ y ne a. ground arith;
      fresh = nothing_fresh xs;
      rests = tt;
      flagged = ground arith;
      marked = ground arith;
      conserved = omega arith;
    }

pub All-map : (P Q : ℕ → Type 0) (xs : List ℕ) → ((x : ℕ) → P x → Q x) → All P xs → All Q xs
All-map P Q [] f h = tt
All-map P Q (x ∷ xs) f h = (f x h.0, All-map P Q xs f h.1)
