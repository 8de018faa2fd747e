-- ===== src/Heap/Found.antt =====
-- The walks of `free` in kernel/kernel/Heap.cc end, and find what they look for.
use doors.Base.{
  Chain, ℕ, zero, suc, ◌<◌, ◌≡◌, ◌≢◌, inl, inr, refl, arith, ◌==◌, Bool-cases, List, [], ◌∷◌,
  length, Option, some, Member, add32,
}
use doors.Heap.{Heap, raw_size}
use doors.Heap.BestFit.{Precedes}
use doors.Heap.Release.{find_link, find_before}

-- The link to `target`, or none.
pub record LinkTo (target prev : ℕ) (xs : List ℕ) (o : Option (ℕ × ℕ)) : Type 0 where
  pub found : ℕ × ℕ
  pub ends : o ≡ some found
  pub is_target : found.1 ≢ 0 → found.1 ≡ target
  pub linked : found.1 ≢ 0 → Precedes found.0 target prev xs

pub find_link-LinkTo :
    (h : Heap) (fuel target prev : ℕ) (xs : List ℕ)
    → length xs < fuel
    → Chain h.link prev xs
    → LinkTo target prev xs (find_link h fuel target prev (h.link prev))
unfolding find_link
find_link-LinkTo h zero target prev xs l c = absurd (omega arith)
find_link-LinkTo h (suc fuel) target prev [] l c = record {
  found = (prev, h.link prev);
  ends = ground (arith, c);
  is_target = λ n. absurd (n c);
  linked = λ n. absurd (n c);
}
find_link-LinkTo h (suc fuel) target prev (x ∷ xs) l c =
    let u = find_link-LinkTo h fuel target x xs (omega arith) c.2 in
    elim (Bool-cases (x == target)) [
      | inl t ↦ record {
        found = (prev, x);
        ends = rw c.0 (ground arith);
        is_target = λ n. ground arith;
        linked = λ n. inl (refl, ground arith);
      }
      | inr t ↦ record {
        found = u.found;
        ends = rw c.0 (ground (arith, u.ends, c.1));
        is_target = u.is_target;
        linked = λ n. inr (u.linked n);
      }
    ]

-- The free block that ends at `node`, or none.
pub record EndsAt (h : Heap) (node : ℕ) (xs : List ℕ) (o : Option ℕ) : Type 0 where
  pub found : ℕ
  pub ends : o ≡ some found
  pub member : found ≢ 0 → Member found xs
  pub adjacent : found ≢ 0 → add32 found (raw_size (h.size found)) ≡ node

pub find_before-EndsAt :
    (h : Heap) (fuel node prev : ℕ) (xs : List ℕ)
    → length xs < fuel
    → Chain h.link prev xs
    → EndsAt h node xs (find_before h fuel node (h.link prev))
unfolding find_before
find_before-EndsAt h zero node prev xs l c = absurd (omega arith)
find_before-EndsAt h (suc fuel) node prev [] l c = record {
  found = h.link prev;
  ends = ground (arith, c);
  member = λ n. absurd (n c);
  adjacent = λ n. absurd (n c);
}
find_before-EndsAt h (suc fuel) node prev (x ∷ xs) l c =
    let u = find_before-EndsAt h fuel node x xs (omega arith) c.2 in
    elim (Bool-cases (add32 x (raw_size (h.size x)) == node)) [
      | inl t ↦ record {
        found = x;
        ends = rw c.0 (ground arith);
        member = λ n. inl refl;
        adjacent = λ n. ground arith;
      }
      | inr t ↦ record {
        found = u.found;
        ends = rw c.0 (ground (arith, u.ends, c.1));
        member = λ n. inr (u.member n);
        adjacent = u.adjacent;
      }
    ]
