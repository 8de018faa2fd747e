-- ===== src/RingBuffer/Newest.antt =====
-- The ring buffer of kernel/include/kernel/RingBuffer.h holds the newest items, as many as it has
-- slots.
use doors.Base.{
  ℕ, zero, suc, ◌+◌, ◌-◌, ◌%◌, ◌≤◌, ◌<◌, ◌≡◌, refl, ap, subst, ◌∙◌, arith, false, some, List, [],
  ◌∷◌, length, ◌==◌, if◌then◌else◌, update, update_self, update_ne, ℕ_discrete, ltb,
}
use native.Mathlib.Nat.{mod-eq_of_lt, mod_self}
use doors.RingBuffer.{RingBuffer, empty, push, latest, size}

-- The slot of the item that was pushed `i` items before the newest.
abbrev slot : ℕ → ℕ → ℕ → ℕ
slot n head i = if ltb i head then head - (i + 1) else head + n - (i + 1)

next : (h n : ℕ) → h < n → (h + 1) % n ≡ (if h + 1 == n then 0 else h + 1)
next h n l = elim (ℕ_discrete (h + 1) n) [
  | yes e ↦ rw e (mod_self n ∙ ground arith)
  | no ne ↦ mod-eq_of_lt (omega arith) ∙ ground arith
]

slot-newest : (n h : ℕ) → h < n → slot n ((h + 1) % n) 0 ≡ h
slot-newest n h l = rw (next h n l) (ground arith)

slot-next : (n h i : ℕ) → h < n → suc i < n → slot n ((h + 1) % n) (suc i) ≡ slot n h i
slot-next n h i l k = rw (next h n l) (ground arith)

module _ {ℓ} {A : Type ℓ} where
  abbrev pub take : ℕ → List A → List A
  take zero xs = []
  take (suc n) [] = []
  take (suc n) (x ∷ xs) = x ∷ take n xs

  abbrev Stored : (ℕ → A) → ℕ → ℕ → ℕ → List A → Type ℓ
  Stored buffer n head i [] = Unit
  Stored buffer n head i (x ∷ xs) = (buffer (slot n head i) ≡ x) × Stored buffer n head (suc i) xs

  -- The buffer of `n` slots holds `xs`, the newest first.
  pub record Holds (n : ℕ) (r : RingBuffer A) (xs : List A) : Type ℓ where
    pub counted : r.count ≡ length xs
    pub bound : length xs ≤ n
    pub head_bound : r.head < n
    pub tail_slot :
        r.tail ≡ (if ltb r.head (length xs) then r.head + n - length xs else r.head - length xs)
    pub stored : Stored r.buffer n r.head 0 xs

  Stored-push :
      (buffer : ℕ → A) (n h i : ℕ) (x : A) (xs : List A)
      → h < n
      → i + length xs < n
      → Stored buffer n h i xs
      → Stored (update buffer h x) n ((h + 1) % n) (suc i) xs
  Stored-push buffer n h i x [] l k s = tt
  Stored-push buffer n h i x (y ∷ ys) l k s = (
    ap (update buffer h x) (slot-next n h i l (omega arith))
        ∙ update_ne buffer h (slot n h i) x (ground arith)
        ∙ s.0,
    Stored-push buffer n h (suc i) x ys l (omega arith) s.1,
  )

  Stored-take :
      (buffer : ℕ → A) (n h i k : ℕ) (xs : List A)
      → Stored buffer n h i xs
      → Stored buffer n h i (take k xs)
  Stored-take buffer n h i zero xs s = tt
  Stored-take buffer n h i (suc k) [] s = tt
  Stored-take buffer n h i (suc k) (x ∷ xs) s = (s.0, Stored-take buffer n h (suc i) k xs s.1)

  length-take :
      (k : ℕ) (xs : List A) → length (take k xs) ≡ (if ltb k (length xs) then k else length xs)
  length-take zero xs = ground arith
  length-take (suc k) [] = ground arith
  length-take (suc k) (x ∷ xs) = ground (arith, length-take k xs)

  take-take : (k : ℕ) (xs : List A) → take k (take (suc k) xs) ≡ take k xs
  take-take zero xs = refl
  take-take (suc k) [] = refl
  take-take (suc k) (x ∷ xs) = ap (λ ys. x ∷ ys) (take-take k xs)

  push-Holds :
      (n : ℕ) (r : RingBuffer A) (x : A) (xs : List A)
      → Holds n r xs
      → Holds n (push n x r) (take n (x ∷ xs))
  unfolding push
  push-Holds zero r x xs v = absurd (omega (arith, v.head_bound))
  push-Holds (suc k) r x xs v =
      let c : length (take k xs) ≡ (if ltb k (length xs) then k else length xs) =
        length-take k xs in
      let h = next r.head (suc k) v.head_bound in
      let full : length xs ≡ suc k → (r.tail + 1) % suc k ≡ (r.head + 1) % suc k =
        λ e. ap (λ t. (t + 1) % suc k) (ground (arith, v.tail_slot, v.head_bound)) in
      record {
        counted = ground (arith, v.counted, v.bound, c);
        bound = ground (arith, c);
        head_bound = ground (arith, h, v.head_bound);
        tail_slot = ground (arith, v.counted, v.bound, v.head_bound, v.tail_slot, c, h, full);
        stored = (
          ap (update r.buffer r.head x) (slot-newest (suc k) r.head v.head_bound)
              ∙ update_self r.buffer r.head x,
          Stored-push r.buffer (suc k) r.head 0 x (take k xs) v.head_bound (ground (arith, c))
              (Stored-take r.buffer (suc k) r.head 0 k xs v.stored),
        );
      }

  -- All pushes, the newest first.
  abbrev pub push_all : ℕ → List A → RingBuffer A → RingBuffer A
  push_all n [] r = r
  push_all n (x ∷ xs) r = push n x (push_all n xs r)

  push_all-Holds :
      (n : ℕ) (d : A) (xs : List A) → 0 < n → Holds n (push_all n xs (empty d)) (take n xs)
  push_all-Holds (suc k) d [] l = record {
    counted = refl;
    bound = omega arith;
    head_bound = omega arith;
    tail_slot = refl;
    stored = tt;
  }
  push_all-Holds zero d xs l = absurd (omega arith)
  push_all-Holds (suc k) d (x ∷ xs) l =
      let u =
        push-Holds (suc k) (push_all (suc k) xs (empty d)) x (take (suc k) xs)
          (push_all-Holds (suc k) d xs l) in
      subst (Holds (suc k) (push_all (suc k) (x ∷ xs) (empty d)))
        (ap (λ ys. x ∷ ys) (take-take k xs)) u

  latest-Holds :
      (n : ℕ) (r : RingBuffer A) (x : A) (xs : List A) → Holds n r (x ∷ xs) → latest n r ≡ some x
  unfolding latest
  latest-Holds n r x xs v =
      let idx : (if r.head == 0 then n - 1 else r.head - 1) ≡ slot n r.head 0 = ground arith in
      let some_count : (r.count == 0) ≡ false = ground (arith, v.counted) in
      rw (some_count, idx) (ap some v.stored.0)

  -- After any pushes, one at least, into an empty ring buffer of one slot or more, latest returns
  -- the item pushed last, size is the number of pushes or of slots, whichever is less, and the
  -- buffer holds exactly the newest items in the slots behind its head, with its tail at the
  -- oldest.
  pub push_all-latest :
      (n : ℕ) (d x : A) (xs : List A)
      → 0 < n
      → (latest n (push_all n (x ∷ xs) (empty d)) ≡ some x)
        × (size (push_all n (x ∷ xs) (empty d)) ≡ length (take n (x ∷ xs)))
        × Holds n (push_all n (x ∷ xs) (empty d)) (take n (x ∷ xs))
  push_all-latest zero d x xs l = absurd (omega arith)
  push_all-latest (suc k) d x xs l =
      let u = push_all-Holds (suc k) d (x ∷ xs) l in
      (latest-Holds (suc k) (push_all (suc k) (x ∷ xs) (empty d)) x (take k xs) u, u.counted, u)
