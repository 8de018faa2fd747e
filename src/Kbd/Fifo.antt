-- ===== src/Kbd/Fifo.antt =====
-- The ring of characters of kernel/arch/i386/Kbd.cc as a queue of up to 256.
use doors.Base.{
  Bool-cases, inl, inr, ℕ, suc, ◌+◌, ◌%◌, ◌≤◌, ◌<◌, ◌≡◌, ◌≢◌, refl, sym, ap, subst, ◌∙◌, arith,
  Bool, true, false, ◌==◌, List, [], ◌∷◌, ◌++◌, length, update, update_self, update_ne, u32_mod,
  add32,
}
use doors.Kbd.{Kbd, buf_size, push_char, get_char, char_avail}

-- From place `t` on the ring holds `xs`.
abbrev Stored : (ℕ → ℕ) → ℕ → List ℕ → Type 0
Stored buffer t [] = Unit {0}
Stored buffer t (x ∷ xs) = (buffer (t % buf_size) ≡ x) × Stored buffer (t + 1) xs

-- The characters that were pushed and not read, the oldest first.
pub record Holds (k : Kbd) (xs : List ℕ) : Type 0 where
  pub tail_bound : k.tail < u32_mod
  pub counted : k.head ≡ (k.tail + length xs) % u32_mod
  pub bound : length xs ≤ buf_size
  pub stored : Stored k.buffer k.tail xs

Stored-same :
    (buffer : ℕ → ℕ) (t u : ℕ) (xs : List ℕ)
    → t % buf_size ≡ u % buf_size
    → Stored buffer t xs
    → Stored buffer u xs
Stored-same buffer t u [] e h = tt
Stored-same buffer t u (x ∷ xs) e h =
    (ap buffer (sym e) ∙ h.0, Stored-same buffer (t + 1) (u + 1) xs (omega arith) h.1)

Stored-push :
    (buffer : ℕ → ℕ) (t c : ℕ) (xs : List ℕ)
    → length xs < buf_size
    → Stored buffer t xs
    → Stored (update buffer ((t + length xs) % buf_size) c) t (xs ++ (c ∷ []))
Stored-push buffer t c [] h s =
    let e : t % buf_size ≡ (t + 0) % buf_size = omega arith in
    (ap (update buffer ((t + 0) % buf_size) c) e ∙ update_self buffer ((t + 0) % buf_size) c, tt)
Stored-push buffer t c (x ∷ xs) h s =
    let e : (t + suc (length xs)) % buf_size ≡ (t + 1 + length xs) % buf_size = omega arith in
    let n : t % buf_size ≢ (t + suc (length xs)) % buf_size = λ z. omega (arith, z, h) in
    (
      update_ne buffer _ (t % buf_size) c n ∙ s.0,
      subst (λ j. Stored (update buffer j c) (t + 1) (xs ++ (c ∷ []))) (sym e)
          (Stored-push buffer (t + 1) c xs (omega arith) s.1),
    )

length-snoc : (c : ℕ) (xs : List ℕ) → length (xs ++ (c ∷ [])) ≡ suc (length xs)
length-snoc c [] = refl
length-snoc c (x ∷ xs) = ap suc (length-snoc c xs)

-- A character that is pushed while there is room comes last.
pub push_char-Holds :
    (k : Kbd) (c : ℕ) (xs : List ℕ)
    → length xs < buf_size
    → Holds k xs
    → Holds (push_char c k) (xs ++ (c ∷ []))
unfolding push_char
push_char-Holds k c xs h v =
    let l = length-snoc c xs in
    let e : k.head % buf_size ≡ (k.tail + length xs) % buf_size = omega (arith, v.counted) in
    record {
      tail_bound = v.tail_bound;
      counted = omega (arith, v.counted, l);
      bound = omega (arith, l);
      stored = rw e (Stored-push k.buffer k.tail c xs h v.stored);
    }

get_char-Holds :
    (k : Kbd) (x : ℕ) (xs : List ℕ)
    → Holds k (x ∷ xs)
    → ((get_char k).1 ≡ x) × Holds (get_char k).0 xs × (char_avail k ≡ true)
unfolding get_char char_avail
get_char-Holds k x xs v = (
  v.stored.0,
  record {
    tail_bound = omega arith;
    counted = omega (arith, v.counted);
    bound = omega (arith, v.bound);
    stored = Stored-same k.buffer (k.tail + 1) (add32 k.tail 1) xs (omega arith) v.stored.1;
  },
  ground (arith, unequal),
)
  where
    unequal : k.head ≢ k.tail
    unequal = λ e. omega (arith, e, v.counted, v.bound, v.tail_bound)

char_avail-empty : (k : Kbd) → Holds k [] → char_avail k ≡ false
unfolding char_avail
char_avail-empty k v = ground (arith, v.counted, v.tail_bound)

-- What reading finds, by what the ring holds.
abbrev pub Reads : Kbd → List ℕ → Type 0
Reads k [] = char_avail k ≡ false
Reads k (x ∷ xs) = (char_avail k ≡ true) × ((get_char k).1 ≡ x) × Holds (get_char k).0 xs

reads : (k : Kbd) (xs : List ℕ) → Holds k xs → Reads k xs
reads k [] v = char_avail-empty k v
reads k (x ∷ xs) v = let g = get_char-Holds k x xs v in (g.2, g.0, g.1)

-- With 256 unread characters a new one takes the place of the oldest.
push_char-full :
    (k : Kbd) (c : ℕ) (xs : List ℕ)
    → length xs ≡ buf_size
    → Holds k xs
    → (get_char (push_char c k)).1 ≡ c
unfolding get_char push_char
push_char-full k c xs h v =
    let e : k.tail % buf_size ≡ k.head % buf_size = omega (arith, v.counted, h) in
    ap (update k.buffer (k.head % buf_size) c) e ∙ update_self k.buffer (k.head % buf_size) c

-- What a push leaves, by whether the ring is full.
abbrev pub Pushed : Kbd → ℕ → List ℕ → Bool → Type 0
Pushed k c xs true = (get_char (push_char c k)).1 ≡ c
Pushed k c xs false = Holds (push_char c k) (xs ++ (c ∷ []))

-- For a ring that holds up to 256 unread characters: without any, charAvail is false; else it is
-- true, getChar returns the oldest and the ring holds the others. pushChar adds the new character
-- behind them if there are fewer than 256; with 256, getChar then returns the new character in
-- place of the oldest.
pub ring-Holds :
    (k : Kbd) (c : ℕ) (xs : List ℕ)
    → Holds k xs
    → Reads k xs × Pushed k c xs (length xs == buf_size)
ring-Holds k c xs v = elim (Bool-cases (length xs == buf_size)) [
  | inl e ↦ rw e (reads k xs v, push_char-full k c xs (ground arith) v)
  | inr e ↦ rw e (reads k xs v, push_char-Holds k c xs (ground (arith, v.bound)) v)
]
