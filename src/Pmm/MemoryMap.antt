-- ===== src/Pmm/MemoryMap.antt =====
-- The free list that `addMemoryMapPages` of kernel/kernel/Pmm.cc builds from the memory map.
use doors.Base.{
  ℕ, zero, suc, ◌+◌, ◌-◌, ◌*◌, ◌/◌, ◌%◌, ◌≤◌, ◌<◌, ◌≡◌, ◌≢◌, ◌^◌, refl, sym, ap, subst, List, [],
  ◌∷◌, ◌++◌, arith, Absent, All, u32_mod, keep_if, Bool, true, not, ◌&&◌, ◌==◌, Bool-cases, inl,
  inr, if◌then◌else◌, ◌⊎◌,
}
use doors.Pmm.{Pmm, page_size, max_frames, free_frame_fast}
use doors.Pmm.Walks.{page_up, page_down}
use doors.Pmm.Boot.{MmapEntry, add_pages, add_entry}
use doors.Pmm.Chain.{IsValid}
use doors.Pmm.Frames.{push_frame-IsValid}
use doors.Pmm.Idle.{IsFrame, Frames, length-Frames}

-- The addresses of `n` pages from `addr` on.
abbrev pub pages : ℕ → ℕ → List ℕ
pages zero addr = []
pages (suc n) addr = addr ∷ pages n (addr + page_size)

-- Pushing one after the other.
abbrev pub push_all : List ℕ → List ℕ → List ℕ
push_all [] xs = xs
push_all (y ∷ ys) xs = push_all ys (y ∷ xs)

abbrev pub usable : (ℕ → Bool) → ℕ → Bool
usable reserved a = not (reserved a) && not (a == 0)

-- No listed frame lies from `lo` up to `hi`.
abbrev pub Outside : ℕ → ℕ → List ℕ → Type 0
Outside lo hi = All (λ x. (x < lo) ⊎ (hi ≤ x))

-- A valid free list of frames of the first 4 GiB.
pub record Listed (p : Pmm) (xs : List ℕ) : Type 0 where
  pub valid : IsValid p xs
  pub frames : Frames max_frames xs

Outside-Absent : (lo hi : ℕ) (xs : List ℕ) → lo < hi → Outside lo hi xs → Absent lo xs
Outside-Absent lo hi [] h o = tt
Outside-Absent lo hi (x ∷ xs) h o = (omega arith, Outside-Absent lo hi xs h o.1)

Outside-later : (lo lo' hi : ℕ) (xs : List ℕ) → lo ≤ lo' → Outside lo hi xs → Outside lo' hi xs
Outside-later lo lo' hi [] h o = tt
Outside-later lo lo' hi (x ∷ xs) h o = (omega arith, Outside-later lo lo' hi xs h o.1)

free_frame_fast-Listed :
    (a : ℕ) (p : Pmm) (xs : List ℕ)
    → a ≢ 0
    → IsFrame max_frames a
    → Absent a xs
    → Listed p xs
    → Listed (free_frame_fast a p) (a ∷ xs)
unfolding free_frame_fast
free_frame_fast-Listed a p xs h f b v =
    subst (λ q. Listed q (a ∷ xs)) (ground arith)
      (record {
        valid =
            push_frame-IsValid a p xs
              (record {
                not_null = h;
                absent = b;
                room = omega (arith, length-Frames max_frames xs v.valid.distinct.1 v.frames);
              })
              v.valid;
        frames = (f, v.frames);
      })

free_frame_fast-null : (a : ℕ) (p : Pmm) → (a == 0) ≡ true → free_frame_fast a p ≡ p
unfolding free_frame_fast
free_frame_fast-null a p z = rw z

-- One round of the page loop.
module _ (reserved : ℕ → Bool) where
  abbrev pub added : ℕ → Pmm → Pmm
  added a p = if reserved a then p else free_frame_fast a p

  abbrev pub listed : ℕ → List ℕ → List ℕ
  listed a xs = if usable reserved a then a ∷ xs else xs

  added-Listed :
      (a : ℕ) (p : Pmm) (xs : List ℕ)
      → IsFrame max_frames a
      → Absent a xs
      → Listed p xs
      → Listed (added a p) (listed a xs)
  added-Listed a p xs f b v = elim (Bool-cases (reserved a)) [
    | inl t ↦ rw t v
    | inr t ↦ elim (Bool-cases (a == 0)) [
      | inl z ↦ rw (t, z) (subst (λ q. Listed q xs) (sym (free_frame_fast-null a p z)) v)
      | inr z ↦ rw (t, z) (free_frame_fast-Listed a p xs (ground arith) f b v)
    ]
  ]

  push_all-listed :
      (n addr : ℕ) (xs : List ℕ)
      → push_all (keep_if (usable reserved) (pages n (addr + page_size))) (listed addr xs)
        ≡ push_all (keep_if (usable reserved) (pages (suc n) addr)) xs
  push_all-listed n addr xs = elim (Bool-cases (usable reserved addr)) [
    | inl t ↦ rw t
    | inr t ↦ rw t
  ]

  listed-Outside :
      (addr end : ℕ) (xs : List ℕ)
      → Outside addr end xs
      → Outside (addr + page_size) end (listed addr xs)
  listed-Outside addr end xs o = elim (Bool-cases (usable reserved addr)) [
    | inl t ↦ rw t (omega arith, Outside-later addr (addr + page_size) end xs (omega arith) o)
    | inr t ↦ rw t (Outside-later addr (addr + page_size) end xs (omega arith) o)
  ]

  add_pages-stop :
      (fuel addr end : ℕ) (p : Pmm) → end ≤ addr → add_pages fuel reserved addr end p ≡ p
  unfolding add_pages
  add_pages-stop zero addr end p h = refl
  add_pages-stop (suc fuel) addr end p h = ground arith

  add_pages_step :
      (fuel addr end : ℕ) (p : Pmm)
      → addr < end
      → end < u32_mod
      → end % page_size ≡ 0
      → addr % page_size ≡ 0
      → add_pages (suc fuel) reserved addr end p
        ≡ add_pages fuel reserved (addr + page_size) end (added addr p)
  unfolding add_pages
  add_pages_step fuel addr end p h b a c =
      ground (arith, ap (λ x. add_pages fuel reserved x end (added addr p)))

  -- With fuel for each page the loop pushes the usable pages, from the first to the last.
  pub add_pages-Listed :
      (fuel n addr end : ℕ) (p : Pmm) (xs : List ℕ)
      → n ≤ fuel
      → n * page_size ≡ end - addr
      → addr % page_size ≡ 0
      → end % page_size ≡ 0
      → end < u32_mod
      → Outside addr end xs
      → Listed p xs
      → Listed
          (add_pages fuel reserved addr end p)
          (push_all (keep_if (usable reserved) (pages n addr)) xs)
  add_pages-Listed fuel zero addr end p xs f e a b c o v =
      subst (λ q. Listed q xs) (sym (add_pages-stop fuel addr end p (omega arith))) v
  add_pages-Listed zero (suc n) addr end p xs f e a b c o v = absurd (omega arith)
  add_pages-Listed (suc fuel) (suc n) addr end p xs f e a b c o v =
      subst (λ q. Listed q (push_all (keep_if (usable reserved) (pages (suc n) addr)) xs))
        (sym (add_pages_step fuel addr end p (omega arith) c b a))
        (subst (λ ys. Listed (add_pages fuel reserved (addr + page_size) end (added addr p)) ys)
          (push_all-listed n addr xs)
          (add_pages-Listed fuel n (addr + page_size) end (added addr p) (listed addr xs)
            (omega arith) (omega arith) (omega arith) b c (listed-Outside addr end xs o)
            (added-Listed addr p xs (omega arith) (Outside-Absent addr end xs (omega arith) o) v)))

-- The pages that an entry of the memory map covers, as far as the code reads its addresses.
abbrev pub first_page : MmapEntry → ℕ
first_page e = page_up (e.addr % u32_mod)

abbrev pub past_page : MmapEntry → ℕ
past_page e = page_down (((e.addr + e.len) % 2 ^ 64) % u32_mod)

abbrev pub entry_pages : MmapEntry → List ℕ
entry_pages e =
    if e.type == 1 then pages ((past_page e - first_page e) / page_size) (first_page e) else []

-- No two entries cover the same page.
abbrev pub Disjoint : MmapEntry → List MmapEntry → Type 0
Disjoint e = All (λ d. (past_page e ≤ first_page d) ⊎ (past_page d ≤ first_page e))

abbrev pub Apart : List MmapEntry → Type 0
Apart [] = Unit {0}
Apart (e ∷ es) = Disjoint e es × Apart es

abbrev pub usable_pages : (ℕ → Bool) → List MmapEntry → List ℕ
usable_pages reserved [] = []
usable_pages reserved (e ∷ es) =
    keep_if (usable reserved) (entry_pages e) ++ usable_pages reserved es

pub page_up_bounds : (x : ℕ) → (page_up x % page_size ≡ 0) × (page_up x < u32_mod)
unfolding page_up page_down
page_up_bounds x = omega arith

pub page_down_bounds :
    (x : ℕ) → x < u32_mod → (page_down x % page_size ≡ 0) × (page_down x < u32_mod)
unfolding page_down
page_down_bounds x h = omega arith

pub push_all-append : (ys zs xs : List ℕ) → push_all (ys ++ zs) xs ≡ push_all zs (push_all ys xs)
push_all-append [] zs xs = refl
push_all-append (y ∷ ys) zs xs = push_all-append ys zs (y ∷ xs)

module _ (reserved : ℕ → Bool) where
  pub add_entry-Listed :
      (e : MmapEntry) (p : Pmm) (xs : List ℕ)
      → Outside (first_page e) (past_page e) xs
      → Listed p xs
      → Listed (add_entry reserved e p) (push_all (keep_if (usable reserved) (entry_pages e)) xs)
  unfolding add_entry
  add_entry-Listed e p xs o v = elim (Bool-cases (e.type == 1)) [
    | inl t ↦
        rw (t, add_entry)
          (add_pages-Listed reserved max_frames ((past_page e - first_page e) / page_size)
            (first_page e) (past_page e) p xs
            (omega (arith, page_up_bounds (e.addr % u32_mod), page_down_bounds _ (ends e)))
            (omega (arith, page_up_bounds (e.addr % u32_mod), page_down_bounds _ (ends e)))
            (page_up_bounds (e.addr % u32_mod)).0 (page_down_bounds _ (ends e)).0
            (page_down_bounds _ (ends e)).1 o v)
    | inr t ↦ rw (t, add_entry) v
  ]
    where
      ends : (e : MmapEntry) → ((e.addr + e.len) % 2 ^ 64) % u32_mod < u32_mod
      ends e = omega arith
