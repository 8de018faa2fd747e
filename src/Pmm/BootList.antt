-- ===== src/Pmm/BootList.antt =====
-- The state that `addMemoryMapPages` of kernel/kernel/Pmm.cc leaves satisfies the invariant, and its
-- free list holds the usable pages of the memory map.
use doors.Base.{
  subst, sym, ℕ, zero, suc, ◌+◌, ◌-◌, ◌*◌, ◌/◌, ◌%◌, ◌≤◌, ◌<◌, ◌≡◌, ◌^◌, List, [], ◌∷◌, arith, All,
  u32_mod, keep_if, Bool, true, ◌==◌, Bool-cases, inl, inr, ◌⊎◌,
}
use doors.Pmm.{Pmm, page_size, max_frames}
use doors.Pmm.Boot.{
  MmapEntry, ModuleRange, add_entry, add_entries, raise_highest, clear_ref_counts,
  add_memory_map_pages, is_reserved,
}
use doors.Pmm.Idle.{Frames, Inv, Idle}
use doors.Pmm.MemoryMap.{
  pages, push_all, usable, Outside, Listed, first_page, past_page, entry_pages, Disjoint, Apart,
  usable_pages, push_all-append, add_entry-Listed,
}
use doors.Pmm.Walks.{page_down}

All-keep_if {κ} :
    (P : ℕ → Type κ) (test : ℕ → Bool) (xs : List ℕ) → All P xs → All P (keep_if test xs)
All-keep_if P test [] h = tt
All-keep_if P test (x ∷ xs) h = elim (Bool-cases (test x)) [
  | inl t ↦ rw t (h.0, All-keep_if P test xs h.1)
  | inr t ↦ rw t (All-keep_if P test xs h.1)
]

All-push_all {κ} : (P : ℕ → Type κ) (ys xs : List ℕ) → All P ys → All P xs → All P (push_all ys xs)
All-push_all P [] xs h k = k
All-push_all P (y ∷ ys) xs h k = All-push_all P ys (y ∷ xs) h.1 (h.0, k)

-- The pages of one range avoid another range.
pages-Outside :
    (n addr lo hi : ℕ)
    → (hi ≤ addr) ⊎ ((addr + n * page_size ≤ lo) ⊎ (n ≡ 0))
    → Outside lo hi (pages n addr)
pages-Outside zero addr lo hi h = tt
pages-Outside (suc n) addr lo hi h =
    (omega arith, pages-Outside n (addr + page_size) lo hi (omega arith))

pages-below :
    (n addr hi : ℕ) → (addr + n * page_size ≤ hi) ⊎ (n ≡ 0) → All (λ x. x < hi) (pages n addr)
pages-below zero addr hi h = tt
pages-below (suc n) addr hi h = (omega arith, pages-below n (addr + page_size) hi (omega arith))

entry_pages-Outside :
    (e d : MmapEntry)
    → (past_page e ≤ first_page d) ⊎ (past_page d ≤ first_page e)
    → Outside (first_page d) (past_page d) (entry_pages e)
entry_pages-Outside e d h = elim (Bool-cases (e.type == 1)) [
  | inl t ↦ rw t (
      pages-Outside ((past_page e - first_page e) / page_size) (first_page e) (first_page d)
        (past_page d) (omega arith))
  | inr t ↦ rw t tt
]

abbrev Below : ℕ → List ℕ → Type 0
Below hi = All (λ x. x < hi)

Below-later : (hi hi' : ℕ) (xs : List ℕ) → hi ≤ hi' → Below hi xs → Below hi' xs
Below-later hi hi' [] h b = tt
Below-later hi hi' (x ∷ xs) h b = (omega arith, Below-later hi hi' xs h b.1)

raise_highest-le : (e : MmapEntry) (highest : ℕ) → highest ≤ raise_highest e highest
unfolding raise_highest
raise_highest-le e highest = ground arith

past_page-le : (x : ℕ) → page_down x ≤ x
unfolding page_down
past_page-le x = omega arith

past_page-le-raise_highest :
    (e : MmapEntry) (highest : ℕ) → (e.type == 1) ≡ true → past_page e ≤ raise_highest e highest
unfolding raise_highest
past_page-le-raise_highest e highest t =
    ground (arith, past_page-le (((e.addr + e.len) % 2 ^ 64) % u32_mod))

entry_pages-Below : (e : MmapEntry) (highest : ℕ) → Below (raise_highest e highest) (entry_pages e)
entry_pages-Below e highest = elim (Bool-cases (e.type == 1)) [
  | inl t ↦ rw t (
      pages-below ((past_page e - first_page e) / page_size) (first_page e)
        (raise_highest e highest) (omega (arith, past_page-le-raise_highest e highest t)))
  | inr t ↦ rw t tt
]

abbrev Avoids : List ℕ → List MmapEntry → Type 0
Avoids xs = All (λ d. Outside (first_page d) (past_page d) xs)

module _ (reserved : ℕ → Bool) where
  abbrev after_entry : MmapEntry → List ℕ → List ℕ
  after_entry e = push_all (keep_if (usable reserved) (entry_pages e))

  after_entry-Avoids :
      (e : MmapEntry) (es : List MmapEntry) (xs : List ℕ)
      → Disjoint e es
      → Avoids xs es
      → Avoids (after_entry e xs) es
  after_entry-Avoids e [] xs h a = tt
  after_entry-Avoids e (d ∷ es) xs h a = (
    All-push_all (λ x. (x < first_page d) ⊎ (past_page d ≤ x))
        (keep_if (usable reserved) (entry_pages e)) xs
        (All-keep_if _ (usable reserved) (entry_pages e) (entry_pages-Outside e d h.0)) a.0,
    after_entry-Avoids e es xs h.1 a.1,
  )

  add_entries-Listed :
      (es : List MmapEntry) (highest : ℕ) (p : Pmm) (xs : List ℕ)
      → Apart es
      → Avoids xs es
      → Below highest xs
      → Listed p xs
      → Listed (add_entries reserved es highest p).0 (push_all (usable_pages reserved es) xs)
        × Below (add_entries reserved es highest p).1 (push_all (usable_pages reserved es) xs)
  unfolding add_entries
  add_entries-Listed [] highest p xs h a b v = (v, b)
  add_entries-Listed (e ∷ es) highest p xs h a b v =
      rw (push_all-append (keep_if (usable reserved) (entry_pages e)) (usable_pages reserved es) xs)
        (add_entries-Listed es (raise_highest e highest) (add_entry reserved e p) (after_entry e xs)
          h.1 (after_entry-Avoids e es xs h.0 a.1)
          (All-push_all _ (keep_if (usable reserved) (entry_pages e)) xs
            (All-keep_if _ (usable reserved) (entry_pages e) (entry_pages-Below e highest))
            (Below-later highest (raise_highest e highest) xs (raise_highest-le e highest) b))
          (add_entry-Listed reserved e p xs a.0 v))

Idle-clear :
    (p : Pmm) (highest : ℕ) (xs : List ℕ)
    → highest ≤ u32_mod - page_size
    → Frames max_frames xs
    → Below highest xs
    → Idle (clear_ref_counts highest p).ref_counts (clear_ref_counts highest p).max_frame_idx xs
unfolding clear_ref_counts
Idle-clear p highest [] h f b = tt
Idle-clear p highest (x ∷ xs) h f b =
    (((f.0.0, ground arith), ground arith), Idle-clear p highest xs h f.1 b.1)

clear_ref_counts-Inv :
    (p : Pmm) (highest : ℕ) (xs : List ℕ)
    → highest ≤ u32_mod - page_size
    → Listed p xs
    → Below highest xs
    → Inv (clear_ref_counts highest p) xs
unfolding clear_ref_counts
clear_ref_counts-Inv p highest xs h v b = record {
  chain = v.valid.chain;
  distinct = v.valid.distinct;
  counted = v.valid.counted;
  idle = unfold clear_ref_counts in Idle-clear p highest xs h v.frames b;
  frames = ground arith;
}

-- From an empty free list, and a memory map whose entries cover no page twice and end below the
-- last page of 4 GiB, addMemoryMapPages builds a free list of exactly the whole pages of the
-- usable entries outside the kernel and all modules and not at address 0; it has no duplicates,
-- freeCount_ is its length, and each frame is below maxFrameIdx_ with count 0.
pub add_memory_map_pages-Inv :
    (kernel_end : ℕ) (modules : List ModuleRange) (mmap : List MmapEntry) (p : Pmm)
    → p.link 0 ≡ 0
    → p.free_count ≡ 0
    → Apart mmap
    → (add_entries (is_reserved kernel_end modules) mmap 0 p).1 ≤ u32_mod - page_size
    → Inv
        (add_memory_map_pages kernel_end modules mmap p)
        (push_all (usable_pages (is_reserved kernel_end modules) mmap) [])
unfolding add_memory_map_pages
add_memory_map_pages-Inv kernel_end modules mmap p e c h k =
    let l =
      add_entries-Listed (is_reserved kernel_end modules) mmap 0 p [] h (nowhere mmap) tt empty in
    clear_ref_counts-Inv _ _ _ k l.0 l.1
  where
    nowhere : (es : List MmapEntry) → Avoids [] es
    nowhere [] = tt
    nowhere (d ∷ es) = (tt, nowhere es)

    empty : Listed p []
    empty = record {
      valid = record { chain = e; distinct = (tt, tt); counted = c; small = omega arith };
      frames = tt;
    }

add_entry_low :
    (reserved : ℕ → Bool) (e : MmapEntry) (p : Pmm)
    → e.addr + u32_mod + e.len < 2 ^ 64
    → add_entry reserved (record e { addr = e.addr + u32_mod }) p ≡ add_entry reserved e p
unfolding add_entry
add_entry_low reserved e p h =
    let low : (e.addr + u32_mod) % u32_mod ≡ e.addr % u32_mod = omega arith in
    let high : ((e.addr + u32_mod + e.len) % 2 ^ 64) % u32_mod
        ≡ ((e.addr + e.len) % 2 ^ 64) % u32_mod =
      omega arith in
    rw (low, high)

-- A memory map entry 4 GiB higher up, with no overflow of 64 bits, leaves the same state as the
-- entry with its low 32 bits: on a free list that is in order and has none of the pages of the low
-- entry, every page of the low entry that is neither reserved nor page 0 is pushed, from the first
-- to the last, if the entry is of the usable type, and none if not.
pub add_entry-above :
    (reserved : ℕ → Bool) (e : MmapEntry) (p : Pmm)
    → e.addr + u32_mod + e.len < 2 ^ 64
    → (xs : List ℕ) → Listed p xs
    → Outside (first_page e) (past_page e) xs
    → (add_entry reserved (record e { addr = e.addr + u32_mod }) p ≡ add_entry reserved e p)
      × Listed
          (add_entry reserved (record e { addr = e.addr + u32_mod }) p)
          (push_all (keep_if (usable reserved) (entry_pages e)) xs)
add_entry-above reserved e p h xs v o =
    let same = add_entry_low reserved e p h in
    (
      same,
      subst (λ q. Listed q (push_all (keep_if (usable reserved) (entry_pages e)) xs)) (sym same)
          (add_entry-Listed reserved e p xs o v),
    )
