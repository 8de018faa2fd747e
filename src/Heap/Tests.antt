-- ===== src/Heap/Tests.antt =====
-- The heap at concrete inputs.
use doors.Base.{
  ℕ, ◌+◌, ◌%◌, ◌≤◌, ◌<◌, ◌≡◌, ◌≢◌, ◌⊎◌, refl, inr, List, arith, true, false, some, none, Option, [],
  ◌∷◌, sub32, ◌==◌, if◌then◌else◌,
}
use doors.Heap.{Heap, init, find_best, alloc, header_size}
use doors.Heap.Apart.{total}
use doors.Heap.Valid.{IsValid, InUse}
use doors.Heap.Merge.{Merges}
use doors.Heap.Freed.{free-Merges, Outside}
use doors.Heap.Alloc.{Answer, alloc-Answer}
use doors.Heap.Init.{init-IsValid}
use doors.Heap.FreeAgain.{free-free}
use doors.Heap.Release.{free, free_mem, find_before, find_link, free_from}

abbrev blank : Heap
blank = record { ready = false; start = 0; end = 0; link = λ a. 0; size = λ a. 0; magic = λ a. 0 }

-- 1 KiB at address 4096.
abbrev fresh : Heap
fresh = init 4096 1024 blank

two_taken : Option (Heap × ℕ)
two_taken = elim (alloc 9 100 fresh) [ none ↦ none | some r ↦ alloc 9 40 r.0 ]

address_of : Option (Heap × ℕ) → Option ℕ
address_of o = elim o [ none ↦ none | some r ↦ some r.1 ]

free_of : Option (Heap × ℕ) → Option ℕ
free_of o = elim o [ none ↦ none | some r ↦ free_mem 9 r.0 ]

-- The free bytes after the second block is freed, which merges with the rest.
merged : Option (Heap × ℕ) → Option ℕ
merged o = elim o [
  | none ↦ none
  | some r ↦ elim (free 9 r.1 r.0) [ none ↦ none | some t ↦ free_mem 2 t ]
]

second_block : address_of two_taken ≡ some 4240
unfolding address_of two_taken alloc init find_best
second_block = refl

left_free : free_of two_taken ≡ some 832
unfolding free_of two_taken alloc init find_best free_mem free_from
left_free = refl

merged_free : merged two_taken ≡ some 896
unfolding merged two_taken alloc init find_best free free_mem free_from find_before find_link
merged_free = refl

-- One free block of 1 KiB and a block in use of 64 bytes behind it.
abbrev one_free : Heap
one_free = record {
  ready = true;
  start = 4096;
  end = 5184;
  link = λ a. if a == 0 then 4096 else 0;
  size = λ a. if a == 4096 then 1024 else 65;
  magic = λ a. if a == 4096 then 0 else 0x48455041;
}

one_free-IsValid : IsValid one_free (4096 ∷ [])
one_free-IsValid = record {
  chain = (refl, omega arith, refl);
  separate = (tt, tt);
  blocks = (
    record {
      above = omega arith;
      big = omega arith;
      below = omega arith;
      unflagged = refl;
      unmarked = refl;
    },
    tt,
  );
  small = omega arith;
}

alloc-Answer_example :
    (r : Heap × ℕ) × (alloc 9 100 one_free ≡ some r) × Answer one_free (4096 ∷ []) 100 r
alloc-Answer_example =
    alloc-Answer one_free (4096 ∷ []) 100 9 one_free-IsValid (omega arith) (omega arith)

init-IsValid_example :
    IsValid (init 4100 1000 blank) ((init 4100 1000 blank).start ∷ [])
    × (total (init 4100 1000 blank).size ((init 4100 1000 blank).start ∷ [])
        ≡ sub32 (init 4100 1000 blank).end (init 4100 1000 blank).start)
    × (4100 ≤ (init 4100 1000 blank).start)
    × (4100 + 1000 ≤ (init 4100 1000 blank).end)
    × ((4100 % 16 ≢ 0) ⊎ (1000 % 16 ≢ 0) → 4100 + 1000 < (init 4100 1000 blank).end)
init-IsValid_example = init-IsValid 4100 1000 blank (omega arith) (omega arith) (omega arith)

free-free_example : (t : Heap) × (free 9 5136 one_free ≡ some t) × (free 9 5136 t ≡ some t)
free-free_example =
    free-free one_free (4096 ∷ []) 9 9 5136 one_free-IsValid (omega arith) (omega arith)
      (omega arith)

used-InUse : InUse one_free (4096 ∷ []) (sub32 5136 header_size)
used-InUse = record {
  above = omega arith;
  big = omega arith;
  below = omega arith;
  flagged = refl;
  marked = refl;
  apart = (inr (omega arith), tt);
}

free-Merges_example :
    (t : Heap) × (free 9 5136 one_free ≡ some t)
    × (ys : List ℕ) × Merges one_free (4096 ∷ []) (Outside 5120 64) 64 t ys
free-Merges_example =
    free-Merges one_free (4096 ∷ []) 5136 9 one_free-IsValid used-InUse (omega arith) (omega arith)
      (omega arith)
