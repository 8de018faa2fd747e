-- ===== src/Heap/Init.antt =====
-- `init` of kernel/kernel/Heap.cc makes one free block of the memory it is given.
use doors.Base.{ℕ, ◌+◌, ◌%◌, ◌≤◌, ◌<◌, ◌≡◌, ◌≢◌, ◌⊎◌, arith, [], ◌∷◌, u32_mod, sub32, add32}
use doors.Heap.{Heap, init, align_up}
use doors.Heap.BestFit.{bytes}
use doors.Heap.Apart.{total}
use doors.Heap.Valid.{IsValid}

align_up-block :
    (n : ℕ)
    → n + 15 < u32_mod
    → (n ≤ align_up n 16) × (align_up n 16 % 16 ≡ 0) × (align_up n 16 < n + 16)
unfolding align_up
align_up-block n h = (ground arith, ground arith, ground arith)

-- init of memory that is not at address 0, has more than 16 bytes and ends more than 30 bytes
-- before 4 GiB makes a valid heap with one free block that holds all its bytes; the heap begins no
-- earlier than the memory and ends no earlier, and it ends later than the memory if the address or
-- the size is no multiple of 16.
pub init-IsValid :
    (memory size : ℕ) (h : Heap)
    → memory ≢ 0
    → 16 < size
    → memory + size + 30 < u32_mod
    → IsValid (init memory size h) ((init memory size h).start ∷ [])
      × (total (init memory size h).size ((init memory size h).start ∷ [])
          ≡ sub32 (init memory size h).end (init memory size h).start)
      × (memory ≤ (init memory size h).start)
      × (memory + size ≤ (init memory size h).end)
      × ((memory % 16 ≢ 0) ⊎ (size % 16 ≢ 0) → memory + size < (init memory size h).end)
unfolding init
init-IsValid memory size h ne k l =
    let u = align_up-block memory (omega arith) in
    let w = align_up-block size (omega arith) in
    let e : add32 (align_up memory 16) (align_up size 16) ≡ align_up memory 16 + align_up size 16 =
      omega arith in
    let d : sub32 (align_up memory 16 + align_up size 16) (align_up memory 16) ≡ align_up size 16 =
      omega arith in
    let b : bytes (init memory size h) (align_up memory 16) ≡ align_up size 16 =
      rw (e, d) (ground arith) in
    (
      record {
        chain = (ground arith, omega arith, ground arith);
        separate = (tt, tt);
        blocks = (
          record {
            above = omega arith;
            big = omega arith;
            below = omega arith;
            unflagged = rw (e, d) (ground arith);
            unmarked = ground arith;
          },
          tt,
        );
        small = omega arith;
      },
      omega arith,
      omega arith,
      omega arith,
      λ q. ground arith,
    )
