-- ===== src/Heap/BlockSize.antt =====
-- The size of a block for a request, in `alloc` of kernel/kernel/Heap.cc.
use doors.Base.{ℕ, ◌+◌, ◌%◌, ◌≤◌, ◌<◌, ◌≡◌, ◌⊎◌, arith, some, u32_mod, if◌then◌else◌, ltb}
use doors.Heap.{min_block, header_size, size_max, align_up, needed_for}

align_up-le : (n : ℕ) → n < u32_mod → (n ≤ align_up n 4) × (n ≤ align_up n 16)
unfolding align_up
align_up-le n h = (ground arith, ground arith)

align_up-multiple : (n : ℕ) → (align_up n 16 % 16 ≡ 0) ⊎ (align_up n 16 ≡ size_max)
unfolding align_up
align_up-multiple n = ground arith

-- The request is refused or `n` is the size of a block for it.
needed_for-some :
    (size n : ℕ)
    → needed_for size ≡ some n
    → (w : ℕ) × (n ≡ align_up w 16)
      × (min_block ≤ w)
      × (header_size + align_up size 4 ≤ w)
      × (w < u32_mod)
unfolding needed_for
needed_for-some size n e =
    let whole = header_size + align_up size 4 in
    (
      if ltb whole min_block then min_block else whole,
      ground arith,
      ground arith,
      ground arith,
      ground arith,
    )

-- What alloc looks for, for a size of 32 bits, has room for the request and a header and is at
-- least 32; it is a multiple of 16, or 2^32 - 1.
pub needed_for_room :
    (size n : ℕ)
    → size < u32_mod
    → needed_for size ≡ some n
    → (size + header_size ≤ n) × (min_block ≤ n) × ((n % 16 ≡ 0) ⊎ (n ≡ size_max))
needed_for_room size n h e =
    let u = needed_for-some size n e in
    (
      omega (arith, u.1, u.2, u.3, align_up-le size h, align_up-le u.0 u.4),
      omega (arith, u.1, u.2, align_up-le u.0 u.4),
      rw u.1 (align_up-multiple u.0),
    )
