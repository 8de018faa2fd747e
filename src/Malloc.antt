-- ===== src/Malloc.antt =====
-- `malloc` and `free` of user programs, libc++/stdlib/malloc.cc. The free list is kept by links, as
-- in Heap: `link 0` is the variable `freeList`, and a null `prev` is the place of the list head.
-- The address of the pool and the alignment of `max_align_t`, a power of two, are parameters. The
-- walk takes fuel, a round for each node and one for the end.
pub mod FirstFit
mod Tests
use doors.Base.{
  ℕ, zero, suc, ◌-◌, ◌/◌, ◌*◌, Bool, true, Option, none, some, leb, ◌==◌, if◌then◌else◌, add32,
  sub32, update,
}

abbrev pub pool_size : ℕ
pool_size = 16384

-- `sizeof(Header)`
abbrev pub header_bytes : ℕ
header_bytes = 8

pub record Malloc : Type 0 where
  pub initialized : Bool
  pub link : ℕ → ℕ
  pub size : ℕ → ℕ

unfoldable pub init_pool : ℕ → Malloc → Malloc
init_pool pool m = if m.initialized then m else record {
  initialized = true;
  link = update (update m.link 0 pool) pool 0;
  size = update m.size pool (pool_size - header_bytes);
}

-- The bytes that a request needs, with the wrap-around of 32 bits.
unfoldable pub needed_bytes : ℕ → ℕ → ℕ
needed_bytes align size = add32 header_bytes (sub32 (add32 size align) 1 / align * align)

-- The first block from `curr` on that is large enough, 0 where there is none, and the place that
-- links to it.
unfoldable pub find_first : Malloc → ℕ → ℕ → ℕ → ℕ → Option (ℕ × ℕ)
find_first m zero needed prev curr = none
find_first m (suc fuel) needed prev curr =
    let rest = find_first m fuel needed curr (m.link curr) in
    if curr == 0
    then some (curr, prev)
    else if leb needed (m.size curr)
    then some (curr, prev)
    else rest

unfoldable pub unlink_first : ℕ × ℕ → Malloc → Malloc × ℕ
unlink_first found m =
    if found.0 == 0
    then (m, 0)
    else (record m { link = update m.link found.1 (m.link found.0) }, add32 found.0 header_bytes)

-- The search and what follows, in an initialized state.
unfoldable pub take_first : ℕ → ℕ → Malloc → Option (Malloc × ℕ)
unfolding unlink_first
take_first fuel needed m = elim (find_first m fuel needed 0 (m.link 0)) [
  | none ↦ none
  | some found ↦ some (unlink_first found m)
]

-- The new state and the address of the user's bytes.
unfoldable pub malloc : ℕ → ℕ → ℕ → ℕ → Malloc → Option (Malloc × ℕ)
unfolding init_pool needed_bytes take_first
malloc fuel pool align size m =
    if size == 0 then some (m, 0) else take_first fuel (needed_bytes align size) (init_pool pool m)

unfoldable pub free_bytes : ℕ → Malloc → Malloc
free_bytes ptr m =
    let hdr = sub32 ptr header_bytes in
    if ptr == 0 then m else record m { link = update (update m.link hdr (m.link 0)) 0 hdr }
