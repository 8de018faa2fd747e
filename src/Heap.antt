-- ===== src/Heap.antt =====
-- The kernel heap, kernel/kernel/Heap.cc: the state, the free list and allocation. An address is a
-- number and 0 is `nullptr`; the words of the headers are stores, indexed by the address of the
-- header. `link a` is `next` of the node at `a` and `link 0` the variable `freeList_`, so that
-- `prev`, null in front of the first node, is the place to write to in both cases. A walk takes
-- fuel, a round for each node and one for the end, and gives `none` when it runs out.
pub mod Release
pub mod BestFit
pub mod Replace
pub mod Apart
pub mod Valid
pub mod BlockSize
pub mod Carve
pub mod Alloc
pub mod Init
pub mod Found
pub mod Grow
pub mod Merge
pub mod Coalesce
pub mod FreeAgain
pub mod Freed
mod Tests
use doors.Base.{
  ℕ, zero, suc, ◌+◌, ◌-◌, ◌/◌, ◌*◌, ◌%◌, Bool, true, ◌&&◌, ◌||◌, Option, none, some, ltb, leb, ◌==◌,
  if◌then◌else◌, add32, sub32, u32_mod, update,
}

abbrev pub block_align : ℕ
block_align = 16

abbrev pub min_block : ℕ
min_block = 32

-- `sizeof(Header)`
abbrev pub header_size : ℕ
header_size = 16

abbrev pub heap_magic : ℕ
heap_magic = 0x48455041

abbrev pub size_max : ℕ
size_max = u32_mod - 1

pub record Heap : Type 0 where
  pub ready : Bool
  pub start : ℕ
  pub end : ℕ
  pub link : ℕ → ℕ
  pub size : ℕ → ℕ
  pub magic : ℕ → ℕ

-- `a` is a power of two, so that `& ~mask` rounds down to a multiple of it.
unfoldable pub align_up : ℕ → ℕ → ℕ
align_up n a = if ltb (size_max - (a - 1)) n then size_max else (n + (a - 1)) / a * a

-- Bit 0, `ALLOC_FLAG`, is set in the size of an allocated block.
abbrev pub is_alloc : ℕ → Bool
is_alloc v = v % 2 == 1

abbrev pub raw_size : ℕ → ℕ
raw_size v = v / 2 * 2

-- `size | ALLOC_FLAG`
abbrev pub with_flag : ℕ → ℕ
with_flag v = raw_size v + 1

unfoldable pub init : ℕ → ℕ → Heap → Heap
unfolding align_up
init memory bytes h =
    let first = align_up memory block_align in
    let past = add32 first (align_up bytes block_align) in
    record {
      ready = true;
      start = first;
      end = past;
      link = update (update h.link first 0) 0 first;
      size = update h.size first (sub32 past first);
      magic = update h.magic first 0;
    }

-- The bytes of a block for a request of `size` bytes, `none` where the code gives up.
unfoldable pub needed_for : ℕ → Option ℕ
unfolding align_up
needed_for size =
    let aligned = align_up size 4 in
    let whole = header_size + aligned in
    if size == 0
    then none
    else if aligned == size_max || ltb (size_max - header_size) aligned
    then none
    else some (align_up (if ltb whole min_block then min_block else whole) block_align)

-- The search, from the node `curr` behind `prev`: the best block and the place that links to it, 0
-- for the block where none fits.
unfoldable pub find_best : Heap → ℕ → ℕ → ℕ → ℕ → ℕ → ℕ → Option (ℕ × ℕ)
find_best h zero needed prev curr best best_prev = none
find_best h (suc fuel) needed prev curr best best_prev =
    let free_size = raw_size (h.size curr) in
    let as_before = find_best h fuel needed curr (h.link curr) best best_prev in
    let with_curr = find_best h fuel needed curr (h.link curr) curr prev in
    if curr == 0
    then some (best, best_prev)
    else if leb needed free_size && (best == 0 || ltb free_size (raw_size (h.size best)))
    then (if free_size == needed then some (curr, prev) else with_curr)
    else as_before

-- Splits the block: the front is allocated, the rest takes its place on the free list.
unfoldable pub split_block : ℕ → ℕ → ℕ → Heap → Heap
split_block needed best best_prev h =
    let remaining = add32 best needed in
    let residual = sub32 (raw_size (h.size best)) needed in
    record h {
      link = update (update h.link remaining (h.link best)) best_prev remaining;
      size = update (update h.size remaining residual) best (with_flag needed);
      magic = update (update h.magic remaining 0) best heap_magic;
    }

-- Hands over the whole block.
unfoldable pub whole_block : ℕ → ℕ → Heap → Heap
whole_block best best_prev h = record h {
  link = update h.link best_prev (h.link best);
  size = update h.size best (with_flag (h.size best));
  magic = update h.magic best heap_magic;
}

unfoldable pub take_block : ℕ → ℕ → ℕ → Heap → Heap × ℕ
unfolding split_block whole_block
take_block needed best best_prev h =
    let taken =
      if leb min_block (sub32 (raw_size (h.size best)) needed)
      then split_block needed best best_prev h
      else whole_block best best_prev h in
    if best == 0 then (h, 0) else (taken, add32 best header_size)

-- The new state and the address of the user's bytes.
unfoldable pub alloc : ℕ → ℕ → Heap → Option (Heap × ℕ)
unfolding needed_for take_block
alloc fuel size h = elim (needed_for size) [
  | none ↦ some (h, 0)
  | some needed ↦ elim (find_best h fuel needed 0 (h.link 0) 0 0) [
    | none ↦ none
    | some b ↦ some (take_block needed b.0 b.1 h)
  ]
]

abbrev total_mem : Heap → ℕ
total_mem h = sub32 h.end h.start
