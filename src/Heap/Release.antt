-- ===== src/Heap/Release.antt =====
-- `free` of kernel/kernel/Heap.cc, which merges the block with its free neighbours, and the walks
-- that measure the free list.
use doors.Base.{
  ℕ, zero, suc, ◌||◌, not, Option, none, some, ltb, leb, ◌==◌, if◌then◌else◌, add32, sub32, update,
}
use doors.Heap.{Heap, is_alloc, raw_size, header_size, heap_magic}

unfoldable pub add_to_free_list : ℕ → Heap → Heap
add_to_free_list node h = record h {
  link = update (update h.link node (h.link 0)) 0 node;
  magic = update h.magic node 0;
}

unfoldable pub remove_from_free_list : ℕ → ℕ → Heap → Heap
remove_from_free_list target prev h = record h { link = update h.link prev (h.link target) }

-- The place that links to `target` and what it links to, 0 where `target` is not on the list.
unfoldable pub find_link : Heap → ℕ → ℕ → ℕ → ℕ → Option (ℕ × ℕ)
find_link h zero target prev curr = none
find_link h (suc fuel) target prev curr =
    let rest = find_link h fuel target curr (h.link curr) in
    if curr == 0 || curr == target then some (prev, curr) else rest

unfoldable pub absorb : ℕ → ℕ → ℕ × ℕ → Heap → Heap
unfolding remove_from_free_list
absorb node next found h =
    let out = remove_from_free_list next found.0 h in
    if found.1 == 0 then h else record out {
      size = update out.size node (add32 (out.size node) (raw_size (out.size next)));
    }

-- Merges the free block behind `node` into it.
unfoldable pub coalesce : ℕ → ℕ → Heap → Option Heap
unfolding absorb
coalesce fuel node h =
    let next = add32 node (h.size node) in
    if leb h.end next
    then some h
    else if h.size next == 0 || (is_alloc (h.size next) || not (h.magic next == 0))
    then some h
    else elim (find_link h fuel next 0 (h.link 0)) [
      | none ↦ none
      | some found ↦ some (absorb node next found h)
    ]

-- The free block that ends where `node` begins, 0 where there is none.
unfoldable pub find_before : Heap → ℕ → ℕ → ℕ → Option ℕ
find_before h zero node curr = none
find_before h (suc fuel) node curr =
    let rest = find_before h fuel node (h.link curr) in
    if curr == 0 || add32 curr (raw_size (h.size curr)) == node then some curr else rest

unfoldable pub release : ℕ → ℕ → Heap → Option Heap
unfolding add_to_free_list coalesce
release fuel node h =
    let cleared = record h {
      size = update h.size node (raw_size (h.size node));
      magic = update h.magic node 0;
    } in
    elim (find_before cleared fuel node (cleared.link 0)) [
      | none ↦ none
      | some before ↦
          let grown = record cleared {
            size = update cleared.size before (add32 (cleared.size before) (cleared.size node));
          } in
          if before == 0
          then coalesce fuel node (add_to_free_list node cleared)
          else coalesce fuel before grown
    ]

unfoldable pub free : ℕ → ℕ → Heap → Option Heap
unfolding release
free fuel ptr h =
    let node = sub32 ptr header_size in
    if ptr == 0
    then some h
    else if not (is_alloc (h.size node)) || not (h.magic node == heap_magic)
    then some h
    else release fuel node h

unfoldable pub free_from : Heap → ℕ → ℕ → ℕ → Option ℕ
free_from h zero curr total = none
free_from h (suc fuel) curr total =
    let rest = free_from h fuel (h.link curr) (add32 total (raw_size (h.size curr))) in
    if curr == 0 then some total else rest

unfoldable pub free_mem : ℕ → Heap → Option ℕ
unfolding free_from
free_mem fuel h = free_from h fuel (h.link 0) 0

unfoldable pub largest_from : Heap → ℕ → ℕ → ℕ → Option ℕ
largest_from h zero curr largest = none
largest_from h (suc fuel) curr largest =
    let bytes = raw_size (h.size curr) in
    let rest = largest_from h fuel (h.link curr) (if ltb bytes largest then largest else bytes) in
    if curr == 0 then some largest else rest

unfoldable pub largest_free_block : ℕ → Heap → Option ℕ
unfolding largest_from
largest_free_block fuel h = largest_from h fuel (h.link 0) 0
