-- ===== src/Pmm.antt =====
-- The physical memory manager, kernel/kernel/Pmm.cc and kernel/include/kernel/Pmm.h: the state, the
-- reference counts, and the operations on single frames. An address is a number, 0 is `nullptr`.
-- The free list is kept as the code keeps it, by `next` words inside the free frames: `link a` is
-- the first word of the frame at `a`, and `link 0` stands for the variable `freeList_`, so that a
-- `FreeFrame **` is the number whose `link` it points to.
pub mod Walks
pub mod Boot
pub mod Chain
pub mod Frames
pub mod Idle
pub mod Ownership
pub mod Unlink
pub mod Reserve
pub mod MemoryMap
pub mod BootList
pub mod Steps
pub mod Saturation
mod Tests
use doors.Base.{
  Outcome, done, panic, ℕ, ◌+◌, ◌-◌, ◌/◌, ◌*◌, ◌%◌, Bool, true, false, ◌||◌, Option, none, some,
  ltb, leb, ◌==◌, if◌then◌else◌, add32, sub32, u32_mod, update, ℤ, pos, negsuc,
}

abbrev pub page_size : ℕ
page_size = 4096

abbrev pub max_refcount : ℕ
max_refcount = 255

abbrev pub max_module_ranges : ℕ
max_module_ranges = 16

abbrev pub max_frames : ℕ
max_frames = 1048576

pub record Pmm : Type 0 where
  pub link : ℕ → ℕ
  pub free_count : ℕ
  pub alloc_count : ℕ
  pub high_water_frames : ℕ
  pub free_total_count : ℕ
  pub module_phys_start : ℕ → ℕ
  pub module_phys_size : ℕ → ℕ
  pub module_count : ℤ
  pub ref_counts : ℕ → ℕ
  pub max_frame_idx : ℕ

-- `frame->next = freeList_; freeList_ = frame; ++freeCount_;`
unfoldable pub push_frame : ℕ → Pmm → Pmm
push_frame a p = record p {
  link = update (update p.link a (p.link 0)) 0 a;
  free_count = add32 p.free_count 1;
}

unfoldable pub free_frame_fast : ℕ → Pmm → Pmm
free_frame_fast a p = if a == 0 then p else push_frame a p

-- The index of the count of a frame, `none` where the code returns `nullptr`.
unfoldable pub ref_count_entry : Pmm → ℕ → Option ℕ
ref_count_entry p a = let pfn = a / page_size in if leb p.max_frame_idx pfn then none else some pfn

unfoldable pub set_ref_count : ℕ → ℕ → Pmm → Pmm
set_ref_count i v p = record p { ref_counts = update p.ref_counts i v }

-- `if (auto *e = refCountEntry(a)) { *e = 1; }`
unfoldable pub init_ref_count : ℕ → Pmm → Pmm
init_ref_count a p = elim (ref_count_entry p a) [ none ↦ p | some i ↦ set_ref_count i 1 p ]

unfoldable pub raise_high_water : Pmm → Pmm
raise_high_water p =
    let in_use = sub32 p.alloc_count p.free_total_count in
    if ltb p.high_water_frames in_use then record p { high_water_frames = in_use } else p

-- Pops the head of the free list; clearing the frame also clears its first word.
unfoldable pub pop_frame : ℕ → Pmm → Pmm
pop_frame f p = record p {
  link = update (update p.link 0 (p.link f)) f 0;
  free_count = sub32 p.free_count 1;
  alloc_count = add32 p.alloc_count 1;
}

unfoldable pub alloc_frame : Pmm → Pmm × ℕ
alloc_frame p =
    let f = p.link 0 in
    if f == 0 then (p, 0) else (init_ref_count f (raise_high_water (pop_frame f p)), f)

-- The release that follows when the count has reached 0.
unfoldable pub release_frame : ℕ → Pmm → Pmm
release_frame a p =
    let q = push_frame a p in record q { free_total_count = add32 q.free_total_count 1 }

-- `--*e` on a count that is not 0, and what follows.
unfoldable pub drop_ref : ℕ → ℕ → Pmm → Outcome Pmm
drop_ref a i p =
    let left = p.ref_counts i - 1 in
    if p.ref_counts i == 0
    then panic
    else done
        (if ltb 0 left then set_ref_count i left p else release_frame a (set_ref_count i left p))

unfoldable pub free_frame : ℕ → Pmm → Outcome Pmm
free_frame a p =
    if a == 0
    then done p
    else elim (ref_count_entry p a) [ none ↦ done p | some i ↦ drop_ref a i p ]

unfoldable pub add_ref : ℕ → Pmm → Pmm
add_ref a p = elim (ref_count_entry p a) [
  | none ↦ p
  | some i ↦ if ltb (p.ref_counts i) max_refcount then set_ref_count i (p.ref_counts i + 1) p else p
]

-- The flag says that the count reached 0; the caller then frees the frame by `free_frame_fast`.
unfoldable pub remove_ref : ℕ → Pmm → Outcome (Pmm × Bool)
remove_ref a p = elim (ref_count_entry p a) [
  | none ↦ done (p, false)
  | some i ↦
      let left = p.ref_counts i - 1 in
      let q = set_ref_count i left p in
      if p.ref_counts i == 0
      then panic
      else done (
          if left == 0
          then (record q { free_total_count = add32 q.free_total_count 1 }, true)
          else (q, false))
]

unfoldable pub ref_count : ℕ → Pmm → ℕ
unfolding ref_count_entry
ref_count a p = elim (ref_count_entry p a) [ none ↦ 0 | some i ↦ p.ref_counts i ]

-- `idx < 0 || idx >= moduleCount_`, where `moduleCount_` may be negative.
unfoldable pub module_out_of_range : ℤ → ℤ → Bool
module_out_of_range (negsuc i) c = true
module_out_of_range (pos i) (pos c) = leb c i
module_out_of_range (pos i) (negsuc c) = true

module_word : (ℕ → ℕ) → ℤ → ℕ
module_word words (pos i) = words i
module_word words (negsuc i) = 0

unfoldable pub module_phys_start_of : ℤ → Pmm → ℕ
unfolding module_out_of_range module_word
module_phys_start_of idx p =
    if module_out_of_range idx p.module_count then 0 else module_word p.module_phys_start idx

unfoldable pub module_phys_size_of : ℤ → Pmm → ℕ
unfolding module_out_of_range module_word
module_phys_size_of idx p =
    if module_out_of_range idx p.module_count then 0 else module_word p.module_phys_size idx

unfoldable pub max_phys_addr : Pmm → ℕ
max_phys_addr p = (p.max_frame_idx * page_size) % u32_mod

unfoldable pub is_bad_phys_addr : ℕ → Pmm → Bool
unfolding max_phys_addr
is_bad_phys_addr phys p = phys == 0 || leb (max_phys_addr p) phys
