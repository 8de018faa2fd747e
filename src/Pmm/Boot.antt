-- ===== src/Pmm/Boot.antt =====
-- `Pmm::init` of kernel/kernel/Pmm.cc: the free list is built from the memory map that the boot
-- loader hands over. The multiboot structures in memory are read into lists: `mmap` holds the
-- entries that the loop over `mmap_addr` visits, `mods` the module descriptors.
use doors.Base.{
  ℕ, zero, suc, ◌+◌, ◌/◌, ◌%◌, ◌^◌, List, [], ◌∷◌, Bool, ◌&&◌, ◌||◌, any_of, Option, ltb, leb, ◌==◌,
  if◌then◌else◌, add32, sub32, u32_mod, ℤ, pos, negsuc, to_int32, pos_part,
}
use doors.Pmm.{Pmm, page_size, max_frames, max_module_ranges, free_frame_fast}
use doors.Pmm.Walks.{page_up, page_down, reserve_frame}

pub record Module : Type 0 where
  pub mod_start : ℕ
  pub mod_end : ℕ

-- A memory map entry: `addr` and `len` have 64 bits.
pub record MmapEntry : Type 0 where
  pub type : ℕ
  pub addr : ℕ
  pub len : ℕ

pub record MultibootInfo : Type 0 where
  pub flags : ℕ
  pub mods_count : ℕ
  pub mods : ℕ → Module
  pub mmap : List MmapEntry

pub record ModuleRange : Type 0 where
  pub start : ℕ
  pub end : ℕ

abbrev pub kernel_start : ℕ
kernel_start = 0x100000

-- The module loop, from module `i` on.
unfoldable pub cache_modules : (ℕ → Module) → ℕ → ℕ → Pmm → Pmm
cache_modules mods zero i p = p
cache_modules mods (suc n) i p = cache_modules mods n (i + 1) (record p {
  module_phys_start = λ j. if j == i then (mods i).mod_start else p.module_phys_start j;
  module_phys_size =
      λ j. if j == i then sub32 (mods i).mod_end (mods i).mod_start else p.module_phys_size j;
})

-- `count > MAX_MODULE_RANGES` on an `int`.
unfoldable pub clamp_modules : ℤ → ℤ
clamp_modules (pos n) = if ltb max_module_ranges n then pos max_module_ranges else pos n
clamp_modules (negsuc n) = negsuc n

unfoldable pub cache_module_info : MultibootInfo → Pmm → Pmm
unfolding cache_modules clamp_modules
cache_module_info mbi p =
    let count = clamp_modules (to_int32 mbi.mods_count) in
    if mbi.flags / 8 % 2 == 0
    then p
    else cache_modules mbi.mods (pos_part count) 0 (record p { module_count = count })

-- `n` more ranges, from module `i` on.
unfoldable pub module_ranges : ℕ → ℕ → Pmm → List ModuleRange
unfolding page_up page_down
module_ranges zero i p = []
module_ranges (suc n) i p =
    record {
      start = page_down (p.module_phys_start i);
      end = page_up (add32 (p.module_phys_start i) (p.module_phys_size i));
    }
    ∷ module_ranges n (i + 1) p

unfoldable pub collect_module_ranges : Pmm → List ModuleRange
unfolding module_ranges
collect_module_ranges p = module_ranges (pos_part p.module_count) 0 p

-- Pages of the kernel and of modules are not handed out.
unfoldable pub is_reserved : ℕ → List ModuleRange → ℕ → Bool
is_reserved kernel_end modules a =
    (leb kernel_start a && ltb a kernel_end) || any_of (λ m. leb m.start a && ltb a m.end) modules

-- The loop over the pages of one entry; there are at most `max_frames` pages below 4 GiB.
unfoldable pub add_pages : ℕ → (ℕ → Bool) → ℕ → ℕ → Pmm → Pmm
add_pages zero reserved addr end p = p
add_pages (suc fuel) reserved addr end p =
    let added = if reserved addr then p else free_frame_fast addr p in
    let rest = add_pages fuel reserved (add32 addr page_size) end added in
    if ltb addr end then rest else p

-- The addresses of an entry are cut to 32 bits.
unfoldable pub add_entry : (ℕ → Bool) → MmapEntry → Pmm → Pmm
add_entry reserved e p =
    if e.type == 1
    then add_pages max_frames reserved (page_up (e.addr % u32_mod))
        (page_down (((e.addr + e.len) % 2 ^ 64) % u32_mod)) p
    else p

unfoldable pub raise_highest : MmapEntry → ℕ → ℕ
raise_highest e highest =
    let end32 = ((e.addr + e.len) % 2 ^ 64) % u32_mod in
    if e.type == 1 then (if ltb highest end32 then end32 else highest) else highest

unfoldable pub add_entries : (ℕ → Bool) → List MmapEntry → ℕ → Pmm → Pmm × ℕ
add_entries reserved [] highest p = (p, highest)
add_entries reserved (e ∷ es) highest p =
    add_entries reserved es (raise_highest e highest) (add_entry reserved e p)

-- `maxFrameIdx_` and the clearing of the counts below it.
unfoldable pub clear_ref_counts : ℕ → Pmm → Pmm
clear_ref_counts highest p =
    let wanted = sub32 (add32 highest page_size) 1 / page_size in
    let frames = if ltb max_frames wanted then max_frames else wanted in
    record p {
      max_frame_idx = frames;
      ref_counts = λ i. if ltb i frames then 0 else p.ref_counts i;
    }

unfoldable pub add_memory_map_pages : ℕ → List ModuleRange → List MmapEntry → Pmm → Pmm
add_memory_map_pages kernel_end modules mmap p =
    let (q, highest) = add_entries (is_reserved kernel_end modules) mmap 0 p in
    clear_ref_counts highest q

-- The VGA frame is reserved last.
unfoldable pub init : ℕ → ℕ → MultibootInfo → Pmm → Option Pmm
unfolding cache_module_info collect_module_ranges add_memory_map_pages reserve_frame
init fuel kernel_end mbi p =
    let q = cache_module_info mbi p in
    reserve_frame fuel 0xB8000
      (add_memory_map_pages kernel_end (collect_module_ranges q) mbi.mmap q)
