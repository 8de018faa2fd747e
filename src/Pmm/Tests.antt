-- ===== src/Pmm/Tests.antt =====
-- Runs of the physical memory manager, and the theorems about it at concrete inputs.
use mathlib.Core.Option
use doors.Base.{
  ◌/◌, ◌*◌, u32_mod, keep_if, ℕ, ◌+◌, ◌≡◌, refl, List, [], ◌∷◌, pos, some, Option, arith, leb, ltb,
  ◌&&◌, ◌==◌, if◌then◌else◌, update, false,
}
use doors.Pmm.{Pmm, alloc_frame, free_frame, add_ref, ref_count, free_frame_fast, push_frame}
use doors.Pmm.Walks.{reserve_region, reserve_walk, page_up, page_down}
use doors.Pmm.Boot.{
  MmapEntry, clear_ref_counts, add_pages, MultibootInfo, init, add_memory_map_pages, is_reserved,
  add_entry, add_entries, raise_highest,
}
use doors.Pmm.Idle.{Inv}
use doors.Pmm.Ownership.{
  alloc_frame-Inv, free_frame-Frees, Frees, remove_then_free, remove_then_free-free_frame,
}
use doors.Pmm.Unlink.{Filters, reserve_region-Filters}
use doors.Pmm.MemoryMap.{push_all, usable_pages, usable, entry_pages, Listed}
use doors.Pmm.BootList.{add_memory_map_pages-Inv, add_entry-above}
use doors.Pmm.Steps.{Counters, Balanced, History-Balanced, start, then_step, refers, allocates}
use doors.Pmm.Saturation.{add_refs, saturated, ref_count-add_refs}

-- The state before `init`.
abbrev zeroed : Pmm
zeroed = record {
  link = λ a. 0;
  free_count = 0;
  alloc_count = 0;
  high_water_frames = 0;
  free_total_count = 0;
  module_phys_start = λ i. 0;
  module_phys_size = λ i. 0;
  module_count = pos 0;
  ref_counts = λ i. 0;
  max_frame_idx = 0;
}

-- 640 KiB of low memory, cut to two pages, and three pages above 1 MiB of which the first belongs
-- to the kernel and the third to a module.
abbrev boot_info : MultibootInfo
boot_info = record {
  flags = 8;
  mods_count = 1;
  mods = λ i. record { mod_start = 0x102000; mod_end = 0x102010 };
  mmap =
      record { type = 1; addr = 0; len = 0x2000 }
      ∷ record { type = 2; addr = 0x8000; len = 0x2000 }
      ∷ record { type = 1; addr = 0x100000; len = 0x3000 }
      ∷ [];
}

booted : Option (ℕ × ℕ × ℕ × ℕ)
booted =
    Option.map (λ q. (q.link 0, q.link 0x101000, q.free_count, q.max_frame_idx))
      (init 10 0x101000 boot_info zeroed)

init_boot_info : booted ≡ some (0x101000, 0x1000, 2, 0x103)
unfolding booted init reserve_walk free_frame_fast push_frame clear_ref_counts add_entries add_entry
    add_pages is_reserved raise_highest
init_boot_info = refl

-- Frames 5 and 2 are free, frame 3 has one reference and frame 4 has two.
abbrev two_free : Pmm
two_free = record zeroed {
  link = λ a. if a == 0 then 0x5000 else if a == 0x5000 then 0x2000 else 0;
  free_count = 2;
  alloc_count = 2;
  high_water_frames = 2;
  ref_counts = λ i. if i == 3 then 1 else if i == 4 then 2 else 0;
  max_frame_idx = 8;
}

abbrev two : List ℕ
two = 0x5000 ∷ 0x2000 ∷ []

two_free-Inv : Inv two_free two
two_free-Inv = record {
  chain = omega arith;
  distinct = omega arith;
  counted = refl;
  idle = omega arith;
  frames = omega arith;
}

two_free-Counters : Counters two_free
two_free-Counters = omega arith

alloc_frame-Inv_example :
    ((alloc_frame two_free).1 ≡ 0x5000)
    × Inv (alloc_frame two_free).0 (0x2000 ∷ [])
    × (ref_count 0x5000 two_free ≡ 0)
    × ((alloc_frame two_free).0.ref_counts ≡ update two_free.ref_counts 5 1)
alloc_frame-Inv_example = alloc_frame-Inv two_free 0x5000 (0x2000 ∷ []) two_free-Inv

free_frame-Frees_example : Frees two_free 0x3000 two 1 (free_frame 0x3000 two_free)
free_frame-Frees_example =
    free_frame-Frees two_free 0x3000 1 two (omega arith) (omega arith) refl two_free-Inv

remove_then_free_example : remove_then_free 0x3000 two_free ≡ free_frame 0x3000 two_free
remove_then_free_example = remove_then_free-free_frame two_free 0x3000 (omega arith)

reserve_region_example :
    Filters
      (λ a. leb ((0x1001 + 4095) / 4096 * 4096) a && ltb a (0x3fff / 4096 * 4096))
      two_free
      two
      (reserve_region 5 0x1001 0x3fff two_free)
reserve_region_example =
    reserve_region-Filters two_free two 5 0x1001 0x3fff (omega arith) two_free-Inv (omega arith)

add_memory_map_pages-Inv_example :
    Inv
      (add_memory_map_pages 0x101000 [] boot_info.mmap zeroed)
      (push_all (usable_pages (is_reserved 0x101000 []) boot_info.mmap) [])
unfolding page_up page_down raise_highest add_entries
add_memory_map_pages-Inv_example =
    add_memory_map_pages-Inv 0x101000 [] boot_info.mmap zeroed refl refl (omega arith) (omega arith)

abbrev low_entry : MmapEntry
low_entry = record { type = 1; addr = 0x3000; len = 0x2000 }

zeroed-Listed : Listed zeroed []
zeroed-Listed = record {
  valid = record { chain = refl; distinct = omega arith; counted = refl; small = omega arith };
  frames = omega arith;
}

add_entry-above_example :
    (add_entry (λ a. false) (record low_entry { addr = 0x3000 + u32_mod }) zeroed
      ≡ add_entry (λ a. false) low_entry zeroed)
    × Listed
        (add_entry (λ a. false) (record low_entry { addr = 0x3000 + u32_mod }) zeroed)
        (push_all (keep_if (usable (λ a. false)) (entry_pages low_entry)) [])
add_entry-above_example =
    add_entry-above (λ a. false) low_entry zeroed (omega arith) [] zeroed-Listed tt

History-Balanced_example : Balanced two_free (alloc_frame (add_ref 0x4000 two_free)).0
History-Balanced_example =
    History-Balanced two
      (then_step (then_step start (refers 0x4000 two_free (omega arith) (omega arith)))
        (allocates (add_ref 0x4000 two_free)))
      two_free-Inv two_free-Counters

ref_count-add_refs_example :
    ref_count 0x4000 (add_refs 300 0x4000 two_free) ≡ saturated (ref_count 0x4000 two_free + 300)
ref_count-add_refs_example = ref_count-add_refs 300 0x4000 two_free (omega arith) (omega arith)
