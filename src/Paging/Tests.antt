-- ===== src/Paging/Tests.antt =====
-- Runs of kernel/arch/i386/Paging.cc, and the theorems about it at concrete inputs.
use doors.Base.{
  Outcome, done, ◌>>=◌, ℕ, ◌+◌, ◌≡◌, refl, List, [], ◌∷◌, pos, arith, ◌==◌, if◌then◌else◌, false,
}
use doors.Pmm.{
  page_size, is_bad_phys_addr, alloc_frame, init_ref_count, ref_count_entry, set_ref_count,
  raise_high_water, pop_frame, max_phys_addr, add_ref,
}
use doors.Paging.{
  Paging, map_page, handle_cow_fault, unmap_page, resolve_page_table, ensure_page_table, alloc,
  map_in, drop_entry, entry_of, open_pde, write_word, check_phys_addr,
}
use doors.Paging.Directory.{
  clone_page_dir, clone_entries, clone_entry, clone_table, share_entries, share_entry,
  protect_entries, protect,
}
use doors.Paging.Boot.{mirror_higher_half}
use doors.Paging.Flags.{page_addr}
use doors.Paging.Mapped.{Walkable, Sound, entry_at}
use doors.Paging.MapPage.{PageApart}
use doors.Paging.NewTable.{MapsTo, map_page-MapsTo}
use doors.Paging.PageCopy.{Resolves, cow_at}
use doors.Paging.CowFault.{handle_cow_fault-Resolves}
use doors.Paging.Unmap.{Unmaps, unmap_page-Unmaps}
use doors.Paging.Mirror.{mirror_higher_half-overruns}

-- The frames 5 and 2 are free; frame 3 is a directory, frame 4 its table for the first 4 MiB, with
-- frame 6 as page 1 and frame 7, which has another owner, as page 2, both copy-on-write.
abbrev memory : ℕ → ℕ → ℕ
memory a i =
    if a == 0x3000
    then (if i == 0 then 0x4007 else 0)
    else if a == 0x4000
    then (if i == 1 then 0x6205 else if i == 2 then 0x7205 else 0)
    else 0

abbrev shared : Paging
shared = record {
  pmm = record {
    link = λ a. if a == 0 then 0x5000 else if a == 0x5000 then 0x2000 else 0;
    free_count = 2;
    alloc_count = 4;
    high_water_frames = 4;
    free_total_count = 0;
    module_phys_start = λ i. 0;
    module_phys_size = λ i. 0;
    module_count = pos 0;
    ref_counts = λ i.
        if i == 3 then 1 else if i == 4 then 1 else if i == 6 then 1 else if i == 7 then 2 else 0;
    max_frame_idx = 8;
  };
  mem = memory;
  kernel_page_dir = 0x3000;
  cow_faults = 0;
}

abbrev two : List ℕ
two = 0x5000 ∷ 0x2000 ∷ []

shared-Sound : Sound shared.pmm two
shared-Sound = (
  record {
    chain = omega arith;
    distinct = omega arith;
    counted = refl;
    idle = omega arith;
    frames = omega arith;
  },
  omega arith,
)

shared-Walkable : (virt : ℕ) → virt ≡ 0x2000 → Walkable shared 0x3000 virt
unfolding entry_at
shared-Walkable virt e = rw e (record {
  dir_used = omega arith;
  table_used = λ p. omega arith;
  page_used = λ pte q. ground arith;
})

far-Walkable : Walkable shared 0x3000 0x400000
unfolding entry_at
far-Walkable = record {
  dir_used = omega arith;
  table_used = λ p. ground arith;
  page_used = λ pte q. ground arith;
}

far-PageApart : PageApart shared 0x3000 0x400000 0x400000
unfolding entry_at
far-PageApart = λ pte q. ground arith

map_page-MapsTo_example :
    MapsTo shared 0x400000 0x6000 6 0x3000 two false (map_page 0x400000 0x6000 6 0x3000 shared)
map_page-MapsTo_example =
    map_page-MapsTo shared 0x400000 0x6000 6 0x3000 two shared-Sound far-Walkable far-PageApart

handle_cow_fault-Resolves_example :
    Resolves shared 0x3000 0x2000 0x7205 1 two (handle_cow_fault 0x2000 0x3000 shared)
unfolding cow_at
handle_cow_fault-Resolves_example =
    handle_cow_fault-Resolves shared 0x3000 0x2000 0x7205 1 two shared-Sound
      (shared-Walkable 0x2000 refl) refl refl

unmap_page-Unmaps_example :
    (q : Paging) × (ys : List ℕ) × (unmap_page 0x2000 0x3000 shared ≡ done q)
    × Sound q.pmm ys
    × Unmaps shared 0x3000 0x2000 q
unfolding entry_at
unmap_page-Unmaps_example =
    unmap_page-Unmaps shared 0x2000 0x3000 two shared-Sound (shared-Walkable 0x2000 refl) refl
      (λ pte q. ground arith)

mirror_higher_half-overruns_example :
    (mirror_higher_half 257 0 0x3000 shared).mem (0x3000 + page_size) 0
    ≡ page_addr (memory 0x3000 256) + 3
mirror_higher_half-overruns_example =
    mirror_higher_half-overruns 257 0x3000 0 shared (omega arith) (omega arith) (omega arith)

-- A page that is not present is mapped behind a new table, in frame 5.
fresh_page : Outcome (ℕ × ℕ × ℕ)
fresh_page = map_page 0x401234 0x6abc 2 0x3000 shared >>= λ r.
    done (r.0.mem 0x3000 1, r.0.mem 0x5000 1, r.0.pmm.free_count)

map_page_fresh : fresh_page ≡ done (0x5003, 0x6003, 1)
unfolding fresh_page map_page resolve_page_table ensure_page_table alloc map_in drop_entry entry_of
    open_pde write_word check_phys_addr alloc_frame init_ref_count ref_count_entry set_ref_count
    raise_high_water pop_frame is_bad_phys_addr max_phys_addr
map_page_fresh = refl

-- The child of a fork gets frame 5 as directory and frame 2 as table; page 7 has three owners.
forked : Outcome (ℕ × ℕ × ℕ × ℕ)
forked = clone_page_dir 0x3000 shared >>= λ r.
    done (r.1, r.0.mem 0x5000 0, r.0.mem 0x2000 2, r.0.pmm.ref_counts 7)

clone_page_dir_forks : forked ≡ done (0x5000, 0x2007, 0x7205, 3)
unfolding forked clone_page_dir clone_entries clone_entry clone_table share_entries share_entry
    protect_entries protect alloc write_word check_phys_addr alloc_frame init_ref_count
    ref_count_entry set_ref_count raise_high_water pop_frame is_bad_phys_addr max_phys_addr add_ref
clone_page_dir_forks = refl
