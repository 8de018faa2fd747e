-- ===== src/Pmm/Walks.antt =====
-- The operations of kernel/kernel/Pmm.cc that walk the free list and unlink frames from it. A walk
-- takes fuel, a round for each frame and one for the end, and gives `none` when it runs out.
use doors.Base.{
  ℕ, zero, suc, ◌/◌, ◌*◌, Bool, ◌&&◌, Option, none, some, ltb, leb, ◌==◌, if◌then◌else◌, add32,
  sub32, update,
}
use doors.Pmm.{Pmm, page_size, init_ref_count}

-- `x & ~(PAGE_SIZE - 1)`
unfoldable pub page_down : ℕ → ℕ
page_down x = x / page_size * page_size

-- `(x + PAGE_SIZE - 1) & ~(PAGE_SIZE - 1)`
unfoldable pub page_up : ℕ → ℕ
unfolding page_down
page_up x = page_down (sub32 (add32 x page_size) 1)

-- `*prev = curr->next; --freeCount_;`
unfoldable pub unlink : ℕ → ℕ → Pmm → Pmm
unlink prev curr p = record p {
  link = update p.link prev (p.link curr);
  free_count = sub32 p.free_count 1;
}

-- The loop of `reserveFrame`, from the location `prev` that holds `curr`.
unfoldable pub reserve_walk : ℕ → ℕ → ℕ → ℕ → Pmm → Option Pmm
unfolding unlink
reserve_walk zero a prev curr p = none
reserve_walk (suc fuel) a prev curr p =
    let rest = reserve_walk fuel a curr (p.link curr) p in
    if curr == 0
    then some p
    else if curr == a
    then some (init_ref_count a (unlink prev curr p))
    else rest

unfoldable pub reserve_frame : ℕ → ℕ → Pmm → Option Pmm
reserve_frame fuel a p = if a == 0 then some p else reserve_walk fuel a 0 (p.link 0) p

-- The loop of `removeFramesAbove` and of `reserveRegion`, which differ in the test alone.
unfoldable pub unlink_walk : (ℕ → Bool) → ℕ → ℕ → ℕ → Pmm → Option Pmm
unfolding unlink
unlink_walk test zero prev curr p = none
unlink_walk test (suc fuel) prev curr p =
    let gone = unlink prev curr p in
    let without = unlink_walk test fuel prev (gone.link curr) gone in
    let with_it = unlink_walk test fuel curr (p.link curr) p in
    if curr == 0 then some p else if test curr then without else with_it

unfoldable pub remove_frames_above : ℕ → ℕ → Pmm → Option Pmm
remove_frames_above fuel boundary p = unlink_walk (λ a. leb boundary a) fuel 0 (p.link 0) p

unfoldable pub reserve_region : ℕ → ℕ → ℕ → Pmm → Option Pmm
unfolding page_up page_down
reserve_region fuel start end p =
    unlink_walk (λ a. leb (page_up start) a && ltb a (page_down end)) fuel 0 (p.link 0) p
