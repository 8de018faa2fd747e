-- ===== src/Paging.antt =====
-- Paging, kernel/arch/i386/Paging.cc and kernel/include/arch/i386/Paging.h: the tables in memory and
-- the operations on single pages. A pointer into a page table is the physical address of the
-- table's frame, since physToVirt adds a constant, and `mem a i` is the 32-bit word `i` of the
-- frame at `a`. A frame that is freed gets its link here too; the links that are
-- followed are those that the physical memory manager keeps, and a frame that is taken is cleared.
-- Flags of an entry are its bits below 12, read and written by arithmetic.
pub mod Flags
pub mod Directory
pub mod Boot
pub mod Mapped
pub mod Frames
pub mod MapPage
pub mod NewTable
pub mod Unmap
pub mod PageCopy
pub mod CowFault
pub mod Clone
pub mod CloneTable
pub mod Mirror
pub mod CloneDir
pub mod CloneRounds
mod Tests
use doors.Base.{
  Outcome, done, panic, ◌>>=◌, ℕ, zero, suc, ◌+◌, Bool, true, false, ◌&&◌, not, ◌==◌, if◌then◌else◌,
  add32, update, none, some,
}
use doors.Pmm.{
  Pmm, alloc_frame, free_frame, free_frame_fast, remove_ref, ref_count, ref_count_entry,
  is_bad_phys_addr,
}
use doors.Paging.Flags.{
  is_present, is_rw, is_user, is_cow, page_addr, page_flags, set_rw, set_user, clear_cow, pde_idx,
  pte_idx, pte_count,
}

pub record Paging : Type 0 where
  pub pmm : Pmm
  pub mem : ℕ → ℕ → ℕ
  pub kernel_page_dir : ℕ
  pub cow_faults : ℕ

unfoldable pub write_word : ℕ → ℕ → ℕ → Paging → Paging
write_word a i v s = record s { mem = update s.mem a (update (s.mem a) i v) }

-- `allocFrame`, which clears the frame; the callers' `memset` of it changes nothing more.
unfoldable pub alloc : Paging → Paging × ℕ
alloc s =
    let r = alloc_frame s.pmm in
    if r.1 == 0
    then (record s { pmm = r.0 }, 0)
    else (record s { pmm = r.0; mem = update s.mem r.1 (λ i. 0) }, r.1)

-- `frame->next = freeList_` of `freeFrameFast`, in the first word of the frame that it frees.
unfoldable pub write_next : Bool → ℕ → ℕ → (ℕ → ℕ → ℕ) → ℕ → ℕ → ℕ
write_next freed a head mem =
    if freed && not (a == 0) then update mem a (update (mem a) 0 head) else mem

-- The frame has one reference, which `freeFrame` gives up.
unfoldable pub has_one_ref : ℕ → Pmm → Bool
has_one_ref a p = elim (ref_count_entry p a) [ none ↦ false | some i ↦ p.ref_counts i == 1 ]

unfoldable pub free : ℕ → Paging → Outcome Paging
free a s = free_frame a s.pmm >>= λ p.
    done (record s { pmm = p; mem = write_next (has_one_ref a s.pmm) a (s.pmm.link 0) s.mem })

-- `if (Pmm::removeRef(a)) { Pmm::freeFrameFast(a); }`
unfoldable pub drop_page : ℕ → Paging → Outcome Paging
drop_page a s = remove_ref a s.pmm >>= λ r. done (record s {
  pmm = if r.1 then free_frame_fast a r.0 else r.0;
  mem = write_next r.1 a (r.0.link 0) s.mem;
})

-- `CHECK_PHYS_ADDR`
unfoldable pub check_phys_addr : ℕ → Paging → Outcome ℕ
check_phys_addr a s = if is_bad_phys_addr a s.pmm then panic else done a

-- The address of the page table, 0 where the code returns `nullptr`.
unfoldable pub resolve_page_table : ℕ → ℕ → Paging → Outcome ℕ
resolve_page_table virt dir s =
    let pde = s.mem dir (pde_idx virt) in
    if is_present pde then check_phys_addr (page_addr pde) s else done 0

-- The frame is aligned, so that the flags are added to it.
unfoldable pub ensure_page_table : ℕ → ℕ → ℕ → Paging → Paging × Bool
ensure_page_table dir i flags s =
    let r = alloc s in
    if r.1 == 0
    then (r.0, false)
    else (write_word dir i (r.1 + 3 + (if is_user flags then 4 else 0)) r.0, true)

-- The reference of the page that an entry held is given up.
unfoldable pub drop_entry : ℕ → Paging → Outcome Paging
drop_entry pte s =
    if is_present pte then check_phys_addr (page_addr pte) s >>= (λ a. drop_page a s) else done s

-- `(physAddr & PAGE_ADDR_MASK) | PAGE_PRESENT | (flags & (PAGE_RW | PAGE_USER))`
unfoldable pub entry_of : ℕ → ℕ → ℕ
entry_of phys flags =
    page_addr phys + 1 + (if is_rw flags then 2 else 0) + (if is_user flags then 4 else 0)

-- `if ((flags & PAGE_USER) && !(pd[pdeIdx] & PAGE_USER)) { pd[pdeIdx] |= PAGE_USER; }`
unfoldable pub open_pde : ℕ → ℕ → ℕ → Paging → Paging
open_pde flags dir i s =
    let pde = s.mem dir i in
    if is_user flags && not (is_user pde) then write_word dir i (set_user pde) s else s

-- The part of `mapPage` that follows when the page table is known.
unfoldable pub map_in : ℕ → ℕ → ℕ → ℕ → ℕ → Paging → Outcome (Paging × Bool)
map_in table virt phys flags dir s = drop_entry (s.mem table (pte_idx virt)) s >>= λ t. done (
  open_pde flags dir (pde_idx virt) (write_word table (pte_idx virt) (entry_of phys flags) t),
  true,
)

unfoldable pub map_page : ℕ → ℕ → ℕ → ℕ → Paging → Outcome (Paging × Bool)
map_page virt phys flags dir s = resolve_page_table virt dir s >>= λ table.
    let r = ensure_page_table dir (pde_idx virt) flags s in
    let retried = resolve_page_table virt dir r.0 in
    if table == 0
    then (if r.1 then retried >>= (λ t. map_in t virt phys flags dir r.0) else done (r.0, false))
    else map_in table virt phys flags dir s

-- The `n` words from `i` on are all 0.
unfoldable pub words_are_zero : ℕ → ℕ → (ℕ → ℕ) → Bool
words_are_zero zero i words = true
words_are_zero (suc n) i words = words i == 0 && words_are_zero n (suc i) words

unfoldable pub try_free_page_table : ℕ → ℕ → Paging → Outcome Paging
try_free_page_table dir i s = check_phys_addr (page_addr (s.mem dir i)) s >>= λ table.
    let freed = free table (write_word dir i 0 s) in
    if words_are_zero pte_count 0 (s.mem table) then freed else done s

unfoldable pub unmap_page : ℕ → ℕ → Paging → Outcome Paging
unmap_page virt dir s = resolve_page_table virt dir s >>= λ table.
    let unmapped =
      drop_entry (s.mem table (pte_idx virt)) s
      >>= (λ t. try_free_page_table dir (pde_idx virt) (write_word table (pte_idx virt) 0 t)) in
    if table == 0 then done s else unmapped

-- The frame of the only owner becomes writable.
unfoldable pub own_page : ℕ → ℕ → ℕ → Paging → Paging
own_page table i pte s = write_word table i (clear_cow (set_rw pte)) s

-- The frame has other owners: the page is copied to a frame of its own.
unfoldable pub copy_page : ℕ → ℕ → ℕ → Paging → Outcome (Paging × Bool)
copy_page table i pte s =
    let r = alloc s in
    let old = page_addr pte in
    let copied = record r.0 { mem = update r.0.mem r.1 (r.0.mem old) } in
    let kept = remove_ref old copied.pmm >>= (λ d. done (
      write_word table i (clear_cow (set_rw (page_flags pte + r.1))) (record copied { pmm = d.0 }),
      true,
    )) in
    if r.1 == 0 then done (r.0, false) else kept

-- The part of `handleCowFault` behind the checks of the two entries.
unfoldable pub own_or_copy : ℕ → ℕ → ℕ → Paging → Outcome (Paging × Bool)
own_or_copy table i pte s = check_phys_addr (page_addr pte) s >>= λ old.
    let counted = record s { cow_faults = add32 s.cow_faults 1 } in
    if ref_count old s.pmm == 1
    then done (own_page table i pte counted, true)
    else copy_page table i pte counted

unfoldable pub handle_cow_fault : ℕ → ℕ → Paging → Outcome (Paging × Bool)
handle_cow_fault virt dir s =
    let pde = s.mem dir (pde_idx virt) in
    let handled = check_phys_addr (page_addr pde) s >>= (λ table.
      let pte = s.mem table (pte_idx virt) in
      if is_present pte && is_cow pte
      then own_or_copy table (pte_idx virt) pte s
      else done (s, false)) in
    if is_present pde && is_user pde then handled else done (s, false)
