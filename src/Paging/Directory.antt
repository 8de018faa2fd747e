-- ===== src/Paging/Directory.antt =====
-- The operations on whole page tables and page directories: `clearPageTable`, `clonePageDir` with its
-- `rollback`, and `freePageDirectory` of kernel/arch/i386/Paging.cc. A loop is recursion on the
-- rounds left.
use doors.Base.{
  Outcome, done, ◌>>=◌, ℕ, zero, suc, ◌+◌, ◌%◌, Bool, true, false, ◌&&◌, not, ◌==◌, if◌then◌else◌,
  update,
}
use doors.Pmm.{remove_ref, add_ref}
use doors.Paging.{Paging, write_word, alloc, free, drop_entry, check_phys_addr, resolve_page_table}
use doors.Paging.Flags.{
  is_present, is_rw, is_user, page_addr, page_flags, clear_rw, set_cow, pde_idx, pte_count,
  pde_count,
}

-- Gives up the references of the `n` entries from `i` on.
unfoldable pub drop_entries : ℕ → ℕ → ℕ → Paging → Outcome Paging
drop_entries zero i table s = done s
drop_entries (suc n) i table s =
    drop_entry (s.mem table i) s >>= (λ t. drop_entries n (suc i) table t)

-- The part of `clearPageTable` from the allocation on.
unfoldable pub replace_table : ℕ → ℕ → ℕ → Paging → Outcome Paging
replace_table old dir i s =
    let r = alloc s in
    let replaced =
      drop_entries pte_count 0 old r.0
      >>= (λ t. free old (write_word dir i (r.1 + t.mem dir i % 8) t)) in
    if r.1 == 0 then done r.0 else replaced

unfoldable pub clear_page_table : ℕ → ℕ → Paging → Outcome Paging
clear_page_table virt dir s = resolve_page_table virt dir s >>= λ _.
    let pde = s.mem dir (pde_idx virt) in
    let cleared =
      check_phys_addr (page_addr pde) s >>= (λ old. replace_table old dir (pde_idx virt) s) in
    if is_present pde then cleared else done s

unfoldable pub share_entry : ℕ → Paging → Outcome Paging
share_entry pte s =
    if is_present pte
    then check_phys_addr (page_addr pte) s >>= (λ a. done (record s { pmm = add_ref a s.pmm }))
    else done s

-- One more reference for each page of the table.
unfoldable pub share_entries : ℕ → ℕ → ℕ → Paging → Outcome Paging
share_entries zero i table s = done s
share_entries (suc n) i table s =
    share_entry (s.mem table i) s >>= (λ t. share_entries n (suc i) table t)

unfoldable pub protect : ℕ → ℕ
protect pte = if is_present pte && is_rw pte then set_cow (clear_rw pte) else pte

-- Writable pages become copy-on-write.
unfoldable pub protect_entries : ℕ → ℕ → ℕ → Paging → Paging
protect_entries zero i table s = s
protect_entries (suc n) i table s =
    protect_entries n (suc i) table (write_word table i (protect (s.mem table i)) s)

-- The page table of one entry that user code may use, copied to the new frame `table`.
unfoldable pub clone_table : ℕ → ℕ → ℕ → ℕ → Paging → Outcome Paging
clone_table i pde dir table s = check_phys_addr (page_addr pde) s >>= λ old.
    let copied = record s { mem = update s.mem table (s.mem old) } in
    share_entries pte_count 0 table (write_word dir i (table + page_flags pde) copied)
    >>= (λ t. done (protect_entries pte_count 0 table t))

-- The flag is false if there is no frame.
unfoldable pub clone_entry : ℕ → ℕ → ℕ → Paging → Outcome (Paging × Bool)
clone_entry i src dir s =
    let pde = s.mem src i in
    let r = alloc s in
    let cloned = clone_table i pde dir r.1 r.0 >>= (λ t. done (t, true)) in
    if not (is_present pde)
    then done (s, true)
    else if not (is_user pde)
    then done (write_word dir i pde s, true)
    else if r.1 == 0
    then done (r.0, false)
    else cloned

-- The rollback does not look at what `removeRef` returns.
unfoldable pub unshare_entries : ℕ → ℕ → ℕ → Paging → Outcome Paging
unshare_entries zero i table s = done s
unshare_entries (suc n) i table s =
    let pte = s.mem table i in
    (if is_present pte
      then remove_ref (page_addr pte) s.pmm >>= (λ d. done (record s { pmm = d.0 }))
      else done s)
    >>= (λ t. unshare_entries n (suc i) table t)

unfoldable pub rollback_entry : ℕ → Paging → Outcome Paging
rollback_entry pde s =
    let undone = unshare_entries pte_count 0 (page_addr pde) s >>= (λ t. free (page_addr pde) t) in
    if is_present pde && is_user pde then undone else done s

-- The entries from `i` on, and then the new directory.
unfoldable pub rollback : ℕ → ℕ → ℕ → Paging → Outcome Paging
rollback zero i dir s = free dir s
rollback (suc n) i dir s = rollback_entry (s.mem dir i) s >>= (λ t. rollback n (suc i) dir t)

unfoldable pub clone_entries : ℕ → ℕ → ℕ → ℕ → Paging → Outcome (Paging × ℕ)
clone_entries zero i src dir s = done (s, dir)
clone_entries (suc n) i src dir s = clone_entry i src dir s >>= λ r. elim r.1 [
  | true ↦ clone_entries n (suc i) src dir r.0
  | false ↦ rollback i 0 dir r.0 >>= (λ t. done (t, 0))
]

-- The address of the new directory, 0 if frames ran out.
unfoldable pub clone_page_dir : ℕ → Paging → Outcome (Paging × ℕ)
clone_page_dir src s =
    let r = alloc s in if r.1 == 0 then done (r.0, 0) else clone_entries pde_count 0 src r.1 r.0

unfoldable pub free_table : ℕ → Paging → Outcome Paging
free_table pde s =
    let freed =
      check_phys_addr (page_addr pde) s
      >>= (λ table. drop_entries pte_count 0 table s >>= (λ t. free table t)) in
    if is_present pde && is_user pde then freed else done s

-- The `n` entries from `i` on.
unfoldable pub free_tables : ℕ → ℕ → ℕ → Paging → Outcome Paging
free_tables zero i dir s = done s
free_tables (suc n) i dir s = free_table (s.mem dir i) s >>= (λ t. free_tables n (suc i) dir t)

unfoldable pub free_page_directory : ℕ → Paging → Outcome Paging
free_page_directory dir s = free_tables pde_count 0 dir s
