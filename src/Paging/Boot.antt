-- ===== src/Paging/Boot.antt =====
-- `init` of kernel/arch/i386/Paging.cc and what it calls: the identity map, its mirror in the higher
-- half, and the trampoline page. A word past the end of the directory lies in the next frame.
use doors.Base.{
  Outcome, done, ◌>>=◌, ℕ, zero, suc, ◌+◌, ◌-◌, ◌/◌, ◌*◌, ◌%◌, Bool, true, false, Option, none,
  some, ◌==◌, if◌then◌else◌, add32, ltb, u32_mod,
}
use doors.Pmm.{page_size}
use doors.Pmm.Walks.{remove_frames_above}
use doors.Paging.{Paging, write_word, alloc, free, map_page}
use doors.Paging.Flags.{
  page_addr, pde_size, pte_count, pde_count, higher_half_pde, trampoline_vaddr,
}

unfoldable pub round_up_4k : ℕ → ℕ
round_up_4k val = page_addr (add32 val 0xFFF)

unfoldable pub calc_num_page_tables : ℕ → ℕ
calc_num_page_tables end = let n = add32 end (pde_size - 1) / pde_size in if ltb n 1 then 1 else n

-- The `n` entries from `i` on of the table of the region that starts at `base`.
unfoldable pub identity_entries : ℕ → ℕ → ℕ → ℕ → ℕ → Paging → Paging
identity_entries zero i base end table s = s
identity_entries (suc n) i base end table s =
    let a = add32 base (i * page_size) in
    identity_entries n (suc i) base end table
      (if ltb a end then write_word table i (a + 3) s else s)

-- Frees the `n` tables from `i` on.
unfoldable pub free_identity_tables : ℕ → ℕ → ℕ → Paging → Outcome Paging
free_identity_tables zero i dir s = done s
free_identity_tables (suc n) i dir s =
    free (page_addr (s.mem dir i)) s >>= (λ t. free_identity_tables n (suc i) dir t)

-- The tables from `i` on, `n` of them; the flag is false if frames ran out.
unfoldable pub setup_identity_map : ℕ → ℕ → ℕ → ℕ → Paging → Outcome (Paging × Bool)
setup_identity_map zero i dir end s = done (s, true)
setup_identity_map (suc n) i dir end s =
    let r = alloc s in
    let base = (i * pde_size) % u32_mod in
    elim (r.1 == 0) [
      | true ↦ free_identity_tables i 0 dir r.0 >>= (λ t. done (t, false))
      | false ↦
          setup_identity_map n (suc i) dir end
            (write_word dir i (r.1 + 3) (identity_entries pte_count 0 base end r.1 r.0))
    ]

-- Word `k` of what starts at `dir`, which may lie behind the frame at `dir`.
unfoldable pub write_dir_word : ℕ → ℕ → ℕ → Paging → Paging
write_dir_word dir k v s = write_word (dir + k / pde_count * page_size) (k % pde_count) v s

unfoldable pub mirror_higher_half : ℕ → ℕ → ℕ → Paging → Paging
mirror_higher_half zero i dir s = s
mirror_higher_half (suc n) i dir s =
    mirror_higher_half n (suc i) dir
      (write_dir_word dir (higher_half_pde + i) (page_addr (s.mem dir i) + 3) s)

unfoldable pub map_trampoline : Paging → Outcome Paging
map_trampoline s =
    let r = alloc s in
    let mapped =
      map_page trampoline_vaddr r.1 3 r.0.kernel_page_dir r.0
      >>= (λ m. if m.1 then done m.0 else free r.1 m.0) in
    if r.1 == 0 then done r.0 else mapped

-- The part of `init` behind the identity map. `fuel` is for the walk of the free list; `none` is a
-- walk that did not end.
unfoldable pub enable : ℕ → ℕ → ℕ → ℕ → Paging → Outcome (Option Paging)
enable fuel dir tables end s =
    let m = mirror_higher_half tables 0 dir s in
    elim (remove_frames_above fuel end m.pmm) [
      | none ↦ done none
      | some p ↦
          let q = record m { pmm = p; kernel_page_dir = dir } in
          let mapped = map_trampoline q >>= (λ t. done (some t)) in
          if page_addr (q.mem dir 0) == page_addr (q.mem dir higher_half_pde)
          then mapped
          else done (some q)
    ]

unfoldable pub init : ℕ → ℕ → Paging → Outcome (Option Paging)
init fuel identity_map_end s =
    let end = round_up_4k identity_map_end in
    let tables = calc_num_page_tables end in
    let r = alloc s in
    let started = setup_identity_map tables 0 r.1 end r.0 >>= (λ m.
      if m.1 then enable fuel r.1 tables end m.0 else free r.1 m.0 >>= (λ t. done (some t))) in
    if r.1 == 0 then done (some r.0) else started
