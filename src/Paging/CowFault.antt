-- ===== src/Paging/CowFault.antt =====
-- `handleCowFault` of kernel/arch/i386/Paging.cc: a write to a shared page gives the writer a page of
-- its own with the same contents.
use doors.Base.{
  done, ℕ, zero, suc, ◌+◌, ◌≡◌, ◌≢◌, refl, sym, ap, ◌∙◌, List, [], ◌∷◌, arith, update, true, false,
  if◌then◌else◌, none, some, ◌==◌, inl, inr, Bool-cases, ◌&&◌, add32,
}
use doors.Pmm.{Pmm, set_ref_count}
use doors.Pmm.Idle.{Inv, frame_index}
use doors.Pmm.Ownership.{ref_count-IsFrame}
use doors.Paging.{Paging, write_word, handle_cow_fault, own_or_copy, copy_page, own_page}
use doors.Paging.Flags.{
  is_present, is_user, is_cow, page_addr, page_flags, set_rw, clear_cow, pde_idx, pte_idx,
}
use doors.Paging.Mapped.{Walkable, entry_at-some, InUse, Sound, check_phys_addr-InUse}
use doors.Paging.Frames.{alloc-Takes, alloc-empty, Takes, Takes-InUse, taken}
use doors.Paging.PageCopy.{
  cow_at, Writable-own, Writable-copy, remove_ref-shared, Resolves, entry_at-written,
  write_word-elsewhere, copied, copied-mem, copy_page-copied, cow_at-some,
}

-- The tables lead to the copy-on-write entry `pte`, and what they name is in use.
record AtFault (mem : ℕ → ℕ → ℕ) (p : Pmm) (dir virt pte : ℕ) : Type 0 where
  dir_used : InUse p dir
  table_present : is_present (mem dir (pde_idx virt)) ≡ true
  table_user : is_user (mem dir (pde_idx virt)) ≡ true
  table_used : InUse p (page_addr (mem dir (pde_idx virt)))
  table_apart : page_addr (mem dir (pde_idx virt)) ≢ dir
  entry : mem (page_addr (mem dir (pde_idx virt))) (pte_idx virt) ≡ pte
  entry_present : is_present pte ≡ true
  entry_cow : is_cow pte ≡ true
  page_used : InUse p (page_addr pte)

cow_at-AtFault :
    (s : Paging) (dir virt pte : ℕ)
    → Walkable s dir virt
    → cow_at s.mem dir virt ≡ some pte
    → AtFault s.mem s.pmm dir virt pte
cow_at-AtFault s dir virt pte w h =
    let c = cow_at-some s.mem dir virt pte h in
    record {
      dir_used = w.dir_used;
      table_present = c.0;
      table_user = c.1;
      table_used = (w.table_used c.0).0;
      table_apart = (w.table_used c.0).1;
      entry = c.2;
      entry_present = c.3;
      entry_cow = c.4;
      page_used = w.page_used pte (entry_at-some s.mem dir virt _ pte c.0 refl c.2 c.3);
    }

-- The fault is counted.
abbrev counted : Paging → Paging
counted s = record s { cow_faults = add32 s.cow_faults 1 }

own_or_copy-count :
    (s : Paging) (dir virt pte n : ℕ) (xs : List ℕ)
    → Sound s.pmm xs
    → AtFault s.mem s.pmm dir virt pte
    → s.pmm.ref_counts (frame_index (page_addr pte)) ≡ suc n
    → own_or_copy (page_addr (s.mem dir (pde_idx virt))) (pte_idx virt) pte s ≡ (
        let table = page_addr (s.mem dir (pde_idx virt)) in
        if suc n == 1
        then done (own_page table (pte_idx virt) pte (counted s), true)
        else copy_page table (pte_idx virt) pte (counted s))
unfolding own_or_copy
own_or_copy-count s dir virt pte n xs v h e =
    rw
      (
        check_phys_addr-InUse s (page_addr pte) xs v h.page_used,
        ref_count-IsFrame s.pmm (page_addr pte) h.page_used.1,
        e,
      )
      refl

own_or_copy-shared :
    (s : Paging) (dir virt pte n : ℕ) (xs : List ℕ)
    → Sound s.pmm xs
    → AtFault s.mem s.pmm dir virt pte
    → s.pmm.ref_counts (frame_index (page_addr pte)) ≡ suc (suc n)
    → own_or_copy (page_addr (s.mem dir (pde_idx virt))) (pte_idx virt) pte s
      ≡ copy_page (page_addr (s.mem dir (pde_idx virt))) (pte_idx virt) pte (counted s)
own_or_copy-shared s dir virt pte n xs v h e =
    own_or_copy-count s dir virt pte (suc n) xs v h e ∙ ground arith

copy_page-empty :
    (table i pte : ℕ) (s : Paging) → Inv s.pmm [] → copy_page table i pte s ≡ done (s, false)
unfolding copy_page
copy_page-empty table i pte s v = rw (alloc-empty s v) refl

copy_page-Resolves :
    (s : Paging) (dir virt pte n f : ℕ) (xs : List ℕ)
    → Takes s f xs (taken s f)
    → AtFault s.mem s.pmm dir virt pte
    → s.pmm.ref_counts (frame_index (page_addr pte)) ≡ suc (suc n)
    → Resolves s dir virt pte
        (suc n)
        (f ∷ xs)
        (copy_page (page_addr (s.mem dir (pde_idx virt))) (pte_idx virt) pte s)
copy_page-Resolves s dir virt pte n f xs k h e =
    let w = Writable-copy pte f h.entry_present h.entry_cow k.is_frame.0 in
    let new = clear_cow (set_rw (page_flags pte + f)) in
    let r = remove_ref-shared (taken s f).pmm (page_addr pte) n xs k.sound used.0 count in
    let m = copied-mem s pte f n used.1 in
    let same = ap (λ x. x (pde_idx virt)) (m.1 dir (Takes-InUse dir k h.dir_used).1) in
    (
      write_word table (pte_idx virt) new (copied s pte f n),
      new,
      copy_page-copied s table (pte_idx virt) pte f n xs k r.0,
      entry_at-written (copied s pte f n) dir virt table new (ap is_present same ∙ h.table_present)
          (ap page_addr same) h.table_apart w.1,
      w,
      write_word-elsewhere (copied s pte f n) table (pte_idx virt) new f
            (λ z. (Takes-InUse table k h.table_used).1 (sym z))
          ∙ m.0,
      unfold write_word copied in r.1,
      unfold write_word copied set_ref_count in
          ap (λ c. update c (frame_index (page_addr pte)) (suc n)) k.counts,
      λ a z y. write_word-elsewhere (copied s pte f n) table (pte_idx virt) new a z ∙ m.1 a y,
    )
  where
    table : ℕ
    table = page_addr (s.mem dir (pde_idx virt))

    used : InUse (taken s f).pmm (page_addr pte) × (page_addr pte ≢ f)
    used = Takes-InUse (page_addr pte) k h.page_used

    count : (taken s f).pmm.ref_counts (frame_index (page_addr pte)) ≡ suc (suc n)
    count =
        let c = ap (λ c. c (frame_index (page_addr pte))) k.counts in
        ground (arith, c, k.was_free, e)

own_page-Resolves :
    (s : Paging) (dir virt pte : ℕ)
    → AtFault s.mem s.pmm dir virt pte
    → Resolves s dir virt pte 0 [] (
        done (own_page (page_addr (s.mem dir (pde_idx virt))) (pte_idx virt) pte (counted s), true))
unfolding own_page
own_page-Resolves s dir virt pte h =
    let w = Writable-own pte h.entry_present h.entry_cow in
    (
      own_page (page_addr (s.mem dir (pde_idx virt))) (pte_idx virt) pte (counted s),
      clear_cow (set_rw pte),
      refl,
      entry_at-written (counted s) dir virt _ (clear_cow (set_rw pte)) h.table_present refl
          h.table_apart w.1,
      w,
      unfold write_word in refl,
      λ a z. write_word-elsewhere (counted s) _ (pte_idx virt) (clear_cow (set_rw pte)) a z,
    )

own_or_copy-Resolves :
    (s : Paging) (dir virt pte n : ℕ) (xs : List ℕ)
    → Sound s.pmm xs
    → AtFault s.mem s.pmm dir virt pte
    → s.pmm.ref_counts (frame_index (page_addr pte)) ≡ suc n
    → Resolves s dir virt pte n xs
        (own_or_copy (page_addr (s.mem dir (pde_idx virt))) (pte_idx virt) pte s)
own_or_copy-Resolves s dir virt pte zero xs v h e =
    rw (own_or_copy-count s dir virt pte 0 xs v h e) (own_page-Resolves s dir virt pte h)
own_or_copy-Resolves s dir virt pte (suc n) [] v h e =
    own_or_copy-shared s dir virt pte n [] v h e
    ∙ copy_page-empty _ (pte_idx virt) pte (counted s) v.0
own_or_copy-Resolves s dir virt pte (suc n) (f ∷ xs) v h e =
    rw (own_or_copy-shared s dir virt pte n (f ∷ xs) v h e)
      (copy_page-Resolves (counted s) dir virt pte n f xs (alloc-Takes (counted s) f xs v) h e)

-- Under the same conditions on the free list and the tables, for an address with a copy-on-write
-- entry that user code may use, handleCowFault ends. If the page has one reference the entry
-- becomes writable, no frame is taken and no memory but the table changes. If it has more, it
-- returns false and only counts the fault when there is no free frame; else the address leads to a
-- new frame, writable and with the contents of the old page, which loses one reference, and no
-- memory but the table and that frame changes.
pub handle_cow_fault-Resolves :
    (s : Paging) (dir virt pte n : ℕ) (xs : List ℕ)
    → Sound s.pmm xs
    → Walkable s dir virt
    → cow_at s.mem dir virt ≡ some pte
    → s.pmm.ref_counts (frame_index (page_addr pte)) ≡ suc n
    → Resolves s dir virt pte n xs (handle_cow_fault virt dir s)
unfolding handle_cow_fault
handle_cow_fault-Resolves s dir virt pte n xs v w c e =
    let h = cow_at-AtFault s dir virt pte w c in
    rw
      (
        h.table_present,
        h.table_user,
        handle_cow_fault,
        check_phys_addr-InUse s _ xs v h.table_used,
        h.entry,
        h.entry_present,
        h.entry_cow,
      )
      (own_or_copy-Resolves s dir virt pte n xs v h e)

-- A fault on any other page is not handled.
pub handle_cow_fault-none :
    (s : Paging) (dir virt : ℕ) (xs : List ℕ)
    → Sound s.pmm xs
    → Walkable s dir virt
    → cow_at s.mem dir virt ≡ none
    → handle_cow_fault virt dir s ≡ done (s, false)
unfolding handle_cow_fault cow_at
handle_cow_fault-none s dir virt xs v w c = elim (Bool-cases (is_present pde && is_user pde)) [
  | inl e ↦
      let k = check_phys_addr-InUse s _ xs v (w.table_used (ground arith)).0 in
      elim (Bool-cases (is_present pte && is_cow pte)) [
        | inl z ↦
            let found : some pte ≡ none = sym (rw (e, z, cow_at) refl) ∙ c in
            absurd (ground (arith, found))
        | inr z ↦ rw (e, k, z, handle_cow_fault) refl
      ]
  | inr e ↦ rw (e, handle_cow_fault) refl
]
  where
    pde : ℕ
    pde = s.mem dir (pde_idx virt)

    pte : ℕ
    pte = s.mem (page_addr (s.mem dir (pde_idx virt))) (pte_idx virt)
