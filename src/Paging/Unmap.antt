-- ===== src/Paging/Unmap.antt =====
-- `unmapPage` and `tryFreePageTable` of kernel/arch/i386/Paging.cc.
use doors.Base.{
  done, ℕ, zero, suc, ◌+◌, ◌-◌, ◌<◌, ◌≤◌, ◌≡◌, ◌≢◌, refl, sym, ap, ◌∙◌, List, arith, update,
  update_ne, update_self, subst, Bool, true, false, if◌then◌else◌, none, some, inl, inr, Bool-cases,
  ℕ_discrete,
}
use doors.Pmm.{remove_ref, ref_count_entry, set_ref_count}
use doors.Pmm.Idle.{frame_index}
use doors.Pmm.Ownership.{remove_then_free-free_frame}
use doors.Paging.{
  Paging, write_word, unmap_page, try_free_page_table, words_are_zero, free, drop_page, drop_entry,
  has_one_ref, resolve_page_table,
}
use doors.Paging.Flags.{is_present, page_addr, pde_idx, pte_idx, pte_count}
use doors.Paging.Mapped.{
  Walkable, entry_at, entry_at-some, entry_at-same, entry_at-no_table, entry_at-no_page, InUse,
  Sound, check_phys_addr-InUse,
}
use doors.Paging.Frames.{Drops, drop_entry-Drops, counts_after, Gives, drop_page-Gives}
use doors.Paging.MapPage.{
  PageApart, Finds, Kept-Finds, Kept-dir, Drops-Kept, Elsewhere, Elsewhere-linked, linked_mem,
  resolve_page_table-present, linked_ne, linked_self,
}

-- `freeFrame` of a frame in use gives up a reference as `drop_page` does.
pub free-drop_page : (s : Paging) (a : ℕ) → a ≢ 0 → free a s ≡ drop_page a s
unfolding free drop_page remove_ref has_one_ref ref_count_entry set_ref_count
free-drop_page s a h = ground (arith, remove_then_free-free_frame s.pmm a h)

pub words_are_zero_lem :
    (n i j : ℕ) (words : ℕ → ℕ) → words_are_zero n i words ≡ true → i ≤ j → j < i + n → words j ≡ 0
unfolding words_are_zero
words_are_zero_lem zero i j words h l k = absurd (omega arith)
words_are_zero_lem (suc n) i j words h l k = elim (ℕ_discrete i j) [
  | yes e ↦ rw (← e) (ground arith)
  | no e ↦ words_are_zero_lem n (suc i) j words (ground arith) (omega (arith, e)) (omega arith)
]

-- The table behind the entry for `virt` without its page.
abbrev emptied : Paging → ℕ → ℕ → ℕ → ℕ → ℕ
emptied s dir virt = linked_mem s.mem (page_addr (s.mem dir (pde_idx virt))) virt 0

abbrev table_empties : Paging → ℕ → ℕ → Bool
table_empties s dir virt =
    words_are_zero pte_count 0 (emptied s dir virt (page_addr (s.mem dir (pde_idx virt))))

-- What `unmapPage` leaves in the directory and the counts, behind a table that is there.
abbrev pub Settled : Paging → ℕ → ℕ → ℕ → Paging → Type 0
Settled s dir virt pte t =
    let table = page_addr (s.mem dir (pde_idx virt)) in
    let counts = counts_after s.pmm pte in
    (t.mem dir (pde_idx virt) ≡ (if table_empties s dir virt then 0 else s.mem dir (pde_idx virt)))
    × (t.pmm.ref_counts ≡ (
        if table_empties s dir virt
        then update counts (frame_index table) (counts (frame_index table) - 1)
        else counts))

-- And what the processor finds.
abbrev pub Unmaps : Paging → ℕ → ℕ → Paging → Type 0
Unmaps s dir virt t =
    Finds s dir virt none t
    × Settled s dir virt (s.mem (page_addr (s.mem dir (pde_idx virt))) (pte_idx virt)) t

-- The entry of the directory cleared when its table is empty: other addresses see no difference.
cleared_dir :
    (m : ℕ → ℕ → ℕ) (dir virt virt' : ℕ)
    → words_are_zero pte_count 0 (m (page_addr (m dir (pde_idx virt)))) ≡ true
    → (pde_idx virt' ≢ pde_idx virt
        → is_present (m dir (pde_idx virt')) ≡ true
        → page_addr (m dir (pde_idx virt')) ≢ dir)
    → entry_at (update m dir (update (m dir) (pde_idx virt) 0)) dir virt' ≡ entry_at m dir virt'
cleared_dir m dir virt virt' z h = elim (ℕ_discrete (pde_idx virt') (pde_idx virt)) [
  | yes e ↦
      entry_at-no_table _ dir virt' (ground (arith, e))
      ∙ sym (
          entry_at-no_page m dir virt' _ 0 refl
            (words_are_zero_lem pte_count 0 (pte_idx virt') (m (page_addr (m dir (pde_idx virt'))))
              (rw e z) (omega arith) (omega arith))
            refl)
  | no e ↦
      let same : update m dir (update (m dir) (pde_idx virt) 0) dir (pde_idx virt')
          ≡ m dir (pde_idx virt') =
        ground arith in
      entry_at-same m _ dir virt' (ap is_present same) (ap page_addr same)
        (λ p. ap (λ w. w (pte_idx virt')) (update_ne m dir _ _ (h e p)))
]

Drops-InUse :
    {s t : Paging} {pte : ℕ} {xs : List ℕ} (a : ℕ)
    → Drops s pte xs t
    → (is_present pte ≡ true → page_addr pte ≢ a)
    → InUse s.pmm a
    → InUse t.pmm a
unfolding counts_after
Drops-InUse {s} {t} {pte} a k h u = (
  u.0,
  (u.1.0, omega (arith, k.bound, u.1.1)),
  ground (arith, ap (λ c. c (frame_index a)) k.counts, u, h),
)

-- The state in which the entry for the page is cleared.
abbrev unlinked : Paging → Paging → ℕ → ℕ → Paging
unlinked s t dir virt = record t { mem = emptied s dir virt }

try_free_page_table-full :
    (s : Paging) (dir i table : ℕ) (xs : List ℕ)
    → Sound s.pmm xs
    → page_addr (s.mem dir i) ≡ table
    → InUse s.pmm table
    → words_are_zero pte_count 0 (s.mem table) ≡ false
    → try_free_page_table dir i s ≡ done s
unfolding try_free_page_table
try_free_page_table-full s dir i table xs v a u z =
    rw (a, check_phys_addr-InUse s table xs v u, z, try_free_page_table) refl

try_free_page_table-empty :
    (s t : Paging) (dir i table : ℕ) (xs ys : List ℕ)
    → Sound s.pmm xs
    → page_addr (s.mem dir i) ≡ table
    → InUse s.pmm table
    → words_are_zero pte_count 0 (s.mem table) ≡ true
    → Gives (write_word dir i 0 s) table ys t
    → try_free_page_table dir i s ≡ done t
unfolding try_free_page_table
try_free_page_table-empty s t dir i table xs ys v a u z g =
    rw (a, check_phys_addr-InUse s table xs v u, z, try_free_page_table)
      (free-drop_page (write_word dir i 0 s) table u.0 ∙ g.result)

unmap_page-table :
    (s t : Paging) (virt dir table : ℕ)
    → resolve_page_table virt dir s ≡ done table
    → table ≢ 0
    → drop_entry (s.mem table (pte_idx virt)) s ≡ done t
    → unmap_page virt dir s
      ≡ try_free_page_table dir (pde_idx virt) (record t { mem = linked_mem t.mem table virt 0 })
unfolding unmap_page write_word linked_mem
unmap_page-table s t virt dir table e h d = rw (e, d) (ground arith)

-- A table in use that is freed: only its own words change.
entry_at-freed :
    (m q : ℕ → ℕ → ℕ) (dir table virt virt' : ℕ)
    → ((b : ℕ) → b ≢ table → q b ≡ m b)
    → dir ≢ table
    → is_present (m dir (pde_idx virt)) ≡ false
    → (pde_idx virt' ≢ pde_idx virt
        → is_present (m dir (pde_idx virt')) ≡ true
        → page_addr (m dir (pde_idx virt')) ≢ table)
    → entry_at q dir virt' ≡ entry_at m dir virt'
entry_at-freed m q dir table virt virt' k n z h =
    entry_at-same m q dir virt' (ap (λ w. is_present (w (pde_idx virt'))) (k dir n))
      (ap (λ w. page_addr (w (pde_idx virt'))) (k dir n))
      (λ p.
        ap (λ w. w (pte_idx virt'))
          (k _ (elim (ℕ_discrete (pde_idx virt') (pde_idx virt)) [
            | yes e ↦ absurd (ground (arith, p, ap (λ i. is_present (m dir i)) e, z))
            | no e ↦ h e p
          ])))

-- The table is left as it is if it is not empty, and else freed.
settle :
    (s t : Paging) (virt dir pte : ℕ) (xs : List ℕ)
    → Sound t.pmm xs
    → t.pmm.ref_counts ≡ counts_after s.pmm pte
    → InUse t.pmm (page_addr (s.mem dir (pde_idx virt)))
    → page_addr (s.mem dir (pde_idx virt)) ≢ dir
    → is_present (s.mem dir (pde_idx virt)) ≡ true
    → (q : Paging) × (ys : List ℕ) × (try_free_page_table dir (pde_idx virt) (unlinked s t dir virt)
        ≡ done q)
      × Sound q.pmm ys
      × (entry_at q.mem dir virt ≡ none)
      × ((virt' : ℕ)
          → Elsewhere s dir virt virt'
          → entry_at q.mem dir virt' ≡ entry_at s.mem dir virt')
      × Settled s dir virt pte q
unfolding write_word
settle s t virt dir pte xs sound counts used n p = elim (Bool-cases (table_empties s dir virt)) [
  | inl z ↦
      let g =
        drop_page-Gives (write_word dir (pde_idx virt) 0 (unlinked s t dir virt)) table _ sound
          used in
      let at_dir = ap (λ w. w (pde_idx virt)) (g.1.kept dir (λ e. n (sym e))) ∙ wiped in
      (
        g.0,
        _,
        try_free_page_table-empty (unlinked s t dir virt) g.0 dir (pde_idx virt) table _ _ sound
            at_table used z g.1,
        g.1.sound,
        entry_at-no_table _ dir virt (ap is_present at_dir),
        λ virt' h.
            entry_at-freed _ g.0.mem dir table virt virt' g.1.kept (λ e. n (sym e))
              (ap is_present wiped) (λ e q. later virt' h e q)
            ∙ cleared_dir (emptied s dir virt) dir virt virt' (rw at_table z)
                (λ e q. rw same ((h.1 (rw (← same) q)).1))
            ∙ Elsewhere-linked s dir virt virt' 0 p n h,
        (
          rw z at_dir,
          rw z (
              g.1.counts
              ∙ ap (λ c. update c (frame_index table) (c (frame_index table) - 1)) counts),
        ),
      )
  | inr z ↦ (
    unlinked s t dir virt,
    _,
    try_free_page_table-full (unlinked s t dir virt) dir (pde_idx virt) table _ sound at_table used
        z,
    sound,
    gone,
    λ virt' h. Elsewhere-linked s dir virt virt' 0 p n h,
    (rw z (ap (λ x. x (pde_idx virt)) same), rw z counts),
  )
]
  where
    table : ℕ
    table = page_addr (s.mem dir (pde_idx virt))

    same : emptied s dir virt dir ≡ s.mem dir
    same = linked_ne s.mem _ virt 0 dir (λ e. n (sym e))

    at_table :
        page_addr (emptied s dir virt dir (pde_idx virt)) ≡ page_addr (s.mem dir (pde_idx virt))
    at_table = ap (λ x. page_addr (x (pde_idx virt))) same

    wiped :
        update
          (emptied s dir virt)
          dir
          (update (emptied s dir virt dir) (pde_idx virt) 0)
          dir
          (pde_idx virt)
        ≡ 0
    wiped = ground arith

    cleared :
        (i : ℕ)
        → i ≢ pde_idx virt
        → update (emptied s dir virt) dir (update (emptied s dir virt dir) (pde_idx virt) 0) dir i
          ≡ s.mem dir i
    cleared i e =
        let z : update (emptied s dir virt) dir (update (emptied s dir virt dir) (pde_idx virt) 0)
              dir i
            ≡ emptied s dir virt dir i =
          ground (arith, e) in
        z ∙ ap (λ w. w i) same

    later :
        (virt' : ℕ)
        → Elsewhere s dir virt virt'
        → pde_idx virt' ≢ pde_idx virt
        → is_present (
            update
              (emptied s dir virt)
              dir
              (update (emptied s dir virt dir) (pde_idx virt) 0)
              dir
              (pde_idx virt'))
          ≡ true
        → page_addr (
            update
              (emptied s dir virt)
              dir
              (update (emptied s dir virt dir) (pde_idx virt) 0)
              dir
              (pde_idx virt'))
          ≢ table
    later virt' h e = rw (cleared (pde_idx virt') e) (λ q. (h.1 q).2 e)

    gone : entry_at (emptied s dir virt) dir virt ≡ none
    gone = entry_at-no_page _ dir virt _ 0 at_table (linked_self s.mem _ virt 0) refl

linked_table :
    (m : ℕ → ℕ → ℕ) (table virt : ℕ)
    → linked_mem m table virt 0 table ≡ update (m table) (pte_idx virt) 0
unfolding linked_mem
linked_table m table virt = update_self m table _

-- With the directory and the table as they were, the table is empty as it was.
Settled-same :
    (s : Paging) (dir virt pte : ℕ) (m : ℕ → ℕ → ℕ) (t : Paging)
    → m dir ≡ s.mem dir
    → m (page_addr (s.mem dir (pde_idx virt))) ≡ s.mem (page_addr (s.mem dir (pde_idx virt)))
    → Settled (record s { mem = m }) dir virt pte t
    → Settled s dir virt pte t
Settled-same s dir virt pte m t d e h = subst (By (s.mem dir (pde_idx virt))) empties (
    subst (λ w. By w (table_empties (record s { mem = m }) dir virt)) (ap (λ w. w (pde_idx virt)) d)
      h)
  where
    By : ℕ → Bool → Type 0
    By w b =
        (t.mem dir (pde_idx virt) ≡ (if b then 0 else w))
        × (t.pmm.ref_counts ≡ (
            if b
            then update (counts_after s.pmm pte) (frame_index (page_addr w))
                (counts_after s.pmm pte (frame_index (page_addr w)) - 1)
            else counts_after s.pmm pte))

    empties : table_empties (record s { mem = m }) dir virt ≡ table_empties s dir virt
    empties =
        ap
          (λ w.
            words_are_zero pte_count 0
              (linked_mem m (page_addr (w (pde_idx virt))) virt 0 (page_addr (w (pde_idx virt)))))
          d
        ∙ ap (words_are_zero pte_count 0) (
            linked_table m _ virt
            ∙ ap (λ w. update w (pte_idx virt) 0) e
            ∙ sym (linked_table s.mem _ virt))

-- Under the conditions of mapPage, where the directory has a table for the address, unmapPage ends
-- and keeps the free list in order. The processor then finds no page for the address and what it
-- found before for other pages, as for mapPage. The page loses one reference. If the table has no
-- entry left, its entry in the directory is cleared and the table loses one reference; else the
-- entry stays.
pub unmap_page-Unmaps :
    (s : Paging) (virt dir : ℕ) (xs : List ℕ)
    → Sound s.pmm xs
    → Walkable s dir virt
    → is_present (s.mem dir (pde_idx virt)) ≡ true
    → PageApart s dir virt virt
    → (q : Paging) × (ys : List ℕ) × (unmap_page virt dir s ≡ done q)
      × Sound q.pmm ys
      × Unmaps s dir virt q
unmap_page-Unmaps s virt dir xs v w p n =
    let u = w.table_used p in
    let d = drop_entry-Drops s _ xs v (λ q. w.page_used _ (at q)) in
    let k = Drops-Kept s d.0 dir virt xs p n d.1 in
    let same = Kept-dir s dir virt d.0.mem k in
    let table_kept = d.1.kept (page_addr (s.mem dir (pde_idx virt))) (λ q. (n _ (at q)).1 p) in
    let used = Drops-InUse _ d.1 (λ q z. (n _ (at q)).1 p (sym z)) u.0 in
    let r =
      settle (record s { mem = d.0.mem }) d.0 virt dir _ _ d.1.sound d.1.counts (rw same used)
        (rw same u.1) (rw same p) in
    (
      r.0,
      r.1,
      unmap_page-table s d.0 virt dir _ (resolve_page_table-present virt dir s xs v p u.0) u.0.0
            d.1.result
          ∙ ap
              (λ w.
                try_free_page_table dir (pde_idx virt)
                  (record d.0 { mem = linked_mem d.0.mem (page_addr (w (pde_idx virt))) virt 0 }))
              (sym same)
          ∙ r.2,
      r.3,
      (
        Kept-Finds s dir virt d.0.mem none r.0 k r.4 r.5,
        Settled-same s dir virt _ d.0.mem r.0 same table_kept r.6,
      ),
    )
  where
    at :
        is_present (s.mem (page_addr (s.mem dir (pde_idx virt))) (pte_idx virt)) ≡ true
        → entry_at s.mem dir virt
          ≡ some (s.mem (page_addr (s.mem dir (pde_idx virt))) (pte_idx virt))
    at q = entry_at-some s.mem dir virt _ _ p refl refl q
