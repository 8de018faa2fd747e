-- ===== src/Paging/NewTable.antt =====
-- `mapPage` of kernel/arch/i386/Paging.cc where it allocates the page table, and as a whole.
use doors.Base.{
  Outcome, done, ℕ, ◌+◌, ◌≡◌, ◌≢◌, ◌⊎◌, refl, sym, subst, ap, ◌∙◌, List, [], ◌∷◌, arith, update,
  Bool, some, true, false, if◌then◌else◌, inl, inr, Bool-cases, ℕ_discrete,
}
use doors.Pmm.Idle.{IsFrame, frame_index}
use doors.Paging.{
  Paging, write_word, drop_entry, map_in, map_page, entry_of, resolve_page_table, ensure_page_table,
}
use doors.Paging.Flags.{is_present, is_user, page_addr, pde_idx, pte_idx}
use doors.Paging.Mapped.{
  Walkable, entry_at, entry_at-same, entry_at-some, entry_at-no_table, entry_at-no_page, InUse,
  Sound,
}
use doors.Paging.Frames.{
  alloc-Takes, alloc-empty, Takes, Takes-InUse, Takes-new, taken, drop_entry-Drops, counts_after,
  list_after,
}
use doors.Paging.MapPage.{
  PageApart, Finds, Kept-dir, Kept-Finds, Drops-Kept, Elsewhere, Sees, Sees-mapped, map_in-done,
  map_page-table, resolve_page_table-present, mapped_mem,
}

-- The entry of the directory that leads to the new table `f`.
abbrev table_entry : ℕ → ℕ → ℕ
table_entry f flags = f + 3 + (if is_user flags then 4 else 0)

table_entry_lem :
    (n f flags : ℕ)
    → IsFrame n f
    → (is_present (table_entry f flags) ≡ true) × (page_addr (table_entry f flags) ≡ f)
table_entry_lem n f flags h = ground arith

-- The state in which the new, empty table is linked.
abbrev grown : ℕ → ℕ → ℕ → ℕ → Paging → Paging
grown f virt flags dir s = write_word dir (pde_idx virt) (table_entry f flags) (taken s f)

ensure_page_table-grown :
    (s : Paging) (f virt flags dir : ℕ) (xs : List ℕ)
    → Takes s f xs (taken s f)
    → ensure_page_table dir (pde_idx virt) flags s ≡ (grown f virt flags dir s, true)
unfolding ensure_page_table
ensure_page_table-grown s f virt flags dir xs k =
    rw (k.result, ensure_page_table) (ground (arith, k.not_null))

grown-entry :
    (s : Paging) (f virt flags dir : ℕ)
    → (grown f virt flags dir s).mem dir (pde_idx virt) ≡ table_entry f flags
unfolding write_word
grown-entry s f virt flags dir = ground arith

grown-table :
    (s : Paging) (f virt flags dir j : ℕ) → f ≢ dir → (grown f virt flags dir s).mem f j ≡ 0
unfolding write_word
grown-table s f virt flags dir j h = ground arith

grown-other :
    (s : Paging) (f virt flags dir a j : ℕ)
    → a ≢ f
    → (a ≢ dir) ⊎ (j ≢ pde_idx virt)
    → (grown f virt flags dir s).mem a j ≡ s.mem a j
unfolding write_word
grown-other s f virt flags dir a j h k = ground arith

-- Another page sees in the grown directory what it saw before, or the empty table.
entry_at-grown :
    (s : Paging) (f virt flags dir virt' : ℕ) (xs : List ℕ)
    → Takes s f xs (taken s f)
    → dir ≢ f
    → is_present (s.mem dir (pde_idx virt)) ≡ false
    → Elsewhere s dir virt virt'
    → entry_at (grown f virt flags dir s).mem dir virt' ≡ entry_at s.mem dir virt'
entry_at-grown s f virt flags dir virt' xs k n p h =
    elim (ℕ_discrete (pde_idx virt') (pde_idx virt)) [
      | yes e ↦
          entry_at-no_page (grown f virt flags dir s).mem dir virt' f 0
            (ap page_addr (grown-entry' e) ∙ (table_entry_lem _ f flags k.is_frame).1)
            (grown-table s f virt flags dir (pte_idx virt') (λ q. n (sym q))) refl
          ∙ sym (entry_at-no_table s.mem dir virt' (rw e p))
      | no e ↦
          let w = grown-other s f virt flags dir dir (pde_idx virt') n (inr e) in
          entry_at-same s.mem _ dir virt' (ap is_present w) (ap page_addr w) (λ q.
            let u = h.1 q in
            grown-other s f virt flags dir _ (pte_idx virt') (Takes-InUse _ k u.0).1 (inl u.1))
    ]
  where
    grown-entry' :
        pde_idx virt' ≡ pde_idx virt
        → (grown f virt flags dir s).mem dir (pde_idx virt') ≡ table_entry f flags
    grown-entry' e = rw e (grown-entry s f virt flags dir)

Elsewhere-grown :
    (s : Paging) (f virt flags dir virt' : ℕ) (xs : List ℕ)
    → Takes s f xs (taken s f)
    → dir ≢ f
    → is_present (s.mem dir (pde_idx virt)) ≡ false
    → Elsewhere s dir virt virt'
    → Elsewhere (grown f virt flags dir s) dir virt virt'
unfolding write_word
Elsewhere-grown s f virt flags dir virt' xs k n p h = (
  h.0,
  elim (ℕ_discrete (pde_idx virt') (pde_idx virt)) [
    | yes e ↦ λ q.
        rw (e, grown-entry s f virt flags dir, (table_entry_lem _ f flags k.is_frame).1)
          (Takes-new k, (λ z. n (sym z)), (λ z. absurd (z refl)))
    | no e ↦
        rw
          (
            grown-other s f virt flags dir dir (pde_idx virt') n (inr e),
            grown-entry s f virt flags dir,
            (table_entry_lem _ f flags k.is_frame).1,
          )
          (λ q. let u = h.1 q in let v = Takes-InUse _ k u.0 in (v.0, u.1, λ z. v.1))
  ],
)

-- `mapPage` of the page of `virt`, by whether the directory has a table for it and by the free
-- list.
abbrev pub MapsTo : Paging → ℕ → ℕ → ℕ → ℕ → List ℕ → Bool → Outcome (Paging × Bool) → Type 0
MapsTo s virt phys flags dir xs true r =
    let pte = s.mem (page_addr (s.mem dir (pde_idx virt))) (pte_idx virt) in
    (t : Paging) × (r ≡ done (t, true))
    × Finds s dir virt (some (entry_of phys flags)) t
    × Sound t.pmm (list_after s.pmm pte xs)
    × (t.pmm.ref_counts ≡ counts_after s.pmm pte)
MapsTo s virt phys flags dir [] false r = r ≡ done (s, false)
MapsTo s virt phys flags dir (f ∷ xs) false r =
    (t : Paging) × (r ≡ done (t, true))
    × Finds s dir virt (some (entry_of phys flags)) t
    × Sound t.pmm xs
    × (t.pmm.ref_counts ≡ update s.pmm.ref_counts (frame_index f) 1)

-- The state after the write behind the table `table`.
abbrev mapped : ℕ → ℕ → ℕ → ℕ → ℕ → Paging → Paging
mapped table virt phys flags dir s = record s {
  mem = mapped_mem s.mem table virt (entry_of phys flags) flags dir;
}

map_page-present :
    (s : Paging) (virt phys flags dir : ℕ) (xs : List ℕ)
    → Sound s.pmm xs
    → Walkable s dir virt
    → PageApart s dir virt virt
    → is_present (s.mem dir (pde_idx virt)) ≡ true
    → MapsTo s virt phys flags dir xs true (map_page virt phys flags dir s)
map_page-present s virt phys flags dir xs v w a p =
    let u = w.table_used p in
    let d =
      drop_entry-Drops s _ xs v
        (λ q. w.page_used _ (entry_at-some s.mem dir virt _ _ p refl refl q)) in
    let t = record d.0 {
      mem =
          mapped_mem d.0.mem (page_addr (s.mem dir (pde_idx virt))) virt (entry_of phys flags) flags
            dir;
    } in
    let k = Drops-Kept s d.0 dir virt xs p a d.1 in
    let same = Kept-dir s dir virt d.0.mem k in
    let seen =
      Sees-mapped (record s { mem = d.0.mem }) t dir virt phys flags (rw same p) (rw same u.1)
        (ap
          (λ w.
            mapped_mem d.0.mem (page_addr (w (pde_idx virt))) virt (entry_of phys flags) flags dir)
          (sym same)) in
    (
      t,
      map_page-table virt phys flags dir _ s (resolve_page_table-present virt dir s xs v p u.0)
            u.0.0
          ∙ map_in-done s d.0 _ virt phys flags dir d.1.result,
      Kept-Finds s dir virt d.0.mem (some (entry_of phys flags)) t k seen.0 seen.1,
      d.1.sound,
      d.1.counts,
    )

map_page-retry :
    (s r : Paging) (virt phys flags dir table : ℕ)
    → resolve_page_table virt dir s ≡ done 0
    → ensure_page_table dir (pde_idx virt) flags s ≡ (r, true)
    → resolve_page_table virt dir r ≡ done table
    → map_page virt phys flags dir s ≡ map_in table virt phys flags dir r
unfolding map_page
map_page-retry s r virt phys flags dir table e f g = rw (e, f, g, map_page) refl

resolve_page_table-absent :
    (virt dir : ℕ) (s : Paging)
    → is_present (s.mem dir (pde_idx virt)) ≡ false
    → resolve_page_table virt dir s ≡ done 0
unfolding resolve_page_table
resolve_page_table-absent virt dir s p = rw (p, resolve_page_table) refl

drop_entry-grown :
    (s : Paging) (f virt flags dir j : ℕ)
    → f ≢ dir
    → drop_entry ((grown f virt flags dir s).mem f j) (grown f virt flags dir s)
      ≡ done (grown f virt flags dir s)
unfolding drop_entry
drop_entry-grown s f virt flags dir j h = rw (grown-table s f virt flags dir j h) refl

map_page-grown :
    (s : Paging) (virt phys flags dir f : ℕ) (xs : List ℕ)
    → Takes s f xs (taken s f)
    → Walkable s dir virt
    → is_present (s.mem dir (pde_idx virt)) ≡ false
    → MapsTo s virt phys flags dir (f ∷ xs) false (map_page virt phys flags dir s)
unfolding write_word
map_page-grown s virt phys flags dir f xs k w p = (
  mapped f virt phys flags dir g,
  map_page-retry s g virt phys flags dir f (resolve_page_table-absent virt dir s p)
        (ensure_page_table-grown s f virt flags dir xs k) found
      ∙ map_in-done g g f virt phys flags dir
          (drop_entry-grown s f virt flags dir (pte_idx virt) (λ z. n (sym z))),
  (
    seen.0,
    λ virt' h a.
        seen.1 virt' (Elsewhere-grown s f virt flags dir virt' xs k n p h)
        ∙ entry_at-grown s f virt flags dir virt' xs k n p h,
  ),
  k.sound,
  k.counts,
)
  where
    n : dir ≢ f
    n = (Takes-InUse dir k w.dir_used).1

    g : Paging
    g = grown f virt flags dir s

    at_f : page_addr ((grown f virt flags dir s).mem dir (pde_idx virt)) ≡ f
    at_f = ap page_addr (grown-entry s f virt flags dir) ∙ (table_entry_lem _ f flags k.is_frame).1

    there : is_present ((grown f virt flags dir s).mem dir (pde_idx virt)) ≡ true
    there =
        ap is_present (grown-entry s f virt flags dir) ∙ (table_entry_lem _ f flags k.is_frame).0

    found : resolve_page_table virt dir (grown f virt flags dir s) ≡ done f
    found =
        resolve_page_table-present virt dir g xs k.sound there
          (subst (InUse (taken s f).pmm) (sym at_f) (Takes-new k))
        ∙ ap done at_f

    seen :
        Sees
          (grown f virt flags dir s)
          dir
          virt
          (entry_of phys flags)
          (mapped f virt phys flags dir (grown f virt flags dir s))
    seen =
        Sees-mapped g (mapped f virt phys flags dir g) dir virt phys flags there
          (λ z. n (sym z ∙ at_f))
          (ap (λ a. mapped_mem g.mem a virt (entry_of phys flags) flags dir) (sym at_f))

map_page-absent :
    (s : Paging) (virt phys flags dir : ℕ) (xs : List ℕ)
    → Sound s.pmm xs
    → Walkable s dir virt
    → is_present (s.mem dir (pde_idx virt)) ≡ false
    → MapsTo s virt phys flags dir xs false (map_page virt phys flags dir s)
unfolding map_page ensure_page_table
map_page-absent s virt phys flags dir [] v w p =
    rw (resolve_page_table-absent virt dir s p, alloc-empty s v.0) refl
map_page-absent s virt phys flags dir (f ∷ xs) v w p =
    map_page-grown s virt phys flags dir f xs (alloc-Takes s f xs v) w p

-- For a free list in order on a machine with less than 4 GiB, and an address whose directory,
-- table and page are frames with references, of which the table is not the directory and the page
-- is neither, mapPage ends. Where the directory has a table for the address it returns true and
-- gives up one reference to the page mapped before; where it has none it returns false and changes
-- nothing if there is no free frame, and else returns true having taken one. Where it returns true
-- the processor afterwards finds the new entry for the address, and for an address of another
-- page, whose table is in use, not shared with this address and not the page given up, what it
-- found before.
pub map_page-MapsTo :
    (s : Paging) (virt phys flags dir : ℕ) (xs : List ℕ)
    → Sound s.pmm xs
    → Walkable s dir virt
    → PageApart s dir virt virt
    → MapsTo s virt phys flags dir xs
        (is_present (s.mem dir (pde_idx virt)))
        (map_page virt phys flags dir s)
map_page-MapsTo s virt phys flags dir xs v w a =
    elim (Bool-cases (is_present (s.mem dir (pde_idx virt)))) [
      | inl p ↦ rw p (map_page-present s virt phys flags dir xs v w a p)
      | inr p ↦ rw p (map_page-absent s virt phys flags dir xs v w p)
    ]
