-- ===== src/Paging/MapPage.antt =====
-- `mapPage` of kernel/arch/i386/Paging.cc: what the processor finds afterwards.
use doors.Base.{
  ℕ_discrete, done, ℕ, ◌/◌, ◌≡◌, ◌≢◌, ◌⊎◌, refl, sym, ap, ◌∙◌, List, arith, update, update_ne, true,
  if◌then◌else◌, Option, some, inl, inr, Bool-cases, ◌&&◌, not,
}
use doors.Paging.{
  Paging, write_word, drop_entry, open_pde, map_in, map_page, entry_of, resolve_page_table,
}
use doors.Paging.Flags.{is_present, is_user, page_addr, set_user, pde_idx, pte_idx}
use doors.Paging.Frames.{Drops}
use doors.Paging.Mapped.{
  entry_at, entry_at-same, entry_at-some, InUse, Sound, check_phys_addr-InUse,
}

-- What `map_in` writes.
unfoldable pub linked_mem : (ℕ → ℕ → ℕ) → ℕ → ℕ → ℕ → ℕ → ℕ → ℕ
linked_mem mem table virt e = update mem table (update (mem table) (pte_idx virt) e)

unfoldable pub opened_mem : (ℕ → ℕ → ℕ) → ℕ → ℕ → ℕ → ℕ → ℕ → ℕ
opened_mem m virt flags dir =
    if is_user flags && not (is_user (m dir (pde_idx virt)))
    then update m dir (update (m dir) (pde_idx virt) (set_user (m dir (pde_idx virt))))
    else m

pub entry_of-present : (phys flags : ℕ) → is_present (entry_of phys flags) ≡ true
unfolding entry_of
entry_of-present phys flags = ground arith

pub page_addr-entry_of : (phys flags : ℕ) → page_addr (entry_of phys flags) ≡ page_addr phys
unfolding entry_of
page_addr-entry_of phys flags = ground arith

-- Marking an entry of the directory for user code changes neither its address nor its presence.
set_user-keeps :
    (w : ℕ) → (is_present (set_user w) ≡ is_present w) × (page_addr (set_user w) ≡ page_addr w)
set_user-keeps w = ground arith

-- So the entries found for all addresses stay.
opened_word :
    (m : ℕ → ℕ → ℕ) (virt flags dir a j : ℕ)
    → (is_present (opened_mem m virt flags dir a j) ≡ is_present (m a j))
      × (page_addr (opened_mem m virt flags dir a j) ≡ page_addr (m a j))
      × (a ≢ dir → opened_mem m virt flags dir a j ≡ m a j)
unfolding opened_mem
opened_word m virt flags dir a j = ground (arith, set_user-keeps (m dir (pde_idx virt)))

entry_at-opened :
    (m : ℕ → ℕ → ℕ) (virt flags dir virt' : ℕ)
    → (is_present (m dir (pde_idx virt')) ≡ true → page_addr (m dir (pde_idx virt')) ≢ dir)
    → entry_at (opened_mem m virt flags dir) dir virt' ≡ entry_at m dir virt'
entry_at-opened m virt flags dir virt' h =
    let o = opened_word m virt flags dir in
    entry_at-same m (opened_mem m virt flags dir) dir virt' (o dir (pde_idx virt')).0
      (o dir (pde_idx virt')).1 (λ p. (o _ _).2 (h p))

pub linked_ne : (m : ℕ → ℕ → ℕ) (table virt e a : ℕ) → a ≢ table → linked_mem m table virt e a ≡ m a
unfolding linked_mem
linked_ne m table virt e a h = update_ne m table a _ h

pub linked_self :
    (m : ℕ → ℕ → ℕ) (table virt e : ℕ) → linked_mem m table virt e table (pte_idx virt) ≡ e
unfolding linked_mem
linked_self m table virt e = ground arith

linked_other :
    (m : ℕ → ℕ → ℕ) (table virt e a j : ℕ)
    → (a ≢ table) ⊎ (j ≢ pte_idx virt)
    → linked_mem m table virt e a j ≡ m a j
unfolding linked_mem
linked_other m table virt e a j h = ground arith

abbrev pub mapped_mem : (ℕ → ℕ → ℕ) → ℕ → ℕ → ℕ → ℕ → ℕ → ℕ → ℕ → ℕ
mapped_mem m table virt e flags dir = opened_mem (linked_mem m table virt e) virt flags dir

-- The page of `virt'` is another one, and no other entry of the directory leads to its table.
abbrev pub Elsewhere : Paging → ℕ → ℕ → ℕ → Type 0
Elsewhere s dir virt virt' =
    let pde = s.mem dir (pde_idx virt') in
    (virt' / 4096 ≢ virt / 4096)
    × (is_present pde ≡ true
        → InUse s.pmm (page_addr pde)
          × (page_addr pde ≢ dir)
          × (pde_idx virt' ≢ pde_idx virt → page_addr pde ≢ page_addr (s.mem dir (pde_idx virt))))

other_index :
    (virt virt' : ℕ)
    → virt' / 4096 ≢ virt / 4096
    → pde_idx virt' ≡ pde_idx virt
    → pte_idx virt' ≢ pte_idx virt
other_index virt virt' h e k = h (omega (arith, e, k))

-- What is written behind a table that is there, seen from another page.
pub Elsewhere-linked :
    (s : Paging) (dir virt virt' e : ℕ)
    → is_present (s.mem dir (pde_idx virt)) ≡ true
    → page_addr (s.mem dir (pde_idx virt)) ≢ dir
    → Elsewhere s dir virt virt'
    → entry_at (linked_mem s.mem (page_addr (s.mem dir (pde_idx virt))) virt e) dir virt'
      ≡ entry_at s.mem dir virt'
Elsewhere-linked s dir virt virt' e p d h =
    entry_at-same s.mem _ dir virt' (ap (λ w. is_present (w (pde_idx virt'))) same)
      (ap (λ w. page_addr (w (pde_idx virt'))) same)
      (λ q. linked_other s.mem _ virt e _ (pte_idx virt') (apart q))
  where
    same : linked_mem s.mem (page_addr (s.mem dir (pde_idx virt))) virt e dir ≡ s.mem dir
    same = linked_ne s.mem (page_addr (s.mem dir (pde_idx virt))) virt e dir (λ k. d (sym k))

    apart :
        is_present (s.mem dir (pde_idx virt')) ≡ true
        → (page_addr (s.mem dir (pde_idx virt')) ≢ page_addr (s.mem dir (pde_idx virt)))
          ⊎ (pte_idx virt' ≢ pte_idx virt)
    apart q = elim (ℕ_discrete (pde_idx virt') (pde_idx virt)) [
      | yes k ↦ inr (other_index virt virt' h.0 k)
      | no k ↦ inl ((h.1 q).2 k)
    ]

-- What the processor finds afterwards: the new entry for the page, and the old ones elsewhere.
abbrev pub Sees : Paging → ℕ → ℕ → ℕ → Paging → Type 0
Sees s dir virt e t =
    (entry_at t.mem dir virt ≡ some e)
    × ((virt' : ℕ)
        → Elsewhere s dir virt virt'
        → entry_at t.mem dir virt' ≡ entry_at s.mem dir virt')

-- The page of `virt` that loses a reference, if there is one, is neither the directory nor a table on
-- the way to `virt` or `virt'`, so that a link written into it when it is freed is not seen.
abbrev pub PageApart : Paging → ℕ → ℕ → ℕ → Type 0
PageApart s dir virt virt' =
    (pte : ℕ)
    → entry_at s.mem dir virt ≡ some pte
    → (dir ≢ page_addr pte)
      × (is_present (s.mem dir (pde_idx virt')) ≡ true
          → page_addr (s.mem dir (pde_idx virt')) ≢ page_addr pte)

-- What the processor finds afterwards when the page of `virt` was given up.
abbrev pub Finds : Paging → ℕ → ℕ → Option ℕ → Paging → Type 0
Finds s dir virt e t =
    (entry_at t.mem dir virt ≡ e)
    × ((virt' : ℕ)
        → Elsewhere s dir virt virt'
        → PageApart s dir virt virt'
        → entry_at t.mem dir virt' ≡ entry_at s.mem dir virt')

-- The memory `m` is that of `s` in the directory and in all frames but the page of `virt`.
unfoldable pub Kept : Paging → ℕ → ℕ → (ℕ → ℕ → ℕ) → Type 0
Kept s dir virt m =
    (m dir ≡ s.mem dir)
    × ((b : ℕ)
        → ((pte : ℕ) → entry_at s.mem dir virt ≡ some pte → b ≢ page_addr pte)
        → m b ≡ s.mem b)

pub Kept-dir : (s : Paging) (dir virt : ℕ) (m : ℕ → ℕ → ℕ) → Kept s dir virt m → m dir ≡ s.mem dir
unfolding Kept
Kept-dir s dir virt m k = k.0

pub Kept-entry_at :
    (s : Paging) (dir virt virt' : ℕ) (m : ℕ → ℕ → ℕ)
    → Kept s dir virt m
    → PageApart s dir virt virt'
    → entry_at m dir virt' ≡ entry_at s.mem dir virt'
unfolding Kept
Kept-entry_at s dir virt virt' m k a =
    entry_at-same s.mem m dir virt' (ap (λ w. is_present (w (pde_idx virt'))) k.0)
      (ap (λ w. page_addr (w (pde_idx virt'))) k.0)
      (λ p. ap (λ w. w (pte_idx virt')) (k.1 _ (λ pte e. (a pte e).1 p)))

pub Kept-Elsewhere :
    (s : Paging) (dir virt virt' : ℕ) (m : ℕ → ℕ → ℕ)
    → Kept s dir virt m
    → Elsewhere s dir virt virt'
    → Elsewhere (record s { mem = m }) dir virt virt'
unfolding Kept
Kept-Elsewhere s dir virt virt' m k h = rw k.0 h

pub Drops-Kept :
    (s t : Paging) (dir virt : ℕ) (xs : List ℕ)
    → is_present (s.mem dir (pde_idx virt)) ≡ true
    → PageApart s dir virt virt
    → Drops s (s.mem (page_addr (s.mem dir (pde_idx virt))) (pte_idx virt)) xs t
    → Kept s dir virt t.mem
unfolding Kept
Drops-Kept s t dir virt xs p a k = (
  k.kept dir (λ q. (a _ (entry_at-some s.mem dir virt _ _ p refl refl q)).0),
  λ b h. k.kept b (λ q. h _ (entry_at-some s.mem dir virt _ _ p refl refl q)),
)

-- What is found with the memory in which the page was given up is found.
pub Kept-Finds :
    (s : Paging) (dir virt : ℕ) (m : ℕ → ℕ → ℕ) (e : Option ℕ) (t : Paging)
    → Kept s dir virt m
    → entry_at t.mem dir virt ≡ e
    → ((virt' : ℕ)
        → Elsewhere (record s { mem = m }) dir virt virt'
        → entry_at t.mem dir virt' ≡ entry_at m dir virt')
    → Finds s dir virt e t
Kept-Finds s dir virt m e t k h f = (
  h,
  λ virt' g a.
      f virt' (Kept-Elsewhere s dir virt virt' m k g) ∙ Kept-entry_at s dir virt virt' m k a,
)

open_pde-opened :
    (flags dir virt : ℕ) (s : Paging)
    → open_pde flags dir (pde_idx virt) s ≡ record s { mem = opened_mem s.mem virt flags dir }
unfolding open_pde write_word opened_mem
open_pde-opened flags dir virt s =
    elim (Bool-cases (is_user flags && not (is_user (s.mem dir (pde_idx virt))))) [
      | inl e ↦ rw (e, open_pde, opened_mem) refl
      | inr e ↦ rw (e, open_pde, opened_mem) refl
    ]

write_word-linked :
    (table virt e : ℕ) (s : Paging)
    → write_word table (pte_idx virt) e s ≡ record s { mem = linked_mem s.mem table virt e }
unfolding write_word linked_mem
write_word-linked table virt e s = refl

pub map_in-done :
    (s t : Paging) (table virt phys flags dir : ℕ)
    → drop_entry (s.mem table (pte_idx virt)) s ≡ done t
    → map_in table virt phys flags dir s
      ≡ done (record t { mem = mapped_mem t.mem table virt (entry_of phys flags) flags dir }, true)
unfolding map_in
map_in-done s t table virt phys flags dir d =
    rw (d, map_in)
      (ap (λ u. done (u, true))
        (open_pde-opened flags dir virt _
          ∙ rw (write_word-linked table virt (entry_of phys flags) t) refl))

-- `map_in` behind an entry of the directory that is there.
pub Sees-mapped :
    (s t : Paging) (dir virt phys flags : ℕ)
    → is_present (s.mem dir (pde_idx virt)) ≡ true
    → page_addr (s.mem dir (pde_idx virt)) ≢ dir
    → t.mem
      ≡ mapped_mem s.mem (page_addr (s.mem dir (pde_idx virt))) virt (entry_of phys flags) flags dir
    → Sees s dir virt (entry_of phys flags) t
Sees-mapped s t dir virt phys flags p d k = rw k (
  entry_at-opened m virt flags dir virt (λ _. rw same d)
      ∙ entry_at-some m dir virt (page_addr (s.mem dir (pde_idx virt))) (entry_of phys flags)
          (rw same p) (rw same refl) (linked_self s.mem _ virt (entry_of phys flags))
          (entry_of-present phys flags),
  λ virt' h.
      entry_at-opened m virt flags dir virt' (λ q. rw same ((h.1 (rw (← same) q)).1))
      ∙ Elsewhere-linked s dir virt virt' (entry_of phys flags) p d h,
)
  where
    m : ℕ → ℕ → ℕ
    m = linked_mem s.mem (page_addr (s.mem dir (pde_idx virt))) virt (entry_of phys flags)

    same : m dir ≡ s.mem dir
    same = linked_ne s.mem _ virt (entry_of phys flags) dir (λ e. d (sym e))

pub resolve_page_table-present :
    (virt dir : ℕ) (s : Paging) (xs : List ℕ)
    → Sound s.pmm xs
    → is_present (s.mem dir (pde_idx virt)) ≡ true
    → InUse s.pmm (page_addr (s.mem dir (pde_idx virt)))
    → resolve_page_table virt dir s ≡ done (page_addr (s.mem dir (pde_idx virt)))
unfolding resolve_page_table
resolve_page_table-present virt dir s xs v p u =
    rw (p, resolve_page_table) (check_phys_addr-InUse s _ xs v u)

pub map_page-table :
    (virt phys flags dir table : ℕ) (s : Paging)
    → resolve_page_table virt dir s ≡ done table
    → table ≢ 0
    → map_page virt phys flags dir s ≡ map_in table virt phys flags dir s
unfolding map_page
map_page-table virt phys flags dir table s e h = rw e (ground arith)
