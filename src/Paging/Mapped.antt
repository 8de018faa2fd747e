-- ===== src/Paging/Mapped.antt =====
-- What the processor finds for an address in the tables of kernel/arch/i386/Paging.cc, and what
-- taking and giving up frames leaves of them.
use doors.Base.{
  done, ℕ, ◌<◌, ◌≡◌, ◌≢◌, refl, List, arith, true, false, if◌then◌else◌, Option, none, some, inl,
  inr, Bool-cases,
}
use doors.Pmm.{Pmm, max_frames, is_bad_phys_addr, max_phys_addr}
use doors.Pmm.Idle.{Inv, IsFrame, frame_index}
use doors.Paging.{Paging, check_phys_addr}
use doors.Paging.Flags.{is_present, page_addr, pde_idx, pte_idx}

-- The entry for the page of `virt`.
unfoldable pub entry_at : (ℕ → ℕ → ℕ) → ℕ → ℕ → Option ℕ
entry_at mem dir virt =
    let pde = mem dir (pde_idx virt) in
    let pte = mem (page_addr pde) (pte_idx virt) in
    if is_present pde then (if is_present pte then some pte else none) else none

-- It depends on two words alone.
pub entry_at-same :
    (mem mem' : ℕ → ℕ → ℕ) (dir virt : ℕ)
    → is_present (mem' dir (pde_idx virt)) ≡ is_present (mem dir (pde_idx virt))
    → page_addr (mem' dir (pde_idx virt)) ≡ page_addr (mem dir (pde_idx virt))
    → (is_present (mem dir (pde_idx virt)) ≡ true
        → mem' (page_addr (mem dir (pde_idx virt))) (pte_idx virt)
          ≡ mem (page_addr (mem dir (pde_idx virt))) (pte_idx virt))
    → entry_at mem' dir virt ≡ entry_at mem dir virt
unfolding entry_at
entry_at-same mem mem' dir virt p a w = elim (Bool-cases (is_present (mem dir (pde_idx virt)))) [
  | inl e ↦ rw (p, a, w e) refl
  | inr e ↦ rw (p, e, entry_at) refl
]

pub entry_at-some :
    (mem : ℕ → ℕ → ℕ) (dir virt table pte : ℕ)
    → is_present (mem dir (pde_idx virt)) ≡ true
    → page_addr (mem dir (pde_idx virt)) ≡ table
    → mem table (pte_idx virt) ≡ pte
    → is_present pte ≡ true
    → entry_at mem dir virt ≡ some pte
unfolding entry_at
entry_at-some mem dir virt table pte p a w q = rw (p, a, w, q, entry_at) refl

pub entry_at-no_table :
    (mem : ℕ → ℕ → ℕ) (dir virt : ℕ)
    → is_present (mem dir (pde_idx virt)) ≡ false
    → entry_at mem dir virt ≡ none
unfolding entry_at
entry_at-no_table mem dir virt p = rw (p, entry_at) refl

pub entry_at-no_page :
    (mem : ℕ → ℕ → ℕ) (dir virt table pte : ℕ)
    → page_addr (mem dir (pde_idx virt)) ≡ table
    → mem table (pte_idx virt) ≡ pte
    → is_present pte ≡ false
    → entry_at mem dir virt ≡ none
unfolding entry_at
entry_at-no_page mem dir virt table pte a w q = rw (a, w, q, entry_at) (ground arith)

-- `a` is a frame with references.
abbrev pub InUse : Pmm → ℕ → Type 0
InUse p a = (a ≢ 0) × IsFrame p.max_frame_idx a × (p.ref_counts (frame_index a) ≢ 0)

-- The free list is in order, and there are less than 4 GiB of memory.
abbrev pub Sound : Pmm → List ℕ → Type 0
Sound p xs = Inv p xs × (p.max_frame_idx < max_frames)

-- The frames that the tables name for `virt` are in use, and the table is not the directory.
pub record Walkable (s : Paging) (dir virt : ℕ) : Type 0 where
  pub dir_used : InUse s.pmm dir
  pub table_used :
      is_present (s.mem dir (pde_idx virt)) ≡ true
      → InUse s.pmm (page_addr (s.mem dir (pde_idx virt)))
        × (page_addr (s.mem dir (pde_idx virt)) ≢ dir)
  pub page_used : (pte : ℕ) → entry_at s.mem dir virt ≡ some pte → InUse s.pmm (page_addr pte)

pub is_bad_phys_addr-IsFrame :
    (p : Pmm) (a : ℕ)
    → a ≢ 0
    → IsFrame p.max_frame_idx a
    → p.max_frame_idx < max_frames
    → is_bad_phys_addr a p ≡ false
unfolding is_bad_phys_addr max_phys_addr
is_bad_phys_addr-IsFrame p a h k m = ground arith

pub check_phys_addr-InUse :
    (s : Paging) (a : ℕ) (xs : List ℕ)
    → Sound s.pmm xs
    → InUse s.pmm a
    → check_phys_addr a s ≡ done a
unfolding check_phys_addr
check_phys_addr-InUse s a xs v u = rw (is_bad_phys_addr-IsFrame s.pmm a u.0 u.1 v.1) refl
