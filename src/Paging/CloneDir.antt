-- ===== src/Paging/CloneDir.antt =====
-- `clonePageDir` of kernel/arch/i386/Paging.cc: the child's tables are the parent's with every
-- writable page made copy-on-write.
use doors.Base.{
  ℕ, suc, ◌+◌, ◌<◌, ◌≤◌, ◌≡◌, ◌≢◌, sym, subst, ap, ◌∙◌, List, arith, true, false, ℕ_discrete,
}
use doors.Paging.{Paging}
use doors.Paging.Directory.{protect}
use doors.Paging.Flags.{is_present, is_user, page_addr, page_flags, pte_count, pde_count}
use doors.Paging.Mapped.{InUse, Sound}

-- The directory `src` is in use with the tables and pages that it gives to user code.
pub record Source (s : Paging) (src : ℕ) : Type 0 where
  pub used : InUse s.pmm src
  pub table :
      (i : ℕ)
      → i < pde_count
      → is_present (s.mem src i) ≡ true
      → is_user (s.mem src i) ≡ true
      → InUse s.pmm (page_addr (s.mem src i))
  pub page :
      (i k : ℕ)
      → i < pde_count
      → k < pte_count
      → is_present (s.mem src i) ≡ true
      → is_user (s.mem src i) ≡ true
      → is_present (s.mem (page_addr (s.mem src i)) k) ≡ true
      → InUse s.pmm (page_addr (s.mem (page_addr (s.mem src i)) k))

-- A table of its own, in a frame that was free, with the protected entries.
abbrev pub HasCopy : Paging → ℕ → ℕ → Paging → ℕ → Type 0
HasCopy s pde dir t j =
    (f : ℕ) × (t.mem dir j ≡ f + page_flags pde)
    × InUse t.pmm f
    × (f ≢ dir)
    × (InUse s.pmm f → ⊥)
    × ((k : ℕ) → k < pte_count → t.mem f k ≡ protect (s.mem (page_addr pde) k))

-- Entry `j` of the child: an absent entry stays absent, a table of the kernel is shared, and a
-- table of user code is copied.
abbrev pub Child : Paging → ℕ → ℕ → Paging → ℕ → Type 0
Child s src dir t j =
    let pde = s.mem src j in
    (is_present pde ≡ false → t.mem dir j ≡ 0)
    × (is_present pde ≡ true → is_user pde ≡ false → t.mem dir j ≡ pde)
    × (is_present pde ≡ true → is_user pde ≡ true → HasCopy s pde dir t j)

-- The state before round `i`.
pub record Cloning (s : Paging) (src dir i : ℕ) (t : Paging) (xs : List ℕ) : Type 0 where
  pub sound : Sound t.pmm xs
  pub kept : (a : ℕ) → InUse s.pmm a → InUse t.pmm a × (t.mem a ≡ s.mem a)
  pub dir_used : InUse t.pmm dir
  pub dir_new : InUse s.pmm dir → ⊥
  pub made : (j : ℕ) → j < i → Child s src dir t j
  pub rest : (j : ℕ) → i ≤ j → t.mem dir j ≡ 0

-- A later state keeps the entries that are made.
pub record Keeps (dir i : ℕ) (t q : Paging) : Type 0 where
  pub used : (a : ℕ) → InUse t.pmm a → InUse q.pmm a
  pub elsewhere : (a : ℕ) → InUse t.pmm a → a ≢ dir → q.mem a ≡ t.mem a
  pub others : (j : ℕ) → j ≢ i → q.mem dir j ≡ t.mem dir j

Child-Keeps :
    (s t q : Paging) (src dir i j : ℕ)
    → Keeps dir i t q
    → j ≢ i
    → Child s src dir t j
    → Child s src dir q j
Child-Keeps s t q src dir i j k n c = (
  λ p. k.others j n ∙ c.0 p,
  λ p u. k.others j n ∙ c.1 p u,
  λ p u.
      let h = c.2 p u in
      (
        h.0,
        k.others j n ∙ h.1,
        k.used h.0 h.2,
        h.3,
        h.4,
        λ x l. ap (λ w. w x) (k.elsewhere h.0 h.2 h.3) ∙ h.5 x l,
      ),
)

pub Cloning-next :
    (s t q : Paging) (src dir i : ℕ) (xs ys : List ℕ)
    → Cloning s src dir i t xs
    → Keeps dir i t q
    → Sound q.pmm ys
    → Child s src dir q i
    → Cloning s src dir (suc i) q ys
Cloning-next s t q src dir i xs ys c k v h = record {
  sound = v;
  kept = λ a u.
      let w = c.kept a u in
      (k.used a w.0, k.elsewhere a w.0 (λ e. c.dir_new (subst (InUse s.pmm) e u)) ∙ w.1);
  dir_used = k.used dir c.dir_used;
  dir_new = c.dir_new;
  made = λ j l. elim (ℕ_discrete j i) [
    | yes e ↦ subst (Child s src dir q) (sym e) h
    | no n ↦ Child-Keeps s t q src dir i j k n (c.made j (omega (arith, n)))
  ];
  rest = λ j l. k.others j (omega arith) ∙ c.rest j (omega arith);
}
