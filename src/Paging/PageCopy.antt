-- ===== src/Paging/PageCopy.antt =====
-- The entries and the copy of a page that `handleCowFault` of kernel/arch/i386/Paging.cc makes.
use doors.Base.{
  Outcome, done, ℕ, zero, suc, ◌+◌, ◌%◌, ◌≡◌, ◌≢◌, sym, ap, ◌∙◌, List, [], ◌∷◌, arith, update,
  update_ne, update_self, Bool, true, false, if◌then◌else◌, Option, none, some, ◌&&◌, add32,
}
use doors.Pmm.{Pmm, remove_ref, set_ref_count, page_size}
use doors.Pmm.Idle.{frame_index, Idle-update, Idle-Absent}
use doors.Pmm.Ownership.{ref_count_entry-IsFrame}
use doors.Paging.{Paging, write_word, copy_page}
use doors.Paging.Flags.{
  is_present, is_rw, is_user, is_cow, page_addr, page_flags, set_rw, clear_cow, pde_idx, pte_idx,
}
use doors.Paging.Mapped.{entry_at, entry_at-some, InUse, Sound}
use doors.Paging.Frames.{Takes, taken}

-- The entry of the page of `virt` if it is copy-on-write for user code.
unfoldable pub cow_at : (ℕ → ℕ → ℕ) → ℕ → ℕ → Option ℕ
cow_at mem dir virt =
    let pde = mem dir (pde_idx virt) in
    let pte = mem (page_addr pde) (pte_idx virt) in
    if is_present pde && is_user pde
    then (if is_present pte && is_cow pte then some pte else none)
    else none

-- `e` gives write access to `frame` and keeps what else `pte` says.
abbrev pub Writable : ℕ → ℕ → ℕ → Type 0
Writable frame pte e =
    (page_addr e ≡ frame)
    × (is_present e ≡ true)
    × (is_rw e ≡ true)
    × (is_cow e ≡ false)
    × (is_user e ≡ is_user pte)

pub Writable-own :
    (pte : ℕ)
    → is_present pte ≡ true
    → is_cow pte ≡ true
    → Writable (page_addr pte) pte (clear_cow (set_rw pte))
Writable-own pte p c = ground arith

pub Writable-copy :
    (pte f : ℕ)
    → is_present pte ≡ true
    → is_cow pte ≡ true
    → f % page_size ≡ 0
    → Writable f pte (clear_cow (set_rw (page_flags pte + f)))
Writable-copy pte f p c h = ground arith

-- `removeRef` of a frame that keeps a reference.
pub remove_ref-shared :
    (p : Pmm) (a n : ℕ) (xs : List ℕ)
    → Sound p xs
    → InUse p a
    → p.ref_counts (frame_index a) ≡ suc (suc n)
    → (remove_ref a p ≡ done (set_ref_count (frame_index a) (suc n) p, false))
      × Sound (set_ref_count (frame_index a) (suc n) p) xs
unfolding remove_ref set_ref_count
remove_ref-shared p a n xs v u e = (
  ground (arith, ref_count_entry-IsFrame p a u.1),
  (
    record {
      chain = v.0.chain;
      distinct = v.0.distinct;
      counted = v.0.counted;
      idle =
          Idle-update p.ref_counts p.max_frame_idx a (suc n) xs u.1.0
            (Idle-Absent p.ref_counts p.max_frame_idx a xs v.0.idle u.2) v.0.idle;
      frames = v.0.frames;
    },
    v.1,
  ),
)

-- The handled fault on the entry `pte`, behind which there are `n` other references to the page, by
-- the free list.
abbrev pub Resolves : Paging → ℕ → ℕ → ℕ → ℕ → List ℕ → Outcome (Paging × Bool) → Type 0
Resolves s dir virt pte zero xs r =
    (t : Paging) × (e : ℕ) × (r ≡ done (t, true))
    × (entry_at t.mem dir virt ≡ some e)
    × Writable (page_addr pte) pte e
    × (t.pmm ≡ s.pmm)
    × ((a : ℕ) → a ≢ page_addr (s.mem dir (pde_idx virt)) → t.mem a ≡ s.mem a)
Resolves s dir virt pte (suc n) [] r =
    r ≡ done (record s { cow_faults = add32 s.cow_faults 1 }, false)
Resolves s dir virt pte (suc n) (f ∷ xs) r =
    (t : Paging) × (e : ℕ) × (r ≡ done (t, true))
    × (entry_at t.mem dir virt ≡ some e)
    × Writable f pte e
    × (t.mem f ≡ s.mem (page_addr pte))
    × Sound t.pmm xs
    × (t.pmm.ref_counts
        ≡ update (update s.pmm.ref_counts (frame_index f) 1) (frame_index (page_addr pte)) (suc n))
    × ((a : ℕ) → a ≢ page_addr (s.mem dir (pde_idx virt)) → a ≢ f → t.mem a ≡ s.mem a)

-- The entry of a page whose table is not the directory, after it is written.
pub entry_at-written :
    (s : Paging) (dir virt table e : ℕ)
    → is_present (s.mem dir (pde_idx virt)) ≡ true
    → page_addr (s.mem dir (pde_idx virt)) ≡ table
    → table ≢ dir
    → is_present e ≡ true
    → entry_at (write_word table (pte_idx virt) e s).mem dir virt ≡ some e
unfolding write_word
entry_at-written s dir virt table e p a d h =
    let same = ap (λ w. w (pde_idx virt)) (update_ne s.mem table dir _ (λ z. d (sym z))) in
    entry_at-some _ dir virt table e (ap is_present same ∙ p) (ap page_addr same ∙ a) (ground arith)
      h

pub write_word-elsewhere :
    (s : Paging) (table i e a : ℕ) → a ≢ table → (write_word table i e s).mem a ≡ s.mem a
unfolding write_word
write_word-elsewhere s table i e a h = update_ne s.mem table a _ h

unfoldable pub copied : Paging → ℕ → ℕ → ℕ → Paging
copied s pte f n = record s {
  pmm = set_ref_count (frame_index (page_addr pte)) (suc n) (taken s f).pmm;
  mem = update (taken s f).mem f ((taken s f).mem (page_addr pte));
}

pub copied-mem :
    (s : Paging) (pte f n : ℕ)
    → page_addr pte ≢ f
    → ((copied s pte f n).mem f ≡ s.mem (page_addr pte))
      × ((a : ℕ) → a ≢ f → (copied s pte f n).mem a ≡ s.mem a)
unfolding copied
copied-mem s pte f n h = (
  update_self (taken s f).mem f _ ∙ update_ne s.mem f (page_addr pte) _ h,
  λ a k. update_ne (taken s f).mem f a _ k ∙ update_ne s.mem f a _ k,
)

pub copy_page-copied :
    (s : Paging) (table i pte f n : ℕ) (xs : List ℕ)
    → Takes s f xs (taken s f)
    → remove_ref (page_addr pte) (taken s f).pmm
      ≡ done (set_ref_count (frame_index (page_addr pte)) (suc n) (taken s f).pmm, false)
    → copy_page table i pte s
      ≡ done (write_word table i (clear_cow (set_rw (page_flags pte + f))) (copied s pte f n), true)
unfolding copy_page copied
copy_page-copied s table i pte f n xs k e = rw (k.result, copy_page, e) (ground (arith, k.not_null))

pub cow_at-some :
    (mem : ℕ → ℕ → ℕ) (dir virt pte : ℕ)
    → cow_at mem dir virt ≡ some pte
    → (is_present (mem dir (pde_idx virt)) ≡ true)
      × (is_user (mem dir (pde_idx virt)) ≡ true)
      × (mem (page_addr (mem dir (pde_idx virt))) (pte_idx virt) ≡ pte)
      × (is_present pte ≡ true)
      × (is_cow pte ≡ true)
unfolding cow_at
cow_at-some mem dir virt pte h = ground arith
