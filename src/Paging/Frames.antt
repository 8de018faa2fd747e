-- ===== src/Paging/Frames.antt =====
-- Taking and giving up frames in kernel/arch/i386/Paging.cc: what stays of the memory, the counts and
-- the free list.
use doors.Base.{
  done, ℕ, zero, suc, ◌-◌, ◌≡◌, ◌≢◌, refl, ap, ◌∙◌, List, [], ◌∷◌, arith, update, update_ne, Bool,
  ◌&&◌, not, ◌==◌, true, if◌then◌else◌, inl, inr, Bool-cases,
}
use doors.Pmm.{
  Pmm, alloc_frame, free_frame, remove_ref, push_frame, raise_high_water, init_ref_count, pop_frame,
  set_ref_count, ref_count_entry, release_frame, drop_ref,
}
use doors.Pmm.Idle.{Inv, IsFrame, frame_index}
use doors.Pmm.Ownership.{
  alloc_frame-Inv, alloc_frame-empty, free_frame-Frees, remove_then_free,
  remove_then_free-free_frame,
}
use doors.Paging.{Paging, alloc, drop_page, drop_entry, write_next, has_one_ref}
use doors.Paging.Flags.{is_present, page_addr}
use doors.Paging.Mapped.{InUse, Sound, check_phys_addr-InUse}

max_frame_idx-alloc_frame : (p : Pmm) → (alloc_frame p).0.max_frame_idx ≡ p.max_frame_idx
unfolding alloc_frame init_ref_count raise_high_water pop_frame set_ref_count ref_count_entry
max_frame_idx-alloc_frame p = ground arith

-- `alloc` on the free list `f ∷ xs` leaves `t` and returns `f`.
pub record Takes (s : Paging) (f : ℕ) (xs : List ℕ) (t : Paging) : Type 0 where
  pub sound : Sound t.pmm xs
  pub result : alloc s ≡ (t, f)
  pub cleared : t.mem ≡ update s.mem f (λ i. 0)
  pub counts : t.pmm.ref_counts ≡ update s.pmm.ref_counts (frame_index f) 1
  pub bound : t.pmm.max_frame_idx ≡ s.pmm.max_frame_idx
  pub is_frame : IsFrame s.pmm.max_frame_idx f
  pub was_free : s.pmm.ref_counts (frame_index f) ≡ 0
  pub not_null : f ≢ 0
  pub faults : t.cow_faults ≡ s.cow_faults

abbrev pub taken : Paging → ℕ → Paging
taken s f = record s { pmm = (alloc_frame s.pmm).0; mem = update s.mem f (λ i. 0) }

alloc-taken : (s : Paging) (f : ℕ) → (alloc_frame s.pmm).1 ≡ f → f ≢ 0 → alloc s ≡ (taken s f, f)
unfolding alloc
alloc-taken s f e h = ground arith

pub alloc-Takes :
    (s : Paging) (f : ℕ) (xs : List ℕ) → Sound s.pmm (f ∷ xs) → Takes s f xs (taken s f)
alloc-Takes s f xs v =
    let a = alloc_frame-Inv s.pmm f xs v.0 in
    let b = max_frame_idx-alloc_frame s.pmm in
    record {
      sound = (a.1, omega (arith, b, v.1));
      result = alloc-taken s f a.0 v.0.chain.1;
      cleared = refl;
      counts = a.3;
      bound = b;
      is_frame = v.0.idle.0.0;
      was_free = v.0.idle.0.1;
      not_null = v.0.chain.1;
      faults = refl;
    }

pub alloc-empty : (s : Paging) → Inv s.pmm [] → alloc s ≡ (s, 0)
unfolding alloc
alloc-empty s v = rw (alloc_frame-empty s.pmm v) refl

-- A frame in use stays in use when another one is taken, and is not the one taken.
pub Takes-InUse :
    {s t : Paging} {f : ℕ} {xs : List ℕ} (a : ℕ)
    → Takes s f xs t
    → InUse s.pmm a
    → InUse t.pmm a × (a ≢ f)
Takes-InUse {s} {t} {f} a k u =
    let e = ap (λ c. c (frame_index a)) k.counts in
    (
      (u.0, (u.1.0, omega (arith, k.bound, u.1.1)), ground (arith, k.was_free, e)),
      λ h. u.2 (ap (λ x. s.pmm.ref_counts (frame_index x)) h ∙ k.was_free),
    )

-- The frame that was taken is in use.
pub Takes-new : {s t : Paging} {f : ℕ} {xs : List ℕ} → Takes s f xs t → InUse t.pmm f
Takes-new {s} {t} {f} k =
    let e = ap (λ c. c (frame_index f)) k.counts in
    (k.not_null, (k.is_frame.0, omega (arith, k.bound, k.is_frame.1)), ground (arith, e))

-- `drop_page a s` leaves `t`, with the free list `ys`.
pub record Gives (s : Paging) (a : ℕ) (ys : List ℕ) (t : Paging) : Type 0 where
  pub sound : Sound t.pmm ys
  pub result : drop_page a s ≡ done t
  pub kept : (b : ℕ) → b ≢ a → t.mem b ≡ s.mem b
  pub counts :
      t.pmm.ref_counts
      ≡ update s.pmm.ref_counts (frame_index a) (s.pmm.ref_counts (frame_index a) - 1)
  pub bound : t.pmm.max_frame_idx ≡ s.pmm.max_frame_idx

-- The link is written into the frame when it is freed.
abbrev dropped : Paging → ℕ → Pmm → Paging
dropped s a q = record s { pmm = q; mem = write_next (has_one_ref a s.pmm) a (s.pmm.link 0) s.mem }

write_next_ne :
    (freed : Bool) (a head b : ℕ) (mem : ℕ → ℕ → ℕ) → b ≢ a → write_next freed a head mem b ≡ mem b
unfolding write_next
write_next_ne freed a head b mem h = elim (Bool-cases (freed && not (a == 0))) [
  | inl e ↦ rw (e, write_next) (update_ne mem a b _ h)
  | inr e ↦ rw (e, write_next) refl
]

drop_page-free_frame :
    (s : Paging) (a : ℕ) (q : Pmm)
    → remove_then_free a s.pmm ≡ done q
    → drop_page a s ≡ done (dropped s a q)
unfolding drop_page remove_ref has_one_ref ref_count_entry set_ref_count
drop_page-free_frame s a q e = ground arith

-- The free list after a reference to `a` is given up of which there were `n`.
abbrev pub after_drop : ℕ → ℕ → List ℕ → List ℕ
after_drop zero a xs = xs
after_drop (suc zero) a xs = a ∷ xs
after_drop (suc (suc n)) a xs = xs

-- The counts and the free list after the page of an entry lost a reference.
unfoldable pub counts_after : Pmm → ℕ → ℕ → ℕ
counts_after p pte =
    let i = frame_index (page_addr pte) in
    if is_present pte then update p.ref_counts i (p.ref_counts i - 1) else p.ref_counts

unfoldable pub list_after : Pmm → ℕ → List ℕ → List ℕ
list_after p pte xs =
    if is_present pte
    then after_drop (p.ref_counts (frame_index (page_addr pte))) (page_addr pte) xs
    else xs

max_frame_idx-free_frame :
    (a : ℕ) (p q : Pmm) → free_frame a p ≡ done q → q.max_frame_idx ≡ p.max_frame_idx
unfolding free_frame drop_ref release_frame push_frame set_ref_count ref_count_entry
max_frame_idx-free_frame a p q e = ground arith

Gives-free_frame :
    (s : Paging) (a n : ℕ) (xs ys : List ℕ) (q : Pmm)
    → Sound s.pmm xs
    → InUse s.pmm a
    → s.pmm.ref_counts (frame_index a) ≡ suc n
    → free_frame a s.pmm ≡ done q
    → Inv q ys
    → q.ref_counts ≡ update s.pmm.ref_counts (frame_index a) n
    → Gives s a ys (dropped s a q)
Gives-free_frame s a n xs ys q v u e f i c =
    let b = max_frame_idx-free_frame a s.pmm q f in
    record {
      sound = (i, omega (arith, b, v.1));
      result = drop_page-free_frame s a q (remove_then_free-free_frame s.pmm a u.0 ∙ f);
      kept = λ b h. write_next_ne (has_one_ref a s.pmm) a (s.pmm.link 0) b s.mem h;
      counts = c ∙ ap (update s.pmm.ref_counts (frame_index a)) (omega (arith, e));
      bound = b;
    }

counted_drop :
    (s : Paging) (a n : ℕ) (xs : List ℕ)
    → Sound s.pmm xs
    → InUse s.pmm a
    → s.pmm.ref_counts (frame_index a) ≡ n
    → (t : Paging) × Gives s a (after_drop n a xs) t
counted_drop s a zero xs v u e = absurd (u.2 e)
counted_drop s a (suc zero) xs v u e =
    let f = free_frame-Frees s.pmm a 1 xs u.0 u.1 e v.0 in
    (dropped s a f.0, Gives-free_frame s a 0 xs (a ∷ xs) f.0 v u e f.1 f.2 f.3)
counted_drop s a (suc (suc n)) xs v u e =
    let f = free_frame-Frees s.pmm a (suc (suc n)) xs u.0 u.1 e v.0 in
    (dropped s a f.0, Gives-free_frame s a (suc n) xs xs f.0 v u e f.1 f.2 f.3)

-- A frame in use loses one reference, and is free if it was the last.
pub drop_page-Gives :
    (s : Paging) (a : ℕ) (xs : List ℕ)
    → Sound s.pmm xs
    → InUse s.pmm a
    → (t : Paging) × Gives s a (after_drop (s.pmm.ref_counts (frame_index a)) a xs) t
drop_page-Gives s a xs v u = counted_drop s a (s.pmm.ref_counts (frame_index a)) xs v u refl

-- `drop_entry pte s` leaves `t`: the page of a present entry loses one reference.
pub record Drops (s : Paging) (pte : ℕ) (xs : List ℕ) (t : Paging) : Type 0 where
  pub sound : Sound t.pmm (list_after s.pmm pte xs)
  pub result : drop_entry pte s ≡ done t
  pub kept : (b : ℕ) → (is_present pte ≡ true → b ≢ page_addr pte) → t.mem b ≡ s.mem b
  pub counts : t.pmm.ref_counts ≡ counts_after s.pmm pte
  pub bound : t.pmm.max_frame_idx ≡ s.pmm.max_frame_idx

pub drop_entry-Drops :
    (s : Paging) (pte : ℕ) (xs : List ℕ)
    → Sound s.pmm xs
    → (is_present pte ≡ true → InUse s.pmm (page_addr pte))
    → (t : Paging) × Drops s pte xs t
unfolding drop_entry list_after counts_after
drop_entry-Drops s pte xs v u = elim (Bool-cases (is_present pte)) [
  | inl e ↦
      let g = drop_page-Gives s (page_addr pte) xs v (u e) in
      (
        g.0,
        record {
          sound = rw (e, list_after) g.1.sound;
          result =
              rw (e, drop_entry, check_phys_addr-InUse s (page_addr pte) xs v (u e)) g.1.result;
          kept = λ b h. g.1.kept b (h e);
          counts = rw (e, counts_after) g.1.counts;
          bound = g.1.bound;
        },
      )
  | inr e ↦ (
    s,
    record {
      sound = rw (e, list_after) v;
      result = rw (e, drop_entry) refl;
      kept = λ b h. refl;
      counts = rw (e, counts_after) refl;
      bound = refl;
    },
  )
]
