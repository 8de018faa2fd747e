-- ===== src/Pmm/Saturation.antt =====
-- The 8-bit counts of kernel/kernel/Pmm.cc under many calls of `addRef`.
use doors.Base.{ℕ, zero, suc, ◌+◌, ◌≤◌, ◌≡◌, sym, ap, ◌∙◌, arith, ltb, if◌then◌else◌}
use doors.Pmm.{Pmm, max_refcount, add_ref, set_ref_count, ref_count}
use doors.Pmm.Idle.{frame_index, IsFrame}
use doors.Pmm.Ownership.{ref_count_entry-IsFrame, ref_count-IsFrame}

-- `n` further references to the frame `a`.
pub add_refs : ℕ → ℕ → Pmm → Pmm
add_refs zero a p = p
add_refs (suc n) a p = add_refs n a (add_ref a p)

abbrev pub saturated : ℕ → ℕ
saturated c = if ltb c max_refcount then c else max_refcount

max_frame_idx-add_ref : (a : ℕ) (p : Pmm) → (add_ref a p).max_frame_idx ≡ p.max_frame_idx
unfolding add_ref set_ref_count
max_frame_idx-add_ref a p = ground arith

count-add_ref :
    (a : ℕ) (p : Pmm)
    → IsFrame p.max_frame_idx a
    → p.ref_counts (frame_index a) ≤ max_refcount
    → (add_ref a p).ref_counts (frame_index a) ≡ saturated (p.ref_counts (frame_index a) + 1)
unfolding add_ref set_ref_count
count-add_ref a p k h = ground (arith, ref_count_entry-IsFrame p a k)

count-add_refs :
    (n a : ℕ) (p : Pmm)
    → IsFrame p.max_frame_idx a
    → p.ref_counts (frame_index a) ≤ max_refcount
    → ((add_refs n a p).ref_counts (frame_index a) ≡ saturated (p.ref_counts (frame_index a) + n))
      × ((add_refs n a p).max_frame_idx ≡ p.max_frame_idx)
unfolding add_refs
count-add_refs zero a p k h = ground arith
count-add_refs (suc n) a p k h =
    let m = max_frame_idx-add_ref a p in
    let c = count-add_ref a p k h in
    let r = count-add_refs n a (add_ref a p) (k.0, omega (arith, m)) (ground (arith, c)) in
    ground (arith, r, c, m)

-- However many references are taken with addRef, refCount reports no more than 255 of them; below
-- that every one is counted.
pub ref_count-add_refs :
    (n a : ℕ) (p : Pmm)
    → IsFrame p.max_frame_idx a
    → p.ref_counts (frame_index a) ≤ max_refcount
    → ref_count a (add_refs n a p) ≡ saturated (ref_count a p + n)
ref_count-add_refs n a p k h =
    let r = count-add_refs n a p k h in
    ref_count-IsFrame (add_refs n a p) a (k.0, omega (arith, r))
    ∙ r.0
    ∙ ap (λ c. saturated (c + n)) (sym (ref_count-IsFrame p a k))
