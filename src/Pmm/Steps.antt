-- ===== src/Pmm/Steps.antt =====
-- Whole histories of the physical memory manager of kernel/kernel/Pmm.cc: any order of
-- allocations, releases and new references.
use doors.Base.{
  done, ℕ, zero, suc, ◌<◌, ◌≡◌, ◌≢◌, refl, ◌∙◌, subst, List, [], ◌∷◌, arith, u32_mod, add32, sub32,
}
use doors.Pmm.{
  Pmm, alloc_frame, free_frame, add_ref, init_ref_count, raise_high_water, pop_frame, drop_ref,
  set_ref_count, release_frame, push_frame,
}
use doors.Pmm.Frames.{alloc_frame-pop}
use doors.Pmm.Idle.{frame_index, IsFrame, Inv, Inv-small}
use doors.Pmm.Ownership.{alloc_frame-Inv, alloc_frame-empty, free_frame-Frees, Frees, add_ref-Inv}

-- A call that the kernel makes: it frees, and takes new references to, only frames that are in use.
pub data Step : Pmm → Pmm → Type 0 where
  allocates : (p : Pmm) → Step p (alloc_frame p).0
  releases :
      (a : ℕ) (p q : Pmm) → a ≢ 0 → IsFrame p.max_frame_idx a → free_frame a p ≡ done q → Step p q
  refers :
      (a : ℕ) (p : Pmm)
      → IsFrame p.max_frame_idx a
      → p.ref_counts (frame_index a) ≢ 0
      → Step p (add_ref a p)

pub data History (p : Pmm) : Pmm → Type 0 where
  start : History p p
  then_step : {q r : Pmm} → History p q → Step q r → History p r

-- Frames handed out and not released, and those on the free list.
abbrev pub in_use : Pmm → ℕ
in_use p = sub32 p.alloc_count p.free_total_count

abbrev pub known_frames : Pmm → ℕ
known_frames p = add32 p.free_count (in_use p)

-- The counters fit their words.
pub record Counters (p : Pmm) : Type 0 where
  pub allocated : p.alloc_count < u32_mod
  pub released : p.free_total_count < u32_mod
  pub free : p.free_count < u32_mod

init_ref_count-counters :
    (a : ℕ) (p : Pmm)
    → ((init_ref_count a p).free_count ≡ p.free_count)
      × ((init_ref_count a p).alloc_count ≡ p.alloc_count)
      × ((init_ref_count a p).free_total_count ≡ p.free_total_count)
unfolding init_ref_count set_ref_count
init_ref_count-counters a p = ground arith

raise_high_water-counters :
    (p : Pmm)
    → ((raise_high_water p).free_count ≡ p.free_count)
      × ((raise_high_water p).alloc_count ≡ p.alloc_count)
      × ((raise_high_water p).free_total_count ≡ p.free_total_count)
unfolding raise_high_water
raise_high_water-counters p = ground arith

-- A list that the links show.
pub record Balanced (p q : Pmm) : Type 0 where
  pub listed : (ys : List ℕ) × Inv q ys
  pub counters : Counters q
  pub balance : known_frames q ≡ known_frames p

alloc_frame-known_frames :
    (p : Pmm) (f : ℕ) (xs : List ℕ)
    → Inv p (f ∷ xs)
    → Counters p
    → Counters (alloc_frame p).0 × (known_frames (alloc_frame p).0 ≡ known_frames p)
unfolding pop_frame
alloc_frame-known_frames p f xs v c = rw (alloc_frame-pop f p v.chain.0 v.chain.1) (
    let i = init_ref_count-counters f (raise_high_water (pop_frame f p)) in
    let h = raise_high_water-counters (pop_frame f p) in
    (
      record {
        allocated = omega (arith, i, h);
        released = omega (arith, i, h, c.released);
        free = omega (arith, i, h);
      },
      omega (arith, i, h, v.counted, c.allocated, c.released),
    ))

alloc_count-free_frame :
    (a : ℕ) (p q : Pmm) → free_frame a p ≡ done q → q.alloc_count ≡ p.alloc_count
unfolding free_frame drop_ref release_frame push_frame set_ref_count
alloc_count-free_frame a p q e = ground arith

alloc_frame-Balanced :
    (p : Pmm) (xs : List ℕ) → Inv p xs → Counters p → Balanced p (alloc_frame p).0
alloc_frame-Balanced p [] v c =
    rw (alloc_frame-empty p v) (record { listed = ([], v); counters = c; balance = refl })
alloc_frame-Balanced p (f ∷ xs) v c =
    let k = alloc_frame-known_frames p f xs v c in
    record { listed = (xs, (alloc_frame-Inv p f xs v).1); counters = k.0; balance = k.1 }

free_frame-Balanced :
    (p q : Pmm) (a n : ℕ) (xs : List ℕ)
    → Inv p xs
    → Counters p
    → free_frame a p ≡ done q
    → Frees p a xs n (free_frame a p)
    → Balanced p q
free_frame-Balanced p q a zero xs v c e f = cc
free_frame-Balanced p q a (suc zero) xs v c e (r, g, w, _, t) =
    let same : r ≡ q = cc in
    let s = alloc_count-free_frame a p q e in
    subst (Balanced p) same (record {
      listed = (a ∷ xs, w);
      counters = record {
        allocated = rw same (omega (arith, s, c.allocated));
        released = omega (arith, t);
        free = omega (arith, w.counted, Inv-small w);
      };
      balance =
          rw (alloc_count-free_frame a p r g)
            (omega (arith, t, w.counted, v.counted, c.released, c.allocated, Inv-small w));
    })
free_frame-Balanced p q a (suc (suc n)) xs v c e (r, g, w, _, t) =
    let same : r ≡ q = cc in
    subst (Balanced p) same (record {
      listed = (xs, w);
      counters = record {
        allocated = rw (alloc_count-free_frame a p r g) c.allocated;
        released = rw t c.released;
        free = omega (arith, w.counted, Inv-small w);
      };
      balance = rw (alloc_count-free_frame a p r g, t) (omega (arith, w.counted, v.counted));
    })

add_ref-counters :
    (a : ℕ) (p : Pmm)
    → ((add_ref a p).free_count ≡ p.free_count)
      × ((add_ref a p).alloc_count ≡ p.alloc_count)
      × ((add_ref a p).free_total_count ≡ p.free_total_count)
unfolding add_ref set_ref_count
add_ref-counters a p = ground arith

Step-Balanced : {p q : Pmm} (xs : List ℕ) → Step p q → Inv p xs → Counters p → Balanced p q
Step-Balanced xs (allocates p) v c = alloc_frame-Balanced p xs v c
Step-Balanced xs (releases a p q h k e) v c =
    free_frame-Balanced p q a (p.ref_counts (frame_index a)) xs v c e
      (free_frame-Frees p a (p.ref_counts (frame_index a)) xs h k refl v)
Step-Balanced xs (refers a p k h) v c =
    let s = add_ref-counters a p in
    record {
      listed = (xs, add_ref-Inv p a xs k h v);
      counters = record {
        allocated = omega (arith, s, c.allocated);
        released = omega (arith, s, c.released);
        free = omega (arith, s, c.free);
      };
      balance = omega (arith, s);
    }

-- After any history of allocations, releases of frames and new references to frames in use, the
-- free list is valid and holds only unreferenced frames, and frames in use and free frames
-- together are as many as before (modulo 2^32).
pub History-Balanced :
    {p q : Pmm} (xs : List ℕ) → History p q → Inv p xs → Counters p → Balanced p q
History-Balanced xs start v c = record { listed = (xs, v); counters = c; balance = refl }
History-Balanced xs (then_step h s) v c =
    let b = History-Balanced xs h v c in
    let d = Step-Balanced b.listed.0 s b.listed.1 b.counters in
    record { listed = d.listed; counters = d.counters; balance = d.balance ∙ b.balance }
