-- ===== src/Pmm/Frames.antt =====
-- `freeFrameFast`, `allocFrame` and `freeFrame` of kernel/kernel/Pmm.cc on a valid free list.
use doors.Base.{
  Chain-update, Chain-relink, ℕ, ◌+◌, ◌<◌, ◌≡◌, ◌≢◌, refl, sym, List, [], ◌∷◌, arith, length,
  update, update_self, Absent, u32_mod, ltb, Option-cases, inl, inr, Bool-cases, sub32,
}
use doors.Pmm.{
  Pmm, push_frame, pop_frame, alloc_frame, init_ref_count, raise_high_water, ref_count_entry,
  set_ref_count,
}
use doors.Pmm.Chain.{IsValid}

-- The frame is off the free list and may be put on it.
pub record CanPush (a : ℕ) (xs : List ℕ) : Type 0 where
  pub not_null : a ≢ 0
  pub absent : Absent a xs
  pub room : length xs + 1 < u32_mod

pub push_frame-IsValid :
    (a : ℕ) (p : Pmm) (xs : List ℕ)
    → CanPush a xs
    → IsValid p xs
    → IsValid (push_frame a p) (a ∷ xs)
unfolding push_frame
push_frame-IsValid a p xs h v = record {
  chain = (
    update_self linked 0 a,
    h.not_null,
    Chain-update linked a 0 a xs h.not_null v.distinct.0 (
        Chain-relink p.link 0 a a (p.link 0) xs (update_self p.link a (p.link 0)) h.absent v.chain),
  );
  distinct = ((λ e. h.not_null (sym e), v.distinct.0), (h.absent, v.distinct.1));
  counted = omega (arith, v.counted, h.room);
  small = omega (arith, h.room);
}
  where
    linked : ℕ → ℕ
    linked = update p.link a (p.link 0)

pub pop_frame-IsValid :
    (f : ℕ) (p : Pmm) (xs : List ℕ) → IsValid p (f ∷ xs) → IsValid (pop_frame f p) xs
unfolding pop_frame
pop_frame-IsValid f p xs v = record {
  chain = Chain-update (update p.link 0 (p.link f)) 0 f 0 xs v.distinct.0.0 v.distinct.1.0 (
      Chain-relink p.link f 0 0 (p.link f) xs (update_self p.link 0 (p.link f)) v.distinct.0.1
        v.chain.2);
  distinct = (v.distinct.0.1, v.distinct.1.1);
  counted = omega (arith, v.counted, v.small);
  small = omega (arith, v.small);
}

-- The counts of references and the high-water mark are no part of the free list.
pub init_ref_count-IsValid :
    (a : ℕ) (p : Pmm) (xs : List ℕ) → IsValid p xs → IsValid (init_ref_count a p) xs
unfolding init_ref_count set_ref_count
init_ref_count-IsValid a p xs v = elim (Option-cases (ref_count_entry p a)) [
  | inl e ↦ rw (e, init_ref_count) v
  | inr (i, e) ↦
      rw (e, init_ref_count)
        (record { chain = v.chain; distinct = v.distinct; counted = v.counted; small = v.small })
]

pub raise_high_water-IsValid :
    (p : Pmm) (xs : List ℕ) → IsValid p xs → IsValid (raise_high_water p) xs
unfolding raise_high_water
raise_high_water-IsValid p xs v =
    elim (Bool-cases (ltb p.high_water_frames (sub32 p.alloc_count p.free_total_count))) [
      | inl e ↦
          rw (e, raise_high_water)
            (record {
              chain = v.chain;
              distinct = v.distinct;
              counted = v.counted;
              small = v.small;
            })
      | inr e ↦ rw (e, raise_high_water) v
    ]

pub alloc_frame-pop :
    (f : ℕ) (p : Pmm)
    → p.link 0 ≡ f
    → f ≢ 0
    → alloc_frame p ≡ (init_ref_count f (raise_high_water (pop_frame f p)), f)
unfolding alloc_frame
alloc_frame-pop f p e h = ground arith

-- What `allocFrame` leaves and returns on the free list `xs`.
abbrev pub Allocates : Pmm → List ℕ → Pmm × ℕ → Type 0
Allocates p [] r = r ≡ (p, 0)
Allocates p (f ∷ xs) r = (r.1 ≡ f) × (f ≢ 0) × Absent f xs × IsValid r.0 xs

pub alloc_frame-Allocates : (p : Pmm) (xs : List ℕ) → IsValid p xs → Allocates p xs (alloc_frame p)
unfolding alloc_frame
alloc_frame-Allocates p [] v = ground arith
alloc_frame-Allocates p (f ∷ xs) v = rw (alloc_frame-pop f p v.chain.0 v.chain.1) (
  refl,
  v.chain.1,
  v.distinct.1.0,
  init_ref_count-IsValid f _ xs (raise_high_water-IsValid _ xs (pop_frame-IsValid f p xs v)),
)
