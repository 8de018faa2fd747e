-- ===== src/Pmm/Ownership.antt =====
-- Who owns a frame, through `allocFrame`, `freeFrame`, `addRef` and `removeRef` of
-- kernel/kernel/Pmm.cc: the free list and the references never claim the same frame.
use doors.Base.{
  Outcome, done, panic, ℕ, zero, suc, ◌≤◌, ◌≡◌, ◌≢◌, refl, ap, ◌∙◌, List, [], ◌∷◌, arith, update,
  update_self, Absent, Bool-cases, ltb, inl, inr, none, some, add32, if◌then◌else◌,
}
use doors.Pmm.{
  Pmm, max_frames, max_refcount, push_frame, pop_frame, alloc_frame, free_frame, free_frame_fast,
  init_ref_count, raise_high_water, ref_count, ref_count_entry, set_ref_count, drop_ref,
  release_frame, add_ref, remove_ref,
}
use doors.Pmm.Chain.{IsValid}
use doors.Pmm.Frames.{
  push_frame-IsValid, pop_frame-IsValid, alloc_frame-pop, raise_high_water-IsValid,
}
use doors.Pmm.Idle.{
  frame_index, IsFrame, Idle, Inv, Idle-update, Idle-Absent, Inv-small, Inv-IsValid,
}

pub ref_count_entry-IsFrame :
    (p : Pmm) (a : ℕ) → IsFrame p.max_frame_idx a → ref_count_entry p a ≡ some (frame_index a)
unfolding ref_count_entry
ref_count_entry-IsFrame p a h = ground arith

pub ref_count_entry-none :
    (p : Pmm) (a : ℕ) → p.max_frame_idx ≤ frame_index a → ref_count_entry p a ≡ none
unfolding ref_count_entry
ref_count_entry-none p a h = ground arith

-- The invariant speaks of the links, the number of free frames, the counts and their bound alone.
rebuild :
    (p q : Pmm) (xs : List ℕ)
    → IsValid q xs
    → Idle q.ref_counts q.max_frame_idx xs
    → q.max_frame_idx ≤ max_frames
    → Inv q xs
rebuild p q xs v d f = record {
  chain = v.chain;
  distinct = v.distinct;
  counted = v.counted;
  idle = d;
  frames = f;
}

-- What `init_ref_count` does after the pop, written out.
abbrev taken : ℕ → Pmm → Pmm
taken f p = set_ref_count (frame_index f) 1 (raise_high_water (pop_frame f p))

max_frame_idx-taken :
    (f : ℕ) (p : Pmm) → (raise_high_water (pop_frame f p)).max_frame_idx ≡ p.max_frame_idx
unfolding raise_high_water pop_frame
max_frame_idx-taken f p = ground arith

ref_counts-taken : (f : ℕ) (p : Pmm) → (raise_high_water (pop_frame f p)).ref_counts ≡ p.ref_counts
unfolding raise_high_water pop_frame
ref_counts-taken f p = ground arith

alloc_frame-taken :
    (f : ℕ) (p : Pmm)
    → p.link 0 ≡ f
    → f ≢ 0
    → IsFrame p.max_frame_idx f
    → alloc_frame p ≡ (taken f p, f)
unfolding init_ref_count
alloc_frame-taken f p e h k =
    alloc_frame-pop f p e h
    ∙ ap (λ q. (q, f))
        (ground (
          arith,
          max_frame_idx-taken f p,
          ref_count_entry-IsFrame (raise_high_water (pop_frame f p)) f,
        ))

taken-Inv : (f : ℕ) (p : Pmm) (xs : List ℕ) → Inv p (f ∷ xs) → Inv (taken f p) xs
unfolding set_ref_count
taken-Inv f p xs v = record {
  chain = raised.chain;
  distinct = raised.distinct;
  counted = raised.counted;
  idle =
      rw (ref_counts-taken f p, max_frame_idx-taken f p)
        (Idle-update p.ref_counts p.max_frame_idx f 1 xs v.idle.0.0.0 v.distinct.1.0 v.idle.1);
  frames = rw (max_frame_idx-taken f p) v.frames;
}
  where
    raised : IsValid (raise_high_water (pop_frame f p)) xs
    raised = raise_high_water-IsValid _ xs (pop_frame-IsValid f p xs (Inv-IsValid v))

-- `refCount` of a frame that the counts cover reads its count.
pub ref_count-IsFrame :
    (p : Pmm) (a : ℕ) → IsFrame p.max_frame_idx a → ref_count a p ≡ p.ref_counts (frame_index a)
unfolding ref_count ref_count_entry
ref_count-IsFrame p a h = ground arith

-- In a state that satisfies the invariant, on a free list that is not empty allocFrame returns the
-- frame at its head and takes it off the list, keeping the invariant; the frame had no reference
-- and has one afterwards, and the counts of all other frames stay.
pub alloc_frame-Inv :
    (p : Pmm) (f : ℕ) (xs : List ℕ)
    → Inv p (f ∷ xs)
    → ((alloc_frame p).1 ≡ f)
      × Inv (alloc_frame p).0 xs
      × (ref_count f p ≡ 0)
      × ((alloc_frame p).0.ref_counts ≡ update p.ref_counts (frame_index f) 1)
unfolding set_ref_count
alloc_frame-Inv p f xs v = rw (alloc_frame-taken f p v.chain.0 v.chain.1 v.idle.0.0) (
  refl,
  taken-Inv f p xs v,
  ref_count-IsFrame p f v.idle.0.0 ∙ v.idle.0.1,
  ap (λ c. update c (frame_index f) 1) (ref_counts-taken f p),
)

-- On an empty free list `allocFrame` returns `nullptr` and changes nothing.
pub alloc_frame-empty : (p : Pmm) → Inv p [] → alloc_frame p ≡ (p, 0)
unfolding alloc_frame
alloc_frame-empty p v = ground arith

drop_ref-last :
    (p : Pmm) (a : ℕ)
    → a ≢ 0
    → IsFrame p.max_frame_idx a
    → p.ref_counts (frame_index a) ≡ 1
    → free_frame a p ≡ done (release_frame a (set_ref_count (frame_index a) 0 p))
unfolding free_frame drop_ref
drop_ref-last p a h k e = ground (arith, ref_count_entry-IsFrame p a k)

-- The frame of a last reference goes to the head of the free list.
released-Inv :
    (p : Pmm) (a : ℕ) (xs : List ℕ)
    → a ≢ 0
    → IsFrame p.max_frame_idx a
    → p.ref_counts (frame_index a) ≢ 0
    → Inv p xs
    → Inv (release_frame a (set_ref_count (frame_index a) 0 p)) (a ∷ xs)
unfolding set_ref_count release_frame push_frame
released-Inv p a xs h k e v = record {
  chain = pushed.chain;
  distinct = pushed.distinct;
  counted = pushed.counted;
  idle = (
    (k, update_self p.ref_counts (frame_index a) 0),
    Idle-update p.ref_counts p.max_frame_idx a 0 xs k.0 absent v.idle,
  );
  frames = v.frames;
}
  where
    absent : Absent a xs
    absent = Idle-Absent p.ref_counts p.max_frame_idx a xs v.idle e

    pushed : IsValid (push_frame a p) (a ∷ xs)
    pushed =
        push_frame-IsValid a p xs
          (record { not_null = h; absent = absent; room = omega (arith, Inv-small v) })
          (Inv-IsValid v)

-- What `freeFrame` of the frame `a` does on the free list `xs`, by the count it finds.
abbrev pub Frees : Pmm → ℕ → List ℕ → ℕ → Outcome Pmm → Type 0
Frees p a xs zero r = r ≡ panic
Frees p a xs (suc zero) r =
    (q : Pmm) × (r ≡ done q)
    × Inv q (a ∷ xs)
    × (q.ref_counts ≡ update p.ref_counts (frame_index a) 0)
    × (q.free_total_count ≡ add32 p.free_total_count 1)
Frees p a xs (suc (suc n)) r =
    (q : Pmm) × (r ≡ done q)
    × Inv q xs
    × (q.ref_counts ≡ update p.ref_counts (frame_index a) (suc n))
    × (q.free_total_count ≡ p.free_total_count)

-- freeFrame of a frame within bounds, by the count it finds: without a reference it panics; the
-- last reference puts the frame at the head of the free list and counts it as released; with more
-- references it only lowers the count. The invariant holds afterwards.
pub free_frame-Frees :
    (p : Pmm) (a n : ℕ) (xs : List ℕ)
    → a ≢ 0
    → IsFrame p.max_frame_idx a
    → p.ref_counts (frame_index a) ≡ n
    → Inv p xs
    → Frees p a xs n (free_frame a p)
unfolding free_frame drop_ref
free_frame-Frees p a zero xs h k e v = ground (arith, ref_count_entry-IsFrame p a k)
free_frame-Frees p a (suc zero) xs h k e v = (
  release_frame a (set_ref_count (frame_index a) 0 p),
  drop_ref-last p a h k e,
  released-Inv p a xs h k (λ z. absurd (omega (arith, z, e))) v,
  unfold release_frame push_frame set_ref_count in refl,
  unfold release_frame push_frame set_ref_count in refl,
)
free_frame-Frees p a (suc (suc n)) xs h k e v = (
  set_ref_count (frame_index a) (suc n) p,
  ground (arith, ref_count_entry-IsFrame p a k),
  unfold set_ref_count in
      record {
        chain = v.chain;
        distinct = v.distinct;
        counted = v.counted;
        idle =
            Idle-update p.ref_counts p.max_frame_idx a (suc n) xs k.0
              (Idle-Absent p.ref_counts p.max_frame_idx a xs v.idle
                (λ z. absurd (omega (arith, z, e))))
              v.idle;
        frames = v.frames;
      },
  unfold set_ref_count in refl,
  unfold set_ref_count in refl,
)

-- The other way to give up a reference: `removeRef`, and `freeFrameFast` if the count reached 0.
abbrev pub remove_then_free : ℕ → Pmm → Outcome Pmm
remove_then_free a p = elim (remove_ref a p) [
  | panic ↦ panic
  | done (q, last) ↦ done (if last then free_frame_fast a q else q)
]

-- removeRef followed, where it returns true, by freeFrameFast leaves the same state as freeFrame,
-- and panics where that panics, on every frame but the one at address 0.
pub remove_then_free-free_frame : (p : Pmm) (a : ℕ) → a ≢ 0 → remove_then_free a p ≡ free_frame a p
unfolding remove_ref free_frame drop_ref free_frame_fast release_frame push_frame set_ref_count
remove_then_free-free_frame p a h = ground arith

-- `addRef` of a frame within bounds that has references keeps the invariant; its count goes up by
-- one, up to 255.
pub add_ref-Inv :
    (p : Pmm) (a : ℕ) (xs : List ℕ)
    → IsFrame p.max_frame_idx a
    → p.ref_counts (frame_index a) ≢ 0
    → Inv p xs
    → Inv (add_ref a p) xs
unfolding add_ref set_ref_count
add_ref-Inv p a xs k e v =
    rw (ref_count_entry-IsFrame p a k, add_ref)
      (elim (Bool-cases (ltb (p.ref_counts (frame_index a)) max_refcount)) [
        | inl t ↦
            rw (t, add_ref)
              (record {
                chain = v.chain;
                distinct = v.distinct;
                counted = v.counted;
                idle =
                    Idle-update p.ref_counts p.max_frame_idx a _ xs k.0
                      (Idle-Absent p.ref_counts p.max_frame_idx a xs v.idle e) v.idle;
                frames = v.frames;
              })
        | inr t ↦ rw (t, add_ref) v
      ])
