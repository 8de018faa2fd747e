-- ===== src/Pmm/Unlink.antt =====
-- `removeFramesAbove`, `reserveRegion` and `reserveFrame` of kernel/kernel/Pmm.cc: the walk with a
-- pointer to the previous link filters the free list.
use doors.Base.{
  ◌*◌, ◌/◌, u32_mod, Chain, Chain-relink, ℕ, zero, suc, ◌+◌, ◌<◌, ◌≡◌, ◌≢◌, refl, ◌∙◌, List, [],
  ◌∷◌, arith, length, update_ne, update_self, Absent, Distinct, u32_mod, keep_if, Bool, true, false,
  not, ◌&&◌, Bool-cases, Distinct-keep_if, Absent-keep_if, inl, inr, Option, some, ltb, leb,
}
use doors.Pmm.{Pmm}
use doors.Pmm.Walks.{unlink, unlink_walk, remove_frames_above, reserve_region, page_up, page_down}
use doors.Pmm.Idle.{Inv, Idle, Inv-small}

abbrev pub others : (ℕ → Bool) → ℕ → Bool
others test a = not (test a)

-- A walk from `prev` over the frames `xs`, with `k` more free frames before them, has ended in a
-- state that differs in links of `prev` and `xs` and in the number of free frames alone, and the
-- frames that pass the test are gone.
pub record Unlinked (test : ℕ → Bool) (prev : ℕ) (p : Pmm) (k : ℕ) (xs : List ℕ) (r : Option Pmm)
    : Type 0 where
  pub result : Pmm
  pub ends : r ≡ some result
  pub chain : Chain result.link prev (keep_if (others test) xs)
  pub elsewhere : (loc : ℕ) → Absent loc (prev ∷ xs) → result.link loc ≡ p.link loc
  pub counted : result.free_count ≡ k + length (keep_if (others test) xs)
  pub same : result ≡ record p { link = result.link; free_count = result.free_count }

pub link-unlink :
    (prev x : ℕ) (p : Pmm) → prev ≢ x → (unlink prev x p).link x ≡ (unlink prev x p).link prev
unfolding unlink
link-unlink prev x p h = ground arith

pub Chain-unlink :
    (prev x : ℕ) (p : Pmm) (xs : List ℕ)
    → Absent prev xs
    → Chain p.link x xs
    → Chain (unlink prev x p).link prev xs
unfolding unlink
Chain-unlink prev x p xs a c =
    Chain-relink p.link x prev prev (p.link x) xs (update_self p.link prev (p.link x)) a c

pub free_count-unlink :
    (prev x : ℕ) (p : Pmm) (n : ℕ)
    → p.free_count ≡ suc n
    → n < u32_mod
    → (unlink prev x p).free_count ≡ n
unfolding unlink
free_count-unlink prev x p n e h = omega arith

module _ (test : ℕ → Bool) where
  stop :
      (fuel prev curr : ℕ) (p : Pmm) (k : ℕ)
      → curr ≡ 0
      → p.link prev ≡ 0
      → p.free_count ≡ k + 0
      → Unlinked test prev p k [] (unlink_walk test (suc fuel) prev curr p)
  unfolding unlink_walk
  stop fuel prev curr p k e c n = record {
    result = p;
    ends = ground arith;
    chain = c;
    elsewhere = λ loc h. refl;
    counted = n;
    same = refl;
  }

  step_gone :
      (fuel prev curr : ℕ) (p : Pmm) (k x : ℕ) (xs : List ℕ)
      → curr ≡ x
      → x ≢ 0
      → test x ≡ true
      → Unlinked test prev
          (unlink prev x p)
          k
          xs
          (unlink_walk test fuel prev ((unlink prev x p).link x) (unlink prev x p))
      → Unlinked test prev p k (x ∷ xs) (unlink_walk test (suc fuel) prev curr p)
  unfolding unlink_walk
  step_gone fuel prev curr p k x xs e h t u = record {
    result = u.result;
    ends = ground (arith, u.ends);
    chain = rw t u.chain;
    elsewhere =
        λ loc a. u.elsewhere loc (a.0, a.1.1) ∙ unfold unlink in update_ne p.link prev loc _ a.0;
    counted = rw t u.counted;
    same = u.same ∙ unfold unlink in refl;
  }

  step_kept :
      (fuel prev curr : ℕ) (p : Pmm) (k x : ℕ) (xs : List ℕ)
      → curr ≡ x
      → p.link prev ≡ x
      → x ≢ 0
      → Absent prev (x ∷ xs)
      → test x ≡ false
      → Unlinked test x p (suc k) xs (unlink_walk test fuel x (p.link x) p)
      → Unlinked test prev p k (x ∷ xs) (unlink_walk test (suc fuel) prev curr p)
  unfolding unlink_walk
  step_kept fuel prev curr p k x xs e l h a t u = record {
    result = u.result;
    ends = ground (arith, u.ends);
    chain = rw t (u.elsewhere prev a ∙ l, h, u.chain);
    elsewhere = λ loc b. u.elsewhere loc b.1;
    counted = rw t (omega (arith, u.counted));
    same = u.same;
  }

  -- With fuel for the end of the list too, the walk ends.
  pub unlink_walk-Unlinked :
      (fuel prev curr : ℕ) (p : Pmm) (k : ℕ) (xs : List ℕ)
      → length xs < fuel
      → curr ≡ p.link prev
      → Chain p.link prev xs
      → Distinct (prev ∷ xs)
      → p.free_count ≡ k + length xs
      → k + length xs < u32_mod
      → Unlinked test prev p k xs (unlink_walk test fuel prev curr p)
  unlink_walk-Unlinked zero prev curr p k xs f e c d n s = absurd (omega arith)
  unlink_walk-Unlinked (suc fuel) prev curr p k [] f e c d n s = stop fuel prev curr p k (e ∙ c) c n
  unlink_walk-Unlinked (suc fuel) prev curr p k (x ∷ xs) f e c d n s = elim (Bool-cases (test x)) [
    | inl t ↦ step_gone fuel prev curr p k x xs (e ∙ c.0) c.1 t (
        unlink_walk-Unlinked fuel prev _ (unlink prev x p) k xs (omega arith)
          (link-unlink prev x p d.0.0) (Chain-unlink prev x p xs d.0.1 c.2) (d.0.1, d.1.1)
          (free_count-unlink prev x p _ (n ∙ omega arith) (omega arith)) (omega arith))
    | inr t ↦ step_kept fuel prev curr p k x xs (e ∙ c.0) c.0 c.1 d.0 t (
        unlink_walk-Unlinked fuel x _ p (suc k) xs (omega arith) refl c.2 d.1 (omega arith)
          (omega arith))
  ]

pub Idle-keep_if :
    (test : ℕ → Bool) (counts : ℕ → ℕ) (n : ℕ) (xs : List ℕ)
    → Idle counts n xs
    → Idle counts n (keep_if test xs)
Idle-keep_if test counts n [] d = tt
Idle-keep_if test counts n (x ∷ xs) d = elim (Bool-cases (test x)) [
  | inl t ↦ rw t (d.0, Idle-keep_if test counts n xs d.1)
  | inr t ↦ rw t (Idle-keep_if test counts n xs d.1)
]

-- What a call that unlinks the frames with `test` leaves.
abbrev pub Filters : (ℕ → Bool) → Pmm → List ℕ → Option Pmm → Type 0
Filters test p xs r =
    (q : Pmm) × (r ≡ some q)
    × Inv q (keep_if (others test) xs)
    × (q ≡ record p { link = q.link; free_count = q.free_count })

unlink_walk-Filters :
    (test : ℕ → Bool) (fuel : ℕ) (p : Pmm) (xs : List ℕ)
    → length xs < fuel
    → Inv p xs
    → Filters test p xs (unlink_walk test fuel 0 (p.link 0) p)
unlink_walk-Filters test fuel p xs f v =
    let u : Unlinked test 0 p 0 xs (unlink_walk test fuel 0 (p.link 0) p) =
      unlink_walk-Unlinked test fuel 0 (p.link 0) p 0 xs f refl v.chain v.distinct
        (omega (arith, v.counted)) (omega (arith, Inv-small v)) in
    (
      u.result,
      u.ends,
      record {
        chain = u.chain;
        distinct = (
          Absent-keep_if (others test) 0 xs v.distinct.0,
          Distinct-keep_if (others test) xs v.distinct.1,
        );
        counted = omega (arith, u.counted);
        idle = rw u.same (Idle-keep_if (others test) p.ref_counts p.max_frame_idx xs v.idle);
        frames = rw u.same v.frames;
      },
      u.same,
    )

-- In a state that satisfies the invariant and with fuel above the length of the list,
-- removeFramesAbove ends and leaves exactly the frames below the boundary, in their order; no
-- count of references changes.
pub remove_frames_above-Filters :
    (p : Pmm) (xs : List ℕ) (fuel boundary : ℕ)
    → length xs < fuel
    → Inv p xs
    → Filters (λ a. leb boundary a) p xs (remove_frames_above fuel boundary p)
unfolding remove_frames_above
remove_frames_above-Filters p xs fuel boundary f v =
    unlink_walk-Filters (λ a. leb boundary a) fuel p xs f v

rounded : (x : ℕ) → x + 4095 < u32_mod → page_up x ≡ (x + 4095) / 4096 * 4096
unfolding page_up page_down
rounded x h = omega arith

-- In a state that satisfies the invariant and with fuel above the length of the list, for a first
-- address of which rounding up to a page does not overflow 32 bits, reserveRegion ends and takes
-- from the free list exactly the frames from its first address, rounded up to a page, to its last,
-- rounded down; no count of references changes.
pub reserve_region-Filters :
    (p : Pmm) (xs : List ℕ) (fuel start end : ℕ)
    → length xs < fuel
    → Inv p xs
    → start + 4095 < u32_mod
    → Filters
        (λ a. leb ((start + 4095) / 4096 * 4096) a && ltb a (end / 4096 * 4096))
        p
        xs
        (reserve_region fuel start end p)
unfolding reserve_region page_up page_down
reserve_region-Filters p xs fuel start end f v h =
    let e : page_up start ≡ (start + 4095) / 4096 * 4096 = rounded start h in
    rw (e, reserve_region)
      (unlink_walk-Filters (λ a. leb ((start + 4095) / 4096 * 4096) a && ltb a (page_down end)) fuel
        p xs f v)
