-- ===== src/Pmm/Reserve.antt =====
-- `reserveFrame` of kernel/kernel/Pmm.cc takes one frame off the free list.
use doors.Base.{
  Chain, ℕ, zero, suc, ◌+◌, ◌<◌, ◌≡◌, ◌≢◌, refl, sym, ◌∙◌, List, [], ◌∷◌, arith, length, update,
  update_ne, Absent, Member, Distinct, u32_mod, keep_if, false, ◌==◌, Distinct-keep_if,
  Absent-keep_if, inl, inr, Option, some, ==_iff, Member-cases, ℕ_discrete, subst,
}
use doors.Pmm.{Pmm, init_ref_count, set_ref_count, ref_count_entry}
use doors.Pmm.Walks.{unlink, reserve_walk, reserve_frame}
use doors.Pmm.Idle.{Inv, Idle, IsFrame, Inv-small, frame_index, is_not, keep_if-Absent, Idle-update}
use doors.Pmm.Unlink.{Chain-unlink, free_count-unlink, Idle-keep_if}

-- A walk for `a` from `prev` over the frames `xs`, with `k` more free frames before them, has ended.
pub record Reserved (a prev : ℕ) (p : Pmm) (k : ℕ) (xs : List ℕ) (r : Option Pmm) : Type 0 where
  pub result : Pmm
  pub ends : r ≡ some result
  pub chain : Chain result.link prev (keep_if (is_not a) xs)
  pub elsewhere : (loc : ℕ) → Absent loc (prev ∷ xs) → result.link loc ≡ p.link loc
  pub counted : result.free_count ≡ k + length (keep_if (is_not a) xs)
  pub bound : result.max_frame_idx ≡ p.max_frame_idx
  pub missed : Absent a xs → result ≡ p
  pub hit : Member a xs → result.ref_counts ≡ update p.ref_counts (frame_index a) 1

Absent-is_not : (a : ℕ) (xs : List ℕ) → Absent a (keep_if (is_not a) xs)
Absent-is_not a [] = tt
Absent-is_not a (x ∷ xs) = ground (arith, Absent-is_not a xs)

taken_off : ℕ → ℕ → Pmm → Pmm
taken_off a prev p = set_ref_count (frame_index a) 1 (unlink prev a p)

module _ (a : ℕ) where
  found :
      (fuel prev : ℕ) (p : Pmm) (k : ℕ) (xs : List ℕ)
      → a ≢ 0
      → IsFrame p.max_frame_idx a
      → p.link prev ≡ a
      → Absent prev (a ∷ xs)
      → Absent a xs
      → Chain p.link a xs
      → p.free_count ≡ suc (k + length xs)
      → suc (k + length xs) < u32_mod
      → Reserved a prev p k (a ∷ xs) (reserve_walk (suc fuel) a prev a p)
  unfolding reserve_walk taken_off set_ref_count unlink init_ref_count ref_count_entry
  found fuel prev p k xs h f l b d c n s = record {
    result = taken_off a prev p;
    ends = ground arith;
    chain = rw ((==_iff a a).1 refl, keep_if-Absent a xs d) (Chain-unlink prev a p xs b.1 c);
    elsewhere = λ loc m. update_ne p.link prev loc (p.link a) m.0;
    counted =
        rw ((==_iff a a).1 refl, keep_if-Absent a xs d)
          (free_count-unlink prev a p _ n (omega arith));
    bound = refl;
    missed = λ m. absurd (m.0 refl);
    hit = λ m. refl;
  }

  passed :
      (fuel prev x : ℕ) (p : Pmm) (k : ℕ) (xs : List ℕ)
      → x ≢ 0
      → x ≢ a
      → p.link prev ≡ x
      → Absent prev (x ∷ xs)
      → Reserved a x p (suc k) xs (reserve_walk fuel a x (p.link x) p)
      → Reserved a prev p k (x ∷ xs) (reserve_walk (suc fuel) a prev x p)
  unfolding reserve_walk
  passed fuel prev x p k xs h ne l b u = record {
    result = u.result;
    ends = ground (arith, u.ends);
    chain = rw other (u.elsewhere prev b ∙ l, h, u.chain);
    elsewhere = λ loc m. u.elsewhere loc m.1;
    counted = rw other (omega (arith, u.counted));
    bound = u.bound;
    missed = λ m. u.missed m.1;
    hit = elim [ inl e ↦ absurd (ne (sym e)) | inr m ↦ u.hit m ];
  }
    where
      other : (x == a) ≡ false
      other = ground arith

  missed_all :
      (fuel prev : ℕ) (p : Pmm) (k : ℕ)
      → p.link prev ≡ 0
      → p.free_count ≡ k + 0
      → Reserved a prev p k [] (reserve_walk (suc fuel) a prev 0 p)
  unfolding reserve_walk
  missed_all fuel prev p k c n = record {
    result = p;
    ends = ground arith;
    chain = c;
    elsewhere = λ loc m. refl;
    counted = n;
    bound = refl;
    missed = λ m. refl;
    hit = λ m. absurd m;
  }

  reserve_walk-Reserved :
      (fuel prev curr : ℕ) (p : Pmm) (k : ℕ) (xs : List ℕ)
      → length xs < fuel
      → a ≢ 0
      → IsFrame p.max_frame_idx a
      → p.link prev ≡ curr
      → Chain p.link prev xs
      → Distinct (prev ∷ xs)
      → p.free_count ≡ k + length xs
      → k + length xs < u32_mod
      → Reserved a prev p k xs (reserve_walk fuel a prev curr p)
  reserve_walk-Reserved zero prev curr p k xs f h g e c d n s = absurd (omega arith)
  reserve_walk-Reserved (suc fuel) prev curr p k [] f h g e c d n s =
      subst (λ y. Reserved a prev p k [] (reserve_walk (suc fuel) a prev y p)) (sym c ∙ e)
        (missed_all fuel prev p k c n)
  reserve_walk-Reserved (suc fuel) prev curr p k (x ∷ xs) f h g e c d n s =
      let passes : x ≢ a → Reserved a prev p k (x ∷ xs) (reserve_walk (suc fuel) a prev x p) = λ ne.
        passed fuel prev x p k xs c.1 ne c.0 d.0 (
          reserve_walk-Reserved fuel x (p.link x) p (suc k) xs (omega arith) h g refl c.2 d.1
            (omega arith) (omega arith)) in
      subst (λ y. Reserved a prev p k (x ∷ xs) (reserve_walk (suc fuel) a prev y p)) (sym c.0 ∙ e)
        (elim (ℕ_discrete x a) [
          | yes t ↦
              subst (λ y. Reserved a prev p k (y ∷ xs) (reserve_walk (suc fuel) a prev y p)) (sym t)
                (found fuel prev p k xs h g (c.0 ∙ t) (subst (λ y. Absent prev (y ∷ xs)) t d.0)
                  (subst (λ y. Absent y xs) t d.1.0) (subst (λ y. Chain p.link y xs) t c.2)
                  (omega arith) (omega arith))
          | no ne ↦ passes ne
        ])

Idle-reserved :
    (p q : Pmm) (a : ℕ) (xs : List ℕ)
    → IsFrame p.max_frame_idx a
    → q.max_frame_idx ≡ p.max_frame_idx
    → q.ref_counts ≡ update p.ref_counts (frame_index a) 1
    → Idle p.ref_counts p.max_frame_idx xs
    → Idle q.ref_counts q.max_frame_idx (keep_if (is_not a) xs)
Idle-reserved p q a xs f b e d =
    rw (e, b)
      (Idle-update p.ref_counts p.max_frame_idx a 1 (keep_if (is_not a) xs) f.0 (Absent-is_not a xs)
        (Idle-keep_if (is_not a) p.ref_counts p.max_frame_idx xs d))

-- In a state that satisfies the invariant and with fuel above the length of the list, reserveFrame
-- of a frame within bounds ends and keeps the invariant: the frame is off the free list and the
-- others stay; if it was listed its count becomes 1 and no other changes; if not, nothing changes.
pub reserve_frame-Inv :
    (p : Pmm) (a fuel : ℕ) (xs : List ℕ)
    → length xs < fuel
    → a ≢ 0
    → IsFrame p.max_frame_idx a
    → Inv p xs
    → (q : Pmm) × (reserve_frame fuel a p ≡ some q)
      × Inv q (keep_if (is_not a) xs)
      × (Absent a xs → q ≡ p)
      × (Member a xs → q.ref_counts ≡ update p.ref_counts (frame_index a) 1)
unfolding reserve_frame
reserve_frame-Inv p a fuel xs f h g v =
    let u : Reserved a 0 p 0 xs (reserve_walk fuel a 0 (p.link 0) p) =
      reserve_walk-Reserved a fuel 0 (p.link 0) p 0 xs f h g refl v.chain v.distinct
        (omega (arith, v.counted)) (omega (arith, Inv-small v)) in
    (
      u.result,
      ground (arith, u.ends),
      record {
        chain = u.chain;
        distinct = (
          Absent-keep_if (is_not a) 0 xs v.distinct.0,
          Distinct-keep_if (is_not a) xs v.distinct.1,
        );
        counted = omega (arith, u.counted);
        idle = elim (Member-cases a xs) [
          | inl m ↦ rw (u.missed m) (Idle-keep_if (is_not a) p.ref_counts p.max_frame_idx xs v.idle)
          | inr m ↦ Idle-reserved p u.result a xs g u.bound (u.hit m) v.idle
        ];
        frames = rw u.bound v.frames;
      },
      u.missed,
      u.hit,
    )
