-- ===== src/Paging/Clone.antt =====
-- The page tables of user code that `clonePageDir` of kernel/arch/i386/Paging.cc copies.
use doors.Base.{
  done, ℕ, zero, suc, ◌+◌, ◌<◌, ◌≤◌, ◌≡◌, ◌≢◌, ◌⊎◌, refl, ◌∙◌, List, arith, update_ne, true,
  if◌then◌else◌, ◌==◌, inl, inr, Bool-cases, ℕ_discrete,
}
use doors.Pmm.{Pmm, add_ref, set_ref_count}
use doors.Pmm.Ownership.{add_ref-Inv}
use doors.Paging.{Paging, write_word}
use doors.Paging.Directory.{share_entry, share_entries, protect, protect_entries}
use doors.Paging.Flags.{is_present, page_addr}
use doors.Paging.Mapped.{InUse, Sound, check_phys_addr-InUse}

max_frame_idx-add_ref : (a : ℕ) (p : Pmm) → (add_ref a p).max_frame_idx ≡ p.max_frame_idx
unfolding add_ref set_ref_count
max_frame_idx-add_ref a p = ground arith

-- No count goes to 0.
add_ref-counts : (a i : ℕ) (p : Pmm) → p.ref_counts i ≢ 0 → (add_ref a p).ref_counts i ≢ 0
unfolding add_ref set_ref_count
add_ref-counts a i p h = ground arith

add_ref-InUse : (p : Pmm) (a b : ℕ) → InUse p b → InUse (add_ref a p) b
add_ref-InUse p a b u =
    (u.0, (u.1.0, omega (arith, max_frame_idx-add_ref a p, u.1.1)), add_ref-counts a _ p u.2)

-- References are added to frames in use; memory and the free list stay.
pub record Shares (s : Paging) (xs : List ℕ) (t : Paging) : Type 0 where
  pub sound : Sound t.pmm xs
  pub kept : t.mem ≡ s.mem
  pub used : (a : ℕ) → InUse s.pmm a → InUse t.pmm a

Shares-trans : {s t q : Paging} {xs : List ℕ} → Shares s xs t → Shares t xs q → Shares s xs q
Shares-trans h k = record {
  sound = k.sound;
  kept = k.kept ∙ h.kept;
  used = λ a u. k.used a (h.used a u);
}

Shares-add_ref :
    (s : Paging) (a : ℕ) (xs : List ℕ)
    → Sound s.pmm xs
    → InUse s.pmm a
    → Shares s xs (record s { pmm = add_ref a s.pmm })
Shares-add_ref s a xs v u = record {
  sound = (add_ref-Inv s.pmm a xs u.1 u.2 v.0, omega (arith, max_frame_idx-add_ref a s.pmm, v.1));
  kept = refl;
  used = λ b w. add_ref-InUse s.pmm a b w;
}

share_entry-Shares :
    (s : Paging) (pte : ℕ) (xs : List ℕ)
    → Sound s.pmm xs
    → (is_present pte ≡ true → InUse s.pmm (page_addr pte))
    → (t : Paging) × (share_entry pte s ≡ done t) × Shares s xs t
unfolding share_entry
share_entry-Shares s pte xs v u = elim (Bool-cases (is_present pte)) [
  | inl e ↦ (
    record s { pmm = add_ref (page_addr pte) s.pmm },
    rw (e, share_entry, check_phys_addr-InUse s (page_addr pte) xs v (u e)) refl,
    Shares-add_ref s (page_addr pte) xs v (u e),
  )
  | inr e ↦ (s, rw (e, share_entry) refl, record { sound = v; kept = refl; used = λ a w. w })
]

share_entries-next :
    (n i table : ℕ) (s t : Paging)
    → share_entry (s.mem table i) s ≡ done t
    → share_entries (suc n) i table s ≡ share_entries n (suc i) table t
unfolding share_entries
share_entries-next n i table s t e = rw (e, share_entries) refl

pub share_entries-Shares :
    (n i table : ℕ) (s : Paging) (xs : List ℕ)
    → Sound s.pmm xs
    → ((k : ℕ)
        → i ≤ k
        → k < i + n
        → is_present (s.mem table k) ≡ true
        → InUse s.pmm (page_addr (s.mem table k)))
    → (t : Paging) × (share_entries n i table s ≡ done t) × Shares s xs t
unfolding share_entries
share_entries-Shares zero i table s xs v u =
    (s, refl, record { sound = v; kept = refl; used = λ a w. w })
share_entries-Shares (suc n) i table s xs v u =
    let a = share_entry-Shares s (s.mem table i) xs v (u i (omega arith) (omega arith)) in
    let r =
      share_entries-Shares n (suc i) table a.0 xs a.2.sound
        (λ k l m. rw a.2.kept (λ p. a.2.used _ (u k (omega arith) (omega arith) p))) in
    (r.0, share_entries-next n i table s a.0 a.1 ∙ r.1, Shares-trans a.2 r.2)

-- The writable entries of the table become copy-on-write, and nothing else changes.
pub record Protects (n i table : ℕ) (s t : Paging) : Type 0 where
  pub kept : t.pmm ≡ s.pmm
  pub elsewhere : (a : ℕ) → a ≢ table → t.mem a ≡ s.mem a
  pub inside : (k : ℕ) → i ≤ k → k < i + n → t.mem table k ≡ protect (s.mem table k)
  pub outside : (k : ℕ) → (k < i) ⊎ (i + n ≤ k) → t.mem table k ≡ s.mem table k

write_word-at :
    (table i v k : ℕ) (s : Paging)
    → (write_word table i v s).mem table k ≡ (if k == i then v else s.mem table k)
unfolding write_word
write_word-at table i v k s = ground arith

pub protect_entries-Protects :
    (n i table : ℕ) (s : Paging) → Protects n i table s (protect_entries n i table s)
unfolding protect_entries write_word
protect_entries-Protects zero i table s = record {
  kept = refl;
  elsewhere = λ a h. refl;
  inside = λ k l m. absurd (omega arith);
  outside = λ k h. refl;
}
protect_entries-Protects (suc n) i table s =
    let q = write_word table i (protect (s.mem table i)) s in
    let r = protect_entries-Protects n (suc i) table q in
    record {
      kept = r.kept;
      elsewhere = λ a h. r.elsewhere a h ∙ update_ne s.mem table a _ h;
      inside = λ k l m. elim (ℕ_discrete k i) [
        | yes e ↦
            ground (arith, e, r.outside k, write_word-at table i (protect (s.mem table i)) k s)
        | no e ↦ ground (arith, e, r.inside k, write_word-at table i (protect (s.mem table i)) k s)
      ];
      outside = λ k h.
          ground (arith, h, r.outside k, write_word-at table i (protect (s.mem table i)) k s);
    }
