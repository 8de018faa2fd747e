-- ===== src/Paging/CloneTable.antt =====
-- One entry of the directory that `clonePageDir` of kernel/arch/i386/Paging.cc copies.
use doors.Base.{
  done, ℕ, ◌+◌, ◌<◌, ◌≡◌, ◌≢◌, refl, sym, ap, ◌∙◌, List, arith, update, update_ne, update_self,
  true,
}
use doors.Paging.{Paging, write_word}
use doors.Paging.Directory.{share_entries, protect, protect_entries, clone_table}
use doors.Paging.Flags.{is_present, page_addr, page_flags, pte_count}
use doors.Paging.Mapped.{InUse, Sound, check_phys_addr-InUse}
use doors.Paging.Clone.{share_entries-Shares, protect_entries-Protects}

-- `clone_table` of the table at `old` to the frame `f`.
pub record Copies (i pde dir f : ℕ) (s : Paging) (xs : List ℕ) (t : Paging) : Type 0 where
  pub sound : Sound t.pmm xs
  pub used : (a : ℕ) → InUse s.pmm a → InUse t.pmm a
  pub table : (k : ℕ) → k < pte_count → t.mem f k ≡ protect (s.mem (page_addr pde) k)
  pub linked : t.mem dir ≡ update (s.mem dir) i (f + page_flags pde)
  pub elsewhere : (a : ℕ) → a ≢ f → a ≢ dir → t.mem a ≡ s.mem a

-- The state after the copy and the new entry of the directory.
copied : ℕ → ℕ → ℕ → ℕ → Paging → Paging
copied i pde dir f s =
    write_word dir i (f + page_flags pde)
      (record s { mem = update s.mem f (s.mem (page_addr pde)) })

clone_table-copied :
    (i pde dir f : ℕ) (s t : Paging) (xs : List ℕ)
    → Sound s.pmm xs
    → InUse s.pmm (page_addr pde)
    → share_entries pte_count 0 f (copied i pde dir f s) ≡ done t
    → clone_table i pde dir f s ≡ done (protect_entries pte_count 0 f t)
unfolding clone_table copied
clone_table-copied i pde dir f s t xs v u e =
    rw (check_phys_addr-InUse s (page_addr pde) xs v u, clone_table, e) refl

copied-mem :
    (i pde dir f : ℕ) (s : Paging)
    → f ≢ dir
    → ((copied i pde dir f s).mem f ≡ s.mem (page_addr pde))
      × ((copied i pde dir f s).mem dir ≡ update (s.mem dir) i (f + page_flags pde))
      × ((a : ℕ) → a ≢ f → a ≢ dir → (copied i pde dir f s).mem a ≡ s.mem a)
      × ((copied i pde dir f s).pmm ≡ s.pmm)
unfolding copied write_word
copied-mem i pde dir f s h = (
  update_ne m dir f _ h ∙ update_self s.mem f _,
  update_self m dir _
      ∙ ap (λ x. update x i (f + page_flags pde)) (update_ne s.mem f dir _ (λ e. h (sym e))),
  λ a k l. update_ne m dir a _ l ∙ update_ne s.mem f a _ k,
  refl,
)
  where
    m : ℕ → ℕ → ℕ
    m = update s.mem f (s.mem (page_addr pde))

pub clone_table-Copies :
    (i pde dir f : ℕ) (s : Paging) (xs : List ℕ)
    → Sound s.pmm xs
    → InUse s.pmm (page_addr pde)
    → f ≢ dir
    → ((k : ℕ)
        → k < pte_count
        → is_present (s.mem (page_addr pde) k) ≡ true
        → InUse s.pmm (page_addr (s.mem (page_addr pde) k)))
    → (t : Paging) × (clone_table i pde dir f s ≡ done t) × Copies i pde dir f s xs t
unfolding copied write_word
clone_table-Copies i pde dir f s xs v u h w =
    let m = copied-mem i pde dir f s h in
    let r =
      share_entries-Shares pte_count 0 f (copied i pde dir f s) xs v
        (λ k l b. rw m.0 (λ p. w k (omega arith) p)) in
    let q = protect_entries-Protects pte_count 0 f r.0 in
    (
      protect_entries pte_count 0 f r.0,
      clone_table-copied i pde dir f s r.0 xs v u r.1,
      record {
        sound = rw q.kept r.2.sound;
        used = λ a z. rw q.kept (r.2.used a z);
        table = λ k l.
            q.inside k (omega arith) (omega arith)
            ∙ ap (λ x. protect (x f k)) r.2.kept
            ∙ ap (λ x. protect (x k)) m.0;
        linked = q.elsewhere dir (λ e. h (sym e)) ∙ ap (λ x. x dir) r.2.kept ∙ m.1;
        elsewhere = λ a k l. q.elsewhere a k ∙ ap (λ x. x a) r.2.kept ∙ m.2 a k l;
      },
    )
