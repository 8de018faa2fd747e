-- ===== src/Scheduler/Choice.antt =====
-- `findNext` of kernel/kernel/Scheduler.cc picks a READY task of the best priority, the first in
-- round-robin order.
use native.Mathlib.Nat.{mod-eq_of_lt, mod-eq-sub-mod}
use doors.Base.{
  ℕ, zero, suc, ◌+◌, ◌-◌, ◌%◌, ◌≤◌, ◌<◌, ◌≡◌, ◌≢◌, refl, sym, ap, ◌∙◌, subst, arith, Bool, true,
  ltb, ◌==◌, Bool-cases, inl, inr, ◌⊎◌, ◌&&◌, ℕ_discrete, dec_lt, some, done,
}
use doors.Scheduler.{Scheduler, is_ready, max_tasks, priority_idle}
use doors.Scheduler.Pick.{
  Best, visit, consider, pick_from, worse_than_idle, slot_or_idle, find_next,
}

abbrev pub Ready : Scheduler → ℕ → Type 0
Ready s j = is_ready (s.tasks j).state ≡ true

abbrev pub priority_of : Scheduler → ℕ → ℕ
priority_of s j = (s.tasks j).priority

-- The best slot of the first `n` rounds was seen in round `i`, and no earlier one is as good.
record Seen (s : Scheduler) (n : ℕ) (b : Best) (i : ℕ) : Type 0 where
  round : i < n
  slot : b.slot ≡ some (visit s i)
  runnable : Ready s (visit s i)
  priority : priority_of s (visit s i) ≡ b.priority
  good : b.priority ≤ priority_idle
  first : (k : ℕ) → k < i → Ready s (visit s k) → b.priority < priority_of s (visit s k)

record Chosen (s : Scheduler) (n : ℕ) (b : Best) : Type 0 where
  bound : (i : ℕ) → i < n → Ready s (visit s i) → b.priority ≤ priority_of s (visit s i)
  seen : (b ≡ worse_than_idle) ⊎ ((i : ℕ) × Seen s n b i)

better : Scheduler → ℕ → Best → Bool
better s i b = is_ready (s.tasks (visit s i)).state && ltb (s.tasks (visit s i)).priority b.priority

good-le : (s : Scheduler) (n : ℕ) (b : Best) → Chosen s n b → b.priority ≤ priority_idle + 1
good-le s n b c = elim c.seen [ inl e ↦ rw e (omega arith) | inr (i, d) ↦ omega (arith, d.good) ]

consider-better :
    (s : Scheduler) (n : ℕ) (b : Best)
    → Ready s (visit s n)
    → priority_of s (visit s n) < b.priority
    → Chosen s n b
    → Chosen s (suc n) (record { priority = priority_of s (visit s n); slot = some (visit s n) })
consider-better s n b r l c = record {
  bound = λ i h k. elim (ℕ_discrete i n) [
    | yes e ↦ rw e (omega arith)
    | no ne ↦ omega (arith, c.bound i (omega arith) k)
  ];
  seen = inr (
    n,
    record {
      round = omega arith;
      slot = refl;
      runnable = r;
      priority = refl;
      good = omega (arith, good-le s n b c);
      first = λ k h d. omega (arith, c.bound k h d);
    },
  );
}

consider-kept :
    (s : Scheduler) (n : ℕ) (b : Best)
    → (Ready s (visit s n) → b.priority ≤ priority_of s (visit s n))
    → Chosen s n b
    → Chosen s (suc n) b
consider-kept s n b w c = record {
  bound = λ i h k. elim (ℕ_discrete i n) [
    | yes e ↦ rw e (w (subst (λ z. Ready s (visit s z)) e k))
    | no ne ↦ c.bound i (omega arith) k
  ];
  seen = elim c.seen [
    | inl e ↦ inl e
    | inr (i, d) ↦ inr (
      i,
      record {
        round = omega (arith, d.round);
        slot = d.slot;
        runnable = d.runnable;
        priority = d.priority;
        good = d.good;
        first = d.first;
      },
    )
  ];
}

consider-Chosen :
    (s : Scheduler) (n : ℕ) (b : Best) → Chosen s n b → Chosen s (suc n) (consider s n b)
unfolding consider
consider-Chosen s n b c = elim (Bool-cases (is_ready (s.tasks (visit s n)).state)) [
  | inr t ↦ rw t (consider-kept s n b (λ r. cc) c)
  | inl t ↦ elim (Bool-cases (ltb (s.tasks (visit s n)).priority b.priority)) [
    | inl l ↦ rw (t, l) (consider-better s n b t (ground arith) c)
    | inr l ↦ rw (t, l) (consider-kept s n b (λ r. ground arith) c)
  ]
]

-- A slot of the highest priority is best whatever follows.
stop_early :
    (s : Scheduler) (n m : ℕ) (b : Best) → n ≤ m → b.priority ≡ 0 → Chosen s n b → Chosen s m b
stop_early s n m b h e c = record {
  bound = λ i k r. omega arith;
  seen = elim c.seen [
    | inl d ↦ inl d
    | inr (i, d) ↦ inr (
      i,
      record {
        round = omega (arith, d.round);
        slot = d.slot;
        runnable = d.runnable;
        priority = d.priority;
        good = d.good;
        first = d.first;
      },
    )
  ];
}

pick_from-Chosen :
    (s : Scheduler) (i n m : ℕ) (b : Best)
    → i + n ≡ m
    → Chosen s i b
    → Chosen s m (pick_from s i n b)
unfolding pick_from
pick_from-Chosen s i zero m b e c = subst (λ z. Chosen s z b) (omega arith) c
pick_from-Chosen s i (suc n) m b e c = elim (Bool-cases ((consider s i b).priority == 0)) [
  | inl t ↦ rw t (
      stop_early s (suc i) m (consider s i b) (omega arith) (ground arith)
        (consider-Chosen s i b c))
  | inr t ↦ rw t (
      pick_from-Chosen s (i + 1) n m (consider s i b) (omega arith)
        (subst (λ z. Chosen s z (consider s i b)) (omega arith) (consider-Chosen s i b c)))
]

-- The walk visits every slot but the current one.
visit_all :
    (s : Scheduler) (j : ℕ)
    → s.current_idx < s.task_count
    → j < s.task_count
    → j ≢ s.current_idx
    → (i : ℕ) × (i < s.task_count - 1) × (visit s i ≡ j)
unfolding visit
visit_all s j c h ne = elim (dec_lt s.current_idx j) [
  | yes a ↦ (
    j - s.current_idx - 1,
    omega arith,
    ap (λ x. x % s.task_count) (omega arith) ∙ mod-eq_of_lt h,
  )
  | no a ↦ (
    j + s.task_count - s.current_idx - 1,
    omega arith,
    ap (λ x. x % s.task_count) (omega arith)
        ∙ mod-eq-sub-mod {n = j + s.task_count} {m = s.task_count} (omega arith)
        ∙ ap (λ x. x % s.task_count) (omega arith)
        ∙ mod-eq_of_lt h,
  )
]

-- What the slot that runs next is.
pub record NextTask (s : Scheduler) (slot : ℕ) : Type 0 where
  pub best :
      (j : ℕ)
      → j < s.task_count
      → j ≢ s.current_idx
      → Ready s j
      → priority_of s j ≤ priority_idle
      → Ready s slot × (priority_of s slot ≤ priority_of s j)
  pub in_turn :
      (slot ≡ 0)
      ⊎ ((i : ℕ) × (i < s.task_count - 1)
          × (slot ≡ visit s i)
          × ((k : ℕ)
              → k < i
              → Ready s (visit s k)
              → priority_of s slot < priority_of s (visit s k)))

chosen-NextTask :
    (s : Scheduler) (b : Best)
    → s.current_idx < s.task_count
    → Chosen s (s.task_count - 1) b
    → NextTask s (slot_or_idle b)
chosen-NextTask s b h c = elim c.seen [
  | inl e ↦ record {
    best = λ j k ne r l.
        let (i, w, v) = visit_all s j h k ne in
        absurd (
          omega (
            arith,
            ap Best.priority e,
            c.bound i w (subst (Ready s) (sym v) r),
            ap (priority_of s) v,
            l,
          ));
    in_turn = inl (rw e);
  }
  | inr (n, d) ↦
      let same : slot_or_idle b ≡ visit s n = rw d.slot in
      rw same (record {
        best = λ j k ne r l.
            let (i, w, v) = visit_all s j h k ne in
            (
              d.runnable,
              omega (
                arith,
                d.priority,
                c.bound i w (subst (Ready s) (sym v) r),
                ap (priority_of s) v,
              ),
            );
        in_turn = inr (n, d.round, refl, λ k l r. omega (arith, d.priority, d.first k l r));
      })
]

start : (s : Scheduler) → Chosen s 0 worse_than_idle
start s = record { bound = λ i h. absurd (omega arith); seen = inl refl }

-- With two to eight tasks and the current slot among them, findNext returns a slot at least as
-- good as each other READY task whose priority is no worse than idle: such a slot is READY and of
-- the best priority; it is slot 0, or the first among equals in the walk that begins behind the
-- current slot.
pub find_next-NextTask :
    (s : Scheduler)
    → s.current_idx < s.task_count
    → 2 ≤ s.task_count
    → s.task_count ≤ max_tasks
    → (slot : ℕ) × (find_next s ≡ done (some slot)) × NextTask s slot
unfolding find_next
find_next-NextTask s h k l =
    let b = pick_from s 0 (s.task_count - 1) worse_than_idle in
    (
      slot_or_idle b,
      ground arith,
      chosen-NextTask s b h (
          pick_from-Chosen s 0 (s.task_count - 1) (s.task_count - 1) worse_than_idle (omega arith)
            (start s)),
    )
