-- ===== src/Scheduler/Queue.antt =====
-- The sleep queue of kernel/kernel/Scheduler.cc stays sorted by deadline: `sleep` puts its entry
-- behind the earlier ones, and the timer takes due entries from the front.
use doors.Base.{
  ℕ, zero, suc, ◌+◌, ◌≤◌, ◌<◌, ◌≡◌, ◌≢◌, ◌⊎◌, refl, sym, ap, ◌∙◌, subst, arith, ltb, ◌==◌, update,
  update_self, update_ne, Bool-cases, inl, inr, ℕ_discrete, dec_lt, ltb→lt,
}
use native.Mathlib.Nat.{le_trans}
use doors.Scheduler.{Scheduler, SleepEntry}
use doors.Scheduler.Sleepers.{
  shift_right, insert_sleeper, shift_left, remove_from, remove_from_sleep_queue,
}

-- The first `n` entries are in order of their deadlines.
abbrev pub Sorted : (ℕ → SleepEntry) → ℕ → Type 0
Sorted q n = (i : ℕ) → suc i < n → (q i).deadline ≤ (q (suc i)).deadline

-- The loop of `sleep` has opened a gap at `r.1` in the first `n` entries.
record Shifted (q : ℕ → SleepEntry) (d n : ℕ) (r : (ℕ → SleepEntry) × ℕ) : Type 0 where
  within : r.1 ≤ n
  before : (i : ℕ) → i < r.1 → r.0 i ≡ q i
  last : (i : ℕ) → suc i ≡ r.1 → (q i).deadline ≤ d
  after : (i : ℕ) → r.1 ≤ i → i < n → (r.0 (suc i) ≡ q i) × (d < (q i).deadline)
  beyond : (i : ℕ) → n < i → r.0 i ≡ q i

shift_right-Shifted : (q : ℕ → SleepEntry) (d n : ℕ) → Shifted q d n (shift_right q d n)
unfolding shift_right
shift_right-Shifted q d zero = record {
  within = omega arith;
  before = λ i h. refl;
  last = λ i h. absurd (omega arith);
  after = λ i h k. absurd (omega arith);
  beyond = λ i h. refl;
}
shift_right-Shifted q d (suc n) = elim (Bool-cases (ltb d (q n).deadline)) [
  | inl t ↦
      let u = shift_right-Shifted (update q (suc n) (q n)) d n in
      rw t (record {
        within = omega (arith, u.within);
        before = λ i h.
            u.before i h ∙ update_ne q (suc n) i (q n) (λ e. absurd (omega (arith, u.within, e)));
        last = λ i h.
            subst (λ e. e.deadline ≤ d)
              (update_ne q (suc n) i (q n) (λ e. absurd (omega (arith, u.within, e)))) (u.last i h);
        after = λ i h k. elim (ℕ_discrete i n) [
          | yes e ↦ rw e (
            u.beyond (suc n) (omega arith) ∙ update_self q (suc n) (q n),
            ltb→lt d (q n).deadline t,
          )
          | no ne ↦
              let same = update_ne q (suc n) i (q n) (λ e. absurd (omega arith)) in
              let v = u.after i h (omega arith) in
              (v.0 ∙ same, subst (λ e. d < e.deadline) same v.1)
        ];
        beyond = λ i h.
            u.beyond i (omega arith) ∙ update_ne q (suc n) i (q n) (λ e. absurd (omega arith));
      })
  | inr t ↦ rw t (record {
    within = omega arith;
    before = λ i h. refl;
    last = λ i h. (let e : i ≡ n = omega arith in rw e (ground arith));
    after = λ i h k. absurd (omega arith);
    beyond = λ i h. refl;
  })
]

-- In a sorted queue no entry in front of the gap is due later than its last.
Sorted-last :
    (q : ℕ → SleepEntry) (n d k : ℕ)
    → Sorted q n
    → k ≤ n
    → ((i : ℕ) → suc i ≡ k → (q i).deadline ≤ d)
    → (i : ℕ) → i < k
    → (q i).deadline ≤ d
Sorted-last q n d zero s w l i h = absurd (omega arith)
Sorted-last q n d (suc k) s w l i h = elim (ℕ_discrete i k) [
  | yes e ↦ l i (omega (arith, e))
  | no e ↦
      Sorted-last q n d k s (omega arith)
        (λ j c.
          le_trans (s j (omega (arith, c))) (subst (λ z. (q z).deadline ≤ d) (sym c) (l k refl)))
        i (omega (arith, e))
]

-- `r` is the queue `q` of `n` entries with one more, after all that are due no later and before all
-- that are due later.
pub record Inserted (q : ℕ → SleepEntry) (n : ℕ) (e : SleepEntry) (r : ℕ → SleepEntry)
    : Type 0 where
  pub place : ℕ
  pub within : place ≤ n
  pub before : (i : ℕ) → i < place → r i ≡ q i
  pub here : r place ≡ e
  pub after : (i : ℕ) → place ≤ i → i < n → r (suc i) ≡ q i
  pub due_no_later : (i : ℕ) → i < place → (q i).deadline ≤ e.deadline
  pub due_later : (i : ℕ) → place ≤ i → i < n → e.deadline < (q i).deadline
  pub sorted : Sorted r (suc n)

module _ (q : ℕ → SleepEntry) (n : ℕ) (e : SleepEntry) (sorted : Sorted q n) where
  placed : (ℕ → SleepEntry) × ℕ
  placed = shift_right q e.deadline n

  shifted : Shifted q e.deadline n placed
  unfolding placed
  shifted = shift_right-Shifted q e.deadline n

  put : ℕ → SleepEntry
  unfolding placed
  put = update placed.0 placed.1 e

  put_before : (i : ℕ) → i < placed.1 → put i ≡ q i
  unfolding put
  put_before i h = update_ne placed.0 placed.1 i e (λ c. absurd (omega arith)) ∙ shifted.before i h

  put_here : put placed.1 ≡ e
  unfolding put
  put_here = update_self placed.0 placed.1 e

  put_after : (i : ℕ) → placed.1 ≤ i → i < n → put (suc i) ≡ q i
  unfolding put
  put_after i h k =
      update_ne placed.0 placed.1 (suc i) e (λ c. absurd (omega arith)) ∙ (shifted.after i h k).0

  put_later : (i : ℕ) → placed.1 < i → i < n → (put i).deadline ≤ (put (suc i)).deadline
  put_later zero h k = absurd (omega arith)
  put_later (suc i) h k =
      rw (put_after i (omega arith) (omega arith), put_after (suc i) (omega arith) k) (sorted i k)

  -- Of two neighbours in the new queue both are old, or one is new.
  put-Sorted : Sorted put (suc n)
  put-Sorted i h = elim (dec_lt (suc i) placed.1) [
    | yes a ↦
        rw (put_before i (omega arith), put_before (suc i) a)
          (sorted i (omega (arith, shifted.within)))
    | no a ↦ elim (ℕ_discrete (suc i) placed.1) [
      | yes b ↦
          subst (λ z. (put i).deadline ≤ (put z).deadline) (sym b)
            (rw (put_before i (omega arith), put_here) (shifted.last i b))
      | no b ↦ elim (ℕ_discrete i placed.1) [
        | yes c ↦
            subst (λ z. (put z).deadline ≤ (put (suc i)).deadline) (sym c)
              (rw (put_here, put_after i (omega arith) (omega arith))
                (omega (arith, (shifted.after i (omega arith) (omega arith)).1)))
        | no c ↦ put_later i (omega arith) (omega arith)
      ]
    ]
  ]

  put-Inserted : Inserted q n e put
  put-Inserted = record {
    place = placed.1;
    within = shifted.within;
    before = put_before;
    here = put_here;
    after = put_after;
    due_no_later =
        λ i h. Sorted-last q n e.deadline placed.1 sorted shifted.within shifted.last i h;
    due_later = λ i h k. (shifted.after i h k).1;
    sorted = put-Sorted;
  }

-- sleep inserts the entry of the running task into a sorted queue behind all entries due no later
-- and before all due later; the queue stays sorted and is one longer.
pub insert_sleeper-Inserted :
    (d id : ℕ) (s : Scheduler)
    → Sorted s.sleep_queue s.sleep_count
    → Inserted s.sleep_queue s.sleep_count
        (record { deadline = d; task_id = id })
        (insert_sleeper d id s).sleep_queue
      × ((insert_sleeper d id s).sleep_count ≡ s.sleep_count + 1)
unfolding insert_sleeper put placed
insert_sleeper-Inserted d id s h =
    (put-Inserted s.sleep_queue s.sleep_count (record { deadline = d; task_id = id }) h, refl)

-- The gap at `j` is filled by the `n` entries behind it.
pub record Closed (q : ℕ → SleepEntry) (j n : ℕ) (r : ℕ → SleepEntry) : Type 0 where
  pub before : (i : ℕ) → i < j → r i ≡ q i
  pub moved : (i : ℕ) → j ≤ i → i < j + n → r i ≡ q (suc i)

pub shift_left-Closed : (q : ℕ → SleepEntry) (j n : ℕ) → Closed q j n (shift_left q j n)
unfolding shift_left
shift_left-Closed q j zero = record { before = λ i h. refl; moved = λ i h k. absurd (omega arith) }
shift_left-Closed q j (suc n) =
    let u = shift_left-Closed (update q j (q (j + 1))) (j + 1) n in
    record {
      before =
          λ i h. u.before i (omega arith) ∙ update_ne q j i (q (j + 1)) (λ e. absurd (omega arith));
      moved = λ i h k. elim (ℕ_discrete i j) [
        | yes e ↦
            u.before i (omega arith)
            ∙ ap (update q j (q (j + 1))) e
            ∙ update_self q j (q (j + 1))
            ∙ ap q (omega arith)
        | no ne ↦
            u.moved i (omega arith) (omega arith)
            ∙ update_ne q j (suc i) (q (j + 1)) (λ e. absurd (omega arith))
      ];
    }

pub shift_left-Sorted :
    (q : ℕ → SleepEntry) (j n : ℕ) → Sorted q (suc (j + n)) → Sorted (shift_left q j n) (j + n)
shift_left-Sorted q j n h i k =
    let u = shift_left-Closed q j n in
    elim (dec_lt (suc i) j) [
      | yes a ↦ rw (u.before i (omega arith), u.before (suc i) a) (h i (omega arith))
      | no a ↦ elim (dec_lt i j) [
        | yes b ↦
            rw (u.before i b, u.moved (suc i) (omega arith) k)
              (le_trans (h i (omega arith)) (h (suc i) (omega arith)))
        | no b ↦
            rw (u.moved i (omega arith) (omega arith), u.moved (suc i) (omega arith) k)
              (h (suc i) (omega arith))
      ]
    ]

-- What the search for `id` from entry `i` of the queue `s`, `n` entries being left, leaves: nothing
-- changes if there is none, and otherwise the first entry of `id` is gone.
abbrev pub Removes : ℕ → ℕ → ℕ → Scheduler → Scheduler → Type 0
Removes id i n s t =
    ((t ≡ s) × ((j : ℕ) → i ≤ j → j < i + n → (s.sleep_queue j).task_id ≢ id))
    ⊎ ((k : ℕ) × (i ≤ k)
        × (k < i + n)
        × ((s.sleep_queue k).task_id ≡ id)
        × ((j : ℕ) → i ≤ j → j < k → (s.sleep_queue j).task_id ≢ id)
        × (t.sleep_count + 1 ≡ s.sleep_count)
        × ((j : ℕ) → j < k → t.sleep_queue j ≡ s.sleep_queue j)
        × ((j : ℕ) → k ≤ j → j < t.sleep_count → t.sleep_queue j ≡ s.sleep_queue (suc j))
        × (t.tasks ≡ s.tasks))

Removes-later :
    (id i n : ℕ) (s t : Scheduler)
    → (s.sleep_queue i).task_id ≢ id
    → Removes id (i + 1) n s t
    → Removes id i (suc n) s t
Removes-later id i n s t h (inl (e, f)) = inl (
  e,
  λ j a b. elim (ℕ_discrete j i) [
    | yes z ↦ subst (λ y. (s.sleep_queue y).task_id ≢ id) (sym z) h
    | no z ↦ f j (omega arith) (omega arith)
  ],
)
Removes-later id i n s t h (inr (k, a, b, c, d, e, f, g, l)) = inr (
  k,
  omega arith,
  omega arith,
  c,
  λ j x y. elim (ℕ_discrete j i) [
    | yes z ↦ subst (λ y. (s.sleep_queue y).task_id ≢ id) (sym z) h
    | no z ↦ d j (omega arith) y
  ],
  e,
  f,
  g,
  l,
)

remove_from-Removes :
    (id i n : ℕ) (s : Scheduler) → s.sleep_count ≡ i + n → Removes id i n s (remove_from id i n s)
unfolding remove_from
remove_from-Removes id i zero s e = inl (refl, λ j a b. absurd (omega arith))
remove_from-Removes id i (suc n) s e = elim (Bool-cases ((s.sleep_queue i).task_id == id)) [
  | inl t ↦
      let u = shift_left-Closed s.sleep_queue i n in
      rw t (
        inr (
          i,
          omega arith,
          omega arith,
          ground arith,
          λ j a b. absurd (omega arith),
          omega arith,
          u.before,
          λ j a b. u.moved j a (omega arith),
          refl,
        ))
  | inr t ↦ rw t (
      Removes-later id i n s (remove_from id (i + 1) n s) (ground arith)
        (remove_from-Removes id (i + 1) n s (omega arith)))
]

-- removeFromSleepQueue takes the first entry of the task off the queue, with all other entries in
-- their order and no task touched, and changes nothing if the task has no entry.
pub remove_from_sleep_queue-Removes :
    (id : ℕ) (s : Scheduler) → Removes id 0 s.sleep_count s (remove_from_sleep_queue id s)
unfolding remove_from_sleep_queue
remove_from_sleep_queue-Removes id s = remove_from-Removes id 0 s.sleep_count s (omega arith)

remove_from-Sorted :
    (id i n : ℕ) (s : Scheduler)
    → s.sleep_count ≡ i + n
    → Sorted s.sleep_queue s.sleep_count
    → Sorted (remove_from id i n s).sleep_queue (remove_from id i n s).sleep_count
unfolding remove_from
remove_from-Sorted id i zero s e h = h
remove_from-Sorted id i (suc n) s e h = elim (Bool-cases ((s.sleep_queue i).task_id == id)) [
  | inl t ↦
      rw (t, e)
        (subst (Sorted (shift_left s.sleep_queue i n)) (omega arith)
          (shift_left-Sorted s.sleep_queue i n (subst (Sorted s.sleep_queue) (omega arith) h)))
  | inr t ↦ rw t (remove_from-Sorted id (i + 1) n s (omega arith) h)
]

-- `removeFromSleepQueue` keeps a sorted queue sorted.
pub remove_from_sleep_queue-Sorted :
    (id : ℕ) (s : Scheduler)
    → Sorted s.sleep_queue s.sleep_count
    → Sorted (remove_from_sleep_queue id s).sleep_queue (remove_from_sleep_queue id s).sleep_count
unfolding remove_from_sleep_queue
remove_from_sleep_queue-Sorted id s h = remove_from-Sorted id 0 s.sleep_count s (omega arith) h
