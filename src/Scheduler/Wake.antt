-- ===== src/Scheduler/Wake.antt =====
-- The loop of `tick` in kernel/kernel/Scheduler.cc that wakes the tasks whose deadline has passed.
use doors.Base.{
  ℕ, zero, suc, ◌+◌, ◌-◌, ◌≤◌, ◌<◌, ◌≡◌, ◌≢◌, refl, sym, ap, ◌∙◌, subst, arith, false, ltb, leb,
  Bool-cases, inl, inr, ◌⊎◌, ◌&&◌, ℕ_discrete,
}
use doors.Scheduler.{Scheduler, Task, is_blocked}
use doors.Scheduler.Sleepers.{shift_left, wake_head, wake_due}
use doors.Scheduler.Queue.{Sorted, shift_left-Closed, shift_left-Sorted}

-- From the state `s` the first `popped` sleepers have been taken off the queue at time `now`.
pub record Woken (now : ℕ) (s t : Scheduler) : Type 0 where
  pub popped : ℕ
  pub due : (i : ℕ) → i < popped → (s.sleep_queue i).deadline ≤ now
  pub count : popped + t.sleep_count ≡ s.sleep_count
  pub rest : (i : ℕ) → i < t.sleep_count → t.sleep_queue i ≡ s.sleep_queue (popped + i)
  pub sorted : Sorted t.sleep_queue t.sleep_count
  pub awake :
      (i : ℕ)
      → i < popped
      → let w = t.tasks (s.sleep_queue i).task_id in
        (is_blocked w.state ≡ false) × (w.wakeup_ms ≡ 0)
  pub others :
      (id : ℕ) → ((i : ℕ) → i < popped → (s.sleep_queue i).task_id ≢ id) → t.tasks id ≡ s.tasks id

-- A task once woken stays so while further sleepers are woken.
abbrev Awake : Task → Type 0
Awake w = (is_blocked w.state ≡ false) × (w.wakeup_ms ≡ 0)

wake_head_task : (s : Scheduler) → Awake ((wake_head s).tasks (s.sleep_queue 0).task_id)
unfolding wake_head
wake_head_task s = ground arith

wake_head_other :
    (s : Scheduler) (id : ℕ) → (s.sleep_queue 0).task_id ≢ id → (wake_head s).tasks id ≡ s.tasks id
unfolding wake_head
wake_head_other s id h = ground arith

wake_head-Awake : (s : Scheduler) (id : ℕ) → Awake (s.tasks id) → Awake ((wake_head s).tasks id)
wake_head-Awake s id h = elim (ℕ_discrete (s.sleep_queue 0).task_id id) [
  | yes e ↦ subst (λ z. Awake ((wake_head s).tasks z)) e (wake_head_task s)
  | no ne ↦ rw (wake_head_other s id ne) h
]

wake_head_queue :
    (s : Scheduler)
    → ((wake_head s).sleep_count ≡ s.sleep_count - 1)
      × ((wake_head s).sleep_queue ≡ shift_left s.sleep_queue 0 (s.sleep_count - 1))
unfolding wake_head
wake_head_queue s = elim (Bool-cases (is_blocked (s.tasks (s.sleep_queue 0).task_id).state)) [
  | inl t ↦ rw t (refl, refl)
  | inr t ↦ rw t (refl, refl)
]

wake_due-Awake :
    (now n : ℕ) (s : Scheduler) (id : ℕ) → Awake (s.tasks id) → Awake ((wake_due now n s).tasks id)
unfolding wake_due
wake_due-Awake now zero s id h = h
wake_due-Awake now (suc n) s id h =
    elim (Bool-cases (ltb 0 s.sleep_count && leb (s.sleep_queue 0).deadline now)) [
      | inl t ↦ rw t (wake_due-Awake now n (wake_head s) id (wake_head-Awake s id h))
      | inr t ↦ rw t h
    ]

none_popped : (now : ℕ) (s : Scheduler) → Sorted s.sleep_queue s.sleep_count → Woken now s s
none_popped now s h = record {
  popped = 0;
  due = λ i k. absurd (omega arith);
  count = omega arith;
  rest = λ i k. ap s.sleep_queue (omega arith);
  sorted = h;
  awake = λ i k. absurd (omega arith);
  others = λ id k. refl;
}

one_more :
    (now : ℕ) (s t : Scheduler)
    → 0 < s.sleep_count
    → (s.sleep_queue 0).deadline ≤ now
    → ((id : ℕ) → Awake ((wake_head s).tasks id) → Awake (t.tasks id))
    → Woken now (wake_head s) t
    → Woken now s t
one_more now s t h d keep w = record {
  popped = suc w.popped;
  due = elim [
    | zero ↦ λ k. d
    | suc i ↦ λ k. subst (λ e. e.deadline ≤ now) (later i (inside i k)) (w.due i (omega arith))
  ];
  count = omega (arith, w.count, wake_head_queue s);
  rest = λ i k.
      w.rest i k
      ∙ later (w.popped + i) (omega (arith, w.count, wake_head_queue s))
      ∙ ap s.sleep_queue (omega arith);
  sorted = w.sorted;
  awake = elim [
    | zero ↦ λ k. keep (s.sleep_queue 0).task_id (wake_head_task s)
    | suc i ↦
        λ k. subst (λ e. Awake (t.tasks e.task_id)) (later i (inside i k)) (w.awake i (omega arith))
  ];
  others = λ id k.
      w.others id (λ i b.
        subst (λ e. e.task_id ≢ id) (sym (later i (inside i (omega arith))))
          (k (suc i) (omega arith)))
      ∙ wake_head_other s id (k 0 (omega arith));
}
  where
    later : (i : ℕ) → suc i < s.sleep_count → (wake_head s).sleep_queue i ≡ s.sleep_queue (suc i)
    later i k =
        ap (λ q. q i) (wake_head_queue s).1
        ∙ (shift_left-Closed s.sleep_queue 0 (s.sleep_count - 1)).moved i (omega arith)
            (omega arith)

    inside : (i : ℕ) → suc i < suc w.popped → suc i < s.sleep_count
    inside i k = omega (arith, w.count, wake_head_queue s)

wake_head-Sorted :
    (s : Scheduler)
    → 0 < s.sleep_count
    → Sorted s.sleep_queue s.sleep_count
    → Sorted (wake_head s).sleep_queue (wake_head s).sleep_count
wake_head-Sorted s h o =
    let e = wake_head_queue s in
    rw (e.0, e.1)
      (subst (Sorted (shift_left s.sleep_queue 0 (s.sleep_count - 1))) (omega arith) (
        shift_left-Sorted s.sleep_queue 0 (s.sleep_count - 1)
          (subst (Sorted s.sleep_queue) (omega arith) o)))

-- On a sorted sleep queue, and with as many rounds as entries, the wake-up loop of tick takes from
-- the front exactly the due entries; their tasks are no longer blocked and have no deadline, all
-- other tasks are untouched, the rest of the queue keeps its order, and its first entry, if any,
-- is not yet due.
pub wake_due-Woken :
    (now n : ℕ) (s : Scheduler)
    → s.sleep_count ≤ n
    → Sorted s.sleep_queue s.sleep_count
    → Woken now s (wake_due now n s)
      × (((wake_due now n s).sleep_count ≡ 0) ⊎ (now < ((wake_due now n s).sleep_queue 0).deadline))
unfolding wake_due
wake_due-Woken now zero s h o = (none_popped now s o, inl (omega arith))
wake_due-Woken now (suc n) s h o =
    elim (Bool-cases (ltb 0 s.sleep_count && leb (s.sleep_queue 0).deadline now)) [
      | inl t ↦
          let r =
            wake_due-Woken now n (wake_head s) (omega (arith, wake_head_queue s))
              (wake_head-Sorted s (ground arith) o) in
          rw t (
            one_more now s (wake_due now n (wake_head s)) (ground arith) (ground arith)
                (wake_due-Awake now n (wake_head s)) r.0,
            r.1,
          )
      | inr t ↦ rw t (none_popped now s o, ground arith)
    ]
