-- ===== src/Scheduler/Children.antt =====
-- Slots, PIDs and children: what kernel/kernel/Scheduler.cc does when tasks come and go.
use doors.Base.{
  ℕ, zero, suc, ◌+◌, ◌≤◌, ◌<◌, ◌≡◌, ◌≢◌, refl, subst, arith, true, false, ◌==◌, Bool-cases, inl,
  inr, ◌&&◌, ℕ_discrete, ap, ◌-◌, update, update_self, update_ne, some, none, Option, List,
}
use doors.Scheduler.{Scheduler, Task, is_dead, is_ready, set_task, init}
use doors.Scheduler.Table.{
  find_dead, find_slot, find_dead_pid, drop_child, reap_from, reap_dead_child, add_task, start_task,
  init_process_fields,
}

-- The task in slot `t` is dead and has this PID.
abbrev pub IsDeadPid : Scheduler → ℕ → ℕ → Type 0
IsDeadPid s pid t = ((s.tasks t).pid ≡ pid) × (is_dead (s.tasks t).state ≡ true)

-- What a search of the slots from `i` on, `n` of them, gives.
abbrev Searched : Scheduler → ℕ → ℕ → ℕ → Option ℕ → Type 0
Searched s pid i n none = (t : ℕ) → i ≤ t → t < i + n → IsDeadPid s pid t → ⊥
Searched s pid i n (some t) = (i ≤ t) × (t < i + n) × IsDeadPid s pid t

find_dead_pid-Searched :
    (pid i n : ℕ) (s : Scheduler) → Searched s pid i n (find_dead_pid pid i n s)
unfolding find_dead_pid
find_dead_pid-Searched pid i zero s = λ t h k d. absurd (omega arith)
find_dead_pid-Searched pid i (suc n) s =
    elim (Bool-cases ((s.tasks i).pid == pid && is_dead (s.tasks i).state)) [
      | inl t ↦ rw t (omega arith, omega arith, (ground arith, ground arith))
      | inr t ↦
          rw t (later (find_dead_pid pid (i + 1) n s) (find_dead_pid-Searched pid (i + 1) n s) t)
    ]
  where
    later :
        (r : Option ℕ)
        → Searched s pid (i + 1) n r
        → ((s.tasks i).pid == pid && is_dead (s.tasks i).state) ≡ false
        → Searched s pid i (suc n) r
    later none h e = λ t a b d. elim (ℕ_discrete t i) [
      | yes z ↦ let f = subst (IsDeadPid s pid) z d in ground (arith, f)
      | no z ↦ h t (omega arith) (omega arith) d
    ]
    later (some t) h e = (omega (arith, h.0), omega (arith, h.1), h.2)

-- Of `n + 1` children the one at `j` is gone: the last takes its place, and the others keep theirs.
abbrev pub Without : ℕ → ℕ → (ℕ → ℕ) → (ℕ → ℕ) → Type 0
Without j n old new = (j < n → new j ≡ old n) × ((i : ℕ) → i < n → i ≢ j → new i ≡ old i)

drop_child-Without :
    (j : ℕ) (p : Task)
    → (cs : ℕ → ℕ) × (drop_child j p ≡ record p { children = cs; child_count = p.child_count - 1 })
      × Without j (p.child_count - 1) p.children cs
unfolding drop_child
drop_child-Without j p = (
  update p.children j (p.children (p.child_count - 1)),
  refl,
  (λ h. update_self p.children j _, λ i h k. update_ne p.children j i _ k),
)

-- What reaping children of the task `p` in slot `parent` gives, from child `i` on, `n` of them.
abbrev pub Reaped : Scheduler → ℕ → ℕ → ℕ → Scheduler × Option (ℕ × ℕ) → Type 0
Reaped s parent i n (t, none) =
    (t ≡ s)
    × ((j k : ℕ)
        → i ≤ j
        → j < i + n
        → k < s.task_count
        → IsDeadPid s ((s.tasks parent).children j) k
        → ⊥)
Reaped s parent i n (t, some (pid, code)) =
    (j : ℕ) × (k : ℕ) × (i ≤ j)
    × (j < i + n)
    × (k < s.task_count)
    × IsDeadPid s ((s.tasks parent).children j) k
    × (pid ≡ (s.tasks parent).children j)
    × (code ≡ (s.tasks k).exit_code)
    × ((cs : ℕ → ℕ) × (t
          ≡ set_task parent
              (record (s.tasks parent) {
                children = cs;
                child_count = (s.tasks parent).child_count - 1;
              })
              s)
        × Without j ((s.tasks parent).child_count - 1) (s.tasks parent).children cs)

reap_from-Reaped : (parent i n : ℕ) (s : Scheduler) → Reaped s parent i n (reap_from parent i n s)
unfolding reap_from
reap_from-Reaped parent i zero s = (refl, λ j k h l m d. absurd (omega arith))
reap_from-Reaped parent i (suc n) s =
    pick (find_dead_pid ((s.tasks parent).children i) 0 s.task_count s)
      (find_dead_pid-Searched ((s.tasks parent).children i) 0 s.task_count s)
      (reap_from parent (i + 1) n s) (reap_from-Reaped parent (i + 1) n s)
  where
    later :
        (r : Scheduler × Option (ℕ × ℕ))
        → Searched s ((s.tasks parent).children i) 0 s.task_count none
        → Reaped s parent (i + 1) n r
        → Reaped s parent i (suc n) r
    later (t, none) h (e, f) = (
      e,
      λ j k a b c d. elim (ℕ_discrete j i) [
        | yes z ↦
            h k (omega arith) (omega arith)
              (subst (λ y. IsDeadPid s ((s.tasks parent).children y) k) z d)
        | no z ↦ f j k (omega arith) (omega arith) c d
      ],
    )
    later (t, some (pid, code)) h (j, k, a, b, c, d, e, f, g) =
        (j, k, omega arith, omega arith, c, d, e, f, g)

    pick :
        (o : Option ℕ)
        → Searched s ((s.tasks parent).children i) 0 s.task_count o
        → (r : Scheduler × Option (ℕ × ℕ)) → Reaped s parent (i + 1) n r
        → Reaped s parent i (suc n) (elim o [
          | none ↦ r
          | some t ↦ (
            set_task parent (drop_child i (s.tasks parent)) s,
            some ((s.tasks t).pid, (s.tasks t).exit_code),
          )
        ])
    pick none h r f = later r h f
    pick (some t) h r f =
        let d = drop_child-Without i (s.tasks parent) in
        (
          i,
          t,
          omega arith,
          omega arith,
          omega (arith, h.1),
          h.2,
          h.2.0,
          refl,
          (d.0, ap (λ q. set_task parent q s) d.1, d.2),
        )

-- reapDeadChild returns PID and exit code of a dead child of the parent found in the task table
-- and takes only that child off the parent's list, whose last child takes its place; no other
-- field of a task changes; if no child of the parent is dead it fails and changes nothing.
pub reap_dead_child-Reaped :
    (parent : ℕ) (s : Scheduler)
    → Reaped s parent 0 (s.tasks parent).child_count (reap_dead_child parent s)
unfolding reap_dead_child
reap_dead_child-Reaped parent s = reap_from-Reaped parent 0 (s.tasks parent).child_count s

-- After init with a PID counter of 0 and a stack from the heap, the first task is put into slot 1
-- READY and gets the PID of the idle task, which is also its parent.
pub add_task_first_pid :
    (stack entry page_dir priority : ℕ) (name : List ℕ) (s : Scheduler)
    → stack ≢ 0
    → s.next_pid ≡ 0
    → let (t, r) = add_task stack (some name) entry page_dir priority (init s) in
      (r ≡ some 1)
      × ((t.tasks 1).pid ≡ (t.tasks 0).pid)
      × ((t.tasks 1).ppid ≡ (t.tasks 0).pid)
      × (is_ready (t.tasks 1).state ≡ true)
unfolding add_task init start_task init_process_fields find_slot find_dead
add_task_first_pid stack entry page_dir priority name s h e =
    let z : (stack == 0) ≡ false = ground arith in rw z (refl, e, refl, refl)
