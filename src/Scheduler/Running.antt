-- ===== src/Scheduler/Running.antt =====
-- At most one task is RUNNING, and it is the current one: through the timer interrupt and the task
-- switch of kernel/kernel/Scheduler.cc. The timer is always programmed in time.
use doors.Base.{
  ℕ, zero, suc, ◌≡◌, refl, sym, ap, ◌∙◌, subst, arith, true, ltb, leb, if◌then◌else◌, Bool-cases,
  inl, inr, ◌⊎◌, ◌&&◌, ℕ_discrete, done, panic, Option, Outcome, update_ne, update_self, ◌>>=◌,
}
use doors.Pit
use doors.Scheduler.{Scheduler, Task, is_running, set_task, current}
use doors.Scheduler.Sleepers.{wake_head, wake_due}
use doors.Scheduler.Pick.{find_next}
use doors.Scheduler.Signals.{deliver_pending_signals}
use doors.Scheduler.Tick.{
  program_next_tick, leave_current, enter_task, switch_to, charge, preempt, tick, stays, slot_of,
  keep_running,
}

abbrev pub Running : Scheduler → ℕ → Type 0
Running s i = is_running (s.tasks i).state ≡ true

abbrev pub OneRunning : Scheduler → Type 0
OneRunning s = (i : ℕ) → Running s i → i ≡ s.current_idx

-- A step after which no other task runs.
OneRunning-step :
    (s t : Scheduler)
    → t.current_idx ≡ s.current_idx
    → ((i : ℕ) → Running t i → Running s i)
    → OneRunning s
    → OneRunning t
OneRunning-step s t e f h i r = h i (f i r) ∙ sym e

deliver-OneRunning : (s : Scheduler) → OneRunning s → OneRunning (deliver_pending_signals s)
unfolding deliver_pending_signals
deliver-OneRunning s h =
    OneRunning-step s (deliver_pending_signals s) (ground arith) (λ i r. ground arith) h

charge-OneRunning : (now : ℕ) (s : Scheduler) → OneRunning s → OneRunning (charge now s)
unfolding charge
charge-OneRunning now s h = OneRunning-step s (charge now s) refl (λ i r. ground arith) h

wake_head-OneRunning : (s : Scheduler) → OneRunning s → OneRunning (wake_head s)
unfolding wake_head
wake_head-OneRunning s h = OneRunning-step s (wake_head s) (ground arith) (λ i r. ground arith) h

wake_due-OneRunning : (now n : ℕ) (s : Scheduler) → OneRunning s → OneRunning (wake_due now n s)
unfolding wake_due
wake_due-OneRunning now zero s h = h
wake_due-OneRunning now (suc n) s h =
    elim (Bool-cases (ltb 0 s.sleep_count && leb (s.sleep_queue 0).deadline now)) [
      | inl t ↦ rw t (wake_due-OneRunning now n (wake_head s) (wake_head-OneRunning s h))
      | inr t ↦ rw t h
    ]

leave_current-none : (s : Scheduler) → OneRunning s → (i : ℕ) → Running (leave_current s) i → ⊥
unfolding leave_current
leave_current-none s h i r = elim (ℕ_discrete i s.current_idx) [
  | yes e ↦ ground arith
  | no ne ↦ ne (h i (ground arith))
]

enter_task-OneRunning :
    (next : ℕ) (s : Scheduler)
    → ((i : ℕ) → Running s i → ⊥)
    → OneRunning (enter_task next s) × Running (enter_task next s) next
unfolding enter_task program_next_tick
enter_task-OneRunning next s h = (
  λ i r. elim (ℕ_discrete i next) [
    | yes e ↦ e
    | no ne ↦
        absurd (h i (subst (λ w. is_running w.state ≡ true) (update_ne s.tasks next i _ ne) r))
  ],
  ap (λ w. is_running (Task.state w)) (update_self s.tasks next _),
)

switch_to_done :
    (next esp : ℕ) (s t : Scheduler)
    → switch_to next s ≡ done (t, esp)
    → (t ≡ enter_task next (leave_current s)) × (esp ≡ (current t).esp)
unfolding switch_to
switch_to_done next esp s t e = ground arith

enter_task_current : (next : ℕ) (s : Scheduler) → (enter_task next s).current_idx ≡ next
unfolding enter_task program_next_tick
enter_task_current next s = refl

-- A successful switch, from a state where only the current task is RUNNING, makes its target the
-- current and the only RUNNING task and returns the stack pointer saved for it.
pub switch_to-OneRunning :
    (next esp : ℕ) (s t : Scheduler)
    → OneRunning s
    → switch_to next s ≡ done (t, esp)
    → OneRunning t × (t.current_idx ≡ next) × Running t next × (esp ≡ (t.tasks next).esp)
switch_to-OneRunning next esp s t h e =
    let d = switch_to_done next esp s t e in
    let o = enter_task-OneRunning next (leave_current s) (leave_current-none s h) in
    let c : t.current_idx ≡ next =
      ap Scheduler.current_idx d.0 ∙ enter_task_current next (leave_current s) in
    (
      subst OneRunning (sym d.0) o.0,
      c,
      subst (λ w. Running w next) (sym d.0) o.1,
      d.1 ∙ ap (λ i. (t.tasks i).esp) c,
    )

program_next_tick-OneRunning : (s : Scheduler) → OneRunning s → OneRunning (program_next_tick s)
unfolding program_next_tick
program_next_tick-OneRunning s h = h

keep_running-OneRunning : (now : ℕ) (s : Scheduler) → OneRunning s → OneRunning (keep_running now s)
unfolding keep_running
keep_running-OneRunning now s h =
    program_next_tick-OneRunning (record s { quantum_start_ms = now }) h

chosen-OneRunning :
    (now esp : ℕ) (s t : Scheduler) (next : Outcome (Option ℕ))
    → OneRunning s
    → (next >>= (λ n. if stays n s then done (keep_running now s, 0) else switch_to (slot_of n) s))
      ≡ done (t, esp)
    → OneRunning t
chosen-OneRunning now esp s t panic h e = absurd (cc)
chosen-OneRunning now esp s t (done n) h e = elim (Bool-cases (stays n s)) [
  | inl b ↦
      let d : keep_running now s ≡ t = (let f = rw b at e in ground arith) in
      subst OneRunning d (keep_running-OneRunning now s h)
  | inr b ↦ (switch_to-OneRunning (slot_of n) esp s t h (rw b at e)).0
]

preempt-OneRunning :
    (now esp : ℕ) (s t : Scheduler) → OneRunning s → preempt now s ≡ done (t, esp) → OneRunning t
unfolding preempt
preempt-OneRunning now esp s t h e = chosen-OneRunning now esp s t (find_next s) h e

-- `tick` without its checks.
tick_due : ℕ → Scheduler → Scheduler
tick_due esp s =
    let saved = set_task s.current_idx (record (current s) { esp = esp }) s in
    let c = charge (Pit.uptime_ms s.pit) (deliver_pending_signals saved) in
    wake_due (Pit.uptime_ms s.pit) c.sleep_count c

tick_due-OneRunning : (esp : ℕ) (s : Scheduler) → OneRunning s → OneRunning (tick_due esp s)
unfolding tick_due
tick_due-OneRunning esp s h =
    let saved = set_task s.current_idx (record (current s) { esp = esp }) s in
    wake_due-OneRunning _ _ _ (
      charge-OneRunning _ _
        (deliver-OneRunning saved (OneRunning-step s saved refl (λ i r. ground arith) h)))

tick_cases :
    (esp out : ℕ) (s t : Scheduler)
    → tick esp s ≡ done (t, out)
    → (t ≡ s)
      ⊎ ((t ≡ program_next_tick (tick_due esp s))
          ⊎ (preempt (Pit.uptime_ms s.pit) (tick_due esp s) ≡ done (t, out)))
unfolding tick tick_due
tick_cases esp out s t e = ground arith

-- The timer interrupt keeps it that only the current task is RUNNING, on each way through tick
-- that does not panic.
pub tick-OneRunning :
    (esp out : ℕ) (s t : Scheduler) → OneRunning s → tick esp s ≡ done (t, out) → OneRunning t
tick-OneRunning esp out s t h e = elim (tick_cases esp out s t e) [
  | inl d ↦ subst OneRunning (sym d) h
  | inr (inl d) ↦
      subst OneRunning (sym d)
        (program_next_tick-OneRunning (tick_due esp s) (tick_due-OneRunning esp s h))
  | inr (inr d) ↦
      preempt-OneRunning (Pit.uptime_ms s.pit) out (tick_due esp s) t (tick_due-OneRunning esp s h)
        d
]
