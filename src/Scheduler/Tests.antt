-- ===== src/Scheduler/Tests.antt =====
-- The scheduler at concrete inputs.
use doors.Base.{
  ℕ, ◌+◌, ◌<◌, ◌≡◌, refl, arith, true, some, done, if◌then◌else◌, ◌==◌, suc, zero, ◌⊎◌,
}
use doors.Pit.{uptime_ms}
use doors.Scheduler.{
  Scheduler, SleepEntry, Task, TaskState, dead, ready, running, blocked, empty_task, stack_canary,
}
use doors.Scheduler.Sleepers.{
  remove_from_sleep_queue, wake_head, shift_left, insert_sleeper, wake_due,
}
use doors.Scheduler.Pick.{find_next}
use doors.Scheduler.Tick.{
  preempt, charge, check_canary, stays, slot_of, leave_current, enter_task, program_next_tick, tick,
  switch_to,
}
use doors.Scheduler.Signals.{deliver_pending_signals}
use doors.Scheduler.Table.{reap_dead_child}
use doors.Scheduler.Queue.{
  Removes, remove_from_sleep_queue-Removes, Sorted, Inserted, insert_sleeper-Inserted,
}
use doors.Scheduler.Wake.{Woken, wake_due-Woken}
use doors.Scheduler.Choice.{NextTask, find_next-NextTask}
use doors.Scheduler.Running.{OneRunning, tick-OneRunning}
use doors.Scheduler.Children.{Reaped, reap_dead_child-Reaped}

abbrev task_in : TaskState → ℕ → Task
task_in st p = record empty_task { state = st; priority = p }

abbrev entry_at : ℕ → ℕ → SleepEntry
entry_at d i = record { deadline = d; task_id = i }

-- Slot 0 is idle, slot 1 runs, slots 2 and 3 are READY, slot 4 sleeps until 130, slot 5 until 150.
abbrev busy : Scheduler
busy = record {
  tasks = λ i.
      if i == 0
      then task_in ready 9
      else if i == 1
      then task_in running 4
      else if i == 2
      then task_in ready 4
      else if i == 3
      then task_in ready 4
      else task_in blocked 4;
  task_count = 6;
  current_idx = 1;
  quantum_start_ms = 110;
  initialized = true;
  total_exited = 0;
  total_context_switches = 0;
  idle_ticks = 0;
  next_pid = 0;
  sleep_queue = λ i. if i == 0 then entry_at 130 4 else entry_at 150 5;
  sleep_count = 2;
  last_tick_ms = 120;
  pit = record { ticks = 140; deadline = 140; divisor = 1 };
  stack_words = λ a. stack_canary;
}

busy-Sorted : Sorted busy.sleep_queue 2
busy-Sorted zero h = omega arith
busy-Sorted (suc i) h = absurd (omega arith)

busy-OneRunning : OneRunning busy
busy-OneRunning i r = ground arith

insert_sleeper-Inserted_example :
    Inserted busy.sleep_queue 2 (entry_at 140 1) (insert_sleeper 140 1 busy).sleep_queue
    × ((insert_sleeper 140 1 busy).sleep_count ≡ 3)
insert_sleeper-Inserted_example = insert_sleeper-Inserted 140 1 busy busy-Sorted

remove_from_sleep_queue-Removes_example : Removes 2 0 2 busy (remove_from_sleep_queue 2 busy)
remove_from_sleep_queue-Removes_example = remove_from_sleep_queue-Removes 2 busy

wake_due-Woken_example :
    Woken 140 busy (wake_due 140 2 busy)
    × (((wake_due 140 2 busy).sleep_count ≡ 0)
        ⊎ (140 < ((wake_due 140 2 busy).sleep_queue 0).deadline))
wake_due-Woken_example = wake_due-Woken 140 2 busy (omega arith) busy-Sorted

find_next-NextTask_example : (slot : ℕ) × (find_next busy ≡ done (some slot)) × NextTask busy slot
find_next-NextTask_example = find_next-NextTask busy (omega arith) (omega arith) (omega arith)

find_next-busy : find_next busy ≡ done (some 2)
unfolding find_next
find_next-busy = refl

-- The state after the timer interrupt at 140 ms, which switches to slot 2.
after_tick : Scheduler
after_tick = elim (tick 77 busy) [ done (t, esp) ↦ t | _ ↦ busy ]

after_tick_lem : tick 77 busy ≡ done (after_tick, 0)
unfolding after_tick tick find_next wake_due wake_head preempt charge switch_to
    deliver_pending_signals check_canary stays slot_of leave_current enter_task uptime_ms shift_left
    program_next_tick
after_tick_lem = refl

tick-OneRunning_example : OneRunning after_tick
tick-OneRunning_example = tick-OneRunning 77 0 busy after_tick busy-OneRunning after_tick_lem

switched : Scheduler
switched = elim (switch_to 2 busy) [ done (t, esp) ↦ t | _ ↦ busy ]

switched_lem : switch_to 2 busy ≡ done (switched, 0)
unfolding switched switch_to leave_current enter_task program_next_tick
switched_lem = refl

-- Slot 1 has the dead child with PID 6 in slot 3.
abbrev with_children : Scheduler
with_children = record busy {
  tasks = λ i.
      if i == 1
      then record (task_in running 4) { children = λ j. j + 5; child_count = 2 }
      else if i == 3
      then record (task_in dead 4) { pid = 6; exit_code = 42 }
      else task_in ready 4;
}

reap_dead_child-Reaped_example : Reaped with_children 1 0 2 (reap_dead_child 1 with_children)
reap_dead_child-Reaped_example = reap_dead_child-Reaped 1 with_children
