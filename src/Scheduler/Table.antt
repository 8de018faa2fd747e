-- ===== src/Scheduler/Table.antt =====
-- Tasks come and go: the operations of kernel/kernel/Scheduler.cc and, as it is compiled without
-- __IS_DOORS_KERNEL, of kernel/kernel/SchedulerProcess.cc on the slots of the task table. Where the
-- heap is asked for a stack its answer is an argument (0 for `nullptr`); a stack that is given back,
-- and the handlers called on exit, leave the state of the scheduler alone.
use doors.Base.{
  ℕ, zero, suc, ◌+◌, ◌-◌, ◌%◌, Bool, false, Option, none, some, ltb, leb, ◌==◌, if◌then◌else◌, ◌&&◌,
  ◌||◌, not, List, [], ◌∷◌, Outcome, done, panic, update,
}
use doors.Scheduler.{
  Scheduler, Task, ready, dead, is_dead, max_tasks, corrupted, set_task, set_state, current,
  task_stack_size, stack_canary,
}
use doors.Scheduler.Sleepers.{remove_from_sleep_queue, unblock_task}

-- The first dead slot from slot `i` on, `n` slots being left.
unfoldable pub find_dead : ℕ → ℕ → Scheduler → Option ℕ
find_dead i zero s = none
find_dead i (suc n) s = if is_dead (s.tasks i).state then some i else find_dead (i + 1) n s

-- A dead slot is used again; otherwise the table grows, up to its size.
unfoldable pub find_slot : Scheduler → Scheduler × Option ℕ
unfolding find_dead
find_slot s = elim (find_dead 0 s.task_count s) [
  | some i ↦ (s, some i)
  | none ↦
      if leb max_tasks s.task_count
      then (s, none)
      else (record s { task_count = s.task_count + 1 }, some s.task_count)
]

unfoldable pub init_process_fields : Task → Scheduler → Scheduler × Task
init_process_fields t s = (
  record s { next_pid = (s.next_pid + 1) % 256 },
  record t {
    pid = s.next_pid;
    ppid = if corrupted s then 0 else (current s).pid;
    exit_code = 0;
    child_count = 0;
  },
)

-- `name.copy(t.name.data(), 15)` and the terminating 0, which the list leaves out.
unfoldable pub take_name : ℕ → List ℕ → List ℕ
take_name zero xs = []
take_name (suc n) [] = []
take_name (suc n) (x ∷ xs) = x ∷ take_name n xs

-- The slot before the stack is asked for.
unfoldable pub reset_slot : ℕ → ℕ → Task → Task
reset_slot page_dir priority t = record t {
  stack_buf = 0;
  flags = 0;
  priority = priority;
  wakeup_ms = 0;
  runtime_ms = 0;
  on_kill = 0;
  page_dir = page_dir;
}

-- The task takes its slot on the stack at `stack`.
unfoldable pub start_task : ℕ → ℕ → List ℕ → ℕ → Scheduler → Scheduler
unfolding init_process_fields take_name
start_task slot stack name entry s =
    let t = record (s.tasks slot) {
      esp = stack + task_stack_size - 44;
      entry = entry;
      state = ready;
      id = slot;
    } in
    let filled = set_task slot t s in
    let (counted, t') = init_process_fields t filled in
    set_task slot
      (record t' { stack_buf = stack; stack_size = task_stack_size; name = take_name 15 name })
      (record counted { stack_words = update s.stack_words stack stack_canary })

-- The name is `none` where the code gets a null `string_view`.
unfoldable pub add_task : ℕ → Option (List ℕ) → ℕ → ℕ → ℕ → Scheduler → Scheduler × Option ℕ
unfolding find_slot reset_slot start_task
add_task stack none entry page_dir priority s = (s, none)
add_task stack (some name) entry page_dir priority s =
    let (grown, found) = find_slot s in
    elim found [
      | none ↦ (grown, none)
      | some slot ↦
          let reset = set_task slot (reset_slot page_dir priority (grown.tasks slot)) grown in
          if stack == 0 then (reset, none) else (start_task slot stack name entry reset, some slot)
    ]

-- Live children of the task with PID `parent` become children of PID 0, from slot `i` on.
unfoldable pub reparent_from : ℕ → ℕ → ℕ → Scheduler → Scheduler
reparent_from parent i zero s = s
reparent_from parent i (suc n) s = reparent_from parent (i + 1) n (
    if not (is_dead (s.tasks i).state) && (s.tasks i).ppid == parent
    then set_task i (record (s.tasks i) { ppid = 0 }) s
    else s)

unfoldable pub reparent_children : ℕ → Scheduler → Scheduler
unfolding reparent_from
reparent_children parent s = reparent_from parent 0 s.task_count s

-- The slot of a dead task with the PID, from slot `i` on.
unfoldable pub find_dead_pid : ℕ → ℕ → ℕ → Scheduler → Option ℕ
find_dead_pid pid i zero s = none
find_dead_pid pid i (suc n) s =
    if (s.tasks i).pid == pid && is_dead (s.tasks i).state
    then some i
    else find_dead_pid pid (i + 1) n s

-- The last child takes the place of child `i`.
unfoldable pub drop_child : ℕ → Task → Task
drop_child i t = record t {
  children = update t.children i (t.children (t.child_count - 1));
  child_count = t.child_count - 1;
}

-- From child `i` on, `n` children being left: the first that is dead gives its PID and exit code and
-- is taken off the list; `none` is the code's -1.
unfoldable pub reap_from : ℕ → ℕ → ℕ → Scheduler → Scheduler × Option (ℕ × ℕ)
unfolding find_dead_pid drop_child
reap_from parent i zero s = (s, none)
reap_from parent i (suc n) s =
    let p = s.tasks parent in
    let rest = reap_from parent (i + 1) n s in
    elim (find_dead_pid (p.children i) 0 s.task_count s) [
      | none ↦ rest
      | some t ↦ (set_task parent (drop_child i p) s, some ((s.tasks t).pid, (s.tasks t).exit_code))
    ]

unfoldable pub reap_dead_child : ℕ → Scheduler → Scheduler × Option (ℕ × ℕ)
unfolding reap_from
reap_dead_child parent s = reap_from parent 0 (s.tasks parent).child_count s

-- The task in slot `id` is dead: it sleeps no more, and its children belong to PID 0.
unfoldable pub bury : ℕ → Scheduler → Scheduler
unfolding reparent_children
bury id s =
    let out =
      remove_from_sleep_queue id
        (record (set_state id dead s) { total_exited = s.total_exited + 1 }) in
    reparent_children (out.tasks id).pid out

unfoldable pub unblock_waiter : ℕ → Scheduler → Scheduler
unblock_waiter id s =
    let freed = set_task id (record (s.tasks id) { unblock_on_exit = none }) s in
    elim (s.tasks id).unblock_on_exit [ none ↦ freed | some waiter ↦ unblock_task waiter freed ]

unfoldable pub kill_task : ℕ → Scheduler → Scheduler
unfolding bury unblock_waiter
kill_task id s =
    let buried = bury id (unblock_waiter id s) in
    if leb s.task_count id
    then s
    else if id == s.current_idx
    then s
    else if is_dead (s.tasks id).state
    then s
    else set_task id (record (buried.tasks id) { stack_buf = 0; stack_size = 0 }) buried

unfoldable pub set_unblock_on_exit : ℕ → ℕ → Scheduler → Scheduler
set_unblock_on_exit id waiter s =
    if ltb id s.task_count
    then set_task id (record (s.tasks id) { unblock_on_exit = some waiter }) s
    else s

-- `flags |= FLAG_SUPPRESS_TASKBAR`
unfoldable pub suppress_taskbar : Scheduler → Outcome Scheduler
suppress_taskbar s =
    let t = current s in
    let f = if t.flags % 2 == 1 then t.flags else t.flags + 1 in
    if corrupted s then panic else done (set_task s.current_idx (record t { flags = f }) s)

unfoldable pub suppressed_from : ℕ → ℕ → Scheduler → Bool
suppressed_from i zero s = false
suppressed_from i (suc n) s =
    (not (is_dead (s.tasks i).state) && (s.tasks i).flags % 2 == 1) || suppressed_from (i + 1) n s

unfoldable pub is_taskbar_suppressed : Scheduler → Bool
unfolding suppressed_from
is_taskbar_suppressed s = suppressed_from 0 s.task_count s

unfoldable pub set_on_kill : ℕ → Scheduler → Outcome Scheduler
set_on_kill handler s =
    if corrupted s
    then panic
    else done (set_task s.current_idx (record (current s) { on_kill = handler }) s)

-- What the accessors `taskName` to `taskRuntimeMs` read.
unfoldable pub task_at : ℕ → Scheduler → Option Task
task_at id s = if leb s.task_count id then none else some (s.tasks id)
