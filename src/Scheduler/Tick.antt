-- ===== src/Scheduler/Tick.antt =====
-- The timer interrupt of kernel/kernel/Scheduler.cc: `tick`, `switchTo`, `programNextTick`, and the
-- calls that block the running task.
use doors.Base.{
  ℕ, ◌+◌, ◌-◌, ◌%◌, Bool, true, Option, none, some, ltb, leb, ◌==◌, if◌then◌else◌, ◌&&◌, ◌||◌, not,
  Outcome, done, panic, ◌>>=◌, add64, sub64, u32_mod,
}
use doors.Pit
use doors.Pit.{Pit, clamp, pit_max_ms}
use doors.Scheduler.{
  Scheduler, Task, ready, running, blocked, is_ready, is_running, is_dead, max_tasks, quantum_ms,
  corrupted, set_task, set_state, current, stack_canary,
}
use doors.Scheduler.Sleepers.{insert_sleeper, wake_due}
use doors.Scheduler.Pick.{find_next}
use doors.Scheduler.Signals.{deliver_pending_signals}

-- The time to the earliest deadline of the sleep queue.
unfoldable pub until_sleeper : ℕ → Scheduler → ℕ
until_sleeper now s =
    let d = (s.sleep_queue 0).deadline in
    if ltb 0 s.sleep_count then (if ltb now d then sub64 d now % u32_mod else 1) else pit_max_ms

-- The delay that the timer is given.
unfoldable pub next_tick_ms : ℕ → Scheduler → ℕ
unfolding until_sleeper
next_tick_ms now s =
    let next = until_sleeper now s in
    let elapsed = sub64 now s.quantum_start_ms in
    let cut =
      if ltb elapsed quantum_ms && ltb (quantum_ms - elapsed) next
      then quantum_ms - elapsed
      else next in
    clamp cut 1 pit_max_ms

unfoldable pub program_next_tick : Scheduler → Scheduler
program_next_tick s = record s {
  pit = Pit.program_for_ms (next_tick_ms (Pit.uptime_ms s.pit) s) s.pit;
}

unfoldable pub check_canary : Task → Scheduler → Bool
check_canary t s =
    t.stack_buf == 0 || (is_dead t.state || s.stack_words t.stack_buf == stack_canary)

-- The running task goes back to READY; a blocked or dead one stays so.
unfoldable pub leave_current : Scheduler → Scheduler
leave_current s =
    let counted = record s { total_context_switches = s.total_context_switches + 1 } in
    if is_running (current s).state then set_state s.current_idx ready counted else counted

unfoldable pub enter_task : ℕ → Scheduler → Scheduler
enter_task next s = program_next_tick (record (set_state next running s) {
  current_idx = next;
  quantum_start_ms = Pit.uptime_ms s.pit;
})

-- The result is the new state and the saved stack pointer to load.
unfoldable pub switch_to : ℕ → Scheduler → Outcome (Scheduler × ℕ)
switch_to next s =
    let left = leave_current s in
    let entered = enter_task next left in
    if leb max_tasks next || not (is_ready (left.tasks next).state)
    then panic
    else done (entered, (current entered).esp)

-- What `tick` books before it looks at the sleepers: ticks of the idle task, and CPU time.
unfoldable pub charge : ℕ → Scheduler → Scheduler
charge now s =
    let idle = if s.current_idx == 0 then s.idle_ticks + 1 else s.idle_ticks in
    let t = current s in
    set_task s.current_idx (record t { runtime_ms = add64 t.runtime_ms (sub64 now s.last_tick_ms) })
      (record s { idle_ticks = idle; last_tick_ms = now })

-- `!next || *next == currentIdx_`
unfoldable pub stays : Option ℕ → Scheduler → Bool
stays none s = true
stays (some i) s = i == s.current_idx

unfoldable pub slot_of : Option ℕ → ℕ
slot_of none = 0
slot_of (some i) = i

unfoldable pub keep_running : ℕ → Scheduler → Scheduler
keep_running now s = program_next_tick (record s { quantum_start_ms = now })

-- At the end of the quantum the next task is chosen.
unfoldable pub preempt : ℕ → Scheduler → Outcome (Scheduler × ℕ)
preempt now s = do
  next ← find_next s
  if stays next s then done (keep_running now s, 0) else switch_to (slot_of next) s

unfoldable pub tick : ℕ → Scheduler → Outcome (Scheduler × ℕ)
tick esp s =
    let saved = set_task s.current_idx (record (current s) { esp = esp }) s in
    let now = Pit.uptime_ms s.pit in
    let woken =
      let c = charge now (deliver_pending_signals saved) in wake_due now c.sleep_count c in
    if not s.initialized
    then done (s, 0)
    else if corrupted s
    then panic
    else if not (check_canary (current saved) saved)
    then panic
    else if leb quantum_ms (sub64 now woken.quantum_start_ms)
    then preempt now woken
    else done (program_next_tick woken, 0)

unfoldable pub quantum_remaining : Scheduler → ℕ
quantum_remaining s = quantum_ms - sub64 (Pit.uptime_ms s.pit) s.quantum_start_ms

-- Up to where the task waits to be woken.
unfoldable pub sleep : ℕ → Scheduler → Outcome Scheduler
sleep ms s =
    let deadline = add64 (Pit.uptime_ms s.pit) ms in
    let queued =
      insert_sleeper deadline s.current_idx
        (set_task s.current_idx (record (current s) { wakeup_ms = deadline; state = blocked }) s) in
    if corrupted s
    then panic
    else done (
        if ltb deadline s.pit.deadline
        then record queued { pit = Pit.program_for_ms (ms % u32_mod) queued.pit }
        else queued)

unfoldable pub block_current_task : Scheduler → Outcome Scheduler
block_current_task s = if corrupted s then panic else done (set_state s.current_idx blocked s)
