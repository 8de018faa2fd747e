-- ===== src/Scheduler/Sleepers.antt =====
-- The sleep queue of kernel/kernel/Scheduler.cc: an array sorted by deadline, with shift loops.
use doors.Base.{ℕ, zero, suc, ◌+◌, ◌-◌, ltb, leb, ◌==◌, if◌then◌else◌, update, ◌&&◌}
use doors.Pit
use doors.Pit.{Pit}
use doors.Scheduler.{Scheduler, SleepEntry, ready, is_blocked, set_task, set_state, current}

-- The loop of `sleep`: from `pos` down, later deadlines move one place to the right.
unfoldable pub shift_right : (ℕ → SleepEntry) → ℕ → ℕ → (ℕ → SleepEntry) × ℕ
shift_right q deadline zero = (q, 0)
shift_right q deadline (suc pos) =
    let rest = shift_right (update q (suc pos) (q pos)) deadline pos in
    if ltb deadline (q pos).deadline then rest else (q, suc pos)

unfoldable pub insert_sleeper : ℕ → ℕ → Scheduler → Scheduler
unfolding shift_right
insert_sleeper deadline id s =
    let (q, pos) = shift_right s.sleep_queue deadline s.sleep_count in
    record s {
      sleep_queue = update q pos (record { deadline = deadline; task_id = id });
      sleep_count = s.sleep_count + 1;
    }

-- The loops that fill a gap: `n` entries from `j + 1` on move one place to the left.
unfoldable pub shift_left : (ℕ → SleepEntry) → ℕ → ℕ → ℕ → SleepEntry
shift_left q j zero = q
shift_left q j (suc n) = shift_left (update q j (q (j + 1))) (j + 1) n

-- The search of `removeFromSleepQueue` from entry `i` on, `n` entries being left.
unfoldable pub remove_from : ℕ → ℕ → ℕ → Scheduler → Scheduler
unfolding shift_left
remove_from id i zero s = s
remove_from id i (suc n) s =
    if (s.sleep_queue i).task_id == id
    then record s { sleep_count = s.sleep_count - 1; sleep_queue = shift_left s.sleep_queue i n }
    else remove_from id (i + 1) n s

unfoldable pub remove_from_sleep_queue : ℕ → Scheduler → Scheduler
unfolding remove_from
remove_from_sleep_queue id s = remove_from id 0 s.sleep_count s

-- One round of the loop of `tick`: the head entry is popped, and its task is woken if it is blocked.
unfoldable pub wake_head : Scheduler → Scheduler
unfolding shift_left
wake_head s =
    let id = (s.sleep_queue 0).task_id in
    let popped = record s {
      sleep_count = s.sleep_count - 1;
      sleep_queue = shift_left s.sleep_queue 0 (s.sleep_count - 1);
    } in
    let woken = if is_blocked (s.tasks id).state then set_state id ready popped else popped in
    set_task id (record (woken.tasks id) { wakeup_ms = 0 }) woken

-- Each round shortens the queue, so as many rounds as entries are enough.
unfoldable pub wake_due : ℕ → ℕ → Scheduler → Scheduler
unfolding wake_head
wake_due now zero s = s
wake_due now (suc rounds) s =
    let rest = wake_due now rounds (wake_head s) in
    if ltb 0 s.sleep_count && leb (s.sleep_queue 0).deadline now then rest else s

unfoldable pub unblock_task : ℕ → Scheduler → Scheduler
unfolding remove_from_sleep_queue
unblock_task id s =
    let woken = set_task id (record (s.tasks id) { state = ready; wakeup_ms = 0 }) s in
    let out = remove_from_sleep_queue id woken in
    if ltb id s.task_count && is_blocked (s.tasks id).state
    then (if ltb (out.tasks id).priority (current out).priority
        then record out { pit = Pit.program_for_ms 1 out.pit }
        else out)
    else s
