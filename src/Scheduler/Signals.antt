-- ===== src/Scheduler/Signals.antt =====
-- Signals, kernel/kernel/SchedulerSignals.cc, as it is compiled without __IS_DOORS_KERNEL.
use doors.Base.{
  ℕ, zero, suc, ◌+◌, ◌/◌, ◌%◌, ◌^◌, Bool, Option, none, some, leb, ◌==◌, if◌then◌else◌, ◌&&◌, not,
  ℤ, pos, negsuc,
}
use doors.Scheduler.{Scheduler, ready, is_dead, is_blocked, set_task, current, corrupted}
use doors.Scheduler.Sleepers.{remove_from_sleep_queue}

abbrev pub signal_max : ℕ
signal_max = 32

-- Bit `i` of a word.
abbrev pub has_bit : ℕ → ℕ → Bool
has_bit w i = w / 2 ^ i % 2 == 1

-- `w |= 1u << i`
abbrev pub set_bit : ℕ → ℕ → ℕ
set_bit w i = if has_bit w i then w else w + 2 ^ i

-- The search for the target from slot `i` on: a live task with this PID, the idle task excepted.
unfoldable pub find_target : ℕ → ℕ → ℕ → Scheduler → Option ℕ
find_target pid i zero s = none
find_target pid i (suc n) s =
    if (s.tasks i).pid == pid && (not (is_dead (s.tasks i).state) && not (i == 0))
    then some i
    else find_target pid (i + 1) n s

-- The pending bit is set, and a blocked task is woken so that it sees the signal.
unfoldable pub post_signal : ℕ → ℕ → Scheduler → Scheduler
post_signal target sig s =
    let t = s.tasks target in
    let pended = record t { pending_signals = set_bit t.pending_signals sig } in
    if is_blocked t.state
    then remove_from_sleep_queue target
        (set_task target (record pended { state = ready; wakeup_ms = 0 }) s)
    else set_task target pended s

unfoldable pub send_signal : ℕ → ℤ → Scheduler → Scheduler
unfolding find_target post_signal
send_signal pid (negsuc sig) s = s
send_signal pid (pos sig) s =
    if leb signal_max sig then s else elim (find_target pid 0 s.task_count s) [
      | none ↦ s
      | some target ↦ post_signal target sig s
    ]

-- A task of ring 0 drops its pending signals; delivery to a task of ring 3 is part of the kernel
-- build alone.
unfoldable pub deliver_pending_signals : Scheduler → Scheduler
deliver_pending_signals s =
    if corrupted s
    then s
    else if (current s).user_stack_page_count == 0
    then set_task s.current_idx (record (current s) { pending_signals = 0 }) s
    else s

unfoldable pub deliver_pending_signals_at_esp : ℕ → Scheduler → Scheduler
unfolding deliver_pending_signals
deliver_pending_signals_at_esp esp s =
    if corrupted s
    then s
    else deliver_pending_signals (set_task s.current_idx (record (current s) { esp = esp }) s)
