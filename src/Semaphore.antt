-- ===== src/Semaphore.antt =====
-- Semaphores, kernel/kernel/Semaphore.cc with kernel/include/kernel/Semaphore.h, in the kernel. A semaphore works
-- on the scheduler's state; `wait` is the code up to the loop that halts until the task is woken.
pub mod Fifo
mod Tests
use doors.Base.{
  ℕ, zero, suc, ◌+◌, ◌-◌, ltb, leb, ◌==◌, if◌then◌else◌, update, Outcome, done, panic, ◌>>=◌,
}
use doors.Scheduler.{Scheduler, max_tasks}
use doors.Scheduler.Sleepers.{unblock_task}
use doors.Scheduler.Tick.{block_current_task}

abbrev pub max_waiters : ℕ
max_waiters = max_tasks

pub record Semaphore : Type 0 where
  pub count : ℕ
  pub wait_count : ℕ
  pub waiters : ℕ → ℕ

unfoldable pub make : ℕ → Semaphore
make initial_count = record { count = initial_count; wait_count = 0; waiters = λ i. 0 }

-- The running task is entered as the last waiter and blocked.
unfoldable pub enqueue : Semaphore → Scheduler → Outcome (Semaphore × Scheduler)
enqueue m s = do
  t ← block_current_task s
  done (
    record m {
      wait_count = m.wait_count + 1;
      waiters = update m.waiters m.wait_count s.current_idx;
    },
    t,
  )

-- Without a scheduler `wait` returns at once; with the table of waiters full it panics.
unfoldable pub wait : Semaphore → Scheduler → Outcome (Semaphore × Scheduler)
wait m s =
    if ltb 0 m.count
    then done (record m { count = m.count - 1 }, s)
    else if s.task_count == 0
    then done (m, s)
    else if leb max_waiters m.wait_count
    then panic
    else enqueue m s

-- `copy(waiters + 1, waiters + count, waiters)`: `n` entries from `i + 1` on move to the left.
unfoldable pub copy_left : (ℕ → ℕ) → ℕ → ℕ → ℕ → ℕ
copy_left w i zero = w
copy_left w i (suc n) = copy_left (update w i (w (i + 1))) (i + 1) n

unfoldable pub signal : Semaphore → Scheduler → Semaphore × Scheduler
signal m s =
    if ltb 0 m.wait_count
    then (
      record m {
        wait_count = m.wait_count - 1;
        waiters = copy_left m.waiters 0 (m.wait_count - 1);
      },
      unblock_task (m.waiters 0) s,
    )
    else (record m { count = m.count + 1 }, s)
