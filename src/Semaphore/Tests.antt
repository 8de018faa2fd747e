-- ===== src/Semaphore/Tests.antt =====
-- Semaphores at concrete inputs.
use doors.Base.{false, if◌then◌else◌, ◌==◌, [], ◌∷◌}
use doors.Scheduler.{Scheduler, empty_task}
use doors.Semaphore.{Semaphore, signal}
use doors.Semaphore.Fifo.{Signals, signal-Signals}

abbrev three_waiting : Semaphore
three_waiting = record {
  count = 0;
  wait_count = 3;
  waiters = λ i. if i == 0 then 5 else if i == 1 then 2 else 7;
}

abbrev fresh : Scheduler
fresh = record {
  tasks = λ i. empty_task;
  task_count = 1;
  current_idx = 0;
  quantum_start_ms = 0;
  initialized = false;
  total_exited = 0;
  total_context_switches = 0;
  idle_ticks = 0;
  next_pid = 0;
  sleep_queue = λ i. record { deadline = 0; task_id = 0 };
  sleep_count = 0;
  last_tick_ms = 0;
  pit = record { ticks = 0; deadline = 0; divisor = 1 };
  stack_words = λ a. 0;
}

signal-Signals_example : Signals three_waiting fresh (5 ∷ 2 ∷ 7 ∷ []) (signal three_waiting fresh)
signal-Signals_example = signal-Signals three_waiting fresh
