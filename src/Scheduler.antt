-- ===== src/Scheduler.antt =====
-- The scheduler, kernel/kernel/Scheduler.cc with kernel/include/kernel/Scheduler.h and Task.h, as it
-- is compiled without __IS_DOORS_KERNEL: the state, and the operations on the task table. The `int`s
-- of the state that are never negative are numbers.
pub mod Sleepers
pub mod Pick
pub mod Tick
pub mod Table
pub mod Signals
pub mod Queue
pub mod Wake
pub mod Choice
pub mod Running
pub mod Timing
pub mod Children
mod Tests
use doors.Base.{
  ℕ, zero, suc, ◌+◌, Bool, true, false, ◌||◌, Option, none, List, [], ◌∷◌, leb, if◌then◌else◌, not,
  update,
}
use doors.Pit.{Pit}

pub data TaskState : Type 0 where
  dead ready running blocked : TaskState

abbrev pub is_dead : TaskState → Bool
is_dead dead = true
is_dead _ = false

abbrev pub is_ready : TaskState → Bool
is_ready ready = true
is_ready _ = false

abbrev pub is_running : TaskState → Bool
is_running running = true
is_running _ = false

abbrev pub is_blocked : TaskState → Bool
is_blocked blocked = true
is_blocked _ = false

abbrev pub is_not_dead : TaskState → Bool
is_not_dead s = not (is_dead s)

abbrev pub is_running_or_ready : TaskState → Bool
is_running_or_ready s = is_ready s || is_running s

-- A pointer is a number, 0 is `nullptr`; `unblock_on_exit` is `none` for -1.
pub record Task : Type 0 where
  pub esp : ℕ
  pub state : TaskState
  pub id : ℕ
  pub name : List ℕ
  pub entry : ℕ
  pub stack_buf : ℕ
  pub stack_size : ℕ
  pub flags : ℕ
  pub priority : ℕ
  pub wakeup_ms : ℕ
  pub runtime_ms : ℕ
  pub on_kill : ℕ
  pub page_dir : ℕ
  pub unblock_on_exit : Option ℕ
  pub user_stack_page_count : ℕ
  pub pid : ℕ
  pub ppid : ℕ
  pub exit_code : ℕ
  pub children : ℕ → ℕ
  pub child_count : ℕ
  pub pending_signals : ℕ

abbrev pub max_tasks : ℕ
max_tasks = 8

abbrev pub quantum_ms : ℕ
quantum_ms = 20

abbrev pub task_stack_size : ℕ
task_stack_size = 8192

abbrev pub priority_high : ℕ
priority_high = 0

abbrev pub priority_normal : ℕ
priority_normal = 4

abbrev pub priority_idle : ℕ
priority_idle = 9

abbrev pub max_children : ℕ
max_children = 8

abbrev pub stack_canary : ℕ
stack_canary = 0xDEADBEEF

pub record SleepEntry : Type 0 where
  pub deadline : ℕ
  pub task_id : ℕ

-- The static state, with the timer it programs. `stack_words` is the first word of each stack
-- buffer, where the canary stands.
pub record Scheduler : Type 0 where
  pub tasks : ℕ → Task
  pub task_count : ℕ
  pub current_idx : ℕ
  pub quantum_start_ms : ℕ
  pub initialized : Bool
  pub total_exited : ℕ
  pub total_context_switches : ℕ
  pub idle_ticks : ℕ
  pub next_pid : ℕ
  pub sleep_queue : ℕ → SleepEntry
  pub sleep_count : ℕ
  pub last_tick_ms : ℕ
  pub pit : Pit
  pub stack_words : ℕ → ℕ

-- `Task{}`
abbrev pub empty_task : Task
empty_task = record {
  esp = 0;
  state = dead;
  id = 0;
  name = [];
  entry = 0;
  stack_buf = 0;
  stack_size = 0;
  flags = 0;
  priority = 0;
  wakeup_ms = 0;
  runtime_ms = 0;
  on_kill = 0;
  page_dir = 0;
  unblock_on_exit = none;
  user_stack_page_count = 0;
  pid = 0;
  ppid = 0;
  exit_code = 0;
  children = λ i. 0;
  child_count = 0;
  pending_signals = 0;
}

-- Writing one entry of the task table.
abbrev pub set_task : ℕ → Task → Scheduler → Scheduler
set_task i t s = record s { tasks = update s.tasks i t }

abbrev pub set_state : ℕ → TaskState → Scheduler → Scheduler
set_state i st s = set_task i (record (s.tasks i) { state = st }) s

abbrev pub current : Scheduler → Task
current s = s.tasks s.current_idx

-- `currentIdx_ < 0 || currentIdx_ >= MAX_TASKS`
abbrev pub corrupted : Scheduler → Bool
corrupted s = leb max_tasks s.current_idx

-- The tasks of the table whose state passes a test, from index `i` on.
unfoldable pub count_from : (TaskState → Bool) → (ℕ → Task) → ℕ → ℕ → ℕ
count_from test tasks i zero = 0
count_from test tasks i (suc n) =
    (if test (tasks i).state then 1 else 0) + count_from test tasks (i + 1) n

unfoldable pub count_state : (TaskState → Bool) → Scheduler → ℕ
unfolding count_from
count_state test s = count_from test s.tasks 0 s.task_count

unfoldable pub alive_task_count : Scheduler → ℕ
alive_task_count s = count_state is_not_dead s

unfoldable pub running_ready_count : Scheduler → ℕ
running_ready_count s = count_state is_running_or_ready s

unfoldable pub blocked_task_count : Scheduler → ℕ
blocked_task_count s = count_state is_blocked s

unfoldable pub dead_task_count : Scheduler → ℕ
dead_task_count s = count_state is_dead s

-- "idle"
abbrev pub idle_name : List ℕ
idle_name = 105 ∷ 100 ∷ 108 ∷ 101 ∷ []

unfoldable pub init : Scheduler → Scheduler
init s = record s {
  tasks =
      update (λ i. empty_task) 0
        (record empty_task { state = running; name = idle_name; priority = priority_idle });
  task_count = 1;
  current_idx = 0;
  quantum_start_ms = 0;
  sleep_count = 0;
  last_tick_ms = 0;
  initialized = true;
}
