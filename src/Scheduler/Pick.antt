-- ===== src/Scheduler/Pick.antt =====
-- `findNext` of kernel/kernel/Scheduler.cc: which task runs next.
use doors.Base.{
  ℕ, zero, suc, ◌+◌, ◌-◌, ◌%◌, Option, none, some, ltb, leb, ◌==◌, if◌then◌else◌, ◌&&◌, Outcome,
  done, panic,
}
use doors.Scheduler.{Scheduler, is_ready, max_tasks, priority_high, priority_idle, corrupted}

-- What the walk knows: the best priority so far, and the slot it was seen in.
pub record Best : Type 0 where
  pub priority : ℕ
  pub slot : Option ℕ

-- The slot that round `i` of the walk visits.
unfoldable pub visit : Scheduler → ℕ → ℕ
visit s i = (s.current_idx + 1 + i) % s.task_count

unfoldable pub consider : Scheduler → ℕ → Best → Best
unfolding visit
consider s i b =
    let t = s.tasks (visit s i) in
    if is_ready t.state && ltb t.priority b.priority
    then record { priority = t.priority; slot = some (visit s i) }
    else b

-- `n` more rounds from round `i` on; the walk stops at the highest priority.
unfoldable pub pick_from : Scheduler → ℕ → ℕ → Best → Best
unfolding consider
pick_from s i zero b = b
pick_from s i (suc n) b =
    let c = consider s i b in
    let rest = pick_from s (i + 1) n c in if c.priority == priority_high then c else rest

abbrev pub worse_than_idle : Best
worse_than_idle = record { priority = priority_idle + 1; slot = none }

-- The idle task, in slot 0, where no slot was seen.
abbrev pub slot_or_idle : Best → ℕ
slot_or_idle b = elim b.slot [ none ↦ 0 | some i ↦ i ]

unfoldable pub find_next : Scheduler → Outcome (Option ℕ)
unfolding pick_from
find_next s =
    if corrupted s
    then panic
    else if ltb max_tasks s.task_count
    then panic
    else if leb s.task_count 1
    then done none
    else done (some (slot_or_idle (pick_from s 0 (s.task_count - 1) worse_than_idle)))
