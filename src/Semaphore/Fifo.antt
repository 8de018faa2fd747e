-- ===== src/Semaphore/Fifo.antt =====
-- The waiters of a semaphore of kernel/kernel/Semaphore.cc are a queue: the first to wait is the
-- first to be woken.
use doors.Base.{
  ℕ, zero, suc, ◌+◌, ◌-◌, ◌≤◌, ◌<◌, ◌≡◌, refl, sym, ap, ◌∙◌, subst, arith, true, ltb, update,
  update_self, update_ne, ◌⊎◌, List, [], ◌∷◌, ◌++◌, done, Outcome, panic, ◌≢◌,
}
use doors.Scheduler.{Scheduler, set_state, blocked}
use doors.Scheduler.Sleepers.{unblock_task}
use doors.Semaphore.{Semaphore, signal, copy_left, max_waiters}

-- `n` entries from entry `i` on.
abbrev pub entries : (ℕ → ℕ) → ℕ → ℕ → List ℕ
entries w i zero = []
entries w i (suc n) = w i ∷ entries w (suc i) n

abbrev pub waiting : Semaphore → List ℕ
waiting m = entries m.waiters 0 m.wait_count

entries-update_past :
    (w : ℕ → ℕ) (i n k v : ℕ) → i + n ≤ k → entries (update w k v) i n ≡ entries w i n
entries-update_past w i zero k v h = refl
entries-update_past w i (suc n) k v h = rw (
  update_ne w k i v (λ e. absurd (omega arith)),
  entries-update_past w (suc i) n k v (omega arith),
)

entries-update_before :
    (w : ℕ → ℕ) (i n k v : ℕ) → k < i → entries (update w k v) i n ≡ entries w i n
entries-update_before w i zero k v h = refl
entries-update_before w i (suc n) k v h = rw (
  update_ne w k i v (λ e. absurd (omega arith)),
  entries-update_before w (suc i) n k v (omega arith),
)

copy_left_before : (w : ℕ → ℕ) (i n k : ℕ) → k < i → copy_left w i n k ≡ w k
unfolding copy_left
copy_left_before w i zero k h = refl
copy_left_before w i (suc n) k h =
    copy_left_before (update w i (w (i + 1))) (i + 1) n k (omega arith)
    ∙ update_ne w i k (w (i + 1)) (λ e. absurd (omega arith))

entries-copy_left : (w : ℕ → ℕ) (i n : ℕ) → entries (copy_left w i n) i n ≡ entries w (suc i) n
unfolding copy_left
entries-copy_left w i zero = refl
entries-copy_left w i (suc n) =
    rw
      (
        copy_left_before (update w i (w (i + 1))) (i + 1) n i (omega arith),
        update_self w i (w (i + 1)),
      )
      (rest (λ v. entries-copy_left v (suc i) n) (i + 1) (omega arith))
  where
    rest :
        ((v : ℕ → ℕ) → entries (copy_left v (suc i) n) (suc i) n ≡ entries v (suc (suc i)) n)
        → (j : ℕ) → j ≡ suc i
        → w j ∷ entries (copy_left (update w i (w j)) j n) (suc i) n
          ≡ w (suc i) ∷ entries w (suc (suc i)) n
    rest ih j e =
        subst
          (λ z.
            w z ∷ entries (copy_left (update w i (w z)) z n) (suc i) n
            ≡ w (suc i) ∷ entries w (suc (suc i)) n)
          (sym e)
          (ap (λ xs. w (suc i) ∷ xs)
            (ih (update w i (w (suc i)))
              ∙ entries-update_before w (suc (suc i)) n i (w (suc i)) (omega arith)))

-- What `wait` does: it takes a unit if there is one, gives up where there is no scheduler, panics
-- where the table of waiters is full, and otherwise blocks the running task as the last waiter.
abbrev pub Waits : Semaphore → Scheduler → Outcome (Semaphore × Scheduler) → Type 0
Waits m s r =
    ((0 < m.count) × (r ≡ done (record m { count = m.count - 1 }, s)))
    ⊎ (((m.count ≡ 0)
          × (((s.task_count ≡ 0) × (r ≡ done (m, s)))
              ⊎ ((s.task_count ≢ 0) × (max_waiters ≤ m.wait_count) × (r ≡ panic))))
        ⊎ ((n : Semaphore) × (r ≡ done (n, set_state s.current_idx blocked s))
            × (m.count ≡ 0)
            × (n.count ≡ 0)
            × (waiting n ≡ waiting m ++ s.current_idx ∷ [])))

-- What `signal` does on the waiters `xs`.
abbrev pub Signals : Semaphore → Scheduler → List ℕ → Semaphore × Scheduler → Type 0
Signals m s [] r = r ≡ (record m { count = m.count + 1 }, s)
Signals m s (x ∷ xs) r = (waiting r.0 ≡ xs) × (r.0.count ≡ m.count) × (r.1 ≡ unblock_task x s)

signal-Signals_count :
    (m : Semaphore) (s : Scheduler) (n : ℕ)
    → m.wait_count ≡ n
    → Signals m s (entries m.waiters 0 n) (signal m s)
unfolding signal
signal-Signals_count m s zero e = ground arith
signal-Signals_count m s (suc n) e =
    let t : ltb 0 m.wait_count ≡ true = ground arith in
    let k : m.wait_count - 1 ≡ n = omega arith in
    rw t (rw k (entries-copy_left m.waiters 0 n), refl, refl)

-- signal wakes the task that has waited longest and keeps the order of the other waiters, without
-- a unit being added; where nobody waits it adds a unit and wakes nobody.
pub signal-Signals : (m : Semaphore) (s : Scheduler) → Signals m s (waiting m) (signal m s)
signal-Signals m s = signal-Signals_count m s m.wait_count refl
