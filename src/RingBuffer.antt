-- ===== src/RingBuffer.antt =====
-- The ring buffer of kernel/include/kernel/RingBuffer.h, which the statistics keep their samples in.
pub mod Newest
mod Tests
use doors.Base.{ℕ, ◌+◌, ◌-◌, ◌%◌, Option, none, some, ltb, ◌==◌, if◌then◌else◌, update}

-- The template parameter `N` is an argument of the operations.
pub record RingBuffer {ℓ} (A : Type ℓ) : Type ℓ where
  pub buffer : ℕ → A
  pub head : ℕ
  pub tail : ℕ
  pub count : ℕ

module _ {ℓ} {A : Type ℓ} where
  abbrev pub empty : A → RingBuffer A
  empty d = record { buffer = λ i. d; head = 0; tail = 0; count = 0 }

  unfoldable pub push : ℕ → A → RingBuffer A → RingBuffer A
  push n item r =
      let room = ltb r.count n in
      record {
        buffer = update r.buffer r.head item;
        head = (r.head + 1) % n;
        tail = if room then r.tail else (r.tail + 1) % n;
        count = if room then r.count + 1 else r.count;
      }

  -- `none` where the code returns false.
  unfoldable pub latest : ℕ → RingBuffer A → Option A
  latest n r =
      let idx = if r.head == 0 then n - 1 else r.head - 1 in
      if r.count == 0 then none else some (r.buffer idx)

  abbrev pub size : RingBuffer A → ℕ
  size r = r.count
