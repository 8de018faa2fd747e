-- ===== src/Pmm/Idle.antt =====
-- The frames of the free list of kernel/kernel/Pmm.cc and the reference counts: a listed frame is
-- page-aligned, within `maxFrameIdx_`, and referenced by nobody.
use doors.Base.{
  Chain, ℕ, zero, suc, ◌*◌, ◌/◌, ◌%◌, ◌≤◌, ◌<◌, ◌≡◌, ◌≢◌, refl, sym, ap, ◌∙◌, List, [], ◌∷◌, arith,
  length, update, update_ne, Absent, Distinct, All, keep_if, Bool, not, ◌==◌, Distinct-keep_if,
}
use doors.Pmm.{Pmm, page_size, max_frames}
use doors.Pmm.Chain.{IsValid}

abbrev pub frame_index : ℕ → ℕ
frame_index a = a / page_size

-- `a` is a frame that the counts cover.
abbrev pub IsFrame : ℕ → ℕ → Type 0
IsFrame frames a = (a % page_size ≡ 0) × (frame_index a < frames)

abbrev pub Idle : (ℕ → ℕ) → ℕ → List ℕ → Type 0
Idle counts frames = All (λ a. IsFrame frames a × (counts (frame_index a) ≡ 0))

pub record Inv (p : Pmm) (xs : List ℕ) : Type 0 where
  pub chain : Chain p.link 0 xs
  pub distinct : Distinct (0 ∷ xs)
  pub counted : p.free_count ≡ length xs
  pub idle : Idle p.ref_counts p.max_frame_idx xs
  pub frames : p.max_frame_idx ≤ max_frames

-- Two frames with one index are one frame.
pub frame_index-ne :
    (frames x a : ℕ) → IsFrame frames x → a % page_size ≡ 0 → x ≢ a → frame_index x ≢ frame_index a
frame_index-ne frames x a h k ne e = ne (omega arith)

-- The count of a frame that is not listed may change.
pub Idle-update :
    (counts : ℕ → ℕ) (frames a v : ℕ) (xs : List ℕ)
    → a % page_size ≡ 0
    → Absent a xs
    → Idle counts frames xs
    → Idle (update counts (frame_index a) v) frames xs
Idle-update counts frames a v [] k h d = tt
Idle-update counts frames a v (x ∷ xs) k h d = (
  (
    d.0.0,
    update_ne counts (frame_index a) (frame_index x) v
          (frame_index-ne frames x a d.0.0 k (λ e. h.0 (sym e)))
        ∙ d.0.1,
  ),
  Idle-update counts frames a v xs k h.1 d.1,
)

-- A frame with a reference is not listed.
pub Idle-Absent :
    (counts : ℕ → ℕ) (frames a : ℕ) (xs : List ℕ)
    → Idle counts frames xs
    → counts (frame_index a) ≢ 0
    → Absent a xs
Idle-Absent counts frames a [] d h = tt
Idle-Absent counts frames a (x ∷ xs) d h =
    (λ e. h (ap (λ y. counts (frame_index y)) e ∙ d.0.1), Idle-Absent counts frames a xs d.1 h)

abbrev pub Frames : ℕ → List ℕ → Type 0
Frames n = All (IsFrame n)

abbrev pub is_not : ℕ → ℕ → Bool
is_not a x = not (x == a)

pub keep_if-Absent : (a : ℕ) (xs : List ℕ) → Absent a xs → keep_if (is_not a) xs ≡ xs
keep_if-Absent a [] h = refl
keep_if-Absent a (x ∷ xs) h = ground (arith, keep_if-Absent a xs)

length-keep_if-is_not :
    (a : ℕ) (xs : List ℕ) → Distinct xs → length xs ≤ suc (length (keep_if (is_not a) xs))
length-keep_if-is_not a [] d = omega arith
length-keep_if-is_not a (x ∷ xs) d =
    ground (arith, length-keep_if-is_not a xs, keep_if-Absent a xs, ap Absent)

Frames-keep_if :
    (n : ℕ) (xs : List ℕ) → Frames (suc n) xs → Frames n (keep_if (is_not (n * page_size)) xs)
Frames-keep_if n [] f = tt
Frames-keep_if n (x ∷ xs) f = ground (arith, Frames-keep_if n xs)

-- There are no more distinct frames than indices.
pub length-Frames : (n : ℕ) (xs : List ℕ) → Distinct xs → Frames n xs → length xs ≤ n
length-Frames zero [] d f = omega arith
length-Frames zero (x ∷ xs) d f = absurd (omega arith)
length-Frames (suc n) xs d f = omega (
  arith,
  length-keep_if-is_not (n * page_size) xs d,
  length-Frames n (keep_if (is_not (n * page_size)) xs) (Distinct-keep_if _ xs d)
      (Frames-keep_if n xs f),
)

pub Idle-Frames : (counts : ℕ → ℕ) (n : ℕ) (xs : List ℕ) → Idle counts n xs → Frames n xs
Idle-Frames counts n [] d = tt
Idle-Frames counts n (x ∷ xs) d = (d.0.0, Idle-Frames counts n xs d.1)

pub Inv-small : {p : Pmm} {xs : List ℕ} → Inv p xs → length xs ≤ max_frames
Inv-small {p} {xs} v = omega (
  arith,
  v.frames,
  length-Frames p.max_frame_idx xs v.distinct.1
      (Idle-Frames p.ref_counts p.max_frame_idx xs v.idle),
)

pub Inv-IsValid : {p : Pmm} {xs : List ℕ} → Inv p xs → IsValid p xs
Inv-IsValid v = record {
  chain = v.chain;
  distinct = v.distinct;
  counted = v.counted;
  small = omega (arith, Inv-small v);
}
