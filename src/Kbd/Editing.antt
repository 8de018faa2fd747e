-- ===== src/Kbd/Editing.antt =====
-- Every edit of kernel/arch/i386/Kbd.cc leaves the screen showing the new line.
use doors.Base.{
  All, ◌%◌, ℕ, zero, suc, ◌+◌, ◌-◌, ◌≤◌, ◌<◌, ◌≡◌, refl, ap, ◌∙◌, arith, ◌&&◌, ◌==◌, if◌then◌else◌,
  ltb, leb, List, [], ◌∷◌, length, get_or, some, Bool-cases, Option-cases, inl, inr,
}
use doors.Kbd.Screen.{Visible, Screen, put, put_all, back, prompt, blank}
use doors.Kbd.Line.{
  erase_at, insert_char, keep, from, Editor, History, delete_at, insert_at, max, redraw_line,
  clear_range, load_history, go_to, history_up, history_down,
}
use doors.Kbd.Shows.{
  All-erase_at, All-insert_char, All-keep, All-from, Shows, get_or-erase_at, length-erase_at,
  get_or-insert_char, length-insert_char, length-keep, get_or-from, length-from, put_all_lem,
  put_blanks_lem,
}

pub get_or-beyond : (i : ℕ) (xs : List ℕ) → length xs ≤ i → get_or xs i blank ≡ blank
get_or-beyond i [] h = refl
get_or-beyond zero (x ∷ xs) h = absurd (omega arith)
get_or-beyond (suc i) (x ∷ xs) h = get_or-beyond i xs (omega arith)

-- The part of a line from `n` on, printed at its place.
pub printed :
    (n : ℕ) (buf : List ℕ) (s : Screen)
    → All Visible buf
    → s.col ≡ n + 2
    → n ≤ length buf
    → ((put_all (from n buf) s).col ≡ length buf + 2)
      × ((i : ℕ)
          → (put_all (from n buf) s).cells (i + 2)
            ≡ (if leb n i && ltb i (length buf) then get_or buf i blank else s.cells (i + 2)))
printed n buf s v h k =
    let r = put_all_lem (from n buf) s (All-from n buf v) in
    let l = length-from n buf in
    (
      omega (arith, r.0, l),
      λ i.
          r.1 (i + 2)
          ∙ ground (
            arith,
            h,
            k,
            l,
            get_or-from n ((i + 2) - s.col) buf,
            ap (λ m. get_or buf m blank) (index i),
          ),
    )
  where
    index : (i : ℕ) → (if leb n i then n + ((i + 2) - s.col) else i) ≡ i
    index i = ground (arith, h)

pub delete_at-Shows :
    (p : ℕ) (e : Editor)
    → p < length e.line
    → Shows e.line p e.screen
    → Shows (delete_at p (length e.line) e).line p (delete_at p (length e.line) e).screen
unfolding delete_at back put
delete_at-Shows p e h w =
    let l = length-erase_at p e.line h in
    let v = All-erase_at p e.line w.visible in
    let r = printed p (erase_at p e.line) e.screen v w.cursor (omega arith) in
    record {
      cursor = omega (arith, r.0);
      within = omega arith;
      cells = λ i. ground (
        arith,
        l,
        r.0,
        r.1 i,
        w.cells i,
        get_or-erase_at p i e.line,
        get_or-beyond i (erase_at p e.line),
        get_or-beyond i e.line,
      );
      visible = v;
    }

pub insert_at-Shows :
    (p c : ℕ) (e : Editor)
    → Visible c
    → Shows e.line p e.screen
    → Shows (insert_at p c e).line (p + 1) (insert_at p c e).screen
unfolding insert_at back
insert_at-Shows p c e h w =
    let l = length-insert_char p c e.line w.within in
    let v = All-insert_char p c e.line h w.visible in
    let r = printed p (insert_char p c e.line) e.screen v w.cursor (omega (arith, w.within)) in
    record {
      cursor = omega (arith, r.0, l, w.within);
      within = omega (arith, l, w.within);
      cells = λ i. ground (
        arith,
        l,
        r.1 i,
        w.cells i,
        get_or-insert_char p c i e.line w.within,
        w.within,
        get_or-beyond i (insert_char p c e.line),
        get_or-beyond i e.line,
      );
      visible = v;
    }

prompt-cells : (s : Screen) (i : ℕ) → (prompt s).cells (i + 2) ≡ s.cells (i + 2)
unfolding prompt put
prompt-cells s i = ground arith

prompt-col : (s : Screen) → (prompt s).col ≡ 2
unfolding prompt put
prompt-col s = refl

redraw_line-Shows :
    (buf : List ℕ) (cursor old_len : ℕ) (s : Screen)
    → All Visible buf
    → cursor ≤ length buf
    → ((i : ℕ) → old_len ≤ i → s.cells (i + 2) ≡ blank)
    → Shows buf cursor (redraw_line buf cursor old_len s)
unfolding redraw_line back
redraw_line-Shows buf cursor old_len s v h w =
    let q = prompt-col s in
    let r = put_all_lem buf (prompt s) v in
    let b = put_blanks_lem (max (length buf) old_len - length buf) (put_all buf (prompt s)) in
    record {
      cursor = ground (arith, b.0, r.0, q, h);
      within = h;
      cells = λ i. ground (
        arith,
        q,
        r.0,
        b.1 (i + 2),
        r.1 (i + 2),
        prompt-cells s i,
        w i,
        get_or-beyond i buf,
        ap (λ m. get_or buf m blank) (same i),
      );
      visible = v;
    }
  where
    same : (i : ℕ) → (i + 2) - 2 ≡ i
    same i = omega arith

Shows-beyond :
    (line : List ℕ) (pos : ℕ) (s : Screen)
    → Shows line pos s
    → (i : ℕ) → length line ≤ i
    → s.cells (i + 2) ≡ blank
Shows-beyond line pos s w i h = w.cells i ∙ get_or-beyond i line h

-- The editor and its screen agree.
abbrev pub Agrees : Editor → Type 0
Agrees e = Shows e.line e.pos e.screen

pub clear_range-Shows :
    (n : ℕ) (e : Editor)
    → n ≤ length e.line
    → Agrees e
    → Shows (clear_range n (length e.line) e).line n (clear_range n (length e.line) e).screen
unfolding clear_range
clear_range-Shows n e h w =
    redraw_line-Shows (keep n e.line) n (length e.line) e.screen (All-keep n e.line w.visible)
      (omega (arith, length-keep n e.line h)) (Shows-beyond e.line e.pos e.screen w)

load_history-Agrees :
    (src : List ℕ) (e : Editor)
    → All Visible src
    → Agrees e
    → Agrees (load_history src (length e.line) e)
unfolding load_history
load_history-Agrees src e v w =
    redraw_line-Shows src (length src) (length e.line) e.screen v (omega arith)
      (Shows-beyond e.line e.pos e.screen w)

-- The lines of the history can be seen.
abbrev pub Shown : History → Type 0
Shown h = (i : ℕ) → All Visible (h.buf i)

go_to-Agrees : (h : History) (i : ℕ) (e : Editor) → Shown h → Agrees e → Agrees (go_to h i e)
unfolding go_to
go_to-Agrees h i e v w = load_history-Agrees (h.buf i) (record e { place = some i }) (v i) w

pub history_up-Agrees : (h : History) (e : Editor) → Shown h → Agrees e → Agrees (history_up h e)
unfolding history_up
history_up-Agrees h e v w = elim (Option-cases e.place) [
  | inl p ↦ elim (Bool-cases (h.count == 0)) [
    | inl z ↦ rw (p, z, history_up) w
    | inr z ↦ rw (p, z, history_up) (go_to-Agrees h ((h.head + h.size - 1) % h.size) e v w)
  ]
  | inr (i, p) ↦ elim (Bool-cases (i == (h.head + h.size - h.count) % h.size)) [
    | inl z ↦ rw (p, z, history_up) w
    | inr z ↦ rw (p, z, history_up) (go_to-Agrees h ((i + h.size - 1) % h.size) e v w)
  ]
]

pub history_down-Agrees : (e : Editor) → Agrees e → Agrees (history_down e)
unfolding history_down
history_down-Agrees e w = elim (Option-cases e.place) [
  | inl p ↦ rw (p, history_down) w
  | inr (i, p) ↦
      rw (p, history_down)
        (redraw_line-Shows [] 0 (length e.line) e.screen tt (omega arith)
          (Shows-beyond e.line e.pos e.screen w))
]
