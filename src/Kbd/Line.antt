-- ===== src/Kbd/Line.antt =====
-- The line editor `readLine` of kernel/arch/i386/Kbd.cc: the line, the cursor in it, the screen, and
-- the history. A round of its loop handles one key.
use doors.Base.{
  ℕ, zero, suc, ◌+◌, ◌-◌, ◌%◌, Bool, true, false, ◌&&◌, ◌||◌, ◌==◌, if◌then◌else◌, ltb, List, [],
  ◌∷◌, length, Option, none, some,
}
use doors.Kbd.{Kbd, char_avail, get_char}
use doors.Kbd.Screen.{Screen, put, put_all, put_blanks, back, prompt, blank}

-- `buf.erase(n, 1)`, `buf.insert(n, 1, c)`, the characters before and from `n` on.
abbrev pub erase_at : ℕ → List ℕ → List ℕ
erase_at n [] = []
erase_at zero (x ∷ xs) = xs
erase_at (suc n) (x ∷ xs) = x ∷ erase_at n xs

abbrev pub insert_char : ℕ → ℕ → List ℕ → List ℕ
insert_char zero c xs = c ∷ xs
insert_char (suc n) c [] = c ∷ []
insert_char (suc n) c (x ∷ xs) = x ∷ insert_char n c xs

abbrev pub keep : ℕ → List ℕ → List ℕ
keep zero xs = []
keep (suc n) [] = []
keep (suc n) (x ∷ xs) = x ∷ keep n xs

abbrev pub from : ℕ → List ℕ → List ℕ
from zero xs = xs
from (suc n) [] = []
from (suc n) (x ∷ xs) = from n xs

-- `history` is `buf`, `size`, `count` and `head` of the context, and `place` its `*pos`, `none` for -1.
pub record History : Type 0 where
  pub buf : ℕ → List ℕ
  pub size : ℕ
  pub count : ℕ
  pub head : ℕ

pub record Editor : Type 0 where
  pub line : List ℕ
  pub pos : ℕ
  pub screen : Screen
  pub place : Option ℕ

unfoldable pub delete_at : ℕ → ℕ → Editor → Editor
delete_at del_pos old_len e =
    let buf = erase_at del_pos e.line in
    record e {
      line = buf;
      screen = back (old_len - del_pos) (put blank (put_all (from del_pos buf) e.screen));
    }

unfoldable pub insert_at : ℕ → ℕ → Editor → Editor
insert_at ins_pos ch e =
    let buf = insert_char ins_pos ch e.line in
    record e {
      line = buf;
      screen = back (length buf - (ins_pos + 1)) (put_all (from ins_pos buf) e.screen);
    }

abbrev pub max : ℕ → ℕ → ℕ
max a b = if ltb b a then a else b

unfoldable pub redraw_line : List ℕ → ℕ → ℕ → Screen → Screen
redraw_line buf cursor old_len s =
    back (max (length buf) old_len - cursor)
      (put_blanks (max (length buf) old_len - length buf) (put_all buf (prompt s)))

unfoldable pub clear_range : ℕ → ℕ → Editor → Editor
clear_range start old_len e =
    let buf = keep start e.line in
    record e { line = buf; screen = redraw_line buf start old_len e.screen }

unfoldable pub load_history : List ℕ → ℕ → Editor → Editor
load_history src old_len e = record e {
  line = src;
  pos = length src;
  screen = redraw_line src (length src) old_len e.screen;
}

unfoldable pub go_to : History → ℕ → Editor → Editor
go_to h i e = load_history (h.buf i) (length e.line) (record e { place = some i })

unfoldable pub history_up : History → Editor → Editor
history_up h e = elim e.place [
  | none ↦ if h.count == 0 then e else go_to h ((h.head + h.size - 1) % h.size) e
  | some i ↦
      if i == (h.head + h.size - h.count) % h.size then e else go_to h ((i + h.size - 1) % h.size) e
]

unfoldable pub history_down : Editor → Editor
history_down e = elim e.place [
  | none ↦ e
  | some i ↦ record e {
    place = none;
    screen = redraw_line [] 0 (length e.line) e.screen;
    line = [];
    pos = 0;
  }
]

unfoldable pub cursor_left : Editor → Editor
cursor_left e = if ltb 0 e.pos then record e { pos = e.pos - 1; screen = back 1 e.screen } else e

-- `printf("%c", line[pos])`
unfoldable pub cursor_right : Editor → Editor
cursor_right e = elim (from e.pos e.line) [
  | [] ↦ e
  | c ∷ cs ↦ record e { pos = e.pos + 1; screen = put c e.screen }
]

unfoldable pub cursor_start : Editor → Editor
cursor_start e = record e { pos = 0; screen = back e.pos e.screen }

unfoldable pub cursor_end : Editor → Editor
cursor_end e = record e {
  pos = e.pos + length (from e.pos e.line);
  screen = put_all (from e.pos e.line) e.screen;
}

unfoldable pub delete_char : Editor → Editor
delete_char e = if ltb e.pos (length e.line) then delete_at e.pos (length e.line) e else e

unfoldable pub kill_rest : Editor → Editor
kill_rest e = if ltb e.pos (length e.line) then clear_range e.pos (length e.line) e else e

unfoldable pub backspace : Editor → Editor
backspace e =
    if ltb 0 e.pos
    then delete_at (e.pos - 1) (length e.line)
        (record e { pos = e.pos - 1; screen = back 1 e.screen })
    else e

unfoldable pub kill_line : Editor → Editor
kill_line e =
    let q = clear_range 0 (length e.line) e in
    if length e.line == 0 then e else record q { pos = 0 }

unfoldable pub insert_here : ℕ → Editor → Editor
insert_here ch e = let q = insert_at e.pos ch e in record q { pos = q.pos + 1 }

-- What a round ends with: the loop goes on, or `readLine` returns this line.
pub data Round : Type 0 where
  editing : Editor → Round
  returns : List ℕ → Round

unfoldable pub on_key : ℕ → Editor → Round
on_key ch e =
    if ch == 0x03
    then returns []
    else if ch == 0x01
    then editing (cursor_start e)
    else if ch == 0x05
    then editing (cursor_end e)
    else if ch == 0x02
    then editing (cursor_left e)
    else if ch == 0x06
    then editing (cursor_right e)
    else if ch == 0x04
    then editing (delete_char e)
    else if ch == 0x0B
    then editing (kill_rest e)
    else if ch == 10
    then returns e.line
    else if ch == 8
    then editing (backspace e)
    else if ch == 0x15
    then editing (kill_line e)
    else editing (insert_here ch e)

-- A character from the ring, with or without a history.
unfoldable pub on_char : Option History → ℕ → Editor → Round
on_char none ch e = on_key ch e
on_char (some h) ch e =
    if ch == 0x10
    then editing (history_up h e)
    else if ch == 0x0E
    then editing (history_down e)
    else on_key ch e

-- A character that is there is read.
unfoldable pub read_char : Option History → Kbd → Editor → Kbd × Round
read_char history k e =
    let r = get_char k in if char_avail k then (r.0, on_char history r.1 e) else (k, editing e)

unfoldable pub on_up : Option History → Editor → Editor
on_up none e = e
on_up (some h) e = history_up h e

unfoldable pub on_down : Option History → Editor → Editor
on_down none e = e
on_down (some h) e = history_down e

abbrev pub has_history : Option History → Bool
has_history none = false
has_history (some h) = true

-- One round of the loop, where `scrollback` says whether the terminal is in scrollback mode; what
-- the round makes the terminal scroll is left out.
unfoldable pub read_round : Bool → Option History → Kbd → Editor → Kbd × Round
read_round scrollback history k e =
    if ltb 0 k.pending_up && (scrollback || has_history history)
    then (
      record k { pending_up = k.pending_up - 1 },
      editing (if scrollback then e else on_up history e),
    )
    else if ltb 0 k.pending_down && (scrollback || has_history history)
    then (
      record k { pending_down = k.pending_down - 1 },
      editing (if scrollback then e else on_down history e),
    )
    else if ltb 0 k.pending_left
    then (
      record k { pending_left = k.pending_left - 1 },
      editing (if scrollback then e else cursor_left e),
    )
    else if ltb 0 k.pending_right
    then (
      record k { pending_right = k.pending_right - 1 },
      editing (if scrollback then e else cursor_right e),
    )
    else if ltb 0 k.pending_page_up
    then (record k { pending_page_up = k.pending_page_up - 1 }, editing e)
    else if ltb 0 k.pending_page_down
    then (record k { pending_page_down = k.pending_page_down - 1 }, editing e)
    else if ltb 0 k.pending_home
    then (record k { pending_home = k.pending_home - 1 }, editing e)
    else if ltb 0 k.pending_end
    then (record k { pending_end = k.pending_end - 1 }, editing e)
    else read_char history k e
