-- ===== src/Kbd/Tests.antt =====
-- Runs of kernel/arch/i386/Kbd.cc, and the theorems about it at concrete inputs.
use doors.Base.{ℕ, ◌≡◌, refl, arith, Bool, false, List, [], ◌∷◌, none, ◌==◌, if◌then◌else◌}
use doors.Kbd.{
  Kbd, ScancodeEntry, push_char, get_char, char_avail, isr_handler, process_scancode, process_key,
  is_caps_lock, set_modifier, count_navigation, push_text, home, mod_none, mod_shift, other,
}
use doors.Kbd.Screen.{blank, put, put_all, back}
use doors.Kbd.Line.{
  Editor, Round, editing, returns, read_round, read_char, on_char, on_key, insert_here, insert_at,
}
use doors.Kbd.Fifo.{Holds, Reads, ring-Holds}

abbrev idle : Kbd
idle = record {
  buffer = λ i. 0;
  head = 0;
  tail = 0;
  signals = 0;
  shift_pressed = false;
  ctrl_pressed = false;
  alt_pressed = false;
  caps_lock_on = false;
  extended = false;
  pending_up = 0;
  pending_down = 0;
  pending_left = 0;
  pending_right = 0;
  pending_page_up = 0;
  pending_page_down = 0;
  pending_home = 0;
  pending_end = 0;
}

-- One character, `x`, is in the ring.
abbrev one_char : Kbd
one_char = record idle { buffer = λ i. if i == 0 then 120 else 0; head = 1 }

one_char-Holds : Holds one_char (120 ∷ [])
one_char-Holds = record {
  tail_bound = omega arith;
  counted = omega arith;
  bound = omega arith;
  stored = omega arith;
}

ring-Holds_example : Reads one_char (120 ∷ []) × Holds (push_char 121 one_char) (120 ∷ 121 ∷ [])
ring-Holds_example = ring-Holds one_char 121 (120 ∷ []) one_char-Holds

-- The line `ab` with the cursor on `b`.
abbrev editor : Editor
editor = record {
  line = 97 ∷ 98 ∷ [];
  pos = 1;
  screen = record { cells = λ i. if i == 2 then 97 else if i == 3 then 98 else blank; col = 3 };
  place = none;
}

-- The character is inserted in front of the cursor, and the screen shows `axb`.
typed : Round → ℕ × ℕ × ℕ × List ℕ
typed (returns line) = (0, 0, 0, line)
typed (editing e) = (e.screen.cells 3, e.screen.cells 4, e.screen.col, e.line)

read_round_types :
    typed (read_round false none one_char editor).1 ≡ (120, 98, 4, 97 ∷ 120 ∷ 98 ∷ [])
unfolding typed read_round read_char on_char on_key insert_here insert_at put put_all back
    char_avail get_char
read_round_types = refl

-- The code 0x47 behind 0xE0 is Home, 0x2A is Shift.
abbrev codes : ℕ → Bool → ScancodeEntry
codes code is_extended =
    if code == 0x2A
    then record { key = other 0; mod_key = mod_shift }
    else if code == 0x47
    then record { key = home; mod_key = mod_none }
    else record { key = other 1; mod_key = mod_none }

pressed : List ℕ → Kbd → Kbd
pressed [] k = k
pressed (c ∷ cs) k = pressed cs (isr_handler codes (λ key s c l. 65) c k)

counters : Kbd → ℕ × ℕ × ℕ
counters k = (k.pending_home, k.pending_end, k.head)

isr_handler_home :
    counters (pressed (0xE0 ∷ 0x47 ∷ 0x2A ∷ 0xE0 ∷ 0x47 ∷ 0xAA ∷ 0x1E ∷ 0x9E ∷ []) idle) ≡ (1, 1, 1)
unfolding counters pressed isr_handler process_scancode process_key is_caps_lock set_modifier
    count_navigation push_text push_char
isr_handler_home = refl
