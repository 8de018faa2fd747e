-- ===== src/Kbd.antt =====
-- The keyboard, kernel/arch/i386/Kbd.cc and kernel/include/kernel/Kbd.h: the ring of characters, the
-- counters of navigation keys, the modifiers, and the interrupt handler. The tables of scancodes
-- and of texts (Scancodes.h, Keymap.cc) are arguments. `signals` counts the calls of signal on the
-- semaphore that waitForChar waits on.
pub mod Line
pub mod Screen
pub mod Shows
pub mod Editing
pub mod Keys
pub mod Fifo
mod Tests
use doors.Base.{
  ℕ, ◌+◌, ◌-◌, ◌/◌, ◌%◌, Bool, true, false, not, ◌==◌, if◌then◌else◌, ltb, add32, update, Option,
  none, some,
}

abbrev pub buf_size : ℕ
buf_size = 256

-- The keys that the handlers tell apart.
pub data Key : Type 0 where
  up : Key
  down : Key
  left : Key
  right : Key
  page_up : Key
  page_down : Key
  home : Key
  end_key : Key
  caps_lock : Key
  other : ℕ → Key

pub data Mod : Type 0 where
  mod_none : Mod
  mod_shift : Mod
  mod_ctrl : Mod
  mod_alt : Mod
  mod_other : Mod

pub record ScancodeEntry : Type 0 where
  pub key : Key
  pub mod_key : Mod

pub record Kbd : Type 0 where
  pub buffer : ℕ → ℕ
  pub head : ℕ
  pub tail : ℕ
  pub signals : ℕ
  pub shift_pressed : Bool
  pub ctrl_pressed : Bool
  pub alt_pressed : Bool
  pub caps_lock_on : Bool
  pub extended : Bool
  pub pending_up : ℕ
  pub pending_down : ℕ
  pub pending_left : ℕ
  pub pending_right : ℕ
  pub pending_page_up : ℕ
  pub pending_page_down : ℕ
  pub pending_home : ℕ
  pub pending_end : ℕ

unfoldable pub clear_navigation : Kbd → Kbd
clear_navigation k = record k {
  pending_up = 0;
  pending_down = 0;
  pending_left = 0;
  pending_right = 0;
  pending_page_up = 0;
  pending_page_down = 0;
  pending_home = 0;
  pending_end = 0;
}

unfoldable pub init : Kbd → Kbd
init k =
    let cleared = clear_navigation (record k {
      head = 0;
      tail = 0;
      shift_pressed = false;
      ctrl_pressed = false;
      alt_pressed = false;
      caps_lock_on = false;
    }) in
    record cleared { extended = false }

unfoldable pub push_char : ℕ → Kbd → Kbd
push_char ch k = record k {
  buffer = update k.buffer (k.head % buf_size) ch;
  head = add32 k.head 1;
  signals = k.signals + 1;
}

unfoldable pub char_avail : Kbd → Bool
char_avail k = not (k.head == k.tail)

-- `getChar` behind its wait for a character.
unfoldable pub get_char : Kbd → Kbd × ℕ
get_char k = (record k { tail = add32 k.tail 1 }, k.buffer (k.tail % buf_size))

pub data KeyEvent : Type 0 where
  nav : Key → KeyEvent
  char : ℕ → KeyEvent
  unknown : KeyEvent

unfoldable pub try_read_char : Kbd → Kbd × KeyEvent
try_read_char k = let r = get_char k in if char_avail k then (r.0, char r.1) else (k, unknown)

unfoldable pub try_read_key : Kbd → Kbd × KeyEvent
try_read_key k =
    if ltb 0 k.pending_up
    then (record k { pending_up = k.pending_up - 1 }, nav up)
    else if ltb 0 k.pending_down
    then (record k { pending_down = k.pending_down - 1 }, nav down)
    else if ltb 0 k.pending_left
    then (record k { pending_left = k.pending_left - 1 }, nav left)
    else if ltb 0 k.pending_right
    then (record k { pending_right = k.pending_right - 1 }, nav right)
    else if ltb 0 k.pending_page_up
    then (record k { pending_page_up = k.pending_page_up - 1 }, nav page_up)
    else if ltb 0 k.pending_page_down
    then (record k { pending_page_down = k.pending_page_down - 1 }, nav page_down)
    else if ltb 0 k.pending_home
    then (record k { pending_home = k.pending_home - 1 }, nav home)
    else if ltb 0 k.pending_end
    then (record k { pending_end = k.pending_end - 1 }, nav end_key)
    else try_read_char k

-- `none` is a key that does not navigate. Home with Shift is End.
unfoldable pub count_navigation : Key → Kbd → Option Kbd
count_navigation up k = some (record k { pending_up = k.pending_up + 1 })
count_navigation down k = some (record k { pending_down = k.pending_down + 1 })
count_navigation left k = some (record k { pending_left = k.pending_left + 1 })
count_navigation right k = some (record k { pending_right = k.pending_right + 1 })
count_navigation page_up k = some (record k { pending_page_up = k.pending_page_up + 1 })
count_navigation page_down k = some (record k { pending_page_down = k.pending_page_down + 1 })
count_navigation home k = some (
    if k.shift_pressed
    then record k { pending_end = k.pending_end + 1 }
    else record k { pending_home = k.pending_home + 1 })
count_navigation end_key k = some (record k { pending_end = k.pending_end + 1 })
count_navigation caps_lock k = none
count_navigation (other n) k = none

-- `none` is a key that modifies nothing.
unfoldable pub set_modifier : Mod → Bool → Kbd → Option Kbd
set_modifier mod_none pressed k = none
set_modifier mod_shift pressed k = some (record k { shift_pressed = pressed })
set_modifier mod_ctrl pressed k = some (record k { ctrl_pressed = pressed })
set_modifier mod_alt pressed k = some (record k { alt_pressed = pressed })
set_modifier mod_other pressed k = some k

unfoldable pub is_caps_lock : Key → Bool
is_caps_lock up = false
is_caps_lock down = false
is_caps_lock left = false
is_caps_lock right = false
is_caps_lock page_up = false
is_caps_lock page_down = false
is_caps_lock home = false
is_caps_lock end_key = false
is_caps_lock caps_lock = true
is_caps_lock (other n) = false

-- The last part of `processScancode`; 0 is a key without a text.
unfoldable pub push_text : (Key → Bool → Bool → Bool → ℕ) → Key → Kbd → Kbd
push_text to_text key k =
    let ch = to_text key k.shift_pressed k.ctrl_pressed k.caps_lock_on in
    if ch == 0 then k else push_char ch k

-- Without CAPS_LOCK_IS_CTRL.
unfoldable pub process_key : (Key → Bool → Bool → Bool → ℕ) → ScancodeEntry → Bool → Kbd → Kbd
process_key to_text entry release k =
    if is_caps_lock entry.key
    then (if release then k else record k { caps_lock_on = not k.caps_lock_on })
    else elim (set_modifier entry.mod_key (not release) k) [
      | some q ↦ q
      | none ↦ elim (count_navigation entry.key k) [
        | some q ↦ if release then k else q
        | none ↦ if release then k else push_text to_text entry.key k
      ]
    ]

unfoldable pub process_scancode :
    (ℕ → Bool → ScancodeEntry) → (Key → Bool → Bool → Bool → ℕ) → ℕ → Bool → Kbd → Kbd
process_scancode lookup to_text scancode is_extended k =
    process_key to_text (lookup (scancode % 128) is_extended) ((scancode / 128) % 2 == 1) k

unfoldable pub isr_handler :
    (ℕ → Bool → ScancodeEntry) → (Key → Bool → Bool → Bool → ℕ) → ℕ → Kbd → Kbd
isr_handler lookup to_text scancode k =
    if scancode == 0xE0
    then record k { extended = true }
    else process_scancode lookup to_text scancode k.extended (record k { extended = false })
