-- ===== src/Kbd/Keys.antt =====
-- Every round of `readLine` of kernel/arch/i386/Kbd.cc keeps the cursor in the line and the screen as
-- the line.
use doors.Base.{Option, none, some}
use doors.Kbd.{Kbd}
use doors.Kbd.Line.{History, Round, editing, returns}
use doors.Kbd.Editing.{Shown, Agrees}

-- The editor agrees with its screen when the loop goes on.
unfoldable pub RoundAgrees : Round → Type 0
RoundAgrees (editing e) = Agrees e
RoundAgrees (returns line) = Unit {0}

-- The lines of the history, if there is one, can be seen.
abbrev pub HistoryShown : Option History → Type 0
HistoryShown none = Unit {0}
HistoryShown (some h) = Shown h

-- The same of a round with the state of the keyboard.
unfoldable pub PairAgrees : Kbd × Round → Type 0
PairAgrees r = RoundAgrees r.1
