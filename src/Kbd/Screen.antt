-- ===== src/Kbd/Screen.antt =====
-- The line of the screen on which kernel/arch/i386/Kbd.cc shows the line that is edited. The
-- terminal is taken to be wide enough: `cells` has no end.
use doors.Base.{ℕ, zero, suc, ◌+◌, ◌-◌, List, [], ◌∷◌, update, ◌==◌, if◌then◌else◌, ◌≢◌, ◌≡◌, arith}

abbrev pub blank : ℕ
blank = 32

pub record Screen : Type 0 where
  pub cells : ℕ → ℕ
  pub col : ℕ

-- A character of the line that `Tty::rawPuts` writes into a cell.
abbrev pub Visible : ℕ → Type 0
Visible c = (c ≢ 8) × (c ≢ 10) × (c ≢ 13)

-- `printf("%c", c)`: `\r` and `\b` only move the cursor, and `\n` moves it to the next row, which is
-- taken to be empty.
unfoldable pub put : ℕ → Screen → Screen
put c s =
    if c == 10
    then record { cells = λ i. blank; col = 0 }
    else if c == 13
    then record s { col = 0 }
    else if c == 8
    then record s { col = s.col - 1 }
    else record { cells = update s.cells s.col c; col = s.col + 1 }

pub put-Visible :
    (c : ℕ) (s : Screen)
    → Visible c
    → put c s ≡ record { cells = update s.cells s.col c; col = s.col + 1 }
unfolding put
put-Visible c s v = ground (arith, v)

unfoldable pub put_all : List ℕ → Screen → Screen
put_all [] s = s
put_all (c ∷ cs) s = put_all cs (put c s)

unfoldable pub put_blanks : ℕ → Screen → Screen
put_blanks zero s = s
put_blanks (suc n) s = put_blanks n (put blank s)

-- `n` times `printf("\b")`
unfoldable pub back : ℕ → Screen → Screen
back n s = record s { col = s.col - n }

-- `printf("\r> ")`
unfoldable pub prompt : Screen → Screen
prompt s = put blank (put 62 (record s { col = 0 }))
