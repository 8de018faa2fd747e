-- ===== src/Numbers.antt =====
-- Numbers as text, libc++/stdlib: utos.cc, ltos.cc and itos.cc print, strtoull.cc and strtoll.cc read. A
-- string is the list of its characters without the NUL at its end. The loop that divides runs on
-- fuel; its digits come out with the lowest first and are then put in the other order, which `utos`
-- and `ltos` do by swaps in place and `itos` by copying.
pub mod Digits
pub mod RoundTrip
mod Tests
use doors.Base.{
  ℕ, zero, suc, ◌+◌, ◌-◌, ◌*◌, ◌/◌, ◌%◌, ◌^◌, Bool, true, false, not, ◌&&◌, ◌||◌, ◌==◌,
  if◌then◌else◌, ltb, leb, List, [], ◌∷◌, Option, none, some, u32_mod, u64_mod, to_int32, ℤ, pos,
  negsuc,
}
use mathlib.Core.Option
use mathlib.Core.List.{reverse}

abbrev pub is_digit : ℕ → Bool
is_digit ch = leb 0x30 ch && leb ch 0x39

abbrev pub is_upper : ℕ → Bool
is_upper ch = leb 0x41 ch && leb ch 0x5A

abbrev pub is_lower : ℕ → Bool
is_lower ch = leb 0x61 ch && leb ch 0x7A

abbrev pub is_xdigit : ℕ → Bool
is_xdigit ch = is_digit ch || (leb 0x41 ch && leb ch 0x46) || (leb 0x61 ch && leb ch 0x66)

abbrev pub is_space : ℕ → Bool
is_space ch = ch == 0x20 || ch == 0x09 || (leb 0x0A ch && leb ch 0x0D)

abbrev pub to_lower : ℕ → ℕ
to_lower ch = if is_upper ch then ch + 32 else ch

abbrev pub to_upper : ℕ → ℕ
to_upper ch = if is_lower ch then ch - 32 else ch

-- The character of a digit, cut to 8 bits.
unfoldable pub digit_char : Bool → ℕ → ℕ
digit_char upcase rem =
    let ch = (if ltb rem 10 then rem + 0x30 else rem + 0x61 - 10) % 256 in
    if upcase then to_upper ch else ch

-- The loop `while (num > 0)`; the lowest digit comes first.
unfoldable pub print_digits : ℕ → ℕ → ℕ → Bool → Option (List ℕ)
print_digits zero num base upcase = if num == 0 then some [] else none
print_digits (suc fuel) num base upcase =
    let rest = print_digits fuel (num / base) base upcase in
    if num == 0 then some [] else Option.map (λ cs. digit_char upcase (num % base) ∷ cs) rest

-- `utos` and `ltos`, which differ in the width of the number; `none` is a loop that does not end.
unfoldable pub utos : ℕ → ℕ → ℕ → Bool → Option (List ℕ)
utos fuel num base upcase =
    if num == 0
    then some (0x30 ∷ [])
    else Option.map (λ cs. reverse cs) (print_digits fuel num base upcase)

-- The sign is written first; the rest is as in `utos`.
unfoldable pub itos : ℕ → ℤ → ℕ → Bool → Option (List ℕ)
itos fuel (pos n) base upcase = utos fuel n base upcase
itos fuel (negsuc n) base upcase = Option.map (λ cs. 0x2D ∷ cs) (utos fuel (n + 1) base upcase)

-- The value that `strtoull` gives to a character.
unfoldable pub digit_value : ℕ → ℕ
digit_value ch = let ich = to_lower ch - 0x30 in if ltb 10 ich then ich - (0x30 - 10) - 1 else ich

abbrev pub is_sign : ℕ → Bool
is_sign ch = ch == 0x2D || ch == 0x2B

-- The character behind is an `x`.
abbrev pub next_is_x : List ℕ → Bool
next_is_x [] = false
next_is_x (c ∷ cs) = c == 0x78 || c == 0x58

abbrev pub accepted : ℕ → ℕ → Bool
accepted base ch = if not (base == 16) then is_digit ch else is_xdigit ch

-- What the loop of `strtoull` does with a character: pass over it, take it for the mark of base 16
-- or 8, add it as a digit, or end.
pub data Action : Type 0 where
  ignore : Action
  mark_hex : Action
  mark_octal : Action
  add_digit : Action
  stop : Action

-- `base` and `res` are those so far, `cs` the characters behind.
unfoldable pub action : ℕ → ℕ → ℕ → List ℕ → Action
action base res ch cs =
    if is_sign ch || (is_space ch && res == 0)
    then ignore
    else if (base == 0 && res == 0) && (ch == 0x30 && next_is_x cs)
    then mark_hex
    else if (base == 0 && res == 0) && ch == 0x30
    then mark_octal
    else if accepted base ch
    then add_digit
    else stop

abbrev pub base_or_10 : ℕ → ℕ
base_or_10 base = if base == 0 then 10 else base

-- The loop of `strtoull`; `skip` says that the character was jumped over. It returns the result and
-- the characters that were not read.
unfoldable pub read_digits : Bool → ℕ → ℕ → List ℕ → ℕ × List ℕ
read_digits skip base res [] = (res, [])
read_digits true base res (ch ∷ cs) = read_digits false base res cs
read_digits false base res (ch ∷ cs) = elim (action base res ch cs) [
  | ignore ↦ read_digits false base res cs
  | mark_hex ↦ read_digits true 16 res cs
  | mark_octal ↦ read_digits false 8 res cs
  | add_digit ↦
      read_digits false (base_or_10 base) ((res * base_or_10 base + digit_value ch) % u64_mod) cs
  | stop ↦ (res, ch ∷ cs)
]

unfoldable pub strtoull : List ℕ → ℕ → ℕ × List ℕ
strtoull str base = read_digits false base 0 str

-- The first character that is no space is a minus.
unfoldable pub is_negative : List ℕ → Bool
is_negative [] = false
is_negative (ch ∷ cs) = let rest = is_negative cs in if is_space ch then rest else ch == 0x2D

-- A 64-bit number as a signed one.
unfoldable pub to_int64 : ℕ → ℤ
to_int64 n = if ltb n (2 ^ 63) then pos n else negsuc (u64_mod - 1 - n)

unfoldable pub strtoll : List ℕ → ℕ → ℤ
strtoll str base =
    let res = (strtoull str base).0 in
    if not (res == 0) && is_negative str then to_int64 ((u64_mod - res) % u64_mod) else to_int64 res

-- A signed number cut to 32 bits.
unfoldable pub low32 : ℤ → ℕ
low32 (pos n) = n % u32_mod
low32 (negsuc n) = u32_mod - 1 - n % u32_mod

unfoldable pub strtol : List ℕ → ℕ → ℤ
strtol str base = to_int32 (low32 (strtoll str base))

unfoldable pub strtoul : List ℕ → ℕ → ℕ
strtoul str base = (strtoull str base).0 % u32_mod

abbrev pub atoi : List ℕ → ℤ
atoi str = strtol str 10

abbrev pub atol : List ℕ → ℤ
atol str = strtoll str 10
