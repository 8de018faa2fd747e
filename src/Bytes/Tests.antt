-- ===== src/Bytes/Tests.antt =====
-- Runs of libc++/string, and the theorems about it at concrete bytes.
use doors.Base.{ℕ, ◌%◌, ◌≡◌, refl, arith, Option, some, none, pos, negsuc, [], ◌∷◌, get_or}
use doors.Bytes.{
  Memory, memmove, memcpy, strlen, strcmp, strncmp, memcmp, strchr, strrchr, strstr, copy_up,
  copy_down, find_up, find_down, search_from, match_here, difference, compare_up,
}
use mathlib.Core.Option
use doors.Bytes.Strings.{StringAt}
use doors.Bytes.Moves.{moved, memmove-moved}
use doors.Bytes.Search.{Last, First, strrchr-Last, strstr-First}

-- `abab` at 0 and `b` at 8, with a NUL behind each.
abbrev bytes : Memory
bytes a = get_or (0x61 ∷ 0x62 ∷ 0x61 ∷ 0x62 ∷ 0 ∷ 0 ∷ 0 ∷ 0 ∷ 0x62 ∷ 0 ∷ []) a 0

abab-StringAt : StringAt bytes 4 0
abab-StringAt = (omega arith, (omega arith, (omega arith, (omega arith, refl))))

b-StringAt : StringAt bytes 1 8
b-StringAt = (omega arith, refl)

-- Four bytes move up by one.
memmove-moved_example : memmove 1 0 4 bytes 4 ≡ moved 1 0 4 bytes 4
memmove-moved_example = memmove-moved 1 0 4 bytes 4

-- `a` is last at 2.
strrchr-Last_example :
    (r : Option ℕ) × (strrchr 5 0 0x61 bytes ≡ some r) × Last bytes 0 4 (0x61 % 256) r
strrchr-Last_example = strrchr-Last bytes 4 5 0 0x61 abab-StringAt (omega arith)

strstr-First_example : (r : Option ℕ) × (strstr 5 0 8 bytes ≡ some r) × First bytes 0 4 8 1 r
strstr-First_example = strstr-First bytes 4 1 5 0 8 abab-StringAt b-StringAt (omega arith)

-- The only character of a string is not found.
misses_first : strrchr 2 8 0x62 bytes ≡ some none
unfolding strrchr strlen find_down
misses_first = refl

finds_first : strchr 2 8 0x62 bytes ≡ some (some 8)
unfolding strchr strlen find_up
finds_first = refl

finds_string : strstr 5 0 8 bytes ≡ some (some 1)
unfolding strstr search_from match_here Option.bind
finds_string = refl

-- A copy upwards would have written `a` there.
moves_up : memmove 1 0 4 bytes 2 ≡ 0x62
unfolding memmove copy_down
moves_up = refl

copies_over : memcpy 1 0 4 bytes 2 ≡ 0x61
unfolding memcpy copy_up
copies_over = refl

compares : strcmp 5 0 8 bytes ≡ some (negsuc 0)
unfolding strcmp difference
compares = refl

compares_two : strncmp 2 0 0 2 bytes ≡ pos 0
unfolding strncmp
compares_two = refl

compares_bytes : memcmp 0 1 4 bytes ≡ negsuc 0
unfolding memcmp compare_up
compares_bytes = refl
