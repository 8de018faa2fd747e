-- ===== src/Bytes.antt =====
-- Bytes in memory, libc++/string: memcpy.cc, memmove.cc, memset.cc, memcmp.cc, memchr.cc, strcpy.cc,
-- strncpy.cc, strcmp.cc, strncmp.cc, strchr.cc, strrchr.cc and strstr.cc, with `strlen` of
-- libc++/include/string.h. The memory is a function from addresses to bytes. A pointer that may be
-- `nullptr` is an option. A loop that ends at a NUL runs on fuel.
mod Moves
mod Strings
mod Search
mod Tests
use doors.Base.{
  ℕ, zero, suc, ◌+◌, ◌-◌, ◌%◌, Bool, not, ◌&&◌, ◌==◌, if◌then◌else◌, ltb, Option, none, some, ℤ,
  pos, negsuc, update,
}
use mathlib.Core.Option

abbrev pub Memory : Type 0
Memory = ℕ → ℕ

-- A loop that copies the byte `i` and goes up, for `num` rounds.
unfoldable pub copy_up : ℕ → ℕ → ℕ → ℕ → Memory → Memory
copy_up zero i dst src mem = mem
copy_up (suc num) i dst src mem = copy_up num (i + 1) dst src (update mem (dst + i) (mem (src + i)))

-- A loop that copies the byte `i - 1` and goes down to 0.
unfoldable pub copy_down : ℕ → ℕ → ℕ → Memory → Memory
copy_down zero dst src mem = mem
copy_down (suc i) dst src mem = copy_down i dst src (update mem (dst + i) (mem (src + i)))

unfoldable pub memcpy : ℕ → ℕ → ℕ → Memory → Memory
memcpy dst src num mem = copy_up num 0 dst src mem

unfoldable pub memmove : ℕ → ℕ → ℕ → Memory → Memory
memmove dst src num mem =
    if ltb dst src then copy_up num 0 dst src mem else copy_down num dst src mem

unfoldable pub fill_up : ℕ → ℕ → ℕ → ℕ → Memory → Memory
fill_up zero i ptr value mem = mem
fill_up (suc num) i ptr value mem =
    fill_up num (i + 1) ptr value (update mem (ptr + i) (value % 256))

unfoldable pub memset : ℕ → ℕ → ℕ → Memory → Memory
memset ptr value num mem = fill_up num 0 ptr value mem

unfoldable pub compare_up : ℕ → ℕ → ℕ → ℕ → Memory → ℤ
compare_up zero i ptr1 ptr2 mem = pos 0
compare_up (suc num) i ptr1 ptr2 mem =
    let rest = compare_up num (i + 1) ptr1 ptr2 mem in
    if ltb (mem (ptr2 + i)) (mem (ptr1 + i))
    then pos 1
    else if ltb (mem (ptr1 + i)) (mem (ptr2 + i))
    then negsuc 0
    else rest

unfoldable pub memcmp : ℕ → ℕ → ℕ → Memory → ℤ
memcmp ptr1 ptr2 num mem = compare_up num 0 ptr1 ptr2 mem

-- A loop that looks for a byte and goes up, for `num` rounds.
unfoldable pub find_up : ℕ → ℕ → ℕ → ℕ → Memory → Option ℕ
find_up zero i ptr byte mem = none
find_up (suc num) i ptr byte mem =
    let rest = find_up num (i + 1) ptr byte mem in
    if mem (ptr + i) == byte then some (ptr + i) else rest

unfoldable pub memchr : ℕ → ℕ → ℕ → Memory → Option ℕ
memchr ptr value num mem = find_up num 0 ptr (value % 256) mem

-- `none` is a string that has no end within the fuel.
unfoldable pub strlen : ℕ → ℕ → Memory → Option ℕ
strlen zero str mem = none
strlen (suc fuel) str mem =
    let rest = strlen fuel (str + 1) mem in if mem str == 0 then some 0 else Option.map suc rest

unfoldable pub strcpy : ℕ → ℕ → ℕ → Memory → Option Memory
strcpy fuel dst src mem = Option.map (λ len. memcpy dst src (len + 1) mem) (strlen fuel src mem)

-- `strncpy` with the length of `src`.
unfoldable pub copy_padded : ℕ → ℕ → ℕ → Memory → ℕ → Memory
copy_padded dst src num mem len =
    if ltb len num
    then memset (dst + len) 0 (num - len) (memcpy dst src len mem)
    else memcpy dst src num mem

unfoldable pub strncpy : ℕ → ℕ → ℕ → ℕ → Memory → Option Memory
strncpy fuel dst src num mem = Option.map (copy_padded dst src num mem) (strlen fuel src mem)

-- The difference of two bytes.
unfoldable pub difference : ℕ → ℕ → ℤ
difference a b = if ltb a b then negsuc (b - a - 1) else pos (a - b)

unfoldable pub strcmp : ℕ → ℕ → ℕ → Memory → Option ℤ
strcmp zero str1 str2 mem = none
strcmp (suc fuel) str1 str2 mem =
    let rest = strcmp fuel (str1 + 1) (str2 + 1) mem in
    if not (mem str1 == 0) && mem str1 == mem str2
    then rest
    else some (difference (mem str1) (mem str2))

unfoldable pub strncmp : ℕ → ℕ → ℕ → ℕ → Memory → ℤ
strncmp zero i str1 str2 mem = pos 0
strncmp (suc num) i str1 str2 mem =
    let rest = strncmp num (i + 1) str1 str2 mem in
    if not (mem (str1 + i) == mem (str2 + i))
    then difference (mem (str1 + i)) (mem (str2 + i))
    else if mem (str1 + i) == 0
    then pos 0
    else rest

unfoldable pub strchr : ℕ → ℕ → ℕ → Memory → Option (Option ℕ)
strchr fuel str value mem =
    Option.map (λ len. find_up (len + 1) 0 str (value % 256) mem) (strlen fuel str mem)

-- The loop of `strrchr`: from `i` down, while `i` is not 0.
unfoldable pub find_down : ℕ → ℕ → ℕ → Memory → Option ℕ
find_down zero str byte mem = none
find_down (suc i) str byte mem =
    let rest = find_down i str byte mem in
    if mem (str + suc i) == byte then some (str + suc i) else rest

unfoldable pub strrchr : ℕ → ℕ → ℕ → Memory → Option (Option ℕ)
strrchr fuel str value mem =
    Option.map (λ len. find_down len str (value % 256) mem) (strlen fuel str mem)

-- The inner loop of `strstr`, and whether it comes to the end of what is looked for.
unfoldable pub match_here : ℕ → ℕ → ℕ → Memory → Option Bool
match_here zero h n mem = none
match_here (suc fuel) h n mem =
    let rest = match_here fuel (h + 1) (n + 1) mem in
    if not (mem h == 0) && not (mem n == 0) && mem h == mem n then rest else some (mem n == 0)

-- The outer loop.
unfoldable pub search_from : ℕ → ℕ → ℕ → Memory → Option (Option ℕ)
search_from zero str substr mem = none
search_from (suc fuel) str substr mem =
    let rest = search_from fuel (str + 1) substr mem in
    if mem str == 0
    then some none
    else Option.bind (match_here (suc fuel) str substr mem)
        (λ b. if b then some (some str) else rest)

unfoldable pub strstr : ℕ → ℕ → ℕ → Memory → Option (Option ℕ)
strstr fuel str substr mem =
    if mem substr == 0 then some (some str) else search_from fuel str substr mem
