-- ===== src/Numbers/Tests.antt =====
-- Runs of libc++/stdlib's numbers, and the theorems about them at concrete inputs.
use doors.Base.{ℕ, ◌≡◌, refl, arith, true, false, List, [], ◌∷◌, some, negsuc, inl, inr}
use doors.Numbers.{
  utos, itos, strtoull, strtoll, strtol, strtoul, atoi, print_digits, digit_char, to_int64, low32,
  is_negative, read_digits, action, digit_value,
}
use doors.Numbers.RoundTrip.{strtoull-utos, strtol-itos}

-- `utos` prints 255 in base 16 as `FF`, and reading it gives 255.
strtoull-utos_example :
    (str : List ℕ) × (utos 8 255 16 true ≡ some str) × (strtoull str 16 ≡ (255, []))
strtoull-utos_example =
    strtoull-utos 8 255 16 true (omega arith, inr refl) (omega arith) (omega arith)

strtol-itos_example :
    (str : List ℕ) × (itos 32 (negsuc 41) 10 false ≡ some str)
    × (strtoll str 10 ≡ negsuc 41)
    × (strtol str 10 ≡ negsuc 41)
strtol-itos_example =
    strtol-itos (negsuc 41) 10 false (omega arith, inl (omega arith)) (omega arith)

prints_base_16 : utos 32 255 16 true ≡ some (0x46 ∷ 0x46 ∷ [])
unfolding utos print_digits digit_char
prints_base_16 = refl

-- Text `-42`.
abbrev minus_42 : List ℕ
minus_42 = 0x2D ∷ 0x34 ∷ 0x32 ∷ []

prints_minus : itos 32 (negsuc 41) 10 false ≡ some minus_42
unfolding itos utos print_digits digit_char
prints_minus = refl

reads_minus : atoi minus_42 ≡ negsuc 41
unfolding strtol strtoll to_int64 low32 is_negative strtoull read_digits action digit_value
reads_minus = refl

-- `0x1F` with the base left to the text.
detects_base_16 : strtoull (0x30 ∷ 0x78 ∷ 0x31 ∷ 0x46 ∷ []) 0 ≡ (31, [])
unfolding strtoull read_digits action digit_value
detects_base_16 = refl

-- A minus between two digits is passed over: `1-2` is read as 12.
sign_inside : strtoull (0x31 ∷ 0x2D ∷ 0x32 ∷ []) 10 ≡ (12, [])
unfolding strtoull read_digits action digit_value
sign_inside = refl

-- The digit 9 is taken in base 8.
digit_beyond_base : strtoul (0x39 ∷ []) 8 ≡ 9
unfolding strtoul strtoull read_digits action digit_value
digit_beyond_base = refl
