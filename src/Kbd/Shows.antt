-- ===== src/Kbd/Shows.antt =====
-- The screen shows the line that is edited in kernel/arch/i386/Kbd.cc, with the cursor in its place.
use doors.Base.{
  All, update, ℕ, zero, suc, ◌+◌, ◌-◌, ◌≤◌, ◌<◌, ◌≡◌, refl, ap, ◌∙◌, arith, ◌&&◌, ◌==◌,
  if◌then◌else◌, ltb, leb, List, [], ◌∷◌, length, get_or,
}
use doors.Kbd.Screen.{Visible, put-Visible, Screen, put, put_all, put_blanks, blank}
use doors.Kbd.Line.{erase_at, insert_char, keep, from}

-- Behind the prompt the cells hold the line and then blanks.
pub record Shows (line : List ℕ) (pos : ℕ) (s : Screen) : Type 0 where
  pub cursor : s.col ≡ pos + 2
  pub within : pos ≤ length line
  pub cells : (i : ℕ) → s.cells (i + 2) ≡ get_or line i blank
  pub visible : All Visible line

pub All-erase_at : (n : ℕ) (xs : List ℕ) → All Visible xs → All Visible (erase_at n xs)
All-erase_at n [] v = tt
All-erase_at zero (x ∷ xs) v = v.1
All-erase_at (suc n) (x ∷ xs) v = (v.0, All-erase_at n xs v.1)

pub All-insert_char :
    (n c : ℕ) (xs : List ℕ) → Visible c → All Visible xs → All Visible (insert_char n c xs)
All-insert_char zero c xs h v = (h, v)
All-insert_char (suc n) c [] h v = (h, tt)
All-insert_char (suc n) c (x ∷ xs) h v = (v.0, All-insert_char n c xs h v.1)

pub All-keep : (n : ℕ) (xs : List ℕ) → All Visible xs → All Visible (keep n xs)
All-keep zero xs v = tt
All-keep (suc n) [] v = tt
All-keep (suc n) (x ∷ xs) v = (v.0, All-keep n xs v.1)

pub All-from : (n : ℕ) (xs : List ℕ) → All Visible xs → All Visible (from n xs)
All-from zero xs v = v
All-from (suc n) [] v = tt
All-from (suc n) (x ∷ xs) v = All-from n xs v.1

pub get_or-cons :
    (x m : ℕ) (xs : List ℕ)
    → get_or (x ∷ xs) m blank ≡ (if m == 0 then x else get_or xs (m - 1) blank)
get_or-cons x zero xs = refl
get_or-cons x (suc m) xs = ground arith

pub get_or-erase_at :
    (n i : ℕ) (xs : List ℕ)
    → get_or (erase_at n xs) i blank
      ≡ (if ltb i n then get_or xs i blank else get_or xs (i + 1) blank)
get_or-erase_at n i [] = ground arith
get_or-erase_at zero i (x ∷ xs) = ground arith
get_or-erase_at (suc n) zero (x ∷ xs) = ground arith
get_or-erase_at (suc n) (suc i) (x ∷ xs) = ground (arith, get_or-erase_at n i xs)

pub length-erase_at :
    (n : ℕ) (xs : List ℕ) → n < length xs → suc (length (erase_at n xs)) ≡ length xs
length-erase_at n [] h = absurd (omega arith)
length-erase_at zero (x ∷ xs) h = refl
length-erase_at (suc n) (x ∷ xs) h = ap suc (length-erase_at n xs (omega arith))

pub get_or-insert_char :
    (n c i : ℕ) (xs : List ℕ)
    → n ≤ length xs
    → get_or (insert_char n c xs) i blank
      ≡ (if ltb i n then get_or xs i blank else if i == n then c else get_or xs (i - 1) blank)
get_or-insert_char zero c zero xs h = refl
get_or-insert_char zero c (suc i) xs h = ground arith
get_or-insert_char (suc n) c i [] h = absurd (omega arith)
get_or-insert_char (suc n) c zero (x ∷ xs) h = ground arith
get_or-insert_char (suc n) c (suc i) (x ∷ xs) h =
    let e : suc i - 1 ≡ i = omega arith in
    ground (arith, e, h, get_or-insert_char n c i xs (omega arith), get_or-cons x i xs)

pub length-insert_char :
    (n c : ℕ) (xs : List ℕ) → n ≤ length xs → length (insert_char n c xs) ≡ suc (length xs)
length-insert_char zero c xs h = refl
length-insert_char (suc n) c [] h = absurd (omega arith)
length-insert_char (suc n) c (x ∷ xs) h = ap suc (length-insert_char n c xs (omega arith))

pub get_or-keep :
    (n i : ℕ) (xs : List ℕ)
    → get_or (keep n xs) i blank ≡ (if ltb i n then get_or xs i blank else blank)
get_or-keep zero i xs = ground arith
get_or-keep (suc n) i [] = ground arith
get_or-keep (suc n) zero (x ∷ xs) = ground arith
get_or-keep (suc n) (suc i) (x ∷ xs) = ground (arith, get_or-keep n i xs)

pub length-keep : (n : ℕ) (xs : List ℕ) → n ≤ length xs → length (keep n xs) ≡ n
length-keep zero xs h = refl
length-keep (suc n) [] h = absurd (omega arith)
length-keep (suc n) (x ∷ xs) h = ap suc (length-keep n xs (omega arith))

pub get_or-from : (n i : ℕ) (xs : List ℕ) → get_or (from n xs) i blank ≡ get_or xs (n + i) blank
get_or-from zero i xs = let e : i ≡ 0 + i = omega arith in ap (λ k. get_or xs k blank) e
get_or-from (suc n) i [] = refl
get_or-from (suc n) i (x ∷ xs) =
    let e : suc (n + i) ≡ suc n + i = omega arith in
    get_or-from n i xs ∙ ap (λ k. get_or (x ∷ xs) k blank) e

pub length-from : (n : ℕ) (xs : List ℕ) → length (from n xs) ≡ length xs - n
length-from zero xs = omega arith
length-from (suc n) [] = omega arith
length-from (suc n) (x ∷ xs) = omega (arith, length-from n xs)

-- A cell after characters are printed.
pub put_all_lem :
    (cs : List ℕ) (s : Screen)
    → All Visible cs
    → ((put_all cs s).col ≡ s.col + length cs)
      × ((j : ℕ)
          → (put_all cs s).cells j ≡ (
              if leb s.col j && ltb j (s.col + length cs)
              then get_or cs (j - s.col) blank
              else s.cells j))
unfolding put_all
put_all_lem [] s v = (omega arith, λ j. ground arith)
put_all_lem (c ∷ cs) s v =
    let q : Screen = record { cells = update s.cells s.col c; col = s.col + 1 } in
    let e : put c s ≡ q = put-Visible c s v.0 in
    let r = put_all_lem cs q v.1 in
    rw (e, put_all) (omega (arith, r.0), λ j. r.1 j ∙ ground (arith, get_or-cons c (j - s.col) cs))

pub put_blanks_lem :
    (n : ℕ) (s : Screen)
    → ((put_blanks n s).col ≡ s.col + n)
      × ((j : ℕ)
          → (put_blanks n s).cells j
            ≡ (if leb s.col j && ltb j (s.col + n) then blank else s.cells j))
unfolding put_blanks put
put_blanks_lem zero s = (omega arith, λ j. ground arith)
put_blanks_lem (suc n) s =
    let r = put_blanks_lem n (put blank s) in (omega (arith, r.0), λ j. r.1 j ∙ ground arith)
