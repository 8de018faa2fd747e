-- ===== src/Paging/Mirror.antt =====
-- `mirrorHigherHalf` of kernel/arch/i386/Paging.cc, with the words that it writes past the end of the
-- directory.
use doors.Base.{
  ℕ, zero, suc, ◌+◌, ◌-◌, ◌/◌, ◌*◌, ◌%◌, ◌<◌, ◌≤◌, ◌≡◌, sym, ap, ◌∙◌, arith, ◌&&◌, if◌then◌else◌,
  ◌==◌, ltb, leb,
}
use doors.Pmm.{page_size}
use doors.Paging.{Paging, write_word}
use doors.Paging.Boot.{write_dir_word, mirror_higher_half}
use doors.Paging.Flags.{page_addr, pde_count, higher_half_pde}

-- Word `k` of what starts at `dir`.
abbrev pub dir_word : Paging → ℕ → ℕ → ℕ
dir_word s dir k = s.mem (dir + k / pde_count * page_size) (k % pde_count)

dir_word-write :
    (dir k v j : ℕ) (s : Paging)
    → dir_word (write_dir_word dir k v s) dir j ≡ (if j == k then v else dir_word s dir j)
unfolding write_dir_word write_word
dir_word-write dir k v j s = ground arith

dir_word-low : (i dir : ℕ) (s : Paging) → i < pde_count → dir_word s dir i ≡ s.mem dir i
dir_word-low i dir s h =
    let a : dir + i / pde_count * page_size ≡ dir = omega arith in
    let r : i % pde_count ≡ i = omega arith in
    ap (λ x. s.mem x (i % pde_count)) a ∙ ap (s.mem dir) r

-- What `n` rounds from `i` on leave in word `j`.
abbrev pub mirrored : ℕ → ℕ → Paging → ℕ → ℕ → ℕ
mirrored n i s dir j =
    if leb (higher_half_pde + i) j && ltb j (higher_half_pde + i + n)
    then page_addr (dir_word s dir (j - higher_half_pde)) + 3
    else dir_word s dir j

dir_word-mirror :
    (n i dir j : ℕ) (s : Paging)
    → i + n ≤ higher_half_pde
    → dir_word (mirror_higher_half n i dir s) dir j ≡ mirrored n i s dir j
unfolding mirror_higher_half
dir_word-mirror zero i dir j s h = ground arith
dir_word-mirror (suc n) i dir j s h =
    let v = page_addr (s.mem dir i) + 3 in
    let t = write_dir_word dir (higher_half_pde + i) v s in
    dir_word-mirror n (suc i) dir j t (omega arith)
    ∙ ground (
      arith,
      h,
      dir_word-low i dir s (omega arith),
      dir_word-write dir (higher_half_pde + i) v j s,
      dir_word-write dir (higher_half_pde + i) v (j - higher_half_pde) s,
    )

-- Up to 256 tables are mirrored within the directory, whose other words stay.
pub mirror_higher_half-mirrors :
    (n dir j : ℕ) (s : Paging)
    → n ≤ 256
    → j < pde_count
    → (mirror_higher_half n 0 dir s).mem dir j ≡ (
        if leb higher_half_pde j && ltb j (higher_half_pde + n)
        then page_addr (s.mem dir (j - higher_half_pde)) + 3
        else s.mem dir j)
mirror_higher_half-mirrors n dir j s h k =
    sym (dir_word-low j dir (mirror_higher_half n 0 dir s) k)
    ∙ dir_word-mirror n 0 dir j s (omega arith)
    ∙ ground (arith, dir_word-low j dir s k, dir_word-low (j - higher_half_pde) dir s (omega arith))

-- For more than 256 and up to 768 tables mirrorHigherHalf writes past the directory: word j of the
-- frame behind it becomes the entry of table 256 + j, for each j below 512 with 256 + j below the
-- number of tables.
pub mirror_higher_half-overruns :
    (n dir j : ℕ) (s : Paging)
    → n ≤ higher_half_pde
    → 256 + j < n
    → j < 512
    → (mirror_higher_half n 0 dir s).mem (dir + page_size) j ≡ page_addr (s.mem dir (256 + j)) + 3
mirror_higher_half-overruns n dir j s h k l =
    let a : dir + (pde_count + j) / pde_count * page_size ≡ dir + page_size = omega arith in
    let r : (pde_count + j) % pde_count ≡ j = omega arith in
    let w = ap (λ x. (mirror_higher_half n 0 dir s).mem x j) a in
    let v =
      ap ((mirror_higher_half n 0 dir s).mem (dir + (pde_count + j) / pde_count * page_size)) r in
    sym w
    ∙ sym v
    ∙ dir_word-mirror n 0 dir (pde_count + j) s (omega arith)
    ∙ ground (arith, k, dir_word-low (256 + j) dir s (omega arith))
