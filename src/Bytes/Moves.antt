-- ===== src/Bytes/Moves.antt =====
-- What the loops of libc++/string/memcpy.cc, memmove.cc, memset.cc and strncpy.cc leave in memory.
use doors.Base.{
  ℕ, zero, suc, ◌+◌, ◌-◌, ◌%◌, ◌≤◌, ◌≡◌, ◌⊎◌, ◌∙◌, ap, arith, Bool, ◌&&◌, if◌then◌else◌, ltb, leb,
  update, Bool-cases, inl, inr, ltb→lt,
}
use doors.Bytes.{Memory, copy_up, copy_down, fill_up, memcpy, memmove, memset, copy_padded}

-- The address is one of the `num` from `ptr` on.
abbrev pub within : ℕ → ℕ → ℕ → Bool
within ptr num a = leb ptr a && ltb a (ptr + num)

-- The memory after all the bytes are copied at once.
abbrev pub moved : ℕ → ℕ → ℕ → Memory → Memory
moved dst src num mem a = if within dst num a then mem (src + (a - dst)) else mem a

copy_down-moved :
    (num dst src : ℕ) (mem : Memory) (a : ℕ)
    → src ≤ dst
    → copy_down num dst src mem a ≡ moved dst src num mem a
unfolding copy_down
copy_down-moved zero dst src mem a h = ground arith
copy_down-moved (suc i) dst src mem a h =
    copy_down-moved i dst src (update mem (dst + i) (mem (src + i))) a h ∙ ground arith

-- From the round `i` on; the bytes to read are not among those written before them.
copy_up-moved :
    (num i dst src : ℕ) (mem : Memory) (a : ℕ)
    → (dst ≤ src) ⊎ (src + i + num ≤ dst)
    → copy_up num i dst src mem a ≡ moved (dst + i) (src + i) num mem a
unfolding copy_up
copy_up-moved zero i dst src mem a h = ground arith
copy_up-moved (suc num) i dst src mem a h =
    copy_up-moved num (i + 1) dst src (update mem (dst + i) (mem (src + i))) a (omega (arith, h))
    ∙ ground (arith, h)

fill_up_lem :
    (num i ptr value : ℕ) (mem : Memory) (a : ℕ)
    → fill_up num i ptr value mem a ≡ (if within (ptr + i) num a then value % 256 else mem a)
unfolding fill_up
fill_up_lem zero i ptr value mem a = ground arith
fill_up_lem (suc num) i ptr value mem a =
    fill_up_lem num (i + 1) ptr value (update mem (ptr + i) (value % 256)) a ∙ ground arith

memcpy-moved :
    (dst src num : ℕ) (mem : Memory) (a : ℕ)
    → (dst ≤ src) ⊎ (src + num ≤ dst)
    → memcpy dst src num mem a ≡ moved dst src num mem a
unfolding memcpy
memcpy-moved dst src num mem a h =
    copy_up-moved num 0 dst src mem a (omega (arith, h)) ∙ ground arith

-- For any two addresses, however the two ranges overlap, and any number of bytes, each byte of
-- memory after memmove is what it is if all the bytes were copied at once: those of the target
-- hold what the source held before, and the others are as before.
pub memmove-moved :
    (dst src num : ℕ) (mem : Memory) (a : ℕ) → memmove dst src num mem a ≡ moved dst src num mem a
unfolding memmove copy_up memcpy
memmove-moved dst src num mem a = elim (Bool-cases (ltb dst src)) [
  | inl e ↦ rw (e, memmove) (memcpy-moved dst src num mem a (inl (omega (arith, ltb→lt dst src e))))
  | inr e ↦ rw (e, memmove) (copy_down-moved num dst src mem a (ground arith))
]

-- The memory after the string of `len` bytes is copied at once and padded with zeros up to `num`.
abbrev pub padded : ℕ → ℕ → ℕ → ℕ → Memory → Memory
padded dst src num len mem a =
    if within dst num a then (if ltb (a - dst) len then mem (src + (a - dst)) else 0) else mem a

pub copy_padded-padded :
    (dst src num len : ℕ) (mem : Memory) (a : ℕ)
    → (dst ≤ src) ⊎ (src + num ≤ dst)
    → copy_padded dst src num mem len a ≡ padded dst src num len mem a
unfolding copy_padded memset
copy_padded-padded dst src num len mem a h = elim (Bool-cases (ltb len num)) [
  | inl e ↦
      let l = ltb→lt len num e in
      let c = memcpy-moved dst src len mem a (omega (arith, h, l)) in
      let f = fill_up_lem (num - len) 0 (dst + len) 0 (memcpy dst src len mem) a in
      rw (e, copy_padded, memset)
        (f
          ∙ ap (λ v. if within (dst + len + 0) (num - len) a then 0 % 256 else v) c
          ∙ ground (arith, l))
  | inr e ↦ rw (e, copy_padded) (memcpy-moved dst src num mem a h ∙ ground (arith, e))
]
