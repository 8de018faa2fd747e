-- ===== src/Paging/Flags.antt =====
-- The entries of page directories and page tables, kernel/include/arch/i386/Paging.h: the flags in
-- the bits below 12, the address above them, and the two indices of an address.
use doors.Base.{ℕ, ◌+◌, ◌-◌, ◌/◌, ◌*◌, ◌%◌, Bool, ◌==◌, if◌then◌else◌}
use doors.Pmm.{page_size}

abbrev pub pde_size : ℕ
pde_size = 4194304

abbrev pub pte_count : ℕ
pte_count = 1024

abbrev pub pde_count : ℕ
pde_count = 1024

abbrev pub higher_half_pde : ℕ
higher_half_pde = 768

abbrev pub trampoline_vaddr : ℕ
trampoline_vaddr = 0xBF000000

-- `w & PAGE_PRESENT`, and the other flags.
abbrev pub is_present : ℕ → Bool
is_present w = w % 2 == 1

abbrev pub is_rw : ℕ → Bool
is_rw w = (w / 2) % 2 == 1

abbrev pub is_user : ℕ → Bool
is_user w = (w / 4) % 2 == 1

abbrev pub is_cow : ℕ → Bool
is_cow w = (w / 512) % 2 == 1

-- `w & PAGE_ADDR_MASK` and `w & ~PAGE_ADDR_MASK`
abbrev pub page_addr : ℕ → ℕ
page_addr w = w / page_size * page_size

abbrev pub page_flags : ℕ → ℕ
page_flags w = w % page_size

-- `w | PAGE_RW`, `w | PAGE_USER`, `w | PAGE_COW`, `w & ~PAGE_RW` and `w & ~PAGE_COW`
abbrev pub set_rw : ℕ → ℕ
set_rw w = if is_rw w then w else w + 2

abbrev pub set_user : ℕ → ℕ
set_user w = if is_user w then w else w + 4

abbrev pub set_cow : ℕ → ℕ
set_cow w = if is_cow w then w else w + 512

abbrev pub clear_rw : ℕ → ℕ
clear_rw w = if is_rw w then w - 2 else w

abbrev pub clear_cow : ℕ → ℕ
clear_cow w = if is_cow w then w - 512 else w

abbrev pub pde_idx : ℕ → ℕ
pde_idx virt = virt / pde_size

abbrev pub pte_idx : ℕ → ℕ
pte_idx virt = virt % pde_size / page_size
