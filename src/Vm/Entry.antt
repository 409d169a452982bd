-- ===== src/Vm/Entry.antt =====
-- The page-table entries of kernel/riscv.h: ten flags below the number of a physical page.
use os_labs.Prelude.{
  ℕ, ◌+◌, ◌*◌, ◌/◌, ◌%◌, ◌^◌, ◌<◌, ◌≡◌, Bool, true, not, ◌==◌, if◌then◌else◌, arith,
}
use os_labs.Kalloc.{page_size, phys_stop}

-- MAXVA
abbrev pub max_va : ℕ
max_va = 2 ^ 38

-- PGROUNDDOWN
abbrev pub page_round_down : ℕ → ℕ
page_round_down a = a / page_size * page_size

-- PX(level, va)
abbrev pub px : (level va : ℕ) → ℕ
px level va = va / 2 ^ (12 + 9 * level) % 512

abbrev pub flag : ℕ → ℕ → Bool
flag bit pte = pte / bit % 2 == 1

-- PTE_V, PTE_U, and whether one of PTE_R, PTE_W and PTE_X is set.
abbrev pub is_valid : ℕ → Bool
is_valid pte = pte % 2 == 1

abbrev pub is_user : ℕ → Bool
is_user pte = flag 16 pte

abbrev pub is_leaf : ℕ → Bool
is_leaf pte = not (pte / 2 % 8 == 0)

-- PTE_FLAGS
abbrev pub pte_flags : ℕ → ℕ
pte_flags pte = pte % 1024

-- PA2PTE and PTE2PA
abbrev pub pa2pte : ℕ → ℕ
pa2pte pa = pa / 4096 * 1024

abbrev pub pte2pa : ℕ → ℕ
pte2pa pte = pte / 1024 * 4096 % 2 ^ 64

-- `PA2PTE(pagetable) | PTE_V`
abbrev pub table_entry : ℕ → ℕ
table_entry page = pa2pte page + 1

-- `PA2PTE(pa) | perm | PTE_V`, with flags for `perm`.
abbrev pub leaf_entry : (pa perm : ℕ) → ℕ
leaf_entry pa perm = pa2pte pa + (if perm % 2 == 0 then perm + 1 else perm)

-- The address that an entry was made for comes back.
pub pte2pa-table_entry :
    (page : ℕ) → page % page_size ≡ 0 → page < phys_stop → pte2pa (table_entry page) ≡ page
pte2pa-table_entry page al lt = omega (arith, al, lt)

pub pte2pa-leaf_entry :
    (pa perm : ℕ)
    → pa % page_size ≡ 0
    → pa < 2 ^ 56
    → perm < 1024
    → pte2pa (leaf_entry pa perm) ≡ pa
pte2pa-leaf_entry pa perm al lt h = ground (arith, al, lt, h)

pub is_valid-leaf_entry : (pa perm : ℕ) → is_valid (leaf_entry pa perm) ≡ true
is_valid-leaf_entry pa perm = ground arith
