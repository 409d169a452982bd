-- ===== src/Kalloc.antt =====
-- kernel/kalloc.c: the allocator of physical pages. Memory is seen as its 64-bit words, at the
-- multiples of eight; a free page holds the address of the next one in its first word.
pub mod FreeList
pub mod Range
mod Tests
use os_labs.Prelude.{
  ℕ, zero, suc, ◌+◌, ◌-◌, ◌*◌, ◌/◌, ◌%◌, ◌^◌, Bool, true, false, not, ◌&&◌, ◌||◌, Option, none,
  some, ltb, leb, ◌==◌, if◌then◌else◌, update,
}

-- PGSIZE, and PHYSTOP of kernel/memlayout.h.
abbrev pub page_size : ℕ
page_size = 4096

abbrev pub phys_stop : ℕ
phys_stop = 0x88000000

-- PGROUNDUP
abbrev pub page_round_up : ℕ → ℕ
page_round_up sz = (sz + page_size - 1) / page_size * page_size

abbrev pub Words : Type 0
Words = ℕ → ℕ

-- `kmem`, with the memory that it manages.
pub record Kmem : Type 0 where
  pub freelist : ℕ
  pub words : Words

-- `memset(pa, c, PGSIZE)`: `v` is the word of eight bytes `c`.
unfoldable pub fill_page : (pa v : ℕ) → Words → Words
fill_page pa v words a = if leb pa a && ltb a (pa + page_size) then v else words a

abbrev pub free_junk : ℕ
free_junk = 0x0101010101010101

abbrev pub alloc_junk : ℕ
alloc_junk = 0x0505050505050505

-- `kfree(pa)`; `end` is the first address after the kernel. `none` is its panic.
unfoldable pub kfree : (end pa : ℕ) → Kmem → Option Kmem
kfree end pa k =
    if not (pa % page_size == 0) || ltb pa end || leb phys_stop pa
    then none
    else let words = fill_page pa free_junk k.words in
      some (record { freelist = pa; words = update words pa k.freelist })

-- `kalloc()`: the page, or 0.
unfoldable pub kalloc : Kmem → ℕ × Kmem
kalloc k =
    let r = k.freelist in
    if r == 0
    then (0, k)
    else (r, record { freelist = k.words r; words = fill_page r alloc_junk k.words })

-- The loop of `freerange`, with fuel; the outer `none` means that it ran out.
unfoldable pub free_loop : (fuel end p stop : ℕ) → Kmem → Option (Option Kmem)
free_loop zero end p stop k = none
free_loop (suc fuel) end p stop k = elim (leb (p + page_size) stop) [
  | false ↦ some (some k)
  | true ↦ elim (kfree end p k) [
    | none ↦ some none
    | some k ↦ free_loop fuel end (p + page_size) stop k
  ]
]

unfoldable pub freerange : (fuel end start stop : ℕ) → Kmem → Option (Option Kmem)
freerange fuel end start stop k = free_loop fuel end (page_round_up start) stop k

-- `kinit`: `kmem` is a static variable.
unfoldable pub kinit : (fuel end : ℕ) → Words → Option (Option Kmem)
unfolding freerange
kinit fuel end words = freerange fuel end end phys_stop (record { freelist = 0; words = words })
