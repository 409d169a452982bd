-- ===== src/Kalloc/Tests.antt =====
-- The allocator over the last pages of memory.
use os_labs.Prelude.{ℕ, ◌+◌, ◌-◌, ◌*◌, ◌≡◌, refl, Option, none, some, [], ◌∷◌, arith}
use os_labs.Kalloc.{page_round_up, Words, Kmem, kfree, kalloc, free_loop, kinit, fill_page}
use os_labs.Kalloc.FreeList.{IsPage, Free, Outside, Allocated, kfree-Free, kalloc-Allocated}
use os_labs.Kalloc.Range.{pages_from, page_count, kinit-Free}

-- A kernel that ends just above the third page from the end of memory.
abbrev kernel_end : ℕ
kernel_end = 0x88000000 - 3 * 4096 + 16

abbrev blank : Words
blank a = 0

abbrev two_allocs : Option (Option Kmem) → ℕ × ℕ
two_allocs none = (1, 1)
two_allocs (some none) = (2, 2)
two_allocs (some (some k)) = let (p, k) = kalloc k in let (q, k) = kalloc k in (p, (kalloc k).0 + q)

runs : two_allocs (kinit 9 kernel_end blank) ≡ (0x88000000 - 4096, 0x88000000 - 2 * 4096)
unfolding kinit free_loop kfree kalloc fill_page
runs = refl

kinit-Free_example :
    (k : Kmem) × (kinit 9 kernel_end blank ≡ some (some k))
    × Free kernel_end k (pages_from (page_round_up kernel_end) (page_count kernel_end) [])
kinit-Free_example = kinit-Free 9 kernel_end blank (omega arith) (omega arith) (omega arith)

-- No page is free.
abbrev used_up : Kmem
used_up = record { freelist = 0; words = blank }

used_up-Free : Free kernel_end used_up []
used_up-Free = record { linked = refl; pages = tt }

abbrev last_page : ℕ
last_page = 0x88000000 - 4096

last_page-IsPage : IsPage kernel_end last_page
last_page-IsPage = record { aligned = refl; low = omega arith; high = omega arith }

kfree-Free_example :
    (k : Kmem) × (kfree kernel_end last_page used_up ≡ some k)
    × Free kernel_end k (last_page ∷ [])
    × Outside last_page blank k.words
kfree-Free_example =
    kfree-Free kernel_end last_page used_up [] (omega arith) last_page-IsPage tt used_up-Free

-- Only the last page is free.
abbrev one_left : Kmem
one_left = record { freelist = last_page; words = blank }

one_left-Free : Free kernel_end one_left (last_page ∷ [])
one_left-Free = record { linked = (refl, omega arith, refl); pages = (last_page-IsPage, tt, tt) }

kalloc-Allocated_example : Allocated kernel_end one_left (last_page ∷ []) (kalloc one_left)
kalloc-Allocated_example = kalloc-Allocated kernel_end one_left (last_page ∷ []) one_left-Free
