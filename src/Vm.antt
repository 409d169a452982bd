-- ===== src/Vm.antt =====
-- kernel/vm.c: Sv39 page tables in the physical memory of kernel/kalloc.c. A page table is the address
-- of its page.
pub mod Entry
pub mod Space
pub mod Grow
pub mod Walk
pub mod Page
pub mod Map
pub mod Create
pub mod Translate
mod Tests
pub mod User
pub mod Bytes
pub mod Copy
pub mod Strings
use os_labs.Prelude.{
  ℕ, zero, suc, ◌+◌, ◌-◌, ◌*◌, ◌/◌, ◌%◌, ◌^◌, Bool, true, false, not, ◌&&◌, ◌||◌, Option, none,
  some, ltb, leb, ◌==◌, if◌then◌else◌, update,
}
use os_labs.Kalloc.{page_size, Kmem, fill_page, kalloc}
use os_labs.Panic.{Run, done, panics, out_of_fuel, ◌>>=◌}
use os_labs.Vm.Entry.{
  max_va, page_round_down, px, is_valid, table_entry, leaf_entry, pte2pa, is_user,
}

-- `memset(page, 0, PGSIZE)`
abbrev pub zero_page : ℕ → Kmem → Kmem
zero_page page k = record k { words = fill_page page 0 k.words }

abbrev pub set_word : ℕ → ℕ → Kmem → Kmem
set_word a v k = record k { words = update k.words a v }

-- `&pagetable[i]`
abbrev pub slot : (pagetable i : ℕ) → ℕ
slot pagetable i = pagetable + 8 * i

-- The table below an entry; `none` where it is missing, and not or not successfully allocated.
unfoldable pub walk_step : (alloc : Bool) → (pagetable i : ℕ) → Kmem → Option ℕ × Kmem
walk_step alloc pagetable i k =
    let pte = k.words (slot pagetable i) in
    if is_valid pte
    then (some (pte2pa pte), k)
    else if not alloc
    then (none, k)
    else let (page, k') = kalloc k in
      if page == 0
      then (none, k')
      else (some page, set_word (slot pagetable i) (table_entry page) (zero_page page k'))

-- The loop of `walk`, from `level` down to 0.
unfoldable pub walk_loop : (alloc : Bool) → (level pagetable va : ℕ) → Kmem → Option ℕ × Kmem
walk_loop alloc zero pagetable va k = (some (slot pagetable (px 0 va)), k)
walk_loop alloc (suc level) pagetable va k =
    let (next, k) = walk_step alloc pagetable (px (suc level) va) k in
    elim next [ none ↦ (none, k) | some pagetable ↦ walk_loop alloc level pagetable va k ]

-- `walk`: the address of the entry, or `none` for 0.
unfoldable pub walk : (alloc : Bool) → (pagetable va : ℕ) → Kmem → Run (Option ℕ × Kmem)
walk alloc pagetable va k =
    if leb max_va va then panics else done (walk_loop alloc 2 pagetable va k)

-- `walkaddr`, with 0 for what is not mapped to users.
unfoldable pub walkaddr : (pagetable va : ℕ) → Kmem → ℕ
walkaddr pagetable va k = if leb max_va va then 0 else elim (walk_loop false 2 pagetable va k).0 [
  | none ↦ 0
  | some a ↦
      let pte = k.words a in
      if not (is_valid pte) then 0 else if not (is_user pte) then 0 else pte2pa pte
]

-- What a round of the loop of `mappages` does with the entry: false where it returns -1.
abbrev pub write_entry : (pa perm : ℕ) → Option ℕ × Kmem → Run (Bool × Kmem)
write_entry pa perm (none, k) = done (false, k)
write_entry pa perm (some at, k) =
    if is_valid (k.words at) then panics else done (true, set_word at (leaf_entry pa perm) k)

unfoldable pub map_page : (pagetable a pa perm : ℕ) → Kmem → Run (Bool × Kmem)
map_page pagetable a pa perm k = walk true pagetable a k >>= write_entry pa perm

unfoldable pub map_loop : (fuel pagetable a last pa perm : ℕ) → Kmem → Run (Bool × Kmem)
map_loop zero pagetable a last pa perm k = out_of_fuel
map_loop (suc fuel) pagetable a last pa perm k = do
  (mapped, k') ← map_page pagetable a pa perm k
  if not mapped
      then done (false, k')
      else if a == last
      then done (true, k')
      else map_loop fuel pagetable ((a + page_size) % 2 ^ 64) last ((pa + page_size) % 2 ^ 64) perm
          k'

-- `mappages`: 0 is true, and -1 false.
unfoldable pub mappages : (fuel pagetable va size pa perm : ℕ) → Kmem → Run (Bool × Kmem)
mappages fuel pagetable va size pa perm k =
    if size == 0
    then panics
    else map_loop fuel pagetable (page_round_down va)
        (page_round_down ((va + size + 2 ^ 64 - 1) % 2 ^ 64)) pa perm k

-- `kvmmap`
unfoldable pub kvmmap : (fuel kpgtbl va pa sz perm : ℕ) → Kmem → Run Kmem
kvmmap fuel kpgtbl va pa sz perm k = do
  (mapped, k') ← mappages fuel kpgtbl va sz pa perm k
  if mapped then done k' else panics
