-- ===== src/Vm/User.antt =====
-- The memory of processes in kernel/vm.c: growing, shrinking, copying and freeing it.
use os_labs.Prelude.{
  ℕ, zero, suc, ◌+◌, ◌-◌, ◌*◌, ◌/◌, ◌%◌, Bool, true, false, not, ◌&&◌, none, some, ltb, leb, ◌==◌,
  if◌then◌else◌,
}
use os_labs.Kalloc.{page_size, phys_stop, page_round_up, Words, Kmem, kalloc, kfree}
use os_labs.Vm.{zero_page, set_word, slot, walk, mappages, kvmmap}
use os_labs.Panic.{Run, done, panics, out_of_fuel, ◌>>=◌}
use os_labs.Vm.Entry.{max_va, is_valid, is_leaf, pte_flags, pte2pa}

-- `kfree`, where `end` is the end of the kernel.
abbrev free_page : (end pa : ℕ) → Kmem → Run Kmem
free_page end pa k = elim (kfree end pa k) [ none ↦ panics | some k ↦ done k ]

-- A round of the loop of `uvmunmap`.
unfoldable pub unmap_page : (end pagetable a : ℕ) → (do_free : Bool) → Kmem → Run Kmem
unmap_page end pagetable a do_free k = do
  (found, k') ← walk false pagetable a k
  elim found [
    | none ↦ panics
    | some at ↦
        let pte = k'.words at in
        if not (is_valid pte) then panics else if pte_flags pte == 1 then panics else do
          k'' ← if do_free then free_page end (pte2pa pte) k' else done k'
          done (set_word at 0 k'')
  ]

-- The loop, over the pages that are left; `va + npages * PGSIZE` does not wrap.
unfoldable pub unmap_loop : (end pagetable left a : ℕ) → (do_free : Bool) → Kmem → Run Kmem
unmap_loop end pagetable zero a do_free k = done k
unmap_loop end pagetable (suc left) a do_free k = do
  k' ← unmap_page end pagetable a do_free k
  unmap_loop end pagetable left (a + page_size) do_free k'

unfoldable pub uvmunmap : (end pagetable va npages : ℕ) → (do_free : Bool) → Kmem → Run Kmem
uvmunmap end pagetable va npages do_free k =
    if not (va % page_size == 0) then panics else unmap_loop end pagetable npages va do_free k

-- `uvmcreate`: the page table, or 0.
unfoldable pub uvmcreate : Kmem → ℕ × Kmem
uvmcreate k =
    let (pagetable, k') = kalloc k in
    if pagetable == 0 then (0, k') else (pagetable, zero_page pagetable k')

-- `uvmfirst` of `sz` bytes, which `fill` puts into the page that is given. The answer of
-- `mappages` is dropped.
unfoldable pub uvmfirst : (fill : ℕ → Words → Words) → (pagetable sz : ℕ) → Kmem → Run Kmem
uvmfirst fill pagetable sz k =
    if leb page_size sz
    then panics
    else let (mem, k') = kalloc k in
      do
        (mapped, k'') ← mappages 1 pagetable 0 page_size mem 0x1e (zero_page mem k')
        done (record k'' { words = fill mem k''.words })

-- `uvmdealloc`: the new size.
unfoldable pub uvmdealloc : (end pagetable oldsz newsz : ℕ) → Kmem → Run (ℕ × Kmem)
uvmdealloc end pagetable oldsz newsz k =
    if leb oldsz newsz
    then done (oldsz, k)
    else if ltb (page_round_up newsz) (page_round_up oldsz)
    then (uvmunmap end pagetable (page_round_up newsz)
          ((page_round_up oldsz - page_round_up newsz) / page_size) true k
        >>= λ k'. done (newsz, k'))
    else done (newsz, k)

-- A round of the loop of `uvmalloc`: false where the page cannot be had or mapped.
unfoldable pub alloc_page : (end pagetable a xperm : ℕ) → Kmem → Run (Bool × Kmem)
alloc_page end pagetable a xperm k =
    let (mem, k') = kalloc k in
    if mem == 0 then done (false, k') else do
      (mapped, k'') ← mappages 1 pagetable a page_size mem (0x12 + xperm) (zero_page mem k')
      if mapped then done (true, k'') else do freed ← free_page end mem k''; done (false, freed)

-- The loop of `uvmalloc` from page `a` on, which undoes its work if it fails.
unfoldable pub alloc_loop : (end pagetable oldsz newsz xperm left a : ℕ) → Kmem → Run (ℕ × Kmem)
alloc_loop end pagetable oldsz newsz xperm zero a k = done (newsz, k)
alloc_loop end pagetable oldsz newsz xperm (suc left) a k = do
  (more, k') ← alloc_page end pagetable a xperm k
  if more
      then alloc_loop end pagetable oldsz newsz xperm left (a + page_size) k'
      else do (_, undone) ← uvmdealloc end pagetable a oldsz k'; done (0, undone)

-- `uvmalloc`, with `xperm` one of the flags PTE_W and PTE_X or both: the new size, or 0.
unfoldable pub uvmalloc : (end pagetable oldsz newsz xperm : ℕ) → Kmem → Run (ℕ × Kmem)
uvmalloc end pagetable oldsz newsz xperm k =
    if ltb newsz oldsz
    then done (oldsz, k)
    else let old = page_round_up oldsz in
      alloc_loop end pagetable old newsz xperm ((newsz + page_size - 1 - old) / page_size) old k

-- The loop of `freewalk` over entry `i` and those that follow; `below` frees a table one level down.
unfoldable pub freewalk_loop :
    (below : ℕ → Kmem → Run Kmem) → (pagetable left i : ℕ) → Kmem → Run Kmem
freewalk_loop below pagetable zero i k = done k
freewalk_loop below pagetable (suc left) i k =
    let pte = k.words (slot pagetable i) in
    if is_valid pte && not (is_leaf pte)
    then (below (pte2pa pte) k >>= λ k'.
        freewalk_loop below pagetable left (i + 1) (set_word (slot pagetable i) 0 k'))
    else if is_valid pte
    then panics
    else freewalk_loop below pagetable left (i + 1) k

-- `freewalk`, for a table of at most `depth` levels.
unfoldable pub freewalk : (end depth pagetable : ℕ) → Kmem → Run Kmem
freewalk end zero pagetable k = out_of_fuel
freewalk end (suc depth) pagetable k = do
  k' ← freewalk_loop (freewalk end depth) pagetable 512 0 k
  free_page end pagetable k'

unfoldable pub uvmfree : (end pagetable sz : ℕ) → Kmem → Run Kmem
uvmfree end pagetable sz k = do
  k' ← if ltb 0 sz then uvmunmap end pagetable 0 (page_round_up sz / page_size) true k else done k
  freewalk end 3 pagetable k'

-- `memmove(mem, pa, PGSIZE)`
unfoldable pub copy_page : (mem pa : ℕ) → Words → Words
copy_page mem pa words a =
    if leb mem a && ltb a (mem + page_size) then words (pa + (a - mem)) else words a

-- A round of the loop of `uvmcopy`: false where the page cannot be had or mapped.
unfoldable pub copy_user_page : (end old new i : ℕ) → Kmem → Run (Bool × Kmem)
copy_user_page end old new i k = do
  (found, k') ← walk false old i k
  elim found [
    | none ↦ panics
    | some at ↦
        let pte = k'.words at in
        if not (is_valid pte)
        then panics
        else let (mem, k'') = kalloc k' in
          if mem == 0 then done (false, k'') else do
            (mapped, m) ←
                mappages 1 new i page_size mem (pte_flags pte)
                  (record k'' { words = copy_page mem (pte2pa pte) k''.words })
            if mapped then done (true, m) else do freed ← free_page end mem m; done (false, freed)
  ]

unfoldable pub copy_loop : (end old new left i : ℕ) → Kmem → Run (Bool × Kmem)
copy_loop end old new zero i k = done (true, k)
copy_loop end old new (suc left) i k = do
  (more, k') ← copy_user_page end old new i k
  if more
      then copy_loop end old new left (i + page_size) k'
      else do undone ← uvmunmap end new 0 (i / page_size) true k'; done (false, undone)

-- `uvmcopy`: 0 is true, and -1 false.
unfoldable pub uvmcopy : (end old new sz : ℕ) → Kmem → Run (Bool × Kmem)
uvmcopy end old new sz k = copy_loop end old new ((sz + page_size - 1) / page_size) 0 k

-- `*pte &= ~PTE_U`
abbrev pub clear_user : ℕ → ℕ
clear_user pte = if pte / 16 % 2 == 1 then pte - 16 else pte

unfoldable pub uvmclear : (pagetable va : ℕ) → Kmem → Run Kmem
uvmclear pagetable va k = do
  (found, k') ← walk false pagetable va k
  elim found [ none ↦ panics | some at ↦ done (set_word at (clear_user (k'.words at)) k') ]

-- UART0, VIRTIO0, PLIC, KERNBASE and TRAMPOLINE.
abbrev uart0 : ℕ
uart0 = 0x10000000

abbrev virtio0 : ℕ
virtio0 = 0x10001000

abbrev plic : ℕ
plic = 0x0c000000

abbrev kern_base : ℕ
kern_base = 0x80000000

abbrev trampoline_va : ℕ
trampoline_va = max_va - page_size

-- `proc_mapstacks` of kernel/proc.c, from process `p` on.
unfoldable pub proc_mapstacks : (kpgtbl left p : ℕ) → Kmem → Run Kmem
proc_mapstacks kpgtbl zero p k = done k
proc_mapstacks kpgtbl (suc left) p k =
    let (page, k') = kalloc k in
    if page == 0 then panics else do
      k'' ← kvmmap 1 kpgtbl (trampoline_va - (p + 1) * 2 * page_size) page page_size 6 k'
      proc_mapstacks kpgtbl left (p + 1) k''

-- `kvmmake`, given the addresses of the linker; the fuel is for the pages of one mapping.
unfoldable pub kvmmake : (fuel etext trampoline : ℕ) → Kmem → Run (ℕ × Kmem)
kvmmake fuel etext trampoline k =
    let (kpgtbl, allocated) = kalloc k in
    do
      k1 ← kvmmap fuel kpgtbl uart0 uart0 page_size 6 (zero_page kpgtbl allocated)
      k2 ← kvmmap fuel kpgtbl virtio0 virtio0 page_size 6 k1
      k3 ← kvmmap fuel kpgtbl plic plic 0x400000 6 k2
      k4 ← kvmmap fuel kpgtbl kern_base kern_base (etext - kern_base) 10 k3
      k5 ← kvmmap fuel kpgtbl etext etext (phys_stop - etext) 6 k4
      k6 ← kvmmap fuel kpgtbl trampoline_va trampoline page_size 10 k5
      k7 ← proc_mapstacks kpgtbl 64 0 k6
      done (kpgtbl, k7)
