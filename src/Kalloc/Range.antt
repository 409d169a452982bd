-- ===== src/Kalloc/Range.antt =====
-- `kinit` frees every page between the kernel and the end of memory.
use os_labs.Prelude.{
  ℕ, zero, suc, ◌+◌, ◌-◌, ◌*◌, ◌/◌, ◌%◌, ◌≤◌, ◌<◌, ◌≡◌, refl, ◌≢◌, true, false, some, List, [], ◌∷◌,
  leb, arith, All, All-map,
}
use os_labs.Kalloc.{page_size, phys_stop, page_round_up, Words, Kmem, free_loop, kinit}
use os_labs.Kalloc.FreeList.{IsPage, Free, kfree-Free}

-- The `n` pages from `p` on, the last one first, in front of `ps`.
pub pages_from : (p n : ℕ) → List ℕ → List ℕ
pages_from p zero ps = ps
pages_from p (suc n) ps = pages_from (p + page_size) n (p ∷ ps)

free_loop-Free :
    (fuel end p stop n : ℕ) (k : Kmem) (ps : List ℕ)
    → 0 < end
    → end ≤ p
    → p % page_size ≡ 0
    → stop ≤ phys_stop
    → p + n * page_size ≤ stop
    → stop < p + (n + 1) * page_size
    → n < fuel
    → All (λ q. q < p) ps
    → Free end k ps
    → (k' : Kmem) × (free_loop fuel end p stop k ≡ some (some k')) × Free end k' (pages_from p n ps)
unfolding free_loop pages_from
free_loop-Free zero end p stop n k ps pos low al top fits past h below f = elim h [ ]
free_loop-Free (suc fuel) end p stop zero k ps pos low al top fits past h below f =
    let e : leb (p + page_size) stop ≡ false = ground arith in (k, rw (e, free_loop) refl, f)
free_loop-Free (suc fuel) end p stop (suc n) k ps pos low al top fits past h below f =
    let e : leb (p + page_size) stop ≡ true = ground arith in
    let page : IsPage end p = record { aligned = al; low = low; high = omega arith } in
    let others = All-map (λ q l. let ne : q ≢ p = omega arith in ne) ps below in
    let (k', freed, f', _) = kfree-Free end p k ps pos page others f in
    let (k'', done, f'') =
      free_loop-Free fuel end (p + page_size) stop n k' (p ∷ ps) pos (omega arith) (omega arith) top
        (omega arith) (omega arith) (omega arith)
        (omega arith, All-map (λ q l. let ne : q < p + page_size = omega arith in ne) ps below)
        f' in
    (k'', rw (e, freed, free_loop) done, f'')

-- The number of whole pages from `end` on.
abbrev pub page_count : (end : ℕ) → ℕ
page_count end = (phys_stop - page_round_up end) / page_size

-- `kinit`, with the kernel ending below the end of memory and fuel for the pages between the two,
-- returns without a panic. The free pages are then all of these, each once.
pub kinit-Free :
    (fuel end : ℕ) (words : Words)
    → 0 < end
    → page_round_up end ≤ phys_stop
    → page_count end < fuel
    → (k : Kmem) × (kinit fuel end words ≡ some (some k))
      × Free end k (pages_from (page_round_up end) (page_count end) [])
unfolding kinit
kinit-Free fuel end words pos room h =
    free_loop-Free fuel end (page_round_up end) phys_stop (page_count end)
      (record { freelist = 0; words = words }) [] pos (omega arith) (omega arith) (omega arith)
      (omega arith) (omega arith) h tt (record { linked = refl; pages = tt })
