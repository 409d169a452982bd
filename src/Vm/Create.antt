-- ===== src/Vm/Create.antt =====
-- `uvmcreate` of kernel/vm.c: the empty page table.
use mathlib.Core.Path.{subst}
use os_labs.Prelude.{
  ℕ, zero, suc, ◌/◌, ◌%◌, ◌^◌, ◌<◌, ◌≡◌, ◌≢◌, refl, sym, ◌∙◌, false, none, some, some_eq, List, [],
  ◌∷◌, All, ◌==◌, arith, ne→==,
}
use os_labs.Kalloc.{Kmem, fill_page, kalloc}
use os_labs.Kalloc.FreeList.{IsPage, Free, Linked-Outside, fill_page-Outside, kalloc-Allocated}
use os_labs.Vm.{slot, zero_page}
use os_labs.Vm.User.{uvmcreate}
use os_labs.Vm.Space.{below, table, word_at, entry, IsTree}

module _ (end root : ℕ) (ps : List ℕ) (k : Kmem)
    (zeros : (i : ℕ) → i < 512 → k.words (slot root i) ≡ 0) where
  no_table : (d p : ℕ) → table k root (suc d) p ≡ none
  unfolding table below
  no_table zero p = rw (zeros (p % 512) (omega arith)) refl
  no_table (suc d) p = rw (no_table d (p / 512), below) refl

  pub no_entry : (vpn : ℕ) → entry k root vpn ≡ 0
  unfolding entry word_at
  no_entry vpn = rw (no_table 1 (vpn / 512), word_at) refl

  only_root : (d p t : ℕ) → table k root d p ≡ some t → (d ≡ 0) × (root ≡ t)
  unfolding table
  only_root zero p t e = (refl, some_eq e)
  only_root (suc d) p t e = let no : none ≡ some t = sym (no_table d p) ∙ e in ground (arith, no)

  pub IsTree-root : Free end k ps → IsPage end root → All (λ q. q ≢ root) ps → IsTree end k root ps
  IsTree-root free page others = record {
    free = free;
    pages = λ d p t le lt e. subst (IsPage end) (only_root d p t e).1 page;
    used = λ d p t le lt e. subst (λ t. All (λ q. q ≢ t) ps) (only_root d p t e).1 others;
    once = λ d p d' p' t le le' lt lt' e e'.
        let z = (only_root d p t e).0 in
        let z' = (only_root d' p' t e').0 in
        let one : p < 512 ^ 0 = subst (λ d. p < 512 ^ d) z lt in
        let one' : p' < 512 ^ 0 = subst (λ d. p' < 512 ^ d) z' lt' in
        (z ∙ sym z', omega (arith, one, one'));
  }

-- How `uvmcreate` ends.
abbrev pub Creates : (end : ℕ) → List ℕ → Kmem → ℕ × Kmem → Type 0
Creates end [] k r = r ≡ (0, k)
Creates end (p ∷ ps) k (root, k') =
    (0 < root) × IsTree end k' root ps × ((vpn : ℕ) → entry k' root vpn ≡ 0)

-- `uvmcreate` returns 0 and changes nothing if no page is free, and otherwise a tree of page tables
-- that maps nothing.
pub uvmcreate-Creates :
    (end : ℕ) (ps : List ℕ) (k : Kmem) → Free end k ps → Creates end ps k (uvmcreate k)
unfolding uvmcreate fill_page
uvmcreate-Creates end [] k free = let e = kalloc-Allocated end k [] free in rw e refl
uvmcreate-Creates end (p ∷ ps) k free =
    let (r, k1) = kalloc k in
    let (at, pos, page, others, free1, out) = kalloc-Allocated end k (p ∷ ps) free in
    let nz : ((kalloc k).0 == 0) ≡ false = ne→== (kalloc k).0 0 (omega (arith, pos)) in
    let k' : Kmem = zero_page r k1 in
    let zeros : (i : ℕ) → i < 512 → k'.words (slot r i) ≡ 0 = λ i h. ground (arith, h) in
    let free' : Free end k' ps = record {
      linked =
          Linked-Outside end r k1.words k'.words k1.freelist ps page
            (fill_page-Outside r 0 k1.words) free1.pages others free1.linked;
      pages = free1.pages;
    } in
    rw nz (pos, IsTree-root end r ps k' zeros free' page others, no_entry end r ps k' zeros)
