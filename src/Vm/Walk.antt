-- ===== src/Vm/Walk.antt =====
-- `walk` and `walkaddr` of kernel/vm.c, in terms of the last entries.
use mathlib.Core.Path.{subst}
use os_labs.Prelude.{
  ℕ, suc, ◌+◌, ◌*◌, ◌/◌, ◌%◌, ◌^◌, ◌<◌, ◌≤◌, ◌≡◌, inl, inr, refl, sym, ap, ◌∙◌, true, false, not,
  ◌&&◌, Option, none, some, List, [], ◌∷◌, leb, ◌==◌, if◌then◌else◌, arith, ne→==, Bool-cases,
}
use os_labs.Kalloc.{Kmem, kalloc}
use os_labs.Kalloc.FreeList.{kalloc-Allocated, Allocated}
use os_labs.Vm.{slot, zero_page, set_word, walk_step, walk_loop, walkaddr}
use os_labs.Vm.Entry.{max_va, px, is_valid, is_user, pte2pa, table_entry}
use os_labs.Vm.Space.{below, table, word_at, entry, IsTree}
use os_labs.Vm.Grow

-- The same pages are mapped.
abbrev pub SameEntries : (root : ℕ) → (before after : Kmem) → Type 0
SameEntries root k k' = (vpn : ℕ) → vpn < 512 ^ 3 → entry k' root vpn ≡ entry k root vpn

-- How a step of an allocating walk ends below a table at depth `d`; without a table, all pages
-- are used up.
abbrev Stepped : (end root q d : ℕ) → (k : Kmem) → Option ℕ × Kmem → Type 0
Stepped end root q d k (none, k') = IsTree end k' root [] × SameEntries root k k'
Stepped end root q d k (some u, k') =
    (ps : List ℕ) × IsTree end k' root ps × (table k' root d q ≡ some u) × SameEntries root k k'

-- What a missing table is replaced by.
abbrev alloc_step : (t i : ℕ) → ℕ × Kmem → Option ℕ × Kmem
alloc_step t i (page, k) =
    if page == 0
    then (none, k)
    else (some page, set_word (slot t i) (table_entry page) (zero_page page k))

alloc_step-Stepped :
    (end root : ℕ) (ps : List ℕ) (k : Kmem)
    → IsTree end k root ps
    → (d p t i : ℕ) → suc d ≤ 2
    → p < 512 ^ d
    → table k root d p ≡ some t
    → i < 512
    → is_valid (k.words (slot t i)) ≡ false
    → (r : ℕ × Kmem) → Allocated end k ps r
    → Stepped end root (p * 512 + i) (suc d) k (alloc_step t i r)
alloc_step-Stepped end root [] k tree d p t i d_lt p_lt at i_lt missing r e =
    rw e (tree, λ vpn lt. refl)
alloc_step-Stepped end root (q ∷ ps) k tree d p t i d_lt p_lt at i_lt missing (r, k1)
      (e, pos, fresh, others, free1, out1) =
    let nz : (r == 0) ≡ false = ne→== r 0 (omega (arith, pos)) in
    let tree' = subst (λ q. IsTree end k root (q ∷ ps)) (sym e) tree in
    rw nz (
      ps,
      Grow.IsTree-grown end root r ps k k1 tree' d p t i d_lt p_lt at i_lt missing pos fresh others
          free1 out1,
      Grow.table-new end root r ps k k1 tree' d p t i d_lt p_lt at i_lt missing pos fresh others
          free1 out1,
      Grow.entry-grown end root r ps k k1 tree' d p t i d_lt p_lt at i_lt missing pos fresh others
          free1 out1,
    )

walk_step-Stepped :
    (end root : ℕ) (ps : List ℕ) (k : Kmem)
    → IsTree end k root ps
    → (d p t i : ℕ) → suc d ≤ 2
    → p < 512 ^ d
    → table k root d p ≡ some t
    → i < 512
    → Stepped end root (p * 512 + i) (suc d) k (walk_step true t i k)
unfolding walk_step table below
walk_step-Stepped end root ps k tree d p t i d_lt p_lt at i_lt =
    let pre : (p * 512 + i) / 512 ≡ p = omega (arith, i_lt) in
    let idx : (p * 512 + i) % 512 ≡ i = omega (arith, i_lt) in
    elim (Bool-cases (is_valid (k.words (slot t i)))) [
      | inl e ↦ rw e (ps, tree, (rw (pre, idx, at, e) refl), λ vpn lt. refl)
      | inr e ↦ rw e (
          alloc_step-Stepped end root ps k tree d p t i d_lt p_lt at i_lt e (kalloc k)
            (kalloc-Allocated end k ps tree.free))
    ]

-- How an allocating walk to the page `vpn` ends.
abbrev pub Walked : (end root vpn : ℕ) → (k : Kmem) → Option ℕ × Kmem → Type 0
Walked end root vpn k (none, k') = IsTree end k' root [] × SameEntries root k k'
Walked end root vpn k (some a, k') =
    (ps : List ℕ) × IsTree end k' root ps
    × ((t : ℕ) × (table k' root 2 (vpn / 512) ≡ some t) × (a ≡ slot t (vpn % 512)))
    × SameEntries root k k'

-- The last two steps of a walk.
walk_last :
    (end root va : ℕ) (k k1 : Kmem)
    → va < max_va
    → SameEntries root k k1
    → (r : Option ℕ × Kmem) → Stepped end root (va / 2 ^ 21) 2 k1 r
    → Walked end root
        (va / 4096)
        k
        (elim r.0 [ none ↦ (none, r.1) | some t ↦ walk_loop true 0 t va r.1 ])
unfolding walk_loop
walk_last end root va k k1 lt same (none, k') (tree, same') =
    (tree, λ vpn h. same' vpn h ∙ same vpn h)
walk_last end root va k k1 lt same (some t, k') (ps, tree, at, same') =
    let pre : va / 4096 / 512 ≡ va / 2 ^ 21 = omega arith in
    (ps, tree, (t, rw pre at, refl), λ vpn h. same' vpn h ∙ same vpn h)

walk_middle :
    (end root va : ℕ) (k : Kmem)
    → va < max_va
    → (r : Option ℕ × Kmem) → Stepped end root (va / 2 ^ 30) 1 k r
    → Walked end root
        (va / 4096)
        k
        (elim r.0 [ none ↦ (none, r.1) | some t ↦ walk_loop true 1 t va r.1 ])
unfolding walk_loop
walk_middle end root va k lt (none, k1) s = s
walk_middle end root va k lt (some t, k1) (ps, tree, at, same) =
    let q : va / 2 ^ 30 * 512 + px 1 va ≡ va / 2 ^ 21 = omega arith in
    let p_lt : va / 2 ^ 30 < 512 ^ 1 = omega (arith, lt) in
    walk_last end root va k k1 lt same (walk_step true t (px 1 va) k1) (
      subst (λ q. Stepped end root q 2 k1 (walk_step true t (px 1 va) k1)) q
        (walk_step-Stepped end root ps k1 tree 1 (va / 2 ^ 30) t (px 1 va) (omega arith) p_lt at
          (omega arith)))

-- An allocating walk finds the entry of the page, in a tree that maps the same pages, or has used
-- up the free pages.
pub walk_loop-Walked :
    (end root va : ℕ) (ps : List ℕ) (k : Kmem)
    → IsTree end k root ps
    → va < max_va
    → Walked end root (va / 4096) k (walk_loop true 2 root va k)
unfolding walk_loop table
walk_loop-Walked end root va ps k tree lt =
    let q : 0 * 512 + px 2 va ≡ va / 2 ^ 30 = omega (arith, lt) in
    walk_middle end root va k lt (walk_step true root (px 2 va) k) (
      subst (λ q. Stepped end root q 1 k (walk_step true root (px 2 va) k)) q
        (walk_step-Stepped end root ps k tree 0 0 root (px 2 va) (omega arith) (omega arith) refl
          (omega arith)))

-- A walk that does not allocate changes nothing.
walk_step-below : (t i : ℕ) (k : Kmem) → walk_step false t i k ≡ (below k (some t) i, k)
unfolding walk_step below
walk_step-below t i k = ground arith

-- The address of an entry, if its table is there.
abbrev pub slot_in : Option ℕ → ℕ → Option ℕ
slot_in none i = none
slot_in (some t) i = some (slot t i)

-- The rest of a walk, from a table that may be missing.
abbrev walk_from : (level va : ℕ) → Kmem → Option ℕ → Option ℕ × Kmem
walk_from level va k none = (none, k)
walk_from level va k (some t) = walk_loop false level t va k

abbrev step_from : (level va : ℕ) → Option ℕ × Kmem → Option ℕ × Kmem
step_from level va r = elim r.0 [ none ↦ (none, r.1) | some t ↦ walk_loop false level t va r.1 ]

step_from-table :
    (level va : ℕ) (k : Kmem) (o : Option ℕ) → step_from level va (o, k) ≡ walk_from level va k o
step_from-table level va k none = refl
step_from-table level va k (some t) = refl

walk_loop-suc :
    (level t va : ℕ) (k : Kmem)
    → walk_loop false (suc level) t va k
      ≡ walk_from level va k (below k (some t) (px (suc level) va))
unfolding walk_loop
walk_loop-suc level t va k =
    ap {B = Option ℕ × Kmem} (λ r. step_from level va r) (walk_step-below t (px (suc level) va) k)
    ∙ step_from-table level va k (below k (some t) (px (suc level) va))

walk_from-last : (va : ℕ) (k : Kmem) (o : Option ℕ) → walk_from 0 va k o ≡ (slot_in o (px 0 va), k)
unfolding walk_loop
walk_from-last va k none = refl
walk_from-last va k (some t) = refl

walk_from-middle :
    (va : ℕ) (k : Kmem) (o : Option ℕ)
    → walk_from 1 va k o ≡ (slot_in (below k o (px 1 va)) (px 0 va), k)
walk_from-middle va k none = unfold below in refl
walk_from-middle va k (some t) =
    walk_loop-suc 0 t va k ∙ walk_from-last va k (below k (some t) (px 1 va))

pub walk_loop-table :
    (root va : ℕ) (k : Kmem)
    → va < max_va
    → walk_loop false 2 root va k
      ≡ (slot_in (table k root 2 (va / 4096 / 512)) (va / 4096 % 512), k)
unfolding table
walk_loop-table root va k lt =
    let q2 : va / 4096 / 512 / 512 % 512 ≡ px 2 va = omega (arith, lt) in
    let q1 : va / 4096 / 512 % 512 ≡ px 1 va = omega arith in
    rw (q2, q1) (walk_loop-suc 1 root va k ∙ walk_from-middle va k (below k (some root) (px 2 va)))

user_pa :
    (k : Kmem) (t : Option ℕ) (i : ℕ)
    → (elim (slot_in t i) [
      | none ↦ 0
      | some a ↦
          let pte = k.words a in
          if not (is_valid pte) then 0 else if not (is_user pte) then 0 else pte2pa pte
    ])
      ≡ (if is_valid (word_at k t i) && is_user (word_at k t i) then pte2pa (word_at k t i) else 0)
unfolding word_at
user_pa k none i = refl
user_pa k (some t) i = ground arith

-- `walkaddr` reads the last entry of the page.
pub walkaddr-entry :
    (root va : ℕ) (k : Kmem)
    → va < max_va
    → let pte = entry k root (va / 4096) in
      walkaddr root va k ≡ (if is_valid pte && is_user pte then pte2pa pte else 0)
unfolding walkaddr entry
walkaddr-entry root va k lt =
    let below_max : leb max_va va ≡ false = ground (arith, lt) in
    rw (below_max, walk_loop-table root va k lt)
      (user_pa k (table k root 2 (va / 4096 / 512)) (va / 4096 % 512))
