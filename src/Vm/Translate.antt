-- ===== src/Vm/Translate.antt =====
-- What `walkaddr` of kernel/vm.c finds after `mappages`.
use mathlib.Core.Path.{subst}
use os_labs.Prelude.{
  ℕ, suc, ◌+◌, ◌-◌, ◌*◌, ◌/◌, ◌%◌, ◌^◌, ◌<◌, ◌≤◌, ◌≡◌, refl, ◌∙◌, true, inl, inr, ◌&&◌, List, leb,
  ltb, if◌then◌else◌, arith, Bool-cases,
}
use os_labs.Kalloc.{page_size, Kmem}
use os_labs.Vm.{walkaddr, mappages}
use os_labs.Panic.{done}
use os_labs.Vm.Entry.{max_va, is_user, leaf_entry, pte2pa-leaf_entry, is_valid-leaf_entry}
use os_labs.Vm.Space.{entry, IsTree}
use os_labs.Vm.Walk.{walkaddr-entry}
use os_labs.Vm.Map.{MapsRange, Maps, pages_after, mappages-Maps}

is_user-leaf_entry :
    (pa perm : ℕ) → perm < 1024 → is_user perm ≡ true → is_user (leaf_entry pa perm) ≡ true
is_user-leaf_entry pa perm h u = ground (arith, h, u)

walkaddr-MapsRange :
    (root v n pa perm : ℕ) (k k' : Kmem)
    → MapsRange root v n pa perm k k'
    → pa % page_size ≡ 0
    → pa + n * page_size ≤ 2 ^ 56
    → perm < 1024
    → is_user perm ≡ true
    → (a : ℕ) → a < max_va
    → walkaddr root a k' ≡ (
        if leb v (a / page_size) && ltb (a / page_size) (v + n)
        then pa + (a / page_size - v) * page_size
        else walkaddr root a k)
walkaddr-MapsRange root v n pa perm k k' maps al top small user a lt =
    let w_lt : a / 4096 < 512 ^ 3 = omega (arith, lt) in
    elim (Bool-cases (leb v (a / page_size) && ltb (a / page_size) (v + n))) [
      | inl e ↦
          let q : ℕ = pa + (a / page_size - v) * page_size in
          let at : entry k' root (a / 4096) ≡ leaf_entry q perm =
            maps (a / 4096) w_lt ∙ (rw e refl) in
          let fits : q < 2 ^ 56 = ground (arith, e, top) in
          let q_al : q % page_size ≡ 0 = omega (arith, al) in
          rw
            (
              e,
              walkaddr-entry root a k' lt,
              at,
              is_valid-leaf_entry q perm,
              is_user-leaf_entry q perm small user,
            )
            (pte2pa-leaf_entry q perm q_al fits small)
      | inr e ↦
          let at : entry k' root (a / 4096) ≡ entry k root (a / 4096) =
            maps (a / 4096) w_lt ∙ (rw e refl) in
          rw (e, walkaddr-entry root a k' lt, walkaddr-entry root a k lt, at) refl
    ]

-- After a `mappages` for users that returns 0, `walkaddr` of an address below MAXVA gives the page
-- that it was mapped to if it lies in the range, and what it gave before if it does not.
pub mappages-walkaddr :
    (end root fuel va size pa perm : ℕ) (ps : List ℕ) (k k' : Kmem)
    → IsTree end k root ps
    → 0 < size
    → va + size ≤ max_va
    → pages_after va size < fuel
    → pa % page_size ≡ 0
    → pa + suc (pages_after va size) * page_size ≤ 2 ^ 56
    → perm < 1024
    → is_user perm ≡ true
    → mappages fuel root va size pa perm k ≡ done (true, k')
    → (a : ℕ) → a < max_va
    → walkaddr root a k' ≡ (
        if leb (va / page_size) (a / page_size)
          && ltb (a / page_size) (va / page_size + suc (pages_after va size))
        then pa + (a / page_size - va / page_size) * page_size
        else walkaddr root a k)
mappages-walkaddr end root fuel va size pa perm ps k k' tree pos top h al phys small user e =
    let maps =
      subst (Maps end root (va / page_size) (suc (pages_after va size)) pa perm k) e
        (mappages-Maps end root fuel va size pa perm ps k tree pos top h (omega (arith, phys))) in
    walkaddr-MapsRange root (va / page_size) (suc (pages_after va size)) pa perm k k' maps.1 al phys
      small user
