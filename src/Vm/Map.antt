-- ===== src/Vm/Map.antt =====
-- `mappages` of kernel/vm.c: which last entries it writes, and how it ends.
use mathlib.Core.Path.{subst}
use os_labs.Prelude.{
  ℕ, zero, suc, ◌+◌, ◌-◌, ◌*◌, ◌/◌, ◌%◌, ◌^◌, ◌<◌, ◌≤◌, ◌≡◌, ◌≢◌, inl, inr, refl, sym, ap, ◌∙◌,
  Bool, true, false, not, ◌&&◌, List, [], leb, ltb, ◌==◌, if◌then◌else◌, arith, eq→==, ne→==,
  Bool-cases,
}
use os_labs.Kalloc.{page_size, Kmem}
use os_labs.Vm.{map_page, map_loop, mappages}
use os_labs.Panic.{Run, done, panics, out_of_fuel, ◌>>=◌}
use os_labs.Vm.Entry.{max_va, is_valid, leaf_entry, page_round_down}
use os_labs.Vm.Space.{entry, IsTree}
use os_labs.Vm.Page.{MapsPage, map_page-MapsPage}

-- From page `v` on, `n` pages are mapped to consecutive pages from `pa` on, and no other changes.
abbrev pub MapsRange : (root v n pa perm : ℕ) → (before after : Kmem) → Type 0
MapsRange root v n pa perm k k' =
    (w : ℕ)
    → w < 512 ^ 3
    → entry k' root w ≡ (
        if leb v w && ltb w (v + n)
        then leaf_entry (pa + (w - v) * page_size) perm
        else entry k root w)

-- How `mappages` of the `n` pages from `v` on ends: all of them are mapped, and none was; or memory
-- is used up, and fewer are mapped; or there is a panic, and one of them was mapped before.
abbrev pub Maps : (end root v n pa perm : ℕ) → (k : Kmem) → Run (Bool × Kmem) → Type 0
Maps end root v n pa perm k out_of_fuel = ⊥
Maps end root v n pa perm k panics = (j : ℕ) × (j < n) × (is_valid (entry k root (v + j)) ≡ true)
Maps end root v n pa perm k (done (false, k')) =
    (m : ℕ) × (m < n) × IsTree end k' root [] × MapsRange root v m pa perm k k'
Maps end root v n pa perm k (done (true, k')) =
    ((ps : List ℕ) × IsTree end k' root ps)
    × MapsRange root v n pa perm k k'
    × ((j : ℕ) → j < n → is_valid (entry k root (v + j)) ≡ false)

MapsRange-suc :
    (root v m pa perm : ℕ) (k k1 k' : Kmem)
    → v < 512 ^ 3
    → entry k1 root v ≡ leaf_entry pa perm
    → ((w : ℕ) → w < 512 ^ 3 → w ≢ v → entry k1 root w ≡ entry k root w)
    → MapsRange root (v + 1) m (pa + page_size) perm k1 k'
    → MapsRange root v (suc m) pa perm k k'
MapsRange-suc root v m pa perm k k1 k' room at others maps w lt = elim (Bool-cases (w == v)) [
  | inl e ↦
      let q : w ≡ v = ground (arith, e) in
      let outside : (leb (v + 1) w && ltb w (v + 1 + m)) ≡ false = ground (arith, e) in
      let inside : (leb v w && ltb w (v + suc m)) ≡ true = ground (arith, e) in
      let first : leaf_entry pa perm ≡ leaf_entry (pa + (w - v) * page_size) perm =
        ap (λ pa. leaf_entry pa perm) (omega (arith, q)) in
      rw inside ((maps w lt ∙ rw outside (ap (entry k1 root) q)) ∙ (at ∙ first))
  | inr e ↦
      let ne : w ≢ v = λ q. let e' = eq→== w v q in ground (arith, e, e') in
      elim (Bool-cases (leb (v + 1) w && ltb w (v + 1 + m))) [
        | inl there ↦
            let inside : (leb v w && ltb w (v + suc m)) ≡ true = ground (arith, there) in
            let later : leaf_entry (pa + page_size + (w - (v + 1)) * page_size) perm
                ≡ leaf_entry (pa + (w - v) * page_size) perm =
              ap (λ pa. leaf_entry pa perm) (ground (arith, there)) in
            rw inside ((maps w lt ∙ rw there refl) ∙ later)
        | inr away ↦
            let outside : (leb v w && ltb w (v + suc m)) ≡ false = ground (arith, away, e) in
            rw outside ((maps w lt ∙ rw away refl) ∙ others w lt ne)
      ]
]

-- The loop after its first page.
after_page :
    (end root v n pa perm : ℕ) (k k1 : Kmem)
    → v + suc n ≤ 512 ^ 3
    → is_valid (entry k root v) ≡ false
    → entry k1 root v ≡ leaf_entry pa perm
    → ((w : ℕ) → w < 512 ^ 3 → w ≢ v → entry k1 root w ≡ entry k root w)
    → (r : Run (Bool × Kmem)) → Maps end root (v + 1) n (pa + page_size) perm k1 r
    → Maps end root v (suc n) pa perm k r
after_page end root v n pa perm k k1 room free at others out_of_fuel m = m
after_page end root v n pa perm k k1 room free at others panics (j, lt, e) =
    let same : v + suc j ≡ v + 1 + j = omega arith in
    let moved = others (v + 1 + j) (omega (arith, room, lt)) (λ q. omega (arith, q)) in
    (suc j, omega (arith, lt), rw (same, sym moved) e)
after_page end root v n pa perm k k1 room free at others (done (false, k')) (m, lt, tree, maps) = (
  suc m,
  omega (arith, lt),
  tree,
  MapsRange-suc root v m pa perm k k1 k' (omega (arith, room)) at others maps,
)
after_page end root v n pa perm k k1 room free at others (done (true, k'))
      (tree, maps, free_before) =
    (tree, MapsRange-suc root v n pa perm k k1 k' (omega (arith, room)) at others maps, all_free)
  where
    all_free : (j : ℕ) → j < suc n → is_valid (entry k root (v + j)) ≡ false
    all_free zero lt = let same : v + 0 ≡ v = omega arith in rw same free
    all_free (suc j) lt =
        let same : v + suc j ≡ v + 1 + j = omega arith in
        let moved = others (v + 1 + j) (omega (arith, room, lt)) (λ q. omega (arith, q)) in
        rw (same, sym moved) (free_before j (omega (arith, lt)))

MapsRange-none : (v w : ℕ) → (leb v w && ltb w (v + 0)) ≡ false
MapsRange-none v w = ground arith

-- What follows a round of the loop.
abbrev then_loop : (fuel root a last pa perm : ℕ) → Run (Bool × Kmem) → Run (Bool × Kmem)
then_loop fuel root a last pa perm r = do
  (mapped, k') ← r
  if not mapped
      then done (false, k')
      else if a == last
      then done (true, k')
      else map_loop fuel root ((a + page_size) % 2 ^ 64) last ((pa + page_size) % 2 ^ 64) perm k'

-- The first page of a range, and then the loop over the others, which has the answer `rest`.
then_loop-Maps :
    (end root fuel v n pa perm : ℕ) (k : Kmem)
    → v + suc n ≤ 2 ^ 26
    → pa + suc n * page_size < 2 ^ 64
    → ((m : ℕ) (ps : List ℕ) (k' : Kmem)
        → n ≡ suc m
        → IsTree end k' root ps
        → Maps end root (v + 1) (suc m) (pa + page_size) perm k' (
            map_loop fuel root
              ((v + 1) * page_size)
              ((v + 1 + m) * page_size)
              (pa + page_size)
              perm
              k'))
    → (r : Run (Bool × Kmem)) → MapsPage end root v pa perm k r
    → Maps end root v
        (suc n)
        pa
        perm
        k
        (then_loop fuel root (v * page_size) ((v + n) * page_size) pa perm r)
then_loop-Maps end root fuel v n pa perm k room phys rest out_of_fuel m = m
then_loop-Maps end root fuel v n pa perm k room phys rest panics e =
    (0, omega arith, let same : v + 0 ≡ v = omega arith in rw same e)
then_loop-Maps end root fuel v n pa perm k room phys rest (done (false, k')) (tree, same) =
    (0, omega arith, tree, λ w lt. rw (MapsRange-none v w) (same w lt))
then_loop-Maps end root fuel v zero pa perm k room phys rest (done (true, k'))
      ((ps, tree), free, at, others) =
    let last : (v * page_size == (v + 0) * page_size) ≡ true = ground arith in
    rw last (
      after_page end root v 0 pa perm k k' (omega (arith, room)) free at others (done (true, k')) (
        (ps, tree),
        λ w lt. rw (MapsRange-none (v + 1) w) refl,
        λ j lt. absurd (omega (arith, lt)),
      ))
then_loop-Maps end root fuel v (suc n) pa perm k room phys rest (done (true, k'))
      ((ps, tree), free, at, others) =
    let more : (v * page_size == (v + suc n) * page_size) ≡ false = ground arith in
    let next : (v * page_size + page_size) % 2 ^ 64 ≡ (v + 1) * page_size = omega (arith, room) in
    let next_pa : (pa + page_size) % 2 ^ 64 ≡ pa + page_size = omega (arith, phys) in
    let end_same : (v + suc n) * page_size ≡ (v + 1 + n) * page_size = omega arith in
    rw (more, next, next_pa, end_same)
      (after_page end root v (suc n) pa perm k k' (omega (arith, room)) free at others
        (map_loop fuel root ((v + 1) * page_size) ((v + 1 + n) * page_size) (pa + page_size) perm
          k')
        (rest n ps k' refl tree))

map_loop-Maps :
    (end root fuel v n pa perm : ℕ) (ps : List ℕ) (k : Kmem)
    → IsTree end k root ps
    → n < fuel
    → v + suc n ≤ 2 ^ 26
    → pa + suc n * page_size < 2 ^ 64
    → Maps end root v
        (suc n)
        pa
        perm
        k
        (map_loop fuel root (v * page_size) ((v + n) * page_size) pa perm k)
unfolding map_loop
map_loop-Maps end root zero v n pa perm ps k tree h room phys = absurd (omega (arith, h))
map_loop-Maps end root (suc fuel) v n pa perm ps k tree h room phys =
    let lt : v * page_size < max_va = omega (arith, room) in
    let page : v * page_size / 4096 ≡ v = omega arith in
    then_loop-Maps end root fuel v n pa perm k room phys
      (λ m ps' k' e tree'.
        map_loop-Maps end root fuel (v + 1) m (pa + page_size) perm ps' k' tree'
          (omega (arith, e, h)) (omega (arith, e, room)) (omega (arith, e, phys)))
      (map_page root (v * page_size) pa perm k)
      (subst (λ v'. MapsPage end root v' pa perm k (map_page root (v * page_size) pa perm k)) page
        (map_page-MapsPage end root (v * page_size) pa perm ps k tree lt))

-- The number of pages that `mappages` maps, less one.
abbrev pub pages_after : (va size : ℕ) → ℕ
pages_after va size = (va + size - 1) / page_size - va / page_size

pub mappages-Maps :
    (end root fuel va size pa perm : ℕ) (ps : List ℕ) (k : Kmem)
    → IsTree end k root ps
    → 0 < size
    → va + size ≤ max_va
    → pages_after va size < fuel
    → pa + suc (pages_after va size) * page_size < 2 ^ 64
    → Maps end root
        (va / page_size)
        (suc (pages_after va size))
        pa
        perm
        k
        (mappages fuel root va size pa perm k)
unfolding mappages
mappages-Maps end root fuel va size pa perm ps k tree pos top h phys =
    let nz : (size == 0) ≡ false = ne→== size 0 (λ q. omega (arith, q, pos)) in
    let last : page_round_down ((va + size + 2 ^ 64 - 1) % 2 ^ 64)
        ≡ (va / page_size + pages_after va size) * page_size =
      omega (arith, pos, top) in
    rw (nz, last)
      (map_loop-Maps end root fuel (va / page_size) (pages_after va size) pa perm ps k tree h
        (omega (arith, pos, top)) phys)
