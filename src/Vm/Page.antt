-- ===== src/Vm/Page.antt =====
-- A round of `mappages` of kernel/vm.c: one page is mapped.
use mathlib.Core.Path.{subst}
use os_labs.Prelude.{
  ℕ, ◌+◌, ◌*◌, ◌/◌, ◌%◌, ◌^◌, ◌<◌, ◌≡◌, ◌≢◌, inl, inr, sym, ap, ◌∙◌, Bool, true, false, Option,
  none, some, List, [], leb, arith, Bool-cases,
}
use os_labs.Kalloc.{Kmem}
use os_labs.Vm.{slot, set_word, walk_loop, walk, write_entry, map_page}
use os_labs.Panic.{Run, done, panics, out_of_fuel}
use os_labs.Vm.Entry.{max_va, is_valid, leaf_entry}
use os_labs.Vm.Space.{
  entry, IsTree, entry-at, IsTree-set_word, entry-set_word_self, entry-set_word_ne,
}
use os_labs.Vm.Walk.{SameEntries, Walked, walk_loop-Walked}

-- How mapping the page `v` ends.
abbrev pub MapsPage : (end root v pa perm : ℕ) → (k : Kmem) → Run (Bool × Kmem) → Type 0
MapsPage end root v pa perm k out_of_fuel = ⊥
MapsPage end root v pa perm k panics = is_valid (entry k root v) ≡ true
MapsPage end root v pa perm k (done (false, k')) = IsTree end k' root [] × SameEntries root k k'
MapsPage end root v pa perm k (done (true, k')) =
    ((ps : List ℕ) × IsTree end k' root ps)
    × (is_valid (entry k root v) ≡ false)
    × (entry k' root v ≡ leaf_entry pa perm)
    × ((w : ℕ) → w < 512 ^ 3 → w ≢ v → entry k' root w ≡ entry k root w)

write_entry-MapsPage :
    (end root v pa perm : ℕ) (k : Kmem)
    → v < 512 ^ 3
    → (r : Option ℕ × Kmem) → Walked end root v k r
    → MapsPage end root v pa perm k (write_entry pa perm r)
write_entry-MapsPage end root v pa perm k lt (none, k') w = w
write_entry-MapsPage end root v pa perm k lt (some a, k') (ps, tree, (t, at, here), same) =
    let p_lt : v / 512 < 512 ^ 2 = omega (arith, lt) in
    let i_lt : v % 512 < 512 = omega arith in
    let whole : v / 512 * 512 + v % 512 ≡ v = omega arith in
    let new : ℕ = leaf_entry pa perm in
    let word : k'.words a ≡ entry k root v =
      ap k'.words here ∙ sym (entry-at k' root v t at) ∙ same v lt in
    elim (Bool-cases (is_valid (entry k root v))) [
      | inl e ↦ rw (word, e) e
      | inr e ↦
          rw (word, e, here)
            (
              (ps, IsTree-set_word end root ps k' tree (v / 512) t (v % 512) new p_lt at i_lt),
              e,
              subst (λ v'. entry (set_word (slot t (v % 512)) new k') root v' ≡ new) whole
                  (entry-set_word_self end root ps k' tree (v / 512) t (v % 512) new p_lt at i_lt),
              λ w w_lt ne.
                  entry-set_word_ne end root ps k' tree (v / 512) t (v % 512) new p_lt at i_lt w
                    w_lt (λ q. ne (q ∙ whole))
                  ∙ same w w_lt,
            )
    ]

pub map_page-MapsPage :
    (end root a pa perm : ℕ) (ps : List ℕ) (k : Kmem)
    → IsTree end k root ps
    → a < max_va
    → MapsPage end root (a / 4096) pa perm k (map_page root a pa perm k)
unfolding map_page walk
map_page-MapsPage end root a pa perm ps k tree lt =
    let small : leb max_va a ≡ false = ground (arith, lt) in
    let v_lt : a / 4096 < 512 ^ 3 = omega (arith, lt) in
    rw small (
      write_entry-MapsPage end root (a / 4096) pa perm k v_lt (walk_loop true 2 root a k)
        (walk_loop-Walked end root a ps k tree lt))
