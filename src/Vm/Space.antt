-- ===== src/Vm/Space.antt =====
-- Page tables of kernel/vm.c as trees: where the tables are, and what memory keeps of them.
use os_labs.Prelude.{
  ℕ, zero, suc, ◌+◌, ◌*◌, ◌/◌, ◌%◌, ◌^◌, ◌<◌, ◌≤◌, ◌≡◌, ◌≢◌, refl, sym, ap, ◌∙◌, Option, none, some,
  List, All, if◌then◌else◌, update_self, update_ne, arith,
}
use os_labs.Kalloc.{Kmem}
use os_labs.Kalloc.FreeList.{IsPage, Free, Outside, Linked-Outside}
use os_labs.Vm.{set_word, slot}
use os_labs.Vm.Entry.{is_valid, pte2pa}

-- The table below entry `i` of a table, if there is one.
unfoldable pub below : Kmem → Option ℕ → (i : ℕ) → Option ℕ
below k none i = none
below k (some t) i =
    if is_valid (k.words (slot t i)) then some (pte2pa (k.words (slot t i))) else none

-- The table at depth `d` for the addresses that begin with the `9 * d` bits `p`.
unfoldable pub table : Kmem → (root d p : ℕ) → Option ℕ
table k root zero p = some root
table k root (suc d) p = below k (table k root d (p / 512)) (p % 512)

unfoldable pub word_at : Kmem → Option ℕ → (i : ℕ) → ℕ
word_at k none i = 0
word_at k (some t) i = k.words (slot t i)

-- The last entry for the virtual page `vpn`, or 0.
unfoldable pub entry : Kmem → (root vpn : ℕ) → ℕ
entry k root vpn = word_at k (table k root 2 (vpn / 512)) (vpn % 512)

-- The tables are distinct pages that are not free.
pub record IsTree (end : ℕ) (k : Kmem) (root : ℕ) (ps : List ℕ) : Type 0 where
  pub free : Free end k ps
  pub pages : (d p t : ℕ) → d ≤ 2 → p < 512 ^ d → table k root d p ≡ some t → IsPage end t
  pub used : (d p t : ℕ) → d ≤ 2 → p < 512 ^ d → table k root d p ≡ some t → All (λ q. q ≢ t) ps
  pub once :
      (d p e q t : ℕ)
      → d ≤ 2
      → e ≤ 2
      → p < 512 ^ d
      → q < 512 ^ e
      → table k root d p ≡ some t
      → table k root e q ≡ some t
      → (d ≡ e) × (p ≡ q)

-- Entries of distinct tables, or distinct entries, are distinct words.
pub slot-ne :
    (end t u i j : ℕ)
    → IsPage end t
    → IsPage end u
    → i < 512
    → j < 512
    → slot t i ≡ slot u j
    → (t ≡ u) × (i ≡ j)
slot-ne end t u i j x y hi hj e =
    (omega (arith, x.aligned, y.aligned, e), omega (arith, x.aligned, y.aligned, e))

pub shorter : (d q : ℕ) → suc d ≤ 2 → q < 512 ^ suc d → q / 512 < 512 ^ d
shorter zero q h lt = omega (arith, lt)
shorter (suc zero) q h lt = omega (arith, lt)
shorter (suc (suc d)) q h lt = absurd (omega (arith, h))

-- What is below an entry depends on its word alone.
pub below_eq :
    (k k' : Kmem) (t : Option ℕ) (i : ℕ)
    → ((u : ℕ) → t ≡ some u → k'.words (slot u i) ≡ k.words (slot u i))
    → below k' t i ≡ below k t i
unfolding below
below_eq k k' none i h = refl
below_eq k k' (some t) i h = rw (h t refl) refl

pub word_at-eq :
    (k k' : Kmem) (t : Option ℕ) (i : ℕ)
    → ((u : ℕ) → t ≡ some u → k'.words (slot u i) ≡ k.words (slot u i))
    → word_at k' t i ≡ word_at k t i
unfolding word_at
word_at-eq k k' none i h = refl
word_at-eq k k' (some t) i h = h t refl

pub entry-at :
    (k : Kmem) (root v t : ℕ)
    → table k root 2 (v / 512) ≡ some t
    → entry k root v ≡ k.words (slot t (v % 512))
unfolding entry word_at
entry-at k root v t at = rw at refl

-- A last entry is written.
module _ (end root : ℕ) (ps : List ℕ) (k : Kmem) (tree : IsTree end k root ps) (p t i v : ℕ)
    (p_lt : p < 512 ^ 2) (at : table k root 2 p ≡ some t) (i_lt : i < 512) where
  set_word-other :
      (d q u j : ℕ)
      → d ≤ 2
      → q < 512 ^ d
      → j < 512
      → (d ≡ 2 → q ≡ p → j ≢ i)
      → table k root d q ≡ some u
      → (set_word (slot t i) v k).words (slot u j) ≡ k.words (slot u j)
  set_word-other d q u j d_le q_lt j_lt other e = update_ne k.words (slot t i) (slot u j) v λ same.
      let (tu, ij) =
        slot-ne end t u i j (tree.pages 2 p t (omega arith) p_lt at) (tree.pages d q u d_le q_lt e)
          i_lt j_lt same in
      let (dd, pp) = tree.once 2 p d q t (omega arith) d_le p_lt q_lt at (e ∙ ap some (sym tu)) in
      other (sym dd) (sym pp) (sym ij)

  pub table-set_word :
      (d q : ℕ) → d ≤ 2 → q < 512 ^ d → table (set_word (slot t i) v k) root d q ≡ table k root d q
  unfolding table
  table-set_word zero q d_le q_lt = refl
  table-set_word (suc d) q d_le q_lt =
      let lt = shorter d q d_le q_lt in
      rw (table-set_word d (q / 512) (omega arith) lt) (
        below_eq k (set_word (slot t i) v k) (table k root d (q / 512)) (q % 512) λ u e.
          set_word-other d (q / 512) u (q % 512) (omega arith) lt (omega arith)
            (λ d2. absurd (omega (arith, d2, d_le))) e)

  pub entry-set_word_self : entry (set_word (slot t i) v k) root (p * 512 + i) ≡ v
  unfolding entry word_at
  entry-set_word_self =
      let pre : (p * 512 + i) / 512 ≡ p = omega (arith, i_lt) in
      let idx : (p * 512 + i) % 512 ≡ i = omega (arith, i_lt) in
      rw (pre, idx, table-set_word 2 p (omega arith) p_lt, at) (update_self k.words (slot t i) v)

  pub entry-set_word_ne :
      (vpn : ℕ)
      → vpn < 512 ^ 3
      → vpn ≢ p * 512 + i
      → entry (set_word (slot t i) v k) root vpn ≡ entry k root vpn
  unfolding entry
  entry-set_word_ne vpn lt ne =
      let lt' : vpn / 512 < 512 ^ 2 = omega (arith, lt) in
      rw (table-set_word 2 (vpn / 512) (omega arith) lt') (
        word_at-eq k (set_word (slot t i) v k) (table k root 2 (vpn / 512)) (vpn % 512) λ u e.
          set_word-other 2 (vpn / 512) u (vpn % 512) (omega arith) lt' (omega arith)
            (λ _ pp ij. ne (omega (arith, pp, ij))) e)

  pub set_word-Outside : Outside t k.words (set_word (slot t i) v k).words
  set_word-Outside a h = update_ne k.words (slot t i) a v (λ e. omega (arith, e, h, i_lt))

  pub IsTree-set_word : IsTree end (set_word (slot t i) v k) root ps
  IsTree-set_word =
      let page = tree.pages 2 p t (omega arith) p_lt at in
      record {
        free = record {
          linked =
              Linked-Outside end t k.words (set_word (slot t i) v k).words k.freelist ps page
                set_word-Outside tree.free.pages (tree.used 2 p t (omega arith) p_lt at)
                tree.free.linked;
          pages = tree.free.pages;
        };
        pages = λ d q u le lt e. tree.pages d q u le lt (sym (table-set_word d q le lt) ∙ e);
        used = λ d q u le lt e. tree.used d q u le lt (sym (table-set_word d q le lt) ∙ e);
        once = λ d q d' q' u le le' lt lt' e e'.
            tree.once d q d' q' u le le' lt lt' (sym (table-set_word d q le lt) ∙ e)
              (sym (table-set_word d' q' le' lt') ∙ e');
      }
