-- ===== src/Vm/Grow.antt =====
-- `walk` of kernel/vm.c makes a free page a table: where the tables are then.
use mathlib.Core.Path.{subst}
use os_labs.Prelude.{
  ℕ, zero, suc, ◌+◌, ◌*◌, ◌/◌, ◌%◌, ◌^◌, ◌<◌, ◌≤◌, ◌≡◌, ◌≢◌, ◌⊎◌, inl, inr, refl, sym, ap, ◌∙◌,
  true, false, ◌&&◌, none, some, List, ◌∷◌, All, ◌==◌, update_self, update_ne, some_eq, arith,
  eq→==, Bool-cases, Option-cases,
}
use os_labs.Kalloc.{page_size, Kmem, fill_page}
use os_labs.Kalloc.FreeList.{IsPage, Free, Outside, Linked-Outside, fill_page-Outside}
use os_labs.Vm.{zero_page, set_word, slot}
use os_labs.Vm.Entry.{is_valid, table_entry, pte2pa-table_entry}
use os_labs.Vm.Space.{below, table, word_at, entry, IsTree, slot-ne, shorter, below_eq}

-- A page that was free becomes the table below an entry that was not valid.
module _ (end root : ℕ) (r : ℕ) (ps : List ℕ) (k k1 : Kmem) (tree : IsTree end k root (r ∷ ps))
    (d p t i : ℕ) (d_lt : suc d ≤ 2) (p_lt : p < 512 ^ d) (at : table k root d p ≡ some t)
    (i_lt : i < 512) (missing : is_valid (k.words (slot t i)) ≡ false) (r_pos : 0 < r)
    (fresh : IsPage end r) (others : All (λ q. q ≢ r) ps) (free1 : Free end k1 ps)
    (out1 : Outside r k.words k1.words) where
  -- The memory afterwards.
  abbrev pub grown : Kmem
  grown = set_word (slot t i) (table_entry r) (zero_page r k1)

  grown_at : grown.words (slot t i) ≡ table_entry r
  grown_at = update_self (zero_page r k1).words (slot t i) (table_entry r)

  grown_zero : (j : ℕ) → j < 512 → slot t i ≢ slot r j → grown.words (slot r j) ≡ 0
  unfolding fill_page
  grown_zero j j_lt ne =
      update_ne (zero_page r k1).words (slot t i) (slot r j) (table_entry r) ne ∙ (ground arith)

  grown_other :
      (u j : ℕ)
      → IsPage end u
      → u ≢ r
      → j < 512
      → slot t i ≢ slot u j
      → grown.words (slot u j) ≡ k.words (slot u j)
  grown_other u j page ne j_lt apart_slots =
      let where_u : (slot u j < r) ⊎ (r + page_size ≤ slot u j) =
        omega (arith, page.aligned, fresh.aligned, ne, j_lt) in
      update_ne (zero_page r k1).words (slot t i) (slot u j) (table_entry r) apart_slots
      ∙ fill_page-Outside r 0 k1.words (slot u j) where_u
      ∙ out1 (slot u j) where_u

  -- No table was there before.
  was_missing : below k (table k root d p) i ≡ none
  unfolding below
  was_missing = rw (at, missing) refl

  t-IsPage : IsPage end t
  t-IsPage = tree.pages d p t (omega (arith, d_lt)) p_lt at

  t-ne-r : t ≢ r
  t-ne-r e = (tree.used d p t (omega (arith, d_lt)) p_lt at).0 (sym e)

  below-r : (j : ℕ) → j < 512 → below grown (some r) j ≡ none
  unfolding below
  below-r j j_lt =
      let zero_there =
        grown_zero j j_lt (λ e. t-ne-r (slot-ne end t r i j t-IsPage fresh i_lt j_lt e).0) in
      rw zero_there refl

  below-t : below grown (some t) i ≡ some r
  unfolding below
  below-t =
      let back = pte2pa-table_entry r fresh.aligned fresh.high in
      let v : is_valid (table_entry r) ≡ true = ground arith in rw (grown_at, v, back) refl

  -- What happens to the table at depth `e` for `q`.
  abbrev Grown : (e q : ℕ) → Type 0
  Grown e q =
      ((e ≡ suc d) × (q ≡ p * 512 + i) × (table grown root e q ≡ some r))
      ⊎ (table grown root e q ≡ table k root e q)

  other-Grown :
      (e q u : ℕ)
      → suc e ≤ 2
      → q < 512 ^ suc e
      → table k root e (q / 512) ≡ some u
      → ((e ≡ d) → q ≢ p * 512 + i)
      → below grown (some u) (q % 512) ≡ below k (some u) (q % 512)
  other-Grown e q u le lt at_u other =
      let lt' = shorter e q le lt in
      let page = tree.pages e (q / 512) u (omega (arith, le)) lt' at_u in
      below_eq k grown (some u) (q % 512) λ u' same.
        let uu : u ≡ u' = some_eq same in
        subst (λ u'. grown.words (slot u' (q % 512)) ≡ k.words (slot u' (q % 512))) uu
          (grown_other u (q % 512) page
            (λ is_r. (tree.used e (q / 512) u (omega (arith, le)) lt' at_u).0 (sym is_r))
            (omega arith)
            (λ slots.
              let (tu, ij) = slot-ne end t u i (q % 512) t-IsPage page i_lt (omega arith) slots in
              let (de, pq) =
                tree.once d p e (q / 512) t (omega (arith, d_lt)) (omega (arith, le)) p_lt lt' at
                  (at_u ∙ ap some (sym tu)) in
              other (sym de) (omega (arith, pq, ij))))

  was_none : (e q : ℕ) → e ≡ suc d → q ≡ p * 512 + i → table k root e q ≡ none
  unfolding table
  was_none e q ee qq =
      let pre : (p * 512 + i) / 512 ≡ p = omega (arith, i_lt) in
      let idx : (p * 512 + i) % 512 ≡ i = omega (arith, i_lt) in
      let there : table k root (suc d) (p * 512 + i) ≡ none = rw (pre, idx) was_missing in
      rw (ee, qq) there

  table-Grown : (e q : ℕ) → e ≤ 2 → q < 512 ^ e → Grown e q
  unfolding table below
  table-Grown zero q le lt = inr refl
  table-Grown (suc e) q le lt =
      let lt' = shorter e q le lt in
      elim (table-Grown e (q / 512) (omega (arith, le)) lt') [
        | inl (ee, qq, new) ↦
            let old = was_none e (q / 512) ee qq in
            inr (rw (new, old) (below-r (q % 512) (omega arith)))
        | inr same ↦ elim (Option-cases (table k root e (q / 512))) [
          | inl gone ↦ inr (rw (same, gone) refl)
          | inr (u, at_u) ↦ elim (Bool-cases (e == d && q == p * 512 + i)) [
            | inl here ↦
                let de : e ≡ d = ground (arith, here) in
                let qq : q ≡ p * 512 + i = ground (arith, here) in
                let pre : q / 512 ≡ p = omega (arith, qq, i_lt) in
                let idx : q % 512 ≡ i = omega (arith, qq, i_lt) in
                let at' : table k root e (q / 512) ≡ some t = rw (de, pre) at in
                inl (ap suc de, qq, rw (same, at', idx) below-t)
            | inr away ↦ inr (
                rw (same, at_u)
                  (other-Grown e q u le lt at_u λ de qq.
                    let h = eq→== e d de in
                    let h' = eq→== q (p * 512 + i) qq in ground (arith, away, h, h')))
          ]
        ]
      ]

  pub entry-grown : (vpn : ℕ) → vpn < 512 ^ 3 → entry grown root vpn ≡ entry k root vpn
  unfolding entry word_at
  entry-grown vpn lt =
      let lt' : vpn / 512 < 512 ^ 2 = omega (arith, lt) in
      elim (table-Grown 2 (vpn / 512) (omega arith) lt') [
        | inl (dd, qq, new) ↦
            let old = was_none 2 (vpn / 512) dd qq in
            rw (new, old)
              (grown_zero (vpn % 512) (omega arith)
                (λ e. t-ne-r (slot-ne end t r i (vpn % 512) t-IsPage fresh i_lt (omega arith) e).0))
        | inr same ↦ elim (Option-cases (table k root 2 (vpn / 512))) [
          | inl gone ↦ rw (same, gone) refl
          | inr (u, at_u) ↦
              let page = tree.pages 2 (vpn / 512) u (omega arith) lt' at_u in
              rw (same, at_u)
                (grown_other u (vpn % 512) page
                  (λ is_r. (tree.used 2 (vpn / 512) u (omega arith) lt' at_u).0 (sym is_r))
                  (omega arith)
                  (λ slots.
                    let (tu, ij) =
                      slot-ne end t u i (vpn % 512) t-IsPage page i_lt (omega arith) slots in
                    let (d2, _) =
                      tree.once d p 2 (vpn / 512) t (omega (arith, d_lt)) (omega arith) p_lt lt' at
                        (at_u ∙ ap some (sym tu)) in
                    omega (arith, d2, d_lt)))
        ]
      ]

  pub table-new : table grown root (suc d) (p * 512 + i) ≡ some r
  unfolding table
  table-new =
      let pre : (p * 512 + i) / 512 ≡ p = omega (arith, i_lt) in
      let idx : (p * 512 + i) % 512 ≡ i = omega (arith, i_lt) in
      elim (table-Grown d p (omega (arith, d_lt)) p_lt) [
        | inl (dd, _, _) ↦ absurd (omega (arith, dd))
        | inr same ↦ rw (pre, idx, same, at) below-t
      ]

  -- A table is `r`, and then it is the new one, or it was there.
  where_from :
      (e q u : ℕ)
      → e ≤ 2
      → q < 512 ^ e
      → table grown root e q ≡ some u
      → ((e ≡ suc d) × (q ≡ p * 512 + i) × (r ≡ u)) ⊎ (table k root e q ≡ some u)
  where_from e q u le lt at_u = elim (table-Grown e q le lt) [
    | inl (ee, qq, new) ↦ inl (ee, qq, some_eq (sym new ∙ at_u))
    | inr same ↦ inr (sym same ∙ at_u)
  ]

  not_old : (e q u : ℕ) → e ≤ 2 → q < 512 ^ e → table k root e q ≡ some u → r ≢ u
  not_old e q u le lt at_u = (tree.used e q u le lt at_u).0

  pub IsTree-grown : IsTree end grown root ps
  IsTree-grown = record {
    free = record {
      linked =
          Linked-Outside end t (zero_page r k1).words grown.words k1.freelist ps t-IsPage
            (λ a h.
              update_ne (zero_page r k1).words (slot t i) a (table_entry r)
                λ e. omega (arith, e, h, i_lt))
            free1.pages (tree.used d p t (omega (arith, d_lt)) p_lt at).1
            (Linked-Outside end r k1.words (zero_page r k1).words k1.freelist ps fresh
              (fill_page-Outside r 0 k1.words) free1.pages others free1.linked);
      pages = free1.pages;
    };
    pages = λ e q u le lt at_u. elim (where_from e q u le lt at_u) [
      | inl (_, _, is_r) ↦ subst (IsPage end) is_r fresh
      | inr old ↦ tree.pages e q u le lt old
    ];
    used = λ e q u le lt at_u. elim (where_from e q u le lt at_u) [
      | inl (_, _, is_r) ↦ subst (λ u. All (λ s. s ≢ u) ps) is_r others
      | inr old ↦ (tree.used e q u le lt old).1
    ];
    once = λ e q e' q' u le le' lt lt' at_u at_u'. elim (where_from e q u le lt at_u) [
      | inl (ee, qq, is_r) ↦ elim (where_from e' q' u le' lt' at_u') [
        | inl (ee', qq', _) ↦ (ee ∙ sym ee', qq ∙ sym qq')
        | inr old ↦ absurd (not_old e' q' u le' lt' old is_r)
      ]
      | inr old ↦ elim (where_from e' q' u le' lt' at_u') [
        | inl (_, _, is_r) ↦ absurd (not_old e q u le lt old is_r)
        | inr old' ↦ tree.once e q e' q' u le le' lt lt' old old'
      ]
    ];
  }
