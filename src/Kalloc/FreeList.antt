-- ===== src/Kalloc/FreeList.antt =====
-- The list of the free pages, and how `kalloc` and `kfree` change it.
use os_labs.Prelude.{
  ℕ, ◌+◌, ◌%◌, ◌≤◌, ◌<◌, ◌≡◌, refl, ◌≢◌, ◌⊎◌, ◌∙◌, false, not, ◌||◌, some, List, [], ◌∷◌, ltb, leb,
  ◌==◌, update, update_self, update_ne, arith, All, eq→==, ne→==,
}
use os_labs.Kalloc.{
  page_size, phys_stop, Words, Kmem, fill_page, free_junk, alloc_junk, kfree, kalloc,
}

-- A page that `kfree` takes.
pub record IsPage (end pa : ℕ) : Type 0 where
  pub aligned : pa % page_size ≡ 0
  pub low : end ≤ pa
  pub high : pa < phys_stop

-- The pages that are linked from `head` on are `ps`.
abbrev pub Linked : Words → (head : ℕ) → List ℕ → Type 0
Linked words head [] = head ≡ 0
Linked words head (p ∷ ps) = (head ≡ p) × (0 < p) × Linked words (words p) ps

-- `ps` are pages, each once.
abbrev pub Pages : (end : ℕ) → List ℕ → Type 0
Pages end [] = Unit
Pages end (p ∷ ps) = IsPage end p × All (λ q. q ≢ p) ps × Pages end ps

-- The state of the allocator: its list is `ps`.
pub record Free (end : ℕ) (k : Kmem) (ps : List ℕ) : Type 0 where
  pub linked : Linked k.words k.freelist ps
  pub pages : Pages end ps

-- Memory agrees outside of a page.
abbrev pub Outside : (pa : ℕ) → (before after : Words) → Type 0
Outside pa before after = (a : ℕ) → (a < pa) ⊎ (pa + page_size ≤ a) → after a ≡ before a

-- Distinct pages do not overlap.
pub apart : (end p q : ℕ) → IsPage end p → IsPage end q → q ≢ p → (q < p) ⊎ (p + page_size ≤ q)
apart end p q h k ne = omega (arith, h.aligned, k.aligned)

pub Linked-Outside :
    (end pa : ℕ) (before after : Words) (head : ℕ) (ps : List ℕ)
    → IsPage end pa
    → Outside pa before after
    → Pages end ps
    → All (λ q. q ≢ pa) ps
    → Linked before head ps
    → Linked after head ps
Linked-Outside end pa before after head [] page out pages others l = l
Linked-Outside end pa before after head (p ∷ ps) page out pages others l =
    let same = out p (apart end pa p page pages.0 others.0) in
    (
      l.0,
      l.1,
      Linked-Outside end pa before after (after p) ps page out pages.2 others.1 (rw same l.2),
    )

pub fill_page-Outside : (pa v : ℕ) (words : Words) → Outside pa words (fill_page pa v words)
unfolding fill_page
fill_page-Outside pa v words a h = ground (arith, h)

-- `kfree` of a page that is not free, at or above `end` and not address 0, puts it in front of the
-- free pages and changes no memory outside of it; it does not panic.
pub kfree-Free :
    (end pa : ℕ) (k : Kmem) (ps : List ℕ)
    → 0 < end
    → IsPage end pa
    → All (λ q. q ≢ pa) ps
    → Free end k ps
    → (k' : Kmem) × (kfree end pa k ≡ some k') × Free end k' (pa ∷ ps) × Outside pa k.words k'.words
unfolding kfree
kfree-Free end pa k ps pos page others f =
    let e : (not (pa % page_size == 0) || ltb pa end || leb phys_stop pa) ≡ false =
      ground (arith, page.aligned, page.low, page.high) in
    let words = update (fill_page pa free_junk k.words) pa k.freelist in
    let out : Outside pa k.words words = λ a h.
      update_ne (fill_page pa free_junk k.words) pa a k.freelist (omega arith)
      ∙ fill_page-Outside pa free_junk k.words a h in
    (
      record { freelist = pa; words = words },
      rw e refl,
      record {
        linked = (
          refl,
          omega (arith, page.low),
          rw (update_self (fill_page pa free_junk k.words) pa k.freelist)
              (Linked-Outside end pa k.words words k.freelist ps page out f.pages others f.linked),
        );
        pages = (page, others, f.pages);
      },
      out,
    )

-- `kalloc` takes the first of the free pages, if there is one, and changes no memory outside of it;
-- with none it returns 0 and changes nothing. The page is none of those that are still free.
abbrev pub Allocated : (end : ℕ) → Kmem → List ℕ → ℕ × Kmem → Type 0
Allocated end k [] r = r ≡ (0, k)
Allocated end k (p ∷ ps) (r, k') =
    (r ≡ p)
    × (0 < r)
    × IsPage end r
    × All (λ q. q ≢ r) ps
    × Free end k' ps
    × Outside r k.words k'.words

pub kalloc-Allocated :
    (end : ℕ) (k : Kmem) (ps : List ℕ) → Free end k ps → Allocated end k ps (kalloc k)
unfolding kalloc
kalloc-Allocated end k [] f = rw (eq→== k.freelist 0 f.linked) refl
kalloc-Allocated end k (p ∷ ps) f =
    let at : k.freelist ≡ p = f.linked.0 in
    let nz : (p == 0) ≡ false = ne→== p 0 (omega (arith, f.linked.1)) in
    let out = fill_page-Outside p alloc_junk k.words in
    let (page, others, rest) = f.pages in
    simp (at, nz)
      (
        refl,
        f.linked.1,
        page,
        others,
        record {
          linked =
              Linked-Outside end p k.words (fill_page p alloc_junk k.words) (k.words p) ps page out
                rest others f.linked.2;
          pages = rest;
        },
        out,
      )
