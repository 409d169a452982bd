-- ===== src/Bio/Find.antt =====
-- The two loops of `bget` of kernel/bio.c over the list of buffers.
use os_labs.Prelude.{
  ℕ, ◌≡◌, ◌≢◌, refl, ap, true, false, Bool-cases, inl, inr, Option, none, some, List, [], ◌∷◌, ◌++◌,
  All, ◌==◌, arith, ==→eq,
}
use os_labs.Bio.{Buf, holds, find_cached, last_unused, find_unused}

-- No buffer of the list holds the block; all buffers of the list are in use.
abbrev pub NotCached : (dev blockno : ℕ) → (ℕ → Buf) → List ℕ → Type 0
NotCached dev blockno buf order = All (λ i. holds dev blockno (buf i) ≡ false) order

abbrev pub InUse : (ℕ → Buf) → List ℕ → Type 0
InUse buf order = All (λ i. (buf i).refcnt ≢ 0) order

-- The buffer `i` stands in the list; it is the first that holds the block, or the last unused one.
pub record Cached (dev blockno : ℕ) (buf : ℕ → Buf) (order : List ℕ) (i : ℕ) : Type 0 where
  pub before : List ℕ
  pub after : List ℕ
  pub in_list : order ≡ before ++ i ∷ after
  pub held : holds dev blockno (buf i) ≡ true

pub record Unused (buf : ℕ → Buf) (order : List ℕ) (i : ℕ) : Type 0 where
  pub before : List ℕ
  pub after : List ℕ
  pub in_list : order ≡ before ++ i ∷ after
  pub free : (buf i).refcnt ≡ 0
  pub behind : InUse buf after

abbrev pub FindsCached : (dev blockno : ℕ) → (ℕ → Buf) → List ℕ → Option ℕ → Type 0
FindsCached dev blockno buf order none = NotCached dev blockno buf order
FindsCached dev blockno buf order (some i) = Cached dev blockno buf order i

abbrev pub FindsUnused : (ℕ → Buf) → List ℕ → Option ℕ → Type 0
FindsUnused buf order none = InUse buf order
FindsUnused buf order (some i) = Unused buf order i

find_cached-next :
    (dev blockno : ℕ) (buf : ℕ → Buf) (i : ℕ) (order : List ℕ) (r : Option ℕ)
    → holds dev blockno (buf i) ≡ false
    → FindsCached dev blockno buf order r
    → FindsCached dev blockno buf (i ∷ order) r
find_cached-next dev blockno buf i order none e h = (e, h)
find_cached-next dev blockno buf i order (some j) e h = record {
  before = i ∷ h.before;
  after = h.after;
  in_list = ap (λ l. i ∷ l) h.in_list;
  held = h.held;
}

pub find_cached-FindsCached :
    (dev blockno : ℕ) (buf : ℕ → Buf) (order : List ℕ)
    → FindsCached dev blockno buf order (find_cached dev blockno buf order)
unfolding find_cached
find_cached-FindsCached dev blockno buf [] = tt
find_cached-FindsCached dev blockno buf (i ∷ order) =
    elim (Bool-cases (holds dev blockno (buf i))) [
      | inl e ↦ rw e (record { before = []; after = order; in_list = refl; held = e })
      | inr e ↦ rw e (
          find_cached-next dev blockno buf i order (find_cached dev blockno buf order) e
            (find_cached-FindsCached dev blockno buf order))
    ]

last_unused-FindsUnused :
    (buf : ℕ → Buf) (i : ℕ) (order : List ℕ) (r : Option ℕ)
    → FindsUnused buf order r
    → FindsUnused buf (i ∷ order) (last_unused buf i r)
last_unused-FindsUnused buf i order none h = elim (Bool-cases ((buf i).refcnt == 0)) [
  | inl e ↦ rw e (record {
    before = [];
    after = order;
    in_list = refl;
    free = ==→eq (buf i).refcnt 0 e;
    behind = h;
  })
  | inr e ↦ rw e (ground (arith, e), h)
]
last_unused-FindsUnused buf i order (some j) h = record {
  before = i ∷ h.before;
  after = h.after;
  in_list = ap (λ l. i ∷ l) h.in_list;
  free = h.free;
  behind = h.behind;
}

pub find_unused-FindsUnused :
    (buf : ℕ → Buf) (order : List ℕ) → FindsUnused buf order (find_unused buf order)
unfolding find_unused
find_unused-FindsUnused buf [] = tt
find_unused-FindsUnused buf (i ∷ order) =
    last_unused-FindsUnused buf i order (find_unused buf order) (find_unused-FindsUnused buf order)
