-- ===== src/Fs/Table.antt =====
-- `iget` of kernel/fs.c: the table of inodes has one entry for an inode.
use mathlib.Core.Path.{subst}
use os_labs.Prelude.{
  ℕ, zero, suc, ◌+◌, ◌%◌, ◌^◌, ◌<◌, ◌≡◌, ◌≢◌, sym, ap, ◌∙◌, Bool, true, false, Bool-cases, ◌⊎◌, inl,
  inr, ◌&&◌, ◌==◌, Option, none, some, update, update_self, update_ne, update_eq, ==→eq, ==→ne,
  arith,
}
use os_labs.Panic.{Run, done, panics, out_of_fuel}
use os_labs.Fs.{Inode, Fs}
use os_labs.Fs.Inodes.{ninode, is_held, keep_empty, find_inode, take_entry, iget}

-- The entry is in use for the inode.
abbrev pub matches : (dev inum : ℕ) → Inode → Bool
matches dev inum ip = is_held ip.ref && ip.dev == dev && ip.inum == inum

-- No inode has two entries.
abbrev pub Unique : (ℕ → Inode) → Type 0
Unique t =
    (dev inum j k : ℕ)
    → j < ninode
    → k < ninode
    → matches dev inum (t j) ≡ true
    → matches dev inum (t k) ≡ true
    → j ≡ k

-- No entry below `n` is in use for the inode.
abbrev Missing : (dev inum : ℕ) → (ℕ → Inode) → (n : ℕ) → Type 0
Missing dev inum t n = (j : ℕ) → j < n → matches dev inum (t j) ≡ false

-- The first free entry below `n`.
abbrev Empty : (ℕ → Inode) → (n : ℕ) → Option ℕ → Type 0
Empty t n none = (j : ℕ) → j < n → (t j).ref ≢ 0
Empty t n (some e) = (e < n) × ((t e).ref ≡ 0)

-- What the loop finds in `n` entries.
abbrev Found : (dev inum : ℕ) → (ℕ → Inode) → (n : ℕ) → Option (Bool × ℕ) → Type 0
Found dev inum t n none = Missing dev inum t n × Empty t n none
Found dev inum t n (some (true, i)) = (i < n) × (matches dev inum (t i) ≡ true)
Found dev inum t n (some (false, i)) = Missing dev inum t n × Empty t n (some i)

keep_empty-Empty :
    (t : ℕ → Inode) (i : ℕ) (empty : Option ℕ)
    → Empty t i empty
    → Empty t (i + 1) (keep_empty empty i (t i))
keep_empty-Empty t i none h = elim (Bool-cases ((t i).ref == 0)) [
  | inl e ↦ rw e (omega arith, ground (arith, e))
  | inr e ↦ rw e (λ j lt. elim (Bool-cases (j == i)) [
    | inl same ↦ subst (λ j. (t j).ref ≢ 0) (sym (==→eq j i same)) (ground (arith, e))
    | inr other ↦ h j (ground (arith, lt, other))
  ])
]
keep_empty-Empty t i (some e) (lt, free) = (omega (arith, lt), free)

Missing-next :
    (dev inum : ℕ) (t : ℕ → Inode) (n : ℕ)
    → Missing dev inum t n
    → matches dev inum (t n) ≡ false
    → Missing dev inum t (n + 1)
Missing-next dev inum t n h e j lt = elim (Bool-cases (j == n)) [
  | inl same ↦ ap (λ j. matches dev inum (t j)) (ground (arith, same)) ∙ e
  | inr other ↦ h j (ground (arith, lt, other))
]

find_inode-Found :
    (dev inum : ℕ) (t : ℕ → Inode) (left i : ℕ) (empty : Option ℕ)
    → Missing dev inum t i
    → Empty t i empty
    → Found dev inum t (i + left) (find_inode dev inum t left i empty)
unfolding find_inode
find_inode-Found dev inum t zero i none miss free =
    subst (λ n. Found dev inum t n none) (omega arith) (miss, free)
find_inode-Found dev inum t zero i (some e) miss free =
    subst (λ n. Found dev inum t n (some (false, e))) (omega arith) (miss, free)
find_inode-Found dev inum t (suc left) i empty miss free =
    elim (Bool-cases (matches dev inum (t i))) [
      | inl e ↦ rw e (omega arith, e)
      | inr e ↦ rw e (
          subst
            (λ n.
              Found dev inum t n (find_inode dev inum t left (i + 1) (keep_empty empty i (t i))))
            (omega arith)
            (find_inode-Found dev inum t left (i + 1) (keep_empty empty i (t i))
              (Missing-next dev inum t i miss e) (keep_empty-Empty t i empty free)))
    ]

-- The entry was in use for the inode, and has one reference more.
pub record Cached (dev inum : ℕ) (ip ip' : Inode) : Type 0 where
  pub in_use : matches dev inum ip ≡ true
  pub ref : ip'.ref ≡ ip.ref + 1
  pub valid : ip'.valid ≡ ip.valid

-- The entry was free, and has one reference and nothing that has been read.
pub record Recycled (ip ip' : Inode) : Type 0 where
  pub free : ip.ref ≡ 0
  pub ref : ip'.ref ≡ 1
  pub valid : ip'.valid ≡ false

-- How `iget` ends: with the one entry for the inode, its own or one that was free, and all other
-- entries as they were; or in a panic, with the inode in no entry and all entries in use.
abbrev pub Got : (dev inum : ℕ) → Fs → Run (ℕ × Fs) → Type 0
Got dev inum fs panics = Missing dev inum fs.inode ninode × Empty fs.inode ninode none
Got dev inum fs out_of_fuel = ⊥
Got dev inum fs (done (i, fs')) =
    (i < ninode)
    × ((fs'.inode i).dev ≡ dev)
    × ((fs'.inode i).inum ≡ inum)
    × (Cached dev inum (fs.inode i) (fs'.inode i)
        ⊎ (Missing dev inum fs.inode ninode × Recycled (fs.inode i) (fs'.inode i)))
    × ((j : ℕ) → i ≢ j → fs'.inode j ≡ fs.inode j)
    × (Unique fs.inode → Unique fs'.inode)

update-matches :
    (t : ℕ → Inode) (i : ℕ) (ip : Inode) (dev inum q : ℕ)
    → (i == q) ≡ true
    → matches dev inum (update t i ip q) ≡ true
    → matches dev inum ip ≡ true
update-matches t i ip dev inum q e m =
    ap (matches dev inum) (sym (update_eq t i q ip (==→eq i q e))) ∙ m

kept-matches :
    (t : ℕ → Inode) (i : ℕ) (ip : Inode) (dev inum q : ℕ)
    → (i == q) ≡ false
    → matches dev inum (update t i ip q) ≡ true
    → matches dev inum (t q) ≡ true
kept-matches t i ip dev inum q e m =
    ap (matches dev inum) (sym (update_ne t i q ip (==→ne i q e))) ∙ m

-- An entry that is in use for no other inode than before, or for one that has no other entry.
Unique-update :
    (t : ℕ → Inode) (i : ℕ) (ip : Inode)
    → ((dev inum k : ℕ)
        → k < ninode
        → i ≢ k
        → matches dev inum ip ≡ true
        → matches dev inum (t k) ≡ true
        → ⊥)
    → Unique t
    → Unique (update t i ip)
Unique-update t i ip alone unique dev inum j k j_lt k_lt mj mk = elim (Bool-cases (i == j)) [
  | inl ij ↦ elim (Bool-cases (i == k)) [
    | inl ik ↦ ground (arith, ij, ik)
    | inr ik ↦ absurd (
        alone dev inum k k_lt (==→ne i k ik) (update-matches t i ip dev inum j ij mj)
          (kept-matches t i ip dev inum k ik mk))
  ]
  | inr ij ↦ elim (Bool-cases (i == k)) [
    | inl ik ↦ absurd (
        alone dev inum j j_lt (==→ne i j ij) (update-matches t i ip dev inum k ik mk)
          (kept-matches t i ip dev inum j ij mj))
    | inr ik ↦
        unique dev inum j k j_lt k_lt (kept-matches t i ip dev inum j ij mj)
          (kept-matches t i ip dev inum k ik mk)
  ]
]

take_entry-Got :
    (dev inum : ℕ) (fs : Fs) (found : Option (Bool × ℕ))
    → Found dev inum fs.inode ninode found
    → Got dev inum fs (take_entry dev inum found fs)
take_entry-Got dev inum fs none h = h
take_entry-Got dev inum fs (some (true, i)) (lt, at) =
    let ip = fs.inode i in
    let ip' : Inode = record ip { ref = (ip.ref + 1) % 2 ^ 32 } in
    let self = update_self fs.inode i ip' in
    (
      lt,
      ap (λ x. x.dev) self ∙ ground (arith, at),
      ap (λ x. x.inum) self ∙ ground (arith, at),
      inl (record {
        in_use = at;
        ref = ap (λ x. x.ref) self ∙ ground (arith, at);
        valid = ap (λ x. x.valid) self;
      }),
      (λ j ne. update_ne fs.inode i j ip' ne),
      λ unique.
          Unique-update fs.inode i ip'
            (λ d n k k_lt ne m mk. ne (unique d n i k lt k_lt (ground (arith, at, m)) mk)) unique,
    )
take_entry-Got dev inum fs (some (false, i)) (miss, (lt, free)) =
    let ip' : Inode = record (fs.inode i) { dev = dev; inum = inum; ref = 1; valid = false } in
    let self = update_self fs.inode i ip' in
    (
      lt,
      ap (λ x. x.dev) self,
      ap (λ x. x.inum) self,
      inr (
        miss,
        record { free = free; ref = ap (λ x. x.ref) self; valid = ap (λ x. x.valid) self },
      ),
      (λ j ne. update_ne fs.inode i j ip' ne),
      Unique-update fs.inode i ip'
          (λ d n k k_lt ne m mk. let none_here = miss k k_lt in ground (arith, m, mk, none_here)),
    )

-- `iget` gives the entry of the inode, with one reference more; or, only if the inode has none, an
-- entry that was free, with one reference and nothing read. It leaves all others, so that an inode
-- has at most one entry if that was so before; and it panics only if the inode has no entry and no
-- entry is free.
pub iget-Got : (dev inum : ℕ) (fs : Fs) → Got dev inum fs (iget dev inum fs)
unfolding iget
iget-Got dev inum fs = take_entry-Got dev inum fs (find_inode dev inum fs.inode ninode 0 none) (
    find_inode-Found dev inum fs.inode ninode 0 none (λ j lt. absurd (omega (arith, lt)))
      (λ j lt. absurd (omega (arith, lt))))
