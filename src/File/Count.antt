-- ===== src/File/Count.antt =====
-- The reference counts of kernel/file.c against the handles that processes hold.
use mathlib.Core.Path.{subst}
use os_labs.Prelude.{
  ℕ, ◌-◌, ◌^◌, ◌<◌, ◌≤◌, ◌≡◌, inl, inr, refl, sym, Bool, true, false, Option, none, some, List, [],
  ◌∷◌, ◌==◌, if◌then◌else◌, update, update_self, update_ne, arith, Bool-cases,
}
use os_labs.File.Open.{open_inode, read_end, write_end_of}
use os_labs.File.{
  File, Files, fd_none, is_positive, set_off, filealloc, filedup, Release, nothing, close_pipe,
  put_inode, release_of, fileclose,
}
use os_labs.File.Handles.{
  count, remove, Counted, Owed, count-remove_self, count-remove_ne, Opened, filealloc-Opened,
  put-Counted, Owes, put-Owes, ref-Owes, Dupped, dup-Dupped, fill-Counted, fill-Owes,
  open_inode-ref,
}

-- A handle of file `i` is given up.
abbrev pub settle : ℕ → List ℕ → Owed → Owed
settle i held owed = if count i held == 1 then update owed i nothing else owed

-- The tables, handles and debts that calls lead to. A process passes only handles that it holds, and
-- fills in a file that it has just allocated.
pub data Reach : Files → List ℕ → Owed → Type 0 where
  start :
      {t : Files}
      → ((i : ℕ) → (t i).ref ≡ 0)
      → ((i : ℕ) → (t i).type ≡ fd_none)
      → Reach t [] (λ i. nothing)
  opened :
      {t t' : Files} {held : List ℕ} {owed : Owed} (i : ℕ)
      → Reach t held owed
      → filealloc t ≡ (some i, t')
      → Reach t' (i ∷ held) owed
  inode_opened :
      {t : Files} {held : List ℕ} {owed : Owed} (i : ℕ) (is_device : Bool) (ip major omode : ℕ)
      → Reach t held owed
      → count i held ≡ 1
      → owed i ≡ nothing
      → Reach
          (update t i (open_inode is_device ip major omode (t i)))
          held
          (update owed i (put_inode ip))
  read_end_opened :
      {t : Files} {held : List ℕ} {owed : Owed} (i pi : ℕ)
      → Reach t held owed
      → count i held ≡ 1
      → owed i ≡ nothing
      → Reach (update t i (read_end pi (t i))) held (update owed i (close_pipe pi false))
  write_end_opened :
      {t : Files} {held : List ℕ} {owed : Owed} (i pi : ℕ)
      → Reach t held owed
      → count i held ≡ 1
      → owed i ≡ nothing
      → Reach (update t i (write_end_of pi (t i))) held (update owed i (close_pipe pi true))
  moves :
      {t : Files} {held : List ℕ} {owed : Owed} (i off : ℕ)
      → Reach t held owed
      → Reach (set_off i off t) held owed
  dupped :
      {t t' : Files} {held : List ℕ} {owed : Owed} (i : ℕ)
      → Reach t held owed
      → 0 < count i held
      → filedup i t ≡ some t'
      → Reach t' (i ∷ held) owed
  closed :
      {t t' : Files} {held : List ℕ} {owed : Owed} (i : ℕ) (r : Release)
      → Reach t held owed
      → 0 < count i held
      → fileclose i t ≡ some (r, t')
      → Reach t' (remove i held) (settle i held owed)

-- What `fileclose` does with a file that has handles: the last one releases what is owed, and no
-- other one does anything.
abbrev pub Closed : Files → List ℕ → Owed → ℕ → Option (Release × Files) → Type 0
Closed t held owed i none = 2 ^ 31 ≤ count i held
Closed t held owed i (some (r, t')) =
    Counted t' (remove i held) × (r ≡ (if count i held == 1 then owed i else nothing))

-- With the debts that remain.
abbrev Settled : Files → List ℕ → Owed → ℕ → Option (Release × Files) → Type 0
Settled t held owed i none = 2 ^ 31 ≤ count i held
Settled t held owed i (some (r, t')) =
    Counted t' (remove i held)
    × (r ≡ (if count i held == 1 then owed i else nothing))
    × Owes t' (settle i held owed)

Settled-Closed :
    (t : Files) (held : List ℕ) (owed : Owed) (i : ℕ) (o : Option (Release × Files))
    → Settled t held owed i o
    → Closed t held owed i o
Settled-Closed t held owed i none h = h
Settled-Closed t held owed i (some (r, t')) (c, e, _) = (c, e)

close-Settled :
    (t : Files) (held : List ℕ) (owed : Owed) (i : ℕ)
    → Counted t held
    → Owes t owed
    → 0 < count i held
    → Settled t held owed i (fileclose i t)
unfolding fileclose
close-Settled t held owed i c o pos = elim (Bool-cases (is_positive (t i).ref)) [
  | inr p ↦ rw p (let at = c i in ground (arith, p))
  | inl p ↦ elim (Bool-cases (is_positive ((t i).ref - 1))) [
    | inl more ↦
        let n : (count i held == 1) ≡ false = let at = c i in ground (arith, more) in
        rw (p, more, n)
          (
            put-Counted i (record (t i) { ref = (t i).ref - 1 }) t held (remove i held) c
                (let at = c i in let left = count-remove_self i held pos in omega arith)
                (λ k ne. count-remove_ne i k held ne),
            refl,
            ref-Owes i ((t i).ref - 1) t owed o,
          )
    | inr last ↦
        let n : (count i held == 1) ≡ true = let at = c i in ground (arith, p, last) in
        rw (p, last, n)
          (
            put-Counted i (record (t i) { ref = 0; type = fd_none }) t held (remove i held) c
                (let at = c i in let left = count-remove_self i held pos in ground (arith, n))
                (λ k ne. count-remove_ne i k held ne),
            o i,
            put-Owes i (record (t i) { ref = 0; type = fd_none }) t owed (update owed i nothing) o
                (unfold release_of in sym (update_self owed i nothing))
                (λ k ne. update_ne owed i k nothing ne),
          )
  ]
]

Reach-both :
    {t : Files} {held : List ℕ} {owed : Owed} → Reach t held owed → Counted t held × Owes t owed
unfolding release_of
Reach-both (start zeros none_open) = (zeros, λ i. rw (none_open i) refl)
Reach-both (opened {t} {t'} {held} {owed} i r e) =
    let (free, at) = subst (Opened t) e (filealloc-Opened t) in
    let (c, o) = Reach-both r in
    subst (λ t. Counted t (i ∷ held) × Owes t owed) (sym at)
      (
        put-Counted i (record (t i) { ref = 1 }) t held (i ∷ held) c
            (let n = c i in ground (arith, free)) (λ k ne. ground arith),
        ref-Owes i 1 t owed o,
      )
Reach-both (inode_opened {t} {held} {owed} i is_device ip major omode r one new) =
    let (c, o) = Reach-both r in
    let f = open_inode is_device ip major omode (t i) in
    let (ref, rel) = open_inode-ref is_device ip major omode (t i) in
    (fill-Counted i f t held c ref, fill-Owes i f t owed (put_inode ip) o rel)
Reach-both (read_end_opened {t} {held} {owed} i pi r one new) =
    let (c, o) = Reach-both r in
    let f = read_end pi (t i) in
    (fill-Counted i f t held c refl, fill-Owes i f t owed (close_pipe pi false) o refl)
Reach-both (write_end_opened {t} {held} {owed} i pi r one new) =
    let (c, o) = Reach-both r in
    let f = write_end_of pi (t i) in
    (fill-Counted i f t held c refl, fill-Owes i f t owed (close_pipe pi true) o refl)
Reach-both (moves {t} {held} {owed} i off r) =
    let (c, o) = Reach-both r in
    let f : File = record (t i) { off = off } in
    (fill-Counted i f t held c refl, put-Owes i f t owed owed o (o i) (λ k ne. refl))
Reach-both (dupped {t} {t'} {held} {owed} i r pos e) =
    let (c, o) = Reach-both r in
    let (c', o') = subst (Dupped t held i) e (dup-Dupped t held i c pos) in (c', o' owed o)
Reach-both (closed {t} {t'} {held} {owed} i rel r pos e) =
    let (c, o) = Reach-both r in
    let (c', _, o') = subst (Settled t held owed i) e (close-Settled t held owed i c o pos) in
    (c', o')

-- In every reachable state, the count of each file is the number of its handles.
pub Reach-Counted : {t : Files} {held : List ℕ} {owed : Owed} → Reach t held owed → Counted t held
Reach-Counted r = (Reach-both r).0

-- In a reachable state, `fileclose` of a file with a handle leaves the counts to the handles that
-- remain. If that was the last handle, it releases what the file was opened for, the inode, or the
-- read or write end of the pipe, and otherwise nothing. It panics only at 2 ^ 31 handles.
pub fileclose-Closed :
    {t : Files} {held : List ℕ} {owed : Owed} (i : ℕ)
    → Reach t held owed
    → 0 < count i held
    → Closed t held owed i (fileclose i t)
fileclose-Closed {t} {held} {owed} i r pos =
    let (c, o) = Reach-both r in
    Settled-Closed t held owed i (fileclose i t) (close-Settled t held owed i c o pos)
