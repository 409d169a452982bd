-- ===== src/File/Handles.antt =====
-- The calls of kernel/file.c on the reference counts and on what a file has to release.
use os_labs.Prelude.{
  ℕ, zero, suc, ◌+◌, ◌%◌, ◌^◌, ◌<◌, ◌≤◌, ◌≡◌, ◌≢◌, inl, inr, refl, sym, ap, ◌∙◌, Bool, true, false,
  Option, none, some, List, [], ◌∷◌, ◌==◌, if◌then◌else◌, update, update_self, update_ne, update_eq,
  ==→eq, ==→ne, arith, Bool-cases,
}
use os_labs.File.Open.{open_inode}
use os_labs.File.{
  File, Files, nfile, is_positive, set_ref, alloc_loop, filealloc, filedup, Release, put_inode,
  release_of,
}

-- How many of the handles are for file `i`.
abbrev pub count : ℕ → List ℕ → ℕ
count i [] = 0
count i (j ∷ held) = if j == i then suc (count i held) else count i held

-- The handles with one for file `i` given up.
abbrev pub remove : ℕ → List ℕ → List ℕ
remove i [] = []
remove i (j ∷ held) = if j == i then held else j ∷ remove i held

-- Every count in the table is that of the handles.
abbrev pub Counted : Files → List ℕ → Type 0
Counted t held = (i : ℕ) → (t i).ref ≡ count i held

-- What the last `fileclose` of each file has to release.
abbrev pub Owed : Type 0
Owed = ℕ → Release

pub count-remove_self :
    (i : ℕ) (held : List ℕ) → 0 < count i held → suc (count i (remove i held)) ≡ count i held
count-remove_self i [] h = absurd (omega (arith, h))
count-remove_self i (j ∷ held) h = let rest = count-remove_self i held in ground arith

pub count-remove_ne : (i k : ℕ) (held : List ℕ) → i ≢ k → count k (remove i held) ≡ count k held
count-remove_ne i k [] ne = refl
count-remove_ne i k (j ∷ held) ne = let rest = count-remove_ne i k held ne in ground arith

-- What `filealloc` may return.
abbrev pub Opened : Files → Option ℕ × Files → Type 0
Opened t (none, t') = t' ≡ t
Opened t (some i, t') = ((t i).ref ≡ 0) × (t' ≡ set_ref i 1 t)

alloc_loop-Opened : (left i : ℕ) (t : Files) → Opened t (alloc_loop left i t)
unfolding alloc_loop
alloc_loop-Opened zero i t = refl
alloc_loop-Opened (suc left) i t = elim (Bool-cases ((t i).ref == 0)) [
  | inl e ↦ rw e (ground arith)
  | inr e ↦ rw e (alloc_loop-Opened left (i + 1) t)
]

pub filealloc-Opened : (t : Files) → Opened t (filealloc t)
unfolding filealloc
filealloc-Opened t = alloc_loop-Opened nfile 0 t

-- A reference count that changes together with the handles.
pub put-Counted :
    (i : ℕ) (f : File) (t : Files) (held held' : List ℕ)
    → Counted t held
    → f.ref ≡ count i held'
    → ((k : ℕ) → i ≢ k → count k held' ≡ count k held)
    → Counted (update t i f) held'
put-Counted i f t held held' c e others k =
    let same = c k in let rest : i ≢ k → _ = others k in ground (arith, e)

-- The type of every file is that of its debt.
abbrev pub Owes : Files → Owed → Type 0
Owes t owed = (i : ℕ) → release_of (t i) ≡ owed i

pub put-Owes :
    (i : ℕ) (f : File) (t : Files) (owed owed' : Owed)
    → Owes t owed
    → release_of f ≡ owed' i
    → ((k : ℕ) → i ≢ k → owed' k ≡ owed k)
    → Owes (update t i f) owed'
put-Owes i f t owed owed' o e others k = elim (Bool-cases (i == k)) [
  | inl same ↦ let at = ==→eq i k same in ap release_of (update_eq t i k f at) ∙ e ∙ ap owed' at
  | inr other ↦
      let ne = ==→ne i k other in ap release_of (update_ne t i k f ne) ∙ o k ∙ sym (others k ne)
]

-- A change of the count alone.
pub ref-Owes : (i n : ℕ) (t : Files) (owed : Owed) → Owes t owed → Owes (set_ref i n t) owed
unfolding release_of
ref-Owes i n t owed o = put-Owes i (record (t i) { ref = n }) t owed owed o (o i) (λ k ne. refl)

-- What `filedup` does with a file that has handles: it panics only where the count is at its top.
abbrev pub Dupped : Files → List ℕ → ℕ → Option Files → Type 0
Dupped t held i none = 2 ^ 31 ≤ count i held
Dupped t held i (some t') = Counted t' (i ∷ held) × ((owed : Owed) → Owes t owed → Owes t' owed)

pub dup-Dupped :
    (t : Files) (held : List ℕ) (i : ℕ)
    → Counted t held
    → 0 < count i held
    → Dupped t held i (filedup i t)
unfolding filedup
dup-Dupped t held i c pos = elim (Bool-cases (is_positive (t i).ref)) [
  | inl p ↦ rw p (
    put-Counted i (record (t i) { ref = ((t i).ref + 1) % 2 ^ 32 }) t held (i ∷ held) c
        (let at = c i in ground (arith, p)) (λ k ne. ground arith),
    ref-Owes i (((t i).ref + 1) % 2 ^ 32) t,
  )
  | inr p ↦ rw p (let at = c i in ground (arith, p))
]

-- A file that is filled in keeps its count.
pub fill-Counted :
    (i : ℕ) (f : File) (t : Files) (held : List ℕ)
    → Counted t held
    → f.ref ≡ (t i).ref
    → Counted (update t i f) held
fill-Counted i f t held c e = put-Counted i f t held held c (e ∙ c i) (λ k ne. refl)

pub fill-Owes :
    (i : ℕ) (f : File) (t : Files) (owed : Owed) (r : Release)
    → Owes t owed
    → release_of f ≡ r
    → Owes (update t i f) (update owed i r)
fill-Owes i f t owed r o e =
    put-Owes i f t owed (update owed i r) o (e ∙ sym (update_self owed i r))
      (λ k ne. update_ne owed i k r ne)

pub open_inode-ref :
    (is_device : Bool) (ip major omode : ℕ) (f : File)
    → ((open_inode is_device ip major omode f).ref ≡ f.ref)
      × (release_of (open_inode is_device ip major omode f) ≡ put_inode ip)
unfolding release_of
open_inode-ref true ip major omode f = (refl, refl)
open_inode-ref false ip major omode f = (refl, refl)
