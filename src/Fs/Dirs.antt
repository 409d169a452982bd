-- ===== src/Fs/Dirs.antt =====
-- Directories and path names of kernel/fs.c.
use os_labs.Prelude.{
  ℕ, zero, suc, ◌+◌, ◌-◌, ◌*◌, ◌/◌, ◌%◌, Bool, true, false, not, ◌&&◌, Option, none, some, List, [],
  ◌∷◌, ◌++◌, ◌==◌, if◌then◌else◌,
}
use os_labs.Panic.{Run, done, panics, out_of_fuel, ◌>>=◌}
use os_labs.Fs.{Fs}
use os_labs.Fs.Inodes.{iget, idup, ilock}
use os_labs.Fs.Extents.{iput, iunlock, iunlockput}
use os_labs.Fs.Data.{readi, writei}
use os_labs.Fs.Path.{dirsiz, skipelem}

-- T_DIR, and the bytes of a `struct dirent`.
abbrev pub t_dir : ℕ
t_dir = 1

abbrev pub dirent_size : ℕ
dirent_size = 16

-- A name in a directory, and one that is looked for, up to a zero.
unfoldable pub same_name : (n : ℕ) → (s t : List ℕ) → Bool
same_name zero s t = true
same_name (suc n) [] [] = true
same_name (suc n) [] (d ∷ t) = d == 0
same_name (suc n) (c ∷ s) [] = c == 0
same_name (suc n) (c ∷ s) (d ∷ t) =
    let rest = same_name n s t in if c == d then (if c == 0 then true else rest) else false

-- `namecmp(s, t) == 0`
abbrev pub namecmp : (s t : List ℕ) → Bool
namecmp s t = same_name dirsiz s t

-- Kernel memory that is read into is the list of its bytes.
abbrev to_kernel : ℕ → List ℕ → List ℕ → Bool × List ℕ
to_kernel dst bytes mem = (true, mem ++ bytes)

-- Bytes `src` to `src + n` of a structure of the kernel.
unfoldable pub slice : List ℕ → (src n : ℕ) → List ℕ
slice bytes src zero = []
slice [] src (suc n) = []
slice (c ∷ bytes) zero (suc n) = c ∷ slice bytes zero n
slice (c ∷ bytes) (suc src) (suc n) = slice bytes src (suc n)

-- The number and the name of an entry.
abbrev pub entry_of : List ℕ → ℕ × List ℕ
entry_of [] = (0, [])
entry_of (a ∷ []) = (0, [])
entry_of (a ∷ b ∷ name) = (a + 256 * b, name)

abbrev pub got_dirent : ℕ × List ℕ × Fs → Run ((ℕ × List ℕ) × Fs)
got_dirent (tot, bytes, fs) = if not (tot == dirent_size) then panics else done (entry_of bytes, fs)

-- The entry at `off`, which takes `readi` two rounds at most.
unfoldable pub read_dirent : (dp off : ℕ) → Fs → Run ((ℕ × List ℕ) × Fs)
read_dirent dp off fs = readi to_kernel (dirent_size + 1) dp 0 off dirent_size fs [] >>= got_dirent

-- The loop of `dirlookup`: the inode and the offset of its entry; null is `none`.
unfoldable pub lookup_loop :
    (dp : ℕ) → (name : List ℕ) → (left off : ℕ) → Fs → Run (Option (ℕ × ℕ) × Fs)
lookup_loop dp name zero off fs = done (none, fs)
lookup_loop dp name (suc left) off fs = do
  ((inum, de_name), fs') ← read_dirent dp off fs
  let rest = lookup_loop dp name left (off + dirent_size) fs'
  if inum == 0
      then rest
      else if namecmp name de_name
      then (iget (fs'.inode dp).dev inum fs' >>= λ r. done (some (r.0, off), r.1))
      else rest

-- The number of entries of a directory.
abbrev pub entries : (dp : ℕ) → Fs → ℕ
entries dp fs = ((fs.inode dp).size + dirent_size - 1) / dirent_size

unfoldable pub dirlookup : (dp : ℕ) → (name : List ℕ) → Fs → Run (Option (ℕ × ℕ) × Fs)
dirlookup dp name fs =
    if not ((fs.inode dp).type_of == t_dir)
    then panics
    else lookup_loop dp name (entries dp fs) 0 fs

-- The loop of `dirlink`: the offset of the first free entry, or of the end.
unfoldable pub free_entry : (dp left off : ℕ) → Fs → Run (ℕ × Fs)
free_entry dp zero off fs = done (off, fs)
free_entry dp (suc left) off fs = do
  ((inum, de_name), fs') ← read_dirent dp off fs
  let rest = free_entry dp left (off + dirent_size) fs'
  if inum == 0 then done (off, fs') else rest

-- `strncpy` of a name into `n` bytes.
unfoldable pub pad_name : (n : ℕ) → List ℕ → List ℕ
pad_name zero name = []
pad_name (suc n) [] = 0 ∷ pad_name n []
pad_name (suc n) (c ∷ name) =
    let rest = pad_name n name in
    let zeros = pad_name n [] in if c == 0 then 0 ∷ zeros else c ∷ rest

abbrev pub dirent_of : (inum : ℕ) → (name : List ℕ) → List ℕ
dirent_of inum name = inum % 256 ∷ inum / 256 % 256 ∷ pad_name dirsiz name

-- `dirlink`: 0 is true, and -1 false.
unfoldable pub dirlink : (dp : ℕ) → (name : List ℕ) → (inum : ℕ) → Fs → Run (Bool × Fs)
dirlink dp name inum fs = do
  (found, fs1) ← dirlookup dp name fs
  elim found [
    | some (ip, off) ↦ iput ip fs1 >>= λ fs. done (false, fs)
    | none ↦ do
      (off, fs2) ← free_entry dp (entries dp fs1) 0 fs1
      (tot, fs3) ←
          writei (λ src n. (true, slice (dirent_of inum name) src n)) (dirent_size + 1) dp 0 off
            dirent_size fs2
      done (tot == dirent_size, fs3)
  ]

abbrev is_empty : List ℕ → Bool
is_empty [] = true
is_empty (c ∷ path) = false

-- The loop of `namex`: the inode, and the last name.
unfoldable pub namex_loop :
    (fuel : ℕ)
    → (nameiparent : Bool) → (path name : List ℕ) → (ip : ℕ) → Fs
    → Run (Option ℕ × List ℕ × Fs)
namex_loop zero nameiparent path name ip fs = out_of_fuel
namex_loop (suc fuel) nameiparent path old ip fs = elim (skipelem path) [
  | none ↦
      if nameiparent then (iput ip fs >>= λ fs. done (none, old, fs)) else done (some ip, old, fs)
  | some (name, rest) ↦ do
    fs1 ← ilock ip fs
    if not ((fs1.inode ip).type_of == t_dir)
        then (iunlockput ip fs1 >>= λ fs. done (none, name, fs))
        else if nameiparent && is_empty rest
        then (iunlock ip fs1 >>= λ fs. done (some ip, name, fs))
        else do
          (next, fs2) ← dirlookup ip name fs1
          fs3 ← iunlockput ip fs2
          elim next [
            | none ↦ done (none, name, fs3)
            | some (next, off) ↦ namex_loop fuel nameiparent rest name next fs3
          ]
]

-- ROOTDEV and ROOTINO are 1.
abbrev pub start : (cwd : ℕ) → (path : List ℕ) → Fs → Run (ℕ × Fs)
start cwd [] fs = done (idup cwd fs)
start cwd (c ∷ path) fs = if c == b'/' then iget 1 1 fs else done (idup cwd fs)

-- `namex` of a process in directory `cwd`.
unfoldable pub namex :
    (fuel cwd : ℕ) → (path : List ℕ) → (nameiparent : Bool) → Fs → Run (Option ℕ × List ℕ × Fs)
namex fuel cwd path nameiparent fs = do
  (ip, fs') ← start cwd path fs
  namex_loop fuel nameiparent path [] ip fs'

-- The inode of a path, and that of its last directory with the last name.
abbrev pub namei : (fuel cwd : ℕ) → (path : List ℕ) → Fs → Run (Option ℕ × Fs)
namei fuel cwd path fs = namex fuel cwd path false fs >>= λ r. done (r.0, r.2)

abbrev pub nameiparent : (fuel cwd : ℕ) → (path : List ℕ) → Fs → Run (Option ℕ × List ℕ × Fs)
nameiparent fuel cwd path fs = namex fuel cwd path true fs
