-- ===== src/File/Tests.antt =====
-- Runs of the file table, and examples for its theorems.
use os_labs.Prelude.{◌≡◌, refl, true, false, Option, none, some, [], ◌∷◌, update, arith}
use os_labs.File.{
  File, Files, fd_none, fd_inode, filealloc, alloc_loop, filedup, fileclose, release_of, Release,
  nothing, put_inode, set_ref,
}
use os_labs.File.Open.{open_inode}
use os_labs.File.Handles.{Counted, Owed}
use os_labs.File.Count.{
  Reach, start, opened, inode_opened, dupped, Reach-Counted, Closed, fileclose-Closed,
}

abbrev closed_file : File
closed_file = record {
  type = fd_none;
  ref = 0;
  readable = false;
  writable = false;
  pipe = 0;
  ip = 0;
  off = 0;
  major = 0;
}

abbrev no_files : Files
no_files i = closed_file

-- File 0 with one handle, and with two.
abbrev one_file : Files
one_file = set_ref 0 1 no_files

abbrev two_handles : Files
two_handles = set_ref 0 2 one_file

opens : Reach one_file (0 ∷ []) (λ i. nothing)
unfolding filealloc alloc_loop
opens = opened 0 (start {t = no_files} (λ i. refl) (λ i. refl)) refl

dups : Reach two_handles (0 ∷ 0 ∷ []) (λ i. nothing)
unfolding filedup
dups = dupped 0 opens (omega arith) refl

Reach-Counted_example : Counted two_handles (0 ∷ 0 ∷ [])
Reach-Counted_example = Reach-Counted dups

-- File 0 open for inode 7, with one handle.
abbrev open_file : Files
open_file = update one_file 0 (open_inode false 7 0 0 (one_file 0))

abbrev owes_inode : Owed
owes_inode = update (λ i. nothing) 0 (put_inode 7)

opens_inode : Reach open_file (0 ∷ []) owes_inode
opens_inode = inode_opened 0 false 7 0 0 opens refl refl

fileclose-Closed_example : Closed open_file (0 ∷ []) owes_inode 0 (fileclose 0 open_file)
fileclose-Closed_example = fileclose-Closed 0 opens_inode (omega arith)

-- A file that is open for an inode.
abbrev inode_file : File
inode_file = record closed_file { type = fd_inode; ref = 1; writable = true; off = 7 }

abbrev inode_files : Files
inode_files i = inode_file

abbrev release_at : Option (Release × Files) → Release
release_at none = nothing
release_at (some (r, t)) = r

last_handle : release_at (fileclose 0 inode_files) ≡ put_inode 0
unfolding fileclose release_of
last_handle = refl
