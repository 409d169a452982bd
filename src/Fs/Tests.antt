-- ===== src/Fs/Tests.antt =====
-- The file system on a small disk.
use os_labs.Prelude.{
  ℕ, zero, suc, ◌+◌, ◌%◌, ltb, Bool, ◌≡◌, refl, true, false, some, List, [], ◌∷◌, ◌==◌,
  if◌then◌else◌, arith,
}
use os_labs.BlockCache.{Block}
use os_labs.Fs.{Superblock, Inode, Fs, set_inode}
use os_labs.Fs.Blocks.{balloc_loop, balloc, find_clear}
use os_labs.Fs.Inodes.{iget, ilock, iupdate}
use os_labs.Fs.Extents.{bmap}
use os_labs.Fs.Path.{skipelem, skip_slashes, element, cut_name}
use os_labs.Fs.Names.{Step, skipelem-Step}
use os_labs.Fs.Again.{Kept, bmap-Kept}
use os_labs.Fs.Disk.{Locked, ilock-iupdate}
use os_labs.Fs.FreeMap.{Allocated, balloc-Allocated}
use os_labs.Fs.Table.{Got, iget-Got}
use os_labs.Fs.Write.{inode_table, inode_table-Bounded}
use os_labs.File.{Files, fd_inode, filewrite}
use os_labs.File.Chunks.{Written, filewrite-Written}
use os_labs.Panic.{done}

abbrev sb : Superblock
sb = record {
  magic = 0x10203040;
  size = 1000;
  nblocks = 954;
  ninodes = 200;
  nlog = 30;
  logstart = 2;
  inodestart = 32;
  bmapstart = 45;
}

-- A file with no blocks, in use once.
abbrev file : Inode
file = record {
  dev = 1;
  inum = 17;
  ref = 1;
  valid = true;
  type_of = 2;
  major = 0;
  minor = 0;
  nlink = 1;
  size = 0;
  addrs = λ k. 0;
}

-- Blocks 0 to 45 are in use, and entry 3 of the table.
abbrev map : Block
map k = if k == 0 then 0xffffffff else if k == 1 then 0x3fff else 0

abbrev fs : Fs
fs = record {
  sb = sb;
  blocks = λ b. if b == 45 then map else (λ k. 0);
  logged = [];
  inode = λ i. if i == 3 then file else record file { ref = 0 };
}

-- `//usr/bin`
abbrev path : List ℕ
path = b'/' ∷ b'/' ∷ b'u' ∷ b's' ∷ b'r' ∷ b'/' ∷ b'b' ∷ b'i' ∷ b'n' ∷ []

skips_first : skipelem path ≡ some (b'u' ∷ b's' ∷ b'r' ∷ [], b'b' ∷ b'i' ∷ b'n' ∷ [])
unfolding skipelem skip_slashes element cut_name
skips_first = refl

skipelem-Step_example : Step path (skipelem path)
skipelem-Step_example = skipelem-Step path

finds_free : (balloc fs).0 ≡ 46
unfolding balloc balloc_loop find_clear
finds_free = refl

bmap-Kept_example : Kept 3 20 (bmap 3 20 fs)
bmap-Kept_example = bmap-Kept 3 20 fs

iget-Got_example : Got 1 17 fs (iget 1 17 fs)
iget-Got_example = iget-Got 1 17 fs

ilock-iupdate_example :
    Locked
      (fs.inode 3)
      5
      (ilock 5 (set_inode 5 (record file { valid = false; size = 9 }) (iupdate 3 fs)))
ilock-iupdate_example =
    ilock-iupdate 3 5 fs (record file { valid = false; size = 9 })
      (record {
        type_short = omega arith;
        minor_short = omega arith;
        in_use = λ e. omega (arith, e);
      })
      refl refl refl

balloc-Allocated_example : Allocated fs (balloc fs)
balloc-Allocated_example = balloc-Allocated fs

-- The memory of a process up to address 9000, with a byte at each that is the address modulo 256.
abbrev bytes_from : (addr n : ℕ) → List ℕ
bytes_from addr zero = []
bytes_from addr (suc n) = (addr % 256) ∷ bytes_from (addr + 1) n

abbrev user_memory : (addr n : ℕ) → Bool × List ℕ
user_memory addr n = (ltb (addr + n) 9000, bytes_from addr n)

-- Every file is open for inode 3, which is empty.
abbrev files : Files
files i = record {
  type = fd_inode;
  ref = 1;
  readable = false;
  writable = true;
  pipe = 0;
  ip = 3;
  off = 0;
  major = 0;
}

-- 8000 bytes from address 2000 on, of which the process has 7000.
filewrite-Written_example :
    Written
      (inode_table user_memory)
      0
      2000
      8000
      files
      (done fs)
      (filewrite (inode_table user_memory) 0 2000 8000 files (done fs))
filewrite-Written_example =
    filewrite-Written (inode_table user_memory) 0 2000 8000 files (done fs)
      (inode_table-Bounded user_memory 3) refl refl (omega arith) (omega arith) (omega arith)
