-- ===== src/Fs/Inodes.antt =====
-- The inodes of kernel/fs.c: the table of those in use, and their images on the disk.
-- A pointer to an inode is its index. Inodes are locked by their callers.
use os_labs.Prelude.{
  ℕ, zero, suc, ◌+◌, ◌-◌, ◌*◌, ◌/◌, ◌%◌, ◌^◌, Bool, true, false, not, ◌&&◌, Option, none, some, ltb,
  leb, ◌==◌, if◌then◌else◌,
}
use os_labs.BlockCache.{Block}
use os_labs.Panic.{Run, done, panics, ◌>>=◌}
use os_labs.Fs.{Superblock, Inode, Fs, log_block, set_inode}

-- NINODE, NDIRECT, NINDIRECT, IPB and IBLOCK
abbrev pub ninode : ℕ
ninode = 50

abbrev pub ndirect : ℕ
ndirect = 12

abbrev pub nindirect : ℕ
nindirect = 256

abbrev pub inodes_per_block : ℕ
inodes_per_block = 16

abbrev pub inode_block : (inum : ℕ) → Superblock → ℕ
inode_block inum sb = inum / inodes_per_block + sb.inodestart

-- `ref > 0` of an `int`.
abbrev pub is_held : ℕ → Bool
is_held ref = ltb 0 ref && ltb ref (2 ^ 31)

-- The first free entry that has been seen.
abbrev pub keep_empty : Option ℕ → (i : ℕ) → Inode → Option ℕ
keep_empty none i ip = if ip.ref == 0 then some i else none
keep_empty (some e) i ip = some e

-- The loop of `iget`: the entry of the inode with true, or a free one with false.
unfoldable pub find_inode :
    (dev inum : ℕ) → (ℕ → Inode) → (left i : ℕ) → (empty : Option ℕ) → Option (Bool × ℕ)
find_inode dev inum t zero i none = none
find_inode dev inum t zero i (some e) = some (false, e)
find_inode dev inum t (suc left) i empty =
    let ip = t i in
    let rest = find_inode dev inum t left (i + 1) (keep_empty empty i ip) in
    if is_held ip.ref && ip.dev == dev && ip.inum == inum then some (true, i) else rest

abbrev add_ref : ℕ → Fs → Fs
add_ref i fs = let ip = fs.inode i in set_inode i (record ip { ref = (ip.ref + 1) % 2 ^ 32 }) fs

abbrev pub take_entry : (dev inum : ℕ) → Option (Bool × ℕ) → Fs → Run (ℕ × Fs)
take_entry dev inum none fs = panics
take_entry dev inum (some (true, i)) fs = done (i, add_ref i fs)
take_entry dev inum (some (false, i)) fs =
    done
      (i, set_inode i (record (fs.inode i) { dev = dev; inum = inum; ref = 1; valid = false }) fs)

unfoldable pub iget : (dev inum : ℕ) → Fs → Run (ℕ × Fs)
iget dev inum fs = take_entry dev inum (find_inode dev inum fs.inode ninode 0 none) fs

unfoldable pub idup : ℕ → Fs → ℕ × Fs
idup i fs = (i, add_ref i fs)

-- Word `k` of `struct dinode`.
abbrev pub dinode_word : Inode → (k : ℕ) → ℕ
dinode_word ip k =
    if k == 0
    then ip.type_of + ip.major * 2 ^ 16
    else if k == 1
    then ip.minor + ip.nlink * 2 ^ 16
    else if k == 2
    then ip.size
    else ip.addrs (k - 3)

-- Inode `inum` is put into its block.
abbrev pub put_dinode : (inum : ℕ) → Inode → Block → Block
put_dinode inum ip d k =
    let first = inum % inodes_per_block * 16 in
    if leb first k && ltb k (first + 16) then dinode_word ip (k - first) else d k

-- The fields of inode `inum` that are on the disk.
abbrev pub get_dinode : (inum : ℕ) → Block → Inode → Inode
get_dinode inum d ip =
    let first = inum % inodes_per_block * 16 in
    record ip {
      type_of = d first % 2 ^ 16;
      major = d first / 2 ^ 16;
      minor = d (first + 1) % 2 ^ 16;
      nlink = d (first + 1) / 2 ^ 16;
      size = d (first + 2);
      addrs = λ k. d (first + 3 + k);
    }

unfoldable pub iupdate : ℕ → Fs → Fs
iupdate i fs =
    let ip = fs.inode i in
    let b = inode_block ip.inum fs.sb in log_block b (put_dinode ip.inum ip (fs.blocks b)) fs

-- Entry `i` is filled from block `d`, if it has not been yet.
abbrev pub load_inode : (i : ℕ) → Inode → Block → Fs → Run Fs
load_inode i ip d fs =
    let read = get_dinode ip.inum d ip in
    if not (is_held ip.ref)
    then panics
    else if ip.valid
    then done fs
    else if read.type_of == 0
    then panics
    else done (set_inode i (record read { valid = true }) fs)

-- `ilock`, once it has the lock; null is for its callers.
unfoldable pub ilock : ℕ → Fs → Run Fs
ilock i fs = let ip = fs.inode i in load_inode i ip (fs.blocks (inode_block ip.inum fs.sb)) fs

-- The block with its number zeroed, and its type.
abbrev new_dinode : (inum type : ℕ) → Block → Block
new_dinode inum type d k =
    let first = inum % inodes_per_block * 16 in
    if leb first k && ltb k (first + 16) then (if k == first then type else 0) else d k

-- The loop of `ialloc`; null is `none`.
unfoldable pub ialloc_loop : (dev type left inum : ℕ) → Fs → Run (Option ℕ × Fs)
ialloc_loop dev type zero inum fs = done (none, fs)
ialloc_loop dev type (suc left) inum fs =
    let b = inode_block inum fs.sb in
    let d = fs.blocks b in
    let found = iget dev inum (log_block b (new_dinode inum type d) fs) in
    let rest = ialloc_loop dev type left (inum + 1) fs in
    if d (inum % inodes_per_block * 16) % 2 ^ 16 == 0
    then (found >>= λ r. done (some r.0, r.1))
    else rest

unfoldable pub ialloc : (dev type : ℕ) → Fs → Run (Option ℕ × Fs)
ialloc dev type fs = ialloc_loop dev type (fs.sb.ninodes - 1) 1 fs
