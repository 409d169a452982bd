-- ===== src/Fs/Extents.antt =====
-- The blocks of an inode in kernel/fs.c, and what frees it.
use os_labs.Prelude.{
  ℕ, zero, suc, ◌+◌, ◌-◌, ◌%◌, ◌^◌, false, not, ◌&&◌, ltb, ◌==◌, if◌then◌else◌, update,
}
use os_labs.Panic.{Run, done, panics, ◌>>=◌}
use os_labs.Fs.{Fs, log_block, set_inode}
use os_labs.Fs.Blocks.{balloc, bfree}
use os_labs.Fs.Inodes.{ndirect, nindirect, is_held, iupdate}

abbrev pub set_addr : (i k addr : ℕ) → Fs → Fs
set_addr i k addr fs =
    let ip = fs.inode i in set_inode i (record ip { addrs = update ip.addrs k addr }) fs

-- A new block is put into `addrs`.
abbrev pub keep_addr : (i k : ℕ) → ℕ × Fs → ℕ × Fs
keep_addr i k (new, fs) = if new == 0 then (0, fs) else (new, set_addr i k new fs)

-- Entry `k` of `addrs`, with a new block where there is none.
abbrev pub own_block : (i k : ℕ) → Fs → ℕ × Fs
own_block i k fs =
    let addr = (fs.inode i).addrs k in
    let new = keep_addr i k (balloc fs) in if addr == 0 then new else (addr, fs)

-- A new block is put into the indirect block `addr`.
abbrev pub keep_entry : (addr bn : ℕ) → ℕ × Fs → ℕ × Fs
keep_entry addr bn (new, fs) =
    if new == 0 then (0, fs) else (new, log_block addr (update (fs.blocks addr) bn new) fs)

-- Entry `bn` of the indirect block `addr`.
abbrev pub indirect_entry : (addr bn : ℕ) → Fs → ℕ × Fs
indirect_entry addr bn fs =
    let entry = fs.blocks addr bn in
    let new = keep_entry addr bn (balloc fs) in if entry == 0 then new else (entry, fs)

-- The block of the indirect block, if there is one.
abbrev pub through_indirect : (bn : ℕ) → ℕ × Fs → Run (ℕ × Fs)
through_indirect bn (addr, fs) =
    if addr == 0 then done (0, fs) else done (indirect_entry addr (bn - ndirect) fs)

unfoldable pub bmap : (i bn : ℕ) → Fs → Run (ℕ × Fs)
bmap i bn fs =
    if ltb bn ndirect
    then done (own_block i bn fs)
    else if ltb (bn - ndirect) nindirect
    then through_indirect bn (own_block i ndirect fs)
    else panics

-- The loop of `itrunc` over the direct blocks.
unfoldable pub free_direct : (i left k : ℕ) → Fs → Run Fs
free_direct i zero k fs = done fs
free_direct i (suc left) k fs =
    let addr = (fs.inode i).addrs k in
    let freed = bfree addr fs in
    (if addr == 0 then done fs else (freed >>= λ fs. done (set_addr i k 0 fs))) >>= λ fs.
    free_direct i left (k + 1) fs

-- The loop over the entries of the indirect block.
unfoldable pub free_indirect : (addr left j : ℕ) → Fs → Run Fs
free_indirect addr zero j fs = done fs
free_indirect addr (suc left) j fs =
    let entry = fs.blocks addr j in
    (if entry == 0 then done fs else bfree entry fs) >>= λ fs. free_indirect addr left (j + 1) fs

unfoldable pub itrunc : ℕ → Fs → Run Fs
itrunc i fs = do
  fs1 ← free_direct i ndirect 0 fs
  let addr = (fs1.inode i).addrs ndirect
  fs2 ←
      if addr == 0
      then done fs1
      else (free_indirect addr nindirect 0 fs1 >>= λ fs.
          bfree addr fs >>= λ fs. done (set_addr i ndirect 0 fs))
  done (iupdate i (set_inode i (record (fs2.inode i) { size = 0 }) fs2))

-- `iput`: the inode is freed on the disk with its last reference and link.
unfoldable pub iput : ℕ → Fs → Run Fs
iput i fs = do
  let ip = fs.inode i
  fs1 ←
      if ip.ref == 1 && ip.valid && ip.nlink == 0
      then (itrunc i fs >>= λ fs.
          let fs = iupdate i (set_inode i (record (fs.inode i) { type_of = 0 }) fs) in
          done (set_inode i (record (fs.inode i) { valid = false }) fs))
      else done fs
  let ip = fs1.inode i
  done (set_inode i (record ip { ref = (ip.ref + 2 ^ 32 - 1) % 2 ^ 32 }) fs1)

-- `iunlock`, of an inode that the caller has locked, and `iunlockput`.
abbrev pub iunlock : ℕ → Fs → Run Fs
iunlock i fs = if not (is_held (fs.inode i).ref) then panics else done fs

abbrev pub iunlockput : ℕ → Fs → Run Fs
iunlockput i fs = iunlock i fs >>= λ fs. iput i fs

-- `stati`: the device, the number, the type, the links and the size.
abbrev pub stati : ℕ → Fs → ℕ × ℕ × ℕ × ℕ × ℕ
stati i fs = let ip = fs.inode i in (ip.dev, ip.inum, ip.type_of, ip.nlink, ip.size)
