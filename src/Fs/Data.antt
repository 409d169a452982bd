-- ===== src/Fs/Data.antt =====
-- `readi` and `writei` of kernel/fs.c. Where the bytes go to and come from is a parameter:
-- `either_copyout` and `either_copyin` with their memory.
use os_labs.Prelude.{
  ℕ, zero, suc, ◌+◌, ◌-◌, ◌*◌, ◌/◌, ◌%◌, ◌^◌, Bool, not, ◌||◌, List, [], ◌∷◌, ltb, ◌==◌,
  if◌then◌else◌, update,
}
use os_labs.BlockCache.{Block}
use os_labs.File.{bsize}
use os_labs.Panic.{Run, done, out_of_fuel, ◌>>=◌}
use os_labs.Fs.{Fs, fill, log_block, set_inode}
use os_labs.Fs.Inodes.{ndirect, nindirect, iupdate}
use os_labs.Fs.Extents.{bmap}

-- Byte `o` of a block.
abbrev pub block_byte : Block → (o : ℕ) → ℕ
block_byte d o = d (o / 4) / 256 ^ (o % 4) % 256

unfoldable pub block_bytes : Block → (o n : ℕ) → List ℕ
block_bytes d o zero = []
block_bytes d o (suc n) = block_byte d o ∷ block_bytes d (o + 1) n

abbrev pub set_byte : (o c : ℕ) → Block → Block
set_byte o c d =
    update d (o / 4) (d (o / 4) - block_byte d o * 256 ^ (o % 4) + c % 256 * 256 ^ (o % 4))

unfoldable pub set_bytes : (o : ℕ) → List ℕ → Block → Block
set_bytes o [] d = d
set_bytes o (c ∷ cs) d = set_bytes (o + 1) cs (set_byte o c d)

-- `min(n - tot, BSIZE - off%BSIZE)`
abbrev pub part : (off left : ℕ) → ℕ
part off left = let room = bsize - off % bsize in if ltb left room then left else room

-- -1 as a `uint`.
abbrev pub minus_one : ℕ
minus_one = 2 ^ 32 - 1

module _ {ℓ} {M : Type ℓ} (copy_out : (dst : ℕ) → List ℕ → M → Bool × M) where
  -- The loop of `readi`, with `left` for `n - tot`.
  unfoldable pub read_loop : (fuel i dst off tot left : ℕ) → Fs → M → Run (ℕ × M × Fs)
  read_loop zero i dst off tot left fs mem = out_of_fuel
  read_loop (suc fuel) i dst off tot zero fs mem = done (tot, mem, fs)
  read_loop (suc fuel) i dst off tot (suc more) fs mem = do
    let left : ℕ = suc more
    (addr, fs') ← bmap i (off / bsize) fs
    let m : ℕ = part off left
    let (copied, mem') = copy_out dst (block_bytes (fs'.blocks addr) (off % bsize) m) mem
    let rest =
        read_loop fuel i ((dst + m) % 2 ^ 64) ((off + m) % 2 ^ 32) (tot + m) (left - m) fs' mem'
    if addr == 0
        then done (tot, mem, fs')
        else if not copied
        then done (minus_one, mem', fs')
        else rest

  unfoldable pub readi : (fuel i dst off n : ℕ) → Fs → M → Run (ℕ × M × Fs)
  readi fuel i dst off n fs mem =
      let size = (fs.inode i).size in
      if ltb size off || ltb ((off + n) % 2 ^ 32) off
      then done (0, mem, fs)
      else read_loop fuel i dst off 0 (if ltb size (off + n) then size - off else n) fs mem

-- MAXFILE * BSIZE
abbrev pub max_size : ℕ
max_size = (ndirect + nindirect) * bsize

-- `copy_in` gives the bytes up to the first that it cannot read.
module _ (copy_in : (src n : ℕ) → Bool × List ℕ) where
  -- The loop of `writei`: `tot` and `off` at its end.
  unfoldable pub write_loop : (fuel i src off tot left : ℕ) → Fs → Run (ℕ × ℕ × Fs)
  write_loop zero i src off tot left fs = out_of_fuel
  write_loop (suc fuel) i src off tot zero fs = done (tot, off, fs)
  write_loop (suc fuel) i src off tot (suc more) fs = do
    let left : ℕ = suc more
    (addr, fs') ← bmap i (off / bsize) fs
    let m : ℕ = part off left
    let (copied, bytes) = copy_in src m
    let d = set_bytes (off % bsize) bytes (fs'.blocks addr)
    let rest =
        write_loop fuel i ((src + m) % 2 ^ 64) ((off + m) % 2 ^ 32) (tot + m) (left - m)
          (log_block addr d fs')
    if addr == 0
        then done (tot, off, fs')
        else if not copied
        then done (tot, off, fill addr d fs')
        else rest

  -- The size is put up to `off`, and the inode is written.
  abbrev pub write_size : (i off : ℕ) → Fs → Fs
  write_size i off fs =
      let ip = fs.inode i in
      iupdate i (if ltb ip.size off then set_inode i (record ip { size = off }) fs else fs)

  unfoldable pub writei : (fuel i src off n : ℕ) → Fs → Run (ℕ × Fs)
  writei fuel i src off n fs =
      let size = (fs.inode i).size in
      if ltb size off || ltb ((off + n) % 2 ^ 32) off
      then done (minus_one, fs)
      else if ltb max_size ((off + n) % 2 ^ 32)
      then done (minus_one, fs)
      else (write_loop fuel i src off 0 n fs >>= λ r. done (r.0, write_size i r.1 r.2))
