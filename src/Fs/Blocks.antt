-- ===== src/Fs/Blocks.antt =====
-- The super block and the free map of kernel/fs.c.
use os_labs.Prelude.{
  ℕ, zero, suc, ◌+◌, ◌-◌, ◌*◌, ◌/◌, ◌%◌, ◌^◌, not, Option, none, some, ◌==◌, if◌then◌else◌, update,
  min,
}
use os_labs.BlockCache.{Block}
use os_labs.File.{bsize}
use os_labs.Panic.{Run, done, panics}
use os_labs.Fs.{Superblock, Fs, log_block}

-- BPB and BBLOCK
abbrev pub bits_per_block : ℕ
bits_per_block = bsize * 8

abbrev pub bitmap_block : (b : ℕ) → Superblock → ℕ
bitmap_block b sb = b / bits_per_block + sb.bmapstart

-- `readsb`
unfoldable pub readsb : (ℕ → Block) → Superblock
readsb blocks =
    let w = blocks 1 in
    record {
      magic = w 0;
      size = w 1;
      nblocks = w 2;
      ninodes = w 3;
      nlog = w 4;
      logstart = w 5;
      inodestart = w 6;
      bmapstart = w 7;
    }

-- `fsinit`, up to `initlog`.
unfoldable pub fsinit : Fs → Run Fs
fsinit fs =
    let sb = readsb fs.blocks in
    if not (sb.magic == 0x10203040) then panics else done (record fs { sb = sb })

unfoldable pub bzero : (bno : ℕ) → Fs → Fs
bzero bno fs = log_block bno (λ k. 0) fs

-- Bit `bi` of the free map, `data[bi/8] & m`, and it set and cleared where it was not.
abbrev pub bit : Block → (bi : ℕ) → ℕ
bit d bi = d (bi / 32) / 2 ^ (bi % 32) % 2

abbrev pub set_bit : (bi : ℕ) → Block → Block
set_bit bi d = update d (bi / 32) (d (bi / 32) + 2 ^ (bi % 32))

abbrev pub clear_bit : (bi : ℕ) → Block → Block
clear_bit bi d = update d (bi / 32) (d (bi / 32) - 2 ^ (bi % 32))

-- The first bit that is clear, of `left` bits from `bi` on.
unfoldable pub find_clear : Block → (left bi : ℕ) → Option ℕ
find_clear d zero bi = none
find_clear d (suc left) bi =
    let rest = find_clear d left (bi + 1) in if bit d bi == 0 then some bi else rest

-- Bit `bi` is set and its block is zeroed; `rest` is for a block of the map with no clear bit.
abbrev pub take_bit : (b map_block : ℕ) → Block → (rest : ℕ × Fs) → Fs → Option ℕ → ℕ × Fs
take_bit b map_block d rest fs none = rest
take_bit b map_block d rest fs (some bi) =
    (b + bi, bzero (b + bi) (log_block map_block (set_bit bi d) fs))

-- The loop of `balloc`, from the block of the free map for `b` on.
unfoldable pub balloc_loop : (left b : ℕ) → Fs → ℕ × Fs
balloc_loop zero b fs = (0, fs)
balloc_loop (suc left) b fs =
    let map_block = bitmap_block b fs.sb in
    let d = fs.blocks map_block in
    let rest = balloc_loop left (b + bits_per_block) fs in
    take_bit b map_block d rest fs (find_clear d (min bits_per_block (fs.sb.size - b)) 0)

-- `balloc`: the block, or 0.
unfoldable pub balloc : Fs → ℕ × Fs
balloc fs = balloc_loop ((fs.sb.size + bits_per_block - 1) / bits_per_block) 0 fs

unfoldable pub bfree : (b : ℕ) → Fs → Run Fs
bfree b fs =
    let map_block = bitmap_block b fs.sb in
    let d = fs.blocks map_block in
    let bi = b % bits_per_block in
    if bit d bi == 0 then panics else done (log_block map_block (clear_bit bi d) fs)
