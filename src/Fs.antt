-- ===== src/Fs.antt =====
-- The layers of kernel/fs.c above the log. A block is the 256 words that a buffer holds.
pub mod Blocks
pub mod Inodes
pub mod Extents
pub mod Data
pub mod Path
pub mod Dirs
pub mod Names
pub mod Again
pub mod Disk
pub mod Table
pub mod Write
pub mod Bits
pub mod FreeMap
mod Tests
use os_labs.Prelude.{ℕ, ◌+◌, ◌*◌, ◌/◌, ◌%◌, ◌^◌, List, ◌∷◌, Bool, update}
use os_labs.BlockCache.{Block}

-- `struct superblock`
pub record Superblock : Type 0 where
  pub magic : ℕ
  pub size : ℕ
  pub nblocks : ℕ
  pub ninodes : ℕ
  pub nlog : ℕ
  pub logstart : ℕ
  pub inodestart : ℕ
  pub bmapstart : ℕ

-- `struct inode` without its lock; the flag `valid` says that it has been read from the disk.
pub record Inode : Type 0 where
  pub dev : ℕ
  pub inum : ℕ
  pub ref : ℕ
  pub valid : Bool
  pub type_of : ℕ
  pub major : ℕ
  pub minor : ℕ
  pub nlink : ℕ
  pub size : ℕ
  pub addrs : ℕ → ℕ

-- What `bread` gives within a transaction, the blocks that `log_write` has taken, and `itable`.
pub record Fs : Type 0 where
  pub sb : Superblock
  pub blocks : ℕ → Block
  pub logged : List ℕ
  pub inode : ℕ → Inode

-- A buffer is changed, and one is changed and given to `log_write`.
abbrev pub fill : ℕ → Block → Fs → Fs
fill b d fs = record fs { blocks = update fs.blocks b d }

abbrev pub log_block : ℕ → Block → Fs → Fs
log_block b d fs = record fs { blocks = update fs.blocks b d; logged = b ∷ fs.logged }

abbrev pub set_inode : ℕ → Inode → Fs → Fs
set_inode i ip fs = record fs { inode = update fs.inode i ip }
