-- ===== src/Bio.antt =====
-- kernel/bio.c: the buffers of the block cache, and the list that keeps them by their last use. A
-- pointer to a buffer is its index; its sleep lock is left to the callers.
pub mod Find
pub mod Lru
mod Tests
use os_labs.Prelude.{
  ℕ, zero, suc, ◌+◌, ◌-◌, ◌%◌, ◌^◌, Bool, true, false, not, ◌&&◌, Option, none, some, List, [], ◌∷◌,
  ◌==◌, if◌then◌else◌, update,
}
use os_labs.BlockCache.{Block}
use os_labs.Panic.{Run, done, panics, ◌>>=◌}

-- `struct buf`; what `virtio_disk_rw` uses of it is not here.
pub record Buf : Type 0 where
  pub valid : Bool
  pub dev : ℕ
  pub blockno : ℕ
  pub refcnt : ℕ
  pub words : Block

-- `bcache`, with the list from `head.next` on, and the disk.
pub record Bcache : Type 0 where
  pub buf : ℕ → Buf
  pub order : List ℕ
  pub disk : ℕ → Block

-- NBUF
abbrev pub nbuf : ℕ
nbuf = 30

abbrev pub set_buf : ℕ → Buf → Bcache → Bcache
set_buf i b c = record c { buf = update c.buf i b }

-- The loop of `binit` puts each buffer in front.
unfoldable pub binit_loop : (left i : ℕ) → List ℕ → List ℕ
binit_loop zero i order = order
binit_loop (suc left) i order = binit_loop left (i + 1) (i ∷ order)

unfoldable pub binit : Bcache → Bcache
binit c = record c { order = binit_loop nbuf 0 [] }

abbrev pub holds : (dev blockno : ℕ) → Buf → Bool
holds dev blockno b = b.dev == dev && b.blockno == blockno

-- The first buffer that holds the block.
unfoldable pub find_cached : (dev blockno : ℕ) → (ℕ → Buf) → List ℕ → Option ℕ
find_cached dev blockno buf [] = none
find_cached dev blockno buf (i ∷ order) =
    let rest = find_cached dev blockno buf order in
    if holds dev blockno (buf i) then some i else rest

-- The one before what is found behind it, which comes first in the loop over `prev`.
abbrev pub last_unused : (ℕ → Buf) → ℕ → Option ℕ → Option ℕ
last_unused buf i (some j) = some j
last_unused buf i none = if (buf i).refcnt == 0 then some i else none

-- The last buffer that is not in use.
unfoldable pub find_unused : (ℕ → Buf) → List ℕ → Option ℕ
find_unused buf [] = none
find_unused buf (i ∷ order) = last_unused buf i (find_unused buf order)

abbrev pub change_refcnt : (ℕ → ℕ) → ℕ → Bcache → Bcache
change_refcnt f i c = let b = c.buf i in set_buf i (record b { refcnt = f b.refcnt % 2 ^ 32 }) c

abbrev pub recycle : (dev blockno : ℕ) → Option ℕ → Bcache → Run (ℕ × Bcache)
recycle dev blockno none c = panics
recycle dev blockno (some i) c =
    done (
      i,
      set_buf i (record (c.buf i) { dev = dev; blockno = blockno; valid = false; refcnt = 1 }) c,
    )

abbrev pub use_cached : (dev blockno : ℕ) → Option ℕ → Bcache → Run (ℕ × Bcache)
use_cached dev blockno (some i) c = done (i, change_refcnt (λ n. n + 1) i c)
use_cached dev blockno none c = recycle dev blockno (find_unused c.buf c.order) c

unfoldable pub bget : (dev blockno : ℕ) → Bcache → Run (ℕ × Bcache)
bget dev blockno c = use_cached dev blockno (find_cached dev blockno c.buf c.order) c

-- A buffer that is not valid is read from the disk.
abbrev pub read_buf : ℕ → Bcache → Bcache
read_buf i c =
    let b = c.buf i in
    if b.valid then c else set_buf i (record b { words = c.disk b.blockno; valid = true }) c

unfoldable pub bread : (dev blockno : ℕ) → Bcache → Run (ℕ × Bcache)
bread dev blockno c = bget dev blockno c >>= λ r. done (r.0, read_buf r.0 r.1)

abbrev pub bwrite : ℕ → Bcache → Bcache
bwrite i c = record c { disk = update c.disk (c.buf i).blockno (c.buf i).words }

unfoldable pub unlink : ℕ → List ℕ → List ℕ
unlink i [] = []
unlink i (j ∷ order) = let rest = unlink i order in if i == j then rest else j ∷ rest

-- `brelse`: with its last reference, a buffer goes to the front.
unfoldable pub brelse : ℕ → Bcache → Bcache
brelse i c =
    let c' = change_refcnt (λ n. n + 2 ^ 32 - 1) i c in
    if (c'.buf i).refcnt == 0 then record c' { order = i ∷ unlink i c'.order } else c'

abbrev pub bpin : ℕ → Bcache → Bcache
bpin i c = change_refcnt (λ n. n + 1) i c

abbrev pub bunpin : ℕ → Bcache → Bcache
bunpin i c = change_refcnt (λ n. n + 2 ^ 32 - 1) i c
