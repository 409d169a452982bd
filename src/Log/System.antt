-- ===== src/Log/System.antt =====
-- Concurrent file system calls over the log: any interleaving of `begin_op`, block writes, `end_op`
-- and the commit that the last `end_op` makes with the lock released.
use os_labs.Prelude.{
  ℕ, zero, suc, ◌+◌, ◌<◌, ◌≡◌, Bool, true, Option, none, some, List, [], ◌∷◌, set, get_elem?,
}
use os_labs.BlockCache.{Block, Cache, bread, brelse, fill}
use os_labs.Log.{Log, max_op_blocks, log_write, begin_op, end_op_enter, end_op_commit}
use os_labs.Log.Replay.{IsHome}

-- What a file system call does to change a block:
-- `bp = bread(dev, b); modify bp->data; log_write(bp); brelse(bp);`
unfoldable pub write_block : ℕ → Block → Log → Cache → Option (Log × Cache)
write_block b d l c =
    let c = fill b d (bread b c) in
    elim (log_write b l c) [ none ↦ none | some (l, c) ↦ some (l, brelse b c) ]

-- `used` has the number of blocks that each active call has written so far.
pub record System : Type 0 where
  pub log : Log
  pub cache : Cache
  pub used : List ℕ

abbrev pub remove : List ℕ → ℕ → List ℕ
remove [] i = []
remove (u ∷ us) zero = us
remove (u ∷ us) (suc i) = u ∷ remove us i

-- A call writes at most MAXOPBLOCKS blocks, outside the log.
pub data Step (s : System) : System → Type 0 where
  enter :
      {l : Log}
      → begin_op s.log ≡ some l
      → Step s (record { log = l; cache = s.cache; used = 0 ∷ s.used })
  write :
      (i u b : ℕ) (d : Block) {l : Log} {c : Cache}
      → get_elem? s.used i ≡ some u
      → u < max_op_blocks
      → IsHome s.log b
      → write_block b d s.log s.cache ≡ some (l, c)
      → Step s (record { log = l; cache = c; used = set s.used i (u + 1) })
  leave :
      (i u : ℕ) {l : Log} {last : Bool}
      → get_elem? s.used i ≡ some u
      → end_op_enter s.log ≡ some (l, last)
      → Step s (record { log = l; cache = s.cache; used = remove s.used i })
  flush :
      s.log.committing ≡ true
      → Step s (record {
        log = (end_op_commit s.log s.cache).0;
        cache = record (end_op_commit s.log s.cache).1 { past = [] };
        used = s.used;
      })

pub data Reach (s : System) : System → Type 0 where
  here : Reach s s
  next : {t u : System} → Reach s t → Step t u → Reach s u
