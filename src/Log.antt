-- ===== src/Log.antt =====
-- kernel/log.c: the redo log. The functions, over the block cache of `BlockCache`.
pub mod Replay
pub mod Install
pub mod Kept
pub mod Finish
pub mod Recover
pub mod WriteLog
pub mod Commit
pub mod Crash
pub mod Absorb
pub mod System
pub mod Reserve
pub mod Steps
pub mod Safety
mod Tests
pub mod Head
use os_labs.Prelude.{
  ℕ, zero, suc, ◌+◌, ◌-◌, ◌*◌, ◌%◌, ◌^◌, Bool, true, false, ◌||◌, Option, none, some, ltb, leb,
  ◌==◌, if◌then◌else◌, update,
}
use os_labs.BlockCache.{Block, Cache, bread, brelse, bpin, bunpin, fill, bwrite}

-- kernel/param.h
abbrev pub max_op_blocks : ℕ
max_op_blocks = 10

abbrev pub log_size : ℕ
log_size = max_op_blocks + max_op_blocks + max_op_blocks

-- `struct log` with its `struct logheader`. The ints are 32-bit patterns.
pub record Log : Type 0 where
  pub start : ℕ
  pub size : ℕ
  pub outstanding : ℕ
  pub committing : Bool
  pub dev : ℕ
  pub n : ℕ
  pub block : ℕ → ℕ

-- How often `for (i = 0; i < n; i++)` runs its body, with `n` an int.
abbrev pub rounds : ℕ → ℕ
rounds n = if ltb n (2 ^ 31) then n else 0

-- `log.start + tail + 1`
abbrev pub slot : Log → ℕ → ℕ
slot l tail = l.start + tail + 1

-- The body of the loop of `install_trans`.
pub install_block : Log → Bool → (tail : ℕ) → Cache → Cache
install_block l recovering tail c =
    let c = bread (slot l tail) c in
    let c = bread (l.block tail) c in
    let c = fill (l.block tail) (c.contents (slot l tail)) c in
    let c = bwrite (l.block tail) c in
    let c = if recovering then c else bunpin (l.block tail) c in
    let c = brelse (slot l tail) c in brelse (l.block tail) c

pub install_loop : Log → Bool → (left tail : ℕ) → Cache → Cache
install_loop l recovering zero tail c = c
install_loop l recovering (suc left) tail c =
    install_loop l recovering left (tail + 1) (install_block l recovering tail c)

pub install_trans : Log → Bool → Cache → Cache
unfolding install_loop
install_trans l recovering c = install_loop l recovering (rounds l.n) 0 c

-- The words of a header block: word 0 is `n`, word `i + 1` is `block[i]`.
pub read_head_loop : (lh : Block) → (left i : ℕ) → (block : ℕ → ℕ) → ℕ → ℕ
read_head_loop lh zero i block = block
read_head_loop lh (suc left) i block = read_head_loop lh left (i + 1) (update block i (lh (i + 1)))

-- `none`: an `n` above LOGSIZE has the loop write past the end of `log.lh.block`.
pub read_head : Log → Cache → Option (Log × Cache)
unfolding read_head_loop
read_head l c =
    let c = bread l.start c in
    let lh = c.contents l.start in
    let block = read_head_loop lh (rounds (lh 0)) 0 l.block in
    let c = brelse l.start c in
    if leb (rounds (lh 0)) log_size then some (record l { n = lh 0; block = block }, c) else none

pub write_head_loop : (block : ℕ → ℕ) → (left i : ℕ) → (hb : Block) → Block
write_head_loop block zero i hb = hb
write_head_loop block (suc left) i hb =
    write_head_loop block left (i + 1) (update hb (i + 1) (block i))

-- The header block that `write_head` writes over `hb`.
pub header : Log → Block → Block
unfolding write_head_loop
header l hb = write_head_loop l.block (rounds l.n) 0 (update hb 0 l.n)

pub write_head : Log → Cache → Cache
write_head l c =
    let c = bread l.start c in
    let c = fill l.start (header l (c.contents l.start)) c in
    let c = bwrite l.start c in brelse l.start c

pub recover_from_log : Log → Cache → Option (Log × Cache)
recover_from_log l c = elim (read_head l c) [
  | none ↦ none
  | some (l, c) ↦
      let c = install_trans l true c in let l = record l { n = 0 } in some (l, write_head l c)
]

-- `log` is a static variable: what `initlog` leaves alone is zero.
pub initlog : (dev logstart nlog : ℕ) → Cache → Option (Log × Cache)
initlog dev logstart nlog c =
    recover_from_log
      (record {
        start = logstart;
        size = nlog;
        outstanding = 0;
        committing = false;
        dev = dev;
        n = 0;
        block = λ i. 0;
      })
      c

-- The body of the loop of `write_log`.
pub write_log_block : Log → (tail : ℕ) → Cache → Cache
write_log_block l tail c =
    let c = bread (slot l tail) c in
    let c = bread (l.block tail) c in
    let c = fill (slot l tail) (c.contents (l.block tail)) c in
    let c = bwrite (slot l tail) c in let c = brelse (l.block tail) c in brelse (slot l tail) c

pub write_log_loop : Log → (left tail : ℕ) → Cache → Cache
write_log_loop l zero tail c = c
write_log_loop l (suc left) tail c = write_log_loop l left (tail + 1) (write_log_block l tail c)

pub write_log : Log → Cache → Cache
unfolding write_log_loop
write_log l c = write_log_loop l (rounds l.n) 0 c

pub commit : Log → Cache → Log × Cache
commit l c =
    if ltb 0 (rounds l.n)
    then (let c = write_log l c in
        let c = write_head l c in
        let c = install_trans l false c in let l = record l { n = 0 } in (l, write_head l c))
    else (l, c)

-- The index of the first entry for block `b`, or `n`.
pub find_loop : Log → ℕ → (left i : ℕ) → ℕ
find_loop l b zero i = i
find_loop l b (suc left) i =
    let rest = find_loop l b left (i + 1) in if l.block i == b then i else rest

-- `none` is a panic: "too big a transaction", or "log_write outside of trans".
pub log_write : ℕ → Log → Cache → Option (Log × Cache)
unfolding find_loop
log_write b l c =
    if leb log_size (rounds l.n) || leb (l.size - 1) (rounds l.n)
    then none
    else if ltb l.outstanding 1
    then none
    else let i = find_loop l b (rounds l.n) 0 in
      let l = record l { block = update l.block i b } in
      if i == l.n then some (record l { n = l.n + 1 }, bpin b c) else some (l, c)

-- `none`: the caller sleeps on the log and tries again.
pub begin_op : Log → Option Log
begin_op l =
    if l.committing
    then none
    else if ltb log_size (l.n + (l.outstanding + 1) * max_op_blocks)
    then none
    else some (record l { outstanding = l.outstanding + 1 })

-- The first critical section of `end_op`: whether it found itself the last operation. `none` is
-- the panic "log.committing".
pub end_op_enter : Log → Option (Log × Bool)
end_op_enter l =
    let l = record l { outstanding = (l.outstanding + 2 ^ 32 - 1) % 2 ^ 32 } in
    if l.committing
    then none
    else if l.outstanding == 0
    then some (record l { committing = true }, true)
    else some (l, false)

-- `commit` and the second critical section of `end_op`.
pub end_op_commit : Log → Cache → Log × Cache
end_op_commit l c = let (l, c) = commit l c in (record l { committing = false }, c)

-- `end_op` with no other process between its two critical sections.
pub end_op : Log → Cache → Option (Log × Cache)
end_op l c = elim (end_op_enter l) [
  | none ↦ none
  | some (l, last) ↦ some (if last then end_op_commit l c else (l, c))
]
