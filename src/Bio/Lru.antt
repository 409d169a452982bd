-- ===== src/Bio/Lru.antt =====
-- `bread` of kernel/bio.c: a block that is cached is given from its buffer; otherwise it is read into
-- the buffer that was used least recently of those not in use.
use os_labs.Prelude.{
  ℕ, ◌+◌, ◌%◌, ◌^◌, ◌≡◌, ◌≢◌, refl, ap, ◌∙◌, true, false, Bool-cases, inl, inr, Option, none, some,
  update_self, update_ne, arith, ◌⊎◌,
}
use os_labs.Panic.{Run, done, panics, out_of_fuel, ◌>>=◌}
use os_labs.Bio.{
  Buf, Bcache, set_buf, holds, find_cached, find_unused, recycle, use_cached, bget, read_buf, bread,
}
use os_labs.Bio.Find.{
  NotCached, InUse, Cached, Unused, FindsCached, FindsUnused, find_cached-FindsCached,
  find_unused-FindsUnused,
}

-- Buffer `i` of `c'` is that of `c` with its block in it; all else is as in `c`.
record Read (i : ℕ) (c c' : Bcache) : Type 0 where
  valid : (c'.buf i).valid ≡ true
  kept : (c.buf i).valid ≡ true → (c'.buf i).words ≡ (c.buf i).words
  fetched : (c.buf i).valid ≡ false → (c'.buf i).words ≡ c.disk (c.buf i).blockno
  dev : (c'.buf i).dev ≡ (c.buf i).dev
  blockno : (c'.buf i).blockno ≡ (c.buf i).blockno
  refcnt : (c'.buf i).refcnt ≡ (c.buf i).refcnt
  others : (j : ℕ) → i ≢ j → c'.buf j ≡ c.buf j
  order : c'.order ≡ c.order
  disk : c'.disk ≡ c.disk

read_buf-Read : (i : ℕ) (c : Bcache) → Read i c (read_buf i c)
read_buf-Read i c = elim (Bool-cases (c.buf i).valid) [
  | inl e ↦ rw e (record {
    valid = e;
    kept = λ _. refl;
    fetched = λ no_block. ground (arith, e, no_block);
    dev = refl;
    blockno = refl;
    refcnt = refl;
    others = λ j ne. refl;
    order = refl;
    disk = refl;
  })
  | inr e ↦
      let b : Buf = record (c.buf i) { words = c.disk (c.buf i).blockno; valid = true } in
      let self = update_self c.buf i b in
      rw e (record {
        valid = ap (λ b. b.valid) self;
        kept = λ block. ground (arith, e, block);
        fetched = λ _. ap (λ b. b.words) self;
        dev = ap (λ b. b.dev) self;
        blockno = ap (λ b. b.blockno) self;
        refcnt = ap (λ b. b.refcnt) self;
        others = λ j ne. update_ne c.buf i j b ne;
        order = refl;
        disk = refl;
      })
]

-- How `bread` ends with buffer `i`: it was cached, and has one reference more, with its own words if
-- it had been read; or it was the last unused one, and has one reference and the words of the disk.
abbrev pub Way : (dev blockno : ℕ) → Bcache → (i : ℕ) → Buf → Type 0
Way dev blockno c i b =
    (Cached dev blockno c.buf c.order i
      × (b.refcnt ≡ ((c.buf i).refcnt + 1) % 2 ^ 32)
      × ((c.buf i).valid ≡ true → b.words ≡ (c.buf i).words)
      × ((c.buf i).valid ≡ false → b.words ≡ c.disk blockno))
    ⊎ (NotCached dev blockno c.buf c.order
        × Unused c.buf c.order i
        × (b.refcnt ≡ 1)
        × (b.words ≡ c.disk blockno))

-- The buffer holds the block, and nothing else has changed; a panic needs all buffers in use.
abbrev pub Given : (dev blockno : ℕ) → Bcache → Run (ℕ × Bcache) → Type 0
Given dev blockno c panics = NotCached dev blockno c.buf c.order × InUse c.buf c.order
Given dev blockno c out_of_fuel = ⊥
Given dev blockno c (done (i, c')) =
    ((c'.buf i).valid ≡ true)
    × (holds dev blockno (c'.buf i) ≡ true)
    × Way dev blockno c i (c'.buf i)
    × ((j : ℕ) → i ≢ j → c'.buf j ≡ c.buf j)
    × (c'.order ≡ c.order)
    × (c'.disk ≡ c.disk)

abbrev finish : Run (ℕ × Bcache) → Run (ℕ × Bcache)
finish r = r >>= λ r. done (r.0, read_buf r.0 r.1)

recycle-Given :
    (dev blockno : ℕ) (c : Bcache) (found : Option ℕ)
    → NotCached dev blockno c.buf c.order
    → FindsUnused c.buf c.order found
    → Given dev blockno c (finish (recycle dev blockno found c))
recycle-Given dev blockno c none miss full = (miss, full)
recycle-Given dev blockno c (some i) miss free =
    let b : Buf = record (c.buf i) { dev = dev; blockno = blockno; valid = false; refcnt = 1 } in
    let self = update_self c.buf i b in
    let r = read_buf-Read i (set_buf i b c) in
    let dev_of = r.dev ∙ ap (λ b. b.dev) self in
    let block_of = r.blockno ∙ ap (λ b. b.blockno) self in
    (
      r.valid,
      ground (arith, dev_of, block_of),
      inr (
        miss,
        free,
        r.refcnt ∙ ap (λ b. b.refcnt) self,
        r.fetched (ap (λ b. b.valid) self) ∙ ap (λ b. c.disk b.blockno) self,
      ),
      (λ j ne. r.others j ne ∙ update_ne c.buf i j b ne),
      r.order,
      r.disk,
    )

use_cached-Given :
    (dev blockno : ℕ) (c : Bcache) (found : Option ℕ)
    → FindsCached dev blockno c.buf c.order found
    → Given dev blockno c (finish (use_cached dev blockno found c))
use_cached-Given dev blockno c none miss =
    recycle-Given dev blockno c (find_unused c.buf c.order) miss
      (find_unused-FindsUnused c.buf c.order)
use_cached-Given dev blockno c (some i) hit =
    let b : Buf = record (c.buf i) { refcnt = ((c.buf i).refcnt + 1) % 2 ^ 32 } in
    let self = update_self c.buf i b in
    let r = read_buf-Read i (set_buf i b c) in
    let held = hit.held in
    let dev_of = r.dev ∙ ap (λ b. b.dev) self in
    let block_of = r.blockno ∙ ap (λ b. b.blockno) self in
    let same_block : (c.buf i).blockno ≡ blockno = ground (arith, held) in
    (
      r.valid,
      ground (arith, dev_of, block_of, held),
      inl (
        hit,
        r.refcnt ∙ ap (λ b. b.refcnt) self,
        (λ e. r.kept (ap (λ b. b.valid) self ∙ e) ∙ ap (λ b. b.words) self),
        (λ e.
            r.fetched (ap (λ b. b.valid) self ∙ e)
            ∙ ap (λ b. c.disk b.blockno) self
            ∙ ap c.disk same_block),
      ),
      (λ j ne. r.others j ne ∙ update_ne c.buf i j b ne),
      r.order,
      r.disk,
    )

-- `bread` gives a buffer with the block, and changes no other: the one that has it cached, with one
-- reference more and its own words if it had been read, or else the last one in the list that is
-- not in use, with the words of the disk. It panics only if the block is not cached and all buffers
-- are in use.
pub bread-Given : (dev blockno : ℕ) (c : Bcache) → Given dev blockno c (bread dev blockno c)
unfolding bread bget
bread-Given dev blockno c =
    use_cached-Given dev blockno c (find_cached dev blockno c.buf c.order)
      (find_cached-FindsCached dev blockno c.buf c.order)
