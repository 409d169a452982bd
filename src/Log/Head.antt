-- ===== src/Log/Head.antt =====
-- The header block: what `write_head` writes and `read_head` reads.
use os_labs.Prelude.{
  ℕ, zero, suc, ◌+◌, ◌≤◌, ◌<◌, ◌≡◌, refl, ◌∙◌, arith, update, update_self, update_ne,
}
use os_labs.BlockCache.{Block}
use os_labs.Log.{Log, rounds, read_head_loop, write_head_loop, header}
use native.Mathlib.Decide.{dec_lt}

write_head_loop-zero :
    (block : ℕ → ℕ) (left i : ℕ) (hb : Block) → write_head_loop block left i hb 0 ≡ hb 0
unfolding write_head_loop
write_head_loop-zero block zero i hb = refl
write_head_loop-zero block (suc left) i hb =
    write_head_loop-zero block left (i + 1) (update hb (i + 1) (block i))
    ∙ update_ne hb (i + 1) 0 (block i) (omega arith)

write_head_loop-below :
    (block : ℕ → ℕ) (left i j : ℕ) (hb : Block)
    → j < i
    → write_head_loop block left i hb (j + 1) ≡ hb (j + 1)
unfolding write_head_loop
write_head_loop-below block zero i j hb h = refl
write_head_loop-below block (suc left) i j hb h =
    write_head_loop-below block left (i + 1) j (update hb (i + 1) (block i)) (omega arith)
    ∙ update_ne hb (i + 1) (j + 1) (block i) (omega arith)

write_head_loop-at :
    (block : ℕ → ℕ) (left i j : ℕ) (hb : Block)
    → i ≤ j
    → j < i + left
    → write_head_loop block left i hb (j + 1) ≡ block j
unfolding write_head_loop
write_head_loop-at block zero i j hb h lt = absurd (omega arith)
write_head_loop-at block (suc left) i j hb h lt = elim (dec_lt i j) [
  | yes after ↦
      write_head_loop-at block left (i + 1) j (update hb (i + 1) (block i)) (omega arith)
        (omega arith)
  | no at ↦
      let e : j ≡ i = omega arith in
      rw e (
        write_head_loop-below block left (i + 1) i (update hb (i + 1) (block i)) (omega arith)
        ∙ update_self hb (i + 1) (block i))
]

pub header-n : (l : Log) (hb : Block) → header l hb 0 ≡ l.n
unfolding header
header-n l hb = write_head_loop-zero l.block (rounds l.n) 0 (update hb 0 l.n) ∙ update_self hb 0 l.n

pub header-block : (l : Log) (hb : Block) (i : ℕ) → i < rounds l.n → header l hb (i + 1) ≡ l.block i
unfolding header
header-block l hb i h =
    write_head_loop-at l.block (rounds l.n) 0 i (update hb 0 l.n) (omega arith) (omega arith)

read_head_loop-below :
    (lh : Block) (left i j : ℕ) (block : ℕ → ℕ) → j < i → read_head_loop lh left i block j ≡ block j
unfolding read_head_loop
read_head_loop-below lh zero i j block h = refl
read_head_loop-below lh (suc left) i j block h =
    read_head_loop-below lh left (i + 1) j (update block i (lh (i + 1))) (omega arith)
    ∙ update_ne block i j (lh (i + 1)) (omega arith)

pub read_head_loop-at :
    (lh : Block) (left i j : ℕ) (block : ℕ → ℕ)
    → i ≤ j
    → j < i + left
    → read_head_loop lh left i block j ≡ lh (j + 1)
unfolding read_head_loop
read_head_loop-at lh zero i j block h lt = absurd (omega arith)
read_head_loop-at lh (suc left) i j block h lt = elim (dec_lt i j) [
  | yes after ↦
      read_head_loop-at lh left (i + 1) j (update block i (lh (i + 1))) (omega arith) (omega arith)
  | no at ↦
      let e : j ≡ i = omega arith in
      rw e (
        read_head_loop-below lh left (i + 1) i (update block i (lh (i + 1))) (omega arith)
        ∙ update_self block i (lh (i + 1)))
]
