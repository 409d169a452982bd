-- ===== src/Fs/FreeMap.antt =====
-- `balloc` of kernel/fs.c takes the first block that is free.
use mathlib.Core.Path.{subst}
use os_labs.Prelude.{
  ℕ, zero, suc, ◌+◌, ◌-◌, ◌*◌, ◌/◌, ◌%◌, ◌<◌, ◌≤◌, ◌≡◌, ◌≢◌, refl, sym, ap, ◌∙◌, Bool-cases, inl,
  inr, ◌⊎◌, ltb, ◌==◌, Option, none, some, min, ◌∷◌, update, update_self, update_ne, update_eq,
  ==→eq, ==→ne, arith,
}
use os_labs.BlockCache.{Block}
use os_labs.Fs.{Fs, log_block}
use os_labs.Fs.Blocks.{
  bits_per_block, bitmap_block, bit, set_bit, bzero, find_clear, take_bit, balloc_loop, balloc,
}
use os_labs.Fs.Bits.{bit-set_bit, bit-set_bit_ne}

-- The bit of block `b` in the free map.
abbrev pub map_bit : Fs → (b : ℕ) → ℕ
map_bit fs b = bit (fs.blocks (bitmap_block b fs.sb)) (b % bits_per_block)

-- No bit from `bi` to `n` is clear, or `k` is the first.
abbrev First : Block → (bi n : ℕ) → Option ℕ → Type 0
First d bi n none = (j : ℕ) → bi ≤ j → j < n → bit d j ≢ 0
First d bi n (some k) =
    (bi ≤ k) × (k < n) × (bit d k ≡ 0) × ((j : ℕ) → bi ≤ j → j < k → bit d j ≢ 0)

First-next :
    (d : Block) (bi n : ℕ) (r : Option ℕ) → bit d bi ≢ 0 → First d (bi + 1) n r → First d bi n r
First-next d bi n none ne h = λ j le lt. elim (Bool-cases (bi == j)) [
  | inl e ↦ subst (λ j. bit d j ≢ 0) (==→eq bi j e) ne
  | inr e ↦ h j (ground (arith, e, le)) lt
]
First-next d bi n (some k) ne (le, lt, clear, h) = (
  omega (arith, le),
  lt,
  clear,
  λ j le' lt'. elim (Bool-cases (bi == j)) [
    | inl e ↦ subst (λ j. bit d j ≢ 0) (==→eq bi j e) ne
    | inr e ↦ h j (ground (arith, e, le')) lt'
  ],
)

find_clear-First : (d : Block) (left bi : ℕ) → First d bi (bi + left) (find_clear d left bi)
unfolding find_clear
find_clear-First d zero bi = λ j le lt. absurd (omega (arith, le, lt))
find_clear-First d (suc left) bi = elim (Bool-cases (bit d bi == 0)) [
  | inl e ↦
      rw e
        (omega arith, omega arith, ==→eq (bit d bi) 0 e, λ j le lt. absurd (omega (arith, le, lt)))
  | inr e ↦ rw e (
      First-next d bi (bi + suc left) (find_clear d left (bi + 1)) (ground (arith, e)) (
        subst (λ n. First d (bi + 1) n (find_clear d left (bi + 1))) (omega arith)
          (find_clear-First d left (bi + 1))))
]

-- The blocks below `n` are in use, as far as there are blocks.
abbrev pub InUse : Fs → (n : ℕ) → Type 0
InUse fs n = (j : ℕ) → j < n → j < fs.sb.size → map_bit fs j ≢ 0

-- Block `b`, the first that is free, is zeroed and marked, and both blocks are logged.
pub record Taken (fs : Fs) (b : ℕ) (fs' : Fs) : Type 0 where
  pub in_range : b < fs.sb.size
  pub free : map_bit fs b ≡ 0
  pub first : InUse fs b
  pub zeroed : (k : ℕ) → fs'.blocks b k ≡ 0
  pub marked :
      bitmap_block b fs.sb ≢ b → bit (fs'.blocks (bitmap_block b fs.sb)) (b % bits_per_block) ≡ 1
  pub kept :
      (j : ℕ)
      → j ≢ b
      → bitmap_block j fs.sb ≢ b
      → bit (fs'.blocks (bitmap_block j fs.sb)) (j % bits_per_block) ≡ map_bit fs j
  pub others : (q : ℕ) → q ≢ b → q ≢ bitmap_block b fs.sb → fs'.blocks q ≡ fs.blocks q
  pub logged : fs'.logged ≡ b ∷ bitmap_block b fs.sb ∷ fs.logged

-- How `balloc` ends.
abbrev pub Allocated : Fs → ℕ × Fs → Type 0
Allocated fs (b, fs') = ((b ≡ 0) × (fs' ≡ fs) × InUse fs fs.sb.size) ⊎ Taken fs b fs'

-- The bit in block `d` of the map, which starts at `b`.
map_bit-block :
    (fs : Fs) (b j : ℕ)
    → b % bits_per_block ≡ 0
    → j < bits_per_block
    → map_bit fs (b + j) ≡ bit (fs.blocks (bitmap_block b fs.sb)) j
map_bit-block fs b j al lt =
    let same : (b + j) / bits_per_block ≡ b / bits_per_block = omega (arith, al, lt) in
    let offset : (b + j) % bits_per_block ≡ j = omega (arith, al, lt) in
    ap (λ n. bit (fs.blocks (n + fs.sb.bmapstart)) ((b + j) % bits_per_block)) same
    ∙ ap (bit (fs.blocks (bitmap_block b fs.sb))) offset

-- Blocks in use up to `b`, and those of the block of the map behind it.
InUse-block :
    (fs : Fs) (b n : ℕ)
    → b % bits_per_block ≡ 0
    → n ≤ bits_per_block
    → InUse fs b
    → ((i : ℕ) → i < n → b + i < fs.sb.size → bit (fs.blocks (bitmap_block b fs.sb)) i ≢ 0)
    → InUse fs (b + n)
InUse-block fs b n al le used full j lt in_range = elim (Bool-cases (ltb j b)) [
  | inl e ↦ used j (ground (arith, e)) in_range
  | inr e ↦
      let i = j - b in
      let split : b + i ≡ j = ground (arith, e) in
      let i_lt : i < n = ground (arith, e, lt) in
      let here : b + i < fs.sb.size = omega (arith, split, in_range) in
      λ z.
        full i i_lt here
          (sym (map_bit-block fs b i al (omega (arith, i_lt, le))) ∙ ap (map_bit fs) split ∙ z)
]

-- The bits of other blocks, where bit `bi` of block `map_block` of the map is set.
mark-kept :
    (fs : Fs) (b bi j : ℕ)
    → b % bits_per_block ≡ 0
    → bi < bits_per_block
    → bit (fs.blocks (bitmap_block b fs.sb)) bi ≡ 0
    → j ≢ b + bi
    → bit
        (update fs.blocks
          (bitmap_block b fs.sb)
          (set_bit bi (fs.blocks (bitmap_block b fs.sb)))
          (bitmap_block j fs.sb))
        (j % bits_per_block)
      ≡ map_bit fs j
mark-kept fs b bi j al near clear ne =
    let map_block = bitmap_block b fs.sb in
    let d = fs.blocks map_block in
    elim (Bool-cases (map_block == bitmap_block j fs.sb)) [
      | inl e ↦
          let same = ==→eq map_block (bitmap_block j fs.sb) e in
          let other : j % bits_per_block ≢ bi = λ h. ne (omega (arith, same, h, al)) in
          ap (λ d. bit d (j % bits_per_block))
            (update_eq fs.blocks map_block (bitmap_block j fs.sb) (set_bit bi d) same)
          ∙ bit-set_bit_ne bi (j % bits_per_block) d other clear
          ∙ ap (λ q. bit (fs.blocks q) (j % bits_per_block)) same
      | inr e ↦
          ap (λ d. bit d (j % bits_per_block))
            (update_ne fs.blocks map_block (bitmap_block j fs.sb) (set_bit bi d)
              (==→ne map_block (bitmap_block j fs.sb) e))
    ]

take_bit-Taken :
    (fs : Fs) (b bi : ℕ)
    → b % bits_per_block ≡ 0
    → InUse fs b
    → First (fs.blocks (bitmap_block b fs.sb)) 0 (min bits_per_block (fs.sb.size - b)) (some bi)
    → Taken fs (b + bi) (
        bzero
          (b + bi)
          (log_block (bitmap_block b fs.sb) (set_bit bi (fs.blocks (bitmap_block b fs.sb))) fs))
unfolding bzero
take_bit-Taken fs b bi al used (le, lt, clear, before) =
    let near : bi < bits_per_block = omega (arith, lt) in
    let map_block = bitmap_block b fs.sb in
    let d = fs.blocks map_block in
    let marked = update fs.blocks map_block (set_bit bi d) in
    let block : bitmap_block (b + bi) fs.sb ≡ map_block = omega (arith, al, near) in
    let offset : (b + bi) % bits_per_block ≡ bi = omega (arith, al, near) in
    record {
      in_range = omega (arith, lt);
      free = map_bit-block fs b bi al near ∙ clear;
      first =
          InUse-block fs b bi al (omega (arith, near)) used
            (λ i i_lt _. before i (omega arith) i_lt);
      zeroed = λ k. ap (λ d. d k) (update_self marked (b + bi) (λ k. 0));
      marked = λ ne.
          let same : update marked (b + bi) (λ k. 0) (bitmap_block (b + bi) fs.sb) ≡ set_bit bi d =
            update_ne marked (b + bi) (bitmap_block (b + bi) fs.sb) (λ k. 0) (λ e. ne (sym e))
            ∙ ap marked block
            ∙ update_self fs.blocks map_block (set_bit bi d) in
          ap (λ d. bit d ((b + bi) % bits_per_block)) same
          ∙ ap (bit (set_bit bi d)) offset
          ∙ bit-set_bit bi d clear;
      kept = λ j ne ne'.
          ap (λ d. bit d (j % bits_per_block))
            (update_ne marked (b + bi) (bitmap_block j fs.sb) (λ k. 0) (λ e. ne' (sym e)))
          ∙ mark-kept fs b bi j al near clear ne;
      others = λ q ne ne'.
          update_ne marked (b + bi) q (λ k. 0) (λ e. ne (sym e))
          ∙ update_ne fs.blocks map_block q (set_bit bi d) (λ e. ne' (sym e ∙ sym block));
      logged = ap (λ m. (b + bi) ∷ m ∷ fs.logged) (sym block);
    }

take_bit-Allocated :
    (fs : Fs) (b : ℕ) (rest : ℕ × Fs) (found : Option ℕ)
    → b % bits_per_block ≡ 0
    → InUse fs b
    → (InUse fs (b + bits_per_block) → Allocated fs rest)
    → First (fs.blocks (bitmap_block b fs.sb)) 0 (min bits_per_block (fs.sb.size - b)) found
    → Allocated fs
        (take_bit b (bitmap_block b fs.sb) (fs.blocks (bitmap_block b fs.sb)) rest fs found)
take_bit-Allocated fs b rest none al used later full = later (
    InUse-block fs b bits_per_block al (omega arith) used
      (λ i i_lt here. full i (omega arith) (omega (arith, i_lt, here))))
take_bit-Allocated fs b rest (some bi) al used later found =
    inr (take_bit-Taken fs b bi al used found)

balloc_loop-Allocated :
    (left b : ℕ) (fs : Fs)
    → b % bits_per_block ≡ 0
    → fs.sb.size ≤ b + left * bits_per_block
    → InUse fs b
    → Allocated fs (balloc_loop left b fs)
unfolding balloc_loop
balloc_loop-Allocated zero b fs al all used =
    inl (refl, refl, λ j lt in_range. used j (omega (arith, lt, all)) in_range)
balloc_loop-Allocated (suc left) b fs al all used =
    take_bit-Allocated fs b (balloc_loop left (b + bits_per_block) fs)
      (find_clear (fs.blocks (bitmap_block b fs.sb)) (min bits_per_block (fs.sb.size - b)) 0) al
      used
      (balloc_loop-Allocated left (b + bits_per_block) fs (omega (arith, al)) (omega (arith, all)))
      (subst
        (λ n.
          First (fs.blocks (bitmap_block b fs.sb)) 0 n
            (find_clear (fs.blocks (bitmap_block b fs.sb)) (min bits_per_block (fs.sb.size - b)) 0))
        (omega arith)
        (find_clear-First (fs.blocks (bitmap_block b fs.sb)) (min bits_per_block (fs.sb.size - b))
          0))

-- `balloc` takes the first block that is free, zeroes it, marks it and no other in the free map,
-- where that is not the block itself, changes no other block, and logs both; if all blocks are in
-- use it returns 0 and changes nothing.
pub balloc-Allocated : (fs : Fs) → Allocated fs (balloc fs)
unfolding balloc
balloc-Allocated fs =
    balloc_loop-Allocated ((fs.sb.size + bits_per_block - 1) / bits_per_block) 0 fs (omega arith)
      (omega arith) (λ j lt. absurd (omega (arith, lt)))
