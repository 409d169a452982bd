-- ===== src/File/Chunks.antt =====
-- `filewrite` of kernel/file.c on an inode, which cuts a long write into transactions.
use mathlib.Core.Path.{subst}
use os_labs.Prelude.{
  ℕ, zero, suc, ◌+◌, ◌-◌, ◌%◌, ◌^◌, ◌<◌, ◌≤◌, ◌≡◌, ◌⊎◌, inl, inr, refl, ap, ◌∙◌, true, false,
  Option, none, some, ltb, ◌==◌, ==→eq, if◌then◌else◌, arith, Bool-cases,
}
use os_labs.File.{
  Files, fd_inode, minus_one, Below, moved, set_off, max_chunk, chunk_loop, write_end, filewrite,
}

-- What `filewrite` relies on for the inode `ip`: a write fails, or says of how many of the `n` bytes
-- it has put them. Fs/Write.antt shows it of `writei`.
abbrev pub Bounded : {S : Type 0} → Below S → (ip : ℕ) → Type 0
Bounded {S} ops ip =
    (addr off n : ℕ) (s : S)
    → ((ops.inode_write ip addr off n s).0 ≡ minus_one) ⊎ ((ops.inode_write ip addr off n s).0 ≤ n)

-- One write to the inode as a transaction of its own: its result, and the state behind it.
abbrev pub transaction : {S : Type 0} → Below S → (ip addr off size : ℕ) → S → ℕ × S
transaction ops ip addr off size s =
    let w = ops.inode_write ip addr off size (ops.begin_op s) in (w.0, ops.end_op w.1)

-- Transactions for the `n` bytes at `addr`, from offset `off` of the inode on, which go from `s` to
-- the last state and put `m` bytes: each is for at least one byte and at most `max_chunk`, and takes
-- up where the one before has ended; the first that fails or falls short is the last.
pub data Sent {S : Type 0} (ops : Below S) (ip : ℕ) : (addr off n m : ℕ) → (s s' : S) → Type 0 where
  all_sent : (addr off : ℕ) (s : S) → Sent ops ip addr off 0 0 s s
  fails :
      (addr off n size : ℕ) (s : S)
      → 0 < size
      → size ≤ max_chunk
      → size ≤ n
      → (transaction ops ip addr off size s).0 ≡ minus_one
      → Sent ops ip addr off n 0 s (transaction ops ip addr off size s).1
  falls_short :
      (addr off n size m : ℕ) (s : S)
      → size ≤ max_chunk
      → size ≤ n
      → m < size
      → (transaction ops ip addr off size s).0 ≡ m
      → Sent ops ip addr off n m s (transaction ops ip addr off size s).1
  goes_on :
      (addr off n size m : ℕ) (s s' : S)
      → 0 < size
      → size ≤ max_chunk
      → (transaction ops ip addr off size s).0 ≡ size
      → Sent ops ip (addr + size) (off + size) n m (transaction ops ip addr off size s).1 s'
      → Sent ops ip addr off (size + n) (size + m) s s'

-- How the loop ends at byte `i` of `n`.
abbrev Chunked : {S : Type 0} → Below S → (ip addr n i off : ℕ) → S → Option (ℕ × ℕ × S) → Type 0
Chunked ops ip addr n i off s none = ⊥
Chunked ops ip addr n i off s (some (done, off', s')) =
    (m : ℕ) × (m ≤ n - i)
    × ((done == n) ≡ (m == n - i))
    × (off' ≡ off + m)
    × Sent ops ip (addr + i) off (n - i) m s s'

module _ {S : Type 0} (ops : Below S) (ip : ℕ) (law : Bounded ops ip) where
  -- A full chunk, and what follows it.
  Chunked-goes_on :
      (addr n i off size : ℕ) (s : S) (r : Option (ℕ × ℕ × S))
      → 0 < size
      → size ≤ max_chunk
      → i + size ≤ n
      → (transaction ops ip (addr + i) off size s).0 ≡ size
      → Chunked ops ip addr n (i + size) (off + size) (transaction ops ip (addr + i) off size s).1 r
      → Chunked ops ip addr n i off s r
  Chunked-goes_on addr n i off size s none pos small le full c = c
  Chunked-goes_on addr n i off size s (some (done, off', s')) pos small le full
        (m, m_le, all, to, sent) =
      let left : ℕ = n - (i + size) in
      let total : size + left ≡ n - i = omega (arith, le) in
      let from : addr + (i + size) ≡ addr + i + size = omega arith in
      let rest =
        subst
          (λ a. Sent ops ip a (off + size) left m (transaction ops ip (addr + i) off size s).1 s')
          from sent in
      (
        size + m,
        omega (arith, m_le, le),
        ground (arith, all, m_le, le),
        omega (arith, to),
        subst (λ n. Sent ops ip (addr + i) off n (size + m) s s') total
            (goes_on (addr + i) off left size m s s' pos small full rest),
      )

  chunk_loop-Chunked :
      (addr n fuel i off : ℕ) (s : S)
      → i ≤ n
      → n - i < fuel
      → off + (n - i) < 2 ^ 32
      → addr + n < 2 ^ 64
      → Chunked ops ip addr n i off s (chunk_loop ops ip addr n fuel i off s)
  unfolding chunk_loop
  chunk_loop-Chunked addr n zero i off s le h room mapped = absurd (omega (arith, h))
  chunk_loop-Chunked addr n (suc fuel) i off s le h room mapped = elim (Bool-cases (ltb i n)) [
    | inr end ↦
        let none_left : 0 ≡ n - i = ground (arith, end, le) in
        rw end (
          0,
          omega arith,
          ground (arith, end, le),
          omega arith,
          subst (λ n. Sent ops ip (addr + i) off n 0 s s) none_left (all_sent (addr + i) off s),
        )
    | inl more ↦
        let size : ℕ = if ltb max_chunk (n - i) then max_chunk else n - i in
        let at : (addr + i) % 2 ^ 64 ≡ addr + i = ground (arith, more, mapped) in
        let pos : 0 < size = ground (arith, more) in
        let small : size ≤ max_chunk = ground arith in
        let fits : i + size ≤ n = ground (arith, more) in
        let w = transaction ops ip (addr + i) off size s in
        elim (law (addr + i) off size (ops.begin_op s)) [
          | inl failed ↦
              let other : (w.0 == size) ≡ false = ground (arith, failed, small) in
              let stays : moved w.0 off ≡ off + 0 = ground (arith, failed) in
              rw (at, more, other, stays)
                (
                  0,
                  omega arith,
                  ground (arith, more),
                  refl,
                  fails (addr + i) off (n - i) size s pos small (omega (arith, fits)) failed,
                )
          | inr bound ↦ elim (Bool-cases (w.0 == size)) [
            | inl full ↦
                let e : w.0 ≡ size = ==→eq w.0 size full in
                let to : moved w.0 off ≡ off + size = ground (arith, e, small, fits, room) in
                rw (at, more, full, to)
                  (Chunked-goes_on addr n i off size s
                    (chunk_loop ops ip addr n fuel (i + size) (off + size) w.1) pos small fits e
                    (chunk_loop-Chunked addr n fuel (i + size) (off + size) w.1 fits
                      (omega (arith, h, pos)) (omega (arith, room, fits)) mapped))
            | inr short ↦
                let less : w.0 < size = ground (arith, short, bound) in
                let to : moved w.0 off ≡ off + w.0 = ground (arith, less, small, fits, room) in
                rw (at, more, short, to)
                  (
                    w.0,
                    omega (arith, less, fits),
                    ground (arith, less, fits, more),
                    refl,
                    falls_short (addr + i) off (n - i) size w.0 s small (omega (arith, fits)) less
                        refl,
                  )
          ]
        ]
  ]

-- How a `filewrite` of `n` bytes to the inode of file `i` ends: its transactions have put `m` bytes,
-- the offset of the file has moved by `m`, and it returns `n` if these are all, and -1 otherwise.
abbrev pub Written :
    {S : Type 0} → Below S → (i addr n : ℕ) → Files → S → Option (ℕ × Files × S) → Type 0
Written ops i addr n t s none = ⊥
Written ops i addr n t s (some (r, t', s')) =
    (m : ℕ) × (m ≤ n)
    × (r ≡ (if m == n then n else minus_one))
    × (t' ≡ set_off i ((t i).off + m) t)
    × Sent ops (t i).ip addr (t i).off n m s s'

write_end-Written :
    {S : Type 0} (ops : Below S) (i addr n : ℕ) (t : Files) (s : S) (o : Option (ℕ × ℕ × S))
    → Chunked ops (t i).ip addr n 0 (t i).off s o
    → Written ops i addr n t s (write_end i n t o)
unfolding write_end
write_end-Written ops i addr n t s none c = c
write_end-Written ops i addr n t s (some (done, off, s')) (m, le, same, at, sent) = (
  m,
  omega (arith, le),
  ap (λ b. if b then n else minus_one) (same ∙ ap (λ k. m == k) (omega arith)),
  ap (λ off. set_off i off t) at,
  subst (λ a. Sent ops (t i).ip a (t i).off n m s s') (omega arith)
      (subst (λ k. Sent ops (t i).ip (addr + 0) (t i).off k m s s') (omega arith) sent),
)

-- `filewrite` of an `int` of bytes to a file that is writable and an inode, where neither the
-- offset nor the address wraps, over writes to the inode that fail or put at most what they are
-- given, as those of `writei` do, does not panic: it makes one transaction after the other, each for
-- at most `max_chunk` of the bytes, in order and without a gap, up to the first that fails or falls
-- short. Its offset moves by the `m` bytes that they have put, and it returns `n` if these are all,
-- and -1 otherwise.
pub filewrite-Written :
    {S : Type 0} (ops : Below S) (i addr n : ℕ) (t : Files) (s : S)
    → Bounded ops (t i).ip
    → (t i).writable ≡ true
    → (t i).type ≡ fd_inode
    → n < 2 ^ 31
    → (t i).off + n < 2 ^ 32
    → addr + n < 2 ^ 64
    → Written ops i addr n t s (filewrite ops i addr n t s)
unfolding filewrite
filewrite-Written ops i addr n t s law w inode int room mapped =
    let small : ltb n (2 ^ 31) ≡ true = ground (arith, int) in
    rw (w, inode, small)
      (write_end-Written ops i addr n t s (chunk_loop ops (t i).ip addr n (suc n) 0 (t i).off s) (
        chunk_loop-Chunked ops (t i).ip law addr n (suc n) 0 (t i).off s (omega arith) (omega arith)
          (omega (arith, room)) mapped))
