-- ===== src/Memory/Move.antt =====
-- What `memset` and the two `memmove` leave at each address.
use os_labs.Prelude.{
  ℕ, zero, suc, ◌+◌, ◌-◌, ◌%◌, ◌≤◌, ◌≡◌, ◌⊎◌, inl, inr, ◌∙◌, sym, Bool, ◌&&◌, arith, ltb, leb, ◌==◌,
  if◌then◌else◌, update, Bool-cases,
}
use os_labs.Memory.{Memory, memset_loop, memset, move_up, move_down, memmove, user_memmove}

-- `p` is one of the `n` addresses from `dst` on.
abbrev pub inside : (dst n p : ℕ) → Bool
inside dst n p = leb dst p && ltb p (dst + n)

-- Memory after the `n` bytes at `src` have been taken at once and put at `dst`.
abbrev pub moved : (dst src n : ℕ) → Memory → Memory
moved dst src n mem p = if inside dst n p then mem (src + (p - dst)) else mem p

memset_loop_lem :
    (dst c left i : ℕ) (mem : Memory) (p : ℕ)
    → memset_loop dst c left i mem p ≡ (if inside (dst + i) left p then c % 256 else mem p)
unfolding memset_loop
memset_loop_lem dst c zero i mem p = ground arith
memset_loop_lem dst c (suc left) i mem p =
    memset_loop_lem dst c left (i + 1) (update mem (dst + i) (c % 256)) p ∙ ground arith

-- `memset` stores the low byte of `c` at the `n` addresses from `dst` on, and changes no other.
pub memset_lem :
    (dst c n : ℕ) (mem : Memory) (p : ℕ)
    → memset dst c n mem p ≡ (if inside dst n p then c % 256 else mem p)
unfolding memset
memset_lem dst c n mem p = memset_loop_lem dst c n 0 mem p ∙ ground arith

move_down_lem :
    (dst src n : ℕ) (mem : Memory) (p : ℕ)
    → src ≤ dst
    → move_down dst src n mem p ≡ moved dst src n mem p
unfolding move_down
move_down_lem dst src zero mem p h = ground arith
move_down_lem dst src (suc n) mem p h =
    move_down_lem dst src n (update mem (dst + n) (mem (src + n))) p h ∙ ground arith

move_up_lem :
    (dst src n : ℕ) (mem : Memory) (p : ℕ)
    → (dst ≤ src) ⊎ (src + n ≤ dst)
    → move_up dst src n mem p ≡ moved dst src n mem p
unfolding move_up
move_up_lem dst src zero mem p h = ground arith
move_up_lem dst src (suc n) mem p h =
    move_up_lem (dst + 1) (src + 1) n (update mem dst (mem src)) p (ground arith)
    ∙ ground (arith, h)

-- The kernel's `memmove` moves the bytes as if they were all read before the first is written, also
-- where the regions overlap.
pub memmove_lem :
    (dst src n : ℕ) (mem : Memory) (p : ℕ) → memmove dst src n mem p ≡ moved dst src n mem p
unfolding memmove
memmove_lem dst src n mem p = elim (Bool-cases (n == 0)) [
  | inl e ↦ rw e (ground arith)
  | inr e ↦ elim (Bool-cases (ltb src dst && ltb dst (src + n))) [
    | inl down ↦ rw (e, down) (move_down_lem dst src n mem p (ground arith))
    | inr up ↦ rw (e, up) (move_up_lem dst src n mem p (ground arith))
  ]
]

-- The user library's `memmove`, which chooses its direction by another test, does the same.
pub user_memmove-memmove :
    (dst src n : ℕ) (mem : Memory) (p : ℕ) → user_memmove dst src n mem p ≡ memmove dst src n mem p
unfolding user_memmove
user_memmove-memmove dst src n mem p = elim (Bool-cases (ltb dst src)) [
  | inl up ↦
      rw up (move_up_lem dst src n mem p (inl (ground arith)) ∙ sym (memmove_lem dst src n mem p))
  | inr down ↦
      rw down (move_down_lem dst src n mem p (ground arith) ∙ sym (memmove_lem dst src n mem p))
]
