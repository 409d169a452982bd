-- ===== src/Memory.antt =====
-- kernel/string.c and the routines of user/ulib.c on memory: `memset`, `memcmp`, `memmove`.
-- Memory is a function from addresses to bytes; the regions do not wrap around the address space.
pub mod Move
pub mod Compare
mod Tests
use os_labs.Prelude.{
  ℕ, zero, suc, ◌+◌, ◌-◌, ◌%◌, Bool, true, false, ◌&&◌, ltb, leb, ◌==◌, if◌then◌else◌, update, ℤ,
  pos, sub_ℕ,
}

abbrev pub Memory : Type 0
Memory = ℕ → ℕ

-- The loop of `memset`, which stores `c` as a `char`.
pub memset_loop : (dst c left i : ℕ) → Memory → Memory
memset_loop dst c zero i mem = mem
memset_loop dst c (suc left) i mem = memset_loop dst c left (i + 1) (update mem (dst + i) (c % 256))

unfoldable pub memset : (dst c n : ℕ) → Memory → Memory
unfolding memset_loop
memset dst c n mem = memset_loop dst c n 0 mem

-- `while(n-- > 0) *d++ = *s++;`
pub move_up : (dst src n : ℕ) → Memory → Memory
move_up dst src zero mem = mem
move_up dst src (suc n) mem = move_up (dst + 1) (src + 1) n (update mem dst (mem src))

-- `while(n-- > 0) *--d = *--s;`, from the ends of the two regions.
pub move_down : (dst src n : ℕ) → Memory → Memory
move_down dst src zero mem = mem
move_down dst src (suc n) mem = move_down dst src n (update mem (dst + n) (mem (src + n)))

-- The kernel's `memmove`.
unfoldable pub memmove : (dst src n : ℕ) → Memory → Memory
unfolding move_up move_down
memmove dst src n mem =
    if n == 0
    then mem
    else if ltb src dst && ltb dst (src + n)
    then move_down dst src n mem
    else move_up dst src n mem

pub memcpy : (dst src n : ℕ) → Memory → Memory
memcpy dst src n mem = memmove dst src n mem

-- The user library's `memmove`, with `n` not negative.
unfoldable pub user_memmove : (dst src n : ℕ) → Memory → Memory
unfolding move_up move_down
user_memmove dst src n mem = if ltb dst src then move_up dst src n mem else move_down dst src n mem

-- `*s1 - *s2` for the first bytes that differ, as an `int`.
unfoldable pub memcmp : Memory → (s1 s2 n : ℕ) → ℤ
memcmp mem s1 s2 zero = pos 0
memcmp mem s1 s2 (suc n) =
    let rest = memcmp mem (s1 + 1) (s2 + 1) n in
    if mem s1 == mem s2 then rest else sub_ℕ (mem s1) (mem s2)
