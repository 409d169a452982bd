-- ===== src/CString.antt =====
-- The routines of kernel/string.c and user/ulib.c on strings: bytes in memory, up to a zero. A loop
-- with no bound takes fuel; `none` means that the fuel ran out.
pub mod Text
pub mod Copy
pub mod Scan
mod Tests
use os_labs.Prelude.{
  ℕ, zero, suc, ◌+◌, ◌-◌, ◌*◌, ◌%◌, ◌^◌, Bool, true, false, not, ◌&&◌, ◌||◌, Option, none, some,
  List, [], ◌∷◌, ltb, leb, ◌==◌, if◌then◌else◌, update, ℤ, pos, sub_ℕ,
}
use os_labs.Memory.{Memory}

-- The kernel's `strncmp`.
unfoldable pub strncmp : Memory → (p q n : ℕ) → ℤ
strncmp mem p q zero = pos 0
strncmp mem p q (suc n) =
    let rest = strncmp mem (p + 1) (q + 1) n in
    if not (mem p == 0) && mem p == mem q then rest else sub_ℕ (mem p) (mem q)

-- `while(n-- > 0) *s++ = 0;`
pub pad_loop : (s n : ℕ) → Memory → Memory
pad_loop s zero mem = mem
pad_loop s (suc n) mem = pad_loop (s + 1) n (update mem s 0)

-- The kernel's `strncpy`, with `n` not negative.
unfoldable pub strncpy : (s t n : ℕ) → Memory → Memory
unfolding pad_loop
strncpy s t zero mem = mem
strncpy s t (suc n) mem =
    let c = mem t in
    let mem' = update mem s c in
    let rest = strncpy (s + 1) (t + 1) n mem' in if c == 0 then pad_loop (s + 1) n mem' else rest

-- The loop of `safestrcpy` and the store that follows it, with `left = n - 1`.
pub safestrcpy_loop : (s t left : ℕ) → Memory → Memory
safestrcpy_loop s t zero mem = update mem s 0
safestrcpy_loop s t (suc left) mem =
    let c = mem t in
    let mem' = update mem s c in
    let rest = safestrcpy_loop (s + 1) (t + 1) left mem' in
    if c == 0 then update mem' (s + 1) 0 else rest

-- The kernel's `safestrcpy`, with `n` not negative.
unfoldable pub safestrcpy : (s t n : ℕ) → Memory → Memory
unfolding safestrcpy_loop
safestrcpy s t n mem = if n == 0 then mem else safestrcpy_loop s t (n - 1) mem

pub strlen_loop : Memory → (s fuel n : ℕ) → Option ℕ
strlen_loop mem s zero n = none
strlen_loop mem s (suc fuel) n =
    let rest = strlen_loop mem s fuel (n + 1) in if mem (s + n) == 0 then some n else rest

-- `strlen`, the same in the kernel and in the user library.
unfoldable pub strlen : (fuel : ℕ) → Memory → (s : ℕ) → Option ℕ
unfolding strlen_loop
strlen fuel mem s = strlen_loop mem s fuel 0

-- The user library's `strcmp`.
unfoldable pub strcmp : (fuel : ℕ) → Memory → (p q : ℕ) → Option ℤ
strcmp zero mem p q = none
strcmp (suc fuel) mem p q =
    let rest = strcmp fuel mem (p + 1) (q + 1) in
    if not (mem p == 0) && mem p == mem q then rest else some (sub_ℕ (mem p) (mem q))

-- The user library's `strcpy`.
unfoldable pub strcpy : (fuel s t : ℕ) → Memory → Option Memory
strcpy zero s t mem = none
strcpy (suc fuel) s t mem =
    let mem' = update mem s (mem t) in
    let rest = strcpy fuel (s + 1) (t + 1) mem' in if mem t == 0 then some mem' else rest

-- The user library's `strchr`: the address, or `some none` for the null pointer.
unfoldable pub strchr : (fuel : ℕ) → Memory → (s c : ℕ) → Option (Option ℕ)
strchr zero mem s c = none
strchr (suc fuel) mem s c =
    let rest = strchr fuel mem (s + 1) c in
    if mem s == 0 then some none else if mem s == c then some (some s) else rest

-- The user library's `atoi`, with an `int` that wraps.
unfoldable pub atoi_loop : (fuel : ℕ) → Memory → (s n : ℕ) → Option ℕ
atoi_loop zero mem s n = none
atoi_loop (suc fuel) mem s n =
    let rest = atoi_loop fuel mem (s + 1) ((n * 10 + mem s - b'0') % 2 ^ 32) in
    if leb b'0' (mem s) && leb (mem s) b'9' then rest else some n

unfoldable pub atoi : (fuel : ℕ) → Memory → (s : ℕ) → Option ℕ
unfolding atoi_loop
atoi fuel mem s = atoi_loop fuel mem s 0

-- The loop of `gets`, with `left = max - 1 - i`: `read(0, &c, 1)` takes a byte of the input, and
-- gives less than 1 at its end.
pub gets_loop : (input : List ℕ) → (buf left : ℕ) → Memory → List ℕ × ℕ × Memory
gets_loop input buf zero mem = (input, buf, mem)
gets_loop [] buf (suc left) mem = ([], buf, mem)
gets_loop (c ∷ input) buf (suc left) mem =
    let mem' = update mem buf c in
    let rest = gets_loop input (buf + 1) left mem' in
    if c == b'\n' || c == b'\r' then (input, buf + 1, mem') else rest

-- The user library's `gets`: what is left of the input, and memory.
unfoldable pub gets : (input : List ℕ) → (buf max : ℕ) → Memory → List ℕ × Memory
unfolding gets_loop
gets input buf max mem =
    let (input, i, mem) = gets_loop input buf (max - 1) mem in (input, update mem i 0)
