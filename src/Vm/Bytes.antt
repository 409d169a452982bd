-- ===== src/Vm/Bytes.antt =====
-- `copyin`, `copyinstr` and `copyout` of kernel/vm.c. What is copied into the kernel is the list of
-- the bytes that are stored at `dst`, in order.
use os_labs.Prelude.{
  ℕ, zero, suc, ◌+◌, ◌-◌, ◌*◌, ◌/◌, ◌%◌, ◌^◌, Bool, true, false, List, [], ◌∷◌, ◌++◌, ltb, ◌==◌,
  if◌then◌else◌, update, length,
}
use os_labs.Kalloc.{page_size, Words, Kmem}
use os_labs.Vm.{walkaddr}
use os_labs.Panic.{Run, done, out_of_fuel, ◌>>=◌}
use os_labs.Vm.Entry.{page_round_down}

-- The byte at address `a` of little-endian memory.
abbrev pub load_byte : Words → (a : ℕ) → ℕ
load_byte words a = words (a - a % 8) / 256 ^ (a % 8) % 256

abbrev pub store_byte : (a c : ℕ) → Words → Words
store_byte a c words =
    update words (a - a % 8)
      (words (a - a % 8) - load_byte words a * 256 ^ (a % 8) + c % 256 * 256 ^ (a % 8))

unfoldable pub load_bytes : Words → (a n : ℕ) → List ℕ
load_bytes words a zero = []
load_bytes words a (suc n) = load_byte words a ∷ load_bytes words (a + 1) n

unfoldable pub store_bytes : (a : ℕ) → List ℕ → Words → Words
store_bytes a [] words = words
store_bytes a (c ∷ cs) words = store_bytes (a + 1) cs (store_byte a c words)

-- How many bytes are left on the page of `va`, or `len` if these are fewer.
abbrev pub chunk : (va len : ℕ) → ℕ
chunk va len = let n = page_size - (va - page_round_down va) in if ltb len n then len else n

-- The loop of `copyin`: 0 is true, and -1 false.
unfoldable pub copyin : (fuel pagetable srcva len : ℕ) → Kmem → Run (Bool × List ℕ)
copyin zero pagetable srcva len k = out_of_fuel
copyin (suc fuel) pagetable srcva zero k = done (true, [])
copyin (suc fuel) pagetable srcva (suc left) k =
    let len : ℕ = suc left in
    let va0 = page_round_down srcva in
    let pa0 = walkaddr pagetable va0 k in
    let n : ℕ = chunk srcva len in
    let rest = copyin fuel pagetable ((va0 + page_size) % 2 ^ 64) (len - n) k in
    if pa0 == 0
    then done (false, [])
    else rest >>= λ r. done (r.0, load_bytes k.words (pa0 + (srcva - va0)) n ++ r.1)

-- The inner loop of `copyinstr`: `got_null`, and the bytes.
unfoldable pub scan : Words → (p n : ℕ) → Bool × List ℕ
scan words p zero = (false, [])
scan words p (suc n) =
    let c = load_byte words p in
    let rest = scan words (p + 1) n in if c == 0 then (true, 0 ∷ []) else (rest.0, c ∷ rest.1)

unfoldable pub copyinstr : (fuel pagetable srcva max : ℕ) → Kmem → Run (Bool × List ℕ)
copyinstr zero pagetable srcva max k = out_of_fuel
copyinstr (suc fuel) pagetable srcva zero k = done (false, [])
copyinstr (suc fuel) pagetable srcva (suc left) k =
    let max : ℕ = suc left in
    let va0 = page_round_down srcva in
    let pa0 = walkaddr pagetable va0 k in
    let n : ℕ = chunk srcva max in
    let (got_null, bytes) = scan k.words (pa0 + (srcva - va0)) n in
    let rest = copyinstr fuel pagetable ((va0 + page_size) % 2 ^ 64) (max - n) k in
    if pa0 == 0
    then done (false, [])
    else if got_null
    then done (true, bytes)
    else rest >>= λ r. done (r.0, bytes ++ r.1)

-- The first `n` bytes, and the others.
abbrev pub split_bytes : (n : ℕ) → List ℕ → List ℕ × List ℕ
split_bytes zero cs = ([], cs)
split_bytes (suc n) [] = ([], [])
split_bytes (suc n) (c ∷ cs) = let (before, after) = split_bytes n cs in (c ∷ before, after)

-- `copyout` of the bytes at `src`.
unfoldable pub copyout : (fuel pagetable dstva : ℕ) → (src : List ℕ) → Kmem → Run (Bool × Kmem)
copyout zero pagetable dstva src k = out_of_fuel
copyout (suc fuel) pagetable dstva [] k = done (true, k)
copyout (suc fuel) pagetable dstva (c ∷ src) k =
    let va0 = page_round_down dstva in
    let pa0 = walkaddr pagetable va0 k in
    let (now, later) = split_bytes (chunk dstva (length (c ∷ src))) (c ∷ src) in
    let words = store_bytes (pa0 + (dstva - va0)) now k.words in
    let rest =
      copyout fuel pagetable ((va0 + page_size) % 2 ^ 64) later (record k { words = words }) in
    if pa0 == 0 then done (false, k) else rest
