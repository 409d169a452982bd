-- ===== src/Console.antt =====
-- kernel/console.c: the input of the console, edited a line at a time in a ring.
pub mod Line
pub mod Keys
pub mod Store
pub mod Edit
mod Tests
use os_labs.Prelude.{
  ℕ, zero, suc, ◌+◌, ◌-◌, ◌%◌, ◌^◌, Bool, true, false, not, ◌&&◌, ◌||◌, Option, none, some, List,
  [], ◌∷◌, ◌++◌, ltb, ◌==◌, if◌then◌else◌, update,
}

-- INPUT_BUF_SIZE, BACKSPACE, and the control keys.
abbrev pub input_size : ℕ
input_size = 128

abbrev pub backspace : ℕ
backspace = 0x100

-- `C(x)`
abbrev pub control : ℕ → ℕ
control x = x - b'@'

-- `cons`: the ring with its read, write and edit indexes, which are `uint`s.
pub record Cons : Type 0 where
  pub buf : ℕ → ℕ
  pub r : ℕ
  pub w : ℕ
  pub e : ℕ

-- What `consputc` hands to the UART.
abbrev pub consputc : ℕ → List ℕ
consputc c = if c == backspace then b'\x08' ∷ b' ' ∷ b'\x08' ∷ [] else c ∷ []

-- What an interrupt leaves: the state, the echo, whether readers are woken, and whether the process
-- list is printed.
pub record Handled : Type 0 where
  pub cons : Cons
  pub echo : List ℕ
  pub woken : Bool
  pub listed : Bool

abbrev pub previous : ℕ → ℕ
previous i = (i + 2 ^ 32 - 1) % 2 ^ 32

-- Whether ctrl-U takes one more byte off the line.
abbrev pub kills : Cons → Bool
kills s = not (s.e == s.w) && not (s.buf (previous s.e % input_size) == b'\n')

-- The loop that kills a line, with fuel.
unfoldable pub kill_loop : (fuel : ℕ) → Cons → Option (Cons × List ℕ)
kill_loop zero s = none
kill_loop (suc fuel) s = elim (kills s) [
  | false ↦ some (s, [])
  | true ↦ elim (kill_loop fuel (record s { e = previous s.e })) [
    | none ↦ none
    | some (s, echo) ↦ some (s, consputc backspace ++ echo)
  ]
]

-- `c == '\n' || c == C('D') || cons.e-cons.r == INPUT_BUF_SIZE`, for the new `cons.e`.
abbrev pub ends_line : (c : ℕ) → Cons → Bool
ends_line c s =
    c == b'\n' || c == control b'D' || ((s.e + 1) % 2 ^ 32 + 2 ^ 32 - s.r) % 2 ^ 32 == input_size

-- A key that is kept: it is echoed and stored, and a finished line is given to the readers.
abbrev pub stored : (line : Bool) → (c : ℕ) → Cons → Handled
stored line c s = record {
  cons = record {
    buf = update s.buf (s.e % input_size) (c % 256);
    r = s.r;
    w = if line then (s.e + 1) % 2 ^ 32 else s.w;
    e = (s.e + 1) % 2 ^ 32;
  };
  echo = consputc c;
  woken = line;
  listed = false;
}

unfoldable pub store : (c : ℕ) → Cons → Handled
store c s = stored (ends_line c s) c s

abbrev pub quiet : Cons → Handled
quiet s = record { cons = s; echo = []; woken = false; listed = false }

-- The backspace key.
abbrev pub rub : Cons → Handled
rub s =
    if s.e == s.w
    then quiet s
    else record (quiet (record s { e = previous s.e })) { echo = consputc backspace }

abbrev pub killed_line : Cons × List ℕ → Handled
killed_line (s, echo) = record { cons = s; echo = echo; woken = false; listed = false }

-- `consoleintr(c)`. The line has at most 128 bytes, so that the loop has fuel enough.
unfoldable pub consoleintr : (c : ℕ) → Cons → Option Handled
consoleintr c s =
    if c == control b'P'
    then some (record (quiet s) { listed = true })
    else if c == control b'U'
    then elim (kill_loop (suc input_size) s) [ none ↦ none | some r ↦ some (killed_line r) ]
    else if c == control b'H' || c == 0x7f
    then some (rub s)
    else if not (c == 0) && ltb ((s.e + 2 ^ 32 - s.r) % 2 ^ 32) input_size
    then some (store (if c == b'\r' then b'\n' else c) s)
    else some (quiet s)

-- How a run of `consoleread` ends.
pub data Outcome : Type 0 where
  returned : (count : ℕ) → Outcome
  failed : Outcome
  slept : (left dst : ℕ) → Outcome

-- The loop of `consoleread`, from its start or after a sleep; `mem` is undefined where
-- `either_copyout` fails.
unfoldable pub consoleread :
    (killed : Bool)
    → (target left dst : ℕ) → (mem : ℕ → Option ℕ) → Cons
    → Outcome × (ℕ → Option ℕ) × Cons
consoleread killed target zero dst mem s = (returned target, mem, s)
consoleread killed target (suc left) dst mem s =
    let c = s.buf (s.r % input_size) in
    let s' : Cons = record s { r = (s.r + 1) % 2 ^ 32 } in
    let mem' = update mem dst (some c) in
    let rest = consoleread killed target left ((dst + 1) % 2 ^ 64) mem' s' in
    if s.r == s.w
    then (if killed then (failed, mem, s) else (slept (suc left) dst, mem, s))
    else if c == control b'D'
    then (returned (target - suc left), mem, if ltb (suc left) target then s else s')
    else elim (mem dst) [
      | none ↦ (returned (target - suc left), mem, s')
      | some _ ↦ if c == b'\n' then (returned (target - left), mem', s') else rest
    ]
