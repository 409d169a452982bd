-- ===== src/Uart.antt =====
-- kernel/uart.c and `consolewrite` of kernel/console.c: the ring of bytes on their way to the
-- terminal. The device is what it answers: whether it takes another byte.
pub mod Send
pub mod Write
pub mod Receive
mod Tests
use os_labs.Prelude.{
  ℕ, zero, suc, ◌+◌, ◌%◌, ◌^◌, Bool, true, false, Option, none, some, List, [], ◌∷◌, ◌++◌, ◌==◌,
  if◌then◌else◌, update,
}
use os_labs.Console.{Cons, Handled, consoleintr}

-- UART_TX_BUF_SIZE
abbrev pub tx_size : ℕ
tx_size = 32

-- `uart_tx_buf` with its write and read indexes, which are `uint64`s.
pub record Uart : Type 0 where
  pub tx_buf : ℕ → ℕ
  pub tx_w : ℕ
  pub tx_r : ℕ

-- The bytes sent come first.
abbrev pub sending : List ℕ → Option (List ℕ × Uart) → Option (List ℕ × Uart)
sending sent none = none
sending sent (some (more, u)) = some (sent ++ more, u)

-- The loop of `uartstart`, with fuel: `idle` has the answers of the device, from the `k`-th on.
unfoldable pub start_loop : (idle : ℕ → Bool) → (fuel k : ℕ) → Uart → Option (List ℕ × Uart)
start_loop idle zero k u = none
start_loop idle (suc fuel) k u =
    let rest =
      sending (u.tx_buf (u.tx_r % tx_size) ∷ [])
        (start_loop idle fuel (k + 1) (record u { tx_r = (u.tx_r + 1) % 2 ^ 64 })) in
    if u.tx_w == u.tx_r then some ([], u) else if idle k then rest else some ([], u)

-- `uartstart`: what it sends. The ring has at most 32 bytes.
unfoldable pub uartstart : (idle : ℕ → Bool) → Uart → Option (List ℕ × Uart)
uartstart idle u = start_loop idle (suc tx_size) 0 u

abbrev pub add_byte : ℕ → Uart → Uart
add_byte c u = record {
  tx_buf = update u.tx_buf (u.tx_w % tx_size) (c % 256);
  tx_w = (u.tx_w + 1) % 2 ^ 64;
  tx_r = u.tx_r;
}

-- How a run of `uartputc` under the lock ends.
pub data PutEnds : Type 0 where
  slept : PutEnds
  spins : PutEnds
  done : (sent : List ℕ) → (u : Uart) → PutEnds

abbrev pub put_ends : Option (List ℕ × Uart) → PutEnds
put_ends none = spins
put_ends (some (sent, u)) = done sent u

-- `uartputc(c)`; it spins for ever if the kernel has panicked.
unfoldable pub uartputc : (panicked : Bool) → (idle : ℕ → Bool) → (c : ℕ) → Uart → PutEnds
uartputc panicked idle c u =
    if panicked
    then spins
    else if u.tx_w == (u.tx_r + tx_size) % 2 ^ 64
    then slept
    else put_ends (uartstart idle (add_byte c u))

-- `uartgetc`, from the bytes that have arrived.
unfoldable pub uartgetc : List ℕ → Option ℕ × List ℕ
uartgetc [] = (none, [])
uartgetc (c ∷ input) = (some c, input)

abbrev pub echoing : List ℕ → Option (Cons × List ℕ) → Option (Cons × List ℕ)
echoing echo none = none
echoing echo (some (s, more)) = some (s, echo ++ more)

-- The first loop of `uartintr`, over the bytes that arrive during it, with the echo.
unfoldable pub receive_loop : List ℕ → Cons → Option (Cons × List ℕ)
receive_loop [] s = some (s, [])
receive_loop (c ∷ input) s = elim (consoleintr c s) [
  | none ↦ none
  | some h ↦ echoing h.echo (receive_loop input h.cons)
]

-- `uartintr`: the console, the echo, and what is sent.
unfoldable pub uartintr :
    (idle : ℕ → Bool) → List ℕ → Cons → Uart → Option (Cons × List ℕ × List ℕ × Uart)
uartintr idle input s u = elim (receive_loop input s) [
  | none ↦ none
  | some (s, echo) ↦ elim (uartstart idle u) [
    | none ↦ none
    | some (sent, u) ↦ some (s, echo, sent, u)
  ]
]

-- How a run of `consolewrite` ends: with `i` bytes written, or asleep, or spinning.
pub data WriteEnds : Type 0 where
  wrote slept_after : (i : ℕ) → WriteEnds
  stuck : WriteEnds

abbrev pub sent_first : List ℕ → WriteEnds × List ℕ × Uart → WriteEnds × List ℕ × Uart
sent_first sent (ends, more, u) = (ends, sent ++ more, u)

-- The loop of `consolewrite`, with `left = n - i`; `mem` is undefined where `either_copyin` fails,
-- and `idle i` has the answers of the device during the call for byte `i`.
unfoldable pub consolewrite :
    (panicked : Bool)
    → (idle : ℕ → ℕ → Bool) → (mem : ℕ → Option ℕ) → (src left i : ℕ) → Uart
    → WriteEnds × List ℕ × Uart
consolewrite panicked idle mem src zero i u = (wrote i, [], u)
consolewrite panicked idle mem src (suc left) i u = elim (mem ((src + i) % 2 ^ 64)) [
  | none ↦ (wrote i, [], u)
  | some c ↦ elim (uartputc panicked (idle i) c u) [
    | slept ↦ (slept_after i, [], u)
    | spins ↦ (stuck, [], u)
    | done sent u ↦ sent_first sent (consolewrite panicked idle mem src left (i + 1) u)
  ]
]
