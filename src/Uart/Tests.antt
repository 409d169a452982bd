-- ===== src/Uart/Tests.antt =====
-- Bytes sent to a terminal, and examples for the theorems.
use os_labs.Prelude.{
  ℕ, zero, suc, ◌+◌, ◌≡◌, ◌<◌, refl, Bool, true, false, Option, none, some, some_eq, [], ◌∷◌, arith,
}
use os_labs.Console.{Cons}
use os_labs.Console.Line.{back, committed, edit_line}
use os_labs.Uart.{Uart, uartstart, start_loop, uartputc, uartintr, receive_loop, consolewrite}
use os_labs.Uart.Send.{queued, Sends, Puts, uartstart-Sends, uartputc-Puts}
use os_labs.Uart.Write.{Writes, consolewrite-Writes}
use os_labs.Uart.Receive.{type_keys, Receives, receive_loop-Receives}

-- A ring with the bytes 7 and 8.
abbrev two_bytes : Uart
two_bytes = record { tx_buf = λ i. 7 + i; tx_w = 2; tx_r = 0 }

two_bytes-IsValid : os_labs.Uart.Send.IsValid two_bytes
two_bytes-IsValid = record { w_word = omega arith; r_word = omega arith; fits = omega arith }

abbrev one_taken : ℕ → Bool
one_taken zero = true
one_taken (suc k) = false

first_sent : uartstart one_taken two_bytes ≡ some (7 ∷ [], record two_bytes { tx_r = 1 })
unfolding uartstart start_loop
first_sent = refl

-- User memory with "hi".
abbrev hi : ℕ → Option ℕ
hi zero = some b'h'
hi (suc zero) = some b'i'
hi (suc (suc a)) = none

hi-byte : (a c : ℕ) → hi a ≡ some c → c < 256
hi-byte zero c e = let at : b'h' ≡ c = some_eq e in omega (arith, at)
hi-byte (suc zero) c e = let at : b'i' ≡ c = some_eq e in omega (arith, at)
hi-byte (suc (suc a)) c e = ground (arith, e)

consolewrite-Writes_example :
    Writes false hi 0 3 0 two_bytes (consolewrite false (λ i. one_taken) hi 0 3 0 two_bytes)
consolewrite-Writes_example =
    consolewrite-Writes false (λ i. one_taken) hi 0 3 0 two_bytes hi-byte two_bytes-IsValid

-- A console on which nothing is typed.
abbrev blank : Cons
blank = record { buf = λ i. 0; r = 0; w = 0; e = 0 }

blank-IsValid : os_labs.Console.Line.IsValid blank
unfolding edit_line back
blank-IsValid = record {
  r_word = omega arith;
  w_word = omega arith;
  e_word = omega arith;
  fits = omega arith;
  one_line = tt;
}

receive_loop-Receives_example :
    Receives
      (receive_loop (b'o' ∷ b'k' ∷ b'\r' ∷ []) blank)
      (type_keys (b'o' ∷ b'k' ∷ b'\r' ∷ []) (committed blank) (edit_line blank))
receive_loop-Receives_example =
    receive_loop-Receives (b'o' ∷ b'k' ∷ b'\r' ∷ []) blank blank-IsValid
      (omega arith, (omega arith, (omega arith, tt)))
